-- ===== src/Stdio/Laws.antt =====
-- What `sscanf` reads of a field that `sprintf` wrote.
use network_layer_verificati.Prelude.{
  ℕ, zero, suc, ◌+◌, ◌-◌, ◌*◌, ◌^◌, ◌≤◌, ◌<◌, ◌≡◌, refl, sym, ◌∙◌, ap, true, false, some, List, [],
  ◌∷◌, ◌++◌, arith, length, replicate, length-append, length-replicate, pos, to_int,
  to_int_of_IsInt, All, append_assoc, IsString, IsString-append,
}
use network_layer_verificati.Stdio.{
  dec, pad_left, print_int, print_int_zeros, print_int_spaces, skip_spaces, scan_digits,
  scan_unsigned, scan_signed, scan_int,
}
use network_layer_verificati.Stdio.Decimal.{
  IsDigit, ten_to, value, value-append, value-zeros, All-append, starts_with_digit, value-dec,
  dec-IsDigit, length-dec-le, dec_head,
}

-- The scan takes a run of digits that fills its width, whatever follows.
scan_digits_full :
    (w acc : ℕ) (s rest : List ℕ)
    → All IsDigit s
    → length s ≡ w
    → scan_digits w acc (s ++ rest) ≡ (value acc s, rest)
unfolding scan_digits value
scan_digits_full zero acc [] rest h l = refl
scan_digits_full zero acc (c ∷ s) rest h l = absurd (omega arith)
scan_digits_full (suc w) acc [] rest h l = absurd (omega arith)
scan_digits_full (suc w) acc (c ∷ s) rest h l =
    ground (arith, scan_digits_full w (acc * 10 + (c - b'0')) s rest h.1)

-- It ends in front of what is no digit.
pub scan_digits_stop :
    (w acc : ℕ) (s rest : List ℕ)
    → All IsDigit s
    → length s ≤ w
    → starts_with_digit rest ≡ false
    → scan_digits w acc (s ++ rest) ≡ (value acc s, rest)
unfolding scan_digits value
scan_digits_stop zero acc [] rest h l d = refl
scan_digits_stop zero acc (c ∷ s) rest h l d = absurd (omega arith)
scan_digits_stop (suc w) acc [] [] h l d = refl
scan_digits_stop (suc w) acc [] (c ∷ rest) h l d = ground arith
scan_digits_stop (suc w) acc (c ∷ s) rest h l d =
    ground (arith, scan_digits_stop w (acc * 10 + (c - b'0')) s rest h.1)

-- A field that begins with a digit is scanned as it stands.
pub scan_int_digits :
    (w : ℕ) (s : List ℕ)
    → starts_with_digit s ≡ true
    → scan_int (suc w) s
      ≡ some (to_int (pos (scan_digits (suc w) 0 s).0), (scan_digits (suc w) 0 s).1)
unfolding scan_int skip_spaces scan_signed scan_unsigned
scan_int_digits w [] h = cc
scan_int_digits w (c ∷ s) h = ground arith

skip_spaces-replicate : (k : ℕ) (s : List ℕ) → skip_spaces (replicate k 32 ++ s) ≡ skip_spaces s
unfolding skip_spaces replicate
skip_spaces-replicate zero s = refl
skip_spaces-replicate (suc k) s = skip_spaces-replicate k s

scan_int-spaces : (w k : ℕ) (s : List ℕ) → scan_int w (replicate k 32 ++ s) ≡ scan_int w s
unfolding scan_int
scan_int-spaces w k s = ap (scan_signed w) (skip_spaces-replicate k s)

pub head-append : (s t : List ℕ) → starts_with_digit s ≡ true → starts_with_digit (s ++ t) ≡ true
head-append [] t h = cc
head-append (c ∷ s) t h = h

head_of_IsDigit :
    (w : ℕ) (s t : List ℕ) → All IsDigit s → length s ≡ suc w → starts_with_digit (s ++ t) ≡ true
head_of_IsDigit w [] t h l = absurd (omega arith)
head_of_IsDigit w (c ∷ s) t h l = ground arith

replicate-IsDigit : (k : ℕ) → All IsDigit (replicate k b'0')
unfolding replicate
replicate-IsDigit zero = tt
replicate-IsDigit (suc k) = ((omega arith, omega arith), replicate-IsDigit k)

pub length-pad_left : (w c : ℕ) (s : List ℕ) → length s ≤ w → length (pad_left w c s) ≡ w
unfolding pad_left
length-pad_left w c s h =
    omega (arith, length-append (replicate (w - length s) c) s, length-replicate (w - length s) c)

zeros-IsDigit : (w n : ℕ) → All IsDigit (print_int_zeros w (pos n))
unfolding print_int_zeros pad_left
zeros-IsDigit w n =
    All-append IsDigit (replicate (w - length (dec n)) b'0') (dec n)
      (replicate-IsDigit (w - length (dec n))) (dec-IsDigit n)

value-zeros_field : (w n : ℕ) → n < 10 ^ 10 → value 0 (print_int_zeros w (pos n)) ≡ n
unfolding print_int_zeros pad_left
value-zeros_field w n h =
    value-append 0 (replicate (w - length (dec n)) b'0') (dec n)
    ∙ (ap (λ a. value a (dec n)) (value-zeros (w - length (dec n))) ∙ value-dec n h)

pub length-print_int_zeros :
    (w n : ℕ) → n < ten_to (suc w) → length (print_int_zeros (suc w) (pos n)) ≡ suc w
unfolding print_int_zeros
length-print_int_zeros w n h =
    length-pad_left (suc w) b'0' (dec n) (length-dec-le (suc w) n (omega arith) h)

-- "%0<w>d" of a number of w digits at most, read by "%<w>d" whatever follows it.
pub scan_int-print_int_zeros :
    (w n : ℕ) (rest : List ℕ)
    → n < ten_to (suc w)
    → n < 2 ^ 31
    → scan_int (suc w) (print_int_zeros (suc w) (pos n) ++ rest) ≡ some (pos n, rest)
scan_int-print_int_zeros w n rest h small =
    let field = print_int_zeros (suc w) (pos n) in
    let l = length-print_int_zeros w n h in
    let e = scan_digits_full (suc w) 0 field rest (zeros-IsDigit (suc w) n) l in
    scan_int_digits w (field ++ rest) (head_of_IsDigit w field rest (zeros-IsDigit (suc w) n) l)
    ∙ (ap (λ t. some (to_int (pos t.0), t.1)) e
        ∙ ap (λ z. some (z, rest))
            (ap (λ k. to_int (pos k)) (value-zeros_field (suc w) n (omega arith))
              ∙ to_int_of_IsInt (pos n) (omega arith, small)))

-- "%10d" of a number, read by "%10d" in front of what is no digit.
pub scan_int-print_int_spaces :
    (n : ℕ) (rest : List ℕ)
    → n < 2 ^ 31
    → starts_with_digit rest ≡ false
    → scan_int 10 (print_int_spaces 10 (pos n) ++ rest) ≡ some (pos n, rest)
unfolding print_int_spaces pad_left print_int
scan_int-print_int_spaces n rest small d =
    let e =
      scan_digits_stop 10 0 (dec n) rest (dec-IsDigit n)
        (length-dec-le 10 n (omega arith) (omega arith)) d in
    ap (scan_int 10) (append_assoc (replicate (10 - length (dec n)) 32) (dec n) rest)
    ∙ (scan_int-spaces 10 (10 - length (dec n)) (dec n ++ rest)
        ∙ (scan_int_digits 9 (dec n ++ rest) (head-append (dec n) rest (dec_head n (omega arith)))
            ∙ (ap (λ t. some (to_int (pos t.0), t.1)) e
                ∙ ap (λ z. some (z, rest))
                    (ap (λ k. to_int (pos k)) (value-dec n (omega arith))
                      ∙ to_int_of_IsInt (pos n) (omega arith, small)))))

-- In front of one more digit, the digit becomes the last one of the number.
pub scan_int-print_int_spaces_digit :
    (n c : ℕ) (rest : List ℕ)
    → n < 10 ^ 8
    → IsDigit c
    → starts_with_digit rest ≡ false
    → scan_int 10 (print_int_spaces 10 (pos n) ++ c ∷ rest) ≡ some (pos (n * 10 + (c - b'0')), rest)
unfolding print_int_spaces pad_left print_int
scan_int-print_int_spaces_digit n c rest small hc d =
    let s : List ℕ = dec n ++ c ∷ [] in
    let digits : All IsDigit (dec n ++ c ∷ []) =
      All-append IsDigit (dec n) (c ∷ []) (dec-IsDigit n) (hc, tt) in
    let short : length (dec n ++ c ∷ []) ≤ 10 =
      omega
        (arith, length-append (dec n) (c ∷ []), length-dec-le 8 n (omega arith) (omega arith)) in
    let e = scan_digits_stop 10 0 (dec n ++ c ∷ []) rest digits short d in
    let val : value 0 (dec n ++ c ∷ []) ≡ n * 10 + (c - b'0') =
      value-append 0 (dec n) (c ∷ [])
      ∙ unfold value in ap (λ k. k * 10 + (c - b'0')) (value-dec n (omega arith)) in
    ap (scan_int 10) (append_assoc (replicate (10 - length (dec n)) 32) (dec n) (c ∷ rest))
    ∙ (scan_int-spaces 10 (10 - length (dec n)) (dec n ++ c ∷ rest)
        ∙ (scan_int_digits 9 (dec n ++ c ∷ rest)
              (head-append (dec n) (c ∷ rest) (dec_head n (omega arith)))
            ∙ (ap (λ t. some (to_int (pos (scan_digits 10 0 t).0), (scan_digits 10 0 t).1))
                  (sym (append_assoc (dec n) (c ∷ []) rest))
                ∙ (ap (λ t. some (to_int (pos t.0), t.1)) e
                    ∙ ap (λ z. some (z, rest))
                        (ap (λ k. to_int (pos k)) val
                          ∙ to_int_of_IsInt (pos (n * 10 + (c - b'0')))
                              (omega arith, omega arith))))))

pub IsDigit-IsString : (s : List ℕ) → All IsDigit s → IsString s
IsDigit-IsString [] h = tt
IsDigit-IsString (c ∷ s) h = ((omega arith, omega arith), IsDigit-IsString s h.1)

spaces-IsString : (k : ℕ) → IsString (replicate k 32)
unfolding replicate
spaces-IsString zero = tt
spaces-IsString (suc k) = ((omega arith, omega arith), spaces-IsString k)

pub print_int_zeros-IsString : (w n : ℕ) → IsString (print_int_zeros w (pos n))
print_int_zeros-IsString w n = IsDigit-IsString (print_int_zeros w (pos n)) (zeros-IsDigit w n)

pub print_int_spaces-IsString : (w n : ℕ) → IsString (print_int_spaces w (pos n))
unfolding print_int_spaces pad_left print_int
print_int_spaces-IsString w n =
    IsString-append (replicate (w - length (dec n)) 32) (dec n)
      (spaces-IsString (w - length (dec n))) (IsDigit-IsString (dec n) (dec-IsDigit n))
