-- ===== src/Stdio/Numbers.antt =====
-- What `sscanf` reads of a number that `sprintf` wrote with "%d".
use network_layer_verificati.Prelude.{
  ℕ, zero, suc, ◌-◌, ◌^◌, ◌≤◌, ◌<◌, ◌≡◌, ◌∙◌, ap, Bool, true, false, some, List, [], ◌∷◌, ◌++◌,
  arith, ℤ, pos, negsuc, to_int, to_int_of_IsInt, IsInt, IsString,
}
use network_layer_verificati.Stdio.{
  dec, print_int, skip_spaces, scan_digits, scan_unsigned, scan_signed, scan_int, signed,
}
use network_layer_verificati.Stdio.Decimal.{
  starts_with_digit, value-dec, dec-IsDigit, length-dec-le, dec_head,
}
use network_layer_verificati.Stdio.Laws.{
  scan_digits_stop, head-append, scan_int_digits, IsDigit-IsString,
}

scan_unsigned_digits :
    (negative : Bool) (w : ℕ) (s : List ℕ)
    → starts_with_digit s ≡ true
    → scan_unsigned negative (suc w) s
      ≡ some (to_int (signed negative (scan_digits (suc w) 0 s).0), (scan_digits (suc w) 0 s).1)
unfolding scan_unsigned
scan_unsigned_digits negative w [] h = cc
scan_unsigned_digits negative w (c ∷ s) h = ground arith

scan_digits-dec :
    (n w : ℕ) (rest : List ℕ)
    → n < 10 ^ 10
    → 10 ≤ w
    → starts_with_digit rest ≡ false
    → scan_digits w 0 (dec n ++ rest) ≡ (n, rest)
scan_digits-dec n w rest small wide d =
    scan_digits_stop w 0 (dec n) rest (dec-IsDigit n)
      (omega (arith, length-dec-le 10 n (omega arith) (omega arith))) d
    ∙ ap (λ k. (k, rest)) (value-dec n small)

-- "%d" of an `int`, read by "%d" in front of what is no digit.
pub scan_int-print_int :
    (z : ℤ) (w : ℕ) (rest : List ℕ)
    → IsInt z
    → 11 ≤ w
    → starts_with_digit rest ≡ false
    → scan_int w (print_int z ++ rest) ≡ some (z, rest)
unfolding print_int scan_int skip_spaces scan_signed
scan_int-print_int z zero rest i wide d = absurd (omega arith)
scan_int-print_int (pos n) (suc w) rest i wide d =
    scan_int_digits w (dec n ++ rest) (head-append (dec n) rest (dec_head n (omega arith)))
    ∙ (ap (λ t. some (to_int (pos t.0), t.1))
          (scan_digits-dec n (suc w) rest (omega arith) (omega arith) d)
        ∙ ap (λ k. some (k, rest)) (to_int_of_IsInt (pos n) i))
scan_int-print_int (negsuc n) (suc zero) rest i wide d = absurd (omega arith)
scan_int-print_int (negsuc n) (suc (suc w)) rest i wide d =
    let width : suc (suc w) - 1 ≡ suc w = omega arith in
    rw width (
      scan_unsigned_digits true w (dec (suc n) ++ rest)
        (head-append (dec (suc n)) rest (dec_head (suc n) (omega arith)))
      ∙ (ap (λ t. some (to_int (signed true t.0), t.1))
            (scan_digits-dec (suc n) (suc w) rest (omega arith) (omega arith) d)
          ∙ ap (λ k. some (k, rest)) (to_int_of_IsInt (negsuc n) i)))

pub print_int-IsString : (z : ℤ) → IsString (print_int z)
unfolding print_int
print_int-IsString (pos n) = IsDigit-IsString (dec n) (dec-IsDigit n)
print_int-IsString (negsuc n) =
    ((omega arith, omega arith), IsDigit-IsString (dec (suc n)) (dec-IsDigit (suc n)))
