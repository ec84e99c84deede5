-- ===== src/Stdio.antt =====
-- The conversions of the C library's `sprintf` and `sscanf` that the sources use: decimal `int`s
-- of a given width, and single characters.
pub mod Decimal
pub mod Laws
pub mod Numbers
use network_layer_verificati.Prelude.{
  ℕ, zero, suc, ◌+◌, ◌-◌, ◌*◌, ◌/◌, ◌%◌, Bool, true, false, ◌&&◌, ◌||◌, Option, none, some, List,
  [], ◌∷◌, ◌++◌, ltb, leb, ◌==◌, if◌then◌else◌, length, replicate, ℤ, pos, negsuc, to_int,
}

-- the decimal digits of a number below 10 ^ fuel
unfoldable pub dec_fuel : ℕ → ℕ → List ℕ
dec_fuel zero n = []
dec_fuel (suc fuel) n =
    let front = dec_fuel fuel (n / 10) in
    if ltb n 10 then (n + b'0') ∷ [] else front ++ (n % 10 + b'0') ∷ []

-- an `int` has ten digits at most
unfoldable pub dec : ℕ → List ℕ
unfolding dec_fuel
dec n = dec_fuel 10 n

unfoldable pub pad_left : ℕ → ℕ → List ℕ → List ℕ
pad_left width c s = replicate (width - length s) c ++ s

-- "%d"
unfoldable pub print_int : ℤ → List ℕ
print_int (pos n) = dec n
print_int (negsuc n) = b'-' ∷ dec (suc n)

-- "%0<width>d"
unfoldable pub print_int_zeros : ℕ → ℤ → List ℕ
print_int_zeros width (pos n) = pad_left width b'0' (dec n)
print_int_zeros width (negsuc n) = b'-' ∷ pad_left (width - 1) b'0' (dec (suc n))

-- "%<width>d"
unfoldable pub print_int_spaces : ℕ → ℤ → List ℕ
unfolding print_int
print_int_spaces width z = pad_left width 32 (print_int z)

abbrev pub is_digit : ℕ → Bool
is_digit c = leb b'0' c && leb c b'9'

abbrev pub is_space : ℕ → Bool
is_space c = c == 32 || (leb 9 c && leb c 13)

unfoldable pub skip_spaces : List ℕ → List ℕ
skip_spaces [] = []
skip_spaces (c ∷ s) = if is_space c then skip_spaces s else c ∷ s

-- as many digits as there are, up to `width`
unfoldable pub scan_digits : ℕ → ℕ → List ℕ → ℕ × List ℕ
scan_digits zero acc s = (acc, s)
scan_digits (suc width) acc [] = (acc, [])
scan_digits (suc width) acc (c ∷ s) =
    let more = scan_digits width (acc * 10 + (c - b'0')) s in
    if is_digit c then more else (acc, c ∷ s)

-- a number and its sign
abbrev pub signed : Bool → ℕ → ℤ
signed false n = pos n
signed true zero = pos 0
signed true (suc n) = negsuc n

-- One digit at least. The value is cut to an `int`.
unfoldable pub scan_unsigned : Bool → ℕ → List ℕ → Option (ℤ × List ℕ)
scan_unsigned negative zero s = none
scan_unsigned negative (suc width) [] = none
scan_unsigned negative (suc width) (c ∷ s) =
    if is_digit c
    then some (
      to_int (signed negative (scan_digits (suc width) 0 (c ∷ s)).0),
      (scan_digits (suc width) 0 (c ∷ s)).1,
    )
    else none

unfoldable pub scan_signed : ℕ → List ℕ → Option (ℤ × List ℕ)
unfolding scan_unsigned
scan_signed width [] = none
scan_signed width (c ∷ s) =
    if c == b'-'
    then scan_unsigned true (width - 1) s
    else if c == b'+'
    then scan_unsigned false (width - 1) s
    else scan_unsigned false width (c ∷ s)

-- "%<width>d", which reads a width with a leading 0 as well; `none` if it does not match
unfoldable pub scan_int : ℕ → List ℕ → Option (ℤ × List ℕ)
unfolding skip_spaces scan_signed
scan_int width s = scan_signed width (skip_spaces s)

-- "%c"
unfoldable pub scan_char : List ℕ → Option (ℕ × List ℕ)
scan_char [] = none
scan_char (c ∷ s) = some (c, s)

-- the characters up to the next space
unfoldable pub scan_nonspaces : List ℕ → List ℕ × List ℕ
scan_nonspaces [] = ([], [])
scan_nonspaces (c ∷ s) =
    let (word, rest) = scan_nonspaces s in if is_space c then ([], c ∷ s) else (c ∷ word, rest)

abbrev pub match_word : List ℕ × List ℕ → Option (List ℕ × List ℕ)
match_word ([], rest) = none
match_word (c ∷ word, rest) = some (c ∷ word, rest)

-- "%s", which matches one character at least
unfoldable pub scan_word : List ℕ → Option (List ℕ × List ℕ)
unfolding skip_spaces scan_nonspaces
scan_word s = match_word (scan_nonspaces (skip_spaces s))
