-- ===== src/IpPacket/Digits.antt =====
-- `int_to_str` and `str_to_int` of ip.c: fixed-width decimal fields.
use native.Mathlib.Nat.{
  div-lt_iff_lt-mul, div-add-mod', mod-mod_of_dvd, dvd-mul_right, mod-lt, mod-eq_of_lt,
}
use network_layer_verificati.Prelude.{
  ℕ, zero, suc, ◌+◌, ◌*◌, ◌/◌, ◌%◌, ◌^◌, ◌≤◌, ◌<◌, ◌≡◌, refl, ◌∙◌, ap, ap₂, List, [], ◌∷◌, ◌++◌,
  arith, length, drop, pos, some, true, ltb, lt→ltb, ℕ_discrete, to_int, ◌+ℤ◌, ◌-ℤ◌,
}
use network_layer_verificati.IpPacket.{
  add_digit, digits_to_int, str_to_int, power, power_loop, digit_char, write_digits, int_to_str,
}

abbrev pub pow10 : ℕ → ℕ
pow10 zero = 1
pow10 (suc k) = pow10 k * 10

pub pow10_pos : (k : ℕ) → 0 < pow10 k
pow10_pos zero = omega arith
pow10_pos (suc k) = omega (arith, pow10_pos k)

pub digit_split :
    (n p : ℕ) → 0 < p → (n % (p * 10) / p < 10) × (n % (p * 10) ≡ n % (p * 10) / p * p + n % p)
digit_split n p h =
    let x = n % (p * 10) in
    let below : x < 10 * p = omega (arith, mod-lt n {m = p * 10} (omega arith)) in
    (
      (div-lt_iff_lt-mul h).1 below,
      omega (arith, div-add-mod' (n % (p * 10)) p, mod-mod_of_dvd p n (dvd-mul_right p 10)),
    )

-- the digits of `n % pow10 k`, first the highest
unfoldable pub digit_list : ℕ → ℕ → List ℕ
digit_list zero n = []
digit_list (suc k) n = (n % (pow10 k * 10) / pow10 k + b'0') ∷ digit_list k n

pub length-digit_list : (k n : ℕ) → length (digit_list k n) ≡ k
unfolding digit_list
length-digit_list zero n = refl
length-digit_list (suc k) n = ap suc (length-digit_list k n)

digit_char_lem : (n p : ℕ) → 0 < p → digit_char (pos n) (p * 10) p ≡ n % (p * 10) / p + b'0'
unfolding digit_char
digit_char_lem n p h = omega (arith, digit_split n p h)

write_digits-digit_list :
    (str : List ℕ) (k n : ℕ)
    → k ≤ length str
    → write_digits str k (pow10 k) (pos n) ≡ digit_list k n ++ drop k str
unfolding write_digits digit_list
write_digits-digit_list str zero n h = refl
write_digits-digit_list [] (suc k) n h = absurd (omega arith)
write_digits-digit_list (c ∷ str) (suc k) n h =
    let e : pow10 k * 10 / 10 ≡ pow10 k = omega arith in
    rw e (
      ap₂ ◌∷◌ (digit_char_lem n (pow10 k) (pow10_pos k))
        (write_digits-digit_list str k n (omega arith)))

add_digit_lem :
    (r d : ℕ) → d < 10 → r * 10 + d < 2 ^ 31 → add_digit (pos r) (d + b'0') ≡ pos (r * 10 + d)
unfolding add_digit ◌+ℤ◌ ◌-ℤ◌ to_int
add_digit_lem r d h l = ground arith

le-mul_pos : (a p : ℕ) → 0 < p → a ≤ a * p
le-mul_pos a p h = grind arith

digits_to_int_lem :
    (k n r : ℕ) (rest : List ℕ)
    → r * pow10 k + n % pow10 k < 2 ^ 31
    → digits_to_int (digit_list k n ++ rest) k (pos r) ≡ pos (r * pow10 k + n % pow10 k)
unfolding digits_to_int digit_list
digits_to_int_lem zero n r rest h = ap pos (omega arith)
digits_to_int_lem (suc k) n r rest h =
    let d = n % (pow10 k * 10) / pow10 k in
    let p = pow10 k in
    let (small, split) = digit_split n (pow10 k) (pow10_pos k) in
    let whole : (r * 10 + n % (pow10 k * 10) / pow10 k) * pow10 k + n % pow10 k
        ≡ r * (pow10 k * 10) + n % (pow10 k * 10) =
      omega (arith, digit_split n (pow10 k) (pow10_pos k)) in
    rw
      (add_digit_lem r (n % (pow10 k * 10) / pow10 k) small
        (omega (arith, le-mul_pos (r * 10 + n % (pow10 k * 10) / pow10 k) (pow10 k) (pow10_pos k))))
      (digits_to_int_lem k n (r * 10 + n % (pow10 k * 10) / pow10 k) rest (omega arith)
        ∙ ap pos whole)

pow10-le : (j k : ℕ) → j ≤ k → pow10 j ≤ pow10 k
pow10-le j zero h = omega (arith, zero_of j h)
  where
    zero_of : (j : ℕ) → j ≤ 0 → pow10 j ≤ 1
    zero_of zero h = omega arith
    zero_of (suc j) h = absurd (omega arith)
pow10-le j (suc k) h = elim (ℕ_discrete j (suc k)) [
  | yes e ↦ rw e (omega arith)
  | no n ↦ omega (arith, pow10-le j k (omega (arith, n)))
]

power_loop-pow10 : (r k : ℕ) → 0 < r → r * pow10 k < 2 ^ 63 → power_loop r 10 k ≡ some (r * pow10 k)
unfolding power_loop
power_loop-pow10 r zero p h = ap some (omega arith)
power_loop-pow10 r (suc k) p h =
    let fits : ltb (r * 10) (2 ^ 63) ≡ true =
      lt→ltb (r * 10) (2 ^ 63) (omega (arith, le-mul_pos (r * 10) (pow10 k) (pow10_pos k))) in
    rw fits (power_loop-pow10 (r * 10) k (omega arith) (omega arith) ∙ ap some (omega arith))

-- In range of a `long long`, which 10 ^ 19 is not.
pub power-pow10 : (k : ℕ) → k ≤ 18 → power 10 k ≡ some (pow10 k)
unfolding power
power-pow10 k h =
    power_loop-pow10 1 k (omega arith) (omega (arith, pow10-le k 18 h)) ∙ ap some (omega arith)

-- `int_to_str` writes `k` digits at the front of its buffer and leaves what is behind them.
pub int_to_str-digit_list :
    (str : List ℕ) (k n : ℕ)
    → k ≤ 18
    → k ≤ length str
    → int_to_str str k (pos n) ≡ some (digit_list k n ++ drop k str)
unfolding int_to_str
int_to_str-digit_list str k n e h =
    rw (power-pow10 k e) (ap some (write_digits-digit_list str k n h))

pub str_to_int-digit_list :
    (k n : ℕ) (rest : List ℕ)
    → n < pow10 k
    → n < 2 ^ 31
    → str_to_int (digit_list k n ++ rest) k ≡ pos n
unfolding str_to_int
str_to_int-digit_list k n rest h l =
    let e : n % pow10 k ≡ n = mod-eq_of_lt h in
    digits_to_int_lem k n 0 rest (omega (arith, mod-eq_of_lt h))
    ∙ ap pos (omega (arith, mod-eq_of_lt h))

-- A number below 10 ^ k that an `int` holds, written by `int_to_str` into a field of k bytes of
-- any buffer, is read back by `str_to_int`, for fields of up to 18 bytes.
pub str_to_int-int_to_str :
    (str : List ℕ) (k n : ℕ)
    → k ≤ 18
    → k ≤ length str
    → n < pow10 k
    → n < 2 ^ 31
    → (out : List ℕ) × (int_to_str str k (pos n) ≡ some out) × (str_to_int out k ≡ pos n)
str_to_int-int_to_str str k n w h l b = (
  digit_list k n ++ drop k str,
  int_to_str-digit_list str k n w h,
  str_to_int-digit_list k n (drop k str) l b,
)
