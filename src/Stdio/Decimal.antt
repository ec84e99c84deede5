-- ===== src/Stdio/Decimal.antt =====
-- The decimal digits that `sprintf` writes: their value, their number, and their range.
use network_layer_verificati.Prelude.{
  ℕ, zero, suc, ◌+◌, ◌-◌, ◌*◌, ◌/◌, ◌%◌, ◌^◌, ◌≤◌, ◌<◌, ◌≡◌, refl, Bool, true, false, List, [], ◌∷◌,
  ◌++◌, arith, ltb, length, replicate, length-append, All, Bool-cases, inl, inr,
}
use network_layer_verificati.Stdio.{dec_fuel, dec, is_digit}

abbrev pub IsDigit : ℕ → Type 0
IsDigit c = (b'0' ≤ c) × (c ≤ b'9')

abbrev pub ten_to : ℕ → ℕ
ten_to zero = 1
ten_to (suc k) = ten_to k * 10

unfoldable pub value : ℕ → List ℕ → ℕ
value acc [] = acc
value acc (c ∷ s) = value (acc * 10 + (c - b'0')) s

pub value-append : (acc : ℕ) (s t : List ℕ) → value acc (s ++ t) ≡ value (value acc s) t
unfolding value
value-append acc [] t = refl
value-append acc (c ∷ s) t = value-append (acc * 10 + (c - b'0')) s t

pub value-zeros : (k : ℕ) → value 0 (replicate k b'0') ≡ 0
unfolding value replicate
value-zeros zero = refl
value-zeros (suc k) = value-zeros k

value-dec_fuel : (fuel n : ℕ) → n < ten_to fuel → value 0 (dec_fuel fuel n) ≡ n
unfolding value dec_fuel
value-dec_fuel zero n h = omega arith
value-dec_fuel (suc fuel) n h = ground (
  arith,
  value-dec_fuel fuel (n / 10),
  value-append 0 (dec_fuel fuel (n / 10)) ((n % 10 + b'0') ∷ []),
)

pub All-append : (P : ℕ → Type 0) (s t : List ℕ) → All P s → All P t → All P (s ++ t)
All-append P [] t h k = k
All-append P (c ∷ s) t h k = (h.0, All-append P s t h.1 k)

dec_fuel-IsDigit : (fuel n : ℕ) → All IsDigit (dec_fuel fuel n)
unfolding dec_fuel
dec_fuel-IsDigit zero n = tt
dec_fuel-IsDigit (suc fuel) n = elim (Bool-cases (ltb n 10)) [
  | inl e ↦ rw e ((omega arith, ground arith), tt)
  | inr e ↦ rw e (
      All-append IsDigit (dec_fuel fuel (n / 10)) ((n % 10 + b'0') ∷ [])
        (dec_fuel-IsDigit fuel (n / 10)) ((omega arith, omega arith), tt))
]

length-dec_fuel-le : (fuel k n : ℕ) → 1 ≤ k → n < ten_to k → length (dec_fuel fuel n) ≤ k
unfolding dec_fuel
length-dec_fuel-le zero k n p h = omega arith
length-dec_fuel-le (suc fuel) zero n p h = absurd (omega arith)
length-dec_fuel-le (suc fuel) (suc zero) n p h = ground arith
length-dec_fuel-le (suc fuel) (suc (suc k)) n p h = ground (
  arith,
  length-dec_fuel-le fuel (suc k) (n / 10),
  length-append (dec_fuel fuel (n / 10)) ((n % 10 + b'0') ∷ []),
)

-- a first character that a number could go on with
abbrev pub starts_with_digit : List ℕ → Bool
starts_with_digit [] = false
starts_with_digit (c ∷ s) = is_digit c

dec_fuel_head :
    (fuel n : ℕ) → n < ten_to (suc fuel) → starts_with_digit (dec_fuel (suc fuel) n) ≡ true
unfolding dec_fuel
dec_fuel_head zero n h = ground arith
dec_fuel_head (suc fuel) n h = elim (Bool-cases (ltb n 10)) [
  | inl e ↦ rw e (ground arith)
  | inr e ↦
      rw e (head-append (dec_fuel (suc fuel) (n / 10)) (dec_fuel_head fuel (n / 10) (omega arith)))
]
  where
    head-append :
        (s : List ℕ)
        → starts_with_digit s ≡ true
        → starts_with_digit (s ++ (n % 10 + b'0') ∷ []) ≡ true
    head-append [] h = cc
    head-append (c ∷ s) h = h

pub value-dec : (n : ℕ) → n < 10 ^ 10 → value 0 (dec n) ≡ n
unfolding dec
value-dec n h = value-dec_fuel 10 n h

pub dec-IsDigit : (n : ℕ) → All IsDigit (dec n)
unfolding dec
dec-IsDigit n = dec_fuel-IsDigit 10 n

pub length-dec-le : (k n : ℕ) → 1 ≤ k → n < ten_to k → length (dec n) ≤ k
unfolding dec
length-dec-le k n p h = length-dec_fuel-le 10 k n p h

pub dec_head : (n : ℕ) → n < 10 ^ 10 → starts_with_digit (dec n) ≡ true
unfolding dec
dec_head n h = dec_fuel_head 9 n h

length-dec_fuel-ge : (fuel k n : ℕ) → k < fuel → ten_to k ≤ n → k < length (dec_fuel fuel n)
unfolding dec_fuel
length-dec_fuel-ge zero k n p h = absurd (omega arith)
length-dec_fuel-ge (suc fuel) zero n p h = elim (Bool-cases (ltb n 10)) [
  | inl e ↦ rw e (omega arith)
  | inr e ↦ rw e (omega (arith, length-append (dec_fuel fuel (n / 10)) ((n % 10 + b'0') ∷ [])))
]
length-dec_fuel-ge (suc fuel) (suc k) n p h = ground (
  arith,
  length-dec_fuel-ge fuel k (n / 10),
  length-append (dec_fuel fuel (n / 10)) ((n % 10 + b'0') ∷ []),
  ten_to_pos k,
)
  where
    ten_to_pos : (k : ℕ) → 0 < ten_to k
    ten_to_pos zero = omega arith
    ten_to_pos (suc k) = omega (arith, ten_to_pos k)

-- A number from 10 ^ k on has more than k digits.
pub length-dec-ge : (k n : ℕ) → k < 10 → ten_to k ≤ n → k < length (dec n)
unfolding dec
length-dec-ge k n p h = length-dec_fuel-ge 10 k n p h
