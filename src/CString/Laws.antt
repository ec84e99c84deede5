-- ===== src/CString/Laws.antt =====
-- What the functions of Functions.c do, as operations on strings.
use network_layer_verificati.Prelude.{
  ℕ, zero, suc, ◌+◌, ◌-◌, ◌≤◌, ◌<◌, ◌≡◌, ◌↔◌, refl, ap, ap₂, some, Bool-cases, inl, inr, ◌==◌, List,
  [], ◌∷◌, ◌++◌, arith, length, take, drop, ℤ, pos, negsuc, until_nul, IsString,
}
use network_layer_verificati.CString.{
  put_byte, end_string, ip_addr_size, pad_ones, copy_chars, strcpy_t, strcmp_t, compare_chars,
  strlen_t, write_string, at_ptr, strcat_t, my_mem_cpy,
}

pad_ones_lem :
    (n : ℕ) (ds : List ℕ)
    → n ≤ length ds
    → (out : List ℕ) × (pad_ones n ds ≡ some out)
      × (drop n out ≡ drop n ds)
      × (length out ≡ length ds)
unfolding pad_ones
pad_ones_lem zero ds l = (ds, refl, refl, refl)
pad_ones_lem (suc n) [] l = absurd (omega arith)
pad_ones_lem (suc n) (d ∷ ds) l =
    let (out, e, k, m) = pad_ones_lem n ds (omega arith) in
    (1 ∷ out, ap (put_byte 1) e, k, ap suc m)

-- What is left in a buffer: a string, the bytes behind the place, and the size.
abbrev Copied : ℕ → List ℕ → List ℕ → List ℕ → Type 0
Copied n dest source out =
    (until_nul out ≡ take n source)
    × (drop (suc n) out ≡ drop (suc n) dest)
    × (length out ≡ length dest)

copy_chars-take :
    (n : ℕ) (dest source : List ℕ)
    → IsString source
    → n < length dest
    → (out : List ℕ) × (copy_chars n dest source ≡ some out) × Copied n dest source out
unfolding copy_chars until_nul end_string
copy_chars-take n [] source h l = absurd (omega arith)
copy_chars-take zero (d ∷ ds) source h l = (0 ∷ ds, refl, (refl, refl, refl))
copy_chars-take (suc n) (d ∷ ds) [] h l =
    let (out, e, k, m) = pad_ones_lem (suc n) ds (omega arith) in
    (0 ∷ out, ap (put_byte 0) e, (refl, k, ap suc m))
copy_chars-take (suc n) (d ∷ ds) (c ∷ cs) h l =
    let (out, e, (s, k, m)) = copy_chars-take n ds cs h.1 (omega arith) in
    (c ∷ out, ap (put_byte c) e, (ground arith, k, ap suc m))

-- `strcpy_t` into a buffer of 17 bytes or more returns, and leaves the first 16 bytes of the source
-- there as a terminated string. It writes no more than 17 bytes: those behind them stay.
pub strcpy_t-take :
    (dest source : List ℕ)
    → IsString source
    → ip_addr_size ≤ length dest
    → (out : List ℕ) × (strcpy_t (some dest) (some source) ≡ some (some out))
      × (until_nul out ≡ take (ip_addr_size - 1) source)
      × (drop ip_addr_size out ≡ drop ip_addr_size dest)
      × (length out ≡ length dest)
unfolding strcpy_t
strcpy_t-take dest source h l =
    let (out, e, (s, k, m)) = copy_chars-take 16 dest source h l in (out, rw e refl, s, k, m)

compare_chars_self : (a : ℕ) → compare_chars a a ≡ pos 0
unfolding compare_chars
compare_chars_self a = ground arith

compare_chars_eq : (a b : ℕ) → a < 256 → b < 256 → compare_chars a b ≡ pos 0 → a ≡ b
unfolding compare_chars
compare_chars_eq a b h k e = ground arith

pub strcmp_t_refl : (s : List ℕ) → strcmp_t s s ≡ pos 0
unfolding strcmp_t
strcmp_t_refl [] = compare_chars_self 0
strcmp_t_refl (a ∷ s) = ground (arith, compare_chars_self a, strcmp_t_refl s)

verdict : ℤ → ℤ → ℤ
verdict flag rest = elim flag [ pos zero ↦ rest | pos (suc n) ↦ pos (suc n) | negsuc n ↦ negsuc n ]

head_zero : (flag rest : ℤ) → verdict flag rest ≡ pos 0 → flag ≡ pos 0
unfolding verdict
head_zero flag rest h = ground arith

tail_zero : (flag rest : ℤ) → verdict flag rest ≡ pos 0 → rest ≡ pos 0
unfolding verdict
tail_zero flag rest h = ground arith

strcmp_t-eq : (s t : List ℕ) → IsString s → IsString t → strcmp_t s t ≡ pos 0 → s ≡ t
unfolding strcmp_t verdict
strcmp_t-eq [] [] h k e = refl
strcmp_t-eq [] (b ∷ t) h k e = absurd (omega (arith, compare_chars_eq 0 b (omega arith) k.0.1 e))
strcmp_t-eq (a ∷ s) [] h k e = absurd (omega (arith, compare_chars_eq a 0 h.0.1 (omega arith) e))
strcmp_t-eq (a ∷ s) (b ∷ t) h k e =
    let same = compare_chars_eq a b h.0.1 k.0.1 (head_zero (compare_chars a b) (strcmp_t s t) e) in
    ap₂ ◌∷◌ same (strcmp_t-eq s t h.1 k.1 (tail_zero (compare_chars a b) (strcmp_t s t) e))

-- `strcmp_t` gives 0 exactly on equal strings.
pub strcmp_t-eq_iff : (s t : List ℕ) → IsString s → IsString t → (strcmp_t s t ≡ pos 0) ↔ (s ≡ t)
strcmp_t-eq_iff s t h k = (strcmp_t-eq s t h k, λ e. rw e (strcmp_t_refl t))

-- `strlen_t` of a buffer is the length of the string in it.
pub strlen_t-length : (buf : List ℕ) → strlen_t buf ≡ length (until_nul buf)
unfolding strlen_t until_nul
strlen_t-length [] = refl
strlen_t-length (c ∷ cs) = ground (arith, strlen_t-length cs)

write_string-until_nul :
    (ds source : List ℕ)
    → IsString source
    → length source < length ds
    → (out : List ℕ) × (write_string ds source ≡ some out) × (until_nul out ≡ source)
unfolding write_string until_nul
write_string-until_nul [] source h l = absurd (omega arith)
write_string-until_nul (d ∷ ds) [] h l = (0 ∷ ds, refl, refl)
write_string-until_nul (d ∷ ds) (c ∷ cs) h l =
    let (out, e, s) = write_string-until_nul ds cs h.1 (omega arith) in
    (c ∷ out, ap (put_byte c) e, ground arith)

-- `strcat_t` returns and leaves the concatenation of the two strings, where the buffer has room for
-- it.
pub strcat_t-append :
    (destination source : List ℕ)
    → IsString source
    → length (until_nul destination) + length source < length destination
    → (out : List ℕ) × (strcat_t destination source ≡ some out)
      × (until_nul out ≡ until_nul destination ++ source)
unfolding strcat_t strlen_t at_ptr until_nul
strcat_t-append [] source h l = absurd (omega arith)
strcat_t-append (d ∷ ds) source h l = elim (Bool-cases (d == 0)) [
  | inl e ↦
      let (out, r, s) = write_string-until_nul (d ∷ ds) source h (ground (arith, e)) in
      (out, rw e r, rw e s)
  | inr e ↦
      let (out, r, s) = strcat_t-append ds source h (ground (arith, e)) in
      (d ∷ out, rw e (ap (put_byte d) r), rw (e, s) refl)
]

-- `myMemCpy` of no more bytes than either side has copies exactly these.
pub my_mem_cpy-take :
    (dest src : List ℕ) (n : ℕ)
    → n ≤ length dest
    → n ≤ length src
    → my_mem_cpy dest src n ≡ take n src ++ drop n dest
unfolding my_mem_cpy
my_mem_cpy-take [] [] zero h k = refl
my_mem_cpy-take [] (c ∷ cs) zero h k = refl
my_mem_cpy-take (d ∷ ds) [] zero h k = refl
my_mem_cpy-take (d ∷ ds) (c ∷ cs) zero h k = refl
my_mem_cpy-take [] src (suc n) h k = absurd (omega arith)
my_mem_cpy-take (d ∷ ds) [] (suc n) h k = absurd (omega arith)
my_mem_cpy-take (d ∷ ds) (c ∷ cs) (suc n) h k =
    ap (◌∷◌ c) (my_mem_cpy-take ds cs n (omega arith) (omega arith))
