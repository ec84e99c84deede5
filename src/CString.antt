-- ===== src/CString.antt =====
-- Functions.c: the copies of the string functions of libc. A source string is the list of its bytes
-- in front of the NUL; a destination is the whole buffer, and a write behind its end has no result.
pub mod Laws
use network_layer_verificati.Prelude.{
  ℕ, zero, suc, ◌+◌, ◌-◌, ◌%◌, Bool, Option, none, some, List, [], ◌∷◌, ltb, ◌==◌, if◌then◌else◌, ℤ,
  pos, negsuc,
}

abbrev pub ip_addr_size : ℕ
ip_addr_size = 17

-- a byte in front of what is written behind it, if that fits
abbrev pub put_byte : ℕ → Option (List ℕ) → Option (List ℕ)
put_byte c none = none
put_byte c (some ds) = some (c ∷ ds)

-- the last loop: the cells behind the NUL are set to 1
pad_ones : ℕ → List ℕ → Option (List ℕ)
pad_ones zero ds = some ds
pad_ones (suc n) [] = none
pad_ones (suc n) (d ∷ ds) = put_byte 1 (pad_ones n ds)

end_string : ℕ → List ℕ → Option (List ℕ)
unfolding pad_ones
end_string n [] = none
end_string n (d ∷ ds) = put_byte 0 (pad_ones n ds)

-- the first loop, with `n` cells left in front of the last one
copy_chars : ℕ → List ℕ → List ℕ → Option (List ℕ)
unfolding end_string
copy_chars (suc n) [] (c ∷ cs) = none
copy_chars (suc n) (d ∷ ds) (c ∷ cs) = put_byte c (copy_chars n ds cs)
copy_chars n ds _ = end_string n ds

-- `some none` is NULL; `none` is no result
unfoldable pub strcpy_t : Option (List ℕ) → Option (List ℕ) → Option (Option (List ℕ))
unfolding copy_chars
strcpy_t none source = some none
strcpy_t (some dest) none = some none
strcpy_t (some dest) (some source) = returned (copy_chars (ip_addr_size - 1) dest source)
  where
    returned : Option (List ℕ) → Option (Option (List ℕ))
    returned none = none
    returned (some out) = some (some out)

-- `char` is signed: bytes from 128 on are the negative ones
abbrev char_gt : ℕ → ℕ → Bool
char_gt a b = ltb ((b + 128) % 256) ((a + 128) % 256)

-- the flag after one round at two bytes
unfoldable pub compare_chars : ℕ → ℕ → ℤ
compare_chars a b = if char_gt a b then pos 1 else if char_gt b a then negsuc 0 else pos 0

-- The end of a list is the NUL. The loop stops at a difference, and at the NUL of the first string.
unfoldable pub strcmp_t : List ℕ → List ℕ → ℤ
strcmp_t [] [] = compare_chars 0 0
strcmp_t [] (b ∷ bs) = compare_chars 0 b
strcmp_t (a ∷ more) [] = compare_chars a 0
strcmp_t (a ∷ more) (b ∷ bs) =
    let rest = strcmp_t more bs in
    elim (compare_chars a b) [ pos zero ↦ rest | pos (suc n) ↦ pos (suc n) | negsuc n ↦ negsuc n ]

unfoldable pub strlen_t : List ℕ → ℕ
strlen_t [] = 0
strlen_t (c ∷ cs) = if c == 0 then 0 else suc (strlen_t cs)

-- `*ptr++ = *source++`, and the NUL
write_string : List ℕ → List ℕ → Option (List ℕ)
write_string [] source = none
write_string (d ∷ ds) [] = some (0 ∷ ds)
write_string (d ∷ ds) (c ∷ cs) = put_byte c (write_string ds cs)

-- the destination from `ptr` on
at_ptr : ℕ → List ℕ → List ℕ → Option (List ℕ)
unfolding write_string
at_ptr zero ds source = write_string ds source
at_ptr (suc n) [] source = none
at_ptr (suc n) (d ∷ ds) source = put_byte d (at_ptr n ds source)

unfoldable pub strcat_t : List ℕ → List ℕ → Option (List ℕ)
unfolding strlen_t at_ptr
strcat_t destination source = at_ptr (strlen_t destination) destination source

-- as many bytes as both have
unfoldable pub my_mem_cpy : List ℕ → List ℕ → ℕ → List ℕ
my_mem_cpy (d ∷ ds) (c ∷ cs) (suc n) = c ∷ my_mem_cpy ds cs n
my_mem_cpy ds _ _ = ds
