-- ===== src/Prelude/Strings.antt =====
-- NUL-terminated strings in arrays of bytes. A string by itself is the list of its bytes in front
-- of the NUL.
use Prim.Native.Char.{code}
use Prim.Native.String.{String}
use Prim.Native.Nat.{ℕ, ◌≤◌, ◌<◌}
use mathlib.Core.Path.{◌≡◌, refl, sym, ap, ap₂, ◌∙◌}
use mathlib.Core.Logic.{◌↔◌}
use mathlib.Core.Bool.{Bool, true, false}
use mathlib.Core.List.{List, [], ◌∷◌, ◌++◌}
use native.Mathlib.Omega.{arith}
use network_layer_verificati.Prelude.Tests.{◌==◌, if◌then◌else◌}
use network_layer_verificati.Prelude.Lists.{length, All}

-- the string that a buffer holds: its bytes in front of the first '\0'
unfoldable pub until_nul : List ℕ → List ℕ
until_nul [] = []
until_nul (x ∷ xs) = if x == 0 then [] else x ∷ until_nul xs

-- a byte of a string
abbrev pub IsChar : ℕ → Type 0
IsChar c = (0 < c) × (c < 256)

abbrev pub IsString : List ℕ → Type 0
IsString = All IsChar

pub length-until_nul-le : (xs : List ℕ) → length (until_nul xs) ≤ length xs
unfolding until_nul
length-until_nul-le [] = omega arith
length-until_nul-le (x ∷ xs) = ground (arith, length-until_nul-le xs)

pub until_nul_of_string : (s : List ℕ) → IsString s → until_nul s ≡ s
unfolding until_nul
until_nul_of_string [] h = refl
until_nul_of_string (x ∷ s) h = ground (arith, until_nul_of_string s h.1)

pub until_nul-append : (s rest : List ℕ) → IsString s → until_nul (s ++ rest) ≡ s ++ until_nul rest
unfolding until_nul
until_nul-append [] rest h = refl
until_nul-append (x ∷ s) rest h = ground (arith, until_nul-append s rest h.1)

pub IsString-append : (s t : List ℕ) → IsString s → IsString t → IsString (s ++ t)
IsString-append [] t h k = k
IsString-append (x ∷ s) t h k = (h.0, IsString-append s t h.1 k)

-- the bytes of a literal
unfoldable pub codes : String → List ℕ
codes String.[] = []
codes (String.◌∷◌ c s) = code c ∷ codes s

-- `strcmp` of the C library gives 0
unfoldable pub same_string : List ℕ → List ℕ → Bool
same_string [] [] = true
same_string [] (d ∷ t) = false
same_string (c ∷ s) [] = false
same_string (c ∷ s) (d ∷ t) = let rest = same_string s t in if c == d then rest else false

pub same_string_iff : (s t : List ℕ) → (same_string s t ≡ true) ↔ (s ≡ t)
unfolding same_string
same_string_iff s t = (to s t, from s t)
  where
    to : (s t : List ℕ) → same_string s t ≡ true → s ≡ t
    to [] [] e = refl
    to [] (d ∷ t) e = absurd (ground arith)
    to (c ∷ s) [] e = absurd (ground arith)
    to (c ∷ s) (d ∷ t) e = ap₂ (λ x xs. x ∷ xs) (ground arith) (to s t (ground arith))

    same : (s : List ℕ) → same_string s s ≡ true
    same [] = refl
    same (c ∷ s) = ground (arith, same s)

    from : (s t : List ℕ) → s ≡ t → same_string s t ≡ true
    from s t e = ap (same_string s) (sym e) ∙ same s
