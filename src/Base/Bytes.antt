-- ===== src/Base/Bytes.antt =====
-- Texts and byte slices as lists of bytes, with the functions of Go's `bytes` and `strings` that
-- the program calls.
use Prim.Native.Char.{code}
use Prim.Native.String.{String}
use Prim.Native.Nat.{ℕ, ◌+◌}
use mathlib.Core.Path.{◌≡◌, refl}
use mathlib.Core.Logic.{◌↔◌, ◌≢◌}
use mathlib.Core.Bool.{Bool, true, false, ◌&&◌}
use mathlib.Core.List.{List, [], ◌∷◌, ◌++◌}
use native.Mathlib.Omega.{arith}
use encarno.Base.Tests.{◌==◌, if◌then◌else◌}

abbrev pub Bytes : Type 0
Bytes = List ℕ

-- The bytes of a literal, which is ASCII everywhere below.
abbrev pub codes : String → Bytes
codes String.[] = []
codes (String.◌∷◌ c s) = code c ∷ codes s

-- `==` on strings, and `bytes.Equal`.
unfoldable pub equal : Bytes → Bytes → Bool
equal [] [] = true
equal [] (_ ∷ _) = false
equal (_ ∷ _) [] = false
equal (b ∷ bs) (c ∷ cs) = b == c && equal bs cs

pub equal_iff : (s t : Bytes) → (equal s t ≡ true) ↔ (s ≡ t)
unfolding equal
equal_iff [] [] = ground arith
equal_iff [] (_ ∷ _) = ground arith
equal_iff (_ ∷ _) [] = ground arith
equal_iff (b ∷ bs) (c ∷ cs) = ground (arith, equal_iff bs cs)

pub equal_refl : (a : Bytes) → equal a a ≡ true
equal_refl a = (equal_iff a a).1 refl

pub equal_ne : (a b : Bytes) → a ≢ b → equal a b ≡ false
equal_ne a b h = ground (arith, equal_iff a b)

-- How often a byte occurs.
abbrev pub count : ℕ → Bytes → ℕ
count b [] = 0
count b (x ∷ xs) = count b xs + (if x == b then 1 else 0)

-- `bytes.Cut` and `strings.Cut` at a separator of one byte: before, after, found.
unfoldable pub cut : ℕ → Bytes → Bytes × Bytes × Bool
cut sep [] = ([], [], false)
cut sep (b ∷ bs) =
    let rest = cut sep bs in if b == sep then ([], bs, true) else (b ∷ rest.0, rest.1, rest.2)

-- A cut is at the first separator.
pub cut-append : (sep : ℕ) (s t : Bytes) → count sep s ≡ 0 → cut sep (s ++ sep ∷ t) ≡ (s, t, true)
unfolding cut
cut-append sep [] t h = ground arith
cut-append sep (b ∷ bs) t h = ground (arith, cut-append sep bs t)

-- With no separator all of the text is before it.
pub cut_none : (sep : ℕ) (s : Bytes) → count sep s ≡ 0 → cut sep s ≡ (s, [], false)
unfolding cut
cut_none sep [] h = refl
cut_none sep (b ∷ bs) h = ground (arith, cut_none sep bs)
