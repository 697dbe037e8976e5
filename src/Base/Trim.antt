-- ===== src/Base/Trim.antt =====
-- Go's `strings.TrimSpace` on UTF-8 text: the white space of Unicode goes from both ends.
use mathlib.Core.List.{reverse}
use encarno.Base.{ℕ, zero, suc, ◌&&◌, ◌||◌, Bool, [], ◌∷◌, leb, ◌==◌, if◌then◌else◌, length, drop}
use encarno.Base.Bytes.{Bytes}

-- \t \n \v \f \r and the space.
abbrev pub is_ascii_space : ℕ → Bool
is_ascii_space c = leb 9 c && leb c 13 || c == b' '

-- U+0085 and U+00A0.
abbrev is_space_2 : ℕ → ℕ → Bool
is_space_2 a b = a == 0xc2 && (b == 0x85 || b == 0xa0)

-- U+1680, U+2000 to U+200A, U+2028, U+2029, U+202F, U+205F and U+3000.
abbrev is_space_3 : ℕ → ℕ → ℕ → Bool
is_space_3 a b c =
    a == 0xe1 && b == 0x9a && c == 0x80
    || a == 0xe2 && b == 0x80 && (leb 0x80 c && leb c 0x8a || c == 0xa8 || c == 0xa9 || c == 0xaf)
    || a == 0xe2 && b == 0x81 && c == 0x9f
    || a == 0xe3 && b == 0x80 && c == 0x80

-- The bytes of the white space at the front of a text, 0 if there is none.
front_space : Bytes → ℕ
front_space [] = 0
front_space (a ∷ []) = if is_ascii_space a then 1 else 0
front_space (a ∷ b ∷ []) = if is_ascii_space a then 1 else if is_space_2 a b then 2 else 0
front_space (a ∷ b ∷ c ∷ _) =
    if is_ascii_space a then 1 else if is_space_2 a b then 2 else if is_space_3 a b c then 3 else 0

-- The same at the end of a text, which is given from its last byte on.
back_space : Bytes → ℕ
back_space [] = 0
back_space (a ∷ []) = if is_ascii_space a then 1 else 0
back_space (b ∷ a ∷ []) = if is_ascii_space b then 1 else if is_space_2 a b then 2 else 0
back_space (c ∷ b ∷ a ∷ _) =
    if is_ascii_space c then 1 else if is_space_2 b c then 2 else if is_space_3 a b c then 3 else 0

-- A text has at most as many spaces as bytes, so its length is enough fuel.
trim_by : (Bytes → ℕ) → ℕ → Bytes → Bytes
trim_by space zero s = s
trim_by space (suc fuel) s =
    let n = space s in let rest = trim_by space fuel (drop n s) in if n == 0 then s else rest

unfoldable pub trim_space : Bytes → Bytes
unfolding trim_by front_space back_space
trim_space s =
    let front = trim_by front_space (length s) s in
    reverse (trim_by back_space (length front) (reverse front))
