-- ===== src/Base/Endian.antt =====
-- Little-endian bytes of fixed width, as `encoding/binary` writes them.
use encarno.Base.{
  ℕ, zero, suc, ◌+◌, ◌*◌, ◌/◌, ◌%◌, ◌^◌, ◌<◌, ◌≡◌, refl, ap, Option, none, some, [], ◌∷◌, ◌++◌,
  arith, length,
}
use encarno.Base.Bytes.{Bytes}

-- `n` in `w` bytes.
abbrev pub le_bytes : ℕ → ℕ → Bytes
le_bytes zero n = []
le_bytes (suc w) n = (n % 256) ∷ le_bytes w (n / 256)

-- The number in the first `w` bytes, and what follows them.
abbrev pub le_read : ℕ → Bytes → Option (ℕ × Bytes)
le_read zero bs = some (0, bs)
le_read (suc w) [] = none
le_read (suc w) (b ∷ bs) = elim (le_read w bs) [
  | none ↦ none
  | some (n, rest) ↦ some (b + 256 * n, rest)
]

-- What `w` bytes can hold.
abbrev pub Fits : ℕ → ℕ → Type 0
Fits zero n = n ≡ 0
Fits (suc w) n = Fits w (n / 256)

pub le_read-le_bytes :
    (w n : ℕ) (rest : Bytes) → Fits w n → le_read w (le_bytes w n ++ rest) ≡ some (n, rest)
le_read-le_bytes zero n rest h = ground arith
le_read-le_bytes (suc w) n rest h = rw (le_read-le_bytes w (n / 256) rest h) (ground arith)

pub length-le_bytes : (w n : ℕ) → length (le_bytes w n) ≡ w
length-le_bytes zero n = refl
length-le_bytes (suc w) n = ap suc (length-le_bytes w (n / 256))

pub u16-Fits : (n : ℕ) → n < 2 ^ 16 → Fits 2 n
u16-Fits n h = omega arith

pub u32-Fits : (n : ℕ) → n < 2 ^ 32 → Fits 4 n
u32-Fits n h = omega arith

pub u64-Fits : (n : ℕ) → n < 2 ^ 64 → Fits 8 n
u64-Fits n h = omega arith
