-- ===== src/Http/Loop/Tallies.antt =====
-- What the length and the record of a connection tell of the bytes that came.
use encarno.Base.{
  ℕ, ◌∷◌, ◌+◌, ◌≤◌, ◌≡◌, refl, ap, sym, ◌∙◌, inl, inr, Bool, true, false, ◌||◌, ◌&&◌, [], ◌++◌,
  arith, if◌then◌else◌, length, ltb, length-append, Bool-cases,
}
use encarno.Base.Bytes.{Bytes}
use mathlib.Core.List.{append-nil}
use encarno.Base.Int.{ℤ, pos, negsuc}
use encarno.Http.Loop.{is_within}
use encarno.Http.Loop.Steps.{
  Resetting, calm, zeroed, emptied, is_resetting, Stage, quiet, fresh, counting, is_taking,
}

-- The length and the record of these bytes.
abbrev pub Sound : ℤ → ℕ → Bytes → Bytes → Type 0
Sound limit read_len recorded xs =
    (read_len ≡ length xs) × (is_within limit (length xs) ≡ true → recorded ≡ xs)

-- What the length and the record are of, where no `Reset` overlaps with the taking of a chunk.
abbrev pub Tally : Resetting → Stage → ℤ → ℕ → Bytes → Bytes → Type 0
Tally calm quiet limit read_len recorded xs = Sound limit read_len recorded xs
Tally calm (fresh buf) limit read_len recorded xs =
    (before : Bytes) × (xs ≡ before ++ buf) × Sound limit read_len recorded before
Tally calm (counting buf) limit read_len recorded xs =
    (before : Bytes) × (xs ≡ before ++ buf)
    × (read_len ≡ length xs)
    × (is_within limit (length before) ≡ true → recorded ≡ before)
Tally zeroed quiet limit read_len recorded xs = (xs ≡ []) × (read_len ≡ 0)
Tally emptied quiet limit read_len recorded xs = (xs ≡ []) × (read_len ≡ 0) × (recorded ≡ [])
Tally zeroed (fresh buf) limit read_len recorded xs = ⊥
Tally zeroed (counting buf) limit read_len recorded xs = ⊥
Tally emptied (fresh buf) limit read_len recorded xs = ⊥
Tally emptied (counting buf) limit read_len recorded xs = ⊥

is_within-smaller :
    (limit : ℤ) (m n : ℕ) → m ≤ n → is_within limit n ≡ true → is_within limit m ≡ true
unfolding is_within
is_within-smaller (pos limit) m n h w = ground arith
is_within-smaller (negsuc limit) m n h w = refl

pub arrives-Tally :
    (g : Resetting) (d : Bool) (limit : ℤ) (n : ℕ) (rec xs buf : Bytes)
    → (d ≡ false → Tally g quiet limit n rec xs)
    → (d || is_resetting g) ≡ false
    → Tally g (fresh buf) limit n rec (xs ++ buf)
arrives-Tally calm d limit n rec xs buf i h = (xs, refl, i (ground (arith, h)))
arrives-Tally zeroed d limit n rec xs buf i h = absurd (ground (arith, h))
arrives-Tally emptied d limit n rec xs buf i h = absurd (ground (arith, h))

pub counts-Tally :
    (g : Resetting) (limit : ℤ) (n : ℕ) (rec xs buf : Bytes)
    → Tally g (fresh buf) limit n rec xs
    → Tally g (counting buf) limit (n + length buf) rec xs
counts-Tally calm limit n rec xs buf (before, e, (len, kept)) = (
  before,
  e,
  ap (λ (m : ℕ). m + length buf) len ∙ sym (length-append before buf) ∙ ap length (sym e),
  kept,
)
counts-Tally zeroed limit n rec xs buf i = i
counts-Tally emptied limit n rec xs buf i = i

pub records-Tally :
    (g : Resetting) (limit : ℤ) (n : ℕ) (rec xs buf : Bytes)
    → Tally g (counting buf) limit n rec xs
    → Tally g quiet limit n (if is_within limit n && ltb 0 (length buf) then rec ++ buf else rec) xs
records-Tally calm limit n rec xs [] (before, e, len, kept) =
    let same : before ≡ xs = sym (append-nil before) ∙ sym e in
    let none_new : (is_within limit n && false) ≡ false = elim (Bool-cases (is_within limit n)) [
      | inl b ↦ ground (arith, b)
      | inr b ↦ ground (arith, b)
    ] in
    (
      len,
      λ w.
          ap (λ (b : Bool). if b then rec ++ [] else rec) none_new
          ∙ kept (ap (λ (ys : Bytes). is_within limit (length ys)) same ∙ w)
          ∙ same,
    )
records-Tally calm limit n rec xs (x ∷ buf) (before, e, len, kept) = (
  len,
  λ w.
      let within : is_within limit n ≡ true = ap (is_within limit) len ∙ w in
      let grown : length xs ≡ length before + length (x ∷ buf) =
        ap length e ∙ length-append before (x ∷ buf) in
      let first : is_within limit (length before) ≡ true =
        is_within-smaller limit (length before) (length xs) (omega (arith, grown)) w in
      let some_bytes : ltb 0 (length (x ∷ buf)) ≡ true = ground arith in
      rw (within, some_bytes) (ap (λ (ys : Bytes). ys ++ x ∷ buf) (kept first) ∙ sym e),
)
records-Tally zeroed limit n rec xs buf i = absurd i
records-Tally emptied limit n rec xs buf i = absurd i

pub zeroes-Tally :
    (st : Stage) (limit : ℤ) (rec : Bytes) → is_taking st ≡ false → Tally zeroed st limit 0 rec []
zeroes-Tally quiet limit rec h = (refl, refl)
zeroes-Tally (fresh buf) limit rec h = ground (arith, h)
zeroes-Tally (counting buf) limit rec h = ground (arith, h)

pub empties-Tally :
    (st : Stage) (limit : ℤ) (n : ℕ) (rec xs : Bytes)
    → Tally zeroed st limit n rec xs
    → Tally emptied st limit n [] xs
empties-Tally quiet limit n rec xs (e, z) = (e, z, refl)
empties-Tally (fresh buf) limit n rec xs i = i
empties-Tally (counting buf) limit n rec xs i = i

pub forgets-Tally :
    (st : Stage) (limit : ℤ) (n : ℕ) (rec xs : Bytes)
    → Tally emptied st limit n rec xs
    → Tally calm st limit n rec xs
forgets-Tally quiet limit n rec xs (e, z, r) = (z ∙ ap length (sym e), λ w. r ∙ sym e)
forgets-Tally (fresh buf) limit n rec xs i = absurd i
forgets-Tally (counting buf) limit n rec xs i = absurd i
