-- ===== src/Base/Double.antt =====
-- Go's `float64`, as far as the program computes with it: a parameter of the model.
use encarno.Base.{
  ℕ, zero, suc, ◌+◌, ◌-◌, ◌*◌, ◌/◌, ◌^◌, ◌≤◌, ◌<◌, ◌≡◌, Bool, true, false, ltb, leb, ◌==◌, u64,
  arith,
}

pub record Double : Type 1 where
  pub W : Type 0
  -- `float64(n)` of an int64, and `int64(x)`; both by bit patterns
  pub of_int64 : ℕ → W
  pub to_int64 : W → ℕ
  pub add : W → W → W
  pub sub : W → W → W
  pub mul : W → W → W
  pub div : W → W → W
  pub sqrt : W → W
  pub eq : W → W → Bool
  pub lt : W → W → Bool
  pub le : W → W → Bool

-- Whole numbers below 2^53 are exact: what IEEE 754 says of them, as far as it is needed.
pub record IsExact (d : Double) : Type 0 where
  pub lt_whole : (a b : ℕ) → a < 2 ^ 53 → b < 2 ^ 53 → d.lt (d.of_int64 a) (d.of_int64 b) ≡ ltb a b
  pub le_whole : (a b : ℕ) → a < 2 ^ 53 → b < 2 ^ 53 → d.le (d.of_int64 a) (d.of_int64 b) ≡ leb a b
  pub add_whole :
      (a b : ℕ) → a + b < 2 ^ 53 → d.add (d.of_int64 a) (d.of_int64 b) ≡ d.of_int64 (a + b)
  pub sub_whole :
      (a b : ℕ) → a < 2 ^ 53 → b ≤ a → d.sub (d.of_int64 a) (d.of_int64 b) ≡ d.of_int64 (a - b)

-- Numbers with nine decimals and no sign: an instance of the parameter, for tests.
abbrev pub unit : ℕ
unit = 10 ^ 9

-- The root by binary digits from the highest one down.
unfoldable pub root : ℕ → ℕ → ℕ → ℕ
root zero n r = r
root (suc k) n r = let r' = r + 2 ^ k in root k n (elim (leb (r' * r') n) [ true ↦ r' | false ↦ r ])

abbrev pub fixed : Double
fixed = record {
  W = ℕ;
  of_int64 = λ n. n * unit;
  to_int64 = λ x. u64 (x / unit);
  add = λ x y. x + y;
  sub = λ x y. x - y;
  mul = λ x y. x * y / unit;
  div = λ x y. x * unit / y;
  sqrt = λ x. root 64 (x * unit) 0;
  eq = λ x y. x == y;
  lt = λ x y. ltb x y;
  le = λ x y. leb x y;
}

pub fixed-IsExact : IsExact fixed
fixed-IsExact = record {
  lt_whole = λ a b h k. ground arith;
  le_whole = λ a b h k. ground arith;
  add_whole = λ a b h. omega arith;
  sub_whole = λ a b h k. omega arith;
}
