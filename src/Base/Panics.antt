-- ===== src/Base/Panics.antt =====
-- A call that may not return: the value that it returns, or the panic that unwinds it.
use Prim.Native.Nat.{ℕ}
use mathlib.Core.Path.{◌≡◌, refl}
use mathlib.Core.Logic.{◌⊎◌, inl, inr}
use mathlib.Core.List.{List}

-- The panics of the program's own code and of the runtime that its code can reach. `blocked` is no
-- panic: the call waits for ever, so that it does not return either.
pub data Panic : Type 0 where
  not_found : ℕ → Panic
  read_only : List ℕ → Panic
  line_too_long : Panic
  negative_counter : Panic
  nil_pointer : Panic
  bad_regexp : List ℕ → Panic
  index_out_of_range : Panic
  no_meta_newline : Panic
  bad_read : Panic
  problematic_input : ℕ → ℕ → Panic
  schedule_order : Panic
  unsupported : List ℕ → Panic
  no_file : List ℕ → Panic
  blocked : Panic

pub data Result {ℓ} (A : Type ℓ) : Type ℓ where
  ok : A → Result A
  panic : Panic → Result A

-- What follows a call that panicked does not run.
module _ {ℓ κ} {S : Type ℓ} {T : Type κ} where
  infixl 5 ◌>>=◌
  abbrev pub ◌>>=◌ : Result S → (S → Result T) → Result T
  panic why >>= next = panic why
  ok s >>= next = next s

  -- The parts of a sequence that returned.
  pub bind-eq-ok :
      (first : Result S) (next : S → Result T) {t : T}
      → first >>= next ≡ ok t
      → (s : S) × (first ≡ ok s) × (next s ≡ ok t)
  bind-eq-ok (panic why) next e = cc
  bind-eq-ok (ok s) next e = (s, refl, e)

module _ {ℓ} {S : Type ℓ} where
  pub Result-cases : (r : Result S) → ((s : S) × (r ≡ ok s)) ⊎ ((why : Panic) × (r ≡ panic why))
  Result-cases (ok s) = inl (s, refl)
  Result-cases (panic why) = inr (why, refl)
