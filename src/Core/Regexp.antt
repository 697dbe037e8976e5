-- ===== src/Core/Regexp.antt =====
-- Go's package `regexp`, as far as the program calls it. It is a parameter of the model: a type of
-- compiled expressions and the functions on them.
pub mod Literal
use encarno.Base.{Option, List, ℕ, take, get_elem?, none, some, [], ◌∷◌, Bool, true, false}
use encarno.Base.Bytes.{Bytes}
use encarno.Base.Int.{ℤ, pos, negsuc}

pub record Regexp : Type 1 where
  pub Re : Type 0
  -- `Compile`; `none` is an error
  pub compile : Bytes → Option Re
  -- `String`
  pub text : Re → Bytes
  -- `FindAllSubmatch` with no limit: of each match the groups, the whole match first
  pub find_all : Re → Bytes → List (List Bytes)
  -- `ReplaceAll re src repl`
  pub replace_all : Re → Bytes → Bytes → Bytes

-- `FindAllSubmatch(b, n)`: a limit that is not negative keeps the first `n` matches.
unfoldable pub find_all_submatch : (R : Regexp) → R.Re → Bytes → ℤ → List (List Bytes)
find_all_submatch R re b (pos n) = take n (R.find_all re b)
find_all_submatch R re b (negsuc n) = R.find_all re b

-- `Find(b) != nil`
unfoldable pub matches : (R : Regexp) → R.Re → Bytes → Bool
matches R re b = elim (R.find_all re b) [ [] ↦ false | _ ∷ _ ↦ true ]
