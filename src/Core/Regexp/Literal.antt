-- ===== src/Core/Regexp/Literal.antt =====
-- Expressions that match their own text and nothing else: an instance of the parameter, for tests.
use encarno.Base.{
  ℕ, ◌-◌, Bool, true, false, ◌&&◌, some, List, [], ◌∷◌, ◌++◌, zero, suc, ◌==◌, if◌then◌else◌,
  length,
}
use encarno.Base.Bytes.{Bytes}
use encarno.Core.Regexp.{Regexp}

starts_with : Bytes → Bytes → Bool
starts_with [] text = true
starts_with (c ∷ cs) [] = false
starts_with (c ∷ cs) (d ∷ ds) = c == d && starts_with cs ds

unfoldable pub find_literal : Bytes → Bytes → List (List Bytes)
unfolding starts_with
find_literal re [] = []
find_literal re (c ∷ cs) =
    let rest = find_literal re cs in if starts_with re (c ∷ cs) then (re ∷ []) ∷ rest else rest

replace_from : ℕ → Bytes → Bytes → Bytes → Bytes
replace_from skip re val [] = []
replace_from (suc skip) re val (c ∷ cs) = replace_from skip re val cs
replace_from zero re val (c ∷ cs) =
    if starts_with re (c ∷ cs)
    then val ++ replace_from (length re - 1) re val cs
    else c ∷ replace_from zero re val cs

unfoldable pub replace_literal : Bytes → Bytes → Bytes → Bytes
unfolding replace_from starts_with
replace_literal re text val = replace_from zero re val text

abbrev pub literal : Regexp
literal = record {
  Re = Bytes;
  compile = λ expr. some expr;
  text = λ re. re;
  find_all = find_literal;
  replace_all = replace_literal;
}
