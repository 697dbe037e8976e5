-- ===== src/Core/Output/Checks.antt =====
-- Assertions on a response, and the values that are extracted from it.
use mathlib.Core.List.{append-nil, append_assoc}
use encarno.Base.{
  ℕ, suc, ◌+◌, ◌≤◌, ◌<◌, ◌≡◌, refl, sym, ap, ◌∙◌, ◌↔◌, ◌⊎◌, inl, inr, false, not, Option, none,
  some, List, [], ◌∷◌, ◌++◌, arith, length, take, get_elem?, get_elem?-take, get_elem?-ge, take-nil,
  length-take, ok, panic, index_out_of_range, if◌then◌else◌, ◌==◌, Option-cases,
}
use encarno.Base.Bytes.{Bytes, equal, equal_iff}
use encarno.Base.Int.{ℤ, pos, negsuc}
use encarno.Base.Map.{Map, lookup, insert, lookup-insert}
use encarno.Base.Trim.{trim_space}
use encarno.Core.Input.{AssertItem, ExtractRegex}
use encarno.Core.Output.{
  OutputItem, assert, problems_of, problem_text, fails, extract_value, pick_value, extract_values,
  placeholder, group_at, match_limit,
}
use encarno.Core.Regexp.{Regexp, matches, find_all_submatch}

module _ (R : Regexp) where
  open R use {Re, text, find_all}

  -- A plain assertion holds where its expression is found, an inverted one where it is not.
  abbrev pub Holds : Bytes → AssertItem Re → Type 0
  Holds resp a = matches R a.re resp ≡ not a.invert

  abbrev pub AllHold : Bytes → List (AssertItem Re) → Type 0
  AllHold resp [] = Unit
  AllHold resp (a ∷ rest) = Holds resp a × AllHold resp rest

  -- The texts of the assertions that fail, in their order.
  unfoldable pub reports : Bytes → List (AssertItem Re) → Bytes
  reports resp [] = []
  reports resp (a ∷ rest) =
      let later = reports resp rest in if fails R a resp then problem_text R a ++ later else later

  fails_iff : (resp : Bytes) (a : AssertItem Re) → (fails R a resp ≡ false) ↔ Holds resp a
  unfolding fails
  fails_iff resp a = ground arith

  problems_of_lem :
      (resp : Bytes) (asserts : List (AssertItem Re)) (before : Bytes)
      → problems_of R resp asserts before ≡ before ++ reports resp asserts
  unfolding problems_of reports
  problems_of_lem resp [] before = sym (append-nil before)
  problems_of_lem resp (a ∷ rest) before = ground (
    arith,
    problems_of_lem resp rest before,
    problems_of_lem resp rest (before ++ problem_text R a),
    append_assoc before (problem_text R a) (reports resp rest),
  )

  reports_iff :
      (resp : Bytes) (asserts : List (AssertItem Re))
      → (reports resp asserts ≡ []) ↔ AllHold resp asserts
  unfolding reports
  reports_iff resp [] = ground arith
  reports_iff resp (a ∷ rest) = ground (arith, reports_iff resp rest, fails_iff resp a)

  -- After `Assert` a result has no error exactly if it had none and every assertion holds: the
  -- expression is found in the response, or is not for an inverted one.
  pub assert_lem :
      (asserts : List (AssertItem Re)) (item : OutputItem)
      → ((assert R asserts item).error ≡ none)
        ↔ ((item.error ≡ none) × AllHold item.resp_bytes asserts)
  unfolding assert
  assert_lem asserts item = ground (
    arith,
    Option-cases item.error,
    problems_of_lem item.resp_bytes asserts [],
    problems_of_lem item.resp_bytes asserts (elim item.error [ none ↦ [] | some err ↦ err ]),
    reports_iff item.resp_bytes asserts,
    equal_iff
        (problems_of R item.resp_bytes asserts (elim item.error [ none ↦ [] | some err ↦ err ])) [],
  )

  -- An error from before `Assert` stays at the front of the new one, and the failed assertions
  -- follow in their order, without the white space around it all.
  pub assert_after_error :
      (asserts : List (AssertItem Re)) (item : OutputItem) (c : ℕ) (err : Bytes)
      → item.error ≡ some (c ∷ err)
      → (assert R asserts item).error
        ≡ some (trim_space ((c ∷ err) ++ reports item.resp_bytes asserts))
  unfolding assert equal
  assert_after_error asserts item c err h =
      rw h (rw (problems_of_lem item.resp_bytes asserts (c ∷ err)) refl)

  -- What an extractor finds: with no match the placeholder, with a number of a match that there is
  -- its group, with a negative number the group of the match that `rand` draws.
  pub data Finds (rand : ℕ → ℕ) (resp : Bytes) (spec : ExtractRegex Re) : Bytes → Type 0 where
    no_match : find_all spec.re resp ≡ [] → Finds rand resp spec placeholder
    nth_match :
        (m : ℕ) (groups : List Bytes) (val : Bytes)
        → spec.match_no ≡ pos m
        → get_elem? (find_all spec.re resp) m ≡ some groups
        → get_elem? groups spec.group_no ≡ some val
        → Finds rand resp spec val
    random_match :
        (m : ℕ) (groups : List Bytes) (val : Bytes)
        → spec.match_no ≡ negsuc m
        → get_elem? (find_all spec.re resp) (rand (length (find_all spec.re resp))) ≡ some groups
        → get_elem? groups spec.group_no ≡ some val
        → Finds rand resp spec val

  find_all_submatch_limit :
      (spec : ExtractRegex Re) (resp : Bytes) (m : ℕ)
      → spec.match_no ≡ pos m
      → find_all_submatch R spec.re resp (match_limit spec.match_no)
        ≡ take (m + 1) (find_all spec.re resp)
  unfolding find_all_submatch
  find_all_submatch_limit spec resp m h = rw h refl

  find_all_submatch_all :
      (spec : ExtractRegex Re) (resp : Bytes) (m : ℕ)
      → spec.match_no ≡ negsuc m
      → find_all_submatch R spec.re resp (match_limit spec.match_no) ≡ find_all spec.re resp
  unfolding find_all_submatch
  find_all_submatch_all spec resp m h = rw h refl

  group_at_found :
      (all : List (List Bytes)) (m g : ℕ) (groups : List Bytes) (val : Bytes)
      → get_elem? all m ≡ some groups
      → get_elem? groups g ≡ some val
      → group_at all m g ≡ ok val
  unfolding group_at
  group_at_found all m g groups val h e = rw (h, group_at) (rw e refl)

  pick_value_none :
      (rand : ℕ → ℕ) (spec : ExtractRegex Re) (all : List (List Bytes))
      → all ≡ []
      → pick_value R rand spec all ≡ ok placeholder
  unfolding pick_value
  pick_value_none rand spec all h = rw h refl

  not_empty : (n : ℕ) → (suc n == 0) ≡ false
  not_empty n = ground arith

  -- There is a match at a number only if there are matches.
  pick_value_found :
      (rand : ℕ → ℕ) (spec : ExtractRegex Re) (all : List (List Bytes)) (i m : ℕ)
      (groups : List Bytes) (val : Bytes)
      → (spec.match_no ≡ pos i × (m ≡ i)) ⊎ (spec.match_no ≡ negsuc i × (m ≡ rand (length all)))
      → get_elem? all m ≡ some groups
      → get_elem? groups spec.group_no ≡ some val
      → pick_value R rand spec all ≡ ok val
  unfolding pick_value
  pick_value_found rand spec [] i m groups val k h e = cc
  pick_value_found rand spec (x ∷ xs) i m groups val (inl (k, n)) h e =
      rw (k, not_empty (length xs))
        (group_at_found (x ∷ xs) i spec.group_no groups val (rw⁻¹ n h) e)
  pick_value_found rand spec (x ∷ xs) i m groups val (inr (k, n)) h e =
      rw (k, not_empty (length xs))
        (group_at_found (x ∷ xs) (rand (length (x ∷ xs))) spec.group_no groups val (rw⁻¹ n h) e)

  extract_value-Finds :
      (rand : ℕ → ℕ) (resp : Bytes) (spec : ExtractRegex Re) (val : Bytes)
      → Finds rand resp spec val
      → extract_value R rand spec resp ≡ ok val
  extract_value-Finds rand resp spec val (no_match h) =
      pick_value_none rand spec _ (nothing spec.match_no refl)
    where
      nothing :
          (n : ℤ)
          → spec.match_no ≡ n
          → find_all_submatch R spec.re resp (match_limit spec.match_no) ≡ []
      nothing (pos m) k =
          find_all_submatch_limit spec resp m k ∙ ap (take (m + 1)) h ∙ take-nil (m + 1)
      nothing (negsuc m) k = find_all_submatch_all spec resp m k ∙ h
  extract_value-Finds rand resp spec val (nth_match m groups val' k h e) =
      pick_value_found rand spec _ m m groups val (inl (k, refl))
        (ap (λ (xs : List (List Bytes)). get_elem? xs m) (find_all_submatch_limit spec resp m k)
          ∙ get_elem?-take (m + 1) (find_all spec.re resp) m (omega arith)
          ∙ h)
        e
  extract_value-Finds rand resp spec val (random_match m groups val' k h e) =
      let all = find_all_submatch_all spec resp m k in
      pick_value_found rand spec _ m (rand (length (find_all spec.re resp))) groups val
        (inr (k, ap (λ (xs : List (List Bytes)). rand (length xs)) (sym all)))
        (ap (λ (xs : List (List Bytes)). get_elem? xs (rand (length (find_all spec.re resp)))) all
          ∙ h)
        e

  -- Each extractor finds the value that `found` tells for its name.
  abbrev pub FindAll : (ℕ → ℕ) → Bytes → Map (ExtractRegex Re) → (Bytes → Bytes) → Type 0
  FindAll rand resp [] found = Unit
  FindAll rand resp ((name, spec) ∷ specs) found =
      Finds rand resp spec (found name) × FindAll rand resp specs found

  lookup_step :
      (specs : Map (ExtractRegex Re)) (spec : ExtractRegex Re) (found : Bytes → Bytes)
      (values : Map Bytes) (key name : Bytes) {val : Option Bytes}
      → val ≡ elim (lookup name specs) [
        | none ↦ lookup name (insert key (found key) values)
        | some _ ↦ some (found name)
      ]
      → val ≡ elim (lookup name ((key, spec) ∷ specs)) [
        | none ↦ lookup name values
        | some _ ↦ some (found name)
      ]
  unfolding lookup
  lookup_step specs spec found values key name e = ground (
    arith,
    Option-cases (lookup name specs),
    lookup-insert key name (found key) values,
    equal_iff key name,
    e,
  )

  -- Where each extractor finds a value, `ExtractValues` returns. The values it leaves are those
  -- found, under the extractors' names, and under any other name what was there before, in
  -- whatever order the extractors run.
  pub extract_values_lem :
      (rand : ℕ → ℕ) (resp : Bytes) (specs : Map (ExtractRegex Re)) (found : Bytes → Bytes)
      (values : Map Bytes)
      → FindAll rand resp specs found
      → (out : Map Bytes) × (extract_values R rand resp specs values ≡ ok out)
        × ((name : Bytes)
            → lookup name out ≡ elim (lookup name specs) [
              | none ↦ lookup name values
              | some spec ↦ some (found name)
            ])
  unfolding extract_values
  extract_values_lem rand resp [] found values h = (values, refl, λ name. (unfold lookup in refl))
  extract_values_lem rand resp ((key, spec) ∷ specs) found values (h, hs) =
      let (out, e, l) =
        extract_values_lem rand resp specs found (insert key (found key) values) hs in
      (
        out,
        rw (extract_value-Finds rand resp spec (found key) h) e,
        λ name. lookup_step specs spec found values key name (l name),
      )

  pick_value_few :
      (rand : ℕ → ℕ) (spec : ExtractRegex Re) (all : List (List Bytes)) (m : ℕ)
      → spec.match_no ≡ pos m
      → 0 < length all
      → length all ≤ m
      → pick_value R rand spec all ≡ panic index_out_of_range
  unfolding pick_value group_at
  pick_value_few rand spec all m k h h' = ground (arith, get_elem?-ge all m)

  -- A response with matches, but no more than the number that the extractor asks for: the
  -- worker panics.
  pub extract_values_few_matches :
      (rand : ℕ → ℕ) (resp name : Bytes) (spec : ExtractRegex Re) (specs : Map (ExtractRegex Re))
      (values : Map Bytes) (m : ℕ)
      → spec.match_no ≡ pos m
      → 0 < length (find_all spec.re resp)
      → length (find_all spec.re resp) ≤ m
      → extract_values R rand resp ((name, spec) ∷ specs) values ≡ panic index_out_of_range
  unfolding extract_values
  extract_values_few_matches rand resp name spec specs values m k h h' =
      let all = find_all_submatch R spec.re resp (match_limit spec.match_no) in
      let e = find_all_submatch_limit spec resp m k in
      let n = length-take (m + 1) (find_all spec.re resp) in
      rw
        (pick_value_few rand spec all m k (omega (arith, ap length e, n))
          (omega (arith, ap length e, n)))
        refl
