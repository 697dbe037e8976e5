-- ===== src/Core/Input/Variables.antt =====
-- pkg/core/input.go: what `ReplaceValues` does to an item.
use encarno.Base.{
  none, ◌≡◌, refl, ◌⊎◌, inl, inr, Option, some, List, [], ◌∷◌, arith, Result, ok, panic, ◌>>=◌,
  Option-cases, Result-cases, bad_regexp, Panic,
}
use encarno.Base.Bytes.{Bytes, codes, equal_iff, equal_refl}
use encarno.Base.Map.{Map, lookup, insert, lookup-insert}
use encarno.Core.Input.{
  PayloadItem, resolve_strings, variable_pattern, value_or, must_compile, variable_re, substitute,
  replace_names, replace_values,
}
use encarno.Core.Input.Decode.{compile_cached}
use encarno.Core.Regexp.{Regexp}
use encarno.Core.Input.Resolved.{given_text, resolve_strings_given}

module _ (R : Regexp) where
  open R use {Re, compile, replace_all}

  -- A name in the cache stands for the expression that finds its variable.
  pub record IsVariables (cache : Map Re) : Type 0 where
    pub finds :
        (name : Bytes) (re : Re)
        → lookup name cache ≡ some re
        → compile (variable_pattern name) ≡ some re

  -- The replacements with no cache: every name's expression is compiled on the spot, and the value
  -- takes the place of all that it finds in the payload, the label and the address.
  abbrev pub substitute_all : Map Bytes → List Bytes → PayloadItem Re → Result (PayloadItem Re)
  substitute_all values [] i = ok i
  substitute_all values (name ∷ names) i =
      given_text i.str_index i.address_idx i.address >>= λ addr.
      given_text i.str_index i.label_idx i.label >>= λ lab.
      must_compile R (variable_pattern name) >>= λ re. substitute_all values names (
        let v : Bytes = elim (lookup name values) [ none ↦ codes "NO_VALUE" | some v ↦ v ] in
        record i {
          address_idx = addr.0;
          address = replace_all re addr.1 v;
          label_idx = lab.0;
          label = replace_all re lab.1 v;
          payload = replace_all re i.payload v;
        })

  IsVariables-insert :
      (cache : Map Re) (name : Bytes) (re : Re)
      → IsVariables cache
      → compile (variable_pattern name) ≡ some re
      → IsVariables (insert name re cache)
  IsVariables-insert cache name re w h = record {
    finds = λ x r k.
        ground (arith, rw (lookup-insert name x re cache) at k, h, equal_iff name x, w.finds x r);
  }

  -- The expression of a variable is its own, and the cache stays so.
  variable_re_lem :
      (cache : Map Re) (name : Bytes)
      → IsVariables cache
      → ((why : Panic) × (must_compile R (variable_pattern name) ≡ panic why)
          × (variable_re R cache name ≡ panic why))
        ⊎ ((re : Re) × (cache' : Map Re) × (must_compile R (variable_pattern name) ≡ ok re)
            × (variable_re R cache name ≡ ok (re, cache'))
            × IsVariables cache')
  unfolding variable_re must_compile
  variable_re_lem cache name w = elim (Option-cases (lookup name cache)) [
    | inr (re, e) ↦ inr (re, cache, rw (w.finds name re e, must_compile), rw (e, variable_re), w)
    | inl e ↦ elim (Option-cases (compile (variable_pattern name))) [
      | inl c ↦ inl (
        bad_regexp (variable_pattern name),
        rw (c, must_compile),
        rw (e, variable_re) (rw (c, must_compile)),
      )
      | inr (re, c) ↦ inr (
        re,
        insert name re cache,
        rw (c, must_compile),
        rw (e, variable_re) (rw (c, must_compile)),
        IsVariables-insert cache name re w c,
      )
    ]
  ]

  substitute_lem :
      (i : PayloadItem Re) (re : Re) (found : Option Bytes)
      → substitute R i re (value_or found) ≡ (
          let v : Bytes = elim found [ none ↦ codes "NO_VALUE" | some v ↦ v ] in
          record i {
            payload = replace_all re i.payload v;
            label = replace_all re i.label v;
            address = replace_all re i.address v;
          })
  unfolding substitute
  substitute_lem i re none = refl
  substitute_lem i re (some v) = refl

  -- The item of a result, without the cache.
  abbrev pub item_of {ℓ} : {A : Type ℓ} → Result (A × Map Re) → Result A
  item_of r = r >>= λ p. ok p.0

  replace_names_lem :
      (values : Map Bytes) (names : List Bytes) (cache : Map Re) (i : PayloadItem Re)
      → IsVariables cache
      → item_of (replace_names R values names cache i) ≡ substitute_all values names i
  unfolding replace_names
  replace_names_lem values [] cache i w = refl
  replace_names_lem values (name ∷ names) cache i w =
      elim (Result-cases (given_text i.str_index i.address_idx i.address)) [
        | inr (why, a) ↦ ground (arith, resolve_strings_given i, a)
        | inl (addr, a) ↦ elim (Result-cases (given_text i.str_index i.label_idx i.label)) [
          | inr (why, l) ↦ ground (arith, resolve_strings_given i, a, l)
          | inl (lab, l) ↦ elim (variable_re_lem cache name w) [
            | inl (why, m, v) ↦ ground (arith, resolve_strings_given i, a, l, m, v)
            | inr (re, cache', m, v, w') ↦
                let i' = record i {
                  address_idx = addr.0;
                  address = addr.1;
                  label_idx = lab.0;
                  label = lab.1;
                } in
                let val = value_or (lookup name values) in
                ground (
                  arith,
                  resolve_strings_given i,
                  a,
                  l,
                  m,
                  v,
                  substitute_lem i' re (lookup name values),
                  replace_names_lem values names cache' (substitute R i' re val) w',
                )
          ]
        ]
      ]

  -- While every name in the process-wide cache stands for the expression that finds its variable,
  -- `ReplaceValues` does what it would do with no cache: for each name in turn it replaces all that
  -- the name's own expression finds, in the payload, the label and the address, by the value, or
  -- by NO_VALUE if there is none, and it panics where that would.
  pub replace_values-substitute_all :
      (values : Map Bytes) (cache : Map Re) (i : PayloadItem Re)
      → IsVariables cache
      → item_of (replace_values R values cache i) ≡ substitute_all values i.replaces i
  unfolding replace_values
  replace_values-substitute_all values cache i w = replace_names_lem values i.replaces cache i w

  lookup-compile_cached :
      (cache cache' : Map Re) (name : Bytes) (re : Re)
      → compile_cached R cache name ≡ some (re, cache')
      → lookup name cache' ≡ some re
  unfolding compile_cached
  lookup-compile_cached cache cache' name re h = elim (Option-cases (lookup name cache)) [
    | inr (r, e) ↦ ground (arith, h, e)
    | inl e ↦ elim (Option-cases (compile name)) [
      | inl c ↦ ground (arith, h, e, c)
      | inr (r, c) ↦ ground (arith, h, e, c, lookup-insert name name r cache, equal_refl name)
    ]
  ]

  lookup-variable_re :
      (cache cache' : Map Re) (name : Bytes) (re : Re)
      → variable_re R cache name ≡ ok (re, cache')
      → lookup name cache' ≡ some re
  unfolding variable_re
  lookup-variable_re cache cache' name re h = elim (Option-cases (lookup name cache)) [
    | inr (r, e) ↦ ground (arith, h, e)
    | inl e ↦ elim (Result-cases (must_compile R (variable_pattern name))) [
      | inr (why, c) ↦ ground (arith, h, e, c)
      | inl (r, c) ↦ ground (arith, h, e, c, lookup-insert name name r cache, equal_refl name)
    ]
  ]

  -- The same cache serves the expressions of assertions and extractors, under their own texts. Once
  -- one with the text of a variable's name has been compiled, `ReplaceValues` of that one variable
  -- replaces what that expression finds, and not the variable, for every item and every value.
  pub replace_names_shared_cache :
      (values : Map Bytes) (cache cache' : Map Re) (name : Bytes) (re : Re) (i i' : PayloadItem Re)
      → compile_cached R cache name ≡ some (re, cache')
      → resolve_strings i ≡ ok i'
      → replace_names R values (name ∷ []) cache' i
        ≡ ok (substitute R i' re (value_or (lookup name values)), cache')
  unfolding replace_names variable_re
  replace_names_shared_cache values cache cache' name re i i' c e =
      ground (arith, e, lookup-compile_cached cache cache' name re c)

  -- The other way round, once a variable has been looked for, an assertion or an extractor whose
  -- expression is the text of its name is given the variable's expression.
  pub compile_cached_after_variable :
      (cache cache' : Map Re) (name : Bytes) (re : Re)
      → variable_re R cache name ≡ ok (re, cache')
      → compile_cached R cache' name ≡ some (re, cache')
  unfolding compile_cached
  compile_cached_after_variable cache cache' name re h =
      ground (arith, lookup-variable_re cache cache' name re h)
