-- ===== src/Core/Input/Decode/Formats.antt =====
-- The texts of extractors and assertions, in the format that taurus/encarno/__init__.py writes,
-- decode to what they were written from.

use mathlib.Core.List.{append-nil, append_assoc, map}
use encarno.Base.{
  ℕ, ◌≡◌, refl, ◌<◌, ◌^◌, Bool, Option, some, List, [], ◌∷◌, ◌++◌, arith, ok, if◌then◌else◌, inl,
  inr, Option-cases, Bool-cases,
}
use encarno.Base.Bytes.{Bytes, codes, equal, equal_iff, cut, count, cut-append, cut}
use encarno.Base.Decimal.{itoa, atoi-itoa, count-itoa, FitsInt}
use encarno.Base.Int.{ℤ, pos}
use encarno.Base.Map.{Map, lookup, insert, lookup-insert}
use encarno.Core.Input.{PayloadItem, ExtractRegex, AssertItem, get_string}
use encarno.Core.Input.Decode.{
  compile_cached, decode_extract, insert_extracts, decode_extracts, append_asserts, decode_asserts,
  decode_assert,
}
use encarno.Core.Regexp.{Regexp}
use encarno.Core.StrIndex.{StrIndex}

-- An extractor or an assertion before it is written, with its expression as a text.
pub record ExtractSpec : Type 0 where
  pub name : Bytes
  pub match_no : ℤ
  pub group_no : ℕ
  pub expr : Bytes

pub record AssertSpec : Type 0 where
  pub invert : Bool
  pub expr : Bytes

abbrev pub extract_text : ExtractSpec → Bytes
extract_text x =
    x.name ++ (b' ' ∷ (itoa x.match_no ++ (b' ' ∷ (itoa (pos x.group_no) ++ (b' ' ∷ x.expr)))))

abbrev pub assert_text : AssertSpec → Bytes
assert_text x = codes (if x.invert then "1" else "0") ++ (b' ' ∷ x.expr)

module _ (R : Regexp) where
  open R use {Re, compile}

  -- The cache gives to a text what compiling it gives.
  pub record IsTransparent (cache : Map Re) : Type 0 where
    pub same : (expr : Bytes) (re : Re) → lookup expr cache ≡ some re → compile expr ≡ some re

  IsTransparent-insert :
      (cache : Map Re) (expr : Bytes) (re : Re)
      → IsTransparent cache
      → compile expr ≡ some re
      → IsTransparent (insert expr re cache)
  IsTransparent-insert cache expr re w h = record {
    same = λ x r k.
        ground (arith, rw (lookup-insert expr x re cache) at k, h, equal_iff expr x, w.same x r);
  }

  compile_cached-IsTransparent :
      (cache : Map Re) (expr : Bytes) (re : Re)
      → IsTransparent cache
      → compile expr ≡ some re
      → (cache' : Map Re) × (compile_cached R cache expr ≡ some (re, cache')) × IsTransparent cache'
  unfolding compile_cached
  compile_cached-IsTransparent cache expr re w h = elim (Option-cases (lookup expr cache)) [
    | inr (r, e) ↦ (cache, rw (e, compile_cached) (ground (arith, h, w.same expr r e)), w)
    | inl e ↦ (
      insert expr re cache,
      rw (e, compile_cached) (rw h),
      IsTransparent-insert cache expr re w h,
    )
  ]

  -- The texts of an index say these extractors, each of which compiles.
  abbrev pub ExtractTexts : Option StrIndex → List ℕ → List (ExtractSpec × Re) → Type 0
  ExtractTexts index [] [] = Unit
  ExtractTexts index (idx ∷ idxs) ((x, re) ∷ xs) =
      (get_string index idx ≡ ok (extract_text x))
      × (count b' ' x.name ≡ 0)
      × FitsInt x.match_no
      × (x.group_no < 2 ^ 63)
      × (compile x.expr ≡ some re)
      × ExtractTexts index idxs xs
  ExtractTexts index _ _ = ⊥

  abbrev pub insert_specs : List (ExtractSpec × Re) → Map (ExtractRegex Re) → Map (ExtractRegex Re)
  insert_specs [] m = m
  insert_specs ((x, re) ∷ xs) m =
      insert_specs xs
        (insert x.name (record { re = re; group_no = x.group_no; match_no = x.match_no }) m)

  abbrev pub add_spec : ExtractSpec → Re → PayloadItem Re → PayloadItem Re
  add_spec x re item = record item {
    regex_out =
        insert x.name (record { re = re; group_no = x.group_no; match_no = x.match_no })
          item.regex_out;
  }

  -- One text.
  decode_extract_text :
      (x : ExtractSpec) (cache : Map Re) (item : PayloadItem Re) (re : Re) (cache' : Map Re)
      → count b' ' x.name ≡ 0
      → FitsInt x.match_no
      → x.group_no < 2 ^ 63
      → compile_cached R cache x.expr ≡ some (re, cache')
      → decode_extract R cache item (extract_text x) ≡ some (add_spec x re item, cache')
  unfolding decode_extract
  decode_extract_text x cache item re cache' n m k c =
      let group = itoa (pos x.group_no) ++ (b' ' ∷ x.expr) in
      ground (
        arith,
        cut-append b' ' x.name (itoa x.match_no ++ (b' ' ∷ group)) n,
        cut-append b' ' (itoa x.match_no) group (count-itoa x.match_no),
        cut-append b' ' (itoa (pos x.group_no)) x.expr (count-itoa (pos x.group_no)),
        c,
        atoi-itoa x.match_no m,
        atoi-itoa (pos x.group_no) k,
      )

  insert_extracts-insert_specs :
      (idxs : List ℕ) (xs : List (ExtractSpec × Re)) (cache : Map Re) (item : PayloadItem Re)
      → IsTransparent cache
      → ExtractTexts item.str_index idxs xs
      → (cache' : Map Re) × (insert_extracts R idxs cache item
          ≡ ok (some (record item { regex_out = insert_specs xs item.regex_out }), cache'))
        × IsTransparent cache'
  unfolding insert_extracts
  insert_extracts-insert_specs [] [] cache item w h = (cache, refl, w)
  insert_extracts-insert_specs [] (x ∷ xs) cache item w h = absurd h
  insert_extracts-insert_specs (idx ∷ idxs) [] cache item w h = absurd h
  insert_extracts-insert_specs (idx ∷ idxs) ((x, re) ∷ xs) cache item w (g, n, m, k, c, h) =
      let (c', e, w') = compile_cached-IsTransparent cache x.expr re w c in
      let (c'', e', w'') = insert_extracts-insert_specs idxs xs c' (add_spec x re item) w' h in
      (c'', ground (arith, g, decode_extract_text x cache item re c' n m k e, e'), w'')

  -- With a cache that gives to a text what compiling it gives, the texts that name, match, group
  -- and expression of extractors are written as decode to those extractors, each under its name,
  -- if the names have no space, the numbers fit an `int` and the expressions compile; nothing else
  -- of the item changes but that its indexes are used up.
  pub decode_extracts-insert_specs :
      (xs : List (ExtractSpec × Re)) (cache : Map Re) (item : PayloadItem Re)
      → IsTransparent cache
      → ExtractTexts item.str_index item.regex_out_idx xs
      → (cache' : Map Re) × (decode_extracts R cache item
          ≡ ok (
            some (record item { regex_out = insert_specs xs item.regex_out; regex_out_idx = [] }),
            cache',
          ))
        × IsTransparent cache'
  unfolding decode_extracts
  decode_extracts-insert_specs xs cache item w h =
      let (c, e, w') = insert_extracts-insert_specs item.regex_out_idx xs cache item w h in
      (c, rw e, w')

  -- The texts of an index say these assertions, each of which compiles.
  abbrev pub AssertTexts : Option StrIndex → List ℕ → List (AssertSpec × Re) → Type 0
  AssertTexts index [] [] = Unit
  AssertTexts index (idx ∷ idxs) ((x, re) ∷ xs) =
      (get_string index idx ≡ ok (assert_text x))
      × (compile x.expr ≡ some re)
      × AssertTexts index idxs xs
  AssertTexts index _ _ = ⊥

  abbrev pub assert_item : AssertSpec × Re → AssertItem Re
  assert_item (x, re) = record { re = re; invert = x.invert }

  decode_assert_text :
      (x : AssertSpec) (cache : Map Re) (item : PayloadItem Re) (re : Re) (cache' : Map Re)
      → compile_cached R cache x.expr ≡ some (re, cache')
      → decode_assert R cache item (assert_text x)
        ≡ some (record item { asserts = item.asserts ++ assert_item (x, re) ∷ [] }, cache')
  unfolding decode_assert equal cut
  decode_assert_text x cache item re cache' c = elim (Bool-cases x.invert) [
    | inl e ↦ rw e (ground (arith, c, e))
    | inr e ↦ rw e (ground (arith, c, e))
  ]

  append_asserts-map :
      (idxs : List ℕ) (xs : List (AssertSpec × Re)) (cache : Map Re) (item : PayloadItem Re)
      → IsTransparent cache
      → AssertTexts item.str_index idxs xs
      → (cache' : Map Re) × (append_asserts R idxs cache item
          ≡ ok (some (record item { asserts = item.asserts ++ map assert_item xs }), cache'))
        × IsTransparent cache'
  unfolding append_asserts
  append_asserts-map [] [] cache item w h = (cache, rw append-nil, w)
  append_asserts-map [] (x ∷ xs) cache item w h = absurd h
  append_asserts-map (idx ∷ idxs) [] cache item w h = absurd h
  append_asserts-map (idx ∷ idxs) ((x, re) ∷ xs) cache item w (g, c, h) =
      let (c', e, w') = compile_cached-IsTransparent cache x.expr re w c in
      let item' = record item { asserts = item.asserts ++ assert_item (x, re) ∷ [] } in
      let (c'', e', w'') = append_asserts-map idxs xs c' item' w' h in
      (
        c'',
        ground (
          arith,
          g,
          decode_assert_text x cache item re c' e,
          append_assoc item.asserts (assert_item (x, re) ∷ []) (map assert_item xs),
          e',
        ),
        w'',
      )

  -- With a cache that gives to a text what compiling it gives, the texts of assertions, "1" in
  -- front of an inverted one and "0" of a plain one, decode to those assertions, in their order and
  -- behind those that the item has, if the expressions compile; nothing else of the item changes
  -- but that its indexes are used up.
  pub decode_asserts-map :
      (xs : List (AssertSpec × Re)) (cache : Map Re) (item : PayloadItem Re)
      → IsTransparent cache
      → AssertTexts item.str_index item.asserts_idx xs
      → (cache' : Map Re) × (decode_asserts R cache item
          ≡ ok (
            some (record item { asserts = item.asserts ++ map assert_item xs; asserts_idx = [] }),
            cache',
          ))
        × IsTransparent cache'
  unfolding decode_asserts
  decode_asserts-map xs cache item w h =
      let (c, e, w') = append_asserts-map item.asserts_idx xs cache item w h in (c, rw e, w')
