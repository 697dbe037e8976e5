-- ===== src/Core/Output/Pipe/Choices.antt =====
-- The binary records and the index of strings do not depend on which other writers there are.
use encarno.Base.{
  ℕ, ◌≡◌, refl, ap, sym, ◌∙◌, inl, inr, Bool, true, false, Option, none, some, List, [], ◌∷◌, ◌++◌,
  leb, if◌then◌else◌, Bool-cases, Result, ok, bind-eq-ok, Result-cases,
}
use encarno.Base.Bytes.{Bytes, equal}
use encarno.Core.Output.{
  OutputItem, BufWriter, BinaryOut, string_friendly, ldjson_push, reqresp_push, binary_push,
}
use encarno.Core.Output.Pipe.{
  OutputConf, new_writer, new_output, SingleOut, ldjson_out, binary_out, reqresp_out, Output,
  push_out, push_outs, push_item, push_items,
}
use encarno.Core.Output.Pipe.Dressed.{
  dress, Kept, parts, whole, panic≢ok, pair_second, string_friendly_lem, binary_push-dress,
}
use encarno.Core.StrIndex.{new_string_index, StrIndex}

-- The binary writers among the outputs.
abbrev pub binary_outs : List SingleOut → List SingleOut
binary_outs [] = []
binary_outs (ldjson_out w ∷ outs) = binary_outs outs
binary_outs (binary_out o ∷ outs) = binary_out o ∷ binary_outs outs
binary_outs (reqresp_out level w ∷ outs) = binary_outs outs

abbrev pub only_binary : Output → Output
only_binary m = record m { outs = binary_outs m.outs }

Kept-dress : (l m e : Bytes) (i : OutputItem) → Kept m (dress l e i) → Kept l i → Kept m i
Kept-dress l m e i (inl h) (inl k) = inl (h ∙ k)
Kept-dress l m e i (inl h) (inr n) = inr n
Kept-dress l m e i (inr n) k = inr n

module _ (marshal : OutputItem → Bytes) (seconds : ℕ → ℕ) where
  -- The writers of text leave an item with other texts at most.
  ldjson_push-dress :
      (index : Option StrIndex) (w v : BufWriter) (i j : OutputItem)
      → ldjson_push marshal index w i ≡ ok (v, j)
      → (l : Bytes) × (e : Bytes) × (j ≡ dress l e i) × Kept l i
  unfolding ldjson_push
  ldjson_push-dress index w v i j h =
      let (k, s, q) = bind-eq-ok (string_friendly index i) _ h in
      let same : k ≡ j = cc in string_friendly_lem index i j (s ∙ ap ok same)

  reqresp_push-dress :
      (index : Option StrIndex) (level : ℕ) (w v : BufWriter) (i j : OutputItem)
      → reqresp_push marshal index level w i ≡ ok (v, j)
      → (l : Bytes) × (e : Bytes) × (j ≡ dress l e i) × Kept l i
  unfolding reqresp_push
  reqresp_push-dress index level w v i j h = elim (Bool-cases (leb level i.status)) [
    | inl b ↦
        let (k, s, q) = bind-eq-ok (string_friendly index i) _ (rw b at h) in
        let same : k ≡ j = cc in string_friendly_lem index i j (s ∙ ap ok same)
    | inr b ↦ let q = (rw b at h) in (i.label, i.error_str, pair_second (sym q), inl refl)
  ]

  push_outs-binary :
      (index : Option StrIndex) (outs : List SingleOut) (l e : Bytes) (i : OutputItem)
      {x : Option StrIndex} {outs' : List SingleOut} {j : OutputItem}
      → Kept l i
      → push_outs marshal seconds index outs (dress l e i) ≡ ok (x, outs', j)
      → (k : OutputItem) × (push_outs marshal seconds index (binary_outs outs) i
          ≡ ok (x, binary_outs outs', k))
  unfolding push_outs push_out
  push_outs-binary index [] l e i k h =
      let (same_index, same_outs, same_item) = parts h in
      (i, whole i same_index (ap binary_outs same_outs))
  push_outs-binary index (ldjson_out w ∷ outs) l e i k h =
      elim (Result-cases (ldjson_push marshal index w (dress l e i))) [
        | inr (why, q) ↦ let bad = (rw q at h) in absurd (panic≢ok bad)
        | inl ((v, j), q) ↦
            let (m, f, same, kept) = ldjson_push-dress index w v (dress l e i) j q in
            let (rs, p, r) = bind-eq-ok (push_outs marshal seconds index outs j) _ (rw q at h) in
            let (j', t) =
              push_outs-binary index outs m f i (Kept-dress l m e i kept k)
                (ap (push_outs marshal seconds index outs) (sym same) ∙ p) in
            let (same_index, same_outs, same_item) = parts r in
            (j', t ∙ whole j' same_index (ap binary_outs same_outs))
      ]
  push_outs-binary index (reqresp_out level w ∷ outs) l e i k h =
      elim (Result-cases (reqresp_push marshal index level w (dress l e i))) [
        | inr (why, q) ↦ let bad = (rw q at h) in absurd (panic≢ok bad)
        | inl ((v, j), q) ↦
            let (m, f, same, kept) = reqresp_push-dress index level w v (dress l e i) j q in
            let (rs, p, r) = bind-eq-ok (push_outs marshal seconds index outs j) _ (rw q at h) in
            let (j', t) =
              push_outs-binary index outs m f i (Kept-dress l m e i kept k)
                (ap (push_outs marshal seconds index outs) (sym same) ∙ p) in
            let (same_index, same_outs, same_item) = parts r in
            (j', t ∙ whole j' same_index (ap binary_outs same_outs))
      ]
  push_outs-binary index (binary_out o ∷ outs) l e i k h =
      elim (Result-cases (binary_push seconds index o (dress l e i))) [
        | inr (why, q) ↦ let bad = (rw q at h) in absurd (panic≢ok bad)
        | inl ((x, o', j), q) ↦
            let (i', b, same, kept) = binary_push-dress seconds index o l e i k q in
            let (rs, p, r) = bind-eq-ok (push_outs marshal seconds x outs j) _ (rw q at h) in
            let (j', t) =
              push_outs-binary x outs l e i' kept
                (ap (push_outs marshal seconds x outs) (sym same) ∙ p) in
            let (same_index, same_outs, same_item) = parts r in
            (j', rw (b, t) (whole j' same_index (ap binary_outs same_outs)))
      ]

  push_items-binary :
      (m : Output) (items : List OutputItem) {n : Output}
      → push_items marshal seconds m items ≡ ok n
      → push_items marshal seconds (only_binary m) items ≡ ok (only_binary n)
  unfolding push_items push_item
  push_items-binary m [] h = cc
  push_items-binary m (i ∷ items) h =
      elim (Result-cases (push_outs marshal seconds m.str_index m.outs i)) [
        | inr (why, q) ↦ let bad = (rw q at h) in absurd (panic≢ok bad)
        | inl ((x, outs, j), q) ↦
            let (k, t) = push_outs-binary m.str_index m.outs i.label i.error_str i (inl refl) q in
            rw t (push_items-binary (record { outs = outs; str_index = x }) items (rw q at h))
      ]

-- The same configuration with no other writers.
abbrev pub binary_conf : OutputConf → OutputConf
binary_conf conf = record conf { ldjson_file = []; reqresp_file = [] }

abbrev named : Bool → SingleOut → List SingleOut
named unnamed out = if unnamed then [] else out ∷ []

binary_outs_lem :
    (a b c : Bool) (w v : BufWriter) (o : BinaryOut) (level : ℕ)
    → binary_outs
        (named a (ldjson_out w) ++ (named b (binary_out o) ++ named c (reqresp_out level v)))
      ≡ named b (binary_out o) ++ []
binary_outs_lem true true true w v o level = refl
binary_outs_lem true true false w v o level = refl
binary_outs_lem true false true w v o level = refl
binary_outs_lem true false false w v o level = refl
binary_outs_lem false true true w v o level = refl
binary_outs_lem false true false w v o level = refl
binary_outs_lem false false true w v o level = refl
binary_outs_lem false false false w v o level = refl

only_binary_lem :
    (xs ys : List SingleOut) (index : Option StrIndex) {m : Output}
    → binary_outs xs ≡ ys
    → ◌≡◌ {A = Result Output} (ok (record { outs = xs; str_index = index })) (ok m)
    → ◌≡◌ {A = Result Output} (ok (record { outs = ys; str_index = index })) (ok (only_binary m))
only_binary_lem xs ys index {m = m} e h =
    let same : ◌≡◌ {A = Output} (record { outs = xs; str_index = index }) m = cc in
    ap (λ (outs : List SingleOut). ok (record { outs = outs; str_index = index })) (sym e)
    ∙ ap (λ (n : Output). ok (only_binary n)) same

new_output-binary :
    (conf : OutputConf) (disk : Option Bytes) {m : Output}
    → new_output conf disk ≡ ok m
    → new_output (binary_conf conf) disk ≡ ok (only_binary m)
unfolding new_output equal
new_output-binary conf disk h =
    let outs =
      binary_outs_lem (equal conf.ldjson_file []) (equal conf.binary_file [])
        (equal conf.reqresp_file []) new_writer new_writer
        (record { writer = new_writer; last_ts = 0 }) conf.reqresp_file_level in
    elim (Bool-cases (equal conf.strings_file [])) [
      | inl b ↦ rw b (only_binary_lem _ _ none outs (rw b at h))
      | inr b ↦
          let (index, q, r) =
            bind-eq-ok (new_string_index conf.strings_file false disk) _ (rw b at h) in
          rw (b, q) (only_binary_lem _ _ (some index) outs r)
    ]

-- If an output can be opened and takes some results, the output with the same binary file and
-- strings file and no other writers can be opened and takes them too, and ends with the same
-- binary writer and the same index of strings. So the texts that the other writers put into a
-- result never get into its binary record.
pub push_items-new_output :
    (marshal : OutputItem → Bytes) (seconds : ℕ → ℕ) (conf : OutputConf) (disk : Option Bytes)
    (items : List OutputItem) (m n : Output)
    → new_output conf disk ≡ ok m
    → push_items marshal seconds m items ≡ ok n
    → (k : Output) × (new_output (binary_conf conf) disk ≡ ok k)
      × (push_items marshal seconds k items ≡ ok (only_binary n))
push_items-new_output marshal seconds conf disk items m n h p =
    (only_binary m, new_output-binary conf disk h, push_items-binary marshal seconds m items p)
