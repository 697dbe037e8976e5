-- ===== src/Core/Output/Pipe/Dressed.antt =====
-- Results with other texts for the label and the error: what the writers make of them.
use mathlib.Core.Bool.{and-false}
use encarno.Base.{
  ℕ, ◌≡◌, refl, ap, sym, subst, ◌∙◌, ◌⊎◌, inl, inr, Bool, true, false, ◌&&◌, not, Option, none,
  some, [], ltb, ◌==◌, if◌then◌else◌, arith, Panic, Result, ok, panic, nil_pointer, ◌>>=◌,
  bind-eq-ok, Result-cases,
}
use encarno.Base.Bytes.{Bytes, equal}
use encarno.Core.Output.{
  OutputItem, BufWriter, BinaryOut, string_friendly, index_text, index_error, index_label,
  binary_push, write_binary,
}
use encarno.Core.StrIndex.{StrIndex, get}

-- An item with other texts for its label and its error.
abbrev pub dress : Bytes → Bytes → OutputItem → OutputItem
dress l e i = record i { label = l; error_str = e }

abbrev Numbered : Type 0
Numbered = Option StrIndex × OutputItem

abbrev dressed : Bytes → Bytes → Numbered → Numbered
dressed l e r = (r.0, dress l e r.1)

abbrev with_error : OutputItem → Option StrIndex × ℕ → Numbered
with_error i r = (r.0, record i { error_str_idx = r.1 })

abbrev with_label : OutputItem → Option StrIndex × ℕ → Numbered
with_label i r = (r.0, record i { label_idx = r.1 })

-- The label is the item's, or the item has the number of one.
abbrev pub Kept : Bytes → OutputItem → Type 0
Kept l i = (l ≡ i.label) ⊎ (ltb 0 i.label_idx ≡ true)

bind-swap :
    {S T U : Type 0} (r : Result S) (f : S → T) (g : T → U)
    → ((r >>= λ s. ok (f s)) >>= λ t. ok (g t)) ≡ (r >>= λ s. ok (g (f s)))
bind-swap (ok s) f g = refl
bind-swap (panic why) f g = refl

pub panic≢ok : {T : Type 0} {why : Panic} {t : T} → panic why ≡ ok t → ⊥
panic≢ok h = cc

pub parts :
    {S T U : Type 0} {s s' : S} {t t' : T} {u u' : U}
    → ◌≡◌ {A = Result (S × T × U)} (ok (s, t, u)) (ok (s', t', u'))
    → (s ≡ s') × (t ≡ t') × (u ≡ u')
parts h = (cc, cc, cc)

pub whole :
    {S T U : Type 0} {s s' : S} {t t' : T} (u : U)
    → s ≡ s'
    → t ≡ t'
    → ◌≡◌ {A = Result (S × T × U)} (ok (s, t, u)) (ok (s', t', u))
whole u e f = cc

pub pair_second :
    {S T : Type 0} {s s' : S} {t t' : T}
    → ◌≡◌ {A = Result (S × T)} (ok (s, t)) (ok (s', t'))
    → t ≡ t'
pair_second h = cc

pub string_friendly_lem :
    (index : Option StrIndex) (i j : OutputItem)
    → string_friendly index i ≡ ok j
    → (l : Bytes) × (e : Bytes) × (j ≡ dress l e i) × Kept l i
unfolding string_friendly
string_friendly_lem index i j h =
    by_label index i (elim i.error [ none ↦ i.error_str | some err ↦ err ]) (equal i.label [])
      (ltb 0 i.label_idx) refl h
  where
    by_label :
        (index : Option StrIndex) (i : OutputItem) (e : Bytes) (empty numbered : Bool)
        → ltb 0 i.label_idx ≡ numbered
        → (if empty && numbered
            then elim index [
              | none ↦ panic nil_pointer
              | some s ↦ get s i.label_idx >>= λ label. ok (dress label e i)
            ]
            else ok (dress i.label e i))
          ≡ ok j
        → (l : Bytes) × (e : Bytes) × (j ≡ dress l e i) × Kept l i
    by_label index i e false numbered n h = (i.label, e, cc, inl refl)
    by_label index i e true false n h = (i.label, e, cc, inl refl)
    by_label none i e true true n h = cc
    by_label (some s) i e true true n h =
        let (label, g, x) = bind-eq-ok (get s i.label_idx) (λ label. ok (dress label e i)) h in
        (label, e, cc, inr n)

index_error-dress :
    (index : Option StrIndex) (l e : Bytes) (i : OutputItem)
    → index_error index (dress l e i) ≡ (index_error index i >>= λ r. ok (dressed l e r))
unfolding index_error
index_error-dress index l e i = by_error i.error (i.error_str_idx == 0)
  where
    by_error :
        (error : Option Bytes) (fresh : Bool)
        → (elim error [
          | none ↦ ok (index, dress l e i)
          | some err ↦
              if fresh
              then (index_text index err >>= λ r. ok (with_error (dress l e i) r))
              else ok (index, dress l e i)
        ])
          ≡ ((elim error [
            | none ↦ ok (index, i)
            | some err ↦
                if fresh then (index_text index err >>= λ r. ok (with_error i r)) else ok (index, i)
          ])
              >>= λ r. ok (dressed l e r))
    by_error none fresh = refl
    by_error (some err) false = refl
    by_error (some err) true = sym (bind-swap (index_text index err) _ _)

index_label_same :
    (index : Option StrIndex) (e : Bytes) (i : OutputItem)
    → index_label index (dress i.label e i)
      ≡ (index_label index i >>= λ r. ok (dressed i.label e r))
unfolding index_label
index_label_same index e i = by_new (not (equal i.label []) && i.label_idx == 0)
  where
    by_new :
        (new : Bool)
        → (if new
            then (index_text index i.label >>= λ r. ok (with_label (dress i.label e i) r))
            else ok (index, dress i.label e i))
          ≡ ((if new
                then (index_text index i.label >>= λ r. ok (with_label i r))
                else ok (index, i))
              >>= λ r. ok (dressed i.label e r))
    by_new false = refl
    by_new true = sym (bind-swap (index_text index i.label) _ _)

index_label_numbered :
    (index : Option StrIndex) (i : OutputItem)
    → ltb 0 i.label_idx ≡ true
    → index_label index i ≡ ok (index, i)
unfolding index_label
index_label_numbered index i n =
    let z : (i.label_idx == 0) ≡ false = ground arith in
    rw (z, and-false (not (equal i.label []))) refl

index_label-dress :
    (index : Option StrIndex) (l e : Bytes) (i : OutputItem)
    → Kept l i
    → index_label index (dress l e i) ≡ (index_label index i >>= λ r. ok (dressed l e r))
index_label-dress index l e i (inl h) =
    subst
      (λ (m : Bytes).
        index_label index (dress m e i) ≡ (index_label index i >>= λ r. ok (dressed m e r)))
      (sym h) (index_label_same index e i)
index_label-dress index l e i (inr n) =
    rw (index_label_numbered index (dress l e i) n, index_label_numbered index i n) refl

index_error_fields :
    (index x : Option StrIndex) (i j : OutputItem)
    → index_error index i ≡ ok (x, j)
    → (j.label ≡ i.label) × (j.label_idx ≡ i.label_idx)
unfolding index_error
index_error_fields index x i j h = by_error i.error (i.error_str_idx == 0) h
  where
    fields :
        {n : ℕ}
        → j ≡ record i { error_str_idx = n }
        → (j.label ≡ i.label) × (j.label_idx ≡ i.label_idx)
    fields same = (ap (λ (m : OutputItem). m.label) same, ap (λ (m : OutputItem). m.label_idx) same)

    by_error :
        (error : Option Bytes) (fresh : Bool)
        → ◌≡◌ {A = Result Numbered}
            (elim error [
              | none ↦ ok (index, i)
              | some err ↦
                  if fresh
                  then (index_text index err >>= λ r. ok (with_error i r))
                  else ok (index, i)
            ])
            (ok (x, j))
        → (j.label ≡ i.label) × (j.label_idx ≡ i.label_idx)
    by_error none fresh h = let same : j ≡ i = cc in fields same
    by_error (some err) false h = let same : j ≡ i = cc in fields same
    by_error (some err) true h =
        let (r, e, q) = bind-eq-ok (index_text index err) (λ r. ok (with_error i r)) h in
        let same : j ≡ (with_error i r).1 = cc in fields same

index_label_field :
    (index x : Option StrIndex) (i j : OutputItem)
    → index_label index i ≡ ok (x, j)
    → j.label ≡ i.label
unfolding index_label
index_label_field index x i j h = by_new (not (equal i.label []) && i.label_idx == 0) h
  where
    by_new :
        (new : Bool)
        → (if new then (index_text index i.label >>= λ r. ok (with_label i r)) else ok (index, i))
          ≡ ok (x, j)
        → j.label ≡ i.label
    by_new false h = let same : j ≡ i = cc in ap (λ (m : OutputItem). m.label) same
    by_new true h =
        let (r, e, q) = bind-eq-ok (index_text index i.label) (λ r. ok (with_label i r)) h in
        let same : j ≡ (with_label i r).1 = cc in ap (λ (m : OutputItem). m.label) same

index_error-Kept :
    (index x : Option StrIndex) (l : Bytes) (i j : OutputItem)
    → index_error index i ≡ ok (x, j)
    → Kept l i
    → Kept l j
index_error-Kept index x l i j h k =
    let (label, label_idx) = index_error_fields index x i j h in
    elim k [ inl e ↦ inl (e ∙ sym label) | inr n ↦ inr (ap (ltb 0) label_idx ∙ n) ]

index_label-Kept :
    (index x : Option StrIndex) (l : Bytes) (i j : OutputItem)
    → index_label index i ≡ ok (x, j)
    → Kept l i
    → Kept l j
index_label-Kept index x l i j h (inr n) =
    let e = index_label_numbered index i n in
    let same : i ≡ j = cc in inr (subst (λ (m : OutputItem). ltb 0 m.label_idx ≡ true) same n)
index_label-Kept index x l i j h (inl e) = inl (e ∙ sym (index_label_field index x i j h))

write_binary-dress :
    (seconds : ℕ → ℕ) (w : BufWriter) (l e : Bytes) (i : OutputItem)
    → write_binary seconds w (dress l e i) ≡ write_binary seconds w i
unfolding write_binary
write_binary-dress seconds w l e i = refl

-- A binary record does not depend on the texts.
pub binary_push-dress :
    (seconds : ℕ → ℕ) (index : Option StrIndex) (o : BinaryOut) (l e : Bytes) (i : OutputItem)
    {x : Option StrIndex} {p : BinaryOut} {j : OutputItem}
    → Kept l i
    → binary_push seconds index o (dress l e i) ≡ ok (x, p, j)
    → (k : OutputItem) × (binary_push seconds index o i ≡ ok (x, p, k))
      × (j ≡ dress l e k)
      × Kept l k
unfolding binary_push
binary_push-dress seconds index o l e i {x = x} {p = p} {j = j} k h =
    elim (Result-cases (index_error index i)) [
      | inr (why, q) ↦
          let bad = (rw (index_error-dress index l e i, q) at h) in absurd (panic≢ok bad)
      | inl (r, q) ↦
          let kept = index_error-Kept index r.0 l i r.1 q k in
          let step =
            (rw (index_error-dress index l e i, q, index_label-dress r.0 l e r.1 kept) at h) in
          elim (Result-cases (index_label r.0 r.1)) [
            | inr (why, q') ↦ let bad = (rw q' at step) in absurd (panic≢ok bad)
            | inl (t, q') ↦
                let same = (rw (q', write_binary-dress seconds o.writer l e t.1) at step) in
                let (same_index, same_out, same_item) = parts same in
                (
                  t.1,
                  rw (q, q') (whole t.1 same_index same_out),
                  sym same_item,
                  index_label-Kept r.0 t.0 l r.1 t.1 q' kept,
                )
          ]
    ]
