-- ===== src/Core/Output/Pipe/Growth.antt =====
-- Pushing results only adds texts to the index of the output.
use mathlib.Core.List.{append-nil, append_assoc}
use encarno.Base.{
  ℕ, ◌≡◌, ap, sym, ◌∙◌, subst, inl, inr, Bool, true, false, ◌&&◌, not, Option, none, some, List, [],
  ◌∷◌, ◌++◌, ◌==◌, if◌then◌else◌, Option-cases, Result, ok, ◌>>=◌, bind-eq-ok, Result-cases,
}
use encarno.Base.Bytes.{Bytes, equal}
use encarno.Base.Map.{lookup}
use encarno.Core.Output.{
  OutputItem, BinaryOut, index_text, index_error, index_label, binary_push, ldjson_push,
  reqresp_push,
}
use encarno.Core.Output.Pipe.{
  SingleOut, ldjson_out, binary_out, reqresp_out, Output, push_out, push_outs, push_item,
  push_items,
}
use encarno.Core.Output.Pipe.Dressed.{parts, panic≢ok}
use encarno.Core.StrIndex.{StrIndex, idx}
use encarno.Core.StrIndex.Lookup.{idx_result, idx_locked_new, idx_locked_known}

-- The second index has the texts of the first one, and then more.
abbrev pub Extends : StrIndex → StrIndex → Type 0
Extends s t = (more : List Bytes) × (t.index ≡ s.index ++ more)

abbrev pub Grows : Option StrIndex → Option StrIndex → Type 0
Grows none none = Unit
Grows (some s) (some t) = Extends s t
Grows _ _ = ⊥

Extends-refl : (s : StrIndex) → Extends s s
Extends-refl s = ([], sym (append-nil s.index))

Grows-refl : (x : Option StrIndex) → Grows x x
Grows-refl none = tt
Grows-refl (some s) = Extends-refl s

Grows-trans : (x y z : Option StrIndex) → Grows x y → Grows y z → Grows x z
Grows-trans none none none g h = tt
Grows-trans none none (some u) g h = elim h [ ]
Grows-trans none (some t) z g h = elim g [ ]
Grows-trans (some s) none z g h = elim g [ ]
Grows-trans (some s) (some t) none g h = elim h [ ]
Grows-trans (some s) (some t) (some u) (m, e) (n, f) =
    (m ++ n, f ∙ ap (λ xs. xs ++ n) e ∙ append_assoc s.index m n)

idx-Extends : (s : StrIndex) (l : Bytes) {t : StrIndex} {i : ℕ} → idx s l ≡ ok (t, i) → Extends s t
idx-Extends s l {t = t} e = elim (idx_result s l e) [
  | inl same ↦ subst (Extends s) (sym same) (Extends-refl s)
  | inr locked ↦ subst (Extends s) (sym locked) (elim (Option-cases (lookup l s.mapping)) [
    | inr (i, h) ↦
        subst (λ (r : StrIndex × ℕ). Extends s r.0) (sym (idx_locked_known s l i h))
          (Extends-refl s)
    | inl h ↦ (l ∷ [], (idx_locked_new s l h).0)
  ])
]

index_text-Grows :
    (x : Option StrIndex) (l : Bytes) (r : Option StrIndex × ℕ)
    → index_text x l ≡ ok r
    → Grows x r.0
unfolding index_text
index_text-Grows none l r h = cc
index_text-Grows (some s) l r h =
    let (t, e, q) = bind-eq-ok (idx s l) _ h in
    let same : ◌≡◌ {A = Option StrIndex × ℕ} (some t.0, t.1) r = cc in
    subst (λ (r : Option StrIndex × ℕ). Grows (some s) r.0) same (idx-Extends s l e)

first :
    {S T U : Type 0} {s : S} {t : T} {u : U} (r : S × T × U)
    → ◌≡◌ {A = Result (S × T × U)} (ok (s, t, u)) (ok r)
    → s ≡ r.0
first r h = (parts h).0

-- A step that gives a number to one text, or to none.
step-Grows :
    (x : Option StrIndex) (new : Bool) (l : Bytes) (i : OutputItem)
    (f : Option StrIndex × ℕ → OutputItem) (r : Option StrIndex × OutputItem)
    → (if new then (index_text x l >>= λ n. ok (n.0, f n)) else ok (x, i)) ≡ ok r
    → Grows x r.0
step-Grows x false l i f r h =
    let same : ◌≡◌ {A = Option StrIndex × OutputItem} (x, i) r = cc in
    subst (λ (r : Option StrIndex × OutputItem). Grows x r.0) same (Grows-refl x)
step-Grows x true l i f r h =
    let (n, e, q) = bind-eq-ok (index_text x l) _ h in
    let same : ◌≡◌ {A = Option StrIndex × OutputItem} (n.0, f n) r = cc in
    subst (λ (r : Option StrIndex × OutputItem). Grows x r.0) same (index_text-Grows x l n e)

index_error-Grows :
    (x : Option StrIndex) (i : OutputItem) (r : Option StrIndex × OutputItem)
    → index_error x i ≡ ok r
    → Grows x r.0
unfolding index_error
index_error-Grows x i r h = by_error i.error h
  where
    by_error :
        (error : Option Bytes)
        → ◌≡◌ {A = Result (Option StrIndex × OutputItem)}
            (elim error [
              | none ↦ ok (x, i)
              | some err ↦
                  if i.error_str_idx == 0
                  then (index_text x err >>= λ n. ok (n.0, record i { error_str_idx = n.1 }))
                  else ok (x, i)
            ])
            (ok r)
        → Grows x r.0
    by_error none h = step-Grows x false [] i (λ n. i) r h
    by_error (some err) h =
        step-Grows x (i.error_str_idx == 0) err i (λ n. record i { error_str_idx = n.1 }) r h

index_label-Grows :
    (x : Option StrIndex) (i : OutputItem) (r : Option StrIndex × OutputItem)
    → index_label x i ≡ ok r
    → Grows x r.0
unfolding index_label
index_label-Grows x i r h =
    step-Grows x (not (equal i.label []) && i.label_idx == 0) i.label i
      (λ n. record i { label_idx = n.1 }) r h

module _ (marshal : OutputItem → Bytes) (seconds : ℕ → ℕ) where
  binary_push-Grows :
      (x : Option StrIndex) (o : BinaryOut) (i : OutputItem)
      (r : Option StrIndex × BinaryOut × OutputItem)
      → binary_push seconds x o i ≡ ok r
      → Grows x r.0
  unfolding binary_push
  binary_push-Grows x o i r h =
      let (y, e, h') = bind-eq-ok (index_error x i) _ h in
      let (z, f, h'') = bind-eq-ok (index_label y.0 y.1) _ h' in
      let same : z.0 ≡ r.0 = first r h'' in
      subst (Grows x) same
        (Grows-trans x y.0 z.0 (index_error-Grows x i y e) (index_label-Grows y.0 y.1 z f))

  push_out-Grows :
      (x : Option StrIndex) (out : SingleOut) (i : OutputItem)
      (r : Option StrIndex × SingleOut × OutputItem)
      → push_out marshal seconds x out i ≡ ok r
      → Grows x r.0
  unfolding push_out
  push_out-Grows x (ldjson_out w) i r h =
      let (y, e, q) = bind-eq-ok (ldjson_push marshal x w i) _ h in
      subst (Grows x) (first r q) (Grows-refl x)
  push_out-Grows x (reqresp_out level w) i r h =
      let (y, e, q) = bind-eq-ok (reqresp_push marshal x level w i) _ h in
      subst (Grows x) (first r q) (Grows-refl x)
  push_out-Grows x (binary_out o) i r h =
      let (y, e, q) = bind-eq-ok (binary_push seconds x o i) _ h in
      subst (Grows x) (first r q) (binary_push-Grows x o i y e)

  push_outs-Grows :
      (x : Option StrIndex) (outs : List SingleOut) (i : OutputItem)
      (r : Option StrIndex × List SingleOut × OutputItem)
      → push_outs marshal seconds x outs i ≡ ok r
      → Grows x r.0
  unfolding push_outs
  push_outs-Grows x [] i r h = subst (Grows x) (first r h) (Grows-refl x)
  push_outs-Grows x (out ∷ outs) i r h =
      let (y, e, h') = bind-eq-ok (push_out marshal seconds x out i) _ h in
      let (z, f, q) = bind-eq-ok (push_outs marshal seconds y.0 outs y.2) _ h' in
      subst (Grows x) (first r q)
        (Grows-trans x y.0 z.0 (push_out-Grows x out i y e) (push_outs-Grows y.0 outs y.2 z f))

  pub push_items-Grows :
      (m n : Output) (items : List OutputItem)
      → push_items marshal seconds m items ≡ ok n
      → Grows m.str_index n.str_index
  unfolding push_items push_item
  push_items-Grows m n [] h =
      let same : m ≡ n = cc in
      subst (λ (n : Output). Grows m.str_index n.str_index) same (Grows-refl m.str_index)
  push_items-Grows m n (i ∷ items) h =
      elim (Result-cases (push_outs marshal seconds m.str_index m.outs i)) [
        | inr (why, q) ↦ let bad = (rw q at h) in absurd (panic≢ok bad)
        | inl ((x, outs, j), q) ↦
            Grows-trans m.str_index x n.str_index (push_outs-Grows m.str_index m.outs i _ q)
              (push_items-Grows (record { outs = outs; str_index = x }) n items (rw q at h))
      ]
