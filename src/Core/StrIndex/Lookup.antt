-- ===== src/Core/StrIndex/Lookup.antt =====
-- `Get` and `Idx` agree, while the index has fewer entries than a `uint16` can number.
use encarno.Base.{
  ℕ, ◌+◌, ◌-◌, ◌^◌, ◌≤◌, ◌<◌, ◌≡◌, refl, ap, ◌∙◌, ◌⊎◌, inl, inr, false, none, some, List, [], ◌∷◌,
  ◌++◌, arith, if◌then◌else◌, length, get_elem?, length-append, get_elem?-append, get_elem?-last,
  get_elem?-some, sym, Option-cases, Bool-cases, u16, u16_small, Result, ok, ◌>>=◌,
}
use encarno.Base.Bytes.{Bytes, equal, equal_iff, equal_refl}
use encarno.Base.Map.{lookup, insert, lookup-insert}
use encarno.Core.StrIndex.{StrIndex, get, append_file, idx_locked, idx}

-- Every number that the reverse index gives leads back to its text, and all can be numbered.
pub record IsSound (s : StrIndex) : Type 0 where
  pub sound : (l : Bytes) (i : ℕ) → lookup l s.mapping ≡ some i → get_elem? s.index i ≡ some l
  pub bounded : length s.index ≤ 2 ^ 16

-- There is a number left for one more text.
abbrev pub HasRoom : StrIndex → Type 0
HasRoom s = length s.index < 2 ^ 16

-- What `append_file` leaves alone.
pub index-append_file : (s : StrIndex) (l : Bytes) → (append_file s l).index ≡ s.index
unfolding append_file
index-append_file s l = ground arith

pub mapping-append_file : (s : StrIndex) (l : Bytes) → (append_file s l).mapping ≡ s.mapping
unfolding append_file
mapping-append_file s l = ground arith

pub readonly-append_file : (s : StrIndex) (l : Bytes) → (append_file s l).readonly ≡ s.readonly
unfolding append_file
readonly-append_file s l = ground arith

-- The number of a text that is added at the end.
next_idx : (s : StrIndex) (l : Bytes) → u16 (length (s.index ++ l ∷ []) - 1) ≡ u16 (length s.index)
next_idx s l = omega (arith, length-append s.index (l ∷ []))

pub idx_locked_new :
    (s : StrIndex) (l : Bytes)
    → lookup l s.mapping ≡ none
    → ((idx_locked s l).0.index ≡ s.index ++ l ∷ [])
      × ((idx_locked s l).0.mapping ≡ insert l (u16 (length s.index)) s.mapping)
      × ((idx_locked s l).1 ≡ u16 (length s.index))
unfolding idx_locked
idx_locked_new s l missing =
    rw (missing, idx_locked)
      (
        index-append_file _ l,
        mapping-append_file _ l ∙ ap (λ (i : ℕ). insert l i s.mapping) (next_idx s l),
        next_idx s l,
      )

pub idx_locked_known :
    (s : StrIndex) (l : Bytes) (i : ℕ) → lookup l s.mapping ≡ some i → idx_locked s l ≡ (s, i)
unfolding idx_locked
idx_locked_known s l i h = rw (h, idx_locked)

-- What one locked section does, whichever of its branches it takes.
pub record Indexes (s : StrIndex) (l : Bytes) (t : StrIndex) (i : ℕ) : Type 0 where
  pub still_sound : IsSound t
  pub indexed : get_elem? t.index i ≡ some l
  pub mapped : lookup l t.mapping ≡ some i
  pub keeps_index :
      (j : ℕ) (m : Bytes) → get_elem? s.index j ≡ some m → get_elem? t.index j ≡ some m
  pub keeps_mapping :
      (m : Bytes) (j : ℕ) → lookup m s.mapping ≡ some j → lookup m t.mapping ≡ some j
  pub grows : length t.index ≤ length s.index + 1
  pub same_mode : t.readonly ≡ s.readonly

pub Indexes-known :
    (s : StrIndex) (l : Bytes) (i : ℕ) → IsSound s → lookup l s.mapping ≡ some i → Indexes s l s i
Indexes-known s l i w h = record {
  still_sound = w;
  indexed = w.sound l i h;
  mapped = h;
  keeps_index = λ j m e. e;
  keeps_mapping = λ m j e. e;
  grows = omega arith;
  same_mode = refl;
}

Indexes-new :
    (s t : StrIndex) (l : Bytes)
    → IsSound s
    → HasRoom s
    → lookup l s.mapping ≡ none
    → t.index ≡ s.index ++ l ∷ []
    → t.mapping ≡ insert l (length s.index) s.mapping
    → t.readonly ≡ s.readonly
    → Indexes s l t (length s.index)
Indexes-new s t l w room missing ei em er = record {
  still_sound = record {
    sound = λ m i h. rw ei (found m i (rw (em, lookup-insert l m (length s.index) s.mapping) at h));
    bounded = omega (arith, ap length ei, length-append s.index (l ∷ []));
  };
  indexed = rw ei (get_elem?-last s.index l);
  mapped = rw (em, lookup-insert l l (length s.index) s.mapping, equal_refl l);
  keeps_index = λ j m e. rw ei (get_elem?-append s.index (l ∷ []) j e);
  keeps_mapping = λ m j e. rw (em, lookup-insert l m (length s.index) s.mapping) (other m j e);
  grows = omega (arith, ap length ei, length-append s.index (l ∷ []));
  same_mode = er;
}
  where
    found :
        (m : Bytes) (i : ℕ)
        → (if equal l m then some (length s.index) else lookup m s.mapping) ≡ some i
        → get_elem? (s.index ++ l ∷ []) i ≡ some m
    found m i h = ground (
      arith,
      equal_iff l m,
      w.sound m i,
      get_elem?-append s.index (l ∷ []) i {a = m},
      get_elem?-last s.index l,
    )

    other :
        (m : Bytes) (j : ℕ)
        → lookup m s.mapping ≡ some j
        → (if equal l m then some (length s.index) else lookup m s.mapping) ≡ some j
    other m j e = ground (arith, equal_iff l m)

readonly-idx_locked : (s : StrIndex) (l : Bytes) → (idx_locked s l).0.readonly ≡ s.readonly
unfolding idx_locked append_file
readonly-idx_locked s l = ground arith

-- Every locked section returns a number of its text, and loses no number given before.
pub idx_locked-Indexes :
    (s : StrIndex) (l : Bytes)
    → IsSound s
    → HasRoom s
    → Indexes s l (idx_locked s l).0 (idx_locked s l).1
idx_locked-Indexes s l w room = elim (Option-cases (lookup l s.mapping)) [
  | inr (i, h) ↦ rw (idx_locked_known s l i h) (Indexes-known s l i w h)
  | inl h ↦
      let (ei, em, e) = idx_locked_new s l h in
      let small = u16_small (length s.index) room in
      rw (e, small)
        (Indexes-new s _ l w room h ei (em ∙ ap (λ (i : ℕ). insert l i s.mapping) small)
          (readonly-idx_locked s l))
]

-- `Idx` can number the text: it is known, or the index can change and has room.
abbrev pub CanIndex : StrIndex → Bytes → Type 0
CanIndex s l = ((i : ℕ) × (lookup l s.mapping ≡ some i)) ⊎ ((s.readonly ≡ false) × HasRoom s)

pub idx_known :
    (s : StrIndex) (l : Bytes) (i : ℕ) → lookup l s.mapping ≡ some i → idx s l ≡ ok (s, i)
unfolding idx
idx_known s l i h = rw (h, idx)

pub idx_missing :
    (s : StrIndex) (l : Bytes)
    → s.readonly ≡ false
    → lookup l s.mapping ≡ none
    → idx s l ≡ ok (idx_locked s l)
unfolding idx
idx_missing s l m h = rw (h, idx) (rw m)

-- A call that returns and adds its text is the locked section.
pub idx_new :
    (s : StrIndex) (l : Bytes) {t : StrIndex} {i : ℕ}
    → lookup l s.mapping ≡ none
    → idx s l ≡ ok (t, i)
    → t ≡ (idx_locked s l).0
idx_new s l h e = elim (Bool-cases s.readonly) [
  | inl m ↦ absurd (unfold idx in ground (arith, h, m))
  | inr m ↦ cc (idx_missing s l m h)
]

-- A call that returns leaves the index alone, or is the locked section.
pub idx_result :
    (s : StrIndex) (l : Bytes) {t : StrIndex} {i : ℕ}
    → idx s l ≡ ok (t, i)
    → (t ≡ s) ⊎ (t ≡ (idx_locked s l).0)
idx_result s l e = elim (Option-cases (lookup l s.mapping)) [
  | inr (i, h) ↦ inl (cc (idx_known s l i h))
  | inl h ↦ inr (idx_new s l h e)
]

-- On a sound index, `Idx` of a text that is known, or for which an index that can change has room,
-- returns. The number leads to the text by `Get`, the same call again returns it and changes
-- nothing, every number and every text of before keeps its meaning, and the index stays sound.
pub get-idx :
    (s : StrIndex) (l : Bytes)
    → IsSound s
    → CanIndex s l
    → (t : StrIndex) × (i : ℕ) × (idx s l ≡ ok (t, i))
      × (get t i ≡ ok l)
      × (idx t l ≡ ok (t, i))
      × Indexes s l t i
unfolding get
get-idx s l w (inl (i, h)) =
    (s, i, idx_known s l i h, rw (w.sound l i h, get), idx_known s l i h, Indexes-known s l i w h)
get-idx s l w (inr (m, room)) = elim (Option-cases (lookup l s.mapping)) [
  | inr (i, h) ↦
      (s, i, idx_known s l i h, rw (w.sound l i h, get), idx_known s l i h, Indexes-known s l i w h)
  | inl h ↦
      let x = idx_locked-Indexes s l w room in
      let t : StrIndex = (idx_locked s l).0 in
      let i : ℕ = (idx_locked s l).1 in
      (t, i, idx_missing s l m h, rw (x.indexed, get), idx_known t l i x.mapped, x)
]

-- The numbers that `Idx` gives to the texts in turn.
unfoldable pub idx_all : StrIndex → List Bytes → Result (StrIndex × List ℕ)
unfolding idx
idx_all s [] = ok (s, [])
idx_all s (l ∷ ls) = do (t, i) ← idx s l; (u, is) ← idx_all t ls; ok (u, i ∷ is)

-- Each number leads back to its text.
abbrev pub Decodes : StrIndex → List Bytes → List ℕ → Type 0
Decodes s [] [] = Unit
Decodes s (l ∷ ls) (i ∷ is) = (get s i ≡ ok l) × Decodes s ls is
Decodes s _ _ = ⊥

pub get_indexed : (s : StrIndex) (i : ℕ) (l : Bytes) → get_elem? s.index i ≡ some l → get s i ≡ ok l
unfolding get
get_indexed s i l h = rw (h, get)

-- From a sound index that can change and has a number for each, `Idx` numbers any texts in turn,
-- repeated ones too, and in the end every number still leads to its text by `Get`.
pub idx_all-Decodes :
    (s : StrIndex) (ls : List Bytes)
    → IsSound s
    → s.readonly ≡ false
    → length s.index + length ls ≤ 2 ^ 16
    → (t : StrIndex) × (is : List ℕ) × (idx_all s ls ≡ ok (t, is))
      × Decodes t ls is
      × IsSound t
      × ((j : ℕ) (m : Bytes) → get_elem? s.index j ≡ some m → get_elem? t.index j ≡ some m)
unfolding idx_all
idx_all-Decodes s [] w m fits = (s, [], refl, tt, w, λ j x h. h)
idx_all-Decodes s (l ∷ ls) w m fits =
    let (t, i, e, g, again, x) = get-idx s l w (inr (m, omega arith)) in
    let (u, is, e', d, w', keep) =
      idx_all-Decodes t ls x.still_sound (x.same_mode ∙ m) (omega (arith, x.grows)) in
    (
      u,
      i ∷ is,
      rw (e, e'),
      (get_indexed u i l (keep i l x.indexed), d),
      w',
      λ j k h. keep j k (x.keeps_index j k h),
    )

-- The reverse index is full: a text that is not in it gets the number 0, which stands for another
-- text, the first. Nothing reports this.
pub idx_full :
    (s : StrIndex) (l : Bytes)
    → s.readonly ≡ false
    → length s.index ≡ 2 ^ 16
    → lookup l s.mapping ≡ none
    → (t : StrIndex) × (idx s l ≡ ok (t, 0)) × (get t 0 ≡ get s 0) × (lookup l t.mapping ≡ some 0)
idx_full s l m full h =
    let (ei, em, e) = idx_locked_new s l h in
    let zero_idx : u16 (length s.index) ≡ 0 = rw full in
    let (a, first) = get_elem?-some s.index 0 (omega arith) in
    let t : StrIndex = (idx_locked s l).0 in
    (
      t,
      idx_missing s l m h ∙ ap (λ (i : ℕ). ok (t, i)) (e ∙ zero_idx),
      get_indexed t 0 a (rw ei (get_elem?-append s.index (l ∷ []) 0 first))
          ∙ sym (get_indexed s 0 a first),
      rw (em, lookup-insert l l (u16 (length s.index)) s.mapping, equal_refl l, zero_idx),
    )
