-- ===== src/Core/StrIndex/Threads.antt =====
-- `Idx` called by several goroutines: the optimistic attempt of one may be overtaken by the locked
-- sections of others, in any order. Each locked section is one step, since it runs under `mx`.
use encarno.Base.{
  ◌+◌, ◌^◌, ◌≤◌, [], ◌∷◌, ap, sym, subst, ◌∙◌, inl, inr, length, length-append, Option-cases, ℕ,
  ◌≡◌, false, some, none, ◌==◌, if◌then◌else◌, arith, get_elem?,
}
use encarno.Base.Bytes.{Bytes}
use encarno.Base.Map.{lookup}
use encarno.Core.StrIndex.{StrIndex, idx_fast, idx_locked}
use encarno.Core.StrIndex.Lookup.{
  IsSound, Indexes, Indexes-known, idx_locked_new, idx_locked_known, idx_locked-Indexes,
}

-- Where a call of `Idx` stands.
pub data Call : Type 0 where
  start : Bytes → Call
  missed : Bytes → Call
  done : Bytes → ℕ → Call

pub record System : Type 0 where
  pub shared : StrIndex
  pub calls : ℕ → Call

abbrev pub update : (ℕ → Call) → ℕ → Call → ℕ → Call
update calls n c m = if m == n then c else calls m

pub data Step (s : System) : System → Type 0 where
  hit :
      (n : ℕ) (l : Bytes) (i : ℕ)
      → s.calls n ≡ start l
      → idx_fast s.shared l ≡ some i
      → Step s (record s { calls = update s.calls n (done l i) })
  miss :
      (n : ℕ) (l : Bytes)
      → s.calls n ≡ start l
      → idx_fast s.shared l ≡ none
      → s.shared.readonly ≡ false
      → Step s (record s { calls = update s.calls n (missed l) })
  lock :
      (n : ℕ) (l : Bytes)
      → s.calls n ≡ missed l
      → Step s (record {
        shared = (idx_locked s.shared l).0;
        calls = update s.calls n (done l (idx_locked s.shared l).1);
      })

pub data Reach (s : System) : System → Type 0 where
  here : Reach s s
  next : {t u : System} → Reach s t → Step t u → Reach s u

-- The index is sound, and it holds what it answered to every call that is done.
pub record Inv (s : System) : Type 0 where
  pub still_sound : IsSound s.shared
  pub answered :
      (n : ℕ) (l : Bytes) (i : ℕ) → s.calls n ≡ done l i → lookup l s.shared.mapping ≡ some i

-- A locked section adds one text at most, and none that is there.
length-idx_locked :
    (s : StrIndex) (l : Bytes)
    → (length s.index ≤ length (idx_locked s l).0.index)
      × (lookup l s.mapping ≡ none → length (idx_locked s l).0.index ≡ length s.index + 1)
length-idx_locked s l = elim (Option-cases (lookup l s.mapping)) [
  | inl e ↦
      let (index, _, _) = idx_locked_new s l e in
      let longer = ap length index ∙ length-append s.index (l ∷ []) in
      (omega (arith, longer), λ _. omega (arith, longer))
  | inr (i, e) ↦
      let same = ap (λ (r : StrIndex × ℕ). length r.0.index) (idx_locked_known s l i e) in
      (omega (arith, same), λ missing. cc (e, missing))
]

-- What a locked section does, if the index is not overfull behind it.
locked-Indexes :
    (s : StrIndex) (l : Bytes)
    → IsSound s
    → length (idx_locked s l).0.index ≤ 2 ^ 16
    → Indexes s l (idx_locked s l).0 (idx_locked s l).1
locked-Indexes s l w few = elim (Option-cases (lookup l s.mapping)) [
  | inl e ↦ idx_locked-Indexes s l w (omega (arith, few, (length-idx_locked s l).1 e))
  | inr (i, e) ↦
      subst (λ (r : StrIndex × ℕ). Indexes s l r.0 r.1) (sym (idx_locked_known s l i e))
        (Indexes-known s l i w e)
]

Step-grows : {s t : System} → Step s t → length s.shared.index ≤ length t.shared.index
Step-grows (hit n l i c h) = omega arith
Step-grows (miss n l c h r) = omega arith
Step-grows {s} (lock n l c) = (length-idx_locked s.shared l).0

Step-Inv : {s t : System} → Step s t → length t.shared.index ≤ 2 ^ 16 → Inv s → Inv t
unfolding idx_fast
Step-Inv {s} (hit n l i c h) few v = record {
  still_sound = v.still_sound;
  answered = λ m k j e. ground (arith, v.answered m k j);
}
Step-Inv {s} (miss n l c h r) few v = record {
  still_sound = v.still_sound;
  answered = λ m k j e. ground (arith, v.answered m k j);
}
Step-Inv {s} (lock n l c) few v =
    let x = locked-Indexes s.shared l v.still_sound few in
    record {
      still_sound = x.still_sound;
      answered = λ m k j e. ground (arith, x.mapped, v.answered m k j, x.keeps_mapping k j);
    }

Reach-Inv : {s t : System} → Inv s → Reach s t → length t.shared.index ≤ 2 ^ 16 → Inv t
Reach-Inv v here few = v
Reach-Inv v (next r st) few = Step-Inv st few (Reach-Inv v r (omega (arith, few, Step-grows st)))

-- However the calls interleave, from a state whose index is sound and holds what it answered to one
-- whose index has no more entries than a uint16 has numbers, 65,536: a call that is done has a number
-- of its text, and two calls with one text that are done have one number.
pub Reach-same_idx :
    {s t : System} (n m : ℕ) (l : Bytes) (i j : ℕ)
    → Inv s
    → Reach s t
    → length t.shared.index ≤ 2 ^ 16
    → t.calls n ≡ done l i
    → t.calls m ≡ done l j
    → (get_elem? t.shared.index i ≡ some l) × (i ≡ j)
Reach-same_idx n m l i j v r few e f =
    let w = Reach-Inv v r few in
    (w.still_sound.sound l i (w.answered n l i e), cc (w.answered n l i e, w.answered m l j f))
