-- ===== src/Core/Output/Texts.antt =====
-- The numbers that a binary result carries for its texts.
use mathlib.Core.List.{append-nil}
use encarno.Base.{
  ℕ, ◌+◌, ◌^◌, ◌≤◌, ◌<◌, ◌≡◌, refl, sym, ap, subst, ◌∙◌, ◌⊎◌, inl, inr, true, false, Option, none,
  some, [], ◌++◌, arith, length, get_elem?, get_elem?-lt, ok, Option-cases, Bool-cases,
}
use encarno.Base.Bytes.{Bytes, equal, equal_iff}
use encarno.Core.Output.{
  OutputItem, BinaryOut, write_binary, binary_push, flush_second, flush, index_error, index_label,
  index_text,
}
use encarno.Core.Output.Binary.{HasTypes, numbers, format, unpack, unpack-write_binary}
use encarno.Core.Output.Writer.{stream}
use encarno.Core.StrIndex.{StrIndex, get, idx}
use encarno.Core.StrIndex.Lookup.{IsSound, get-idx, HasRoom, get_indexed}

-- An index that results can be written with: zero is the number of the empty text.
pub record IsOpen (s : StrIndex) : Type 0 where
  pub sound : IsSound s
  pub writable : s.readonly ≡ false
  pub zero_text : get_elem? s.index 0 ≡ some []

-- What numbering a text of a result does to the index.
pub record Numbers (s : StrIndex) (l : Bytes) (t : StrIndex) (i : ℕ) : Type 0 where
  pub still_open : IsOpen t
  pub indexed : get_elem? t.index i ≡ some l
  pub keeps_index :
      (j : ℕ) (m : Bytes) → get_elem? s.index j ≡ some m → get_elem? t.index j ≡ some m
  pub grows : length t.index ≤ length s.index + 1

Numbers-refl :
    (s : StrIndex) (l : Bytes) (i : ℕ) → IsOpen s → get_elem? s.index i ≡ some l → Numbers s l s i
Numbers-refl s l i o h = record {
  still_open = o;
  indexed = h;
  keeps_index = λ j m e. e;
  grows = omega arith;
}

Numbers-idx :
    (s : StrIndex) (l : Bytes)
    → IsOpen s
    → HasRoom s
    → (t : StrIndex) × (i : ℕ) × (idx s l ≡ ok (t, i)) × Numbers s l t i
Numbers-idx s l o room =
    let (t, i, e, _, _, x) = get-idx s l o.sound (inr (o.writable, room)) in
    (
      t,
      i,
      e,
      record {
        still_open = record {
          sound = x.still_sound;
          writable = x.same_mode ∙ o.writable;
          zero_text = x.keeps_index 0 [] o.zero_text;
        };
        indexed = x.indexed;
        keeps_index = x.keeps_index;
        grows = x.grows;
      },
    )

-- The number that a result comes with stands for the text `l`: it is zero, and the text is in the
-- result, or it is a number of the text already.
abbrev pub Stands : StrIndex → ℕ → Bytes → Bytes → Type 0
Stands s i text l = ((i ≡ 0) × (text ≡ l)) ⊎ ((text ≡ []) × (get_elem? s.index i ≡ some l))

abbrev pub text_of : Option Bytes → Bytes
text_of none = []
text_of (some text) = text

index_error_lem :
    (s : StrIndex) (item : OutputItem)
    → IsOpen s
    → HasRoom s
    → item.error_str_idx ≡ 0
    → (t : StrIndex) × (i : ℕ) × (index_error (some s) item
        ≡ ok (some t, record item { error_str_idx = i }))
      × Numbers s (text_of item.error) t i
index_error_lem s item o room fresh = elim (Option-cases item.error) [
  | inl h ↦ (
    s,
    item.error_str_idx,
    (unfold index_error in rw h refl),
    rw (h, fresh) (Numbers-refl s [] 0 o o.zero_text),
  )
  | inr (err, h) ↦
      let (t, i, e, x) = Numbers-idx s err o room in
      (t, i, (unfold index_error in unfold index_text in rw h (rw fresh (rw e refl))), rw h x)
]

index_label_blank :
    (s : StrIndex) (item : OutputItem)
    → equal item.label [] ≡ true
    → index_label (some s) item ≡ ok (some s, item)
unfolding index_label
index_label_blank s item e = rw e refl

index_label_lem :
    (s : StrIndex) (item : OutputItem) (l : Bytes)
    → IsOpen s
    → HasRoom s
    → Stands s item.label_idx item.label l
    → (t : StrIndex) × (i : ℕ) × (index_label (some s) item
        ≡ ok (some t, record item { label_idx = i }))
      × Numbers s l t i
index_label_lem s item l o room (inr (h, e)) = (
  s,
  item.label_idx,
  index_label_blank s item ((equal_iff item.label []).1 h),
  Numbers-refl s l _ o e,
)
index_label_lem s item l o room (inl (fresh, h)) = elim (Bool-cases (equal item.label [])) [
  | inl e ↦ (
    s,
    item.label_idx,
    index_label_blank s item e,
    Numbers-refl s l item.label_idx o (
        ap (get_elem? s.index) fresh
        ∙ o.zero_text
        ∙ ap some (sym ((equal_iff item.label []).0 e) ∙ h)),
  )
  | inr e ↦
      let (t, i, e', x) = Numbers-idx s item.label o room in
      (
        t,
        i,
        (unfold index_label in unfold index_text in rw e (rw fresh (rw e' refl))),
        subst (λ (m : Bytes). Numbers s m t i) h x,
      )
]

stream-flush_second : (b : BinaryOut) (ts : ℕ) → stream (flush_second b ts).writer ≡ stream b.writer
unfolding flush_second flush
stream-flush_second b ts = ground (arith, append-nil (b.writer.file ++ b.writer.buffer))

idx_small : {s t : StrIndex} {l : Bytes} {i : ℕ} → Numbers s l t i → i < 2 ^ 16
idx_small {t = t} {i = i} x =
    omega (arith, get_elem?-lt t.index i x.indexed, x.still_open.sound.bounded)

pub Stands-keeps :
    (s t : StrIndex) (i : ℕ) (text l : Bytes)
    → ((j : ℕ) (m : Bytes) → get_elem? s.index j ≡ some m → get_elem? t.index j ≡ some m)
    → Stands s i text l
    → Stands t i text l
Stands-keeps s t i text l keep (inl h) = inl h
Stands-keeps s t i text l keep (inr (h, e)) = inr (h, keep i l e)

HasTypes-update :
    (item : OutputItem) (i j : ℕ)
    → HasTypes item
    → i < 2 ^ 16
    → j < 2 ^ 16
    → HasTypes (record item { error_str_idx = i; label_idx = j })
HasTypes-update item i j h hi hj = record {
  start_ts = h.start_ts;
  status = h.status;
  error_str_idx = hi;
  concurrency = h.concurrency;
  worker = h.worker;
  label_idx = hj;
  sent_bytes_count = h.sent_bytes_count;
  resp_bytes_count = h.resp_bytes_count;
}

module _ (seconds : ℕ → ℕ) (float64 : (d : ℕ) → seconds d < 2 ^ 64) where
  -- What a reader finds once a result is pushed: `r` is its record, `i` and `j` the numbers of the
  -- texts of its error and of its label.
  pub record Readable (s : StrIndex) (o : BinaryOut) (item : OutputItem) (l : Bytes) (t : StrIndex)
      (p : BinaryOut) (i j : ℕ) (r : Bytes) : Type 0 where
    pub appended : stream p.writer ≡ stream o.writer ++ r
    pub unpacked :
        (rest : Bytes)
        → unpack format (r ++ rest)
          ≡ some (numbers seconds (record item { error_str_idx = i; label_idx = j }), rest)
    pub error_indexed : get_elem? t.index i ≡ some (text_of item.error)
    pub error_text : get t i ≡ ok (text_of item.error)
    pub label_indexed : get_elem? t.index j ≡ some l
    pub label_text : get t j ≡ ok l
    pub grows : length t.index ≤ length s.index + 2
    pub still_open : IsOpen t
    pub keeps_index :
        (k : ℕ) (m : Bytes) → get_elem? s.index k ≡ some m → get_elem? t.index k ≡ some m

  -- Times fit float64. On an index that can change, whose zero is the empty text and that has room
  -- for two more texts, `BinaryOut.Push` of a result that has no error number yet, and whose label
  -- number is of its label or zero, returns. It adds one record to what was written. The
  -- reader's format takes the result's numbers out of it; by `Get`, the error number leads to the
  -- error's text, or the empty one without an error, and the label number to the label. No number
  -- of before changes its meaning, and the index stays as it is required.
  pub binary_push-Readable :
      (s : StrIndex) (o : BinaryOut) (item : OutputItem) (l : Bytes)
      → IsOpen s
      → length s.index + 2 ≤ 2 ^ 16
      → HasTypes item
      → item.error_str_idx ≡ 0
      → Stands s item.label_idx item.label l
      → (t : StrIndex) × (p : BinaryOut) × (i : ℕ) × (j : ℕ) × (r : Bytes) × (binary_push seconds
            (some s)
            o
            item
          ≡ ok (some t, p, record item { error_str_idx = i; label_idx = j }))
        × Readable s o item l t p i j r
  unfolding binary_push
  binary_push-Readable s o item l op room h fresh stands =
      let (s', i, e, x) = index_error_lem s item op (omega arith) fresh in
      let item' : OutputItem = record item { error_str_idx = i } in
      let stands' = Stands-keeps s s' item.label_idx item.label l x.keeps_index stands in
      let (t, j, e', y) =
        index_label_lem s' item' l x.still_open (omega (arith, x.grows)) stands' in
      let item'' : OutputItem = record item { error_str_idx = i; label_idx = j } in
      let (r, appended, unpacked) =
        unpack-write_binary seconds float64 o.writer item''
          (HasTypes-update item i j h (idx_small x) (idx_small y)) in
      let written : BinaryOut = record o { writer = write_binary seconds o.writer item'' } in
      let p : BinaryOut = flush_second written item.start_ts in
      (
        t,
        p,
        i,
        j,
        r,
        rw e (rw e' refl),
        record {
          appended = stream-flush_second written item.start_ts ∙ appended;
          unpacked = unpacked;
          error_indexed = y.keeps_index i _ x.indexed;
          error_text = get_indexed t i _ (y.keeps_index i _ x.indexed);
          label_indexed = y.indexed;
          grows = omega (arith, x.grows, y.grows);
          label_text = get_indexed t j l y.indexed;
          still_open = y.still_open;
          keeps_index = λ k m h. y.keeps_index k m (x.keeps_index k m h);
        },
      )
