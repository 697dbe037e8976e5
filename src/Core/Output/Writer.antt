-- ===== src/Core/Output/Writer.antt =====
-- The buffered writer loses nothing and keeps the order.
use mathlib.Core.List.{append-nil, append_assoc}
use encarno.Base.{
  Option, if◌then◌else◌, ok, ℕ, ◌-◌, ◌≡◌, refl, sym, ap, ◌∙◌, List, [], ◌∷◌, ◌++◌, arith, length,
  take, drop, take-append-drop, leb, Bool-cases, inl, inr,
}
use encarno.Base.Bytes.{Bytes, equal_iff}
use encarno.Core.StrIndex.{StrIndex}
use encarno.Core.Output.{
  OutputItem, string_friendly, reqresp_push, BufWriter, buf_size, write, flush, write_fields, close,
}

-- All that has been written, wherever it is.
abbrev pub stream : BufWriter → Bytes
stream w = w.file ++ w.buffer

abbrev pub concat : List Bytes → Bytes
concat [] = []
concat (p ∷ ps) = p ++ concat ps

pub stream-write : (w : BufWriter) (p : Bytes) → stream (write w p) ≡ stream w ++ p
unfolding write
stream-write w p =
    let room = buf_size - length w.buffer in
    let split = take-append-drop room p in
    ground (
      arith,
      split,
      equal_iff w.buffer [],
      append-nil w.file,
      append_assoc w.file w.buffer p,
      append_assoc w.buffer (take room p) (drop room p),
      append_assoc w.file (w.buffer ++ take room p) (drop room p),
      append-nil ((w.file ++ (w.buffer ++ take room p)) ++ drop room p),
      append-nil (w.file ++ p),
    )

pub stream-write_fields :
    (w : BufWriter) (ps : List Bytes) → stream (write_fields w ps) ≡ stream w ++ concat ps
unfolding write_fields
stream-write_fields w [] = sym (append-nil (stream w))
stream-write_fields w (p ∷ ps) =
    stream-write_fields (write w p) ps
    ∙ ap (λ (s : Bytes). s ++ concat ps) (stream-write w p)
    ∙ append_assoc (stream w) p (concat ps)

-- The file of an output that is closed holds every byte that was written to it, in order.
pub close-write_fields :
    (w : BufWriter) (ps : List Bytes) → close (write_fields w ps) ≡ stream w ++ concat ps
unfolding close flush
close-write_fields w ps = stream-write_fields w ps

-- What `ReqRespOut.Push` makes of a result that it lets pass.
abbrev pub trace : (OutputItem → Bytes) → OutputItem → List Bytes
trace marshal item =
    (marshal item ++ (13 ∷ 10 ∷ []))
    ∷ item.req_bytes
    ∷ (13 ∷ 10 ∷ [])
    ∷ item.resp_bytes
    ∷ (13 ∷ 10 ∷ [])
    ∷ []

-- Where the result's label can be looked up, `ReqRespOut.Push` returns. It adds to what was written
-- the result's meta data, its request and its response, if the status is at least the
-- level, and nothing otherwise.
pub reqresp_push_lem :
    (marshal : OutputItem → Bytes) (s : Option StrIndex) (level : ℕ) (w : BufWriter)
    (item named : OutputItem)
    → string_friendly s item ≡ ok named
    → (w' : BufWriter) × (item' : OutputItem) × (reqresp_push marshal s level w item
        ≡ ok (w', item'))
      × (stream w'
          ≡ stream w ++ (if leb level item.status then concat (trace marshal named) else []))
      × (item' ≡ (if leb level item.status then named else item))
unfolding reqresp_push
reqresp_push_lem marshal s level w item named e = elim (Bool-cases (leb level item.status)) [
  | inr h ↦ (w, item, rw h refl, rw h (sym (append-nil (stream w))), rw h refl)
  | inl h ↦ (
    write_fields w (trace marshal named),
    named,
    rw h (rw e refl),
    rw h (stream-write_fields w (trace marshal named)),
    rw h refl,
  )
]
