-- ===== src/Core/Input/Reader/Records.antt =====
-- A record of the payload file, as README.md describes the format, is read back.
use mathlib.Core.List.{append_assoc}
use encarno.Base.{
  ℕ, zero, suc, ◌+◌, ◌-◌, ◌<◌, ◌≡◌, refl, sym, ap, ◌∙◌, true, false, Option, [], ◌∷◌, ◌++◌, arith,
  length, take, drop, ok, panic, index_out_of_range, none, some, false, length-append,
  take-append_of_le, take-append, drop-append, drop-add,
}
use encarno.Base.Bytes.{Bytes, cut-append, count}
use encarno.Base.Decimal.{atoi}
use encarno.Base.Int.{pos}
use encarno.Base.Map.{Map}
use encarno.Core.Input.{PayloadItem}
use encarno.Core.Input.Reader.{
  File, unread, buffer_size, read, Decoder, is_separator, skip_separators, read_meta, read_payload,
  blank_item, produced, eof, decode_strings, read_good, read_bad, recovered_plen, failed, read_body,
  read_payload_record,
}
use encarno.Core.Regexp.{Regexp}
use encarno.Core.StrIndex.{StrIndex}

-- A run of line ends.
abbrev pub AllSeparators : Bytes → Type 0
AllSeparators [] = Unit
AllSeparators (c ∷ cs) = (is_separator c ≡ true) × AllSeparators cs

-- A line of metadata: something that is no line end comes first, and no newline is in it.
abbrev pub IsMeta : Bytes → Type 0
IsMeta [] = ⊥
IsMeta (c ∷ cs) = (is_separator c ≡ false) × (count 10 (c ∷ cs) ≡ 0)

skip_separators-append :
    (s : Bytes) (m t : Bytes)
    → AllSeparators s
    → IsMeta m
    → skip_separators (s ++ (m ++ t)) ≡ m ++ t
unfolding skip_separators
skip_separators-append [] [] t h k = absurd k
skip_separators-append [] (c ∷ cs) t h k = ground (arith, k)
skip_separators-append (b ∷ bs) m t h k = ground (arith, skip_separators-append bs m t h.1 k)

skip_separators-all : (s : Bytes) → AllSeparators s → skip_separators s ≡ []
unfolding skip_separators
skip_separators-all [] h = refl
skip_separators-all (b ∷ bs) h = ground (arith, skip_separators-all bs h.1)

pub AllSeparators-take : (n : ℕ) (s : Bytes) → AllSeparators s → AllSeparators (take n s)
AllSeparators-take zero s h = tt
AllSeparators-take (suc n) [] h = tt
AllSeparators-take (suc n) (c ∷ s) h = (h.0, AllSeparators-take n s h.1)

-- Moving on within what is unread.
unread-add : (f : File) (n : ℕ) → drop (f.at + n) f.bytes ≡ drop n (unread f)
unread-add f n = drop-add f.at n f.bytes

read_meta_lem :
    (f : File) (m t : Bytes)
    → count 10 m ≡ 0
    → read_meta f (m ++ (10 ∷ t)) ≡ ok (m, record f { at = f.at - length t })
unfolding read_meta
read_meta_lem f m t h = ground (arith, cut-append 10 m t h)

-- A payload that is there is read whole.
read-append :
    (f : File) (p t : Bytes)
    → unread f ≡ p ++ t
    → read (length p) f ≡ (p, record f { at = f.at + length p })
unfolding read
read-append f p t h = rw h (rw (take-append p t))

regroup : (s m t : Bytes) → s ++ (m ++ (10 ∷ t)) ≡ (s ++ (m ++ (10 ∷ []))) ++ t
regroup s m t = simp append_assoc

length-header : (s m : Bytes) → length (s ++ (m ++ (10 ∷ []))) ≡ length s + length m + 1
length-header s m = omega (arith, length-append s (m ++ (10 ∷ [])), length-append m (10 ∷ []))

-- A buffer that holds the line of metadata holds some of what follows it.
take_header :
    (n : ℕ) (s m t : Bytes)
    → length s + length m < n
    → take n (s ++ (m ++ (10 ∷ t))) ≡ s ++ (m ++ (10 ∷ take (n - length (s ++ (m ++ (10 ∷ [])))) t))
take_header n s m t h =
    ap (take n) (regroup s m t)
    ∙ take-append_of_le n (s ++ (m ++ (10 ∷ []))) t (omega (arith, length-header s m))
    ∙ sym (regroup s m (take (n - length (s ++ (m ++ (10 ∷ [])))) t))

-- Where the file goes back to.
header_end :
    (at : ℕ) (s m t : Bytes)
    → at + length (s ++ (m ++ (10 ∷ t))) - length t ≡ at + (length s + length m + 1)
header_end at s m t = omega (arith, length-append s (m ++ (10 ∷ t)), length-append m (10 ∷ t))

-- What is unread behind the line of metadata.
unread_header :
    (f : File) (s m t : Bytes)
    → unread f ≡ s ++ (m ++ (10 ∷ t))
    → drop (f.at + (length s + length m + 1)) f.bytes ≡ t
unread_header f s m t e =
    unread-add f (length s + length m + 1)
    ∙ rw e (
        ap (λ (n : ℕ). drop n (s ++ (m ++ (10 ∷ t)))) (sym (length-header s m))
        ∙ rw (regroup s m t) (drop-append (s ++ (m ++ (10 ∷ []))) t))

module _ (R : Regexp) (d : Decoder R.Re) (index : Option StrIndex) where
  -- From the start of the separators to the first byte of the payload.
  read_header :
      (cache : Map R.Re) (f : File) (s m t : Bytes)
      → unread f ≡ s ++ (m ++ (10 ∷ t))
      → AllSeparators s
      → IsMeta m
      → length s + length m < buffer_size
      → read_payload_record R d index cache f
        ≡ read_body R d index cache m (record f { at = f.at + (length s + length m + 1) })
  unfolding read_payload_record read
  read_header cache f s [] t e hs hm fits = absurd hm
  read_header cache f s (c ∷ cs) t e hs hm fits =
      let rest = take (buffer_size - length (s ++ ((c ∷ cs) ++ (10 ∷ [])))) t in
      let f' = record f { at = f.at + length (s ++ ((c ∷ cs) ++ (10 ∷ rest))) } in
      ground (
        arith,
        e,
        take_header buffer_size s (c ∷ cs) t fits,
        skip_separators-append s (c ∷ cs) (10 ∷ rest) hs hm,
        read_meta_lem f' (c ∷ cs) rest hm.1,
        header_end f.at s (c ∷ cs) rest,
      )

  -- When what the buffer takes in holds nothing but separators, `io.EOF` is reported: at the end of
  -- the file, and also in front of a record that more separators precede than fill the buffer.
  pub read_payload_record_eof :
      (cache : Map R.Re) (f : File)
      → AllSeparators (take buffer_size (unread f))
      → read_payload_record R d index cache f
        ≡ ok (eof, cache, record f { at = f.at + length (take buffer_size (unread f)) })
  unfolding read_payload_record read
  read_payload_record_eof cache f h =
      ground (arith, skip_separators-all (take buffer_size (unread f)) h)

-- The metadata and the payload stand for an item, while the cache is as `Good` says: the decoder
-- reads the metadata and finds the length of the payload there, and the texts that the item
-- refers to can be decoded.
pub record StandsFor (R : Regexp) (d : Decoder R.Re) (index : Option StrIndex)
    (Good : Map R.Re → Type 0) (meta payload : Bytes) (out : PayloadItem R.Re) : Type 0 where
  pub item : PayloadItem R.Re
  pub unmarshalled : d.unmarshal meta (blank_item index) ≡ (item, true)
  pub plen : item.payload_len ≡ pos (length payload)
  pub decoded :
      (cache : Map R.Re)
      → Good cache
      → (cache' : Map R.Re) × (decode_strings R cache (record item { payload = payload })
          ≡ ok (produced out, cache'))
        × Good cache'

-- The metadata is good, but a text that the item refers to cannot be decoded.
pub record Undecodable (R : Regexp) (d : Decoder R.Re) (index : Option StrIndex)
    (Good : Map R.Re → Type 0) (meta payload : Bytes) : Type 0 where
  pub item : PayloadItem R.Re
  pub unmarshalled : d.unmarshal meta (blank_item index) ≡ (item, true)
  pub plen : item.payload_len ≡ pos (length payload)
  pub refused :
      (cache : Map R.Re)
      → Good cache
      → (cache' : Map R.Re) × (decode_strings R cache (record item { payload = payload })
          ≡ ok (failed, cache'))
        × Good cache'

module _ (R : Regexp) (d : Decoder R.Re) (index : Option StrIndex) (Good : Map R.Re → Type 0) where
  read_body_lem :
      (cache : Map R.Re) (f : File) (m p t : Bytes) (out : PayloadItem R.Re)
      → StandsFor R d index Good m p out
      → unread f ≡ p ++ t
      → Good cache
      → (cache' : Map R.Re) × (read_body R d index cache m f
          ≡ ok (produced out, cache', record f { at = f.at + length p }))
        × Good cache'
  unfolding read_body read_good read_payload
  read_body_lem cache f m p t out w e good =
      let (cache', x, good') = w.decoded cache good in
      (cache', ground (arith, w.unmarshalled, w.plen, read-append f p t e, x), good')

  -- The same for an item that cannot be decoded.
  pub read_payload_record-Undecodable :
      (cache : Map R.Re) (f : File) (s m p t : Bytes)
      → unread f ≡ s ++ (m ++ (10 ∷ (p ++ t)))
      → AllSeparators s
      → IsMeta m
      → length s + length m < buffer_size
      → Undecodable R d index Good m p
      → Good cache
      → (cache' : Map R.Re) × (f' : File) × (read_payload_record R d index cache f
          ≡ ok (failed, cache', f'))
        × (unread f' ≡ t)
        × (f'.bytes ≡ f.bytes)
        × Good cache'
  unfolding read_body read_good read_payload
  read_payload_record-Undecodable cache f s m p t e hs hm fits w good =
      let f' = record f { at = f.at + (length s + length m + 1) } in
      let behind = unread_header f s m (p ++ t) e in
      let (cache', x, good') = w.refused cache good in
      (
        cache',
        record f' { at = f'.at + length p },
        read_header R d index cache f s m (p ++ t) e hs hm fits
            ∙ ground (arith, w.unmarshalled, w.plen, read-append f' p t behind, x),
        unread-add f' (length p) ∙ rw behind (drop-append p t),
        refl,
        good',
      )

  -- A record behind fewer separators than fill the buffer with its metadata, whose metadata and
  -- payload stand for an item, is read as that item, and the file is then at the first byte
  -- behind the payload.
  pub read_payload_record_lem :
      (cache : Map R.Re) (f : File) (s m p t : Bytes) (out : PayloadItem R.Re)
      → unread f ≡ s ++ (m ++ (10 ∷ (p ++ t)))
      → AllSeparators s
      → IsMeta m
      → length s + length m < buffer_size
      → StandsFor R d index Good m p out
      → Good cache
      → (cache' : Map R.Re) × (f' : File) × (read_payload_record R d index cache f
          ≡ ok (produced out, cache', f'))
        × (unread f' ≡ t)
        × (f'.bytes ≡ f.bytes)
        × Good cache'
  read_payload_record_lem cache f s m p t out e hs hm fits w good =
      let f' = record f { at = f.at + (length s + length m + 1) } in
      let behind = unread_header f s m (p ++ t) e in
      let (cache', x, good') = read_body_lem cache f' m p t out w behind good in
      (
        cache',
        record f' { at = f'.at + length p },
        read_header R d index cache f s m (p ++ t) e hs hm fits ∙ x,
        unread-add f' (length p) ∙ rw behind (drop-append p t),
        refl,
        good',
      )

module _ (R : Regexp) (d : Decoder R.Re) (index : Option StrIndex) where
  -- Bad metadata in which the length of the payload is still found is an error that skips the
  -- record: the file is then at the first byte behind the payload, and the cache is as it was.
  pub read_payload_record_bad :
      (cache : Map R.Re) (f : File) (s m p t digits : Bytes) (item : PayloadItem R.Re)
      → unread f ≡ s ++ (m ++ (10 ∷ (p ++ t)))
      → AllSeparators s
      → IsMeta m
      → length s + length m < buffer_size
      → d.unmarshal m (blank_item index) ≡ (item, false)
      → d.find_plen m ≡ some digits
      → atoi digits ≡ (pos (length p), true)
      → (f' : File) × (read_payload_record R d index cache f ≡ ok (failed, cache, f'))
        × (unread f' ≡ t)
        × (f'.bytes ≡ f.bytes)
  unfolding read_body read_bad read_payload recovered_plen
  read_payload_record_bad cache f s m p t digits item e hs hm fits bad found len =
      let f' = record f { at = f.at + (length s + length m + 1) } in
      let behind = unread_header f s m (p ++ t) e in
      (
        record f' { at = f'.at + length p },
        read_header R d index cache f s m (p ++ t) e hs hm fits
            ∙ ground (arith, bad, found, len, read-append f' p t behind),
        unread-add f' (length p) ∙ rw behind (drop-append p t),
        refl,
      )

  -- Bad metadata in which no length is found is no error of the record: the process panics.
  pub read_payload_record_no_plen :
      (cache : Map R.Re) (f : File) (s m t : Bytes) (item : PayloadItem R.Re)
      → unread f ≡ s ++ (m ++ (10 ∷ t))
      → AllSeparators s
      → IsMeta m
      → length s + length m < buffer_size
      → d.unmarshal m (blank_item index) ≡ (item, false)
      → d.find_plen m ≡ none
      → read_payload_record R d index cache f ≡ panic index_out_of_range
  unfolding read_body read_bad recovered_plen
  read_payload_record_no_plen cache f s m t item e hs hm fits bad missing =
      read_header R d index cache f s m t e hs hm fits ∙ ground (arith, bad, missing)
