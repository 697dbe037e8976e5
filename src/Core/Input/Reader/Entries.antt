-- ===== src/Core/Input/Reader/Entries.antt =====
-- The records of a payload file, those that are skipped among them, and one round of the goroutine of
-- `NewInput` on each.
use encarno.Base.{
  ℕ, suc, ◌+◌, ◌<◌, ◌≡◌, refl, sym, ◌∙◌, ◌⊎◌, inl, inr, Bool, true, false, Option, none, some, List,
  [], ◌∷◌, ◌++◌, arith, length, Result, ok, panic, ◌>>=◌,
}
use encarno.Base.Bytes.{Bytes}
use encarno.Base.Decimal.{atoi}
use encarno.Base.Int.{ℤ, pos}
use encarno.Base.Map.{Map}
use encarno.Core.Input.{PayloadItem}
use encarno.Core.Input.Reader.{
  File, unread, buffer_size, Decoder, blank_item, failed, read_payload_record, Feed, after_reading,
  feed_round, feed,
}
use encarno.Core.Input.Reader.Records.{
  AllSeparators, IsMeta, StandsFor, Undecodable, read_payload_record_lem,
  read_payload_record-Undecodable, read_payload_record_bad,
}
use encarno.Core.Regexp.{Regexp}
use encarno.Core.StrIndex.{StrIndex}

-- A record of the file with the separators in front of it, and the item that it stands for; `none`
-- is a record that is skipped.
pub record Entry (Re : Type 0) : Type 0 where
  pub separators : Bytes
  pub meta : Bytes
  pub payload : Bytes
  pub out : Option (PayloadItem Re)

abbrev pub render : {Re : Type 0} → List (Entry Re) → Bytes → Bytes
render [] end = end
render (x ∷ xs) end = x.separators ++ (x.meta ++ (10 ∷ (x.payload ++ render xs end)))

-- The items that a record gives, and how many errors.
abbrev pub sends : {A : Type 0} → Option A → List A
sends none = []
sends (some a) = a ∷ []

abbrev pub errors : {A : Type 0} → Option A → ℕ
errors none = 1
errors (some a) = 0

abbrev pub outs : {Re : Type 0} → List (Entry Re) → List (PayloadItem Re)
outs [] = []
outs (x ∷ xs) = sends x.out ++ outs xs

abbrev pub bads : {Re : Type 0} → List (Entry Re) → ℕ
bads [] = 0
bads (x ∷ xs) = errors x.out + bads xs

abbrev pub prepend : {A : Type 0} → List A → Result (List A × Bool) → Result (List A × Bool)
prepend xs r = r >>= λ p. ok (xs ++ p.0, p.1)

pub prepend_nil : {A : Type 0} (r : Result (List A × Bool)) → prepend [] r ≡ r
prepend_nil (ok (xs, b)) = refl
prepend_nil (panic why) = refl

-- Bad metadata, in which the length of the payload is still found.
pub record BadMeta (Re : Type 0) (d : Decoder Re) (index : Option StrIndex) (meta payload : Bytes)
    : Type 0 where
  pub item : PayloadItem Re
  pub digits : Bytes
  pub refused : d.unmarshal meta (blank_item index) ≡ (item, false)
  pub found : d.find_plen meta ≡ some digits
  pub plen : atoi digits ≡ (pos (length payload), true)

module _ (R : Regexp) (d : Decoder R.Re) (index : Option StrIndex) (Good : Map R.Re → Type 0) where
  abbrev pub Reads : Bytes → Bytes → Option (PayloadItem R.Re) → Type 0
  Reads meta payload none =
      BadMeta R.Re d index meta payload ⊎ Undecodable R d index Good meta payload
  Reads meta payload (some out) = StandsFor R d index Good meta payload out

  -- A record whose end can be found.
  pub record IsEntry (x : Entry R.Re) : Type 0 where
    pub separators : AllSeparators x.separators
    pub meta : IsMeta x.meta
    pub fits : length x.separators + length x.meta < buffer_size
    pub reads : Reads x.meta x.payload x.out

  abbrev pub AllEntries : List (Entry R.Re) → Type 0
  AllEntries [] = Unit
  AllEntries (x ∷ xs) = IsEntry x × AllEntries xs

  -- The state between two rounds, `end` being unread.
  pub record At (s : Feed R.Re) (text end : Bytes) (n g b : ℕ) : Type 0 where
    pub left : unread s.file ≡ end
    pub whole : s.file.bytes ≡ text
    pub cached : Good s.cache
    pub iterations : s.iterations ≡ n
    pub good : s.good ≡ g
    pub bad : s.bad ≡ b

  module _ (limit : ℤ) where
    feed_good :
        (k : ℕ) (s : Feed R.Re) (sep meta payload : Bytes) (out : PayloadItem R.Re)
        (text end : Bytes) (n g b : ℕ)
        → AllSeparators sep
        → IsMeta meta
        → length sep + length meta < buffer_size
        → StandsFor R d index Good meta payload out
        → At s text (sep ++ (meta ++ (10 ∷ (payload ++ end)))) n g b
        → (s' : Feed R.Re) × (feed R d index limit (suc k) s
            ≡ prepend (out ∷ []) (feed R d index limit k s'))
          × At s' text end n (1 + g) (0 + b)
    unfolding feed feed_round after_reading
    feed_good k s sep meta payload out text end n g b hs hm fits w at =
        let (cache', f', e, behind, same, good') =
          read_payload_record_lem R d index Good s.cache s.file sep meta payload end out at.left hs
            hm fits w at.cached in
        (
          record s { file = f'; cache = cache'; good = s.good + 1 },
          ground (arith, e),
          record {
            left = behind;
            whole = same ∙ at.whole;
            cached = good';
            iterations = at.iterations;
            good = omega (arith, at.good);
            bad = omega (arith, at.bad);
          },
        )

    -- A record that is skipped, however its reading fails.
    feed_skipped :
        (k : ℕ) (s : Feed R.Re) (f' : File) (cache' : Map R.Re) (text end start : Bytes) (n g b : ℕ)
        → read_payload_record R d index s.cache s.file ≡ ok (failed, cache', f')
        → unread f' ≡ end
        → f'.bytes ≡ s.file.bytes
        → Good cache'
        → At s text start n g b
        → (s' : Feed R.Re) × (feed R d index limit (suc k) s ≡ feed R d index limit k s')
          × At s' text end n (0 + g) (1 + b)
    unfolding feed feed_round after_reading
    feed_skipped k s f' cache' text end start n g b e behind same good' at = (
      record s { file = f'; cache = cache'; bad = s.bad + 1 },
      ground (arith, e),
      record {
        left = behind;
        whole = same ∙ at.whole;
        cached = good';
        iterations = at.iterations;
        good = omega (arith, at.good);
        bad = omega (arith, at.bad);
      },
    )

    -- A round on any record.
    pub feed_entry :
        (k : ℕ) (s : Feed R.Re) (x : Entry R.Re) (text end : Bytes) (n g b : ℕ)
        → IsEntry x
        → At s text (x.separators ++ (x.meta ++ (10 ∷ (x.payload ++ end)))) n g b
        → (s' : Feed R.Re) × (feed R d index limit (suc k) s
            ≡ prepend (sends x.out) (feed R d index limit k s'))
          × At s' text end n (length (sends x.out) + g) (errors x.out + b)
    feed_entry k s x text end n g b h at = by_out x.out h.reads
      where
        by_out :
            (o : Option (PayloadItem R.Re))
            → Reads x.meta x.payload o
            → (s' : Feed R.Re) × (feed R d index limit (suc k) s
                ≡ prepend (sends o) (feed R d index limit k s'))
              × At s' text end n (length (sends o) + g) (errors o + b)
        by_out (some out) w =
            feed_good k s x.separators x.meta x.payload out text end n g b h.separators h.meta
              h.fits w at
        by_out none (inl w) =
            let (f', e, behind, same) =
              read_payload_record_bad R d index s.cache s.file x.separators x.meta x.payload end
                w.digits w.item at.left h.separators h.meta h.fits w.refused w.found w.plen in
            let (s', e', at') =
              feed_skipped k s f' s.cache text end
                (x.separators ++ (x.meta ++ (10 ∷ (x.payload ++ end)))) n g b e behind same
                at.cached at in
            (s', e' ∙ sym (prepend_nil _), at')
        by_out none (inr w) =
            let (cache', f', e, behind, same, good') =
              read_payload_record-Undecodable R d index Good s.cache s.file x.separators x.meta
                x.payload end at.left h.separators h.meta h.fits w at.cached in
            let (s', e', at') =
              feed_skipped k s f' cache' text end
                (x.separators ++ (x.meta ++ (10 ∷ (x.payload ++ end)))) n g b e behind same good'
                at in
            (s', e' ∙ sym (prepend_nil _), at')
