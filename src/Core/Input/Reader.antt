-- ===== src/Core/Input/Reader.antt =====
-- pkg/core/input.go: the payload file, a record at a time, and the loop that feeds the workers.
-- A regular file is its content and the position; a read gives all that fits the buffer.
pub mod Records
pub mod Entries
pub mod Rounds
pub mod Passes
mod Tests
use encarno.Base.{
  ℕ, zero, suc, ◌+◌, ◌-◌, ◌*◌, ◌&&◌, ◌||◌, Bool, true, false, Option, none, some, List, [], ◌∷◌,
  ◌++◌, ltb, leb, ◌==◌, if◌then◌else◌, length, take, drop, Result, ok, panic, no_meta_newline,
  bad_read, index_out_of_range, problematic_input, ◌>>=◌,
}
use encarno.Base.Bytes.{Bytes, cut}
use encarno.Base.Decimal.{atoi}
use encarno.Base.Int.{ℤ, pos, negsuc}
use encarno.Base.Map.{Map}
use encarno.Core.Input.{PayloadItem}
use encarno.Core.Input.Decode.{decode_replaces, decode_asserts, decode_extracts}
use encarno.Core.Regexp.{Regexp}
use encarno.Core.StrIndex.{StrIndex}

pub record File : Type 0 where
  pub bytes : Bytes
  pub at : ℕ

-- What is left to read.
abbrev pub unread : File → Bytes
unread f = drop f.at f.bytes

abbrev pub buffer_size : ℕ
buffer_size = 4096

-- `file.Read(buf)`: the bytes read, and the file behind them. No byte is `io.EOF`.
unfoldable pub read : ℕ → File → Bytes × File
read size f = let got = take size (unread f) in (got, record f { at = f.at + length got })

-- The decoder of the metadata, `json.Unmarshal` into the item: what it makes of the item, and
-- whether it had no error. And `pLenRe.FindSubmatch`: the digits behind "plen", if there are any.
pub record Decoder (Re : Type 0) : Type 0 where
  pub unmarshal : Bytes → PayloadItem Re → PayloadItem Re × Bool
  pub find_plen : Bytes → Option Bytes

abbrev pub is_separator : ℕ → Bool
is_separator c = c == 10 || c == 13

-- What follows the separators between records.
unfoldable pub skip_separators : Bytes → Bytes
skip_separators [] = []
skip_separators (c ∷ cs) = let rest = skip_separators cs in if is_separator c then rest else c ∷ cs

-- `readMeta`, on what the buffer holds behind the separators. The file goes back to the first
-- byte behind the line.
unfoldable pub read_meta : File → Bytes → Result (Bytes × File)
read_meta f chunk =
    let (meta, rest, found) = cut 10 chunk in
    if found then ok (meta, record f { at = f.at - length rest }) else panic no_meta_newline

module _ {Re : Type 0} where
  -- `readPayload`: the item with its payload, whether all of it was there, and the file behind it.
  -- A negative length cannot be allocated. What a short read leaves in the payload is not used.
  unfoldable pub read_payload : File → PayloadItem Re → ℤ → Result (PayloadItem Re × Bool × File)
  unfolding read
  read_payload f item (negsuc n) = panic bad_read
  read_payload f item (pos plen) =
      let (got, f') = read plen f in ok (record item { payload = got }, length got == plen, f')

  -- The item before its metadata is decoded.
  abbrev pub blank_item : Option StrIndex → PayloadItem Re
  blank_item index = record {
    label_idx = 0;
    label = [];
    address_idx = 0;
    address = [];
    payload_len = pos 0;
    payload = [];
    replaces_idx = [];
    replaces = [];
    regex_out_idx = [];
    regex_out = [];
    asserts_idx = [];
    asserts = [];
    str_index = index;
  }

  -- The length to skip when the metadata is bad: the digits behind "plen". `match[1]` fails if the
  -- expression finds nothing.
  unfoldable pub recovered_plen : Decoder Re → Bytes → PayloadItem Re → Result ℤ
  recovered_plen d meta item = elim (d.find_plen meta) [
    | none ↦ panic index_out_of_range
    | some digits ↦ let (p, good) = atoi digits in ok (if good then p else item.payload_len)
  ]

-- What `readPayloadRecord` returns: an item, `io.EOF` or another error.
pub data Reading (Re : Type 0) : Type 0 where
  produced : PayloadItem Re → Reading Re
  eof : Reading Re
  failed : Reading Re

abbrev pub reading_of : {Re : Type 0} → Option (PayloadItem Re) → Reading Re
reading_of none = failed
reading_of (some item) = produced item

module _ (R : Regexp) where
  open R use {Re}

  -- The three decoding steps at the end of `readPayloadRecord`.
  unfoldable pub decode_strings : Map Re → PayloadItem Re → Result (Reading Re × Map Re)
  decode_strings cache item = do
    item' ← decode_replaces item
    (extracted, cache') ← decode_extracts R cache item'
    elim extracted [
      | none ↦ ok (failed, cache')
      | some item'' ↦ (do
        (asserted, cache'') ← decode_asserts R cache' item''
        ok (reading_of asserted, cache''))
    ]

  -- From the line of metadata on, when it is good and when it is bad.
  unfoldable pub read_good : Map Re → File → PayloadItem Re → Result (Reading Re × Map Re × File)
  unfolding read_payload
  read_good cache f item = do
    (item', whole, f') ← read_payload f item item.payload_len
    (reading, cache') ← if whole then decode_strings cache item' else panic bad_read
    ok (reading, cache', f')

  unfoldable pub read_bad :
      Decoder Re → Map Re → Bytes → File → PayloadItem Re → Result (Reading Re × Map Re × File)
  unfolding read_payload recovered_plen
  read_bad d cache meta f item = do
    plen ← recovered_plen d meta item
    (item', whole, f') ← read_payload f item plen
    ok (failed, cache, f')

  unfoldable pub read_body :
      Decoder Re → Option StrIndex → Map Re → Bytes → File → Result (Reading Re × Map Re × File)
  unfolding read_good read_bad
  read_body d index cache meta f =
      let (item, good) = d.unmarshal meta (blank_item index) in
      if good then read_good cache f item else read_bad d cache meta f item

  unfoldable pub read_payload_record :
      Decoder Re → Option StrIndex → Map Re → File → Result (Reading Re × Map Re × File)
  unfolding read skip_separators read_meta read_body
  read_payload_record d index cache f =
      let (got, f') = read buffer_size f in
      elim (skip_separators got) [
        | [] ↦ ok (eof, cache, f')
        | c ∷ cs ↦ (do (meta, f'') ← read_meta f' (c ∷ cs); read_body d index cache meta f'')
      ]

-- What the goroutine of `NewInput` keeps.
pub record Feed (Re : Type 0) : Type 0 where
  pub file : File
  pub cache : Map Re
  pub iterations : ℕ
  pub good : ℕ
  pub bad : ℕ

-- One round of its loop: an item goes into the channel, none does, or the loop breaks and the
-- channel is closed.
pub data Round (Re : Type 0) : Type 0 where
  sent : PayloadItem Re → Feed Re → Round Re
  silent : Feed Re → Round Re
  closed : Round Re

-- `config.IterationLimit > 0 && iterations >= config.IterationLimit`
abbrev pub limit_reached : ℤ → ℕ → Bool
limit_reached (pos n) iterations = ltb 0 n && leb n iterations
limit_reached (negsuc n) iterations = false

module _ (R : Regexp) (d : Decoder R.Re) (index : Option StrIndex) (iteration_limit : ℤ) where
  -- The branch of `io.EOF`. The ratio of two counts is below 0.5 as floats exactly if twice the one
  -- is below the other; 0 by 0 is not.
  unfoldable pub rewind : Feed R.Re → Result (Round R.Re)
  rewind s =
      let s' = record s { iterations = s.iterations + 1 } in
      if limit_reached iteration_limit s'.iterations
      then ok closed
      else if ltb (2 * s.good) (s.good + s.bad)
      then panic (problematic_input s.good s.bad)
      else ok (silent (record s' { file = record s.file { at = 0 } }))

  unfoldable pub after_reading : Feed R.Re → Reading R.Re × Map R.Re × File → Result (Round R.Re)
  unfolding rewind
  after_reading s (produced item, cache, file) =
      ok (sent item (record s { file = file; cache = cache; good = s.good + 1 }))
  after_reading s (eof, cache, file) = rewind (record s { file = file; cache = cache })
  after_reading s (failed, cache, file) =
      ok (silent (record s { file = file; cache = cache; bad = s.bad + 1 }))

  unfoldable pub feed_round : Feed R.Re → Result (Round R.Re)
  unfolding after_reading
  feed_round s = do r ← read_payload_record R d index s.cache s.file; after_reading s r

  -- The items of as many rounds as there is fuel for, and whether the channel is closed then.
  unfoldable pub feed : ℕ → Feed R.Re → Result (List (PayloadItem R.Re) × Bool)
  unfolding feed_round
  feed zero s = ok ([], false)
  feed (suc fuel) s = do
    round ← feed_round s
    elim round [
      | closed ↦ ok ([], true)
      | silent s' ↦ feed fuel s'
      | sent item s' ↦ (do (items, done) ← feed fuel s'; ok (item ∷ items, done))
    ]
