-- ===== src/Core/Output.antt =====
-- pkg/core/output.go: results, and the writers that they go to.
-- Times are nanoseconds, durations the bit patterns of int64. An error is its text.
pub mod Binary
pub mod Writer
pub mod Texts
pub mod Checks
pub mod Pipe
mod Tests
use encarno.Base.{
  ℕ, zero, ◌+◌, ◌-◌, ◌&&◌, not, Bool, true, false, Option, none, some, List, [], ◌∷◌, ◌++◌, ltb,
  leb, ◌==◌, if◌then◌else◌, length, take, drop, get_elem?, Result, ok, panic, nil_pointer,
  index_out_of_range, ◌>>=◌,
}
use encarno.Base.Bytes.{Bytes, codes, equal}
use encarno.Base.Endian.{le_bytes}
use encarno.Base.Int.{ℤ, pos, negsuc}
use encarno.Base.Map.{Map, insert}
use encarno.Base.Trim.{trim_space}
use encarno.Core.Input.{ExtractRegex, AssertItem}
use encarno.Core.Regexp.{Regexp, find_all_submatch, matches}
use encarno.Core.StrIndex.{StrIndex, get, idx}

pub record OutputItem : Type 0 where
  pub start_time : ℕ
  pub start_ts : ℕ
  pub status : ℕ
  pub error : Option Bytes
  pub error_str : Bytes
  pub error_str_idx : ℕ
  pub concurrency : ℕ
  pub elapsed : ℕ
  pub connect_time : ℕ
  pub sent_time : ℕ
  pub first_byte_time : ℕ
  pub read_time : ℕ
  pub worker : ℕ
  pub label : Bytes
  pub label_idx : ℕ
  pub sent_bytes_count : ℕ
  pub resp_bytes_count : ℕ
  pub req_bytes : Bytes
  pub resp_bytes : Bytes

unfoldable pub end_with_error : OutputItem → Bytes → OutputItem
end_with_error i err = record i { status = 999; error = some err }

-- `StringFriendly`, through the index of the output, which may be nil.
unfoldable pub string_friendly : Option StrIndex → OutputItem → Result OutputItem
string_friendly index i =
    let i' = record i { error_str = elim i.error [ none ↦ i.error_str | some err ↦ err ] } in
    if equal i.label [] && ltb 0 i.label_idx
    then elim index [
      | none ↦ panic nil_pointer
      | some s ↦ (do label ← get s i.label_idx; ok (record i' { label = label }))
    ]
    else ok i'

-- `Idx` through the index of the output.
unfoldable pub index_text : Option StrIndex → Bytes → Result (Option StrIndex × ℕ)
index_text none text = panic nil_pointer
index_text (some s) text = do (t, i) ← idx s text; ok (some t, i)

-- The two `if`s at the head of `BinaryOut.Push`: a text that has no number gets one.
unfoldable pub index_error : Option StrIndex → OutputItem → Result (Option StrIndex × OutputItem)
unfolding index_text
index_error index i = elim i.error [
  | none ↦ ok (index, i)
  | some err ↦
      if i.error_str_idx == 0
      then (do (index', n) ← index_text index err; ok (index', record i { error_str_idx = n }))
      else ok (index, i)
]

unfoldable pub index_label : Option StrIndex → OutputItem → Result (Option StrIndex × OutputItem)
unfolding index_text
index_label index i =
    if not (equal i.label []) && i.label_idx == 0
    then (do (index', n) ← index_text index i.label; ok (index', record i { label_idx = n }))
    else ok (index, i)

-- `limit` of `ExtractValues`.
abbrev pub match_limit : ℤ → ℤ
match_limit (pos n) = pos (n + 1)
match_limit (negsuc n) = negsuc n

-- `all[m][g]`, which fails out of range.
unfoldable pub group_at : List (List Bytes) → ℕ → ℕ → Result Bytes
group_at all m g = elim (get_elem? all m) [
  | none ↦ panic index_out_of_range
  | some groups ↦ elim (get_elem? groups g) [ none ↦ panic index_out_of_range | some val ↦ ok val ]
]

abbrev pub placeholder : Bytes
placeholder = codes "NOT_FOUND"

module _ (R : Regexp) where
  open R use {Re, text}

  -- The value for one extractor among its matches. `rand n` is the number that `rand.Intn(n)`
  -- draws.
  unfoldable pub pick_value : (ℕ → ℕ) → ExtractRegex Re → List (List Bytes) → Result Bytes
  unfolding group_at
  pick_value rand spec all = if length all == 0 then ok placeholder else elim spec.match_no [
    | pos m ↦ group_at all m spec.group_no
    | negsuc _ ↦ group_at all (rand (length all)) spec.group_no
  ]

  abbrev pub extract_value : (ℕ → ℕ) → ExtractRegex Re → Bytes → Result Bytes
  extract_value rand spec resp =
      pick_value rand spec (find_all_submatch R spec.re resp (match_limit spec.match_no))

  -- `ExtractValues`, the extractors in the order in which the range over the map gives them.
  unfoldable pub extract_values :
      (ℕ → ℕ) → Bytes → Map (ExtractRegex Re) → Map Bytes → Result (Map Bytes)
  unfolding pick_value group_at
  extract_values rand resp [] values = ok values
  extract_values rand resp ((name, spec) ∷ specs) values = do
    val ← extract_value rand spec resp
    extract_values rand resp specs (insert name val values)

  -- What one assertion that fails adds to the problems.
  abbrev pub problem_text : AssertItem Re → Bytes
  problem_text a =
      codes "\nAssert failed on "
      ++ (codes (if a.invert then "inverted " else "") ++ (codes "regexp: " ++ text a.re))

  -- `found != a.Invert`, where `found` is `Find(...) == nil`.
  unfoldable pub fails : AssertItem Re → Bytes → Bool
  fails a resp = if matches R a.re resp then a.invert else not a.invert

  unfoldable pub problems_of : Bytes → List (AssertItem Re) → Bytes → Bytes
  unfolding fails
  problems_of resp [] problems = problems
  problems_of resp (a ∷ rest) problems =
      problems_of resp rest (if fails a resp then problems ++ problem_text a else problems)

  unfoldable pub assert : List (AssertItem Re) → OutputItem → OutputItem
  unfolding problems_of trim_space
  assert asserts i =
      let before : Bytes = elim i.error [ none ↦ [] | some err ↦ err ] in
      let problems = problems_of i.resp_bytes asserts before in
      if equal problems [] then i else record i { error = some (trim_space problems) }

-- A `bufio.Writer`: what has reached the file, and what waits in the buffer.
pub record BufWriter : Type 0 where
  pub file : Bytes
  pub buffer : Bytes

abbrev pub buf_size : ℕ
buf_size = 4096

-- `Write`: what does not fit fills the buffer first, which goes to the file; more than a buffer
-- goes there without it.
unfoldable pub write : BufWriter → Bytes → BufWriter
write w p =
    let room = buf_size - length w.buffer in
    let rest = drop room p in
    let filled = w.file ++ (w.buffer ++ take room p) in
    if leb (length p) room
    then record w { buffer = w.buffer ++ p }
    else if equal w.buffer []
    then record w { file = w.file ++ p }
    else if leb (length rest) buf_size
    then record { file = filled; buffer = rest }
    else record { file = filled ++ rest; buffer = [] }

unfoldable pub flush : BufWriter → BufWriter
flush w = record { file = w.file ++ w.buffer; buffer = [] }

pub record BinaryOut : Type 0 where
  pub writer : BufWriter
  pub last_ts : ℕ

-- `binary.Write` calls `Write` for each of the 13 fields.
unfoldable pub write_fields : BufWriter → List Bytes → BufWriter
write_fields w [] = w
write_fields w (p ∷ ps) = write_fields (write w p) ps

-- `seconds` gives the bits of the float64 that `Seconds()` makes of a duration.
abbrev pub binary_fields : (ℕ → ℕ) → OutputItem → List Bytes
binary_fields seconds i =
    le_bytes 4 i.start_ts
    ∷ le_bytes 2 i.status
    ∷ le_bytes 2 i.error_str_idx
    ∷ le_bytes 4 i.concurrency
    ∷ le_bytes 8 (seconds i.elapsed)
    ∷ le_bytes 8 (seconds i.connect_time)
    ∷ le_bytes 8 (seconds i.sent_time)
    ∷ le_bytes 8 (seconds i.first_byte_time)
    ∷ le_bytes 8 (seconds i.read_time)
    ∷ le_bytes 4 i.worker
    ∷ le_bytes 2 i.label_idx
    ∷ le_bytes 8 i.sent_bytes_count
    ∷ le_bytes 8 i.resp_bytes_count
    ∷ []

-- `WriteBinary`.
unfoldable pub write_binary : (ℕ → ℕ) → BufWriter → OutputItem → BufWriter
unfolding write_fields write
write_binary seconds w i = write_fields w (binary_fields seconds i)

-- The last `if` of `BinaryOut.Push`: a new second flushes the buffer.
unfoldable pub flush_second : BinaryOut → ℕ → BinaryOut
unfolding flush
flush_second o start_ts =
    if ltb o.last_ts start_ts then record { writer = flush o.writer; last_ts = start_ts } else o

unfoldable pub binary_push :
    (ℕ → ℕ)
    → Option StrIndex
    → BinaryOut
    → OutputItem
    → Result (Option StrIndex × BinaryOut × OutputItem)
unfolding index_error index_label write_binary flush_second
binary_push seconds index o item = do
  (index', item') ← index_error index item
  (index'', item'') ← index_label index' item'
  let o' = record o { writer = write_binary seconds o.writer item'' }
  ok (index'', flush_second o' item''.start_ts, item'')

-- `Close`, of each of the outputs.
unfoldable pub close : BufWriter → Bytes
unfolding flush
close w = (flush w).file

-- `LDJSONOut.Push`. `marshal` is `json.Marshal` of the item.
unfoldable pub ldjson_push :
    (OutputItem → Bytes)
    → Option StrIndex
    → BufWriter
    → OutputItem
    → Result (BufWriter × OutputItem)
unfolding string_friendly write
ldjson_push marshal index w item = do
  item' ← string_friendly index item
  ok (write w (marshal item' ++ (13 ∷ 10 ∷ [])), item')

-- `ReqRespOut.Push`: the level filters by status.
unfoldable pub reqresp_push :
    (OutputItem → Bytes)
    → Option StrIndex
    → ℕ
    → BufWriter
    → OutputItem
    → Result (BufWriter × OutputItem)
unfolding string_friendly write_fields write
reqresp_push marshal index level w item =
    let push = string_friendly index item >>= λ item'. ok (
      write_fields w (
          (marshal item' ++ (13 ∷ 10 ∷ []))
          ∷ item'.req_bytes
          ∷ (13 ∷ 10 ∷ [])
          ∷ item'.resp_bytes
          ∷ (13 ∷ 10 ∷ [])
          ∷ []),
      item',
    ) in
    if leb level item.status then push else ok (w, item)
