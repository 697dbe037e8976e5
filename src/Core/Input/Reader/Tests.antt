-- ===== src/Core/Input/Reader/Tests.antt =====
-- The payload file at concrete inputs. The metadata of these files is the length of the payload.
use encarno.Base.{
  false, Option, inl, ◌==◌, if◌then◌else◌, ℕ, suc, ◌+◌, ◌≡◌, refl, true, none, some, List, [], ◌∷◌,
  arith, ok, panic, index_out_of_range, length, take, zero,
}
use encarno.Base.Bytes.{Bytes, codes}
use encarno.Base.Decimal.{atoi}
use encarno.Base.Int.{pos}
use encarno.Base.Map.{Map}
use encarno.Core.Input.{PayloadItem}
use encarno.Core.Input.Decode.{decode_replaces, decode_extracts, decode_asserts}
use encarno.Core.Input.Reader.{
  File, buffer_size, Decoder, blank_item, eof, decode_strings, read_payload_record, feed,
}
use encarno.Core.Input.Reader.Records.{
  AllSeparators, StandsFor, read_payload_record_eof, read_payload_record_no_plen,
}
use encarno.Core.Input.Reader.Entries.{Reads, Entry, AllEntries}
use encarno.Core.Input.Reader.Passes.{opened, feed-render, feed-Unlimited}
use encarno.Core.Regexp.Literal.{literal}

-- The digits behind a first letter.
abbrev some_digits : Bytes → Option Bytes
some_digits [] = none
some_digits (c ∷ cs) = if c == 112 then some cs else none

abbrev decoder : Decoder Bytes
decoder = record {
  unmarshal = λ meta item. let n = atoi meta in (record item { payload_len = n.0 }, n.1);
  find_plen = some_digits;
}

abbrev Any : Map Bytes → Type 0
Any cache = Unit {0}

-- The item of a payload.
abbrev item_with : Bytes → PayloadItem Bytes
item_with payload = record (blank_item none) {
  payload_len = pos (length payload);
  payload = payload;
}

get_stands : StandsFor literal decoder none Any (codes "3") (codes "GET") (item_with (codes "GET"))
unfolding atoi decode_strings decode_replaces decode_extracts decode_asserts
get_stands = record {
  item = record (blank_item none) { payload_len = pos 3 };
  unmarshalled = refl;
  plen = refl;
  decoded = λ cache g. (cache, refl, tt);
}

head_stands :
    StandsFor literal decoder none Any (codes "4") (codes "HEAD") (item_with (codes "HEAD"))
unfolding atoi decode_strings decode_replaces decode_extracts decode_asserts
head_stands = record {
  item = record (blank_item none) { payload_len = pos 4 };
  unmarshalled = refl;
  plen = refl;
  decoded = λ cache g. (cache, refl, tt);
}

-- The second record has bad metadata.
abbrev entries : List (Entry Bytes)
entries =
    record {
      separators = [];
      meta = codes "3";
      payload = codes "GET";
      out = some (item_with (codes "GET"));
    }
    ∷ record { separators = codes "\n"; meta = codes "p5"; payload = codes "TRACE"; out = none }
    ∷ record {
      separators = codes "\r\n";
      meta = codes "4";
      payload = codes "HEAD";
      out = some (item_with (codes "HEAD"));
    }
    ∷ []

trace-Reads : Reads literal decoder none Any (codes "p5") (codes "TRACE") none
unfolding atoi
trace-Reads = inl (record {
  item = record (blank_item none) { payload_len = pos 0 };
  digits = codes "5";
  refused = refl;
  found = refl;
  plen = refl;
})

entries-AllEntries : AllEntries literal decoder none Any entries
entries-AllEntries = (
  record { separators = tt; meta = (refl, refl); fits = omega arith; reads = get_stands },
  (
    record {
      separators = (refl, tt);
      meta = (refl, refl);
      fits = omega arith;
      reads = trace-Reads;
    },
    (
      record {
        separators = (refl, (refl, tt));
        meta = (refl, refl);
        fits = omega arith;
        reads = head_stands;
      },
      tt,
    ),
  ),
)

feed-render_example :
    feed literal decoder none
      (pos 2)
      8
      (opened literal decoder none Any (codes "3\nGET\np5\nTRACE\r\n4\nHEAD\n") [])
    ≡ ok (
      item_with (codes "GET")
          ∷ item_with (codes "HEAD")
          ∷ item_with (codes "GET")
          ∷ item_with (codes "HEAD")
          ∷ [],
      true,
    )
feed-render_example =
    feed-render literal decoder none Any 1 [] entries (codes "\n") entries-AllEntries (refl, tt) tt

-- So many newlines.
newlines : ℕ → Bytes → Bytes
newlines zero rest = rest
newlines (suc n) rest = 10 ∷ newlines n rest

newlines-AllSeparators : (n : ℕ) (rest : Bytes) → AllSeparators (take n (newlines n rest))
unfolding newlines
newlines-AllSeparators zero rest = tt
newlines-AllSeparators (suc n) rest = (refl, newlines-AllSeparators n rest)

-- 4096 newlines hide the record behind them.
abbrev far_record : File
far_record = record { bytes = newlines buffer_size (codes "3\nGET"); at = 0 }

read_payload_record_eof_example :
    read_payload_record literal decoder none [] far_record
    ≡ ok (
      eof,
      [],
      record far_record {
        at = 0 + length (take buffer_size (newlines buffer_size (codes "3\nGET")));
      },
    )
read_payload_record_eof_example =
    read_payload_record_eof literal decoder none [] far_record
      (newlines-AllSeparators buffer_size (codes "3\nGET"))

read_payload_record_no_plen_example :
    read_payload_record literal decoder none [] (record { bytes = codes "garbage\nGET"; at = 0 })
    ≡ panic index_out_of_range
unfolding atoi
read_payload_record_no_plen_example =
    read_payload_record_no_plen literal decoder none []
      (record { bytes = codes "garbage\nGET"; at = 0 }) [] (codes "garbage") (codes "GET")
      (record (blank_item none) { payload_len = pos 0 }) refl tt (refl, refl) (omega arith) refl
      refl

feed-Unlimited_example :
    feed literal decoder none
      (pos 0)
      12
      (opened literal decoder none Any (codes "3\nGET\np5\nTRACE\r\n4\nHEAD\n") [])
    ≡ ok (
      item_with (codes "GET")
          ∷ item_with (codes "HEAD")
          ∷ item_with (codes "GET")
          ∷ item_with (codes "HEAD")
          ∷ item_with (codes "GET")
          ∷ item_with (codes "HEAD")
          ∷ [],
      false,
    )
feed-Unlimited_example =
    feed-Unlimited literal decoder none Any (pos 0) 3 [] entries (codes "\n") tt entries-AllEntries
      (refl, tt) (omega arith) tt
