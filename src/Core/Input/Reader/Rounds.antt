-- ===== src/Core/Input/Reader/Rounds.antt =====
-- The rounds of one pass of `NewInput` over a file, and what happens at its end.
use mathlib.Core.List.{append_assoc}
use native.Mathlib.Nat.{zero-add}
use encarno.Base.{
  ℕ, suc, ◌+◌, ◌<◌, ◌≤◌, ◌≡◌, length-append, problematic_input, refl, sym, ap, ◌∙◌, Bool, true,
  false, Option, List, [], ◌∷◌, ◌++◌, arith, length, Result, ok, panic,
}
use encarno.Base.Bytes.{Bytes}
use encarno.Base.Int.{ℤ}
use encarno.Base.Map.{Map}
use encarno.Core.Input.{PayloadItem}
use encarno.Core.Input.Reader.{
  unread, buffer_size, Decoder, Feed, limit_reached, rewind, after_reading, feed_round, feed,
}
use encarno.Core.Input.Reader.Entries.{
  Entry, render, outs, bads, sends, errors, prepend, prepend_nil, AllEntries, At, feed_entry,
}
use encarno.Core.Input.Reader.Records.{AllSeparators, read_payload_record_eof, AllSeparators-take}
use encarno.Core.Regexp.{Regexp}
use encarno.Core.StrIndex.{StrIndex}

module _ (R : Regexp) (d : Decoder R.Re) (index : Option StrIndex) (Good : Map R.Re → Type 0) where
  module _ (limit : ℤ) where
    prepend_assoc :
        (xs ys : List (PayloadItem R.Re)) (r : Result (List (PayloadItem R.Re) × Bool))
        → prepend xs (prepend ys r) ≡ prepend (xs ++ ys) r
    prepend_assoc xs ys (ok (zs, b)) = rw append_assoc
    prepend_assoc xs ys (panic why) = refl

    -- One pass over the records.
    pub feed_pass :
        (k : ℕ) (s : Feed R.Re) (xs : List (Entry R.Re)) (text end : Bytes) (n g b : ℕ)
        → AllEntries R d index Good xs
        → At R d index Good s text (render xs end) n g b
        → (s' : Feed R.Re) × (feed R d index limit (length xs + k) s
            ≡ prepend (outs xs) (feed R d index limit k s'))
          × At R d index Good s' text end n (length (outs xs) + g) (bads xs + b)
    feed_pass k s [] text end n g b h at = (
      s,
      rw zero-add (sym (prepend_nil (feed R d index limit k s))),
      record {
        left = at.left;
        whole = at.whole;
        cached = at.cached;
        iterations = at.iterations;
        good = omega (arith, at.good);
        bad = omega (arith, at.bad);
      },
    )
    feed_pass k s (x ∷ xs) text end n g b (w, h) at =
        let (s', e, at') =
          feed_entry R d index Good limit (length xs + k) s x text (render xs end) n g b w at in
        let (s'', e', at'') =
          feed_pass k s' xs text end n (length (sends x.out) + g) (errors x.out + b) h at' in
        let count : suc (length xs) + k ≡ suc (length xs + k) = omega arith in
        (
          s'',
          rw count (
              e
              ∙ ap (prepend (sends x.out)) e'
              ∙ prepend_assoc (sends x.out) (outs xs) (feed R d index limit k s'')),
          record {
            left = at''.left;
            whole = at''.whole;
            cached = at''.cached;
            iterations = at''.iterations;
            good = omega (arith, at''.good, length-append (sends x.out) (outs xs));
            bad = omega (arith, at''.bad);
          },
        )

    -- The end of a pass: of one that is not the last, with few errors or many, and of the last.
    pub feed_rewind :
        (k : ℕ) (s : Feed R.Re) (text end : Bytes) (n g b : ℕ)
        → AllSeparators end
        → limit_reached limit (n + 1) ≡ false
        → b ≤ g
        → At R d index Good s text end n g b
        → (s' : Feed R.Re) × (feed R d index limit (suc k) s ≡ feed R d index limit k s')
          × At R d index Good s' text text (n + 1) g b
    unfolding feed feed_round after_reading rewind
    feed_rewind k s text end n g b h more few at =
        let behind = AllSeparators-take buffer_size (unread s.file) (rw at.left h) in
        let s' : Feed R.Re = record s {
          file = record s.file { at = 0 };
          iterations = s.iterations + 1;
        } in
        (
          s',
          ground (
            arith,
            read_payload_record_eof R d index s.cache s.file behind,
            more,
            few,
            at.iterations,
            at.good,
            at.bad,
          ),
          record {
            left = at.whole;
            whole = at.whole;
            cached = at.cached;
            iterations = omega (arith, at.iterations);
            good = at.good;
            bad = at.bad;
          },
        )

    pub feed_problematic :
        (k : ℕ) (s : Feed R.Re) (text end : Bytes) (n g b : ℕ)
        → AllSeparators end
        → limit_reached limit (n + 1) ≡ false
        → g < b
        → At R d index Good s text end n g b
        → feed R d index limit (suc k) s ≡ panic (problematic_input g b)
    unfolding feed feed_round after_reading rewind
    feed_problematic k s text end n g b h more many at =
        let behind = AllSeparators-take buffer_size (unread s.file) (rw at.left h) in
        ground (
          arith,
          read_payload_record_eof R d index s.cache s.file behind,
          more,
          many,
          at.iterations,
          at.good,
          at.bad,
        )

    pub feed_last :
        (k : ℕ) (s : Feed R.Re) (text end : Bytes) (n g b : ℕ)
        → AllSeparators end
        → limit_reached limit (n + 1) ≡ true
        → At R d index Good s text end n g b
        → feed R d index limit (suc k) s ≡ ok ([], true)
    unfolding feed feed_round after_reading rewind
    feed_last k s text end n g b h last at =
        let behind = AllSeparators-take buffer_size (unread s.file) (rw at.left h) in
        ground (arith, read_payload_record_eof R d index s.cache s.file behind, last, at.iterations)
