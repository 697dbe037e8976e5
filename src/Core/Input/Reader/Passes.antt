-- ===== src/Core/Input/Reader/Passes.antt =====
-- What the goroutine of `NewInput` sends for a well-formed file.
use encarno.Base.{
  ℕ, zero, suc, ◌+◌, ◌*◌, ◌≤◌, ◌≡◌, leb, ◌==◌, ◌||◌, if◌then◌else◌, problematic_input, Bool-cases,
  inl, inr, refl, ap, ◌∙◌, Bool, true, false, Option, List, [], ◌++◌, arith, length, Result, ok,
  panic,
}
use encarno.Base.Bytes.{Bytes}
use encarno.Base.Int.{ℤ, pos, negsuc}
use encarno.Base.Map.{Map}
use encarno.Core.Input.{PayloadItem}
use encarno.Core.Input.Reader.{Decoder, Feed, limit_reached, feed}
use encarno.Core.Input.Reader.Entries.{Entry, render, outs, bads, prepend, AllEntries, At}
use encarno.Core.Input.Reader.Records.{AllSeparators}
use encarno.Core.Regexp.{Regexp}
use encarno.Core.StrIndex.{StrIndex}
use encarno.Core.Input.Reader.Rounds.{feed_pass, feed_rewind, feed_problematic, feed_last}

-- No limit.
abbrev pub Unlimited : ℤ → Type 0
Unlimited (pos zero) = Unit
Unlimited (pos (suc n)) = ⊥
Unlimited (negsuc n) = Unit

module _ (R : Regexp) (d : Decoder R.Re) (index : Option StrIndex) (Good : Map R.Re → Type 0) where
  -- So many passes.
  abbrev pub times : ℕ → List (PayloadItem R.Re) → List (PayloadItem R.Re)
  times zero xs = []
  times (suc n) xs = xs ++ times n xs

  feed_passes :
      (n l done g b : ℕ) (s : Feed R.Re) (xs : List (Entry R.Re)) (end : Bytes)
      → l ≡ done + suc n
      → AllEntries R d index Good xs
      → AllSeparators end
      → bads xs ≤ length (outs xs)
      → b ≤ g
      → At R d index Good s (render xs end) (render xs end) done g b
      → feed R d index (pos l) (suc n * (length xs + 1)) s ≡ ok (times (suc n) (outs xs), true)
  feed_passes zero l done g b s xs end q h hs few low at =
      let (s', e, at') =
        feed_pass R d index Good (pos l) 1 s xs (render xs end) end done g b h at in
      let fuel : 1 * (length xs + 1) ≡ length xs + 1 = omega arith in
      let last =
        feed_last R d index Good (pos l) 0 s' (render xs end) end done _ _ hs (ground arith) at' in
      rw fuel (e ∙ ap (prepend (outs xs)) last)
  feed_passes (suc n) l done g b s xs end q h hs few low at =
      let k = suc n * (length xs + 1) in
      let (s', e, at') =
        feed_pass R d index Good (pos l) (suc k) s xs (render xs end) end done g b h at in
      let g' = length (outs xs) + g in
      let b' = bads xs + b in
      let low' : b' ≤ g' = omega arith in
      let (s'', e', at'') =
        feed_rewind R d index Good (pos l) k s' (render xs end) end done g' b' hs (ground arith)
          low' at' in
      let fuel : suc (suc n) * (length xs + 1) ≡ length xs + suc k = omega arith in
      let rest = feed_passes n l (done + 1) g' b' s'' xs end (omega arith) h hs few low' at'' in
      rw fuel (e ∙ ap (prepend (outs xs)) (e' ∙ rest))

  -- Where `NewInput` starts: at the first byte of the file, with nothing counted.
  abbrev pub opened : Bytes → Map R.Re → Feed R.Re
  opened text cache = record {
    file = record { bytes = text; at = 0 };
    cache = cache;
    iterations = 0;
    good = 0;
    bad = 0;
  }

  -- What the goroutine should do in n + 1 passes.
  abbrev pub expected : ℕ → List (Entry R.Re) → Result (List (PayloadItem R.Re) × Bool)
  expected n xs =
      if n == 0 || leb (bads xs) (length (outs xs))
      then ok (times (suc n) (outs xs), true)
      else panic (problematic_input (length (outs xs)) (bads xs))

  -- A file of records, with line ends alone behind the last: the separators and the metadata of each
  -- fit the buffer; some stand for items, and the others are skipped, since their metadata is bad
  -- but has the length of the payload, or since a text of theirs cannot be decoded; all this holds
  -- while the cache of expressions is as it is required, which it is at first. With an iteration
  -- limit of n + 1, the goroutine of `NewInput` sends the items n + 1 times over and in their order,
  -- and then closes the channel, if it is to make but one pass, or if no more records are skipped
  -- than are not; otherwise it panics. A round for each record and one for each end of the file are
  -- enough.
  pub feed-render :
      (n : ℕ) (cache : Map R.Re) (xs : List (Entry R.Re)) (end : Bytes)
      → AllEntries R d index Good xs
      → AllSeparators end
      → Good cache
      → feed R d index (pos (suc n)) (suc n * (length xs + 1)) (opened (render xs end) cache)
        ≡ expected n xs
  feed-render n cache xs end h hs good = by_passes n
    where
      start : At R d index Good (opened (render xs end) cache) (render xs end) (render xs end) 0 0 0
      start = record {
        left = refl;
        whole = refl;
        cached = good;
        iterations = refl;
        good = refl;
        bad = refl;
      }

      by_passes :
          (n : ℕ)
          → feed R d index (pos (suc n)) (suc n * (length xs + 1)) (opened (render xs end) cache)
            ≡ expected n xs
      by_passes zero =
          let (s', e, at') =
            feed_pass R d index Good (pos 1) 1 (opened (render xs end) cache) xs (render xs end) end
              0 0 0 h start in
          let fuel : 1 * (length xs + 1) ≡ length xs + 1 = omega arith in
          let last =
            feed_last R d index Good (pos 1) 0 s' (render xs end) end 0 _ _ hs (ground arith) at' in
          rw fuel (e ∙ ap (prepend (outs xs)) last)
      by_passes (suc n) = elim (Bool-cases (leb (bads xs) (length (outs xs)))) [
        | inl few ↦
            feed_passes (suc n) (suc (suc n)) 0 0 0 (opened (render xs end) cache) xs end
              (omega arith) h hs (ground (arith, few)) (omega arith) start
            ∙ ground (arith, few)
        | inr many ↦
            let k = suc n * (length xs + 1) in
            let (s', e, at') =
              feed_pass R d index Good (pos (suc (suc n))) (suc k) (opened (render xs end) cache) xs
                (render xs end) end 0 0 0 h start in
            let fuel : suc (suc n) * (length xs + 1) ≡ length xs + suc k = omega arith in
            let stop =
              feed_problematic R d index Good (pos (suc (suc n))) k s' (render xs end) end 0
                (length (outs xs) + 0) (bads xs + 0) hs (ground arith) (ground (arith, many)) at' in
            rw fuel (e ∙ ap (prepend (outs xs)) stop ∙ ground (arith, many))
      ]

  feed_on :
      (limit : ℤ) (n done g b : ℕ) (s : Feed R.Re) (xs : List (Entry R.Re)) (end : Bytes)
      → ((i : ℕ) → limit_reached limit i ≡ false)
      → AllEntries R d index Good xs
      → AllSeparators end
      → bads xs ≤ length (outs xs)
      → b ≤ g
      → At R d index Good s (render xs end) (render xs end) done g b
      → feed R d index limit (n * (length xs + 1)) s ≡ ok (times n (outs xs), false)
  unfolding feed
  feed_on limit zero done g b s xs end free h hs few low at =
      let fuel : 0 * (length xs + 1) ≡ 0 = omega arith in rw fuel refl
  feed_on limit (suc n) done g b s xs end free h hs few low at =
      let k = n * (length xs + 1) in
      let (s', e, at') =
        feed_pass R d index Good limit (suc k) s xs (render xs end) end done g b h at in
      let g' = length (outs xs) + g in
      let b' = bads xs + b in
      let low' : b' ≤ g' = omega arith in
      let (s'', e', at'') =
        feed_rewind R d index Good limit k s' (render xs end) end done g' b' hs (free (done + 1))
          low' at' in
      let fuel : suc n * (length xs + 1) ≡ length xs + suc k = omega arith in
      let rest = feed_on limit n (done + 1) g' b' s'' xs end free h hs few low' at'' in
      rw fuel (e ∙ ap (prepend (outs xs)) (e' ∙ rest))

  -- An iteration limit that is not positive is none.
  unlimited : (limit : ℤ) → Unlimited limit → (i : ℕ) → limit_reached limit i ≡ false
  unlimited (pos zero) h i = refl
  unlimited (pos (suc n)) h i = absurd h
  unlimited (negsuc n) h i = refl

  -- A file of records as above, of which no more are skipped than are not. With an iteration limit
  -- that is not positive, the goroutine of `NewInput` starts over at each end of the file: in the
  -- rounds of any number of passes it sends the items as many times over, in their order, and the
  -- channel stays open.
  pub feed-Unlimited :
      (limit : ℤ) (n : ℕ) (cache : Map R.Re) (xs : List (Entry R.Re)) (end : Bytes)
      → Unlimited limit
      → AllEntries R d index Good xs
      → AllSeparators end
      → bads xs ≤ length (outs xs)
      → Good cache
      → feed R d index limit (n * (length xs + 1)) (opened (render xs end) cache)
        ≡ ok (times n (outs xs), false)
  feed-Unlimited limit n cache xs end none_set h hs few good =
      feed_on limit n 0 0 0 (opened (render xs end) cache) xs end (unlimited limit none_set) h hs
        few (omega arith)
        (record {
          left = refl;
          whole = refl;
          cached = good;
          iterations = refl;
          good = refl;
          bad = refl;
        })
