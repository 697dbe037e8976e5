-- ===== src/Core/Output/Binary.antt =====
-- Binary results, read back the way taurus/encarno/__init__.py reads them: records of the format
-- "<L HH L 5d LH QQ", whose texts are looked up in the strings file.
use mathlib.Core.List.{append_assoc}
use encarno.Base.{ℕ, ◌^◌, ◌<◌, ◌≡◌, refl, Option, none, some, List, [], ◌∷◌, ◌++◌}
use encarno.Base.Bytes.{Bytes}
use encarno.Base.Endian.{le_bytes, le_read, Fits, le_read-le_bytes, u16-Fits, u32-Fits, u64-Fits}
use encarno.Core.Output.{OutputItem, BufWriter, binary_fields, write_binary}
use encarno.Core.Output.Writer.{stream, concat, stream-write_fields}

-- The widths of the format.
abbrev pub format : List ℕ
format = 4 ∷ 2 ∷ 2 ∷ 4 ∷ 8 ∷ 8 ∷ 8 ∷ 8 ∷ 8 ∷ 4 ∷ 2 ∷ 8 ∷ 8 ∷ []

-- `struct.unpack` of little-endian numbers, with what follows them.
unfoldable pub unpack : List ℕ → Bytes → Option (List ℕ × Bytes)
unpack [] bs = some ([], bs)
unpack (w ∷ ws) bs = elim (le_read w bs) [
  | none ↦ none
  | some (n, bs') ↦ elim (unpack ws bs') [ none ↦ none | some (ns, rest) ↦ some (n ∷ ns, rest) ]
]

abbrev pub pack : List ℕ → List ℕ → List Bytes
pack (w ∷ ws) (n ∷ ns) = le_bytes w n ∷ pack ws ns
pack _ _ = []

abbrev pub FitAll : List ℕ → List ℕ → Type 0
FitAll [] [] = Unit
FitAll (w ∷ ws) (n ∷ ns) = Fits w n × FitAll ws ns
FitAll _ _ = ⊥

pub unpack-pack :
    (ws ns : List ℕ) (rest : Bytes)
    → FitAll ws ns
    → unpack ws (concat (pack ws ns) ++ rest) ≡ some (ns, rest)
unfolding unpack
unpack-pack [] [] rest h = refl
unpack-pack [] (n ∷ ns) rest h = elim h [ ]
unpack-pack (w ∷ ws) [] rest h = elim h [ ]
unpack-pack (w ∷ ws) (n ∷ ns) rest (h, hs) =
    rw (append_assoc (le_bytes w n) (concat (pack ws ns)) rest) (
      rw (le_read-le_bytes w n (concat (pack ws ns) ++ rest) h, unpack)
        (rw (unpack-pack ws ns rest hs) refl))

-- The numbers have the types that the struct gives them.
pub record HasTypes (i : OutputItem) : Type 0 where
  pub start_ts : i.start_ts < 2 ^ 32
  pub status : i.status < 2 ^ 16
  pub error_str_idx : i.error_str_idx < 2 ^ 16
  pub concurrency : i.concurrency < 2 ^ 32
  pub worker : i.worker < 2 ^ 32
  pub label_idx : i.label_idx < 2 ^ 16
  pub sent_bytes_count : i.sent_bytes_count < 2 ^ 64
  pub resp_bytes_count : i.resp_bytes_count < 2 ^ 64

module _ (seconds : ℕ → ℕ) where
  -- What a reader should find.
  abbrev pub numbers : OutputItem → List ℕ
  numbers i =
      i.start_ts
      ∷ i.status
      ∷ i.error_str_idx
      ∷ i.concurrency
      ∷ seconds i.elapsed
      ∷ seconds i.connect_time
      ∷ seconds i.sent_time
      ∷ seconds i.first_byte_time
      ∷ seconds i.read_time
      ∷ i.worker
      ∷ i.label_idx
      ∷ i.sent_bytes_count
      ∷ i.resp_bytes_count
      ∷ []

  module _ (float64 : (d : ℕ) → seconds d < 2 ^ 64) where
    numbers-FitAll : (i : OutputItem) → HasTypes i → FitAll format (numbers i)
    numbers-FitAll i h =
        let time = λ (d : ℕ). u64-Fits (seconds d) (float64 d) in
        (
          u32-Fits _ h.start_ts,
          (
            u16-Fits _ h.status,
            (
              u16-Fits _ h.error_str_idx,
              (
                u32-Fits _ h.concurrency,
                (
                  time i.elapsed,
                  (
                    time i.connect_time,
                    (
                      time i.sent_time,
                      (
                        time i.first_byte_time,
                        (
                          time i.read_time,
                          (
                            u32-Fits _ h.worker,
                            (
                              u16-Fits _ h.label_idx,
                              (u64-Fits _ h.sent_bytes_count, (u64-Fits _ h.resp_bytes_count, tt)),
                            ),
                          ),
                        ),
                      ),
                    ),
                  ),
                ),
              ),
            ),
          ),
        )

    pub unpack-binary_fields :
        (i : OutputItem) (rest : Bytes)
        → HasTypes i
        → unpack format (concat (binary_fields seconds i) ++ rest) ≡ some (numbers i, rest)
    unpack-binary_fields i rest h = unpack-pack format (numbers i) rest (numbers-FitAll i h)

    -- Whatever the buffered writer holds, `WriteBinary` of an item whose numbers have their types
    -- adds one record to it, and the reader's format takes the 13 numbers out of that record, with
    -- anything that is written after it left over.
    pub unpack-write_binary :
        (w : BufWriter) (i : OutputItem)
        → HasTypes i
        → (r : Bytes) × (stream (write_binary seconds w i) ≡ stream w ++ r)
          × ((rest : Bytes) → unpack format (r ++ rest) ≡ some (numbers i, rest))
    unfolding write_binary
    unpack-write_binary w i h = (
      concat (binary_fields seconds i),
      stream-write_fields w (binary_fields seconds i),
      λ rest. unpack-binary_fields i rest h,
    )
