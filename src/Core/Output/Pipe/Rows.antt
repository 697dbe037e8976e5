-- ===== src/Core/Output/Pipe/Rows.antt =====
-- The whole binary file of a run, read back record by record.
use mathlib.Core.List.{append_assoc, append-nil}
use encarno.Base.{
  ℕ, zero, suc, ◌+◌, ◌*◌, ◌^◌, ◌≤◌, ◌<◌, ◌≡◌, refl, sym, ap, ◌∙◌, Option, none, some, List, [], ◌∷◌,
  ◌++◌, arith, length, get_elem?, ok,
}
use encarno.Base.Bytes.{Bytes}
use encarno.Core.Output.{OutputItem, BinaryOut, binary_push, close, flush}
use encarno.Core.Output.Binary.{HasTypes, numbers, format, unpack}
use encarno.Core.Output.Pipe.{
  Output, binary_out, new_writer, push_out, push_outs, push_item, push_items, close_outs, close_out,
}
use encarno.Core.Output.Texts.{IsOpen, Stands, Stands-keeps, text_of, binary_push-Readable}
use encarno.Core.Output.Writer.{stream}
use encarno.Core.StrIndex.{StrIndex, get}
use encarno.Core.StrIndex.Lookup.{get_indexed}

-- What the reader's loop finds: so many records, and nothing behind them.
unfoldable pub unpack_all : ℕ → Bytes → Option (List (List ℕ))
unpack_all zero [] = some []
unpack_all zero (b ∷ bs) = none
unpack_all (suc n) bs = elim (unpack format bs) [
  | none ↦ none
  | some (row, rest) ↦ elim (unpack_all n rest) [ none ↦ none | some rows ↦ some (row ∷ rows) ]
]

unpack_all_first :
    (n : ℕ) (r added : Bytes) (row : List ℕ) (rows : List (List ℕ))
    → unpack format (r ++ added) ≡ some (row, added)
    → unpack_all n added ≡ some rows
    → unpack_all (suc n) (r ++ added) ≡ some (row ∷ rows)
unfolding unpack_all
unpack_all_first n r added row rows h e = rw (h, unpack_all) (rw e refl)

-- Results with their labels, as workers push them.
abbrev pub AllStand : StrIndex → List (OutputItem × Bytes) → Type 0
AllStand s [] = Unit
AllStand s ((item, l) ∷ rest) =
    (HasTypes item × (item.error_str_idx ≡ 0) × Stands s item.label_idx item.label l)
    × AllStand s rest

AllStand-keeps :
    (s t : StrIndex) (items : List (OutputItem × Bytes))
    → ((j : ℕ) (m : Bytes) → get_elem? s.index j ≡ some m → get_elem? t.index j ≡ some m)
    → AllStand s items
    → AllStand t items
AllStand-keeps s t [] keep h = tt
AllStand-keeps s t ((item, l) ∷ rest) keep ((types, fresh, stands), h) = (
  (types, fresh, Stands-keeps s t item.label_idx item.label l keep stands),
  AllStand-keeps s t rest keep h,
)

abbrev pub items_of : List (OutputItem × Bytes) → List OutputItem
items_of [] = []
items_of ((item, l) ∷ rest) = item ∷ items_of rest

module _ (seconds : ℕ → ℕ) where
  -- The rows of a file are those of the results, whose numbers of texts lead to their texts.
  abbrev pub AreRows : StrIndex → List (OutputItem × Bytes) → List (List ℕ) → Type 0
  AreRows t [] [] = Unit
  AreRows t ((item, l) ∷ rest) (row ∷ rows) =
      ((i : ℕ) × (j : ℕ) × (row
          ≡ numbers seconds (record item { error_str_idx = i; label_idx = j }))
        × (get t i ≡ ok (text_of item.error))
        × (get t j ≡ ok l))
      × AreRows t rest rows
  AreRows t _ _ = ⊥

  module _ (marshal : OutputItem → Bytes) (float64 : (d : ℕ) → seconds d < 2 ^ 64) where
    push_item-binary :
        (s t : StrIndex) (o p : BinaryOut) (item item' : OutputItem)
        → binary_push seconds (some s) o item ≡ ok (some t, p, item')
        → push_item marshal seconds (record { outs = binary_out o ∷ []; str_index = some s }) item
          ≡ ok (record { outs = binary_out p ∷ []; str_index = some t })
    unfolding push_item push_outs push_out
    push_item-binary s t o p item item' e = rw e refl

    push_items-AreRows :
        (s : StrIndex) (o : BinaryOut) (items : List (OutputItem × Bytes))
        → IsOpen s
        → length s.index + 2 * length items ≤ 2 ^ 16
        → AllStand s items
        → (t : StrIndex) × (p : BinaryOut) × (added : Bytes) × (rows : List (List ℕ)) × (push_items
              marshal seconds
              (record { outs = binary_out o ∷ []; str_index = some s })
              (items_of items)
            ≡ ok (record { outs = binary_out p ∷ []; str_index = some t }))
          × (stream p.writer ≡ stream o.writer ++ added)
          × (unpack_all (length items) added ≡ some rows)
          × AreRows t items rows
          × ((j : ℕ) (m : Bytes) → get_elem? s.index j ≡ some m → get_elem? t.index j ≡ some m)
    unfolding push_items unpack_all
    push_items-AreRows s o [] op room h =
        (s, o, [], [], refl, sym (append-nil _), refl, tt, λ j m e. e)
    push_items-AreRows s o ((item, l) ∷ rest) op room ((types, fresh, stands), h) =
        let (t, p, i, j, r, pushed, x) =
          binary_push-Readable seconds float64 s o item l op (omega (arith, room)) types fresh
            stands in
        let (u, q, added, rows, e, appended, unpacked, are, keep) =
          push_items-AreRows t p rest x.still_open (omega (arith, room, x.grows))
            (AllStand-keeps s t rest x.keeps_index h) in
        (
          u,
          q,
          r ++ added,
          numbers seconds (record item { error_str_idx = i; label_idx = j }) ∷ rows,
          rw (push_item-binary s t o p item _ pushed) e,
          appended
              ∙ ap (λ (b : Bytes). b ++ added) x.appended
              ∙ append_assoc (stream o.writer) r added,
          unpack_all_first (length rest) r added _ rows (x.unpacked added) unpacked,
          (
            (
              i,
              j,
              refl,
              get_indexed u i _ (keep i _ x.error_indexed),
              get_indexed u j l (keep j l x.label_indexed),
            ),
            are,
          ),
          λ k m g. keep k m (x.keeps_index k m g),
        )

    -- Times fit float64. The index can change, its zero is the empty text, and it has room for two
    -- more texts a result; each result has numbers of their types, no error number yet, and a label
    -- or a number that stands for it. Then an output with a new binary file takes all of them, and
    -- when it is closed, the file consists of one record a result, in their order: the reader's
    -- format takes the results' numbers out of it, of which two lead, in the index as it is then,
    -- to the text of the result's error and to its label.
    pub push_items-unpack_all :
        (s : StrIndex) (items : List (OutputItem × Bytes))
        → IsOpen s
        → length s.index + 2 * length items ≤ 2 ^ 16
        → AllStand s items
        → (m : Output) × (t : StrIndex) × (file : Bytes) × (rows : List (List ℕ)) × (push_items
              marshal seconds
              (record {
                outs = binary_out (record { writer = new_writer; last_ts = 0 }) ∷ [];
                str_index = some s;
              })
              (items_of items)
            ≡ ok m)
          × (m.str_index ≡ some t)
          × (close_outs m ≡ file ∷ [])
          × (unpack_all (length items) file ≡ some rows)
          × AreRows t items rows
    unfolding close_outs close_out close flush
    push_items-unpack_all s items op room h =
        let (t, p, added, rows, e, whole, unpacked, are, keep) =
          push_items-AreRows s (record { writer = new_writer; last_ts = 0 }) items op room h in
        (
          record { outs = binary_out p ∷ []; str_index = some t },
          t,
          added,
          rows,
          e,
          refl,
          ap (λ (b : Bytes). b ∷ []) whole,
          unpacked,
          are,
        )
