-- ===== src/Http/Nib/Journeys.antt =====
-- From the items of a worker with the nib of HTTP to the binary file of its results.
use encarno.Base.{
  ℕ, ◌+◌, ◌*◌, ◌^◌, ◌<◌, ◌≤◌, ◌≡◌, refl, ap, subst, false, some, List, [], ◌∷◌, arith, length, ok,
}
use encarno.Base.Bytes.{Bytes}
use encarno.Base.Map.{Map}
use encarno.Core.Input.{PayloadItem}
use encarno.Core.Output.{OutputItem}
use encarno.Core.Output.Pipe.{Output, binary_out, new_writer, push_items, close_outs}
use encarno.Core.Output.Pipe.Rows.{unpack_all, AllStand, items_of, AreRows, push_items-unpack_all}
use encarno.Core.Output.Texts.{IsOpen, Stands}
use encarno.Core.Regexp.{Regexp}
use encarno.Core.Status.{inc_busy}
use encarno.Core.StrIndex.{StrIndex}
use encarno.Core.Worker.{Worker, Nib, Turn, run, complete}
use encarno.Core.Worker.Iterations.{IsSane, result_of}
use encarno.Core.Worker.Runs.{Served, closes, aborts, serves, results_of, run-Served}
use encarno.Http.Nib.{Network, http_nib}
use encarno.Http.Nib.Fields.{
  FromNib, punch-FromNib, http_nib-punch, Fits-complete, Fits-assert, Stands-same,
}

module _ (R : Regexp) (content_length_re : R.Re) (rand : ℕ → ℕ) where
  abbrev AllFromNib : List (PayloadItem R.Re × OutputItem) → Type 0
  AllFromNib [] = Unit
  AllFromNib ((sent, res) ∷ served) = FromNib res × AllFromNib served

  -- The items that are sent have these labels, or numbers that stand for them.
  abbrev pub AllLabelled : StrIndex → List (PayloadItem R.Re × OutputItem) → List Bytes → Type 0
  AllLabelled s [] [] = Unit
  AllLabelled s ((sent, res) ∷ served) (l ∷ ls) =
      ((sent.label_idx < 2 ^ 16) × Stands s sent.label_idx sent.label l) × AllLabelled s served ls
  AllLabelled s _ _ = ⊥

  -- The results of a worker with these labels.
  abbrev pub labelled :
      Worker → List (PayloadItem R.Re × OutputItem) → List Bytes → List (OutputItem × Bytes)
  labelled w ((sent, res) ∷ served) (l ∷ ls) = (result_of R w sent res, l) ∷ labelled w served ls
  labelled w _ _ = []

  -- Every request has the nib of HTTP, over a network of its own.
  abbrev pub AllHttp : List (Turn R) → Type 0
  AllHttp [] = Unit
  AllHttp (t ∷ turns) =
      ((net : Network) × (t.nib ≡ http_nib R content_length_re net)) × AllHttp turns

  Served-FromNib :
      {values values' : Map Bytes} {cache cache' : Map R.Re} {turns : List (Turn R)}
      {served : List (PayloadItem R.Re × OutputItem)} {gone : ℕ}
      → Served R rand values cache turns served values' cache' gone
      → AllHttp turns
      → AllFromNib served
  Served-FromNib (closes nib offset now stops turns) h = tt
  Served-FromNib aborts h = tt
  Served-FromNib (serves nib offset now item sent res x more) ((net, e), h) =
      let (_, out) =
        http_nib-punch R content_length_re net x.resolved sent res
          (subst (λ (n : Nib R.Re). n.punch x.resolved ≡ ok (sent, res)) e x.punches) in
      (subst FromNib out (punch-FromNib R content_length_re net x.resolved), Served-FromNib more h)

  items_of-labelled :
      (s : StrIndex) (w : Worker) (served : List (PayloadItem R.Re × OutputItem)) (ls : List Bytes)
      → AllLabelled s served ls
      → (items_of (labelled w served ls) ≡ results_of R rand w served)
        × (length (labelled w served ls) ≡ length served)
  items_of-labelled s w [] [] h = (refl, refl)
  items_of-labelled s w [] (l ∷ ls) h = absurd h
  items_of-labelled s w ((sent, res) ∷ served) [] h = absurd h
  items_of-labelled s w ((sent, res) ∷ served) (l ∷ ls) h =
      let (e, f) = items_of-labelled s w served ls h.1 in
      (ap (◌∷◌ (result_of R w sent res)) e, omega (arith, f))

  AllStand-labelled :
      (s : StrIndex) (w : Worker) (served : List (PayloadItem R.Re × OutputItem)) (ls : List Bytes)
      → AllFromNib served
      → AllLabelled s served ls
      → AllStand s (labelled w served ls)
  AllStand-labelled s w [] [] f h = tt
  AllStand-labelled s w [] (l ∷ ls) f h = absurd h
  AllStand-labelled s w ((sent, res) ∷ served) [] f h = absurd h
  AllStand-labelled s w ((sent, res) ∷ served) (l ∷ ls) f h =
      let busy = record w { status = inc_busy w.status } in
      let fits =
        Fits-assert R sent.asserts (complete busy sent res) sent.label sent.label_idx
          (Fits-complete busy sent res f.0 h.0.0) in
      (
        (
          fits.types,
          fits.fresh,
          Stands-same s _ sent.label_idx _ sent.label l fits.label_idx fits.label h.0.1,
        ),
        AllStand-labelled s w served ls f.1 h.1,
      )

  -- Times fit float64. A worker with the nib of HTTP is not stopped and its counters have room; its
  -- items have variables that can be replaced, texts that can be looked up, values that can be
  -- extracted, and labels or numbers of labels in an index that can change, has the empty text at
  -- zero, and has room for two more texts an item. Every call of `Punch` comes back, which it does
  -- unless it waits to return its connection to the pool. Then, whatever the network does with each
  -- of the requests, the worker finishes when its input is closed or the abort is signalled, and an
  -- output with a new binary file takes its results. When the output is closed, the file consists of
  -- one record for each item, in their order, out of which the reader's format takes the result's
  -- numbers; two of them lead to the text of its error and to the item's label.
  pub run-unpack_all :
      (marshal : OutputItem → Bytes) (seconds : ℕ → ℕ) (w : Worker) (cache : Map R.Re)
      (turns : List (Turn R)) (served : List (PayloadItem R.Re × OutputItem)) (values : Map Bytes)
      (cache' : Map R.Re) (gone : ℕ) (s : StrIndex) (ls : List Bytes)
      → ((d : ℕ) → seconds d < 2 ^ 64)
      → IsSane w.status
      → w.stopped ≡ false
      → w.status.cnt + length served < 2 ^ 64
      → Served R rand w.values cache turns served values cache' gone
      → AllHttp turns
      → IsOpen s
      → length s.index + 2 * length served ≤ 2 ^ 16
      → AllLabelled s served ls
      → (w' : Worker) × (m : Output) × (t : StrIndex) × (file : Bytes) × (rows : List (List ℕ))
        × (run R rand w cache turns ≡ ok (w', cache', results_of R rand w served))
        × (push_items marshal seconds
              (record {
                outs = binary_out (record { writer = new_writer; last_ts = 0 }) ∷ [];
                str_index = some s;
              })
              (results_of R rand w served)
            ≡ ok m)
        × (m.str_index ≡ some t)
        × (close_outs m ≡ file ∷ [])
        × (unpack_all (length served) file ≡ some rows)
        × AreRows seconds t (labelled w served ls) rows
  run-unpack_all marshal seconds w cache turns served values cache' gone s ls float64 sane runs few
        h http op room labels =
      let (w', ran, _) =
        run-Served R rand w cache turns served values cache' gone sane runs few h in
      let (same, count) = items_of-labelled s w served ls labels in
      let (m, t, file, rows, pushed, index, closed, unpacked, are) =
        push_items-unpack_all seconds marshal float64 s (labelled w served ls) op
          (omega (arith, room, count))
          (AllStand-labelled s w served ls (Served-FromNib h http) labels) in
      let begin : Output = record {
        outs = binary_out (record { writer = new_writer; last_ts = 0 }) ∷ [];
        str_index = some s;
      } in
      (
        w',
        m,
        t,
        file,
        rows,
        ran,
        subst (λ (items : List OutputItem). push_items marshal seconds begin items ≡ ok m) same
            pushed,
        index,
        closed,
        subst (λ (n : ℕ). unpack_all n file ≡ some rows) count unpacked,
        are,
      )
