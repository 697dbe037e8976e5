-- ===== src/Main/Shutdown/Written.antt =====
-- What has come into the output, and what has not yet.
use encarno.Base.{
  if◌then◌else◌, ℕ, ◌≡◌, refl, sym, ap, subst, ◌∙◌, Bool, true, false, Option, none, some, List, [],
  ◌∷◌, ◌++◌, ok, bind-eq-ok,
}
use mathlib.Core.List.{append_assoc, append-nil}
use encarno.Base.Bytes.{Bytes}
use encarno.Core.Output.{OutputItem}
use encarno.Core.Output.Pipe.{Output, push_item, push_items}
use encarno.Main.Shutdown.{
  Handler, awaiting_done, exiting_at_once, Mode, Signals, Process, interrupt, has_controller,
  handle, Step, pushes, writes, writes_late, pushes_closing, closes_torn, closes, takes_signal,
  Reach, stay, then_step, begin,
}
use encarno.Main.Shutdown.Control.{Control, Step-Control}

-- What the goroutine of the output holds.
abbrev hand : Option OutputItem → List OutputItem
hand none = []
hand (some item) = item ∷ []

-- What the results behind those written are, before the files are closed.
abbrev LateInv : Option (List Bytes) → List OutputItem → Option OutputItem → Type 0
LateInv none late in_hand = late ≡ hand in_hand
LateInv (some files) late in_hand = Unit

-- What has been written so far, and what else has been pushed.
pub record Written (marshal : OutputItem → Bytes) (seconds : ℕ → ℕ) (m : Output) (s : Process)
    : Type 0 where
  pub written : List OutputItem
  pub late : List OutputItem
  pub all : s.pushed ≡ written ++ late
  pub output : push_items marshal seconds m written ≡ ok s.output
  pub behind : LateInv s.files late s.in_hand

LateInv-push :
    (files : Option (List Bytes)) (late : List OutputItem) (in_hand : Option OutputItem)
    (item : OutputItem)
    → in_hand ≡ none
    → LateInv files late in_hand
    → LateInv files (late ++ item ∷ []) (some item)
LateInv-push none late in_hand item e h =
    ap (λ (l : List OutputItem). l ++ item ∷ []) (h ∙ ap hand e)
LateInv-push (some files) late in_hand item e h = tt

-- What the handler does concerns no result.
Written-control :
    (marshal : OutputItem → Bytes) (seconds : ℕ → ℕ) (m : Output) (s : Process) (g : Signals)
    (h : Handler) (handling : Bool)
    → Written marshal seconds m s
    → Written marshal seconds m (record s { signals = g; handler = h; handling = handling })
Written-control marshal seconds m s g h handling i = record {
  written = i.written;
  late = i.late;
  all = i.all;
  output = i.output;
  behind = i.behind;
}

module _ (marshal : OutputItem → Bytes) (seconds : ℕ → ℕ) (m : Output) where
  handle-Written :
      (s : Process) → Written marshal seconds m s → Written marshal seconds m (handle s)
  unfolding handle
  handle-Written s i = by_cases s.handling (has_controller s.progress)
    where
      by_cases :
          (a b : Bool)
          → Written marshal seconds m (
              if a
              then record s { handler = exiting_at_once }
              else if b
              then record s {
                handling = true;
                handler = awaiting_done;
                signals = interrupt s.mode s.signals;
              }
              else record s { handling = true; handler = exiting_at_once })
      by_cases true b = Written-control marshal seconds m s s.signals exiting_at_once s.handling i
      by_cases false true =
          Written-control marshal seconds m s (interrupt s.mode s.signals) awaiting_done true i
      by_cases false false = Written-control marshal seconds m s s.signals exiting_at_once true i

  push_items_last :
      (m n o : Output) (items : List OutputItem) (item : OutputItem)
      → push_items marshal seconds m items ≡ ok n
      → push_item marshal seconds n item ≡ ok o
      → push_items marshal seconds m (items ++ item ∷ []) ≡ ok o
  unfolding push_items
  push_items_last m n o [] item e e' = let same : m ≡ n = cc e in rw same (rw e' refl)
  push_items_last m n o (x ∷ items) item e e' =
      let (m1, first, rest) = bind-eq-ok (push_item marshal seconds m x) _ e in
      rw first (push_items_last m1 n o items item rest e')

  Step-Written :
      {s t : Process}
      → Step marshal seconds s t
      → Written marshal seconds m s
      → Written marshal seconds m t
  Step-Written {s = s} (pushes item x p c h) i = record {
    written = i.written;
    late = i.late ++ item ∷ [];
    all =
        ap (λ (l : List OutputItem). l ++ item ∷ []) i.all
        ∙ append_assoc i.written i.late (item ∷ []);
    output = i.output;
    behind = LateInv-push s.files i.late s.in_hand item h i.behind;
  }
  Step-Written {s = s} (pushes_closing item x p h) i = record {
    written = i.written;
    late = i.late ++ item ∷ [];
    all =
        ap (λ (l : List OutputItem). l ++ item ∷ []) i.all
        ∙ append_assoc i.written i.late (item ∷ []);
    output = i.output;
    behind = LateInv-push s.files i.late s.in_hand item h i.behind;
  }
  Step-Written {s = s} (writes item o x h f e) i =
      let behind : i.late ≡ hand s.in_hand =
        subst (λ (files : Option (List Bytes)). LateInv files i.late s.in_hand) f i.behind in
      record {
        written = i.written ++ item ∷ [];
        late = [];
        all = i.all ∙ ap (◌++◌ i.written) (behind ∙ ap hand h) ∙ sym (append-nil _);
        output = push_items_last m s.output o i.written item i.output e;
        behind = subst (λ (files : Option (List Bytes)). LateInv files [] none) (sym f) refl;
      }
  Step-Written {s = s} (writes_late item files x h f) i = record {
    written = i.written;
    late = i.late;
    all = i.all;
    output = i.output;
    behind = subst (λ (files : Option (List Bytes)). LateInv files i.late none) (sym f) tt;
  }
  Step-Written {s = s} (closes x p e) i = record {
    written = i.written;
    late = i.late;
    all = i.all;
    output = i.output;
    behind = tt;
  }
  Step-Written {s = s} (closes_torn files x p e) i = record {
    written = i.written;
    late = i.late;
    all = i.all;
    output = i.output;
    behind = tt;
  }
  Step-Written {s = s} (takes_signal x h) i = handle-Written s i
  Step-Written {s = s} y i = record {
    written = i.written;
    late = i.late;
    all = i.all;
    output = i.output;
    behind = i.behind;
  }

  pub begin-Written : (mode : Mode) → Written marshal seconds m (begin mode m)
  unfolding push_items
  begin-Written mode = record { written = []; late = []; all = refl; output = refl; behind = refl }

  pub Reach-Written :
      {s t : Process}
      → Reach marshal seconds s t
      → Written marshal seconds m s × Control s
      → Written marshal seconds m t × Control t
  Reach-Written stay i = i
  Reach-Written (then_step r x) i =
      let (w, c) = Reach-Written r i in (Step-Written x w, Step-Control marshal seconds x c)
