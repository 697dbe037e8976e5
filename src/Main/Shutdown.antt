-- ===== src/Main/Shutdown.antt =====
-- cmd/encarno/main.go: how the process ends, by itself or by a signal; `Interrupt` of
-- pkg/scenario/open.go and closed.go; and the goroutine of the output in pkg/core/output.go.
-- A step is one of one goroutine. A panic ends the process with no step. Calls of `os.Exit` and the
-- return of `main` give the exit code.
pub mod Control
pub mod Files
mod Tests
pub mod Written
use encarno.Base.{
  ℕ, suc, ◌+◌, ◌≡◌, Bool, true, false, Option, none, some, List, [], ◌∷◌, ◌++◌, if◌then◌else◌, ok,
}
use encarno.Base.Bytes.{Bytes}
use encarno.Core.Output.{OutputItem}
use encarno.Core.Output.Pipe.{Output, push_item, close_outs}

-- `Run`: the controller is made, runs, and has put its signal into `done`; then the deferred `Close`
-- is closing, or has closed, the output.
pub data Progress : Type 0 where
  preparing : Progress
  running : Progress
  complete : Progress
  closing : Progress
  closed : Progress

-- The goroutine of `handleSignals`, which takes one signal.
pub data Handler : Type 0 where
  listening : Handler
  awaiting_done : Handler
  exiting_at_once : Handler
  exiting_done : Handler

pub data Mode : Type 0 where
  open_mode : Mode
  closed_mode : Mode

-- The flag and the two channels of a scenario; the numbers are of the signals in them.
pub record Signals : Type 0 where
  pub interrupted : Bool
  pub interrupt : ℕ
  pub done : ℕ

-- The goroutine of the output holds at most one result, `in_hand`. `pushed` are the results that the
-- workers have pushed so far, and `files` what the files hold when they are all closed. `Close` takes
-- no lock: a result that the goroutine holds meanwhile can come into some files and not into
-- others, or in part. `torn` is no state of the program; it tells whether there was one.
pub record Process : Type 0 where
  pub mode : Mode
  pub signals : Signals
  pub progress : Progress
  pub handler : Handler
  pub handling : Bool
  pub output : Output
  pub in_hand : Option OutputItem
  pub pushed : List OutputItem
  pub torn : Bool
  pub files : Option (List Bytes)
  pub exit : Option ℕ

-- `OpenWorkload.Interrupt` and `ClosedWorkload.Interrupt`, up to the wait for `done`.
abbrev pub interrupt_open : Signals → Signals
interrupt_open s = record s { interrupted = true }

abbrev pub interrupt_closed : Signals → Signals
interrupt_closed s = record s { interrupt = s.interrupt + 1 }

abbrev pub interrupt : Mode → Signals → Signals
interrupt open_mode = interrupt_open
interrupt closed_mode = interrupt_closed

-- `controller != nil`
abbrev pub has_controller : Progress → Bool
has_controller preparing = false
has_controller p = true

abbrev pub is_closing : Progress → Bool
is_closing closing = true
is_closing p = false

abbrev pub has_item : Option OutputItem → Bool
has_item none = false
has_item (some item) = true

abbrev pub is_exiting : Handler → Bool
is_exiting exiting_at_once = true
is_exiting exiting_done = true
is_exiting h = false

-- What the handler does when a signal comes.
unfoldable pub handle : Process → Process
handle s =
    if s.handling
    then record s { handler = exiting_at_once }
    else if has_controller s.progress
    then record s { handling = true; handler = awaiting_done; signals = interrupt s.mode s.signals }
    else record s { handling = true; handler = exiting_at_once }

-- After the files are closed, what is pushed reaches none of them.
module _ (marshal : OutputItem → Bytes) (seconds : ℕ → ℕ) where
  pub data Step (s : Process) : Process → Type 0 where
    makes_controller :
        s.exit ≡ none → s.progress ≡ preparing → Step s (record s { progress = running })
    pushes :
        (item : OutputItem)
        → s.exit ≡ none
        → has_controller s.progress ≡ true
        → is_closing s.progress ≡ false
        → s.in_hand ≡ none
        → Step s (record s { in_hand = some item; pushed = s.pushed ++ item ∷ [] })
    pushes_closing :
        (item : OutputItem)
        → s.exit ≡ none
        → s.progress ≡ closing
        → s.in_hand ≡ none
        → Step s (record s { in_hand = some item; pushed = s.pushed ++ item ∷ []; torn = true })
    writes :
        (item : OutputItem) (m : Output)
        → s.exit ≡ none
        → s.in_hand ≡ some item
        → s.files ≡ none
        → push_item marshal seconds s.output item ≡ ok m
        → Step s (record s { in_hand = none; output = m })
    writes_late :
        (item : OutputItem) (files : List Bytes)
        → s.exit ≡ none
        → s.in_hand ≡ some item
        → s.files ≡ some files
        → Step s (record s { in_hand = none })
    completes :
        s.exit ≡ none
        → s.progress ≡ running
        → Step s (record s {
          progress = complete;
          signals = record s.signals { done = s.signals.done + 1 };
        })
    starts_closing :
        s.exit ≡ none
        → s.progress ≡ complete
        → Step s (record s { progress = closing; torn = has_item s.in_hand })
    closes_torn :
        (files : List Bytes)
        → s.exit ≡ none
        → s.progress ≡ closing
        → s.torn ≡ true
        → Step s (record s { progress = closed; files = some files })
    closes :
        s.exit ≡ none
        → s.progress ≡ closing
        → s.torn ≡ false
        → Step s (record s { progress = closed; files = some (close_outs s.output) })
    returns : s.exit ≡ none → s.progress ≡ closed → Step s (record s { exit = some 0 })
    takes_signal : s.exit ≡ none → s.handler ≡ listening → Step s (handle s)
    is_done :
        (n : ℕ)
        → s.exit ≡ none
        → s.handler ≡ awaiting_done
        → s.signals.done ≡ suc n
        → Step s (record s { handler = exiting_done; signals = record s.signals { done = n } })
    exits : s.exit ≡ none → is_exiting s.handler ≡ true → Step s (record s { exit = some 2 })
    wakes :
        (n : ℕ)
        → s.exit ≡ none
        → s.progress ≡ running
        → s.signals.interrupt ≡ suc n
        → Step s (record s { signals = record s.signals { interrupt = n } })

  pub data Reach (s : Process) : Process → Type 0 where
    stay : Reach s s
    then_step : {t u : Process} → Reach s t → Step t u → Reach s u

abbrev pub begin : Mode → Output → Process
begin mode output = record {
  mode = mode;
  signals = record { interrupted = false; interrupt = 0; done = 0 };
  progress = preparing;
  handler = listening;
  handling = false;
  output = output;
  in_hand = none;
  pushed = [];
  torn = false;
  files = none;
  exit = none;
}
