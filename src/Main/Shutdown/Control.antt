-- ===== src/Main/Shutdown/Control.antt =====
-- What the goroutines of the process have done, and which of them ended it.
use encarno.Base.{
  if◌then◌else◌, ℕ, suc, ◌≡◌, refl, sym, subst, ◌⊎◌, inl, inr, Bool, true, false, Option, none,
  some, List, arith,
}
use encarno.Base.Bytes.{Bytes}
use encarno.Core.Output.{OutputItem}
use encarno.Core.Output.Pipe.{Output, close_outs}
use encarno.Main.Shutdown.{
  Progress, preparing, running, complete, closing, closed, Handler, listening, awaiting_done,
  exiting_at_once, exiting_done, Mode, Signals, Process, interrupt, has_controller, is_exiting,
  handle, Step, makes_controller, pushes, writes, writes_late, completes, pushes_closing,
  starts_closing, closes_torn, closes, returns, takes_signal, is_done, exits, wakes, open_mode,
  closed_mode, begin,
}

-- The loop of the controller has ended.
abbrev pub HasRun : Progress → Type 0
HasRun complete = Unit
HasRun closing = Unit
HasRun closed = Unit
HasRun p = ⊥

abbrev pub HandlerInv : Handler → Progress → Bool → Type 0
HandlerInv listening p handling = handling ≡ false
HandlerInv awaiting_done p handling = has_controller p ≡ true
HandlerInv exiting_at_once p handling = Unit
HandlerInv exiting_done p handling = HasRun p

abbrev pub FilesInv : Progress → Bool → Option (List Bytes) → Output → Type 0
FilesInv closed false files m = files ≡ some (close_outs m)
FilesInv closed true files m = (all : List Bytes) × (files ≡ some all)
FilesInv p torn files m = files ≡ none

abbrev pub DoneInv : Progress → ℕ → Type 0
DoneInv complete n = Unit
DoneInv closing n = Unit
DoneInv closed n = Unit
DoneInv p n = n ≡ 0

abbrev pub ExitInv : Option ℕ → Progress → Handler → Type 0
ExitInv none p h = Unit
ExitInv (some code) p h = ((code ≡ 0) × (p ≡ closed)) ⊎ ((code ≡ 2) × (is_exiting h ≡ true))

-- What the goroutines of the process are up to.
pub record Control (s : Process) : Type 0 where
  pub files : FilesInv s.progress s.torn s.files s.output
  pub handler : HandlerInv s.handler s.progress s.handling
  pub done : DoneInv s.progress s.signals.done
  pub exit : ExitInv s.exit s.progress s.handler

no_exit : (exit : Option ℕ) (p : Progress) (h : Handler) → exit ≡ none → ExitInv exit p h
no_exit none p h e = tt
no_exit (some code) p h e = ground (arith, e)

HandlerInv-next :
    (h : Handler) (p q : Progress) (handling : Bool)
    → has_controller q ≡ true
    → (HasRun p → HasRun q)
    → HandlerInv h p handling
    → HandlerInv h q handling
HandlerInv-next listening p q handling has f i = i
HandlerInv-next awaiting_done p q handling has f i = has
HandlerInv-next exiting_at_once p q handling has f i = tt
HandlerInv-next exiting_done p q handling has f i = f i

FilesInv-output :
    (p : Progress) (torn : Bool) (files : Option (List Bytes)) (m o : Output)
    → files ≡ none
    → FilesInv p torn files m
    → FilesInv p torn files o
FilesInv-output preparing torn files m o e i = i
FilesInv-output running torn files m o e i = i
FilesInv-output complete torn files m o e i = i
FilesInv-output closing torn files m o e i = i
FilesInv-output closed true files m o e i = i
FilesInv-output closed false files m o e i = ground (arith, e, i)

HasRun-done : (p : Progress) (n k : ℕ) → n ≡ suc k → DoneInv p n → HasRun p × DoneInv p k
HasRun-done preparing n k e i = ground (arith, e, i)
HasRun-done running n k e i = ground (arith, e, i)
HasRun-done complete n k e i = (tt, tt)
HasRun-done closing n k e i = (tt, tt)
HasRun-done closed n k e i = (tt, tt)

interrupt_done : (mode : Mode) (g : Signals) → (interrupt mode g).done ≡ g.done
interrupt_done open_mode g = refl
interrupt_done closed_mode g = refl

handle-Control : (s : Process) → s.exit ≡ none → Control s → Control (handle s)
unfolding handle
handle-Control s x i = by_cases s.handling (has_controller s.progress) refl
  where
    by_cases :
        (a b : Bool)
        → has_controller s.progress ≡ b
        → Control (
            if a
            then record s { handler = exiting_at_once }
            else if b
            then record s {
              handling = true;
              handler = awaiting_done;
              signals = interrupt s.mode s.signals;
            }
            else record s { handling = true; handler = exiting_at_once })
    by_cases true b e = record {
      files = i.files;
      handler = tt;
      done = i.done;
      exit = no_exit s.exit s.progress exiting_at_once x;
    }
    by_cases false true e = record {
      files = i.files;
      handler = e;
      done = subst (DoneInv s.progress) (sym (interrupt_done s.mode s.signals)) i.done;
      exit = no_exit s.exit s.progress awaiting_done x;
    }
    by_cases false false e = record {
      files = i.files;
      handler = tt;
      done = i.done;
      exit = no_exit s.exit s.progress exiting_at_once x;
    }

module _ (marshal : OutputItem → Bytes) (seconds : ℕ → ℕ) where
  pub Step-Control : {s t : Process} → Step marshal seconds s t → Control s → Control t
  Step-Control {s = s} (makes_controller x p) i = record {
    files = subst (λ (q : Progress). FilesInv q s.torn s.files s.output) p i.files;
    handler =
        HandlerInv-next s.handler preparing running s.handling refl (λ h. absurd h)
          (subst (λ (q : Progress). HandlerInv s.handler q s.handling) p i.handler);
    done = subst (λ (q : Progress). DoneInv q s.signals.done) p i.done;
    exit = no_exit s.exit running s.handler x;
  }
  Step-Control {s = s} (pushes item x p c h) i = record {
    files = i.files;
    handler = i.handler;
    done = i.done;
    exit = i.exit;
  }
  Step-Control {s = s} (writes item o x h f e) i = record {
    files = FilesInv-output s.progress s.torn s.files s.output o f i.files;
    handler = i.handler;
    done = i.done;
    exit = i.exit;
  }
  Step-Control {s = s} (writes_late item files x h f) i = record {
    files = i.files;
    handler = i.handler;
    done = i.done;
    exit = i.exit;
  }
  Step-Control {s = s} (completes x p) i = record {
    files = subst (λ (q : Progress). FilesInv q s.torn s.files s.output) p i.files;
    handler = HandlerInv-next s.handler s.progress complete s.handling refl (λ h. tt) i.handler;
    done = tt;
    exit = no_exit s.exit complete s.handler x;
  }
  Step-Control {s = s} (pushes_closing item x p h) i = record {
    files =
        subst (λ (q : Progress). FilesInv q true s.files s.output) (sym p)
          (subst (λ (q : Progress). FilesInv q s.torn s.files s.output) p i.files);
    handler = i.handler;
    done = i.done;
    exit = i.exit;
  }
  Step-Control {s = s} (starts_closing x p) i = record {
    files = subst (λ (q : Progress). FilesInv q s.torn s.files s.output) p i.files;
    handler = HandlerInv-next s.handler s.progress closing s.handling refl (λ h. tt) i.handler;
    done = tt;
    exit = no_exit s.exit closing s.handler x;
  }
  Step-Control {s = s} (closes_torn files x p e) i = record {
    files =
        subst (λ (torn : Bool). FilesInv closed torn (some files) s.output) (sym e) (files, refl);
    handler = HandlerInv-next s.handler s.progress closed s.handling refl (λ h. tt) i.handler;
    done = tt;
    exit = no_exit s.exit closed s.handler x;
  }
  Step-Control {s = s} (closes x p e) i = record {
    files =
        subst (λ (torn : Bool). FilesInv closed torn (some (close_outs s.output)) s.output) (sym e)
          refl;
    handler = HandlerInv-next s.handler s.progress closed s.handling refl (λ h. tt) i.handler;
    done = tt;
    exit = no_exit s.exit closed s.handler x;
  }
  Step-Control {s = s} (returns x p) i = record {
    files = i.files;
    handler = i.handler;
    done = i.done;
    exit = inl (refl, p);
  }
  Step-Control {s = s} (takes_signal x h) i = handle-Control s x i
  Step-Control {s = s} (is_done n x h d) i =
      let (has_run, done) = HasRun-done s.progress s.signals.done n d i.done in
      record {
        files = i.files;
        handler = has_run;
        done = done;
        exit = no_exit s.exit s.progress exiting_done x;
      }
  Step-Control {s = s} (exits x h) i = record {
    files = i.files;
    handler = i.handler;
    done = i.done;
    exit = inr (refl, h);
  }
  Step-Control {s = s} (wakes n x p d) i = record {
    files = i.files;
    handler = i.handler;
    done = i.done;
    exit = i.exit;
  }

pub begin-Control : (mode : Mode) (m : Output) → Control (begin mode m)
begin-Control mode m = record { files = refl; handler = refl; done = refl; exit = tt }
