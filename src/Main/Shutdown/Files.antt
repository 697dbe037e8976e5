-- ===== src/Main/Shutdown/Files.antt =====
-- What the files hold when the process has ended.
use encarno.Base.{
  if◌then◌else◌, ℕ, ◌≡◌, refl, ap, subst, ◌∙◌, ◌⊎◌, Bool, true, false, none, some, List, arith,
}
use encarno.Base.Bytes.{Bytes}
use encarno.Core.Output.{OutputItem}
use encarno.Core.Output.Pipe.{Output, close_outs}
use encarno.Main.Shutdown.{
  Progress, running, Handler, listening, awaiting_done, exiting_at_once, Mode, Process, interrupt,
  has_controller, handle, Step, completes, takes_signal, is_done, exits, Reach, stay, then_step,
  begin,
}
use encarno.Main.Shutdown.Control.{HasRun, Control, begin-Control, FilesInv, HandlerInv}
use encarno.Main.Shutdown.Written.{Written, begin-Written, Reach-Written}

-- How the process ends: with the code of `main`, or with that of the handler.
pub data Outcome (s : Process) : ℕ → Type 0 where
  returned :
      (files : List Bytes)
      → s.files ≡ some files
      → (s.torn ≡ true) ⊎ (files ≡ close_outs s.output)
      → Outcome s 0
  interrupted :
      (s.handler ≡ exiting_at_once) ⊎ HasRun s.progress
      → (s.files ≡ none) ⊎ (s.torn ≡ true) ⊎ (s.files ≡ some (close_outs s.output))
      → Outcome s 2

module _ (marshal : OutputItem → Bytes) (seconds : ℕ → ℕ) where
  handle_waits :
      (s : Process)
      → s.handling ≡ false
      → s.progress ≡ running
      → handle s ≡ record s {
        handling = true;
        handler = awaiting_done;
        signals = interrupt s.mode s.signals;
      }
  unfolding handle
  handle_waits s e p =
      let at_once = record s { handling = true; handler = exiting_at_once } in
      let waits = record s {
        handling = true;
        handler = awaiting_done;
        signals = interrupt s.mode s.signals;
      } in
      ap
        (λ (b : Bool).
          if b
          then record s { handler = exiting_at_once }
          else if has_controller s.progress
          then waits
          else at_once)
        e
      ∙ ap (λ (q : Progress). if has_controller q then waits else at_once) p

  -- A process that is interrupted while its controller runs can end with the output as it is then:
  -- the files are not closed, and what waits in their buffers is lost.
  pub Reach-unclosed :
      (mode : Mode) (m : Output) (s : Process)
      → Reach marshal seconds (begin mode m) s
      → s.exit ≡ none
      → s.progress ≡ running
      → s.handler ≡ listening
      → (t : Process) × Reach marshal seconds s t
        × (t.exit ≡ some 2)
        × (t.files ≡ none)
        × (t.output ≡ s.output)
        × (t.pushed ≡ s.pushed)
  Reach-unclosed mode m s r x p h =
      let (w, c) =
        Reach-Written marshal seconds m r
          (begin-Written marshal seconds m mode, begin-Control mode m) in
      let free = subst (λ (a : Handler). HandlerInv a s.progress s.handling) h c.handler in
      let unclosed = subst (λ (q : Progress). FilesInv q s.torn s.files s.output) p c.files in
      let waits =
        then_step stay
          (subst (Step marshal seconds s) (handle_waits s free p) (takes_signal x h)) in
      (
        _,
        then_step
            (then_step (then_step waits (completes x p))
              (is_done (interrupt s.mode s.signals).done x refl (omega arith)))
            (exits x refl),
        refl,
        unclosed,
        refl,
        refl,
      )
