-- ===== src/TraceDetail/Analysis.antt =====
-- The button that hands a trace or a span to an analysis (`handleAIAnalysis` in
-- frontend/src/pages/project/TraceDetail.tsx, once in each panel): its state, and the steps that
-- change it. A step is a click, the end of a run that a click began, or a timer that runs out.
pub mod Settled
use ailens.Base.{ℕ, suc, ◌+◌, String, Bool, true, false, Option, none, some, if◌then◌else◌}

pub record Panel : Type 0 where
  pub is_copying : Bool
  pub copy_success : Bool
  pub copy_error : Option String

-- The panel, and what is still to happen: the runs that have not ended, and the timers set by
-- `setTimeout` that have not run out.
pub record State : Type 0 where
  pub panel : Panel
  pub runs : ℕ
  pub timers : ℕ

abbrev pub opening : State
opening = record {
  panel = record { is_copying = false; copy_success = false; copy_error = none };
  runs = 0;
  timers = 0;
}

-- How a run ends: it has handed its text over, or it throws, with a message for the user.
pub data End : Type 0 where
  succeeded : End
  failed : String → End

-- The first three lines of the `try` block. The button is disabled while a run is on.
unfoldable pub click : State → State
click s = if s.panel.is_copying then s else record {
  panel = record { is_copying = true; copy_success = false; copy_error = none };
  runs = s.runs + 1;
  timers = s.timers;
}

abbrev pub ended : End → Panel → Panel
ended succeeded p = record p { is_copying = false; copy_success = true }
ended (failed message) p = record p { is_copying = false; copy_error = some message }

abbrev pub timers_after : End → ℕ → ℕ
timers_after succeeded n = suc n
timers_after (failed message) n = n

-- The end of a run, of which there is one more than `runs`.
unfoldable pub finish : End → Panel → ℕ → ℕ → State
finish e p runs timers = record { panel = ended e p; runs = runs; timers = timers_after e timers }

-- `setCopySuccess(false)`
unfoldable pub time_out : Panel → ℕ → ℕ → State
time_out p runs timers = record {
  panel = record p { copy_success = false };
  runs = runs;
  timers = timers;
}

-- What happens without the user.
pub data Quiet : State → State → Type 0 where
  ending :
      (e : End) (p : Panel) (runs timers : ℕ)
      → Quiet (record { panel = p; runs = suc runs; timers = timers }) (finish e p runs timers)
  timing_out :
      (p : Panel) (runs timers : ℕ)
      → Quiet (record { panel = p; runs = runs; timers = suc timers }) (time_out p runs timers)

pub data Step : State → State → Type 0 where
  clicking : (s : State) → Step s (click s)
  quiet : {s t : State} → Quiet s t → Step s t

pub data Reachable : State → Type 0 where
  initial : Reachable opening
  next : {s t : State} → Reachable s → Step s t → Reachable t
