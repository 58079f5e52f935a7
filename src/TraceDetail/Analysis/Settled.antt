-- ===== src/TraceDetail/Analysis/Settled.antt =====
-- What holds of the button in every state that it reaches, and that it comes to rest.
use ailens.Base.{
  ℕ, zero, suc, ◌+◌, ◌*◌, ◌<◌, true, false, none, if◌then◌else◌, ◌≡◌, refl, arith, Bool-cases, inl,
  inr,
}
use ailens.TraceDetail.Analysis.{
  Panel, State, succeeded, failed, click, finish, time_out, Quiet, ending, timing_out, clicking,
  quiet, Reachable, initial, next, opening,
}

-- One run is on while the button says so, and nothing is reported meanwhile; a success is not
-- reported beside an error, and a timer will take it away.
pub record IsCoherent (s : State) : Type 0 where
  pub one_run : s.runs ≡ (if s.panel.is_copying then 1 else 0)
  pub no_success : s.panel.is_copying ≡ true → s.panel.copy_success ≡ false
  pub no_error : s.panel.is_copying ≡ true → s.panel.copy_error ≡ none
  pub success_alone : s.panel.copy_success ≡ true → s.panel.copy_error ≡ none
  pub success_ends : s.panel.copy_success ≡ true → 0 < s.timers

opening-IsCoherent : IsCoherent opening
opening-IsCoherent = record {
  one_run = refl;
  no_success = λ h. refl;
  no_error = λ h. refl;
  success_alone = λ h. refl;
  success_ends = λ h. ground arith;
}

click-IsCoherent : (s : State) → IsCoherent s → IsCoherent (click s)
unfolding click
click-IsCoherent s c = elim (Bool-cases s.panel.is_copying) [
  | inl on ↦ simp on c
  | inr off ↦ rw off record {
    one_run = ground (arith, c.one_run);
    no_success = λ h. refl;
    no_error = λ h. refl;
    success_alone = λ h. ground arith;
    success_ends = λ h. ground arith;
  }
]

is_copying_of_run :
    (p : Panel) (runs timers : ℕ)
    → IsCoherent (record { panel = p; runs = suc runs; timers = timers })
    → (p.is_copying ≡ true) × (runs ≡ 0)
is_copying_of_run p runs timers c = elim (Bool-cases p.is_copying) [
  | inl on ↦ (on, ground (arith, c.one_run))
  | inr off ↦ ground (arith, c.one_run)
]

Quiet-IsCoherent : {s t : State} → Quiet s t → IsCoherent s → IsCoherent t
unfolding finish time_out
Quiet-IsCoherent (ending succeeded p runs timers) c =
    let (on, last) = is_copying_of_run p runs timers c in
    record {
      one_run = last;
      no_success = λ h. ground arith;
      no_error = λ h. ground arith;
      success_alone = λ h. c.no_error on;
      success_ends = λ h. ground arith;
    }
Quiet-IsCoherent (ending (failed m) p runs timers) c =
    let (on, last) = is_copying_of_run p runs timers c in
    let quiet = c.no_success on in
    record {
      one_run = last;
      no_success = λ h. ground arith;
      no_error = λ h. ground arith;
      success_alone = λ h. ground (arith, quiet, h);
      success_ends = λ h. ground (arith, quiet, h);
    }
Quiet-IsCoherent (timing_out p runs timers) c = record {
  one_run = c.one_run;
  no_success = λ h. refl;
  no_error = c.no_error;
  success_alone = λ h. ground arith;
  success_ends = λ h. ground arith;
}

pub Reachable-IsCoherent : {s : State} → Reachable s → IsCoherent s
Reachable-IsCoherent initial = opening-IsCoherent
Reachable-IsCoherent (next r (clicking s)) = click-IsCoherent s (Reachable-IsCoherent r)
Reachable-IsCoherent (next r (quiet q)) = Quiet-IsCoherent q (Reachable-IsCoherent r)

-- What is still to happen: a run may leave a timer behind.
abbrev pub pending : State → ℕ
pending s = 2 * s.runs + s.timers

Quiet-pending : {s t : State} → Quiet s t → pending t < pending s
unfolding finish time_out
Quiet-pending (ending succeeded p runs timers) = omega arith
Quiet-pending (ending (failed m) p runs timers) = omega arith
Quiet-pending (timing_out p runs timers) = omega arith

step_of_pending :
    (p : Panel) (runs timers : ℕ)
    → 0 < 2 * runs + timers
    → (t : State) × Quiet (record { panel = p; runs = runs; timers = timers }) t
step_of_pending p (suc runs) timers h =
    (finish succeeded p runs timers, ending succeeded p runs timers)
step_of_pending p zero (suc timers) h = (time_out p zero timers, timing_out p zero timers)
step_of_pending p zero zero h = ground arith

-- In a reachable state one run is on exactly while the button says so, and no success is reported
-- beside an error; and the button comes to rest without the user: as long as something is pending it
-- can happen, whatever happens leaves less pending, and when nothing is, the button neither waits
-- nor reports a success.
pub Reachable-Settles :
    {s : State}
    → Reachable s
    → IsCoherent s
      × (0 < pending s → (t : State) × Quiet s t)
      × ((t : State) → Quiet s t → pending t < pending s)
      × (pending s ≡ 0 → (s.panel.is_copying ≡ false) × (s.panel.copy_success ≡ false))
Reachable-Settles {s = s} r =
    let c = Reachable-IsCoherent r in
    (
      c,
      step_of_pending s.panel s.runs s.timers,
      λ t q. Quiet-pending q,
      λ h. (
        ground (arith, c.one_run, Bool-cases s.panel.is_copying),
        ground (arith, c.success_ends, Bool-cases s.panel.copy_success),
      ),
    )
