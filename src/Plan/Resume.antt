-- ===== src/Plan/Resume.antt =====
-- internal/plan/exec.go and afterStep of run.go: the entries into a plan's run, at its start and after
-- a suspension. The plan is the version that the session pins, `none` for a session that pins none.
use nexus_agent_demo.Prelude.{
  ℕ, suc, Bool, true, false, Option, none, some, List, [], ◌∷◌, if◌then◌else◌,
}
use nexus_agent_demo.Prelude.Float.{float_of}
use nexus_agent_demo.Prelude.Text.{Text}
use nexus_agent_demo.Prelude.Result.{Result, ok, err}
use nexus_agent_demo.Plan.Predicate.{Value, number_value}
use nexus_agent_demo.Plan.Schema.{
  ApprovalGateConfig, DelegateFanoutConfig, InputRequestConfig, Plan, Step, StepKind, step_agent,
  step_approval_gate, step_by_id, step_input_request,
}
use nexus_agent_demo.Plan.Replay.{Bindings, State, plan_started, replay_state, start_state}
use nexus_agent_demo.Plan.Steps.{
  Dispatched, ExecError, Outcome, Services, Session, append, binds, continue_agent_step, failed,
  nil_panic, one_binding, running, suspends,
}
use nexus_agent_demo.Plan.Run.{Ran, exit_step_and_transition, leave, ran, run, stopped, waits}

-- Why a run is not taken up again, or the run.
pub data Resumed : Type 0 where
  not_plan_driven no_step_in_progress no_delegations not_a_fanout status_not_set : Resumed
  step_gone use_resume_gate : Text → Resumed
  cannot_read : Resumed
  -- the call returns nil, with nothing done
  not_yet : Resumed
  resumed : Ran → Resumed

-- Delegation.Status
pub data DelegationStatus : Type 0 where
  pending returned reaped bound_exceeded : DelegationStatus

abbrev pub is_agent : StepKind → Bool
is_agent step_agent = true
is_agent _ = false

abbrev gate_var : Option ApprovalGateConfig → Option Text
gate_var none = none
gate_var (some c) = some c.result_var

abbrev input_var : Option InputRequestConfig → Option Text
input_var none = none
input_var (some c) = some c.result_var

abbrev pub result_var_at : StepKind → Step → Option Text
result_var_at step_approval_gate s = gate_var s.approval_gate
result_var_at step_input_request s = input_var s.input_request
result_var_at _ s = some []

-- `none` where a nil configuration is read.
unfoldable pub gate_result_var : Step → Option Text
gate_result_var s = result_var_at s.kind s

abbrev count_returned : List DelegationStatus → ℕ
count_returned [] = 0
count_returned (returned ∷ members) = suc (count_returned members)
count_returned (m ∷ members) = count_returned members

abbrev any_pending : List DelegationStatus → Bool
any_pending [] = false
any_pending (pending ∷ members) = true
any_pending (m ∷ members) = any_pending members

module _ (svc : Services) where
  -- The first unit of work: the event and the status.
  unfoldable pub started : Plan → ℕ → Session → Result ExecError Session → Ran
  unfolding run
  started p fuel sess (err e) = ran sess start_state (stopped e)
  started p fuel sess (ok sess') =
      run svc p fuel (record sess' { status = running }) start_state p.start_step

  unfoldable pub start : Plan → ℕ → Session → Ran
  unfolding started append
  start p fuel sess = started p fuel sess (append svc sess (plan_started p.plan_id))

  -- Finish the step that was in progress, and go on. The event log is not read again.
  unfoldable pub after_step : Plan → ℕ → Session → State → Step → Bindings → Ran
  unfolding exit_step_and_transition run
  after_step p fuel sess st step bindings =
      leave (run svc p fuel) (exit_step_and_transition svc sess st step bindings)

  -- load: the state is rebuilt from the log on each call.
  unfoldable pub load : Option Plan → Session → (Plan → State → Resumed) → Resumed
  unfolding replay_state
  load none sess k = if svc.reads sess.log then not_plan_driven else cannot_read
  load (some p) sess k = if svc.reads sess.log then k p (replay_state sess.log) else cannot_read

  abbrev found_step : Text → Option Step → (Step → Resumed) → Resumed
  found_step id none k = step_gone id
  found_step id (some step) k = k step

  -- The step in progress.
  unfoldable pub in_progress : Plan → Text → (Step → Resumed) → Resumed
  unfolding step_by_id
  in_progress p [] k = no_step_in_progress
  in_progress p (c ∷ id) k = found_step (c ∷ id) (step_by_id p (c ∷ id)) k

  unfoldable pub after_agent : Plan → ℕ → State → Step → Session → Outcome → Ran
  unfolding after_step
  after_agent p fuel st step sess (failed e) = ran sess st (stopped e)
  after_agent p fuel st step sess suspends = ran sess st waits
  after_agent p fuel st step sess (binds bindings) = after_step p fuel sess st step bindings

  unfoldable pub go_on : Plan → ℕ → State → Step → Dispatched → Resumed
  unfolding after_agent
  go_on p fuel st step d = resumed (after_agent p fuel st step d.session d.outcome)

  unfoldable pub resume : Option Plan → ℕ → Session → Resumed
  unfolding load in_progress go_on continue_agent_step
  resume plan fuel sess = load plan sess λ p st. in_progress p st.current_step λ step.
      if is_agent step.kind
      then go_on p fuel st step (continue_agent_step svc sess step)
      else use_resume_gate step.id

  -- The unit of work that sets the status to running, then the step's end.
  unfoldable pub running_again : Plan → ℕ → Session → State → Step → Bindings → Resumed
  unfolding after_step
  running_again p fuel sess st step bindings =
      if svc.sets_status sess.log
      then resumed (after_step p fuel (record sess { status = running }) st step bindings)
      else status_not_set

  unfoldable pub with_result : Plan → ℕ → Session → State → Step → Value → Option Text → Resumed
  unfolding running_again
  with_result p fuel sess st step value none = resumed (ran sess st (stopped nil_panic))
  with_result p fuel sess st step value (some x) =
      running_again p fuel sess st step (one_binding x value)

  unfoldable pub resume_gate : Option Plan → ℕ → Session → Value → Resumed
  unfolding load in_progress with_result gate_result_var
  resume_gate plan fuel sess value = load plan sess λ p st.
      in_progress p st.current_step
        λ step. with_result p fuel sess st step value (gate_result_var step)

  unfoldable pub with_fanout_config :
      Plan → ℕ → Session → State → ℕ → Step → Option DelegateFanoutConfig → Resumed
  unfolding running_again number_value float_of
  with_fanout_config p fuel sess st n step none = not_a_fanout
  with_fanout_config p fuel sess st n step (some c) =
      running_again p fuel sess st step (one_binding c.completion_var (number_value (float_of n)))

  unfoldable pub fanout_step : Plan → ℕ → Session → State → ℕ → Option Step → Resumed
  unfolding with_fanout_config
  fanout_step p fuel sess st n none = not_a_fanout
  fanout_step p fuel sess st n (some step) =
      with_fanout_config p fuel sess st n step step.delegate_fanout

  unfoldable pub resolve_at : Plan → ℕ → Session → State → ℕ → Text → Resumed
  unfolding fanout_step step_by_id
  resolve_at p fuel sess st n [] = no_step_in_progress
  resolve_at p fuel sess st n (c ∷ id) = fanout_step p fuel sess st n (step_by_id p (c ∷ id))

  -- `members` are the fan-out's delegations, `sess` their parent's session.
  unfoldable pub resolve_fanout : Option Plan → ℕ → Session → List DelegationStatus → Resumed
  unfolding load resolve_at
  resolve_fanout plan fuel sess [] = no_delegations
  resolve_fanout plan fuel sess (m ∷ members) =
      if any_pending (m ∷ members)
      then not_yet
      else load plan sess
          λ p st. resolve_at p fuel sess st (count_returned (m ∷ members)) st.current_step
