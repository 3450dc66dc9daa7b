-- ===== src/Plan/Run.antt =====
-- internal/plan/run.go: the executor's loop over the steps of a plan.
pub mod Replayed
pub mod Budget
pub mod Ends
use nexus_agent_demo.Prelude.{
  ℕ, zero, suc, ◌+◌, Bool, true, false, Option, none, some, List, [], ◌∷◌, ◌++◌, map, if◌then◌else◌,
}
use nexus_agent_demo.Prelude.Int.{ℤ, pos, negsuc, ◌*ℤ◌, leb_ℤ}
use nexus_agent_demo.Prelude.Float.{float_of}
use nexus_agent_demo.Prelude.Text.{Text, codes}
use nexus_agent_demo.Prelude.Result.{Result, ok, err, Check, refuse, ◌then◌}
use nexus_agent_demo.Cost.Money.{Money, int64}
use nexus_agent_demo.Plan.Predicate.{
  Context, EvalError, Predicate, Value, eval, number_value, string_value,
}
use nexus_agent_demo.Plan.Schema.{
  AgentStepConfig, AmountError, ApprovalGateConfig, DelegateFanoutConfig, InputRequestConfig,
  LoopConfig, Plan, PreauthConfig, Step, StepKind, Transition, parse_ceiling, step_agent,
  step_approval_gate, step_by_id, step_condition, step_delegate_fanout, step_input_request,
  step_loop, step_other, step_preauth, usd,
}
use nexus_agent_demo.Plan.Replay.{
  Bindings, Event, OtherEvent, State, bind_all, content, count_entry, other_event, plan_completed,
  step_entered, step_exited, transition_fired, user_message,
}
use nexus_agent_demo.Plan.Steps.{
  Services, Session, SessionStatus, running, suspended, completed, ExecError, Outcome, failed,
  suspends, binds, Dispatched, append, continue_agent_step, dispatched, has, one_binding,
  run_agent_step, run_approval_gate, run_delegate_fanout, run_input_request, run_preauth,
  step_not_found, iterations_exceeded, unrecognized_step_kind, store_failed, nil_panic,
  predicate_failed,
}

-- step.Loop's bound against the entries so far; only a loop has one.
abbrev pub check_bound : StepKind → Option LoopConfig → Text → ℕ → Check ExecError
check_bound step_loop none id n = err nil_panic
check_bound step_loop (some c) id n =
    refuse (leb_ℤ c.max_iterations (pos n)) (iterations_exceeded id)
check_bound _ c id n = ok tt

abbrev pub at_transition :
    Result EvalError Bool
    → Text
    → Option Predicate
    → Result ExecError (Text × Option Predicate)
    → Result ExecError (Text × Option Predicate)
at_transition (err e) to when rest = err (predicate_failed e)
at_transition (ok true) to when rest = ok (to, when)
at_transition (ok false) to when rest = rest

unfoldable pub take_transition :
    Text
    → Option Predicate
    → Context
    → Result ExecError (Text × Option Predicate)
    → Result ExecError (Text × Option Predicate)
unfolding eval
take_transition to none vars rest = ok (to, none)
take_transition to (some p) vars rest = at_transition (eval vars p) to (some p) rest

-- The first transition that has no predicate or one that holds.
unfoldable pub evaluate_transitions :
    List Transition → Context → Result ExecError (Text × Option Predicate)
unfolding take_transition
evaluate_transitions [] vars = ok ([], none)
evaluate_transitions (t ∷ ts) vars = take_transition t.to t.when vars (evaluate_transitions ts vars)

unfoldable pub loop_bindings : Option LoopConfig → ℕ → Outcome
unfolding float_of number_value
loop_bindings none n = failed nil_panic
loop_bindings (some c) n = binds (one_binding c.counter_var (number_value (float_of n)))

-- The session and the state after a step's exit, with the next step's name or an error.
pub record Exited : Type 0 where
  pub session : Session
  pub state : State
  pub next : Result ExecError Text

abbrev pub exited : Session → State → Result ExecError Text → Exited
exited sess st next = record { session = sess; state = st; next = next }

-- How `run` ends: `finished` and `waits` where it returns nil, at the plan's end and at a suspension.
pub data End : Type 0 where
  finished waits out_of_fuel : End
  stopped : ExecError → End

pub record Ran : Type 0 where
  pub session : Session
  pub state : State
  pub end : End

abbrev pub ran : Session → State → End → Ran
ran sess st end = record { session = sess; state = st; end = end }

-- The rest of the run, from a step's name.
abbrev pub Continue : Type 0
Continue = Session → State → Text → Ran

abbrev pub after_next : Continue → Session → State → Result ExecError Text → Ran
after_next rest sess st (err e) = ran sess st (stopped e)
after_next rest sess st (ok next) = rest sess st next

abbrev pub leave : Continue → Exited → Ran
leave rest x = after_next rest x.session x.state x.next

unfoldable pub entered : Step → State → State
unfolding count_entry
entered step st = record st {
  current_step = step.id;
  iterations = count_entry step.id st.iterations;
}

module _ (svc : Services) where
  unfoldable pub dispatch_kind : StepKind → Session → Step → ℕ → Dispatched
  unfolding run_agent_step loop_bindings run_delegate_fanout run_approval_gate run_preauth
      run_input_request
  dispatch_kind step_agent sess step n = run_agent_step svc sess step
  dispatch_kind step_condition sess step n = dispatched sess (binds [])
  dispatch_kind step_loop sess step n = dispatched sess (loop_bindings step.loop n)
  dispatch_kind step_delegate_fanout sess step n = run_delegate_fanout svc sess step
  dispatch_kind step_approval_gate sess step n = run_approval_gate svc sess step
  dispatch_kind step_preauth sess step n = run_preauth svc sess step
  dispatch_kind step_input_request sess step n = run_input_request svc sess step
  dispatch_kind (step_other k) sess step n = dispatched sess (failed (unrecognized_step_kind k))

  unfoldable pub dispatch : Session → Step → ℕ → Dispatched
  unfolding dispatch_kind
  dispatch sess step n = dispatch_kind step.kind sess step n

  -- The unit of work that records the plan's end.
  abbrev pub complete : State → Result ExecError Session → Session → Exited
  complete st (err e) sess = exited sess st (err e)
  complete st (ok sess') sess = exited (record sess' { status = completed }) st (ok [])

  unfoldable pub after_transition : State → Text → Result ExecError Session → Session → Exited
  unfolding append
  after_transition st to (err e) sess = exited sess st (err e)
  after_transition st [] (ok sess') sess = complete st (append svc sess' plan_completed) sess'
  after_transition st (c ∷ to) (ok sess') sess = exited sess' st (ok (c ∷ to))

  unfoldable pub go_to :
      Session → State → Text → Result ExecError (Text × Option Predicate) → Exited
  unfolding after_transition
  go_to sess st from (err e) = exited sess st (err e)
  go_to sess st from (ok (to, pred)) =
      after_transition st to (append svc sess (transition_fired from to pred)) sess

  unfoldable pub after_exit : State → Step → Bindings → Result ExecError Session → Session → Exited
  unfolding go_to evaluate_transitions bind_all
  after_exit st step bindings (err e) sess = exited sess st (err e)
  after_exit st step bindings (ok sess') sess =
      let vars = bind_all bindings st.vars in
      go_to sess' (record st { vars = vars }) step.id (evaluate_transitions step.transitions vars)

  unfoldable pub exit_step_and_transition : Session → State → Step → Bindings → Exited
  unfolding after_exit append
  exit_step_and_transition sess st step bindings =
      after_exit st step bindings (append svc sess (step_exited step.id bindings)) sess

  unfoldable pub after_dispatch : Continue → State → Step → Session → Outcome → Ran
  unfolding exit_step_and_transition
  after_dispatch rest st step sess (failed e) = ran sess st (stopped e)
  after_dispatch rest st step sess suspends = ran sess st waits
  after_dispatch rest st step sess (binds bindings) =
      leave rest (exit_step_and_transition sess st step bindings)

  unfoldable pub after_enter : Continue → State → Step → Result ExecError Session → Session → Ran
  unfolding dispatch after_dispatch
  after_enter rest st step (err e) sess = ran sess st (stopped e)
  after_enter rest st step (ok sess') sess =
      let d = dispatch sess' step (count_entry step.id st.iterations step.id) in
      after_dispatch rest (entered step st) step d.session d.outcome

  unfoldable pub within_bound : Continue → Session → State → Step → Check ExecError → Ran
  unfolding after_enter append
  within_bound rest sess st step (err e) = ran sess st (stopped e)
  within_bound rest sess st step (ok u) =
      after_enter rest st step (append svc sess (step_entered step.id)) sess

  unfoldable pub run_step : Continue → Session → State → Text → Option Step → Ran
  unfolding within_bound
  run_step rest sess st id none = ran sess st (stopped (step_not_found id))
  run_step rest sess st id (some step) =
      within_bound rest sess st step
        (check_bound step.kind step.loop step.id (st.iterations step.id))

  -- The loop, for at most `fuel` steps.
  unfoldable pub run : Plan → ℕ → Session → State → Text → Ran
  unfolding run_step step_by_id
  run p fuel sess st [] = ran sess st finished
  run p zero sess st (c ∷ id) = ran sess st out_of_fuel
  run p (suc fuel) sess st (c ∷ id) = run_step (run p fuel) sess st (c ∷ id) (step_by_id p (c ∷ id))
