-- ===== src/Plan/Run/Replayed/Dispatch.antt =====
-- What a step's dispatch records is no event of the plan's.
use nexus_agent_demo.Prelude.{
  ℕ, zero, suc, ◌≡◌, refl, ap, ◌∙◌, inl, inr, Bool, true, false, Option, none, some, List, [], ◌∷◌,
  ◌++◌, map, arith, if◌then◌else◌, Bool-cases, Option-cases,
}
use nexus_agent_demo.Prelude.Result.{Result, ok, err, Result-cases}
use nexus_agent_demo.Cost.Money.{Money}
use nexus_agent_demo.Plan.Schema.{
  AgentStepConfig, AmountError, InputRequestConfig, DelegateFanoutConfig, Step, StepKind,
  parse_ceiling, step_agent, step_approval_gate, step_condition, step_delegate_fanout,
  step_input_request, step_loop, step_other, step_preauth,
}
use nexus_agent_demo.Plan.Replay.{
  Event, OtherEvent, other_event, replay_event, replay_from, replay_from-append, replay_from-other,
  replay_state, start_state, user_message,
}
use nexus_agent_demo.Plan.Steps.{
  ExecError, Reply, Services, Session, add_others, append, after_kernel, continue_agent_step,
  run_agent_step, run_approval_gate, run_delegate_fanout, run_input_request, run_preauth,
  spawn_children, suspend, suspend_after, kernel_error, left_as, KernelEnd, cohort_ceiling,
  per_child, tool_id_of, has, children, run_agent, continue_if, spawn_after, fan_out, with_fanout,
  ask_approval, request_input, approval_failed, input_failed, Dispatched, dispatched, failed,
  not_wired,
}
use nexus_agent_demo.Plan.Run.{dispatch, dispatch_kind}

-- The two logs rebuild one state.
abbrev pub IsSame : Session → Session → Type 0
IsSame sess sess' = replay_state sess'.log ≡ replay_state sess.log

pub add_others-IsSame : (sess : Session) (es : List OtherEvent) → IsSame sess (add_others sess es)
unfolding replay_state
add_others-IsSame sess es =
    replay_from-append start_state sess.log (map other_event es)
    ∙ replay_from-other (replay_from start_state sess.log) es

module _ (svc : Services) where
  pub append-replay :
      (sess : Session) (e : Event) (sess' : Session)
      → append svc sess e ≡ ok sess'
      → replay_state sess'.log ≡ replay_event (replay_state sess.log) e
  unfolding append replay_state replay_from
  append-replay sess e sess' h = elim (Bool-cases (svc.accepts sess.log e)) [
    | inl a ↦
        (let q : sess'.log ≡ sess.log ++ e ∷ [] = ground arith in
          ap (replay_from start_state) q ∙ replay_from-append start_state sess.log (e ∷ []))
    | inr a ↦ absurd cc
  ]

  suspend-IsSame : (sess : Session) → IsSame sess (suspend svc sess).session
  unfolding suspend
  suspend-IsSame sess = elim (Bool-cases (svc.sets_status sess.log)) [
    | inl e ↦ rw e refl
    | inr e ↦ rw e refl
  ]

  suspend_after-IsSame :
      (sess : Session) (e : ExecError) (r : Reply)
      → IsSame sess (suspend_after svc sess e r).session
  unfolding suspend_after
  suspend_after-IsSame sess e none = refl
  suspend_after-IsSame sess e (some es) =
      suspend-IsSame (add_others sess es) ∙ add_others-IsSame sess es

  spawn_children-IsSame :
      (sess : Session) (cfg : DelegateFanoutConfig) (n i : ℕ)
      → IsSame sess (spawn_children svc sess cfg n i).session
  unfolding spawn_children
  spawn_children-IsSame sess cfg zero i = suspend-IsSame sess
  spawn_children-IsSame sess cfg (suc n) i = elim (Option-cases (svc.spawns sess.log cfg i)) [
    | inl e ↦ rw e refl
    | inr (es, e) ↦
        rw e (spawn_children-IsSame (add_others sess es) cfg n (suc i) ∙ add_others-IsSame sess es)
  ]

  after_kernel-IsSame :
      (sess : Session) (step : Step) (k : KernelEnd)
      → IsSame sess (after_kernel svc sess step k).session
  unfolding after_kernel
  after_kernel-IsSame sess step kernel_error = refl
  after_kernel-IsSame sess step (left_as status) = refl

  pub continue_agent_step-IsSame :
      (sess : Session) (step : Step) → IsSame sess (continue_agent_step svc sess step).session
  unfolding continue_agent_step
  continue_agent_step-IsSame sess step = elim (Bool-cases (svc.reads sess.log)) [
    | inl e ↦ rw e (
        after_kernel-IsSame (add_others sess (svc.continues sess.log).0) step
          (svc.continues sess.log).1
        ∙ add_others-IsSame sess (svc.continues sess.log).0)
    | inr e ↦ rw e refl
  ]

  run_agent-IsSame :
      (sess : Session) (step : Step) (c : Option AgentStepConfig)
      → IsSame sess (run_agent svc sess step c).session
  unfolding run_agent continue_if replay_event
  run_agent-IsSame sess step none = refl
  run_agent-IsSame sess step (some c) =
      elim (Result-cases (append svc sess (user_message c.input))) [
        | inl (sess', e) ↦ rw e (
            continue_agent_step-IsSame sess' step
            ∙ append-replay sess (user_message c.input) sess' e)
        | inr (x, e) ↦ rw e refl
      ]

  spawn_after-IsSame :
      (sess : Session) (cfg : DelegateFanoutConfig) (r : Reply)
      → IsSame sess (spawn_after svc sess cfg r).session
  unfolding spawn_after
  spawn_after-IsSame sess cfg none = refl
  spawn_after-IsSame sess cfg (some es) =
      spawn_children-IsSame (add_others sess es) cfg (children cfg.child_count) 0
      ∙ add_others-IsSame sess es

  fan_out-IsSame :
      (sess : Session) (cfg : DelegateFanoutConfig) (m : Result AmountError (Option Money))
      → IsSame sess (fan_out svc sess cfg m).session
  unfolding fan_out
  fan_out-IsSame sess cfg (err e) = refl
  fan_out-IsSame sess cfg (ok m) =
      spawn_after-IsSame sess cfg (
        svc.creates_envelope sess.log (cohort_ceiling (per_child m) cfg.child_count)
          cfg.child_count)

  with_fanout-IsSame :
      (sess : Session) (c : Option DelegateFanoutConfig)
      → IsSame sess (with_fanout svc sess c).session
  unfolding with_fanout
  with_fanout-IsSame sess none = refl
  with_fanout-IsSame sess (some cfg) = fan_out-IsSame sess cfg (parse_ceiling cfg.per_child_ceiling)

  ask_approval-IsSame :
      (sess : Session) (step : Step) (b : Bool) → IsSame sess (ask_approval svc sess step b).session
  unfolding ask_approval
  ask_approval-IsSame sess step false = refl
  ask_approval-IsSame sess step true =
      suspend_after-IsSame sess approval_failed (svc.approvals_create sess.log (tool_id_of step))

  request_input-IsSame :
      (sess : Session) (c : Option InputRequestConfig)
      → IsSame sess (request_input svc sess c).session
  unfolding request_input
  request_input-IsSame sess none = refl
  request_input-IsSame sess (some c) =
      suspend_after-IsSame sess input_failed (svc.inputs_request sess.log c.question)

  -- A call of a collaborator that may be missing.
  if-IsSame :
      (sess : Session) (b : Bool) (d : Dispatched) (e : ExecError)
      → IsSame sess d.session
      → IsSame sess (if b then d else dispatched sess (failed e)).session
  if-IsSame sess true d e h = h
  if-IsSame sess false d e h = refl

  dispatch_kind-IsSame :
      (kind : StepKind) (sess : Session) (step : Step) (n : ℕ)
      → IsSame sess (dispatch_kind svc kind sess step n).session
  unfolding dispatch_kind run_agent_step run_approval_gate run_preauth run_input_request
      run_delegate_fanout
  dispatch_kind-IsSame step_agent sess step n = run_agent-IsSame sess step step.agent
  dispatch_kind-IsSame step_condition sess step n = refl
  dispatch_kind-IsSame step_loop sess step n = refl
  dispatch_kind-IsSame step_delegate_fanout sess step n =
      if-IsSame sess svc.delegations_wired (with_fanout svc sess step.delegate_fanout) not_wired
        (with_fanout-IsSame sess step.delegate_fanout)
  dispatch_kind-IsSame step_approval_gate sess step n =
      if-IsSame sess svc.approvals_wired (ask_approval svc sess step (has step.approval_gate))
        not_wired (ask_approval-IsSame sess step (has step.approval_gate))
  dispatch_kind-IsSame step_preauth sess step n =
      if-IsSame sess svc.approvals_wired (ask_approval svc sess step (has step.preauth)) not_wired
        (ask_approval-IsSame sess step (has step.preauth))
  dispatch_kind-IsSame step_input_request sess step n =
      if-IsSame sess svc.inputs_wired (request_input svc sess step.input_request) not_wired
        (request_input-IsSame sess step.input_request)
  dispatch_kind-IsSame (step_other k) sess step n = refl

  pub dispatch-IsSame :
      (sess : Session) (step : Step) (n : ℕ) → IsSame sess (dispatch svc sess step n).session
  unfolding dispatch
  dispatch-IsSame sess step n = dispatch_kind-IsSame step.kind sess step n
