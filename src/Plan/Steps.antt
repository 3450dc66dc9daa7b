-- ===== src/Plan/Steps.antt =====
-- internal/plan/steps.go, rehydrate.go: what the executor does at one step. What it calls is the record
-- `Services`, whose answers may depend on all that was recorded in the session before.
use nexus_agent_demo.Prelude.{
  ℕ, zero, suc, Bool, true, false, Option, none, some, List, [], ◌∷◌, ◌++◌, map, if◌then◌else◌,
}
use nexus_agent_demo.Prelude.Int.{ℤ, pos, negsuc, ◌*ℤ◌}
use nexus_agent_demo.Prelude.Text.{Text, codes}
use nexus_agent_demo.Prelude.Result.{Result, ok, err, ◌then◌}
use nexus_agent_demo.Cost.Money.{Money, int64}
use nexus_agent_demo.Plan.Predicate.{EvalError, Value, string_value}
use nexus_agent_demo.Plan.Schema.{
  AgentStepConfig, AmountError, DelegateFanoutConfig, InputRequestConfig, Step, parse_ceiling,
}
use nexus_agent_demo.Plan.Replay.{Bindings, Event, OtherEvent, content, other_event, user_message}

pub data SessionStatus : Type 0 where
  running suspended completed : SessionStatus
  other_status : ℕ → SessionStatus

pub record Session : Type 0 where
  pub log : List Event
  pub status : SessionStatus

-- How a run of the kernel's turns ends: with an error, or with the session's status.
pub data KernelEnd : Type 0 where
  kernel_error : KernelEnd
  left_as : SessionStatus → KernelEnd

-- A collaborator's answer: an error, or the events that it recorded in the session.
abbrev pub Reply : Type 0
Reply = Option (List OtherEvent)

pub record Services : Type 0 where
  -- Store: whether a unit of work that appends, one that sets the status, or a read succeeds
  pub accepts : List Event → Event → Bool
  pub sets_status : List Event → Bool
  pub reads : List Event → Bool
  -- Kernel.Continue on the session: what it appends, and its end
  pub continues : List Event → List OtherEvent × KernelEnd
  -- the three collaborators that may be nil, and whether a call of them succeeds
  pub approvals_wired : Bool
  pub approvals_create : List Event → Text → Reply
  pub inputs_wired : Bool
  pub inputs_request : List Event → Text → Reply
  pub delegations_wired : Bool
  pub creates_envelope : List Event → Money → ℤ → Reply
  pub spawns : List Event → DelegateFanoutConfig → ℕ → Reply

pub data ExecError : Type 0 where
  step_not_found iterations_exceeded unrecognized_step_kind : Text → ExecError
  store_failed read_failed kernel_failed not_wired bad_ceiling approval_failed : ExecError
  input_failed envelope_failed nil_panic : ExecError
  spawn_failed : ℕ → ExecError
  predicate_failed : EvalError → ExecError

-- What a step's dispatch gives.
pub data Outcome : Type 0 where
  failed : ExecError → Outcome
  suspends : Outcome
  binds : Bindings → Outcome

pub record Dispatched : Type 0 where
  pub session : Session
  pub outcome : Outcome

-- A map of one key, or of none where the variable's name is empty.
abbrev pub one_binding : Text → Value → Bindings
one_binding [] v = []
one_binding (c ∷ x) v = (c ∷ x, v) ∷ []

abbrev pub add_others : Session → List OtherEvent → Session
add_others sess es = record sess { log = sess.log ++ map other_event es }

-- The last content among the events, or `last`.
unfoldable pub last_content : Text → List Event → Text
last_content last [] = last
last_content last (other_event (content text) ∷ history) = last_content text history
last_content last (e ∷ history) = last_content last history

abbrev pub dispatched : Session → Outcome → Dispatched
dispatched sess o = record { session = sess; outcome = o }

abbrev pub agent_bindings : Option AgentStepConfig → Text → Outcome
agent_bindings none text = failed nil_panic
agent_bindings (some c) text = binds (one_binding c.output_var (string_value text))

unfoldable pub after_status : SessionStatus → Session → Step → Outcome
unfolding last_content string_value
after_status suspended sess step = suspends
after_status _ sess step = agent_bindings step.agent (last_content [] sess.log)

abbrev pub children : ℤ → ℕ
children (pos n) = n
children (negsuc n) = 0

abbrev pub per_child : Option Money → Money
per_child none = record { micros = pos 0; currency = [] }
per_child (some m) = m

-- perChild.Micros * int64(cfg.ChildCount)
unfoldable pub cohort_ceiling : Money → ℤ → Money
unfolding int64 ◌*ℤ◌
cohort_ceiling m n = record m { micros = int64 (m.micros *ℤ n) }

abbrev pub tool_id_of : Step → Text
tool_id_of step = codes "plan/" ++ step.id

abbrev pub has {ℓ} : {A : Type ℓ} → Option A → Bool
has none = false
has (some x) = true

-- One child's spawn, and the rest of the loop.
abbrev pub spawn_then : Session → ℕ → Reply → (List OtherEvent → Dispatched) → Dispatched
spawn_then sess i none rest = dispatched sess (failed (spawn_failed (suc i)))
spawn_then sess i (some es) rest = rest es

module _ (svc : Services) where
  -- A unit of work that appends one event.
  unfoldable pub append : Session → Event → Result ExecError Session
  append sess e =
      if svc.accepts sess.log e
      then ok (record sess { log = sess.log ++ e ∷ [] })
      else err store_failed

  unfoldable pub suspend : Session → Dispatched
  suspend sess =
      if svc.sets_status sess.log
      then dispatched (record sess { status = suspended }) suspends
      else dispatched sess (failed store_failed)

  unfoldable pub after_kernel : Session → Step → KernelEnd → Dispatched
  unfolding after_status
  after_kernel sess step kernel_error = dispatched sess (failed kernel_failed)
  after_kernel sess step (left_as status) =
      dispatched (record sess { status = status })
        (if svc.reads sess.log then after_status status sess step else failed read_failed)

  unfoldable pub continue_agent_step : Session → Step → Dispatched
  unfolding after_kernel
  continue_agent_step sess step =
      if svc.reads sess.log
      then after_kernel (add_others sess (svc.continues sess.log).0) step (svc.continues sess.log).1
      else dispatched sess (failed read_failed)

  unfoldable pub continue_if : Session → Step → Result ExecError Session → Dispatched
  unfolding continue_agent_step
  continue_if sess step (err e) = dispatched sess (failed e)
  continue_if sess step (ok sess') = continue_agent_step sess' step

  unfoldable pub run_agent : Session → Step → Option AgentStepConfig → Dispatched
  unfolding append continue_agent_step
  run_agent sess step none = dispatched sess (failed nil_panic)
  run_agent sess step (some c) = continue_if sess step (append sess (user_message c.input))

  unfoldable pub run_agent_step : Session → Step → Dispatched
  unfolding run_agent
  run_agent_step sess step = run_agent sess step step.agent

  -- The collaborator's answer, then the session's suspension.
  unfoldable pub suspend_after : Session → ExecError → Reply → Dispatched
  unfolding suspend
  suspend_after sess e none = dispatched sess (failed e)
  suspend_after sess e (some es) = suspend (add_others sess es)

  -- for i := 0; i < cfg.ChildCount; i++: what is still to spawn, from child `i` on.
  unfoldable pub spawn_children : Session → DelegateFanoutConfig → ℕ → ℕ → Dispatched
  unfolding suspend
  spawn_children sess cfg zero i = suspend sess
  spawn_children sess cfg (suc n) i =
      spawn_then sess i (svc.spawns sess.log cfg i)
        λ es. spawn_children (add_others sess es) cfg n (suc i)

  unfoldable pub spawn_after : Session → DelegateFanoutConfig → Reply → Dispatched
  unfolding spawn_children
  spawn_after sess cfg none = dispatched sess (failed envelope_failed)
  spawn_after sess cfg (some es) =
      spawn_children (add_others sess es) cfg (children cfg.child_count) 0

  unfoldable pub fan_out :
      Session → DelegateFanoutConfig → Result AmountError (Option Money) → Dispatched
  unfolding spawn_after cohort_ceiling
  fan_out sess cfg (err e) = dispatched sess (failed bad_ceiling)
  fan_out sess cfg (ok m) =
      spawn_after sess cfg (
        svc.creates_envelope sess.log (cohort_ceiling (per_child m) cfg.child_count)
          cfg.child_count)

  unfoldable pub with_fanout : Session → Option DelegateFanoutConfig → Dispatched
  unfolding fan_out parse_ceiling
  with_fanout sess none = dispatched sess (failed nil_panic)
  with_fanout sess (some cfg) = fan_out sess cfg (parse_ceiling cfg.per_child_ceiling)

  unfoldable pub run_delegate_fanout : Session → Step → Dispatched
  unfolding with_fanout
  run_delegate_fanout sess step =
      if svc.delegations_wired
      then with_fanout sess step.delegate_fanout
      else dispatched sess (failed not_wired)

  unfoldable pub ask_approval : Session → Step → Bool → Dispatched
  unfolding suspend_after
  ask_approval sess step false = dispatched sess (failed nil_panic)
  ask_approval sess step true =
      suspend_after sess approval_failed (svc.approvals_create sess.log (tool_id_of step))

  unfoldable pub run_approval_gate : Session → Step → Dispatched
  unfolding ask_approval
  run_approval_gate sess step =
      if svc.approvals_wired
      then ask_approval sess step (has step.approval_gate)
      else dispatched sess (failed not_wired)

  unfoldable pub run_preauth : Session → Step → Dispatched
  unfolding ask_approval
  run_preauth sess step =
      if svc.approvals_wired
      then ask_approval sess step (has step.preauth)
      else dispatched sess (failed not_wired)

  unfoldable pub request_input : Session → Option InputRequestConfig → Dispatched
  unfolding suspend_after
  request_input sess none = dispatched sess (failed nil_panic)
  request_input sess (some c) =
      suspend_after sess input_failed (svc.inputs_request sess.log c.question)

  unfoldable pub run_input_request : Session → Step → Dispatched
  unfolding request_input
  run_input_request sess step =
      if svc.inputs_wired
      then request_input sess step.input_request
      else dispatched sess (failed not_wired)
