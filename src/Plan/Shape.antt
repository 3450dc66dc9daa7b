-- ===== src/Plan/Shape.antt =====
-- internal/plan/validate.go: the checks on one step, its transitions and their predicates.
use nexus_agent_demo.Prelude.{
  ℕ, ◌+◌, Bool, true, false, not, Option, none, some, List, [], ◌∷◌, if◌then◌else◌, ltb, ◌==◌,
}
use nexus_agent_demo.Prelude.Int.{pos, leb_ℤ}
use nexus_agent_demo.Prelude.Text.{Text}
use nexus_agent_demo.Prelude.Result.{Result, ok, err, Check, refuse, ◌then◌}
use nexus_agent_demo.Cost.Money.{Money}
use nexus_agent_demo.Plan.Predicate.{Predicate, predicate, Predicates, nil, cons, op_and, op_or}
use nexus_agent_demo.Plan.Schema.{
  AgentStepConfig, AmountError, ApprovalGateConfig, DelegateFanoutConfig, InputRequestConfig,
  LoopConfig, PreauthConfig, Step, StepKind, step_agent, step_delegate_fanout, step_approval_gate,
  step_preauth, step_input_request, step_condition, step_loop, step_other, Transition,
  parse_ceiling,
}

pub data StepError : Type 0 where
  configs_present : ℕ → StepError
  missing_config : StepKind → StepError
  child_count_not_positive empty_scope_grant bad_per_child_ceiling empty_question : StepError
  empty_preauth no_max_iterations unconditional_not_last : StepError
  unrecognized_kind : Text → StepError

abbrev pub is_empty {ℓ} : {A : Type ℓ} → List A → Bool
is_empty [] = true
is_empty (x ∷ xs) = false

abbrev pub count_some {ℓ} : {A : Type ℓ} → Option A → ℕ
count_some none = 0
count_some (some x) = 1

-- How many of the kind-specific configs are set.
unfoldable pub present : Step → ℕ
present s =
    count_some s.agent
    + count_some s.delegate_fanout
    + count_some s.approval_gate
    + count_some s.preauth
    + count_some s.input_request
    + count_some s.condition
    + count_some s.loop

abbrev check_agent : Option AgentStepConfig → Check StepError
check_agent none = err (missing_config step_agent)
check_agent (some c) = ok tt

abbrev check_per_child : Result AmountError (Option Money) → Check StepError
check_per_child (ok m) = ok tt
check_per_child (err e) = err bad_per_child_ceiling

abbrev check_fanout : Option DelegateFanoutConfig → Check StepError
check_fanout none = err (missing_config step_delegate_fanout)
check_fanout (some c) =
    refuse (leb_ℤ c.child_count (pos 0)) child_count_not_positive
    then refuse (is_empty c.scope_grant) empty_scope_grant
    then check_per_child (parse_ceiling c.per_child_ceiling)

abbrev check_gate : Option ApprovalGateConfig → Check StepError
check_gate none = err empty_question
check_gate (some c) = refuse (is_empty c.question) empty_question

abbrev check_preauth : Option PreauthConfig → Check StepError
check_preauth none = err empty_preauth
check_preauth (some c) = refuse (is_empty c.entries) empty_preauth

abbrev check_input : Option InputRequestConfig → Check StepError
check_input none = err empty_question
check_input (some c) = refuse (is_empty c.question) empty_question

abbrev check_loop : Option LoopConfig → Check StepError
check_loop none = err no_max_iterations
check_loop (some c) = refuse (leb_ℤ c.max_iterations (pos 0)) no_max_iterations

abbrev check_kind : StepKind → Step → Check StepError
check_kind step_agent s = check_agent s.agent
check_kind step_delegate_fanout s = check_fanout s.delegate_fanout
check_kind step_approval_gate s = check_gate s.approval_gate
check_kind step_preauth s = check_preauth s.preauth
check_kind step_input_request s = check_input s.input_request
check_kind step_condition s = ok tt
check_kind step_loop s = check_loop s.loop
check_kind (step_other k) s = err (unrecognized_kind k)

unfoldable pub validate_step_shape : Step → Check StepError
unfolding parse_ceiling present
validate_step_shape s =
    refuse (not (present s == 1)) (configs_present (present s)) then check_kind s.kind s

-- A transition without a predicate stands last.
unfoldable pub validate_transitions : List Transition → Check StepError
validate_transitions [] = ok tt
validate_transitions (t ∷ ts) =
    let rest = validate_transitions ts in
    elim t.when [
      | none ↦ refuse (not (is_empty ts)) unconditional_not_last then rest
      | some p ↦ rest
    ]

abbrev larger : ℕ → ℕ → ℕ
larger d max = if ltb max d then d else max

unfoldable mutual
  pub predicate_depth : Predicate → ℕ
  predicate_depth (predicate op_and field value values ands ors) =
      depth_of ands (depth_of ors 0) + 1
  predicate_depth (predicate op_or field value values ands ors) = depth_of ands (depth_of ors 0) + 1
  predicate_depth (predicate op field value values ands ors) = 1

  -- The largest depth in the list and `max`.
  pub depth_of : Predicates → ℕ → ℕ
  depth_of nil max = max
  depth_of (cons sub subs) max = larger (predicate_depth sub) (depth_of subs max)

abbrev pub max_predicate_depth : ℕ
max_predicate_depth = 8
