-- ===== src/Plan/Schema.antt =====
-- internal/plan/schema.go: the shape of a plan. A pointer that may be nil is an Option, an identifier
-- of 128 bits is a number.
use nexus_agent_demo.Prelude.{ℕ, Option, none, some, List, [], ◌∷◌, if◌then◌else◌}
use nexus_agent_demo.Prelude.Text.{Text, codes, text_eq}
use nexus_agent_demo.Prelude.Int.{ℤ}
use nexus_agent_demo.Prelude.Result.{Result, ok, err}
use nexus_agent_demo.Cost.Money.{Money}
use nexus_agent_demo.Cost.Decimal.{parse_decimal}
use nexus_agent_demo.Plan.Predicate.{Predicate}

-- StepKind, a string that may be none of the seven names.
pub data StepKind : Type 0 where
  step_agent step_delegate_fanout step_approval_gate step_preauth step_input_request : StepKind
  step_condition step_loop : StepKind
  step_other : Text → StepKind

pub record Transition : Type 0 where
  pub to : Text
  pub when : Option Predicate

pub record AgentStepConfig : Type 0 where
  pub input : Text
  pub output_var : Text

pub record DelegateFanoutConfig : Type 0 where
  pub agent_id : Text
  pub task : Text
  pub scope_grant : List Text
  pub child_count : ℤ
  pub per_child_ceiling : Text
  pub completion_var : Text

pub record ApprovalGateConfig : Type 0 where
  pub question : Text
  pub result_var : Text

pub record PreauthEntry : Type 0 where
  pub tool_id : Text
  pub digest : List ℕ

pub record PreauthConfig : Type 0 where
  pub entries : List PreauthEntry

pub record InputRequestConfig : Type 0 where
  pub question : Text
  pub schema : Text
  pub result_var : Text

pub data ConditionConfig : Type 0 where
  condition_config : ConditionConfig

pub record LoopConfig : Type 0 where
  pub max_iterations : ℤ
  pub counter_var : Text

pub record Step : Type 0 where
  pub id : Text
  pub kind : StepKind
  pub agent : Option AgentStepConfig
  pub delegate_fanout : Option DelegateFanoutConfig
  pub approval_gate : Option ApprovalGateConfig
  pub preauth : Option PreauthConfig
  pub input_request : Option InputRequestConfig
  pub condition : Option ConditionConfig
  pub loop : Option LoopConfig
  pub transitions : List Transition

pub record Plan : Type 0 where
  pub plan_id : ℕ
  pub tenant_id : ℕ
  pub version : ℤ
  pub name : Text
  pub start_step : Text
  pub steps : List Step
  pub allowed_tools : List Text
  -- CostEnvelope.Ceiling
  pub ceiling : Text
  pub agent_version : ℤ
  pub route_model_id : Text

-- The steps' first one with the identifier.
unfoldable pub find_step : List Step → Text → Option Step
unfolding text_eq
find_step [] id = none
find_step (s ∷ steps) id = if text_eq s.id id then some s else find_step steps id

unfoldable pub step_by_id : Plan → Text → Option Step
unfolding find_step
step_by_id p id = find_step p.steps id

-- cost.DefaultCurrency
abbrev pub usd : Text
usd = codes "USD"

-- An error of cost.ParseDecimal.
pub data AmountError : Type 0 where
  invalid_amount : AmountError

abbrev ceiling_of : Option Money → Result AmountError (Option Money)
ceiling_of none = err invalid_amount
ceiling_of (some m) = ok (some m)

-- An empty text is no ceiling, which is no error.
unfoldable pub parse_ceiling : Text → Result AmountError (Option Money)
unfolding parse_decimal
parse_ceiling [] = ok none
parse_ceiling (c ∷ s) = ceiling_of (parse_decimal (c ∷ s) usd)
