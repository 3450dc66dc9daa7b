-- ===== src/Permissions/Types.antt =====
-- internal/permissions/types.go: the vocabulary of the chain.
-- A Go type whose underlying type is string has one constructor for each declared constant and
-- `other` for every other text, the empty one included: a hook, a tool or the model leg may send it.
use nexus_agent_demo.Prelude.{ℕ, Option, none, [], Bool}
use nexus_agent_demo.Prelude.Text.{Text}

pub data Decision : Type 0 where
  allow ask deny defer : Decision
  other : Text → Decision

pub data AskKind : Type 0 where
  ask_none once session multi_party : AskKind
  other_kind : Text → AskKind

pub data Layer : Type 0 where
  deny_rules pre_tool_use_hooks autonomy gate1_profile gate2_capability gate3_safety rule_of_two
        approval_policy standing_scope fallback_allow :
      Layer

pub data EffectClass : Type 0 where
  read_only mutating external : EffectClass
  other_effect : Text → EffectClass

pub record Taint : Type 0 where
  pub returns_untrusted : Bool
  pub reads_private_data : Bool
  pub mutates_external : Bool

-- A reason is the message with the arguments that the code formats into it; its rendering by
-- `fmt` is not modelled. `given` is a text that comes from outside, unchanged.
pub data Reason : Type 0 where
  given : Text → Reason
  deny_rule : (name reason : Text) → Reason
  no_deny_rule no_autonomy read_only_effect : Reason
  read_only_level_denies : Reason
  level_requires_approval : EffectClass → Reason
  autonomous_defers : Reason
  unrecognized_level : ℕ → Reason
  profile_member : (name : Text) (version : ℕ) → Reason
  no_profile : Reason
  safety_rule : (name reason : Text) → Reason
  breaker_open model_timed_out : Reason
  model_unavailable : Text → Reason
  third_leg within_two_legs : Reason
  policy_requires : AskKind → EffectClass → Reason
  policy_auto : Reason
  scope_satisfied : (name : Text) → Option Layer → Reason
  no_layer_objected : Reason

pub record LayerOutcome : Type 0 where
  pub decision : Decision
  pub reason : Reason
  pub ask_kind : AskKind  -- meaningful only when `decision` is `ask`

pub record Resolution : Type 0 where
  pub decision : Decision
  pub layer : Option Layer  -- `none` is the zero Layer, before any layer has bound the decision
  pub reason : Reason
  pub ask_kind : AskKind
  pub updated_input : Option Text  -- UpdatedInput, which no code of the package sets

-- LayerOutcome{Decision: Defer, Reason: r}, and the other literals that leave fields at zero.
abbrev pub defers : Reason → LayerOutcome
defers r = record { decision = defer; reason = r; ask_kind = ask_none }

abbrev pub denies : Reason → LayerOutcome
denies r = record { decision = deny; reason = r; ask_kind = ask_none }

abbrev pub asks : AskKind → Reason → LayerOutcome
asks k r = record { decision = ask; reason = r; ask_kind = k }

-- Resolution{Decision: d, Layer: l, Reason: r, AskKind: k}
abbrev pub resolution : Decision → Option Layer → Reason → AskKind → Resolution
resolution d l r k = record {
  decision = d;
  layer = l;
  reason = r;
  ask_kind = k;
  updated_input = none;
}

-- The accumulator that the walk starts from.
abbrev pub undecided : Resolution
undecided = resolution defer none (given []) ask_none
