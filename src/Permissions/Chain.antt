-- ===== src/Permissions/Chain.antt =====
-- internal/permissions/chain.go: the walk over the ten layers.
-- `answer` carries what Go returns, the Result beside the error, and the breaker that layer 6 leaves.
pub mod Walk
pub mod Gather
pub mod Order
pub mod Recorded
use nexus_agent_demo.Prelude.{
  ℕ, Bool, true, false, Option, none, some, List, [], ◌∷◌, if◌then◌else◌,
}
use nexus_agent_demo.Prelude.Text.{Text}
use nexus_agent_demo.Permissions.Types.{
  Decision, allow, ask, deny, defer, other, AskKind, ask_none, Layer, deny_rules,
  pre_tool_use_hooks, autonomy, gate1_profile, gate2_capability, gate3_safety, rule_of_two,
  approval_policy, standing_scope, fallback_allow, EffectClass, Taint, LayerOutcome, Resolution,
  resolution, undecided, defers, asks, no_autonomy, policy_requires, policy_auto, scope_satisfied,
  no_layer_objected,
}
use nexus_agent_demo.Permissions.Glob.{match_glob}
use nexus_agent_demo.Permissions.DenyRules.{
  DenyRule, resolve_deny_rules, ToolProfile, resolve_profiles,
}
use nexus_agent_demo.Permissions.Autonomy.{Autonomy, resolve_autonomy}
use nexus_agent_demo.Permissions.RuleOfTwo.{TaintState, resolve_rule_of_two}
use nexus_agent_demo.Permissions.Safety.{
  SafetyResult, Classifier, Breaker, Env, classify, new_classifier, default_rules,
}

-- The map of the policy as a function.
pub record ApprovalPolicy : Type 0 where
  pub require_ask_for : EffectClass → Option AskKind

resolve_kind : Option AskKind → EffectClass → LayerOutcome
resolve_kind (some kind) e = asks kind (policy_requires kind e)
resolve_kind none e = defers policy_auto

unfoldable pub resolve_approval : ApprovalPolicy → EffectClass → LayerOutcome
unfolding resolve_kind
resolve_approval p e = resolve_kind (p.require_ask_for e) e

pub record StandingScope : Type 0 where
  pub name : Text
  pub tool_pattern : Text

unfoldable pub covers : StandingScope → Text → Text → Bool
covers s tool_id namespace = match_glob s.tool_pattern tool_id namespace

pub record ChainConfig : Type 0 where
  pub deny_list : List DenyRule
  pub profiles : List ToolProfile
  pub approval : ApprovalPolicy
  pub standing_scopes : List StandingScope
  pub safety : Option Classifier

-- A Chain's config, with the classifier that NewChain has made sure of.
pub record Chain : Type 0 where
  pub cfg : ChainConfig
  pub classifier : Classifier

abbrev or_default : Option Classifier → (Text → Text → Bool) → Classifier
or_default (some c) compile = c
or_default none compile = new_classifier (default_rules compile) none 0

unfoldable pub new_chain : (compile : Text → Text → Bool) → ChainConfig → Chain
new_chain compile cfg = record { cfg = cfg; classifier = or_default cfg.safety compile }

pub record Request : Type 0 where
  pub tool_id : Text
  pub namespace : Text
  pub effect_class : EffectClass
  pub taint : Taint
  pub input : Text
  pub autonomy_pin : Option Autonomy
  pub hook_outcome : LayerOutcome
  pub gate2 : LayerOutcome
  pub taint_state : TaintState

pub record Answer : Type 0 where
  pub answer : Resolution
  pub taint_state : TaintState
  pub err : Option Layer  -- the layer that resolved Allow, which guardNotAllow refuses
  pub breaker : Breaker

-- What one `fold` call leaves: the walk goes on, stops, or fails.
pub data Progress : Type 0 where
  goes_on : Resolution → Progress
  stops : Resolution → Progress
  fails : Resolution → Layer → Progress

-- An Ask binds only if none was raised before.
keep_first_ask : Decision → Resolution → Layer → LayerOutcome → Resolution
keep_first_ask ask accumulated l o = accumulated
keep_first_ask _ accumulated l o = resolution ask (some l) o.reason o.ask_kind

by_decision : Decision → Resolution → Layer → LayerOutcome → Progress
unfolding keep_first_ask
by_decision allow accumulated l o = fails accumulated l
by_decision deny accumulated l o = stops (resolution deny (some l) o.reason ask_none)
by_decision ask accumulated l o = goes_on (keep_first_ask accumulated.decision accumulated l o)
by_decision _ accumulated l o = goes_on accumulated

-- The closure `fold`, guardNotAllow included.
unfoldable pub fold : Resolution → Layer → LayerOutcome → Progress
unfolding by_decision
fold accumulated l o = by_decision o.decision accumulated l o

-- `if stop, err := fold(...); err != nil || stop { return ... }`
unfoldable pub after : Progress → TaintState → Breaker → (Resolution → Answer) → Answer
after (goes_on acc) t b next = next acc
after (stops acc) t b next = record { answer = acc; taint_state = t; err = none; breaker = b }
after (fails acc l) t b next = record { answer = acc; taint_state = t; err = some l; breaker = b }

unfoldable pub autonomy_outcome : Option Autonomy → EffectClass → LayerOutcome
autonomy_outcome none e = defers no_autonomy
autonomy_outcome (some a) e = resolve_autonomy a e

-- Layer 9: the first scope that covers the tool satisfies the ask.
by_scope : List StandingScope → Text → Text → Resolution → Option Layer → Resolution
by_scope [] tool_id namespace accumulated at = accumulated
by_scope (s ∷ ss) tool_id namespace accumulated at =
    let rest = by_scope ss tool_id namespace accumulated at in
    if covers s tool_id namespace
    then resolution allow (some standing_scope) (scope_satisfied s.name at) ask_none
    else rest

-- The layers 9 and 10.
unfoldable pub settle : Decision → Chain → Request → Resolution → Resolution
unfolding by_scope
settle ask c req accumulated =
    by_scope c.cfg.standing_scopes req.tool_id req.namespace accumulated accumulated.layer
settle _ c req accumulated = resolution allow (some fallback_allow) no_layer_objected ask_none

abbrev pub safety_outcome : SafetyResult → LayerOutcome
safety_outcome sr = record { decision = sr.verdict; reason = sr.reason; ask_kind = ask_none }

-- Layer 6 on, once the first five let the walk go on.
from_safety : Chain → Env → Request → Resolution → Answer
from_safety c env req acc5 =
    let sr = classify c.classifier env req.tool_id req.input in
    let rot = resolve_rule_of_two req.taint_state req.taint in
    after (fold acc5 gate3_safety (safety_outcome sr.0)) req.taint_state sr.1 λ acc6.
      after (fold acc6 rule_of_two rot.0) rot.1 sr.1 λ acc7.
        after (fold acc7 approval_policy (resolve_approval c.cfg.approval req.effect_class)) rot.1
          sr.1
          λ acc8. record {
            answer = settle acc8.decision c req acc8;
            taint_state = rot.1;
            err = none;
            breaker = sr.1;
          }

unfoldable pub resolve : Chain → Env → Request → Answer
unfolding from_safety autonomy_outcome
resolve c env req =
    let t = req.taint_state in
    let b = c.classifier.breaker in
    after
      (fold undecided deny_rules
        (resolve_deny_rules c.cfg.deny_list req.tool_id req.namespace req.input))
      t b
      λ acc1. after (fold acc1 pre_tool_use_hooks req.hook_outcome) t b λ acc2.
        after (fold acc2 autonomy (autonomy_outcome req.autonomy_pin req.effect_class)) t b λ acc3.
          after (fold acc3 gate1_profile (resolve_profiles c.cfg.profiles req.tool_id)) t b λ acc4.
            after (fold acc4 gate2_capability req.gate2) t b λ acc5. from_safety c env req acc5
