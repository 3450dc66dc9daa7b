-- ===== src/Permissions/Examples.antt =====
-- Requests on concrete chains: tests, and the theorems at inputs that meet their hypotheses.
use nexus_agent_demo.Prelude.{
  ◌≡◌, refl, true, false, none, some, [], ◌∷◌, arith, All, ◌⊎◌, inr, ◌≢◌, ◌↔◌, List, ◌≤◌, ◌||◌,
}
use nexus_agent_demo.Prelude.Text.{Text, codes, text_eq, cut_suffix}
use nexus_agent_demo.Permissions.Types.{
  allow, ask, deny, once, multi_party, deny_rules, autonomy, ask_none, denies, no_deny_rule,
  external, Taint, LayerOutcome, defers, asks, given, resolution, pre_tool_use_hooks,
  read_only_level_denies, level_requires_approval,
}
use nexus_agent_demo.Permissions.Glob.{match_glob, Covers, match_glob_iff}
use nexus_agent_demo.Permissions.Chain.Walk.{opinions}
use nexus_agent_demo.Permissions.Chain.Gather.{IsPassing, IsSilent}
use nexus_agent_demo.Permissions.Autonomy.{
  Autonomy, pin, tighten_all, resolve_autonomy, strictness, tighten_all-strictness,
}
use nexus_agent_demo.Permissions.RuleOfTwo.{
  TaintState, TaintStep, call, steps, seen_untrusted, seen_private, seen_external, third_leg_asks,
  resolve_rule_of_two,
}
use nexus_agent_demo.Permissions.DenyRules.{
  has, new_tool_profile, resolve_deny_rules, resolve_profiles,
}
use nexus_agent_demo.Permissions.Safety.{
  Classifier, Env, is_open, answered, failed, new_classifier, classify,
}
use nexus_agent_demo.Permissions.Safety.FailClosed.{
  Call, after_call, after_calls, classify_unavailable, breaker_trips,
}
use nexus_agent_demo.Permissions.Chain.{
  Chain, Request, new_chain, autonomy_outcome, covers, resolve_approval, resolve, fold, after,
  settle,
}
use nexus_agent_demo.Permissions.Chain.Order.{
  SomeScope, allow_needs_consent, deny_is_final, allow_is_error, first_ask_binds,
}
use nexus_agent_demo.Permissions.Chain.Recorded.{allowed_is_recorded}

abbrev mail : Text
mail = codes "email/send"

abbrev quiet : Classifier
quiet = new_classifier [] (some (λ t i. answered (defers (given [])).decision [])) 0

abbrev policy_chain : Chain
policy_chain =
    new_chain (λ p t. false)
      (record {
        deny_list = [];
        profiles = new_tool_profile (codes "default") 1 (mail ∷ []) ∷ [];
        approval = record { require_ask_for = λ e. some multi_party };
        standing_scopes = [];
        safety = some quiet;
      })

abbrev scoped_chain : Chain
scoped_chain = record policy_chain {
  cfg = record policy_chain.cfg {
    standing_scopes = record { name = codes "mail"; tool_pattern = codes "email/*" } ∷ [];
  };
}

abbrev env0 : Env
env0 = record { checked_at = 1; failed_at = 2; timed_out = false }

abbrev sends : Taint
sends = record { returns_untrusted = false; reads_private_data = false; mutates_external = true }

abbrev clean : TaintState
clean = record { untrusted_input = false; private_data = false; external_effect = false }

abbrev send_at : Autonomy → LayerOutcome → Request
send_at a hook = record {
  tool_id = mail;
  namespace = codes "email";
  effect_class = external;
  taint = sends;
  input = codes "{}";
  autonomy_pin = some a;
  hook_outcome = hook;
  gate2 = defers (given []);
  taint_state = clean;
}

abbrev no_opinion : LayerOutcome
no_opinion = defers (given [])

abbrev supervised_send : Request
supervised_send = send_at (pin 1) no_opinion

scoped_allow : (resolve scoped_chain env0 supervised_send).answer.decision ≡ allow
unfolding resolve fold after settle covers match_glob cut_suffix text_eq resolve_deny_rules
    resolve_autonomy pin has resolve_profiles classify new_chain new_classifier new_tool_profile
    resolve_rule_of_two resolve_approval
scoped_allow = refl

allow_needs_consent_example :
    All IsPassing (opinions scoped_chain env0 supervised_send)
    × (All IsSilent (opinions scoped_chain env0 supervised_send)
        ⊎ SomeScope scoped_chain supervised_send)
allow_needs_consent_example = allow_needs_consent scoped_chain env0 supervised_send scoped_allow

allowed_is_recorded_example :
    (resolve scoped_chain env0 supervised_send).taint_state
    ≡ record { untrusted_input = false; private_data = false; external_effect = true }
allowed_is_recorded_example = allowed_is_recorded scoped_chain env0 supervised_send scoped_allow

-- A session at `read_only`: layer 3 denies.
abbrev read_only_send : Request
read_only_send = send_at (pin 0) no_opinion

deny_is_final_example :
    ((resolve scoped_chain env0 read_only_send).answer
      ≡ resolution deny (some autonomy) read_only_level_denies ask_none)
    × ((resolve scoped_chain env0 read_only_send).err ≡ none)
unfolding opinions autonomy_outcome resolve_deny_rules resolve_autonomy pin new_chain
deny_is_final_example =
    deny_is_final scoped_chain env0 read_only_send
      (record { layer = deny_rules; outcome = defers no_deny_rule }
        ∷ record { layer = pre_tool_use_hooks; outcome = no_opinion }
        ∷ [])
      _ (record { layer = autonomy; outcome = denies read_only_level_denies }) refl (ground arith)
      refl

-- A hook that answers Allow.
abbrev bold_send : Request
bold_send = send_at (pin 1) (record { decision = allow; reason = given []; ask_kind = ask_none })

allow_is_error_example :
    ((resolve scoped_chain env0 bold_send).answer.decision ≢ allow)
    × ((resolve scoped_chain env0 bold_send).err ≡ some pre_tool_use_hooks)
unfolding opinions resolve_deny_rules new_chain
allow_is_error_example =
    allow_is_error scoped_chain env0 bold_send
      (record { layer = deny_rules; outcome = defers no_deny_rule } ∷ []) _
      (record { layer = pre_tool_use_hooks; outcome = bold_send.hook_outcome }) refl (ground arith)
      refl

-- A policy that requires several approvers does not turn the level's single approval into theirs.
first_ask_binds_example :
    (resolve policy_chain env0 supervised_send).answer
    ≡ resolution ask (some autonomy) (level_requires_approval external) once
unfolding opinions autonomy_outcome resolve_deny_rules resolve_autonomy pin new_chain has
    resolve_profiles classify new_classifier new_tool_profile resolve_rule_of_two resolve_approval
    text_eq
first_ask_binds_example =
    first_ask_binds policy_chain env0 supervised_send
      (record { layer = deny_rules; outcome = defers no_deny_rule }
        ∷ record { layer = pre_tool_use_hooks; outcome = no_opinion }
        ∷ [])
      _ (record { layer = autonomy; outcome = asks once (level_requires_approval external) }) refl
      (ground arith) refl (ground arith) tt

match_glob_iff_example :
    (match_glob (codes "email/*") mail (codes "email") ≡ true)
    ↔ Covers mail (codes "email") (codes "email/*")
match_glob_iff_example = match_glob_iff (codes "email/*") mail (codes "email")

-- A page is read and a secret is read.
abbrev reads : List TaintStep
reads =
    call (record { returns_untrusted = true; reads_private_data = false; mutates_external = false })
    ∷ call
        (record { returns_untrusted = false; reads_private_data = true; mutates_external = false })
    ∷ []

third_leg_asks_example : ((resolve_rule_of_two (steps clean reads) sends).0.decision ≡ ask) ↔ (
    (false || seen_untrusted false reads ≡ true)
    × (false || seen_private false reads ≡ true)
    × (true || seen_external false reads ≡ true))
third_leg_asks_example = third_leg_asks clean reads sends

sending_asks : (resolve_rule_of_two (steps clean reads) sends).0.decision ≡ ask
sending_asks = third_leg_asks_example.1 (refl, refl, refl)

tighten_all-strictness_example :
    strictness (resolve_autonomy (pin 2) external).decision
    ≤ strictness (resolve_autonomy (tighten_all (pin 2) (1 ∷ 2 ∷ 0 ∷ [])) external).decision
unfolding pin
tighten_all-strictness_example =
    tighten_all-strictness (pin 2) (1 ∷ 2 ∷ 0 ∷ []) external (omega arith)

abbrev broken : Classifier
broken = new_classifier [] (some (λ t i. failed (codes "no route"))) 0

abbrev send_call : Call
send_call = record { env = env0; tool_id = mail; raw_input = codes "{}" }

classify_unavailable_example : (classify broken env0 mail (codes "{}")).0.verdict ≡ ask
unfolding new_classifier
classify_unavailable_example =
    classify_unavailable broken env0 mail (codes "{}") tt (inr (inr (codes "no route", refl)))

breaker_trips_example :
    is_open (after_call (after_calls broken (send_call ∷ send_call ∷ [])) send_call).breaker 1000
    ≡ true
unfolding new_classifier after_calls after_call classify
breaker_trips_example =
    breaker_trips broken (send_call ∷ send_call ∷ []) send_call 1000
      (
        record { no_rule = tt; closed = refl; fails = inr (codes "no route", refl) },
        (record { no_rule = tt; closed = refl; fails = inr (codes "no route", refl) }, tt),
      )
      refl (record { no_rule = tt; closed = refl; fails = inr (codes "no route", refl) })
      (omega arith)
