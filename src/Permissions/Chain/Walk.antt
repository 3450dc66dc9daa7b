-- ===== src/Permissions/Chain/Walk.antt =====
-- The chain as a walk over a list of opinions, and what a walk over any list does.
use nexus_agent_demo.Prelude.{◌≡◌, refl, Option, none, some, List, [], ◌∷◌}
use nexus_agent_demo.Permissions.Types.{
  Layer, deny_rules, pre_tool_use_hooks, autonomy, gate1_profile, gate2_capability, gate3_safety,
  rule_of_two, approval_policy, LayerOutcome, Resolution, undecided,
}
use nexus_agent_demo.Permissions.DenyRules.{resolve_deny_rules, resolve_profiles}
use nexus_agent_demo.Permissions.RuleOfTwo.{TaintState, resolve_rule_of_two}
use nexus_agent_demo.Permissions.Safety.{Env, Breaker, classify}
use nexus_agent_demo.Permissions.Chain.{
  Chain, Request, Answer, Progress, goes_on, stops, fails, fold, after, autonomy_outcome, settle,
  safety_outcome, from_safety, resolve, resolve_approval,
}

-- A layer with its opinion on one request.
abbrev pub Opinion : Type 0
Opinion = record { layer : Layer; outcome : LayerOutcome }

abbrev opinion : Layer → LayerOutcome → Opinion
opinion l o = record { layer = l; outcome = o }

-- The eight opinions of a request, in the published order.
unfoldable pub opinions : Chain → Env → Request → List Opinion
opinions c env req =
    opinion deny_rules (resolve_deny_rules c.cfg.deny_list req.tool_id req.namespace req.input)
    ∷ opinion pre_tool_use_hooks req.hook_outcome
    ∷ opinion autonomy (autonomy_outcome req.autonomy_pin req.effect_class)
    ∷ opinion gate1_profile (resolve_profiles c.cfg.profiles req.tool_id)
    ∷ opinion gate2_capability req.gate2
    ∷ opinion gate3_safety (safety_outcome (classify c.classifier env req.tool_id req.input).0)
    ∷ opinion rule_of_two (resolve_rule_of_two req.taint_state req.taint).0
    ∷ opinion approval_policy (resolve_approval c.cfg.approval req.effect_class)
    ∷ []

abbrev bind : Progress → (Resolution → Progress) → Progress
bind (goes_on acc) f = f acc
bind (stops acc) f = stops acc
bind (fails acc l) f = fails acc l

unfoldable pub walk : Resolution → List Opinion → Progress
walk acc [] = goes_on acc
walk acc (o ∷ os) = bind (fold acc o.layer o.outcome) (λ a. walk a os)

-- What the caller sees of a walk: the resolution and the error.
abbrev pub Verdict : Type 0
Verdict = record { resolved : Resolution; err : Option Layer }

unfoldable pub finish : (Resolution → Resolution) → Progress → Verdict
finish f (goes_on acc) = record { resolved = f acc; err = none }
finish f (stops acc) = record { resolved = acc; err = none }
finish f (fails acc l) = record { resolved = acc; err = some l }

unfoldable pub seen : Answer → Verdict
seen a = record { resolved = a.answer; err = a.err }

-- One layer of `resolve` is one step of the walk.
seen-after :
    (f : Resolution → Resolution) (acc : Resolution) (l : Layer) (o : LayerOutcome)
    (os : List Opinion) (t : TaintState) (b : Breaker) (next : Resolution → Answer)
    → ((a : Resolution) → seen (next a) ≡ finish f (walk a os))
    → seen (after (fold acc l o) t b next) ≡ finish f (walk acc (opinion l o ∷ os))
unfolding walk after seen finish
seen-after f acc l o os t b next h = go (fold acc l o)
  where
    go : (w : Progress) → seen (after w t b next) ≡ finish f (bind w (λ a. walk a os))
    go (goes_on a) = h a
    go (stops a) = refl
    go (fails a x) = refl

seen-settled :
    (f : Resolution → Resolution) (acc : Resolution) (t : TaintState) (b : Breaker)
    → seen (record { answer = f acc; taint_state = t; err = none; breaker = b })
      ≡ finish f (walk acc [])
unfolding seen finish walk
seen-settled f acc t b = refl

abbrev pub settled : Chain → Request → Resolution → Resolution
settled c req acc = settle acc.decision c req acc

-- `resolve` is the walk over its opinions, settled by the layers 9 and 10.
pub resolve-walk :
    (c : Chain) (env : Env) (req : Request)
    → seen (resolve c env req) ≡ finish (settled c req) (walk undecided (opinions c env req))
unfolding resolve from_safety opinions
resolve-walk c env req = seen-after (settled c req) _ _ _ _ _ _ _ λ a1.
    seen-after (settled c req) _ _ _ _ _ _ _ λ a2. seen-after (settled c req) _ _ _ _ _ _ _ λ a3.
      seen-after (settled c req) _ _ _ _ _ _ _ λ a4. seen-after (settled c req) _ _ _ _ _ _ _ λ a5.
        seen-after (settled c req) _ _ _ _ _ _ _ λ a6.
          seen-after (settled c req) _ _ _ _ _ _ _
            λ a7. seen-after (settled c req) _ _ _ _ _ _ _ λ a8. seen-settled (settled c req) a8 _ _
