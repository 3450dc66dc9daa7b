-- ===== src/Permissions/RuleOfTwo.antt =====
-- internal/permissions/ruleoftwo.go: layer 7, the taint legs that a session has engaged.
use nexus_agent_demo.Prelude.{
  ℕ, ◌+◌, ◌≡◌, refl, ◌∙◌, ◌↔◌, Bool, true, false, ◌||◌, List, [], ◌∷◌, arith, ltb, if◌then◌else◌,
}
use nexus_agent_demo.Permissions.Types.{
  ask, LayerOutcome, Taint, session, asks, defers, third_leg, within_two_legs,
}

-- Engaged [3]bool, with a field for each leg.
pub record TaintState : Type 0 where
  pub untrusted_input : Bool
  pub private_data : Bool
  pub external_effect : Bool

abbrev pub bit : Bool → ℕ
bit b = if b then 1 else 0

unfoldable pub engaged_count : TaintState → ℕ
engaged_count s = bit s.untrusted_input + bit s.private_data + bit s.external_effect

unfoldable pub rebaseline : TaintState → TaintState
rebaseline s = record s { untrusted_input = false }

-- The loop over `legsFor(t)`, which sets a leg of `next` where the call declares it.
unfoldable pub admit : TaintState → Taint → TaintState
admit s t = record {
  untrusted_input = if t.returns_untrusted then true else s.untrusted_input;
  private_data = if t.reads_private_data then true else s.private_data;
  external_effect = if t.mutates_external then true else s.external_effect;
}

unfoldable pub resolve_rule_of_two : TaintState → Taint → LayerOutcome × TaintState
unfolding admit engaged_count
resolve_rule_of_two state t =
    let next = admit state t in
    if ltb 2 (engaged_count next)
    then (asks session third_leg, next)
    else (defers within_two_legs, next)

-- A session's calls, or an operator's re-baseline between them.
pub data TaintStep : Type 0 where
  call : Taint → TaintStep
  rebaselined : TaintStep

unfoldable pub step : TaintState → TaintStep → TaintState
step s (call t) = (resolve_rule_of_two s t).1
step s rebaselined = rebaseline s

unfoldable pub steps : TaintState → List TaintStep → TaintState
steps s [] = s
steps s (e ∷ es) = steps (step s e) es

-- A leg is engaged from the start, or a call of the history declares it; the untrusted input's leg
-- by a call since the last re-baseline, or from the start if there is none.
abbrev pub seen_untrusted : Bool → List TaintStep → Bool
seen_untrusted engaged [] = engaged
seen_untrusted engaged (call t ∷ es) = seen_untrusted (t.returns_untrusted || engaged) es
seen_untrusted engaged (rebaselined ∷ es) = seen_untrusted false es

abbrev pub seen_private : Bool → List TaintStep → Bool
seen_private engaged [] = engaged
seen_private engaged (call t ∷ es) = seen_private (t.reads_private_data || engaged) es
seen_private engaged (rebaselined ∷ es) = seen_private engaged es

abbrev pub seen_external : Bool → List TaintStep → Bool
seen_external engaged [] = engaged
seen_external engaged (call t ∷ es) = seen_external (t.mutates_external || engaged) es
seen_external engaged (rebaselined ∷ es) = seen_external engaged es

-- The legs of the state with those that the call declares.
pub resolved_legs :
    (s : TaintState) (t : Taint)
    → (resolve_rule_of_two s t).1 ≡ record {
      untrusted_input = t.returns_untrusted || s.untrusted_input;
      private_data = t.reads_private_data || s.private_data;
      external_effect = t.mutates_external || s.external_effect;
    }
unfolding resolve_rule_of_two admit
resolved_legs s t = ground arith

steps_legs :
    (s : TaintState) (es : List TaintStep)
    → steps s es ≡ record {
      untrusted_input = seen_untrusted s.untrusted_input es;
      private_data = seen_private s.private_data es;
      external_effect = seen_external s.external_effect es;
    }
unfolding steps step rebaseline
steps_legs s [] = refl
steps_legs s (call t ∷ es) = steps_legs (resolve_rule_of_two s t).1 es ∙ rw (resolved_legs s t) refl
steps_legs s (rebaselined ∷ es) = steps_legs (rebaseline s) es

asks_at :
    (s : TaintState) (t : Taint)
    → ((resolve_rule_of_two s t).0.decision ≡ ask) ↔ (
        (t.returns_untrusted || s.untrusted_input ≡ true)
        × (t.reads_private_data || s.private_data ≡ true)
        × (t.mutates_external || s.external_effect ≡ true))
unfolding resolve_rule_of_two admit engaged_count
asks_at s t = ground arith

-- After any history of calls and re-baselines, a call resolves Ask exactly if each of the three legs
-- is declared by the call, or was declared by a call of the history or engaged before it; for the
-- untrusted input's leg, since the last re-baseline.
pub third_leg_asks :
    (s : TaintState) (es : List TaintStep) (t : Taint)
    → ((resolve_rule_of_two (steps s es) t).0.decision ≡ ask) ↔ (
        (t.returns_untrusted || seen_untrusted s.untrusted_input es ≡ true)
        × (t.reads_private_data || seen_private s.private_data es ≡ true)
        × (t.mutates_external || seen_external s.external_effect es ≡ true))
third_leg_asks s es t = rw (steps_legs s es) (asks_at _ t)

-- No step, a re-baseline included, clears a leg other than the untrusted input's.
pub step_keeps_private :
    (s : TaintState) (e : TaintStep) → s.private_data ≡ true → (step s e).private_data ≡ true
unfolding step resolve_rule_of_two rebaseline
step_keeps_private s (call t) h = ground arith
step_keeps_private s rebaselined h = h

pub step_keeps_external :
    (s : TaintState) (e : TaintStep) → s.external_effect ≡ true → (step s e).external_effect ≡ true
unfolding step resolve_rule_of_two rebaseline
step_keeps_external s (call t) h = ground arith
step_keeps_external s rebaselined h = h

-- The private-data and external-effect legs, once engaged, are engaged after any history of
-- calls and re-baselines.
pub steps_keep_legs :
    (s : TaintState) (es : List TaintStep)
    → s.private_data ≡ true
    → s.external_effect ≡ true
    → ((steps s es).private_data ≡ true) × ((steps s es).external_effect ≡ true)
unfolding steps
steps_keep_legs s [] p x = (p, x)
steps_keep_legs s (e ∷ es) p x =
    steps_keep_legs (step s e) es (step_keeps_private s e p) (step_keeps_external s e x)
