-- ===== src/Permissions/Chain/Recorded.antt =====
-- What the chain records of an allowed call: its taint legs.
use nexus_agent_demo.Prelude.{◌≡◌, ◌≢◌, refl, ◌∙◌, ◌||◌, inl, inr}
use nexus_agent_demo.Permissions.Types.{allow, Layer, LayerOutcome, Resolution, undecided}
use nexus_agent_demo.Permissions.RuleOfTwo.{TaintState, resolve_rule_of_two, resolved_legs}
use nexus_agent_demo.Permissions.Safety.{Env, Breaker}
use nexus_agent_demo.Permissions.Chain.{Chain, Request, Answer, fold, after, from_safety, resolve}
use nexus_agent_demo.Permissions.Chain.Gather.{
  stop_cases, fold_deny, fold_allow, fold_passing, merge, merge-ne-allow,
}

-- An allowed answer carries the taint state `t'`.
record Records (t' : TaintState) (a : Answer) : Type 0 where
  recorded : a.answer.decision ≡ allow → a.taint_state ≡ t'

after-Records :
    (t' : TaintState) (acc : Resolution) (l : Layer) (o : LayerOutcome) (t : TaintState)
    (b : Breaker) (next : Resolution → Answer)
    → acc.decision ≢ allow
    → ((a : Resolution) → a.decision ≢ allow → Records t' (next a))
    → Records t' (after (fold acc l o) t b next)
unfolding after
after-Records t' acc l o t b next n h = elim (stop_cases o.decision) [
  | inl d ↦ record { recorded = rw (fold_deny acc l o d) (λ e. cc) }
  | inr (inl a) ↦ record { recorded = rw (fold_allow acc l o a) (λ e. absurd (n e)) }
  | inr (inr p) ↦ rw (fold_passing acc l o p.0 p.1) (h (merge acc l o) (merge-ne-allow acc l o n))
]

resolve-Records :
    (c : Chain) (env : Env) (req : Request)
    → Records (resolve_rule_of_two req.taint_state req.taint).1 (resolve c env req)
unfolding resolve from_safety
resolve-Records c env req =
    after-Records _ undecided _ _ _ _ _ (λ e. cc)
      λ a1 n1. after-Records _ a1 _ _ _ _ _ n1 λ a2 n2. after-Records _ a2 _ _ _ _ _ n2 λ a3 n3.
        after-Records _ a3 _ _ _ _ _ n3 λ a4 n4. after-Records _ a4 _ _ _ _ _ n4 λ a5 n5.
          after-Records _ a5 _ _ _ _ _ n5 λ a6 n6.
            after-Records _ a6 _ _ _ _ _ n6
              λ a7 n7. after-Records _ a7 _ _ _ _ _ n7 λ a8 n8. record { recorded = λ e. refl }

-- If the chain resolves Allow, the taint state that it returns has engaged exactly the legs that the
-- request's taint state had and those that the call declares.
pub allowed_is_recorded :
    (c : Chain) (env : Env) (req : Request)
    → (resolve c env req).answer.decision ≡ allow
    → (resolve c env req).taint_state ≡ record {
      untrusted_input = req.taint.returns_untrusted || req.taint_state.untrusted_input;
      private_data = req.taint.reads_private_data || req.taint_state.private_data;
      external_effect = req.taint.mutates_external || req.taint_state.external_effect;
    }
allowed_is_recorded c env req h =
    (resolve-Records c env req).recorded h ∙ resolved_legs req.taint_state req.taint
