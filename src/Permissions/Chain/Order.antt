-- ===== src/Permissions/Chain/Order.antt =====
-- What the published order of the ten layers guarantees.
use nexus_agent_demo.Prelude.{
  ◌≡◌, ◌≢◌, refl, sym, true, false, Option, none, some, List, [], ◌∷◌, ◌++◌, All, Any, ◌⊎◌, inl,
  inr, Bool-cases, ap, ◌∙◌,
}
use nexus_agent_demo.Prelude.Text.{Text}
use nexus_agent_demo.Permissions.Types.{
  Decision, allow, ask, deny, ask_none, Layer, Resolution, resolution, undecided,
}
use nexus_agent_demo.Permissions.Safety.{Env}
use nexus_agent_demo.Permissions.Chain.{
  Chain, Request, StandingScope, covers, by_scope, settle, resolve,
}
use nexus_agent_demo.Permissions.Chain.Walk.{
  Opinion, opinions, walk, Verdict, finish, seen, settled, resolve-walk,
}
use nexus_agent_demo.Permissions.Chain.Gather.{
  IsPassing, IsSilent, fold_deny, fold_allow, fold_passing, merge, merge-ne-allow, merge_ask,
  merge_asked, gather-ne-allow, walk_deny, walk_allow, walk_ask, stop_cases,
}

-- No standing scope covers the request's tool.
abbrev pub NoScope : Chain → Request → Type 0
NoScope c req = All (λ s. covers s req.tool_id req.namespace ≡ false) c.cfg.standing_scopes

abbrev pub SomeScope : Chain → Request → Type 0
SomeScope c req = Any (λ s. covers s req.tool_id req.namespace ≡ true) c.cfg.standing_scopes

ask_cases : (d : Decision) → (d ≡ ask) ⊎ (d ≢ ask)
ask_cases ask = inl refl
ask_cases _ = inr (λ e. cc)

module _ (tool_id namespace : Text) (acc : Resolution) (at : Option Layer) where
  by_scope-none :
      (ss : List StandingScope)
      → All (λ s. covers s tool_id namespace ≡ false) ss
      → by_scope ss tool_id namespace acc at ≡ acc
  unfolding by_scope
  by_scope-none [] h = refl
  by_scope-none (s ∷ ss) h = rw (h.0) (by_scope-none ss h.1)

  by_scope-allow :
      (ss : List StandingScope)
      → acc.decision ≢ allow
      → (by_scope ss tool_id namespace acc at).decision ≡ allow
      → Any (λ s. covers s tool_id namespace ≡ true) ss
  unfolding by_scope
  by_scope-allow [] n h = absurd (n h)
  by_scope-allow (s ∷ ss) n h = elim (Bool-cases (covers s tool_id namespace)) [
    | inl e ↦ inl e
    | inr e ↦ inr (by_scope-allow ss n (rw e at h))
  ]

settle_ask :
    (d : Decision) (c : Chain) (req : Request) (acc : Resolution)
    → d ≡ ask
    → settle d c req acc ≡ by_scope c.cfg.standing_scopes req.tool_id req.namespace acc acc.layer
unfolding settle
settle_ask d c req acc e = rw e

settled-ask :
    (c : Chain) (req : Request) (acc : Resolution)
    → acc.decision ≡ ask
    → NoScope c req
    → settled c req acc ≡ acc
settled-ask c req acc a n =
    settle_ask acc.decision c req acc a
    ∙ by_scope-none req.tool_id req.namespace acc acc.layer c.cfg.standing_scopes n

settled-allow :
    (c : Chain) (req : Request) (acc : Resolution)
    → acc.decision ≢ allow
    → (settled c req acc).decision ≡ allow
    → (acc.decision ≢ ask) ⊎ SomeScope c req
settled-allow c req acc n h = elim (ask_cases acc.decision) [
  | inl e ↦ inr (
      by_scope-allow req.tool_id req.namespace acc acc.layer c.cfg.standing_scopes n
        (ap (λ (r : Resolution). r.decision) (sym (settle_ask acc.decision c req acc e)) ∙ h))
  | inr k ↦ inl k
]

module _ (c : Chain) (req : Request) where
  consent :
      (acc : Resolution) (os : List Opinion)
      → acc.decision ≢ allow
      → (finish (settled c req) (walk acc os)).resolved.decision ≡ allow
      → All IsPassing os × (((acc.decision ≢ ask) × All IsSilent os) ⊎ SomeScope c req)
  unfolding finish walk
  consent acc [] n h = (tt, from_settled (settled-allow c req acc n h))
    where
      from_settled :
          (acc.decision ≢ ask) ⊎ SomeScope c req
          → ((acc.decision ≢ ask) × Unit {0}) ⊎ SomeScope c req
      from_settled (inl k) = inl (k, tt)
      from_settled (inr k) = inr k
  consent acc (o ∷ os) n h = elim (stop_cases o.outcome.decision) [
    | inl d ↦ cc (rw (fold_deny acc o.layer o.outcome d) at h)
    | inr (inl a) ↦ absurd (n (rw (fold_allow acc o.layer o.outcome a) at h))
    | inr (inr p) ↦
        let ih =
          consent (merge acc o.layer o.outcome) os (merge-ne-allow acc o.layer o.outcome n)
            (rw (fold_passing acc o.layer o.outcome p.0 p.1) at h) in
        ((p, ih.0), cons_consent p ih.1)
  ]
    where
      cons_consent :
          IsPassing o
          → (((merge acc o.layer o.outcome).decision ≢ ask) × All IsSilent os) ⊎ SomeScope c req
          → ((acc.decision ≢ ask) × All IsSilent (o ∷ os)) ⊎ SomeScope c req
      cons_consent p (inl (m, s)) = inl (
        (λ e. m (ap (λ (r : Resolution). r.decision) (merge_asked acc o.layer o.outcome e) ∙ e)),
        ((p, (λ e. m (merge_ask acc o.layer o.outcome e))), s),
      )
      cons_consent p (inr k) = inr k

module _ (c : Chain) (env : Env) (req : Request) where
  -- The resolution and the error in one equation, by the walk.
  seen-resolve :
      (os : List Opinion)
      → opinions c env req ≡ os
      → seen (resolve c env req) ≡ finish (settled c req) (walk undecided os)
  seen-resolve os e = rw (← e) (resolve-walk c env req)

  -- If an opinion denies and none before it denies or resolves Allow, the chain resolves Deny
  -- at that layer with its reason and no error, whatever the later opinions and the standing
  -- scopes are.
  pub deny_is_final :
      (before later : List Opinion) (o : Opinion)
      → opinions c env req ≡ before ++ o ∷ later
      → All IsPassing before
      → o.outcome.decision ≡ deny
      → ((resolve c env req).answer ≡ resolution deny (some o.layer) o.outcome.reason ask_none)
        × ((resolve c env req).err ≡ none)
  unfolding seen
  deny_is_final before later o e h d =
      let p = seen-resolve (before ++ o ∷ later) e ∙ walk_deny (settled c req) before later o h d in
      (ap (λ (v : Verdict). v.resolved) p, ap (λ (v : Verdict). v.err) p)

  -- If an opinion resolves Allow and none before it denies or resolves Allow, the chain
  -- returns an error for that layer, beside a resolution that is not Allow.
  pub allow_is_error :
      (before later : List Opinion) (o : Opinion)
      → opinions c env req ≡ before ++ o ∷ later
      → All IsPassing before
      → o.outcome.decision ≡ allow
      → ((resolve c env req).answer.decision ≢ allow) × ((resolve c env req).err ≡ some o.layer)
  unfolding seen
  allow_is_error before later o e h d =
      let p =
        seen-resolve (before ++ o ∷ later) e ∙ walk_allow (settled c req) before later o h d in
      (
        rw (ap (λ (v : Verdict). v.resolved) p) (gather-ne-allow undecided before (λ q. cc)),
        ap (λ (v : Verdict). v.err) p,
      )

  -- If no opinion denies or resolves Allow, an opinion asks, none before it asks, and no
  -- standing scope covers the tool, the chain resolves Ask with that opinion's layer, reason
  -- and kind: a later ask, such as the approval policy's, does not change the kind.
  pub first_ask_binds :
      (before later : List Opinion) (o : Opinion)
      → opinions c env req ≡ before ++ o ∷ later
      → All IsSilent before
      → o.outcome.decision ≡ ask
      → All IsPassing later
      → NoScope c req
      → (resolve c env req).answer
        ≡ resolution ask (some o.layer) o.outcome.reason o.outcome.ask_kind
  unfolding seen
  first_ask_binds before later o e h a k n =
      let p =
        seen-resolve (before ++ o ∷ later) e ∙ walk_ask (settled c req) before later o h a k in
      ap (λ (v : Verdict). v.resolved) p ∙ settled-ask c req _ refl n

  -- If the chain resolves Allow, then none of the eight opinions denies or resolves Allow, and
  -- either none of them asks or a standing scope covers the request's tool.
  pub allow_needs_consent :
      (resolve c env req).answer.decision ≡ allow
      → All IsPassing (opinions c env req) × (All IsSilent (opinions c env req) ⊎ SomeScope c req)
  unfolding seen
  allow_needs_consent h =
      let p = resolve-walk c env req in
      let k =
        consent c req undecided (opinions c env req) (λ e. cc)
          (ap (λ (v : Verdict). v.resolved.decision) (sym p) ∙ h) in
      (k.0, drop_start k.1)
    where
      drop_start :
          ((undecided.decision ≢ ask) × All IsSilent (opinions c env req)) ⊎ SomeScope c req
          → All IsSilent (opinions c env req) ⊎ SomeScope c req
      drop_start (inl (k, s)) = inl s
      drop_start (inr k) = inr k
