-- ===== src/Cost/Gate/Reserve/Shape.antt =====
-- The two ways in which Reserve ends once the budgets are known: refused, or granted and recorded.
use nexus_agent_demo.Prelude.{
  ℕ, ◌≡◌, refl, ◌∙◌, ◌⊎◌, inl, inr, Bool, true, false, Option, none, some, [], ◌∷◌, ◌++◌, arith,
  Bool-cases,
}
use nexus_agent_demo.Prelude.Int.{ℤ, pos}
use nexus_agent_demo.Cost.Money.{Money}
use nexus_agent_demo.Cost.Counters.{
  Counters, arm, counter_reserve, ReserveOutcome, reserve_unavailable, reserve_stale_epoch,
  reserve_over_ceiling, reserve_ok,
}
use nexus_agent_demo.Cost.Ledger.{Ledger, record_decision, sum_cost_records}
use nexus_agent_demo.Cost.Types.{
  Budget, Decision, allow, degrade, refuse_ceiling, Reason, Reservation, tenant_scope,
}
use nexus_agent_demo.Cost.Gate.{
  Gate, refuse, persist_decision, best_effort_persist, ensure_armed, arm_with, armed_gate,
}
use nexus_agent_demo.Cost.Gate.Reserve.{
  Found, reserve_decide, decided, finished, write_session, release_tenant, reserve_tenant, outcome,
  armed_reserve, with_counter, at_tenant,
}

-- Refused: no session's state has changed, and nothing is charged.
pub record Refused (g : Gate) (r : Gate × Reservation) : Type 0 where
  pub is_refused : r.1.decision.kind ≡ refuse_ceiling
  pub sessions_stay : r.0.session_state ≡ g.session_state
  pub nothing_reserved : r.1.decision.reserved.micros ≡ pos 0

-- Granted: what was found is in the reservation, the decision is in the ledger, and the session's
-- spent amount is written.
pub record Granted (g : Gate) (f : Found) (r : Gate × Reservation) : Type 0 where
  pub is_granted : (r.1.decision.kind ≡ allow) ⊎ (r.1.decision.kind ≡ degrade)
  pub worst_reserved : r.1.decision.reserved ≡ f.worst
  pub same_session_budget : r.1.session_budget ≡ f.session_budget
  pub same_tenant_budget : r.1.tenant_budget ≡ f.tenant_budget
  pub is_recorded :
      r.0.ledger.decisions f.res.tenant
      ≡ g.ledger.decisions f.res.tenant ++ (f.res.session, r.1.decision) ∷ []
  pub session_written :
      r.0.session_state
      ≡ (write_session g f.res.session f.session_budget f.session_spent).session_state
  pub session_kept : r.1.session ≡ f.res.session

abbrev pub Ends : Gate → Found → Gate × Reservation → Type 0
Ends g f r = Refused g r ⊎ Granted g f r

-- The parts of a gate that the results above speak of are the same.
pub record Alike (g g' : Gate) : Type 0 where
  pub same_ledger : g'.ledger ≡ g.ledger
  pub same_sessions : g'.session_state ≡ g.session_state

pub refuse-Refused :
    (g g' : Gate) (res : Reservation) (b : Option ℕ) (m : Money) (reason : Reason)
    → g'.session_state ≡ g.session_state
    → Refused g (refuse g' res b m reason)
unfolding refuse
refuse-Refused g g' res b m reason e = record {
  is_refused = refl;
  sessions_stay = unfold best_effort_persist in e;
  nothing_reserved = refl;
}

released_sessions :
    (g : Gate) (c : Option Counters) (t : Option Budget) (amount : ℤ)
    → (release_tenant g c t amount).session_state ≡ g.session_state
released_sessions g c t amount = ground arith

ledger_stays :
    (g : Gate) (session : ℕ) (b : Option Budget) (m : Money) (tenant : ℕ)
    → (write_session g session b m).ledger.decisions tenant ≡ g.ledger.decisions tenant
ledger_stays g session none m tenant = refl
ledger_stays g session (some b) m tenant = refl

same_written :
    (g g' : Gate) (session : ℕ) (b : Option Budget) (m : Money)
    → g'.session_state ≡ g.session_state
    → (write_session g' session b m).session_state ≡ (write_session g session b m).session_state
same_written g g' session none m e = e
same_written g g' session (some b) m e = rw e refl

finished-Ends :
    (g g' : Gate) (f : Found) (d : Decision) (ok : Bool)
    → g'.session_state ≡ g.session_state
    → (d.kind ≡ allow) ⊎ (d.kind ≡ degrade)
    → d.reserved ≡ f.worst
    → (ok ≡ true
        → g'.ledger.decisions f.res.tenant
          ≡ g.ledger.decisions f.res.tenant ++ (f.res.session, d) ∷ [])
    → Ends g f (finished f d (g', ok))
finished-Ends g g' f d true e k w h = inr (record {
  is_granted = k;
  worst_reserved = w;
  same_session_budget = refl;
  same_tenant_budget = refl;
  is_recorded =
      ledger_stays g' f.res.session f.session_budget f.session_spent f.res.tenant ∙ h refl;
  session_written = same_written g g' f.res.session f.session_budget f.session_spent e;
  session_kept = refl;
})
finished-Ends g g' f d false e k w h = inl (
    refuse-Refused g _ _ _ _ _
      (released_sessions g' g'.counters f.tenant_budget f.worst.micros ∙ e))

record_decision_appends :
    (l : Ledger) (tenant session : ℕ) (d : Decision)
    → (record_decision l tenant session d).1 ≡ true
    → (record_decision l tenant session d).0.decisions tenant
      ≡ l.decisions tenant ++ (session, d) ∷ []
unfolding record_decision
record_decision_appends l tenant session d h = ground arith

decided_kind : (f : Found) → ((decided f).kind ≡ allow) ⊎ ((decided f).kind ≡ degrade)
unfolding decided
decided_kind f = ground arith

decided_reserved : (f : Found) → (decided f).reserved ≡ f.worst
unfolding decided
decided_reserved f = refl

pub reserve_decide-Ends : (g : Gate) (f : Found) → Ends g f (reserve_decide g f)
unfolding reserve_decide persist_decision
reserve_decide-Ends g f =
    let p = record_decision g.ledger f.res.tenant f.res.session (decided f) in
    finished-Ends g (record g { ledger = p.0 }) f (decided f) p.1 refl (decided_kind f)
      (decided_reserved f) (record_decision_appends g.ledger f.res.tenant f.res.session (decided f))

Alike-Ends :
    (g g' : Gate) (f : Found) (r : Gate × Reservation) → Alike g g' → Ends g' f r → Ends g f r
Alike-Ends g g' f r a (inl x) = inl (record {
  is_refused = x.is_refused;
  sessions_stay = x.sessions_stay ∙ a.same_sessions;
  nothing_reserved = x.nothing_reserved;
})
Alike-Ends g g' f r a (inr x) = inr (record {
  is_granted = x.is_granted;
  worst_reserved = x.worst_reserved;
  same_session_budget = x.same_session_budget;
  same_tenant_budget = x.same_tenant_budget;
  is_recorded = rw (← a.same_ledger) x.is_recorded;
  session_written =
      x.session_written
      ∙ same_written g g' f.res.session f.session_budget f.session_spent a.same_sessions;
  session_kept = x.session_kept;
})

-- The results do not depend on whether the soft threshold has been hit.
softly :
    (g : Gate) (f : Found) (b : Bool) (r : Gate × Reservation)
    → Ends g (record f { soft_hit = b }) r
    → Ends g f r
softly g f b r (inl x) = inl x
softly g f b r (inr x) = inr (record {
  is_granted = x.is_granted;
  worst_reserved = x.worst_reserved;
  same_session_budget = x.same_session_budget;
  same_tenant_budget = x.same_tenant_budget;
  is_recorded = x.is_recorded;
  session_written = x.session_written;
  session_kept = x.session_kept;
})

outcome-Ends :
    (g : Gate) (f : Found) (t : Budget) (c : Counters) (o : Option (ReserveOutcome × ℤ))
    → Ends g f (outcome g f t (c, o))
outcome-Ends g f t c none = inl (refuse-Refused g (record g { counters = some c }) _ _ _ _ refl)
outcome-Ends g f t c (some (reserve_unavailable, n)) =
    inl (refuse-Refused g (record g { counters = some c }) _ _ _ _ refl)
outcome-Ends g f t c (some (reserve_stale_epoch, n)) =
    inl (refuse-Refused g (record g { counters = some c }) _ _ _ _ refl)
outcome-Ends g f t c (some (reserve_over_ceiling, n)) =
    inl (refuse-Refused g (record g { counters = some c }) _ _ _ _ refl)
outcome-Ends g f t c (some (reserve_ok, n)) = softly g f _ _ (
    Alike-Ends g (record g { counters = some c }) _ _
      (record { same_ledger = refl; same_sessions = refl })
      (reserve_decide-Ends (record g { counters = some c }) _))

armed_reserve-Ends :
    (g g' : Gate) (ok : Bool) (f : Found) (t : Budget) (c : Option Counters)
    → Alike g g'
    → Ends g f (armed_reserve (g', ok) f t c)
armed_reserve-Ends g g' true f t (some c) a =
    let k = counter_reserve c t.id t.epoch f.worst.micros t.ceiling.micros in
    Alike-Ends g g' f _ a (outcome-Ends g' f t k.0 k.1)
armed_reserve-Ends g g' true f t none a = inl (refuse-Refused g g' _ _ _ _ a.same_sessions)
armed_reserve-Ends g g' false f t c a = inl (refuse-Refused g g' _ _ _ _ a.same_sessions)

itself : (g : Gate) → Alike g g
itself g = record { same_ledger = refl; same_sessions = refl }

armed_gate-Alike :
    (g : Gate) (b : Budget) (c : Counters) (ok : Bool) → Alike g (armed_gate g b (c, ok)).0
armed_gate-Alike g b c true = record { same_ledger = refl; same_sessions = refl }
armed_gate-Alike g b c false = record { same_ledger = refl; same_sessions = refl }

arm_with-Alike :
    (g : Gate) (c : Counters) (b : Budget) (baseline : Option ℤ)
    → Alike g (arm_with g c b baseline).0
arm_with-Alike g c b none = itself g
arm_with-Alike g c b (some n) = let k = arm c b.id b.epoch n in armed_gate-Alike g b k.0 k.1

ensure_armed-Alike :
    (g : Gate) (c : Counters) (tenant : ℕ) (b : Budget) → Alike g (ensure_armed g c tenant b).0
unfolding ensure_armed
ensure_armed-Alike g c tenant b = elim (Bool-cases (g.armed b.id)) [
  | inl e ↦ rw e (itself g)
  | inr e ↦ rw e (arm_with-Alike g c b (sum_cost_records g.ledger tenant tenant_scope))
]

with_counter-Ends :
    (g : Gate) (f : Found) (t : Budget) (c : Option Counters) → Ends g f (with_counter g f t c)
with_counter-Ends g f t none = inl (refuse-Refused g g _ _ _ _ refl)
with_counter-Ends g f t (some c) =
    let a = ensure_armed g c f.res.tenant t in
    armed_reserve-Ends g a.0 a.1 f t a.0.counters (ensure_armed-Alike g c f.res.tenant t)

pub reserve_tenant-Ends : (g : Gate) (f : Found) → Ends g f (reserve_tenant g f)
unfolding reserve_tenant
reserve_tenant-Ends g f = go f.tenant_budget
  where
    go : (t : Option Budget) → Ends g f (at_tenant g f t)
    go none = reserve_decide-Ends g f
    go (some t) = with_counter-Ends g f t g.counters
