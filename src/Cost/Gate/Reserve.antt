-- ===== src/Cost/Gate/Reserve.antt =====
-- internal/cost/reserve.go: Reserve, one definition for each stretch between its early returns.
-- What Go returns is the gate and the reservation; the error is non-nil where the decision's kind
-- is `refuse_ceiling`.
pub mod Shape
pub mod Ceiling
pub mod Promises
pub mod Flush
use nexus_agent_demo.Prelude.{
  ℕ, Bool, true, false, not, ◌&&◌, ◌||◌, Option, none, some, List, [], ◌∷◌, ◌==◌, if◌then◌else◌,
}
use nexus_agent_demo.Prelude.Int.{ℤ, pos, ◌*ℤ◌, ltb_ℤ, leb_ℤ}
use nexus_agent_demo.Prelude.Text.{Text, text_eq}
use nexus_agent_demo.Cost.Money.{Money, add, int64, zero_money}
use nexus_agent_demo.Cost.Prices.{PriceBookEntry}
use nexus_agent_demo.Cost.Counters.{
  Counters, counter_reserve, counter_release, ReserveOutcome, reserve_unavailable,
  reserve_stale_epoch, reserve_over_ceiling, reserve_ok,
}
use nexus_agent_demo.Cost.Ledger.{set}
use nexus_agent_demo.Cost.Types.{
  Budget, Decision, DecisionKind, allow, degrade, skip, Reason, no_budget, price_book_unavailable,
  cannot_price, session_lookup_failed, tenant_lookup_failed, session_ceiling_exceeded, no_counter,
  epoch_unavailable, check_failed, epoch_changed, tenant_ceiling_exceeded, record_failed,
  soft_threshold, session_room, tenant_room, both_room, ReserveRequest, Reservation,
}
use nexus_agent_demo.Cost.Gate.{
  Gate, SessionCeilState, worst_case_cost, price_book_for, session_budget_for, tenant_budget_for,
  ensure_armed, best_effort_persist, persist_decision, refuse,
}

-- spent * 100 >= ceiling * percent, in int64.
unfoldable pub crosses : ℤ → ℤ → ℤ → Bool
crosses spent ceiling percent = leb_ℤ (int64 (ceiling *ℤ percent)) (int64 (spent *ℤ pos 100))

decision_reason : DecisionKind → Option Budget → Option Budget → Reason
decision_reason degrade s t = soft_threshold
decision_reason _ (some s) (some t) = both_room
decision_reason _ (some s) none = session_room
decision_reason _ none (some t) = tenant_room
decision_reason _ none none = no_budget

-- What the checks before have found for the rest of Reserve to use.
pub record Found : Type 0 where
  pub res : Reservation
  pub worst : Money
  pub session_budget : Option Budget
  pub tenant_budget : Option Budget
  pub session_spent : Money  -- tentativeSessionSpent
  pub soft_hit : Bool

-- The epoch of the tenant's reservation, 0 where there is none.
abbrev epoch_of : Option Budget → ℕ
epoch_of none = 0
epoch_of (some t) = t.epoch

abbrev id_of : Option Budget → Option ℕ
id_of none = none
id_of (some b) = some b.id

abbrev deciding : Option Budget → Option Budget → Option ℕ
deciding (some s) t = some s.id
deciding none t = id_of t

-- The rollback of what the tenant's counter holds.
abbrev release_tenant : Gate → Option Counters → Option Budget → ℤ → Gate
release_tenant g (some c) (some t) amount = record g {
  counters = some (counter_release c t.id t.epoch amount).0;
}
release_tenant g _ _ amount = g

abbrev write_session : Gate → ℕ → Option Budget → Money → Gate
write_session g session none spent = g
write_session g session (some b) spent = record g {
  session_state = set g.session_state session (some (record { budget = some b; spent = spent }));
}

abbrev finished : Found → Decision → Gate × Bool → Gate × Reservation
finished f d (g, true) = (
  write_session g f.res.session f.session_budget f.session_spent,
  record (f.res) {
    decision = d;
    session_budget = f.session_budget;
    tenant_budget = f.tenant_budget;
    tenant_epoch = epoch_of f.tenant_budget;
  },
)
finished f d (g, false) =
    refuse (release_tenant g g.counters f.tenant_budget f.worst.micros)
      (record (f.res) { tenant_epoch = epoch_of f.tenant_budget }) d.budget_id f.worst record_failed

-- `decision`, with `kind` and `deciding`.
unfoldable pub decided : Found → Decision
unfolding decision_reason
decided f =
    let kind = if f.soft_hit then degrade else allow in
    record {
      kind = kind;
      reason = decision_reason kind f.session_budget f.tenant_budget;
      budget_id = deciding f.session_budget f.tenant_budget;
      reserved = f.worst;
    }

-- From `deciding := sessBudget` on.
unfoldable pub reserve_decide : Gate → Found → Gate × Reservation
unfolding decided persist_decision
reserve_decide g f =
    finished f (decided f) (persist_decision g f.res.tenant f.res.session (decided f))

abbrev outcome : Gate → Found → Budget → Counters × Option (ReserveOutcome × ℤ) → Gate × Reservation
outcome g f t (c, none) =
    refuse (record g { counters = some c }) f.res (some t.id) f.worst check_failed
outcome g f t (c, some (reserve_unavailable, total)) =
    refuse (record g { counters = some c }) f.res (some t.id) f.worst epoch_unavailable
outcome g f t (c, some (reserve_stale_epoch, total)) =
    refuse (record g { counters = some c }) f.res (some t.id) f.worst epoch_changed
outcome g f t (c, some (reserve_over_ceiling, total)) =
    refuse (record g { counters = some c }) f.res (some t.id) f.worst tenant_ceiling_exceeded
outcome g f t (c, some (reserve_ok, total)) =
    reserve_decide (record g { counters = some c })
      (record f {
        soft_hit = f.soft_hit || crosses total t.ceiling.micros g.cfg.degrade_threshold_percent;
      })

abbrev armed_reserve : Gate × Bool → Found → Budget → Option Counters → Gate × Reservation
armed_reserve (g, true) f t (some c) =
    outcome g f t (counter_reserve c t.id t.epoch f.worst.micros t.ceiling.micros)
armed_reserve (g, true) f t none = refuse g f.res (some t.id) f.worst no_counter
armed_reserve (g, false) f t c = refuse g f.res (some t.id) f.worst epoch_unavailable

abbrev with_counter : Gate → Found → Budget → Option Counters → Gate × Reservation
with_counter g f t none = refuse g f.res (some t.id) f.worst no_counter
with_counter g f t (some c) =
    let armed = ensure_armed g c f.res.tenant t in armed_reserve armed f t armed.0.counters

abbrev at_tenant : Gate → Found → Option Budget → Gate × Reservation
at_tenant g f none = reserve_decide g f
at_tenant g f (some t) = with_counter g f t g.counters

-- The tenant-level check, and what follows it.
unfoldable pub reserve_tenant : Gate → Found → Gate × Reservation
unfolding reserve_decide
reserve_tenant g f = at_tenant g f f.tenant_budget

-- What the session has spent, in the ceiling's currency if no currency is set.
abbrev pub current_spent : Option SessionCeilState → Budget → Money
current_spent none b = record { micros = pos 0; currency = b.ceiling.currency }
current_spent (some st) b =
    if text_eq st.spent.currency []
    then record { micros = pos 0; currency = b.ceiling.currency }
    else st.spent

-- The Money that Go uses with the error of `Add` dropped: zero, without a currency.
abbrev pub or_zero_value : Option Money → Money
or_zero_value none = record { micros = pos 0; currency = [] }
or_zero_value (some m) = m

unfoldable pub tentative : Gate → ReserveRequest → Budget → Money → Money
tentative g req b worst = or_zero_value (add (current_spent (g.session_state req.session) b) worst)

abbrev at_session : Gate → ReserveRequest → Found → Option Budget → Gate × Reservation
at_session g req f none = reserve_tenant g f
at_session g req f (some b) =
    let spent = tentative g req b f.worst in
    if ltb_ℤ b.ceiling.micros spent.micros
    then refuse g f.res (some b.id) f.worst session_ceiling_exceeded
    else reserve_tenant g (record f {
      session_spent = spent;
      soft_hit = crosses spent.micros b.ceiling.micros g.cfg.degrade_threshold_percent;
    })

-- The session-level check, and what follows it.
unfoldable pub reserve_session : Gate → ReserveRequest → Found → Gate × Reservation
unfolding reserve_tenant
reserve_session g req f = at_session g req f f.session_budget

abbrev budgets_looked_up :
    Gate × Option (Option Budget)
    → ReserveRequest
    → Reservation
    → Money
    → Option Budget
    → Gate × Reservation
budgets_looked_up (g, none) req res worst s = refuse g res none worst tenant_lookup_failed
budgets_looked_up (g, some none) req res worst none =
    let d : Decision = record {
      kind = skip;
      reason = no_budget;
      budget_id = none;
      reserved = zero_money g.cfg.currency;
    } in
    (best_effort_persist g req.tenant req.session d, record res { decision = d })
budgets_looked_up (g, some t) req res worst s = reserve_session g req (record {
  res = res;
  worst = worst;
  session_budget = s;
  tenant_budget = t;
  session_spent = record { micros = pos 0; currency = [] };
  soft_hit = false;
})

abbrev session_looked_up :
    Gate × Option (Option Budget) → ReserveRequest → Reservation → Money → Gate × Reservation
session_looked_up (g, none) req res worst = refuse g res none worst session_lookup_failed
session_looked_up (g, some s) req res worst =
    budgets_looked_up (tenant_budget_for g req.tenant) req res worst s

abbrev worst_priced : Gate → ReserveRequest → Reservation → Option Money → Gate × Reservation
worst_priced g req res none = refuse g res none (zero_money g.cfg.currency) cannot_price
worst_priced g req res (some worst) =
    session_looked_up (session_budget_for g req.tenant req.session) req res worst

abbrev book_found :
    Gate × Option (List PriceBookEntry)
    → ReserveRequest
    → Reservation
    → (now : ℕ) → Gate × Reservation
book_found (g, none) req res now =
    refuse g res none (zero_money g.cfg.currency) price_book_unavailable
book_found (g, some book) req res now =
    worst_priced g req res (worst_case_cost g.cfg book req.model_id req.purpose now)

-- The decision of a reservation before there is one is Go's zero value.
abbrev blank : (id : ℕ) → ReserveRequest → Reservation
blank id req = record {
  id = id;
  tenant = req.tenant;
  session = req.session;
  model_id = req.model_id;
  decision = record {
    kind = skip;
    reason = no_budget;
    budget_id = none;
    reserved = record { micros = pos 0; currency = [] };
  };
  session_budget = none;
  tenant_budget = none;
  tenant_epoch = 0;
}

-- `id` is uuid.New's.
unfoldable pub reserve : Gate → ReserveRequest → (id : ℕ) → (now : ℕ) → Gate × Reservation
unfolding reserve_session
reserve g req id now = book_found (price_book_for g req.tenant) req (blank id req) now
