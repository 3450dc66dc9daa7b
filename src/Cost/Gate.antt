-- ===== src/Cost/Gate.antt =====
-- internal/cost/gate.go and gate_helpers.go: the gate's state and its helpers.
-- Each is a step on the gate beside its two ports; the caches of the gate are functions. The clock
-- is an argument, `now`.
pub mod Reserve
pub mod Reconcile
use nexus_agent_demo.Prelude.{
  ℕ, Bool, true, false, Option, none, some, List, [], ◌∷◌, ◌==◌, if◌then◌else◌,
}
use nexus_agent_demo.Prelude.Int.{ℤ, pos}
use nexus_agent_demo.Prelude.Text.{Text}
use nexus_agent_demo.Cost.Money.{Money, add, zero_money}
use nexus_agent_demo.Cost.Prices.{
  PriceBookEntry, Meter, input_uncached, output, embedding_tokens, default_meters, cost,
}
use nexus_agent_demo.Cost.Counters.{Counters, arm}
use nexus_agent_demo.Cost.Ledger.{
  Ledger, load_price_book, get_budget, sum_cost_records, record_decision, set,
}
use nexus_agent_demo.Cost.Types.{
  Budget, BudgetScope, tenant_scope, session_scope, Decision, refuse_ceiling, Reason, Purpose,
  embedding, turn, Reservation, GateConfig, with_defaults, subject_of,
}

pub record SessionCeilState : Type 0 where
  pub budget : Option Budget
  pub spent : Money

-- `counters` of the ports is `none` for a nil Counters.
pub record Gate : Type 0 where
  pub ledger : Ledger
  pub counters : Option Counters
  pub meters : List Meter
  pub cfg : GateConfig
  pub price_books : ℕ → Option (List PriceBookEntry)
  pub session_state : ℕ → Option SessionCeilState
  pub tenant_cache : ℕ → Option (Option Budget)
  pub armed : ℕ → Bool

abbrev or_default : Option (List Meter) → List Meter
or_default none = default_meters
or_default (some ms) = ms

unfoldable pub new_gate : Ledger → Option Counters → Option (List Meter) → GateConfig → Gate
unfolding default_meters
new_gate ledger counters meters cfg = record {
  ledger = ledger;
  counters = counters;
  meters = or_default meters;
  cfg = with_defaults cfg;
  price_books = λ t. none;
  session_state = λ s. none;
  tenant_cache = λ t. none;
  armed = λ b. false;
}

abbrev sum_of : Option Money → Option Money → Option Money
sum_of none out = none
sum_of (some i) none = none
sum_of (some i) (some o) = add i o

abbrev is_embedding : Purpose → Bool
is_embedding embedding = true
is_embedding _ = false

unfoldable pub worst_case_cost :
    GateConfig → List PriceBookEntry → Text → Purpose → (now : ℕ) → Option Money
worst_case_cost cfg book model_id purpose now =
    let subject = subject_of model_id in
    if is_embedding purpose
    then cost book embedding_tokens subject cfg.max_embedding_token_estimate now
    else sum_of (cost book input_uncached subject cfg.max_input_token_estimate now)
        (cost book output subject cfg.max_output_token_estimate now)

-- `none` is the error, here and below.
abbrev loaded_book : Gate → ℕ → Option (List PriceBookEntry) → Gate × Option (List PriceBookEntry)
loaded_book g tenant none = (g, none)
loaded_book g tenant (some book) =
    (record g { price_books = set g.price_books tenant (some book) }, some book)

abbrev cached_book : Gate → ℕ → Option (List PriceBookEntry) → Gate × Option (List PriceBookEntry)
cached_book g tenant (some book) = (g, some book)
cached_book g tenant none = loaded_book g tenant (load_price_book g.ledger tenant)

unfoldable pub price_book_for : Gate → ℕ → Gate × Option (List PriceBookEntry)
price_book_for g tenant = cached_book g tenant (g.price_books tenant)

-- The spent amount of a new state is the zero Money, without a currency.
abbrev pub unspent : Option Budget → SessionCeilState
unspent b = record { budget = b; spent = record { micros = pos 0; currency = [] } }

abbrev loaded_session : Gate → ℕ → Option (Option Budget) → Gate × Option (Option Budget)
loaded_session g session none = (g, none)
loaded_session g session (some b) =
    (record g { session_state = set g.session_state session (some (unspent b)) }, some b)

abbrev cached_session : Gate → ℕ → ℕ → Option SessionCeilState → Gate × Option (Option Budget)
cached_session g tenant session (some st) = (g, some st.budget)
cached_session g tenant session none =
    loaded_session g session (get_budget g.ledger tenant (session_scope session))

unfoldable pub session_budget_for : Gate → ℕ → ℕ → Gate × Option (Option Budget)
session_budget_for g tenant session = cached_session g tenant session (g.session_state session)

abbrev loaded_tenant : Gate → ℕ → Option (Option Budget) → Gate × Option (Option Budget)
loaded_tenant g tenant none = (g, none)
loaded_tenant g tenant (some b) =
    (record g { tenant_cache = set g.tenant_cache tenant (some b) }, some b)

abbrev cached_tenant : Gate → ℕ → Option (Option Budget) → Gate × Option (Option Budget)
cached_tenant g tenant (some b) = (g, some b)
cached_tenant g tenant none = loaded_tenant g tenant (get_budget g.ledger tenant tenant_scope)

unfoldable pub tenant_budget_for : Gate → ℕ → Gate × Option (Option Budget)
tenant_budget_for g tenant = cached_tenant g tenant (g.tenant_cache tenant)

-- After `Arm`: the flag is whether it had no error.
abbrev armed_gate : Gate → Budget → Counters × Bool → Gate × Bool
armed_gate g b (c, true) = (record g { counters = some c; armed = set g.armed b.id true }, true)
armed_gate g b (c, false) = (record g { counters = some c }, false)

abbrev arm_with : Gate → Counters → Budget → Option ℤ → Gate × Bool
arm_with g c b none = (g, false)
arm_with g c b (some baseline) = armed_gate g b (arm c b.id b.epoch baseline)

-- The flag is whether there is no error. `c` is the gate's counters.
unfoldable pub ensure_armed : Gate → Counters → ℕ → Budget → Gate × Bool
ensure_armed g c tenant b =
    if g.armed b.id
    then (g, true)
    else arm_with g c b (sum_cost_records g.ledger tenant tenant_scope)

-- The ledger after the decision; an error is only logged.
unfoldable pub best_effort_persist : Gate → ℕ → ℕ → Decision → Gate
best_effort_persist g tenant session d = record g {
  ledger = (record_decision g.ledger tenant session d).0;
}

-- The flag is whether there is no error.
unfoldable pub persist_decision : Gate → ℕ → ℕ → Decision → Gate × Bool
persist_decision g tenant session d =
    let (l, ok) = record_decision g.ledger tenant session d in (record g { ledger = l }, ok)

-- The reservation that Go returns beside the error.
unfoldable pub refuse : Gate → Reservation → Option ℕ → Money → Reason → Gate × Reservation
unfolding best_effort_persist
refuse g res budget_id reserved reason =
    let d : Decision = record {
      kind = refuse_ceiling;
      reason = reason;
      budget_id = budget_id;
      reserved = record { micros = pos 0; currency = reserved.currency };
    } in
    (best_effort_persist g res.tenant res.session d, record res { decision = d })
