-- ===== src/Cost/Examples.antt =====
-- Examples of the theorems on the cost gate, at concrete inputs.
mod Amounts
use nexus_agent_demo.Prelude.{
  ℕ, ◌+◌, ◌*◌, ◌≤◌, ◌<◌, ◌≡◌, ◌≢◌, refl, ap, sym, ◌∙◌, ◌⊎◌, inr, true, false, Option, none, some,
  List, [], ◌∷◌, ◌++◌, ◌==◌, arith, if◌then◌else◌,
}
use nexus_agent_demo.Prelude.Int.{ℤ, pos, ◌+ℤ◌, ◌*ℤ◌, ◌≤ℤ◌}
use nexus_agent_demo.Prelude.Text.{Text, codes, text_eq, text_eq_iff}
use nexus_agent_demo.Cost.Money.{Money, add, int64, price_quantity, price_rounds_half_up}
use nexus_agent_demo.Cost.Prices.{PriceBookEntry, MeterId, input_uncached, output, lookup, cost}
use nexus_agent_demo.Cost.Prices.Covers.{Covers, IsAsGood}
use nexus_agent_demo.Cost.Prices.Best.{IsIn, lookup_finds_best}
use nexus_agent_demo.Cost.Counters.{Counters, counter_reserve, flush, fail_with}
use nexus_agent_demo.Cost.Counters.Within.{
  done, more, reserved, flushed, failed, Within, spend_never_passes_ceiling,
}
use nexus_agent_demo.Cost.Ledger.{
  Ledger, load_price_book, get_budget, record_decision, record_usage,
}
use nexus_agent_demo.Cost.Types.{
  Budget, allow, session_scope, tenant_scope, Decision, degrade, refuse_ceiling, soft_threshold,
  turn, ReserveRequest, Reservation, subject_of,
}
use nexus_agent_demo.Cost.Gate.{
  Gate, SessionCeilState, worst_case_cost, price_book_for, session_budget_for, tenant_budget_for,
  refuse,
}
use nexus_agent_demo.Cost.Gate.Reserve.{
  Found, reserve, reserve_session, reserve_tenant, crosses, tentative, or_zero_value,
}
use nexus_agent_demo.Cost.Gate.Reserve.Promises.{
  session_stays_within_ceiling, grant_charges_worst_case, granted_is_recorded,
  mismatch_forgets_spending,
}
use nexus_agent_demo.Cost.Gate.Reserve.Flush.{reserve_all, flushed_refuses_forever}
use nexus_agent_demo.Cost.Gate.Reconcile.{Usage, reconcile, finish_reconcile}
use nexus_agent_demo.Cost.Gate.Reconcile.Settles.{finish_charges_actual_cost}
use nexus_agent_demo.Cost.Gate.Reconcile.Errors.{SameBooks, failed_reconcile_releases_nothing}

price_rounds_half_up_example :
    let m = price_quantity (pos 1500) (pos 333) (codes "USD") in
    (m.currency ≡ codes "USD")
    × (r : ℕ) × (m.micros ≡ pos r)
    × (1_000_000 * r ≤ 1500 * 333 + 500_000)
    × (1500 * 333 + 500_000 < 1_000_000 * r + 1_000_000)
price_rounds_half_up_example = price_rounds_half_up 1500 333 (codes "USD") (omega arith)

abbrev price : MeterId → Text → ℕ → ℕ → PriceBookEntry
price meter subject version micros = record {
  meter = meter;
  subject = subject;
  version = version;
  currency = codes "USD";
  price_per_million_micros = pos micros;
  effective_from = 0;
  effective_until = none;
}

abbrev book : List PriceBookEntry
book =
    price input_uncached (codes "*") 2 3_000_000
    ∷ price input_uncached (codes "m") 1 2_000_000
    ∷ price output (codes "*") 1 15_000_000
    ∷ []

lookup_finds_best_example :
    ((lookup book input_uncached (codes "m") 5 ≡ none)
      × ((e : PriceBookEntry) → IsIn e book → ¬ Covers input_uncached (codes "m") 5 e))
    ⊎ ((w : PriceBookEntry) × (lookup book input_uncached (codes "m") 5 ≡ some w)
        × IsIn w book
        × Covers input_uncached (codes "m") 5 w
        × ((e : PriceBookEntry)
            → IsIn e book
            → Covers input_uncached (codes "m") 5 e
            → IsAsGood (codes "m") w e))
lookup_finds_best_example = lookup_finds_best book input_uncached (codes "m") 5

abbrev ceilings : ℕ → ℤ
ceilings b = pos 100

abbrev armed_counters : Counters
armed_counters = record {
  budgets = λ b. if b == 1 then some (record { epoch = 1; spend = pos 40 }) else none;
  failing = false;
}

abbrev after_reserve : Counters
after_reserve = (counter_reserve armed_counters 1 1 (pos 60) (ceilings 1)).0

armed_Within : Within ceilings armed_counters
armed_Within b k e = ground arith

spend_never_passes_ceiling_example :
    Within ceilings (flush (fail_with (fail_with after_reserve true) false))
spend_never_passes_ceiling_example =
    spend_never_passes_ceiling ceilings (λ b. (omega arith, omega arith))
      (more
        (more
          (more
            (more (done armed_counters)
              (reserved armed_counters 1 1 (pos 60) (omega arith, omega arith)))
            (failed after_reserve true))
          (failed (fail_with after_reserve true) false))
        (flushed (fail_with (fail_with after_reserve true) false)))
      armed_Within

abbrev usd : ℕ → Money
usd n = record { micros = pos n; currency = codes "USD" }

abbrev session_budget : Budget
session_budget = record { id = 1; scope = session_scope 7; ceiling = usd 100_000; epoch = 1 }

abbrev ledger : Ledger
ledger = record {
  price_books = λ t. book;
  budgets = λ t. session_budget ∷ [];
  decisions = λ t. [];
  records = λ t. [];
  fail = record {
    load_price_book = false;
    get_budget = false;
    sum_cost_records = false;
    record_decision = false;
    record_usage = true;
  };
}

abbrev gate_with : (ℕ → Option SessionCeilState) → Gate
gate_with sessions = record {
  ledger = ledger;
  counters = none;
  meters = [];
  cfg = record {
    currency = codes "USD";
    max_input_token_estimate = pos 8000;
    max_output_token_estimate = pos 4096;
    max_embedding_token_estimate = pos 8000;
    degrade_threshold_percent = pos 80;
  };
  price_books = λ t. none;
  session_state = sessions;
  tenant_cache = λ t. none;
  armed = λ b. false;
}

abbrev fresh_gate : Gate
fresh_gate = gate_with (λ s. none)

abbrev request : ReserveRequest
request = record { tenant = 3; session = 7; model_id = []; purpose = turn }

-- The first call of the session is within its budget, near the ceiling.
first_reserve_degrades :
    ((reserve fresh_gate request 1 5).1.session_budget ≡ some session_budget)
    × ((reserve fresh_gate request 1 5).1.decision.kind ≡ degrade)
unfolding reserve price_book_for load_price_book worst_case_cost cost text_eq subject_of add
    price_quantity session_budget_for get_budget tenant_budget_for tentative ◌+ℤ◌ ◌*ℤ◌
    record_decision crosses
first_reserve_degrades = (refl, refl)

first_not_refused : (reserve fresh_gate request 1 5).1.decision.kind ≢ refuse_ceiling
first_not_refused e = cc first_reserve_degrades.1

session_stays_within_ceiling_example :
    (st : SessionCeilState) × ((reserve fresh_gate request 1 5).0.session_state 7 ≡ some st)
    × (st.spent.micros ≤ℤ pos 100_000)
session_stays_within_ceiling_example =
    session_stays_within_ceiling fresh_gate request 1 5 session_budget first_reserve_degrades.0
      first_not_refused

granted_is_recorded_example :
    (reserve fresh_gate request 1 5).0.ledger.decisions 3
    ≡ [] ++ (7, (reserve fresh_gate request 1 5).1.decision) ∷ []
granted_is_recorded_example =
    granted_is_recorded fresh_gate request 1 5 (inr first_reserve_degrades.1)

abbrev spent_before : SessionCeilState
spent_before = record { budget = some session_budget; spent = usd 1_000 }

abbrev light_gate : Gate
light_gate = gate_with (λ s. some spent_before)

next_reserve_degrades :
    ((reserve light_gate request 1 5).1.session_budget ≡ some session_budget)
    × ((reserve light_gate request 1 5).1.decision.kind ≡ degrade)
unfolding reserve price_book_for load_price_book worst_case_cost cost text_eq subject_of add
    price_quantity session_budget_for get_budget tenant_budget_for tentative ◌+ℤ◌ ◌*ℤ◌
    record_decision crosses
next_reserve_degrades = (refl, refl)

next_not_refused : (reserve light_gate request 1 5).1.decision.kind ≢ refuse_ceiling
next_not_refused e = cc next_reserve_degrades.1

reserved_dollars : (reserve light_gate request 1 5).1.decision.reserved ≡ usd 85_440
unfolding reserve price_book_for load_price_book worst_case_cost cost text_eq subject_of add
    price_quantity session_budget_for get_budget tenant_budget_for tentative ◌+ℤ◌ ◌*ℤ◌
    record_decision crosses
reserved_dollars = refl

has_dollars : codes "USD" ≢ []
has_dollars e = cc

grant_charges_worst_case_example :
    (reserve light_gate request 1 5).0.session_state 7
    ≡ some (record {
      budget = some session_budget;
      spent = record {
        micros = int64 (pos 1_000 +ℤ (reserve light_gate request 1 5).1.decision.reserved.micros);
        currency = codes "USD";
      };
    })
grant_charges_worst_case_example =
    grant_charges_worst_case light_gate request 1 5 session_budget spent_before refl
      next_reserve_degrades.0 next_not_refused has_dollars
      (sym (ap (λ (m : Money). m.currency) reserved_dollars))

abbrev half_spent : SessionCeilState
half_spent = record { budget = some session_budget; spent = usd 50_000 }

abbrev busy_gate : Gate
busy_gate = gate_with (λ s. some half_spent)

busy_refuses : (reserve busy_gate request 1 5).1.decision.kind ≡ refuse_ceiling
unfolding reserve price_book_for load_price_book worst_case_cost cost text_eq subject_of add
    price_quantity session_budget_for get_budget tenant_budget_for tentative ◌+ℤ◌ ◌*ℤ◌
    record_decision crosses refuse
busy_refuses = refl

abbrev no_decision : Decision
no_decision = record {
  kind = degrade;
  reason = soft_threshold;
  budget_id = some 1;
  reserved = usd 85_440;
}

abbrev granted : Reservation
granted = record {
  id = 1;
  tenant = 3;
  session = 7;
  model_id = [];
  decision = no_decision;
  session_budget = some session_budget;
  tenant_budget = none;
  tenant_epoch = 0;
}

differ : text_eq (codes "USD") (codes "EUR") ≡ false
unfolding text_eq
differ = refl

not_euros : codes "USD" ≢ codes "EUR"
not_euros e = cc (rw differ at ((text_eq_iff (codes "USD") (codes "EUR")).1 e))

abbrev in_euros : PriceBookEntry → PriceBookEntry
in_euros e = record e { currency = codes "EUR" }

-- The tenant's prices are in euros, what the session has spent is in dollars: in one currency the
-- ceiling would be passed, as `busy_refuses` shows.
abbrev euro_gate : Gate
euro_gate = record busy_gate {
  ledger = record ledger {
    price_books = λ t.
        in_euros (price input_uncached (codes "*") 2 3_000_000)
        ∷ in_euros (price output (codes "*") 1 15_000_000)
        ∷ [];
  };
  cfg = record busy_gate.cfg { currency = codes "EUR" };
}

euros_pass :
    ((reserve euro_gate request 1 5).1.session_budget ≡ some session_budget)
    × ((reserve euro_gate request 1 5).1.decision.kind ≡ allow)
    × ((reserve euro_gate request 1 5).1.decision.reserved.currency ≡ codes "EUR")
unfolding reserve price_book_for load_price_book worst_case_cost cost text_eq subject_of add
    price_quantity session_budget_for get_budget tenant_budget_for tentative ◌+ℤ◌ ◌*ℤ◌
    record_decision crosses
euros_pass = (refl, refl, refl)

mismatch_forgets_spending_example :
    (reserve euro_gate request 1 5).0.session_state 7
    ≡ some
        (record { budget = some session_budget; spent = record { micros = pos 0; currency = [] } })
mismatch_forgets_spending_example =
    mismatch_forgets_spending euro_gate request 1 5 session_budget half_spent refl euros_pass.0
      (λ e. cc euros_pass.1) has_dollars (λ e. not_euros (e ∙ euros_pass.2))

abbrev charged_gate : Gate
charged_gate = gate_with (λ s. some (record {
  budget = some session_budget;
  spent = record { micros = pos 10 +ℤ pos 85_440; currency = codes "USD" };
}))

finish_charges_actual_cost_example :
    (finish_reconcile charged_gate granted (usd 60_000)).0.session_state 7
    ≡ some (record {
      budget = some session_budget;
      spent = record { micros = pos 10 +ℤ pos 60_000; currency = codes "USD" };
    })
finish_charges_actual_cost_example =
    finish_charges_actual_cost charged_gate granted session_budget (pos 10) (pos 85_440)
      (pos 60_000) (codes "USD") (inr refl) refl refl (λ e. cc e) refl (omega arith, omega arith)
      (omega arith, omega arith) (omega arith, omega arith)

abbrev no_usage : Usage
no_usage = record {
  uncached = pos 0;
  cache_read = pos 0;
  cache_write = pos 0;
  output_tokens = pos 0;
}

unreported_fails : (reconcile busy_gate granted no_usage false 5).1 ≡ false
unfolding reconcile record_usage text_eq
unreported_fails = refl

failed_reconcile_releases_nothing_example :
    SameBooks busy_gate (reconcile busy_gate granted no_usage false 5).0
failed_reconcile_releases_nothing_example =
    failed_reconcile_releases_nothing busy_gate granted no_usage false 5 unreported_fails

abbrev tenant_budget : Budget
tenant_budget = record { id = 2; scope = tenant_scope; ceiling = usd 900_000; epoch = 1 }

abbrev no_counters : Counters
no_counters = record { budgets = λ b. none; failing = false }

abbrev flushed_gate : Gate
flushed_gate = record fresh_gate {
  counters = some no_counters;
  tenant_cache = λ t. some (some tenant_budget);
  armed = λ b. true;
}

flushed_refuses_forever_example :
    (reserve (reserve_all flushed_gate ((request, 1, 5) ∷ [])) request 2 6).1.decision.kind
    ≡ refuse_ceiling
flushed_refuses_forever_example =
    flushed_refuses_forever 3 tenant_budget no_counters flushed_gate ((request, 1, 5) ∷ []) request
      2 6 (refl, tt) refl
      (record { is_cached = refl; is_armed = refl; same_counters = refl; no_counter_left = refl })
