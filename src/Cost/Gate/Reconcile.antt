-- ===== src/Cost/Gate/Reconcile.antt =====
-- internal/cost/reconcile.go: Reconcile, ReconcileEmbedding, their tail and Record.
-- The flag beside the gate is whether there is no error.
pub mod Settles
pub mod Errors
use nexus_agent_demo.Prelude.{
  ℕ, Bool, true, false, not, ◌+◌, Option, none, some, List, [], ◌∷◌, ◌++◌, ◌==◌, if◌then◌else◌,
}
use nexus_agent_demo.Prelude.Int.{ℤ, pos, pos_part, neg_part, ltb_ℤ}
use nexus_agent_demo.Prelude.Text.{Text, codes, text_eq}
use nexus_agent_demo.Cost.Money.{Money, add, sub}
use nexus_agent_demo.Cost.Prices.{
  PriceBookEntry, Meter, MeterId, input_uncached, input_cache_read, input_cache_write, output,
  embedding_tokens, unreported_reservation, lookup_meter, cost,
}
use nexus_agent_demo.Cost.Counters.{Counters, counter_release}
use nexus_agent_demo.Cost.Ledger.{record_usage, set}
use nexus_agent_demo.Cost.Types.{
  Budget, CostRecord, DecisionKind, allow, refuse_ceiling, degrade, skip, Reservation, subject_of,
}
use nexus_agent_demo.Cost.Gate.{Gate, SessionCeilState, price_book_for}

pub record Usage : Type 0 where
  pub uncached : ℤ
  pub cache_read : ℤ
  pub cache_write : ℤ
  pub output_tokens : ℤ

-- A zero currency is the gate's.
abbrev pub in_currency : Money → Text → Money
in_currency m currency = if text_eq m.currency [] then record m { currency = currency } else m

-- The record of a call whose usage is not known: the whole reservation.
unfoldable pub unreported_record : Reservation → Money → CostRecord
unreported_record res actual = record {
  reservation_id = some res.id;
  meter = unreported_reservation;
  quantity = pos 1;
  unit = codes "reservation";
  amount = actual;
  model_id = res.model_id;
  unreported = true;
}

abbrev usage_record : Reservation → MeterId → ℤ → Text → Money → CostRecord
usage_record res meter quantity unit amount = record {
  reservation_id = some res.id;
  meter = meter;
  quantity = quantity;
  unit = unit;
  amount = amount;
  model_id = res.model_id;
  unreported = false;
}

-- actual.Add(c) with its error dropped.
abbrev add_or_zero : Option Money → Money
add_or_zero (some m) = m
add_or_zero none = record { micros = pos 0; currency = [] }

abbrev pub is_zero : ℤ → Bool
is_zero z = pos_part z + neg_part z == 0

abbrev with_record :
    Reservation → MeterId → ℤ → Option Meter → Option Money → Money → Option (CostRecord × Money)
with_record res meter quantity none c actual = none
with_record res meter quantity (some m) none actual = none
with_record res meter quantity (some m) (some c) actual =
    some (usage_record res meter quantity m.unit c, add_or_zero (add actual c))

abbrev then_rest :
    Option (CostRecord × Money)
    → (Money → Option (List CostRecord × Money))
    → Option (List CostRecord × Money)
then_rest none rest = none
then_rest (some (r, actual)) rest = elim (rest actual) [
  | none ↦ none
  | some (rs, total) ↦ some (r ∷ rs, total)
]

-- The loop over the meters that a usage has quantities of: the records and their sum, or the error.
unfoldable pub price_all :
    List Meter
    → List PriceBookEntry
    → Reservation
    → (now : ℕ) → List (MeterId × ℤ)
    → Money
    → Option (List CostRecord × Money)
price_all meters book res now [] actual = some ([], actual)
price_all meters book res now ((meter, quantity) ∷ us) actual =
    let skipped = price_all meters book res now us actual in
    if is_zero quantity
    then skipped
    else then_rest
        (with_record res meter quantity (lookup_meter meters meter)
          (cost book meter (subject_of res.model_id) quantity now) actual)
        (λ (total : Money). price_all meters book res now us total)

unfoldable pub quantities : Usage → List (MeterId × ℤ)
quantities u =
    (input_uncached, u.uncached)
    ∷ (input_cache_read, u.cache_read)
    ∷ (input_cache_write, u.cache_write)
    ∷ (output, u.output_tokens)
    ∷ []

-- `st.spent.Sub(delta)`, where it has no error.
abbrev spent_is : SessionCeilState → Option Money → SessionCeilState
spent_is st none = st
spent_is st (some m) = record st { spent = m }

abbrev settle : SessionCeilState → Money → SessionCeilState
settle st delta = spent_is st (sub st.spent delta)

-- The zero state stands for a session that the map has not; the map is then written only if
-- `Sub` has no error.
abbrev settle_session : Gate → ℕ → Option SessionCeilState → Money → Gate
settle_session g session (some st) delta = record g {
  session_state = set g.session_state session (some (settle st delta));
}
settle_session g session none delta = elim (sub (record { micros = pos 0; currency = [] }) delta) [
  | none ↦ g
  | some m ↦ record g {
    session_state = set g.session_state session (some (record { budget = none; spent = m }));
  }
]

abbrev settle_if : Option Budget → Gate → ℕ → Money → Gate
settle_if none g session delta = g
settle_if (some b) g session delta = settle_session g session (g.session_state session) delta

abbrev release_if : Option Budget → Option Counters → ℕ → Gate → ℤ → Gate
release_if (some t) (some c) epoch g delta = record g {
  counters = some (counter_release c t.id epoch delta).0;
}
release_if _ _ epoch g delta = g

abbrev released : Gate → Reservation → Option Money → Gate × Bool
released g res none = (g, false)
released g res (some delta) =
    let g' = settle_if res.session_budget g res.session delta in
    (release_if res.tenant_budget g'.counters res.tenant_epoch g' delta.micros, true)

abbrev holds_nothing : DecisionKind → Bool
holds_nothing skip = true
holds_nothing refuse_ceiling = true
holds_nothing _ = false

unfoldable pub finish_reconcile : Gate → Reservation → Money → Gate × Bool
finish_reconcile g res actual =
    if holds_nothing res.decision.kind
    then (g, true)
    else released g res (sub (in_currency res.decision.reserved g.cfg.currency) actual)

abbrev after_usage : Gate × Bool → Reservation → Money → Gate × Bool
after_usage (g, false) res actual = (g, false)
after_usage (g, true) res actual = finish_reconcile g res actual

abbrev record_all : Gate → Reservation → List CostRecord → Gate × Bool
record_all g res [] = (g, true)
record_all g res (r ∷ rs) =
    let (l, ok) = record_usage g.ledger res.tenant res.session (r ∷ rs) in
    (record g { ledger = l }, ok)

abbrev recorded : Gate → Reservation → Option (List CostRecord × Money) → Gate × Bool
recorded g res none = (g, false)
recorded g res (some (rs, actual)) = after_usage (record_all g res rs) res actual

abbrev priced_usage :
    Gate × Option (List PriceBookEntry) → Reservation → List (MeterId × ℤ) → (now : ℕ) → Gate × Bool
priced_usage (g, none) res us now = (g, false)
priced_usage (g, some book) res us now =
    recorded g res
      (price_all g.meters book res now us (record { micros = pos 0; currency = g.cfg.currency }))

-- The charge of a call that reports no usage.
abbrev pub charge_all : Gate → Reservation → Gate × Bool
charge_all g res =
    let actual = in_currency res.decision.reserved g.cfg.currency in
    recorded g res (some (unreported_record res actual ∷ [], actual))

unfoldable pub reconcile : Gate → Reservation → Usage → (reported : Bool) → (now : ℕ) → Gate × Bool
unfolding unreported_record quantities finish_reconcile
reconcile g res usage reported now =
    if not reported
    then charge_all g res
    else priced_usage (price_book_for g res.tenant) res (quantities usage) now

abbrev embedding_priced :
    Gate × Option (List PriceBookEntry) → Reservation → ℤ → (now : ℕ) → Gate × Bool
embedding_priced (g, none) res tokens now = (g, false)
embedding_priced (g, some book) res tokens now =
    elim (cost book embedding_tokens (subject_of res.model_id) tokens now) [
      | none ↦ (g, false)
      | some c ↦
          recorded g res
            (some (usage_record res embedding_tokens tokens (codes "tokens") c ∷ [], c))
    ]

unfoldable pub reconcile_embedding :
    Gate → Reservation → ℤ → (reported : Bool) → (now : ℕ) → Gate × Bool
unfolding unreported_record finish_reconcile
reconcile_embedding g res tokens reported now =
    if not reported
    then charge_all g res
    else if ltb_ℤ (pos 0) tokens
    then embedding_priced (price_book_for g res.tenant) res tokens now
    else finish_reconcile g res (record { micros = pos 0; currency = g.cfg.currency })

abbrev record_priced :
    Gate × Option (List PriceBookEntry) → ℕ → ℕ → Meter → ℤ → Text → (now : ℕ) → Gate × Bool
record_priced (g, none) tenant session m quantity model_id now = (g, false)
record_priced (g, some book) tenant session m quantity model_id now =
    elim (cost book m.id (subject_of model_id) quantity now) [
      | none ↦ (g, false)
      | some c ↦
          let r : CostRecord = record {
            reservation_id = none;
            meter = m.id;
            quantity = quantity;
            unit = m.unit;
            amount = c;
            model_id = model_id;
            unreported = false;
          } in
          let (l, ok) = record_usage g.ledger tenant session (r ∷ []) in
          (record g { ledger = l }, ok)
    ]

-- `Record`: a meter's quantity without a reservation.
unfoldable pub record_meter :
    Gate → (tenant session : ℕ) → MeterId → ℤ → Text → (now : ℕ) → Gate × Bool
record_meter g tenant session meter quantity model_id now = elim (lookup_meter g.meters meter) [
  | none ↦ (g, false)
  | some m ↦ record_priced (price_book_for g tenant) tenant session m quantity model_id now
]
