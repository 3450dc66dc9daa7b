-- ===== src/Teams/Envelope.antt =====
-- internal/teams/envelope.go over the row of postgres/store.go: the budget that the members of a team
-- share. The queries' success, the clock and the tenant's price book are arguments.
pub mod Amounts
pub mod Within
use nexus_agent_demo.Prelude.{
  ℕ, Bool, true, false, ◌&&◌, ◌||◌, not, Option, none, some, List, [], ◌∷◌, if◌then◌else◌,
}
use nexus_agent_demo.Prelude.Int.{ℤ, pos, pos_part, neg_part, ◌+ℤ◌, ◌-ℤ◌, leb_ℤ}
use nexus_agent_demo.Prelude.Text.{Text, codes, text_eq}
use nexus_agent_demo.Cost.Money.{Money, add, sub, quot, zero_money}
use nexus_agent_demo.Cost.Prices.{PriceBookEntry, MeterId, cost}
use nexus_agent_demo.Cost.Types.{DecisionKind, allow, refuse_ceiling, subject_of}
use nexus_agent_demo.Cost.Gate.Reconcile.{Usage, is_zero, quantities}

-- The row of a team.
pub record Envelope : Type 0 where
  pub currency : Text
  pub ceiling : ℤ
  pub remaining : ℤ
  pub member_count : ℤ

-- The CHECKs of the table: a row that they do not admit is an error.
abbrev pub is_admitted : Envelope → Bool
is_admitted e = leb_ℤ (pos 0) e.remaining && leb_ℤ e.remaining e.ceiling

abbrev pub checked : Envelope → Option Envelope
checked e = if is_admitted e then some e else none

-- CreateEnvelope
unfoldable pub create_envelope : Money → ℤ → Option Envelope
create_envelope ceiling members = checked (record {
  currency = ceiling.currency;
  ceiling = ceiling.micros;
  remaining = ceiling.micros;
  member_count = members;
})

-- DrawFromEnvelope: the row, where it had the amount.
unfoldable pub draw : Envelope → ℤ → Option Envelope
draw e amount =
    if leb_ℤ amount e.remaining
    then checked (record e { remaining = e.remaining -ℤ amount })
    else none

-- ReturnToEnvelope
unfoldable pub return_to : Envelope → ℤ → Option Envelope
return_to e amount = checked (record e { remaining = e.remaining +ℤ amount })

unfoldable pub per_call_estimate : Envelope → Money
per_call_estimate e =
    let count = if leb_ℤ e.member_count (pos 0) then 1 else pos_part e.member_count in
    record { micros = quot e.ceiling count; currency = e.currency }

-- EnvelopeBudgetGate, with the price book that its query answers.
pub record EnvelopeGate : Type 0 where
  pub prices : Option (List PriceBookEntry)
  pub estimate : Money
  pub currency : Text

-- What Reserve fills in of a cost.Reservation.
pub record EnvelopeReservation : Type 0 where
  pub model_id : Text
  pub kind : DecisionKind
  pub reserved : Money

abbrev pub refused : Text → EnvelopeReservation
refused model = record {
  model_id = model;
  kind = refuse_ceiling;
  reserved = record { micros = pos 0; currency = [] };
}

abbrev pub decided : Text → Money → Envelope → Option Envelope → Envelope × EnvelopeReservation
decided model estimate e (some drawn) =
    (drawn, record { model_id = model; kind = allow; reserved = estimate })
decided model estimate e none = (e, refused model)

-- Reserve; `up` says whether the unit of work succeeds. A row without the amount and an error are
-- both refused.
unfoldable pub reserve : EnvelopeGate → Bool → Text → Envelope → Envelope × EnvelopeReservation
unfolding draw
reserve g up model e =
    if up then decided model g.estimate e (draw e g.estimate.micros) else (e, refused model)

abbrev pub then_add : Option Money → Option Money → Option Money
then_add none c = none
then_add (some total) none = none
then_add (some total) (some c) = add total c

-- The loop of priceUsage over the quantities, from the first on.
unfoldable pub price_from :
    List PriceBookEntry → Text → ℕ → Option Money → List (MeterId × ℤ) → Option Money
price_from book subject now total [] = total
price_from book subject now total ((meter, quantity) ∷ us) =
    let next =
      if is_zero quantity then total else then_add total (cost book meter subject quantity now) in
    price_from book subject now next us

abbrev pub currency_of : EnvelopeGate → Text
currency_of g = if text_eq g.currency [] then codes "USD" else g.currency

unfoldable pub price_usage : EnvelopeGate → ℕ → Text → Usage → Option Money
unfolding price_from
price_usage g now model usage = elim g.prices [
  | none ↦ none
  | some book ↦
      price_from book (subject_of model) now (some (zero_money (currency_of g))) (quantities usage)
]

abbrev pub or_error : Envelope → Option Envelope → Envelope × Bool
or_error e none = (e, false)
or_error e (some e') = (e', true)

abbrev pub give_back : Bool → Envelope → Option Money → Envelope × Bool
give_back up e none = (e, false)
give_back up e (some delta) =
    if leb_ℤ delta.micros (pos 0)
    then (e, true)
    else if up
    then or_error e (return_to e delta.micros)
    else (e, false)

abbrev pub minus : Money → Option Money → Option Money
minus reserved none = none
minus reserved (some actual) = sub reserved actual

-- Reconcile: the row, and whether there is no error. `reported` is none where the usage is not known.
unfoldable pub reconcile :
    EnvelopeGate → Bool → ℕ → EnvelopeReservation → Option Usage → Envelope → Envelope × Bool
unfolding price_usage return_to
reconcile g up now res reported e = elim reported [
  | none ↦ give_back up e (sub res.reserved res.reserved)
  | some usage ↦ give_back up e (minus res.reserved (price_usage g now res.model_id usage))
]
