-- ===== src/Teams/Examples/Budget.antt =====
-- Tests of a team's envelope: one member reserves, and pays less than it reserved.
use nexus_agent_demo.Prelude.{
  ◌≡◌, refl, ap, sym, ◌∙◌, true, Option, none, some, List, [], ◌∷◌, arith,
}
use nexus_agent_demo.Prelude.Int.{ℤ, pos, ◌≤ℤ◌, ◌+ℤ◌, ◌-ℤ◌, ◌*ℤ◌}
use nexus_agent_demo.Prelude.Text.{codes, text_eq}
use nexus_agent_demo.Cost.Money.{Money, add, sub, int64, price_quantity, quot, zero_money}
use nexus_agent_demo.Cost.Prices.{PriceBookEntry, cost, input_uncached, lookup}
use nexus_agent_demo.Cost.Types.{subject_of, allow}
use nexus_agent_demo.Cost.Gate.Reconcile.{Usage, quantities}
use nexus_agent_demo.Teams.Envelope.{
  Envelope, EnvelopeGate, EnvelopeReservation, create_envelope, draw, per_call_estimate, price_from,
  price_usage, reconcile, reserve, return_to,
}
use nexus_agent_demo.Teams.Envelope.Within.{
  IsWithin, Steps, done, more, reconciles, reserves, Steps-IsWithin,
}

abbrev usd : ℤ → Money
usd micros = record { micros = micros; currency = codes "USD" }

-- One micro a token.
abbrev prices : List PriceBookEntry
prices =
    record {
      meter = input_uncached;
      subject = codes "*";
      version = 1;
      currency = codes "USD";
      price_per_million_micros = pos 1_000_000;
      effective_from = 0;
      effective_until = none;
    }
    ∷ []

abbrev envelope : Envelope
envelope = record {
  currency = codes "USD";
  ceiling = pos 100;
  remaining = pos 100;
  member_count = pos 2;
}

abbrev gate : EnvelopeGate
gate = record { prices = some prices; estimate = usd (pos 50); currency = codes "USD" }

abbrev usage : Usage
usage = record { uncached = pos 30; cache_read = pos 0; cache_write = pos 0; output_tokens = pos 0 }

abbrev reservation : EnvelopeReservation
reservation = record { model_id = codes "m"; kind = allow; reserved = usd (pos 50) }

created : create_envelope (usd (pos 100)) (pos 2) ≡ some envelope
unfolding create_envelope
created = refl

estimated : per_call_estimate envelope ≡ usd (pos 50)
unfolding per_call_estimate quot
estimated = refl

half_left : (reserve gate true (codes "m") envelope).0.remaining ≡ pos 50
unfolding reserve draw ◌-ℤ◌
half_left = refl

exhausted :
    (reserve gate true (codes "m") (record envelope { remaining = pos 49 })).0.remaining ≡ pos 49
unfolding reserve draw ◌-ℤ◌
exhausted = refl

priced : price_usage gate 5 (codes "m") usage ≡ some (usd (pos 30))
unfolding price_usage price_from subject_of cost lookup quantities zero_money add int64
    price_quantity text_eq ◌+ℤ◌ ◌*ℤ◌
priced = refl

given_back :
    (reconcile gate true 5 reservation
      (some usage)
      (record envelope { remaining = pos 50 })).0.remaining
    ≡ pos 70
unfolding reconcile return_to sub price_usage price_from subject_of cost lookup quantities
    zero_money add int64 price_quantity text_eq ◌+ℤ◌ ◌*ℤ◌ ◌-ℤ◌
given_back = refl

abbrev micros_of : Option Money → ℤ
micros_of none = pos 0
micros_of (some m) = m.micros

paid :
    (u : Usage) (m : Money)
    → ◌≡◌ {A = Option Usage} (some usage) (some u)
    → price_usage gate 5 (codes "m") u ≡ some m
    → pos 0 ≤ℤ m.micros
paid u m r e =
    let same : usage ≡ u = ap (λ o. elim o [ none ↦ usage | some x ↦ x ]) r in
    let e' : price_usage gate 5 (codes "m") usage ≡ some m = rw same e in
    let thirty : pos 30 ≡ m.micros = ap micros_of (sym priced ∙ e') in rw (← thirty) (omega arith)

abbrev after_calls : Envelope × List EnvelopeReservation
after_calls = (record envelope { remaining = pos 70 }, [])

two_calls : Steps (envelope, []) after_calls
unfolding reserve draw reconcile return_to sub price_usage price_from subject_of cost lookup
    quantities zero_money add int64 price_quantity text_eq ◌+ℤ◌ ◌*ℤ◌ ◌-ℤ◌
two_calls =
    more (more (done (envelope, [])) (reserves envelope [] gate true (codes "m") (omega arith))) (
      reconciles (record envelope { remaining = pos 50 }) [] [] reservation gate true 5 (some usage)
        paid)

Steps-IsWithin_example : IsWithin (pos 100) after_calls
Steps-IsWithin_example =
    Steps-IsWithin (usd (pos 100)) (pos 2) envelope after_calls (omega arith, omega arith) created
      two_calls
