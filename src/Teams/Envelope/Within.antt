-- ===== src/Teams/Envelope/Within.antt =====
-- The envelope of a team under any order of its members' calls.
use nexus_agent_demo.Prelude.{
  ℕ, ◌+◌, ◌≤◌, ◌≡◌, refl, ap, inl, inr, Bool, true, false, Option, some, List, [], ◌∷◌, ◌++◌, arith,
  All, Option-cases,
}
use nexus_agent_demo.Prelude.Int.{ℤ, pos, pos_part, ◌≤ℤ◌}
use nexus_agent_demo.Prelude.Text.{Text}
use nexus_agent_demo.Cost.Money.{Money, InRange}
use nexus_agent_demo.Cost.Types.{DecisionKind, allow}
use nexus_agent_demo.Cost.Gate.Reconcile.{Usage}
use nexus_agent_demo.Teams.Envelope.{
  Envelope, EnvelopeGate, EnvelopeReservation, create_envelope, draw, price_usage, reconcile,
  reserve,
}
use nexus_agent_demo.Teams.Envelope.Amounts.{one_part, checked-some, draw-takes, reconcile-Grows}

-- The row, and the reservations that are not reconciled yet.
abbrev pub World : Type 0
World = Envelope × List EnvelopeReservation

abbrev pub opened :
    EnvelopeReservation → DecisionKind → List EnvelopeReservation → List EnvelopeReservation
opened res allow held = res ∷ held
opened res _ held = held

-- A member's call, of a gate with an estimate that is not negative. A reservation is reconciled
-- once, with usage whose price is not negative, where it has one.
pub data Step : World → World → Type 0 where
  reserves :
      (e : Envelope) (held : List EnvelopeReservation) (g : EnvelopeGate) (up : Bool) (model : Text)
      → pos 0 ≤ℤ g.estimate.micros
      → Step
          (e, held)
          (
            (reserve g up model e).0,
            opened (reserve g up model e).1 (reserve g up model e).1.kind held,
          )
  reconciles :
      (e : Envelope) (before after : List EnvelopeReservation) (res : EnvelopeReservation)
      (g : EnvelopeGate) (up : Bool) (now : ℕ) (reported : Option Usage)
      → ((usage : Usage) (m : Money)
          → reported ≡ some usage
          → price_usage g now res.model_id usage ≡ some m
          → pos 0 ≤ℤ m.micros)
      → Step (e, before ++ res ∷ after) ((reconcile g up now res reported e).0, before ++ after)

pub data Steps : World → World → Type 0 where
  done : (w : World) → Steps w w
  more : {w w' w'' : World} → Steps w w' → Step w' w'' → Steps w w''

abbrev pub total_reserved : List EnvelopeReservation → ℕ
total_reserved [] = 0
total_reserved (res ∷ held) = pos_part res.reserved.micros + total_reserved held

abbrev IsPositive : EnvelopeReservation → Type 0
IsPositive res = pos 0 ≤ℤ res.reserved.micros

-- What is left and what is reserved do not add up to more than the ceiling.
abbrev pub IsWithin : ℤ → World → Type 0
IsWithin ceiling (e, held) =
    (pos 0 ≤ℤ e.remaining) × (pos_part e.remaining + total_reserved held ≤ pos_part ceiling)

abbrev IsFine : ℤ → World → Type 0
IsFine ceiling (e, held) = IsWithin ceiling (e, held) × All IsPositive held

total-middle :
    (before after : List EnvelopeReservation) (res : EnvelopeReservation)
    → total_reserved (before ++ res ∷ after)
      ≡ pos_part res.reserved.micros + total_reserved (before ++ after)
total-middle [] after res = refl
total-middle (r ∷ before) after res = omega (arith, total-middle before after res)

All-middle :
    (before after : List EnvelopeReservation) (res : EnvelopeReservation)
    → All IsPositive (before ++ res ∷ after)
    → IsPositive res × All IsPositive (before ++ after)
All-middle [] after res h = h
All-middle (r ∷ before) after res h = (let k = All-middle before after res h.1 in (k.0, (h.0, k.1)))

reserve-IsFine :
    (ceiling : ℤ) (g : EnvelopeGate) (up : Bool) (model : Text) (e : Envelope)
    (held : List EnvelopeReservation)
    → pos 0 ≤ℤ g.estimate.micros
    → IsFine ceiling (e, held)
    → IsFine ceiling (
      (reserve g up model e).0,
      opened (reserve g up model e).1 (reserve g up model e).1.kind held,
    )
unfolding reserve
reserve-IsFine ceiling g false model e held p h = h
reserve-IsFine ceiling g true model e held p h = elim (Option-cases (draw e g.estimate.micros)) [
  | inl n ↦ rw n h
  | inr (drawn, d) ↦
      (let t = draw-takes e drawn g.estimate.micros h.0.0 p d in
        rw d ((t.0, omega (arith, t.1, h.0.1)), (p, h.1)))
]

step-IsFine :
    (ceiling : ℤ) (w w' : World)
    → InRange ceiling
    → Step w w'
    → IsFine ceiling w
    → IsFine ceiling w'
step-IsFine ceiling w w' i (reserves e held g up model p) h =
    reserve-IsFine ceiling g up model e held p h
step-IsFine ceiling w w' i (reconciles e before after res g up now reported k) h =
    let m = All-middle before after res h.1 in
    let t = total-middle before after res in
    let low : InRange res.reserved.micros =
      (omega (arith, i, t, h.0.1), omega (arith, m.0, one_part res.reserved.micros)) in
    let grown = reconcile-Grows g up now res reported e h.0.0 m.0 low k in
    ((grown.0, omega (arith, grown.1, t, h.0.1)), m.1)

Steps-IsFine :
    (ceiling : ℤ) (w w' : World)
    → InRange ceiling
    → Steps w w'
    → IsFine ceiling w
    → IsFine ceiling w'
Steps-IsFine ceiling w w' i (done _) h = h
Steps-IsFine ceiling w w' i (more ss s) h =
    step-IsFine ceiling _ w' i s (Steps-IsFine ceiling w _ i ss h)

-- After any calls of the members of a team, what is left of its envelope is not negative, and with
-- what is reserved and not reconciled it is at most the ceiling that the envelope was created with:
-- where a reservation is reconciled once, and neither an estimate nor the price of a usage is
-- negative.
pub Steps-IsWithin :
    (ceiling : Money) (members : ℤ) (e : Envelope) (w : World)
    → InRange ceiling.micros
    → create_envelope ceiling members ≡ some e
    → Steps (e, []) w
    → IsWithin ceiling.micros w
unfolding create_envelope
Steps-IsWithin ceiling members e w i c ss =
    let row : Envelope = record {
      currency = ceiling.currency;
      ceiling = ceiling.micros;
      remaining = ceiling.micros;
      member_count = members;
    } in
    let a = checked-some row e c in
    let full : ceiling.micros ≡ e.remaining = ap (λ x. x.remaining) a.0 in
    let fine : IsFine ceiling.micros (e, []) = ((rw (← full) a.1, rw (← full) (omega arith)), tt) in
    (Steps-IsFine ceiling.micros (e, []) w i ss fine).0
