-- ===== src/Teams/Envelope/Amounts.antt =====
-- What one call moves in a team's envelope.
use nexus_agent_demo.Prelude.{
  ℕ, ◌+◌, ◌≤◌, ◌≡◌, refl, ap, ◌⊎◌, inl, inr, Bool, true, false, Option, none, some, List, [], ◌∷◌,
  arith, Bool-cases, Option-cases, if◌then◌else◌,
}
use nexus_agent_demo.Prelude.Int.{
  ℤ, pos, pos_part, neg_part, ◌+ℤ◌, ◌-ℤ◌, ◌≤ℤ◌, +ℤ_parts, -ℤ_parts, leb_ℤ,
}
use nexus_agent_demo.Prelude.Text.{Text, text_eq}
use nexus_agent_demo.Cost.Money.{
  Money, add, sub, int64, int64-InRange, int64_id, in_range, InRange, zero_money,
}
use nexus_agent_demo.Cost.Prices.{MeterId, PriceBookEntry, cost}
use nexus_agent_demo.Cost.Types.{subject_of}
use nexus_agent_demo.Cost.Gate.Reconcile.{Usage, is_zero, quantities}
use nexus_agent_demo.Teams.Envelope.{
  Envelope, EnvelopeGate, EnvelopeReservation, checked, currency_of, draw, give_back, is_admitted,
  minus, or_error, price_from, price_usage, reconcile, return_to, then_add,
}

-- What has been drawn is less by the amount, and what has been returned is more.
abbrev pub Grows : Envelope → ℕ → Envelope → Type 0
Grows e k e' = (pos 0 ≤ℤ e'.remaining) × (pos_part e'.remaining ≤ pos_part e.remaining + k)

pub one_part : (z : ℤ) → (pos_part z ≡ 0) ⊎ (neg_part z ≡ 0)
one_part z = ground arith

abbrev micros_of : Option Money → ℤ
micros_of none = pos 0
micros_of (some m) = m.micros

pub checked-some : (e e' : Envelope) → checked e ≡ some e' → (e ≡ e') × (pos 0 ≤ℤ e.remaining)
checked-some e e' h = elim (Bool-cases (is_admitted e)) [
  | inl k ↦ (let h' = rw k at h in (cc, ground (arith, k)))
  | inr k ↦ absurd (cc (rw k at h))
]

pub draw-takes :
    (e e' : Envelope) (amount : ℤ)
    → pos 0 ≤ℤ e.remaining
    → pos 0 ≤ℤ amount
    → draw e amount ≡ some e'
    → (pos 0 ≤ℤ e'.remaining) × (pos_part e'.remaining + pos_part amount ≡ pos_part e.remaining)
unfolding draw
draw-takes e e' amount r a h = elim (Bool-cases (leb_ℤ amount e.remaining)) [
  | inl k ↦
      (let c = checked-some (record e { remaining = e.remaining -ℤ amount }) e' (rw k at h) in
        let left : e.remaining -ℤ amount ≡ e'.remaining = ap (λ x. x.remaining) c.0 in
        rw (← left) (
          c.1,
          omega (
            arith,
            -ℤ_parts e.remaining amount,
            c.1,
            one_part (e.remaining -ℤ amount),
            one_part e.remaining,
            one_part amount,
          ),
        ))
  | inr k ↦ absurd (cc (rw k at h))
]

grow :
    (s d : ℤ) (k : ℕ)
    → pos 0 ≤ℤ s
    → pos_part d ≤ k
    → pos 0 ≤ℤ d
    → (pos 0 ≤ℤ s +ℤ d) × (pos_part (s +ℤ d) ≤ pos_part s + k)
grow s d k r h l = (
  omega (arith, +ℤ_parts s d),
  omega (arith, +ℤ_parts s d, one_part (s +ℤ d), one_part s, one_part d),
)

returned-Grows :
    (up : Bool) (e : Envelope) (d : Money) (k : ℕ)
    → pos 0 ≤ℤ e.remaining
    → pos_part d.micros ≤ k
    → pos 0 ≤ℤ d.micros
    → Grows e k (if up then or_error e (return_to e d.micros) else (e, false)).0
unfolding return_to
returned-Grows false e d k r h l = (r, omega arith)
returned-Grows true e d k r h l =
    (let more : Envelope = record e { remaining = e.remaining +ℤ d.micros } in
      elim (Bool-cases (is_admitted more)) [
        | inl c ↦ rw c (grow e.remaining d.micros k r h l)
        | inr c ↦ rw c (r, omega arith)
      ])

give_back-Grows :
    (up : Bool) (e : Envelope) (o : Option Money) (k : ℕ)
    → pos 0 ≤ℤ e.remaining
    → ((d : Money) → o ≡ some d → pos_part d.micros ≤ k)
    → Grows e k (give_back up e o).0
unfolding return_to
give_back-Grows up e none k r h = (r, omega arith)
give_back-Grows up e (some d) k r h = elim (Bool-cases (leb_ℤ d.micros (pos 0))) [
  | inl l ↦ rw l (r, omega arith)
  | inr l ↦ rw l (returned-Grows up e d k r (h d refl) (ground (arith, l)))
]

then_add-InRange :
    (total c : Option Money) (m : Money) → then_add total c ≡ some m → InRange m.micros
unfolding add
then_add-InRange none c m e = absurd cc
then_add-InRange (some t) none m e = absurd cc
then_add-InRange (some t) (some c) m e = elim (Bool-cases (text_eq t.currency c.currency)) [
  | inl k ↦
      (let sum : int64 (t.micros +ℤ c.micros) ≡ m.micros = ap micros_of (rw k at e) in
        rw (← sum) (int64-InRange (t.micros +ℤ c.micros)))
  | inr k ↦ absurd (cc (rw k at e))
]

price_from-InRange :
    (book : List PriceBookEntry) (subject : Text) (now : ℕ) (us : List (MeterId × ℤ))
    (total : Option Money)
    → ((m : Money) → total ≡ some m → InRange m.micros)
    → (m : Money) → price_from book subject now total us ≡ some m
    → InRange m.micros
unfolding price_from
price_from-InRange book subject now [] total h m e = h m e
price_from-InRange book subject now ((meter, quantity) ∷ us) total h m e =
    price_from-InRange book subject now us
      (if is_zero quantity then total else then_add total (cost book meter subject quantity now))
      (elim (Bool-cases (is_zero quantity)) [
        | inl z ↦ rw z h
        | inr z ↦ rw z (then_add-InRange total (cost book meter subject quantity now))
      ])
      m e

price_usage-InRange :
    (g : EnvelopeGate) (now : ℕ) (model : Text) (usage : Usage) (m : Money)
    → price_usage g now model usage ≡ some m
    → InRange m.micros
unfolding price_usage zero_money
price_usage-InRange g now model usage m h = elim (Option-cases g.prices) [
  | inl n ↦ absurd (cc (rw n at h))
  | inr (book, b) ↦
      price_from-InRange book (subject_of model) now (quantities usage)
        (some (zero_money (currency_of g)))
        (λ t k. rw (← ap micros_of k) (omega arith, omega arith)) m (rw b at h)
]

sub-bound :
    (r a d : Money)
    → pos 0 ≤ℤ r.micros
    → InRange r.micros
    → pos 0 ≤ℤ a.micros
    → InRange a.micros
    → sub r a ≡ some d
    → pos_part d.micros ≤ pos_part r.micros
unfolding sub
sub-bound r a d p i q j h = elim (Bool-cases (text_eq r.currency a.currency)) [
  | inl k ↦
      (let left : int64 (r.micros -ℤ a.micros) ≡ d.micros = ap micros_of (rw k at h) in
        let exact = int64_id (r.micros -ℤ a.micros) (
          in_range (r.micros -ℤ a.micros) (omega (arith, p, i, q, j, -ℤ_parts r.micros a.micros))
            (omega (arith, p, i, q, j, -ℤ_parts r.micros a.micros))) in
        rw (← left, exact)
          (omega (
            arith,
            p,
            q,
            -ℤ_parts r.micros a.micros,
            one_part (r.micros -ℤ a.micros),
            one_part r.micros,
            one_part a.micros,
          )))
  | inr k ↦ absurd (cc (rw k at h))
]

minus-bound :
    (g : EnvelopeGate) (now : ℕ) (res : EnvelopeReservation) (usage : Usage)
    → pos 0 ≤ℤ res.reserved.micros
    → InRange res.reserved.micros
    → ((m : Money) → price_usage g now res.model_id usage ≡ some m → pos 0 ≤ℤ m.micros)
    → (d : Money) → minus res.reserved (price_usage g now res.model_id usage) ≡ some d
    → pos_part d.micros ≤ pos_part res.reserved.micros
minus-bound g now res usage p i k d h = elim (Option-cases (price_usage g now res.model_id usage)) [
  | inl n ↦ absurd (cc (rw n at h))
  | inr (m, e) ↦
      sub-bound res.reserved m d p i (k m e) (price_usage-InRange g now res.model_id usage m e)
        (rw e at h)
]

pub reconcile-Grows :
    (g : EnvelopeGate) (up : Bool) (now : ℕ) (res : EnvelopeReservation) (reported : Option Usage)
    (e : Envelope)
    → pos 0 ≤ℤ e.remaining
    → pos 0 ≤ℤ res.reserved.micros
    → InRange res.reserved.micros
    → ((usage : Usage) (m : Money)
        → reported ≡ some usage
        → price_usage g now res.model_id usage ≡ some m
        → pos 0 ≤ℤ m.micros)
    → Grows e (pos_part res.reserved.micros) (reconcile g up now res reported e).0
unfolding reconcile
reconcile-Grows g up now res none e r p i k =
    give_back-Grows up e (sub res.reserved res.reserved) (pos_part res.reserved.micros) r
      (λ d h. sub-bound res.reserved res.reserved d p i p i h)
reconcile-Grows g up now res (some usage) e r p i k =
    give_back-Grows up e (minus res.reserved (price_usage g now res.model_id usage))
      (pos_part res.reserved.micros) r (minus-bound g now res usage p i (λ m e'. k usage m refl e'))
