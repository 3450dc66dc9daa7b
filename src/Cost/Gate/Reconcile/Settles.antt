-- ===== src/Cost/Gate/Reconcile/Settles.antt =====
-- What Reconcile leaves of a reservation: the real cost, or all of it, or no change.
use nexus_agent_demo.Prelude.{
  ℕ, ◌^◌, ◌≡◌, ◌≢◌, refl, ap, ◌∙◌, ◌⊎◌, inl, inr, true, false, Option, some, [], ◌==◌, arith,
  Bool-cases,
}
use nexus_agent_demo.Prelude.Int.{ℤ, pos, ◌+ℤ◌, ◌-ℤ◌, ◌≤ℤ◌, ◌<ℤ◌, +ℤ_parts, -ℤ_parts, eq_of_parts}
use nexus_agent_demo.Prelude.Text.{Text, text_eq, text_eq_iff, text_eq_refl}
use nexus_agent_demo.Cost.Money.{Money, sub, int64_id, in_range, InRange}
use nexus_agent_demo.Cost.Counters.{Counters}
use nexus_agent_demo.Cost.Ledger.{set}
use nexus_agent_demo.Cost.Types.{Budget, DecisionKind, allow, degrade, Reservation}
use nexus_agent_demo.Cost.Gate.{Gate, SessionCeilState}
use nexus_agent_demo.Cost.Gate.Reconcile.{
  finish_reconcile, in_currency, released, release_if, settle_if, settle, holds_nothing,
}

-- An amount that is not negative and below 2 ^ 61.
abbrev pub Moderate : ℤ → Type 0
Moderate z = (pos 0 ≤ℤ z) × (z <ℤ pos (2 ^ 61))

abbrev money : ℤ → Text → Money
money n currency = record { micros = n; currency = currency }

sub_same :
    (m n : ℤ) (c : Text) → InRange (m -ℤ n) → sub (money m c) (money n c) ≡ some (money (m -ℤ n) c)
unfolding sub
sub_same m n c r = rw (text_eq_refl c) (rw (int64_id (m -ℤ n) r) refl)

difference-InRange : (m n : ℤ) → Moderate m → Moderate n → InRange (m -ℤ n)
difference-InRange m n a b =
    in_range (m -ℤ n) (omega (arith, -ℤ_parts m n)) (omega (arith, -ℤ_parts m n))

module _ (before reserved actual : ℤ) (a : Moderate before) (b : Moderate reserved)
    (c : Moderate actual) where
  settled : (before +ℤ reserved) -ℤ (reserved -ℤ actual) ≡ before +ℤ actual
  settled = eq_of_parts _ _ (
      omega (
        arith,
        +ℤ_parts before reserved,
        -ℤ_parts (before +ℤ reserved) (reserved -ℤ actual),
        -ℤ_parts reserved actual,
        +ℤ_parts before actual,
      ))

  sum_range : InRange (before +ℤ actual)
  sum_range =
      in_range (before +ℤ actual) (omega (arith, +ℤ_parts before actual))
        (omega (arith, +ℤ_parts before actual))

  settle_lem :
      (o : Option Budget) (currency : Text)
      → settle
          (record { budget = o; spent = money (before +ℤ reserved) currency })
          (money (reserved -ℤ actual) currency)
        ≡ record { budget = o; spent = money (before +ℤ actual) currency }
  settle_lem o currency =
      rw
        (
          sub_same (before +ℤ reserved) (reserved -ℤ actual) currency (rw settled sum_range),
          settled,
        )
        refl

release_keeps_sessions :
    (t : Option Budget) (c : Option Counters) (epoch : ℕ) (g : Gate) (delta : ℤ)
    → (release_if t c epoch g delta).session_state ≡ g.session_state
release_keeps_sessions t c epoch g delta = ground arith

in_currency_same :
    (n : ℤ) (currency gate : Text)
    → currency ≢ []
    → in_currency (money n currency) gate ≡ money n currency
in_currency_same n currency gate h = elim (Bool-cases (text_eq currency [])) [
  | inl e ↦ absurd (h ((text_eq_iff currency []).0 e))
  | inr e ↦ rw e refl
]

granted_holds : (k : DecisionKind) → (k ≡ allow) ⊎ (k ≡ degrade) → holds_nothing k ≡ false
granted_holds k (inl e) = rw e refl
granted_holds k (inr e) = rw e refl

set_self : (m : ℕ → Option SessionCeilState) (s : ℕ) (v : Option SessionCeilState) → set m s v s ≡ v
set_self m s v = let h : (s == s) ≡ true = ground arith in rw h refl

settle_if-some :
    (o : Option Budget) (b : Budget) (g : Gate) (session : ℕ) (st : SessionCeilState)
    (delta : Money)
    → o ≡ some b
    → g.session_state session ≡ some st
    → (settle_if o g session delta).session_state session ≡ some (settle st delta)
settle_if-some o b g session st delta e e' =
    rw (e, e') (set_self g.session_state session (some (settle st delta)))

released_settles :
    (g : Gate) (res : Reservation) (b : Budget) (st : SessionCeilState) (delta : Money)
    → res.session_budget ≡ some b
    → g.session_state res.session ≡ some st
    → (released g res (some delta)).0.session_state res.session ≡ some (settle st delta)
released_settles g res b st delta e e' =
    rw
      (release_keeps_sessions res.tenant_budget
        (settle_if res.session_budget g res.session delta).counters res.tenant_epoch
        (settle_if res.session_budget g res.session delta) delta.micros)
      (settle_if-some res.session_budget b g res.session st delta e e')

-- A granted reservation whose amount is part of what its session has spent is settled by its
-- actual cost: the session has then spent what it had before and the actual cost, in one
-- currency and with amounts that are not negative and below 2 ^ 61.
pub finish_charges_actual_cost :
    (g : Gate) (res : Reservation) (b : Budget) (before reserved actual : ℤ) (currency : Text)
    → (res.decision.kind ≡ allow) ⊎ (res.decision.kind ≡ degrade)
    → res.session_budget ≡ some b
    → res.decision.reserved ≡ record { micros = reserved; currency = currency }
    → currency ≢ []
    → g.session_state res.session
      ≡ some (record {
        budget = some b;
        spent = record { micros = before +ℤ reserved; currency = currency };
      })
    → Moderate before
    → Moderate reserved
    → Moderate actual
    → (finish_reconcile g res (record { micros = actual; currency = currency })).0.session_state
        res.session
      ≡ some (record {
        budget = some b;
        spent = record { micros = before +ℤ actual; currency = currency };
      })
unfolding finish_reconcile
finish_charges_actual_cost g res b before reserved actual currency k e r n s mb mr ma =
    rw
      (
        granted_holds res.decision.kind k,
        r,
        in_currency_same reserved currency g.cfg.currency n,
        sub_same reserved actual currency (difference-InRange reserved actual mr ma),
      )
      (released_settles g res b _ (money (reserved -ℤ actual) currency) e s
        ∙ ap some (settle_lem before reserved actual mb mr ma (some b) currency))
