-- ===== src/Cost/Gate/Reserve/Promises.antt =====
-- What a whole Reserve promises its caller.
use nexus_agent_demo.Prelude.{
  ℕ, ◌≡◌, ◌≢◌, refl, ap, sym, ◌∙◌, ◌⊎◌, inl, inr, true, false, Option, some, [], ◌∷◌, ◌++◌, ◌==◌,
  arith, Bool-cases,
}
use nexus_agent_demo.Prelude.Int.{pos, ◌+ℤ◌, ◌≤ℤ◌}
use nexus_agent_demo.Cost.Money.{Money, add, int64}
use nexus_agent_demo.Prelude.Text.{Text, text_eq, text_eq_iff, text_eq_sound}
use nexus_agent_demo.Cost.Types.{Budget, allow, degrade, refuse_ceiling, ReserveRequest}
use nexus_agent_demo.Cost.Gate.{Gate, SessionCeilState}
use nexus_agent_demo.Cost.Gate.Reserve.{
  reserve, tentative, current_spent, or_zero_value, write_session,
}
use nexus_agent_demo.Cost.Gate.Reserve.Ceiling.{refusal, grant, skipped, reserve_verdict}

written_state :
    (g : Gate) (session session' : ℕ) (b : Budget) (m : Money) (o : Option Budget)
    → o ≡ some b
    → session' ≡ session
    → (write_session g session' o m).session_state session
      ≡ some (record { budget = some b; spent = m })
written_state g session session' b m o e e' =
    let h : (session == session') ≡ true = ground arith in rw e (rw h refl)

-- A reservation with a session budget that Reserve does not refuse leaves a spent amount of the
-- session that is at most the budget's ceiling.
pub session_stays_within_ceiling :
    (g : Gate) (req : ReserveRequest) (id now : ℕ) (b : Budget)
    → (reserve g req id now).1.session_budget ≡ some b
    → (reserve g req id now).1.decision.kind ≢ refuse_ceiling
    → (st : SessionCeilState) × ((reserve g req id now).0.session_state req.session ≡ some st)
      × (st.spent.micros ≤ℤ b.ceiling.micros)
session_stays_within_ceiling g req id now b e n = elim (reserve_verdict g req id now) [
  | refusal r k ↦ absurd (n r)
  | grant g1 f k l t s w x ↦
      let eb = sym x.same_session_budget ∙ e in
      (
        record { budget = some b; spent = f.session_spent },
        rw x.session_written
            (written_state g1 req.session f.res.session b f.session_spent f.session_budget eb s),
        (w b eb).0,
      )
  | skipped r q k ↦ cc
]

tentative_known :
    (g : Gate) (req : ReserveRequest) (b : Budget) (m : Money) (st : SessionCeilState)
    → g.session_state req.session ≡ some st
    → tentative g req b m ≡ or_zero_value (add (current_spent (some st) b) m)
unfolding tentative
tentative_known g req b m st e = rw e refl

-- What a session's state becomes by a reservation that is not refused.
charged_state :
    (g : Gate) (req : ReserveRequest) (id now : ℕ) (b : Budget) (st : SessionCeilState)
    → g.session_state req.session ≡ some st
    → (reserve g req id now).1.session_budget ≡ some b
    → (reserve g req id now).1.decision.kind ≢ refuse_ceiling
    → (reserve g req id now).0.session_state req.session
      ≡ some (record {
        budget = some b;
        spent =
            or_zero_value
              (add (current_spent (some st) b) (reserve g req id now).1.decision.reserved);
      })
charged_state g req id now b st q e n = elim (reserve_verdict g req id now) [
  | refusal r k ↦ absurd (n r)
  | grant g1 f k l t s w x ↦
      let eb = sym x.same_session_budget ∙ e in
      let spent = (w b eb).1 ∙ tentative_known g1 req b f.worst st (k req.session st q) in
      rw (x.session_written, x.worst_reserved)
        (written_state g1 req.session f.res.session b f.session_spent f.session_budget eb s
          ∙ ap (λ (m : Money). some (record { budget = some b; spent = m })) spent)
  | skipped r q' k ↦ cc
]

no_currency : (c : Text) → c ≢ [] → text_eq c [] ≡ false
no_currency c n = elim (Bool-cases (text_eq c [])) [
  | inl e ↦ absurd (n (text_eq_sound c [] e))
  | inr e ↦ e
]

sum_of :
    (st : SessionCeilState) (b : Budget) (m : Money)
    → st.spent.currency ≢ []
    → st.spent.currency ≡ m.currency
    → or_zero_value (add (current_spent (some st) b) m)
      ≡ record { micros = int64 (st.spent.micros +ℤ m.micros); currency = st.spent.currency }
unfolding add
sum_of st b m n e =
    let same : text_eq st.spent.currency m.currency ≡ true = (text_eq_iff _ _).1 e in
    rw (no_currency st.spent.currency n, same) refl

-- A reservation with a session budget that Reserve does not refuse, for a session that has spent
-- before in the currency of what is reserved, leaves as spent the sum of both, in int64.
pub grant_charges_worst_case :
    (g : Gate) (req : ReserveRequest) (id now : ℕ) (b : Budget) (st : SessionCeilState)
    → g.session_state req.session ≡ some st
    → (reserve g req id now).1.session_budget ≡ some b
    → (reserve g req id now).1.decision.kind ≢ refuse_ceiling
    → st.spent.currency ≢ []
    → st.spent.currency ≡ (reserve g req id now).1.decision.reserved.currency
    → (reserve g req id now).0.session_state req.session
      ≡ some (record {
        budget = some b;
        spent = record {
          micros = int64 (st.spent.micros +ℤ (reserve g req id now).1.decision.reserved.micros);
          currency = st.spent.currency;
        };
      })
grant_charges_worst_case g req id now b st q e n c d =
    charged_state g req id now b st q e n
    ∙ ap (λ (m : Money). some (record { budget = some b; spent = m }))
        (sum_of st b (reserve g req id now).1.decision.reserved c d)

-- A refused Reserve leaves the state of each session that had one.
refusal_keeps_sessions :
    (g : Gate) (req : ReserveRequest) (id now : ℕ) (s : ℕ) (st : SessionCeilState)
    → (reserve g req id now).1.decision.kind ≡ refuse_ceiling
    → g.session_state s ≡ some st
    → (reserve g req id now).0.session_state s ≡ some st
refusal_keeps_sessions g req id now s st r e = elim (reserve_verdict g req id now) [
  | refusal _ k ↦ k s st e
  | grant g1 f k l t s' w x ↦ elim x.is_granted [ inl a ↦ cc | inr a ↦ cc ]
  | skipped q _ k ↦ cc
]

-- Each reservation that Reserve grants has its decision at the end of the tenant's decisions in
-- the ledger, those before unchanged.
pub granted_is_recorded :
    (g : Gate) (req : ReserveRequest) (id now : ℕ)
    → let (g', res) = reserve g req id now in
      (res.decision.kind ≡ allow) ⊎ (res.decision.kind ≡ degrade)
      → g'.ledger.decisions req.tenant
        ≡ g.ledger.decisions req.tenant ++ (req.session, res.decision) ∷ []
granted_is_recorded g req id now h = elim (reserve_verdict g req id now) [
  | refusal r k ↦ elim h [ inl a ↦ cc | inr a ↦ cc ]
  | grant g1 f k l t s w x ↦ rw (l, t, s) at x.is_recorded
  | skipped q _ k ↦ elim h [ inl a ↦ cc | inr a ↦ cc ]
]

mismatch_is_zero :
    (st : SessionCeilState) (b : Budget) (m : Money)
    → st.spent.currency ≢ []
    → st.spent.currency ≢ m.currency
    → or_zero_value (add (current_spent (some st) b) m) ≡ record { micros = pos 0; currency = [] }
unfolding add
mismatch_is_zero st b m n d = elim (Bool-cases (text_eq st.spent.currency m.currency)) [
  | inl e ↦ absurd (d ((text_eq_iff st.spent.currency m.currency).0 e))
  | inr e ↦ rw (no_currency st.spent.currency n, e) refl
]

-- A reservation with a session budget that Reserve does not refuse, for a session that has spent
-- before in another currency than that of what is reserved, leaves as spent nothing, without a
-- currency: neither what was spent before nor what is reserved.
pub mismatch_forgets_spending :
    (g : Gate) (req : ReserveRequest) (id now : ℕ) (b : Budget) (st : SessionCeilState)
    → g.session_state req.session ≡ some st
    → (reserve g req id now).1.session_budget ≡ some b
    → (reserve g req id now).1.decision.kind ≢ refuse_ceiling
    → st.spent.currency ≢ []
    → st.spent.currency ≢ (reserve g req id now).1.decision.reserved.currency
    → (reserve g req id now).0.session_state req.session
      ≡ some (record { budget = some b; spent = record { micros = pos 0; currency = [] } })
mismatch_forgets_spending g req id now b st q e n c d =
    charged_state g req id now b st q e n
    ∙ ap (λ (m : Money). some (record { budget = some b; spent = m }))
        (mismatch_is_zero st b (reserve g req id now).1.decision.reserved c d)
