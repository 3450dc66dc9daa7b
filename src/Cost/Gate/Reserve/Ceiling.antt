-- ===== src/Cost/Gate/Reserve/Ceiling.antt =====
-- What a whole Reserve leaves behind: the session's ceiling, the refusal and the ledger.
use nexus_agent_demo.Prelude.{
  ℕ, ◌≡◌, refl, sym, ◌∙◌, ◌⊎◌, inl, inr, false, Option, none, some, List, ◌==◌, arith, Bool-cases,
}
use nexus_agent_demo.Prelude.Int.{ℤ, ltb_ℤ, ◌≤ℤ◌}
use nexus_agent_demo.Cost.Money.{Money}
use nexus_agent_demo.Cost.Prices.{PriceBookEntry}
use nexus_agent_demo.Cost.Ledger.{load_price_book, get_budget, set}
use nexus_agent_demo.Cost.Types.{
  Budget, refuse_ceiling, skip, Reservation, ReserveRequest, session_scope, tenant_scope,
}
use nexus_agent_demo.Cost.Gate.{
  Gate, SessionCeilState, worst_case_cost, price_book_for, session_budget_for, tenant_budget_for,
  best_effort_persist, cached_book, loaded_book, cached_session, loaded_session, cached_tenant,
  loaded_tenant, unspent,
}
use nexus_agent_demo.Cost.Gate.Reserve.{
  Found, reserve, reserve_session, reserve_tenant, tentative, at_session, budgets_looked_up,
  session_looked_up, worst_priced, book_found, blank, crosses,
}
use nexus_agent_demo.Cost.Gate.Reserve.Shape.{Refused, Granted, reserve_tenant-Ends, refuse-Refused}

-- The session's spent amount that is found is that before and the worst case, within the ceiling.
abbrev pub WithinCeiling : Gate → ReserveRequest → Found → Type 0
WithinCeiling g req f =
    (b : Budget)
    → f.session_budget ≡ some b
    → (f.session_spent.micros ≤ℤ b.ceiling.micros) × (f.session_spent ≡ tentative g req b f.worst)

-- The states of the sessions that there were are there still.
abbrev pub Keeps : Gate → Gate → Type 0
Keeps g g' =
    (s : ℕ) (st : SessionCeilState) → g.session_state s ≡ some st → g'.session_state s ≡ some st

-- Refused, granted on what a lookup has found within the ceiling, or skipped for want of a budget.
-- `g1` is the gate after the lookups.
pub data Verdict (g : Gate) (req : ReserveRequest) (tenant session : ℕ) (r : Gate × Reservation)
    : Type 0 where
  refusal : (r.1.decision.kind ≡ refuse_ceiling) → Keeps g r.0 → Verdict g req tenant session r
  grant :
      (g1 : Gate) (f : Found)
      → Keeps g g1
      → (g1.ledger ≡ g.ledger)
      → (f.res.tenant ≡ tenant)
      → (f.res.session ≡ session)
      → WithinCeiling g1 req f
      → Granted g1 f r
      → Verdict g req tenant session r
  skipped :
      (r.1.decision.kind ≡ skip)
      → (r.1.session_budget ≡ none)
      → Keeps g r.0
      → Verdict g req tenant session r

not_over : (c t : ℤ) → ltb_ℤ c t ≡ false → t ≤ℤ c
not_over c t h = ground arith

same_budget : (b b' : Budget) → (some b) ≡ (some b') → b ≡ b'
same_budget b b' e = cc

module _ (g g1 : Gate) (k : Keeps g g1) (l : g1.ledger ≡ g.ledger) where
  refused_verdict :
      (req : ReserveRequest) (tenant session : ℕ) (r : Gate × Reservation)
      → Refused g1 r
      → Verdict g req tenant session r
  refused_verdict req tenant session r x =
      refusal x.is_refused (λ s st e. rw x.sessions_stay (k s st e))

  at_session_verdict :
      (req : ReserveRequest) (f : Found) (b : Option Budget)
      → f.session_budget ≡ b
      → Verdict g req f.res.tenant f.res.session (at_session g1 req f b)
  at_session_verdict req f none e = elim (reserve_tenant-Ends g1 f) [
    | inl x ↦ refused_verdict _ _ _ _ x
    | inr x ↦ grant g1 f k l refl refl (λ b e'. cc) x
  ]
  at_session_verdict req f (some b) e =
      elim (Bool-cases (ltb_ℤ b.ceiling.micros (tentative g1 req b f.worst).micros)) [
        | inl h ↦ rw h (refused_verdict _ _ _ _ (refuse-Refused g1 g1 _ _ _ _ refl))
        | inr h ↦ rw h (within h (reserve_tenant-Ends g1 found))
      ]
    where
      found : Found
      found = record f {
        session_spent = tentative g1 req b f.worst;
        soft_hit =
            crosses (tentative g1 req b f.worst).micros b.ceiling.micros
              g1.cfg.degrade_threshold_percent;
      }

      within :
          ltb_ℤ b.ceiling.micros found.session_spent.micros ≡ false
          → Refused g1 (reserve_tenant g1 found) ⊎ Granted g1 found (reserve_tenant g1 found)
          → Verdict g req f.res.tenant f.res.session (reserve_tenant g1 found)
      within h (inl x) = refused_verdict _ _ _ _ x
      within h (inr x) =
          grant g1 found k l refl refl
            (λ b' e'.
              rw (← same_budget b b' (sym e ∙ e'))
                (not_over b.ceiling.micros found.session_spent.micros h, refl))
            x

  reserve_session_verdict :
      (req : ReserveRequest) (f : Found)
      → Verdict g req f.res.tenant f.res.session (reserve_session g1 req f)
  unfolding reserve_session
  reserve_session_verdict req f = at_session_verdict req f f.session_budget refl

  budgets_verdict :
      (req : ReserveRequest) (res : Reservation) (worst : Money) (s : Option Budget)
      (t : Option (Option Budget))
      → res.session_budget ≡ none
      → Verdict g req res.tenant res.session (budgets_looked_up (g1, t) req res worst s)
  budgets_verdict req res worst s none e =
      refused_verdict _ _ _ _ (refuse-Refused g1 g1 _ _ _ _ refl)
  budgets_verdict req res worst none (some none) e =
      skipped refl e (unfold best_effort_persist in k)
  budgets_verdict req res worst (some b) (some none) e = reserve_session_verdict req _
  budgets_verdict req res worst s (some (some t)) e = reserve_session_verdict req _

-- The gate after a lookup: the same ledger, the sessions' states kept.
record Looked (g g' : Gate) : Type 0 where
  keeps : Keeps g g'
  ledger_stays : g'.ledger ≡ g.ledger

Looked-trans : (g g' g'' : Gate) → Looked g g' → Looked g' g'' → Looked g g''
Looked-trans g g' g'' a b = record {
  keeps = λ s st e. b.keeps s st (a.keeps s st e);
  ledger_stays = b.ledger_stays ∙ a.ledger_stays;
}

Looked-nowhere : (g : Gate) → Looked g g
Looked-nowhere g = record { keeps = λ s st e. e; ledger_stays = refl }

price_book_for-Looked : (g : Gate) (tenant : ℕ) → Looked g (price_book_for g tenant).0
unfolding price_book_for
price_book_for-Looked g tenant = go (g.price_books tenant)
  where
    load : (l : Option (List PriceBookEntry)) → Looked g (loaded_book g tenant l).0
    load none = Looked-nowhere g
    load (some b) = record { keeps = λ s st e. e; ledger_stays = refl }

    go : (p : Option (List PriceBookEntry)) → Looked g (cached_book g tenant p).0
    go (some b) = Looked-nowhere g
    go none = load (load_price_book g.ledger tenant)

tenant_budget_for-Looked : (g : Gate) (tenant : ℕ) → Looked g (tenant_budget_for g tenant).0
unfolding tenant_budget_for
tenant_budget_for-Looked g tenant = go (g.tenant_cache tenant)
  where
    load : (l : Option (Option Budget)) → Looked g (loaded_tenant g tenant l).0
    load none = Looked-nowhere g
    load (some b) = record { keeps = λ s st e. e; ledger_stays = refl }

    go : (p : Option (Option Budget)) → Looked g (cached_tenant g tenant p).0
    go (some b) = Looked-nowhere g
    go none = load (get_budget g.ledger tenant tenant_scope)

-- A state is written only for a session that has none.
set_keeps :
    (m : ℕ → Option SessionCeilState) (session s : ℕ) (v : Option SessionCeilState)
    (st : SessionCeilState)
    → m session ≡ none
    → m s ≡ some st
    → set m session v s ≡ some st
set_keeps m session s v st n e = elim (Bool-cases (s == session)) [
  | inl h ↦ (let e' : s ≡ session = ground arith in cc (rw e' at e))
  | inr h ↦ rw h e
]

session_budget_for-Looked :
    (g : Gate) (tenant session : ℕ) → Looked g (session_budget_for g tenant session).0
unfolding session_budget_for
session_budget_for-Looked g tenant session = go (g.session_state session) refl
  where
    load :
        (l : Option (Option Budget))
        → g.session_state session ≡ none
        → Looked g (loaded_session g session l).0
    load none n = Looked-nowhere g
    load (some b) n = record {
      keeps = λ s st e. set_keeps g.session_state session s (some (unspent b)) st n e;
      ledger_stays = refl;
    }

    go :
        (p : Option SessionCeilState)
        → g.session_state session ≡ p
        → Looked g (cached_session g tenant session p).0
    go (some st) e = Looked-nowhere g
    go none e = load (get_budget g.ledger tenant (session_scope session)) e

session_verdict :
    (g g1 : Gate) (req : ReserveRequest) (res : Reservation) (worst : Money)
    (s : Option (Option Budget))
    → Looked g g1
    → res.session_budget ≡ none
    → Verdict g req res.tenant res.session (session_looked_up (g1, s) req res worst)
session_verdict g g1 req res worst none k e =
    refused_verdict g g1 k.keeps k.ledger_stays _ _ _ _ (refuse-Refused g1 g1 _ _ _ _ refl)
session_verdict g g1 req res worst (some s) k e =
    let t = tenant_budget_for g1 req.tenant in
    let k' = Looked-trans g g1 t.0 k (tenant_budget_for-Looked g1 req.tenant) in
    budgets_verdict g t.0 k'.keeps k'.ledger_stays req res worst s t.1 e

worst_verdict :
    (g g1 : Gate) (req : ReserveRequest) (res : Reservation) (worst : Option Money)
    → Looked g g1
    → res.session_budget ≡ none
    → Verdict g req res.tenant res.session (worst_priced g1 req res worst)
worst_verdict g g1 req res none k e =
    refused_verdict g g1 k.keeps k.ledger_stays _ _ _ _ (refuse-Refused g1 g1 _ _ _ _ refl)
worst_verdict g g1 req res (some worst) k e =
    let s = session_budget_for g1 req.tenant req.session in
    let k' = Looked-trans g g1 s.0 k (session_budget_for-Looked g1 req.tenant req.session) in
    session_verdict g s.0 req res worst s.1 k' e

book_verdict :
    (g g1 : Gate) (req : ReserveRequest) (res : Reservation) (now : ℕ)
    (book : Option (List PriceBookEntry))
    → Looked g g1
    → res.session_budget ≡ none
    → Verdict g req res.tenant res.session (book_found (g1, book) req res now)
book_verdict g g1 req res now none k e =
    refused_verdict g g1 k.keeps k.ledger_stays _ _ _ _ (refuse-Refused g1 g1 _ _ _ _ refl)
book_verdict g g1 req res now (some book) k e =
    worst_verdict g g1 req res (worst_case_cost g1.cfg book req.model_id req.purpose now) k e

pub reserve_verdict :
    (g : Gate) (req : ReserveRequest) (id now : ℕ)
    → Verdict g req req.tenant req.session (reserve g req id now)
unfolding reserve
reserve_verdict g req id now =
    let b = price_book_for g req.tenant in
    book_verdict g b.0 req (blank id req) now b.1 (price_book_for-Looked g req.tenant) refl
