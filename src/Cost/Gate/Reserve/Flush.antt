-- ===== src/Cost/Gate/Reserve/Flush.antt =====
-- A tenant whose counter has been flushed after the gate has armed it.
use nexus_agent_demo.Prelude.{
  ℕ, ◌≡◌, refl, ap, ◌∙◌, ◌⊎◌, inl, inr, Bool, true, false, Option, none, some, List, [], ◌∷◌, All,
  if◌then◌else◌,
}
use nexus_agent_demo.Prelude.Int.{ℤ, pos}
use nexus_agent_demo.Cost.Money.{Money}
use nexus_agent_demo.Cost.Prices.{PriceBookEntry}
use nexus_agent_demo.Cost.Counters.{
  Counter, Counters, ReserveOutcome, reserve_unavailable, counter_reserve, reserve_in,
}
use nexus_agent_demo.Cost.Ledger.{load_price_book, get_budget, sum_cost_records}
use nexus_agent_demo.Cost.Types.{
  Budget, Reason, refuse_ceiling, Reservation, ReserveRequest, session_scope, tenant_scope,
}
use nexus_agent_demo.Cost.Gate.{
  Gate, SessionCeilState, refuse, ensure_armed, worst_case_cost, price_book_for, session_budget_for,
  tenant_budget_for, best_effort_persist, cached_book, loaded_book, cached_session, loaded_session,
  cached_tenant, arm_with,
}
use nexus_agent_demo.Cost.Gate.Reserve.{
  Found, reserve, reserve_session, reserve_tenant, at_session, at_tenant, with_counter,
  armed_reserve, outcome, budgets_looked_up, session_looked_up, worst_priced, book_found, blank,
}

-- The gate has the tenant's budget cached and armed, and the counters know nothing of it.
pub record IsFlushed (tenant : ℕ) (t : Budget) (c : Counters) (g : Gate) : Type 0 where
  pub is_cached : g.tenant_cache tenant ≡ some (some t)
  pub is_armed : g.armed t.id ≡ true
  pub same_counters : g.counters ≡ some c
  pub no_counter_left : c.budgets t.id ≡ none

module _ (tenant : ℕ) (t : Budget) (c : Counters) where
  abbrev RefusedAgain : Gate × Reservation → Type 0
  RefusedAgain r = (r.1.decision.kind ≡ refuse_ceiling) × IsFlushed tenant t c r.0

  refuse_again :
      (g : Gate) (res : Reservation) (b : Option ℕ) (m : Money) (reason : Reason)
      → IsFlushed tenant t c g
      → RefusedAgain (refuse g res b m reason)
  unfolding refuse best_effort_persist
  refuse_again g res b m reason f = (
    refl,
    record {
      is_cached = f.is_cached;
      is_armed = f.is_armed;
      same_counters = f.same_counters;
      no_counter_left = f.no_counter_left;
    },
  )

  unknown_budget :
      (c : Counters) (b epoch : ℕ) (amount ceiling : ℤ)
      → c.budgets b ≡ none
      → (counter_reserve c b epoch amount ceiling ≡ (c, none))
        ⊎ (counter_reserve c b epoch amount ceiling ≡ (c, some (reserve_unavailable, pos 0)))
  unfolding counter_reserve
  unknown_budget c b epoch amount ceiling e = go c.failing (c.budgets b) e
    where
      go :
          (failing : Bool) (o : Option Counter)
          → o ≡ none
          → ((if failing then (c, none) else reserve_in c b epoch amount ceiling o) ≡ (c, none))
            ⊎ ((if failing then (c, none) else reserve_in c b epoch amount ceiling o)
                ≡ (c, some (reserve_unavailable, pos 0)))
      go failing (some k) e = cc
      go true none e = inl refl
      go false none e = inr refl

  with_counters :
      (g : Gate) → IsFlushed tenant t c g → IsFlushed tenant t c (record g { counters = some c })
  with_counters g h = record {
    is_cached = h.is_cached;
    is_armed = h.is_armed;
    same_counters = refl;
    no_counter_left = h.no_counter_left;
  }

  outcome_refuses :
      (g : Gate) (f : Found) (k : Counters × Option (ReserveOutcome × ℤ))
      → IsFlushed tenant t c g
      → (k ≡ (c, none)) ⊎ (k ≡ (c, some (reserve_unavailable, pos 0)))
      → RefusedAgain (outcome g f t k)
  outcome_refuses g f k h (inl e) =
      rw e (refuse_again (record g { counters = some c }) _ _ _ _ (with_counters g h))
  outcome_refuses g f k h (inr e) =
      rw e (refuse_again (record g { counters = some c }) _ _ _ _ (with_counters g h))

  armed_refuses :
      (g : Gate) (f : Found) (p : Option Counters)
      → IsFlushed tenant t c g
      → p ≡ some c
      → RefusedAgain (armed_reserve (g, true) f t p)
  armed_refuses g f p h e = rw e (
      outcome_refuses g f (counter_reserve c t.id t.epoch f.worst.micros t.ceiling.micros) h
        (unknown_budget c t.id t.epoch f.worst.micros t.ceiling.micros h.no_counter_left))

  ensured :
      (g : Gate) (tenant' : ℕ) → IsFlushed tenant t c g → ensure_armed g c tenant' t ≡ (g, true)
  unfolding ensure_armed
  ensured g tenant' h = go (g.armed t.id) h.is_armed
    where
      go :
          (b : Bool)
          → b ≡ true
          → (if b
              then (g, true)
              else arm_with g c t (sum_cost_records g.ledger tenant' tenant_scope))
            ≡ (g, true)
      go true e = refl
      go false e = cc

  counter_refuses :
      (g : Gate) (f : Found) (p : Option Counters)
      → IsFlushed tenant t c g
      → p ≡ some c
      → RefusedAgain (with_counter g f t p)
  counter_refuses g f none h e = cc
  counter_refuses g f (some c') h e =
      let same : c' ≡ c = cc in
      rw (same, ensured g f.res.tenant h) (armed_refuses g f g.counters h h.same_counters)

  tenant_refuses :
      (g : Gate) (f : Found)
      → IsFlushed tenant t c g
      → f.tenant_budget ≡ some t
      → RefusedAgain (reserve_tenant g f)
  unfolding reserve_tenant
  tenant_refuses g f h e = go f.tenant_budget e
    where
      go : (o : Option Budget) → o ≡ some t → RefusedAgain (at_tenant g f o)
      go none e = cc
      go (some t') e =
          let same : t' ≡ t = cc in rw same (counter_refuses g f g.counters h h.same_counters)

  session_refuses :
      (g : Gate) (req : ReserveRequest) (f : Found)
      → IsFlushed tenant t c g
      → f.tenant_budget ≡ some t
      → RefusedAgain (reserve_session g req f)
  unfolding reserve_session
  session_refuses g req f h e = go f.session_budget
    where
      over :
          (over : Bool) (p q : Gate × Reservation)
          → RefusedAgain p
          → RefusedAgain q
          → RefusedAgain (if over then p else q)
      over true p q a b = a
      over false p q a b = b

      go : (o : Option Budget) → RefusedAgain (at_session g req f o)
      go none = tenant_refuses g f h e
      go (some b) = over _ _ _ (refuse_again g _ _ _ _ h) (tenant_refuses g _ h e)

  budgets_refuse :
      (g : Gate) (req : ReserveRequest) (res : Reservation) (worst : Money) (s : Option Budget)
      (o : Option (Option Budget))
      → IsFlushed tenant t c g
      → (o ≡ some (some t)) ⊎ (o ≡ none)
      → RefusedAgain (budgets_looked_up (g, o) req res worst s)
  budgets_refuse g req res worst s none h e = refuse_again g _ _ _ _ h
  budgets_refuse g req res worst none (some none) h e = elim e [ inl e' ↦ cc | inr e' ↦ cc ]
  budgets_refuse g req res worst (some b) (some none) h e = elim e [ inl e' ↦ cc | inr e' ↦ cc ]
  budgets_refuse g req res worst s (some (some t')) h e =
      session_refuses g req _ h (elim e [ inl e' ↦ cc | inr e' ↦ cc ])

  cached_budget :
      (g : Gate) → IsFlushed tenant t c g → tenant_budget_for g tenant ≡ (g, some (some t))
  unfolding tenant_budget_for
  cached_budget g h = go (g.tenant_cache tenant) h.is_cached
    where
      go :
          (o : Option (Option Budget))
          → o ≡ some (some t)
          → cached_tenant g tenant o ≡ (g, some (some t))
      go none e = cc
      go (some b) e = let same : b ≡ some t = cc in rw same refl

  session_looked_refuses :
      (g : Gate) (req : ReserveRequest) (res : Reservation) (worst : Money)
      (s : Option (Option Budget))
      → req.tenant ≡ tenant
      → IsFlushed tenant t c g
      → RefusedAgain (session_looked_up (g, s) req res worst)
  session_looked_refuses g req res worst none r h = refuse_again g _ _ _ _ h
  session_looked_refuses g req res worst (some s) r h = go (tenant_budget_for g req.tenant) found
    where
      found : tenant_budget_for g req.tenant ≡ (g, some (some t))
      found = ap (tenant_budget_for g) r ∙ cached_budget g h

      go :
          (k : Gate × Option (Option Budget))
          → k ≡ (g, some (some t))
          → RefusedAgain (budgets_looked_up k req res worst s)
      go k e = rw e (budgets_refuse g req res worst s (some (some t)) h (inl refl))

  session_lookup_keeps :
      (g : Gate) (tenant' session : ℕ)
      → IsFlushed tenant t c g
      → IsFlushed tenant t c (session_budget_for g tenant' session).0
  unfolding session_budget_for
  session_lookup_keeps g tenant' session h = go (g.session_state session)
    where
      load : (l : Option (Option Budget)) → IsFlushed tenant t c (loaded_session g session l).0
      load none = h
      load (some b) = record {
        is_cached = h.is_cached;
        is_armed = h.is_armed;
        same_counters = h.same_counters;
        no_counter_left = h.no_counter_left;
      }

      go :
          (p : Option SessionCeilState)
          → IsFlushed tenant t c (cached_session g tenant' session p).0
      go (some st) = h
      go none = load (get_budget g.ledger tenant' (session_scope session))

  book_lookup_keeps :
      (g : Gate) (tenant' : ℕ)
      → IsFlushed tenant t c g
      → IsFlushed tenant t c (price_book_for g tenant').0
  unfolding price_book_for
  book_lookup_keeps g tenant' h = go (g.price_books tenant')
    where
      load : (l : Option (List PriceBookEntry)) → IsFlushed tenant t c (loaded_book g tenant' l).0
      load none = h
      load (some b) = record {
        is_cached = h.is_cached;
        is_armed = h.is_armed;
        same_counters = h.same_counters;
        no_counter_left = h.no_counter_left;
      }

      go : (p : Option (List PriceBookEntry)) → IsFlushed tenant t c (cached_book g tenant' p).0
      go (some b) = h
      go none = load (load_price_book g.ledger tenant')

  priced_refuses :
      (g : Gate) (req : ReserveRequest) (res : Reservation) (worst : Option Money)
      → req.tenant ≡ tenant
      → IsFlushed tenant t c g
      → RefusedAgain (worst_priced g req res worst)
  priced_refuses g req res none r h = refuse_again g _ _ _ _ h
  priced_refuses g req res (some worst) r h =
      let s = session_budget_for g req.tenant req.session in
      session_looked_refuses s.0 req res worst s.1 r
        (session_lookup_keeps g req.tenant req.session h)

  book_refuses :
      (g : Gate) (book : Option (List PriceBookEntry)) (req : ReserveRequest) (res : Reservation)
      (now : ℕ)
      → req.tenant ≡ tenant
      → IsFlushed tenant t c g
      → RefusedAgain (book_found (g, book) req res now)
  book_refuses g none req res now r h = refuse_again g _ _ _ _ h
  book_refuses g (some book) req res now r h =
      priced_refuses g req res (worst_case_cost g.cfg book req.model_id req.purpose now) r h

  reserve_refuses :
      (g : Gate) (req : ReserveRequest) (id now : ℕ)
      → req.tenant ≡ tenant
      → IsFlushed tenant t c g
      → RefusedAgain (reserve g req id now)
  unfolding reserve
  reserve_refuses g req id now r h =
      let b = price_book_for g req.tenant in
      book_refuses b.0 b.1 req (blank id req) now r (book_lookup_keeps g req.tenant h)

-- The gate after a run of Reserves, each with its id and time.
unfoldable pub reserve_all : Gate → List (ReserveRequest × ℕ × ℕ) → Gate
reserve_all g [] = g
reserve_all g ((req, id, now) ∷ rs) = reserve_all (reserve g req id now).0 rs

still-IsFlushed :
    (tenant : ℕ) (t : Budget) (c : Counters) (g : Gate) (rs : List (ReserveRequest × ℕ × ℕ))
    → All (λ r. r.0.tenant ≡ tenant) rs
    → IsFlushed tenant t c g
    → IsFlushed tenant t c (reserve_all g rs)
unfolding reserve_all
still-IsFlushed tenant t c g [] a h = h
still-IsFlushed tenant t c g ((req, id, now) ∷ rs) (e, a) h =
    still-IsFlushed tenant t c (reserve g req id now).0 rs a
      (reserve_refuses tenant t c g req id now e h).1

-- Once a budget that the gate has armed is flushed from the counters, the gate refuses every
-- Reserve of the tenant, however many have come before: it does not arm the budget again.
pub flushed_refuses_forever :
    (tenant : ℕ) (t : Budget) (c : Counters) (g : Gate) (rs : List (ReserveRequest × ℕ × ℕ))
    (req : ReserveRequest) (id now : ℕ)
    → All (λ r. r.0.tenant ≡ tenant) rs
    → req.tenant ≡ tenant
    → IsFlushed tenant t c g
    → (reserve (reserve_all g rs) req id now).1.decision.kind ≡ refuse_ceiling
flushed_refuses_forever tenant t c g rs req id now a e h =
    (reserve_refuses tenant t c (reserve_all g rs) req id now e
      (still-IsFlushed tenant t c g rs a h)).0
