-- ===== src/Reliability/Breaker/Registry/Isolation.antt =====
-- The breakers of a registry do not see the failures of each other.
use nexus_agent_demo.Prelude.{
  ◌∙◌, sym, ap, ℕ, ◌+◌, ◌<◌, ◌≡◌, refl, none, some, List, [], ◌∷◌, arith, Bool-cases, Option-cases,
  if◌then◌else◌, inl, inr,
}
use nexus_agent_demo.Prelude.Text.{Text, text_eq, text_eq_iff}
use nexus_agent_demo.Reliability.Breaker.{
  CircuitBreaker, failures, new_circuit_breaker, record_failure,
}
use nexus_agent_demo.Reliability.Breaker.Registry.{
  BreakerRegistry, breaker_of, fail_all, fail_on, for_found, for_key, new_breaker_registry, put,
  reasons_of, write,
}

-- The pointers of the map are allocated, each for one key.
record IsFine (r : BreakerRegistry) : Type 0 where
  known : (k : Text) (p : ℕ) → r.breakers k ≡ some p → p < r.allocated
  apart : (k k' : Text) (p : ℕ) → r.breakers k ≡ some p → r.breakers k' ≡ some p → k ≡ k'

fail_on-known :
    (r : BreakerRegistry) (key reason : Text) (p : ℕ)
    → r.breakers key ≡ some p
    → (fail_on r key reason).0
      ≡ record r { store = write r.store p (record_failure (r.store p) reason).0 }
unfolding fail_on
fail_on-known r key reason p e = rw e refl

abbrev with_new : BreakerRegistry → Text → Text → BreakerRegistry
with_new r key reason =
    let b = new_circuit_breaker r.default_threshold in
    record r {
      breakers = put r.breakers key r.allocated;
      store =
          write (write r.store r.allocated b) r.allocated
            (record_failure (write r.store r.allocated b r.allocated) reason).0;
      allocated = r.allocated + 1;
    }

fail_on-new :
    (r : BreakerRegistry) (key reason : Text)
    → r.breakers key ≡ none
    → (fail_on r key reason).0 ≡ with_new r key reason
unfolding fail_on
fail_on-new r key reason e = rw e refl

same_cell : (p : ℕ) (b : CircuitBreaker) (store : ℕ → CircuitBreaker) → write store p b p ≡ b
same_cell p b store = ground arith

other_cell :
    (p q : ℕ) (b : CircuitBreaker) (store : ℕ → CircuitBreaker)
    → ¬ (q ≡ p)
    → write store p b q ≡ store q
other_cell p q b store n = ground arith

breaker_of-some :
    (r : BreakerRegistry) (k : Text) (p : ℕ) → r.breakers k ≡ some p → breaker_of r k ≡ r.store p
unfolding breaker_of for_key
breaker_of-some r k p e = ap (λ o. (for_found r k o).1.store (for_found r k o).0) e

breaker_of-none :
    (r : BreakerRegistry) (k : Text)
    → r.breakers k ≡ none
    → breaker_of r k ≡ new_circuit_breaker r.default_threshold
unfolding breaker_of for_key
breaker_of-none r k e =
    ap (λ o. (for_found r k o).1.store (for_found r k o).0) e
    ∙ same_cell r.allocated (new_circuit_breaker r.default_threshold) r.store

with_new-IsFine :
    (r : BreakerRegistry) (key reason : Text) → IsFine r → IsFine (with_new r key reason)
with_new-IsFine r key reason f = record { known = known; apart = apart }
  where
    known : (k : Text) (p : ℕ) → put r.breakers key r.allocated k ≡ some p → p < r.allocated + 1
    known k p e = elim (Bool-cases (text_eq k key)) [
      | inl t ↦ (let q : r.allocated ≡ p = cc (rw t at e) in omega (arith, q))
      | inr t ↦ omega (arith, f.known k p (rw t at e))
    ]

    fresh : (k : Text) → r.breakers k ≡ some r.allocated → ⊥
    fresh k e = absurd (omega (arith, f.known k r.allocated e))

    apart :
        (k k' : Text) (p : ℕ)
        → put r.breakers key r.allocated k ≡ some p
        → put r.breakers key r.allocated k' ≡ some p
        → k ≡ k'
    apart k k' p e e' = elim (Bool-cases (text_eq k key)) [
      | inl t ↦ elim (Bool-cases (text_eq k' key)) [
        | inl t' ↦ (text_eq_iff k key).0 t ∙ sym ((text_eq_iff k' key).0 t')
        | inr t' ↦ absurd (fresh k' (rw t' at e' ∙ sym (rw t at e)))
      ]
      | inr t ↦ elim (Bool-cases (text_eq k' key)) [
        | inl t' ↦ absurd (fresh k (rw t at e ∙ sym (rw t' at e')))
        | inr t' ↦ f.apart k k' p (rw t at e) (rw t' at e')
      ]
    ]

fail_on-IsFine :
    (r : BreakerRegistry) (key reason : Text) → IsFine r → IsFine (fail_on r key reason).0
fail_on-IsFine r key reason f = elim (Option-cases (r.breakers key)) [
  | inl n ↦ rw (fail_on-new r key reason n) (with_new-IsFine r key reason f)
  | inr (p, e) ↦ rw (fail_on-known r key reason p e) (record { known = f.known; apart = f.apart })
]

abbrev expected : BreakerRegistry → Text → Text → Text → CircuitBreaker
expected r key reason k =
    if text_eq k key then (record_failure (breaker_of r k) reason).0 else breaker_of r k

known-breaker :
    (r : BreakerRegistry) (key reason k : Text) (p : ℕ)
    → IsFine r
    → r.breakers key ≡ some p
    → breaker_of (record r { store = write r.store p (record_failure (r.store p) reason).0 }) k
      ≡ expected r key reason k
known-breaker r key reason k p f e =
    let after : BreakerRegistry = record r {
      store = write r.store p (record_failure (r.store p) reason).0;
    } in
    elim (Option-cases (r.breakers k)) [
      | inl n ↦ elim (Bool-cases (text_eq k key)) [
        | inl t ↦
            let same : r.breakers k ≡ r.breakers key = ap r.breakers ((text_eq_iff k key).0 t) in
            absurd (cc (same, n, e))
        | inr t ↦ rw t (breaker_of-none after k n ∙ sym (breaker_of-none r k n))
      ]
      | inr (q, h) ↦ elim (Bool-cases (text_eq k key)) [
        | inl t ↦
            let same : r.breakers k ≡ r.breakers key = ap r.breakers ((text_eq_iff k key).0 t) in
            let cell : q ≡ p = cc (same, h, e) in
            rw t (
              breaker_of-some after k q h
              ∙ ap (write r.store p (record_failure (r.store p) reason).0) cell
              ∙ same_cell p (record_failure (r.store p) reason).0 r.store
              ∙ ap (λ b. (record_failure b reason).0)
                  (ap r.store (sym cell) ∙ sym (breaker_of-some r k q h)))
        | inr t ↦
            let n : ¬ (q ≡ p) =
              λ c. cc (t, (text_eq_iff k key).1 (f.apart k key p (h ∙ ap some c) e)) in
            rw t (
              breaker_of-some after k q h
              ∙ other_cell p q (record_failure (r.store p) reason).0 r.store n
              ∙ sym (breaker_of-some r k q h))
      ]
    ]

new-breaker :
    (r : BreakerRegistry) (key reason k : Text)
    → IsFine r
    → r.breakers key ≡ none
    → breaker_of (with_new r key reason) k ≡ expected r key reason k
new-breaker r key reason k f e =
    let after : BreakerRegistry = with_new r key reason in
    let b : CircuitBreaker = new_circuit_breaker r.default_threshold in
    let once : (ℕ → CircuitBreaker) = write r.store r.allocated b in
    let failed : CircuitBreaker = (record_failure (once r.allocated) reason).0 in
    elim (Bool-cases (text_eq k key)) [
      | inl t ↦
          let n : r.breakers k ≡ none = ap r.breakers ((text_eq_iff k key).0 t) ∙ e in
          let h : after.breakers k ≡ some r.allocated = rw t refl in
          rw t (
            breaker_of-some after k r.allocated h
            ∙ same_cell r.allocated failed once
            ∙ ap (λ x. (record_failure x reason).0)
                (same_cell r.allocated b r.store ∙ sym (breaker_of-none r k n)))
      | inr t ↦ elim (Option-cases (r.breakers k)) [
        | inl n ↦
            let h : after.breakers k ≡ none = rw t n in
            rw t (breaker_of-none after k h ∙ sym (breaker_of-none r k n))
        | inr (q, g) ↦
            let h : after.breakers k ≡ some q = rw t g in
            let n : ¬ (q ≡ r.allocated) = λ c. absurd (omega (arith, c, f.known k q g)) in
            rw t (
              breaker_of-some after k q h
              ∙ other_cell r.allocated q failed once n
              ∙ other_cell r.allocated q b r.store n
              ∙ sym (breaker_of-some r k q g))
      ]
    ]

-- What a failure under one key does to the breaker of another, or of the same.
fail_on-breaker :
    (r : BreakerRegistry) (key reason k : Text)
    → IsFine r
    → breaker_of (fail_on r key reason).0 k ≡ expected r key reason k
fail_on-breaker r key reason k f = elim (Option-cases (r.breakers key)) [
  | inl n ↦ rw (fail_on-new r key reason n) (new-breaker r key reason k f n)
  | inr (p, e) ↦ rw (fail_on-known r key reason p e) (known-breaker r key reason k p f e)
]

new-IsFine : (threshold : ℕ) → IsFine (new_breaker_registry threshold)
unfolding new_breaker_registry
new-IsFine threshold = record { known = λ k p e. absurd cc; apart = λ k k' p e e'. absurd cc }

all_isolated :
    (r : BreakerRegistry) (k : Text) (xs : List (Text × Text))
    → IsFine r
    → breaker_of (fail_all r xs) k ≡ (failures (breaker_of r k) (reasons_of k xs)).0
unfolding fail_all failures
all_isolated r k [] f = refl
all_isolated r k ((key, reason) ∷ xs) f =
    let r' : BreakerRegistry = (fail_on r key reason).0 in
    let rest = all_isolated r' k xs (fail_on-IsFine r key reason f) in
    elim (Bool-cases (text_eq k key)) [
      | inl e ↦
          let one : breaker_of r' k ≡ (record_failure (breaker_of r k) reason).0 =
            rw e at (fail_on-breaker r key reason k f) in
          rw e (rest ∙ ap (λ (b : CircuitBreaker). (failures b (reasons_of k xs)).0) one)
      | inr e ↦
          let one : breaker_of r' k ≡ breaker_of r k = rw e at (fail_on-breaker r key reason k f) in
          rw e (rest ∙ ap (λ (b : CircuitBreaker). (failures b (reasons_of k xs)).0) one)
    ]

-- After any history of failures from a new registry on, the breaker that the registry hands out for a
-- key has seen exactly that key's failures since it was made: those of other keys, before, between or
-- after, leave it as it was.
pub keys_are_isolated :
    (threshold : ℕ) (k : Text) (xs : List (Text × Text))
    → breaker_of (fail_all (new_breaker_registry threshold) xs) k
      ≡ (failures (new_circuit_breaker threshold) (reasons_of k xs)).0
keys_are_isolated threshold k xs =
    all_isolated (new_breaker_registry threshold) k xs (new-IsFine threshold)
    ∙ ap (λ (b : CircuitBreaker). (failures b (reasons_of k xs)).0)
        (unfold new_breaker_registry in breaker_of-none (new_breaker_registry threshold) k refl)
