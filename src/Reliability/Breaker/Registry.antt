-- ===== src/Reliability/Breaker/Registry.antt =====
-- internal/reliability/classifier.go: the registry of the circuit breakers, one for each key.
pub mod Isolation
use nexus_agent_demo.Prelude.{
  ◌∙◌, sym, ap, ℕ, ◌+◌, ◌<◌, ◌≡◌, refl, Bool, Option, none, some, List, [], ◌∷◌, arith, ◌==◌,
  Bool-cases, Option-cases, if◌then◌else◌, inl, inr,
}
use nexus_agent_demo.Prelude.Text.{Text, text_eq, text_eq_iff}
use nexus_agent_demo.Reliability.Breaker.{
  CircuitBreaker, failures, new_circuit_breaker, record_failure,
}

-- The map goes from a key to a pointer; `store` has the breakers at the `allocated` pointers.
pub record BreakerRegistry : Type 0 where
  pub default_threshold : ℕ
  pub breakers : Text → Option ℕ
  pub store : ℕ → CircuitBreaker
  pub allocated : ℕ

unfoldable pub new_breaker_registry : ℕ → BreakerRegistry
new_breaker_registry threshold = record {
  default_threshold = threshold;
  breakers = λ k. none;
  store = λ p. new_circuit_breaker threshold;
  allocated = 0;
}

abbrev pub put : (Text → Option ℕ) → Text → ℕ → Text → Option ℕ
put m key p k = if text_eq k key then some p else m k

abbrev pub write : (ℕ → CircuitBreaker) → ℕ → CircuitBreaker → ℕ → CircuitBreaker
write store p b q = if q == p then b else store q

abbrev pub for_found : BreakerRegistry → Text → Option ℕ → ℕ × BreakerRegistry
for_found r key (some p) = (p, r)
for_found r key none = (
  r.allocated,
  record r {
    breakers = put r.breakers key r.allocated;
    store = write r.store r.allocated (new_circuit_breaker r.default_threshold);
    allocated = r.allocated + 1;
  },
)

-- For: the pointer that is handed out.
unfoldable pub for_key : BreakerRegistry → Text → ℕ × BreakerRegistry
for_key r key = for_found r key (r.breakers key)

-- RecordFailure through a pointer.
unfoldable pub fail_at : BreakerRegistry → ℕ → Text → BreakerRegistry × Bool
fail_at r p reason =
    let (b, tripped) = record_failure (r.store p) reason in
    (record r { store = write r.store p b }, tripped)

-- What a caller does: For, and RecordFailure on what it hands out.
unfoldable pub fail_on : BreakerRegistry → Text → Text → BreakerRegistry × Bool
unfolding for_key fail_at
fail_on r key reason = let (p, r') = for_key r key in fail_at r' p reason

unfoldable pub fail_all : BreakerRegistry → List (Text × Text) → BreakerRegistry
unfolding fail_on
fail_all r [] = r
fail_all r ((key, reason) ∷ xs) = fail_all (fail_on r key reason).0 xs

-- The breaker that For hands out for the key.
unfoldable pub breaker_of : BreakerRegistry → Text → CircuitBreaker
unfolding for_key
breaker_of r key = (for_key r key).1.store (for_key r key).0

-- The reasons that a history of failures holds for one key.
abbrev pub reasons_of : Text → List (Text × Text) → List Text
reasons_of k [] = []
reasons_of k ((key, reason) ∷ xs) =
    if text_eq k key then reason ∷ reasons_of k xs else reasons_of k xs
