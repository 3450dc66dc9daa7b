-- ===== src/Reliability/Breaker.antt =====
-- internal/reliability/classifier.go: the circuit breaker of a failure domain.
pub mod Registry
use Prim.Native.Nat.{max}
use nexus_agent_demo.Prelude.{
  ◌∙◌, sym, ap, ℕ, suc, ◌+◌, ◌≤◌, ◌<◌, ◌≡◌, refl, Bool, true, false, Option, none, some, List, [],
  ◌∷◌, arith, leb, Bool-cases, if◌then◌else◌, inl, inr, ◌⊎◌,
}
use native.Mathlib.Decide.{dec_lt}
use nexus_agent_demo.Prelude.Text.{Text, text_eq, text_eq_iff, text_eq_refl}

pub record CircuitBreaker : Type 0 where
  pub threshold : ℕ
  pub consecutive : ℕ
  pub last_reason : Text
  pub is_open : Bool

unfoldable pub new_circuit_breaker : ℕ → CircuitBreaker
new_circuit_breaker threshold = record {
  threshold = if leb threshold 0 then 3 else threshold;
  consecutive = 0;
  last_reason = [];
  is_open = false;
}

-- The count after one more failure with this reason.
counted : CircuitBreaker → Text → CircuitBreaker
counted b reason =
    if text_eq reason b.last_reason
    then record b { consecutive = b.consecutive + 1 }
    else record b { last_reason = reason; consecutive = 1 }

-- The breaker after the failure, and whether it tripped.
unfoldable pub record_failure : CircuitBreaker → Text → CircuitBreaker × Bool
unfolding counted
record_failure b reason =
    if b.is_open
    then (b, false)
    else let b' = counted b reason in
      if leb b'.threshold b'.consecutive then (record b' { is_open = true }, true) else (b', false)

unfoldable pub record_success : CircuitBreaker → CircuitBreaker
record_success b = record b { consecutive = 0; last_reason = []; is_open = false }

unfoldable pub failures : CircuitBreaker → List Text → CircuitBreaker × ℕ
failures b [] = (b, 0)
failures b (r ∷ rs) =
    let (b', tripped) = record_failure b r in
    let (b'', n) = failures b' rs in (b'', if tripped then suc n else n)

-- Open stays open and trips no more.
failures-open : (b : CircuitBreaker) (rs : List Text) → b.is_open ≡ true → failures b rs ≡ (b, 0)
unfolding failures record_failure
failures-open b [] h = refl
failures-open b (r ∷ rs) h = ground (arith, failures-open b rs h)

tripped_opens :
    (b : CircuitBreaker) (r : Text)
    → (((record_failure b r).1 ≡ true) × ((record_failure b r).0.is_open ≡ true))
      ⊎ (((record_failure b r).1 ≡ false) × ((record_failure b r).0.is_open ≡ b.is_open))
unfolding record_failure
tripped_opens b r = ground arith

-- However many failures a breaker records, with any reasons, it reports a trip at most once, and
-- it reports one exactly when it goes from closed to open.
trips_once :
    (b : CircuitBreaker) (rs : List Text)
    → ((failures b rs).1 ≤ 1)
      × (b.is_open ≡ false → (failures b rs).0.is_open ≡ true → (failures b rs).1 ≡ 1)
      × ((failures b rs).0.is_open ≡ false → (failures b rs).1 ≡ 0)
unfolding failures
trips_once b [] = (omega arith, (λ p q. cc), (λ p. refl))
trips_once b (r ∷ rs) = elim (tripped_opens b r) [
  | inl (t, o) ↦
      rw (t, failures-open (record_failure b r).0 rs o) (omega arith, (λ p q. refl), (λ p. cc))
  | inr (t, o) ↦
      let ih = trips_once (record_failure b r).0 rs in rw t (ih.0, (λ p q. ih.1 (o ∙ p) q), ih.2)
]

-- The longest run of equal reasons, where `n` failures with the reason `last` come before.
pub peak : Text → ℕ → List Text → ℕ
peak last n [] = n
peak last n (r ∷ rs) =
    let longer = peak r (n + 1) rs in
    let anew = max n (peak r 1 rs) in if text_eq r last then longer else anew

peak-le : (last : Text) (n : ℕ) (rs : List Text) → n ≤ peak last n rs
unfolding peak
peak-le last n [] = omega arith
peak-le last n (r ∷ rs) = elim (Bool-cases (text_eq r last)) [
  | inl e ↦ rw e (omega (arith, peak-le r (n + 1) rs))
  | inr e ↦ rw e (omega arith)
]

reach_threshold : (t n : ℕ) → t ≤ n → leb t n ≡ true
reach_threshold t n h = ground arith

below_threshold : (t n m : ℕ) → n < t → leb t (max n m) ≡ leb t m
below_threshold t n m h = ground arith

module _ (b : CircuitBreaker) (r : Text) (rs : List Text) (closed : b.is_open ≡ false) where
  trips :
      (counted b r).threshold ≤ (counted b r).consecutive → (record_failure b r).0.is_open ≡ true
  unfolding record_failure
  trips h = ground arith

  keeps : (counted b r).consecutive < (counted b r).threshold → (record_failure b r).0 ≡ counted b r
  unfolding record_failure
  keeps h = ground arith

  counted_closed : (counted b r).is_open ≡ false
  unfolding counted
  counted_closed = ground arith

  -- One failure on, by the induction hypothesis at the new count.
  one_on :
      ((counted b r).consecutive < (counted b r).threshold
        → (failures (counted b r) rs).0.is_open
          ≡ leb
              (counted b r).threshold
              (peak (counted b r).last_reason (counted b r).consecutive rs))
      → (failures (record_failure b r).0 rs).0.is_open
        ≡ leb (counted b r).threshold (peak (counted b r).last_reason (counted b r).consecutive rs)
  one_on ih = elim (dec_lt (counted b r).consecutive (counted b r).threshold) [
    | yes h ↦ rw (keeps h) (ih h)
    | no h ↦ rw (failures-open (record_failure b r).0 rs (trips (omega arith))) (
        trips (omega arith)
        ∙ sym (
            reach_threshold _ _
              (omega (arith, peak-le (counted b r).last_reason (counted b r).consecutive rs))))
  ]

seen_peak :
    (b : CircuitBreaker) (r : Text) (rs : List Text)
    → b.consecutive < b.threshold
    → leb (counted b r).threshold (peak (counted b r).last_reason (counted b r).consecutive rs)
      ≡ leb b.threshold (peak b.last_reason b.consecutive (r ∷ rs))
unfolding counted peak
seen_peak b r rs h = elim (Bool-cases (text_eq r b.last_reason)) [
  | inl e ↦ rw e (
      ap (λ (t : Text). leb b.threshold (peak t (b.consecutive + 1) rs))
        (sym ((text_eq_iff r b.last_reason).0 e)))
  | inr e ↦ rw e (sym (below_threshold b.threshold b.consecutive (peak r 1 rs) h))
]

-- A closed breaker that has counted fewer failures than its threshold is open after a history of
-- failures exactly if the longest run of equal reasons reaches the threshold, where the failures that
-- it had counted, with their reason, come before the history.
pub opens_at_run :
    (b : CircuitBreaker) (rs : List Text)
    → b.is_open ≡ false
    → b.consecutive < b.threshold
    → (failures b rs).0.is_open ≡ leb b.threshold (peak b.last_reason b.consecutive rs)
unfolding failures peak
opens_at_run b [] c h = ground arith
opens_at_run b (r ∷ rs) c h =
    one_on b r rs c (opens_at_run (counted b r) rs (counted_closed b r rs c)) ∙ seen_peak b r rs h
