-- ===== src/Reliability/Failure.antt =====
-- internal/reliability/classifier.go: the failure classes and the backoff.
use nexus_agent_demo.Prelude.{
  ℕ, ◌+◌, ◌*◌, ◌%◌, ◌^◌, ◌≤◌, ◌<◌, ◌≡◌, refl, ◌↔◌, ◌⊎◌, inl, inr, Bool, true, false, ◌&&◌, ◌||◌,
  ◌-◌, Option, none, some, arith, ltb, leb, ◌==◌, Bool-cases, if◌then◌else◌,
}
use nexus_agent_demo.Prelude.Text.{Text}

pub data FailureClass : Type 0 where
  retryable permanent : FailureClass

-- An error as the chain that `errors.Is` and `errors.As` unwrap.
pub data Err : Type 0 where
  deadline_exceeded canceled unexpected_eof : Err
  plain : Text → Err
  wrapped : Text → Err → Err
  permanent_error : Err → Err

-- errors.Is for one of the three sentinels.
is_transient : Err → Bool
is_transient deadline_exceeded = true
is_transient canceled = true
is_transient unexpected_eof = true
is_transient (plain t) = false
is_transient (wrapped t e) = is_transient e
is_transient (permanent_error e) = is_transient e

-- errors.As to a *PermanentError.
is_permanent : Err → Bool
is_permanent (wrapped t e) = is_permanent e
is_permanent (permanent_error e) = true
is_permanent _ = false

unfoldable pub classify_err : Err → FailureClass
unfolding is_transient is_permanent
classify_err e =
    if is_transient e then retryable else if is_permanent e then permanent else retryable

unfoldable pub classify : Option Err → FailureClass
classify none = retryable
classify (some e) = classify_err e

-- The error is in the chain.
pub data Chains (P : Err → Type 0) : Err → Type 0 where
  here : {e : Err} → P e → Chains P e
  under_wrap : {t : Text} {e : Err} → Chains P e → Chains P (wrapped t e)
  under_permanent : {e : Err} → Chains P e → Chains P (permanent_error e)

pub record BackoffConfig : Type 0 where
  pub base : ℕ
  pub max_delay : ℕ

abbrev millisecond : ℕ
millisecond = 1_000_000

unfoldable pub with_defaults : BackoffConfig → BackoffConfig
with_defaults c = record {
  base = if leb c.base 0 then 500 * millisecond else c.base;
  max_delay = if leb c.max_delay 0 then 5 * 60 * 1000 * millisecond else c.max_delay;
}

abbrev at_most_20 : ℕ → ℕ
at_most_20 attempt = if ltb attempt 20 then attempt else 20

-- The product of two non-negative int64, as the bits of the result: from 2 ^ 63 on it is negative.
abbrev wraps : ℕ → ℕ
wraps n = n % 2 ^ 64

-- Whether the int64 of these bits is `> max`, or `<= 0`.
unfoldable pub out_of_range : ℕ → ℕ → Bool
out_of_range bits max_delay = leb (2 ^ 63) bits || ltb max_delay bits || bits == 0

unfoldable pub ceiling : BackoffConfig → ℕ → ℕ
unfolding with_defaults out_of_range
ceiling c attempt =
    let c' = with_defaults c in
    let n = if ltb attempt 1 then 1 else attempt in
    let bits = wraps (c'.base * 2 ^ at_most_20 n) in
    if out_of_range bits c'.max_delay then c'.max_delay else bits

-- Whether the int64 of these bits is positive.
abbrev is_positive : ℕ → Bool
is_positive bits = ltb 0 bits && ltb bits (2 ^ 63)

-- `int64_n` is rng.Int64N, which panics at a bound that is not positive: `none`.
unfoldable pub delay : (int64_n : ℕ → ℕ) → BackoffConfig → ℕ → Option ℕ
delay int64_n c attempt =
    let bound = wraps (ceiling c attempt + 1) in
    if is_positive bound then some (int64_n bound) else none

ceiling_range :
    (bits max_delay : ℕ)
    → 0 < max_delay
    → let k = if out_of_range bits max_delay then max_delay else bits in (0 < k) × (k ≤ max_delay)
unfolding out_of_range
ceiling_range bits m h = ground arith

max_positive : (c : BackoffConfig) → 0 < (with_defaults c).max_delay
unfolding with_defaults
max_positive c = ground arith

ceiling_bounds :
    (c : BackoffConfig) (attempt : ℕ)
    → (0 < ceiling c attempt) × (ceiling c attempt ≤ (with_defaults c).max_delay)
unfolding ceiling
ceiling_bounds c attempt = ceiling_range _ _ (max_positive c)

next_bound : (n : ℕ) → n < 2 ^ 63 - 1 → wraps (n + 1) ≡ n + 1
next_bound n h = omega arith

-- Where the maximum, as configured or by default, is below the greatest int64: the ceiling of a delay
-- is positive and at most the maximum, whatever the attempt and also where the product overflows;
-- and there is a delay, at most the ceiling, if Int64N(n) is below n.
pub delay_bounds :
    (int64_n : ℕ → ℕ) (c : BackoffConfig) (attempt : ℕ)
    → ((n : ℕ) → 0 < n → int64_n n < n)
    → (with_defaults c).max_delay < 2 ^ 63 - 1
    → (0 < ceiling c attempt)
      × (ceiling c attempt ≤ (with_defaults c).max_delay)
      × (d : ℕ) × (delay int64_n c attempt ≡ some d)
      × (d ≤ ceiling c attempt)
unfolding delay
delay_bounds int64_n c attempt h m =
    let (low, high) = ceiling_bounds c attempt in
    let fits = next_bound (ceiling c attempt) (omega (arith, high, m)) in
    let positive : is_positive (ceiling c attempt + 1) ≡ true = ground (arith, high, m) in
    (
      low,
      high,
      int64_n (ceiling c attempt + 1),
      rw (fits, positive) refl,
      omega (arith, h (ceiling c attempt + 1) (omega arith)),
    )

-- e is one of the three transient sentinels
abbrev pub IsSentinel : Err → Type 0
IsSentinel e = (e ≡ deadline_exceeded) ⊎ (e ≡ canceled) ⊎ (e ≡ unexpected_eof)

abbrev pub IsPermanent : Err → Type 0
IsPermanent e = (inner : Err) × (e ≡ permanent_error inner)

transient_sound : (e : Err) → is_transient e ≡ true → Chains IsSentinel e
unfolding is_transient
transient_sound deadline_exceeded h = here (inl refl)
transient_sound canceled h = here (inr (inl refl))
transient_sound unexpected_eof h = here (inr (inr refl))
transient_sound (plain t) h = cc
transient_sound (wrapped t e) h = under_wrap (transient_sound e h)
transient_sound (permanent_error e) h = under_permanent (transient_sound e h)

transient_complete : {e : Err} → Chains IsSentinel e → is_transient e ≡ true
unfolding is_transient
transient_complete (here (inl p)) = rw p
transient_complete (here (inr (inl p))) = rw p
transient_complete (here (inr (inr p))) = rw p
transient_complete (under_wrap c) = transient_complete c
transient_complete (under_permanent c) = transient_complete c

IsPermanent-sound : (e : Err) → is_permanent e ≡ true → Chains IsPermanent e
unfolding is_permanent
IsPermanent-sound (wrapped t e) h = under_wrap (IsPermanent-sound e h)
IsPermanent-sound (permanent_error e) h = here (e, refl)
IsPermanent-sound _ h = cc

permanent_complete : {e : Err} → Chains IsPermanent e → is_permanent e ≡ true
unfolding is_permanent
permanent_complete (here p) = rw (p.1)
permanent_complete (under_wrap c) = permanent_complete c
permanent_complete (under_permanent c) = refl

-- An error is classified permanent exactly if a PermanentError is in its chain and none of the
-- transient sentinels is.
pub classify_permanent_iff :
    (e : Err) → (classify (some e) ≡ permanent) ↔ (Chains IsPermanent e × ¬ Chains IsSentinel e)
unfolding classify classify_err
classify_permanent_iff e =
    (forward (Bool-cases (is_transient e)) (Bool-cases (is_permanent e)), backward)
  where
    forward :
        ((is_transient e ≡ true) ⊎ (is_transient e ≡ false))
        → ((is_permanent e ≡ true) ⊎ (is_permanent e ≡ false))
        → classify (some e) ≡ permanent
        → Chains IsPermanent e × ¬ Chains IsSentinel e
    forward (inl t) p h = cc (rw t at h)
    forward (inr t) (inl p) h = (IsPermanent-sound e p, (λ c. cc (transient_complete c)))
    forward (inr t) (inr p) h = cc (rw (t, p) at h)

    backward : Chains IsPermanent e × ¬ Chains IsSentinel e → classify (some e) ≡ permanent
    backward (c, n) = elim (Bool-cases (is_transient e)) [
      | inl t ↦ absurd (n (transient_sound e t))
      | inr t ↦ rw (t, permanent_complete c)
    ]
