-- ===== src/Provider/Failover/Trigger.antt =====
-- What a provider's attempt gives, and which errors let the next provider be tried.
use nexus_agent_demo.Prelude.{
  ℕ, suc, ◌<◌, ◌≡◌, refl, ◌⊎◌, inl, inr, Bool, true, false, some, List, [], ◌∷◌, arith, length,
  get_elem?,
}
use nexus_agent_demo.Prelude.Text.{Text}
use nexus_agent_demo.Provider.Failover.{
  Err, context_overflow_error, throttle_error, plain, deadline_exceeded, unexpected_eof,
  no_providers, wrapped, Next, Opened, Provider, PeekedStream, Result, failed, committed, opens,
  refuses, next_inner, attempt, goes_on, classify_trigger, is_retryable, overflows, throttles,
  drops, peek_opened, fails, chunk,
}

-- The error is in the chain.
pub data Chains (P : Err → Type 0) : Err → Type 0 where
  here : {e : Err} → P e → Chains P e
  under : {t : Text} {e : Err} → Chains P e → Chains P (wrapped t e)

abbrev IsOverflow : Err → Type 0
IsOverflow e = (t : Text) × (e ≡ context_overflow_error t)

-- A throttling, an expired deadline or an unexpected end.
abbrev pub IsTransient : Err → Type 0
IsTransient e =
    ((t : Text) × (e ≡ throttle_error t)) ⊎ (e ≡ deadline_exceeded) ⊎ (e ≡ unexpected_eof)

abbrev pub IsRetryable : Err → Type 0
IsRetryable e = Chains IsTransient e × ¬ Chains IsOverflow e

-- The provider's Stream, or the first Next of its stream, gives the error.
abbrev pub FailsFirst : Provider → Text → Err → Type 0
FailsFirst p prompt e =
    (p prompt ≡ refuses e) ⊎ ((ns : List Next) × (p prompt ≡ opens (fails e ∷ ns)))

-- The first Next of the provider's stream gives a chunk, or the stream's end.
abbrev pub GivesFirst : Provider → Text → Type 0
GivesFirst p prompt =
    (p prompt ≡ opens [])
    ⊎ ((c : Text) × (ok : Bool) × (ns : List Next) × (p prompt ≡ opens (chunk c ok ∷ ns)))

abbrev pub HasOutcome : Provider → Text → Result → Type 0
HasOutcome p prompt r =
    ((e : Err) × (r ≡ failed e) × FailsFirst p prompt e)
    ⊎ ((s : PeekedStream) × (r ≡ committed s) × GivesFirst p prompt)

-- The providers before the `i`-th have failed retryably, the result is that of the `i`-th, and it is
-- the last provider, or did not fail retryably.
pub record CommitsTo (ps : List Provider) (prompt : Text) (i : ℕ) (r : Result) : Type 0 where
  pub provider : Provider
  pub is_at : get_elem? ps i ≡ some provider
  pub outcome : HasOutcome provider prompt r
  pub others_failed :
      (j : ℕ) (q : Provider)
      → j < i
      → get_elem? ps j ≡ some q
      → (e : Err) × FailsFirst q prompt e × IsRetryable e
  pub is_final : (suc i ≡ length ps) ⊎ ((e : Err) → FailsFirst provider prompt e → ¬ IsRetryable e)

opened_outcome :
    (p : Provider) (prompt : Text) (o : Opened) → p prompt ≡ o → HasOutcome p prompt (peek_opened o)
unfolding next_inner
opened_outcome p prompt (refuses e) h = inl (e, refl, inl h)
opened_outcome p prompt (opens []) h = inr (_, refl, inl h)
opened_outcome p prompt (opens (fails e ∷ ns)) h = inl (e, refl, inr (ns, h))
opened_outcome p prompt (opens (chunk c ok ∷ ns)) h = inr (_, refl, inr (c, ok, ns, h))

pub attempt_outcome : (p : Provider) (prompt : Text) → HasOutcome p prompt (attempt p prompt)
unfolding attempt
attempt_outcome p prompt = opened_outcome p prompt (p prompt) refl

IsOverflow-sound : (e : Err) → overflows e ≡ true → Chains IsOverflow e
unfolding overflows
IsOverflow-sound (context_overflow_error t) h = here (t, refl)
IsOverflow-sound (wrapped t e) h = under (IsOverflow-sound e h)
IsOverflow-sound _ h = absurd cc

overflow_complete : {e : Err} → Chains IsOverflow e → overflows e ≡ true
unfolding overflows
overflow_complete (here (t, q)) = rw q refl
overflow_complete (under c) = overflow_complete c

IsTransient-sound : (e : Err) → (throttles e ≡ true) ⊎ (drops e ≡ true) → Chains IsTransient e
unfolding throttles drops
IsTransient-sound (throttle_error t) h = here (inl (t, refl))
IsTransient-sound deadline_exceeded h = here (inr (inl refl))
IsTransient-sound unexpected_eof h = here (inr (inr refl))
IsTransient-sound (wrapped t e) h = under (IsTransient-sound e h)
IsTransient-sound (context_overflow_error t) h = absurd (elim h [ inl x ↦ cc | inr x ↦ cc ])
IsTransient-sound (plain t) h = absurd (elim h [ inl x ↦ cc | inr x ↦ cc ])
IsTransient-sound no_providers h = absurd (elim h [ inl x ↦ cc | inr x ↦ cc ])

transient_complete : {e : Err} → Chains IsTransient e → (throttles e ≡ true) ⊎ (drops e ≡ true)
unfolding throttles drops
transient_complete (here (inl (t, q))) = inl (rw q refl)
transient_complete (here (inr (inl q))) = inr (rw q refl)
transient_complete (here (inr (inr q))) = inr (rw q refl)
transient_complete (under c) = transient_complete c

retryable_cases :
    (e : Err)
    → is_retryable (classify_trigger e) ≡ true
    → (overflows e ≡ false) × ((throttles e ≡ true) ⊎ (drops e ≡ true))
unfolding classify_trigger is_retryable
retryable_cases e h = ground arith

IsRetryable-sound : (e : Err) → is_retryable (classify_trigger e) ≡ true → IsRetryable e
IsRetryable-sound e h =
    let (o, t) = retryable_cases e h in
    (IsTransient-sound e t, (λ c. absurd (cc (overflow_complete c, o))))

not_retryable :
    (e : Err)
    → is_retryable (classify_trigger e) ≡ false
    → (overflows e ≡ true) ⊎ ((throttles e ≡ false) × (drops e ≡ false))
unfolding classify_trigger is_retryable
not_retryable e h = ground arith

IsRetryable-complete : (e : Err) → is_retryable (classify_trigger e) ≡ false → ¬ IsRetryable e
IsRetryable-complete e h (t, n) = elim (not_retryable e h) [
  | inl o ↦ absurd (n (IsOverflow-sound e o))
  | inr (x, y) ↦ absurd (elim (transient_complete t) [ inl z ↦ cc | inr z ↦ cc ])
]

failed_attempt :
    (p : Provider) (prompt : Text) (e : Err) → FailsFirst p prompt e → attempt p prompt ≡ failed e
unfolding attempt next_inner
failed_attempt p prompt e (inl h) = rw h refl
failed_attempt p prompt e (inr (ns, h)) = rw h refl

-- The loop goes on only past a provider that failed retryably.
pub goes_on-fails :
    (p : Provider) (prompt : Text)
    → goes_on (attempt p prompt) ≡ true
    → (e : Err) × FailsFirst p prompt e × IsRetryable e
unfolding goes_on
goes_on-fails p prompt h = elim (attempt_outcome p prompt) [
  | inl (e, q, f) ↦ (e, f, IsRetryable-sound e (rw q at h))
  | inr (s, q, g) ↦ absurd (cc (rw q at h))
]

-- The loop does not stop at a provider that failed retryably.
pub stops-fails :
    (p : Provider) (prompt : Text) (e : Err)
    → goes_on (attempt p prompt) ≡ false
    → FailsFirst p prompt e
    → ¬ IsRetryable e
unfolding goes_on
stops-fails p prompt e h f = IsRetryable-complete e (rw (failed_attempt p prompt e f) at h)
