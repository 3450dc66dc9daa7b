-- ===== src/Permissions/Safety/FailClosed.antt =====
-- The model leg fails closed, and its breaker trips on consecutive failures.
use nexus_agent_demo.Prelude.{
  ℕ, ◌+◌, ◌<◌, ◌≡◌, refl, true, false, none, List, [], ◌∷◌, ◌++◌, All, arith, length, ◌⊎◌,
}
use nexus_agent_demo.Prelude.Text.{Text, codes}
use nexus_agent_demo.Permissions.Types.{ask}
use nexus_agent_demo.Permissions.Safety.{
  Rule, ModelAnswer, failed, Classifier, Env, is_open, first_match, record_failure, classify,
}

abbrev pub subject : Text → Text → Text
subject tool_id raw_input = tool_id ++ codes " " ++ raw_input

abbrev pub NoRuleMatches : List Rule → Text → Type 0
NoRuleMatches rules text = All (λ r. r.pattern text ≡ false) rules

first_match-none :
    (rules : List Rule) (text : Text) → NoRuleMatches rules text → first_match rules text ≡ none
unfolding first_match
first_match-none [] text h = refl
first_match-none (r ∷ rules) text h = rw (h.0) (first_match-none rules text h.1)

abbrev Fails : ModelAnswer → Type 0
Fails answer = (e : Text) × (answer ≡ failed e)

-- No answer comes from the model leg: the breaker is open, the timeout passes, or the leg errors.
abbrev pub IsUnavailable : Classifier → Env → Text → Text → Type 0
IsUnavailable c env tool_id raw_input =
    (is_open c.breaker env.checked_at ≡ true)
    ⊎ (env.timed_out ≡ true)
    ⊎ Fails (c.model tool_id raw_input)

-- If no rule matches and no answer comes from the model leg (the breaker is open, the
-- timeout passes, or the leg errs), the verdict is Ask.
pub classify_unavailable :
    (c : Classifier) (env : Env) (tool_id raw_input : Text)
    → NoRuleMatches c.rules (subject tool_id raw_input)
    → IsUnavailable c env tool_id raw_input
    → (classify c env tool_id raw_input).0.verdict ≡ ask
unfolding classify
classify_unavailable c env t i n u = rw (first_match-none c.rules (subject t i) n) (ground arith)

-- One call of `Classify` with what its environment does.
pub record Call : Type 0 where
  pub env : Env
  pub tool_id : Text
  pub raw_input : Text

-- The classifier after a call: only the breaker changes.
unfoldable pub after_call : Classifier → Call → Classifier
after_call c x = record c { breaker = (classify c x.env x.tool_id x.raw_input).1 }

unfoldable pub after_calls : Classifier → List Call → Classifier
after_calls c [] = c
after_calls c (x ∷ xs) = after_calls (after_call c x) xs

-- The call reaches the model leg, and the leg fails or times out.
pub record IsFailing (c : Classifier) (x : Call) : Type 0 where
  pub no_rule : NoRuleMatches c.rules (subject x.tool_id x.raw_input)
  pub closed : is_open c.breaker x.env.checked_at ≡ false
  pub fails : (x.env.timed_out ≡ true) ⊎ Fails (c.model x.tool_id x.raw_input)

abbrev pub AllFailing : Classifier → List Call → Type 0
AllFailing c [] = Unit
AllFailing c (x ∷ xs) = IsFailing c x × AllFailing (after_call c x) xs

after_call_failing :
    (c : Classifier) (x : Call)
    → IsFailing c x
    → after_call c x ≡ record c { breaker = record_failure c.breaker x.env.failed_at }
unfolding after_call classify
after_call_failing c x f =
    rw (first_match-none c.rules (subject x.tool_id x.raw_input) f.no_rule) (ground arith)

abbrev with_failures : Classifier → ℕ → Classifier
with_failures c n = record c { breaker = record c.breaker { failures = n } }

failing_once :
    (c : Classifier) (x : Call)
    → IsFailing c x
    → c.breaker.failures + 1 < c.breaker.threshold
    → after_call c x ≡ with_failures c (c.breaker.failures + 1)
unfolding record_failure
failing_once c x f h = ground (arith, after_call_failing c x f)

-- Fewer failures in a row than the threshold are counted and do not open the breaker.
pub after_calls_below :
    (c : Classifier) (xs : List Call)
    → AllFailing c xs
    → c.breaker.failures + length xs < c.breaker.threshold
    → after_calls c xs ≡ with_failures c (c.breaker.failures + length xs)
unfolding after_calls
after_calls_below c [] f h = ground arith
after_calls_below c (x ∷ xs) f h =
    ground (arith, failing_once c x f.0, after_calls_below (after_call c x) xs f.1)

-- If calls that reach the model leg and fail, one after another, bring the count of failures
-- to the threshold, the breaker is open at every time before the last failure's plus the
-- cooldown.
pub breaker_trips :
    (c : Classifier) (xs : List Call) (last : Call) (now : ℕ)
    → AllFailing c xs
    → c.breaker.failures + length xs + 1 ≡ c.breaker.threshold
    → IsFailing (after_calls c xs) last
    → now < last.env.failed_at + c.breaker.cooldown
    → is_open (after_call (after_calls c xs) last).breaker now ≡ true
unfolding record_failure is_open
breaker_trips c xs last now f h g k =
    ground (arith, after_calls_below c xs f, after_call_failing (after_calls c xs) last g)
