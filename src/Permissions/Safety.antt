-- ===== src/Permissions/Safety.antt =====
-- internal/permissions/safety/safety.go: gate 3, the rule pass and the model leg behind a breaker.
-- Times are nanoseconds. What a call cannot know (the two readings of the clock, and whether the
-- model leg answered before the timeout) is the environment of the call.
pub mod FailClosed
use nexus_agent_demo.Prelude.{
  ℕ, ◌+◌, ◌*◌, Bool, Option, none, some, List, [], ◌∷◌, ◌++◌, ltb, leb, if◌then◌else◌,
}
use nexus_agent_demo.Prelude.Text.{Text, codes}
use nexus_agent_demo.Permissions.Types.{
  Decision, ask, deny, Reason, given, safety_rule, breaker_open, model_timed_out, model_unavailable,
}

-- A Verdict is a text of the same spelling as a Decision; the chain converts it by `Decision(v)`.
abbrev pub Verdict : Type 0
Verdict = Decision

pub record SafetyResult : Type 0 where
  pub verdict : Verdict
  pub reason : Reason

-- A compiled regular expression is the predicate that MatchString decides.
pub record Rule : Type 0 where
  pub name : Text
  pub pattern : Text → Bool
  pub verdict : Verdict
  pub reason : Text

-- `compile` stands for regexp.MustCompile.
unfoldable pub default_rules : (compile : Text → Text → Bool) → List Rule
default_rules compile =
    record {
      name = codes "rm_rf_root";
      pattern = compile (codes "rm\\s+(-\\w*r\\w*f\\w*|-\\w*f\\w*r\\w*)\\s+/(\\s|$|[\"'])");
      verdict = deny;
      reason = codes "matches an unrecoverable root-filesystem delete pattern";
    }
    ∷ record {
      name = codes "fork_bomb";
      pattern = compile (codes ":\\(\\)\\s*\\{\\s*:\\|:&\\s*\\}\\s*;\\s*:");
      verdict = deny;
      reason = codes "matches a fork-bomb pattern";
    }
    ∷ record {
      name = codes "drop_table";
      pattern = compile (codes "(?i)drop\\s+table\\b");
      verdict = deny;
      reason = codes "matches a destructive DDL statement";
    }
    ∷ record {
      name = codes "pipe_to_shell";
      pattern = compile (codes "curl[^|]*\\|\\s*(sudo\\s+)?(sh|bash)\\b");
      verdict = ask;
      reason = codes "downloads and executes a remote script unreviewed";
    }
    ∷ record {
      name = codes "sudo";
      pattern = compile (codes "\\bsudo\\b");
      verdict = ask;
      reason = codes "escalates privileges";
    }
    ∷ []

pub data ModelAnswer : Type 0 where
  answered : Verdict → Text → ModelAnswer
  failed : Text → ModelAnswer

-- ModelClassifier: the leg is the deployment's.
abbrev pub ModelClassifier : Type 0
ModelClassifier = Text → Text → ModelAnswer

unfoldable pub no_model_classifier : ModelClassifier
no_model_classifier tool_id input = failed (codes "safety: no model classifier configured")

pub record Breaker : Type 0 where
  pub failures : ℕ
  pub open_until : ℕ
  pub threshold : ℕ
  pub cooldown : ℕ

unfoldable pub is_open : Breaker → ℕ → Bool
is_open b now = ltb now b.open_until

unfoldable pub record_failure : Breaker → ℕ → Breaker
record_failure b now =
    let b' = record b { failures = b.failures + 1 } in
    if leb b.threshold b'.failures
    then record b' { open_until = now + b.cooldown; failures = 0 }
    else b'

unfoldable pub record_success : Breaker → Breaker
record_success b = record b { failures = 0 }

pub record Classifier : Type 0 where
  pub rules : List Rule
  pub model : ModelClassifier
  pub timeout : ℕ
  pub breaker : Breaker

abbrev second : ℕ
second = 1_000_000_000

abbrev or_no_model : Option ModelClassifier → ModelClassifier
or_no_model none = no_model_classifier
or_no_model (some m) = m

unfoldable pub new_classifier : List Rule → Option ModelClassifier → ℕ → Classifier
new_classifier rules model timeout = record {
  rules = rules;
  model = or_no_model model;
  timeout = if leb timeout 0 then 2 * second else timeout;
  breaker = record { failures = 0; open_until = 0; threshold = 3; cooldown = 30 * second };
}

pub record Env : Type 0 where
  pub checked_at : ℕ  -- c.now() at the breaker's test
  pub failed_at : ℕ  -- c.now() at a failure's record
  pub timed_out : Bool  -- cctx.Done() wins the select

first_match : List Rule → Text → Option Rule
first_match [] text = none
first_match (r ∷ rules) text =
    let rest = first_match rules text in if r.pattern text then some r else rest

-- The select between the timeout and the model's answer.
after_leg : Breaker → Env → ModelAnswer → SafetyResult × Breaker
unfolding record_failure record_success
after_leg b env answer =
    if env.timed_out
    then (record { verdict = ask; reason = model_timed_out }, record_failure b env.failed_at)
    else elim answer [
      | failed e ↦
          (record { verdict = ask; reason = model_unavailable e }, record_failure b env.failed_at)
      | answered v reason ↦ (record { verdict = v; reason = given reason }, record_success b)
    ]

after_rules : Option Rule → Classifier → Env → Text → Text → SafetyResult × Breaker
unfolding after_leg is_open
after_rules (some r) c env tool_id raw_input =
    (record { verdict = r.verdict; reason = safety_rule r.name r.reason }, c.breaker)
after_rules none c env tool_id raw_input =
    if is_open c.breaker env.checked_at
    then (record { verdict = ask; reason = breaker_open }, c.breaker)
    else after_leg c.breaker env (c.model tool_id raw_input)

-- The result, and the breaker that the call leaves.
unfoldable pub classify : Classifier → Env → Text → Text → SafetyResult × Breaker
unfolding first_match after_rules
classify c env tool_id raw_input =
    after_rules (first_match c.rules (tool_id ++ codes " " ++ raw_input)) c env tool_id raw_input
