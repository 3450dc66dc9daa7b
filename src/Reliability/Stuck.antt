-- ===== src/Reliability/Stuck.antt =====
-- internal/reliability/stuck.go: the detector of repeating cycles, its tracker and their registry.
pub mod Periods
pub mod Runs
use nexus_agent_demo.Prelude.{
  ℕ, zero, suc, ◌+◌, ◌-◌, ◌*◌, ◌/◌, ◌%◌, Bool, true, false, ◌&&◌, not, Option, none, some, List, [],
  ◌∷◌, ◌++◌, ltb, leb, ◌==◌, length, drop, if◌then◌else◌,
}
use nexus_agent_demo.Prelude.Text.{Text, text_eq, codes}

pub data StuckReason : Type 0 where
  repeated_action oscillation zero_net_change : StuckReason

pub record Action : Type 0 where
  pub tool : Text
  pub digest : Text

-- `sha256` is crypto/sha256 over what is written to it.
unfoldable pub digest_of : (sha256 : Text → Text) → Text → Text → Text
digest_of sha256 tool_name input = sha256 (tool_name ++ (0 ∷ input))

-- `reason` is `none` for the empty StuckReason.
pub record Verdict : Type 0 where
  pub suspected : Bool
  pub reason : Option StuckReason
  pub period : ℕ

abbrev pub unsuspected : Verdict
unsuspected = record { suspected = false; reason = none; period = 0 }

unfoldable pub new_detector : ℕ → ℕ
new_detector window = if ltb window 4 then 4 else window

unfoldable pub same_action : Action → Action → Bool
same_action a b = text_eq a.tool b.tool && text_eq a.digest b.digest

-- The loop of `tiles` over i: each action of the tail beside the one `period` places before it.
agree : List Action → List Action → Bool
agree [] ys = true
agree (x ∷ xs) [] = true
agree (x ∷ xs) (y ∷ ys) = same_action x y && agree xs ys

unfoldable pub tiles : List Action → ℕ → Bool
unfolding agree same_action
tiles w period = agree (drop period w) w

unfoldable pub reason_for : ℕ → StuckReason
reason_for period =
    if period == 1 then repeated_action else if period == 2 then oscillation else zero_net_change

-- The loop over the periods, with the rounds that are left.
try_periods : ℕ → ℕ → ℕ → List Action → Verdict
unfolding reason_for
try_periods zero period window w = unsuspected
try_periods (suc rounds) period window w =
    let rest = try_periods rounds (period + 1) window w in
    if not (window % period == 0)
    then rest
    else if tiles w period
    then record { suspected = true; reason = some (reason_for period); period = period }
    else rest

-- `window` is the detector's. Periods run from 1 to window / 2.
unfoldable pub observe : ℕ → List Action → Verdict
unfolding try_periods
observe window history =
    if ltb (length history) window
    then unsuspected
    else try_periods (window / 2) 1 window (drop (length history - window) history)

pub record Tracker : Type 0 where
  pub window : ℕ  -- the detector's
  pub history : List Action
  pub max_history : ℕ
  pub consecutive_trips : ℕ
  pub last_reason : Option StuckReason

unfoldable pub new_tracker : ℕ → Tracker
unfolding new_detector
new_tracker window = record {
  window = new_detector window;
  history = [];
  max_history = window * 4;
  consecutive_trips = 0;
  last_reason = none;
}

pub record TrackerVerdict : Type 0 where
  pub verdict : Verdict
  pub terminate : Bool

reason_eq : Option StuckReason → Option StuckReason → Bool
reason_eq none none = true
reason_eq (some repeated_action) (some repeated_action) = true
reason_eq (some oscillation) (some oscillation) = true
reason_eq (some zero_net_change) (some zero_net_change) = true
reason_eq _ _ = false

-- The history with one more action, cut to its last `max_history`.
unfoldable pub remember : Tracker → Action → List Action
remember t a =
    let h = t.history ++ a ∷ [] in
    if ltb t.max_history (length h) then drop (length h - t.max_history) h else h

-- What `Record` does with the detector's verdict.
unfoldable pub corroborate : Tracker → Verdict → Tracker × TrackerVerdict
unfolding reason_eq
corroborate t v =
    if not v.suspected
    then (
      record t { consecutive_trips = 0; last_reason = none },
      record { verdict = unsuspected; terminate = false },
    )
    else let trips = if reason_eq v.reason t.last_reason then t.consecutive_trips + 1 else 1 in
      (
        record t { consecutive_trips = trips; last_reason = v.reason },
        record { verdict = v; terminate = leb 2 trips },
      )

-- `Record` for an action whose digest is taken.
unfoldable pub record_action : Tracker → Action → Tracker × TrackerVerdict
record_action t a =
    let t' = record t { history = remember t a } in corroborate t' (observe t'.window t'.history)

unfoldable pub record_call :
    (sha256 : Text → Text) → Tracker → Text → Text → Tracker × TrackerVerdict
unfolding digest_of record_action
record_call sha256 t tool_name input =
    record_action t (record { tool = tool_name; digest = digest_of sha256 tool_name input })

-- The map of the registry as a function from the sessions' ids.
pub record Registry : Type 0 where
  pub window : ℕ
  pub by_id : ℕ → Option Tracker

unfoldable pub new_registry : ℕ → Registry
new_registry window = record { window = window; by_id = λ s. none }

abbrev or_new : Option Tracker → ℕ → Tracker
or_new (some t) window = t
or_new none window = new_tracker window

unfoldable pub record_session : Registry → ℕ → Action → Registry × TrackerVerdict
record_session r session a =
    let (t, v) = record_action (or_new (r.by_id session) r.window) a in
    (record r { by_id = λ s. if s == session then some t else r.by_id s }, v)

unfoldable pub forget : Registry → ℕ → Registry
forget r session = record r { by_id = λ s. if s == session then none else r.by_id s }
