-- ===== src/Reliability/Examples.antt =====
-- Examples of the theorems on the reliability packages, at concrete inputs.
use nexus_agent_demo.Prelude.{
  ℕ, ◌+◌, ◌-◌, ◌^◌, ◌/◌, ◌≤◌, ◌<◌, ◌≡◌, refl, ◌↔◌, true, false, none, some, List, [], ◌∷◌, arith,
  leb, length, drop,
}
use nexus_agent_demo.Prelude.Text.{Text, codes, text_eq}
use nexus_agent_demo.Reliability.Failure.{
  Err, permanent_error, plain, wrapped, permanent, classify, Chains, IsPermanent, IsSentinel,
  classify_permanent_iff, BackoffConfig, with_defaults, out_of_range, ceiling, delay, delay_bounds,
}
use nexus_agent_demo.Reliability.Breaker.Registry.Isolation.{keys_are_isolated}
use nexus_agent_demo.Reliability.Breaker.Registry.{
  new_breaker_registry, fail_all, breaker_of, reasons_of,
}
use nexus_agent_demo.Reliability.Breaker.{
  new_circuit_breaker, CircuitBreaker, failures, peak, opens_at_run,
}
use nexus_agent_demo.Reliability.Stuck.{
  Action, observe, tiles, unsuspected, Tracker, new_tracker, remember, corroborate, record_action,
}
use nexus_agent_demo.Reliability.Stuck.Periods.{Finds, observe_gives_least_cycle}
use nexus_agent_demo.Reliability.Stuck.Runs.{
  after_actions, terminate_iff_corroborated, window_0_detects_nothing,
}

abbrev no_more : Err
no_more = wrapped (codes "run") (permanent_error (plain (codes "policy")))

classify_permanent_iff_example :
    (classify (some no_more) ≡ permanent)
    ↔ (Chains IsPermanent no_more × ¬ Chains IsSentinel no_more)
classify_permanent_iff_example = classify_permanent_iff no_more

abbrev half_second : BackoffConfig
half_second = record { base = 500_000_000; max_delay = 300_000_000_000 }

-- The least delay every time.
abbrev least : ℕ → ℕ
least n = 0

delay_bounds_example :
    (0 < ceiling half_second 3)
    × (ceiling half_second 3 ≤ (with_defaults half_second).max_delay)
    × (d : ℕ) × (delay least half_second 3 ≡ some d)
    × (d ≤ ceiling half_second 3)
unfolding with_defaults
delay_bounds_example = delay_bounds least half_second 3 (λ n h. h) (omega arith)

abbrev longest : BackoffConfig
longest = record { base = 2 ^ 62; max_delay = 2 ^ 63 - 1 }

-- The bound of Int64N wraps around to the least int64.
longest_panics : delay least longest 1 ≡ none
unfolding delay ceiling with_defaults out_of_range
longest_panics = refl

abbrev closed_breaker : CircuitBreaker
closed_breaker = record { threshold = 2; consecutive = 0; last_reason = []; is_open = false }

abbrev timeouts : List Text
timeouts = codes "reset" ∷ codes "timeout" ∷ codes "timeout" ∷ codes "timeout" ∷ []

opens_at_run_example : (failures closed_breaker timeouts).0.is_open ≡ leb 2 (peak [] 0 timeouts)
opens_at_run_example = opens_at_run closed_breaker timeouts refl (omega arith)

abbrev two_keys : List (Text × Text)
two_keys =
    (codes "a", codes "timeout") ∷ (codes "b", codes "reset") ∷ (codes "a", codes "timeout") ∷ []

keys_are_isolated_example :
    breaker_of (fail_all (new_breaker_registry 3) two_keys) (codes "a")
    ≡ (failures (new_circuit_breaker 3) (reasons_of (codes "a") two_keys)).0
keys_are_isolated_example = keys_are_isolated 3 (codes "a") two_keys

abbrev read_it : Action
read_it = record { tool = codes "fs.read"; digest = codes "1" }

abbrev write_it : Action
write_it = record { tool = codes "fs.write"; digest = codes "2" }

abbrev to_and_fro : List Action
to_and_fro = write_it ∷ read_it ∷ write_it ∷ read_it ∷ write_it ∷ []

observe_gives_least_cycle_example :
    Finds 4 (drop (length to_and_fro - 4) to_and_fro) 1 (1 + 4 / 2) (observe 4 to_and_fro)
observe_gives_least_cycle_example = observe_gives_least_cycle 4 to_and_fro (omega arith)

-- Three calls that are alike, remembered.
abbrev three_reads : Tracker
three_reads = record {
  window = 4;
  history = read_it ∷ read_it ∷ read_it ∷ [];
  max_history = 16;
  consecutive_trips = 0;
  last_reason = none;
}

terminate_iff_corroborated_example :
    ((record_action (record_action three_reads read_it).0 read_it).1.terminate ≡ true) ↔ (
      ((record_action three_reads read_it).1.verdict.suspected ≡ true)
      × ((record_action (record_action three_reads read_it).0 read_it).1.verdict.suspected ≡ true)
      × ((record_action three_reads read_it).1.verdict.reason
          ≡ (record_action (record_action three_reads read_it).0 read_it).1.verdict.reason))
terminate_iff_corroborated_example = terminate_iff_corroborated three_reads read_it read_it

window_0_detects_nothing_example :
    (record_action (after_actions (new_tracker 0) to_and_fro) write_it).1.verdict ≡ unsuspected
window_0_detects_nothing_example = window_0_detects_nothing to_and_fro write_it

-- A fourth call that is alike is suspected, a fifth ends the turn.
fourth_is_suspected : (record_action three_reads read_it).1.verdict.suspected ≡ true
unfolding record_action corroborate observe remember tiles text_eq
fourth_is_suspected = refl

fifth_terminates : (record_action (record_action three_reads read_it).0 read_it).1.terminate ≡ true
unfolding record_action corroborate observe remember tiles text_eq
fifth_terminates = refl
