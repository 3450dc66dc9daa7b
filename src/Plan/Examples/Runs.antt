-- ===== src/Plan/Examples/Runs.antt =====
-- A version that goes through its life cycle, and runs of a plan with a loop.
use nexus_agent_demo.Prelude.{
  ℕ, ◌<◌, ◌≡◌, ◌≢◌, refl, sym, inl, inr, ◌⊎◌, true, some, List, [], ◌∷◌, if◌then◌else◌, arith,
  Bool-cases,
}
use nexus_agent_demo.Prelude.Int.{pos}
use nexus_agent_demo.Prelude.Text.{Text, codes, text_eq, text_eq_sound}
use nexus_agent_demo.Plan.Schema.{Plan, Step, step_by_id, find_step}
use nexus_agent_demo.Plan.Graph.{ids_of, mem}
use nexus_agent_demo.Plan.Lifecycle.{
  Verdict, passed, pin, update_all, check_draft_row, mark_validated, mark_passed,
}
use nexus_agent_demo.Plan.Lifecycle.Refines.{
  Action, Advances, act_all, asks_gate, checks_draft, creates, enables_version, is_absent,
  is_enabled, marks_passed, marks_validated, no_rows, signs_off, stage,
}
use nexus_agent_demo.Plan.Lifecycle.Refines.Order.{act_all-refines}
use nexus_agent_demo.Plan.Replay.{replay_state, start_state}
use nexus_agent_demo.Plan.Steps.{Services, Session, left_as, completed, running}
use nexus_agent_demo.Plan.Run.{entered, finished, out_of_fuel, run}
use nexus_agent_demo.Plan.Run.Budget.{budget, is_loop}
use nexus_agent_demo.Plan.Run.Ends.{IsRanked, run-ends}
use nexus_agent_demo.Plan.Run.Replayed.{IsCompleted, replay_state-run}
use nexus_agent_demo.Plan.Examples.{looping, name_a, name_l}

abbrev lenient : Plan → Verdict
lenient p = passed []

abbrev whole_cycle : List Action
whole_cycle =
    creates 1 7 looping []
    ∷ checks_draft 7 (pos 1)
    ∷ marks_validated 7 (pos 1)
    ∷ asks_gate 7 (pos 1)
    ∷ marks_passed 7 (pos 1)
    ∷ signs_off 7 (pos 1) (codes "ann")
    ∷ enables_version 7 (pos 1) (pos 4) (codes "m")
    ∷ []

act_all-refines_example :
    Advances lenient is_absent (stage (act_all lenient no_rows whole_cycle).rows 7 (pos 1))
act_all-refines_example = act_all-refines lenient whole_cycle 7 (pos 1)

whole_cycle_enables :
    stage (act_all lenient no_rows whole_cycle).rows 7 (pos 1)
    ≡ is_enabled
        (pin (pos 4) (codes "m") (record looping { plan_id = 7; tenant_id = 1 }))
        (some (codes "ann"))
        (some (pos 4, codes "m"))
unfolding stage act_all update_all check_draft_row mark_validated mark_passed
whole_cycle_enables = refl

-- Every call succeeds.
abbrev calm : Services
calm = record {
  accepts = λ log e. true;
  sets_status = λ log. true;
  reads = λ log. true;
  continues = λ log. ([], left_as completed);
  approvals_wired = true;
  approvals_create = λ log id. some [];
  inputs_wired = true;
  inputs_request = λ log question. some [];
  delegations_wired = true;
  creates_envelope = λ log ceiling n. some [];
  spawns = λ log cfg i. some [];
}

abbrev new_session : Session
new_session = record { log = []; status = running }

looping_finishes : (run calm looping 6 new_session start_state name_a).end ≡ finished
unfolding run entered
looping_finishes = refl

replay_state-run_example :
    let r = run calm looping 6 new_session start_state name_a in IsCompleted r.session r.state
unfolding replay_state run entered
replay_state-run_example = replay_state-run calm looping 6 new_session start_state 97 [] refl

abbrev rank : Text → ℕ
rank x = if text_eq x name_a then 1 else 0

falling :
    (id : Text) (step : Step) (to : Text)
    → step_by_id looping id ≡ some step
    → mem to (ids_of step.transitions) ≡ true
    → (is_loop step.kind ≡ true) ⊎ (rank to < rank id)
unfolding step_by_id find_step mem
falling id step to e m = elim (Bool-cases (text_eq name_a id)) [
  | inl a ↦
      (let q : to ≡ name_l = text_eq_sound to name_l (ground arith) in
        inr (rw (q, sym (text_eq_sound name_a id a)) (omega arith)))
  | inr a ↦ inl (ground arith)
]

looping-IsRanked : IsRanked looping rank 1
unfolding step_by_id find_step mem
looping-IsRanked = record {
  below = λ x. ground arith;
  falls = λ id step to e m. falling id step to e m;
}

run-ends_example : (run calm looping 6 new_session start_state name_a).end ≢ out_of_fuel
unfolding budget text_eq
run-ends_example =
    run-ends calm looping rank 1 looping-IsRanked 6 new_session start_state name_a (omega arith)
