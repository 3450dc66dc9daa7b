-- ===== src/Plan/Run/Replayed.antt =====
-- The events that a run records rebuild its state.
pub mod Dispatch
use nexus_agent_demo.Prelude.{
  ℕ, zero, suc, ◌+◌, ◌≡◌, refl, sym, ap, ◌∙◌, ◌⊎◌, inl, inr, Bool, true, false, Option, none, some,
  List, [], ◌∷◌, ◌++◌, map, if◌then◌else◌, Bool-cases, Option-cases,
}
use nexus_agent_demo.Prelude.Text.{Text}
use nexus_agent_demo.Prelude.Result.{Result, ok, err, Check, Result-cases}
use nexus_agent_demo.Plan.Predicate.{Predicate}
use nexus_agent_demo.Plan.Schema.{Plan, Step, step_by_id}
use nexus_agent_demo.Plan.Replay.{
  Bindings, Event, State, bind_all, count_entry, plan_completed, replay_event, replay_from,
  replay_from-append, replay_state, start_state, step_entered, step_exited, transition_fired,
}
use nexus_agent_demo.Plan.Steps.{
  ExecError, Outcome, Services, Session, append, binds, completed, failed, suspends,
}
use nexus_agent_demo.Plan.Run.Replayed.Dispatch.{append-replay, dispatch-IsSame}
use nexus_agent_demo.Plan.Run.{
  after_next, complete, after_transition, go_to, after_exit, after_dispatch, after_enter,
  within_bound, check_bound, Continue, End, Exited, Ran, dispatch, entered, evaluate_transitions,
  exit_step_and_transition, finished, out_of_fuel, ran, run, run_step, stopped, waits,
}

-- The log rebuilds the state, but for the step in progress and the end.
abbrev pub IsAgreed : Session → State → Type 0
IsAgreed sess st =
    ((replay_state sess.log).vars ≡ st.vars) × ((replay_state sess.log).iterations ≡ st.iterations)

-- The log rebuilds the state, with no step in progress.
abbrev pub IsBetween : Session → State → Type 0
IsBetween sess st = replay_state sess.log ≡ record st { current_step = [] }

abbrev pub IsCompleted : Session → State → Type 0
IsCompleted sess st = replay_state sess.log ≡ record st { current_step = []; completed = true }

abbrev IsFollowed : Result ExecError Text → Session → State → Type 0
IsFollowed (err e) sess st = IsAgreed sess st
IsFollowed (ok []) sess st = IsCompleted sess st
IsFollowed (ok (c ∷ id)) sess st = IsBetween sess st

-- What the log says of the state at a run's end.
abbrev pub IsRebuilt : End → Session → State → Type 0
IsRebuilt finished sess st = IsCompleted sess st
IsRebuilt waits sess st = replay_state sess.log ≡ st
IsRebuilt out_of_fuel sess st = IsAgreed sess st
IsRebuilt (stopped e) sess st = IsAgreed sess st

agreed : {s t : State} → s ≡ t → (s.vars ≡ t.vars) × (s.iterations ≡ t.iterations)
agreed h = (ap (λ (s : State). s.vars) h, ap (λ (s : State). s.iterations) h)

module _ (svc : Services) where
  complete-IsFollowed :
      (sess : Session) (st : State) (r : Result ExecError Session)
      → IsBetween sess st
      → ((sess' : Session)
          → r ≡ ok sess'
          → replay_state sess'.log ≡ replay_event (replay_state sess.log) plan_completed)
      → let x = complete svc st r sess in IsFollowed x.next x.session x.state
  unfolding replay_event
  complete-IsFollowed sess st (err e) h k = agreed h
  complete-IsFollowed sess st (ok sess') h k = k sess' refl ∙ rw h refl

  after_transition-IsFollowed :
      (st : State) (to : Text) (pred : Option Predicate) (from : Text)
      (r : Result ExecError Session) (sess : Session)
      → IsBetween sess st
      → ((sess' : Session)
          → r ≡ ok sess'
          → replay_state sess'.log
            ≡ replay_event (replay_state sess.log) (transition_fired from to pred))
      → let x = after_transition svc st to r sess in IsFollowed x.next x.session x.state
  unfolding after_transition replay_event
  after_transition-IsFollowed st to pred from (err e) sess h k = agreed h
  after_transition-IsFollowed st [] pred from (ok sess') sess h k =
      complete-IsFollowed sess' st (append svc sess' plan_completed) (k sess' refl ∙ h)
        λ sess'' e. append-replay svc sess' plan_completed sess'' e
  after_transition-IsFollowed st (c ∷ to) pred from (ok sess') sess h k = k sess' refl ∙ h

  go_to-IsFollowed :
      (sess : Session) (st : State) (from : Text) (r : Result ExecError (Text × Option Predicate))
      → IsBetween sess st
      → let x = go_to svc sess st from r in IsFollowed x.next x.session x.state
  unfolding go_to
  go_to-IsFollowed sess st from (err e) h = agreed h
  go_to-IsFollowed sess st from (ok (to, pred)) h =
      after_transition-IsFollowed st to pred from (append svc sess (transition_fired from to pred))
        sess h λ sess' e. append-replay svc sess (transition_fired from to pred) sess' e

  after_exit-IsFollowed :
      (st : State) (step : Step) (bindings : Bindings) (r : Result ExecError Session)
      (sess : Session)
      → replay_state sess.log ≡ st
      → ((sess' : Session)
          → r ≡ ok sess'
          → replay_state sess'.log
            ≡ replay_event (replay_state sess.log) (step_exited step.id bindings))
      → let x = after_exit svc st step bindings r sess in IsFollowed x.next x.session x.state
  unfolding after_exit replay_event
  after_exit-IsFollowed st step bindings (err e) sess h k = agreed h
  after_exit-IsFollowed st step bindings (ok sess') sess h k =
      go_to-IsFollowed sess' (record st { vars = bind_all bindings st.vars }) step.id
        (evaluate_transitions step.transitions (bind_all bindings st.vars))
        (k sess' refl ∙ rw h refl)

  -- A step's exit from the state that the log rebuilds.
  pub exit_step_and_transition-IsFollowed :
      (sess : Session) (st : State) (step : Step) (bindings : Bindings)
      → replay_state sess.log ≡ st
      → let x = exit_step_and_transition svc sess st step bindings in
        IsFollowed x.next x.session x.state
  unfolding exit_step_and_transition
  exit_step_and_transition-IsFollowed sess st step bindings h =
      after_exit-IsFollowed st step bindings (append svc sess (step_exited step.id bindings)) sess h
        λ sess' e. append-replay svc sess (step_exited step.id bindings) sess' e

  -- The rest of a run keeps the log and the state together.
  abbrev IsKept : Continue → Type 0
  IsKept rest =
      (next : Result ExecError Text) (sess : Session) (st : State)
      → IsFollowed next sess st
      → let r = after_next rest sess st next in IsRebuilt r.end r.session r.state

  after_dispatch-IsRebuilt :
      (rest : Continue) (st : State) (step : Step) (sess : Session) (o : Outcome)
      → IsKept rest
      → replay_state sess.log ≡ st
      → let r = after_dispatch svc rest st step sess o in IsRebuilt r.end r.session r.state
  unfolding after_dispatch
  after_dispatch-IsRebuilt rest st step sess (failed e) k h = agreed h
  after_dispatch-IsRebuilt rest st step sess suspends k h = h
  after_dispatch-IsRebuilt rest st step sess (binds bindings) k h =
      let x = exit_step_and_transition svc sess st step bindings in
      k x.next x.session x.state (exit_step_and_transition-IsFollowed sess st step bindings h)

  after_enter-IsRebuilt :
      (rest : Continue) (st : State) (step : Step) (r : Result ExecError Session) (sess : Session)
      → IsKept rest
      → IsBetween sess st
      → ((sess' : Session)
          → r ≡ ok sess'
          → replay_state sess'.log ≡ replay_event (replay_state sess.log) (step_entered step.id))
      → let r' = after_enter svc rest st step r sess in IsRebuilt r'.end r'.session r'.state
  unfolding after_enter replay_event entered
  after_enter-IsRebuilt rest st step (err e) sess k h a = agreed h
  after_enter-IsRebuilt rest st step (ok sess') sess k h a =
      let d = dispatch svc sess' step (count_entry step.id st.iterations step.id) in
      after_dispatch-IsRebuilt rest (entered step st) step d.session d.outcome k (
        dispatch-IsSame svc sess' step (count_entry step.id st.iterations step.id)
        ∙ a sess' refl
        ∙ rw h refl)

  within_bound-IsRebuilt :
      (rest : Continue) (sess : Session) (st : State) (step : Step) (c : Check ExecError)
      → IsKept rest
      → IsBetween sess st
      → let r = within_bound svc rest sess st step c in IsRebuilt r.end r.session r.state
  unfolding within_bound
  within_bound-IsRebuilt rest sess st step (err e) k h = agreed h
  within_bound-IsRebuilt rest sess st step (ok u) k h =
      after_enter-IsRebuilt rest st step (append svc sess (step_entered step.id)) sess k h
        λ sess' e. append-replay svc sess (step_entered step.id) sess' e

  run_step-IsRebuilt :
      (rest : Continue) (sess : Session) (st : State) (id : Text) (step : Option Step)
      → IsKept rest
      → IsBetween sess st
      → let r = run_step svc rest sess st id step in IsRebuilt r.end r.session r.state
  unfolding run_step
  run_step-IsRebuilt rest sess st id none k h = agreed h
  run_step-IsRebuilt rest sess st id (some step) k h =
      within_bound-IsRebuilt rest sess st step
        (check_bound step.kind step.loop step.id (st.iterations step.id)) k h

  run-IsKept : (p : Plan) (fuel : ℕ) → IsKept (run svc p fuel)
  unfolding run
  run-IsKept p fuel (err e) sess st h = h
  run-IsKept p fuel (ok []) sess st h = h
  run-IsKept p zero (ok (c ∷ id)) sess st h = agreed h
  run-IsKept p (suc fuel) (ok (c ∷ id)) sess st h =
      run_step-IsRebuilt (run svc p fuel) sess st (c ∷ id) (step_by_id p (c ∷ id))
        (run-IsKept p fuel) h

  -- From a session whose log rebuilds the state between two steps, a run of any length that goes on
  -- at a named step records what rebuilds its own state: all of it where the run waits at a
  -- suspended step; where the plan ended, the same variables and counts, marked completed with no
  -- step in progress; and the variables and the counts of entries where an error or the fuel stops it.
  pub replay_state-run :
      (p : Plan) (fuel : ℕ) (sess : Session) (st : State) (c : ℕ) (id : Text)
      → replay_state sess.log ≡ record st { current_step = [] }
      → let r = run svc p fuel sess st (c ∷ id) in IsRebuilt r.end r.session r.state
  replay_state-run p fuel sess st c id h = run-IsKept p fuel (ok (c ∷ id)) sess st h
