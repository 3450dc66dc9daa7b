-- ===== src/Plan/Run/Ends.antt =====
-- A run ends, where the plan's steps can be ranked so that only loop steps lead upwards.
use nexus_agent_demo.Prelude.{
  ℕ, zero, suc, ◌+◌, ◌*◌, ◌≤◌, ◌<◌, ◌≡◌, ◌≢◌, refl, sym, subst, ap, ◌∙◌, ◌⊎◌, inl, inr, Bool, true,
  false, Option, none, some, List, [], ◌∷◌, arith, Bool-cases,
}
use nexus_agent_demo.Prelude.Text.{Text}
use nexus_agent_demo.Prelude.Result.{Result, ok, err, Check, Result-cases}
use nexus_agent_demo.Plan.Predicate.{Context, Predicate, eval}
use nexus_agent_demo.Plan.Schema.{Plan, Step, Transition, step_by_id}
use nexus_agent_demo.Plan.Graph.{ids_of, mem}
use nexus_agent_demo.Plan.Graph.Scan.{mem_head}
use nexus_agent_demo.Plan.Replay.{
  Bindings, State, bind_all, count_entry, plan_completed, step_entered, step_exited,
  transition_fired,
}
use nexus_agent_demo.Plan.Steps.{
  ExecError, Outcome, Services, Session, append, binds, failed, suspends,
}
use nexus_agent_demo.Plan.Run.{
  Continue, End, after_dispatch, after_enter, after_exit, after_next, after_transition,
  at_transition, check_bound, complete, dispatch, entered, evaluate_transitions,
  exit_step_and_transition, finished, go_to, out_of_fuel, run, run_step, stopped, take_transition,
  waits, within_bound,
}
use nexus_agent_demo.Plan.Run.Budget.{budget, budget-count_entry-le, budget-count_entry-lt, is_loop}

-- A name that a step's transitions lead to, or none, at the plan's end.
abbrev IsNext : List Transition → Text → Type 0
IsNext ts to = (to ≡ []) ⊎ (mem to (ids_of ts) ≡ true)

later-IsNext :
    (t : Transition) (ts : List Transition) (to : Text) → IsNext ts to → IsNext (t ∷ ts) to
unfolding mem
later-IsNext t ts to (inl e) = inl e
later-IsNext t ts to (inr m) = inr (ground arith)

at_transition-either :
    (b : Bool) (to' : Text) (when : Option Predicate)
    (rest : Result ExecError (Text × Option Predicate)) (to : Text) (pred : Option Predicate)
    → at_transition (ok b) to' when rest ≡ ok (to, pred)
    → (to ≡ to') ⊎ (rest ≡ ok (to, pred))
at_transition-either true to' when rest to pred h = inl cc
at_transition-either false to' when rest to pred h = inr h

take_transition-either :
    (to' : Text) (when : Option Predicate) (vars : Context)
    (rest : Result ExecError (Text × Option Predicate)) (to : Text) (pred : Option Predicate)
    → take_transition to' when vars rest ≡ ok (to, pred)
    → (to ≡ to') ⊎ (rest ≡ ok (to, pred))
unfolding take_transition
take_transition-either to' none vars rest to pred h = inl cc
take_transition-either to' (some p) vars rest to pred h = elim (Result-cases (eval vars p)) [
  | inl (b, e) ↦
      at_transition-either b to' (some p) rest to pred
        (ap (λ r. at_transition r to' (some p) rest) (sym e) ∙ h)
  | inr (x, e) ↦ absurd cc
]

evaluate_transitions-IsNext :
    (ts : List Transition) (vars : Context) (to : Text) (pred : Option Predicate)
    → evaluate_transitions ts vars ≡ ok (to, pred)
    → IsNext ts to
unfolding evaluate_transitions take_transition
evaluate_transitions-IsNext [] vars to pred h = inl cc
evaluate_transitions-IsNext (t ∷ ts) vars to pred h =
    elim (take_transition-either t.to t.when vars (evaluate_transitions ts vars) to pred h) [
      | inl e ↦ inr (rw e (mem_head t.to (ids_of ts)))
      | inr e ↦ later-IsNext t ts to (evaluate_transitions-IsNext ts vars to pred e)
    ]

abbrev IsEnded : End → Type 0
IsEnded finished = Unit
IsEnded waits = Unit
IsEnded (stopped e) = Unit
IsEnded out_of_fuel = ⊥

-- An exit leaves the counts of entries, and goes to a step that its transitions name.
abbrev IsOnward : List Transition → (Text → ℕ) → Result ExecError Text → State → Type 0
IsOnward ts iterations (err e) st = Unit
IsOnward ts iterations (ok next) st = (st.iterations ≡ iterations) × IsNext ts next

module _ (svc : Services) where
  complete-IsOnward :
      (ts : List Transition) (st : State) (r : Result ExecError Session) (sess : Session)
      → let x = complete svc st r sess in IsOnward ts st.iterations x.next x.state
  complete-IsOnward ts st (err e) sess = tt
  complete-IsOnward ts st (ok sess') sess = (refl, inl refl)

  after_transition-IsOnward :
      (ts : List Transition) (st : State) (to : Text) (r : Result ExecError Session)
      (sess : Session)
      → IsNext ts to
      → let x = after_transition svc st to r sess in IsOnward ts st.iterations x.next x.state
  unfolding after_transition
  after_transition-IsOnward ts st to (err e) sess h = tt
  after_transition-IsOnward ts st [] (ok sess') sess h =
      complete-IsOnward ts st (append svc sess' plan_completed) sess'
  after_transition-IsOnward ts st (c ∷ to) (ok sess') sess h = (refl, h)

  go_to-IsOnward :
      (ts : List Transition) (sess : Session) (st : State) (from : Text)
      (r : Result ExecError (Text × Option Predicate))
      → ((to : Text) (pred : Option Predicate) → r ≡ ok (to, pred) → IsNext ts to)
      → let x = go_to svc sess st from r in IsOnward ts st.iterations x.next x.state
  unfolding go_to
  go_to-IsOnward ts sess st from (err e) h = tt
  go_to-IsOnward ts sess st from (ok (to, pred)) h =
      after_transition-IsOnward ts st to (append svc sess (transition_fired from to pred)) sess
        (h to pred refl)

  after_exit-IsOnward :
      (st : State) (step : Step) (bindings : Bindings) (r : Result ExecError Session)
      (sess : Session)
      → let x = after_exit svc st step bindings r sess in
        IsOnward step.transitions st.iterations x.next x.state
  unfolding after_exit
  after_exit-IsOnward st step bindings (err e) sess = tt
  after_exit-IsOnward st step bindings (ok sess') sess =
      go_to-IsOnward step.transitions sess' (record st { vars = bind_all bindings st.vars }) step.id
        (evaluate_transitions step.transitions (bind_all bindings st.vars))
        (evaluate_transitions-IsNext step.transitions (bind_all bindings st.vars))

  -- The rest of a run ends from each step that comes next.
  abbrev EndsFrom : List Transition → (Text → ℕ) → Continue → Type 0
  EndsFrom ts iterations rest =
      (sess : Session) (st : State) (next : Text)
      → st.iterations ≡ iterations
      → IsNext ts next
      → IsEnded (rest sess st next).end

  after_next-IsEnded :
      (ts : List Transition) (iterations : Text → ℕ) (rest : Continue)
      → EndsFrom ts iterations rest
      → (sess : Session) (st : State) (next : Result ExecError Text)
      → IsOnward ts iterations next st
      → IsEnded (after_next rest sess st next).end
  after_next-IsEnded ts iterations rest k sess st (err e) h = tt
  after_next-IsEnded ts iterations rest k sess st (ok next) h = k sess st next h.0 h.1

  after_dispatch-IsEnded :
      (rest : Continue) (st : State) (step : Step)
      → EndsFrom step.transitions st.iterations rest
      → (sess : Session) (o : Outcome) → IsEnded (after_dispatch svc rest st step sess o).end
  unfolding after_dispatch exit_step_and_transition
  after_dispatch-IsEnded rest st step k sess (failed e) = tt
  after_dispatch-IsEnded rest st step k sess suspends = tt
  after_dispatch-IsEnded rest st step k sess (binds bindings) =
      let r : Result ExecError Session = append svc sess (step_exited step.id bindings) in
      let x = after_exit svc st step bindings r sess in
      after_next-IsEnded step.transitions st.iterations rest k x.session x.state x.next
        (after_exit-IsOnward st step bindings r sess)

  after_enter-IsEnded :
      (rest : Continue) (st : State) (step : Step)
      → EndsFrom step.transitions (count_entry step.id st.iterations) rest
      → (r : Result ExecError Session) (sess : Session)
      → IsEnded (after_enter svc rest st step r sess).end
  unfolding after_enter entered
  after_enter-IsEnded rest st step k (err e) sess = tt
  after_enter-IsEnded rest st step k (ok sess') sess =
      let d = dispatch svc sess' step (count_entry step.id st.iterations step.id) in
      after_dispatch-IsEnded rest (entered step st) step k d.session d.outcome

  within_bound-IsEnded :
      (rest : Continue) (sess : Session) (st : State) (step : Step) (c : Check ExecError)
      → (c ≡ ok tt → EndsFrom step.transitions (count_entry step.id st.iterations) rest)
      → IsEnded (within_bound svc rest sess st step c).end
  unfolding within_bound
  within_bound-IsEnded rest sess st step (err e) k = tt
  within_bound-IsEnded rest sess st step (ok u) k =
      after_enter-IsEnded rest st step (k refl) (append svc sess (step_entered step.id)) sess

  run_step-IsEnded :
      (rest : Continue) (sess : Session) (st : State) (id : Text) (found : Option Step)
      → ((step : Step)
          → found ≡ some step
          → check_bound step.kind step.loop step.id (st.iterations step.id) ≡ ok tt
          → EndsFrom step.transitions (count_entry step.id st.iterations) rest)
      → IsEnded (run_step svc rest sess st id found).end
  unfolding run_step
  run_step-IsEnded rest sess st id none k = tt
  run_step-IsEnded rest sess st id (some step) k =
      within_bound-IsEnded rest sess st step
        (check_bound step.kind step.loop step.id (st.iterations step.id)) (k step refl)

  no_name-IsEnded :
      (p : Plan) (fuel : ℕ) (sess : Session) (st : State) → IsEnded (run svc p fuel sess st []).end
  unfolding run
  no_name-IsEnded p fuel sess st = tt

-- Each transition leads to a lower rank, but from a loop step; no rank is above `top`.
pub record IsRanked (p : Plan) (rank : Text → ℕ) (top : ℕ) : Type 0 where
  pub below : (id : Text) → rank id ≤ top
  pub falls :
      (id : Text) (step : Step) (to : Text)
      → step_by_id p id ≡ some step
      → mem to (ids_of step.transitions) ≡ true
      → (is_loop step.kind ≡ true) ⊎ (rank to < rank id)

module _ (svc : Services) (p : Plan) (rank : Text → ℕ) (top : ℕ)
    (ranked : IsRanked p rank top) where
  -- What bounds the steps still to come.
  abbrev steps_left : (Text → ℕ) → Text → ℕ
  steps_left iterations id = budget p.steps iterations * suc top + rank id

  fewer :
      (id : Text) (step : Step) (to : Text) (iterations : Text → ℕ)
      → step_by_id p id ≡ some step
      → check_bound step.kind step.loop step.id (iterations step.id) ≡ ok tt
      → mem to (ids_of step.transitions) ≡ true
      → steps_left (count_entry step.id iterations) to < steps_left iterations id
  unfolding step_by_id
  fewer id step to iterations e b m = elim (Bool-cases (is_loop step.kind)) [
    | inl l ↦ grind (arith, budget-count_entry-lt id p.steps iterations step e l b, ranked.below to)
    | inr n ↦ elim (ranked.falls id step to e m) [
      | inl l ↦ absurd cc
      | inr lt ↦ grind (arith, budget-count_entry-le step.id p.steps iterations, lt)
    ]
  ]

  run-IsEnded :
      (fuel : ℕ) (sess : Session) (st : State) (id : Text)
      → steps_left st.iterations id < fuel
      → IsEnded (run svc p fuel sess st id).end
  unfolding run
  run-IsEnded fuel sess st [] h = tt
  run-IsEnded zero sess st (c ∷ id) h = absurd (omega arith)
  run-IsEnded (suc fuel) sess st (c ∷ id) h =
      run_step-IsEnded svc (run svc p fuel) sess st (c ∷ id) (step_by_id p (c ∷ id))
        λ step e b sess' st' next same to. elim to [
          | inl q ↦ rw q (no_name-IsEnded svc p fuel sess' st')
          | inr m ↦
              run-IsEnded fuel sess' st' next
                (rw same (omega (arith, h, fewer (c ∷ id) step next st.iterations e b m)))
        ]

  -- Where every transition leads to a lower rank but those from loop steps, and no rank is above
  -- `top`, a run ends within the steps that the loops' bounds and the ranks leave: it finishes,
  -- waits at a suspended step or stops with an error, whatever the services answer.
  pub run-ends :
      (fuel : ℕ) (sess : Session) (st : State) (id : Text)
      → budget p.steps st.iterations * suc top + rank id < fuel
      → (run svc p fuel sess st id).end ≢ out_of_fuel
  run-ends fuel sess st id h e = subst IsEnded e (run-IsEnded fuel sess st id h)
