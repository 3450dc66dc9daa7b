-- ===== src/Plan/Replay.antt =====
-- internal/plan/replay.go: a session's events, and the run's state that they rebuild. An event stands
-- for its opened payload; the key and the JSON around it are not modelled.
use nexus_agent_demo.Prelude.{
  ℕ, suc, ◌≡◌, refl, Bool, true, false, Option, none, some, List, [], ◌∷◌, ◌++◌, map, if◌then◌else◌,
}
use nexus_agent_demo.Prelude.Text.{Text, text_eq}
use nexus_agent_demo.Plan.Predicate.{Context, Predicate, Value}

abbrev pub Bindings : Type 0
Bindings = List (Text × Value)

-- An event that is not the plan's: a text of the model, or another one.
pub data OtherEvent : Type 0 where
  content : Text → OtherEvent
  other : ℕ → OtherEvent

pub data Event : Type 0 where
  plan_started : ℕ → Event
  user_message : Text → Event
  other_event : OtherEvent → Event
  step_entered : Text → Event
  step_exited : Text → Bindings → Event
  transition_fired : Text → Text → Option Predicate → Event
  plan_completed : Event

-- The fields of `state`: a map from texts is a function, with 0 for a step that was not entered.
pub record State : Type 0 where
  pub vars : Context
  pub current_step : Text
  pub iterations : Text → ℕ
  pub completed : Bool

abbrev pub start_state : State
start_state = record { vars = λ x. none; current_step = []; iterations = λ x. 0; completed = false }

-- st.Vars[k] = v for each binding.
unfoldable pub bind_all : Bindings → Context → Context
unfolding text_eq
bind_all [] vars = vars
bind_all ((k, v) ∷ bindings) vars = bind_all bindings λ x. if text_eq k x then some v else vars x

-- st.Iterations[id]++
unfoldable pub count_entry : Text → (Text → ℕ) → Text → ℕ
unfolding text_eq
count_entry id iterations x = if text_eq id x then suc (iterations x) else iterations x

unfoldable pub replay_event : State → Event → State
unfolding bind_all count_entry
replay_event st (step_entered id) = record st {
  current_step = id;
  iterations = count_entry id st.iterations;
}
replay_event st (step_exited id bindings) = record st {
  vars = bind_all bindings st.vars;
  current_step = [];
}
replay_event st plan_completed = record st { current_step = []; completed = true }
replay_event st _ = st

unfoldable pub replay_from : State → List Event → State
unfolding replay_event
replay_from st [] = st
replay_from st (e ∷ history) = replay_from (replay_event st e) history

unfoldable pub replay_state : List Event → State
unfolding replay_from
replay_state history = replay_from start_state history

pub replay_from-append :
    (st : State) (es fs : List Event)
    → replay_from st (es ++ fs) ≡ replay_from (replay_from st es) fs
unfolding replay_from
replay_from-append st [] fs = refl
replay_from-append st (e ∷ es) fs = replay_from-append (replay_event st e) es fs

-- The other events change nothing of the plan's state.
pub replay_from-other :
    (st : State) (es : List OtherEvent) → replay_from st (map other_event es) ≡ st
unfolding replay_from replay_event
replay_from-other st [] = refl
replay_from-other st (e ∷ es) = replay_from-other st es
