-- ===== src/Plan/Examples.antt =====
-- Tests of the plans' model, and uses of the theorems.
mod Runs
use nexus_agent_demo.Prelude.{
  ℕ, suc, ◌+◌, ◌*◌, ◌<◌, ◌≡◌, ◌≢◌, refl, ◌↔◌, inl, inr, Bool, true, false, Option, none, some, List,
  [], ◌∷◌, if◌then◌else◌, arith, All,
}
use nexus_agent_demo.Prelude.Int.{ℤ, pos, negsuc}
use nexus_agent_demo.Prelude.Float.{float_of, float_lt}
use nexus_agent_demo.Prelude.Text.{Text, codes, text_eq}
use nexus_agent_demo.Prelude.Result.{Result, ok, err}
use nexus_agent_demo.Plan.Predicate.{
  Context, Predicate, Value, cons, eval, kind_number, kind_string, nil, number_value, op_and, op_eq,
  op_in, op_lt, op_or, predicate, value_equal, string_value,
}
use nexus_agent_demo.Plan.Predicate.Typing.{IsFitting, Kinds, eval-IsTyped, Holds}
use nexus_agent_demo.Plan.Schema.{
  Plan, Step, StepKind, condition_config, step_condition, step_loop, step_other, Transition,
}
use nexus_agent_demo.Plan.Validate.{validate, validate_reachability, unbounded_loop}
use nexus_agent_demo.Plan.Validate.Reachability.{validate_reachability-Reaches}
use nexus_agent_demo.Plan.Graph.Reach.{Reaches}

abbrev name_n : Text
name_n = codes "n"

abbrev name_s : Text
name_s = codes "s"

abbrev kinds : Kinds
kinds x =
    if text_eq x name_n
    then some kind_number
    else if text_eq x name_s
    then some kind_string
    else none

abbrev values : Text → Value
values x = if text_eq x name_n then number_value (float_of 3) else string_value (codes "go")

abbrev two_vars : Context
two_vars x =
    if text_eq x name_n
    then some (number_value (float_of 3))
    else if text_eq x name_s
    then some (string_value (codes "go"))
    else none

two_vars-IsFitting : IsFitting kinds values two_vars
unfolding number_value string_value
two_vars-IsFitting x k h = ground arith

-- n < 5 and (s == "stop" or s in ["go"])
abbrev small_and_go : Predicate
small_and_go =
    let few = predicate op_lt name_n (number_value (float_of 5)) [] nil nil in
    let stop = predicate op_eq name_s (string_value (codes "stop")) [] nil nil in
    let go = predicate op_in name_s (string_value []) (string_value (codes "go") ∷ []) nil nil in
    let either = predicate op_or [] (string_value []) [] nil (cons stop (cons go nil)) in
    predicate op_and [] (string_value []) [] (cons few (cons either nil)) nil

eval-IsTyped_example :
    (b : Bool) × (eval two_vars small_and_go ≡ ok b) × ((b ≡ true) ↔ Holds values small_and_go)
unfolding number_value string_value text_eq
eval-IsTyped_example =
    eval-IsTyped kinds values two_vars two_vars-IsFitting small_and_go
      ((refl, refl), (((kind_string, refl), ((kind_string, refl), tt)), tt))

-- A step without a configuration or transitions, of a kind that none of the checks accepts.
abbrev blank : Text → Step
blank id = record {
  id = id;
  kind = step_other [];
  agent = none;
  delegate_fanout = none;
  approval_gate = none;
  preauth = none;
  input_request = none;
  condition = none;
  loop = none;
  transitions = [];
}

abbrev condition_step : Text → List Transition → Step
condition_step id ts = record (blank id) {
  kind = step_condition;
  condition = some condition_config;
  transitions = ts;
}

abbrev loop_step : Text → ℕ → Text → List Transition → Step
loop_step id n x ts = record (blank id) {
  kind = step_loop;
  loop = some (record { max_iterations = pos n; counter_var = x });
  transitions = ts;
}

abbrev to_step : Text → Transition
to_step id = record { to = id; when = none }

abbrev plan_of : Text → List Step → Plan
plan_of start steps = record {
  plan_id = 0;
  tenant_id = 0;
  version = pos 1;
  name = codes "p";
  start_step = start;
  steps = steps;
  allowed_tools = [];
  ceiling = [];
  agent_version = pos 0;
  route_model_id = [];
}

abbrev pub name_a : Text
name_a = codes "a"

abbrev name_b : Text
name_b = codes "b"

abbrev pub name_l : Text
name_l = codes "l"

abbrev again : Predicate
again = predicate op_lt name_n (number_value (float_of 2)) [] nil nil

-- a -> l, and l -> a while the loop's counter is below 2
abbrev pub looping : Plan
looping = plan_of name_a (
    condition_step name_a (to_step name_l ∷ [])
    ∷ loop_step name_l 2 name_n (record { to = name_a; when = some again } ∷ [])
    ∷ [])

looping_validates : validate looping ≡ ok tt
unfolding validate
looping_validates = refl

-- a -> l, a -> b, l -> b, b -> a: a, b, a is a cycle without a loop step.
abbrev unbounded : Plan
unbounded = plan_of name_a (
    condition_step name_a (record { to = name_l; when = some again } ∷ to_step name_b ∷ [])
    ∷ loop_step name_l 2 [] (to_step name_b ∷ [])
    ∷ condition_step name_b (to_step name_a ∷ [])
    ∷ [])

-- The walk meets the edge a -> b last, and finds b black.
unbounded_validates : validate unbounded ≡ ok tt
unfolding validate
unbounded_validates = refl

-- With the edges of `a` the other way around it is refused.
unbounded_refused :
    validate (
      plan_of name_a (
        condition_step name_a (record { to = name_b; when = some again } ∷ to_step name_l ∷ [])
        ∷ loop_step name_l 2 [] (to_step name_b ∷ [])
        ∷ condition_step name_b (to_step name_a ∷ [])
        ∷ []))
    ≡ err (unbounded_loop (name_a ∷ name_b ∷ name_a ∷ []))
unfolding validate
unbounded_refused = refl

validate_reachability-Reaches_example :
    (validate_reachability looping looping.steps ≡ ok tt)
    ↔ All (λ (s : Step). Reaches looping.steps name_a s.id) looping.steps
validate_reachability-Reaches_example = validate_reachability-Reaches looping looping.steps
