-- ===== src/Plan/Validate.antt =====
-- internal/plan/validate.go: what a plan must satisfy before it may run, in the order of the checks.
pub mod Reachability
use nexus_agent_demo.Prelude.{
  ℕ, suc, Bool, true, false, not, ◌||◌, Option, none, some, List, [], ◌∷◌, if◌then◌else◌, ltb, ◌==◌,
  length,
}
use nexus_agent_demo.Prelude.Text.{Text}
use nexus_agent_demo.Prelude.Result.{Result, ok, err, Check, refuse, ◌then◌}
use nexus_agent_demo.Cost.Money.{Money}
use nexus_agent_demo.Plan.Predicate.{Predicate}
use nexus_agent_demo.Plan.Schema.{
  AmountError, DelegateFanoutConfig, Plan, PreauthConfig, PreauthEntry, Step, StepKind,
  step_delegate_fanout, step_preauth, Transition, find_step, parse_ceiling,
}
use nexus_agent_demo.Plan.Graph.{
  Found, found, search_out_of_fuel, Walk, walked, unbounded_cycle, index_panic, walk_out_of_fuel,
  all_targets, mem, search_graph, walk,
}
use nexus_agent_demo.Plan.Shape.{
  StepError, is_empty, count_some, validate_step_shape, validate_transitions, predicate_depth,
  max_predicate_depth,
}

pub data PlanError : Type 0 where
  start_step_required no_steps empty_step_id bad_ceiling ceiling_required : PlanError
  duplicate_step_id undeclared_start : Text → PlanError
  bad_step : Text → StepError → PlanError
  undeclared_target : Text → Text → PlanError
  predicate_too_deep : Text → Text → ℕ → PlanError
  unreachable_steps unbounded_loop : List Text → PlanError
  outside_allowed_tools : Text → Text → PlanError
  incomplete_preauth : Text → ℕ → PlanError
  -- a nil pointer or path[-1:]
  panics : PlanError
  -- the model's own
  out_of_fuel : PlanError

abbrev at_step : Text → Check StepError → Check PlanError
at_step id (ok u) = ok tt
at_step id (err e) = err (bad_step id e)

abbrev declares : List Step → Text → Bool
declares seen id = not (count_some (find_step seen id) == 0)

-- The first loop of Validate: `seen` gets each step that passes, the last one first.
unfoldable pub declare_steps : List Step → List Step → Check PlanError
unfolding find_step validate_step_shape
declare_steps seen [] = ok tt
declare_steps seen (s ∷ steps) =
    refuse (is_empty s.id) empty_step_id
    then refuse (declares seen s.id) (duplicate_step_id s.id)
    then at_step s.id (validate_step_shape s)
    then declare_steps (s ∷ seen) steps

-- `seen` after the loop.
abbrev pub seen_after : List Step → List Step → List Step
seen_after seen [] = seen
seen_after seen (s ∷ steps) = seen_after (s ∷ seen) steps

abbrev check_depth : Text → Transition → Option Predicate → Check PlanError
check_depth id t none = ok tt
check_depth id t (some p) =
    refuse (ltb max_predicate_depth (predicate_depth p))
      (predicate_too_deep id t.to (predicate_depth p))

unfoldable pub check_targets : List Step → Text → List Transition → Check PlanError
unfolding find_step predicate_depth
check_targets seen id [] = ok tt
check_targets seen id (t ∷ ts) =
    refuse (not (declares seen t.to)) (undeclared_target id t.to)
    then check_depth id t t.when
    then check_targets seen id ts

-- The second loop of Validate.
unfoldable pub check_steps : List Step → List Step → Check PlanError
unfolding validate_transitions check_targets
check_steps seen [] = ok tt
check_steps seen (s ∷ steps) =
    at_step s.id (validate_transitions s.transitions)
    then check_targets seen s.id s.transitions
    then check_steps seen steps

-- The declared steps that the search did not visit.
unfoldable pub unvisited : List Text → List Step → List Text
unfolding mem
unvisited visited [] = []
unvisited visited (s ∷ seen) =
    if mem s.id visited then unvisited visited seen else s.id ∷ unvisited visited seen

abbrev before : Text → Text → Bool
before [] t = true
before (c ∷ s) [] = false
before (c ∷ s) (d ∷ t) = if c == d then before s t else ltb c d

abbrev insert : Text → List Text → List Text
insert s [] = s ∷ []
insert s (t ∷ ts) = if before s t then s ∷ t ∷ ts else t ∷ insert s ts

-- sort.Strings
abbrev sort_texts : List Text → List Text
sort_texts [] = []
sort_texts (s ∷ ss) = insert s (sort_texts ss)

abbrev pub report_unvisited : List Text → Check PlanError
report_unvisited [] = ok tt
report_unvisited (id ∷ ids) = err (unreachable_steps (sort_texts (id ∷ ids)))

abbrev pub check_found : List Step → Found → Check PlanError
check_found seen (found visited) = report_unvisited (unvisited visited seen)
check_found seen search_out_of_fuel = err out_of_fuel

unfoldable pub validate_reachability : Plan → List Step → Check PlanError
unfolding search_graph unvisited
validate_reachability p seen = check_found seen (search_graph seen p.start_step)

abbrev check_walk : Walk → Check PlanError
check_walk (walked colors) = ok tt
check_walk (unbounded_cycle cycle) = err (unbounded_loop cycle)
check_walk index_panic = err panics
check_walk walk_out_of_fuel = err out_of_fuel

-- Each call of walk colours a name that was white, so the calls nest no deeper than there are names.
unfoldable pub validate_bounded_loops : Plan → List Step → Check PlanError
unfolding walk all_targets
validate_bounded_loops p seen =
    check_walk (walk seen (suc (length (all_targets seen))) p.start_step [] [])

abbrev check_grant : List Text → Text → List Text → Check PlanError
check_grant allowed id [] = ok tt
check_grant allowed id (g ∷ grant) =
    refuse (not (mem g allowed)) (outside_allowed_tools id g) then check_grant allowed id grant

abbrev check_scope : List Text → Text → Option DelegateFanoutConfig → Check PlanError
check_scope allowed id none = ok tt
check_scope allowed id (some c) = check_grant allowed id c.scope_grant

unfoldable pub validate_scope_subset : List Text → List Step → Check PlanError
unfolding mem
validate_scope_subset allowed [] = ok tt
validate_scope_subset allowed (s ∷ steps) =
    check_scope allowed s.id s.delegate_fanout then validate_scope_subset allowed steps

abbrev check_entries : Text → ℕ → List PreauthEntry → Check PlanError
check_entries id i [] = ok tt
check_entries id i (e ∷ entries) =
    refuse (is_empty e.tool_id || is_empty e.digest) (incomplete_preauth id i)
    then check_entries id (suc i) entries

abbrev check_preauth_config : Text → Option PreauthConfig → Check PlanError
check_preauth_config id none = err panics
check_preauth_config id (some c) = check_entries id 0 c.entries

abbrev check_preauth_step : StepKind → Step → Check PlanError
check_preauth_step step_preauth s = check_preauth_config s.id s.preauth
check_preauth_step _ s = ok tt

unfoldable pub validate_oversight_completeness : List Step → Check PlanError
validate_oversight_completeness [] = ok tt
validate_oversight_completeness (s ∷ steps) =
    check_preauth_step s.kind s then validate_oversight_completeness steps

abbrev is_fanout_kind : StepKind → Bool
is_fanout_kind step_delegate_fanout = true
is_fanout_kind _ = false

unfoldable pub has_delegate_fanout : List Step → Bool
has_delegate_fanout [] = false
has_delegate_fanout (s ∷ steps) = if is_fanout_kind s.kind then true else has_delegate_fanout steps

abbrev check_ceiling : Bool → Result AmountError (Option Money) → Check PlanError
check_ceiling fanout (err e) = err bad_ceiling
check_ceiling fanout (ok none) = refuse fanout ceiling_required
check_ceiling fanout (ok (some m)) = ok tt

unfoldable pub validate : Plan → Check PlanError
unfolding declare_steps check_steps validate_reachability validate_bounded_loops
    validate_scope_subset validate_oversight_completeness has_delegate_fanout parse_ceiling
validate p =
    let seen = seen_after [] p.steps in
    refuse (is_empty p.start_step) start_step_required
    then refuse (is_empty p.steps) no_steps
    then declare_steps [] p.steps
    then refuse (not (declares seen p.start_step)) (undeclared_start p.start_step)
    then check_steps seen p.steps
    then validate_reachability p seen
    then validate_bounded_loops p seen
    then validate_scope_subset p.allowed_tools p.steps
    then validate_oversight_completeness p.steps
    then check_ceiling (has_delegate_fanout p.steps) (parse_ceiling p.ceiling)
