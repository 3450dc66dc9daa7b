-- ===== src/Plan/Graph.antt =====
-- internal/plan/validate.go: the two walks over the graph of the transitions. `seen` holds the
-- declared steps; an identifier that it does not hold has no transitions, as in Go.
pub mod Scan
pub mod Reach
use nexus_agent_demo.Prelude.{
  ℕ, zero, suc, Bool, true, false, ◌||◌, Option, none, some, List, [], ◌∷◌, ◌++◌, map,
  if◌then◌else◌, length, drop,
}
use nexus_agent_demo.Prelude.Text.{Text, text_eq}
use nexus_agent_demo.Plan.Schema.{Step, StepKind, step_loop, Transition, find_step}

unfoldable pub mem : Text → List Text → Bool
unfolding text_eq
mem x [] = false
mem x (v ∷ vs) = text_eq x v || mem x vs

abbrev pub ids_of : List Transition → List Text
ids_of ts = map (λ (t : Transition). t.to) ts

abbrev targets_of : Option Step → List Text
targets_of none = []
targets_of (some s) = ids_of s.transitions

-- Where seen[id].Transitions lead.
unfoldable pub targets : List Step → Text → List Text
unfolding find_step
targets seen id = targets_of (find_step seen id)

-- The targets of all steps.
unfoldable pub all_targets : List Step → List Text
all_targets [] = []
all_targets (s ∷ seen) = ids_of s.transitions ++ all_targets seen

-- The state of the search from the start step: what was visited, newest first, and the queue.
pub record Search : Type 0 where
  pub visited : List Text
  pub queue : List Text

-- One transition of the step at the queue's head.
unfoldable pub offer : Search → Text → Search
unfolding mem
offer s to =
    if mem to s.visited then s else record { visited = to ∷ s.visited; queue = s.queue ++ to ∷ [] }

unfoldable pub scan : Search → List Text → Search
unfolding offer
scan s [] = s
scan s (to ∷ ts) = scan (offer s to) ts

pub data Found : Type 0 where
  found : List Text → Found
  search_out_of_fuel : Found

-- The loop while the queue is not empty.
unfoldable pub search_queue : List Step → ℕ → List Text → List Text → Found
unfolding targets scan
search_queue seen fuel visited [] = found visited
search_queue seen zero visited (id ∷ queue) = search_out_of_fuel
search_queue seen (suc fuel) visited (id ∷ queue) =
    let s = scan (record { visited = visited; queue = queue }) (targets seen id) in
    search_queue seen fuel s.visited s.queue

-- Each round takes one step from the queue, and only the start and the targets are ever queued.
unfoldable pub search_graph : List Step → Text → Found
unfolding search_queue all_targets
search_graph seen start =
    search_queue seen (suc (length (all_targets seen))) (start ∷ []) (start ∷ [])

pub data Color : Type 0 where
  white gray black : Color

-- The map of colours, its last assignment first; a name without one is white.
abbrev pub Colors : Type 0
Colors = List (Text × Color)

unfoldable pub color : Colors → Text → Color
unfolding text_eq
color [] id = white
color ((x, c) ∷ colors) id = if text_eq x id then c else color colors id

abbrev suc_index : Option ℕ → Option ℕ
suc_index none = none
suc_index (some i) = some (suc i)

-- `none` is -1.
unfoldable pub index_of : List Text → Text → Option ℕ
unfolding text_eq
index_of [] v = none
index_of (x ∷ s) v = if text_eq x v then some 0 else suc_index (index_of s v)

abbrev is_loop_kind : StepKind → Bool
is_loop_kind step_loop = true
is_loop_kind _ = false

abbrev is_loop_step : Option Step → Bool
is_loop_step none = false
is_loop_step (some s) = is_loop_kind s.kind

unfoldable pub cycle_has_loop_step : List Text → List Step → Bool
unfolding find_step
cycle_has_loop_step [] seen = false
cycle_has_loop_step (id ∷ cycle) seen =
    if is_loop_step (find_step seen id) then true else cycle_has_loop_step cycle seen

pub data Walk : Type 0 where
  walked : Colors → Walk
  unbounded_cycle : List Text → Walk
  -- path[-1:]
  index_panic walk_out_of_fuel : Walk

unfoldable pub close_cycle : List Step → List Text → Text → Option ℕ → Colors → Walk
unfolding cycle_has_loop_step
close_cycle seen path to none colors = index_panic
close_cycle seen path to (some idx) colors =
    let cycle = drop idx path ++ to ∷ [] in
    if cycle_has_loop_step cycle seen then walked colors else unbounded_cycle cycle

-- One transition, by its target's colour; `rec` is the call of walk at the target.
abbrev visit : List Step → (Text → Colors → Walk) → List Text → Text → Color → Colors → Walk
visit seen rec path to white colors = rec to colors
visit seen rec path to gray colors = close_cycle seen path to (index_of path to) colors
visit seen rec path to black colors = walked colors

abbrev continue : Walk → (Colors → Walk) → Walk
continue (walked colors) rest = rest colors
continue (unbounded_cycle cycle) rest = unbounded_cycle cycle
continue index_panic rest = index_panic
continue walk_out_of_fuel rest = walk_out_of_fuel

abbrev edges : List Step → (Text → Colors → Walk) → List Text → List Text → Colors → Walk
edges seen rec path [] colors = walked colors
edges seen rec path (to ∷ ts) colors =
    continue (visit seen rec path to (color colors to) colors) (edges seen rec path ts)

unfoldable pub walk : List Step → ℕ → Text → List Text → Colors → Walk
unfolding targets index_of color close_cycle
walk seen zero id path colors = walk_out_of_fuel
walk seen (suc fuel) id path colors =
    let path = path ++ id ∷ [] in
    continue
      (edges seen (λ to. walk seen fuel to path) path (targets seen id) ((id, gray) ∷ colors))
      λ colors. walked ((id, black) ∷ colors)
