-- ===== src/Plan/Lifecycle/Refines.antt =====
-- The life cycle that a version goes through, and the units of work of several callers in any order.
-- ValidatePlan and RunEvalGate read the rows and judge the plan in one unit of work and move the row
-- in another, so they are two actions here, with a ticket of the first for the second.
pub mod Forward
pub mod Tickets
pub mod Order
use nexus_agent_demo.Prelude.{
  ℕ, ◌≡◌, Bool, true, false, ◌&&◌, ◌||◌, ◌≢◌, Option, none, some, List, [], ◌∷◌, if◌then◌else◌,
  ◌==◌,
}
use nexus_agent_demo.Prelude.Int.{ℤ}
use nexus_agent_demo.Prelude.Text.{Text}
use nexus_agent_demo.Prelude.Result.{Result, ok, err, Check}
use nexus_agent_demo.Plan.Schema.{Plan}
use nexus_agent_demo.Plan.Validate.{validate}
use nexus_agent_demo.Plan.Lifecycle.{
  LifecycleError, Row, Rows, Status, Verdict, check_draft, create, draft, enable, enabled, errored,
  eval_passed, failed, find_row, gate_verdict, int_eq, mark_passed, mark_validated, new_version,
  passed, pin, retire, retired, sign_off, signed_off, transition, validated,
}

-- What the life cycle promises of a version: its stage, with the plan and who is on record.
pub data Stage : Type 0 where
  is_absent : Stage
  is_draft is_validated is_passed : Plan → Stage
  is_signed_off : Plan → Option Text → Stage
  is_enabled is_retired : Plan → Option Text → Option (ℤ × Text) → Stage

-- One move, with what it takes.
pub data Advance (gate : Plan → Verdict) : Stage → Stage → Type 0 where
  drafted : (p : Plan) → Advance gate is_absent (is_draft p)
  validates : (p : Plan) → validate p ≡ ok tt → Advance gate (is_draft p) (is_validated p)
  passes :
      (p : Plan) (detail : Text)
      → gate p ≡ passed detail
      → Advance gate (is_validated p) (is_passed p)
  signs : (p : Plan) (by : Text) → by ≢ [] → Advance gate (is_passed p) (is_signed_off p (some by))
  enables :
      (p : Plan) (by : Option Text) (agent : ℤ) (model : Text)
      → Advance gate (is_signed_off p by) (is_enabled (pin agent model p) by (some (agent, model)))
  retires :
      (p : Plan) (by : Option Text) (pins : Option (ℤ × Text))
      → Advance gate (is_enabled p by pins) (is_retired p by pins)

-- Moves in turn.
pub data Advances (gate : Plan → Verdict) (s : Stage) : Stage → Type 0 where
  none_yet : Advances gate s s
  then_one : {t u : Stage} → Advances gate s t → Advance gate t u → Advances gate s u

abbrev pub stage_at : Status → Row → Stage
stage_at draft r = is_draft r.spec
stage_at validated r = is_validated r.spec
stage_at eval_passed r = is_passed r.spec
stage_at signed_off r = is_signed_off r.spec r.signed_off_by
stage_at enabled r = is_enabled r.spec r.signed_off_by r.pins
stage_at retired r = is_retired r.spec r.signed_off_by r.pins

abbrev pub stage_of : Option Row → Stage
stage_of none = is_absent
stage_of (some r) = stage_at r.status r

-- The stage of a version in the rows.
unfoldable pub stage : Rows → ℕ → ℤ → Stage
unfolding find_row
stage rows id version = stage_of (find_row rows id version)

-- A judgement that a caller has got and not yet acted on.
pub data Ticket : Type 0 where
  may_validate may_pass : ℕ → ℤ → Ticket

pub record World : Type 0 where
  pub rows : Rows
  pub tickets : List Ticket

pub data Action : Type 0 where
  creates : ℕ → ℕ → Plan → Text → Action
  adds_version : ℕ → ℕ → Plan → Text → Action
  checks_draft marks_validated asks_gate marks_passed retires_version : ℕ → ℤ → Action
  signs_off : ℕ → ℤ → Text → Action
  enables_version : ℕ → ℤ → ℤ → Text → Action

abbrev pub same_ticket : Ticket → Ticket → Bool
same_ticket (may_validate id v) (may_validate id' v') = id == id' && int_eq v v'
same_ticket (may_pass id v) (may_pass id' v') = id == id' && int_eq v v'
same_ticket _ _ = false

abbrev pub has_ticket : Ticket → List Ticket → Bool
has_ticket t [] = false
has_ticket t (u ∷ tickets) = same_ticket t u || has_ticket t tickets

-- A unit of work that fails changes nothing.
abbrev pub commit : World → Result LifecycleError Rows → World
commit w (ok rows) = record w { rows = rows }
commit w (err e) = w

abbrev pub hand_out : World → Ticket → Bool → World
hand_out w t true = record w { tickets = t ∷ w.tickets }
hand_out w t false = w

abbrev pub is_ok : Check LifecycleError → Bool
is_ok (ok u) = true
is_ok (err e) = false

abbrev pub is_pass : Result LifecycleError Verdict → Bool
is_pass (ok (passed detail)) = true
is_pass _ = false

unfoldable pub act : (Plan → Verdict) → World → Action → World
unfolding create new_version check_draft transition gate_verdict sign_off enable retire
act gate w (creates tenant fresh p by) = commit w (create w.rows tenant fresh p by)
act gate w (adds_version tenant id p by) = commit w (new_version w.rows tenant id p by)
act gate w (checks_draft id v) = hand_out w (may_validate id v) (is_ok (check_draft w.rows id v))
act gate w (marks_validated id v) =
    if has_ticket (may_validate id v) w.tickets then commit w (mark_validated w.rows id v) else w
act gate w (asks_gate id v) = hand_out w (may_pass id v) (is_pass (gate_verdict gate w.rows id v))
act gate w (marks_passed id v) =
    if has_ticket (may_pass id v) w.tickets then commit w (mark_passed w.rows id v) else w
act gate w (signs_off id v by) = commit w (sign_off w.rows id v by)
act gate w (enables_version id v agent model) = commit w (enable w.rows id v agent model)
act gate w (retires_version id v) = commit w (retire w.rows id v)

abbrev pub no_rows : World
no_rows = record { rows = []; tickets = [] }

unfoldable pub act_all : (Plan → Verdict) → World → List Action → World
unfolding act
act_all gate w [] = w
act_all gate w (a ∷ actions) = act_all gate (act gate w a) actions
