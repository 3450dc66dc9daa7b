-- ===== src/Plan/Lifecycle.antt =====
-- internal/plan/lifecycle.go over the rows of internal/plan/postgres/store.go: the versions of one
-- tenant's plans. A unit of work that returns an error leaves the rows as they were; the errors of
-- the database itself are not modelled. A row holds the plan in place of its JSON.
pub mod Rows
pub mod Refines
use nexus_agent_demo.Prelude.{
  ℕ, ◌+◌, Bool, true, false, ◌&&◌, Option, none, some, List, [], ◌∷◌, if◌then◌else◌, ◌==◌,
}
use nexus_agent_demo.Prelude.Int.{ℤ, pos, ◌+ℤ◌, leb_ℤ, ltb_ℤ}
use nexus_agent_demo.Prelude.Text.{Text}
use nexus_agent_demo.Prelude.Result.{Result, ok, err, Check}
use nexus_agent_demo.Plan.Schema.{Plan}
use nexus_agent_demo.Plan.Validate.{PlanError, validate}

pub data Status : Type 0 where
  draft validated eval_passed signed_off enabled retired : Status

-- A row of orchestration_plans.
pub record Row : Type 0 where
  pub plan_id : ℕ
  pub version : ℤ
  pub spec : Plan
  pub status : Status
  pub created_by : Option Text
  pub signed_off_by : Option Text
  -- agent_version and route_model_id
  pub pins : Option (ℤ × Text)

abbrev pub Rows : Type 0
Rows = List Row

pub data LifecycleError : Type 0 where
  version_exists not_found signer_required gate_errored nothing_to_retire : LifecycleError
  is_immutable : Status → LifecycleError
  wrong_status : Status → Status → LifecycleError
  validation_failed : PlanError → LifecycleError

abbrev pub int_eq : ℤ → ℤ → Bool
int_eq a b = leb_ℤ a b && leb_ℤ b a

-- WHERE plan_id = $1 AND version = $2
abbrev pub is_at : ℕ → ℤ → Row → Bool
is_at id version r = r.plan_id == id && int_eq r.version version

unfoldable pub find_row : Rows → ℕ → ℤ → Option Row
find_row [] id version = none
find_row (r ∷ rows) id version = if is_at id version r then some r else find_row rows id version

-- UPDATE ... WHERE plan_id = $1 AND version = $2
unfoldable pub update_row : (Row → Row) → Rows → ℕ → ℤ → Rows
update_row f [] id version = []
update_row f (r ∷ rows) id version =
    if is_at id version r
    then f r ∷ update_row f rows id version
    else r ∷ update_row f rows id version

abbrev pub later_row : Row → Option Row → Option Row
later_row r none = some r
later_row r (some s) = if ltb_ℤ r.version s.version then some s else some r

-- ORDER BY version DESC LIMIT 1
unfoldable pub latest_row : Rows → ℕ → Option Row
latest_row [] id = none
latest_row (r ∷ rows) id =
    let rest = latest_row rows id in if r.plan_id == id then later_row r rest else rest

unfoldable pub plan_spec : Rows → ℕ → ℤ → Option Row
unfolding find_row latest_row
plan_spec rows id version =
    if ltb_ℤ (pos 0) version then find_row rows id version else latest_row rows id

abbrev null_if_empty : Text → Option Text
null_if_empty [] = none
null_if_empty (c ∷ s) = some (c ∷ s)

abbrev pub insert_at : Option Row → Rows → Row → Result LifecycleError Rows
insert_at none rows r = ok (r ∷ rows)
insert_at (some old) rows r = err version_exists

abbrev pub new_row : Plan → Text → Row
new_row p created_by = record {
  plan_id = p.plan_id;
  version = p.version;
  spec = p;
  status = draft;
  created_by = null_if_empty created_by;
  signed_off_by = none;
  pins = none;
}

-- InsertPlan: the key of the table is the pair of plan and version.
unfoldable pub insert_plan : Rows → Plan → Text → Result LifecycleError Rows
unfolding find_row
insert_plan rows p created_by =
    insert_at (find_row rows p.plan_id p.version) rows (new_row p created_by)

-- Create; `fresh` is what uuid.New would give.
unfoldable pub create : Rows → ℕ → ℕ → Plan → Text → Result LifecycleError Rows
unfolding insert_plan
create rows tenant fresh p created_by =
    insert_plan rows
      (record p {
        plan_id = if p.plan_id == 0 then fresh else p.plan_id;
        tenant_id = tenant;
        version = pos 1;
      })
      created_by

unfoldable pub next_version : Rows → ℕ → ℕ → Plan → Text → Option Row → Result LifecycleError Rows
unfolding insert_plan
next_version rows tenant id p created_by none = err not_found
next_version rows tenant id p created_by (some latest) =
    insert_plan rows
      (record p { plan_id = id; tenant_id = tenant; version = latest.spec.version +ℤ pos 1 })
      created_by

unfoldable pub new_version : Rows → ℕ → ℕ → Plan → Text → Result LifecycleError Rows
unfolding insert_plan plan_spec ◌+ℤ◌
new_version rows tenant id p created_by =
    next_version rows tenant id p created_by (plan_spec rows id (pos 0))

abbrev pub same_status : Status → Status → Bool
same_status draft draft = true
same_status validated validated = true
same_status eval_passed eval_passed = true
same_status signed_off signed_off = true
same_status enabled enabled = true
same_status retired retired = true
same_status _ _ = false

abbrev is_frozen : Status → Bool
is_frozen enabled = true
is_frozen retired = true
is_frozen _ = false

abbrev move : Status → Option Row → Rows → Result LifecycleError Rows
move from none rows = err not_found
move from (some r) rows =
    if is_frozen r.status
    then err (is_immutable r.status)
    else if same_status r.status from
    then ok rows
    else err (wrong_status r.status from)

unfoldable pub update_all :
    (Row → Row) → ℕ → ℤ → Result LifecycleError Rows → Result LifecycleError Rows
unfolding update_row
update_all f id version (ok rows) = ok (update_row f rows id version)
update_all f id version (err e) = err e

-- transition; `change` is what mutate and after do to the row besides the status.
unfoldable pub transition :
    Rows → ℕ → ℤ → Status → Status → (Row → Row) → Result LifecycleError Rows
unfolding find_row update_row
transition rows id version from to change =
    update_all (λ r. record (change r) { status = to }) id version
      (move from (find_row rows id version) rows)

abbrev pub at_validation : Check PlanError → Check LifecycleError
at_validation (ok u) = ok tt
at_validation (err e) = err (validation_failed e)

unfoldable pub check_draft_row : Option Row → Check LifecycleError
unfolding validate
check_draft_row none = err not_found
check_draft_row (some r) =
    if same_status r.status draft
    then at_validation (validate r.spec)
    else err (wrong_status r.status draft)

-- ValidatePlan before its transition: a read of the rows and the checks.
unfoldable pub check_draft : Rows → ℕ → ℤ → Check LifecycleError
unfolding plan_spec validate
check_draft rows id version = check_draft_row (plan_spec rows id version)

abbrev and_run {ℓ κ} : {E : Type ℓ} {A : Type κ} → Check E → Result E A → Result E A
and_run (ok u) rest = rest
and_run (err e) rest = err e

unfoldable pub mark_validated : Rows → ℕ → ℤ → Result LifecycleError Rows
unfolding transition
mark_validated rows id version = transition rows id version draft validated (λ r. r)

unfoldable pub validate_plan : Rows → ℕ → ℤ → Result LifecycleError Rows
unfolding check_draft mark_validated
validate_plan rows id version =
    and_run (check_draft rows id version) (mark_validated rows id version)

-- What an EvalGate answers.
pub data Verdict : Type 0 where
  passed failed : Text → Verdict
  errored : Verdict

abbrev pub ask_gate : (Plan → Verdict) → Option Row → Result LifecycleError Verdict
ask_gate gate none = err not_found
ask_gate gate (some r) =
    if same_status r.status validated
    then ok (gate r.spec)
    else err (wrong_status r.status validated)

-- RunEvalGate before its transition.
unfoldable pub gate_verdict : (Plan → Verdict) → Rows → ℕ → ℤ → Result LifecycleError Verdict
unfolding plan_spec
gate_verdict gate rows id version = ask_gate gate (plan_spec rows id version)

unfoldable pub mark_passed : Rows → ℕ → ℤ → Result LifecycleError Rows
unfolding transition
mark_passed rows id version = transition rows id version validated eval_passed (λ r. r)

abbrev after_gate :
    Rows → Result LifecycleError Verdict → Result LifecycleError Rows → Result LifecycleError Rows
after_gate rows (err e) marked = err e
after_gate rows (ok errored) marked = err gate_errored
after_gate rows (ok (failed detail)) marked = ok rows
after_gate rows (ok (passed detail)) marked = marked

-- A failing gate is no error and changes nothing.
unfoldable pub run_eval_gate : (Plan → Verdict) → Rows → ℕ → ℤ → Result LifecycleError Rows
unfolding gate_verdict mark_passed
run_eval_gate gate rows id version =
    after_gate rows (gate_verdict gate rows id version) (mark_passed rows id version)

unfoldable pub sign_off : Rows → ℕ → ℤ → Text → Result LifecycleError Rows
unfolding transition
sign_off rows id version [] = err signer_required
sign_off rows id version (c ∷ by) =
    transition rows id version eval_passed signed_off
      λ r. record r { signed_off_by = some (c ∷ by) }

abbrev pub pin : ℤ → Text → Plan → Plan
pin agent model p = record p { agent_version = agent; route_model_id = model }

unfoldable pub enable : Rows → ℕ → ℤ → ℤ → Text → Result LifecycleError Rows
unfolding transition
enable rows id version agent model =
    transition rows id version signed_off enabled
      λ r. record r { spec = pin agent model r.spec; pins = some (agent, model) }

unfoldable pub retire_row : Option Row → Rows → ℕ → ℤ → Result LifecycleError Rows
unfolding update_row
retire_row none rows id version = err nothing_to_retire
retire_row (some r) rows id version =
    if same_status r.status enabled
    then ok (update_row (λ s. record s { status = retired }) rows id version)
    else err nothing_to_retire

-- Retire: the row of that version, if it is enabled.
unfoldable pub retire : Rows → ℕ → ℤ → Result LifecycleError Rows
unfolding find_row update_row
retire rows id version = retire_row (find_row rows id version) rows id version
