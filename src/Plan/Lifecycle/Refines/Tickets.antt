-- ===== src/Plan/Lifecycle/Refines/Tickets.antt =====
-- A judgement that a caller holds stands until it acts on it.
use nexus_agent_demo.Prelude.{
  ℕ, ◌≡◌, refl, ap, ◌∙◌, subst, ◌⊎◌, inl, inr, true, some, List, [], ◌∷◌, if◌then◌else◌, arith, All,
  Bool-cases, Option-cases,
}
use nexus_agent_demo.Prelude.Int.{ℤ, pos, ◌≤ℤ◌, ltb_ℤ, eq_of_parts}
use nexus_agent_demo.Prelude.Text.{Text}
use nexus_agent_demo.Prelude.Result.{ok, err, Result-cases}
use nexus_agent_demo.Plan.Schema.{Plan}
use nexus_agent_demo.Plan.Validate.{validate}
use nexus_agent_demo.Plan.Lifecycle.{
  Row, Rows, Status, Verdict, errored, failed, is_at, at_validation, check_draft, check_draft_row,
  draft, find_row, gate_verdict, passed, plan_spec, same_status, validated, wrong_status,
}
use nexus_agent_demo.Plan.Lifecycle.Rows.{All-find}
use nexus_agent_demo.Plan.Lifecycle.Refines.{
  Advance, Stage, Ticket, drafted, enables, has_ticket, is_absent, is_draft, is_ok, is_pass,
  is_validated, may_pass, may_validate, passes, retires, same_ticket, signs, stage, stage_at,
  stage_of, validates,
}
use nexus_agent_demo.Plan.Lifecycle.Refines.Forward.{Forward, IsPlaced}

-- A version that its caller may mark validated, if it is still a draft.
abbrev IsValidatable : Stage → Type 0
IsValidatable is_absent = ⊥
IsValidatable (is_draft p) = validate p ≡ ok tt
IsValidatable _ = Unit

module _ (gate : Plan → Verdict) where
  abbrev IsPassable : Stage → Type 0
  IsPassable is_absent = ⊥
  IsPassable (is_draft p) = ⊥
  IsPassable (is_validated p) = (detail : Text) × (gate p ≡ passed detail)
  IsPassable _ = Unit

  Advance-IsValidatable : (s t : Stage) → Advance gate s t → IsValidatable s → IsValidatable t
  Advance-IsValidatable _ _ (drafted p) h = absurd h
  Advance-IsValidatable _ _ (validates p e) h = tt
  Advance-IsValidatable _ _ (passes p d e) h = tt
  Advance-IsValidatable _ _ (signs p by e) h = tt
  Advance-IsValidatable _ _ (enables p by a m) h = tt
  Advance-IsValidatable _ _ (retires p by pins) h = tt

  Advance-IsPassable : (s t : Stage) → Advance gate s t → IsPassable s → IsPassable t
  Advance-IsPassable _ _ (drafted p) h = absurd h
  Advance-IsPassable _ _ (validates p e) h = absurd h
  Advance-IsPassable _ _ (passes p d e) h = tt
  Advance-IsPassable _ _ (signs p by e) h = tt
  Advance-IsPassable _ _ (enables p by a m) h = tt
  Advance-IsPassable _ _ (retires p by pins) h = tt

  -- A ticket's judgement still stands; a read of the latest version can be of no use.
  abbrev pub IsHonoured : Rows → Ticket → Type 0
  IsHonoured rows (may_validate id v) = (v ≤ℤ pos 0) ⊎ IsValidatable (stage rows id v)
  IsHonoured rows (may_pass id v) = (v ≤ℤ pos 0) ⊎ IsPassable (stage rows id v)

  IsHonoured-on :
      (rows rows' : Rows)
      → Forward gate rows rows'
      → (t : Ticket) → IsHonoured rows t
      → IsHonoured rows' t
  IsHonoured-on rows rows' f (may_validate id v) (inl h) = inl h
  IsHonoured-on rows rows' f (may_validate id v) (inr h) = elim (f id v) [
    | inl e ↦ inr (rw e h)
    | inr a ↦ inr (Advance-IsValidatable (stage rows id v) (stage rows' id v) a h)
  ]
  IsHonoured-on rows rows' f (may_pass id v) (inl h) = inl h
  IsHonoured-on rows rows' f (may_pass id v) (inr h) = elim (f id v) [
    | inl e ↦ inr (rw e h)
    | inr a ↦ inr (Advance-IsPassable (stage rows id v) (stage rows' id v) a h)
  ]

  pub All-IsHonoured_on :
      (rows rows' : Rows)
      → Forward gate rows rows'
      → (ts : List Ticket) → All (IsHonoured rows) ts
      → All (IsHonoured rows') ts
  All-IsHonoured_on rows rows' f [] h = tt
  All-IsHonoured_on rows rows' f (t ∷ ts) h =
      (IsHonoured-on rows rows' f t h.0, All-IsHonoured_on rows rows' f ts h.1)

  same_ticket_sound : (t u : Ticket) → same_ticket t u ≡ true → t ≡ u
  same_ticket_sound (may_validate id v) (may_validate id' v') h =
      (let e : v ≡ v' = eq_of_parts v v' (ground arith) in ground arith)
  same_ticket_sound (may_pass id v) (may_pass id' v') h =
      (let e : v ≡ v' = eq_of_parts v v' (ground arith) in ground arith)
  same_ticket_sound (may_validate id v) (may_pass id' v') h = absurd cc
  same_ticket_sound (may_pass id v) (may_validate id' v') h = absurd cc

  pub held-IsHonoured :
      (rows : Rows) (t : Ticket) (ts : List Ticket)
      → All (IsHonoured rows) ts
      → has_ticket t ts ≡ true
      → IsHonoured rows t
  held-IsHonoured rows t [] h k = absurd cc
  held-IsHonoured rows t (u ∷ ts) h k = elim (Bool-cases (same_ticket t u)) [
    | inl e ↦ rw (same_ticket_sound t u e) h.0
    | inr e ↦ held-IsHonoured rows t ts h.1 (ground arith)
  ]

  judged : (r : Row) → is_ok (at_validation (validate r.spec)) ≡ true → validate r.spec ≡ ok tt
  judged r h = elim (Result-cases (validate r.spec)) [ inl (u, e) ↦ e | inr (x, e) ↦ absurd cc ]

  is_pass-passed : (d : Verdict) → is_pass (ok d) ≡ true → (detail : Text) × (d ≡ passed detail)
  is_pass-passed (passed detail) h = (detail, refl)
  is_pass-passed (failed detail) h = absurd cc
  is_pass-passed errored h = absurd cc

  draft-IsValidatable :
      (s : Status) (r : Row)
      → is_ok (
          if same_status s draft
          then at_validation (validate r.spec)
          else err (wrong_status s draft))
        ≡ true
      → IsValidatable (stage_at s r)
  draft-IsValidatable draft r h = judged r h
  draft-IsValidatable _ r h = absurd cc

  pub check_draft-IsHonoured :
      (rows : Rows) (id : ℕ) (v : ℤ)
      → is_ok (check_draft rows id v) ≡ true
      → IsHonoured rows (may_validate id v)
  unfolding check_draft check_draft_row plan_spec stage
  check_draft-IsHonoured rows id v h = elim (Bool-cases (ltb_ℤ (pos 0) v)) [
    | inr e ↦ inl (ground arith)
    | inl e ↦ elim (Option-cases (find_row rows id v)) [
      | inl n ↦ absurd cc
      | inr (r, k) ↦ inr (rw k (draft-IsValidatable r.status r cc))
    ]
  ]

  validated-IsPassable :
      (s : Status) (r : Row)
      → is_pass
          (if same_status s validated then ok (gate r.spec) else err (wrong_status s validated))
        ≡ true
      → IsPassable (stage_at s r)
  validated-IsPassable validated r h = is_pass-passed (gate r.spec) h
  validated-IsPassable _ r h = absurd cc

  pub gate_verdict-IsHonoured :
      (rows : Rows) (id : ℕ) (v : ℤ)
      → is_pass (gate_verdict gate rows id v) ≡ true
      → IsHonoured rows (may_pass id v)
  unfolding gate_verdict plan_spec stage
  gate_verdict-IsHonoured rows id v h = elim (Bool-cases (ltb_ℤ (pos 0) v)) [
    | inr e ↦ inl (ground arith)
    | inl e ↦ elim (Option-cases (find_row rows id v)) [
      | inl n ↦ absurd cc
      | inr (r, k) ↦ inr (rw k (validated-IsPassable r.status r cc))
    ]
  ]

  stage_found :
      (rows : Rows) (id : ℕ) (v : ℤ) (r : Row) (s : Status)
      → find_row rows id v ≡ some r
      → r.status ≡ s
      → stage rows id v ≡ stage_at s r
  unfolding stage
  stage_found rows id v r s e k = ap stage_of e ∙ ap (λ q. stage_at q r) k

  no_old_version :
      {A : Type 0} (rows : Rows) (id : ℕ) (v : ℤ) (r : Row)
      → All IsPlaced rows
      → find_row rows id v ≡ some r
      → v ≤ℤ pos 0
      → A
  no_old_version rows id v r s e h =
      let f : IsPlaced r × (is_at id v r ≡ true) = All-find IsPlaced rows id v r s e in
      absurd (ground (arith, f.0.0, f.1))

  pub judged_draft :
      (rows : Rows) (id : ℕ) (v : ℤ) (r : Row)
      → All IsPlaced rows
      → IsHonoured rows (may_validate id v)
      → find_row rows id v ≡ some r
      → r.status ≡ draft
      → validate r.spec ≡ ok tt
  judged_draft rows id v r s (inl old) e k = no_old_version rows id v r s e old
  judged_draft rows id v r s (inr now) e k =
      subst IsValidatable (stage_found rows id v r draft e k) now

  pub judged_validated :
      (rows : Rows) (id : ℕ) (v : ℤ) (r : Row)
      → All IsPlaced rows
      → IsHonoured rows (may_pass id v)
      → find_row rows id v ≡ some r
      → r.status ≡ validated
      → (detail : Text) × (gate r.spec ≡ passed detail)
  judged_validated rows id v r s (inl old) e k = no_old_version rows id v r s e old
  judged_validated rows id v r s (inr now) e k =
      subst IsPassable (stage_found rows id v r validated e k) now
