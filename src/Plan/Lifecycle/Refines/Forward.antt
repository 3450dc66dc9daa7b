-- ===== src/Plan/Lifecycle/Refines/Forward.antt =====
-- A unit of work moves the stage of no version, or of one.
use nexus_agent_demo.Prelude.{
  ℕ, ◌≡◌, refl, sym, ap, ◌⊎◌, inl, inr, ◌≢◌, true, none, some, [], ◌∷◌, if◌then◌else◌, ◌==◌, arith,
  All, Bool-cases, Option-cases,
}
use nexus_agent_demo.Prelude.Int.{ℤ, pos, ◌<ℤ◌, ◌+ℤ◌, +ℤ_parts}
use nexus_agent_demo.Prelude.Text.{Text}
use nexus_agent_demo.Prelude.Result.{ok}
use nexus_agent_demo.Plan.Schema.{Plan}
use nexus_agent_demo.Plan.Lifecycle.{
  Row, Rows, Status, Verdict, create, enable, enabled, eval_passed, find_row, insert_plan,
  latest_row, new_row, new_version, next_version, retire_row, pin, plan_spec, retire, retired,
  same_status, sign_off, signed_off, transition, update_row,
}
use nexus_agent_demo.Plan.Lifecycle.Rows.{
  All-latest, All-update, KeepsKey, Moved, find_row-update_other, find_row-update_same, same_key,
  same_key_sound, transition-Moved,
}
use nexus_agent_demo.Plan.Lifecycle.Refines.{
  Advance, drafted, enables, retires, signs, stage, stage_at, stage_of,
}

-- A stored version is positive, and its plan says the same version.
abbrev pub IsPlaced : Row → Type 0
IsPlaced r = (pos 0 <ℤ r.version) × (r.spec.version ≡ r.version)

pub same_status_sound : (s t : Status) → same_status s t ≡ true → s ≡ t
same_status_sound s t h = ground arith

module _ (gate : Plan → Verdict) where
  abbrev pub Forward : Rows → Rows → Type 0
  Forward rows rows' =
      (id : ℕ) (v : ℤ)
      → (stage rows' id v ≡ stage rows id v) ⊎ Advance gate (stage rows id v) (stage rows' id v)

  update-Forward :
      (f : Row → Row)
      → KeepsKey f
      → (rows : Rows) (id : ℕ) (v : ℤ) (r : Row) → find_row rows id v ≡ some r
      → Advance gate (stage_at r.status r) (stage_at (f r).status (f r))
      → Forward rows (update_row f rows id v)
  unfolding stage
  update-Forward f k rows id v r e a id' v' = elim (Bool-cases (same_key id v id' v')) [
    | inl same ↦
        (let q = same_key_sound id v id' v' same in
          rw (sym q.0, sym q.1, find_row-update_same f k rows id v, e) (inr a))
    | inr other ↦ inl (ap stage_of (find_row-update_other f k rows id v id' v' other))
  ]

  insert_none :
      (rows : Rows) (p : Plan) (by : Text)
      → find_row rows p.plan_id p.version ≡ none
      → Forward rows (new_row p by ∷ rows)
  unfolding stage find_row
  insert_none rows p by e id' v' = elim (Bool-cases (same_key p.plan_id p.version id' v')) [
    | inl same ↦
        (let q = same_key_sound p.plan_id p.version id' v' same in
          rw (same, sym q.0, sym q.1, e) (inr (drafted p)))
    | inr other ↦ rw other (inl refl)
  ]

  insert-Forward :
      (rows : Rows) (p : Plan) (by : Text) (rows' : Rows)
      → insert_plan rows p by ≡ ok rows'
      → IsPlaced (new_row p by)
      → All IsPlaced rows
      → Forward rows rows' × All IsPlaced rows'
  unfolding insert_plan
  insert-Forward rows p by rows' h n a = elim (Option-cases (find_row rows p.plan_id p.version)) [
    | inl e ↦
        (let q : new_row p by ∷ rows ≡ rows' = cc in rw (sym q) (insert_none rows p by e, (n, a)))
    | inr (r, e) ↦ absurd cc
  ]

  -- What a unit of work keeps.
  abbrev pub Keeps : Rows → Rows → Type 0
  Keeps rows rows' = Forward rows rows' × All IsPlaced rows'

  pub transition-Keeps :
      (rows : Rows) (id : ℕ) (v : ℤ) (from to : Status) (change : Row → Row) (rows' : Rows)
      → KeepsKey change
      → ((r : Row) → (change r).spec.version ≡ r.spec.version)
      → ((r : Row)
          → find_row rows id v ≡ some r
          → r.status ≡ from
          → Advance gate (stage_at from r) (stage_at to (record (change r) { status = to })))
      → All IsPlaced rows
      → transition rows id v from to change ≡ ok rows'
      → Keeps rows rows'
  transition-Keeps rows id v from to change rows' k s a placed h =
      let place : (r : Row) → IsPlaced r → IsPlaced (record (change r) { status = to }) =
        λ r q. rw ((k r).1, s r) q in
      let m : Moved rows id v from to change rows' =
        transition-Moved rows id v from to change rows' h in
      rw m.after (
        update-Forward (λ r. record (change r) { status = to }) (λ r. k r) rows id v m.row m.there
            (rw (same_status_sound m.row.status from m.was)
              (a m.row m.there (same_status_sound m.row.status from m.was))),
        All-update IsPlaced (λ r. record (change r) { status = to }) (λ r q. place r q) rows id v
            placed,
      )

  no_signer : (c : ℕ) (by : Text) → (c ∷ by) ≢ []
  no_signer c by e = absurd cc

  pub sign_off-Keeps :
      (rows : Rows) (id : ℕ) (v : ℤ) (by : Text) (rows' : Rows)
      → All IsPlaced rows
      → sign_off rows id v by ≡ ok rows'
      → Keeps rows rows'
  unfolding sign_off
  sign_off-Keeps rows id v [] rows' placed h = absurd cc
  sign_off-Keeps rows id v (c ∷ by) rows' placed h =
      transition-Keeps rows id v eval_passed signed_off
        (λ r. record r { signed_off_by = some (c ∷ by) }) rows' (λ r. (refl, refl)) (λ r. refl)
        (λ r e k. signs r.spec (c ∷ by) (no_signer c by)) placed h

  pub enable-Keeps :
      (rows : Rows) (id : ℕ) (v agent : ℤ) (model : Text) (rows' : Rows)
      → All IsPlaced rows
      → enable rows id v agent model ≡ ok rows'
      → Keeps rows rows'
  unfolding enable
  enable-Keeps rows id v agent model rows' placed h =
      transition-Keeps rows id v signed_off enabled
        (λ r. record r { spec = pin agent model r.spec; pins = some (agent, model) }) rows'
        (λ r. (refl, refl)) (λ r. refl) (λ r e k. enables r.spec r.signed_off_by agent model) placed
        h

  pub retire-Keeps :
      (rows : Rows) (id : ℕ) (v : ℤ) (rows' : Rows)
      → All IsPlaced rows
      → retire rows id v ≡ ok rows'
      → Keeps rows rows'
  unfolding retire retire_row
  retire-Keeps rows id v rows' placed h = elim (Option-cases (find_row rows id v)) [
    | inl e ↦ absurd (ground arith)
    | inr (r, e) ↦
        (let q : rows' ≡ update_row (λ s. record s { status = retired }) rows id v = ground arith in
          rw q (
            update-Forward (λ s. record s { status = retired }) (λ s. (refl, refl)) rows id v r e
                (rw (same_status_sound r.status enabled (ground arith))
                  (retires r.spec r.signed_off_by r.pins)),
            All-update IsPlaced (λ s. record s { status = retired }) (λ s k. k) rows id v placed,
          ))
  ]

  pub create-Keeps :
      (rows : Rows) (tenant fresh : ℕ) (p : Plan) (by : Text) (rows' : Rows)
      → All IsPlaced rows
      → create rows tenant fresh p by ≡ ok rows'
      → Keeps rows rows'
  unfolding create
  create-Keeps rows tenant fresh p by rows' placed h =
      insert-Forward rows
        (record p {
          plan_id = if p.plan_id == 0 then fresh else p.plan_id;
          tenant_id = tenant;
          version = pos 1;
        })
        by rows' h (omega arith, refl) placed

  pub new_version-Keeps :
      (rows : Rows) (tenant id : ℕ) (p : Plan) (by : Text) (rows' : Rows)
      → All IsPlaced rows
      → new_version rows tenant id p by ≡ ok rows'
      → Keeps rows rows'
  unfolding new_version plan_spec next_version
  new_version-Keeps rows tenant id p by rows' placed h = elim (Option-cases (latest_row rows id)) [
    | inl e ↦ absurd cc
    | inr (r, e) ↦
        (let l : IsPlaced r = All-latest IsPlaced rows id r placed e in
          insert-Forward rows
            (record p { plan_id = id; tenant_id = tenant; version = r.spec.version +ℤ pos 1 }) by
            rows' (cc) (rw l.1 (omega (arith, +ℤ_parts r.version (pos 1), l.0)), refl) placed)
  ]
