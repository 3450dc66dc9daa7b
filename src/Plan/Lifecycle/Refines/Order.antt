-- ===== src/Plan/Lifecycle/Refines/Order.antt =====
-- Any sequence of units of work carries a version through the stages in their order.
use nexus_agent_demo.Prelude.{
  ℕ, ◌≡◌, refl, ◌⊎◌, inl, inr, Bool, true, false, List, [], ◌∷◌, if◌then◌else◌, All, Bool-cases,
}
use nexus_agent_demo.Prelude.Int.{ℤ}
use nexus_agent_demo.Prelude.Result.{Result, ok, err}
use nexus_agent_demo.Plan.Schema.{Plan}
use nexus_agent_demo.Plan.Lifecycle.{
  LifecycleError, create, new_version, enable, sign_off, retire, Rows, Verdict, check_draft, draft,
  eval_passed, gate_verdict, mark_passed, mark_validated, transition, validated,
}
use nexus_agent_demo.Plan.Lifecycle.Refines.{
  Action, Advance, Advances, Stage, Ticket, World, act, act_all, asks_gate, adds_version,
  checks_draft, commit, creates, enables_version, hand_out, has_ticket, is_absent, is_ok, is_pass,
  marks_passed, marks_validated, may_pass, may_validate, no_rows, none_yet, passes, retires_version,
  signs_off, stage, then_one, validates,
}
use nexus_agent_demo.Plan.Lifecycle.Refines.Forward.{
  Forward, IsPlaced, Keeps, create-Keeps, enable-Keeps, new_version-Keeps, retire-Keeps,
  sign_off-Keeps, transition-Keeps,
}
use nexus_agent_demo.Plan.Lifecycle.Refines.Tickets.{
  IsHonoured, All-IsHonoured_on, held-IsHonoured, check_draft-IsHonoured, gate_verdict-IsHonoured,
  judged_draft, judged_validated,
}

module _ (gate : Plan → Verdict) where
  abbrev IsSound : World → Type 0
  IsSound w = All IsPlaced w.rows × All (IsHonoured gate w.rows) w.tickets

  -- What an action does to the stages, and that the world stays sound.
  abbrev IsFine : World → World → Type 0
  IsFine w w' = Forward gate w.rows w'.rows × IsSound w'

  still : (w : World) → IsSound w → IsFine w w
  still w s = (λ id v. inl refl, s)

  commit-IsFine :
      (w : World) (res : Result LifecycleError Rows)
      → IsSound w
      → ((rows' : Rows) → res ≡ ok rows' → Keeps gate w.rows rows')
      → IsFine w (commit w res)
  commit-IsFine w (err e) s k = still w s
  commit-IsFine w (ok rows') s k =
      let q : Keeps gate w.rows rows' = k rows' refl in
      (q.0, (q.1, All-IsHonoured_on gate w.rows rows' q.0 w.tickets s.1))

  hand_out-IsFine :
      (w : World) (t : Ticket) (b : Bool)
      → IsSound w
      → (b ≡ true → IsHonoured gate w.rows t)
      → IsFine w (hand_out w t b)
  hand_out-IsFine w t true s h = (λ id v. inl refl, (s.0, (h refl, s.1)))
  hand_out-IsFine w t false s h = still w s

  mark_validated-Keeps :
      (rows : Rows) (id : ℕ) (v : ℤ) (rows' : Rows)
      → All IsPlaced rows
      → IsHonoured gate rows (may_validate id v)
      → mark_validated rows id v ≡ ok rows'
      → Keeps gate rows rows'
  unfolding mark_validated transition
  mark_validated-Keeps rows id v rows' s t h =
      transition-Keeps gate rows id v draft validated (λ r. r) rows' (λ r. (refl, refl)) (λ r. refl)
        (λ r e k. validates r.spec (judged_draft gate rows id v r s t e k)) s h

  mark_passed-Keeps :
      (rows : Rows) (id : ℕ) (v : ℤ) (rows' : Rows)
      → All IsPlaced rows
      → IsHonoured gate rows (may_pass id v)
      → mark_passed rows id v ≡ ok rows'
      → Keeps gate rows rows'
  unfolding mark_passed transition
  mark_passed-Keeps rows id v rows' s t h =
      transition-Keeps gate rows id v validated eval_passed (λ r. r) rows' (λ r. (refl, refl))
        (λ r. refl)
        (λ r e k. let j = judged_validated gate rows id v r s t e k in passes r.spec j.0 j.1) s h

  marks-IsFine :
      (w : World) (t : Ticket) (res : Result LifecycleError Rows)
      → IsSound w
      → (IsHonoured gate w.rows t → (rows' : Rows) → res ≡ ok rows' → Keeps gate w.rows rows')
      → IsFine w (if has_ticket t w.tickets then commit w res else w)
  marks-IsFine w t res s k = elim (Bool-cases (has_ticket t w.tickets)) [
    | inl e ↦ rw e (commit-IsFine w res s (k (held-IsHonoured gate w.rows t w.tickets s.1 e)))
    | inr e ↦ rw e (still w s)
  ]

  act-IsFine : (w : World) (a : Action) → IsSound w → IsFine w (act gate w a)
  unfolding act
  act-IsFine w (creates tenant fresh p by) s =
      commit-IsFine w (create w.rows tenant fresh p by) s
        λ rows' h. create-Keeps gate w.rows tenant fresh p by rows' s.0 h
  act-IsFine w (adds_version tenant id p by) s =
      commit-IsFine w (new_version w.rows tenant id p by) s
        λ rows' h. new_version-Keeps gate w.rows tenant id p by rows' s.0 h
  act-IsFine w (checks_draft id v) s =
      hand_out-IsFine w (may_validate id v) (is_ok (check_draft w.rows id v)) s
        (check_draft-IsHonoured gate w.rows id v)
  act-IsFine w (marks_validated id v) s =
      marks-IsFine w (may_validate id v) (mark_validated w.rows id v) s
        λ t rows' h. mark_validated-Keeps w.rows id v rows' s.0 t h
  act-IsFine w (asks_gate id v) s =
      hand_out-IsFine w (may_pass id v) (is_pass (gate_verdict gate w.rows id v)) s
        (gate_verdict-IsHonoured gate w.rows id v)
  act-IsFine w (marks_passed id v) s =
      marks-IsFine w (may_pass id v) (mark_passed w.rows id v) s
        λ t rows' h. mark_passed-Keeps w.rows id v rows' s.0 t h
  act-IsFine w (signs_off id v by) s =
      commit-IsFine w (sign_off w.rows id v by) s
        λ rows' h. sign_off-Keeps gate w.rows id v by rows' s.0 h
  act-IsFine w (enables_version id v agent model) s =
      commit-IsFine w (enable w.rows id v agent model) s
        λ rows' h. enable-Keeps gate w.rows id v agent model rows' s.0 h
  act-IsFine w (retires_version id v) s =
      commit-IsFine w (retire w.rows id v) s λ rows' h. retire-Keeps gate w.rows id v rows' s.0 h

  Advance-on : (s t u : Stage) → Advances gate s t → (u ≡ t) ⊎ Advance gate t u → Advances gate s u
  Advance-on s t u p (inl e) = rw e p
  Advance-on s t u p (inr a) = then_one p a

  act_all-Advances :
      (s : Stage) (w : World) (actions : List Action) (id : ℕ) (v : ℤ)
      → IsSound w
      → Advances gate s (stage w.rows id v)
      → Advances gate s (stage (act_all gate w actions).rows id v)
  unfolding act_all
  act_all-Advances s w [] id v sound p = p
  act_all-Advances s w (a ∷ actions) id v sound p =
      let f : IsFine w (act gate w a) = act-IsFine w a sound in
      act_all-Advances s (act gate w a) actions id v f.1
        (Advance-on s (stage w.rows id v) (stage (act gate w a).rows id v) p (f.0 id v))

  -- Whatever the order in which callers' units of work reach the rows, from an empty table on, and
  -- whatever else was done between a judgement and the move that it allows: each version has come to
  -- its stage by the moves of the life cycle alone. So an enabled version is a plan that passed
  -- Validate, then the gate, then was signed off by a named signer, with only the two pins set since.
  pub act_all-refines :
      (actions : List Action) (id : ℕ) (v : ℤ)
      → Advances gate is_absent (stage (act_all gate no_rows actions).rows id v)
  unfolding stage
  act_all-refines actions id v = act_all-Advances is_absent no_rows actions id v (tt, tt) none_yet
