-- ===== src/Plan/Run/Budget.antt =====
-- How many more times a run may enter the loop steps of its plan.
use nexus_agent_demo.Prelude.{
  ℕ, suc, ◌+◌, ◌-◌, ◌≤◌, ◌<◌, ◌≡◌, sym, subst, inl, inr, Bool, true, false, Option, some, List, [],
  ◌∷◌, arith, Bool-cases,
}
use nexus_agent_demo.Prelude.Int.{pos_part}
use nexus_agent_demo.Prelude.Text.{Text, text_eq, text_eq_refl}
use nexus_agent_demo.Prelude.Result.{ok}
use nexus_agent_demo.Plan.Schema.{LoopConfig, Step, StepKind, find_step, step_loop}
use nexus_agent_demo.Plan.Replay.{count_entry}
use nexus_agent_demo.Plan.Run.{check_bound}

-- What is left of a loop's bound after `n` entries.
abbrev pub left_of : StepKind → Option LoopConfig → ℕ → ℕ
left_of step_loop (some c) n = pos_part c.max_iterations - n
left_of _ _ n = 0

unfoldable pub budget : List Step → (Text → ℕ) → ℕ
budget [] iterations = 0
budget (s ∷ steps) iterations = left_of s.kind s.loop (iterations s.id) + budget steps iterations

abbrev pub is_loop : StepKind → Bool
is_loop step_loop = true
is_loop _ = false

left_of-le : (k : StepKind) (c : Option LoopConfig) (n : ℕ) → left_of k c (suc n) ≤ left_of k c n
left_of-le k c n = ground arith

left_of-lt :
    (k : StepKind) (c : Option LoopConfig) (id : Text) (n : ℕ)
    → is_loop k ≡ true
    → check_bound k c id n ≡ ok tt
    → left_of k c (suc n) < left_of k c n
left_of-lt k c id n h b = ground arith

pub budget-count_entry-le :
    (id : Text) (steps : List Step) (iterations : Text → ℕ)
    → budget steps (count_entry id iterations) ≤ budget steps iterations
unfolding budget count_entry
budget-count_entry-le id [] iterations = omega arith
budget-count_entry-le id (s ∷ steps) iterations =
    ground
      (arith, left_of-le s.kind s.loop (iterations s.id), budget-count_entry-le id steps iterations)

head_le :
    (id : Text) (s : Step) (iterations : Text → ℕ)
    → left_of s.kind s.loop (count_entry id iterations s.id)
      ≤ left_of s.kind s.loop (iterations s.id)
unfolding count_entry
head_le id s iterations = ground (arith, left_of-le s.kind s.loop (iterations s.id))

head_lt :
    (s : Step) (iterations : Text → ℕ)
    → is_loop s.kind ≡ true
    → check_bound s.kind s.loop s.id (iterations s.id) ≡ ok tt
    → left_of s.kind s.loop (count_entry s.id iterations s.id)
      < left_of s.kind s.loop (iterations s.id)
unfolding count_entry
head_lt s iterations h b =
    rw (text_eq_refl s.id) (left_of-lt s.kind s.loop s.id (iterations s.id) h b)

pub budget-count_entry-lt :
    (id : Text) (steps : List Step) (iterations : Text → ℕ) (step : Step)
    → find_step steps id ≡ some step
    → is_loop step.kind ≡ true
    → check_bound step.kind step.loop step.id (iterations step.id) ≡ ok tt
    → budget steps (count_entry step.id iterations) < budget steps iterations
unfolding budget find_step
budget-count_entry-lt id [] iterations step e h b = absurd cc
budget-count_entry-lt id (s ∷ steps) iterations step e h b = elim (Bool-cases (text_eq s.id id)) [
  | inl same ↦
      (let q : step ≡ s = cc in
        subst
          (λ (x : Step).
            is_loop x.kind ≡ true
            → check_bound x.kind x.loop x.id (iterations x.id) ≡ ok tt
            → budget (s ∷ steps) (count_entry x.id iterations) < budget (s ∷ steps) iterations)
          (sym q)
          (λ h' b'.
            omega (arith, head_lt s iterations h' b', budget-count_entry-le s.id steps iterations))
          h b)
  | inr other ↦
      omega (
        arith,
        head_le step.id s iterations,
        budget-count_entry-lt id steps iterations step (cc) h b,
      )
]
