-- ===== src/Plan/Validate/Reachability.antt =====
-- The check that every declared step is reached.
use nexus_agent_demo.Prelude.{
  ◌≡◌, refl, sym, ap, ◌∙◌, ◌↔◌, inl, inr, true, List, [], ◌∷◌, Bool-cases, All,
}
use nexus_agent_demo.Prelude.Text.{Text}
use nexus_agent_demo.Prelude.Result.{ok}
use nexus_agent_demo.Plan.Schema.{Plan, Step}
use nexus_agent_demo.Plan.Graph.{mem}
use nexus_agent_demo.Plan.Graph.Reach.{Reaches, search_graph-Reaches}
use nexus_agent_demo.Plan.Validate.{check_found, report_unvisited, unvisited, validate_reachability}

unvisited_sound :
    (vs : List Text) (seen : List Step)
    → unvisited vs seen ≡ []
    → All (λ (s : Step). mem s.id vs ≡ true) seen
unfolding unvisited
unvisited_sound vs [] h = tt
unvisited_sound vs (s ∷ seen) h = elim (Bool-cases (mem s.id vs)) [
  | inl m ↦ (m, unvisited_sound vs seen cc)
  | inr m ↦ absurd cc
]

unvisited_complete :
    (vs : List Text) (seen : List Step)
    → All (λ (s : Step). mem s.id vs ≡ true) seen
    → unvisited vs seen ≡ []
unfolding unvisited
unvisited_complete vs [] h = refl
unvisited_complete vs (s ∷ seen) h = rw (h.0) (unvisited_complete vs seen h.1)

All-map {ℓ} :
    {A : Type ℓ} (P Q : A → Type 0) → ((a : A) → P a → Q a) → (xs : List A) → All P xs → All Q xs
All-map P Q f [] h = tt
All-map P Q f (x ∷ xs) h = (f x h.0, All-map P Q f xs h.1)

report_unvisited-ok : (ids : List Text) → (report_unvisited ids ≡ ok tt) ↔ (ids ≡ [])
report_unvisited-ok [] = (λ h. refl, λ h. refl)
report_unvisited-ok (id ∷ ids) = (λ h. absurd cc, λ h. absurd cc)

-- The check passes exactly where a path of transitions leads from the start step to each step that
-- is declared; the search ends within its rounds at every graph.
pub validate_reachability-Reaches :
    (p : Plan) (seen : List Step)
    → (validate_reachability p seen ≡ ok tt)
      ↔ All (λ (s : Step). Reaches seen p.start_step s.id) seen
unfolding validate_reachability
validate_reachability-Reaches p seen =
    let e = search_graph-Reaches seen p.start_step in
    (
      λ h.
          All-map (λ (s : Step). mem s.id e.0 ≡ true) (λ (s : Step). Reaches seen p.start_step s.id)
            (λ s. (e.2 s.id).0) seen
            (unvisited_sound e.0 seen
              ((report_unvisited-ok (unvisited e.0 seen)).0 (ap (check_found seen) (sym e.1) ∙ h))),
      λ h.
          ap (check_found seen) e.1
          ∙ (report_unvisited-ok (unvisited e.0 seen)).1 (
              unvisited_complete e.0 seen (
                All-map (λ (s : Step). Reaches seen p.start_step s.id)
                  (λ (s : Step). mem s.id e.0 ≡ true) (λ s. (e.2 s.id).1) seen h)),
    )
