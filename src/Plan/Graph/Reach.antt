-- ===== src/Plan/Graph/Reach.antt =====
-- The search visits the names that transitions reach from the start, and ends.
use nexus_agent_demo.Prelude.{
  ℕ, zero, suc, ◌≤◌, ◌≡◌, refl, ◌↔◌, ◌⊎◌, inl, inr, true, List, [], ◌∷◌, arith, length, All,
}
use nexus_agent_demo.Prelude.Text.{Text, text_eq_sound}
use nexus_agent_demo.Plan.Schema.{Step, find_step}
use nexus_agent_demo.Plan.Graph.{
  Search, found, mem, scan, ids_of, targets, all_targets, search_queue, search_graph,
}
use nexus_agent_demo.Plan.Graph.Scan.{
  Grows, fresh, remaining, mem-append, mem_head, scan-Grows, scan-remaining,
}

-- A path of transitions from `a`.
pub data Reaches (seen : List Step) (a : Text) : Text → Type 0 where
  here : Reaches seen a a
  next : {b c : Text} → Reaches seen a b → mem c (targets seen b) ≡ true → Reaches seen a c

target-all :
    (seen : List Step) (id x : Text)
    → mem x (targets seen id) ≡ true
    → mem x (all_targets seen) ≡ true
unfolding targets all_targets find_step mem
target-all [] id x h = absurd cc
target-all (s ∷ seen) id x h =
    ground (arith, mem-append x (ids_of s.transitions) (all_targets seen), target-all seen id x)

All-of :
    (ts us : List Text)
    → ((x : Text) → mem x ts ≡ true → mem x us ≡ true)
    → All (λ t. mem t us ≡ true) ts
unfolding mem
All-of [] us h = tt
All-of (t ∷ ts) us h = (h t (mem_head t ts), All-of ts us λ x k. h x (ground (arith)))

-- Between two rounds of the search.
record Searching (seen : List Step) (start : Text) (visited queue : List Text) : Type 0 where
  starts : mem start visited ≡ true
  sound : (x : Text) → mem x visited ≡ true → Reaches seen start x
  queued : (x : Text) → mem x queue ≡ true → mem x visited ≡ true
  closed :
      (x y : Text)
      → mem x visited ≡ true
      → mem y (targets seen x) ≡ true
      → (mem x queue ≡ true) ⊎ (mem y visited ≡ true)

module _ (seen : List Step) (start : Text) where
  round :
      (visited queue : List Text) (id : Text) (s' : Search)
      → Grows (record { visited = visited; queue = queue }) (targets seen id) s'
      → Searching seen start visited (id ∷ queue)
      → Searching seen start s'.visited s'.queue
  unfolding mem
  round visited queue id s' g inv = record {
    starts = g.keeps start inv.starts;
    sound = λ x h. elim (g.only x h) [
      | inl old ↦ inv.sound x old
      | inr m ↦ next (inv.sound id (inv.queued id (mem_head id queue))) m
    ];
    queued = λ x h. ground (arith, g.from_queue x h, g.keeps x, inv.queued x);
    closed = λ x y hx hy. elim (g.queues x hx) [
      | inr q ↦ inl q
      | inl old ↦
          ground (
            arith,
            inv.closed x y old hy,
            g.keeps y,
            g.keeps_queue x,
            g.visits y,
            text_eq_sound x id,
          )
    ];
  }

  search_queue-ends :
      (fuel : ℕ) (visited queue : List Text)
      → remaining (all_targets seen) (record { visited = visited; queue = queue }) ≤ fuel
      → Searching seen start visited queue
      → (vs : List Text) × (search_queue seen fuel visited queue ≡ found vs)
        × Searching seen start vs []
  unfolding search_queue
  search_queue-ends fuel visited [] h inv = (visited, refl, inv)
  search_queue-ends zero visited (id ∷ queue) h inv = absurd (omega arith)
  search_queue-ends (suc fuel) visited (id ∷ queue) h inv =
      let s : Search = record { visited = visited; queue = queue } in
      search_queue-ends fuel (scan s (targets seen id)).visited (scan s (targets seen id)).queue
        (omega (
          arith,
          scan-remaining (all_targets seen) s (targets seen id)
              (All-of (targets seen id) (all_targets seen) (target-all seen id)),
        ))
        (round visited queue id (scan s (targets seen id)) (scan-Grows s (targets seen id)) inv)

  Reaches-mem :
      (vs : List Text)
      → Searching seen start vs []
      → (x : Text) → Reaches seen start x
      → mem x vs ≡ true
  unfolding mem
  Reaches-mem vs inv x here = inv.starts
  Reaches-mem vs inv x (next {b} r m) = ground (arith, inv.closed b x (Reaches-mem vs inv b r) m)

  fresh_le : (vs us : List Text) → fresh vs us ≤ length us
  unfolding fresh
  fresh_le vs [] = omega arith
  fresh_le vs (u ∷ us) = ground (arith, fresh_le vs us)

  begin : Searching seen start (start ∷ []) (start ∷ [])
  unfolding mem
  begin = record {
    starts = mem_head start [];
    sound = λ x h. rw (text_eq_sound x start (ground arith)) here;
    queued = λ x h. h;
    closed = λ x y hx hy. inl hx;
  }

  -- The search ends within its rounds, with the names that are reached.
  pub search_graph-Reaches :
      (vs : List Text) × (search_graph seen start ≡ found vs)
      × ((x : Text) → (mem x vs ≡ true) ↔ Reaches seen start x)
  unfolding search_graph
  search_graph-Reaches =
      let e =
        search_queue-ends (suc (length (all_targets seen))) (start ∷ []) (start ∷ [])
          (omega (arith, fresh_le (start ∷ []) (all_targets seen))) begin in
      (e.0, e.1, λ x. (e.2.sound x, Reaches-mem e.0 e.2 x))
