-- ===== src/Cost/Counters/Within.antt =====
-- The tenants' counters under any sequence of the operations: no spend passes its ceiling.
use nexus_agent_demo.Prelude.{
  ℕ, ◌^◌, ◌≡◌, refl, inl, inr, Bool, true, false, Option, none, some, ◌==◌, arith, Bool-cases,
  if◌then◌else◌,
}
use nexus_agent_demo.Prelude.Int.{ℤ, pos, ◌+ℤ◌, ◌-ℤ◌, ◌≤ℤ◌, ◌<ℤ◌, +ℤ_parts, -ℤ_parts, ltb_ℤ}
use nexus_agent_demo.Cost.Money.{int64, int64_id, in_range, InRange}
use nexus_agent_demo.Cost.Counters.{
  Counter, Counters, counter_reserve, counter_release, arm, flush, fail_with, put, reserve_in,
  release_in, arm_in,
}

-- Every counter is between 0 and the ceiling of its budget.
abbrev pub Within : (ceilings : ℕ → ℤ) → Counters → Type 0
Within ceilings c =
    (b : ℕ) (k : Counter) → c.budgets b ≡ some k → (pos 0 ≤ℤ k.spend) × (k.spend ≤ℤ ceilings b)

-- An amount that is not negative and at most half of what int64 holds.
abbrev pub Moderate : ℤ → Type 0
Moderate z = (pos 0 ≤ℤ z) × (z <ℤ pos (2 ^ 62))

-- The operations as their callers use them: amounts reserved are moderate, a release is of at most
-- what is spent, a budget is armed within its ceiling. FailWith makes those after it fail, or work again.
pub data Step (ceilings : ℕ → ℤ) : Counters → Counters → Type 0 where
  reserved :
      (c : Counters) (b epoch : ℕ) (amount : ℤ)
      → Moderate amount
      → Step ceilings c (counter_reserve c b epoch amount (ceilings b)).0
  given_back :
      (c : Counters) (b epoch : ℕ) (delta : ℤ)
      → pos 0 ≤ℤ delta
      → ((k : Counter) → c.budgets b ≡ some k → delta ≤ℤ k.spend)
      → Step ceilings c (counter_release c b epoch delta).0
  armed :
      (c : Counters) (b epoch : ℕ) (baseline : ℤ)
      → pos 0 ≤ℤ baseline
      → baseline ≤ℤ ceilings b
      → Step ceilings c (arm c b epoch baseline).0
  flushed : (c : Counters) → Step ceilings c (flush c)
  failed : (c : Counters) (failing : Bool) → Step ceilings c (fail_with c failing)

pub data Steps (ceilings : ℕ → ℤ) : Counters → Counters → Type 0 where
  done : (c : Counters) → Steps ceilings c c
  more : {c c' c'' : Counters} → Steps ceilings c c' → Step ceilings c' c'' → Steps ceilings c c''

put-Within :
    (ceilings : ℕ → ℤ) (c : Counters) (b : ℕ) (k : Counter)
    → Within ceilings c
    → pos 0 ≤ℤ k.spend
    → k.spend ≤ℤ ceilings b
    → Within ceilings (record c { budgets = put c.budgets b k })
put-Within ceilings c b k w low high b' k' e = elim (Bool-cases (b' == b)) [
  | inl h ↦
      let e' : k ≡ k' = cc (rw h at e) in
      let b_same : b' ≡ b = ground arith in rw (← e', b_same) (low, high)
  | inr h ↦ w b' k' (rw h at e)
]

sum_in_range : (s a : ℤ) → Moderate a → pos 0 ≤ℤ s → s <ℤ pos (2 ^ 62) → int64 (s +ℤ a) ≡ s +ℤ a
sum_in_range s a m l h =
    int64_id (s +ℤ a)
      (in_range (s +ℤ a) (omega (arith, +ℤ_parts s a)) (omega (arith, +ℤ_parts s a)))

difference-InRange : (s d : ℤ) → pos 0 ≤ℤ d → d ≤ℤ s → InRange s → int64 (s -ℤ d) ≡ s -ℤ d
difference-InRange s d l h r =
    int64_id (s -ℤ d)
      (in_range (s -ℤ d) (omega (arith, -ℤ_parts s d)) (omega (arith, -ℤ_parts s d)))

-- Whether the operation fails or not.
if_Within :
    {A : Type 0} (ceilings : ℕ → ℤ) (failing : Bool) (p q : Counters × A)
    → Within ceilings p.0
    → Within ceilings q.0
    → Within ceilings (if failing then p else q).0
if_Within ceilings true p q v w = v
if_Within ceilings false p q v w = w

at_most : (c s : ℤ) → ltb_ℤ c s ≡ false → s ≤ℤ c
at_most c s h = ground arith

module _ (ceilings : ℕ → ℤ) (moderate : (b : ℕ) → Moderate (ceilings b)) where
  reserve_in-Within :
      (c : Counters) (b epoch : ℕ) (amount : ℤ) (o : Option Counter)
      → Moderate amount
      → Within ceilings c
      → c.budgets b ≡ o
      → Within ceilings (reserve_in c b epoch amount (ceilings b) o).0
  reserve_in-Within c b epoch amount none m w e = w
  reserve_in-Within c b epoch amount (some k) m w e = elim (Bool-cases (k.epoch == epoch)) [
    | inr h ↦ rw h w
    | inl h ↦ elim (Bool-cases (ltb_ℤ (ceilings b) (int64 (k.spend +ℤ amount)))) [
      | inl h' ↦ rw (h, h') w
      | inr h' ↦
          rw (h, h')
            (let (low, high) = w b k e in
              let fits = sum_in_range k.spend amount m low (omega (arith, moderate b)) in
              put-Within ceilings c b (record k { spend = int64 (k.spend +ℤ amount) }) w
                (rw fits (omega (arith, +ℤ_parts k.spend amount)))
                (at_most (ceilings b) (int64 (k.spend +ℤ amount)) h'))
    ]
  ]

  release_in-Within :
      (c : Counters) (b epoch : ℕ) (delta : ℤ) (o : Option Counter)
      → pos 0 ≤ℤ delta
      → ((k : Counter) → c.budgets b ≡ some k → delta ≤ℤ k.spend)
      → Within ceilings c
      → c.budgets b ≡ o
      → Within ceilings (release_in c b epoch delta o)
  release_in-Within c b epoch delta none l h w e = w
  release_in-Within c b epoch delta (some k) l h w e = elim (Bool-cases (k.epoch == epoch)) [
    | inr q ↦ rw q w
    | inl q ↦ rw q (
        let (low, high) = w b k e in
        let fits =
          difference-InRange k.spend delta l (h k e)
            (in_range k.spend (omega (arith, moderate b)) (omega arith)) in
        put-Within ceilings c b (record k { spend = int64 (k.spend -ℤ delta) }) w
          (rw fits (let d = h k e in omega (arith, -ℤ_parts k.spend delta)))
          (rw fits (omega (arith, -ℤ_parts k.spend delta))))
  ]

  arm_in-Within :
      (c : Counters) (b epoch : ℕ) (baseline : ℤ) (o : Option Counter)
      → pos 0 ≤ℤ baseline
      → baseline ≤ℤ ceilings b
      → Within ceilings c
      → Within ceilings (arm_in c b epoch baseline o)
  arm_in-Within c b epoch baseline (some k) l h w = w
  arm_in-Within c b epoch baseline none l h w =
      put-Within ceilings c b (record { epoch = epoch; spend = baseline }) w l h

  Step-Within : {c c' : Counters} → Step ceilings c c' → Within ceilings c → Within ceilings c'
  unfolding counter_reserve counter_release arm flush fail_with
  Step-Within (reserved c b epoch amount m) w =
      if_Within ceilings c.failing _ _ w (reserve_in-Within c b epoch amount (c.budgets b) m w refl)
  Step-Within (given_back c b epoch delta l h) w =
      if_Within ceilings c.failing _ _ w
        (release_in-Within c b epoch delta (c.budgets b) l h w refl)
  Step-Within (armed c b epoch baseline l h) w =
      if_Within ceilings c.failing _ _ w (arm_in-Within c b epoch baseline (c.budgets b) l h w)
  Step-Within (flushed c) w = λ b k e. cc
  Step-Within (failed c failing) w = w

-- Whatever sequence of reservations, releases, armings and flushes the counters go through, with
-- failures switched on and off between them, each counter stays between 0 and its budget's ceiling, if ceilings and amounts are not
-- negative and below 2 ^ 62, no release is of more than is spent and budgets are armed within
-- their ceilings.
pub spend_never_passes_ceiling :
    (ceilings : ℕ → ℤ) {c c' : Counters}
    → ((b : ℕ) → Moderate (ceilings b))
    → Steps ceilings c c'
    → Within ceilings c
    → Within ceilings c'
spend_never_passes_ceiling ceilings m (done c) w = w
spend_never_passes_ceiling ceilings m (more ss s) w =
    Step-Within ceilings m s (spend_never_passes_ceiling ceilings m ss w)
