-- ===== src/Reliability/Stuck/Periods.antt =====
-- What the detector finds: the least period that divides the window and that the window repeats.
use native.Mathlib.Decide.{dec_lt}
use native.Mathlib.Nat.{zero-add, suc-add}
use nexus_agent_demo.Prelude.{
  ℕ, zero, suc, ◌+◌, ◌-◌, ◌/◌, ◌%◌, ◌≤◌, ◌<◌, ◌≡◌, refl, ap, sym, ◌∙◌, ◌↔◌, ◌⊎◌, inl, inr, Bool,
  true, false, ◌&&◌, some, List, [], ◌∷◌, arith, ltb, ◌==◌, length, get_elem?, drop, length-drop,
  Bool-cases, if◌then◌else◌,
}
use nexus_agent_demo.Prelude.Text.{text_eq_iff, text_eq_refl}
use nexus_agent_demo.Reliability.Stuck.{
  Action, Verdict, unsuspected, same_action, agree, tiles, reason_for, try_periods, observe,
}

-- The list repeats itself every `p` places.
abbrev pub IsPeriodic : List Action → ℕ → Type 0
IsPeriodic w p = (i : ℕ) → p + i < length w → get_elem? w (p + i) ≡ get_elem? w i

same_action_sound : (a b : Action) → same_action a b ≡ true → a ≡ b
unfolding same_action
same_action_sound a b h = ground (arith, text_eq_iff a.tool b.tool, text_eq_iff a.digest b.digest)

pub same_action_refl : (a : Action) → same_action a a ≡ true
unfolding same_action
same_action_refl a = ground (arith, text_eq_refl a.tool, text_eq_refl a.digest)

agree_sound :
    (xs ys : List Action)
    → length xs ≤ length ys
    → agree xs ys ≡ true
    → (i : ℕ) → i < length xs
    → get_elem? xs i ≡ get_elem? ys i
unfolding agree
agree_sound [] ys l h i k = absurd (omega arith)
agree_sound (x ∷ xs) [] l h i k = absurd (omega arith)
agree_sound (x ∷ xs) (y ∷ ys) l h zero k = ap some (same_action_sound x y (ground arith))
agree_sound (x ∷ xs) (y ∷ ys) l h (suc i) k =
    agree_sound xs ys (omega arith) (ground arith) i (omega arith)

agree_complete :
    (xs ys : List Action)
    → ((i : ℕ) → i < length xs → get_elem? xs i ≡ get_elem? ys i)
    → agree xs ys ≡ true
unfolding agree
agree_complete [] ys h = refl
agree_complete (x ∷ xs) [] h = refl
agree_complete (x ∷ xs) (y ∷ ys) h =
    let e : x ≡ y = cc (h zero (omega arith)) in
    let rest = agree_complete xs ys (λ i k. h (suc i) (omega arith)) in
    rw (← e) (ground (arith, same_action_refl x, rest))

get_elem?-drop : (p i : ℕ) (w : List Action) → get_elem? (drop p w) i ≡ get_elem? w (p + i)
get_elem?-drop zero i w = rw zero-add
get_elem?-drop (suc p) i [] = refl
get_elem?-drop (suc p) i (x ∷ w) = rw suc-add (get_elem?-drop p i w)

tiles_iff : (w : List Action) (p : ℕ) → (tiles w p ≡ true) ↔ IsPeriodic w p
unfolding tiles
tiles_iff w p = (
  (λ h i k.
      sym (get_elem?-drop p i w)
      ∙ agree_sound (drop p w) w (omega (arith, length-drop p w)) h i
          (omega (arith, length-drop p w))),
  (λ per.
      agree_complete (drop p w) w
        (λ i k. get_elem?-drop p i w ∙ per i (omega (arith, length-drop p w)))),
)

-- A period of the window that the detector looks for.
abbrev pub IsCycle : ℕ → List Action → ℕ → Type 0
IsCycle window w p = (window % p ≡ 0) × IsPeriodic w p

abbrev found : ℕ → Verdict
found p = record { suspected = true; reason = some (reason_for p); period = p }

cycle_test : ℕ → List Action → ℕ → Bool
cycle_test window w p = (window % p == 0) && tiles w p

cycle_test_iff :
    (window : ℕ) (w : List Action) (p : ℕ) → (cycle_test window w p ≡ true) ↔ IsCycle window w p
unfolding cycle_test
cycle_test_iff window w p = (
  (λ h. (ground arith, (tiles_iff w p).0 (ground arith))),
  (λ c. ground (arith, (tiles_iff w p).1 c.1)),
)

try_periods-step :
    (rounds p window : ℕ) (w : List Action)
    → try_periods (suc rounds) p window w
      ≡ (if cycle_test window w p then found p else try_periods rounds (p + 1) window w)
unfolding try_periods cycle_test
try_periods-step rounds p window w = ground arith

-- The least cycle from `p` on among the rounds that are left, or none of them is one.
abbrev pub Finds : ℕ → List Action → ℕ → ℕ → Verdict → Type 0
Finds window w p end v =
    ((v ≡ unsuspected) × ((q : ℕ) → p ≤ q → q < end → ¬ IsCycle window w q))
    ⊎ ((q : ℕ) × (v ≡ found q)
        × (p ≤ q)
        × (q < end)
        × IsCycle window w q
        × ((r : ℕ) → p ≤ r → r < q → ¬ IsCycle window w r))

earlier :
    (window : ℕ) (w : List Action) (p rounds : ℕ) (v : Verdict)
    → ¬ IsCycle window w p
    → Finds window w (p + 1) (p + 1 + rounds) v
    → Finds window w p (p + suc rounds) v
earlier window w p rounds v n (inl (e, none_later)) = inl (e, go)
  where
    go : (q : ℕ) → p ≤ q → q < p + suc rounds → ¬ IsCycle window w q
    go q a b = elim (dec_lt p q) [
      | yes l ↦ none_later q (omega arith) (omega arith)
      | no l ↦ (let e' : q ≡ p = omega arith in rw e' n)
    ]
earlier window w p rounds v n (inr (q, e, a, b, c, least)) =
    inr (q, e, omega arith, omega arith, c, go)
  where
    go : (r : ℕ) → p ≤ r → r < q → ¬ IsCycle window w r
    go r a' b' = elim (dec_lt p r) [
      | yes l ↦ least r (omega arith) b'
      | no l ↦ (let e' : r ≡ p = omega arith in rw e' n)
    ]

try_periods_lem :
    (rounds p window : ℕ) (w : List Action)
    → Finds window w p (p + rounds) (try_periods rounds p window w)
try_periods_lem zero p window w = inl (unfold try_periods in refl, (λ q a b. absurd (omega arith)))
try_periods_lem (suc rounds) p window w = elim (Bool-cases (cycle_test window w p)) [
  | inl e ↦
      rw (try_periods-step rounds p window w, e)
        (inr (
          p,
          refl,
          omega arith,
          omega arith,
          (cycle_test_iff window w p).0 e,
          (λ r a b. absurd (omega arith)),
        ))
  | inr e ↦
      rw (try_periods-step rounds p window w, e)
        (earlier window w p rounds _ (λ c. cc ((cycle_test_iff window w p).1 c))
          (try_periods_lem rounds (p + 1) window w))
]

-- On a history with a full window, the detector reports the least period from 1 to window / 2 that
-- divides the window and that the last `window` actions repeat, with the reason that belongs to
-- the period, and suspects nothing if there is none.
pub observe_gives_least_cycle :
    (window : ℕ) (history : List Action)
    → window ≤ length history
    → Finds window
        (drop (length history - window) history)
        1
        (1 + window / 2)
        (observe window history)
unfolding observe
observe_gives_least_cycle window history h =
    let e : ltb (length history) window ≡ false = ground arith in
    rw e (try_periods_lem (window / 2) 1 window (drop (length history - window) history))
