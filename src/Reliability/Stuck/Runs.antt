-- ===== src/Reliability/Stuck/Runs.antt =====
-- The tracker over a run of actions: corroboration, the bound on what it holds, repeated calls.
use nexus_agent_demo.Prelude.{
  ℕ, zero, suc, ◌+◌, ◌-◌, ◌*◌, ◌/◌, ◌≤◌, ◌<◌, ◌≡◌, ◌≢◌, refl, ◌∙◌, ◌↔◌, inl, inr, true, Option,
  none, List, [], ◌∷◌, ◌++◌, arith, ltb, length, drop, length-drop, Bool-cases,
}
use nexus_agent_demo.Reliability.Stuck.{
  Action, Verdict, unsuspected, StuckReason, Tracker, TrackerVerdict, reason_eq, try_periods,
  observe, new_tracker, new_detector, remember, corroborate, record_action,
}

reason_eq_iff : (a b : Option StuckReason) → (reason_eq a b ≡ true) ↔ (a ≡ b)
unfolding reason_eq
reason_eq_iff a b = (same a b, (λ e. rw e (itself b)))
  where
    same : (x y : Option StuckReason) → reason_eq x y ≡ true → x ≡ y
    same x y = ground arith

    itself : (x : Option StuckReason) → reason_eq x x ≡ true
    itself x = ground arith

try_periods-reason :
    (rounds p window : ℕ) (w : List Action)
    → (try_periods rounds p window w).suspected ≡ true
    → (try_periods rounds p window w).reason ≢ none
unfolding try_periods
try_periods-reason zero p window w h = cc
try_periods-reason (suc rounds) p window w h =
    ground (arith, try_periods-reason rounds (p + 1) window w)

observe-reason :
    (window : ℕ) (history : List Action)
    → (observe window history).suspected ≡ true
    → (observe window history).reason ≢ none
unfolding observe
observe-reason window history h =
    ground
      (arith, try_periods-reason (window / 2) 1 window (drop (length history - window) history))

corroborated :
    (t : Tracker) (h : List Action) (v v' : Verdict)
    → (v'.suspected ≡ true → v'.reason ≢ none)
    → let (t', r) = corroborate t v in
      let r' = (corroborate (record t' { history = h }) v').1 in
      (r'.terminate ≡ true) ↔ (
        (r.verdict.suspected ≡ true)
        × (r'.verdict.suspected ≡ true)
        × (r.verdict.reason ≡ r'.verdict.reason))
unfolding corroborate
corroborated t h v v' n = (ground arith, ground arith)

-- The tracker after a run of actions.
unfoldable pub after_actions : Tracker → List Action → Tracker
after_actions t [] = t
after_actions t (a ∷ rest) = after_actions (record_action t a).0 rest

module _ (t : Tracker) (a b : Action) where
  -- The tracker after the first of the two actions, and the two verdicts.
  abbrev first : Verdict
  first = (record_action t a).1.verdict

  abbrev next : Tracker
  next = (record_action t a).0

  abbrev second : TrackerVerdict
  second = (record_action next b).1

  -- Of two successive actions the second terminates the turn exactly if both are suspected, for
  -- the same reason: a single suspicion never does.
  pub terminate_iff_corroborated : (second.terminate ≡ true) ↔ (
      (first.suspected ≡ true)
      × (second.verdict.suspected ≡ true)
      × (first.reason ≡ second.verdict.reason))
  unfolding record_action
  terminate_iff_corroborated =
      corroborated (record t { history = remember t a }) (remember next b)
        (observe t.window (remember t a)) (observe next.window (remember next b))
        (observe-reason next.window (remember next b))

remember-le : (t : Tracker) (a : Action) → length (remember t a) ≤ t.max_history
unfolding remember
remember-le t a = elim (Bool-cases (ltb t.max_history (length (t.history ++ a ∷ [])))) [
  | inl e ↦ rw e (
      omega
        (arith, length-drop (length (t.history ++ a ∷ []) - t.max_history) (t.history ++ a ∷ [])))
  | inr e ↦ rw e (ground arith)
]

record_action_keeps :
    (t : Tracker) (a : Action)
    → ((record_action t a).0.history ≡ remember t a)
      × ((record_action t a).0.max_history ≡ t.max_history)
      × ((record_action t a).0.window ≡ t.window)
unfolding record_action corroborate
record_action_keeps t a = ground arith

after_bounded :
    (bound : ℕ) (t : Tracker) (acts : List Action)
    → t.max_history ≡ bound
    → length t.history ≤ bound
    → length (after_actions t acts).history ≤ bound
unfolding after_actions
after_bounded bound t [] m h = h
after_bounded bound t (a ∷ rest) m h =
    let (e, m', w) = record_action_keeps t a in
    after_bounded bound (record_action t a).0 rest (m' ∙ m) (rw (e, ← m) (remember-le t a))

-- Whatever a session does, its new tracker never holds more than 4 * window actions.
history_bounded :
    (window : ℕ) (acts : List Action)
    → length (after_actions (new_tracker window) acts).history ≤ window * 4
history_bounded window acts =
    after_bounded (window * 4) (new_tracker window) acts (unfold new_tracker in refl)
      (unfold new_tracker in omega arith)

after_actions-window : (t : Tracker) (acts : List Action) → (after_actions t acts).window ≡ t.window
unfolding after_actions
after_actions-window t [] = refl
after_actions-window t (a ∷ rest) =
    let (e, m', w) = record_action_keeps t a in after_actions-window (record_action t a).0 rest ∙ w

after_actions-max_history :
    (t : Tracker) (acts : List Action) → (after_actions t acts).max_history ≡ t.max_history
unfolding after_actions
after_actions-max_history t [] = refl
after_actions-max_history t (a ∷ rest) =
    let (e, m', w) = record_action_keeps t a in
    after_actions-max_history (record_action t a).0 rest ∙ m'

unsuspected_when_short :
    (t : Tracker) (a : Action)
    → length (remember t a) < t.window
    → (record_action t a).1.verdict ≡ unsuspected
unfolding record_action corroborate observe
unsuspected_when_short t a h = ground arith

window_0 : ((new_tracker 0).window ≡ 4) × ((new_tracker 0).max_history ≡ 0)
unfolding new_tracker new_detector
window_0 = (refl, refl)

-- A new tracker whose window is 0 suspects nothing, whatever the session does.
pub window_0_detects_nothing :
    (acts : List Action) (a : Action)
    → (record_action (after_actions (new_tracker 0) acts) a).1.verdict ≡ unsuspected
window_0_detects_nothing acts a = unsuspected_when_short t a (
    omega (
      arith,
      remember-le t a,
      after_actions-window (new_tracker 0) acts,
      window_0,
      after_actions-max_history (new_tracker 0) acts,
    ))
  where
    t : Tracker
    t = after_actions (new_tracker 0) acts
