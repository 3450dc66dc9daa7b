-- ===== src/Permissions/Chain/Gather.antt =====
-- Walks over opinions that do not stop them, and what such a walk accumulates.
use nexus_agent_demo.Prelude.{
  ◌≡◌, ◌≢◌, refl, some, none, List, [], ◌∷◌, ◌++◌, All, ◌⊎◌, inl, inr, arith,
}
use nexus_agent_demo.Permissions.Types.{
  Decision, allow, ask, deny, ask_none, Layer, LayerOutcome, Resolution, resolution, undecided,
}
use nexus_agent_demo.Permissions.Chain.{goes_on, stops, fails, fold}
use nexus_agent_demo.Permissions.Chain.Walk.{Opinion, walk, finish}

-- The opinion neither denies nor resolves Allow, which the guard refuses.
abbrev pub IsPassing : Opinion → Type 0
IsPassing o = (o.outcome.decision ≢ deny) × (o.outcome.decision ≢ allow)

abbrev pub IsSilent : Opinion → Type 0
IsSilent o = IsPassing o × (o.outcome.decision ≢ ask)

pub stop_cases : (d : Decision) → (d ≡ deny) ⊎ (d ≡ allow) ⊎ ((d ≢ deny) × (d ≢ allow))
stop_cases deny = inl refl
stop_cases allow = inr (inl refl)
stop_cases _ = inr (inr ((λ e. cc), (λ e. cc)))

-- The accumulator keeps the first ask.
abbrev keep_first : Decision → Decision → Resolution → Resolution → Resolution
keep_first ask ask old new = old
keep_first ask _ old new = new
keep_first _ _ old new = old

module _ (acc : Resolution) (l : Layer) (o : LayerOutcome) where
  pub fold_deny :
      o.decision ≡ deny → fold acc l o ≡ stops (resolution deny (some l) o.reason ask_none)
  unfolding fold
  fold_deny h = ground arith

  pub fold_allow : o.decision ≡ allow → fold acc l o ≡ fails acc l
  unfolding fold
  fold_allow h = ground arith

  -- What an opinion that does not stop the walk leaves.
  pub merge : Resolution
  merge = keep_first o.decision acc.decision acc (resolution ask (some l) o.reason o.ask_kind)

  pub fold_passing : o.decision ≢ deny → o.decision ≢ allow → fold acc l o ≡ goes_on merge
  unfolding fold merge
  fold_passing h n = ground arith

  pub merge-ne-allow : acc.decision ≢ allow → merge.decision ≢ allow
  unfolding merge
  merge-ne-allow n = ground arith

  pub merge_ask : o.decision ≡ ask → merge.decision ≡ ask
  unfolding merge
  merge_ask n = ground arith

  pub merge_asked : acc.decision ≡ ask → merge ≡ acc
  unfolding merge
  merge_asked n = ground arith

  pub merge_silent : o.decision ≢ ask → merge ≡ acc
  unfolding merge
  merge_silent n = ground arith

  pub merge_first :
      o.decision ≡ ask → acc.decision ≢ ask → merge ≡ resolution ask (some l) o.reason o.ask_kind
  unfolding merge
  merge_first h n = ground arith

pub gather : Resolution → List Opinion → Resolution
gather acc [] = acc
gather acc (o ∷ os) = gather (merge acc o.layer o.outcome) os

pub walk_passing :
    (acc : Resolution) (os rest : List Opinion)
    → All IsPassing os
    → walk acc (os ++ rest) ≡ walk (gather acc os) rest
unfolding walk gather
walk_passing acc [] rest h = refl
walk_passing acc (o ∷ os) rest h =
    rw (fold_passing acc o.layer o.outcome h.0.0 h.0.1)
      (walk_passing (merge acc o.layer o.outcome) os rest h.1)

pub gather-ne-allow :
    (acc : Resolution) (os : List Opinion) → acc.decision ≢ allow → (gather acc os).decision ≢ allow
unfolding gather
gather-ne-allow acc [] n = n
gather-ne-allow acc (o ∷ os) n =
    gather-ne-allow (merge acc o.layer o.outcome) os (merge-ne-allow acc o.layer o.outcome n)

pub gather_asked : (acc : Resolution) (os : List Opinion) → acc.decision ≡ ask → gather acc os ≡ acc
unfolding gather
gather_asked acc [] a = refl
gather_asked acc (o ∷ os) a = rw (merge_asked acc o.layer o.outcome a) (gather_asked acc os a)

pub gather_silent : (acc : Resolution) (os : List Opinion) → All IsSilent os → gather acc os ≡ acc
unfolding gather
gather_silent acc [] h = refl
gather_silent acc (o ∷ os) h =
    rw (merge_silent acc o.layer o.outcome h.0.1) (gather_silent acc os h.1)

pub IsPassing-of_silent : (os : List Opinion) → All IsSilent os → All IsPassing os
IsPassing-of_silent [] h = h
IsPassing-of_silent (o ∷ os) h = (h.0.0, IsPassing-of_silent os h.1)

pub walk_asked :
    (acc : Resolution) (os : List Opinion)
    → acc.decision ≡ ask
    → All IsPassing os
    → walk acc os ≡ goes_on acc
unfolding walk
walk_asked acc [] a h = refl
walk_asked acc (o ∷ os) a h =
    rw (fold_passing acc o.layer o.outcome h.0.0 h.0.1)
      (rw (merge_asked acc o.layer o.outcome a) (walk_asked acc os a h.1))

-- The first layer that asks binds the accumulated resolution.
walk_first_ask :
    (before later : List Opinion) (o : Opinion)
    → All IsSilent before
    → o.outcome.decision ≡ ask
    → All IsPassing later
    → walk undecided (before ++ o ∷ later)
      ≡ goes_on (resolution ask (some o.layer) o.outcome.reason o.outcome.ask_kind)
unfolding walk
walk_first_ask before later o h a k =
    rw (walk_passing undecided before (o ∷ later) (IsPassing-of_silent before h)) (
      rw (gather_silent undecided before h) (
        rw (fold_passing undecided o.layer o.outcome (λ p. cc) (λ p. cc))
          (rw (merge_first undecided o.layer o.outcome a (λ p. cc)) (walk_asked _ later refl k))))

module _ (f : Resolution → Resolution) (before later : List Opinion) (o : Opinion) where
  pub walk_deny :
      All IsPassing before
      → o.outcome.decision ≡ deny
      → finish f (walk undecided (before ++ o ∷ later))
        ≡ record { resolved = resolution deny (some o.layer) o.outcome.reason ask_none; err = none }
  unfolding finish walk
  walk_deny h d =
      rw (walk_passing undecided before (o ∷ later) h)
        (rw (fold_deny (gather undecided before) o.layer o.outcome d) refl)

  pub walk_allow :
      All IsPassing before
      → o.outcome.decision ≡ allow
      → finish f (walk undecided (before ++ o ∷ later))
        ≡ record { resolved = gather undecided before; err = some o.layer }
  unfolding finish walk
  walk_allow h d =
      rw (walk_passing undecided before (o ∷ later) h)
        (rw (fold_allow (gather undecided before) o.layer o.outcome d) refl)

  pub walk_ask :
      All IsSilent before
      → o.outcome.decision ≡ ask
      → All IsPassing later
      → finish f (walk undecided (before ++ o ∷ later)) ≡ record {
        resolved = f (resolution ask (some o.layer) o.outcome.reason o.outcome.ask_kind);
        err = none;
      }
  unfolding finish
  walk_ask h a k = rw (walk_first_ask before later o h a k)
