-- ===== src/Plan/Graph/Scan.antt =====
-- What one round of the search does to the visited names and to the queue.
use nexus_agent_demo.Prelude.{
  ℕ, suc, ◌+◌, ◌≤◌, ◌<◌, ◌≡◌, refl, ◌⊎◌, inl, inr, true, false, ◌||◌, List, [], ◌∷◌, ◌++◌,
  if◌then◌else◌, arith, length, length-append, Bool-cases, All,
}
use nexus_agent_demo.Prelude.Text.{Text, text_eq_sound, text_eq_refl}
use nexus_agent_demo.Plan.Graph.{Search, mem, offer, scan}

pub mem-append : (x : Text) (us vs : List Text) → mem x (us ++ vs) ≡ (mem x us || mem x vs)
unfolding mem
mem-append x [] vs = refl
mem-append x (u ∷ us) vs = ground (arith, mem-append x us vs)

pub mem_head : (x : Text) (vs : List Text) → mem x (x ∷ vs) ≡ true
unfolding mem
mem_head x vs = rw (text_eq_refl x) refl

-- The names of `us` that `vs` lacks, with repetitions.
unfoldable pub fresh : List Text → List Text → ℕ
unfolding mem
fresh vs [] = 0
fresh vs (u ∷ us) = if mem u vs then fresh vs us else suc (fresh vs us)

fresh-cons-le : (t : Text) (vs us : List Text) → fresh (t ∷ vs) us ≤ fresh vs us
unfolding fresh mem
fresh-cons-le t vs [] = omega arith
fresh-cons-le t vs (u ∷ us) = ground (arith, fresh-cons-le t vs us)

fresh-cons-lt :
    (t : Text) (vs us : List Text)
    → mem t us ≡ true
    → mem t vs ≡ false
    → fresh (t ∷ vs) us < fresh vs us
unfolding fresh mem
fresh-cons-lt t vs [] h k = absurd cc
fresh-cons-lt t vs (u ∷ us) h k =
    ground (arith, fresh-cons-le t vs us, fresh-cons-lt t vs us, text_eq_sound t u, text_eq_refl t)

-- What bounds the rounds still to come.
abbrev pub remaining : List Text → Search → ℕ
remaining us s = fresh s.visited us + length s.queue

offer-remaining :
    (us : List Text) (s : Search) (t : Text)
    → mem t us ≡ true
    → remaining us (offer s t) ≤ remaining us s
unfolding offer
offer-remaining us s t h = elim (Bool-cases (mem t s.visited)) [
  | inl old ↦ rw old (omega arith)
  | inr new ↦
      rw new (omega (arith, fresh-cons-lt t s.visited us h new, length-append s.queue (t ∷ [])))
]

pub scan-remaining :
    (us : List Text) (s : Search) (ts : List Text)
    → All (λ t. mem t us ≡ true) ts
    → remaining us (scan s ts) ≤ remaining us s
unfolding scan
scan-remaining us s [] h = omega arith
scan-remaining us s (t ∷ ts) h =
    omega (arith, offer-remaining us s t h.0, scan-remaining us (offer s t) ts h.1)

-- How a round changes what is visited and queued.
pub record Grows (s : Search) (ts : List Text) (s' : Search) : Type 0 where
  pub keeps : (x : Text) → mem x s.visited ≡ true → mem x s'.visited ≡ true
  pub keeps_queue : (x : Text) → mem x s.queue ≡ true → mem x s'.queue ≡ true
  pub visits : (x : Text) → mem x ts ≡ true → mem x s'.visited ≡ true
  pub only : (x : Text) → mem x s'.visited ≡ true → (mem x s.visited ≡ true) ⊎ (mem x ts ≡ true)
  pub queues :
      (x : Text) → mem x s'.visited ≡ true → (mem x s.visited ≡ true) ⊎ (mem x s'.queue ≡ true)
  pub from_queue :
      (x : Text) → mem x s'.queue ≡ true → (mem x s.queue ≡ true) ⊎ (mem x s'.visited ≡ true)

Grows-none : (s : Search) → Grows s [] s
unfolding mem
Grows-none s = record {
  keeps = λ x h. h;
  keeps_queue = λ x h. h;
  visits = λ x h. absurd cc;
  only = λ x h. inl h;
  queues = λ x h. inl h;
  from_queue = λ x h. inl h;
}

Grows-cons :
    (s s' s'' : Search) (t : Text) (ts : List Text)
    → Grows s (t ∷ []) s'
    → Grows s' ts s''
    → Grows s (t ∷ ts) s''
unfolding mem
Grows-cons s s' s'' t ts g k = record {
  keeps = λ x h. k.keeps x (g.keeps x h);
  keeps_queue = λ x h. k.keeps_queue x (g.keeps_queue x h);
  visits = λ x h. ground (arith, g.visits x, k.keeps x, k.visits x);
  only = λ x h. ground (arith, g.only x, k.only x h);
  queues = λ x h. ground (arith, g.queues x, k.queues x h, k.keeps_queue x);
  from_queue = λ x h. ground (arith, g.from_queue x, k.from_queue x h, k.keeps x);
}

offer-Grows : (s : Search) (t : Text) → Grows s (t ∷ []) (offer s t)
unfolding offer mem
offer-Grows s t = record {
  keeps = λ x h. ground arith;
  keeps_queue = λ x h. ground (arith, mem-append x s.queue (t ∷ []));
  visits = λ x h. ground (arith, text_eq_sound x t);
  only = λ x h. ground (arith);
  queues = λ x h. ground (arith, mem-append x s.queue (t ∷ []));
  from_queue = λ x h. ground (arith, mem-append x s.queue (t ∷ []), text_eq_sound x t);
}

pub scan-Grows : (s : Search) (ts : List Text) → Grows s ts (scan s ts)
unfolding scan
scan-Grows s [] = Grows-none s
scan-Grows s (t ∷ ts) =
    Grows-cons s (offer s t) (scan (offer s t) ts) t ts (offer-Grows s t)
      (scan-Grows (offer s t) ts)
