-- ===== src/Cost/Prices/Covers.antt =====
-- When an entry of the price book is for a request, and which of two is taken.
use nexus_agent_demo.Prelude.{
  ℕ, ◌≡◌, ◌≤◌, ◌<◌, ◌↔◌, sym, ap, ◌∙◌, refl, Option, none, some, ◌⊎◌, inl, inr, Bool, true, false,
  ◌==◌, ◌&&◌, ◌||◌, ltb, arith, Bool-cases, Option-cases, if◌then◌else◌,
}
use nexus_agent_demo.Prelude.Text.{Text, text_eq, text_eq_iff}
use nexus_agent_demo.Cost.Prices.{
  MeterId, PriceBookEntry, applies, before_end, covers_subject, covers_time, embedding_tokens,
  index, input_cache_read, input_cache_write, input_uncached, meter_eq, output, preferred,
  sandbox_seconds, tool_invocations, unreported_reservation, wildcard_subject,
}

-- The end of a range is after the time, or there is no end.
abbrev pub EndsAfter : ℕ → Option ℕ → Type 0
EndsAfter at none = Unit
EndsAfter at (some end) = at < end

-- The entry is for the meter, for the subject or for every subject, and is in effect at the time.
pub record Covers (meter : MeterId) (subject : Text) (at : ℕ) (e : PriceBookEntry) : Type 0 where
  pub meter_same : e.meter ≡ meter
  pub subject_covered : (e.subject ≡ subject) ⊎ (e.subject ≡ wildcard_subject)
  pub started : e.effective_from ≤ at
  pub not_ended : EndsAfter at e.effective_until

unfoldable meter_of : ℕ → MeterId
meter_of n =
    if n == 0
    then input_uncached
    else if n == 1
    then input_cache_read
    else if n == 2
    then input_cache_write
    else if n == 3
    then output
    else if n == 4
    then sandbox_seconds
    else if n == 5
    then tool_invocations
    else if n == 6
    then embedding_tokens
    else unreported_reservation

meter_of-index : (m : MeterId) → meter_of (index m) ≡ m
unfolding meter_of
meter_of-index input_uncached = refl
meter_of-index input_cache_read = refl
meter_of-index input_cache_write = refl
meter_of-index output = refl
meter_of-index sandbox_seconds = refl
meter_of-index tool_invocations = refl
meter_of-index embedding_tokens = refl
meter_of-index unreported_reservation = refl

meter_eq_sound : (a b : MeterId) → meter_eq a b ≡ true → a ≡ b
meter_eq_sound a b h =
    let e : index a ≡ index b = ground (arith, h) in
    sym (meter_of-index a) ∙ ap meter_of e ∙ meter_of-index b

meter_eq_refl : (a : MeterId) → meter_eq a a ≡ true
meter_eq_refl a = ground arith

time_iff :
    (at : ℕ) (e : PriceBookEntry)
    → (covers_time e at ≡ true) ↔ ((e.effective_from ≤ at) × EndsAfter at e.effective_until)
unfolding covers_time before_end
time_iff at e = elim (Option-cases e.effective_until) [
  | inl n ↦ rw n (ground arith)
  | inr (end, q) ↦ rw q (ground arith)
]

either : (a b : Bool) → a || b ≡ true → (a ≡ true) ⊎ (b ≡ true)
either a b h = ground arith

in_either : (a b : Bool) → b ≡ true → a || b ≡ true
in_either a b h = ground arith

both_iff : (a b c : Bool) → (a && b && c ≡ true) ↔ ((a ≡ true) × (b ≡ true) × (c ≡ true))
both_iff a b c = ground arith

subject_iff :
    (subject : Text) (e : PriceBookEntry)
    → (covers_subject e subject ≡ true) ↔ ((e.subject ≡ subject) ⊎ (e.subject ≡ wildcard_subject))
unfolding covers_subject
subject_iff subject e = (forward, backward)
  where
    forward :
        text_eq e.subject subject || text_eq e.subject wildcard_subject ≡ true
        → (e.subject ≡ subject) ⊎ (e.subject ≡ wildcard_subject)
    forward h = elim (either _ _ h) [
      | inl x ↦ inl ((text_eq_iff e.subject subject).0 x)
      | inr x ↦ inr ((text_eq_iff e.subject wildcard_subject).0 x)
    ]

    backward :
        (e.subject ≡ subject) ⊎ (e.subject ≡ wildcard_subject)
        → text_eq e.subject subject || text_eq e.subject wildcard_subject ≡ true
    backward (inl p) = rw ((text_eq_iff e.subject subject).1 p) refl
    backward (inr p) = in_either _ _ ((text_eq_iff e.subject wildcard_subject).1 p)

pub applies_iff :
    (meter : MeterId) (subject : Text) (at : ℕ) (e : PriceBookEntry)
    → (applies meter subject at e ≡ true) ↔ Covers meter subject at e
unfolding applies
applies_iff meter subject at e = (forward, backward)
  where
    parts : (applies meter subject at e ≡ true) ↔ (
        (meter_eq e.meter meter ≡ true)
        × (covers_subject e subject ≡ true)
        × (covers_time e at ≡ true))
    parts = both_iff (meter_eq e.meter meter) (covers_subject e subject) (covers_time e at)

    forward : applies meter subject at e ≡ true → Covers meter subject at e
    forward h =
        let (m, s, t) = parts.0 h in
        let time = (time_iff at e).0 t in
        record {
          meter_same = meter_eq_sound e.meter meter m;
          subject_covered = (subject_iff subject e).0 s;
          started = time.0;
          not_ended = time.1;
        }

    backward : Covers meter subject at e → applies meter subject at e ≡ true
    backward c = parts.1 (
      rw (c.meter_same) (meter_eq_refl meter),
      (subject_iff subject e).1 c.subject_covered,
      (time_iff at e).1 (c.started, c.not_ended),
    )

-- `w` is exact where `e` is, and of the two, if they are alike in this, `e` is not the newer one.
pub record IsAsGood (subject : Text) (w e : PriceBookEntry) : Type 0 where
  pub exact : e.subject ≡ subject → w.subject ≡ subject
  pub newest : (w.subject ≡ subject → e.subject ≡ subject) → e.version ≤ w.version

not_newer : (w e : PriceBookEntry) → ltb w.version e.version ≡ false → e.version ≤ w.version
not_newer w e h = ground arith

pub preferred-IsAsGood :
    (subject : Text) (w e : PriceBookEntry) → preferred subject e w ≡ false → IsAsGood subject w e
unfolding preferred
preferred-IsAsGood subject w e h = record { exact = exact; newest = newest }
  where
    exact : e.subject ≡ subject → w.subject ≡ subject
    exact p = elim (Bool-cases (text_eq w.subject subject)) [
      | inl t ↦ (text_eq_iff w.subject subject).0 t
      | inr f ↦ absurd (cc (rw ((text_eq_iff e.subject subject).1 p, f) at h))
    ]

    newest : (w.subject ≡ subject → e.subject ≡ subject) → e.version ≤ w.version
    newest k = elim (Bool-cases (text_eq w.subject subject)) [
      | inl t ↦
          let p = k ((text_eq_iff w.subject subject).0 t) in
          not_newer w e (rw ((text_eq_iff e.subject subject).1 p, t) at h)
      | inr f ↦ elim (Bool-cases (text_eq e.subject subject)) [
        | inl q ↦ absurd (cc (rw (q, f) at h))
        | inr q ↦ not_newer w e (rw (q, f) at h)
      ]
    ]
