-- ===== src/Cost/Prices/Best.antt =====
-- What a lookup in the price book finds: a best one among the entries that apply.
use nexus_agent_demo.Prelude.{
  ℕ, ◌≡◌, refl, ◌⊎◌, inl, inr, Bool, true, false, none, some, List, [], ◌∷◌, arith, Bool-cases,
  if◌then◌else◌,
}
use nexus_agent_demo.Prelude.Text.{Text}
use nexus_agent_demo.Cost.Prices.{
  MeterId, PriceBookEntry, applies, candidates, first_of, insert_sorted, lookup, preferred,
  sort_slice,
}
use nexus_agent_demo.Cost.Prices.Covers.{Covers, IsAsGood, applies_iff, preferred-IsAsGood}

-- `e` stands in the list.
abbrev pub IsIn : PriceBookEntry → List PriceBookEntry → Type 0
IsIn e [] = ⊥
IsIn e (x ∷ xs) = (e ≡ x) ⊎ IsIn e xs

-- The first of the list and the entries after it, in one pass.
unfoldable first_sorted : Text → PriceBookEntry → List PriceBookEntry → PriceBookEntry
first_sorted subject best [] = best
first_sorted subject best (e ∷ es) =
    first_sorted subject (if preferred subject e best then e else best) es

first-insert :
    (s : Text) (e best : PriceBookEntry) (xs : List PriceBookEntry)
    → (rest : List PriceBookEntry) × (insert_sorted s e (best ∷ xs)
        ≡ (if preferred s e best then e else best) ∷ rest)
unfolding insert_sorted
first-insert s e best xs = elim (Bool-cases (preferred s e best)) [
  | inl h ↦ (best ∷ xs, rw h refl)
  | inr h ↦ (insert_sorted s e xs, rw h refl)
]

first-sort :
    (s : Text) (best : PriceBookEntry) (xs es : List PriceBookEntry)
    → first_of (sort_slice s (best ∷ xs) es) ≡ some (first_sorted s best es)
unfolding sort_slice first_sorted
first-sort s best xs [] = refl
first-sort s best xs (e ∷ es) =
    let (rest, h) = first-insert s e best xs in
    rw h (first-sort s (if preferred s e best then e else best) rest es)

first_of-sort :
    (s : Text) (e : PriceBookEntry) (es : List PriceBookEntry)
    → first_of (sort_slice s [] (e ∷ es)) ≡ some (first_sorted s e es)
unfolding sort_slice insert_sorted
first_of-sort s e es = first-sort s e [] es

preferred_behind :
    (s : Text) (e best w : PriceBookEntry)
    → preferred s e best ≡ true
    → preferred s e w ≡ false
    → preferred s best w ≡ false
unfolding preferred
preferred_behind s e best w h k = ground arith

preferred_stays :
    (s : Text) (w best e : PriceBookEntry)
    → preferred s best w ≡ false
    → preferred s e best ≡ false
    → preferred s e w ≡ false
unfolding preferred
preferred_stays s w best e h k = ground arith

preferred_irrefl : (s : Text) (e : PriceBookEntry) → preferred s e e ≡ false
unfolding preferred
preferred_irrefl s e = ground arith

abbrev IsBest : Text → PriceBookEntry → List PriceBookEntry → Type 0
IsBest s w es = IsIn w es × ((e : PriceBookEntry) → IsIn e es → preferred s e w ≡ false)

keep-IsBest :
    (s : Text) (w best e : PriceBookEntry) (es : List PriceBookEntry)
    → preferred s e best ≡ false
    → IsBest s w (best ∷ es)
    → IsBest s w (best ∷ e ∷ es)
keep-IsBest s w best e es h (i, b) = (ground arith, others)
  where
    others : (x : PriceBookEntry) → IsIn x (best ∷ e ∷ es) → preferred s x w ≡ false
    others x (inl p) = b x (inl p)
    others x (inr (inl p)) = rw p (preferred_stays s w best e (b best (inl refl)) h)
    others x (inr (inr m)) = b x (inr m)

take_better :
    (s : Text) (w best e : PriceBookEntry) (es : List PriceBookEntry)
    → preferred s e best ≡ true
    → IsBest s w (e ∷ es)
    → IsBest s w (best ∷ e ∷ es)
take_better s w best e es h (i, b) = (inr i, others)
  where
    others : (x : PriceBookEntry) → IsIn x (best ∷ e ∷ es) → preferred s x w ≡ false
    others x (inl p) = rw p (preferred_behind s e best w h (b e (inl refl)))
    others x (inr m) = b x m

widen :
    (s : Text) (w best e : PriceBookEntry) (es : List PriceBookEntry) (b : Bool)
    → preferred s e best ≡ b
    → IsBest s w ((if b then e else best) ∷ es)
    → IsBest s w (best ∷ e ∷ es)
widen s w best e es true h i = take_better s w best e es h i
widen s w best e es false h i = keep-IsBest s w best e es h i

first_sorted_lem :
    (s : Text) (best : PriceBookEntry) (es : List PriceBookEntry)
    → IsBest s (first_sorted s best es) (best ∷ es)
unfolding first_sorted
first_sorted_lem s best [] = (inl refl, others)
  where
    others : (x : PriceBookEntry) → IsIn x (best ∷ []) → preferred s x best ≡ false
    others x (inl p) = rw p (preferred_irrefl s best)
    others x (inr m) = absurd m
first_sorted_lem s best (e ∷ es) =
    widen s _ best e es (preferred s e best) refl
      (first_sorted_lem s (if preferred s e best then e else best) es)

module _ (meter : MeterId) (subject : Text) (at : ℕ) (e : PriceBookEntry) where
  candidates_sound :
      (es : List PriceBookEntry)
      → IsIn e (candidates meter subject at es)
      → IsIn e es × (applies meter subject at e ≡ true)
  unfolding candidates
  candidates_sound [] m = absurd m
  candidates_sound (x ∷ es) m =
      taken x es (candidates_sound es) (Bool-cases (applies meter subject at x)) m
    where
      taken :
          (x : PriceBookEntry) (es : List PriceBookEntry)
          → (IsIn e (candidates meter subject at es)
              → IsIn e es × (applies meter subject at e ≡ true))
          → (applies meter subject at x ≡ true) ⊎ (applies meter subject at x ≡ false)
          → IsIn e (candidates meter subject at (x ∷ es))
          → IsIn e (x ∷ es) × (applies meter subject at e ≡ true)
      taken x es ih (inl h) m = elim (rw h at m) [
        | inl p ↦ (inl p, rw p h)
        | inr m' ↦ (inr (ih m').0, (ih m').1)
      ]
      taken x es ih (inr h) m = let m' = rw h at m in (inr (ih m').0, (ih m').1)

  candidates_complete :
      (es : List PriceBookEntry)
      → IsIn e es
      → applies meter subject at e ≡ true
      → IsIn e (candidates meter subject at es)
  unfolding candidates
  candidates_complete [] m h = m
  candidates_complete (x ∷ es) (inl p) h = rw (← p, h) (inl refl)
  candidates_complete (x ∷ es) (inr m) h =
      let rest = candidates_complete es m h in
      elim (Bool-cases (applies meter subject at x)) [ inl k ↦ rw k (inr rest) | inr k ↦ rw k rest ]

List-cases :
    (es : List PriceBookEntry)
    → (es ≡ []) ⊎ ((e : PriceBookEntry) × (rest : List PriceBookEntry) × (es ≡ e ∷ rest))
List-cases [] = inl refl
List-cases (e ∷ rest) = inr (e, rest, refl)

finds_best :
    (book : List PriceBookEntry) (meter : MeterId) (subject : Text) (at : ℕ)
    → ((lookup book meter subject at ≡ none)
        × ((e : PriceBookEntry) → IsIn e book → applies meter subject at e ≡ false))
      ⊎ ((w : PriceBookEntry) × (lookup book meter subject at ≡ some w)
          × IsIn w book
          × (applies meter subject at w ≡ true)
          × ((e : PriceBookEntry)
              → IsIn e book
              → applies meter subject at e ≡ true
              → preferred subject e w ≡ false))
unfolding lookup
finds_best book meter subject at = elim (List-cases (candidates meter subject at book)) [
  | inl h ↦ inl (unfold sort_slice in rw h refl, (λ e m. none_applies e m h))
  | inr (e, es, h) ↦
      let (i, b) = first_sorted_lem subject e es in
      let (m, a) = candidates_sound meter subject at (first_sorted subject e es) book (rw h i) in
      inr (
        first_sorted subject e es,
        rw h (first_of-sort subject e es),
        m,
        a,
        (λ x k l. b x (rw h at (candidates_complete meter subject at x book k l))),
      )
]
  where
    none_applies :
        (e : PriceBookEntry)
        → IsIn e book
        → candidates meter subject at book ≡ []
        → applies meter subject at e ≡ false
    none_applies e m h = elim (Bool-cases (applies meter subject at e)) [
      | inl k ↦ absurd (rw h at (candidates_complete meter subject at e book m k))
      | inr k ↦ k
    ]

-- A lookup in the price book finds an entry of the book that is for the meter, for the subject or for
-- every subject, and in effect at the time. No such entry is for the subject itself where the one
-- found is not, and none that is like it in this has a higher version. It finds none only if the book
-- has no such entry.
pub lookup_finds_best :
    (book : List PriceBookEntry) (meter : MeterId) (subject : Text) (at : ℕ)
    → ((lookup book meter subject at ≡ none)
        × ((e : PriceBookEntry) → IsIn e book → ¬ Covers meter subject at e))
      ⊎ ((w : PriceBookEntry) × (lookup book meter subject at ≡ some w)
          × IsIn w book
          × Covers meter subject at w
          × ((e : PriceBookEntry) → IsIn e book → Covers meter subject at e → IsAsGood subject w e))
lookup_finds_best book meter subject at = elim (finds_best book meter subject at) [
  | inl (n, none_applies) ↦
      inl (n, (λ e m c. cc (none_applies e m, (applies_iff meter subject at e).1 c)))
  | inr (w, found, m, a, b) ↦ inr (
    w,
    found,
    m,
    (applies_iff meter subject at w).0 a,
    (λ e k c. preferred-IsAsGood subject w e (b e k ((applies_iff meter subject at e).1 c))),
  )
]
