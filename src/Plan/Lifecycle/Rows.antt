-- ===== src/Plan/Lifecycle/Rows.antt =====
-- Lookups in the table of plan versions, after a write.
use nexus_agent_demo.Prelude.{
  ℕ, ◌≡◌, refl, sym, inl, inr, Bool, true, false, ◌&&◌, Option, none, some, [], ◌∷◌, ◌==◌, arith,
  All, Bool-cases, Option-cases,
}
use nexus_agent_demo.Prelude.Int.{ℤ, ltb_ℤ, eq_of_parts}
use nexus_agent_demo.Prelude.Result.{ok}
use nexus_agent_demo.Plan.Lifecycle.{
  Row, Rows, Status, find_row, int_eq, is_at, later_row, latest_row, transition, update_all,
  update_row, same_status,
}

abbrev pub same_key : ℕ → ℤ → ℕ → ℤ → Bool
same_key id v id' v' = id == id' && int_eq v v'

pub same_key_sound :
    (id : ℕ) (v : ℤ) (id' : ℕ) (v' : ℤ) → same_key id v id' v' ≡ true → (id ≡ id') × (v ≡ v')
same_key_sound id v id' v' h = (ground arith, eq_of_parts v v' (ground arith))

-- What keeps a row where it is.
abbrev pub KeepsKey : (Row → Row) → Type 0
KeepsKey f = (r : Row) → ((f r).plan_id ≡ r.plan_id) × ((f r).version ≡ r.version)

is_at_kept :
    (f : Row → Row) → KeepsKey f → (id : ℕ) (v : ℤ) (r : Row) → is_at id v (f r) ≡ is_at id v r
is_at_kept f k id v r = rw ((k r).0, (k r).1) refl

abbrev pub map_row : (Row → Row) → Option Row → Option Row
map_row f none = none
map_row f (some r) = some (f r)

pub find_row-update_same :
    (f : Row → Row)
    → KeepsKey f
    → (rows : Rows) (id : ℕ) (v : ℤ)
    → find_row (update_row f rows id v) id v ≡ map_row f (find_row rows id v)
unfolding find_row update_row
find_row-update_same f k [] id v = refl
find_row-update_same f k (r ∷ rows) id v = elim (Bool-cases (is_at id v r)) [
  | inl e ↦ rw (e, is_at_kept f k id v r, e) refl
  | inr e ↦ rw (e, e) (find_row-update_same f k rows id v)
]

apart :
    (id : ℕ) (v : ℤ) (id' : ℕ) (v' : ℤ) (r : Row)
    → same_key id v id' v' ≡ false
    → is_at id v r ≡ true
    → is_at id' v' r ≡ false
apart id v id' v' r h k = ground arith

pub find_row-update_other :
    (f : Row → Row)
    → KeepsKey f
    → (rows : Rows) (id : ℕ) (v : ℤ) (id' : ℕ) (v' : ℤ) → same_key id v id' v' ≡ false
    → find_row (update_row f rows id v) id' v' ≡ find_row rows id' v'
unfolding find_row update_row
find_row-update_other f k [] id v id' v' h = refl
find_row-update_other f k (r ∷ rows) id v id' v' h = elim (Bool-cases (is_at id v r)) [
  | inl e ↦
      rw (e, is_at_kept f k id' v' r, apart id v id' v' r h e)
        (find_row-update_other f k rows id v id' v' h)
  | inr e ↦ rw e (ground (arith, find_row-update_other f k rows id v id' v' h))
]

module _ (P : Row → Type 0) where
  pub All-update :
      (f : Row → Row)
      → ((r : Row) → P r → P (f r))
      → (rows : Rows) (id : ℕ) (v : ℤ) → All P rows
      → All P (update_row f rows id v)
  unfolding update_row
  All-update f k [] id v h = tt
  All-update f k (r ∷ rows) id v h = elim (Bool-cases (is_at id v r)) [
    | inl e ↦ rw e (k r h.0, All-update f k rows id v h.1)
    | inr e ↦ rw e (h.0, All-update f k rows id v h.1)
  ]

  pub All-find :
      (rows : Rows) (id : ℕ) (v : ℤ) (r : Row)
      → All P rows
      → find_row rows id v ≡ some r
      → P r × (is_at id v r ≡ true)
  unfolding find_row
  All-find [] id v r h e = absurd cc
  All-find (s ∷ rows) id v r h e = elim (Bool-cases (is_at id v s)) [
    | inl k ↦ (let q : s ≡ r = cc in rw (sym q) (h.0, k))
    | inr k ↦ All-find rows id v r h.1 cc
  ]

  moved : (s r : Row) → some s ≡ some r → P s → P r
  moved s r e h = (let q : s ≡ r = cc in rw (sym q) h)

  later :
      (s r : Row) (o : Option Row)
      → P s
      → ((q : Row) → o ≡ some q → P q)
      → later_row s o ≡ some r
      → P r
  later s r none hs ho e = moved s r e hs
  later s r (some q) hs ho e = elim (Bool-cases (ltb_ℤ s.version q.version)) [
    | inl k ↦ moved q r (cc) (ho q refl)
    | inr k ↦ moved s r (cc) hs
  ]

  pub All-latest : (rows : Rows) (id : ℕ) (r : Row) → All P rows → latest_row rows id ≡ some r → P r
  unfolding latest_row
  All-latest [] id r h e = absurd cc
  All-latest (s ∷ rows) id r h e = elim (Bool-cases (s.plan_id == id)) [
    | inl k ↦ later s r (latest_row rows id) h.0 (λ q. All-latest rows id q h.1) cc
    | inr k ↦ All-latest rows id r h.1 cc
  ]

-- A transition that succeeds: the row it moves, and the rows it leaves.
pub record Moved (rows : Rows) (id : ℕ) (v : ℤ) (from to : Status) (change : Row → Row)
    (rows' : Rows) : Type 0 where
  pub row : Row
  pub there : find_row rows id v ≡ some row
  pub was : same_status row.status from ≡ true
  pub after : rows' ≡ update_row (λ r. record (change r) { status = to }) rows id v

pub transition-Moved :
    (rows : Rows) (id : ℕ) (v : ℤ) (from to : Status) (change : Row → Row) (rows' : Rows)
    → transition rows id v from to change ≡ ok rows'
    → Moved rows id v from to change rows'
unfolding transition update_all
transition-Moved rows id v from to change rows' h = elim (Option-cases (find_row rows id v)) [
  | inl e ↦ absurd (ground arith)
  | inr (r, e) ↦ record { row = r; there = e; was = ground arith; after = ground arith }
]
