-- ===== src/Teams/Board/Laundering/Rows.antt =====
-- The rows of a board with a card that is written under a taint.
use nexus_agent_demo.Prelude.{
  ℕ, ◌≡◌, inl, inr, Bool, true, List, [], ◌∷◌, ◌++◌, ◌==◌, arith, Any, Bool-cases,
}
use nexus_agent_demo.Teams.Cards.{Card, Leg, is_clean, list_cards, select_cards, update_cards}

-- A card that the team's readers are shown, written under a taint that has the leg.
abbrev pub IsTainted : ℕ → Leg → Card → Type 0
IsTainted team l c = (c.team_id ≡ team) × (is_clean c.scan_status ≡ true) × (c.taint_state l ≡ true)

pub update-IsTainted :
    (team : ℕ) (l : Leg) (test : Card → Bool) (f : Card → Card)
    → ((c : Card) → IsTainted team l c → IsTainted team l (f c))
    → (cards : List Card) → Any (IsTainted team l) cards
    → Any (IsTainted team l) (update_cards test f cards)
unfolding update_cards
update-IsTainted team l test f k [] h = h
update-IsTainted team l test f k (c ∷ cards) h = elim (Bool-cases (test c)) [
  | inl e ↦
      rw e (elim h [ inl x ↦ inl (k c x) | inr y ↦ inr (update-IsTainted team l test f k cards y) ])
  | inr e ↦ rw e (elim h [ inl x ↦ inl x | inr y ↦ inr (update-IsTainted team l test f k cards y) ])
]

pub Any-left : (P : Card → Type 0) (xs ys : List Card) → Any P xs → Any P (xs ++ ys)
Any-left P [] ys h = absurd h
Any-left P (x ∷ xs) ys (inl h) = inl h
Any-left P (x ∷ xs) ys (inr h) = inr (Any-left P xs ys h)

pub Any-last : (P : Card → Type 0) (xs : List Card) (y : Card) → P y → Any P (xs ++ y ∷ [])
Any-last P [] y h = inl h
Any-last P (x ∷ xs) y h = inr (Any-last P xs y h)

pub list-IsTainted :
    (team : ℕ) (l : Leg) (cards : List Card)
    → Any (IsTainted team l) cards
    → Any (IsTainted team l) (list_cards team cards)
unfolding list_cards select_cards
list-IsTainted team l [] h = h
list-IsTainted team l (c ∷ cards) (inl h) =
    (let e : (c.team_id == team) ≡ true = ground (arith, h.0) in rw e (inl h))
list-IsTainted team l (c ∷ cards) (inr h) = elim (Bool-cases (c.team_id == team)) [
  | inl e ↦ rw e (inr (list-IsTainted team l cards h))
  | inr e ↦ rw e (list-IsTainted team l cards h)
]
