-- ===== src/Teams/Cards.antt =====
-- internal/teams/types.go and postgres/store.go: the cards of one tenant, and the queries on their rows.
use nexus_agent_demo.Prelude.{
  ℕ, Bool, true, false, ◌&&◌, Option, none, some, List, [], ◌∷◌, if◌then◌else◌, ◌==◌,
}
use nexus_agent_demo.Prelude.Text.{Text}

pub data CardStatus : Type 0 where
  card_open card_claimed card_in_progress card_done card_blocked : CardStatus

pub data ScanStatus : Type 0 where
  scan_pending scan_clean scan_flagged : ScanStatus

-- A place of a [3]bool.
pub data Leg : Type 0 where
  first_leg second_leg third_leg : Leg

abbrev pub Taint : Type 0
Taint = Leg → Bool

pub record Card : Type 0 where
  pub card_id : ℕ
  pub team_id : ℕ
  pub title : Text
  pub body : Text
  pub status : CardStatus
  pub taint_state : Taint
  pub scan_status : ScanStatus
  pub scan_findings : List Text
  pub written_by : ℕ
  pub claimed_by : Option ℕ

abbrev pub is_clean : ScanStatus → Bool
is_clean scan_clean = true
is_clean _ = false

abbrev pub is_open : CardStatus → Bool
is_open card_open = true
is_open _ = false

unfoldable pub select_cards : (Card → Bool) → List Card → List Card
select_cards test [] = []
select_cards test (c ∷ cards) =
    let rest = select_cards test cards in if test c then c ∷ rest else rest

-- WHERE team_id = $1
unfoldable pub list_cards : ℕ → List Card → List Card
unfolding select_cards
list_cards team cards = select_cards (λ c. c.team_id == team) cards

abbrev pub set_status : CardStatus → Card → Card
set_status status c = record c { status = status }

abbrev pub is_claimed_by : Option ℕ → ℕ → Bool
is_claimed_by none session = false
is_claimed_by (some s) session = s == session

-- UPDATE ... WHERE card_id = $1, at the rows that `test` picks out.
unfoldable pub update_cards : (Card → Bool) → (Card → Card) → List Card → List Card
update_cards test f [] = []
update_cards test f (c ∷ cards) =
    let rest = update_cards test f cards in if test c then f c ∷ rest else c ∷ rest

abbrev pub is_claimable : ℕ → ℕ → Card → Bool
is_claimable team card c =
    c.card_id == card && c.team_id == team && is_open c.status && is_clean c.scan_status

unfoldable pub find_claimable : ℕ → ℕ → List Card → Option Card
find_claimable team card [] = none
find_claimable team card (c ∷ cards) =
    if is_claimable team card c then some c else find_claimable team card cards
