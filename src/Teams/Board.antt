-- ===== src/Teams/Board.antt =====
-- internal/teams/board.go over the rows of internal/teams/postgres/store.go: the cards of one tenant,
-- with the taint of the sessions that write and read them. The store's
-- success is an argument.
pub mod Laundering
use nexus_agent_demo.Prelude.{
  ℕ, Bool, true, false, ◌&&◌, ◌||◌, Option, none, some, List, [], ◌∷◌, ◌++◌, if◌then◌else◌, ◌==◌,
}
use nexus_agent_demo.Prelude.Text.{Text}
use nexus_agent_demo.Memory.Screen.{
  Patterns, ScreenStatus, is_empty, screen, screen_clean, screen_flagged, screen_rejected,
}
use nexus_agent_demo.Teams.Cards.{
  Card, CardStatus, Leg, ScanStatus, Taint, card_blocked, card_claimed, card_done, card_in_progress,
  card_open, find_claimable, first_leg, is_claimable, is_claimed_by, is_clean, is_open, list_cards,
  select_cards, scan_clean, scan_flagged, scan_pending, second_leg, set_status, third_leg,
  update_cards,
}

pub data BoardEvent : Type 0 where
  -- session, card, the card's taint
  taint_transition : ℕ → ℕ → Taint → BoardEvent
  -- session, card, team, findings
  card_flagged : ℕ → ℕ → ℕ → List Text → BoardEvent

-- The rows, the pipeline's taint of each session, and the events of all sessions.
pub record Board : Type 0 where
  pub cards : List Card
  pub taint : ℕ → Taint
  pub log : List BoardEvent

pub record Config : Type 0 where
  -- cfg.Pipeline != nil
  pub has_pipeline : Bool
  -- what memory.Screen tests for
  pub patterns : Patterns
  -- whether the store's unit of work that appends the event succeeds
  pub accepts : List BoardEvent → BoardEvent → Bool
  pub inserts : List Card → Card → Bool

-- Pipeline.FoldTaint
unfoldable pub fold_taint : (ℕ → Taint) → ℕ → Taint → ℕ → Taint
fold_taint taint session engaged s l = if s == session then engaged l || taint s l else taint s l

-- The board after a read, and whether its event was recorded.
pub record Folded : Type 0 where
  pub board : Board
  pub recorded : Bool

-- What a call leaves and returns; `none` is an error.
pub record Shown : Type 0 where
  pub board : Board
  pub cards : Option (List Card)

abbrev pub add_shown : Card → Option (List Card) → Option (List Card)
add_shown c none = none
add_shown c (some cards) = some (c ∷ cards)

abbrev pub next_shown : Card → Shown → Shown
next_shown c s = record s { cards = add_shown c s.cards }

abbrev pub redacted : Card → Card
redacted c = record c { body = [] }

abbrev pub after_fold : Card → Folded → (Board → Shown) → Shown
after_fold c f rest =
    if f.recorded then next_shown c (rest f.board) else record { board = f.board; cards = none }

module _ (cfg : Config) where
  unfoldable pub with_taint : Board → ℕ → Card → Board
  unfolding fold_taint
  with_taint w reader c =
      if cfg.has_pipeline then record w { taint = fold_taint w.taint reader c.taint_state } else w

  abbrev pub append_transition : Board → ℕ → Card → Folded
  append_transition w reader c =
      let e = taint_transition reader c.card_id c.taint_state in
      if cfg.accepts w.log e
      then record { board = record w { log = w.log ++ e ∷ [] }; recorded = true }
      else record { board = w; recorded = false }

  unfoldable pub fold_card_read : Board → ℕ → Card → Folded
  unfolding with_taint
  fold_card_read w reader c = append_transition (with_taint w reader c) reader c

  -- The loop of ReadBoard.
  unfoldable pub read_cards : Board → ℕ → List Card → Shown
  unfolding fold_card_read
  read_cards w reader [] = record { board = w; cards = some [] }
  read_cards w reader (c ∷ cards) =
      if is_clean c.scan_status
      then after_fold c (fold_card_read w reader c) (λ w'. read_cards w' reader cards)
      else next_shown (redacted c) (read_cards w reader cards)

  unfoldable pub read_board : Board → ℕ → ℕ → Shown
  unfolding read_cards list_cards
  read_board w team reader = read_cards w reader (list_cards team w.cards)

  abbrev pub claimed_row : ℕ → Card → Card
  claimed_row session c = record c { status = card_claimed; claimed_by = some session }

  unfoldable pub claim_found : Board → ℕ → ℕ → Option Card → Shown
  unfolding update_cards fold_card_read
  claim_found w card session none = record { board = w; cards = some [] }
  claim_found w card session (some c) =
      let rows = update_cards (λ r. r.card_id == card) (claimed_row session) w.cards in
      after_fold (claimed_row session c)
        (fold_card_read (record w { cards = rows }) session (claimed_row session c))
        (λ w'. record { board = w'; cards = some [] })

  -- ClaimCard: one card or none is shown; `contended` says that another transaction locks the row.
  unfoldable pub claim_card : Board → Bool → ℕ → ℕ → ℕ → Shown
  unfolding claim_found update_cards fold_card_read find_claimable
  claim_card w contended team card session =
      claim_found w card session (if contended then none else find_claimable team card w.cards)

  abbrev pub no_taint : Taint
  no_taint l = false

  abbrev pub taint_for : Board → ℕ → Taint
  taint_for w session = if cfg.has_pipeline then w.taint session else no_taint

  abbrev pub scan_of : ScreenStatus → ScanStatus
  scan_of screen_clean = scan_clean
  scan_of _ = scan_flagged

  abbrev pub findings_of : ScreenStatus → List Text → List Text
  findings_of screen_clean findings = []
  findings_of _ findings = findings

  abbrev pub new_card : Board → ℕ → ℕ → ℕ → Text → Text → Card
  new_card w fresh team writer title body = record {
    card_id = fresh;
    team_id = team;
    title = title;
    body = body;
    status = card_open;
    taint_state = taint_for w writer;
    scan_status = scan_of (screen cfg.patterns body).0;
    scan_findings = findings_of (screen cfg.patterns body).0 (screen cfg.patterns body).1;
    written_by = writer;
    claimed_by = none;
  }

  abbrev pub write_flagged : Board → Card → Shown
  write_flagged w c =
      let e = card_flagged c.written_by c.card_id c.team_id c.scan_findings in
      if cfg.accepts w.log e
      then record {
        board = record w { cards = w.cards ++ c ∷ []; log = w.log ++ e ∷ [] };
        cards = some (redacted c ∷ []);
      }
      else record { board = w; cards = none }

  abbrev pub write_screened : Board → Card → Shown
  write_screened w c =
      if is_clean c.scan_status
      then record { board = record w { cards = w.cards ++ c ∷ [] }; cards = some (c ∷ []) }
      else write_flagged w c

  -- WriteCard; `fresh` is the id that the row gets. One unit of work: the row and its event.
  unfoldable pub write_card : Board → ℕ → ℕ → ℕ → Text → Text → Shown
  write_card w fresh team writer title body =
      let c = new_card w fresh team writer title body in
      if cfg.inserts w.cards c then write_screened w c else record { board = w; cards = none }

  abbrev pub is_held : ℕ → ℕ → ℕ → Card → Bool
  is_held team card session c =
      c.card_id == card && c.team_id == team && is_claimed_by c.claimed_by session

  -- UpdateCardStatus; no card is shown where the session does not hold it.
  unfoldable pub update_card_status : Board → ℕ → ℕ → ℕ → CardStatus → Shown
  unfolding update_cards select_cards
  update_card_status w team card session status =
      let rows = update_cards (is_held team card session) (set_status status) w.cards in
      let updated = select_cards (is_held team card session) w.cards in
      record {
        board = record w { cards = rows };
        cards = some (if is_empty updated then [] else select_cards (λ c. c.card_id == card) rows);
      }

-- A call of a member.
pub data Call : Type 0 where
  reads : ℕ → ℕ → Call
  claims : Bool → ℕ → ℕ → ℕ → Call
  writes : ℕ → ℕ → ℕ → Text → Text → Call
  updates : ℕ → ℕ → ℕ → CardStatus → Call

unfoldable pub after_call : Config → Board → Call → Board
unfolding read_board claim_card write_card update_card_status
after_call cfg w (reads team reader) = (read_board cfg w team reader).board
after_call cfg w (claims contended team card session) =
    (claim_card cfg w contended team card session).board
after_call cfg w (writes fresh team writer title body) =
    (write_card cfg w fresh team writer title body).board
after_call cfg w (updates team card session status) =
    (update_card_status cfg w team card session status).board

unfoldable pub after_calls : Config → Board → List Call → Board
unfolding after_call
after_calls cfg w [] = w
after_calls cfg w (c ∷ calls) = after_calls cfg (after_call cfg w c) calls
