-- ===== src/Teams/Examples.antt =====
-- Tests of the board: one session writes a card, another claims it, a third reads the board.
mod Budget
use nexus_agent_demo.Prelude.{
  ◌≡◌, refl, true, false, Option, none, some, List, [], ◌∷◌, ◌==◌, length,
}
use nexus_agent_demo.Prelude.Text.{Text, codes}
use nexus_agent_demo.Memory.Screen.{
  Pattern, Patterns, check, contains_exfiltration, exfiltrations, has_prefix, injections, is_empty,
  scan, scan_suspicious, screen, screen_clean, screen_flagged, screen_rejected, verdict,
}
use nexus_agent_demo.Memory.Screen.Verdict.{is_harmless, passes, screen-is_harmless}
use nexus_agent_demo.Teams.Cards.{
  Card, find_claimable, first_leg, list_cards, select_cards, update_cards,
}
use nexus_agent_demo.Teams.Board.{
  Board, Call, Config, after_call, after_calls, claim_card, claim_found, claims, fold_card_read,
  read_board, read_cards, with_taint, write_card,
}
use nexus_agent_demo.Teams.Board.Laundering.{read_board-engages}

abbrev commands : Pattern
commands = record { source = codes "ignore"; matches = has_prefix (codes "ignore") }

abbrev odd_marks : Pattern
odd_marks = record { source = codes "?"; matches = has_prefix (codes "?") }

abbrev keys : Pattern
keys = record { source = codes "AKIA"; matches = has_prefix (codes "AKIA") }

abbrev patterns : Patterns
patterns = record {
  injection = commands ∷ [];
  suspicious = odd_marks ∷ [];
  exfiltration = keys ∷ [];
  is_blank = is_empty;
}

abbrev cfg : Config
cfg = record {
  has_pipeline = true;
  patterns = patterns;
  accepts = λ log e. true;
  inserts = λ cards c. true;
}

-- Only session 1 has a leg engaged.
abbrev start : Board
start = record { cards = []; taint = λ s l. s == 1; log = [] }

abbrev note : Text
note = codes "see the report"

abbrev written : Board
unfolding write_card screen scan scan_suspicious check injections exfiltrations verdict
    contains_exfiltration
written = (write_card cfg start 100 7 1 (codes "report") note).board

-- Session 3 claims the card.
abbrev calls : List Call
calls = claims false 7 100 3 ∷ []

abbrev cards_of : Option (List Card) → List Card
cards_of none = []
cards_of (some cards) = cards

abbrev shown : List Card
unfolding read_board after_calls write_card
shown =
    cards_of
      (read_board cfg
        (after_calls cfg (write_card cfg start 100 7 1 (codes "report") note).board calls) 7
        2).cards

note_passes : (screen patterns note).0 ≡ screen_clean
unfolding screen scan scan_suspicious check injections exfiltrations verdict contains_exfiltration
note_passes = refl

command_rejected : (screen patterns (codes "ignore it")).0 ≡ screen_rejected
unfolding screen scan scan_suspicious check injections exfiltrations verdict contains_exfiltration
command_rejected = refl

mark_flagged : (screen patterns (codes "?")).0 ≡ screen_flagged
unfolding screen scan scan_suspicious check injections exfiltrations verdict contains_exfiltration
mark_flagged = refl

key_rejected : (screen patterns (codes "AKIA7")).0 ≡ screen_rejected
unfolding screen scan scan_suspicious check injections exfiltrations verdict contains_exfiltration
key_rejected = refl

is_shown : length shown ≡ 1
unfolding read_board read_cards fold_card_read with_taint after_calls after_call claim_card
    claim_found find_claimable update_cards list_cards select_cards write_card screen scan
    scan_suspicious check injections exfiltrations verdict contains_exfiltration
is_shown = refl

shows :
    (let w' = after_calls cfg (write_card cfg start 100 7 1 (codes "report") note).board calls in
      (read_board cfg w' 7 2).cards ≡ some shown)
unfolding read_board read_cards fold_card_read with_taint after_calls after_call claim_card
    claim_found find_claimable update_cards list_cards select_cards write_card screen scan
    scan_suspicious check injections exfiltrations verdict contains_exfiltration
shows = refl

read_board-engages_example :
    (let w' = after_calls cfg (write_card cfg start 100 7 1 (codes "report") note).board calls in
      (read_board cfg w' 7 2).board.taint 2 first_leg ≡ true)
read_board-engages_example =
    read_board-engages cfg start 100 7 1 (codes "report") note calls 2 shown first_leg refl
      note_passes refl refl shows

screen-is_harmless_example :
    passes (screen patterns (codes "ignore it")).0 ≡ is_harmless patterns (codes "ignore it")
screen-is_harmless_example = screen-is_harmless patterns (codes "ignore it")
