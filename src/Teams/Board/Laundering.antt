-- ===== src/Teams/Board/Laundering.antt =====
-- A leg of the taint does not get lost by way of the board.
pub mod Rows
use nexus_agent_demo.Prelude.{
  ℕ, ◌≡◌, refl, ap, ◌∙◌, inl, inr, Bool, true, Option, none, some, List, [], ◌∷◌, ◌++◌,
  if◌then◌else◌, ◌==◌, arith, Any, Bool-cases,
}
use nexus_agent_demo.Prelude.Text.{Text}
use nexus_agent_demo.Memory.Screen.{screen, screen_clean}
use nexus_agent_demo.Teams.Cards.{
  Card, Leg, find_claimable, is_clean, list_cards, update_cards, set_status,
}
use nexus_agent_demo.Teams.Board.Laundering.Rows.{
  Any-last, Any-left, IsTainted, list-IsTainted, update-IsTainted,
}
use nexus_agent_demo.Teams.Board.{
  Board, Call, Config, Folded, after_call, after_calls, after_fold, add_shown, claim_card,
  claim_found, claimed_row, claims, fold_card_read, fold_taint, is_held, new_card, scan_of,
  write_screened, card_flagged, read_board, read_cards, reads, redacted, update_card_status,
  updates, with_taint, write_card, writes,
}

module _ (cfg : Config) where
  -- A read's fold.
  fold-cards : (w : Board) (s : ℕ) (c : Card) → (fold_card_read cfg w s c).board.cards ≡ w.cards
  unfolding fold_card_read with_taint
  fold-cards w s c = ground arith

  fold-keeps :
      (w : Board) (s : ℕ) (c : Card) (x : ℕ) (l : Leg)
      → w.taint x l ≡ true
      → (fold_card_read cfg w s c).board.taint x l ≡ true
  unfolding fold_card_read with_taint fold_taint
  fold-keeps w s c x l h = ground (arith, h)

  fold-engages :
      (w : Board) (s : ℕ) (c : Card) (l : Leg)
      → cfg.has_pipeline ≡ true
      → c.taint_state l ≡ true
      → (fold_card_read cfg w s c).board.taint s l ≡ true
  unfolding fold_card_read with_taint fold_taint
  fold-engages w s c l p h = ground (arith, p, h)

  -- One round of the loop keeps what a fold and the rest of the loop keep.
  read_round :
      (Q : Board → Type 0) (reader : ℕ) (c : Card) (cards : List Card) (w : Board)
      → Q (fold_card_read cfg w reader c).board
      → ((w' : Board) → Q w' → Q (read_cards cfg w' reader cards).board)
      → Q w
      → Q (read_cards cfg w reader (c ∷ cards)).board
  unfolding read_cards
  read_round Q reader c cards w f k h = elim (Bool-cases (is_clean c.scan_status)) [
    | inl e ↦ elim (Bool-cases (fold_card_read cfg w reader c).recorded) [
      | inl r ↦ rw (e, r) (k (fold_card_read cfg w reader c).board f)
      | inr r ↦ rw (e, r) f
    ]
    | inr e ↦ rw e (k w h)
  ]

  read-cards :
      (reader : ℕ) (cards rows : List Card) (w : Board)
      → w.cards ≡ rows
      → (read_cards cfg w reader cards).board.cards ≡ rows
  unfolding read_cards
  read-cards reader [] rows w h = h
  read-cards reader (c ∷ cards) rows w h =
      read_round (λ w'. w'.cards ≡ rows) reader c cards w (fold-cards w reader c ∙ h)
        (λ w' h'. read-cards reader cards rows w' h') h

  read-keeps :
      (reader : ℕ) (cards : List Card) (w : Board) (x : ℕ) (l : Leg)
      → w.taint x l ≡ true
      → (read_cards cfg w reader cards).board.taint x l ≡ true
  unfolding read_cards
  read-keeps reader [] w x l h = h
  read-keeps reader (c ∷ cards) w x l h =
      read_round (λ w'. w'.taint x l ≡ true) reader c cards w (fold-keeps w reader c x l h)
        (λ w' h'. read-keeps reader cards w' x l h') h

  add_shown-some :
      (c : Card) (o : Option (List Card)) (shown : List Card)
      → add_shown c o ≡ some shown
      → (rest : List Card) × (o ≡ some rest)
  add_shown-some c none shown h = absurd cc
  add_shown-some c (some rest) shown h = (rest, refl)

  read-engages :
      (reader team : ℕ) (l : Leg) (cards : List Card) (w : Board) (shown : List Card)
      → cfg.has_pipeline ≡ true
      → (read_cards cfg w reader cards).cards ≡ some shown
      → Any (IsTainted team l) cards
      → (read_cards cfg w reader cards).board.taint reader l ≡ true
  unfolding read_cards
  read-engages reader team l [] w shown p e h = absurd h
  read-engages reader team l (c ∷ cards) w shown p e h =
      let f : Folded = fold_card_read cfg w reader c in
      elim (Bool-cases (is_clean c.scan_status)) [
        | inl k ↦ elim (Bool-cases f.recorded) [
          | inl r ↦
              (let o = add_shown-some c (read_cards cfg f.board reader cards).cards shown (cc) in
                rw (k, r)
                  (elim h [
                    | inl here ↦
                        read-keeps reader cards f.board reader l
                          (fold-engages w reader c l p here.2)
                    | inr there ↦ read-engages reader team l cards f.board o.0 p o.1 there
                  ]))
          | inr r ↦ absurd cc
        ]
        | inr k ↦
            (let o = add_shown-some (redacted c) (read_cards cfg w reader cards).cards shown (cc) in
              rw k (elim h [
                | inl here ↦ absurd (cc (here.1, k))
                | inr there ↦ read-engages reader team l cards w o.0 p o.1 there
              ]))
      ]

  after_fold-board :
      (c : Card) (f : Folded)
      → (after_fold c f (λ w'. record { board = w'; cards = some [] })).board ≡ f.board
  after_fold-board c f = elim (Bool-cases f.recorded) [ inl e ↦ rw e refl | inr e ↦ rw e refl ]

  claim-IsTainted :
      (w : Board) (card session team : ℕ) (l : Leg) (o : Option Card)
      → Any (IsTainted team l) w.cards
      → Any (IsTainted team l) (claim_found cfg w card session o).board.cards
  unfolding claim_found
  claim-IsTainted w card session team l none h = h
  claim-IsTainted w card session team l (some c) h =
      let rows : List Card =
        update_cards (λ r. r.card_id == card) (claimed_row cfg session) w.cards in
      let w' : Board = record w { cards = rows } in
      let row : Card = claimed_row cfg session c in
      let same : (after_fold row (fold_card_read cfg w' session row)
            (λ v. record { board = v; cards = some [] })).board.cards
          ≡ rows =
        ap (λ v. v.cards) (after_fold-board row (fold_card_read cfg w' session row))
        ∙ fold-cards w' session row in
      rw same (
        update-IsTainted team l (λ r. r.card_id == card) (claimed_row cfg session) (λ x k. k)
          w.cards h)

  write_screened-IsTainted :
      (w : Board) (c : Card) (team : ℕ) (l : Leg)
      → Any (IsTainted team l) w.cards
      → Any (IsTainted team l) (write_screened cfg w c).board.cards
  write_screened-IsTainted w c team l h = elim (Bool-cases (is_clean c.scan_status)) [
    | inl e ↦ rw e (Any-left (IsTainted team l) w.cards (c ∷ []) h)
    | inr e ↦
        elim (Bool-cases
          (cfg.accepts w.log (card_flagged c.written_by c.card_id c.team_id c.scan_findings))) [
            | inl a ↦ rw (e, a) (Any-left (IsTainted team l) w.cards (c ∷ []) h)
            | inr a ↦ rw (e, a) h
          ]
  ]

  write-IsTainted :
      (w : Board) (fresh team' writer : ℕ) (title body : Text) (team : ℕ) (l : Leg)
      → Any (IsTainted team l) w.cards
      → Any (IsTainted team l) (write_card cfg w fresh team' writer title body).board.cards
  unfolding write_card
  write-IsTainted w fresh team' writer title body team l h =
      let c : Card = new_card cfg w fresh team' writer title body in
      elim (Bool-cases (cfg.inserts w.cards c)) [
        | inl e ↦ rw e (write_screened-IsTainted w c team l h)
        | inr e ↦ rw e h
      ]

  after_call-IsTainted :
      (w : Board) (call : Call) (team : ℕ) (l : Leg)
      → Any (IsTainted team l) w.cards
      → Any (IsTainted team l) (after_call cfg w call).cards
  unfolding after_call read_board claim_card update_card_status
  after_call-IsTainted w (reads t reader) team l h =
      rw (read-cards reader (list_cards t w.cards) w.cards w refl) h
  after_call-IsTainted w (claims contended t card session) team l h =
      claim-IsTainted w card session team l
        (if contended then none else find_claimable t card w.cards) h
  after_call-IsTainted w (writes fresh t writer title body) team l h =
      write-IsTainted w fresh t writer title body team l h
  after_call-IsTainted w (updates t card session status) team l h =
      update-IsTainted team l (is_held cfg t card session) (set_status status) (λ c k. k) w.cards h

  after_calls-IsTainted :
      (w : Board) (calls : List Call) (team : ℕ) (l : Leg)
      → Any (IsTainted team l) w.cards
      → Any (IsTainted team l) (after_calls cfg w calls).cards
  unfolding after_calls
  after_calls-IsTainted w [] team l h = h
  after_calls-IsTainted w (call ∷ calls) team l h =
      after_calls-IsTainted (after_call cfg w call) calls team l
        (after_call-IsTainted w call team l h)

  written-IsTainted :
      (w : Board) (fresh team writer : ℕ) (title body : Text) (l : Leg)
      → cfg.has_pipeline ≡ true
      → (screen cfg.patterns body).0 ≡ screen_clean
      → cfg.inserts w.cards (new_card cfg w fresh team writer title body) ≡ true
      → w.taint writer l ≡ true
      → Any (IsTainted team l) (write_card cfg w fresh team writer title body).board.cards
  unfolding write_card
  written-IsTainted w fresh team writer title body l p s i h =
      let c : Card = new_card cfg w fresh team writer title body in
      let k : is_clean c.scan_status ≡ true = ap (λ x. is_clean (scan_of cfg x)) s in
      let t : c.taint_state l ≡ true = rw p h in
      rw (i, k) (Any-last (IsTainted team l) w.cards c (refl, k, t))

  -- Where the pipeline is wired: a leg that is engaged in a session when it writes a card, whose body
  -- passes the screen and whose row is stored, is engaged in every session that reads the board
  -- afterwards and is shown its cards, whatever the members' calls in between.
  pub read_board-engages :
      (w : Board) (fresh team writer : ℕ) (title body : Text) (calls : List Call) (reader : ℕ)
      (shown : List Card) (l : Leg)
      → cfg.has_pipeline ≡ true
      → (screen cfg.patterns body).0 ≡ screen_clean
      → cfg.inserts w.cards (new_card cfg w fresh team writer title body) ≡ true
      → w.taint writer l ≡ true
      → (let w' = after_calls cfg (write_card cfg w fresh team writer title body).board calls in
          (read_board cfg w' team reader).cards ≡ some shown)
      → let w' = after_calls cfg (write_card cfg w fresh team writer title body).board calls in
        (read_board cfg w' team reader).board.taint reader l ≡ true
  unfolding read_board
  read_board-engages w fresh team writer title body calls reader shown l p s i h e =
      let w' : Board =
        after_calls cfg (write_card cfg w fresh team writer title body).board calls in
      read-engages reader team l (list_cards team w'.cards) w' shown p e (
        list-IsTainted team l w'.cards (
          after_calls-IsTainted (write_card cfg w fresh team writer title body).board calls team l
            (written-IsTainted w fresh team writer title body l p s i h)))
