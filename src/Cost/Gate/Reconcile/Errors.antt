-- ===== src/Cost/Gate/Reconcile/Errors.antt =====
-- What Reconcile leaves where it returns an error.
use nexus_agent_demo.Prelude.{
  ℕ, ◌≡◌, refl, ◌∙◌, Bool, true, false, Option, none, some, List, [], ◌∷◌, if◌then◌else◌,
}
use nexus_agent_demo.Prelude.Int.{ℤ}
use nexus_agent_demo.Cost.Money.{Money, sub}
use nexus_agent_demo.Cost.Prices.{PriceBookEntry, MeterId}
use nexus_agent_demo.Cost.Ledger.{load_price_book}
use nexus_agent_demo.Cost.Types.{CostRecord, Reservation}
use nexus_agent_demo.Cost.Gate.{Gate, price_book_for, cached_book, loaded_book}
use nexus_agent_demo.Cost.Gate.Reconcile.{
  Usage, reconcile, finish_reconcile, in_currency, released, holds_nothing, recorded, record_all,
  after_usage, priced_usage, quantities, price_all, unreported_record,
}

-- The sessions and the counters of the one gate are those of the other.
pub record SameBooks (g g' : Gate) : Type 0 where
  pub same_sessions : g'.session_state ≡ g.session_state
  pub same_counters : g'.counters ≡ g.counters

-- An error leaves the books as they were.
abbrev Safe : Gate → Gate × Bool → Type 0
Safe g (g', ok) = ok ≡ false → SameBooks g g'

released-Safe :
    (g : Gate) (res : Reservation) (delta : Option Money) → Safe g (released g res delta)
released-Safe g res none e = record { same_sessions = refl; same_counters = refl }
released-Safe g res (some d) e = cc

SameBooks-trans : (g g' g'' : Gate) → SameBooks g g' → SameBooks g' g'' → SameBooks g g''
SameBooks-trans g g' g'' a b = record {
  same_sessions = b.same_sessions ∙ a.same_sessions;
  same_counters = b.same_counters ∙ a.same_counters;
}

finish-Safe :
    (g : Gate) (res : Reservation) (actual : Money) → Safe g (finish_reconcile g res actual)
unfolding finish_reconcile
finish-Safe g res actual = go (holds_nothing res.decision.kind)
  where
    go :
        (b : Bool)
        → Safe g (
            if b
            then (g, true)
            else released g res (sub (in_currency res.decision.reserved g.cfg.currency) actual))
    go true e = cc
    go false e =
        released-Safe g res (sub (in_currency res.decision.reserved g.cfg.currency) actual) e

after_usage-Safe :
    (g g' : Gate) (ok : Bool) (res : Reservation) (actual : Money)
    → SameBooks g g'
    → Safe g (after_usage (g', ok) res actual)
after_usage-Safe g g' false res actual s e = s
after_usage-Safe g g' true res actual s e = SameBooks-trans g g' _ s (finish-Safe g' res actual e)

record_all_same :
    (g : Gate) (res : Reservation) (rs : List CostRecord) → SameBooks g (record_all g res rs).0
record_all_same g res [] = record { same_sessions = refl; same_counters = refl }
record_all_same g res (r ∷ rs) = record { same_sessions = refl; same_counters = refl }

recorded-Safe :
    (g g' : Gate) (res : Reservation) (o : Option (List CostRecord × Money))
    → SameBooks g g'
    → Safe g (recorded g' res o)
recorded-Safe g g' res none s e = s
recorded-Safe g g' res (some (rs, actual)) s e =
    let w = record_all g' res rs in
    after_usage-Safe g w.0 w.1 res actual (SameBooks-trans g g' w.0 s (record_all_same g' res rs)) e

price_book_for_same : (g : Gate) (tenant : ℕ) → SameBooks g (price_book_for g tenant).0
unfolding price_book_for
price_book_for_same g tenant = go (g.price_books tenant)
  where
    load : (l : Option (List PriceBookEntry)) → SameBooks g (loaded_book g tenant l).0
    load none = record { same_sessions = refl; same_counters = refl }
    load (some b) = record { same_sessions = refl; same_counters = refl }

    go : (p : Option (List PriceBookEntry)) → SameBooks g (cached_book g tenant p).0
    go (some b) = record { same_sessions = refl; same_counters = refl }
    go none = load (load_price_book g.ledger tenant)

priced_usage-Safe :
    (g g' : Gate) (book : Option (List PriceBookEntry)) (res : Reservation)
    (us : List (MeterId × ℤ)) (now : ℕ)
    → SameBooks g g'
    → Safe g (priced_usage (g', book) res us now)
priced_usage-Safe g g' none res us now s e = s
priced_usage-Safe g g' (some book) res us now s e =
    recorded-Safe g g' res (price_all g'.meters book res now us _) s e

-- Where Reconcile returns an error, whatever has failed, it has released nothing: what the
-- sessions have spent and the tenants' counters are as before.
pub failed_reconcile_releases_nothing :
    (g : Gate) (res : Reservation) (usage : Usage) (reported : Bool) (now : ℕ)
    → (reconcile g res usage reported now).1 ≡ false
    → SameBooks g (reconcile g res usage reported now).0
unfolding reconcile
failed_reconcile_releases_nothing g res usage true now e =
    let b = price_book_for g res.tenant in
    priced_usage-Safe g b.0 b.1 res (quantities usage) now (price_book_for_same g res.tenant) e
failed_reconcile_releases_nothing g res usage false now e =
    let actual = in_currency res.decision.reserved g.cfg.currency in
    recorded-Safe g g res (some (unreported_record res actual ∷ [], actual))
      (record { same_sessions = refl; same_counters = refl }) e
