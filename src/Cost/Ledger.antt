-- ===== src/Cost/Ledger.antt =====
-- internal/cost/inmem/ledger.go: the ledger in memory. Maps are functions from the tenants' ids.
-- The mutex makes each operation one step. A record's own id is left out.
use nexus_agent_demo.Prelude.{
  ℕ, Bool, true, false, Option, none, some, List, [], ◌∷◌, ◌++◌, ◌==◌, if◌then◌else◌,
}
use nexus_agent_demo.Prelude.Int.{ℤ, pos, ◌+ℤ◌}
use nexus_agent_demo.Cost.Money.{Money, int64}
use nexus_agent_demo.Cost.Prices.{PriceBookEntry}
use nexus_agent_demo.Cost.Types.{
  Budget, BudgetScope, tenant_scope, session_scope, Decision, CostRecord,
}

-- The methods that FailOn names, and whether each is set to fail.
pub record Failing : Type 0 where
  pub load_price_book : Bool
  pub get_budget : Bool
  pub sum_cost_records : Bool
  pub record_decision : Bool
  pub record_usage : Bool

pub record Ledger : Type 0 where
  pub price_books : ℕ → List PriceBookEntry
  pub budgets : ℕ → List Budget
  pub decisions : ℕ → List (ℕ × Decision)  -- each with its session
  pub records : ℕ → List (ℕ × CostRecord)
  pub fail : Failing

abbrev pub set {ℓ} : {A : Type ℓ} → (ℕ → A) → ℕ → A → ℕ → A
set m k v k' = if k' == k then v else m k'

unfoldable pub seed_price_book : Ledger → ℕ → List PriceBookEntry → Ledger
seed_price_book l tenant entries = record l { price_books = set l.price_books tenant entries }

-- `id` is uuid.New's.
unfoldable pub seed_budget : Ledger → ℕ → ℕ → BudgetScope → Money → Ledger × Budget
seed_budget l id tenant scope ceiling =
    let b : Budget = record { id = id; scope = scope; ceiling = ceiling; epoch = 1 } in
    (record l { budgets = set l.budgets tenant (l.budgets tenant ++ b ∷ []) }, b)

-- `none` is the error.
unfoldable pub load_price_book : Ledger → ℕ → Option (List PriceBookEntry)
load_price_book l tenant = if l.fail.load_price_book then none else some (l.price_books tenant)

same_scope : BudgetScope → BudgetScope → Bool
same_scope tenant_scope tenant_scope = true
same_scope tenant_scope (session_scope s) = false
same_scope (session_scope s) tenant_scope = false
same_scope (session_scope s) (session_scope s') = s == s'

find_budget : BudgetScope → List Budget → Option Budget
unfolding same_scope
find_budget scope [] = none
find_budget scope (b ∷ bs) =
    let rest = find_budget scope bs in if same_scope b.scope scope then some b else rest

-- The outer `none` is the error, the inner one the answer that there is none.
unfoldable pub get_budget : Ledger → ℕ → BudgetScope → Option (Option Budget)
unfolding find_budget
get_budget l tenant scope =
    if l.fail.get_budget then none else some (find_budget scope (l.budgets tenant))

counts : BudgetScope → ℕ → Bool
counts tenant_scope session = true
counts (session_scope s) session = session == s

sum_rows : BudgetScope → ℤ → List (ℕ × CostRecord) → ℤ
unfolding counts
sum_rows scope total [] = total
sum_rows scope total ((session, r) ∷ rows) =
    sum_rows scope (if counts scope session then int64 (total +ℤ r.amount.micros) else total) rows

unfoldable pub sum_cost_records : Ledger → ℕ → BudgetScope → Option ℤ
unfolding sum_rows
sum_cost_records l tenant scope =
    if l.fail.sum_cost_records then none else some (sum_rows scope (pos 0) (l.records tenant))

-- The flag is whether there is no error.
unfoldable pub record_decision : Ledger → ℕ → ℕ → Decision → Ledger × Bool
record_decision l tenant session d = if l.fail.record_decision then (l, false) else (
  record l { decisions = set l.decisions tenant (l.decisions tenant ++ (session, d) ∷ []) },
  true,
)

rows_of : ℕ → List CostRecord → List (ℕ × CostRecord)
rows_of session [] = []
rows_of session (r ∷ rs) = (session, r) ∷ rows_of session rs

unfoldable pub record_usage : Ledger → ℕ → ℕ → List CostRecord → Ledger × Bool
unfolding rows_of
record_usage l tenant session rs = if l.fail.record_usage then (l, false) else (
  record l { records = set l.records tenant (l.records tenant ++ rows_of session rs) },
  true,
)
