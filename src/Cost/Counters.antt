-- ===== src/Cost/Counters.antt =====
-- internal/cost/inmem/counters.go (and ports.go): the counters of the tenants' budgets.
-- The mutex makes each operation one step. `failing` says whether failErr is set.
pub mod Within
use nexus_agent_demo.Prelude.{ℕ, Bool, true, false, not, Option, none, some, ◌==◌, if◌then◌else◌}
use nexus_agent_demo.Prelude.Int.{ℤ, pos, ◌+ℤ◌, ◌-ℤ◌, ltb_ℤ}
use nexus_agent_demo.Cost.Money.{int64}

pub data ReserveOutcome : Type 0 where
  reserve_unavailable reserve_stale_epoch reserve_over_ceiling reserve_ok : ReserveOutcome

pub record Counter : Type 0 where
  pub epoch : ℕ
  pub spend : ℤ

pub record Counters : Type 0 where
  pub budgets : ℕ → Option Counter
  pub failing : Bool

unfoldable pub new_counters : Counters
new_counters = record { budgets = λ b. none; failing = false }

unfoldable pub flush : Counters → Counters
flush c = record c { budgets = λ b. none }

-- FailWith: an error, or nil.
unfoldable pub fail_with : Counters → Bool → Counters
fail_with c failing = record c { failing = failing }

unfoldable pub spend_of : Counters → ℕ → Option ℤ
spend_of c b = elim (c.budgets b) [ none ↦ none | some k ↦ some k.spend ]

abbrev pub put : (ℕ → Option Counter) → ℕ → Counter → ℕ → Option Counter
put m b k b' = if b' == b then some k else m b'

-- `none` is the error; the number is the total or the epoch that Go returns beside the outcome.
abbrev pub reserve_in :
    Counters → ℕ → ℕ → ℤ → ℤ → Option Counter → Counters × Option (ReserveOutcome × ℤ)
reserve_in c b epoch amount ceiling none = (c, some (reserve_unavailable, pos 0))
reserve_in c b epoch amount ceiling (some k) =
    if not (k.epoch == epoch)
    then (c, some (reserve_stale_epoch, pos k.epoch))
    else if ltb_ℤ ceiling (int64 (k.spend +ℤ amount))
    then (c, some (reserve_over_ceiling, k.spend))
    else let total = int64 (k.spend +ℤ amount) in
      (
        record c { budgets = put c.budgets b (record k { spend = total }) },
        some (reserve_ok, total),
      )

unfoldable pub counter_reserve : Counters → ℕ → ℕ → ℤ → ℤ → Counters × Option (ReserveOutcome × ℤ)
counter_reserve c b epoch amount ceiling =
    if c.failing then (c, none) else reserve_in c b epoch amount ceiling (c.budgets b)

abbrev release_in : Counters → ℕ → ℕ → ℤ → Option Counter → Counters
release_in c b epoch delta none = c
release_in c b epoch delta (some k) =
    if k.epoch == epoch
    then record c { budgets = put c.budgets b (record k { spend = int64 (k.spend -ℤ delta) }) }
    else c

-- The flag is whether there is no error.
unfoldable pub counter_release : Counters → ℕ → ℕ → ℤ → Counters × Bool
counter_release c b epoch delta =
    if c.failing then (c, false) else (release_in c b epoch delta (c.budgets b), true)

abbrev arm_in : Counters → ℕ → ℕ → ℤ → Option Counter → Counters
arm_in c b epoch baseline (some k) = c
arm_in c b epoch baseline none = record c {
  budgets = put c.budgets b (record { epoch = epoch; spend = baseline });
}

unfoldable pub arm : Counters → ℕ → ℕ → ℤ → Counters × Bool
arm c b epoch baseline =
    if c.failing then (c, false) else (arm_in c b epoch baseline (c.budgets b), true)
