-- ===== src/Cost/Prices.antt =====
-- internal/cost/meter.go and pricebook.go: the meters and the tenant's price book.
-- Times and versions are numbers. The price of an entry is an int64.
pub mod Covers
pub mod Best
use nexus_agent_demo.Prelude.{
  ℕ, zero, suc, ◌<◌, ◌≤◌, ◌≡◌, ◌≢◌, refl, ◌↔◌, ◌⊎◌, inl, inr, Bool, true, false, not, ◌&&◌, ◌||◌,
  Option, none, some, List, [], ◌∷◌, arith, ltb, ◌==◌, All, Any, Bool-cases, if◌then◌else◌,
}
use nexus_agent_demo.Prelude.Int.{ℤ}
use nexus_agent_demo.Prelude.Text.{Text, codes, text_eq}
use nexus_agent_demo.Cost.Money.{Money, price_quantity}

pub data MeterId : Type 0 where
  input_uncached input_cache_read input_cache_write output : MeterId
  sandbox_seconds tool_invocations embedding_tokens unreported_reservation : MeterId

abbrev pub index : MeterId → ℕ
index input_uncached = 0
index input_cache_read = 1
index input_cache_write = 2
index output = 3
index sandbox_seconds = 4
index tool_invocations = 5
index embedding_tokens = 6
index unreported_reservation = 7

abbrev pub meter_eq : MeterId → MeterId → Bool
meter_eq a b = index a == index b

pub record Meter : Type 0 where
  pub id : MeterId
  pub unit : Text
  pub reservable : Bool

abbrev tokens : MeterId → Meter
tokens id = record { id = id; unit = codes "tokens"; reservable = true }

-- The registry's map, as the list of its meters.
unfoldable pub default_meters : List Meter
default_meters =
    tokens input_uncached
    ∷ tokens input_cache_read
    ∷ tokens input_cache_write
    ∷ tokens output
    ∷ tokens embedding_tokens
    ∷ record { id = sandbox_seconds; unit = codes "seconds"; reservable = false }
    ∷ record { id = tool_invocations; unit = codes "count"; reservable = false }
    ∷ []

unfoldable pub lookup_meter : List Meter → MeterId → Option Meter
lookup_meter [] id = none
lookup_meter (m ∷ ms) id =
    let rest = lookup_meter ms id in if meter_eq m.id id then some m else rest

abbrev pub wildcard_subject : Text
wildcard_subject = codes "*"

pub record PriceBookEntry : Type 0 where
  pub meter : MeterId
  pub subject : Text
  pub version : ℕ
  pub currency : Text
  pub price_per_million_micros : ℤ
  pub effective_from : ℕ
  pub effective_until : Option ℕ

unfoldable pub covers_subject : PriceBookEntry → Text → Bool
covers_subject e subject = text_eq e.subject subject || text_eq e.subject wildcard_subject

unfoldable before_end : ℕ → Option ℕ → Bool
before_end at none = true
before_end at (some end) = ltb at end

unfoldable pub covers_time : PriceBookEntry → ℕ → Bool
unfolding before_end
covers_time e at = if ltb at e.effective_from then false else before_end at e.effective_until

-- The entry is a candidate.
unfoldable pub applies : MeterId → Text → ℕ → PriceBookEntry → Bool
unfolding covers_subject covers_time
applies meter subject at e = meter_eq e.meter meter && covers_subject e subject && covers_time e at

unfoldable pub candidates : MeterId → Text → ℕ → List PriceBookEntry → List PriceBookEntry
unfolding applies
candidates meter subject at [] = []
candidates meter subject at (e ∷ es) =
    let rest = candidates meter subject at es in
    if applies meter subject at e then e ∷ rest else rest

-- The order that `sort.Slice` is given: e comes before e'.
unfoldable pub preferred : Text → PriceBookEntry → PriceBookEntry → Bool
preferred subject e e' =
    let i = text_eq e.subject subject in
    let j = text_eq e'.subject subject in
    if i
    then (if j then ltb e'.version e.version else true)
    else (if j then false else ltb e'.version e.version)

-- `e` put before the first of the sorted entries that it comes before.
unfoldable pub insert_sorted : Text → PriceBookEntry → List PriceBookEntry → List PriceBookEntry
unfolding preferred
insert_sorted subject e [] = e ∷ []
insert_sorted subject e (x ∷ xs) =
    let rest = insert_sorted subject e xs in if preferred subject e x then e ∷ x ∷ xs else x ∷ rest

-- `sort.Slice`, which sorts up to twelve by insertion, from the first on; of more, it may leave equal
-- ones in another order.
unfoldable pub sort_slice : Text → List PriceBookEntry → List PriceBookEntry → List PriceBookEntry
unfolding insert_sorted
sort_slice subject sorted [] = sorted
sort_slice subject sorted (e ∷ es) = sort_slice subject (insert_sorted subject e sorted) es

-- candidates[0], where there is one.
abbrev pub first_of : List PriceBookEntry → Option PriceBookEntry
first_of [] = none
first_of (e ∷ es) = some e

unfoldable pub lookup : List PriceBookEntry → MeterId → Text → ℕ → Option PriceBookEntry
unfolding candidates sort_slice
lookup entries meter subject at =
    first_of (sort_slice subject [] (candidates meter subject at entries))

abbrev priced : Option PriceBookEntry → ℤ → Option Money
priced none quantity = none
priced (some e) quantity = some (price_quantity quantity e.price_per_million_micros e.currency)

unfoldable pub cost : List PriceBookEntry → MeterId → Text → ℤ → ℕ → Option Money
unfolding lookup
cost entries meter subject quantity at = priced (lookup entries meter subject at) quantity
