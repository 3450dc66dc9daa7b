-- ===== src/Cost/Money.antt =====
-- internal/cost/money.go: amounts in integer micros, with the wrap-around of int64.
use nexus_agent_demo.Prelude.{
  ℕ, zero, suc, ◌+◌, ◌-◌, ◌*◌, ◌/◌, ◌%◌, ◌^◌, ◌≤◌, ◌<◌, ◌≡◌, refl, inl, inr, Bool, true, ◌||◌,
  Option, none, some, arith, ltb, ◌==◌, Bool-cases, if◌then◌else◌,
}
use nexus_agent_demo.Prelude.Int.{ℤ, pos, negsuc, pos_part, neg_part, ◌+ℤ◌, ◌-ℤ◌, ◌*ℤ◌, ltb_ℤ}
use nexus_agent_demo.Prelude.Text.{Text, text_eq}

abbrev pub limit : ℕ
limit = 2 ^ 63

-- The int64 whose bits are the number `n` below 2 ^ 64.
abbrev of_bits : ℕ → ℤ
of_bits n = if ltb n limit then pos n else negsuc (2 * limit - n - 1)

-- What int64 arithmetic makes of the exact result.
unfoldable pub int64 : ℤ → ℤ
int64 (pos n) = of_bits (n % (2 * limit))
int64 (negsuc n) = of_bits (2 * limit - 1 - n % (2 * limit))

-- The integers that int64 holds.
abbrev pub InRange : ℤ → Type 0
InRange z = (pos_part z < limit) × (neg_part z ≤ limit)

pub in_range :
    (z : ℤ) → pos_part z < limit + neg_part z → neg_part z ≤ limit + pos_part z → InRange z
in_range z h k = ground arith

pub int64-InRange : (z : ℤ) → InRange (int64 z)
unfolding int64
int64-InRange z = ground arith

pub int64_id : (z : ℤ) → InRange z → int64 z ≡ z
unfolding int64
int64_id z h = ground arith

-- x / d for a positive d: towards 0.
unfoldable pub quot : ℤ → ℕ → ℤ
quot (pos n) d = pos (n / d)
quot (negsuc n) d = int64 (pos 0 -ℤ pos ((n + 1) / d))

pub record Money : Type 0 where
  pub micros : ℤ
  pub currency : Text

unfoldable pub zero_money : Text → Money
zero_money currency = record { micros = pos 0; currency = currency }

-- `none` where Go returns the error for two currencies.
unfoldable pub add : Money → Money → Option Money
add m other =
    if text_eq m.currency other.currency
    then some (record { micros = int64 (m.micros +ℤ other.micros); currency = m.currency })
    else none

unfoldable pub sub : Money → Money → Option Money
sub m other =
    if text_eq m.currency other.currency
    then some (record { micros = int64 (m.micros -ℤ other.micros); currency = m.currency })
    else none

unfoldable pub cmp : Money → Money → Option ℤ
cmp m other =
    if text_eq m.currency other.currency
    then some (
        if ltb_ℤ m.micros other.micros
        then negsuc 0
        else if ltb_ℤ other.micros m.micros
        then pos 1
        else pos 0)
    else none

abbrev is_zero : ℤ → Bool
is_zero z = pos_part z + neg_part z == 0

unfoldable pub price_quantity : ℤ → ℤ → Text → Money
unfolding zero_money quot int64
price_quantity quantity price currency =
    if is_zero quantity || is_zero price then zero_money currency else record {
      micros = quot (int64 (int64 (quantity *ℤ price) +ℤ pos 500_000)) 1_000_000;
      currency = currency;
    }

mul_pos : (a b : ℕ) → pos a *ℤ pos b ≡ pos (a * b)
unfolding ◌*ℤ◌
mul_pos a b = ground arith

add_pos : (a b : ℕ) → pos a +ℤ pos b ≡ pos (a + b)
unfolding ◌+ℤ◌
add_pos a b = ground arith

int64_pos : (n : ℕ) → n < limit → int64 (pos n) ≡ pos n
int64_pos n h = int64_id (pos n) (h, omega arith)

-- The price where neither factor is 0.
rounded :
    (q p : ℕ)
    → q * p + 500_000 < limit
    → quot (int64 (int64 (pos q *ℤ pos p) +ℤ pos 500_000)) 1_000_000
      ≡ pos ((q * p + 500_000) / 1_000_000)
unfolding quot
rounded q p h =
    rw
      (
        mul_pos q p,
        int64_pos (q * p) (omega arith),
        add_pos (q * p) 500_000,
        int64_pos (q * p + 500_000) h,
      )
      refl

zero_product : (q p : ℕ) → (is_zero (pos q) || is_zero (pos p)) ≡ true → q * p ≡ 0
zero_product zero p h = omega arith
zero_product (suc q) zero h = omega arith
zero_product (suc q) (suc p) h = ground arith

pub price_quantity_exact :
    (q p : ℕ) (currency : Text)
    → q * p + 500_000 < limit
    → price_quantity (pos q) (pos p) currency
      ≡ record { micros = pos ((q * p + 500_000) / 1_000_000); currency = currency }
unfolding price_quantity zero_money
price_quantity_exact q p currency h = elim (Bool-cases (is_zero (pos q) || is_zero (pos p))) [
  | inl e ↦ rw (e, zero_product q p e) refl
  | inr e ↦ rw (e, rounded q p h) refl
]

-- Where neither is negative: a quantity at a price per million costs the exact product in micros, divided by a million and
-- rounded once to the nearest, halves up, in the given currency, if the product and the half that
-- is added fit int64.
pub price_rounds_half_up :
    (q p : ℕ) (currency : Text)
    → q * p + 500_000 < limit
    → let m = price_quantity (pos q) (pos p) currency in
      (m.currency ≡ currency)
      × (r : ℕ) × (m.micros ≡ pos r)
      × (1_000_000 * r ≤ q * p + 500_000)
      × (q * p + 500_000 < 1_000_000 * r + 1_000_000)
price_rounds_half_up q p currency h =
    rw (price_quantity_exact q p currency h)
      (refl, (q * p + 500_000) / 1_000_000, refl, omega arith, omega arith)
