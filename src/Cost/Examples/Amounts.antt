-- ===== src/Cost/Examples/Amounts.antt =====
-- Tests of the decimal amounts, the odd ones among them.
use nexus_agent_demo.Prelude.{◌≡◌, refl, none, some}
use nexus_agent_demo.Prelude.Int.{ℤ, pos, negsuc}
use nexus_agent_demo.Prelude.Text.{codes}
use nexus_agent_demo.Cost.Money.{Money}
use nexus_agent_demo.Cost.Decimal.{money_string, parse_decimal}

abbrev usd : ℤ → Money
usd micros = record { micros = micros; currency = codes "USD" }

parse_cents : parse_decimal (codes " 0.05 ") (codes "USD") ≡ some (usd (pos 50_000))
unfolding parse_decimal
parse_cents = refl

parse_owed : parse_decimal (codes "-12") (codes "USD") ≡ some (usd (negsuc 11_999_999))
unfolding parse_decimal
parse_owed = refl

parse_too_fine : parse_decimal (codes "1.0000001") (codes "USD") ≡ none
unfolding parse_decimal
parse_too_fine = refl

parse_letters : parse_decimal (codes "1a") (codes "USD") ≡ none
unfolding parse_decimal
parse_letters = refl

parse_empty : parse_decimal (codes " ") (codes "USD") ≡ none
unfolding parse_decimal
parse_empty = refl

parse_wraps :
    parse_decimal (codes "10000000000000") (codes "USD")
    ≡ some (usd (negsuc 8_446_744_073_709_551_615))
unfolding parse_decimal
parse_wraps = refl

parse_two_signs : parse_decimal (codes "--5") (codes "USD") ≡ some (usd (pos 5_000_000))
unfolding parse_decimal
parse_two_signs = refl

parse_inner_sign : parse_decimal (codes "1.-5") (codes "USD") ≡ some (usd (pos 950_000))
unfolding parse_decimal
parse_inner_sign = refl

parse_sign_alone : parse_decimal (codes "-") (codes "USD") ≡ some (usd (pos 0))
unfolding parse_decimal
parse_sign_alone = refl

show_cents : money_string (usd (negsuc 3_499_999)) ≡ codes "-3.500000 USD"
unfolding money_string
show_cents = refl

show_drops_sign : money_string (usd (negsuc 499_999)) ≡ codes "0.500000 USD"
unfolding money_string
show_drops_sign = refl
