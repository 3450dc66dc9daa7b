-- ===== src/Cost/Decimal.antt =====
-- internal/cost/money.go: the decimal amounts, as texts of ASCII bytes.
use nexus_agent_demo.Prelude.{
  ℕ, zero, suc, ◌+◌, ◌-◌, ◌*◌, ◌/◌, ◌%◌, ◌^◌, Bool, true, false, ◌&&◌, ◌||◌, Option, none, some, [],
  ◌∷◌, ◌++◌, ltb, leb, ◌==◌, if◌then◌else◌, length,
}
use nexus_agent_demo.Prelude.Int.{ℤ, pos, negsuc, ◌+ℤ◌, ◌-ℤ◌, ◌*ℤ◌}
use nexus_agent_demo.Prelude.Text.{Text}
use nexus_agent_demo.Cost.Money.{Money, int64}

abbrev is_space : ℕ → Bool
is_space c = c == 32 || leb 9 c && leb c 13

abbrev trim_left : Text → Text
trim_left [] = []
trim_left (c ∷ s) = if is_space c then trim_left s else c ∷ s

abbrev or_drop : ℕ → Text → Text
or_drop c [] = if is_space c then [] else c ∷ []
or_drop c (d ∷ s) = c ∷ d ∷ s

abbrev trim_right : Text → Text
trim_right [] = []
trim_right (c ∷ s) = or_drop c (trim_right s)

-- strings.TrimSpace, on ASCII bytes.
abbrev trim_space : Text → Text
trim_space s = trim_right (trim_left s)

-- strings.Cut at a dot: the text before and after it, all and nothing where there is none.
abbrev cut_dot : Text → Text × Text
cut_dot [] = ([], [])
cut_dot (c ∷ s) = let rest = cut_dot s in if c == 46 then ([], s) else (c ∷ rest.0, rest.1)

-- The number that decimal digits write, after the number `n`; none at another byte.
abbrev digits_after : ℕ → Text → Option ℕ
digits_after n [] = some n
digits_after n (c ∷ s) =
    let rest = digits_after (10 * n + (c - 48)) s in if leb 48 c && leb c 57 then rest else none

abbrev number : Text → Option ℕ
number [] = none
number (c ∷ s) = digits_after 0 (c ∷ s)

abbrev within : ℕ → Bool → Option ℕ → Option ℤ
within bound neg none = none
within bound false (some n) = if ltb n bound then some (pos n) else none
within bound true (some n) = if leb n bound then some (pos 0 -ℤ pos n) else none

-- strconv.ParseInt(s, 10, 63): a sign or none, digits, and the range of 63 bits.
unfoldable pub parse_int63 : Text → Option ℤ
unfolding ◌-ℤ◌
parse_int63 [] = none
parse_int63 (c ∷ s) =
    if c == 43
    then within (2 ^ 62) false (number s)
    else if c == 45
    then within (2 ^ 62) true (number s)
    else within (2 ^ 62) false (number (c ∷ s))

-- for len(frac) < 6 { frac += "0" }
abbrev pad_zeros : ℕ → Text → Text
pad_zeros zero frac = frac
pad_zeros (suc n) frac = pad_zeros n (frac ++ 48 ∷ [])

abbrev or_zero : Text → Text
or_zero [] = 48 ∷ []
or_zero (c ∷ s) = c ∷ s

abbrev signed : Bool → ℤ → ℤ
signed true micros = int64 (pos 0 -ℤ micros)
signed false micros = micros

abbrev assemble : Bool → Text → Option ℤ → Option ℤ → Option Money
assemble neg currency (some whole) (some frac) = some (record {
  micros = signed neg (int64 (int64 (whole *ℤ pos 1_000_000) +ℤ frac));
  currency = currency;
})
assemble neg currency _ _ = none

-- What follows the sign.
unfoldable pub parse_unsigned : Bool → Text → Text → Option Money
unfolding parse_int63 int64 ◌*ℤ◌ ◌+ℤ◌ ◌-ℤ◌
parse_unsigned neg s currency =
    let parts = cut_dot s in
    if ltb 6 (length parts.1)
    then none
    else assemble neg currency (parse_int63 (or_zero parts.0))
        (parse_int63 (pad_zeros (6 - length parts.1) parts.1))

abbrev parse_trimmed : Text → Text → Option Money
parse_trimmed [] currency = none
parse_trimmed (c ∷ s) currency =
    if c == 45 then parse_unsigned true s currency else parse_unsigned false (c ∷ s) currency

-- `none` where Go returns an error.
unfoldable pub parse_decimal : Text → Text → Option Money
unfolding parse_unsigned
parse_decimal s currency = parse_trimmed (trim_space s) currency

-- %d of a number of at most `fuel` digits.
abbrev digits : ℕ → ℕ → Text
digits zero n = []
digits (suc fuel) n = if ltb n 10 then (48 + n) ∷ [] else digits fuel (n / 10) ++ (48 + n % 10) ∷ []

-- %0wd of a number of at most `w` digits.
abbrev fixed_digits : ℕ → ℕ → Text
fixed_digits zero n = []
fixed_digits (suc w) n = fixed_digits w (n / 10) ++ (48 + n % 10) ∷ []

-- The sign that %d writes is that of m.Micros / Micros, so none where the quotient is 0.
abbrev show_amount : Bool → ℕ → Text → Text
show_amount neg n currency =
    (if neg && leb 1_000_000 n then 45 ∷ [] else [])
    ++ digits 19 (n / 1_000_000)
    ++ 46 ∷ fixed_digits 6 (n % 1_000_000)
    ++ 32 ∷ currency

-- Money.String: whole and fraction are truncated towards 0, and the fraction's sign is dropped.
unfoldable pub money_string : Money → Text
money_string m = elim m.micros [
  | pos n ↦ show_amount false n m.currency
  | negsuc n ↦ show_amount true (n + 1) m.currency
]
