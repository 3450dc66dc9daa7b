-- ===== src/Prelude/Float.antt =====
-- float64 by its 64 bits, with Go's comparisons and its conversion from an integer.
use nexus_agent_demo.Prelude.Tests.{ltb, leb, ◌==◌, if◌then◌else◌}
use mathlib.Core.Bool.{Bool, not, ◌&&◌, ◌||◌}
use Prim.Native.Nat.{ℕ, zero, suc, ◌+◌, ◌-◌, ◌*◌, ◌/◌, ◌%◌, ◌^◌}

-- The bits but the sign.
abbrev pub magnitude : ℕ → ℕ
magnitude a = a % 2 ^ 63

abbrev pub is_negative : ℕ → Bool
is_negative a = leb (2 ^ 63) a

abbrev pub is_nan : ℕ → Bool
is_nan a = ltb (2047 * 2 ^ 52) (magnitude a)

abbrev pub both_zero : ℕ → ℕ → Bool
both_zero a b = magnitude a + magnitude b == 0

-- a == b: a NaN equals nothing, and the two zeros are equal.
unfoldable pub float_eq : ℕ → ℕ → Bool
float_eq a b = not (is_nan a) && not (is_nan b) && (a == b || both_zero a b)

-- a < b
unfoldable pub float_lt : ℕ → ℕ → Bool
float_lt a b =
    not (is_nan a)
    && not (is_nan b)
    && (if is_negative a
        then if is_negative b then ltb (magnitude b) (magnitude a) else not (both_zero a b)
        else not (is_negative b) && ltb (magnitude a) (magnitude b))

-- The place of the highest bit of a number of at most `fuel` bits.
abbrev log2 : ℕ → ℕ → ℕ
log2 zero n = 0
log2 (suc fuel) n = if leb n 1 then 0 else suc (log2 fuel (n / 2))

-- n / 2 ^ k, to the nearest, and to the even one of two that are as near.
abbrev shift_round : ℕ → ℕ → ℕ
shift_round n k =
    if ltb (2 ^ k) (2 * (n % 2 ^ k)) || (2 ^ k == 2 * (n % 2 ^ k)) && (n / 2 ^ k % 2 == 1)
    then n / 2 ^ k + 1
    else n / 2 ^ k

abbrev of_log : ℕ → ℕ → ℕ
of_log e n = (1022 + e) * 2 ^ 52 + (if leb e 52 then n * 2 ^ (52 - e) else shift_round n (e - 52))

-- float64(n) for an int `n` that is not negative.
unfoldable pub float_of : ℕ → ℕ
float_of zero = 0
float_of (suc n) = of_log (log2 63 (suc n)) (suc n)
