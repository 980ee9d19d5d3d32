-- ===== src/Common/Decimal.antt =====
-- `String(n)` of a natural number.
use Prim.Native.Nat.{ℕ, zero, suc, ◌/◌, ◌%◌}
use Prim.Native.String.{String, ◌++◌ as append}
use metamodels.Common.Tests.{if◌then◌else◌, ◌==◌, ltb}

abbrev digit : ℕ → String
digit n =
    if n == 0
    then "0"
    else if n == 1
    then "1"
    else if n == 2
    then "2"
    else if n == 3
    then "3"
    else if n == 4
    then "4"
    else if n == 5
    then "5"
    else if n == 6
    then "6"
    else if n == 7
    then "7"
    else if n == 8
    then "8"
    else "9"

-- A number has no more digits than its value, so the fuel is enough.
digits_of : ℕ → ℕ → String
digits_of zero n = digit n
digits_of (suc f) n =
    let front = digits_of f (n / 10) in if ltb n 10 then digit n else append front (digit (n % 10))

unfoldable pub decimal : ℕ → String
unfolding digits_of
decimal n = digits_of n n
