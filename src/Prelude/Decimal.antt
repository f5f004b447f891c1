-- ===== src/Prelude/Decimal.antt =====
-- Decimal numerals, as an f-string writes an `int`.
use Prim.Native.String.{String, ◌++◌}
use orchestrator_agent.Prelude.{ℕ, zero, suc, ◌/◌, ◌%◌, ◌==◌, if◌then◌else◌}

digit : ℕ → String
digit d =
    if d == 0
    then "0"
    else if d == 1
    then "1"
    else if d == 2
    then "2"
    else if d == 3
    then "3"
    else if d == 4
    then "4"
    else if d == 5
    then "5"
    else if d == 6
    then "6"
    else if d == 7
    then "7"
    else if d == 8
    then "8"
    else "9"

-- One round for each digit. The number itself is fuel enough.
digits : ℕ → ℕ → String → String
unfolding digit
digits zero n out = out
digits (suc fuel) n out =
    let rest = digits fuel (n / 10) (digit (n % 10) ++ out) in if n == 0 then out else rest

unfoldable pub decimal : ℕ → String
unfolding digits
decimal n = if n == 0 then "0" else digits n n ""
