-- ===== src/Common/Text.antt =====
-- Numbers as a template literal prints them: decimal, without leading zeros.
use Prim.Native.String.{◌++◌, String}
use Prim.Native.Nat.{ℕ, zero, suc, ◌/◌, ◌%◌}
use donnav.Common.Tests.{ltb, nat_beq, if◌then◌else◌}

abbrev digit : ℕ → String
digit d =
    if nat_beq d 0
    then "0"
    else if nat_beq d 1
    then "1"
    else if nat_beq d 2
    then "2"
    else if nat_beq d 3
    then "3"
    else if nat_beq d 4
    then "4"
    else if nat_beq d 5
    then "5"
    else if nat_beq d 6
    then "6"
    else if nat_beq d 7
    then "7"
    else if nat_beq d 8
    then "8"
    else "9"

-- The fuel counts digits; a number has fewer digits than its successor.
decimal_of : ℕ → ℕ → String
decimal_of zero n = ""
decimal_of (suc fuel) n =
    let front = decimal_of fuel (n / 10) in if ltb n 10 then digit n else front ++ digit (n % 10)

unfoldable pub decimal : ℕ → String
unfolding decimal_of
decimal n = decimal_of (suc n) n
