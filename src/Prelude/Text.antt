-- ===== src/Prelude/Text.antt =====
-- Python's `str` of an int, and `str(flag).lower()`.
use Prim.Native.Nat.{ℕ, zero, suc, ◌/◌, ◌%◌}
use Prim.Native.String.{String, ◌++◌ as str_append}
use mathlib.Core.Bool.{Bool, true, false}
use receipt_expense_review.Prelude.Tests.{ltb, nat_beq, if◌then◌else◌}

infixr 65 ◌+str◌
abbrev pub ◌+str◌ : String → String → String
◌+str◌ = str_append

abbrev digit : ℕ → String
digit n =
    if nat_beq n 0
    then "0"
    else if nat_beq n 1
    then "1"
    else if nat_beq n 2
    then "2"
    else if nat_beq n 3
    then "3"
    else if nat_beq n 4
    then "4"
    else if nat_beq n 5
    then "5"
    else if nat_beq n 6
    then "6"
    else if nat_beq n 7
    then "7"
    else if nat_beq n 8
    then "8"
    else "9"

-- `acc` holds the digits that are already there; a number has fewer digits than its value plus one.
decimal_loop : ℕ → ℕ → String → String
decimal_loop zero n acc = acc
decimal_loop (suc fuel) n acc =
    let rest = decimal_loop fuel (n / 10) (digit (n % 10) +str acc) in
    if ltb n 10 then digit n +str acc else rest

unfoldable pub decimal : ℕ → String
unfolding decimal_loop
decimal n = decimal_loop (suc n) n ""

abbrev pub lower_flag : Bool → String
lower_flag true = "true"
lower_flag false = "false"
