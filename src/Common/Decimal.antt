-- ===== src/Common/Decimal.antt =====
-- `String(n)` of a natural number.
use Prim.Native.Nat.{ℕ, zero, suc, ◌/◌, ◌%◌}
use Prim.Native.String.{String}
use brain_mate.Common.Tests.{ltb, if◌then◌else◌}
use brain_mate.Common.Texts.{◌<>◌}

digit : ℕ → String
digit zero = "0"
digit (suc zero) = "1"
digit (suc (suc zero)) = "2"
digit (suc (suc (suc zero))) = "3"
digit (suc (suc (suc (suc zero)))) = "4"
digit (suc (suc (suc (suc (suc zero))))) = "5"
digit (suc (suc (suc (suc (suc (suc zero)))))) = "6"
digit (suc (suc (suc (suc (suc (suc (suc zero))))))) = "7"
digit (suc (suc (suc (suc (suc (suc (suc (suc zero)))))))) = "8"
digit _ = "9"

-- One round prints one digit, so that a number is fuel enough for itself.
print_digits : ℕ → ℕ → String
print_digits zero n = digit n
print_digits (suc fuel) n =
    let high = print_digits fuel (n / 10) in if ltb n 10 then digit n else high <> digit (n % 10)

unfoldable pub decimal : ℕ → String
unfolding print_digits digit
decimal n = print_digits n n
