-- ===== src/Prelude/Text.antt =====
-- Texts put together as `fmt` does it.
use Prim.Native.String
use Prim.Native.Nat.{ℕ, zero, suc, ◌/◌, ◌%◌}
use Prim.Native.String.{String}
use vibeflow.Prelude.Tests.{ltb, if◌then◌else◌}

digit : ℕ → String
digit zero = "0"
digit (suc zero) = "1"
digit (suc (suc zero)) = "2"
digit (suc (suc (suc zero))) = "3"
digit (suc (suc (suc (suc zero)))) = "4"
digit (suc (suc (suc (suc (suc zero))))) = "5"
digit (suc (suc (suc (suc (suc (suc zero)))))) = "6"
digit (suc (suc (suc (suc (suc (suc (suc zero))))))) = "7"
digit (suc (suc (suc (suc (suc (suc (suc (suc zero)))))))) = "8"
digit _ = "9"

infixr 65 ◌<>◌
abbrev pub ◌<>◌ : String → String → String
s <> t = String.◌++◌ s t

-- With one round for each unit there are rounds enough for the digits.
decimal_rounds : ℕ → ℕ → String
unfolding digit
decimal_rounds zero n = digit (n % 10)
decimal_rounds (suc k) n =
    let front = decimal_rounds k (n / 10) in if ltb n 10 then digit n else front <> digit (n % 10)

-- `%d` of a number that is not negative.
unfoldable pub decimal : ℕ → String
unfolding decimal_rounds
decimal n = decimal_rounds n n
