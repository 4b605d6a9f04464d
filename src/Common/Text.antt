-- ===== src/Common/Text.antt =====
-- Numbers as text, the prefix of a text, and the replacement of a text in another.
use Prim.Native.Nat.{ℕ, zero, suc, ◌+◌, ◌/◌, ◌%◌}
use Prim.Native.String.{String, slice, ◌++◌}
use red_culture_service.Common.Tests.{ltb, if◌then◌else◌}

abbrev pub digit : ℕ → String
digit n = slice "0123456789" n (n + 1)

-- The digits of a number, most significant first, before the text so far; one turn for each digit.
unfoldable pub decimal : ℕ → ℕ → String → String
decimal zero n acc = acc
decimal (suc fuel) n acc =
    let acc' = digit (n % 10) ++ acc in
    let rest = decimal fuel (n / 10) acc' in if ltb n 10 then acc' else rest

-- `std::to_string` on `std::uint64_t`: at most 20 digits.
unfoldable pub to_string : ℕ → String
unfolding decimal
to_string n = decimal 20 n ""
