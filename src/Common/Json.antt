-- ===== src/Common/Json.antt =====
-- What the code uses of the JSON library, as a parameter.
use Prim.Native.Nat.{ℕ}
use Prim.Native.String.{String}
use mathlib.Core.Bool.{Bool}
use mathlib.Core.List.{List}

-- `nlohmann::json`: the values that the code builds, and `dump`. A floating-point number is given in
-- tenths.
pub record JsonOps : Type 1 where
  pub Json : Type 0
  pub boolean : Bool → Json
  pub number : ℕ → Json
  pub tenths : ℕ → Json
  pub string : String → Json
  pub array : List Json → Json
  pub object : List (String × Json) → Json
  pub dump : Json → String
