-- ===== src/Config/Yaml.antt =====
-- What src/config_hotreload/config_hotreload_service.cpp uses of the YAML library, as a parameter, and the
-- functions that read a value with a fallback. An exception is a value with its `what()`.
use Prim.Native.String.{◌++◌ as str_append}
use red_culture_service.Common.{ℕ, String, Bool, not, ◌||◌, List, ltb, if◌then◌else◌}

pub data Attempt (A : Type 0) : Type 0 where
  done : A → Attempt A
  thrown : String → Attempt A

infixl 5 ◌>>=◌
abbrev pub ◌>>=◌ : {A B : Type 0} → Attempt A → (A → Attempt B) → Attempt B
done a >>= f = f a
thrown e >>= f = thrown e

-- `YAML::Node`: `at` is the index with a text, and `is_defined` the conversion to `bool`.
pub record YamlOps : Type 1 where
  pub Node : Type 0
  pub at : Node → String → Attempt Node
  pub is_defined : Node → Bool
  pub is_null : Node → Bool
  pub is_map : Node → Bool
  pub as_u32 : Node → Attempt ℕ
  pub as_bool : Node → Attempt Bool
  pub as_string : Node → Attempt String
  pub items : Node → List (Node × Node)

module _ (Y : YamlOps) where
  unfoldable pub read_or : {A : Type 0} → (Y.Node → Attempt A) → Y.Node → String → A → Attempt A
  read_or convert node key fallback = if not (Y.is_defined node) then done fallback else do
    child ← Y.at node key
    if not (Y.is_defined child) then done fallback else convert child

  unfoldable pub read_string_or : Y.Node → String → String → Attempt String
  read_string_or node key fallback = if not (Y.is_defined node) then done fallback else do
    child ← Y.at node key
    if not (Y.is_defined child) || Y.is_null child then done fallback else Y.as_string child

  unfoldable pub read_u16_or : Y.Node → String → ℕ → Attempt ℕ
  unfolding read_or
  read_u16_or node key fallback = do
    value ← read_or Y.as_u32 node key fallback
    if ltb 65535 value then thrown (str_append key " is out of uint16 range") else done value
