-- ===== src/Common/Tests.antt =====
-- Boolean tests on numbers and texts, the conditional, and unsigned words of 64 bits.
use Prim.Native.Nat.{ℕ, ◌+◌, ◌*◌, ◌%◌, ◌^◌, ◌<◌, compare, Ordering}
use Prim.Native.String.{String}
use mathlib.Core.Path.{◌≡◌, refl, sym, ◌∙◌}
use mathlib.Core.Logic.{◌⊎◌, inl, inr, ite}
use mathlib.Core.Bool.{Bool, true, false}
use mathlib.Core.Option.{Option, none, some}
use native.Mathlib.Omega.{arith}
use text.Mathlib.Text.{◌==◌ as str_eq}
use text.Mathlib.TextEquality.{eq_iff}

-- These compute to `compare`, which `ground` and `grind` read with no lemma listed.
abbrev pub ltb : ℕ → ℕ → Bool
ltb a b = elim (compare a b) [ Ordering.lt ↦ true | _ ↦ false ]

abbrev pub leb : ℕ → ℕ → Bool
leb a b = elim (compare a b) [ Ordering.gt ↦ false | _ ↦ true ]

infix 50 ◌==◌
abbrev pub ◌==◌ : ℕ → ℕ → Bool
a == b = elim (compare a b) [ Ordering.eq ↦ true | _ ↦ false ]

infix 1 if◌then◌else◌
abbrev pub if◌then◌else◌ {ℓ} : {A : Type ℓ} → Bool → A → A → A
if true then x else y = x
if false then x else y = y

pub Bool-cases : (b : Bool) → (b ≡ true) ⊎ (b ≡ false)
Bool-cases true = inl refl
Bool-cases false = inr refl

pub Option-cases {ℓ} : {A : Type ℓ} (o : Option A) → (o ≡ none) ⊎ ((a : A) × (o ≡ some a))
Option-cases none = inl refl
Option-cases (some a) = inr (a, refl)

-- What holds of both branches holds of the choice.
pub if_both {ℓ κ} :
    {A : Type ℓ} (P : A → Type κ) (b : Bool) {x y : A} → P x → P y → P (if b then x else y)
if_both P true p q = p
if_both P false p q = q

abbrev pub is_some {ℓ} : {A : Type ℓ} → Option A → Bool
is_some none = false
is_some (some a) = true

str_dec_of : (s t : String) (b : Bool) → str_eq s t ≡ b → Dec (s ≡ t)
str_dec_of s t true e = yes ((eq_iff s t).0 e)
str_dec_of s t false e = no (λ p. distinct (sym e ∙ (eq_iff s t).1 p))
  where
    distinct : ¬ (false ≡ true)
    distinct h = cc

-- Whole texts are compared, as `std::string` is by `operator==`.
unfoldable pub str_dec : Discrete String
unfolding str_dec_of
str_dec s t = str_dec_of s t (str_eq s t) refl

-- The same test into `Bool`, for the predicates that the code hands to an algorithm.
abbrev pub same : String → String → Bool
same s t = ite (str_dec s t) true false

abbrev pub is_empty : String → Bool
is_empty String.[] = true
is_empty (String.◌∷◌ c s) = false

-- std::uint64_t, and its `++`.
abbrev pub u64_mod : ℕ
u64_mod = 2 ^ 64

unfoldable pub inc_u64 : ℕ → ℕ
inc_u64 n = (n + 1) % u64_mod

-- Below the top of the range a counter grows by one.
pub inc_u64_lem : (n : ℕ) → n + 1 < u64_mod → inc_u64 n ≡ n + 1
unfolding inc_u64
inc_u64_lem n h = omega arith

-- std::uint32_t, and its `++`.
unfoldable pub inc_u32 : ℕ → ℕ
inc_u32 n = (n + 1) % 2 ^ 32

-- `std::chrono` units: times are counts of nanoseconds.
abbrev pub ns_per_ms : ℕ
ns_per_ms = 1000 * 1000

abbrev pub ns_per_second : ℕ
ns_per_second = 1000 * ns_per_ms
