-- ===== src/Common/Map.antt =====
-- `std::unordered_map` as an association list: one entry to a key. The order of iteration is
-- that of insertion here; C++ leaves it open.
use Prim.Native.Nat.{ℕ, ◌+◌, ◌≤◌, ◌<◌}
use mathlib.Core.Path.{◌≡◌, refl, sym, ap, ◌∙◌, subst}
use mathlib.Core.Logic.{ite, if_neg, ◌≢◌, ◌⊎◌, inl, inr}
use mathlib.Core.Bool.{Bool, true, false}
use mathlib.Core.List.{List, [], ◌∷◌, map}
use mathlib.Core.Option.{Option, none, some}
use native.Mathlib.Omega.{arith}
use red_culture_service.Common.Tests.{if◌then◌else◌, is_some, Bool-cases, Option-cases}
use red_culture_service.Common.Lists.{length}
use red_culture_service.Common.Members.{In}

module _ {ℓ} {K V : Type ℓ} where
  abbrev pub keys : List (K × V) → List K
  keys = map (λ e. e.0)

  abbrev pub size : List (K × V) → ℕ
  size m = length m

module _ {ℓ} {K V : Type ℓ} (dec : Discrete K) where
  -- `find`, `at`
  unfoldable pub lookup : K → List (K × V) → Option V
  lookup k [] = none
  lookup k ((j, v) ∷ m) = ite (dec j k) (some v) (lookup k m)

  -- `m[k] = v`
  unfoldable pub insert : K → V → List (K × V) → List (K × V)
  insert k v [] = (k, v) ∷ []
  insert k v ((j, w) ∷ m) = ite (dec j k) ((k, v) ∷ m) ((j, w) ∷ insert k v m)

  -- `erase(k)`
  unfoldable pub erase : K → List (K × V) → List (K × V)
  erase k [] = []
  erase k ((j, w) ∷ m) = ite (dec j k) (erase k m) ((j, w) ∷ erase k m)

  -- The first visited key whose entry passes the test.
  unfoldable pub find_key_in : (V → Bool) → List (K × V) → List K → Option K
  find_key_in p m [] = none
  find_key_in p m (k ∷ ks) = elim (lookup k m) [
    | none ↦ find_key_in p m ks
    | some v ↦ if p v then some k else find_key_in p m ks
  ]

  unfoldable pub find_key : (V → Bool) → List (K × V) → Option K
  unfolding find_key_in
  find_key p m = find_key_in p m (keys m)

  lookup-cons_ne : (k j : K) (v : V) (m : List (K × V)) → j ≢ k → lookup k ((j, v) ∷ m) ≡ lookup k m
  unfolding lookup
  lookup-cons_ne k j v m q = rw (if_neg _ q)

  pub lookup-insert :
      (j k : K) (v : V) (m : List (K × V))
      → lookup j (insert k v m) ≡ ite (dec k j) (some v) (lookup j m)
  unfolding lookup insert
  lookup-insert j k v [] = refl
  lookup-insert j k v ((i, w) ∷ m) = ground (arith, lookup-insert j k v m)

  pub lookup-insert_same : (k : K) (v : V) (m : List (K × V)) → lookup k (insert k v m) ≡ some v
  lookup-insert_same k v m = ground (arith, lookup-insert k k v m)

  pub lookup-insert_ne :
      (j k : K) (v : V) (m : List (K × V)) → j ≢ k → lookup j (insert k v m) ≡ lookup j m
  lookup-insert_ne j k v m ne = ground (arith, lookup-insert j k v m)

  pub lookup-erase :
      (j k : K) (m : List (K × V)) → lookup j (erase k m) ≡ ite (dec k j) none (lookup j m)
  unfolding lookup erase
  lookup-erase j k [] = ground arith
  lookup-erase j k ((i, w) ∷ m) = ground (arith, lookup-erase j k m)

  -- Writing a key that is there keeps the number of entries; a new key adds one.
  pub size-insert :
      (k : K) (v : V) (m : List (K × V))
      → size (insert k v m) ≡ (if is_some (lookup k m) then size m else size m + 1)
  unfolding lookup insert
  size-insert k v [] = omega arith
  size-insert k v ((i, w) ∷ m) = ground (arith, size-insert k v m)

  pub size-erase-le : (k : K) (m : List (K × V)) → size (erase k m) ≤ size m
  unfolding erase
  size-erase-le k [] = omega arith
  size-erase-le k ((i, w) ∷ m) = ground (arith, size-erase-le k m)

  erase_absent : (k : K) (m : List (K × V)) → lookup k m ≡ none → erase k m ≡ m
  unfolding lookup erase
  erase_absent k [] h = refl
  erase_absent k ((j, w) ∷ m) h = ground (arith, erase_absent k m)

  -- A new key, written and erased, leaves the map as it was.
  pub erase-insert :
      (k : K) (v : V) (m : List (K × V)) → lookup k m ≡ none → erase k (insert k v m) ≡ m
  unfolding lookup insert erase
  erase-insert k v [] h = ground arith
  erase-insert k v ((j, w) ∷ m) h = ground (arith, erase-insert k v m, erase_absent k m)

module _ {K V : Type 0} (dec : Discrete K) where
  pub size-erase-lt : (e : K × V) (m : List (K × V)) → In e m → size (erase dec e.0 m) < size m
  unfolding erase
  size-erase-lt e [] i = absurd i
  size-erase-lt e ((j, w) ∷ m) (inl q) =
      let same : j ≡ e.0 = ap (λ x. x.0) q in ground (arith, size-erase-le dec e.0 m)
  size-erase-lt e ((j, w) ∷ m) (inr i) = ground (arith, size-erase-lt e m i)

  pub In-lookup : (k : K) (v : V) (m : List (K × V)) → lookup dec k m ≡ some v → In (k, v) m
  unfolding lookup
  In-lookup k v [] h = cc
  In-lookup k v ((j, w) ∷ m) h = elim (dec j k) [
    | yes q ↦ inl (ground arith)
    | no ne ↦ inr (In-lookup k v m (ground arith))
  ]

  pub In-insert :
      (k : K) (v : V) (m : List (K × V)) (e : K × V)
      → In e (insert dec k v m)
      → ((k, v) ≡ e) ⊎ In e m
  unfolding insert
  In-insert k v [] e i = i
  In-insert k v ((j, w) ∷ m) e i = ground (arith, In-insert k v m e)

module _ {ℓ} {K V : Type ℓ} (dec : Discrete K) (p : V → Bool) where
  find_key_in_sound :
      (m : List (K × V)) (ks : List K) (k : K)
      → find_key_in dec p m ks ≡ some k
      → (v : V) × (lookup dec k m ≡ some v) × (p v ≡ true)
  unfolding find_key_in
  find_key_in_sound m [] k h = absurd (cc)
  find_key_in_sound m (j ∷ ks) k h = elim (Option-cases (lookup dec j m)) [
    | inl e ↦ find_key_in_sound m ks k (rw (e, find_key_in) at h)
    | inr (v, e) ↦ elim (Bool-cases (p v)) [
      | inl t ↦ (v, ground arith, t)
      | inr f ↦ find_key_in_sound m ks k (ground arith)
    ]
  ]

  -- The key that is found is in the map, and its entry passes the test.
  pub find_key_sound :
      (m : List (K × V)) (k : K)
      → find_key dec p m ≡ some k
      → (v : V) × (lookup dec k m ≡ some v) × (p v ≡ true)
  unfolding find_key
  find_key_sound m k h = find_key_in_sound m (keys m) k h

  find_key_in_complete :
      (m l : List (K × V)) (k : K) (v w : V)
      → find_key_in dec p m (keys l) ≡ none
      → lookup dec k l ≡ some v
      → lookup dec k m ≡ some w
      → p w ≡ false
  unfolding find_key_in
  find_key_in_complete m [] k v w h e f = absurd (unfold lookup in cc)
  find_key_in_complete m ((j, u) ∷ l) k v w h e f = elim (dec j k) [
    | yes q ↦ ground (arith, ap (λ x. lookup dec x m) q)
    | no q ↦ ground (arith, find_key_in_complete m l k v w, lookup-cons_ne dec k j u l q)
  ]

  -- Where nothing is found, no entry passes the test.
  pub find_key_complete :
      (m : List (K × V)) (k : K) (v : V)
      → find_key dec p m ≡ none
      → lookup dec k m ≡ some v
      → p v ≡ false
  unfolding find_key
  find_key_complete m k v h e = find_key_in_complete m m k v v h e e

-- A key with an entry is among the keys.
pub In-keys :
    {K V : Type 0} (dec : Discrete K) (k : K) (m : List (K × V))
    → lookup dec k m ≢ none
    → In k (keys m)
unfolding lookup
In-keys dec k [] h = absurd (h refl)
In-keys dec k ((j, w) ∷ m) h = elim (dec j k) [
  | yes e ↦ inl e
  | no ne ↦ inr (In-keys dec k m (λ e. h (lookup-cons_ne dec k j w m ne ∙ e)))
]

-- One entry to a key.
module _ {K V : Type 0} (dec : Discrete K) where
  unfoldable pub IsMap : List (K × V) → Type 0
  IsMap [] = Unit {0}
  IsMap ((k, v) ∷ m) = (lookup dec k m ≡ none) × IsMap m

  pub insert-IsMap : (k : K) (v : V) (m : List (K × V)) → IsMap m → IsMap (insert dec k v m)
  unfolding IsMap insert lookup
  insert-IsMap k v [] u = (refl, tt)
  insert-IsMap k v ((j, w) ∷ m) (absent, u) =
      elim (dec j k) as (λ d. IsMap (ite d ((k, v) ∷ m) ((j, w) ∷ insert dec k v m))) [
        | yes q ↦ (subst (λ i. lookup dec i m ≡ none) q absent, u)
        | no ne ↦ (lookup-insert_ne dec j k v m ne ∙ absent, insert-IsMap k v m u)
      ]

  -- What an entry says is what the lookup finds.
  pub lookup_of_In :
      (k : K) (v : V) (m : List (K × V)) → IsMap m → In (k, v) m → lookup dec k m ≡ some v
  unfolding IsMap lookup
  lookup_of_In k v [] u i = absurd i
  lookup_of_In k v ((j, w) ∷ m) (absent, u) (inl q) =
      let same_key : j ≡ k = ap (λ e. e.0) q in
      let same_value : w ≡ v = ap (λ e. e.1) q in ground arith
  lookup_of_In k v ((j, w) ∷ m) (absent, u) (inr i) =
      let found = lookup_of_In k v m u i in
      elim (dec j k) as (λ d. ite d (some w) (lookup dec k m) ≡ some v) [
        | yes q ↦
            let gone = subst (λ i. lookup dec i m ≡ none) q absent in
            let clash : none ≡ some v = sym gone ∙ found in cc
        | no ne ↦ found
      ]

-- An entry after a write is the one written, or an old one of another key.
pub lookup-insert_cases :
    {K V : Type 0} (dec : Discrete K) (j k : K) (v w : V) (m : List (K × V))
    → lookup dec j (insert dec k v m) ≡ some w
    → (k ≡ j) × (v ≡ w) ⊎ (j ≢ k) × (lookup dec j m ≡ some w)
lookup-insert_cases dec j k v w m h = elim (dec k j) [
  | yes q ↦
      let same_key = subst (λ i. lookup dec i (insert dec k v m) ≡ some w) (sym q) h in
      let written = lookup-insert_same dec k v m in inl (q, cc)
  | no ne ↦
      let other : j ≢ k = λ q. ne (sym q) in
      inr (other, sym (lookup-insert_ne dec j k v m other) ∙ h)
]
