-- ===== src/Common/Members.antt =====
-- Membership in a list, by recursion, and what the list algorithms keep.
use Prim.Native.Nat.{◌<◌}
use mathlib.Core.Path.{◌≡◌, refl, sym, ◌∙◌, ap, subst}
use mathlib.Core.Logic.{◌⊎◌, inl, inr}
use mathlib.Core.Bool.{Bool, true, false}
use mathlib.Core.List.{List, [], ◌∷◌, ◌++◌}
use mathlib.Core.Option.{some}
use native.Mathlib.Omega.{arith}
use red_culture_service.Common.Tests.{Bool-cases}
use red_culture_service.Common.Lists.{
  length, length-remove_if-le, any_of, find_if, remove_if, keep_if,
}

module _ {A : Type 0} where
  abbrev pub In : A → List A → Type 0
  In a [] = ⊥
  In a (x ∷ xs) = (x ≡ a) ⊎ In a xs

  pub In-append : (a : A) (xs ys : List A) → In a (xs ++ ys) → In a xs ⊎ In a ys
  In-append a [] ys h = inr h
  In-append a (x ∷ xs) ys (inl e) = inl (inl e)
  In-append a (x ∷ xs) ys (inr h) = elim (In-append a xs ys h) [
    | inl l ↦ inl (inr l)
    | inr r ↦ inr r
  ]

  pub In-append_left : (a : A) (xs ys : List A) → In a xs → In a (xs ++ ys)
  In-append_left a [] ys h = absurd h
  In-append_left a (x ∷ xs) ys (inl e) = inl e
  In-append_left a (x ∷ xs) ys (inr h) = inr (In-append_left a xs ys h)

  pub In-append_right : (a : A) (xs ys : List A) → In a ys → In a (xs ++ ys)
  In-append_right a [] ys h = h
  In-append_right a (x ∷ xs) ys h = inr (In-append_right a xs ys h)

  pub any_of_sound :
      (p : A → Bool) (xs : List A) → any_of p xs ≡ true → (a : A) × In a xs × (p a ≡ true)
  unfolding any_of
  any_of_sound p [] h = absurd (cc)
  any_of_sound p (x ∷ xs) h = elim (Bool-cases (p x)) [
    | inl t ↦ (x, inl refl, t)
    | inr f ↦ let (a, i, t) = any_of_sound p xs (ground arith) in (a, inr i, t)
  ]

  pub any_of_complete :
      (p : A → Bool) (a : A) (xs : List A) → In a xs → p a ≡ true → any_of p xs ≡ true
  unfolding any_of
  any_of_complete p a [] h t = absurd h
  any_of_complete p a (x ∷ xs) (inl e) t = ground (arith, ap p e)
  any_of_complete p a (x ∷ xs) (inr i) t = ground (arith, any_of_complete p a xs i t)

  pub find_if_sound :
      (p : A → Bool) (xs : List A) (a : A) → find_if p xs ≡ some a → In a xs × (p a ≡ true)
  unfolding find_if
  find_if_sound p [] a h = absurd (cc)
  find_if_sound p (x ∷ xs) a h = elim (Bool-cases (p x)) [
    | inl t ↦ (inl (ground arith), ground arith)
    | inr f ↦ let (i, t) = find_if_sound p xs a (ground arith) in (inr i, t)
  ]

  pub In-remove_if :
      (p : A → Bool) (a : A) (xs : List A) → In a (remove_if p xs) → In a xs × (p a ≡ false)
  unfolding remove_if
  In-remove_if p a [] h = absurd h
  In-remove_if p a (x ∷ xs) h = elim (Bool-cases (p x)) [
    | inl t ↦
        let e : remove_if p (x ∷ xs) ≡ remove_if p xs = ground arith in
        let (i, f) = In-remove_if p a xs (subst (λ l. In a l) e h) in (inr i, f)
    | inr f ↦
        let e : remove_if p (x ∷ xs) ≡ x ∷ remove_if p xs = ground arith in
        let rest : (x ≡ a) ⊎ In a (remove_if p xs) = subst (λ l. In a l) e h in
        elim rest [
          | inl e ↦ (inl e, ap p (sym e) ∙ f)
          | inr i ↦ let (i', g) = In-remove_if p a xs i in (inr i', g)
        ]
  ]

  pub In-remove_if_of :
      (p : A → Bool) (a : A) (xs : List A) → In a xs → p a ≡ false → In a (remove_if p xs)
  unfolding remove_if
  In-remove_if_of p a [] h f = absurd h
  In-remove_if_of p a (x ∷ xs) (inl e) f = rw (ap p e ∙ f) (inl e)
  In-remove_if_of p a (x ∷ xs) (inr i) f = elim (Bool-cases (p x)) [
    | inl t ↦ rw t (In-remove_if_of p a xs i f)
    | inr g ↦ rw g (inr (In-remove_if_of p a xs i f))
  ]

  pub In-keep_if :
      (p : A → Bool) (a : A) (xs : List A) → In a (keep_if p xs) → In a xs × (p a ≡ true)
  unfolding keep_if
  In-keep_if p a [] h = absurd h
  In-keep_if p a (x ∷ xs) h = elim (Bool-cases (p x)) [
    | inr f ↦
        let e : keep_if p (x ∷ xs) ≡ keep_if p xs = ground arith in
        let (i, t) = In-keep_if p a xs (subst (λ l. In a l) e h) in (inr i, t)
    | inl t ↦
        let e : keep_if p (x ∷ xs) ≡ x ∷ keep_if p xs = ground arith in
        let rest : (x ≡ a) ⊎ In a (keep_if p xs) = subst (λ l. In a l) e h in
        elim rest [
          | inl e ↦ (inl e, ap p (sym e) ∙ t)
          | inr i ↦ let (i', g) = In-keep_if p a xs i in (inr i', g)
        ]
  ]

  pub In-keep_if_of :
      (p : A → Bool) (a : A) (xs : List A) → In a xs → p a ≡ true → In a (keep_if p xs)
  unfolding keep_if
  In-keep_if_of p a [] h f = absurd h
  In-keep_if_of p a (x ∷ xs) (inl e) t = rw (ap p e ∙ t) (inl e)
  In-keep_if_of p a (x ∷ xs) (inr i) t = elim (Bool-cases (p x)) [
    | inl s ↦ rw s (inr (In-keep_if_of p a xs i t))
    | inr s ↦ rw s (In-keep_if_of p a xs i t)
  ]

  -- An element that is removed makes the list shorter.
  pub length-remove_if-lt :
      (p : A → Bool) (a : A) (xs : List A)
      → In a xs
      → p a ≡ true
      → length (remove_if p xs) < length xs
  unfolding remove_if
  length-remove_if-lt p a [] i t = absurd i
  length-remove_if-lt p a (x ∷ xs) (inl e) t =
      let here : p x ≡ true = ap p e ∙ t in rw here (omega (arith, length-remove_if-le p xs))
  length-remove_if-lt p a (x ∷ xs) (inr i) t = ground (arith, length-remove_if-lt p a xs i t)
