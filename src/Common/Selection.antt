-- ===== src/Common/Selection.antt =====
-- The loop that selects, among the entries of a map that are ready, the one made first.
use Prim.Native.Nat.{ℕ, ◌≤◌, ◌<◌}
use mathlib.Core.Path.{◌≡◌, refl, ap, sym, ◌∙◌, subst}
use mathlib.Core.Logic.{◌⊎◌, inl, inr}
use mathlib.Core.Bool.{Bool, true, false, ◌&&◌}
use mathlib.Core.List.{List, [], ◌∷◌}
use mathlib.Core.Option.{Option, none, some}
use native.Mathlib.Omega.{arith}
use red_culture_service.Common.Tests.{ltb, if◌then◌else◌, Bool-cases}
use red_culture_service.Common.Members.{In}

module _ {K T : Type 0} (ready : T → Bool) (age : T → ℕ) where
  -- One turn: the entry selected so far gives way to one that is ready and older.
  abbrev pub selects : Option (K × T) → K × T → Bool
  selects best entry =
      ready entry.1 && elim best [ none ↦ true | some b ↦ ltb (age entry.1) (age b.1) ]

  unfoldable pub select_oldest : Option (K × T) → List (K × T) → Option (K × T)
  select_oldest best [] = best
  select_oldest best (entry ∷ entries) =
      let best' = if selects best entry then some entry else best in select_oldest best' entries

  chosen :
      (best : Option (K × T)) (f : K × T) (m : List (K × T)) {b : Bool}
      → selects best f ≡ b
      → select_oldest (if b then some f else best) m ≡ select_oldest best (f ∷ m)
  unfolding select_oldest
  chosen best f m q = ap (λ b. select_oldest (if b then some f else best) m) (sym q)

  selects-ready : (best : Option (K × T)) (f : K × T) → selects best f ≡ true → ready f.1 ≡ true
  selects-ready best f h = ground arith

  -- What the loop selects is the entry so far or a later one, and a later one is ready.
  pub select_oldest-In :
      (best : Option (K × T)) (m : List (K × T)) (e : K × T)
      → select_oldest best m ≡ some e
      → (best ≡ some e) ⊎ (In e m × (ready e.1 ≡ true))
  unfolding select_oldest
  select_oldest-In best [] e h = inl h
  select_oldest-In best (f ∷ m) e h = elim (Bool-cases (selects best f)) [
    | inl picked ↦ elim (select_oldest-In (some f) m e (chosen best f m picked ∙ h)) [
      | inl q ↦
          let same_entry : f ≡ e = cc in
          inr
            (inl same_entry, subst (λ e. ready e.1 ≡ true) same_entry (selects-ready best f picked))
      | inr (i, is_ready) ↦ inr (inr i, is_ready)
    ]
    | inr skipped ↦ elim (select_oldest-In best m e (chosen best f m skipped ∙ h)) [
      | inl q ↦ inl q
      | inr (i, is_ready) ↦ inr (inr i, is_ready)
    ]
  ]

  -- The entry so far is given up only for an older one.
  select_oldest-some :
      (b : K × T) (m : List (K × T))
      → (e : K × T) × (select_oldest (some b) m ≡ some e) × (age e.1 ≤ age b.1)
  unfolding select_oldest
  select_oldest-some b [] = (b, refl, omega arith)
  select_oldest-some b (f ∷ m) = elim (Bool-cases (selects (some b) f)) [
    | inl picked ↦
        let (e, q, le) = select_oldest-some f m in
        let older : age f.1 < age b.1 = ground arith in
        (e, sym (chosen (some b) f m picked) ∙ q, omega arith)
    | inr skipped ↦
        let (e, q, le) = select_oldest-some b m in (e, sym (chosen (some b) f m skipped) ∙ q, le)
  ]

  -- An entry that is ready is chosen by its age alone.
  newcomer :
      (best : Option (K × T)) (f : K × T)
      → ready f.1 ≡ true
      → selects best f ≡ elim best [ none ↦ true | some b ↦ ltb (age f.1) (age b.1) ]
  newcomer best f is_ready = rw is_ready

  -- Where an entry is ready, one is selected, and it is no younger.
  pub select_oldest-least :
      (best : Option (K × T)) (m : List (K × T)) (f : K × T)
      → In f m
      → ready f.1 ≡ true
      → (e : K × T) × (select_oldest best m ≡ some e) × (age e.1 ≤ age f.1)
  unfolding select_oldest
  select_oldest-least best [] f i is_ready = absurd i
  select_oldest-least best (g ∷ m) f (inr i) is_ready = elim (Bool-cases (selects best g)) [
    | inl picked ↦
        let (e, q, le) = select_oldest-least (some g) m f i is_ready in
        (e, sym (chosen best g m picked) ∙ q, le)
    | inr skipped ↦
        let (e, q, le) = select_oldest-least best m f i is_ready in
        (e, sym (chosen best g m skipped) ∙ q, le)
  ]
  select_oldest-least none (g ∷ m) f (inl here) is_ready =
      let (e, q, le) = select_oldest-some g m in
      let ages = ap (λ e. age e.1) here in
      let picked = newcomer none g (ap (λ e. ready e.1) here ∙ is_ready) in
      (e, sym (chosen none g m picked) ∙ q, omega arith)
  select_oldest-least (some b) (g ∷ m) f (inl here) is_ready =
      let ages = ap (λ e. age e.1) here in
      let rule = newcomer (some b) g (ap (λ e. ready e.1) here ∙ is_ready) in
      elim (Bool-cases (selects (some b) g)) [
        | inl picked ↦
            let (e, q, le) = select_oldest-some g m in
            (e, sym (chosen (some b) g m picked) ∙ q, omega arith)
        | inr skipped ↦
            let (e, q, le) = select_oldest-some b m in
            let older : age b.1 ≤ age g.1 = ground arith in
            (e, sym (chosen (some b) g m skipped) ∙ q, omega arith)
      ]

  -- Where no entry is ready, the entry so far stays.
  pub select_oldest_none :
      (best : Option (K × T)) (m : List (K × T))
      → ((e : K × T) → In e m → ready e.1 ≡ false)
      → select_oldest best m ≡ best
  unfolding select_oldest
  select_oldest_none best [] h = refl
  select_oldest_none best (f ∷ m) h =
      let idle = h f (inl refl) in
      let skipped : selects best f ≡ false = rw idle in
      sym (chosen best f m skipped) ∙ select_oldest_none best m (λ e i. h e (inr i))
