-- ===== src/Room/Groups.antt =====
-- The groups that `tick` forms: within the queue, of one bucket, no larger than asked for, and
-- missed only where a bucket holds too few players.
use red_culture_service.Common.{
  ℕ, ◌+◌, ◌≤◌, ◌<◌, ◌≡◌, inl, inr, refl, Bool, true, false, not, ◌&&◌, List, [], ◌∷◌, ◌++◌, arith,
  length, count_if, Bool-cases, ◌⊎◌, In, In-append, length-append, ltb, leb, ◌==◌, sym, ◌∙◌, ap,
  subst,
}
use Prim.Native.Nat.{min}
use red_culture_service.Room.Types.{MatchTicket}
use red_culture_service.Room.Matching.{same_match_bucket, fill_group, find_group}

-- Another ticket of the seed's bucket.
abbrev pub joins : MatchTicket → MatchTicket → Bool
joins seed t = not (t.id == seed.id) && same_match_bucket seed t

abbrev pub wanted : MatchTicket → ℕ
wanted t = t.request.preferred_room_size

-- A group has as many tickets as the bucket offers, up to the size that is wanted.
pub length-fill_group :
    (seed : MatchTicket) (q g : List MatchTicket)
    → length g ≤ wanted seed
    → length (fill_group seed q g) ≡ min (wanted seed) (length g + count_if (joins seed) q)
unfolding fill_group count_if
length-fill_group seed [] g h = omega arith
length-fill_group seed (t ∷ q) g h = ground (
  arith,
  length-append g (t ∷ []),
  length-fill_group seed q g,
  length-fill_group seed q (g ++ (t ∷ [])),
)

-- What a group holds beside its first tickets comes from the queue and joins the seed.
pub In-fill_group :
    (seed t : MatchTicket) (q g : List MatchTicket)
    → In t (fill_group seed q g)
    → In t g ⊎ (In t q × (joins seed t ≡ true))
unfolding fill_group
In-fill_group seed t [] g h = inl h
In-fill_group seed t (u ∷ q) g h = elim (Bool-cases (ltb (length g) (wanted seed))) [
  | inr full ↦ let e : fill_group seed (u ∷ q) g ≡ g = ground arith in inl (subst (λ l. In t l) e h)
  | inl room_left ↦ elim (Bool-cases (joins seed u)) [
    | inr other ↦
        let e : fill_group seed (u ∷ q) g ≡ fill_group seed q g = ground arith in
        elim (In-fill_group seed t q g (subst (λ l. In t l) e h)) [
          | inl i ↦ inl i
          | inr (i, j) ↦ inr (inr i, j)
        ]
    | inl fits ↦
        let e : fill_group seed (u ∷ q) g ≡ fill_group seed q (g ++ (u ∷ [])) = ground arith in
        elim (In-fill_group seed t q (g ++ (u ∷ [])) (subst (λ l. In t l) e h)) [
          | inr (i, j) ↦ inr (inr i, j)
          | inl i ↦ elim (In-append t g (u ∷ []) i) [
            | inl old ↦ inl old
            | inr (inl is_u) ↦ inr (inl is_u, ap (joins seed) (sym is_u) ∙ fits)
            | inr (inr no_more) ↦ absurd no_more
          ]
        ]
  ]
]

-- The seed stays in front.
pub fill_group_front :
    (seed f : MatchTicket) (q g : List MatchTicket)
    → (rest : List MatchTicket) × (fill_group seed q (f ∷ g) ≡ f ∷ rest)
unfolding fill_group
fill_group_front seed f [] g = (g, refl)
fill_group_front seed f (t ∷ q) g = elim (Bool-cases (ltb (length (f ∷ g)) (wanted seed))) [
  | inr full ↦ (g, ground arith)
  | inl room_left ↦ elim (Bool-cases (joins seed t)) [
    | inr other ↦ let (rest, e) = fill_group_front seed f q g in (rest, ground arith)
    | inl fits ↦ let (rest, e) = fill_group_front seed f q (g ++ (t ∷ [])) in (rest, ground arith)
  ]
]

-- The group of one seed.
abbrev pub group_of : MatchTicket → List MatchTicket → List MatchTicket
group_of seed q = fill_group seed q (seed ∷ [])

-- The search ends with the last group tried, or with the group of some seed.
pub find_group-cases :
    (seeds q last : List MatchTicket)
    → (find_group seeds q last ≡ last)
      ⊎ ((seed : MatchTicket) × In seed seeds × (find_group seeds q last ≡ group_of seed q))
unfolding find_group
find_group-cases [] q last = inl refl
find_group-cases (s ∷ seeds) q last = elim (Bool-cases (leb (wanted s) (length (group_of s q)))) [
  | inl enough ↦ inr (s, inl refl, ground arith)
  | inr few ↦ elim (find_group-cases seeds q (group_of s q)) [
    | inl e ↦ inr (s, inl refl, ground arith)
    | inr (t, i, e) ↦ inr (t, inr i, ground arith)
  ]
]

-- A group that is large enough, for its own first ticket.
abbrev pub is_complete : List MatchTicket → Bool
is_complete [] = false
is_complete (f ∷ g) = leb (wanted f) (length (f ∷ g))

-- The search misses only where every seed's group is too small.
pub find_group_missed :
    (seeds q last : List MatchTicket) (seed : MatchTicket)
    → is_complete (find_group seeds q last) ≡ false
    → In seed seeds
    → length (group_of seed q) < wanted seed
unfolding find_group
find_group_missed [] q last seed h i = absurd i
find_group_missed (s ∷ seeds) q last seed h i =
    elim (Bool-cases (leb (wanted s) (length (group_of s q)))) [
      | inl enough ↦
          let (rest, e) = fill_group_front s s q [] in
          let found : find_group (s ∷ seeds) q last ≡ s ∷ rest = ground arith in
          absurd (ground (arith, ap is_complete found, ap (λ (l : List MatchTicket). length l) e))
      | inr few ↦
          let next : find_group (s ∷ seeds) q last ≡ find_group seeds q (group_of s q) =
            ground arith in
          elim i [
            | inl is_s ↦ subst (λ t. length (group_of t q) < wanted t) is_s (ground arith)
            | inr later ↦
                find_group_missed seeds q (group_of s q) seed (ap is_complete (sym next) ∙ h) later
          ]
    ]
