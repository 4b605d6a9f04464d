-- ===== src/Room/Tickets.antt =====
-- The match queue and the ticket table of `RoomMatchService`: they describe the same players, in
-- the order of their ticket ids, and none of these sits in an open room.
use red_culture_service.Common.{
  ℕ, suc, ◌≤◌, ◌<◌, ◌≡◌, ◌≢◌, inl, inr, refl, String, Bool, true, false, List, [], ◌∷◌, ◌++◌, none,
  some, str_dec, same, arith, any_of, remove_if, Bool-cases, sym, ◌∙◌, ap, In, In-remove_if,
  In-remove_if_of, any_of_sound, any_of_complete, if◌then◌else◌, is_empty,
}
use red_culture_service.Common.Map.{lookup, erase, lookup-erase}
use red_culture_service.Room.Types.{MatchTicket}
use red_culture_service.Room.Matching.{ticket_player, erase_players}
use red_culture_service.Room.Seats.{Seated, Rooms}

-- The ids rise along the queue, from `lo` on.
abbrev pub Rising : ℕ → List MatchTicket → Type 0
Rising lo [] = Unit
Rising lo (t ∷ q) = (lo ≤ t.id) × Rising (suc t.id) q

pub Rising-In : (lo : ℕ) (t : MatchTicket) (q : List MatchTicket) → Rising lo q → In t q → lo ≤ t.id
Rising-In lo t [] h i = absurd i
Rising-In lo t (u ∷ q) h (inl e) = rw (← e) h.0
Rising-In lo t (u ∷ q) h (inr i) = omega (arith, Rising-In (suc u.id) t q h.1 i)

-- An id determines the ticket.
pub Rising-single :
    (lo : ℕ) (t u : MatchTicket) (q : List MatchTicket)
    → Rising lo q
    → In t q
    → In u q
    → t.id ≡ u.id
    → t ≡ u
Rising-single lo t u [] h i j e = absurd i
Rising-single lo t u (x ∷ q) h (inl a) (inl b) e = sym a ∙ b
Rising-single lo t u (x ∷ q) h (inl a) (inr j) e =
    absurd (omega (arith, ap (λ (y : MatchTicket). y.id) a, Rising-In (suc x.id) u q h.1 j))
Rising-single lo t u (x ∷ q) h (inr i) (inl b) e =
    absurd (omega (arith, ap (λ (y : MatchTicket). y.id) b, Rising-In (suc x.id) t q h.1 i))
Rising-single lo t u (x ∷ q) h (inr i) (inr j) e = Rising-single (suc x.id) t u q h.1 i j e

pub Rising-mono : (lo hi : ℕ) (q : List MatchTicket) → lo ≤ hi → Rising hi q → Rising lo q
Rising-mono lo hi [] h r = tt
Rising-mono lo hi (t ∷ q) h r = (omega arith, r.1)

pub Rising-remove_if :
    (lo : ℕ) (d : MatchTicket → Bool) (q : List MatchTicket)
    → Rising lo q
    → Rising lo (remove_if d q)
unfolding remove_if
Rising-remove_if lo d [] h = tt
Rising-remove_if lo d (t ∷ q) h = elim (Bool-cases (d t)) [
  | inl e ↦ rw e (Rising-mono lo (suc t.id) _ (omega arith) (Rising-remove_if (suc t.id) d q h.1))
  | inr e ↦ rw e (h.0, Rising-remove_if (suc t.id) d q h.1)
]

pub Rising-append :
    (lo : ℕ) (q : List MatchTicket) (t : MatchTicket)
    → Rising lo q
    → ((u : MatchTicket) → In u q → u.id < t.id)
    → lo ≤ t.id
    → Rising lo (q ++ (t ∷ []))
Rising-append lo [] t h b l = (l, tt)
Rising-append lo (x ∷ q) t h b l =
    (h.0, Rising-append (suc x.id) q t h.1 (λ u i. b u (inr i)) (b x (inl refl)))

abbrev pub of_player : String → MatchTicket → Bool
of_player p t = same (ticket_player t) p

pub lookup-erase_players :
    (p : String) (g : List MatchTicket) (m : List (String × ℕ))
    → lookup str_dec p (erase_players g m)
      ≡ (if any_of (of_player p) g then none else lookup str_dec p m)
unfolding erase_players any_of
lookup-erase_players p [] m = refl
lookup-erase_players p (t ∷ g) m = ground (
  arith,
  lookup-erase_players p g (erase str_dec (ticket_player t) m),
  lookup-erase str_dec p (ticket_player t) m,
)

-- The queue `q` and the table `m` of a service whose next ticket id is `next` and whose rooms are
-- `rooms`.
pub record QueueInv (next : ℕ) (rooms : Rooms) (q : List MatchTicket) (m : List (String × ℕ))
    : Type 0 where
  pub rising : Rising 0 q
  pub below : (t : MatchTicket) → In t q → t.id < next
  pub held : (t : MatchTicket) → In t q → lookup str_dec (ticket_player t) m ≡ some t.id
  pub waiting :
      (p : String) (i : ℕ)
      → lookup str_dec p m ≡ some i
      → (t : MatchTicket) × In t q × (t.id ≡ i) × (ticket_player t ≡ p)
  pub seatless : (p : String) (i j : ℕ) → lookup str_dec p m ≡ some i → ¬ Seated rooms p j
  pub served :
      (t : MatchTicket)
      → In t q
      → (is_empty (ticket_player t) ≡ false) × (0 < t.request.preferred_room_size)

-- Dropping the tickets `g`, found in the queue by the test `d`, keeps queue and table in step.
module _ (next : ℕ) (rooms : Rooms) (q : List MatchTicket) (m m' : List (String × ℕ))
    (g : List MatchTicket) (d : MatchTicket → Bool) where
  pub drop-QueueInv :
      QueueInv next rooms q m
      → ((t : MatchTicket) → In t g → In t q)
      → ((p : String)
          → lookup str_dec p m' ≡ (if any_of (of_player p) g then none else lookup str_dec p m))
      → ((t : MatchTicket) → In t q → d t ≡ true → (u : MatchTicket) × In u g × (u.id ≡ t.id))
      → ((t u : MatchTicket) → In t q → d t ≡ false → In u g → u.id ≢ t.id)
      → QueueInv next rooms (remove_if d q) m'
  drop-QueueInv v sub erased gone kept = record {
    rising = Rising-remove_if 0 d q v.rising;
    below = λ t i. v.below t (In-remove_if d t q i).0;
    held = held;
    waiting = waiting;
    seatless = λ p i j e. v.seatless p i j (was p i e).0;
    served = λ t i. v.served t (In-remove_if d t q i).0;
  }
    where
      was :
          (p : String) (i : ℕ)
          → lookup str_dec p m' ≡ some i
          → (lookup str_dec p m ≡ some i) × (any_of (of_player p) g ≡ false)
      was p i e = ground (arith, erased p)

      not_dropped :
          (t : MatchTicket) → In t q → d t ≡ false → any_of (of_player (ticket_player t)) g ≡ false
      not_dropped t i f = elim (Bool-cases (any_of (of_player (ticket_player t)) g)) [
        | inr e ↦ e
        | inl e ↦
            let (u, j, s) = any_of_sound (of_player (ticket_player t)) g e in
            let a = v.held t i in
            let b = v.held u (sub u j) in
            let player : ticket_player u ≡ ticket_player t = ground arith in
            absurd (kept t u i f j (ground (arith, ap (λ p. lookup str_dec p m) player)))
      ]

      held :
          (t : MatchTicket) → In t (remove_if d q) → lookup str_dec (ticket_player t) m' ≡ some t.id
      held t i =
          let (i', f) = In-remove_if d t q i in
          ground (arith, erased (ticket_player t), not_dropped t i' f, v.held t i')

      waiting :
          (p : String) (i : ℕ)
          → lookup str_dec p m' ≡ some i
          → (t : MatchTicket) × In t (remove_if d q) × (t.id ≡ i) × (ticket_player t ≡ p)
      waiting p i e =
          let (old, no_drop) = was p i e in
          let (t, here, id, player) = v.waiting p i old in
          elim (Bool-cases (d t)) [
            | inr f ↦ (t, In-remove_if_of d t q here f, id, player)
            | inl dropped ↦
                let (u, j, same_id) = gone t here dropped in
                let is_t : u ≡ t = Rising-single 0 u t q v.rising (sub u j) here same_id in
                let own : of_player p u ≡ true = ground (arith, ap ticket_player is_t) in
                absurd (cc (any_of_complete (of_player p) u g j own))
          ]
