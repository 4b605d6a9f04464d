-- ===== src/Room/Opening.antt =====
-- One round of `tick`: the room that a group gets.
use red_culture_service.Common.{
  ℕ, ◌≤◌, ◌<◌, ◌≡◌, inl, inr, String, true, false, List, [], ◌∷◌, none, arith, length, ◌⊎◌, In, sym,
  ◌∙◌, ap, subst, str_dec, is_empty, subst₂,
}
use red_culture_service.Common.Map.{lookup}
use red_culture_service.Room.Types.{RoomInfo, MatchTicket, RoomMatchService}
use red_culture_service.Room.Rooms.{
  new_room, store_new_room, create_room_locked, remove_player_ticket_locked,
  find_active_room_id_by_player_locked,
}
use red_culture_service.Room.Matching.{
  ticket_player, find_group, created, match_options, seat_group, open_group_room,
}
use red_culture_service.Room.Groups.{
  joins, wanted, group_of, length-fill_group, In-fill_group, fill_group_front, find_group-cases,
}

-- A group of a queue: its tickets wait, share the bucket of the first, and are not too many.
pub record IsGroup (q : List MatchTicket) (f : MatchTicket) (others : List MatchTicket)
    : Type 0 where
  pub waits : (t : MatchTicket) → In t (f ∷ others) → In t q
  pub bounded : length (f ∷ others) ≤ wanted f
  pub alike : (t : MatchTicket) → In t (f ∷ others) → (f ≡ t) ⊎ (joins f t ≡ true)

group_of-IsGroup :
    (q : List MatchTicket) (seed : MatchTicket)
    → In seed q
    → 0 < wanted seed
    → (others : List MatchTicket) × (group_of seed q ≡ seed ∷ others) × IsGroup q seed others
group_of-IsGroup q seed i pos =
    let (others, e) = fill_group_front seed seed q [] in
    let split = λ (t : MatchTicket) (j : In t (seed ∷ others)).
      In-fill_group seed t q (seed ∷ []) (subst (λ l. In t l) (sym e) j) in
    (
      others,
      e,
      record {
        waits = λ t j. elim (split t j) [
          | inl (inl is_seed) ↦ subst (λ x. In x q) is_seed i
          | inl (inr no_more) ↦ absurd no_more
          | inr (k, _) ↦ k
        ];
        bounded = omega (
          arith,
          ap (λ (l : List MatchTicket). length l) e,
          length-fill_group seed q (seed ∷ []) (omega arith),
        );
        alike = λ t j. elim (split t j) [
          | inl (inl is_seed) ↦ inl is_seed
          | inl (inr no_more) ↦ absurd no_more
          | inr (_, k) ↦ inr k
        ];
      },
    )

-- What the search returns is a group of the queue.
pub find_group-IsGroup :
    (q : List MatchTicket) (f : MatchTicket) (others : List MatchTicket)
    → ((t : MatchTicket) → In t q → 0 < wanted t)
    → find_group q q [] ≡ f ∷ others
    → IsGroup q f others
find_group-IsGroup q f others pos e = elim (find_group-cases q q []) [
  | inl none_found ↦ absurd (cc)
  | inr (seed, i, found) ↦
      let (rest, shape, g) = group_of-IsGroup q seed i (pos seed i) in
      let whole : seed ∷ rest ≡ f ∷ others = sym shape ∙ sym found ∙ e in
      subst₂ (λ a l. IsGroup q a l) (cc) (cc) g
]

-- The state after a group has its room, and the room.
abbrev pub opened :
    RoomMatchService → MatchTicket → List MatchTicket → ℕ → RoomMatchService × RoomInfo
opened s f others now =
    seat_group (store_new_room s f.request.player (match_options f) now).0
      (new_room s.next_room_id f.request.player (match_options f) now) others now

no_ticket-removed :
    (s : RoomMatchService) (p : String)
    → lookup str_dec p s.player_tickets ≡ none
    → remove_player_ticket_locked s p ≡ s
unfolding remove_player_ticket_locked
no_ticket-removed s p e = rw (e, remove_player_ticket_locked)

-- A player who waits for no ticket and sits nowhere gets the room.
pub open_group_room-opened :
    (s : RoomMatchService) (f : MatchTicket) (others : List MatchTicket) (now : ℕ)
    → is_empty (ticket_player f) ≡ false
    → 0 < wanted f
    → find_active_room_id_by_player_locked s (ticket_player f) ≡ none
    → lookup str_dec (ticket_player f) s.player_tickets ≡ none
    → open_group_room s f others now ≡ created (opened s f others now).0 (opened s f others now).1
unfolding open_group_room create_room_locked store_new_room
open_group_room-opened s f others now named pos free no_ticket =
    ground (arith, no_ticket-removed s (ticket_player f) no_ticket)
