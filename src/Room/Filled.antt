-- ===== src/Room/Filled.antt =====
-- The room of a complete group is full and playing, and the service stays well formed.
use red_culture_service.Common.{
  ℕ, suc, ◌+◌, ◌<◌, ◌≡◌, inl, inr, refl, String, true, List, [], ◌∷◌, arith, length, any_of, ◌⊎◌,
  In, sym, ◌∙◌, ap, subst, subst₂, map, ℕ_discrete, u64_mod, inc_u64, inc_u64_lem, any_of_sound,
}
use red_culture_service.Common.Map.{insert}
use red_culture_service.Room.Types.{RoomInfo, MatchTicket, RoomMatchService, playing}
use red_culture_service.Room.Rooms.{is_member, has_member, new_room, store_new_room}
use red_culture_service.Room.Matching.{ticket_player, match_options, ticket_member, seat_group}
use red_culture_service.Room.Seats.{Seated, Seated-insert, Rooms, RoomsInv, insert-RoomsInv}
use red_culture_service.Room.Invariant.{HasGoodRooms, store_new_room-Inv}
use red_culture_service.Room.Tickets.{of_player}
use red_culture_service.Room.Groups.{wanted}
use red_culture_service.Room.Opening.{opened}

pub any_of-map-ticket_member :
    (p : String) (now : ℕ) (l : List MatchTicket)
    → any_of (is_member p) (map (ticket_member now) l) ≡ any_of (of_player p) l
unfolding any_of
any_of-map-ticket_member p now [] = refl
any_of-map-ticket_member p now (t ∷ l) = rw (any_of-map-ticket_member p now l)

length-map-ticket_member :
    (now : ℕ) (l : List MatchTicket) → length (map (ticket_member now) l) ≡ length l
length-map-ticket_member now [] = refl
length-map-ticket_member now (t ∷ l) = ap suc (length-map-ticket_member now l)

-- The room of a group: full to its capacity, playing, in the mode of its first ticket, and its
-- members are the players of the group, in order.
pub record IsRoomOf (f : MatchTicket) (others : List MatchTicket) (now : ℕ) (r : RoomInfo)
    : Type 0 where
  pub started : r.state ≡ playing
  pub full : length r.members ≡ r.max_players
  pub capacity : r.max_players ≡ wanted f
  pub mode_kept : r.mode ≡ f.request.mode
  pub seats : r.members ≡ map (ticket_member now) (f ∷ others)

module _ (s : RoomMatchService) (f : MatchTicket) (others : List MatchTicket) (now : ℕ) where
  pub opened_fields :
      ((opened s f others now).1.id ≡ s.next_room_id)
      × ((opened s f others now).0.next_room_id ≡ inc_u64 s.next_room_id)
      × ((opened s f others now).0.next_ticket_id ≡ s.next_ticket_id)
      × ((opened s f others now).0.match_queue ≡ s.match_queue)
      × ((opened s f others now).0.player_tickets ≡ s.player_tickets)
      × ((opened s f others now).0.rooms
          ≡ insert ℕ_discrete s.next_room_id
              (opened s f others now).1
              (store_new_room s f.request.player (match_options f) now).0.rooms)
  unfolding seat_group store_new_room new_room
  opened_fields = (refl, refl, refl, refl, refl, refl)

  pub opened-IsRoomOf :
      length (f ∷ others) ≡ wanted f → IsRoomOf f others now (opened s f others now).1
  unfolding seat_group store_new_room new_room
  opened-IsRoomOf h =
      let n = length-map-ticket_member now others in
      record {
        started = ground arith;
        full = ground arith;
        capacity = refl;
        mode_kept = refl;
        seats = refl;
      }

-- The rooms between `createRoomLocked` and the other members' seats.
abbrev stored_rooms : RoomMatchService → MatchTicket → ℕ → Rooms
stored_rooms s f now = (store_new_room s f.request.player (match_options f) now).0.rooms

module _ (s : RoomMatchService) (f : MatchTicket) (now : ℕ) where
  stored-next :
      HasGoodRooms (store_new_room s f.request.player (match_options f) now).0
      → RoomsInv (inc_u64 s.next_room_id) (stored_rooms s f now)
  unfolding store_new_room
  stored-next v = v

  Seated-stored :
      (p : String) (j : ℕ)
      → Seated (stored_rooms s f now) p j
      → (j ≡ s.next_room_id) ⊎ Seated s.rooms p j
  unfolding store_new_room
  Seated-stored p j seat =
      elim (Seated-insert s.rooms s.next_room_id
        (new_room s.next_room_id f.request.player (match_options f) now) p j seat) [
          | inl (e, _, _) ↦ inl e
          | inr (_, old) ↦ inr old
        ]

members_of_group :
    (s : RoomMatchService) (f : MatchTicket) (others : List MatchTicket) (now : ℕ)
    → length (f ∷ others) ≡ wanted f
    → (p : String) → has_member p (opened s f others now).1 ≡ true
    → any_of (of_player p) (f ∷ others) ≡ true
members_of_group s f others now full p member =
    sym (any_of-map-ticket_member p now (f ∷ others))
    ∙ ap (any_of (is_member p)) (sym (opened-IsRoomOf s f others now full).seats)
    ∙ member

module _ (s : RoomMatchService) (f : MatchTicket) (others : List MatchTicket) (now : ℕ) where
  module _ (v : HasGoodRooms s) (h : s.next_room_id + 1 < u64_mod)
      (full : length (f ∷ others) ≡ wanted f)
      (free : (t : MatchTicket) (j : ℕ)
        → In t (f ∷ others)
        → ¬ Seated s.rooms (ticket_player t) j) where
    -- Who sits in a room afterwards sat there before, or is of the group.
    pub Seated-opened :
        (p : String) (j : ℕ)
        → Seated (opened s f others now).0.rooms p j
        → ((j ≡ s.next_room_id) × (any_of (of_player p) (f ∷ others) ≡ true)) ⊎ Seated s.rooms p j
    Seated-opened p j seat =
        let made = (opened_fields s f others now).5 in
        elim (Seated-insert (stored_rooms s f now) s.next_room_id (opened s f others now).1 p j
          (subst (λ m. Seated m p j) made seat)) [
            | inl (e, _, member) ↦ inl (e, members_of_group s f others now full p member)
            | inr (ne, seat') ↦ elim (Seated-stored s f now p j seat') [
              | inl e ↦ absurd (ne e)
              | inr old ↦ inr old
            ]
          ]

    pub opened-Rooms : HasGoodRooms (opened s f others now).0
    opened-Rooms =
        let (id, next, _, _, _, made) = opened_fields s f others now in
        let r = opened-IsRoomOf s f others now full in
        let grown = inc_u64_lem s.next_room_id h in
        let base =
          store_new_room-Inv s f.request.player (match_options f) now v h (omega arith)
            (λ j. free f j (inl refl)) in
        subst₂ RoomsInv (sym next) (sym made) (
          insert-RoomsInv (inc_u64 s.next_room_id) (inc_u64 s.next_room_id) (stored_rooms s f now)
            s.next_room_id (opened s f others now).1 (stored-next s f now base) (omega arith)
            (record {
              keyed = id;
              below = omega arith;
              fits = λ _. omega (arith, r.full);
              populated = λ _. omega (arith, r.full, r.capacity, full);
            })
            (λ p j _ member seat. elim (Seated-stored s f now p j seat) [
              | inl e ↦ e
              | inr old ↦
                  let (t, i, is_p) =
                    any_of_sound (of_player p) (f ∷ others)
                      (members_of_group s f others now full p member) in
                  let e : ticket_player t ≡ p = ground arith in
                  absurd (free t j i (subst (λ q. Seated s.rooms q j) (sym e) old))
            ]))
