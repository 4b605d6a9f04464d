-- ===== src/Room/Lookups.antt =====
-- What a well-formed service answers about a player, and the way into and out of the queue.
use red_culture_service.Common.{
  ℕ, ◌+◌, ◌<◌, ◌≡◌, ◌↔◌, inl, inr, refl, String, true, List, [], ◌∷◌, ◌++◌, none, some, str_dec,
  arith, remove_if, Option-cases, ◌∙◌, ap, In, u64_mod, inc_u64_lem, ◌==◌,
}
use red_culture_service.Common.Map.{lookup, erase-insert, lookup-insert}
use red_culture_service.Room.Types.{RoomInfo, MatchTicket, MatchRequest, RoomMatchService}
use red_culture_service.Room.Rooms.{
  find_active_room_id_by_player_locked, remove_player_ticket_locked,
}
use red_culture_service.Room.Matching.{queue_ticket, enqueue_match, cancel_match_by_player}
use red_culture_service.Room.Queries.{find_room_by_player}
use red_culture_service.Room.Seats.{Seated, find_active-Seated, find_active-none}
use red_culture_service.Room.Invariant.{HasGoodRooms}
use red_culture_service.Room.Queue.{HasGoodQueue}

-- The room of a seated player is found, in whatever order the rooms are visited: there is one.
pub find_room_by_player-Seated :
    (s : RoomMatchService) (p : String) (i : ℕ)
    → HasGoodRooms s
    → (seat : Seated s.rooms p i) → find_room_by_player s p ≡ some seat.room
unfolding find_room_by_player
find_room_by_player-Seated s p i v seat =
    elim (Option-cases (find_active_room_id_by_player_locked s p)) [
      | inl e ↦ absurd (find_active-none s p i e seat)
      | inr (j, e) ↦
          let same_id : j ≡ i = v.one_room p j i (find_active-Seated s p j e) seat in
          rw (e, find_room_by_player, same_id) seat.stored
    ]

found_room-Seated :
    (s : RoomMatchService) (p : String) (r : RoomInfo)
    → find_room_by_player s p ≡ some r
    → (i : ℕ) × (seat : Seated s.rooms p i) × (seat.room ≡ r)
unfolding find_room_by_player
found_room-Seated s p r h = elim (Option-cases (find_active_room_id_by_player_locked s p)) [
  | inl e ↦ absurd (ground arith)
  | inr (j, e) ↦
      let seat = find_active-Seated s p j e in let stored = seat.stored in (j, seat, ground arith)
]

-- If the room table is well formed, `findRoomByPlayer` answers with a room exactly when the player
-- sits in it: the room is stored, open, and has the player among its members.
pub find_room_by_player_iff :
    (s : RoomMatchService) (p : String) (r : RoomInfo)
    → HasGoodRooms s
    → (find_room_by_player s p ≡ some r) ↔ ((i : ℕ) × (seat : Seated s.rooms p i) × (seat.room ≡ r))
find_room_by_player_iff s p r v =
    (found_room-Seated s p r, λ (i, seat, e). find_room_by_player-Seated s p i v seat ∙ ap some e)

no_such_ticket :
    (n : ℕ) (q : List MatchTicket) (t : MatchTicket)
    → ((u : MatchTicket) → In u q → u.id < n)
    → t.id ≡ n
    → remove_if (λ (u : MatchTicket). u.id == n) (q ++ (t ∷ [])) ≡ q
unfolding remove_if
no_such_ticket n [] t below e = ground arith
no_such_ticket n (u ∷ q) t below e =
    let here : u.id < n = below u (inl refl) in
    ground (arith, no_such_ticket n q t (λ w i. below w (inr i)) e)

-- If the queue is well formed and the ticket ids last, a ticket that was issued and then cancelled
-- by its player leaves the service as it was, but that the next ticket id has moved on by one.
pub cancel-enqueue :
    (s : RoomMatchService) (request : MatchRequest) (now : ℕ)
    → HasGoodQueue s
    → s.next_ticket_id + 1 < u64_mod
    → (enqueue_match s request now).1.ok ≡ true
    → cancel_match_by_player (enqueue_match s request now).0 request.player.player_id
      ≡ (record s { next_ticket_id = s.next_ticket_id + 1 }, true)
unfolding enqueue_match
cancel-enqueue s request now v h accepted =
    elim (Option-cases (lookup str_dec request.player.player_id s.player_tickets)) [
      | inr (i, queued) ↦ absurd (ground arith)
      | inl fresh ↦
          let e : enqueue_match s request now ≡ queue_ticket s request now = ground arith in
          rw e (cancelled fresh)
    ]
  where
    cancelled :
        lookup str_dec request.player.player_id s.player_tickets ≡ none
        → cancel_match_by_player (queue_ticket s request now).0 request.player.player_id
          ≡ (record s { next_ticket_id = s.next_ticket_id + 1 }, true)
    cancelled fresh =
        unfold cancel_match_by_player queue_ticket remove_player_ticket_locked in
        ground (
          arith,
          inc_u64_lem s.next_ticket_id h,
          lookup-insert str_dec request.player.player_id request.player.player_id s.next_ticket_id
              s.player_tickets,
          erase-insert str_dec request.player.player_id s.next_ticket_id s.player_tickets fresh,
          no_such_ticket s.next_ticket_id s.match_queue
              (record { id = s.next_ticket_id; request = request; created_at = now }) v.below refl,
        )
