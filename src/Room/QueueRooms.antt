-- ===== src/Room/QueueRooms.antt =====
-- The calls on the match queue leave the room table alone.
use red_culture_service.Common.{ℕ, ◌≡◌, String, arith}
use red_culture_service.Room.Types.{MatchRequest, RoomMatchService}
use red_culture_service.Room.Matching.{
  queue_ticket, enqueue_match, cancel_match, cancel_match_by_player,
}
use red_culture_service.Room.Invariant.{HasGoodRooms, remove_ticket-rooms}

HasGoodRooms-same :
    (s t : RoomMatchService)
    → (t.rooms ≡ s.rooms) × (t.next_room_id ≡ s.next_room_id)
    → HasGoodRooms s
    → HasGoodRooms t
HasGoodRooms-same s t (r, n) v = rw (r, n) v

pub enqueue-rooms :
    (s : RoomMatchService) (request : MatchRequest) (now : ℕ)
    → HasGoodRooms s
    → HasGoodRooms (enqueue_match s request now).0
unfolding enqueue_match queue_ticket
enqueue-rooms s request now v = HasGoodRooms-same s (enqueue_match s request now).0 (ground arith) v

pub cancel-rooms :
    (s : RoomMatchService) (i : ℕ) → HasGoodRooms s → HasGoodRooms (cancel_match s i).0
unfolding cancel_match
cancel-rooms s i v = HasGoodRooms-same s (cancel_match s i).0 (ground arith) v

pub cancel_by_player-rooms :
    (s : RoomMatchService) (p : String)
    → HasGoodRooms s
    → HasGoodRooms (cancel_match_by_player s p).0
unfolding cancel_match_by_player
cancel_by_player-rooms s p v =
    HasGoodRooms-same s (cancel_match_by_player s p).0 (ground (arith, remove_ticket-rooms s p)) v
