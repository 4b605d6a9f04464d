-- ===== src/Room/Steps.antt =====
-- Every call of `RoomMatchService`, and histories of calls.
use red_culture_service.Common.{
  ℕ, ◌+◌, ◌<◌, ◌≡◌, String, Bool, false, List, [], ◌∷◌, some, ℕ_discrete, arith, length, u64_mod,
}
use red_culture_service.Common.Map.{lookup}
use red_culture_service.Room.Types.{
  PlayerRef, RoomOptions, RoomInfo, MatchRequest, RoomMatchService,
}
use red_culture_service.Room.Rooms.{
  is_closed, create_room, join_room, leave_room, close_room, set_ready,
}
use red_culture_service.Room.Matching.{enqueue_match, cancel_match, cancel_match_by_player, tick}
use red_culture_service.Room.Invariant.{create_room_locked-Inv}
use red_culture_service.Room.Membership.{
  join_room-Inv, leave_room-Inv, close_room-Inv, set_ready-Inv,
}
use red_culture_service.Room.Queue.{
  enqueue_match-QueueInv, cancel_match-QueueInv, cancel_match_by_player-QueueInv,
}
use red_culture_service.Room.QueueRooms.{enqueue-rooms, cancel-rooms, cancel_by_player-rooms}
use red_culture_service.Room.Seating.{
  create_room_locked-Queue, join_room-Queue, leave_room-Queue, close_room-Queue, set_ready-Queue,
}
use red_culture_service.Room.Tick.{Inv}
use red_culture_service.Room.Loop.{tick-IsTicked}

-- `RoomMatchService() = default`
unfoldable pub initial : RoomMatchService
initial = record {
  next_room_id = 1;
  next_ticket_id = 1;
  rooms = [];
  match_queue = [];
  player_tickets = [];
}

pub data Call : Type 0 where
  creates : PlayerRef → RoomOptions → Call
  joins : ℕ → PlayerRef → Call
  leaves : ℕ → String → Call
  closes : ℕ → Call
  readies : ℕ → String → Bool → Call
  enqueues : MatchRequest → Call
  cancels : ℕ → Call
  cancels_player : String → Call
  ticks : Call

unfoldable pub step : RoomMatchService → ℕ → Call → RoomMatchService
unfolding create_room
step s now (creates host options) = (create_room s host options now).0
step s now (joins i player) = (join_room s i player now).0
step s now (leaves i p) = (leave_room s i p now).0
step s now (closes i) = (close_room s i now).0
step s now (readies i p ready) = (set_ready s i p ready now).0
step s now (enqueues request) = (enqueue_match s request now).0
step s now (cancels i) = (cancel_match s i).0
step s now (cancels_player p) = (cancel_match_by_player s p).0
step s now ticks = (tick s now).0

-- The id counters have room for the call, and a room that somebody leaves is open.
abbrev pub IsLegal : RoomMatchService → Call → Type 0
IsLegal s (leaves i p) = (r : RoomInfo) → lookup ℕ_discrete i s.rooms ≡ some r → is_closed r ≡ false
IsLegal s _ =
    (s.next_room_id + length s.match_queue + 1 < u64_mod) × (s.next_ticket_id + 1 < u64_mod)

-- Every legal call of a well-formed service leaves it well formed.
pub step-Inv :
    (s : RoomMatchService) (now : ℕ) (c : Call) → IsLegal s c → Inv s → Inv (step s now c)
unfolding step
step-Inv s now (creates host options) h v = record {
  rooms = create_room_locked-Inv s host options now v.rooms (omega arith);
  queue = create_room_locked-Queue s host options now v.queue;
}
step-Inv s now (joins i player) h v = record {
  rooms = join_room-Inv s i player now v.rooms;
  queue = join_room-Queue s i player now v.queue;
}
step-Inv s now (leaves i p) h v = record {
  rooms = leave_room-Inv s i p now v.rooms h;
  queue = leave_room-Queue s i p now v.queue h;
}
step-Inv s now (closes i) h v = record {
  rooms = close_room-Inv s i now v.rooms;
  queue = close_room-Queue s i now v.queue;
}
step-Inv s now (readies i p ready) h v = record {
  rooms = set_ready-Inv s i p ready now v.rooms;
  queue = set_ready-Queue s i p ready now v.queue;
}
step-Inv s now (enqueues request) h v = record {
  rooms = enqueue-rooms s request now v.rooms;
  queue = enqueue_match-QueueInv s request now v.queue h.1;
}
step-Inv s now (cancels i) h v = record {
  rooms = cancel-rooms s i v.rooms;
  queue = cancel_match-QueueInv s i v.queue;
}
step-Inv s now (cancels_player p) h v = record {
  rooms = cancel_by_player-rooms s p v.rooms;
  queue = cancel_match_by_player-QueueInv s p v.queue;
}
step-Inv s now ticks h v = (tick-IsTicked s now v h.0).inv

unfoldable pub run : RoomMatchService → List (ℕ × Call) → RoomMatchService
unfolding step
run s [] = s
run s ((now, c) ∷ cs) = run (step s now c) cs

-- Each call of the history is legal where it is made.
abbrev pub AreLegal : RoomMatchService → List (ℕ × Call) → Type 0
AreLegal s [] = Unit
AreLegal s ((now, c) ∷ cs) = IsLegal s c × AreLegal (step s now c) cs

pub initial-Inv : Inv initial
unfolding initial lookup
initial-Inv = record {
  rooms = record { good = λ i r e. absurd (cc); one_room = λ p i j a b. absurd (cc (a.stored)) };
  queue = record {
    rising = tt;
    below = λ t i. absurd i;
    held = λ t i. absurd i;
    waiting = λ p i e. absurd (cc);
    seatless = λ p i j e. absurd (cc);
    served = λ t i. absurd i;
  };
}

run-Inv : (s : RoomMatchService) (cs : List (ℕ × Call)) → AreLegal s cs → Inv s → Inv (run s cs)
unfolding run
run-Inv s [] h v = v
run-Inv s ((now, c) ∷ cs) h v = run-Inv (step s now c) cs h.1 (step-Inv s now c h.0 v)

-- After any history of calls from the empty service, the rooms, the queue and the ticket table are
-- well formed: each open room has a member and no more than its size, no player sits in two open
-- rooms, and the ticket table answers for the queue. The history has no departure from a closed
-- room, and the id counters do not reach the top of their range.
pub run-initial-Inv : (cs : List (ℕ × Call)) → AreLegal initial cs → Inv (run initial cs)
run-initial-Inv cs h = run-Inv initial cs h initial-Inv
