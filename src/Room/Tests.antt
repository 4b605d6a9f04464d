-- ===== src/Room/Tests.antt =====
-- Runs of the room service, and the theorems at concrete inputs.
use red_culture_service.Common.{
  ℕ, ◌+◌, ◌≡◌, ◌↔◌, refl, String, true, false, List, [], ◌∷◌, some, ℕ_discrete, str_dec, arith,
  any_of, remove_if, keep_if, find_if, inc_u64, ◌≢◌,
}
use text.Mathlib.TextEquality.{eq_iff}
use red_culture_service.Common.Map.{lookup, insert, erase, find_key}
use red_culture_service.Room.Types.{RoomInfo, PlayerRef, RoomOptions, MatchRequest, waiting, closed}
use red_culture_service.Room.Rooms.{
  find_active_room_id_by_player_locked, remove_player_ticket_locked, update_room_state_locked,
  new_room, store_new_room, create_room_locked, create_room, join_found, join_room, left_room,
  leave_found, leave_room, close_room, mark_ready, set_ready_found, set_ready,
}
use red_culture_service.Room.Matching.{
  queue_ticket, enqueue_match, erase_ticket, cancel_match, cancel_match_by_player, erase_players,
  expire, fill_group, find_group, seat_group, take_group, open_group_room, round_of, match_round,
  match_loop, tick, same_match_bucket,
}
use red_culture_service.Room.Queries.{find_room_by_player}
use red_culture_service.Room.Seats.{Seated}
use red_culture_service.Room.Invariant.{HasGoodRooms}
use red_culture_service.Room.Tick.{Inv}
use red_culture_service.Room.Loop.{IsTicked, tick-IsTicked}
use red_culture_service.Room.Steps.{
  initial, Call, creates, joins, closes, enqueues, step, run, AreLegal, run-initial-Inv,
}
use red_culture_service.Room.Lookups.{find_room_by_player_iff, cancel-enqueue}
use red_culture_service.Room.Reopening.{leave_room_reopens, leave_room_doubles}

program : Unit {0}
unfolding initial step run create_room create_room_locked store_new_room new_room
    update_room_state_locked find_active_room_id_by_player_locked find_key
    remove_player_ticket_locked lookup insert erase join_room join_found leave_room leave_found
    left_room close_room set_ready set_ready_found mark_ready enqueue_match queue_ticket
    cancel_match cancel_match_by_player erase_ticket erase_players expire fill_group find_group
    seat_group take_group open_group_room round_of match_round match_loop tick same_match_bucket
    any_of remove_if keep_if find_if inc_u64 ℕ_discrete str_dec
program = tt

abbrev player : String → PlayerRef
player name = record { player_id = name; connection_id = 0 }

abbrev options : RoomOptions
options = record { mode = "default"; max_players = 3; auto_start_when_full = true }

abbrev request : String → MatchRequest
request name = record {
  player = player name;
  mode = "duel";
  preferred_room_size = 2;
  timeout = 30000;
}

-- Two players in a room, and two in the queue.
abbrev history : List (ℕ × Call)
history =
    (1, creates (player "ann") options)
    ∷ (2, joins 1 (player "bob"))
    ∷ (3, enqueues (request "cat"))
    ∷ (4, enqueues (request "dan"))
    ∷ []

history_counts :
    ((run initial history).next_room_id ≡ 2) × ((run initial history).next_ticket_id ≡ 3)
unfolding program
history_counts = (refl, refl)

history-AreLegal : AreLegal initial history
unfolding program
history-AreLegal = omega arith

run-initial-Inv_example : Inv (run initial history)
run-initial-Inv_example = run-initial-Inv history history-AreLegal

history-Inv : Inv (run initial history)
history-Inv = run-initial-Inv history history-AreLegal

tick-IsTicked_example : IsTicked (run initial history) 5
unfolding program
tick-IsTicked_example = tick-IsTicked (run initial history) 5 history-Inv (omega arith)

-- The two in the queue get a room, and it is playing.
tick_empties : (tick (run initial history) 5).0.match_queue ≡ []
unfolding program
tick_empties = refl

-- A ticket that has waited for its timeout expires instead.
tick_expires : (tick (run initial history) 40000).1.created_rooms ≡ []
unfolding program
tick_expires = refl

abbrev anns_room : RoomInfo
anns_room = record {
  id = 1;
  mode = "default";
  state = waiting;
  max_players = 3;
  auto_start_when_full = true;
  members =
      record { player = player "ann"; ready = false; joined_at = 1 }
      ∷ record { player = player "bob"; ready = false; joined_at = 2 }
      ∷ [];
  created_at = 1;
  updated_at = 2;
}

find_room_by_player_iff_example :
    (find_room_by_player (run initial history) "bob" ≡ some anns_room)
    ↔ ((i : ℕ) × (seat : Seated (run initial history).rooms "bob" i) × (seat.room ≡ anns_room))
find_room_by_player_iff_example =
    find_room_by_player_iff (run initial history) "bob" anns_room history-Inv.rooms

cancel-enqueue_example :
    cancel_match_by_player (enqueue_match (run initial history) (request "eve") 6).0 "eve" ≡ (
      record (run initial history) { next_ticket_id = (run initial history).next_ticket_id + 1 },
      true,
    )
unfolding program
cancel-enqueue_example =
    cancel-enqueue (run initial history) (request "eve") 6 history-Inv.queue (omega arith) refl

-- Room 1 is closed with ann and bob in it; bob has opened room 2.
abbrev closed_history : List (ℕ × Call)
closed_history =
    (1, creates (player "ann") options)
    ∷ (2, joins 1 (player "bob"))
    ∷ (3, closes 1)
    ∷ (4, creates (player "bob") options)
    ∷ []

abbrev closed_room : RoomInfo
closed_room = record anns_room { state = closed; updated_at = 3 }

abbrev bobs_room : RoomInfo
bobs_room = record anns_room {
  id = 2;
  members = record { player = player "bob"; ready = false; joined_at = 4 } ∷ [];
  created_at = 4;
  updated_at = 4;
}

bob_not_ann : ◌≢◌ {A = String} "bob" "ann"
bob_not_ann = ground (arith, eq_iff "bob" "ann")

bob-Seated : Seated (run initial closed_history).rooms "bob" 2
unfolding program
bob-Seated = record { room = bobs_room; stored = refl; active = refl; member = refl }

leave_room_reopens_example :
    Seated (leave_room (run initial closed_history) 1 "ann" 5).0.rooms "bob" 1
unfolding program
leave_room_reopens_example =
    leave_room_reopens (run initial closed_history) 1 5 closed_room "ann" "bob" refl refl refl refl
      bob_not_ann

leave_room_doubles_example : ¬ HasGoodRooms (leave_room (run initial closed_history) 1 "ann" 5).0
unfolding program
leave_room_doubles_example =
    leave_room_doubles (run initial closed_history) 1 2 5 closed_room "ann" "bob" refl refl refl
      refl bob_not_ann bob-Seated (omega arith)
