-- ===== src/Room/Queries.antt =====
-- The read-only queries of src/room/room_match_service.cpp.
use red_culture_service.Common.{
  ℕ, String, Bool, true, not, ◌||◌, List, map, Option, none, some, ℕ_discrete, same, count_if,
  keep_if,
}
use red_culture_service.Common.Map.{lookup}
use red_culture_service.Room.Types.{
  RoomState, waiting, playing, closed, RoomInfo, MatchTicket, RoomMatchService,
}
use red_culture_service.Room.Rooms.{is_closed, find_active_room_id_by_player_locked}

unfoldable pub find_room : RoomMatchService → ℕ → Option RoomInfo
find_room s room_id = lookup ℕ_discrete room_id s.rooms

-- `rooms_.at(*room_id)` reads an id that the search has just found.
unfoldable pub find_room_by_player : RoomMatchService → String → Option RoomInfo
find_room_by_player s player_id = elim (find_active_room_id_by_player_locked s player_id) [
  | none ↦ none
  | some room_id ↦ lookup ℕ_discrete room_id s.rooms
]

abbrev pub is_listed : Bool → RoomInfo → Bool
is_listed include_closed r = include_closed || not (is_closed r)

unfoldable pub list_rooms : RoomMatchService → Bool → List RoomInfo
list_rooms s include_closed = keep_if (is_listed include_closed) (map (λ e. e.1) s.rooms)

unfoldable pub room_count : RoomMatchService → Bool → ℕ
room_count s include_closed = count_if (λ (e : ℕ × RoomInfo). is_listed include_closed e.1) s.rooms

abbrev pub has_mode : Option String → MatchTicket → Bool
has_mode none t = true
has_mode (some mode) t = same t.request.mode mode

unfoldable pub waiting_count : RoomMatchService → Option String → ℕ
waiting_count s mode = count_if (has_mode mode) s.match_queue

unfoldable pub to_string : RoomState → String
to_string waiting = "waiting"
to_string playing = "playing"
to_string closed = "closed"
