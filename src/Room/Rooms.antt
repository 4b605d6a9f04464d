-- ===== src/Room/Rooms.antt =====
-- The room operations of src/room/room_match_service.cpp. A call takes the service and the time
-- `now`, and returns the new service beside its result. The readings of the clock in one call
-- are one instant.
use red_culture_service.Common.{
  ℕ, String, Bool, true, false, not, ◌&&◌, ite, List, [], ◌∷◌, ◌++◌, Option, none, some, ℕ_discrete,
  str_dec, same, is_empty, is_some, leb, ◌==◌, if◌then◌else◌, length, any_of, remove_if, inc_u64,
}
use red_culture_service.Common.Map.{lookup, insert, erase, find_key}
use red_culture_service.Room.Types.{
  RoomState, waiting, playing, closed, PlayerRef, RoomMember, RoomOptions, RoomInfo, RoomResult,
  MatchTicket, RoomMatchService, failed, succeeded,
}

abbrev pub is_valid_player : PlayerRef → Bool
is_valid_player p = not (is_empty p.player_id)

abbrev pub is_closed_state : RoomState → Bool
is_closed_state closed = true
is_closed_state _ = false

abbrev pub is_closed : RoomInfo → Bool
is_closed r = is_closed_state r.state

abbrev pub is_member : String → RoomMember → Bool
is_member player_id m = same m.player.player_id player_id

-- The `find_if` over the members, compared with `end()`.
abbrev pub has_member : String → RoomInfo → Bool
has_member player_id r = any_of (is_member player_id) r.members

unfoldable pub find_active_room_id_by_player_locked : RoomMatchService → String → Option ℕ
find_active_room_id_by_player_locked s player_id =
    find_key ℕ_discrete (λ r. not (is_closed r) && has_member player_id r) s.rooms

unfoldable pub remove_player_ticket_locked : RoomMatchService → String → RoomMatchService
remove_player_ticket_locked s player_id = elim (lookup str_dec player_id s.player_tickets) [
  | none ↦ s
  | some ticket_id ↦ record s {
    match_queue = remove_if (λ (t : MatchTicket). t.id == ticket_id) s.match_queue;
    player_tickets = erase str_dec player_id s.player_tickets;
  }
]

-- `if (room.state != playing) room.state = waiting`
abbrev pub not_yet_playing : RoomState → RoomState
not_yet_playing playing = playing
not_yet_playing _ = waiting

abbrev pub no_members : RoomInfo → Bool
no_members r = length r.members == 0

unfoldable pub update_room_state_locked : RoomInfo → ℕ → RoomInfo
update_room_state_locked r now = record r {
  state =
      if no_members r
      then closed
      else if r.auto_start_when_full && leb r.max_players (length r.members)
      then playing
      else not_yet_playing r.state;
  updated_at = now;
}

abbrev pub member_of : PlayerRef → ℕ → RoomMember
member_of player now = record { player = player; ready = false; joined_at = now }

-- The room that `createRoomLocked` builds.
unfoldable pub new_room : ℕ → PlayerRef → RoomOptions → ℕ → RoomInfo
unfolding update_room_state_locked
new_room id host options now =
    update_room_state_locked
      (record {
        id = id;
        mode = options.mode;
        state = waiting;
        max_players = options.max_players;
        auto_start_when_full = options.auto_start_when_full;
        members = member_of host now ∷ [];
        created_at = now;
        updated_at = now;
      })
      now

unfoldable pub store_new_room :
    RoomMatchService → PlayerRef → RoomOptions → ℕ → RoomMatchService × RoomResult
store_new_room s host options now =
    let room = new_room s.next_room_id host options now in
    (
      record s {
        next_room_id = inc_u64 s.next_room_id;
        rooms = insert ℕ_discrete s.next_room_id room s.rooms;
      },
      succeeded room,
    )

unfoldable pub create_room_locked :
    RoomMatchService → PlayerRef → RoomOptions → ℕ → RoomMatchService × RoomResult
create_room_locked s host options now =
    if not (is_valid_player host)
    then (s, failed "player_id is empty" none)
    else if options.max_players == 0
    then (s, failed "max_players must be greater than zero" none)
    else if is_some (find_active_room_id_by_player_locked s host.player_id)
    then (s, failed "player already in room" none)
    else store_new_room (remove_player_ticket_locked s host.player_id) host options now

unfoldable pub create_room :
    RoomMatchService → PlayerRef → RoomOptions → ℕ → RoomMatchService × RoomResult
create_room s host options now = create_room_locked s host options now

-- `current_room && *current_room != room_id`
abbrev pub in_another_room : Option ℕ → ℕ → Bool
in_another_room none room_id = false
in_another_room (some current) room_id = ite (ℕ_discrete current room_id) false true

unfoldable pub join_found :
    RoomMatchService → ℕ → RoomInfo → PlayerRef → ℕ → RoomMatchService × RoomResult
join_found s room_id room player now =
    let room' =
      update_room_state_locked
        (record room { members = room.members ++ (member_of player now ∷ []) }) now in
    if is_closed room
    then (s, failed "room is closed" (some room))
    else if has_member player.player_id room
    then (s, succeeded room)
    else if in_another_room (find_active_room_id_by_player_locked s player.player_id) room_id
    then (s, failed "player already in another room" none)
    else if leb room.max_players (length room.members)
    then (s, failed "room is full" (some room))
    else (
      record (remove_player_ticket_locked s player.player_id) {
        rooms = insert ℕ_discrete room_id room' s.rooms;
      },
      succeeded room',
    )

unfoldable pub join_room : RoomMatchService → ℕ → PlayerRef → ℕ → RoomMatchService × RoomResult
join_room s room_id player now =
    if not (is_valid_player player)
    then (s, failed "player_id is empty" none)
    else elim (lookup ℕ_discrete room_id s.rooms) [
      | none ↦ (s, failed "room not found" none)
      | some room ↦ join_found s room_id room player now
    ]

-- The room after the member has been erased.
unfoldable pub left_room : RoomInfo → String → ℕ → RoomInfo
unfolding update_room_state_locked
left_room room player_id now =
    let rest = record room { members = remove_if (is_member player_id) room.members } in
    if no_members rest
    then record rest { state = closed; updated_at = now }
    else record (update_room_state_locked rest now) { updated_at = now }

unfoldable pub leave_found :
    RoomMatchService → ℕ → RoomInfo → String → ℕ → RoomMatchService × RoomResult
leave_found s room_id room player_id now =
    let room' = left_room room player_id now in
    if length (remove_if (is_member player_id) room.members) == length room.members
    then (s, failed "player not in room" (some room))
    else (record s { rooms = insert ℕ_discrete room_id room' s.rooms }, succeeded room')

unfoldable pub leave_room : RoomMatchService → ℕ → String → ℕ → RoomMatchService × RoomResult
leave_room s room_id player_id now = elim (lookup ℕ_discrete room_id s.rooms) [
  | none ↦ (s, failed "room not found" none)
  | some room ↦ leave_found s room_id room player_id now
]

unfoldable pub close_room : RoomMatchService → ℕ → ℕ → RoomMatchService × RoomResult
close_room s room_id now = elim (lookup ℕ_discrete room_id s.rooms) [
  | none ↦ (s, failed "room not found" none)
  | some room ↦
      let room' = record room { state = closed; updated_at = now } in
      (record s { rooms = insert ℕ_discrete room_id room' s.rooms }, succeeded room')
]

-- `member_it->ready = ready` at the first member with the id.
unfoldable pub mark_ready : String → Bool → List RoomMember → List RoomMember
mark_ready player_id ready [] = []
mark_ready player_id ready (m ∷ ms) =
    if is_member player_id m
    then record m { ready = ready } ∷ ms
    else m ∷ mark_ready player_id ready ms

unfoldable pub set_ready_found :
    RoomMatchService → ℕ → RoomInfo → String → Bool → ℕ → RoomMatchService × RoomResult
set_ready_found s room_id room player_id ready now =
    let room' = record room {
      members = mark_ready player_id ready room.members;
      updated_at = now;
    } in
    if is_closed room
    then (s, failed "room is closed" (some room))
    else if not (has_member player_id room)
    then (s, failed "player not in room" (some room))
    else (record s { rooms = insert ℕ_discrete room_id room' s.rooms }, succeeded room')

unfoldable pub set_ready : RoomMatchService → ℕ → String → Bool → ℕ → RoomMatchService × RoomResult
set_ready s room_id player_id ready now = elim (lookup ℕ_discrete room_id s.rooms) [
  | none ↦ (s, failed "room not found" none)
  | some room ↦ set_ready_found s room_id room player_id ready now
]
