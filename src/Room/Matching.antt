-- ===== src/Room/Matching.antt =====
-- The match queue of src/room/room_match_service.cpp, `tick` included, and the read-only queries.
use red_culture_service.Common.{
  ℕ, zero, suc, ◌+◌, String, Bool, true, false, not, ◌&&◌, List, [], ◌∷◌, ◌++◌, map, none, some,
  ℕ_discrete, str_dec, same, is_some, leb, ltb, ◌==◌, if◌then◌else◌, length, any_of, find_if,
  remove_if, keep_if, inc_u64,
}
use red_culture_service.Common.Map.{lookup, insert, erase}
use red_culture_service.Room.Types.{
  RoomMember, RoomInfo, RoomOptions, MatchRequest, MatchTicket, MatchTicketResult, MatchTickResult,
  RoomMatchService, no_ticket, ticket_issued,
}
use red_culture_service.Room.Rooms.{
  is_valid_player, member_of, find_active_room_id_by_player_locked, remove_player_ticket_locked,
  update_room_state_locked, create_room_locked,
}

abbrev pub ticket_player : MatchTicket → String
ticket_player t = t.request.player.player_id

unfoldable pub queue_ticket :
    RoomMatchService → MatchRequest → ℕ → RoomMatchService × MatchTicketResult
queue_ticket s request now =
    let ticket : MatchTicket = record {
      id = s.next_ticket_id;
      request = request;
      created_at = now;
    } in
    (
      record s {
        next_ticket_id = inc_u64 s.next_ticket_id;
        match_queue = s.match_queue ++ (ticket ∷ []);
        player_tickets = insert str_dec request.player.player_id s.next_ticket_id s.player_tickets;
      },
      ticket_issued ticket,
    )

unfoldable pub enqueue_match :
    RoomMatchService → MatchRequest → ℕ → RoomMatchService × MatchTicketResult
enqueue_match s request now =
    if not (is_valid_player request.player)
    then (s, no_ticket "player_id is empty")
    else if request.preferred_room_size == 0
    then (s, no_ticket "preferred_room_size must be greater than zero")
    else if is_some (find_active_room_id_by_player_locked s request.player.player_id)
    then (s, no_ticket "player already in room")
    else if is_some (lookup str_dec request.player.player_id s.player_tickets)
    then (s, no_ticket "player already in match queue")
    else queue_ticket s request now

-- `match_queue_.erase(it)` at the first ticket with the id.
unfoldable pub erase_ticket : ℕ → List MatchTicket → List MatchTicket
erase_ticket ticket_id [] = []
erase_ticket ticket_id (t ∷ q) = if t.id == ticket_id then q else t ∷ erase_ticket ticket_id q

unfoldable pub cancel_match : RoomMatchService → ℕ → RoomMatchService × Bool
cancel_match s ticket_id = elim (find_if (λ (t : MatchTicket). t.id == ticket_id) s.match_queue) [
  | none ↦ (s, false)
  | some t ↦ (
    record s {
      match_queue = erase_ticket ticket_id s.match_queue;
      player_tickets = erase str_dec (ticket_player t) s.player_tickets;
    },
    true,
  )
]

unfoldable pub cancel_match_by_player : RoomMatchService → String → RoomMatchService × Bool
cancel_match_by_player s player_id =
    if is_some (lookup str_dec player_id s.player_tickets)
    then (remove_player_ticket_locked s player_id, true)
    else (s, false)

-- `now - created_at >= timeout`, over the integers.
abbrev pub timed_out : ℕ → MatchTicket → Bool
timed_out now t = leb (t.created_at + t.request.timeout) now

-- `player_tickets_.erase` for each ticket of a list.
unfoldable pub erase_players : List MatchTicket → List (String × ℕ) → List (String × ℕ)
erase_players [] m = m
erase_players (t ∷ ts) m = erase_players ts (erase str_dec (ticket_player t) m)

-- The first loop of `tick`.
unfoldable pub expire : RoomMatchService → ℕ → RoomMatchService
expire s now = record s {
  match_queue = remove_if (timed_out now) s.match_queue;
  player_tickets = erase_players (keep_if (timed_out now) s.match_queue) s.player_tickets;
}

unfoldable pub same_match_bucket : MatchTicket → MatchTicket → Bool
same_match_bucket lhs rhs =
    same lhs.request.mode rhs.request.mode
    && (lhs.request.preferred_room_size == rhs.request.preferred_room_size)

-- The inner `for` over the queue, with the group so far.
unfoldable pub fill_group : MatchTicket → List MatchTicket → List MatchTicket → List MatchTicket
unfolding same_match_bucket
fill_group seed [] group = group
fill_group seed (t ∷ q) group =
    let group' =
      if not (t.id == seed.id) && same_match_bucket seed t then group ++ (t ∷ []) else group in
    let rest = fill_group seed q group' in
    if ltb (length group) seed.request.preferred_room_size then rest else group

-- The outer `for` over the seeds: the first group that is large enough, or the last one tried.
unfoldable pub find_group :
    List MatchTicket → List MatchTicket → List MatchTicket → List MatchTicket
unfolding fill_group
find_group [] queue last = last
find_group (seed ∷ seeds) queue last =
    let group = fill_group seed queue (seed ∷ []) in
    let rest = find_group seeds queue group in
    if leb seed.request.preferred_room_size (length group) then group else rest

-- One round of the `while`: no group, a group whose room was refused, or a new room.
pub data Round : Type 0 where
  no_group : Round
  refused : RoomMatchService → Round
  created : RoomMatchService → RoomInfo → Round

abbrev pub in_group : List MatchTicket → MatchTicket → Bool
in_group group t = any_of (λ (m : MatchTicket). m.id == t.id) group

abbrev pub match_options : MatchTicket → RoomOptions
match_options t = record {
  mode = t.request.mode;
  max_players = t.request.preferred_room_size;
  auto_start_when_full = true;
}

abbrev pub ticket_member : ℕ → MatchTicket → RoomMember
ticket_member now t = member_of t.request.player now

-- The room of the group's first player, with the others pushed behind, stored under its id.
unfoldable pub seat_group :
    RoomMatchService → RoomInfo → List MatchTicket → ℕ → RoomMatchService × RoomInfo
seat_group s room others now =
    let stored =
      update_room_state_locked
        (record room { members = room.members ++ map (ticket_member now) others }) now in
    (record s { rooms = insert ℕ_discrete room.id stored s.rooms }, stored)

unfoldable pub take_group : RoomMatchService → List MatchTicket → RoomMatchService
take_group s group = record s {
  match_queue = remove_if (in_group group) s.match_queue;
  player_tickets = erase_players group s.player_tickets;
}

unfoldable pub open_group_room : RoomMatchService → MatchTicket → List MatchTicket → ℕ → Round
open_group_room s first others now =
    let (s', result) = create_room_locked s first.request.player (match_options first) now in
    elim (if result.ok then result.room else none) [
      | none ↦ refused s'
      | some room ↦ let (s'', stored) = seat_group s' room others now in created s'' stored
    ]

unfoldable pub round_of : RoomMatchService → List MatchTicket → ℕ → Round
round_of s [] now = no_group
round_of s (first ∷ others) now =
    if ltb (length (first ∷ others)) first.request.preferred_room_size
    then no_group
    else open_group_room (take_group s (first ∷ others)) first others now

unfoldable pub match_round : RoomMatchService → ℕ → Round
unfolding find_group round_of
match_round s now = round_of s (find_group s.match_queue s.match_queue []) now

-- `while (created_room)`: the fuel is a bound on the rounds.
unfoldable pub match_loop : ℕ → RoomMatchService → ℕ → RoomMatchService × List RoomInfo
match_loop zero s now = (s, [])
match_loop (suc fuel) s now = elim (match_round s now) [
  | no_group ↦ (s, [])
  | refused s' ↦ (s', [])
  | created s' room ↦ let (s'', rooms) = match_loop fuel s' now in (s'', room ∷ rooms)
]

unfoldable pub tick : RoomMatchService → ℕ → RoomMatchService × MatchTickResult
tick s now =
    let waiting = expire s now in
    let (s', rooms) = match_loop (length waiting.match_queue + 1) waiting now in
    (s', record { created_rooms = rooms; expired_tickets = keep_if (timed_out now) s.match_queue })
