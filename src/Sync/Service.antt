-- ===== src/Sync/Service.antt =====
-- The rooms and players of src/sync/state_sync_service.cpp. Times are readings of the steady clock,
-- in nanoseconds.
use red_culture_service.Common.{
  ℕ, String, Bool, true, false, List, [], Option, none, some, ℕ_discrete, str_dec, is_empty,
  is_some, ◌==◌, if◌then◌else◌, inc_u64,
}
use red_culture_service.Common.Map.{lookup, insert, erase}
use red_culture_service.Sync.Types.{
  FloatOps, PlayerAction, PlayerTransform, PlayerState, StateSubmitResult, RoomSyncState,
  StateSyncService, rejected,
}

-- `{}`, the epoch of the clock
abbrev pub idle : PlayerAction
idle = record { name = "idle"; sequence = 0 }

module _ (F : FloatOps) where
  abbrev pub Rooms : Type 0
  Rooms = List (ℕ × RoomSyncState F)

  abbrev pub empty_room : RoomSyncState F
  empty_room = record { version = 0; players = []; pending_deltas = []; last_snapshot_at = 0 }

  unfoldable pub register_room : StateSyncService F → ℕ → StateSyncService F × Bool
  register_room s room_id =
      if room_id == 0
      then (s, false)
      else if is_some (lookup ℕ_discrete room_id s.rooms)
      then (s, false)
      else (record s { rooms = insert ℕ_discrete room_id empty_room s.rooms }, true)

  unfoldable pub unregister_room : StateSyncService F → ℕ → StateSyncService F × Bool
  unregister_room s room_id = (
    record s { rooms = erase ℕ_discrete room_id s.rooms },
    is_some (lookup ℕ_discrete room_id s.rooms),
  )

  -- `rooms_[room_id]`
  abbrev pub room_or_empty : Option (RoomSyncState F) → RoomSyncState F
  room_or_empty none = empty_room
  room_or_empty (some room) = room

  -- `players.emplace`, and the four assignments where the player is there already.
  unfoldable pub emplaced :
      Option (PlayerState F) → String → ℕ → PlayerTransform F → ℕ → PlayerState F
  emplaced none player_id connection_id transform now = record {
    player_id = player_id;
    connection_id = connection_id;
    transform = transform;
    action = idle;
    last_input_sequence = 0;
    online = true;
    updated_at = now;
  }
  emplaced (some old) player_id connection_id transform now = record old {
    connection_id = connection_id;
    transform = transform;
    online = true;
    updated_at = now;
  }

  unfoldable pub add_to_room :
      StateSyncService F
      → ℕ
      → RoomSyncState F
      → PlayerState F
      → StateSyncService F × StateSubmitResult F
  add_to_room s room_id room state = (
    record s {
      rooms =
          insert ℕ_discrete room_id
            (record room {
              version = inc_u64 room.version;
              players = insert str_dec state.player_id state room.players;
            })
            s.rooms;
    },
    record { ok = true; error = ""; state = some state; delta = none },
  )

  unfoldable pub add_player :
      StateSyncService F
      → ℕ
      → String
      → ℕ
      → PlayerTransform F
      → ℕ
      → StateSyncService F × StateSubmitResult F
  unfolding emplaced add_to_room
  add_player s room_id player_id connection_id transform now =
      let room = room_or_empty (lookup ℕ_discrete room_id s.rooms) in
      let state =
        emplaced (lookup str_dec player_id room.players) player_id connection_id transform now in
      if room_id == 0
      then (s, rejected F "room_id is zero")
      else if is_empty player_id
      then (s, rejected F "player_id is empty")
      else add_to_room s room_id room state

  unfoldable pub remove_player : StateSyncService F → ℕ → String → StateSyncService F × Bool
  remove_player s room_id player_id = elim (lookup ℕ_discrete room_id s.rooms) [
    | none ↦ (s, false)
    | some room ↦
        if is_some (lookup str_dec player_id room.players)
        then (
          record s {
            rooms =
                insert ℕ_discrete room_id
                  (record room {
                    version = inc_u64 room.version;
                    players = erase str_dec player_id room.players;
                  })
                  s.rooms;
          },
          true,
        )
        else (s, false)
  ]

  unfoldable pub mark_player_offline :
      StateSyncService F → ℕ → String → ℕ → StateSyncService F × Bool
  mark_player_offline s room_id player_id now = elim (lookup ℕ_discrete room_id s.rooms) [
    | none ↦ (s, false)
    | some room ↦ elim (lookup str_dec player_id room.players) [
      | none ↦ (s, false)
      | some state ↦ (
        record s {
          rooms =
              insert ℕ_discrete room_id
                (record room {
                  version = inc_u64 room.version;
                  players =
                      insert str_dec player_id (record state { online = false; updated_at = now })
                        room.players;
                })
                s.rooms;
        },
        true,
      )
    ]
  ]
