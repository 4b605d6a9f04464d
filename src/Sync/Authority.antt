-- ===== src/Sync/Authority.antt =====
-- `submitState` of src/sync/state_sync_service.cpp with the checks on a movement. Times are readings
-- of the steady clock, in nanoseconds.
use red_culture_service.Common.{
  ℕ, ◌-◌, ◌/◌, Bool, true, false, not, List, [], ◌∷◌, ◌++◌, none, some, ℕ_discrete, str_dec,
  is_empty, ltb, leb, ◌==◌, if◌then◌else◌, length, drop, inc_u64, ns_per_ms,
}
use red_culture_service.Common.Map.{lookup, insert}
use red_culture_service.Sync.Types.{
  FloatOps, Vector3, PlayerTransform, PlayerState, StateDelta, StateInput, StateSubmitResult,
  SyncConfig, RoomSyncState, StateSyncService, rejected,
}

module _ (F : FloatOps) where
  unfoldable pub distance : Vector3 F → Vector3 F → F.Float
  distance lhs rhs =
      let dx = F.sub lhs.x rhs.x in
      let dy = F.sub lhs.y rhs.y in
      let dz = F.sub lhs.z rhs.z in F.sqrt (F.add (F.add (F.mul dx dx) (F.mul dy dy)) (F.mul dz dz))

  unfoldable pub is_movement_allowed : SyncConfig F → PlayerState F → PlayerTransform F → ℕ → Bool
  unfolding distance
  is_movement_allowed config current next now =
      let moved = distance current.transform.position next.position in
      let elapsed = (now - current.updated_at) / ns_per_ms in
      let seconds = F.div (F.of_count elapsed) F.thousand in
      let allowed =
        F.add (F.mul config.max_move_speed_per_second seconds) config.movement_tolerance in
      if F.lt (F.add config.max_single_update_distance config.movement_tolerance) moved
      then false
      else if elapsed == 0
      then F.le moved config.movement_tolerance
      else F.le moved allowed

  abbrev pub accepted_state : PlayerState F → StateInput F → ℕ → PlayerState F
  accepted_state state input now = record state {
    transform = input.transform;
    action = input.action;
    last_input_sequence = input.input_sequence;
    online = true;
    updated_at = now;
  }

  abbrev pub delta_of : StateInput F → ℕ → ℕ → StateDelta F
  delta_of input version now = record {
    room_id = input.room_id;
    player_id = input.player_id;
    transform = input.transform;
    action = input.action;
    input_sequence = input.input_sequence;
    snapshot_version = version;
    created_at = now;
  }

  -- `pending_deltas.erase(begin, begin + (size - max))` where there are more than `max`.
  unfoldable pub trim : ℕ → List (StateDelta F) → List (StateDelta F)
  trim max deltas = if ltb max (length deltas) then drop (length deltas - max) deltas else deltas

  unfoldable pub accept :
      StateSyncService F
      → RoomSyncState F
      → PlayerState F
      → StateInput F
      → ℕ
      → StateSyncService F × StateSubmitResult F
  unfolding trim
  accept s room state input now =
      let state' = accepted_state state input now in
      let version = inc_u64 room.version in
      let delta = delta_of input version now in
      (
        record s {
          rooms =
              insert ℕ_discrete input.room_id
                (record room {
                  version = version;
                  players = insert str_dec input.player_id state' room.players;
                  pending_deltas =
                      trim s.config.max_pending_deltas_per_room
                        (room.pending_deltas ++ (delta ∷ []));
                })
                s.rooms;
        },
        record { ok = true; error = ""; state = some state'; delta = some delta },
      )

  -- The checks on a player's state; `now` and `later` are the two readings of the clock.
  unfoldable pub submit_found :
      StateSyncService F
      → RoomSyncState F
      → PlayerState F
      → StateInput F
      → ℕ
      → ℕ
      → StateSyncService F × StateSubmitResult F
  unfolding accept is_movement_allowed
  submit_found s room state input now later =
      if leb input.input_sequence state.last_input_sequence
      then (s, rejected F "input sequence is out of order")
      else if not (is_movement_allowed s.config state input.transform now)
      then (s, rejected F "movement rejected by server authority")
      else accept s room state input later

  unfoldable pub submit_state :
      StateSyncService F → StateInput F → ℕ → ℕ → StateSyncService F × StateSubmitResult F
  unfolding submit_found
  submit_state s input now later =
      if input.room_id == 0
      then (s, rejected F "room_id is zero")
      else if is_empty input.player_id
      then (s, rejected F "player_id is empty")
      else elim (lookup ℕ_discrete input.room_id s.rooms) [
        | none ↦ (s, rejected F "room not registered")
        | some room ↦ elim (lookup str_dec input.player_id room.players) [
          | none ↦ (s, rejected F "player not found in sync room")
          | some state ↦ submit_found s room state input now later
        ]
      ]
