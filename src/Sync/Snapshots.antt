-- ===== src/Sync/Snapshots.antt =====
-- The snapshots, deltas and counts of src/sync/state_sync_service.cpp.
use Prim.Native.Nat.{Ordering}
use Prim.Native.String.{compare}
use red_culture_service.Common.{
  ℕ, ◌+◌, ◌*◌, String, Bool, true, false, List, [], ◌∷◌, map, Option, none, some, ℕ_discrete,
  str_dec, leb, if◌then◌else◌, length, ns_per_ms,
}
use red_culture_service.Common.Map.{lookup, insert}
use red_culture_service.Sync.Types.{
  FloatOps, PlayerState, StateDelta, StateSnapshot, SyncConfig, RoomSyncState, StateSyncService,
}
use red_culture_service.Sync.Service.{Rooms}

-- `operator<` on texts
abbrev pub str_less : String → String → Bool
str_less s t = elim (compare s t) [ Ordering.lt ↦ true | _ ↦ false ]

module _ (F : FloatOps) where
  unfoldable pub find_player_state : StateSyncService F → ℕ → String → Option (PlayerState F)
  find_player_state s room_id player_id = elim (lookup ℕ_discrete room_id s.rooms) [
    | none ↦ none
    | some room ↦ lookup str_dec player_id room.players
  ]

  -- `std::sort` by the player's id: the ids of a room's players are distinct.
  unfoldable pub insert_sorted : PlayerState F → List (PlayerState F) → List (PlayerState F)
  insert_sorted x [] = x ∷ []
  insert_sorted x (y ∷ ys) =
      if str_less y.player_id x.player_id then y ∷ insert_sorted x ys else x ∷ y ∷ ys

  unfoldable pub sort_players : List (PlayerState F) → List (PlayerState F)
  unfolding insert_sorted
  sort_players [] = []
  sort_players (x ∷ xs) = insert_sorted x (sort_players xs)

  unfoldable pub build_snapshot_locked : ℕ → RoomSyncState F → ℕ → StateSnapshot F
  unfolding sort_players
  build_snapshot_locked room_id room now = record {
    room_id = room_id;
    version = room.version;
    players = sort_players (map (λ e. e.1) room.players);
    created_at = now;
  }

  unfoldable pub build_snapshot : StateSyncService F → ℕ → ℕ → Option (StateSnapshot F)
  build_snapshot s room_id now = elim (lookup ℕ_discrete room_id s.rooms) [
    | none ↦ none
    | some room ↦ some (build_snapshot_locked room_id room now)
  ]

  abbrev pub is_due : SyncConfig F → ℕ → RoomSyncState F → Bool
  is_due config now room = leb (room.last_snapshot_at + config.snapshot_interval * ns_per_ms) now

  -- The loop of `buildDueSnapshots` over the rooms.
  unfoldable pub due_rooms : SyncConfig F → ℕ → Rooms F → Rooms F × List (StateSnapshot F)
  due_rooms config now [] = ([], [])
  due_rooms config now ((room_id, room) ∷ rooms) =
      let room' = record room { last_snapshot_at = now } in
      let (rooms', snapshots) = due_rooms config now rooms in
      if is_due config now room
      then ((room_id, room') ∷ rooms', build_snapshot_locked room_id room' now ∷ snapshots)
      else ((room_id, room) ∷ rooms', snapshots)

  unfoldable pub build_due_snapshots :
      StateSyncService F → ℕ → StateSyncService F × List (StateSnapshot F)
  unfolding due_rooms
  build_due_snapshots s now =
      let (rooms, snapshots) = due_rooms s.config now s.rooms in
      (record s { rooms = rooms }, snapshots)

  unfoldable pub drain_deltas : StateSyncService F → ℕ → StateSyncService F × List (StateDelta F)
  drain_deltas s room_id = elim (lookup ℕ_discrete room_id s.rooms) [
    | none ↦ (s, [])
    | some room ↦ (
      record s { rooms = insert ℕ_discrete room_id (record room { pending_deltas = [] }) s.rooms },
      room.pending_deltas,
    )
  ]

  unfoldable pub room_count : StateSyncService F → ℕ
  room_count s = length s.rooms

  unfoldable pub player_count : StateSyncService F → ℕ → ℕ
  player_count s room_id = elim (lookup ℕ_discrete room_id s.rooms) [
    | none ↦ 0
    | some room ↦ length room.players
  ]
