-- ===== src/Sync/Pending.antt =====
-- The bound on the deltas that wait in a room, for each operation of
-- src/sync/state_sync_service.cpp.
use red_culture_service.Common.{
  ℕ, ◌-◌, ◌≤◌, ◌≡◌, refl, sym, ◌∙◌, ap, subst, inl, inr, String, List, [], ◌∷◌, some, ℕ_discrete,
  str_dec, is_some, is_empty, ltb, ◌==◌, if◌then◌else◌, arith, length, Bool-cases, Option-cases,
  ite, length-drop,
}
use red_culture_service.Common.Map.{lookup, insert, erase, lookup-insert, lookup-erase}
use red_culture_service.Sync.Types.{
  FloatOps, PlayerTransform, StateDelta, StateInput, SyncConfig, RoomSyncState, StateSyncService,
}
use red_culture_service.Sync.Service.{
  Rooms, empty_room, room_or_empty, register_room, add_player, add_to_room, remove_player,
  mark_player_offline,
}
use red_culture_service.Sync.Authority.{trim, accept, submit_state}
use red_culture_service.Sync.Snapshots.{is_due, due_rooms, drain_deltas}
use red_culture_service.Sync.Submit.{submit_cases}

module _ (F : FloatOps) where
  unfoldable pub RoomsFit : ℕ → Rooms F → Type 0
  RoomsFit max rooms =
      (i : ℕ) (room : RoomSyncState F)
      → lookup ℕ_discrete i rooms ≡ some room
      → length room.pending_deltas ≤ max

  -- No room has more deltas waiting than the limit.
  unfoldable pub IsBounded : StateSyncService F → Type 0
  IsBounded s = RoomsFit s.config.max_pending_deltas_per_room s.rooms

  insert-RoomsFit :
      (max k : ℕ) (room : RoomSyncState F) (rooms : Rooms F)
      → RoomsFit max rooms
      → length room.pending_deltas ≤ max
      → RoomsFit max (insert ℕ_discrete k room rooms)
  unfolding RoomsFit
  insert-RoomsFit max k room rooms v h i found e = elim (ℕ_discrete k i) [
    | yes q ↦
        let same_room : room ≡ found = ground (arith, lookup-insert ℕ_discrete i k room rooms) in
        subst (λ r. length r.pending_deltas ≤ max) same_room h
    | no ne ↦ v i found (ground (arith, lookup-insert ℕ_discrete i k room rooms))
  ]

  pub erase-RoomsFit :
      (max k : ℕ) (rooms : Rooms F) → RoomsFit max rooms → RoomsFit max (erase ℕ_discrete k rooms)
  unfolding RoomsFit
  erase-RoomsFit max k rooms v i found e =
      v i found (ground (arith, lookup-erase ℕ_discrete i k rooms))

  length-trim : (max : ℕ) (deltas : List (StateDelta F)) → length (trim F max deltas) ≤ max
  unfolding trim
  length-trim max deltas = elim (Bool-cases (ltb max (length deltas))) [
    | inl over ↦ rw over (ground (arith, length-drop (length deltas - max) deltas))
    | inr fits ↦ rw fits (ground arith)
  ]

  abbrev visited : SyncConfig F → ℕ → RoomSyncState F → RoomSyncState F
  visited config now room =
      if is_due F config now room then record room { last_snapshot_at = now } else room

  visited_deltas :
      (config : SyncConfig F) (now : ℕ) (room : RoomSyncState F)
      → (visited config now room).pending_deltas ≡ room.pending_deltas
  visited_deltas config now room = elim (Bool-cases (is_due F config now room)) [
    | inl due ↦ rw due
    | inr later ↦ rw later
  ]

  due_rooms_cons :
      (config : SyncConfig F) (now i k : ℕ) (room : RoomSyncState F) (rooms : Rooms F)
      → ite
          (ℕ_discrete k i)
          (some (visited config now room))
          (lookup ℕ_discrete i (due_rooms F config now rooms).0)
        ≡ lookup ℕ_discrete i (due_rooms F config now ((k, room) ∷ rooms)).0
  unfolding due_rooms lookup
  due_rooms_cons config now i k room rooms = elim (Bool-cases (is_due F config now room)) [
    | inl due ↦ rw due
    | inr later ↦ rw later
  ]

  -- A room after the loop has the deltas of the room that was there.
  lookup-due_rooms :
      (config : SyncConfig F) (now i : ℕ) (rooms : Rooms F) (found : RoomSyncState F)
      → lookup ℕ_discrete i (due_rooms F config now rooms).0 ≡ some found
      → (room : RoomSyncState F) × (lookup ℕ_discrete i rooms ≡ some room)
        × (room.pending_deltas ≡ found.pending_deltas)
  unfolding due_rooms lookup
  lookup-due_rooms config now i [] found e = (found, e, refl)
  lookup-due_rooms config now i ((k, room) ∷ rooms) found e =
      let rest = lookup-due_rooms config now i rooms found in
      let rule = due_rooms_cons config now i k room rooms ∙ e in
      elim (ℕ_discrete k i) [
        | yes q ↦
            let same_room : visited config now room ≡ found = ground arith in
            (
              room,
              ground arith,
              sym (visited_deltas config now room) ∙ ap (λ r. r.pending_deltas) same_room,
            )
        | no ne ↦ let (old, stored, kept) = rest (ground arith) in (old, ground arith, kept)
      ]

  pub due_rooms-RoomsFit :
      (config : SyncConfig F) (max now : ℕ) (rooms : Rooms F)
      → RoomsFit max rooms
      → RoomsFit max (due_rooms F config now rooms).0
  unfolding RoomsFit
  due_rooms-RoomsFit config max now rooms v i found e =
      let (room, stored, kept) = lookup-due_rooms config now i rooms found e in
      subst (λ ds. length ds ≤ max) kept (v i room stored)

  pub register_room-IsBounded :
      (s : StateSyncService F) (i : ℕ) → IsBounded s → IsBounded (register_room F s i).0
  unfolding register_room IsBounded
  register_room-IsBounded s i v =
      let new =
        insert-RoomsFit s.config.max_pending_deltas_per_room i (empty_room F) s.rooms v
          (omega arith) in
      elim (Bool-cases (i == 0)) [
        | inl z ↦ rw z v
        | inr z ↦ elim (Bool-cases (is_some (lookup ℕ_discrete i s.rooms))) [
          | inl old ↦ rw (z, old) v
          | inr fresh ↦ rw (z, fresh) new
        ]
      ]

  pub add_player-IsBounded :
      (s : StateSyncService F) (i : ℕ) (p : String) (c : ℕ) (t : PlayerTransform F) (now : ℕ)
      → IsBounded s
      → IsBounded (add_player F s i p c t now).0
  unfolding add_player IsBounded RoomsFit add_to_room
  add_player-IsBounded s i p c t now v = elim (Bool-cases (i == 0)) [
    | inl z ↦ rw z v
    | inr z ↦ elim (Bool-cases (is_empty p)) [
      | inl n ↦ rw (z, n) v
      | inr n ↦ elim (Option-cases (lookup ℕ_discrete i s.rooms)) [
        | inl e ↦
            rw (z, n)
              (insert-RoomsFit s.config.max_pending_deltas_per_room i _ s.rooms v
                (rw (e, room_or_empty) (omega arith)))
        | inr (room, e) ↦
            rw (z, n)
              (insert-RoomsFit s.config.max_pending_deltas_per_room i _ s.rooms v
                (rw (e, room_or_empty) (v i room e)))
      ]
    ]
  ]

  pub submit_state-IsBounded :
      (s : StateSyncService F) (input : StateInput F) (now later : ℕ)
      → IsBounded s
      → IsBounded (submit_state F s input now later).0
  unfolding accept IsBounded
  submit_state-IsBounded s input now later v = elim (submit_cases F s input now later) [
    | inl (e, g) ↦ rw g v
    | inr (fit, g) ↦ rw g (
        insert-RoomsFit s.config.max_pending_deltas_per_room input.room_id _ s.rooms v
          (length-trim s.config.max_pending_deltas_per_room _))
  ]

  pub remove_player-IsBounded :
      (s : StateSyncService F) (i : ℕ) (p : String)
      → IsBounded s
      → IsBounded (remove_player F s i p).0
  unfolding remove_player IsBounded RoomsFit
  remove_player-IsBounded s i p v = elim (Option-cases (lookup ℕ_discrete i s.rooms)) [
    | inl e ↦ rw (e, remove_player) v
    | inr (room, e) ↦ elim (Bool-cases (is_some (lookup str_dec p room.players))) [
      | inl there ↦
          rw (e, remove_player, there)
            (insert-RoomsFit s.config.max_pending_deltas_per_room i _ s.rooms v (v i room e))
      | inr gone ↦ rw (e, remove_player, gone) v
    ]
  ]

  pub mark_player_offline-IsBounded :
      (s : StateSyncService F) (i : ℕ) (p : String) (now : ℕ)
      → IsBounded s
      → IsBounded (mark_player_offline F s i p now).0
  unfolding mark_player_offline IsBounded RoomsFit
  mark_player_offline-IsBounded s i p now v = elim (Option-cases (lookup ℕ_discrete i s.rooms)) [
    | inl e ↦ rw (e, mark_player_offline) v
    | inr (room, e) ↦ elim (Option-cases (lookup str_dec p room.players)) [
      | inl f ↦ rw (e, mark_player_offline, f) v
      | inr (state, f) ↦
          rw (e, mark_player_offline, f)
            (insert-RoomsFit s.config.max_pending_deltas_per_room i _ s.rooms v (v i room e))
    ]
  ]

  pub drain_deltas-IsBounded :
      (s : StateSyncService F) (i : ℕ) → IsBounded s → IsBounded (drain_deltas F s i).0
  unfolding drain_deltas IsBounded
  drain_deltas-IsBounded s i v = elim (Option-cases (lookup ℕ_discrete i s.rooms)) [
    | inl e ↦ rw (e, drain_deltas) v
    | inr (room, e) ↦
        rw (e, drain_deltas)
          (insert-RoomsFit s.config.max_pending_deltas_per_room i _ s.rooms v (omega arith))
  ]
