-- ===== src/Sync/Submit.antt =====
-- What `submitState` accepts, and what it changes.
use red_culture_service.Common.{
  ℕ, ◌+◌, ◌%◌, ◌≤◌, ◌<◌, ◌≡◌, ◌≢◌, refl, inl, inr, ◌⊎◌, String, true, false, [], ◌∷◌, ◌++◌, Option,
  none, some, ℕ_discrete, str_dec, is_empty, leb, ◌==◌, arith, Bool-cases, Option-cases, inc_u64,
  u64_mod, ap,
}
use red_culture_service.Common.Map.{lookup, insert, lookup-insert_same, lookup-insert_ne}
use red_culture_service.Sync.Types.{
  FloatOps, PlayerState, StateDelta, StateInput, StateSubmitResult, RoomSyncState, StateSyncService,
  rejected,
}
use red_culture_service.Sync.Authority.{
  accepted_state, delta_of, trim, accept, is_movement_allowed, submit_found, submit_state,
}
use red_culture_service.Sync.Trimmed.{IsQueued, trim-IsQueued}
use red_culture_service.Sync.Snapshots.{find_player_state}

module _ (F : FloatOps) where
  -- The input fits the stored state of the player: newer than the last one, and a movement that the
  -- server allows.
  pub record IsFit (s : StateSyncService F) (input : StateInput F) (now : ℕ) : Type 0 where
    pub room : RoomSyncState F
    pub state : PlayerState F
    pub room_found : lookup ℕ_discrete input.room_id s.rooms ≡ some room
    pub player_found : lookup str_dec input.player_id room.players ≡ some state
    pub named : (input.room_id ≢ 0) × (is_empty input.player_id ≡ false)
    pub newer : state.last_input_sequence < input.input_sequence
    pub allowed : is_movement_allowed F s.config state input.transform now ≡ true

  found_cases :
      (s : StateSyncService F) (room : RoomSyncState F) (state : PlayerState F)
      (input : StateInput F) (now later : ℕ)
      → ((e : String) × (submit_found F s room state input now later ≡ (s, rejected F e)))
        ⊎ ((state.last_input_sequence < input.input_sequence)
            × (is_movement_allowed F s.config state input.transform now ≡ true)
            × (submit_found F s room state input now later ≡ accept F s room state input later))
  unfolding submit_found
  found_cases s room state input now later =
      elim (Bool-cases (leb input.input_sequence state.last_input_sequence)) [
        | inl old ↦ inl ("input sequence is out of order", rw old)
        | inr new ↦ elim (Bool-cases (is_movement_allowed F s.config state input.transform now)) [
          | inr stopped ↦ inl ("movement rejected by server authority", rw (new, stopped))
          | inl allowed ↦ inr (ground arith, allowed, rw (new, allowed))
        ]
      ]

  pub submit_cases :
      (s : StateSyncService F) (input : StateInput F) (now later : ℕ)
      → ((e : String) × (submit_state F s input now later ≡ (s, rejected F e)))
        ⊎ ((fit : IsFit s input now) × (submit_state F s input now later
              ≡ accept F s fit.room fit.state input later))
  unfolding submit_state
  submit_cases s input now later = elim (Bool-cases (input.room_id == 0)) [
    | inl z ↦ inl ("room_id is zero", rw z)
    | inr z ↦ elim (Bool-cases (is_empty input.player_id)) [
      | inl n ↦ inl ("player_id is empty", rw (z, n))
      | inr n ↦ elim (Option-cases (lookup ℕ_discrete input.room_id s.rooms)) [
        | inl e ↦ inl ("room not registered", rw (z, n, e, submit_state))
        | inr (room, e) ↦ elim (Option-cases (lookup str_dec input.player_id room.players)) [
          | inl f ↦ inl ("player not found in sync room", rw (z, n, e, submit_state, f))
          | inr (state, f) ↦ elim (found_cases s room state input now later) [
            | inl (why, g) ↦ inl (why, rw (z, n, e, submit_state, f) g)
            | inr (newer, allowed, g) ↦ inr (
              record {
                room = room;
                state = state;
                room_found = e;
                player_found = f;
                named = (ground arith, n);
                newer = newer;
                allowed = allowed;
              },
              rw (z, n, e, submit_state, f) g,
            )
          ]
        ]
      ]
    ]
  ]

  -- An input that is not accepted changes nothing, and no state and no delta is reported.
  pub submit_state-rejected :
      (s : StateSyncService F) (input : StateInput F) (now later : ℕ)
      → (submit_state F s input now later).1.ok ≡ false
      → ((submit_state F s input now later).0 ≡ s)
        × ((submit_state F s input now later).1.state ≡ none)
        × ((submit_state F s input now later).1.delta ≡ none)
  unfolding accept
  submit_state-rejected s input now later h = elim (submit_cases s input now later) [
    | inl (e, g) ↦ rw g (refl, refl, refl)
    | inr (fit, g) ↦ absurd (cc)
  ]

  -- What an accepted input does, field by field.
  pub record IsAccepted (s : StateSyncService F) (input : StateInput F) (now later : ℕ)
      : Type 0 where
    pub fit : IsFit s input now
    pub state : PlayerState F
    pub delta : StateDelta F
    pub room : RoomSyncState F
    pub state_is : state ≡ record {
      player_id = fit.state.player_id;
      connection_id = fit.state.connection_id;
      transform = input.transform;
      action = input.action;
      last_input_sequence = input.input_sequence;
      online = true;
      updated_at = later;
    }
    pub delta_is : delta ≡ record {
      room_id = input.room_id;
      player_id = input.player_id;
      transform = input.transform;
      action = input.action;
      input_sequence = input.input_sequence;
      snapshot_version = (fit.room.version + 1) % u64_mod;
      created_at = later;
    }
    pub reported :
        (submit_state F s input now later).1
        ≡ record { ok = true; error = ""; state = some state; delta = some delta }
    pub stored :
        find_player_state F (submit_state F s input now later).0 input.room_id input.player_id
        ≡ some state
    pub room_stored :
        lookup ℕ_discrete input.room_id (submit_state F s input now later).0.rooms ≡ some room
    pub version : room.version ≡ (fit.room.version + 1) % u64_mod
    pub waiting :
        IsQueued F s.config.max_pending_deltas_per_room fit.room.pending_deltas delta
          room.pending_deltas
    pub others :
        (p : String)
        → p ≢ input.player_id
        → find_player_state F (submit_state F s input now later).0 input.room_id p
          ≡ find_player_state F s input.room_id p
    pub other_rooms :
        (i : ℕ)
        → i ≢ input.room_id
        → lookup ℕ_discrete i (submit_state F s input now later).0.rooms
          ≡ lookup ℕ_discrete i s.rooms

  -- An input that is accepted fitted the stored state: its sequence is newer and the movement is
  -- allowed. The player's stored state has the transform, the action and the sequence of the input,
  -- is online and dated by the second reading of the clock, and is reported with a delta of the same
  -- content and of the room's version, which has moved on by one. The delta is the last one that
  -- waits in the room; as many of the oldest as lie above the limit are dropped, so that with a
  -- limit of 0 none waits. No other player of the room and no other room changes.
  pub submit_state-IsAccepted :
      (s : StateSyncService F) (input : StateInput F) (now later : ℕ)
      → (submit_state F s input now later).1.ok ≡ true
      → IsAccepted s input now later
  unfolding accept find_player_state inc_u64
  submit_state-IsAccepted s input now later h = elim (submit_cases s input now later) [
    | inl (e, g) ↦
        let same_ok = ap (λ (r : StateSyncService F × StateSubmitResult F). r.1.ok) g in
        absurd (ground arith)
    | inr (fit, g) ↦
        let room_e = fit.room_found in
        let player_e = fit.player_found in
        let limit = s.config.max_pending_deltas_per_room in
        let state = accepted_state F fit.state input later in
        let version = inc_u64 fit.room.version in
        let delta = delta_of F input version later in
        record {
          fit = fit;
          state = state;
          delta = delta;
          room = record (fit.room) {
            version = version;
            players = insert str_dec input.player_id state fit.room.players;
            pending_deltas = trim F limit (fit.room.pending_deltas ++ (delta ∷ []));
          };
          state_is = refl;
          delta_is = refl;
          reported = rw g refl;
          stored =
              rw g
                (rw (find_player_state, lookup-insert_same ℕ_discrete, lookup-insert_same str_dec));
          room_stored = rw g (lookup-insert_same ℕ_discrete input.room_id _ s.rooms);
          version = refl;
          waiting = trim-IsQueued F limit fit.room.pending_deltas delta;
          others = λ p ne. rw g (
              rw (
                find_player_state,
                lookup-insert_same ℕ_discrete,
                room_e,
                lookup-insert_ne str_dec p input.player_id _ fit.room.players ne,
              ));
          other_rooms = λ i ne. rw g (lookup-insert_ne ℕ_discrete i input.room_id _ s.rooms ne);
        }
  ]

  fit_state :
      (s : StateSyncService F) (input : StateInput F) (now : ℕ) (fit : IsFit s input now)
      → find_player_state F s input.room_id input.player_id ≡ some fit.state
  unfolding find_player_state
  fit_state s input now fit =
      let room_e = fit.room_found in
      let player_e = fit.player_found in rw (room_e, find_player_state) player_e

  abbrev sequence_of : Option (PlayerState F) → ℕ
  sequence_of none = 0
  sequence_of (some state) = state.last_input_sequence

  -- Once an input has been accepted, any input of the same player in the same room whose sequence
  -- number is not above it, coming next, is rejected and changes nothing.
  pub submit_state_replayed :
      (s : StateSyncService F) (input again : StateInput F) (now later now' later' : ℕ)
      → (submit_state F s input now later).1.ok ≡ true
      → again.room_id ≡ input.room_id
      → again.player_id ≡ input.player_id
      → again.input_sequence ≤ input.input_sequence
      → let s' = (submit_state F s input now later).0 in
        ((submit_state F s' again now' later').0 ≡ s')
        × ((submit_state F s' again now' later').1.ok ≡ false)
  submit_state_replayed s input again now later now' later' ok same_room same_player old =
      let s' = (submit_state F s input now later).0 in
      let accepted = submit_state-IsAccepted s input now later ok in
      elim (submit_cases s' again now' later') [
        | inl (e, g) ↦ rw g (refl, refl)
        | inr (fit, g) ↦
            let found = fit_state s' again now' fit in
            let stored = accepted.stored in
            let same_state : some accepted.state ≡ some fit.state = cc in
            let sequence = ap (λ s. s.last_input_sequence) accepted.state_is in
            let last = ap sequence_of same_state in let newer = fit.newer in absurd (omega arith)
      ]
