-- ===== src/Sync/Steps.antt =====
-- Histories of `StateSyncService`: calls of its operations at readings of the steady clock.
use red_culture_service.Common.{ℕ, String, List, [], ◌∷◌}
use red_culture_service.Sync.Types.{FloatOps, PlayerTransform, StateInput, StateSyncService}
use red_culture_service.Sync.Service.{
  register_room, unregister_room, add_player, remove_player, mark_player_offline,
}
use red_culture_service.Sync.Authority.{submit_state}
use red_culture_service.Sync.Snapshots.{build_due_snapshots, drain_deltas}
use red_culture_service.Sync.Pending.{
  IsBounded, erase-RoomsFit, due_rooms-RoomsFit, register_room-IsBounded, add_player-IsBounded,
  submit_state-IsBounded, remove_player-IsBounded, mark_player_offline-IsBounded,
  drain_deltas-IsBounded,
}

module _ (F : FloatOps) where
  pub data Call : Type 0 where
    registers : ℕ → Call
    unregisters : ℕ → Call
    adds : ℕ → String → ℕ → PlayerTransform F → Call
    removes : ℕ → String → Call
    marks_offline : ℕ → String → Call
    submits : StateInput F → ℕ → Call
    builds_due : Call
    drains : ℕ → Call

  unfoldable pub step : StateSyncService F → ℕ → Call → StateSyncService F
  step s now (registers i) = (register_room F s i).0
  step s now (unregisters i) = (unregister_room F s i).0
  step s now (adds i p c t) = (add_player F s i p c t now).0
  step s now (removes i p) = (remove_player F s i p).0
  step s now (marks_offline i p) = (mark_player_offline F s i p now).0
  step s now (submits input later) = (submit_state F s input now later).0
  step s now builds_due = (build_due_snapshots F s now).0
  step s now (drains i) = (drain_deltas F s i).0

  unfoldable pub run : StateSyncService F → List (ℕ × Call) → StateSyncService F
  unfolding step
  run s [] = s
  run s ((now, c) ∷ cs) = run (step s now c) cs

  step-IsBounded :
      (s : StateSyncService F) (now : ℕ) (c : Call) → IsBounded F s → IsBounded F (step s now c)
  unfolding step IsBounded unregister_room build_due_snapshots
  step-IsBounded s now (registers i) v = register_room-IsBounded F s i v
  step-IsBounded s now (unregisters i) v =
      erase-RoomsFit F s.config.max_pending_deltas_per_room i s.rooms v
  step-IsBounded s now (adds i p c t) v = add_player-IsBounded F s i p c t now v
  step-IsBounded s now (removes i p) v = remove_player-IsBounded F s i p v
  step-IsBounded s now (marks_offline i p) v = mark_player_offline-IsBounded F s i p now v
  step-IsBounded s now (submits input later) v = submit_state-IsBounded F s input now later v
  step-IsBounded s now builds_due v =
      due_rooms-RoomsFit F s.config s.config.max_pending_deltas_per_room now s.rooms v
  step-IsBounded s now (drains i) v = drain_deltas-IsBounded F s i v

  -- If no room has more deltas waiting than the limit of the configuration, then none has after any
  -- history of calls.
  pub run-IsBounded :
      (s : StateSyncService F) (cs : List (ℕ × Call)) → IsBounded F s → IsBounded F (run s cs)
  unfolding run
  run-IsBounded s [] v = v
  run-IsBounded s ((now, c) ∷ cs) v = run-IsBounded (step s now c) cs (step-IsBounded s now c v)
