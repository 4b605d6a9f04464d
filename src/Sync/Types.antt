-- ===== src/Sync/Types.antt =====
-- The structs of include/rcs/sync/state_sync_service.hpp. There are no floats in the model: the
-- type `float` and what the code computes with it is a parameter.
use red_culture_service.Common.{ℕ, String, Bool, false, List, Option, none}

-- `float` with the operations that the code uses; `of_count` is the conversion of a count of
-- milliseconds, and `le a b` is `a <= b`, `lt a b` is `a < b`.
pub record FloatOps : Type 1 where
  pub Float : Type 0
  pub zero : Float
  pub thousand : Float
  pub add : Float → Float → Float
  pub sub : Float → Float → Float
  pub mul : Float → Float → Float
  pub div : Float → Float → Float
  pub sqrt : Float → Float
  pub of_count : ℕ → Float
  pub le : Float → Float → Bool
  pub lt : Float → Float → Bool

pub record PlayerAction : Type 0 where
  pub name : String
  pub sequence : ℕ

module _ (F : FloatOps) where
  pub record Vector3 : Type 0 where
    pub x : F.Float
    pub y : F.Float
    pub z : F.Float

  pub record PlayerTransform : Type 0 where
    pub position : Vector3
    pub yaw : F.Float
    pub pitch : F.Float

  pub record PlayerState : Type 0 where
    pub player_id : String
    pub connection_id : ℕ
    pub transform : PlayerTransform
    pub action : PlayerAction
    pub last_input_sequence : ℕ
    pub online : Bool
    pub updated_at : ℕ

  pub record StateDelta : Type 0 where
    pub room_id : ℕ
    pub player_id : String
    pub transform : PlayerTransform
    pub action : PlayerAction
    pub input_sequence : ℕ
    pub snapshot_version : ℕ
    pub created_at : ℕ

  pub record StateSnapshot : Type 0 where
    pub room_id : ℕ
    pub version : ℕ
    pub players : List PlayerState
    pub created_at : ℕ

  pub record StateInput : Type 0 where
    pub room_id : ℕ
    pub player_id : String
    pub input_sequence : ℕ
    pub transform : PlayerTransform
    pub action : PlayerAction

  pub record StateSubmitResult : Type 0 where
    pub ok : Bool
    pub error : String
    pub state : Option PlayerState
    pub delta : Option StateDelta

  pub record SyncConfig : Type 0 where
    pub max_single_update_distance : F.Float
    pub max_move_speed_per_second : F.Float
    pub movement_tolerance : F.Float
    pub snapshot_interval : ℕ
    pub max_pending_deltas_per_room : ℕ

  pub record RoomSyncState : Type 0 where
    pub version : ℕ
    pub players : List (String × PlayerState)
    pub pending_deltas : List StateDelta
    pub last_snapshot_at : ℕ

  -- The private members of `StateSyncService`. Its mutex makes each operation atomic.
  pub record StateSyncService : Type 0 where
    pub config : SyncConfig
    pub rooms : List (ℕ × RoomSyncState)

  -- `reject`
  abbrev pub rejected : String → StateSubmitResult
  rejected error = record { ok = false; error = error; state = none; delta = none }
