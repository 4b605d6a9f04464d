-- ===== src/Gameplay/Storage.antt =====
-- The records of include/rcs/storage/storage_service.hpp that the gameplay writes, and the interface of
-- `StorageService` that it uses. Scores are in tenths.
use red_culture_service.Common.{ℕ, String, Bool, Option}
use red_culture_service.Common.Json.{JsonOps}

pub record StorageResult : Type 0 where
  pub ok : Bool
  pub error : String

pub record InsertResult : Type 0 where
  pub ok : Bool
  pub error : String
  pub id : ℕ

module _ (W : JsonOps) where
  pub record UserProfile : Type 0 where
    pub player_id : String
    pub account : String
    pub password_hash : String
    pub display_name : String
    pub avatar_url : String
    pub role : String
    pub status : String
    pub metadata : W.Json

  pub record AnswerRecord : Type 0 where
    pub id : ℕ
    pub interaction_id : ℕ
    pub player_id : String
    pub question_id : String
    pub question : String
    pub answer : String
    pub correct : Bool
    pub score : ℕ
    pub metadata : W.Json
    pub created_at : String

  pub record ProgressRecord : Type 0 where
    pub player_id : String
    pub scene_id : String
    pub progress : W.Json
    pub updated_at : String

  pub record EventLog : Type 0 where
    pub id : ℕ
    pub level : String
    pub category : String
    pub message : String
    pub metadata : W.Json
    pub created_at : String

  pub record CulturalInteractionRecord : Type 0 where
    pub id : ℕ
    pub service_interaction_id : ℕ
    pub player_id : String
    pub room_id : ℕ
    pub scene_id : String
    pub trigger_id : String
    pub interaction_type : String
    pub ai_flow_id : ℕ
    pub topic : String
    pub question : String
    pub answer : String
    pub explanation : String
    pub navigation_text : String
    pub audio_id : String
    pub status : String
    pub score : ℕ
    pub metadata : W.Json

  pub record TtsAudioResourceRecord : Type 0 where
    pub audio_id : String
    pub player_id : String
    pub interaction_id : ℕ
    pub mime_type : String
    pub format : String
    pub byte_size : ℕ
    pub duration_ms : ℕ
    pub storage_type : String
    pub storage_uri : String
    pub metadata : W.Json

  -- The operations of `StorageService` that the gameplay calls, on the state of the storage. `none` of
  -- `find_user` is an exception: it has no `try` block, while the writes answer with an error.
  pub record StorageOps : Type 1 where
    pub State : Type 0
    pub is_connected : State → Bool
    pub find_user : State → String → Option (Option UserProfile)
    pub upsert_user : State → UserProfile → State × StorageResult
    pub start_cultural_interaction : State → CulturalInteractionRecord → State × InsertResult
    pub complete_cultural_interaction : State → CulturalInteractionRecord → State × StorageResult
    pub save_tts_audio_resource : State → TtsAudioResourceRecord → State × StorageResult
    pub append_answer_record : State → AnswerRecord → State × InsertResult
    pub save_progress : State → ProgressRecord → State × StorageResult
    pub append_event_log : State → EventLog → State × InsertResult
