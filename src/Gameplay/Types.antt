-- ===== src/Gameplay/Types.antt =====
-- The structs of include/rcs/gameplay/cultural_interaction_service.hpp, and the state of
-- `CulturalInteractionService`.
use red_culture_service.Common.{ℕ, String, Bool, false, List}

pub record CulturalInteractionConfig : Type 0 where
  pub require_room_membership : Bool
  pub ai_tick_batch_size : ℕ
  pub tts_tick_batch_size : ℕ
  pub enable_tts : Bool
  pub allow_without_storage : Bool

pub record StartInteractionRequest : Type 0 where
  pub player_id : String
  pub room_id : ℕ
  pub scene_id : String
  pub trigger_id : String
  pub topic : String
  pub question_prompt_template : String
  pub metadata : List (String × String)

pub record StartInteractionResult : Type 0 where
  pub ok : Bool
  pub error : String
  pub interaction_id : ℕ
  pub flow_id : ℕ
  pub question_task_id : ℕ
  pub player_id : String
  pub room_id : ℕ
  pub scene_id : String
  pub trigger_id : String
  pub topic : String
  pub question : String
  pub storage_saved : Bool

pub record SubmitAnswerRequest : Type 0 where
  pub player_id : String
  pub interaction_id : ℕ
  pub flow_id : ℕ
  pub answer : String

pub record SubmitAnswerResult : Type 0 where
  pub ok : Bool
  pub error : String
  pub interaction_id : ℕ
  pub flow_id : ℕ
  pub explanation_task_id : ℕ
  pub tts_task_id : ℕ
  pub player_id : String
  pub scene_id : String
  pub trigger_id : String
  pub topic : String
  pub question : String
  pub answer : String
  pub explanation : String
  pub audio_id : String
  pub audio_mime_type : String
  pub tts_cache_hit : Bool
  pub storage_saved : Bool

pub record InteractionSnapshot : Type 0 where
  pub interaction_id : ℕ
  pub flow_id : ℕ
  pub player_id : String
  pub room_id : ℕ
  pub scene_id : String
  pub trigger_id : String
  pub topic : String
  pub question : String
  pub answer : String
  pub explanation : String
  pub audio_id : String
  pub audio_mime_type : String
  pub completed : Bool

pub record InteractionState : Type 0 where
  pub snapshot : InteractionSnapshot
  pub storage_interaction_id : ℕ
  pub audio_byte_size : ℕ
  pub audio_duration_ms : ℕ
  pub audio_format : String
  pub question_task_id : ℕ
  pub explanation_task_id : ℕ
  pub tts_task_id : ℕ

-- The private members of `CulturalInteractionService` but for the pointers to the other services.
pub record CulturalInteractionService : Type 0 where
  pub config : CulturalInteractionConfig
  pub next_interaction_id : ℕ
  pub interactions : List (ℕ × InteractionState)
  pub flow_to_interaction : List (ℕ × ℕ)

-- The results that an early `return` builds: the other members keep their defaults.
abbrev pub refused_start : String → StartInteractionResult
refused_start error = record {
  ok = false;
  error = error;
  interaction_id = 0;
  flow_id = 0;
  question_task_id = 0;
  player_id = "";
  room_id = 0;
  scene_id = "";
  trigger_id = "";
  topic = "";
  question = "";
  storage_saved = false;
}

abbrev pub refused_answer : String → SubmitAnswerResult
refused_answer error = record {
  ok = false;
  error = error;
  interaction_id = 0;
  flow_id = 0;
  explanation_task_id = 0;
  tts_task_id = 0;
  player_id = "";
  scene_id = "";
  trigger_id = "";
  topic = "";
  question = "";
  answer = "";
  explanation = "";
  audio_id = "";
  audio_mime_type = "";
  tts_cache_hit = false;
  storage_saved = false;
}
