-- ===== src/Gameplay/Records.antt =====
-- The records that an interaction of src/gameplay/cultural_interaction_service.cpp writes to the
-- storage.
use Prim.Native.String.{◌++◌ as str_append}
use red_culture_service.Common.{ℕ, Bool, true, ◌&&◌, [], ◌∷◌, is_empty, leb, if◌then◌else◌}
use red_culture_service.Common.Json.{JsonOps}
use red_culture_service.Common.Text.{to_string}
use red_culture_service.Gameplay.Types.{InteractionState}
use red_culture_service.Gameplay.Storage.{
  StorageResult, InsertResult, UserProfile, AnswerRecord, ProgressRecord, EventLog,
  CulturalInteractionRecord, TtsAudioResourceRecord,
}

-- The four results of the writes of an answer.
pub record AnswerWrites : Type 0 where
  pub answer_inserted : InsertResult
  pub interaction_updated : StorageResult
  pub tts_saved : StorageResult
  pub progress_saved : StorageResult

abbrev pub all_saved : AnswerWrites → Bool
all_saved r =
    r.answer_inserted.ok && r.progress_saved.ok && r.interaction_updated.ok && r.tts_saved.ok

module _ (W : JsonOps) where
  abbrev pub profile_of : InteractionState → UserProfile W
  profile_of state = record {
    player_id = state.snapshot.player_id;
    account = state.snapshot.player_id;
    password_hash = "";
    display_name = state.snapshot.player_id;
    avatar_url = "";
    role = "player";
    status = "active";
    metadata = W.object (("source", W.string "gameplay") ∷ []);
  }

  unfoldable pub started_record : InteractionState → CulturalInteractionRecord W
  started_record state = record {
    id = 0;
    service_interaction_id = state.snapshot.interaction_id;
    player_id = state.snapshot.player_id;
    room_id = state.snapshot.room_id;
    scene_id = state.snapshot.scene_id;
    trigger_id = state.snapshot.trigger_id;
    interaction_type = "qa";
    ai_flow_id = state.snapshot.flow_id;
    topic = state.snapshot.topic;
    question = state.snapshot.question;
    answer = "";
    explanation = "";
    navigation_text = "";
    audio_id = "";
    status = "started";
    score = 0;
    metadata = W.object (
        ("question_task_id", W.number state.question_task_id)
        ∷ ("source", W.string "gameplay.startInteraction")
        ∷ []);
  }

  unfoldable pub started_event : InteractionState → InsertResult → EventLog W
  started_event state inserted = record {
    id = 0;
    level = if inserted.ok then "info" else "warn";
    category = "gameplay.interaction";
    message = "cultural interaction started";
    metadata = W.object (
        ("interaction_id", W.number state.snapshot.interaction_id)
        ∷ ("storage_interaction_id", W.number inserted.id)
        ∷ ("flow_id", W.number state.snapshot.flow_id)
        ∷ ("player_id", W.string state.snapshot.player_id)
        ∷ ("room_id", W.number state.snapshot.room_id)
        ∷ ("scene_id", W.string state.snapshot.scene_id)
        ∷ ("trigger_id", W.string state.snapshot.trigger_id)
        ∷ ("topic", W.string state.snapshot.topic)
        ∷ ("interaction_saved", W.boolean inserted.ok)
        ∷ ("storage_error", W.string inserted.error)
        ∷ []);
    created_at = "";
  }

  unfoldable pub answer_record : InteractionState → ℕ → AnswerRecord W
  unfolding to_string
  answer_record state score = record {
    id = 0;
    interaction_id = state.storage_interaction_id;
    player_id = state.snapshot.player_id;
    question_id =
        if is_empty state.snapshot.trigger_id
        then to_string state.snapshot.flow_id
        else state.snapshot.trigger_id;
    question = state.snapshot.question;
    answer = state.snapshot.answer;
    correct = leb 6 score;
    score = score;
    metadata = W.object (
        ("interaction_id", W.number state.snapshot.interaction_id)
        ∷ ("flow_id", W.number state.snapshot.flow_id)
        ∷ ("room_id", W.number state.snapshot.room_id)
        ∷ ("scene_id", W.string state.snapshot.scene_id)
        ∷ ("topic", W.string state.snapshot.topic)
        ∷ ("explanation", W.string state.snapshot.explanation)
        ∷ ("audio_id", W.string state.snapshot.audio_id)
        ∷ []);
    created_at = "";
  }

  unfoldable pub completed_record :
      InteractionState → ℕ → InsertResult → CulturalInteractionRecord W
  completed_record state score answer_inserted = record {
    id = state.storage_interaction_id;
    service_interaction_id = 0;
    player_id = "";
    room_id = 0;
    scene_id = "";
    trigger_id = "";
    interaction_type = "qa";
    ai_flow_id = state.snapshot.flow_id;
    topic = "";
    question = "";
    answer = state.snapshot.answer;
    explanation = state.snapshot.explanation;
    navigation_text = "";
    audio_id = state.snapshot.audio_id;
    status = "completed";
    score = score;
    metadata = W.object (
        ("answer_record_id", W.number answer_inserted.id)
        ∷ ("explanation_task_id", W.number state.explanation_task_id)
        ∷ ("tts_task_id", W.number state.tts_task_id)
        ∷ []);
  }

  unfoldable pub audio_record : InteractionState → TtsAudioResourceRecord W
  audio_record state = record {
    audio_id = state.snapshot.audio_id;
    player_id = state.snapshot.player_id;
    interaction_id = state.storage_interaction_id;
    mime_type =
        if is_empty state.snapshot.audio_mime_type
        then "audio/wav"
        else state.snapshot.audio_mime_type;
    format = state.audio_format;
    byte_size = state.audio_byte_size;
    duration_ms = state.audio_duration_ms;
    storage_type = "memory";
    storage_uri = str_append "/api/v1/tts/audio?audio_id=" state.snapshot.audio_id;
    metadata = W.object (
        ("interaction_id", W.number state.snapshot.interaction_id)
        ∷ ("flow_id", W.number state.snapshot.flow_id)
        ∷ ("tts_task_id", W.number state.tts_task_id)
        ∷ ("scene_id", W.string state.snapshot.scene_id)
        ∷ ("trigger_id", W.string state.snapshot.trigger_id)
        ∷ []);
  }

  unfoldable pub progress_record : InteractionState → ℕ → ProgressRecord W
  progress_record state score = record {
    player_id = state.snapshot.player_id;
    scene_id = state.snapshot.scene_id;
    progress = W.object (
        ("last_interaction_id", W.number state.snapshot.interaction_id)
        ∷ ("last_trigger_id", W.string state.snapshot.trigger_id)
        ∷ ("last_topic", W.string state.snapshot.topic)
        ∷ ("last_score", W.tenths score)
        ∷ ("completed_interaction", W.boolean true)
        ∷ []);
    updated_at = "";
  }

  unfoldable pub answered_event : InteractionState → ℕ → AnswerWrites → EventLog W
  answered_event state score r = record {
    id = 0;
    level = if all_saved r then "info" else "warn";
    category = "gameplay.interaction";
    message = "cultural interaction answered";
    metadata = W.object (
        ("interaction_id", W.number state.snapshot.interaction_id)
        ∷ ("storage_interaction_id", W.number state.storage_interaction_id)
        ∷ ("flow_id", W.number state.snapshot.flow_id)
        ∷ ("player_id", W.string state.snapshot.player_id)
        ∷ ("score", W.tenths score)
        ∷ ("interaction_updated", W.boolean r.interaction_updated.ok)
        ∷ ("answer_saved", W.boolean r.answer_inserted.ok)
        ∷ ("progress_saved", W.boolean r.progress_saved.ok)
        ∷ ("tts_saved", W.boolean r.tts_saved.ok)
        ∷ ("interaction_error", W.string r.interaction_updated.error)
        ∷ ("answer_error", W.string r.answer_inserted.error)
        ∷ ("progress_error", W.string r.progress_saved.error)
        ∷ ("tts_error", W.string r.tts_saved.error)
        ∷ []);
    created_at = "";
  }
