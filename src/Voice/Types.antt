-- ===== src/Voice/Types.antt =====
-- The enums and structs of include/rcs/voice_tts/voice_tts_service.hpp, and the three `toString`
-- functions. Times are readings of the steady clock in nanoseconds; the durations of the
-- configuration are in the units of their types. There are no floats in the model: their type, and
-- how a stream prints one, is a parameter, and so is `std::hash` on texts.
use red_culture_service.Common.{ℕ, String, Bool, false, List, Option, none}

pub record TextOps : Type 1 where
  pub Float : Type 0
  pub print_float : Float → String
  pub hash : String → ℕ

pub data AudioFormat : Type 0 where
  wav : AudioFormat
  mp3 : AudioFormat
  pcm16 : AudioFormat
  ogg : AudioFormat

pub data TtsTaskStatus : Type 0 where
  queued : TtsTaskStatus
  running : TtsTaskStatus
  succeeded : TtsTaskStatus
  failed : TtsTaskStatus
  timed_out : TtsTaskStatus
  canceled : TtsTaskStatus

abbrev pub format_name : AudioFormat → String
format_name wav = "wav"
format_name mp3 = "mp3"
format_name pcm16 = "pcm16"
format_name ogg = "ogg"

abbrev pub status_name : TtsTaskStatus → String
status_name queued = "queued"
status_name running = "running"
status_name succeeded = "succeeded"
status_name failed = "failed"
status_name timed_out = "timed_out"
status_name canceled = "canceled"

abbrev pub mime_type_of : AudioFormat → String
mime_type_of wav = "audio/wav"
mime_type_of mp3 = "audio/mpeg"
mime_type_of pcm16 = "audio/L16"
mime_type_of ogg = "audio/ogg"

pub record VoiceTtsConfig : Type 0 where
  pub max_retries : ℕ
  pub request_timeout : ℕ
  pub retry_backoff : ℕ
  pub max_text_length : ℕ
  pub max_queued_tasks : ℕ
  pub max_cache_items : ℕ
  pub cache_ttl : ℕ

pub record AudioResource : Type 0 where
  pub id : String
  pub format : AudioFormat
  pub mime_type : String
  pub bytes : List ℕ
  pub duration : ℕ
  pub created_at : ℕ
  pub expires_at : ℕ
  pub metadata : List (String × String)

pub record TtsProviderResponse : Type 0 where
  pub ok : Bool
  pub format : AudioFormat
  pub mime_type : String
  pub bytes : List ℕ
  pub duration : ℕ
  pub error : String
  pub metadata : List (String × String)

-- `audio_cache_` and `audio_id_to_cache_key_`
pub record AudioCache : Type 0 where
  pub resources : List (String × AudioResource)
  pub id_keys : List (String × String)

module _ (X : TextOps) where
  pub record VoiceProfile : Type 0 where
    pub voice_id : String
    pub language : String
    pub speed : X.Float
    pub pitch : X.Float
    pub volume : X.Float

  pub record TtsRequest : Type 0 where
    pub text : String
    pub voice : VoiceProfile
    pub format : AudioFormat
    pub player_id : String
    pub purpose : String
    pub cache_enabled : Bool
    pub metadata : List (String × String)

  pub record TtsProviderRequest : Type 0 where
    pub task_id : ℕ
    pub request : TtsRequest
    pub attempt : ℕ

  pub record TtsTask : Type 0 where
    pub id : ℕ
    pub status : TtsTaskStatus
    pub request : TtsRequest
    pub attempts : ℕ
    pub cache_key : String
    pub last_error : String
    pub audio : Option AudioResource
    pub created_at : ℕ
    pub updated_at : ℕ
    pub next_attempt_at : ℕ

  pub record RunningTask : Type 0 where
    pub task : TtsTask
    pub request : TtsProviderRequest

  pub record SubmitResult : Type 0 where
    pub ok : Bool
    pub error : String
    pub cache_hit : Bool
    pub task : Option TtsTask

  pub record TickResult : Type 0 where
    pub succeeded_tasks : List TtsTask
    pub retry_tasks : List TtsTask
    pub failed_tasks : List TtsTask

  -- The private members of `VoiceTtsService`. Its mutex makes each locked part of an operation
  -- atomic. The client is the callback of `ITtsClient`.
  pub record VoiceTtsService : Type 0 where
    pub config : VoiceTtsConfig
    pub client : Option (TtsProviderRequest → TtsProviderResponse)
    pub next_task_id : ℕ
    pub tasks : List (ℕ × TtsTask)
    pub audio : AudioCache

  -- `reject`
  abbrev pub rejected : String → SubmitResult
  rejected error = record { ok = false; error = error; cache_hit = false; task = none }
