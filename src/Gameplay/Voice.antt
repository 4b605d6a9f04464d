-- ===== src/Gameplay/Voice.antt =====
-- The speech of `submitAnswer` in src/gameplay/cultural_interaction_service.cpp.
use red_culture_service.Common.{
  ℕ, Bool, true, false, [], Option, none, some, str_dec, length, if◌then◌else◌,
}
use red_culture_service.Common.Text.{to_string}
use red_culture_service.Common.Map.{insert}
use red_culture_service.Voice.Types.{
  TextOps, VoiceTtsService, TtsRequest, TtsTask, SubmitResult, AudioResource, wav, format_name,
}
use red_culture_service.Voice.Tasks as VoiceTasks
use red_culture_service.Voice.Finish as VoiceFinish
use red_culture_service.Gameplay.Types.{InteractionState}

unfoldable pub with_audio : InteractionState → Option AudioResource → InteractionState
with_audio state none = state
with_audio state (some audio) = record state {
  snapshot = record (state.snapshot) { audio_id = audio.id; audio_mime_type = audio.mime_type };
  audio_format = format_name audio.format;
  audio_byte_size = length audio.bytes;
  audio_duration_ms = audio.duration;
}

-- `one` is 1.0F, the default of the members of a voice profile.
module _ (X : TextOps) (one : X.Float) where
  unfoldable pub speech_request : InteractionState → TtsRequest X
  unfolding to_string
  speech_request state = record {
    text = state.snapshot.explanation;
    voice = record {
      voice_id = "default";
      language = "zh-CN";
      speed = one;
      pitch = one;
      volume = one;
    };
    format = wav;
    player_id = state.snapshot.player_id;
    purpose = "cultural_interaction_explanation";
    cache_enabled = true;
    metadata = insert str_dec "trigger_id" state.snapshot.trigger_id (
        insert str_dec "scene_id" state.snapshot.scene_id (
          insert str_dec "flow_id" (to_string state.snapshot.flow_id)
            (insert str_dec "interaction_id" (to_string state.snapshot.interaction_id) [])));
  }

  abbrev pub task_of : SubmitResult X → Option (TtsTask X)
  task_of result = if result.ok then result.task else none

  abbrev pub task_or : Option (TtsTask X) → TtsTask X → TtsTask X
  task_or none task = task
  task_or (some task) _ = task

  -- The speech is made at once, unless it is in the cache.
  unfoldable pub speak :
      VoiceTtsService X
      → ℕ
      → InteractionState
      → ℕ
      → (ℕ → VoiceFinish.TurnTimes X)
      → Option (VoiceTtsService X × InteractionState × Bool)
  unfolding speech_request VoiceTasks.submit VoiceFinish.tick VoiceFinish.find_task with_audio
  speak tts batch_size state now clock =
      let (tts1, submitted) = VoiceTasks.submit X tts (speech_request state) now in
      elim (task_of submitted) [
        | none ↦ some (tts1, state, false)
        | some task ↦
            let ticked =
              if submitted.cache_hit
              then some (tts1, VoiceFinish.nothing_done X)
              else VoiceFinish.tick X tts1 batch_size clock in
            elim ticked [
              | none ↦ none
              | some (tts2, _) ↦
                  let latest = task_or (VoiceFinish.find_task X tts2 task.id) task in
                  some (
                    tts2,
                    with_audio (record state { tts_task_id = task.id }) latest.audio,
                    submitted.cache_hit,
                  )
            ]
      ]
