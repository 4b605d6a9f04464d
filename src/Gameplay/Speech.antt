-- ===== src/Gameplay/Speech.antt =====
-- The speech of `submitAnswer` in src/gameplay/cultural_interaction_service.cpp keeps the interaction.
use red_culture_service.Common.{
  ℕ, ◌≡◌, refl, Bool, false, inl, inr, Option, none, some, Bool-cases, Option-cases,
}
use red_culture_service.Voice.Types.{TextOps, VoiceTtsService, AudioResource}
use red_culture_service.Voice.Tasks as VoiceTasks
use red_culture_service.Voice.Finish as VoiceFinish
use red_culture_service.Voice.Invariant as VoiceInvariant
use red_culture_service.Voice.Turns.{tick_loop-Inv}
use red_culture_service.Gameplay.Types.{InteractionState}
use red_culture_service.Gameplay.Voice.{with_audio, speech_request, task_of, task_or, speak}

-- The interaction is the same one, with the same answer.
pub record Kept (state state' : InteractionState) : Type 0 where
  pub interaction_id : state'.snapshot.interaction_id ≡ state.snapshot.interaction_id
  pub flow_id : state'.snapshot.flow_id ≡ state.snapshot.flow_id
  pub player_id : state'.snapshot.player_id ≡ state.snapshot.player_id
  pub question : state'.snapshot.question ≡ state.snapshot.question
  pub answer : state'.snapshot.answer ≡ state.snapshot.answer

pub Kept-refl : (state : InteractionState) → Kept state state
Kept-refl state = record {
  interaction_id = refl;
  flow_id = refl;
  player_id = refl;
  question = refl;
  answer = refl;
}

with_audio-Kept :
    (state : InteractionState) (id : ℕ) (audio : Option AudioResource)
    → Kept state (with_audio (record state { tts_task_id = id }) audio)
unfolding with_audio
with_audio-Kept state id none = record {
  interaction_id = refl;
  flow_id = refl;
  player_id = refl;
  question = refl;
  answer = refl;
}
with_audio-Kept state id (some audio) = record {
  interaction_id = refl;
  flow_id = refl;
  player_id = refl;
  question = refl;
  answer = refl;
}

module _ (X : TextOps) (one : X.Float) where
  -- Speech never throws, keeps the invariant of its service, and keeps the interaction.
  pub speak-Kept :
      (tts : VoiceTtsService X) (batch_size : ℕ) (state : InteractionState) (now : ℕ)
      (clock : ℕ → VoiceFinish.TurnTimes X)
      → VoiceInvariant.Inv X tts
      → (tts' : VoiceTtsService X) × (state' : InteractionState) × (hit : Bool) × (speak X one tts
            batch_size state now clock
          ≡ some (tts', state', hit))
        × VoiceInvariant.Inv X tts'
        × Kept state state'
  unfolding speak VoiceFinish.tick
  speak-Kept tts batch_size state now clock v =
      let submitted = VoiceTasks.submit X tts (speech_request X one state) now in
      let v1 = VoiceInvariant.submit-Inv X tts (speech_request X one state) now v in
      elim (Option-cases (task_of X one submitted.1)) [
        | inl e ↦ (submitted.0, state, false, rw (e, speak) refl, v1, Kept-refl state)
        | inr (task, e) ↦ elim (Bool-cases submitted.1.cache_hit) [
          | inl hit ↦
              let latest = task_or X one (VoiceFinish.find_task X submitted.0 task.id) task in
              (
                submitted.0,
                with_audio (record state { tts_task_id = task.id }) latest.audio,
                submitted.1.cache_hit,
                rw (e, speak, hit, hit) refl,
                v1,
                with_audio-Kept state task.id latest.audio,
              )
          | inr miss ↦
              let (tts2, result, f, v2) =
                tick_loop-Inv X batch_size clock submitted.0 (VoiceFinish.nothing_done X) v1 in
              let latest = task_or X one (VoiceFinish.find_task X tts2 task.id) task in
              (
                tts2,
                with_audio (record state { tts_task_id = task.id }) latest.audio,
                submitted.1.cache_hit,
                rw (e, speak, miss, f, miss) refl,
                v2,
                with_audio-Kept state task.id latest.audio,
              )
        ]
      ]
