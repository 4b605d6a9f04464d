-- ===== src/Gameplay/Answer.antt =====
-- `submitAnswer` of src/gameplay/cultural_interaction_service.cpp, and the queries. The locked parts of
-- one call follow each other: no other call comes between.
use Prim.Native.String.{◌++◌ as str_append, len}
use red_culture_service.Common.{
  ℕ, String, Bool, true, false, not, ◌&&◌, ◌⊎◌, inl, inr, Option, none, some, ℕ_discrete, is_empty,
  same, leb, ◌==◌, if◌then◌else◌,
}
use red_culture_service.Common.Json.{JsonOps}
use red_culture_service.Common.Map.{lookup, insert}
use red_culture_service.Ai.Types as Ai
use red_culture_service.Ai.Tasks as AiTasks
use red_culture_service.Ai.Finish as AiFinish
use red_culture_service.Voice.Types.{TextOps}
use red_culture_service.Voice.Finish as VoiceFinish
use red_culture_service.Gameplay.Types.{
  SubmitAnswerRequest, SubmitAnswerResult, InteractionSnapshot, InteractionState,
  CulturalInteractionService, refused_answer,
}
use red_culture_service.Gameplay.Storage.{StorageOps}
use red_culture_service.Gameplay.Saving.{storage_available, save_answer_event}
use red_culture_service.Gameplay.Start.{World, flow_of, flow_or}
use red_culture_service.Gameplay.Voice.{speak}

unfoldable pub fallback_explanation : SubmitAnswerRequest → String
fallback_explanation request = str_append "讲解生成中。你的回答是：" request.answer

-- The score in tenths, by the bytes of the answer.
unfoldable pub estimate_score : String → ℕ
estimate_score answer = if leb 36 (len answer) then 10 else if leb 12 (len answer) then 7 else 4

-- The id of the interaction, given or found by the flow.
unfoldable pub interaction_id_of : CulturalInteractionService → SubmitAnswerRequest → ℕ
interaction_id_of g request =
    if (request.interaction_id == 0) && not (request.flow_id == 0)
    then elim (lookup ℕ_discrete request.flow_id g.flow_to_interaction) [
      | none ↦ request.interaction_id
      | some interaction_id ↦ interaction_id
    ]
    else request.interaction_id

-- The locked part that looks the interaction up: an error, or a copy of its state.
unfoldable pub owned_interaction :
    CulturalInteractionService → SubmitAnswerRequest → String ⊎ InteractionState
unfolding interaction_id_of
owned_interaction g request =
    elim (lookup ℕ_discrete (interaction_id_of g request) g.interactions) [
      | none ↦ inl "interaction was not found"
      | some state ↦
          if not (same state.snapshot.player_id request.player_id)
          then inl "player does not own this interaction"
          else if state.snapshot.completed
          then inl "interaction was already completed"
          else inr state
    ]

unfoldable pub explained :
    InteractionState → SubmitAnswerRequest → Ai.AiInteractionFlow → InteractionState
unfolding fallback_explanation
explained state request flow = record state {
  snapshot = record (state.snapshot) {
    answer = request.answer;
    explanation = AiTasks.or_default flow.generated_explanation (fallback_explanation request);
  };
  explanation_task_id = flow.explanation_task_id;
}

abbrev pub answered_result : InteractionState → Bool → Bool → SubmitAnswerResult
answered_result state tts_cache_hit storage_saved = record {
  ok = true;
  error = "";
  interaction_id = state.snapshot.interaction_id;
  flow_id = state.snapshot.flow_id;
  explanation_task_id = state.explanation_task_id;
  tts_task_id = state.tts_task_id;
  player_id = state.snapshot.player_id;
  scene_id = state.snapshot.scene_id;
  trigger_id = state.snapshot.trigger_id;
  topic = state.snapshot.topic;
  question = state.snapshot.question;
  answer = state.snapshot.answer;
  explanation = state.snapshot.explanation;
  audio_id = state.snapshot.audio_id;
  audio_mime_type = state.snapshot.audio_mime_type;
  tts_cache_hit = tts_cache_hit;
  storage_saved = storage_saved;
}

-- The readings of the clock in one call.
pub record AnswerTimes (X : TextOps) : Type 0 where
  pub answered_at : ℕ
  pub ai_clock : ℕ → AiFinish.TurnTimes
  pub spoken_at : ℕ
  pub tts_clock : ℕ → VoiceFinish.TurnTimes X

module _ (X : TextOps) (one : X.Float) (W : JsonOps) (S : StorageOps W) where
  unfoldable pub answer_error : World X S.State → SubmitAnswerRequest → Option String
  unfolding storage_available
  answer_error w request =
      if is_empty request.player_id
      then some "player_id is required"
      else if is_empty request.answer
      then some "answer is required"
      else if not w.gameplay.config.allow_without_storage
          && not (storage_available W S w.storage_service)
      then some "storage is not connected"
      else none

  -- The interaction is stored as it was saved.
  unfoldable pub store_answer :
      World X S.State
      → InteractionState
      → Bool
      → Option S.State
      → Bool
      → World X S.State × SubmitAnswerResult
  store_answer w done tts_cache_hit storage storage_saved =
      let g = w.gameplay in
      (
        record w {
          storage_service = storage;
          gameplay = record g {
            interactions = insert ℕ_discrete done.snapshot.interaction_id done g.interactions;
          };
        },
        answered_result done tts_cache_hit storage_saved,
      )

  -- The interaction is completed, saved and stored. `none` is an exception of the storage.
  unfoldable pub record_answer :
      World X S.State
      → SubmitAnswerRequest
      → InteractionState
      → Bool
      → Option (World X S.State × SubmitAnswerResult)
  unfolding estimate_score save_answer_event store_answer
  record_answer w request state tts_cache_hit =
      let done = record state { snapshot = record (state.snapshot) { completed = true } } in
      elim (save_answer_event W S w.storage_service done (estimate_score request.answer)) [
        | none ↦ none
        | some (storage, storage_saved) ↦
            some (store_answer w done tts_cache_hit storage storage_saved)
      ]

  unfoldable pub answer_speech :
      World X S.State
      → SubmitAnswerRequest
      → InteractionState
      → AnswerTimes X
      → Option (World X S.State × SubmitAnswerResult)
  unfolding speak record_answer
  answer_speech w request state t =
      elim (if w.gameplay.config.enable_tts then w.tts_service else none) [
        | none ↦ record_answer w request state false
        | some tts ↦
            elim (speak X one tts w.gameplay.config.tts_tick_batch_size state t.spoken_at
              t.tts_clock) [
                | none ↦ none
                | some (tts', state', hit) ↦
                    record_answer (record w { tts_service = some tts' }) request state' hit
              ]
      ]

  unfoldable pub answer_flow :
      World X S.State
      → SubmitAnswerRequest
      → InteractionState
      → AnswerTimes X
      → Option (World X S.State × SubmitAnswerResult)
  unfolding AiTasks.submit_answer AiFinish.tick AiTasks.find_flow explained answer_speech
  answer_flow w request state t =
      let flow_id = state.snapshot.flow_id in
      let (ai1, flow_result) =
        AiTasks.submit_answer w.ai_service flow_id request.answer t.answered_at in
      elim (flow_of flow_result) [
        | none ↦ some (
          record w { ai_service = ai1 },
          refused_answer (AiTasks.or_default flow_result.error "failed to submit answer"),
        )
        | some flow ↦ elim (AiFinish.tick ai1 w.gameplay.config.ai_tick_batch_size t.ai_clock) [
          | none ↦ none
          | some (ai2, _) ↦
              answer_speech (record w { ai_service = ai2 }) request
                (explained state request (flow_or (AiTasks.find_flow ai2 flow_id) flow)) t
        ]
      ]

  -- `none` is an exception that leaves the call.
  unfoldable pub submit_answer :
      World X S.State
      → SubmitAnswerRequest
      → AnswerTimes X
      → Option (World X S.State × SubmitAnswerResult)
  unfolding answer_error owned_interaction answer_flow
  submit_answer w request t = elim (answer_error w request) [
    | some error ↦ some (w, refused_answer error)
    | none ↦ elim (owned_interaction w.gameplay request) [
      | inl error ↦ some (w, refused_answer error)
      | inr state ↦ answer_flow w request state t
    ]
  ]

abbrev pub snapshot_of : Option InteractionState → Option InteractionSnapshot
snapshot_of none = none
snapshot_of (some state) = some state.snapshot

unfoldable pub find_interaction : CulturalInteractionService → ℕ → Option InteractionSnapshot
find_interaction g interaction_id = snapshot_of (lookup ℕ_discrete interaction_id g.interactions)

unfoldable pub find_interaction_by_flow :
    CulturalInteractionService → ℕ → Option InteractionSnapshot
unfolding find_interaction
find_interaction_by_flow g flow_id = elim (lookup ℕ_discrete flow_id g.flow_to_interaction) [
  | none ↦ none
  | some interaction_id ↦ find_interaction g interaction_id
]
