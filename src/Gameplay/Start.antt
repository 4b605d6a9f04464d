-- ===== src/Gameplay/Start.antt =====
-- `startInteraction` of src/gameplay/cultural_interaction_service.cpp, with the state of the services
-- that it is made of. The locked parts of one call follow each other: no other call comes between.
use Prim.Native.String.{◌++◌ as str_append}
use red_culture_service.Common.{
  ℕ, String, Bool, true, false, not, ◌&&◌, ◌||◌, Option, none, some, ℕ_discrete, str_dec, is_empty,
  same, any_of, ◌==◌, inc_u64, if◌then◌else◌,
}
use red_culture_service.Common.Json.{JsonOps}
use red_culture_service.Common.Map.{insert}
use red_culture_service.Room.Types.{RoomInfo, RoomMatchService}
use red_culture_service.Room.Queries.{find_room}
use red_culture_service.Ai.Types as Ai
use red_culture_service.Ai.Tasks.{start_question_flow, find_flow, or_default}
use red_culture_service.Ai.Finish.{tick, TurnTimes}
use red_culture_service.Voice.Types.{TextOps, VoiceTtsService}
use red_culture_service.Gameplay.Types.{
  StartInteractionRequest, StartInteractionResult, InteractionState, CulturalInteractionService,
  refused_start,
}
use red_culture_service.Gameplay.Storage.{StorageOps}
use red_culture_service.Gameplay.Saving.{storage_available, save_start_event}

-- The services that the pointers lead to. The code dereferences `ai_service_` without a test.
pub record World (X : TextOps) (State : Type 0) : Type 0 where
  pub room_service : Option RoomMatchService
  pub ai_service : Ai.AiOrchestratorService
  pub tts_service : Option (VoiceTtsService X)
  pub storage_service : Option State
  pub gameplay : CulturalInteractionService

unfoldable pub contains_player : RoomInfo → String → Bool
contains_player room_info player_id =
    any_of (λ member. same member.player.player_id player_id) room_info.members

unfoldable pub fallback_question : StartInteractionRequest → String
fallback_question request =
    if is_empty request.topic
    then "请说说你在当前红色文化场景中的观察和理解。"
    else str_append "请围绕《" (str_append request.topic "》说说你的观察和理解。")

-- `isRoomMember`: the error, where there is one.
unfoldable pub room_error : Option RoomMatchService → Bool → ℕ → String → Option String
unfolding contains_player find_room
room_error room_service required room_id player_id =
    if (room_id == 0) || not required then none else elim room_service [
      | none ↦ some "room service is not configured"
      | some rooms ↦ elim (find_room rooms room_id) [
        | none ↦ some "room was not found"
        | some room_info ↦
            if contains_player room_info player_id then none else some "player is not in the room"
      ]
    ]

-- A flow of a result that is `ok` and has one.
abbrev pub flow_of : Ai.FlowResult → Option Ai.AiInteractionFlow
flow_of result = if result.ok then result.flow else none

-- `value_or`
abbrev pub flow_or : Option Ai.AiInteractionFlow → Ai.AiInteractionFlow → Ai.AiInteractionFlow
flow_or none flow = flow
flow_or (some flow) _ = flow

unfoldable pub context_of : StartInteractionRequest → Ai.AiContext
context_of request = record {
  room_id = request.room_id;
  player_id = request.player_id;
  scene_id = request.scene_id;
  topic = or_default request.topic "红色文化";
  user_input = "";
  metadata = insert str_dec "trigger_id" request.trigger_id request.metadata;
}

unfoldable pub new_state : ℕ → StartInteractionRequest → Ai.AiInteractionFlow → InteractionState
unfolding context_of fallback_question
new_state interaction_id request flow = record {
  snapshot = record {
    interaction_id = interaction_id;
    flow_id = flow.id;
    player_id = request.player_id;
    room_id = request.room_id;
    scene_id = request.scene_id;
    trigger_id = request.trigger_id;
    topic = (context_of request).topic;
    question = or_default flow.generated_question (fallback_question request);
    answer = "";
    explanation = "";
    audio_id = "";
    audio_mime_type = "";
    completed = false;
  };
  storage_interaction_id = 0;
  audio_byte_size = 0;
  audio_duration_ms = 0;
  audio_format = "mp3";
  question_task_id = flow.question_task_id;
  explanation_task_id = 0;
  tts_task_id = 0;
}

abbrev pub started_result : InteractionState → Bool → StartInteractionResult
started_result state storage_saved = record {
  ok = true;
  error = "";
  interaction_id = state.snapshot.interaction_id;
  flow_id = state.snapshot.flow_id;
  question_task_id = state.question_task_id;
  player_id = state.snapshot.player_id;
  room_id = state.snapshot.room_id;
  scene_id = state.snapshot.scene_id;
  trigger_id = state.snapshot.trigger_id;
  topic = state.snapshot.topic;
  question = state.snapshot.question;
  storage_saved = storage_saved;
}

-- `interactions_[id] = state` and `flow_to_interaction_[flow] = id`
unfoldable pub store_interaction :
    CulturalInteractionService → InteractionState → CulturalInteractionService
store_interaction g state = record g {
  interactions = insert ℕ_discrete state.snapshot.interaction_id state g.interactions;
  flow_to_interaction =
      insert ℕ_discrete state.snapshot.flow_id state.snapshot.interaction_id g.flow_to_interaction;
}

module _ (X : TextOps) (W : JsonOps) (S : StorageOps W) where
  -- The early returns, in their order.
  unfoldable pub start_error : World X S.State → StartInteractionRequest → Option String
  unfolding room_error storage_available
  start_error w request =
      if is_empty request.player_id
      then some "player_id is required"
      else if is_empty request.scene_id
      then some "scene_id is required"
      else if is_empty request.trigger_id
      then some "trigger_id is required"
      else elim (room_error w.room_service w.gameplay.config.require_room_membership request.room_id
          request.player_id) [
            | some error ↦ some error
            | none ↦
                if not w.gameplay.config.allow_without_storage
                  && not (storage_available W S w.storage_service)
                then some "storage is not connected"
                else none
          ]

  -- The interaction is numbered, saved and stored. `none` is an exception of the storage.
  unfoldable pub record_start :
      World X S.State
      → StartInteractionRequest
      → Ai.AiInteractionFlow
      → Option (World X S.State × StartInteractionResult)
  unfolding new_state save_start_event store_interaction
  record_start w request flow =
      let g = w.gameplay in
      let state = new_state g.next_interaction_id request flow in
      let numbered = record g { next_interaction_id = inc_u64 g.next_interaction_id } in
      elim (save_start_event W S w.storage_service state) [
        | none ↦ none
        | some (storage, storage_start) ↦
            let saved = record state { storage_interaction_id = storage_start.id } in
            some (
              record w { storage_service = storage; gameplay = store_interaction numbered saved },
              started_result saved storage_start.ok,
            )
      ]

  unfoldable pub start_flow :
      World X S.State
      → StartInteractionRequest
      → ℕ
      → (ℕ → TurnTimes)
      → Option (World X S.State × StartInteractionResult)
  unfolding context_of start_question_flow tick find_flow record_start
  start_flow w request now clock =
      let (ai1, flow_result) =
        start_question_flow w.ai_service (context_of request) request.question_prompt_template ""
          now in
      elim (flow_of flow_result) [
        | none ↦ some (
          record w { ai_service = ai1 },
          refused_start (or_default flow_result.error "failed to start ai interaction"),
        )
        | some flow ↦ elim (tick ai1 w.gameplay.config.ai_tick_batch_size clock) [
          | none ↦ none
          | some (ai2, _) ↦
              record_start (record w { ai_service = ai2 }) request
                (flow_or (find_flow ai2 flow.id) flow)
        ]
      ]

  -- `none` is an exception that leaves the call.
  unfoldable pub start_interaction :
      World X S.State
      → StartInteractionRequest
      → ℕ
      → (ℕ → TurnTimes)
      → Option (World X S.State × StartInteractionResult)
  unfolding start_error start_flow
  start_interaction w request now clock = elim (start_error w request) [
    | some error ↦ some (w, refused_start error)
    | none ↦ start_flow w request now clock
  ]
