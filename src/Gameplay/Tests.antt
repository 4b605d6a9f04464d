-- ===== src/Gameplay/Tests.antt =====
-- The theorems on interactions at concrete inputs.
use red_culture_service.Common.{
  ℕ, ◌+◌, ◌≡◌, refl, Bool, not, ◌&&◌, Option, is_empty, count_if, inc_u64, inc_u32, str_dec, true,
  false, String, List, [], ◌∷◌, none, some, ℕ_discrete, ite, ap, sym, ◌∙◌,
}
use red_culture_service.Common.Json.{JsonOps}
use red_culture_service.Common.Map.{lookup, insert}
use red_culture_service.Common.Selection.{select_oldest}
use red_culture_service.Ai.Tasks as AiTasks
use red_culture_service.Ai.Tasks.{
  new_task, new_flow, enqueue_task_locked, start_question_flow, select_next, started,
  take_next_task_locked,
}
use red_culture_service.Ai.Finish as AiFinish
use red_culture_service.Ai.Finish.{finish_found, update_flow_after_task_locked, checked_response}
use red_culture_service.Ai.Steps.{taken}
use red_culture_service.Ai.Runs.{asked, asked-IsSound, asked_lasts}
use red_culture_service.Voice.Types.{TextOps}
use red_culture_service.Gameplay.Types.{
  SubmitAnswerRequest, SubmitAnswerResult, InteractionState, CulturalInteractionService,
}
use red_culture_service.Gameplay.Storage.{StorageOps}
use red_culture_service.Gameplay.Saving.{
  storage_available, save_answer_event, write_answer, ensure_user, write_records,
}
use red_culture_service.Gameplay.Start.{World}
use red_culture_service.Gameplay.Answer.{
  AnswerTimes, interaction_id_of, submit_answer, answered_result, answer_error, owned_interaction,
  answer_flow, answer_speech, record_answer, store_answer, estimate_score, explained,
}
use red_culture_service.Gameplay.Outcome.{WorldInv, IsAnswered, Ends}
use red_culture_service.Gameplay.Laws.{submit_answer-IsOutcome}
use red_culture_service.Gameplay.Once.{submit_answer_twice}

abbrev plain : TextOps
plain = record { Float = ℕ; print_float = λ n. "1"; hash = λ s. 7 }

abbrev printer : JsonOps
printer = record {
  Json = String;
  boolean = λ b. "true";
  number = λ n. "1";
  tenths = λ n. "0.1";
  string = λ s. s;
  array = λ l. "[]";
  object = λ l. "{}";
  dump = λ s. s;
}

-- A storage that counts what is written to it.
abbrev counter : StorageOps printer
counter = record {
  State = ℕ;
  is_connected = λ n. true;
  find_user = λ n id. some none;
  upsert_user = λ n p. (n + 1, record { ok = true; error = "" });
  start_cultural_interaction = λ n r. (n + 1, record { ok = true; error = ""; id = n + 1 });
  complete_cultural_interaction = λ n r. (n + 1, record { ok = true; error = "" });
  save_tts_audio_resource = λ n r. (n + 1, record { ok = true; error = "" });
  append_answer_record = λ n r. (n + 1, record { ok = true; error = ""; id = n + 1 });
  save_progress = λ n r. (n + 1, record { ok = true; error = "" });
  append_event_log = λ n e. (n + 1, record { ok = true; error = ""; id = n + 1 });
}

abbrev waiting : InteractionState
waiting = record {
  snapshot = record {
    interaction_id = 1;
    flow_id = 1;
    player_id = "ann";
    room_id = 0;
    scene_id = "hall";
    trigger_id = "t1";
    topic = "tea";
    question = "What is oolong?";
    answer = "";
    explanation = "";
    audio_id = "";
    audio_mime_type = "";
    completed = false;
  };
  storage_interaction_id = 0;
  audio_byte_size = 0;
  audio_duration_ms = 0;
  audio_format = "mp3";
  question_task_id = 1;
  explanation_task_id = 0;
  tts_task_id = 0;
}

abbrev gameplay : List (ℕ × InteractionState) → CulturalInteractionService
gameplay interactions = record {
  config = record {
    require_room_membership = true;
    ai_tick_batch_size = 4;
    tts_tick_batch_size = 2;
    enable_tts = true;
    allow_without_storage = true;
  };
  next_interaction_id = 2;
  interactions = interactions;
  flow_to_interaction = (1, 1) ∷ [];
}

abbrev world : List (ℕ × InteractionState) → World plain ℕ
world interactions = record {
  room_service = none;
  ai_service = asked.service;
  tts_service = none;
  storage_service = some 0;
  gameplay = gameplay interactions;
}

abbrev request : SubmitAnswerRequest
request = record { player_id = "ann"; interaction_id = 0; flow_id = 1; answer = "A tea." }

abbrev times : AnswerTimes plain
times = record {
  answered_at = 5;
  ai_clock = λ i. record { taken_at = i; started_at = i; ended_at = i; finished_at = i };
  spoken_at = 9;
  tts_clock = λ i. record { taken_at = i; started_at = i; ended_at = i; finished_at = i };
}

world-WorldInv :
    (state : InteractionState)
    → state.snapshot.interaction_id ≡ 1
    → WorldInv plain asked.in_flight (world ((1, state) ∷ []))
unfolding lookup
world-WorldInv state named = record {
  ai = asked-IsSound;
  tts = λ tts q. cc;
  named = λ id t e.
      elim (ℕ_discrete 1 id)
          as (λ d. ite d (some state) none ≡ some t → t.snapshot.interaction_id ≡ id) [
            | yes q ↦ λ e.
                let same_state : state ≡ t = cc in
                ap (λ t. t.snapshot.interaction_id) (sym same_state) ∙ named ∙ q
            | no ne ↦ λ e. cc
          ]
        e;
}

submit_answer-IsOutcome_example :
    Ends plain printer counter asked.in_flight
      (world ((1, waiting) ∷ []))
      request
      (submit_answer plain 1 printer counter (world ((1, waiting) ∷ [])) request times)
submit_answer-IsOutcome_example =
    submit_answer-IsOutcome plain 1 printer counter asked.in_flight (world ((1, waiting) ∷ []))
      request times (world-WorldInv waiting refl) asked_lasts

-- The interaction above is answered: the explanation of the AI client and the interaction are
-- stored.
abbrev is_saved : Option (World plain ℕ × SubmitAnswerResult) → Bool
is_saved none = false
is_saved (some (w, result)) = result.ok && not (is_empty result.explanation)

program : Unit {0}
unfolding submit_answer answer_error storage_available owned_interaction interaction_id_of
    answer_flow answer_speech record_answer store_answer save_answer_event write_answer ensure_user
    write_records estimate_score explained taken take_next_task_locked select_next select_oldest
    started start_question_flow new_flow enqueue_task_locked new_task insert lookup count_if inc_u64
    inc_u32 ℕ_discrete str_dec finish_found update_flow_after_task_locked checked_response
    AiTasks.submit_answer AiTasks.submit_found AiTasks.answered AiTasks.find_flow AiFinish.tick
    AiFinish.tick_loop AiFinish.finish_task_locked AiFinish.call_client
program = tt

submit_answer_test :
    is_saved (submit_answer plain 1 printer counter (world ((1, waiting) ∷ [])) request times)
    ≡ true
unfolding program
submit_answer_test = refl

-- With a storage in which looking a player up throws, the same call throws.
submit_answer_throws_test :
    submit_answer plain 1 printer
      (record counter { find_user = λ n id. none })
      (world ((1, waiting) ∷ []))
      request
      times
    ≡ none
unfolding program
submit_answer_throws_test = refl

abbrev done : InteractionState
done = record waiting {
  snapshot = record (waiting.snapshot) { answer = "A tea."; completed = true };
}

answered :
    IsAnswered
      (gameplay ((1, waiting) ∷ []))
      (gameplay ((1, done) ∷ []))
      request
      (answered_result done false true)
unfolding lookup insert interaction_id_of ℕ_discrete
answered = record {
  state = waiting;
  state' = done;
  found = refl;
  owner = refl;
  open_before = refl;
  completed_after = refl;
  answer = refl;
  flow_id = refl;
  player_id = refl;
  question = refl;
  stored = refl;
  ok = refl;
  reported = refl;
}

submit_answer_twice_example :
    (w' : World plain ℕ) × (result : SubmitAnswerResult) × (submit_answer plain 1 printer counter
        (world ((1, done) ∷ []))
        request
        times
      ≡ some (w', result))
    × (result.ok ≡ false)
    × (w'.gameplay ≡ gameplay ((1, done) ∷ []))
unfolding interaction_id_of lookup ℕ_discrete
submit_answer_twice_example =
    submit_answer_twice plain 1 printer counter asked.in_flight (gameplay ((1, waiting) ∷ []))
      (world ((1, done) ∷ [])) request request (answered_result done false true) times
      (world-WorldInv done refl) asked_lasts answered refl
