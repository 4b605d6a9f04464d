-- ===== src/Ai/Runs.antt =====
-- The start of a flow up to its question, at concrete inputs, for the tests.
use red_culture_service.Common.{
  ℕ, ◌+◌, ◌<◌, u64_mod, refl, true, [], ◌∷◌, some, ℕ_discrete, inc_u64, inc_u32, arith, inl,
  count_if,
}
use red_culture_service.Common.Map.{lookup, insert}
use red_culture_service.Common.Selection.{select_oldest}
use red_culture_service.Ai.Types.{
  AiContext, AiOrchestratorConfig, AiTask, AiResponse, RunningTask, generate_question,
}
use red_culture_service.Ai.Tasks.{
  new_task, new_flow, enqueue_task_locked, start_question_flow, select_next, started,
  take_next_task_locked, request_of,
}
use red_culture_service.Ai.Finish.{
  finish_found, update_flow_after_task_locked, checked_response, finish_task_locked, nothing_done,
  TurnTimes,
}
use red_culture_service.Ai.Steps.{
  Machine, new_service, new_service-Inv, taken, Step, starts, takes, Reach, stop, step, ends,
  IsSound, Step-IsSound, Reach-IsSound,
}
use red_culture_service.Ai.Turns.{back}

abbrev pub config : AiOrchestratorConfig
config = record {
  max_retries = 2;
  request_timeout = 3000;
  retry_backoff = 500;
  max_queued_tasks = 1024;
  default_question_prompt = "Ask about {topic}.";
  default_explanation_prompt = "Explain {topic} to {player_id}.";
}

abbrev pub context : AiContext
context = record {
  room_id = 1;
  player_id = "ann";
  scene_id = "hall";
  topic = "tea";
  user_input = "";
  metadata = [];
}

abbrev pub response : AiResponse
response = record { ok = true; text = "What is oolong?"; error = ""; metadata = [] }

abbrev pub initial : Machine
initial = record { service = new_service (some (λ r. response)) config; in_flight = [] }

abbrev pub asking : Machine
asking = record initial { service = (start_question_flow initial.service context "" "" 0).0 }

abbrev pub path : Reach initial (taken asking 5)
path = step (starts initial context "" "" 0 (omega arith, omega arith)) (step (takes asking 5) stop)

pub initial-IsSound : IsSound initial
initial-IsSound = new_service-Inv (some (λ r. response)) config (omega arith)

abbrev pub task : AiTask
task = new_task initial.service generate_question context "Ask about {topic}." (some 1) 0

pub asking-IsSound : IsSound asking
asking-IsSound =
    (Reach-IsSound (step (starts initial context "" "" 0 (omega arith, omega arith)) stop)
      initial-IsSound).0

abbrev pub clock : ℕ → TurnTimes
clock i = record { taken_at = i; started_at = i; ended_at = i; finished_at = i }

abbrev pub asked : Machine
asked = record {
  service =
      (finish_found (taken asking 5).service 1 (started task 5) response 20 30 nothing_done).0;
  in_flight = back 1 (1 ∷ []);
}

abbrev pub running_task : RunningTask
running_task = record { task = started task 5; request = request_of (started task 5) }

pub asked-Step : Step (taken asking 5) asked
unfolding taken take_next_task_locked select_next select_oldest started start_question_flow new_flow
    enqueue_task_locked new_task insert lookup count_if inc_u64 inc_u32 ℕ_discrete
    finish_task_locked
asked-Step =
    ends (taken asking 5) running_task response 20 30 nothing_done
      (finish_found (taken asking 5).service 1 (started task 5) response 20 30 nothing_done).1
      asked.service (inl refl) refl

pub asked-IsSound : IsSound asked
asked-IsSound = (Step-IsSound asked-Step (Reach-IsSound path initial-IsSound).0).0

pub asked_lasts : asked.service.next_task_id + 1 < u64_mod
unfolding taken take_next_task_locked select_next select_oldest started start_question_flow new_flow
    enqueue_task_locked new_task insert lookup count_if inc_u64 inc_u32 ℕ_discrete finish_found
    update_flow_after_task_locked checked_response
asked_lasts = omega arith
