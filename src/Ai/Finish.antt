-- ===== src/Ai/Finish.antt =====
-- The end of a task in src/ai_orchestrator/ai_orchestrator_service.cpp: `finishTaskLocked` with
-- `updateFlowAfterTaskLocked`, and the loop of `tick`, in which the client is called with the mutex
-- released.
use red_culture_service.Common.{
  ℕ, zero, suc, ◌+◌, ◌-◌, ◌*◌, ◌/◌, ◌%◌, ◌^◌, String, Bool, false, [], ◌∷◌, ◌++◌, Option, none,
  some, ℕ_discrete, is_empty, ltb, if◌then◌else◌, ns_per_ms,
}
use red_culture_service.Common.Map.{lookup, insert}
use red_culture_service.Ai.Types.{
  AiTaskKind, generate_question, generate_explanation, generate_hint, AiTaskStatus, queued,
  succeeded, failed, timed_out, waiting_answer, completed, broken, AiRequest, AiResponse, AiTask,
  AiInteractionFlow, AiOrchestratorConfig, RunningTask, TickResult, AiOrchestratorService,
}
use red_culture_service.Ai.Tasks.{take_next_task_locked}

abbrev pub max_attempts_from_retries : ℕ → ℕ
max_attempts_from_retries max_retries = (max_retries + 1) % 2 ^ 32

-- The flow after a task of its kind has succeeded with the text.
abbrev pub flow_after_success : AiTaskKind → String → AiInteractionFlow → AiInteractionFlow
flow_after_success generate_question text flow = record flow {
  generated_question = text;
  stage = waiting_answer;
}
flow_after_success generate_explanation text flow = record flow {
  generated_explanation = text;
  stage = completed;
}
flow_after_success generate_hint text flow = flow

abbrev pub flow_after_failure : AiTask → AiInteractionFlow → AiInteractionFlow
flow_after_failure task flow = record flow { stage = broken; error = task.last_error }

-- The two tests on the status, by its value.
abbrev pub flow_after :
    AiTaskStatus → Option AiResponse → AiTask → AiInteractionFlow → AiInteractionFlow
flow_after succeeded (some response) task flow = flow_after_success task.kind response.text flow
flow_after failed response task flow = flow_after_failure task flow
flow_after timed_out response task flow = flow_after_failure task flow
flow_after status response task flow = flow

unfoldable pub update_flow_after_task_locked :
    AiOrchestratorService → AiTask → ℕ → AiOrchestratorService
update_flow_after_task_locked s task now = elim task.flow_id [
  | none ↦ s
  | some flow_id ↦ elim (lookup ℕ_discrete flow_id s.flows) [
    | none ↦ s
    | some flow ↦
        let flow1 = record flow { updated_at = now } in
        record s {
          flows =
              insert ℕ_discrete flow_id (flow_after task.status task.response task flow1) s.flows;
        }
  ]
]

-- The response that counts: one that came too late is a failure.
unfoldable pub checked_response : AiOrchestratorConfig → AiResponse → ℕ → AiResponse
checked_response config response elapsed =
    if ltb config.request_timeout elapsed
    then record response { ok = false; error = "AI request timed out" }
    else response

abbrev pub succeeded_task : AiTask → AiResponse → ℕ → AiTask
succeeded_task task response now = record task {
  status = succeeded;
  response = some response;
  last_error = "";
  updated_at = now;
}

-- `last_error` and `response` of a task whose attempt has failed.
abbrev pub unanswered_task : AiTask → AiResponse → AiTask
unanswered_task task response = record task {
  last_error = if is_empty response.error then "AI request failed" else response.error;
  response = some response;
}

abbrev pub requeued_task : AiOrchestratorConfig → AiTask → AiResponse → ℕ → AiTask
requeued_task config task response now = record (unanswered_task task response) {
  status = queued;
  next_attempt_at = now + config.retry_backoff * task.attempts * ns_per_ms;
  updated_at = now;
}

abbrev pub ended_task : AiTask → AiResponse → Bool → ℕ → AiTask
ended_task task response late now = record (unanswered_task task response) {
  status = if late then timed_out else failed;
  updated_at = now;
}

-- The task is a reference into `tasks_`: it is written back before the flow is updated.
abbrev pub store_task : AiOrchestratorService → ℕ → AiTask → AiOrchestratorService
store_task s id task = record s { tasks = insert ℕ_discrete id task s.tasks }

unfoldable pub finish_found :
    AiOrchestratorService
    → ℕ
    → AiTask
    → AiResponse
    → ℕ
    → ℕ
    → TickResult
    → AiOrchestratorService × TickResult
unfolding checked_response update_flow_after_task_locked
finish_found s id task response elapsed now result =
    let response' = checked_response s.config response elapsed in
    let late = ltb s.config.request_timeout elapsed in
    let done = succeeded_task task response' now in
    let again = requeued_task s.config task response' now in
    let ended = ended_task task response' late now in
    if response'.ok
    then (
      update_flow_after_task_locked (store_task s id done) done now,
      record result { succeeded_tasks = result.succeeded_tasks ++ (done ∷ []) },
    )
    else if ltb task.attempts (max_attempts_from_retries s.config.max_retries)
    then (store_task s id again, record result { retry_tasks = result.retry_tasks ++ (again ∷ []) })
    else (
      update_flow_after_task_locked (store_task s id ended) ended now,
      record result { failed_tasks = result.failed_tasks ++ (ended ∷ []) },
    )

-- `none` is the exception of `tasks_.at`. `elapsed` is in milliseconds.
unfoldable pub finish_task_locked :
    AiOrchestratorService
    → RunningTask
    → AiResponse
    → ℕ
    → ℕ
    → TickResult
    → Option (AiOrchestratorService × TickResult)
unfolding finish_found
finish_task_locked s run response elapsed now result =
    elim (lookup ℕ_discrete run.task.id s.tasks) [
      | none ↦ none
      | some task ↦ some (finish_found s run.task.id task response elapsed now result)
    ]

-- Without a client the response is a failure.
unfoldable pub call_client : Option (AiRequest → AiResponse) → AiRequest → AiResponse
call_client none request = record {
  ok = false;
  text = "";
  error = "AI client is not configured";
  metadata = [];
}
call_client (some client) request = client request

-- The readings of the clock in one turn of the loop.
pub record TurnTimes : Type 0 where
  pub taken_at : ℕ
  pub started_at : ℕ
  pub ended_at : ℕ
  pub finished_at : ℕ

abbrev pub nothing_done : TickResult
nothing_done = record { succeeded_tasks = []; retry_tasks = []; failed_tasks = [] }

unfoldable pub tick_loop :
    ℕ
    → (ℕ → TurnTimes)
    → AiOrchestratorService
    → TickResult
    → Option (AiOrchestratorService × TickResult)
unfolding take_next_task_locked call_client finish_task_locked
tick_loop zero clock s result = some (s, result)
tick_loop (suc n) clock s result =
    let taken = take_next_task_locked s (clock 0).taken_at in
    let elapsed = ((clock 0).ended_at - (clock 0).started_at) / ns_per_ms in
    elim taken.1 [
      | none ↦ some (taken.0, result)
      | some run ↦
          let response = call_client taken.0.client run.request in
          elim (finish_task_locked taken.0 run response elapsed (clock 0).finished_at result) [
            | none ↦ none
            | some (s', result') ↦ tick_loop n (λ i. clock (suc i)) s' result'
          ]
    ]

unfoldable pub tick :
    AiOrchestratorService → ℕ → (ℕ → TurnTimes) → Option (AiOrchestratorService × TickResult)
unfolding tick_loop
tick s max_tasks clock = tick_loop max_tasks clock s nothing_done
