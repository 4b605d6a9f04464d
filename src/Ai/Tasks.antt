-- ===== src/Ai/Tasks.antt =====
-- The tasks and flows of src/ai_orchestrator/ai_orchestrator_service.cpp: `enqueueTask`,
-- `startQuestionFlow`, `submitAnswer`, `cancelTask`, the choice of the next task, and the queries.
use red_culture_service.Common.{
  ℕ, String, Bool, true, false, ◌&&◌, List, map, Option, none, some, ℕ_discrete, str_dec, is_empty,
  leb, if◌then◌else◌, count_if, inc_u64, inc_u32,
}
use red_culture_service.Common.Map.{lookup, insert, size}
use red_culture_service.Common.Selection.{select_oldest}
use red_culture_service.Ai.Types.{
  AiTaskKind, generate_question, generate_explanation, AiTaskStatus, queued, running, succeeded,
  failed, canceled, AiFlowStage, generating_question, waiting_answer, generating_explanation,
  broken, AiContext, AiRequest, AiTask, AiInteractionFlow, AiOrchestratorConfig, FlowResult,
  EnqueueResult, RunningTask, AiOrchestratorService,
}
use red_culture_service.Ai.Prompts.{render_prompt}

abbrev pub is_queued : AiTaskStatus → Bool
is_queued queued = true
is_queued _ = false

abbrev pub is_active : AiTaskStatus → Bool
is_active queued = true
is_active running = true
is_active _ = false

abbrev pub is_settled : AiTaskStatus → Bool
is_settled succeeded = true
is_settled failed = true
is_settled _ = false

abbrev pub is_waiting : AiFlowStage → Bool
is_waiting waiting_answer = true
is_waiting _ = false

-- `prompt_template` where it is empty
abbrev pub default_prompt : AiOrchestratorConfig → AiTaskKind → String
default_prompt config generate_explanation = config.default_explanation_prompt
default_prompt config _ = config.default_question_prompt

abbrev pub or_default : String → String → String
or_default text fallback = if is_empty text then fallback else text

abbrev pub active_task_count : AiOrchestratorService → ℕ
active_task_count s = count_if (λ e. is_active e.1.status) s.tasks

unfoldable pub new_task :
    AiOrchestratorService → AiTaskKind → AiContext → String → Option ℕ → ℕ → AiTask
unfolding render_prompt
new_task s kind context prompt_template flow_id now =
    let prompt = or_default prompt_template (default_prompt s.config kind) in
    record {
      id = s.next_task_id;
      flow_id = flow_id;
      kind = kind;
      status = queued;
      context = context;
      prompt_template = prompt;
      rendered_prompt = render_prompt prompt context;
      attempts = 0;
      last_error = "";
      response = none;
      created_at = now;
      updated_at = now;
      next_attempt_at = now;
    }

unfoldable pub enqueue_task_locked :
    AiOrchestratorService
    → AiTaskKind
    → AiContext
    → String
    → Option ℕ
    → ℕ
    → AiOrchestratorService × EnqueueResult
unfolding new_task
enqueue_task_locked s kind context prompt_template flow_id now =
    let task = new_task s kind context prompt_template flow_id now in
    if leb s.config.max_queued_tasks (active_task_count s)
    then (s, record { ok = false; error = "AI task queue is full"; task = none })
    else (
      record s {
        next_task_id = inc_u64 s.next_task_id;
        tasks = insert ℕ_discrete task.id task s.tasks;
      },
      record { ok = true; error = ""; task = some task },
    )

unfoldable pub enqueue_task :
    AiOrchestratorService
    → AiTaskKind
    → AiContext
    → String
    → ℕ
    → AiOrchestratorService × EnqueueResult
unfolding enqueue_task_locked
enqueue_task s kind context prompt_template now =
    enqueue_task_locked s kind context prompt_template none now

unfoldable pub new_flow :
    AiOrchestratorService → AiContext → String → String → ℕ → AiInteractionFlow
new_flow s context question_prompt_template explanation_prompt_template now = record {
  id = s.next_flow_id;
  stage = generating_question;
  context = context;
  question_task_id = 0;
  explanation_task_id = 0;
  question_prompt_template = or_default question_prompt_template s.config.default_question_prompt;
  explanation_prompt_template =
      or_default explanation_prompt_template s.config.default_explanation_prompt;
  generated_question = "";
  submitted_answer = "";
  generated_explanation = "";
  error = "";
  created_at = now;
  updated_at = now;
}

-- The task of a result that is `ok` and has one.
abbrev pub task_of : EnqueueResult → Option AiTask
task_of enqueue = if enqueue.ok then enqueue.task else none

unfoldable pub start_question_flow :
    AiOrchestratorService → AiContext → String → String → ℕ → AiOrchestratorService × FlowResult
unfolding new_flow enqueue_task_locked
start_question_flow s context question_prompt_template explanation_prompt_template now =
    let flow = new_flow s context question_prompt_template explanation_prompt_template now in
    let s1 = record s { next_flow_id = inc_u64 s.next_flow_id } in
    let enqueued =
      enqueue_task_locked s1 generate_question flow.context flow.question_prompt_template
        (some flow.id) now in
    elim (task_of enqueued.1) [
      | none ↦ (enqueued.0, record { ok = false; error = enqueued.1.error; flow = none })
      | some task ↦
          let flow' = record flow { question_task_id = task.id } in
          (
            record (enqueued.0) { flows = insert ℕ_discrete flow'.id flow' (enqueued.0).flows },
            record { ok = true; error = ""; flow = some flow' },
          )
    ]

-- The flow with the answer in it, before the task is queued.
unfoldable pub answered : AiInteractionFlow → String → ℕ → AiInteractionFlow
answered flow answer now = record flow {
  submitted_answer = answer;
  context = record (flow.context) {
    user_input = answer;
    metadata = insert str_dec "question" flow.generated_question flow.context.metadata;
  };
  stage = generating_explanation;
  updated_at = now;
}

unfoldable pub submit_found :
    AiOrchestratorService → ℕ → AiInteractionFlow → String → ℕ → AiOrchestratorService × FlowResult
unfolding answered enqueue_task_locked
submit_found s flow_id flow answer now =
    let flow1 = answered flow answer now in
    let enqueued =
      enqueue_task_locked s generate_explanation flow1.context flow1.explanation_prompt_template
        (some flow1.id) now in
    elim (task_of enqueued.1) [
      | none ↦
          let flow2 = record flow1 { stage = broken; error = enqueued.1.error } in
          (
            record (enqueued.0) { flows = insert ℕ_discrete flow_id flow2 (enqueued.0).flows },
            record { ok = false; error = enqueued.1.error; flow = some flow2 },
          )
      | some task ↦
          let flow2 = record flow1 { explanation_task_id = task.id } in
          (
            record (enqueued.0) { flows = insert ℕ_discrete flow_id flow2 (enqueued.0).flows },
            record { ok = true; error = ""; flow = some flow2 },
          )
    ]

unfoldable pub submit_answer :
    AiOrchestratorService → ℕ → String → ℕ → AiOrchestratorService × FlowResult
unfolding submit_found
submit_answer s flow_id answer now = elim (lookup ℕ_discrete flow_id s.flows) [
  | none ↦ (s, record { ok = false; error = "flow not found"; flow = none })
  | some flow ↦
      if is_waiting flow.stage
      then submit_found s flow_id flow answer now
      else (s, record { ok = false; error = "flow is not waiting for answer"; flow = some flow })
]

unfoldable pub cancel_task : AiOrchestratorService → ℕ → ℕ → AiOrchestratorService × Bool
cancel_task s task_id now = elim (lookup ℕ_discrete task_id s.tasks) [
  | none ↦ (s, false)
  | some task ↦ if is_settled task.status then (s, false) else (
    record s {
      tasks =
          insert ℕ_discrete task_id (record task { status = canceled; updated_at = now }) s.tasks;
    },
    true,
  )
]

-- `task.status != queued || task.next_attempt_at > now` passes an entry over.
abbrev pub is_due : ℕ → AiTask → Bool
is_due now task = is_queued task.status && leb task.next_attempt_at now

unfoldable pub select_next : ℕ → List (ℕ × AiTask) → Option (ℕ × AiTask)
unfolding select_oldest
select_next now tasks = select_oldest (is_due now) (λ task. task.created_at) none tasks

unfoldable pub started : AiTask → ℕ → AiTask
unfolding inc_u32
started task now = record task {
  status = running;
  updated_at = now;
  attempts = inc_u32 task.attempts;
}

abbrev pub request_of : AiTask → AiRequest
request_of task = record {
  task_id = task.id;
  kind = task.kind;
  context = task.context;
  prompt = task.rendered_prompt;
  attempt = task.attempts;
}

unfoldable pub take_next_task_locked :
    AiOrchestratorService → ℕ → AiOrchestratorService × Option RunningTask
unfolding select_next started
take_next_task_locked s now = elim (select_next now s.tasks) [
  | none ↦ (s, none)
  | some (id, old) ↦
      let task = started old now in
      (
        record s { tasks = insert ℕ_discrete id task s.tasks },
        some (record { task = task; request = request_of task }),
      )
]

unfoldable pub find_task : AiOrchestratorService → ℕ → Option AiTask
find_task s id = lookup ℕ_discrete id s.tasks

unfoldable pub find_flow : AiOrchestratorService → ℕ → Option AiInteractionFlow
find_flow s id = lookup ℕ_discrete id s.flows

unfoldable pub list_tasks : AiOrchestratorService → List AiTask
list_tasks s = map (λ e. e.1) s.tasks

unfoldable pub list_flows : AiOrchestratorService → List AiInteractionFlow
list_flows s = map (λ e. e.1) s.flows

unfoldable pub queued_task_count : AiOrchestratorService → ℕ
queued_task_count s = count_if (λ e. is_queued e.1.status) s.tasks

unfoldable pub flow_count : AiOrchestratorService → ℕ
flow_count s = size s.flows
