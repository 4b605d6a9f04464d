-- ===== src/Ai/Types.antt =====
-- The enums and structs of include/rcs/ai_orchestrator/ai_orchestrator_service.hpp, and the four
-- `toString` functions. Times are readings of the steady clock in nanoseconds; the durations of the
-- configuration and of a rule are in milliseconds.
use red_culture_service.Common.{ℕ, String, Bool, List, Option}

pub data TriggerType : Type 0 where
  manual enter_area answer_submitted progress_updated : TriggerType

pub data AiTaskKind : Type 0 where
  generate_question generate_explanation generate_hint : AiTaskKind

pub data AiTaskStatus : Type 0 where
  queued running succeeded failed timed_out canceled : AiTaskStatus

pub data AiFlowStage : Type 0 where
  generating_question waiting_answer generating_explanation completed broken : AiFlowStage

unfoldable pub TriggerType-discrete : Discrete TriggerType
TriggerType-discrete = hlevel

abbrev pub trigger_name : TriggerType → String
trigger_name manual = "manual"
trigger_name enter_area = "enter_area"
trigger_name answer_submitted = "answer_submitted"
trigger_name progress_updated = "progress_updated"

abbrev pub kind_name : AiTaskKind → String
kind_name generate_question = "generate_question"
kind_name generate_explanation = "generate_explanation"
kind_name generate_hint = "generate_hint"

abbrev pub status_name : AiTaskStatus → String
status_name queued = "queued"
status_name running = "running"
status_name succeeded = "succeeded"
status_name failed = "failed"
status_name timed_out = "timed_out"
status_name canceled = "canceled"

-- `broken` is the stage `failed`.
abbrev pub stage_name : AiFlowStage → String
stage_name generating_question = "generating_question"
stage_name waiting_answer = "waiting_answer"
stage_name generating_explanation = "generating_explanation"
stage_name completed = "completed"
stage_name broken = "failed"

pub record AiContext : Type 0 where
  pub room_id : ℕ
  pub player_id : String
  pub scene_id : String
  pub topic : String
  pub user_input : String
  pub metadata : List (String × String)

pub record TriggerEvent : Type 0 where
  pub type : TriggerType
  pub context : AiContext

pub record TriggerRule : Type 0 where
  pub id : String
  pub type : TriggerType
  pub scene_id : String
  pub topic : String
  pub task_kind : AiTaskKind
  pub prompt_template : String
  pub cooldown : ℕ
  pub enabled : Bool

pub record AiRequest : Type 0 where
  pub task_id : ℕ
  pub kind : AiTaskKind
  pub context : AiContext
  pub prompt : String
  pub attempt : ℕ

pub record AiResponse : Type 0 where
  pub ok : Bool
  pub text : String
  pub error : String
  pub metadata : List (String × String)

pub record AiTask : Type 0 where
  pub id : ℕ
  pub flow_id : Option ℕ
  pub kind : AiTaskKind
  pub status : AiTaskStatus
  pub context : AiContext
  pub prompt_template : String
  pub rendered_prompt : String
  pub attempts : ℕ
  pub last_error : String
  pub response : Option AiResponse
  pub created_at : ℕ
  pub updated_at : ℕ
  pub next_attempt_at : ℕ

pub record AiInteractionFlow : Type 0 where
  pub id : ℕ
  pub stage : AiFlowStage
  pub context : AiContext
  pub question_task_id : ℕ
  pub explanation_task_id : ℕ
  pub question_prompt_template : String
  pub explanation_prompt_template : String
  pub generated_question : String
  pub submitted_answer : String
  pub generated_explanation : String
  pub error : String
  pub created_at : ℕ
  pub updated_at : ℕ

pub record AiOrchestratorConfig : Type 0 where
  pub max_retries : ℕ
  pub request_timeout : ℕ
  pub retry_backoff : ℕ
  pub max_queued_tasks : ℕ
  pub default_question_prompt : String
  pub default_explanation_prompt : String

pub record FlowResult : Type 0 where
  pub ok : Bool
  pub error : String
  pub flow : Option AiInteractionFlow

pub record EnqueueResult : Type 0 where
  pub ok : Bool
  pub error : String
  pub task : Option AiTask

pub record TickResult : Type 0 where
  pub succeeded_tasks : List AiTask
  pub retry_tasks : List AiTask
  pub failed_tasks : List AiTask

pub record RunningTask : Type 0 where
  pub task : AiTask
  pub request : AiRequest

-- The private members of `AiOrchestratorService`. Its mutex makes each locked part of an operation
-- atomic. The client is the callback of `IAiClient`.
pub record AiOrchestratorService : Type 0 where
  pub config : AiOrchestratorConfig
  pub client : Option (AiRequest → AiResponse)
  pub next_task_id : ℕ
  pub next_flow_id : ℕ
  pub tasks : List (ℕ × AiTask)
  pub flows : List (ℕ × AiInteractionFlow)
  pub trigger_rules : List (String × TriggerRule)
  pub last_triggered_at : List (String × ℕ)
