-- ===== src/Ai/Triggers.antt =====
-- The rules of src/ai_orchestrator/ai_orchestrator_service.cpp that turn events into tasks.
use Prim.Native.String.{◌++◌ as str_append}
use red_culture_service.Common.{
  ℕ, ◌+◌, ◌*◌, String, Bool, true, false, not, ◌&&◌, ◌||◌, List, [], ◌∷◌, Option, none, some,
  str_dec, same, is_empty, is_some, ltb, if◌then◌else◌, ite, ns_per_ms,
}
use red_culture_service.Common.Map.{lookup, insert, erase}
use red_culture_service.Common.Text.{to_string}
use red_culture_service.Ai.Types.{
  TriggerType-discrete, TriggerEvent, TriggerRule, AiContext, AiTask, AiRequest, AiResponse,
  AiOrchestratorService,
}
use red_culture_service.Ai.Tasks.{enqueue_task_locked, task_of}

unfoldable pub set_client :
    AiOrchestratorService → Option (AiRequest → AiResponse) → AiOrchestratorService
set_client s client = record s { client = client }

unfoldable pub register_trigger_rule :
    AiOrchestratorService → TriggerRule → AiOrchestratorService × Bool
register_trigger_rule s rule =
    if is_empty rule.id
    then (s, false)
    else (record s { trigger_rules = insert str_dec rule.id rule s.trigger_rules }, true)

unfoldable pub remove_trigger_rule : AiOrchestratorService → String → AiOrchestratorService × Bool
remove_trigger_rule s rule_id = (
  record s { trigger_rules = erase str_dec rule_id s.trigger_rules },
  is_some (lookup str_dec rule_id s.trigger_rules),
)

unfoldable pub rule_matches_event : TriggerRule → TriggerEvent → Bool
unfolding TriggerType-discrete
rule_matches_event rule event =
    if not rule.enabled || not (ite (TriggerType-discrete rule.type event.type) true false)
    then false
    else if not (is_empty rule.scene_id) && not (same rule.scene_id event.context.scene_id)
    then false
    else true

unfoldable pub trigger_cooldown_key : TriggerRule → TriggerEvent → String
unfolding to_string
trigger_cooldown_key rule event =
    let colon = λ (s t : String). str_append s (str_append ":" t) in
    colon rule.id (
      colon (to_string event.context.room_id)
        (colon event.context.player_id event.context.scene_id))

-- `cooldown_it != end && now - cooldown_it->second < rule.cooldown`
abbrev pub is_cooling : Option ℕ → TriggerRule → ℕ → Bool
is_cooling none rule now = false
is_cooling (some last) rule now = ltb now (last + rule.cooldown * ns_per_ms)

abbrev pub context_for : TriggerRule → AiContext → AiContext
context_for rule context =
    if is_empty rule.topic then context else record context { topic = rule.topic }

-- One turn of the loop over the rules.
unfoldable pub trigger_one :
    AiOrchestratorService → TriggerRule → TriggerEvent → ℕ → AiOrchestratorService × Option AiTask
unfolding rule_matches_event trigger_cooldown_key enqueue_task_locked
trigger_one s rule event now =
    let key = trigger_cooldown_key rule event in
    let enqueued =
      enqueue_task_locked s rule.task_kind (context_for rule event.context) rule.prompt_template
        none now in
    if not (rule_matches_event rule event)
    then (s, none)
    else if is_cooling (lookup str_dec key s.last_triggered_at) rule now
    then (s, none)
    else elim (task_of enqueued.1) [
      | none ↦ (enqueued.0, none)
      | some task ↦ (
        record (enqueued.0) {
          last_triggered_at = insert str_dec key now (enqueued.0).last_triggered_at;
        },
        some task,
      )
    ]

abbrev pub push_some : Option AiTask → List AiTask → List AiTask
push_some none tasks = tasks
push_some (some task) tasks = task ∷ tasks

unfoldable pub trigger_loop :
    AiOrchestratorService
    → List (String × TriggerRule)
    → TriggerEvent
    → ℕ
    → AiOrchestratorService × List AiTask
unfolding trigger_one
trigger_loop s [] event now = (s, [])
trigger_loop s ((_, rule) ∷ rules) event now =
    let (s1, made) = trigger_one s rule event now in
    let (s2, tasks) = trigger_loop s1 rules event now in (s2, push_some made tasks)

unfoldable pub handle_trigger_event :
    AiOrchestratorService → TriggerEvent → ℕ → AiOrchestratorService × List AiTask
unfolding trigger_loop
handle_trigger_event s event now = trigger_loop s s.trigger_rules event now
