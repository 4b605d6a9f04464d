-- ===== src/Ai/Steps.antt =====
-- Histories of `AiOrchestratorService`: calls of its operations and the locked parts of any number of
-- running `tick`s, in any order.
use red_culture_service.Common.{
  ℕ, ◌+◌, ◌<◌, ◌^◌, ◌≡◌, refl, inl, inr, String, List, [], ◌∷◌, Option, none, some, ℕ_discrete,
  u64_mod, arith, sym, subst, Bool-cases, Option-cases, In, is_empty,
}
use red_culture_service.Common.Map.{lookup, size, IsMap}
use red_culture_service.Ai.Types.{
  AiTaskKind, AiContext, AiRequest, AiResponse, RunningTask, TickResult, TriggerRule, TriggerEvent,
  AiOrchestratorConfig, AiInteractionFlow, AiOrchestratorService,
}
use red_culture_service.Ai.Tasks.{
  start_question_flow, submit_answer, enqueue_task, cancel_task, select_next, started,
  take_next_task_locked,
}
use red_culture_service.Ai.Finish.{finish_task_locked, finish_found, store_task}
use red_culture_service.Ai.Triggers.{
  set_client, register_trigger_rule, remove_trigger_rule, handle_trigger_event,
}
use red_culture_service.Ai.Invariant.{Inv, same_tables-Inv}
use red_culture_service.Ai.Triggered.{handle_trigger_event-Inv}
use red_culture_service.Ai.Stages.{Moves, Moves-refl, Moves-trans}
use red_culture_service.Ai.Queue.{enqueue_task-Inv, cancel_task-Inv}
use red_culture_service.Ai.Flows.{start_question_flow-Inv, submit_answer-Inv}
use red_culture_service.Ai.Turns.{select_next-stored, take_task-Inv, back}
use red_culture_service.Ai.Ends.{finish_found-Inv}

-- The service, and the ids of the tasks whose request is with the client.
pub record Machine : Type 0 where
  pub service : AiOrchestratorService
  pub in_flight : List ℕ

abbrev pub new_service :
    Option (AiRequest → AiResponse) → AiOrchestratorConfig → AiOrchestratorService
new_service client config = record {
  config = config;
  client = client;
  next_task_id = 1;
  next_flow_id = 1;
  tasks = [];
  flows = [];
  trigger_rules = [];
  last_triggered_at = [];
}

-- The request of the task that is taken goes to the client.
unfoldable pub taken : Machine → ℕ → Machine
taken m now =
    let (s, run) = take_next_task_locked m.service now in
    elim run [
      | none ↦ record { service = s; in_flight = m.in_flight }
      | some run ↦ record { service = s; in_flight = run.task.id ∷ m.in_flight }
    ]

-- The task and flow ids last for one more call.
abbrev pub IsLasting : Machine → Type 0
IsLasting m =
    (m.service.next_task_id + size m.service.trigger_rules + 1 < u64_mod)
    × (m.service.next_flow_id + 1 < u64_mod)

pub data Step : Machine → Machine → Type 0 where
  starts :
      (m : Machine) (context : AiContext) (question explanation : String) (now : ℕ)
      → IsLasting m
      → Step m (record m {
        service = (start_question_flow m.service context question explanation now).0;
      })
  submits :
      (m : Machine) (flow_id : ℕ) (answer : String) (now : ℕ)
      → IsLasting m
      → Step m (record m { service = (submit_answer m.service flow_id answer now).0 })
  enqueues :
      (m : Machine) (kind : AiTaskKind) (context : AiContext) (prompt : String) (now : ℕ)
      → IsLasting m
      → Step m (record m { service = (enqueue_task m.service kind context prompt now).0 })
  cancels :
      (m : Machine) (id now : ℕ) → Step m (record m { service = (cancel_task m.service id now).0 })
  triggers :
      (m : Machine) (event : TriggerEvent) (now : ℕ)
      → IsLasting m
      → Step m (record m { service = (handle_trigger_event m.service event now).0 })
  registers :
      (m : Machine) (rule : TriggerRule)
      → Step m (record m { service = (register_trigger_rule m.service rule).0 })
  removes :
      (m : Machine) (rule_id : String)
      → Step m (record m { service = (remove_trigger_rule m.service rule_id).0 })
  sets_client :
      (m : Machine) (client : Option (AiRequest → AiResponse))
      → Step m (record m { service = set_client m.service client })
  takes : (m : Machine) (now : ℕ) → Step m (taken m now)
  ends :
      (m : Machine) (run : RunningTask) (response : AiResponse) (elapsed now : ℕ)
      (result result' : TickResult) (s' : AiOrchestratorService)
      → In run.task.id m.in_flight
      → finish_task_locked m.service run response elapsed now result ≡ some (s', result')
      → Step m (record { service = s'; in_flight = back run.task.id m.in_flight })

pub data Reach : Machine → Machine → Type 0 where
  stop : {m : Machine} → Reach m m
  step : {m n o : Machine} → Step m n → Reach n o → Reach m o

pub Reach-trans : {m n o : Machine} → Reach m n → Reach n o → Reach m o
Reach-trans stop q = q
Reach-trans (step e p) q = step e (Reach-trans p q)

abbrev pub IsSound : Machine → Type 0
IsSound m = Inv m.service m.in_flight

-- A flow that no call touches stays in its stage.
same_flows : {l l' : List (ℕ × AiInteractionFlow)} → l' ≡ l → Moves l l'
same_flows {l} q = subst (Moves l) (sym q) (Moves-refl l)

register-Inv :
    (s : AiOrchestratorService) (in_flight : List ℕ) (rule : TriggerRule)
    → Inv s in_flight
    → let s' = (register_trigger_rule s rule).0 in Inv s' in_flight × Moves s.flows s'.flows
unfolding register_trigger_rule
register-Inv s in_flight rule v = elim (Bool-cases (is_empty rule.id)) [
  | inl e ↦ rw e (v, Moves-refl s.flows)
  | inr e ↦ rw e (same_tables-Inv s _ in_flight v refl refl refl refl refl, Moves-refl s.flows)
]

taken-Inv :
    (m : Machine) (now : ℕ)
    → IsSound m
    → IsSound (taken m now) × Moves m.service.flows (taken m now).service.flows
unfolding taken take_next_task_locked started
taken-Inv m now v = elim (Option-cases (select_next now m.service.tasks)) [
  | inl e ↦ rw (e, taken, take_next_task_locked, e) (v, Moves-refl m.service.flows)
  | inr ((id, task), e) ↦
      let (stored, waits) = select_next-stored m.service m.in_flight now id task v e in
      let named = (v.tasks id task stored).named in
      rw (e, taken, take_next_task_locked, e)
        (
          subst (λ i. Inv (store_task m.service id (started task now)) (i ∷ m.in_flight))
              (sym named) (take_task-Inv m.service m.in_flight now id task v stored waits),
          Moves-refl m.service.flows,
        )
]

-- `tasks_.at` finds a task that has come back: its end does not throw.
pub finish_returns :
    (s : AiOrchestratorService) (in_flight : List ℕ) (run : RunningTask) (response : AiResponse)
    (elapsed now : ℕ) (result : TickResult)
    → Inv s in_flight
    → In run.task.id in_flight
    → (s' : AiOrchestratorService) × (result' : TickResult) × (finish_task_locked s run response
          elapsed now result
        ≡ some (s', result'))
      × Inv s' (back run.task.id in_flight)
      × Moves s.flows s'.flows
unfolding finish_task_locked
finish_returns s in_flight run response elapsed now result v out =
    let (task, stored, is_out) = v.away run.task.id out in
    let named = (v.tasks run.task.id task stored).named in
    let ended = finish_found s run.task.id task response elapsed now result in
    let kept =
      subst
        (λ i.
          Inv (finish_found s i task response elapsed now result).0 (back i in_flight)
          × Moves s.flows (finish_found s i task response elapsed now result).0.flows)
        named
        (finish_found-Inv s in_flight task response elapsed now result v
          (subst (λ i. lookup ℕ_discrete i s.tasks ≡ some task) (sym named) stored)
          (subst (λ i. In i in_flight) (sym named) out)) in
    (ended.0, ended.1, rw (stored, finish_task_locked) refl, kept.0, kept.1)

-- Each call and each locked part of a `tick` keeps the invariant, and moves the flows only along the
-- diagram.
pub Step-IsSound :
    {m n : Machine} → Step m n → IsSound m → IsSound n × Moves m.service.flows n.service.flows
unfolding enqueue_task set_client remove_trigger_rule
Step-IsSound (starts m context question explanation now (lasts, last)) v =
    start_question_flow-Inv m.service m.in_flight context question explanation now v (omega arith)
      last
Step-IsSound (submits m flow_id answer now (lasts, last)) v =
    submit_answer-Inv m.service m.in_flight flow_id answer now v (omega arith)
Step-IsSound (enqueues m kind context prompt now (lasts, last)) v =
    let (v', q) = enqueue_task-Inv m.service m.in_flight kind context prompt now v (omega arith) in
    (v', same_flows q)
Step-IsSound (cancels m id now) v =
    let (v', q) = cancel_task-Inv m.service m.in_flight id now v in (v', same_flows q)
Step-IsSound (triggers m event now (lasts, last)) v =
    let (v', q) = handle_trigger_event-Inv m.service m.in_flight event now v lasts in
    (v', same_flows q)
Step-IsSound (registers m rule) v = register-Inv m.service m.in_flight rule v
Step-IsSound (removes m rule_id) v =
    (same_tables-Inv m.service _ m.in_flight v refl refl refl refl refl, Moves-refl m.service.flows)
Step-IsSound (sets_client m client) v =
    (same_tables-Inv m.service _ m.in_flight v refl refl refl refl refl, Moves-refl m.service.flows)
Step-IsSound (takes m now) v = taken-Inv m now v
Step-IsSound (ends m run response elapsed now result result' s' out e) v =
    let (s'', result'', f, w, moved) =
      finish_returns m.service m.in_flight run response elapsed now result v out in
    let same : s'' ≡ s' = cc in
    subst (λ s. Inv s (back run.task.id m.in_flight) × Moves m.service.flows s.flows) same
      (w, moved)

-- If the invariant holds, then after any sequence of calls and of the locked parts of any number of
-- running `tick`s, while the ids last, the invariant holds: no task is tried more often than the
-- retries allow, a queued task has an attempt left, the tasks that are with the client are stored
-- and no longer queued, and while a task of a flow can still end, its flow names it and is in the
-- stage of its kind. Every flow is still there, in its stage or in one that the diagram of the
-- stages leads to.
pub Reach-IsSound :
    {m n : Machine} → Reach m n → IsSound m → IsSound n × Moves m.service.flows n.service.flows
Reach-IsSound {m} stop v = (v, Moves-refl m.service.flows)
Reach-IsSound {m} {n = o} (step {n = n} e p) v =
    let (v', moved) = Step-IsSound e v in
    let (v'', moved') = Reach-IsSound p v' in
    (v'', Moves-trans m.service.flows n.service.flows o.service.flows moved moved')

pub new_service-Inv :
    (client : Option (AiRequest → AiResponse)) (config : AiOrchestratorConfig)
    → config.max_retries + 1 < 2 ^ 32
    → Inv (new_service client config) []
unfolding lookup IsMap
new_service-Inv client config unwrapped = record {
  unwrapped = unwrapped;
  mapped = tt;
  tasks = λ id task e. cc;
  flows = λ i flow e. cc;
  away = λ id i. absurd i;
}
