-- ===== src/Ai/Invariant.antt =====
-- The invariant of `AiOrchestratorService`, with the ids of the tasks whose request is with the
-- client: each call of `tick` keeps one in its local `running` while the mutex is released.
use red_culture_service.Common.{
  ℕ, ◌+◌, ◌≤◌, ◌<◌, ◌^◌, ◌≡◌, ◌≢◌, refl, inl, inr, ◌⊎◌, Bool, true, false, List, Option, none, some,
  ℕ_discrete, arith, sym, ap, ◌∙◌, subst, In,
}
use red_culture_service.Common.Map.{
  lookup, insert, IsMap, insert-IsMap, lookup-insert_cases, lookup-insert_same, lookup-insert_ne,
}
use red_culture_service.Ai.Types.{
  AiTaskKind, generate_question, generate_explanation, generate_hint, AiTaskStatus, queued, running,
  canceled, AiFlowStage, generating_question, generating_explanation, AiTask, AiInteractionFlow,
  AiOrchestratorService,
}

-- The stage in which a flow waits for a task of the kind, and where it names the task.
abbrev pub awaiting : AiTaskKind → Option AiFlowStage
awaiting generate_question = some generating_question
awaiting generate_explanation = some generating_explanation
awaiting generate_hint = none

abbrev pub awaited : AiTaskKind → AiInteractionFlow → ℕ
awaited generate_question flow = flow.question_task_id
awaited generate_explanation flow = flow.explanation_task_id
awaited generate_hint flow = 0

abbrev pub is_away : AiTaskStatus → Bool
is_away running = true
is_away canceled = true
is_away _ = false

-- The flow stored under `i` waits for the task.
abbrev pub IsAwaited : List (ℕ × AiInteractionFlow) → ℕ → AiTask → Type 0
IsAwaited flows i task =
    (flow : AiInteractionFlow) × (lookup ℕ_discrete i flows ≡ some flow)
    × (awaiting task.kind ≡ some flow.stage)
    × (awaited task.kind flow ≡ task.id)

-- A task that can still end: it is in the queue, or its request is with the client.
abbrev pub IsLive : List ℕ → AiTask → Type 0
IsLive in_flight task = (task.status ≡ queued) ⊎ In task.id in_flight

-- A task stored under `id`: it is older than the next id, its attempts are within the limit with one
-- left while it is queued, and while it can still end its flow waits for it.
pub record GoodTask (s : AiOrchestratorService) (in_flight : List ℕ) (id : ℕ) (task : AiTask)
    : Type 0 where
  pub named : task.id ≡ id
  pub older : id < s.next_task_id
  pub bounded : task.attempts ≤ s.config.max_retries + 1
  pub left : task.status ≡ queued → task.attempts < s.config.max_retries + 1
  pub linked : (i : ℕ) → IsLive in_flight task → task.flow_id ≡ some i → IsAwaited s.flows i task

pub record Inv (s : AiOrchestratorService) (in_flight : List ℕ) : Type 0 where
  pub unwrapped : s.config.max_retries + 1 < 2 ^ 32
  pub mapped : IsMap ℕ_discrete s.tasks
  pub tasks :
      (id : ℕ) (task : AiTask)
      → lookup ℕ_discrete id s.tasks ≡ some task
      → GoodTask s in_flight id task
  pub flows :
      (i : ℕ) (flow : AiInteractionFlow)
      → lookup ℕ_discrete i s.flows ≡ some flow
      → (flow.id ≡ i) × (i < s.next_flow_id)
  pub away :
      (id : ℕ)
      → In id in_flight
      → (task : AiTask) × (lookup ℕ_discrete id s.tasks ≡ some task) × (is_away task.status ≡ true)

-- No task that can still end is of the flow.
abbrev pub IsUnawaited : AiOrchestratorService → List ℕ → ℕ → Type 0
IsUnawaited s in_flight i =
    (id : ℕ) (task : AiTask)
    → lookup ℕ_discrete id s.tasks ≡ some task
    → IsLive in_flight task
    → task.flow_id ≢ some i

-- A flow for which no task can still end may be written.
pub put_flow-Inv :
    (s : AiOrchestratorService) (in_flight : List ℕ) (flow : AiInteractionFlow) (next : ℕ)
    → Inv s in_flight
    → IsUnawaited s in_flight flow.id
    → s.next_flow_id ≤ next
    → flow.id < next
    → Inv
        (record s { flows = insert ℕ_discrete flow.id flow s.flows; next_flow_id = next })
        in_flight
put_flow-Inv s in_flight flow next v free le lt = record {
  unwrapped = v.unwrapped;
  mapped = v.mapped;
  tasks = λ id task e.
      let good = v.tasks id task e in
      record {
        named = good.named;
        older = good.older;
        bounded = good.bounded;
        left = good.left;
        linked = λ i live q.
            let (f, stored, stage, name) = good.linked i live q in
            let other : i ≢ flow.id = λ same. free id task e live (q ∙ ap some same) in
            (f, lookup-insert_ne ℕ_discrete i flow.id flow s.flows other ∙ stored, stage, name);
      };
  flows = λ i f e. elim (lookup-insert_cases ℕ_discrete i flow.id flow f s.flows e) [
    | inl (q, same) ↦ (ap (λ f. f.id) (sym same) ∙ q, subst (λ i. i < next) q lt)
    | inr (ne, old) ↦ let (named, older) = v.flows i f old in (named, omega arith)
  ];
  away = v.away;
}

-- A good task may be written, and the ids with the client change for no other task.
pub put_task-Inv :
    (s : AiOrchestratorService) (in_flight away : List ℕ) (task : AiTask) (next : ℕ)
    → Inv s in_flight
    → s.next_task_id ≤ next
    → GoodTask (record s { next_task_id = next }) away task.id task
    → ((id : ℕ) → id ≢ task.id → In id away → In id in_flight)
    → (In task.id away → is_away task.status ≡ true)
    → Inv (record s { tasks = insert ℕ_discrete task.id task s.tasks; next_task_id = next }) away
put_task-Inv s in_flight away task next v le good others own = record {
  unwrapped = v.unwrapped;
  mapped = insert-IsMap ℕ_discrete task.id task s.tasks v.mapped;
  tasks = λ id t e. elim (lookup-insert_cases ℕ_discrete id task.id task t s.tasks e) [
    | inl (q, same) ↦
        let at_id = subst (λ i. GoodTask (record s { next_task_id = next }) away i task) q good in
        let there = subst (λ t. GoodTask (record s { next_task_id = next }) away id t) same at_id in
        record {
          named = there.named;
          older = there.older;
          bounded = there.bounded;
          left = there.left;
          linked = there.linked;
        }
    | inr (ne, old) ↦
        let kept = v.tasks id t old in
        let named = kept.named in
        let older = kept.older in
        record {
          named = kept.named;
          older = omega arith;
          bounded = kept.bounded;
          left = kept.left;
          linked = λ i live q. elim live [
            | inl waits ↦ kept.linked i (inl waits) q
            | inr there ↦
                let other : t.id ≢ task.id = λ same. ne (sym named ∙ same) in
                kept.linked i (inr (others t.id other there)) q
          ];
        }
  ];
  flows = v.flows;
  away = λ id there. elim (ℕ_discrete id task.id) [
    | yes q ↦
        let here = subst (λ i. In i away) q there in
        (
          task,
          subst (λ i. lookup ℕ_discrete i (insert ℕ_discrete task.id task s.tasks) ≡ some task)
              (sym q) (lookup-insert_same ℕ_discrete task.id task s.tasks),
          own here,
        )
    | no ne ↦
        let (t, stored, is_out) = v.away id (others id ne there) in
        (t, lookup-insert_ne ℕ_discrete id task.id task s.tasks ne ∙ stored, is_out)
  ];
}

-- The stage tells the kind of the task.
awaiting-inj :
    (k k' : AiTaskKind) (stage : AiFlowStage)
    → awaiting k ≡ some stage
    → awaiting k' ≡ some stage
    → k ≡ k'
awaiting-inj generate_question generate_question stage q q' = refl
awaiting-inj generate_question generate_explanation stage q q' = cc
awaiting-inj generate_question generate_hint stage q q' = cc
awaiting-inj generate_explanation generate_question stage q q' = cc
awaiting-inj generate_explanation generate_explanation stage q q' = refl
awaiting-inj generate_explanation generate_hint stage q q' = cc
awaiting-inj generate_hint k' stage q q' = cc

-- Two tasks of one flow that can both still end are the same.
pub linked_unique :
    (s : AiOrchestratorService) (in_flight : List ℕ) (i id id' : ℕ) (task task' : AiTask)
    → Inv s in_flight
    → lookup ℕ_discrete id s.tasks ≡ some task
    → lookup ℕ_discrete id' s.tasks ≡ some task'
    → IsLive in_flight task
    → IsLive in_flight task'
    → task.flow_id ≡ some i
    → task'.flow_id ≡ some i
    → id ≡ id'
linked_unique s in_flight i id id' task task' v e e' live live' q q' =
    let good = v.tasks id task e in
    let good' = v.tasks id' task' e' in
    let (f, stored, stage, name) = good.linked i live q in
    let (f', stored', stage', name') = good'.linked i live' q' in
    let named = good.named in
    let named' = good'.named in
    let same_flow : f ≡ f' = cc in
    let same_kind : task.kind ≡ task'.kind =
      awaiting-inj task.kind task'.kind f.stage stage
        (stage' ∙ ap (λ f. some f.stage) (sym same_flow)) in
    let same_name : awaited task.kind f ≡ awaited task'.kind f' =
      ap (λ k. awaited k f) same_kind ∙ ap (λ f. awaited task'.kind f) same_flow in
    sym named ∙ sym name ∙ same_name ∙ name' ∙ named'

-- The rules and the client are no part of the invariant.
pub same_tables-Inv :
    (s s' : AiOrchestratorService) (in_flight : List ℕ)
    → Inv s in_flight
    → s'.config ≡ s.config
    → s'.next_task_id ≡ s.next_task_id
    → s'.next_flow_id ≡ s.next_flow_id
    → s'.tasks ≡ s.tasks
    → s'.flows ≡ s.flows
    → Inv s' in_flight
same_tables-Inv s s' in_flight v config task_id flow_id tasks flows =
    let shown : record s {
      config = s'.config;
      next_task_id = s'.next_task_id;
      next_flow_id = s'.next_flow_id;
      tasks = s'.tasks;
      flows = s'.flows;
    }
        ≡ s =
      rw (config, task_id, flow_id, tasks, flows) refl in
    let v' = subst (λ s. Inv s in_flight) (sym shown) v in
    record {
      unwrapped = v'.unwrapped;
      mapped = v'.mapped;
      tasks = λ id task e.
          let good = v'.tasks id task e in
          record {
            named = good.named;
            older = good.older;
            bounded = good.bounded;
            left = good.left;
            linked = good.linked;
          };
      flows = v'.flows;
      away = v'.away;
    }
