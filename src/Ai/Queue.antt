-- ===== src/Ai/Queue.antt =====
-- The calls of `AiOrchestratorService` that queue and cancel tasks keep the invariant, and move the
-- flows along the diagram.
use red_culture_service.Common.{
  ℕ, ◌+◌, ◌<◌, ◌≡◌, ◌≢◌, refl, inl, inr, ◌⊎◌, String, true, false, List, Option, none, some,
  ℕ_discrete, leb, u64_mod, inc_u64, inc_u64_lem, arith, subst, Bool-cases, Option-cases,
}
use red_culture_service.Common.Map.{lookup, insert}
use red_culture_service.Ai.Types.{
  AiTaskKind, queued, canceled, AiContext, AiTask, AiInteractionFlow, AiOrchestratorService,
}
use red_culture_service.Ai.Tasks.{
  new_task, enqueue_task_locked, cancel_task, active_task_count, is_settled,
}
use red_culture_service.Ai.Invariant.{Inv, IsAwaited, IsUnawaited, awaiting, put_task-Inv}

-- A flow in the stage is in none in which a task can still end.
pub unawaited :
    (s : AiOrchestratorService) (in_flight : List ℕ) (i : ℕ)
    → Inv s in_flight
    → ((flow : AiInteractionFlow)
        → lookup ℕ_discrete i s.flows ≡ some flow
        → (k : AiTaskKind) → awaiting k ≢ some flow.stage)
    → IsUnawaited s in_flight i
unawaited s in_flight i v idle id task e live q =
    let good = v.tasks id task e in
    let (flow, stored, stage, name) = good.linked i live q in idle flow stored task.kind stage

-- A new task is stored.
pub new_task-Inv :
    (s : AiOrchestratorService) (in_flight : List ℕ) (task : AiTask)
    → Inv s in_flight
    → s.next_task_id + 1 < u64_mod
    → task.id ≡ s.next_task_id
    → task.status ≡ queued
    → task.attempts ≡ 0
    → ((i : ℕ) → task.flow_id ≡ some i → IsAwaited s.flows i task)
    → Inv
        (record s {
          next_task_id = inc_u64 s.next_task_id;
          tasks = insert ℕ_discrete task.id task s.tasks;
        })
        in_flight
new_task-Inv s in_flight task v lasts named waits fresh linked =
    let next = inc_u64_lem s.next_task_id lasts in
    put_task-Inv s in_flight in_flight task (inc_u64 s.next_task_id) v (omega arith)
      (record {
        named = refl;
        older = omega arith;
        bounded = omega arith;
        left = λ q. omega arith;
        linked = λ i live q. linked i q;
      })
      (λ id ne there. there)
      (λ there.
        let (t, stored, is_out) = v.away task.id there in
        let older = (v.tasks task.id t stored).older in absurd (omega arith))

pub enqueue_cases :
    (s : AiOrchestratorService) (kind : AiTaskKind) (context : AiContext) (prompt : String)
    (flow_id : Option ℕ) (now : ℕ)
    → let task = new_task s kind context prompt flow_id now in
      (enqueue_task_locked s kind context prompt flow_id now
        ≡ (s, record { ok = false; error = "AI task queue is full"; task = none }))
      ⊎ (enqueue_task_locked s kind context prompt flow_id now ≡ (
        record s {
          next_task_id = inc_u64 s.next_task_id;
          tasks = insert ℕ_discrete task.id task s.tasks;
        },
        record { ok = true; error = ""; task = some task },
      ))
unfolding enqueue_task_locked
enqueue_cases s kind context prompt flow_id now =
    elim (Bool-cases (leb s.config.max_queued_tasks (active_task_count s))) [
      | inl full ↦ inl (rw full)
      | inr room ↦ inr (rw room)
    ]

-- A task without a flow is queued.
pub enqueue_task-Inv :
    (s : AiOrchestratorService) (in_flight : List ℕ) (kind : AiTaskKind) (context : AiContext)
    (prompt : String) (now : ℕ)
    → Inv s in_flight
    → s.next_task_id + 1 < u64_mod
    → Inv (enqueue_task_locked s kind context prompt none now).0 in_flight
      × ((enqueue_task_locked s kind context prompt none now).0.flows ≡ s.flows)
unfolding new_task
enqueue_task-Inv s in_flight kind context prompt now v lasts =
    elim (enqueue_cases s kind context prompt none now) [
      | inl e ↦ rw e (v, refl)
      | inr e ↦ rw e (
        new_task-Inv s in_flight (new_task s kind context prompt none now) v lasts refl refl refl
            (λ i q. cc),
        refl,
      )
    ]

pub cancel_task-Inv :
    (s : AiOrchestratorService) (in_flight : List ℕ) (id now : ℕ)
    → Inv s in_flight
    → Inv (cancel_task s id now).0 in_flight × ((cancel_task s id now).0.flows ≡ s.flows)
unfolding cancel_task
cancel_task-Inv s in_flight id now v = elim (Option-cases (lookup ℕ_discrete id s.tasks)) [
  | inl e ↦ rw (e, cancel_task) (v, refl)
  | inr (task, e) ↦ elim (Bool-cases (is_settled task.status)) [
    | inl f ↦ rw (e, cancel_task, f) (v, refl)
    | inr f ↦
        let good = v.tasks id task e in
        let named = good.named in
        let task' = record task { status = canceled; updated_at = now } in
        let kept =
          subst (λ i. Inv (record s { tasks = insert ℕ_discrete i task' s.tasks }) in_flight) named
            (put_task-Inv s in_flight in_flight task' s.next_task_id v (omega arith)
              (record {
                named = refl;
                older = omega (arith, good.older);
                bounded = good.bounded;
                left = λ q. cc;
                linked = λ i live q. elim live [
                  | inl waits ↦ cc
                  | inr there ↦ good.linked i (inr there) q
                ];
              })
              (λ id ne there. there) (λ there. refl)) in
        rw (e, cancel_task, f) (kept, refl)
  ]
]
