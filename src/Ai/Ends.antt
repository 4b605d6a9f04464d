-- ===== src/Ai/Ends.antt =====
-- `finishTaskLocked` of `AiOrchestratorService` keeps the invariant, and moves the flow of the task
-- along the diagram.
use red_culture_service.Common.{
  ℕ, ◌+◌, ◌^◌, ◌<◌, ◌≡◌, ◌≢◌, refl, inl, inr, String, Bool, true, false, List, Option, some,
  ℕ_discrete, ltb, arith, sym, ap, ◌∙◌, subst, Bool-cases, Option-cases, In, if◌then◌else◌,
}
use red_culture_service.Common.Map.{lookup, insert, lookup-insert_cases}
use red_culture_service.Ai.Types.{
  AiTaskKind, generate_question, generate_explanation, generate_hint, queued, failed, timed_out,
  AiFlowStage, waiting_answer, completed, broken, generating_question, generating_explanation,
  AiTask, AiInteractionFlow, AiResponse, TickResult, AiOrchestratorService,
}
use red_culture_service.Ai.Finish.{
  flow_after_success, update_flow_after_task_locked, checked_response, succeeded_task,
  requeued_task, ended_task, store_task, max_attempts_from_retries, finish_found, flow_after,
}
use red_culture_service.Ai.Invariant.{
  Inv, IsUnawaited, IsLive, awaiting, put_task-Inv, linked_unique,
}
use red_culture_service.Ai.Stages.{
  Moves, Moves-refl, insert-Moves, ◌⟶*◌, via, here, asked, unasked, explained, unexplained,
}
use red_culture_service.Ai.Flows.{stored_flow-Inv}
use red_culture_service.Ai.Turns.{back, back-In}

-- A task that has come back and will not be tried again: no task of its flow can still end.
closed_task-Inv :
    (s : AiOrchestratorService) (in_flight : List ℕ) (task task' : AiTask)
    → Inv s in_flight
    → lookup ℕ_discrete task.id s.tasks ≡ some task
    → In task.id in_flight
    → task'.id ≡ task.id
    → task'.attempts ≡ task.attempts
    → task'.status ≢ queued
    → let s' = store_task s task'.id task' in
      Inv s' (back task.id in_flight)
      × ((i : ℕ) → task.flow_id ≡ some i → IsUnawaited s' (back task.id in_flight) i)
closed_task-Inv s in_flight task task' v e out named tried over =
    let good = v.tasks task.id task e in
    let gone : ¬ In task'.id (back task.id in_flight) =
      λ there. (back-In task.id task'.id in_flight there).0 named in
    (
      put_task-Inv s in_flight (back task.id in_flight) task' s.next_task_id v (omega arith)
          (record {
            named = refl;
            older = omega (arith, good.older);
            bounded = omega (arith, good.bounded);
            left = λ q. absurd (over q);
            linked =
                λ i live q. absurd (elim live [ inl waits ↦ over waits | inr there ↦ gone there ]);
          })
          (λ id ne there. (back-In task.id id in_flight there).1) (λ there. absurd (gone there)),
      λ i q id t e' live q'. elim (lookup-insert_cases ℕ_discrete id task'.id task' t s.tasks e') [
        | inl (at_id, same) ↦
            let live' = subst (IsLive (back task.id in_flight)) (sym same) live in
            elim live' [ inl waits ↦ over waits | inr there ↦ gone there ]
        | inr (ne, old) ↦
            let live' : IsLive in_flight t = elim live [
              | inl waits ↦ inl waits
              | inr there ↦ inr (back-In task.id t.id in_flight there).1
            ] in
            ne (
              linked_unique s in_flight i id task.id t task v old e live' (inr out) q' q
              ∙ sym named)
      ],
    )

-- A task that has come back and is queued again.
retried_task-Inv :
    (s : AiOrchestratorService) (in_flight : List ℕ) (task task' : AiTask)
    → Inv s in_flight
    → lookup ℕ_discrete task.id s.tasks ≡ some task
    → In task.id in_flight
    → task'.id ≡ task.id
    → task'.flow_id ≡ task.flow_id
    → task'.kind ≡ task.kind
    → task'.attempts < s.config.max_retries + 1
    → Inv (store_task s task'.id task') (back task.id in_flight)
retried_task-Inv s in_flight task task' v e out named flow kind left =
    let good = v.tasks task.id task e in
    put_task-Inv s in_flight (back task.id in_flight) task' s.next_task_id v (omega arith)
      (record {
        named = refl;
        older = omega (arith, good.older);
        bounded = omega arith;
        left = λ q. left;
        linked = λ i live q.
            let (f, stored, stage, name) = good.linked i (inr out) (sym flow ∙ q) in
            (f, stored, ap awaiting kind ∙ stage, cc);
      })
      (λ id ne there. (back-In task.id id in_flight there).1)
      (λ there. absurd ((back-In task.id task'.id in_flight there).0 named))

-- The stored flow of a closed task is written, and has moved.
written_flow-Inv :
    (s : AiOrchestratorService) (in_flight : List ℕ) (i : ℕ) (flow flow' : AiInteractionFlow)
    → Inv s in_flight
    → lookup ℕ_discrete i s.flows ≡ some flow
    → IsUnawaited s in_flight i
    → flow'.id ≡ flow.id
    → flow.stage ⟶* flow'.stage
    → let s' = record s { flows = insert ℕ_discrete i flow' s.flows } in
      Inv s' in_flight × Moves s.flows s'.flows
written_flow-Inv s in_flight i flow flow' v e idle named path =
    let (at_id, older) = v.flows i flow e in
    (
      stored_flow-Inv s in_flight i flow' v (named ∙ at_id) older idle,
      insert-Moves i flow' s.flows (λ f q.
          let same : flow.stage ≡ f.stage =
            let same_flow : flow ≡ f = cc in ap (λ f. f.stage) same_flow in
          subst (λ s. s ⟶* flow'.stage) same path),
    )

from_stage :
    (stage stage' stage'' : AiFlowStage)
    → some stage ≡ some stage'
    → stage ⟶* stage''
    → stage' ⟶* stage''
from_stage stage stage' stage'' q path =
    let same : stage ≡ stage' = cc in subst (λ s. s ⟶* stage'') same path

success_path :
    (k : AiTaskKind) (text : String) (flow : AiInteractionFlow)
    → awaiting k ≡ some flow.stage
    → ((flow_after_success k text flow).id ≡ flow.id)
      × (flow.stage ⟶* (flow_after_success k text flow).stage)
success_path generate_question text flow q =
    (refl, from_stage generating_question flow.stage waiting_answer q (via asked here))
success_path generate_explanation text flow q =
    (refl, from_stage generating_explanation flow.stage completed q (via explained here))
success_path generate_hint text flow q = (refl, here)

failure_path : (k : AiTaskKind) (stage : AiFlowStage) → awaiting k ≡ some stage → stage ⟶* broken
failure_path generate_question stage q =
    from_stage generating_question stage broken q (via unasked here)
failure_path generate_explanation stage q =
    from_stage generating_explanation stage broken q (via unexplained here)
failure_path generate_hint stage q = absurd (cc)

late_path :
    (late : Bool) (response : Option AiResponse) (task : AiTask) (flow : AiInteractionFlow)
    → awaiting task.kind ≡ some flow.stage
    → let flow' = flow_after (if late then timed_out else failed) response task flow in
      (flow'.id ≡ flow.id) × (flow.stage ⟶* flow'.stage)
late_path true response task flow q = (refl, failure_path task.kind flow.stage q)
late_path false response task flow q = (refl, failure_path task.kind flow.stage q)

late_over : (late : Bool) → (if late then timed_out else failed) ≢ queued
late_over true q = cc
late_over false q = cc

-- The flow of a closed task is updated, in either of the two tests on the status.
updated-Inv :
    (s : AiOrchestratorService) (in_flight : List ℕ) (task : AiTask) (now : ℕ)
    → Inv s in_flight
    → ((i : ℕ) → task.flow_id ≡ some i → IsUnawaited s in_flight i)
    → ((flow : AiInteractionFlow) (i : ℕ)
        → task.flow_id ≡ some i
        → lookup ℕ_discrete i s.flows ≡ some flow
        → let flow' =
            flow_after task.status task.response task (record flow { updated_at = now }) in
          (flow'.id ≡ flow.id) × (flow.stage ⟶* flow'.stage))
    → let s' = update_flow_after_task_locked s task now in Inv s' in_flight × Moves s.flows s'.flows
unfolding update_flow_after_task_locked
updated-Inv s in_flight task now v idle moved = elim (Option-cases task.flow_id) [
  | inl none_id ↦ rw (none_id, update_flow_after_task_locked) (v, Moves-refl s.flows)
  | inr (i, q) ↦ elim (Option-cases (lookup ℕ_discrete i s.flows)) [
    | inl e ↦ rw (q, update_flow_after_task_locked, e) (v, Moves-refl s.flows)
    | inr (flow, e) ↦
        let (named, path) = moved flow i q e in
        let flow' = flow_after task.status task.response task (record flow { updated_at = now }) in
        rw (q, update_flow_after_task_locked, e)
          (written_flow-Inv s in_flight i flow flow' v e (idle i q) named path)
  ]
]

-- The flow that is stored for a task that can still end waits for it.
awaited_stage :
    (s : AiOrchestratorService) (in_flight : List ℕ) (task : AiTask) (flow : AiInteractionFlow)
    (i : ℕ)
    → Inv s in_flight
    → lookup ℕ_discrete task.id s.tasks ≡ some task
    → IsLive in_flight task
    → task.flow_id ≡ some i
    → lookup ℕ_discrete i s.flows ≡ some flow
    → awaiting task.kind ≡ some flow.stage
awaited_stage s in_flight task flow i v e live q stored =
    let (f, e', stage, name) = (v.tasks task.id task e).linked i live q in
    let same : f ≡ flow = cc in stage ∙ ap (λ f. some f.stage) same

attempts_left :
    (s : AiOrchestratorService) (attempts : ℕ)
    → s.config.max_retries + 1 < 2 ^ 32
    → ltb attempts (max_attempts_from_retries s.config.max_retries) ≡ true
    → attempts < s.config.max_retries + 1
attempts_left s attempts unwrapped again = ground arith

-- A task that comes back from the client is stored; its end keeps the invariant and moves its flow
-- along the diagram.
pub finish_found-Inv :
    (s : AiOrchestratorService) (in_flight : List ℕ) (task : AiTask) (response : AiResponse)
    (elapsed now : ℕ) (result : TickResult)
    → Inv s in_flight
    → lookup ℕ_discrete task.id s.tasks ≡ some task
    → In task.id in_flight
    → let s' = (finish_found s task.id task response elapsed now result).0 in
      Inv s' (back task.id in_flight) × Moves s.flows s'.flows
unfolding finish_found
finish_found-Inv s in_flight task response elapsed now result v e out =
    let response' = checked_response s.config response elapsed in
    let late = ltb s.config.request_timeout elapsed in
    let done = succeeded_task task response' now in
    let ended = ended_task task response' late now in
    let good = v.tasks task.id task e in
    elim (Bool-cases response'.ok) [
      | inl ok ↦
          let (v', idle) = closed_task-Inv s in_flight task done v e out refl refl (λ q. cc) in
          rw ok (
            updated-Inv (store_task s task.id done) (back task.id in_flight) done now v' idle
              (λ flow i q stored.
                success_path task.kind response'.text (record flow { updated_at = now })
                  (awaited_stage s in_flight task flow i v e (inr out) q stored)))
      | inr bad ↦
          elim (Bool-cases (ltb task.attempts (max_attempts_from_retries s.config.max_retries))) [
            | inl again ↦
                rw (bad, again)
                  (
                    retried_task-Inv s in_flight task (requeued_task s.config task response' now) v
                        e out refl refl refl (attempts_left s task.attempts v.unwrapped again),
                    Moves-refl s.flows,
                  )
            | inr last ↦
                let (v', idle) =
                  closed_task-Inv s in_flight task ended v e out refl refl (late_over late) in
                rw (bad, last)
                  (updated-Inv (store_task s task.id ended) (back task.id in_flight) ended now v'
                    idle
                    (λ flow i q stored.
                      late_path late (some response') ended (record flow { updated_at = now })
                        (awaited_stage s in_flight task flow i v e (inr out) q stored)))
          ]
    ]
