-- ===== src/Ai/Stranded.antt =====
-- What `cancelTask` of `AiOrchestratorService` does to the flow of a task.
use red_culture_service.Common.{
  ℕ, ◌≡◌, refl, inl, inr, true, false, List, some, ℕ_discrete, sym, ap, ◌∙◌, subst, In,
}
use red_culture_service.Common.Map.{lookup, insert, lookup-insert_cases}
use red_culture_service.Ai.Types.{
  AiTask, AiInteractionFlow, queued, canceled, AiOrchestratorService,
}
use red_culture_service.Ai.Tasks.{cancel_task, is_settled}
use red_culture_service.Ai.Invariant.{Inv, IsUnawaited, IsLive, awaiting, is_away, linked_unique}
use red_culture_service.Ai.Loop.{queued_away}

-- A task in the queue is not with the client.
pub queued-out :
    (s : AiOrchestratorService) (in_flight : List ℕ) (task : AiTask)
    → Inv s in_flight
    → lookup ℕ_discrete task.id s.tasks ≡ some task
    → task.status ≡ queued
    → ¬ In task.id in_flight
queued-out s in_flight task v e waits there =
    let (t, stored, is_out) = v.away task.id there in
    let same : t ≡ task = cc in
    queued_away task.status waits (ap (λ t. is_away t.status) (sym same) ∙ is_out)

cancel_queued :
    (s : AiOrchestratorService) (now : ℕ) (task : AiTask)
    → lookup ℕ_discrete task.id s.tasks ≡ some task
    → task.status ≡ queued
    → cancel_task s task.id now ≡ (
      record s {
        tasks =
            insert ℕ_discrete task.id (record task { status = canceled; updated_at = now }) s.tasks;
      },
      true,
    )
unfolding cancel_task
cancel_queued s now task e waits =
    let open_task : is_settled task.status ≡ false = ap is_settled waits in
    rw (e, cancel_task, open_task) refl

-- If the invariant holds, canceling a queued task of a flow is accepted, the flow stays in the stage
-- in which it waits for that task, and no task that can still end is of the flow.
pub cancel_task_strands :
    (s : AiOrchestratorService) (in_flight : List ℕ) (now i : ℕ) (task : AiTask)
    → Inv s in_flight
    → lookup ℕ_discrete task.id s.tasks ≡ some task
    → task.status ≡ queued
    → task.flow_id ≡ some i
    → let (s', ok) = cancel_task s task.id now in
      (ok ≡ true)
      × ((flow : AiInteractionFlow) × (lookup ℕ_discrete i s'.flows ≡ some flow)
          × (awaiting task.kind ≡ some flow.stage))
      × IsUnawaited s' in_flight i
cancel_task_strands s in_flight now i task v e waits q =
    let out = queued-out s in_flight task v e waits in
    let (flow, stored, stage, name) = (v.tasks task.id task e).linked i (inl waits) q in
    let canceled_task = record task { status = canceled; updated_at = now } in
    rw (cancel_queued s now task e waits) (
      refl,
      (flow, stored, stage),
      λ id t e' live q'.
          elim (lookup-insert_cases ℕ_discrete id task.id canceled_task t s.tasks e') [
            | inl (at_id, same) ↦ elim (subst (IsLive in_flight) (sym same) live) [
              | inl waits ↦ cc
              | inr there ↦ out there
            ]
            | inr (ne, old) ↦
                ne (linked_unique s in_flight i id task.id t task v old e live (inl waits) q' q)
          ],
    )
