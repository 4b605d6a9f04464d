-- ===== src/Ai/Turns.antt =====
-- The locked parts of `tick` of `AiOrchestratorService` keep the invariant, and move the flows along
-- the diagram.
use red_culture_service.Common.{
  ℕ, ◌≡◌, ◌≢◌, refl, inl, inr, true, ◌==◌, List, ◌∷◌, none, some, ℕ_discrete, inc_u32, arith, sym,
  subst, In, remove_if, In-remove_if,
}
use red_culture_service.Common.Map.{lookup, lookup_of_In}
use red_culture_service.Common.Selection.{select_oldest-In}
use red_culture_service.Ai.Types.{
  AiTaskStatus, queued, running, succeeded, failed, timed_out, canceled, AiTask,
  AiOrchestratorService,
}
use red_culture_service.Ai.Tasks.{is_queued, is_due, select_next, started}
use red_culture_service.Ai.Finish.{store_task}
use red_culture_service.Ai.Invariant.{Inv, put_task-Inv}

is_queued_lem : (status : AiTaskStatus) → is_queued status ≡ true → status ≡ queued
is_queued_lem queued h = refl
is_queued_lem running h = cc
is_queued_lem succeeded h = cc
is_queued_lem failed h = cc
is_queued_lem timed_out h = cc
is_queued_lem canceled h = cc

-- What is selected is stored under its id, and queued.
pub select_next-stored :
    (s : AiOrchestratorService) (in_flight : List ℕ) (now id : ℕ) (task : AiTask)
    → Inv s in_flight
    → select_next now s.tasks ≡ some (id, task)
    → (lookup ℕ_discrete id s.tasks ≡ some task) × (task.status ≡ queued)
unfolding select_next
select_next-stored s in_flight now id task v h =
    elim (select_oldest-In (is_due now) (λ task. task.created_at) none s.tasks (id, task) h) [
      | inl q ↦ absurd (cc)
      | inr (i, due) ↦ (
        lookup_of_In ℕ_discrete id task s.tasks v.mapped i,
        is_queued_lem task.status (ground arith),
      )
    ]

-- A task that is taken leaves the queue, and its request goes to the client.
pub take_task-Inv :
    (s : AiOrchestratorService) (in_flight : List ℕ) (now id : ℕ) (task : AiTask)
    → Inv s in_flight
    → lookup ℕ_discrete id s.tasks ≡ some task
    → task.status ≡ queued
    → Inv (store_task s id (started task now)) (id ∷ in_flight)
unfolding started inc_u32
take_task-Inv s in_flight now id task v e waits =
    let good = v.tasks id task e in
    let named = good.named in
    let left = good.left waits in
    let limit = v.unwrapped in
    subst (λ i. Inv (store_task s i (started task now)) (i ∷ in_flight)) named
      (put_task-Inv s in_flight (task.id ∷ in_flight) (started task now) s.next_task_id v
        (omega arith)
        (record {
          named = refl;
          older = omega (arith, good.older);
          bounded = omega arith;
          left = λ q. cc;
          linked = λ i live q. good.linked i (inl waits) q;
        })
        (λ id ne there. elim there [ inl q ↦ absurd (ne (sym q)) | inr old ↦ old ]) (λ there. refl))

-- The ids with the client, when one has come back.
unfoldable pub back : ℕ → List ℕ → List ℕ
back id in_flight = remove_if (λ i. i == id) in_flight

pub back-In : (id j : ℕ) (in_flight : List ℕ) → In j (back id in_flight) → (j ≢ id) × In j in_flight
unfolding back
back-In id j in_flight i =
    let (there, ne) = In-remove_if (λ i. i == id) j in_flight i in (λ q. ground arith, there)
