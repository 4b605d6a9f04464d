-- ===== src/Ai/Quiet.antt =====
-- A flow of `AiOrchestratorService` that waits for no task stays as it is through the turns of a `tick`.
use red_culture_service.Common.{
  ℕ, ◌≡◌, ◌≢◌, refl, inl, inr, ◌⊎◌, List, ◌∷◌, some, ℕ_discrete, ltb, sym, ap, ◌∙◌, subst,
  Bool-cases, Option-cases,
}
use red_culture_service.Common.Map.{
  lookup, insert, lookup-insert_cases, lookup-insert_same, lookup-insert_ne,
}
use red_culture_service.Ai.Types.{
  AiFlowStage, AiTaskKind, generate_question, generate_explanation, generate_hint, waiting_answer,
  completed, AiTask, AiInteractionFlow, AiResponse, RunningTask, TickResult, AiOrchestratorService,
}
use red_culture_service.Ai.Tasks.{select_next, started, request_of, take_next_task_locked}
use red_culture_service.Ai.Finish.{
  TurnTimes, checked_response, succeeded_task, requeued_task, ended_task, store_task,
  max_attempts_from_retries, finish_found, finish_task_locked, update_flow_after_task_locked,
}
use red_culture_service.Ai.Invariant.{Inv, IsUnawaited, awaiting}
use red_culture_service.Ai.Turns.{select_next-stored, take_task-Inv}
use red_culture_service.Ai.Ends.{finish_found-Inv}
use red_culture_service.Ai.Steps.{Machine, IsSound}
use red_culture_service.Ai.Loop.{Turns, no_turn, turn, back_own}
use red_culture_service.Ai.Stranded.{queued-out}

-- What the end of a task leaves of a flow that is not its own, and of the tasks.
record IsApart (s s' : AiOrchestratorService) (task : AiTask) (i : ℕ) : Type 0 where
  flow_kept : lookup ℕ_discrete i s'.flows ≡ lookup ℕ_discrete i s.flows
  tasks_kept :
      (id : ℕ) (t : AiTask)
      → lookup ℕ_discrete id s'.tasks ≡ some t
      → (t.flow_id ≡ task.flow_id) ⊎ (lookup ℕ_discrete id s.tasks ≡ some t)

stored-IsApart :
    (s : AiOrchestratorService) (task task' : AiTask) (id i : ℕ)
    → task'.flow_id ≡ task.flow_id
    → IsApart s (store_task s id task') task i
stored-IsApart s task task' id i same = record {
  flow_kept = refl;
  tasks_kept = λ j t e. elim (lookup-insert_cases ℕ_discrete j id task' t s.tasks e) [
    | inl (at_id, q) ↦ inl (ap (λ t. t.flow_id) (sym q) ∙ same)
    | inr (ne, old) ↦ inr old
  ];
}

updated-IsApart :
    (s : AiOrchestratorService) (task task' : AiTask) (id now i : ℕ)
    → task'.flow_id ≡ task.flow_id
    → task.flow_id ≢ some i
    → IsApart s (update_flow_after_task_locked (store_task s id task') task' now) task i
unfolding update_flow_after_task_locked
updated-IsApart s task task' id now i same other =
    let stored = stored-IsApart s task task' id i same in
    elim (Option-cases task'.flow_id) [
      | inl q ↦ rw (q, update_flow_after_task_locked) stored
      | inr (j, q) ↦ elim (Option-cases (lookup ℕ_discrete j s.flows)) [
        | inl e ↦ rw (q, update_flow_after_task_locked, e) stored
        | inr (flow, e) ↦
            let ne : i ≢ j = λ at_i. other (sym same ∙ q ∙ ap some (sym at_i)) in
            rw (q, update_flow_after_task_locked, e)
              (record {
                flow_kept = lookup-insert_ne ℕ_discrete i j _ s.flows ne;
                tasks_kept = stored.tasks_kept;
              })
      ]
    ]

finish_found-IsApart :
    (s : AiOrchestratorService) (id : ℕ) (task : AiTask) (response : AiResponse) (elapsed now : ℕ)
    (result : TickResult) (i : ℕ)
    → task.flow_id ≢ some i
    → IsApart s (finish_found s id task response elapsed now result).0 task i
unfolding finish_found
finish_found-IsApart s id task response elapsed now result i other =
    let response' = checked_response s.config response elapsed in
    let late = ltb s.config.request_timeout elapsed in
    elim (Bool-cases response'.ok) [
      | inl ok ↦
          rw ok (updated-IsApart s task (succeeded_task task response' now) id now i refl other)
      | inr bad ↦
          elim (Bool-cases (ltb task.attempts (max_attempts_from_retries s.config.max_retries))) [
            | inl again ↦
                rw (bad, again)
                  (stored-IsApart s task (requeued_task s.config task response' now) id i refl)
            | inr last ↦
                rw (bad, last)
                  (updated-IsApart s task (ended_task task response' late now) id now i refl other)
          ]
    ]

-- What one turn leaves of a flow that waits for no task.
record IsQuiet (m : Machine) (s' : AiOrchestratorService) (i : ℕ) : Type 0 where
  sound : Inv s' m.in_flight
  unawaited : IsUnawaited s' m.in_flight i
  flow_same : lookup ℕ_discrete i s'.flows ≡ lookup ℕ_discrete i m.service.flows

-- The turn of a task that is selected, as one function.
abbrev pub turned :
    AiOrchestratorService
    → AiTask
    → ℕ
    → AiResponse
    → ℕ
    → ℕ
    → TickResult
    → AiOrchestratorService × TickResult
turned s task taken_at response elapsed now result =
    finish_found (store_task s task.id (started task taken_at)) task.id (started task taken_at)
      response elapsed now result

turned-IsQuiet :
    (m : Machine) (task : AiTask) (taken_at : ℕ) (response : AiResponse) (elapsed now : ℕ)
    (result : TickResult) (i : ℕ)
    → IsSound m
    → IsUnawaited m.service m.in_flight i
    → select_next taken_at m.service.tasks ≡ some (task.id, task)
    → IsQuiet m (turned m.service task taken_at response elapsed now result).0 i
unfolding started
turned-IsQuiet m task taken_at response elapsed now result i v idle next =
    let (stored, waits) = select_next-stored m.service m.in_flight taken_at task.id task v next in
    let out = queued-out m.service m.in_flight task v stored waits in
    let task1 = started task taken_at in
    let s1 = store_task m.service task.id task1 in
    let v1 = take_task-Inv m.service m.in_flight taken_at task.id task v stored waits in
    let stored1 = lookup-insert_same ℕ_discrete task.id task1 m.service.tasks in
    let (v2, _) =
      finish_found-Inv s1 (task.id ∷ m.in_flight) task1 response elapsed now result v1 stored1
        (inl refl) in
    let other : task.flow_id ≢ some i = idle task.id task stored (inl waits) in
    let first = stored-IsApart m.service task task1 task.id i refl in
    let then_ends = finish_found-IsApart s1 task.id task1 response elapsed now result i other in
    record {
      sound =
          subst (Inv (turned m.service task taken_at response elapsed now result).0)
            (back_own task.id m.in_flight out) v2;
      unawaited = λ id t e live q. elim (then_ends.tasks_kept id t e) [
        | inl same ↦ other (sym same ∙ q)
        | inr e1 ↦ elim (first.tasks_kept id t e1) [
          | inl same ↦ other (sym same ∙ q)
          | inr old ↦ idle id t old live q
        ]
      ];
      flow_same = then_ends.flow_kept ∙ first.flow_kept;
    }

-- A turn is the turn of the task that is selected.
turn_lem :
    (m : Machine) (taken_at elapsed now : ℕ) (s1 s2 : AiOrchestratorService) (run : RunningTask)
    (response : AiResponse) (r r1 : TickResult)
    → IsSound m
    → take_next_task_locked m.service taken_at ≡ (s1, some run)
    → finish_task_locked s1 run response elapsed now r ≡ some (s2, r1)
    → (task : AiTask) × (select_next taken_at m.service.tasks ≡ some (task.id, task))
      × (s2 ≡ (turned m.service task taken_at response elapsed now r).0)
unfolding take_next_task_locked finish_task_locked started
turn_lem m taken_at elapsed now s1 s2 run response r r1 v e f =
    elim (Option-cases (select_next taken_at m.service.tasks)) [
      | inl none_left ↦ absurd (let clash = rw (none_left, take_next_task_locked) at e in cc)
      | inr ((id, task), q) ↦
          let (stored, waits) = select_next-stored m.service m.in_flight taken_at id task v q in
          let named = (v.tasks id task stored).named in
          let task1 = started task taken_at in
          let mine : RunningTask = record { task = task1; request = request_of task1 } in
          let takes : take_next_task_locked m.service taken_at
              ≡ (store_task m.service id task1, some mine) =
            rw (q, take_next_task_locked) refl in
          let same_service : s1 ≡ store_task m.service id task1 = cc in
          let same_run : run ≡ mine = cc in
          let written = lookup-insert_same ℕ_discrete id task1 m.service.tasks in
          let at_task =
            subst
              (λ j. lookup ℕ_discrete j (insert ℕ_discrete id task1 m.service.tasks) ≡ some task1)
              (sym named) written in
          let ends : finish_task_locked (store_task m.service id task1) mine response elapsed now r
              ≡ some (
                  finish_found (store_task m.service id task1) task.id task1 response elapsed now
                    r) =
            rw (at_task, finish_task_locked) refl in
          let same_end : some (s2, r1)
              ≡ some (
                  finish_found (store_task m.service id task1) task.id task1 response elapsed now
                    r) =
            cc in
          let reached : s2
              ≡ (finish_found (store_task m.service id task1) task.id task1 response elapsed now
                  r).0 =
            cc in
          (
            task,
            q ∙ ap (λ j. some (j, task)) (sym named),
            reached
                ∙ ap
                    (λ j.
                      (finish_found (store_task m.service j task1) task.id task1 response elapsed
                        now r).0)
                    (sym named),
          )
    ]

-- Through any number of turns a flow that waits for no task stays as it is.
pub Turns-quiet :
    {clock : ℕ → TurnTimes} {k : ℕ} {s s' : AiOrchestratorService} {r r' : TickResult}
    → Turns clock k s r s' r'
    → (in_flight : List ℕ) (i : ℕ) → Inv s in_flight
    → IsUnawaited s in_flight i
    → lookup ℕ_discrete i s'.flows ≡ lookup ℕ_discrete i s.flows
Turns-quiet no_turn in_flight i v idle = refl
Turns-quiet {clock} {s = s} {r = r} (turn s1 s2 run r1 e f turns) in_flight i v idle =
    let m : Machine = record { service = s; in_flight = in_flight } in
    let (task, next, reached) = turn_lem m (clock 0).taken_at _ _ s1 s2 run _ r r1 v e f in
    let quiet = turned-IsQuiet m task (clock 0).taken_at _ _ _ r i v idle next in
    let here = subst (λ s. IsQuiet m s i) (sym reached) quiet in
    Turns-quiet turns in_flight i here.sound here.unawaited ∙ here.flow_same

-- A flow that is in no stage of a task waits for none.
pub idle_stage :
    (s : AiOrchestratorService) (in_flight : List ℕ) (i : ℕ) (flow : AiInteractionFlow)
    → Inv s in_flight
    → lookup ℕ_discrete i s.flows ≡ some flow
    → (flow.stage ≡ waiting_answer) ⊎ (flow.stage ≡ completed)
    → IsUnawaited s in_flight i
idle_stage s in_flight i flow v stored rests id t e live q =
    let (f, stored', stage, name) = (v.tasks id t e).linked i live q in
    let same : f ≡ flow = cc in
    no_stage t.kind flow.stage rests (stage ∙ ap (λ f. some f.stage) same)
  where
    no_stage :
        (k : AiTaskKind) (stage : AiFlowStage)
        → (stage ≡ waiting_answer) ⊎ (stage ≡ completed)
        → ¬ (awaiting k ≡ some stage)
    no_stage generate_question stage (inl q) h = cc
    no_stage generate_question stage (inr q) h = cc
    no_stage generate_explanation stage (inl q) h = cc
    no_stage generate_explanation stage (inr q) h = cc
    no_stage generate_hint stage rests h = cc
