-- ===== src/Ai/Progress.antt =====
-- A client that answers well brings the flow of the next task forward in one `tick`.
use red_culture_service.Common.{
  ℕ, suc, String, ◌-◌, ◌/◌, ◌≤◌, ◌≡◌, refl, ◌⊎◌, inl, inr, true, ◌∷◌, Option, none, some,
  ℕ_discrete, ap, ◌∙◌, subst, ns_per_ms,
}
use red_culture_service.Common.Map.{lookup, lookup-insert_same}
use red_culture_service.Ai.Types.{
  AiTaskKind, generate_question, generate_explanation, generate_hint, waiting_answer, completed,
  AiTask, AiInteractionFlow, AiRequest, AiResponse, RunningTask, TickResult, AiOrchestratorService,
}
use red_culture_service.Ai.Tasks.{select_next, started, request_of, take_next_task_locked}
use red_culture_service.Ai.Finish.{
  tick_loop, TurnTimes, call_client, finish_task_locked, finish_found, store_task,
}
use red_culture_service.Ai.Invariant.{Inv, awaiting}
use red_culture_service.Ai.Turns.{select_next-stored, take_task-Inv}
use red_culture_service.Ai.Ends.{finish_found-Inv}
use red_culture_service.Ai.Steps.{Machine, IsSound}
use red_culture_service.Ai.Loop.{tick_loop_next, tick_loop-Reach, back_own}
use red_culture_service.Ai.Answers.{IsAnswered, ends_answered}
use red_culture_service.Ai.Stranded.{queued-out}
use red_culture_service.Ai.Quiet.{Turns-quiet, idle_stage}

-- After a good answer a flow is in a stage in which it waits for no task.
answered_rests :
    (k : AiTaskKind) (text : String) (flow flow' : AiInteractionFlow)
    → awaiting k ≡ some flow.stage
    → IsAnswered k text flow flow'
    → (flow'.stage ≡ waiting_answer) ⊎ (flow'.stage ≡ completed)
unfolding IsAnswered
answered_rests generate_question text flow flow' q h = inl h.0
answered_rests generate_explanation text flow flow' q h = inr h.0
answered_rests generate_hint text flow flow' q h = absurd (cc)

called :
    (service : Option (AiRequest → AiResponse)) (client : AiRequest → AiResponse) (r : AiRequest)
    → service ≡ some client
    → call_client service r ≡ client r
unfolding call_client
called none client r q = cc
called (some c) client r q = let same_client : c ≡ client = cc in ap (λ c. c r) same_client

taken_next :
    (s : AiOrchestratorService) (now id : ℕ) (task : AiTask)
    → select_next now s.tasks ≡ some (id, task)
    → let task1 = started task now in
      take_next_task_locked s now
      ≡ (store_task s id task1, some (record { task = task1; request = request_of task1 }))
unfolding take_next_task_locked
taken_next s now id task next = rw (next, take_next_task_locked) refl

found_finish :
    (s : AiOrchestratorService) (run : RunningTask) (task : AiTask) (response : AiResponse)
    (elapsed now : ℕ) (result : TickResult)
    → lookup ℕ_discrete run.task.id s.tasks ≡ some task
    → finish_task_locked s run response elapsed now result
      ≡ some (finish_found s run.task.id task response elapsed now result)
unfolding finish_task_locked
found_finish s run task response elapsed now result stored = rw (stored, finish_task_locked) refl

-- If the invariant holds, and the task that is next in the queue is of a flow, then a `tick` of at
-- least one task returns; if the client answers the request of that task well and in time, the flow
-- has the text of that answer when the `tick` is over: it waits for an answer after the question,
-- and is completed after the explanation, with its question and its answer unchanged. What the
-- client answers to the requests of the turns that follow makes no difference.
pub tick_loop_answers :
    (n i : ℕ) (clock : ℕ → TurnTimes) (m : Machine) (result : TickResult)
    (client : AiRequest → AiResponse) (task : AiTask)
    → IsSound m
    → select_next (clock 0).taken_at m.service.tasks ≡ some (task.id, task)
    → task.flow_id ≡ some i
    → m.service.client ≡ some client
    → (client (request_of (started task (clock 0).taken_at))).ok ≡ true
    → ((clock 0).ended_at - (clock 0).started_at) / ns_per_ms ≤ m.service.config.request_timeout
    → (s' : AiOrchestratorService) × (result' : TickResult) × (flow flow' : AiInteractionFlow)
      × (tick_loop (suc n) clock m.service result ≡ some (s', result'))
      × (lookup ℕ_discrete i m.service.flows ≡ some flow)
      × (lookup ℕ_discrete i s'.flows ≡ some flow')
      × IsAnswered task.kind (client (request_of (started task (clock 0).taken_at))).text flow flow'
unfolding started
tick_loop_answers n i clock m result client task v next q has answers soon =
    let now = (clock 0).taken_at in
    let elapsed = ((clock 0).ended_at - (clock 0).started_at) / ns_per_ms in
    let (stored, waits) = select_next-stored m.service m.in_flight now task.id task v next in
    let out = queued-out m.service m.in_flight task v stored waits in
    let task1 = started task now in
    let s1 = store_task m.service task.id task1 in
    let run : RunningTask = record { task = task1; request = request_of task1 } in
    let ids = task.id ∷ m.in_flight in
    let v1 = take_task-Inv m.service m.in_flight now task.id task v stored waits in
    let stored1 = lookup-insert_same ℕ_discrete task.id task1 m.service.tasks in
    let response = call_client s1.client run.request in
    let said = called m.service.client client run.request has in
    let ok : response.ok ≡ true = ap (λ r. r.ok) said ∙ answers in
    let ended = finish_found s1 task.id task1 response elapsed (clock 0).finished_at result in
    let f = found_finish s1 run task1 response elapsed (clock 0).finished_at result stored1 in
    let (flow, flow1, first, then_stored, answered) =
      ends_answered s1 ids task1 response elapsed (clock 0).finished_at i result v1 stored1
        (inl refl) q ok soon in
    let (v2, _) =
      finish_found-Inv s1 ids task1 response elapsed (clock 0).finished_at result v1 stored1
        (inl refl) in
    let v3 = subst (Inv ended.0) (back_own task.id m.in_flight out) v2 in
    let (s2, result2, g, path, k, turns, over) =
      tick_loop-Reach n (λ i. clock (suc i)) (record m { service = ended.0 }) ended.1 v3 in
    let (flow0, found, stage, name) = (v.tasks task.id task stored).linked i (inl waits) q in
    let same : flow0 ≡ flow = cc in
    let rests =
      answered_rests task.kind response.text flow flow1 (stage ∙ ap (λ f. some f.stage) same)
        answered in
    let idle = idle_stage ended.0 m.in_flight i flow1 v3 then_stored rests in
    (
      s2,
      result2,
      flow,
      flow1,
      tick_loop_next n clock m.service s1 ended.0 run result ended.1
            (taken_next m.service now task.id task next) f
          ∙ g,
      first,
      Turns-quiet turns m.in_flight i v3 idle ∙ then_stored,
      subst (λ r. IsAnswered task.kind r.text flow flow1) said answered,
    )
