-- ===== src/Ai/Tests.antt =====
-- The theorems on flows at concrete inputs.
use red_culture_service.Common.{
  ℕ, ◌≡◌, refl, true, false, [], ◌∷◌, some, ℕ_discrete, inc_u64, inc_u32, arith, inl, count_if,
}
use red_culture_service.Common.Map.{lookup, insert}
use red_culture_service.Common.Selection.{select_oldest}
use red_culture_service.Ai.Types.{
  AiInteractionFlow, TickResult, generate_question, generating_question, AiOrchestratorService,
}
use red_culture_service.Ai.Tasks.{
  new_task, new_flow, enqueue_task_locked, start_question_flow, select_next, started,
  take_next_task_locked, cancel_task, submit_answer, submit_found, answered,
}
use red_culture_service.Ai.Finish.{
  finish_found, update_flow_after_task_locked, checked_response, nothing_done, tick, tick_loop,
}
use red_culture_service.Ai.Invariant.{IsUnawaited}
use red_culture_service.Ai.Progress.{tick_loop_answers}
use red_culture_service.Ai.Stages.{Moves}
use red_culture_service.Ai.Steps.{taken, Reach, stop, IsSound, Reach-IsSound}
use red_culture_service.Ai.Loop.{Turns, IsOver, total, tick-Reach}
use red_culture_service.Ai.Answers.{IsAnswered, ends_answered}
use red_culture_service.Ai.Once.{submit_answer_once}
use red_culture_service.Ai.Stranded.{cancel_task_strands}
use red_culture_service.Ai.Runs.{
  response, initial, asking, path, initial-IsSound, task, asking-IsSound, asked, asked-IsSound,
  clock,
}

Reach-IsSound_example :
    IsSound (taken asking 5) × Moves initial.service.flows (taken asking 5).service.flows
Reach-IsSound_example = Reach-IsSound path initial-IsSound

tick-Reach_example :
    (s' : AiOrchestratorService) × (result : TickResult) × (tick asking.service 3 clock
      ≡ some (s', result))
    × Reach asking (record asking { service = s' })
    × (k : ℕ) × Turns clock k asking.service nothing_done s' result
    × IsOver 3 k clock s'
    × (total result ≡ k)
tick-Reach_example = tick-Reach 3 clock asking asking-IsSound

ends_answered_example :
    let s = (taken asking 5).service in
    (flow : AiInteractionFlow) × (flow' : AiInteractionFlow) × (lookup ℕ_discrete 1 s.flows
      ≡ some flow)
    × (lookup ℕ_discrete 1 (finish_found s 1 (started task 5) response 20 30 nothing_done).0.flows
        ≡ some flow')
    × IsAnswered generate_question "What is oolong?" flow flow'
unfolding taken take_next_task_locked select_next select_oldest started start_question_flow new_flow
    enqueue_task_locked new_task insert lookup count_if inc_u64 inc_u32 ℕ_discrete
ends_answered_example =
    ends_answered (taken asking 5).service (1 ∷ []) (started task 5) response 20 30 1 nothing_done
      (Reach-IsSound path initial-IsSound).0 refl (inl refl) refl refl (omega arith)

cancel_task_strands_example :
    let (s', ok) = cancel_task asking.service 1 7 in
    (ok ≡ true)
    × ((flow : AiInteractionFlow) × (lookup ℕ_discrete 1 s'.flows ≡ some flow)
        × (some generating_question ≡ some flow.stage))
    × IsUnawaited s' [] 1
unfolding start_question_flow new_flow enqueue_task_locked new_task insert lookup count_if inc_u64
    ℕ_discrete
cancel_task_strands_example =
    cancel_task_strands asking.service [] 7 1 task asking-IsSound refl refl refl

submit_answer_once_example :
    let s = (submit_answer asked.service 1 "a tea" 40).0 in
    ((submit_answer s 1 "a drink" 50).0 ≡ s) × ((submit_answer s 1 "a drink" 50).1.ok ≡ false)
unfolding taken take_next_task_locked select_next select_oldest started start_question_flow new_flow
    enqueue_task_locked new_task insert lookup count_if inc_u64 inc_u32 ℕ_discrete finish_found
    update_flow_after_task_locked checked_response submit_answer submit_found answered
submit_answer_once_example =
    submit_answer_once asked
      (record asked { service = (submit_answer asked.service 1 "a tea" 40).0 }) 1 40 50 "a tea"
      "a drink" asked-IsSound (omega arith) refl stop

tick_loop_answers_example :
    (s' : AiOrchestratorService) × (result : TickResult) × (flow flow' : AiInteractionFlow)
    × (tick_loop 2 clock asking.service nothing_done ≡ some (s', result))
    × (lookup ℕ_discrete 1 asking.service.flows ≡ some flow)
    × (lookup ℕ_discrete 1 s'.flows ≡ some flow')
    × IsAnswered generate_question "What is oolong?" flow flow'
unfolding select_next select_oldest start_question_flow new_flow enqueue_task_locked new_task insert
    lookup count_if inc_u64 ℕ_discrete
tick_loop_answers_example =
    tick_loop_answers 1 1 clock asking nothing_done (λ r. response) task asking-IsSound refl refl
      refl refl (omega arith)
