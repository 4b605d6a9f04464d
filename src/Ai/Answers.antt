-- ===== src/Ai/Answers.antt =====
-- What a good answer of the client does to the flow of its task.
use red_culture_service.Common.{
  ℕ, ◌≤◌, ◌≡◌, refl, inr, String, true, false, List, some, ℕ_discrete, ltb, arith, ap, ◌∙◌, subst,
  In,
}
use red_culture_service.Common.Map.{lookup, lookup-insert_same}
use red_culture_service.Ai.Types.{
  AiTaskKind, generate_question, generate_explanation, generate_hint, AiTask, AiInteractionFlow,
  AiResponse, TickResult, waiting_answer, completed, succeeded, AiOrchestratorService,
}
use red_culture_service.Ai.Finish.{
  finish_found, checked_response, update_flow_after_task_locked, flow_after,
}
use red_culture_service.Ai.Invariant.{Inv, awaiting}

-- The flow has the text of the answer, and the stage that follows.
unfoldable pub IsAnswered : AiTaskKind → String → AiInteractionFlow → AiInteractionFlow → Type 0
IsAnswered generate_question text flow flow' =
    (flow'.stage ≡ waiting_answer)
    × (flow'.generated_question ≡ text)
    × (flow'.explanation_task_id ≡ flow.explanation_task_id)
IsAnswered generate_explanation text flow flow' =
    (flow'.stage ≡ completed)
    × (flow'.generated_explanation ≡ text)
    × (flow'.generated_question ≡ flow.generated_question)
    × (flow'.submitted_answer ≡ flow.submitted_answer)
IsAnswered generate_hint text flow flow' = flow' ≡ flow

answered_lem :
    (task : AiTask) (flow : AiInteractionFlow) (response : AiResponse) (now : ℕ) (k : AiTaskKind)
    → task.kind ≡ k
    → awaiting k ≡ some flow.stage
    → IsAnswered k response.text flow
        (flow_after succeeded (some response) task (record flow { updated_at = now }))
unfolding IsAnswered
answered_lem task flow response now generate_question q stage = rw q (refl, refl, refl)
answered_lem task flow response now generate_explanation q stage = rw q (refl, refl, refl, refl)
answered_lem task flow response now generate_hint q stage = absurd (cc)

good_response :
    (s : AiOrchestratorService) (response : AiResponse) (elapsed : ℕ)
    → elapsed ≤ s.config.request_timeout
    → checked_response s.config response elapsed ≡ response
unfolding checked_response
good_response s response elapsed soon =
    let in_time : ltb s.config.request_timeout elapsed ≡ false = ground arith in rw in_time refl

-- If the invariant holds, then when the client has answered well and in time for a task of a flow,
-- the flow has the text of the answer, and its stage is the one that follows: it waits for an answer
-- after the question, and is completed after the explanation, with its question and its answer
-- unchanged.
pub ends_answered :
    (s : AiOrchestratorService) (in_flight : List ℕ) (task : AiTask) (response : AiResponse)
    (elapsed now i : ℕ) (result : TickResult)
    → Inv s in_flight
    → lookup ℕ_discrete task.id s.tasks ≡ some task
    → In task.id in_flight
    → task.flow_id ≡ some i
    → response.ok ≡ true
    → elapsed ≤ s.config.request_timeout
    → (flow : AiInteractionFlow) × (flow' : AiInteractionFlow) × (lookup ℕ_discrete i s.flows
        ≡ some flow)
      × (lookup ℕ_discrete i (finish_found s task.id task response elapsed now result).0.flows
          ≡ some flow')
      × IsAnswered task.kind response.text flow flow'
unfolding finish_found update_flow_after_task_locked
ends_answered s in_flight task response elapsed now i result v e out q ok soon =
    let response' = checked_response s.config response elapsed in
    let good = good_response s response elapsed soon in
    let ok' : response'.ok ≡ true = ap (λ r. r.ok) good ∙ ok in
    let (flow, stored, stage, name) = (v.tasks task.id task e).linked i (inr out) q in
    let flow' = flow_after succeeded (some response') task (record flow { updated_at = now }) in
    (
      flow,
      flow',
      stored,
      rw (ok', q, update_flow_after_task_locked, stored)
          (lookup-insert_same ℕ_discrete i flow' s.flows),
      subst (λ r. IsAnswered task.kind r.text flow flow') good
          (answered_lem task flow response' now task.kind refl stage),
    )
