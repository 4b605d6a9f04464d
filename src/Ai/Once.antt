-- ===== src/Ai/Once.antt =====
-- A flow of `AiOrchestratorService` is answered at most once, whatever is called meanwhile.
use red_culture_service.Common.{
  ℕ, ◌+◌, ◌<◌, ◌≡◌, refl, inl, inr, String, true, false, some, ℕ_discrete, u64_mod, ap, subst,
  Bool-cases, Option-cases,
}
use red_culture_service.Common.Map.{lookup, lookup-insert_same}
use red_culture_service.Ai.Types.{
  AiFlowStage, generating_explanation, generate_explanation, AiInteractionFlow,
  AiOrchestratorService,
}
use red_culture_service.Ai.Tasks.{submit_answer, submit_found, answered, is_waiting}
use red_culture_service.Ai.Queue.{enqueue_cases}
use red_culture_service.Ai.Flows.{submit_answer-Inv}
use red_culture_service.Ai.Stages.{
  ◌⟶*◌, here, via, explained, unexplained, completed_absorbs, broken_absorbs,
}
use red_culture_service.Ai.Steps.{Machine, Reach, IsSound, Reach-IsSound}

-- From the explanation on, no flow waits for an answer again.
explaining_passes : (s : AiFlowStage) → generating_explanation ⟶* s → is_waiting s ≡ false
explaining_passes s here = refl
explaining_passes s (via explained p) = ap is_waiting (completed_absorbs s p)
explaining_passes s (via unexplained p) = ap is_waiting (broken_absorbs s p)

-- An answer that is accepted leaves the flow in the stage of the explanation.
pub submit_answer-explains :
    (s : AiOrchestratorService) (i : ℕ) (answer : String) (now : ℕ)
    → (submit_answer s i answer now).1.ok ≡ true
    → (flow : AiInteractionFlow) × (lookup ℕ_discrete i (submit_answer s i answer now).0.flows
        ≡ some flow)
      × (flow.stage ≡ generating_explanation)
unfolding submit_answer submit_found answered
submit_answer-explains s i answer now ok = elim (Option-cases (lookup ℕ_discrete i s.flows)) [
  | inl e ↦ absurd (let clash = rw (e, submit_answer) at ok in cc)
  | inr (flow, e) ↦ elim (Bool-cases (is_waiting flow.stage)) [
    | inr other ↦ absurd (let clash = rw (e, submit_answer, other) at ok in cc)
    | inl waits ↦
        let flow1 = answered flow answer now in
        elim (enqueue_cases s generate_explanation flow1.context flow1.explanation_prompt_template
          (some flow1.id) now) [
            | inl f ↦ absurd (let clash = rw (e, submit_answer, waits, submit_found, f) at ok in cc)
            | inr f ↦
                let flow2 = record flow1 { explanation_task_id = s.next_task_id } in
                (
                  flow2,
                  rw (e, submit_answer, waits, submit_found, f, f)
                      (lookup-insert_same ℕ_discrete i flow2 s.flows),
                  refl,
                )
          ]
  ]
]

-- If the invariant holds and the task ids last, then once a flow has accepted an answer, a further
-- answer to it is refused and changes nothing, whatever calls and locked parts of `tick`s have come
-- in between.
pub submit_answer_once :
    (m n : Machine) (i now later : ℕ) (answer other : String)
    → IsSound m
    → m.service.next_task_id + 1 < u64_mod
    → (submit_answer m.service i answer now).1.ok ≡ true
    → Reach (record m { service = (submit_answer m.service i answer now).0 }) n
    → ((submit_answer n.service i other later).0 ≡ n.service)
      × ((submit_answer n.service i other later).1.ok ≡ false)
unfolding submit_answer
submit_answer_once m n i now later answer other v lasts ok path =
    let (v1, _) = submit_answer-Inv m.service m.in_flight i answer now v lasts in
    let (_, moved) = Reach-IsSound path v1 in
    let (flow, stored, stage) = submit_answer-explains m.service i answer now ok in
    let (flow', stored', goes) = moved i flow stored in
    let past = explaining_passes flow'.stage (subst (λ s. s ⟶* flow'.stage) stage goes) in
    rw (stored', submit_answer, past) (refl, refl)
