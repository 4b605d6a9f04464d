-- ===== src/Ai/Flows.antt =====
-- `startQuestionFlow` and `submitAnswer` of `AiOrchestratorService` keep the invariant, and move the
-- flows along the diagram.
use red_culture_service.Common.{
  ℕ, ◌+◌, ◌<◌, ◌≡◌, ◌≢◌, refl, inl, inr, String, true, List, some, ℕ_discrete, u64_mod, inc_u64,
  inc_u64_lem, arith, sym, ap, ◌∙◌, subst, Bool-cases, Option-cases,
}
use red_culture_service.Common.Map.{lookup, insert, lookup-insert_same}
use red_culture_service.Ai.Types.{
  AiTaskKind, generate_question, generate_explanation, generate_hint, waiting_answer,
  generating_question, generating_explanation, broken, AiFlowStage, completed, AiContext,
  AiInteractionFlow, AiOrchestratorService,
}
use red_culture_service.Ai.Tasks.{
  new_task, new_flow, answered, start_question_flow, submit_found, submit_answer, is_waiting,
}
use red_culture_service.Ai.Invariant.{Inv, IsAwaited, IsUnawaited, awaiting, put_flow-Inv}
use red_culture_service.Ai.Stages.{
  Moves, Moves-refl, insert-Moves, ◌⟶*◌, via, here, rejected, answered as answers,
}
use red_culture_service.Ai.Queue.{unawaited, new_task-Inv, enqueue_cases}

-- No flow is stored under the next id.
unused :
    (s : AiOrchestratorService) (in_flight : List ℕ) (flow : AiInteractionFlow)
    → Inv s in_flight
    → lookup ℕ_discrete s.next_flow_id s.flows ≢ some flow
unused s in_flight flow v e =
    let (named, older) = v.flows s.next_flow_id flow e in absurd (omega arith)

pub start_question_flow-Inv :
    (s : AiOrchestratorService) (in_flight : List ℕ) (context : AiContext)
    (question_prompt explanation_prompt : String) (now : ℕ)
    → Inv s in_flight
    → s.next_task_id + 1 < u64_mod
    → s.next_flow_id + 1 < u64_mod
    → let s' = (start_question_flow s context question_prompt explanation_prompt now).0 in
      Inv s' in_flight × Moves s.flows s'.flows
unfolding start_question_flow new_flow new_task
start_question_flow-Inv s in_flight context question_prompt explanation_prompt now v lasts last =
    let next = inc_u64_lem s.next_flow_id last in
    let s1 = record s { next_flow_id = inc_u64 s.next_flow_id } in
    let flow = new_flow s context question_prompt explanation_prompt now in
    let flow' = record flow { question_task_id = s.next_task_id } in
    elim (enqueue_cases s1 generate_question flow.context flow.question_prompt_template
      (some flow.id) now) [
        | inl e ↦
            rw (e, start_question_flow, e)
              (
                record {
                  unwrapped = v.unwrapped;
                  mapped = v.mapped;
                  tasks = λ id task e.
                      let good = v.tasks id task e in
                      record {
                        named = good.named;
                        older = good.older;
                        bounded = good.bounded;
                        left = good.left;
                        linked = good.linked;
                      };
                  flows = λ i f e. let (named, older) = v.flows i f e in (named, omega arith);
                  away = v.away;
                },
                Moves-refl s.flows,
              )
        | inr e ↦
            let v' =
              put_flow-Inv s in_flight flow' (inc_u64 s.next_flow_id) v
                (unawaited s in_flight s.next_flow_id v (λ f q. absurd (unused s in_flight f v q)))
                (omega arith) (omega arith) in
            let s2 = record s1 { flows = insert ℕ_discrete s.next_flow_id flow' s.flows } in
            let task =
              new_task s1 generate_question flow.context flow.question_prompt_template
                (some flow.id) now in
            rw (e, start_question_flow, e)
              (
                new_task-Inv s2 in_flight task v' lasts refl refl refl (λ i q.
                    let same : s.next_flow_id ≡ i = cc in
                    subst (λ i. IsAwaited s2.flows i task) same
                      (
                        flow',
                        lookup-insert_same ℕ_discrete s.next_flow_id flow' s.flows,
                        refl,
                        refl,
                      )),
                insert-Moves s.next_flow_id flow' s.flows
                    (λ f q. absurd (unused s in_flight f v q)),
              )
      ]

pub is_waiting_lem : (stage : AiFlowStage) → is_waiting stage ≡ true → stage ≡ waiting_answer
is_waiting_lem waiting_answer h = refl
is_waiting_lem generating_question h = cc
is_waiting_lem generating_explanation h = cc
is_waiting_lem completed h = cc
is_waiting_lem broken h = cc

awaiting_other : (k : AiTaskKind) → awaiting k ≢ some waiting_answer
awaiting_other generate_question q = absurd (cc)
awaiting_other generate_explanation q = absurd (cc)
awaiting_other generate_hint q = absurd (cc)

-- What is stored under a key is one entry.
stage_of :
    (s : AiOrchestratorService) (i : ℕ) (f g : AiInteractionFlow)
    → lookup ℕ_discrete i s.flows ≡ some f
    → lookup ℕ_discrete i s.flows ≡ some g
    → g.stage ≡ f.stage
stage_of s i f g e e' = let same : g ≡ f = cc in ap (λ f. f.stage) same

-- No task can still end in a flow that waits for its answer.
waiting_idle :
    (s : AiOrchestratorService) (i : ℕ) (f : AiInteractionFlow)
    → lookup ℕ_discrete i s.flows ≡ some f
    → f.stage ≡ waiting_answer
    → (g : AiInteractionFlow) → lookup ℕ_discrete i s.flows ≡ some g
    → (k : AiTaskKind) → awaiting k ≢ some g.stage
waiting_idle s i f e waits g e' k q = awaiting_other k (q ∙ ap some (stage_of s i f g e e' ∙ waits))

waiting_path :
    (stage stage' : AiFlowStage)
    → stage ≡ waiting_answer
    → waiting_answer ⟶* stage'
    → stage ⟶* stage'
waiting_path stage stage' q path = subst (λ s. s ⟶* stage') (sym q) path

-- A flow that is stored is written again.
pub stored_flow-Inv :
    (s : AiOrchestratorService) (in_flight : List ℕ) (i : ℕ) (flow : AiInteractionFlow)
    → Inv s in_flight
    → flow.id ≡ i
    → i < s.next_flow_id
    → IsUnawaited s in_flight i
    → Inv (record s { flows = insert ℕ_discrete i flow s.flows }) in_flight
stored_flow-Inv s in_flight i flow v named older idle =
    subst (λ i. Inv (record s { flows = insert ℕ_discrete i flow s.flows }) in_flight) named
      (put_flow-Inv s in_flight flow s.next_flow_id v
        (subst (IsUnawaited s in_flight) (sym named) idle) (omega arith) (omega arith))

submit_found-Inv :
    (s : AiOrchestratorService) (in_flight : List ℕ) (flow_id : ℕ) (flow : AiInteractionFlow)
    (answer : String) (now : ℕ)
    → Inv s in_flight
    → s.next_task_id + 1 < u64_mod
    → lookup ℕ_discrete flow_id s.flows ≡ some flow
    → flow.stage ≡ waiting_answer
    → let s' = (submit_found s flow_id flow answer now).0 in
      Inv s' in_flight × Moves s.flows s'.flows
unfolding submit_found answered new_task
submit_found-Inv s in_flight flow_id flow answer now v lasts stored waits =
    let (named, older) = v.flows flow_id flow stored in
    let idle = unawaited s in_flight flow_id v (waiting_idle s flow_id flow stored waits) in
    let flow1 = answered flow answer now in
    let prompt = flow1.explanation_prompt_template in
    elim (enqueue_cases s generate_explanation flow1.context prompt (some flow1.id) now) [
      | inl e ↦
          let flow2 = record flow1 { stage = broken; error = "AI task queue is full" } in
          rw (e, submit_found, e)
            (
              stored_flow-Inv s in_flight flow_id flow2 v named older idle,
              insert-Moves flow_id flow2 s.flows (λ f q.
                  waiting_path f.stage broken (stage_of s flow_id flow f stored q ∙ waits)
                    (via rejected here)),
            )
      | inr e ↦
          let flow2 = record flow1 { explanation_task_id = s.next_task_id } in
          let task = new_task s generate_explanation flow1.context prompt (some flow1.id) now in
          let s2 = record s { flows = insert ℕ_discrete flow_id flow2 s.flows } in
          rw (e, submit_found, e)
            (
              new_task-Inv s2 in_flight task
                  (stored_flow-Inv s in_flight flow_id flow2 v named older idle) lasts refl refl
                  refl
                  (λ i q.
                    let same : flow_id ≡ i = let q' : some flow.id ≡ some i = q in sym named ∙ cc in
                    subst (λ i. IsAwaited s2.flows i task) same
                      (flow2, lookup-insert_same ℕ_discrete flow_id flow2 s.flows, refl, refl)),
              insert-Moves flow_id flow2 s.flows (λ f q.
                  waiting_path f.stage generating_explanation
                    (stage_of s flow_id flow f stored q ∙ waits) (via answers here)),
            )
    ]

pub submit_answer-Inv :
    (s : AiOrchestratorService) (in_flight : List ℕ) (flow_id : ℕ) (answer : String) (now : ℕ)
    → Inv s in_flight
    → s.next_task_id + 1 < u64_mod
    → let s' = (submit_answer s flow_id answer now).0 in Inv s' in_flight × Moves s.flows s'.flows
unfolding submit_answer
submit_answer-Inv s in_flight flow_id answer now v lasts =
    elim (Option-cases (lookup ℕ_discrete flow_id s.flows)) [
      | inl e ↦ rw (e, submit_answer) (v, Moves-refl s.flows)
      | inr (flow, e) ↦ elim (Bool-cases (is_waiting flow.stage)) [
        | inl waits ↦
            rw (e, submit_answer, waits)
              (submit_found-Inv s in_flight flow_id flow answer now v lasts e
                (is_waiting_lem flow.stage waits))
        | inr other ↦ rw (e, submit_answer, other) (v, Moves-refl s.flows)
      ]
    ]
