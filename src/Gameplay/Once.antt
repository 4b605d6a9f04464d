-- ===== src/Gameplay/Once.antt =====
-- An interaction of src/gameplay/cultural_interaction_service.cpp that has been answered refuses the
-- next answer.
use red_culture_service.Common.{
  ℕ, ◌+◌, ◌<◌, ◌≡◌, inl, inr, true, false, List, some, ℕ_discrete, u64_mod, sym, ap, ◌∙◌, subst,
}
use red_culture_service.Common.Json.{JsonOps}
use red_culture_service.Common.Map.{lookup, lookup-insert_same}
use red_culture_service.Voice.Types.{TextOps}
use red_culture_service.Gameplay.Types.{
  SubmitAnswerRequest, SubmitAnswerResult, InteractionState, CulturalInteractionService,
}
use red_culture_service.Gameplay.Storage.{StorageOps}
use red_culture_service.Gameplay.Start.{World}
use red_culture_service.Gameplay.Answer.{AnswerTimes, interaction_id_of, submit_answer}
use red_culture_service.Gameplay.Outcome.{WorldInv, IsAnswered}
use red_culture_service.Gameplay.Laws.{submit_answer-IsOutcome}

module _ (X : TextOps) (one : X.Float) (W : JsonOps) (S : StorageOps W) where
  -- If the AI and the speech service keep their invariants, every interaction is stored under its id
  -- and the task ids last, then after an interaction has been answered, a request that comes next
  -- and leads to the same interaction returns, is refused, and leaves the interactions as they were.
  pub submit_answer_twice :
      (in_flight : List ℕ) (g : CulturalInteractionService) (w : World X S.State)
      (first second : SubmitAnswerRequest) (reply : SubmitAnswerResult) (t : AnswerTimes X)
      → WorldInv X in_flight w
      → w.ai_service.next_task_id + 1 < u64_mod
      → IsAnswered g w.gameplay first reply
      → interaction_id_of w.gameplay second ≡ interaction_id_of g first
      → (w' : World X S.State) × (result : SubmitAnswerResult) × (submit_answer X one W S w second t
          ≡ some (w', result))
        × (result.ok ≡ false)
        × (w'.gameplay ≡ w.gameplay)
  submit_answer_twice in_flight g w first second reply t v lasts done same_id =
      elim (submit_answer-IsOutcome X one W S in_flight w second t v lasts) [
        | inl thrown ↦ absurd (never thrown.state thrown.owned.found thrown.owned.open_before)
        | inr ended ↦ elim ended.outcome [
          | inl (refused, kept) ↦ (ended.world, ended.result, ended.returned, refused, kept)
          | inr again ↦ absurd (never again.state again.found again.open_before)
        ]
      ]
    where
      never :
          (state : InteractionState)
          → lookup ℕ_discrete (interaction_id_of w.gameplay second) w.gameplay.interactions
            ≡ some state
          → ¬ (state.snapshot.completed ≡ false)
      never state found open_before =
          let id = interaction_id_of g first in
          let written : lookup ℕ_discrete id w.gameplay.interactions ≡ some done.state' =
            ap (λ g. lookup ℕ_discrete id g.interactions) done.stored
            ∙ lookup-insert_same ℕ_discrete id done.state' g.interactions in
          let read =
            subst (λ j. lookup ℕ_discrete j w.gameplay.interactions ≡ some state) same_id found in
          let same_state : done.state' ≡ state = cc in
          let clash : true ≡ false =
            sym done.completed_after ∙ ap (λ s. s.snapshot.completed) same_state ∙ open_before in
          cc
