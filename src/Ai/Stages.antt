-- ===== src/Ai/Stages.antt =====
-- The stages of a flow of `AiOrchestratorService`: the diagram, and what a change of the table of
-- flows may do to the stages.
use red_culture_service.Common.{ℕ, ◌≡◌, refl, List, some, ℕ_discrete, sym, ◌∙◌, subst}
use red_culture_service.Common.Map.{lookup, insert, lookup-insert_same, lookup-insert_ne}
use red_culture_service.Ai.Types.{
  AiFlowStage, generating_question, waiting_answer, generating_explanation, completed, broken,
  AiInteractionFlow,
}

infix 40 ◌⟶◌ ◌⟶*◌
pub data ◌⟶◌ : AiFlowStage → AiFlowStage → Type 0 where
  asked : generating_question ⟶ waiting_answer
  unasked : generating_question ⟶ broken
  answered : waiting_answer ⟶ generating_explanation
  rejected : waiting_answer ⟶ broken
  explained : generating_explanation ⟶ completed
  unexplained : generating_explanation ⟶ broken

pub data ◌⟶*◌ : AiFlowStage → AiFlowStage → Type 0 where
  here : {s : AiFlowStage} → s ⟶* s
  via : {s t u : AiFlowStage} → s ⟶ t → t ⟶* u → s ⟶* u

pub ⟶*-trans : {s t u : AiFlowStage} → s ⟶* t → t ⟶* u → s ⟶* u
⟶*-trans here q = q
⟶*-trans (via e p) q = via e (⟶*-trans p q)

-- Every flow of the first table is in the second one, in its stage or in a later one.
abbrev pub Moves : List (ℕ × AiInteractionFlow) → List (ℕ × AiInteractionFlow) → Type 0
Moves flows flows' =
    (i : ℕ) (flow : AiInteractionFlow)
    → lookup ℕ_discrete i flows ≡ some flow
    → (flow' : AiInteractionFlow) × (lookup ℕ_discrete i flows' ≡ some flow')
      × (flow.stage ⟶* flow'.stage)

pub Moves-refl : (flows : List (ℕ × AiInteractionFlow)) → Moves flows flows
Moves-refl flows i flow e = (flow, e, here)

pub Moves-trans : (l m n : List (ℕ × AiInteractionFlow)) → Moves l m → Moves m n → Moves l n
Moves-trans l m n p q i flow e =
    let (f, e', path) = p i flow e in
    let (g, e'', path') = q i f e' in (g, e'', ⟶*-trans path path')

-- One flow is written, and it has moved.
pub insert-Moves :
    (i : ℕ) (flow : AiInteractionFlow) (flows : List (ℕ × AiInteractionFlow))
    → ((old : AiInteractionFlow) → lookup ℕ_discrete i flows ≡ some old → old.stage ⟶* flow.stage)
    → Moves flows (insert ℕ_discrete i flow flows)
insert-Moves i flow flows moved j f e = elim (ℕ_discrete j i) [
  | yes q ↦ (
    flow,
    subst (λ k. lookup ℕ_discrete k (insert ℕ_discrete i flow flows) ≡ some flow) (sym q)
        (lookup-insert_same ℕ_discrete i flow flows),
    moved f (subst (λ k. lookup ℕ_discrete k flows ≡ some f) q e),
  )
  | no ne ↦ (f, lookup-insert_ne ℕ_discrete j i flow flows ne ∙ e, here)
]

-- The diagram ends in `completed` and in `broken`.
pub completed_absorbs : (s : AiFlowStage) → completed ⟶* s → s ≡ completed
completed_absorbs s here = refl
completed_absorbs s (via e _) = elim e [ ]

pub broken_absorbs : (s : AiFlowStage) → broken ⟶* s → s ≡ broken
broken_absorbs s here = refl
broken_absorbs s (via e _) = elim e [ ]
