-- ===== src/Gameplay/Recorded.antt =====
-- The last part of `submitAnswer` of src/gameplay/cultural_interaction_service.cpp: the interaction
-- is saved and stored, or the storage throws.
use red_culture_service.Common.{
  ℕ, refl, Bool, true, List, inl, inr, Option, ℕ_discrete, sym, ap, ◌∙◌, subst,
}
use red_culture_service.Common.Json.{JsonOps}
use red_culture_service.Common.Map.{insert, lookup-insert_cases}
use red_culture_service.Ai.Types as Ai
use red_culture_service.Voice.Types.{TextOps}
use red_culture_service.Gameplay.Types.{SubmitAnswerRequest, InteractionState}
use red_culture_service.Gameplay.Storage.{StorageOps}
use red_culture_service.Gameplay.Start.{World}
use red_culture_service.Gameplay.Answer.{
  interaction_id_of, explained, estimate_score, store_answer, record_answer,
}
use red_culture_service.Gameplay.Speech.{Kept}
use red_culture_service.Gameplay.Outcome.{
  WorldInv, IsAnswered, IsOwned, IsUnreadable, Ends, save_answer_event_cases,
  save_answer_event_throws,
}

module _ (X : TextOps) (one : X.Float) (W : JsonOps) (S : StorageOps W) where
  -- What the last part of a call leaves of the services and of the interactions.
  store_answer-IsAnswered :
      (in_flight : List ℕ) (w : World X S.State) (request : SubmitAnswerRequest)
      (state state' : InteractionState) (flow : Ai.AiInteractionFlow) (hit saved : Bool)
      (storage : Option S.State)
      → WorldInv X in_flight w
      → IsOwned w.gameplay request state
      → Kept (explained state request flow) state'
      → let done = record state' { snapshot = record (state'.snapshot) { completed = true } } in
        let (w', result) = store_answer X one W S w done hit storage saved in
        WorldInv X in_flight w' × IsAnswered w.gameplay w'.gameplay request result
  unfolding store_answer explained
  store_answer-IsAnswered in_flight w request state state' flow hit saved storage v owned kept =
      let done = record state' { snapshot = record (state'.snapshot) { completed = true } } in
      let at_id =
        kept.interaction_id ∙ v.named (interaction_id_of w.gameplay request) state owned.found in
      (
        record {
          ai = v.ai;
          tts = v.tts;
          named = λ j t e.
              elim (lookup-insert_cases ℕ_discrete j state'.snapshot.interaction_id done t
                w.gameplay.interactions e) [
                  | inl (q, same_state) ↦ ap (λ t. t.snapshot.interaction_id) (sym same_state) ∙ q
                  | inr (ne, old) ↦ v.named j t old
                ];
        },
        record {
          state = state;
          state' = done;
          found = owned.found;
          owner = owned.owner;
          open_before = owned.open_before;
          completed_after = refl;
          answer = kept.answer;
          flow_id = kept.flow_id;
          player_id = kept.player_id;
          question = kept.question;
          stored =
              ap
                (λ j. record (w.gameplay) {
                  interactions = insert ℕ_discrete j done w.gameplay.interactions;
                })
                at_id;
          ok = refl;
          reported = at_id;
        },
      )

  pub record_answer-Ends :
      (in_flight : List ℕ) (w : World X S.State) (request : SubmitAnswerRequest)
      (state state' : InteractionState) (flow : Ai.AiInteractionFlow) (hit : Bool)
      → WorldInv X in_flight w
      → IsOwned w.gameplay request state
      → Kept (explained state request flow) state'
      → Ends X W S in_flight w request (record_answer X one W S w request state' hit)
  unfolding record_answer explained
  record_answer-Ends in_flight w request state state' flow hit v owned kept =
      let done = record state' { snapshot = record (state'.snapshot) { completed = true } } in
      let score = estimate_score request.answer in
      elim (save_answer_event_cases X W S w.storage_service done score) [
        | inl bad ↦ inl (record {
          nothing =
              rw (save_answer_event_throws X W S w.storage_service done score bad, record_answer)
                refl;
          state = state;
          owned = owned;
          unreadable =
              subst (IsUnreadable X W S w.storage_service) (kept.player_id ∙ owned.owner) bad;
        })
        | inr (storage, saved, e) ↦
            let (v', answered) =
              store_answer-IsAnswered in_flight w request state state' flow hit saved storage v
                owned kept in
            inr (record {
              world = (store_answer X one W S w done hit storage saved).0;
              result = (store_answer X one W S w done hit storage saved).1;
              returned = rw (e, record_answer) refl;
              good = v';
              outcome = inr answered;
            })
      ]
