-- ===== src/Gameplay/Laws.antt =====
-- How a call of `submitAnswer` of src/gameplay/cultural_interaction_service.cpp ends.
use red_culture_service.Common.{
  ℕ, ◌+◌, ◌<◌, ◌≡◌, refl, Bool, true, false, List, ◌⊎◌, inl, inr, Option, none, some, String,
  u64_mod, subst, Option-cases, if◌then◌else◌,
}
use red_culture_service.Common.Json.{JsonOps}
use red_culture_service.Ai.Types as Ai
use red_culture_service.Ai.Tasks as AiTasks
use red_culture_service.Ai.Flows.{submit_answer-Inv}
use red_culture_service.Ai.Steps.{Machine, Reach-IsSound}
use red_culture_service.Ai.Loop.{tick-Reach}
use red_culture_service.Voice.Types.{TextOps}
use red_culture_service.Voice.Invariant as VoiceInvariant
use red_culture_service.Gameplay.Types.{
  SubmitAnswerRequest, SubmitAnswerResult, InteractionState, refused_answer,
}
use red_culture_service.Gameplay.Storage.{StorageOps}
use red_culture_service.Gameplay.Start.{World, flow_of, flow_or}
use red_culture_service.Gameplay.Answer.{
  AnswerTimes, owned_interaction, explained, answer_error, answer_speech, answer_flow,
  submit_answer,
}
use red_culture_service.Gameplay.Speech.{Kept-refl, speak-Kept}
use red_culture_service.Gameplay.Recorded.{record_answer-Ends}
use red_culture_service.Gameplay.Outcome.{
  WorldInv, IsOutcome, IsOwned, owned_lem, IsUnreadable, Ends,
}

Sum-cases : {A B : Type 0} (x : A ⊎ B) → ((a : A) × (x ≡ inl a)) ⊎ ((b : B) × (x ≡ inr b))
Sum-cases (inl a) = inl (a, refl)
Sum-cases (inr b) = inr (b, refl)

enabled_tts :
    {T : Type 0} (enabled : Bool) (service : Option T) (tts : T)
    → (if enabled then service else none) ≡ some tts
    → service ≡ some tts
enabled_tts true service tts q = q
enabled_tts false service tts q = cc

some-injective : {T : Type 0} {a b : T} → some a ≡ some b → a ≡ b
some-injective q = cc

module _ (X : TextOps) (one : X.Float) (W : JsonOps) (S : StorageOps W) where
  -- What a call ends in depends on the interactions and the storage alone.
  Ends-same :
      (in_flight : List ℕ) (w1 w : World X S.State) (request : SubmitAnswerRequest)
      (r : Option (World X S.State × SubmitAnswerResult))
      → w1.gameplay ≡ w.gameplay
      → w1.storage_service ≡ w.storage_service
      → Ends X W S in_flight w1 request r
      → Ends X W S in_flight w request r
  Ends-same in_flight w1 w request r g storage (inl thrown) = inl (record {
    nothing = thrown.nothing;
    state = thrown.state;
    owned = subst (λ g. IsOwned g request thrown.state) g thrown.owned;
    unreadable = subst (λ s. IsUnreadable X W S s request.player_id) storage thrown.unreadable;
  })
  Ends-same in_flight w1 w request r g storage (inr ended) = inr (record {
    world = ended.world;
    result = ended.result;
    returned = ended.returned;
    good = ended.good;
    outcome = subst (λ g. IsOutcome g ended.world.gameplay request ended.result) g ended.outcome;
  })

  refused-Ends :
      (in_flight : List ℕ) (w : World X S.State) (request : SubmitAnswerRequest) (error : String)
      → WorldInv X in_flight w
      → Ends X W S in_flight w request (some (w, refused_answer error))
  refused-Ends in_flight w request error v = inr (record {
    world = w;
    result = refused_answer error;
    returned = refl;
    good = v;
    outcome = inl (refl, refl);
  })

  answer_speech-Ends :
      (in_flight : List ℕ) (w : World X S.State) (request : SubmitAnswerRequest)
      (state : InteractionState) (flow : Ai.AiInteractionFlow) (t : AnswerTimes X)
      → WorldInv X in_flight w
      → IsOwned w.gameplay request state
      → Ends X W S in_flight w request
          (answer_speech X one W S w request (explained state request flow) t)
  unfolding answer_speech
  answer_speech-Ends in_flight w request state flow t v owned =
      let told = explained state request flow in
      elim (Option-cases (if w.gameplay.config.enable_tts then w.tts_service else none)) [
        | inl e ↦
            rw (e, answer_speech)
              (record_answer-Ends X one W S in_flight w request state told flow false v owned
                (Kept-refl told))
        | inr (tts, e) ↦
            let good = v.tts tts (enabled_tts w.gameplay.config.enable_tts w.tts_service tts e) in
            let (tts', state', hit, f, good', kept) =
              speak-Kept X one tts w.gameplay.config.tts_tick_batch_size told t.spoken_at
                t.tts_clock good in
            let w1 = record w { tts_service = some tts' } in
            let v1 : WorldInv X in_flight w1 = record {
              ai = v.ai;
              tts = λ t q. subst (VoiceInvariant.Inv X) (some-injective q) good';
              named = v.named;
            } in
            let ended =
              record_answer-Ends X one W S in_flight w1 request state state' flow hit v1 owned
                kept in
            rw (e, answer_speech, f) (Ends-same in_flight w1 w request _ refl refl ended)
      ]

  answer_flow-Ends :
      (in_flight : List ℕ) (w : World X S.State) (request : SubmitAnswerRequest)
      (state : InteractionState) (t : AnswerTimes X)
      → WorldInv X in_flight w
      → w.ai_service.next_task_id + 1 < u64_mod
      → IsOwned w.gameplay request state
      → Ends X W S in_flight w request (answer_flow X one W S w request state t)
  unfolding answer_flow
  answer_flow-Ends in_flight w request state t v lasts owned =
      let flow_id = state.snapshot.flow_id in
      let batch_size = w.gameplay.config.ai_tick_batch_size in
      let submitted = AiTasks.submit_answer w.ai_service flow_id request.answer t.answered_at in
      let (v1, _) =
        submit_answer-Inv w.ai_service in_flight flow_id request.answer t.answered_at v.ai lasts in
      elim (Option-cases (flow_of submitted.1)) [
        | inl e ↦ inr (record {
          world = record w { ai_service = submitted.0 };
          result = refused_answer (AiTasks.or_default submitted.1.error "failed to submit answer");
          returned = rw (e, answer_flow) refl;
          good = record { ai = v1; tts = v.tts; named = v.named };
          outcome = inl (refl, refl);
        })
        | inr (flow, e) ↦
            let m : Machine = record { service = submitted.0; in_flight = in_flight } in
            let (ai2, ticks, f, path, k, turns, over, counted) =
              tick-Reach batch_size t.ai_clock m v1 in
            let (v2, _) = Reach-IsSound path v1 in
            let w2 = record w { ai_service = ai2 } in
            let ended =
              answer_speech-Ends in_flight w2 request state
                (flow_or (AiTasks.find_flow ai2 flow_id) flow) t
                (record { ai = v2; tts = v.tts; named = v.named }) owned in
            rw (e, answer_flow, f) (Ends-same in_flight w2 w request _ refl refl ended)
      ]

  -- If the AI and the speech service keep their invariants, every interaction is stored under its id
  -- and the task ids last, then `submitAnswer` throws only where the interaction of the request is
  -- stored, not completed and the player's own, the storage is connected, and looking the player up
  -- in it throws. Otherwise it returns, with any storage, and the invariants hold again: either it
  -- fails and leaves the interactions as they were, or the interaction of the request was stored,
  -- not completed and the player's own, and it is now stored as completed with the answer of the
  -- request, for the same flow, player and question, and no other interaction has changed.
  pub submit_answer-IsOutcome :
      (in_flight : List ℕ) (w : World X S.State) (request : SubmitAnswerRequest) (t : AnswerTimes X)
      → WorldInv X in_flight w
      → w.ai_service.next_task_id + 1 < u64_mod
      → Ends X W S in_flight w request (submit_answer X one W S w request t)
  unfolding submit_answer
  submit_answer-IsOutcome in_flight w request t v lasts =
      elim (Option-cases (answer_error X one W S w request)) [
        | inr (error, e) ↦ rw (e, submit_answer) (refused-Ends in_flight w request error v)
        | inl e ↦ elim (Sum-cases (owned_interaction w.gameplay request)) [
          | inl (error, f) ↦ rw (e, submit_answer, f) (refused-Ends in_flight w request error v)
          | inr (state, f) ↦
              rw (e, submit_answer, f)
                (answer_flow-Ends in_flight w request state t v lasts
                  (owned_lem w.gameplay request state f))
        ]
      ]
