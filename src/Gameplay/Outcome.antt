-- ===== src/Gameplay/Outcome.antt =====
-- What a call of `submitAnswer` in src/gameplay/cultural_interaction_service.cpp may do to the
-- interactions.
use red_culture_service.Common.{
  ℕ, ◌≡◌, refl, String, Bool, true, false, List, ◌⊎◌, inl, inr, Option, none, some, ℕ_discrete,
  str_dec, same, arith, sym, ◌∙◌, subst, Bool-cases, Option-cases,
}
use red_culture_service.Common.Json.{JsonOps}
use red_culture_service.Common.Map.{lookup, insert}
use red_culture_service.Ai.Invariant as AiInvariant
use red_culture_service.Voice.Types.{TextOps, VoiceTtsService}
use red_culture_service.Voice.Invariant as VoiceInvariant
use red_culture_service.Gameplay.Types.{
  SubmitAnswerRequest, SubmitAnswerResult, InteractionState, CulturalInteractionService,
}
use red_culture_service.Gameplay.Storage.{StorageOps}
use red_culture_service.Gameplay.Records.{answered_event, all_saved}
use red_culture_service.Gameplay.Saving.{
  ensure_user, write_records, write_answer, save_answer_event,
}
use red_culture_service.Gameplay.Start.{World}
use red_culture_service.Gameplay.Answer.{interaction_id_of, owned_interaction}

same_lem : (s t : String) → same s t ≡ true → s ≡ t
same_lem s t h = elim (str_dec s t) [ yes q ↦ q | no ne ↦ absurd (ground arith) ]

-- What holds of the services before and after: their invariants, and every interaction under its id.
pub record WorldInv {State : Type 0} (X : TextOps) (in_flight : List ℕ) (w : World X State)
    : Type 0 where
  pub ai : AiInvariant.Inv w.ai_service in_flight
  pub tts : (tts : VoiceTtsService X) → w.tts_service ≡ some tts → VoiceInvariant.Inv X tts
  pub named :
      (id : ℕ) (state : InteractionState)
      → lookup ℕ_discrete id w.gameplay.interactions ≡ some state
      → state.snapshot.interaction_id ≡ id

-- The owner of a stored interaction that was not completed has answered it.
pub record IsAnswered (g g' : CulturalInteractionService) (request : SubmitAnswerRequest)
    (result : SubmitAnswerResult) : Type 0 where
  pub state : InteractionState
  pub state' : InteractionState
  pub found : lookup ℕ_discrete (interaction_id_of g request) g.interactions ≡ some state
  pub owner : state.snapshot.player_id ≡ request.player_id
  pub open_before : state.snapshot.completed ≡ false
  pub completed_after : state'.snapshot.completed ≡ true
  pub answer : state'.snapshot.answer ≡ request.answer
  pub flow_id : state'.snapshot.flow_id ≡ state.snapshot.flow_id
  pub player_id : state'.snapshot.player_id ≡ state.snapshot.player_id
  pub question : state'.snapshot.question ≡ state.snapshot.question
  pub stored : g' ≡ record g {
    interactions = insert ℕ_discrete (interaction_id_of g request) state' g.interactions;
  }
  pub ok : result.ok ≡ true
  pub reported : result.interaction_id ≡ interaction_id_of g request

-- A call answers an interaction, or it fails and leaves the interactions alone.
abbrev pub IsOutcome :
    CulturalInteractionService
    → CulturalInteractionService
    → SubmitAnswerRequest
    → SubmitAnswerResult
    → Type 0
IsOutcome g g' request result = ((result.ok ≡ false) × (g' ≡ g)) ⊎ IsAnswered g g' request result

-- What the first locked part hands on.
pub record IsOwned (g : CulturalInteractionService) (request : SubmitAnswerRequest)
    (state : InteractionState) : Type 0 where
  pub found : lookup ℕ_discrete (interaction_id_of g request) g.interactions ≡ some state
  pub owner : state.snapshot.player_id ≡ request.player_id
  pub open_before : state.snapshot.completed ≡ false

inr-inj : {a b : InteractionState} → Path (String ⊎ InteractionState) (inr a) (inr b) → a ≡ b
inr-inj q = cc

pub owned_lem :
    (g : CulturalInteractionService) (request : SubmitAnswerRequest) (state : InteractionState)
    → owned_interaction g request ≡ inr state
    → IsOwned g request state
unfolding owned_interaction
owned_lem g request state h =
    elim (Option-cases (lookup ℕ_discrete (interaction_id_of g request) g.interactions)) [
      | inl e ↦ absurd (let clash = rw (e, owned_interaction) at h in cc)
      | inr (s, e) ↦ elim (Bool-cases (same s.snapshot.player_id request.player_id)) [
        | inr other ↦ absurd (let clash = rw (e, owned_interaction, other) at h in cc)
        | inl own ↦ elim (Bool-cases s.snapshot.completed) [
          | inl over ↦ absurd (let clash = rw (e, owned_interaction, own, over) at h in cc)
          | inr open_before ↦
              let found : owned_interaction g request ≡ inr s =
                rw (e, owned_interaction, own, open_before) refl in
              let same_state : s ≡ state = inr-inj (sym found ∙ h) in
              subst (IsOwned g request) same_state (record {
                found = e;
                owner = same_lem s.snapshot.player_id request.player_id own;
                open_before = open_before;
              })
        ]
      ]
    ]

module _ (X : TextOps) (W : JsonOps) (S : StorageOps W) where
  -- The storage is connected, and looking the player up throws.
  pub record IsUnreadable (service : Option S.State) (player_id : String) : Type 0 where
    pub storage : S.State
    pub there : service ≡ some storage
    pub connected : S.is_connected storage ≡ true
    pub throws : S.find_user storage player_id ≡ none

  -- The call throws: the request is the owner's, for an interaction that was not completed, and the
  -- storage cannot be read.
  pub record IsThrown (w : World X S.State) (request : SubmitAnswerRequest)
      (r : Option (World X S.State × SubmitAnswerResult)) : Type 0 where
    pub nothing : r ≡ none
    pub state : InteractionState
    pub owned : IsOwned w.gameplay request state
    pub unreadable : IsUnreadable w.storage_service request.player_id

  -- The call returns: the invariants hold again, and it has answered an interaction or failed.
  pub record IsReturned (in_flight : List ℕ) (w : World X S.State) (request : SubmitAnswerRequest)
      (r : Option (World X S.State × SubmitAnswerResult)) : Type 0 where
    pub world : World X S.State
    pub result : SubmitAnswerResult
    pub returned : r ≡ some (world, result)
    pub good : WorldInv X in_flight world
    pub outcome : IsOutcome w.gameplay world.gameplay request result

  abbrev pub Ends :
      List ℕ
      → World X S.State
      → SubmitAnswerRequest
      → Option (World X S.State × SubmitAnswerResult)
      → Type 0
  Ends in_flight w request r = IsThrown w request r ⊎ IsReturned in_flight w request r

  -- Only the lookup of the player can throw in `saveAnswerEvent`.
  pub save_answer_event_cases :
      (service : Option S.State) (state : InteractionState) (score : ℕ)
      → IsUnreadable service state.snapshot.player_id
        ⊎ ((storage : Option S.State) × (saved : Bool) × (save_answer_event W S service state score
              ≡ some (storage, saved)))
  unfolding save_answer_event write_answer
  save_answer_event_cases none state score = inr (none, false, refl)
  save_answer_event_cases (some storage) state score = elim (Bool-cases (S.is_connected storage)) [
    | inr off ↦ inr (some storage, false, rw (off, save_answer_event) refl)
    | inl on ↦ elim (Option-cases (S.find_user storage state.snapshot.player_id)) [
      | inl e ↦ inl (record { storage = storage; there = refl; connected = on; throws = e })
      | inr (user, e) ↦
          let (storage1, writes) =
            write_records W S (ensure_user W S storage state user).0 state score in
          inr (
            some (S.append_event_log storage1 (answered_event W state score writes)).0,
            all_saved writes,
            rw (on, save_answer_event, write_answer, e) refl,
          )
    ]
  ]

  -- Where the lookup throws, so does `saveAnswerEvent`.
  pub save_answer_event_throws :
      (service : Option S.State) (state : InteractionState) (score : ℕ)
      → IsUnreadable service state.snapshot.player_id
      → save_answer_event W S service state score ≡ none
  unfolding save_answer_event write_answer
  save_answer_event_throws service state score bad =
      rw (bad.there, save_answer_event, bad.connected, write_answer, bad.throws) refl
