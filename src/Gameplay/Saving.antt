-- ===== src/Gameplay/Saving.antt =====
-- `saveStartEvent` and `saveAnswerEvent` of src/gameplay/cultural_interaction_service.cpp: what an
-- interaction writes to the storage.
use red_culture_service.Common.{
  ℕ, Bool, true, false, not, Option, none, some, is_empty, is_some, ltb, if◌then◌else◌,
}
use red_culture_service.Common.Json.{JsonOps}
use red_culture_service.Gameplay.Types.{InteractionState}
use red_culture_service.Gameplay.Storage.{StorageOps, UserProfile, StorageResult, InsertResult}
use red_culture_service.Gameplay.Records.{
  profile_of, started_record, started_event, answer_record, completed_record, audio_record,
  progress_record, AnswerWrites, all_saved, answered_event,
}

module _ (W : JsonOps) (S : StorageOps W) where
  unfoldable pub storage_available : Option S.State → Bool
  storage_available none = false
  storage_available (some storage) = S.is_connected storage

  -- The interaction and the event, once the user is there.
  unfoldable pub insert_started : S.State → InteractionState → S.State × InsertResult
  unfolding started_record started_event
  insert_started storage state =
      let (storage1, inserted) = S.start_cultural_interaction storage (started_record W state) in
      ((S.append_event_log storage1 (started_event W state inserted)).0, inserted)

  -- The user is written, if the storage has none of that name.
  unfoldable pub ensure_user :
      S.State → InteractionState → Option (UserProfile W) → S.State × StorageResult
  ensure_user storage state user =
      if is_some user
      then (storage, record { ok = true; error = "" })
      else S.upsert_user storage (profile_of W state)

  -- `none` is an exception that leaves the call.
  unfoldable pub save_start_event :
      Option S.State → InteractionState → Option (Option S.State × InsertResult)
  unfolding storage_available ensure_user insert_started
  save_start_event none state =
      some (none, record { ok = false; error = "storage is not connected"; id = 0 })
  save_start_event (some storage) state =
      if not (S.is_connected storage)
      then some (some storage, record { ok = false; error = "storage is not connected"; id = 0 })
      else elim (S.find_user storage state.snapshot.player_id) [
        | none ↦ none
        | some user ↦
            let (storage1, user_saved) = ensure_user storage state user in
            if not user_saved.ok
            then some (some storage1, record { ok = false; error = user_saved.error; id = 0 })
            else let (storage2, inserted) = insert_started storage1 state in
              some (some storage2, inserted)
      ]

  -- The writes to a storage that has the user, in their order.
  unfoldable pub write_records : S.State → InteractionState → ℕ → S.State × AnswerWrites
  unfolding answer_record completed_record audio_record progress_record
  write_records storage1 state score =
      let (storage2, answer_inserted) =
        S.append_answer_record storage1 (answer_record W state score) in
      let (storage3, interaction_updated) =
        if ltb 0 state.storage_interaction_id
        then S.complete_cultural_interaction storage2
            (completed_record W state score answer_inserted)
        else (storage2, record { ok = false; error = "interaction was not persisted at start" }) in
      let (storage4, tts_saved) =
        if is_empty state.snapshot.audio_id
        then (storage3, record { ok = true; error = "" })
        else S.save_tts_audio_resource storage3 (audio_record W state) in
      let (storage5, progress_saved) = S.save_progress storage4 (progress_record W state score) in
      (
        storage5,
        record {
          answer_inserted = answer_inserted;
          interaction_updated = interaction_updated;
          tts_saved = tts_saved;
          progress_saved = progress_saved;
        },
      )

  -- The writes to a storage that is connected. `none` is an exception that leaves the call.
  unfoldable pub write_answer : S.State → InteractionState → ℕ → Option (S.State × AnswerWrites)
  unfolding ensure_user write_records
  write_answer storage state score = elim (S.find_user storage state.snapshot.player_id) [
    | none ↦ none
    | some user ↦ some (write_records (ensure_user storage state user).0 state score)
  ]

  -- `none` is an exception that leaves the call.
  unfoldable pub save_answer_event :
      Option S.State → InteractionState → ℕ → Option (Option S.State × Bool)
  unfolding write_answer answered_event
  save_answer_event none state score = some (none, false)
  save_answer_event (some storage) state score =
      if not (S.is_connected storage)
      then some (some storage, false)
      else elim (write_answer storage state score) [
        | none ↦ none
        | some (storage1, writes) ↦
            let (storage2, logged) =
              S.append_event_log storage1 (answered_event W state score writes) in
            some (some storage2, all_saved writes)
      ]
