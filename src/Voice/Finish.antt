-- ===== src/Voice/Finish.antt =====
-- The end of a task in src/voice_tts/voice_tts_service.cpp, `finishTaskLocked`, and the loop of
-- `tick`, in which the client is called with the mutex released. The queries are here as well.
use red_culture_service.Common.{
  ℕ, zero, suc, ◌+◌, ◌-◌, ◌*◌, ◌/◌, String, Bool, false, ◌&&◌, not, List, [], ◌∷◌, ◌++◌, map,
  Option, none, some, ℕ_discrete, is_empty, ltb, if◌then◌else◌, count_if, ns_per_ms, ns_per_second,
}
use red_culture_service.Common.Map.{lookup, insert, size}
use red_culture_service.Voice.Types.{
  TextOps, TtsTask, queued, succeeded, failed, timed_out, AudioResource, TtsProviderRequest,
  TtsProviderResponse, RunningTask, TickResult, VoiceTtsService, VoiceTtsConfig, wav, mime_type_of,
}
use red_culture_service.Voice.Cache.{build_audio_id, store_cache_locked}
use red_culture_service.Voice.Tasks.{
  max_attempts_from_retries, is_queued, no_bytes, take_next_task_locked,
}

-- The response that counts: one that came too late is a failure.
unfoldable pub checked_response : VoiceTtsConfig → TtsProviderResponse → ℕ → TtsProviderResponse
checked_response config response elapsed =
    if ltb config.request_timeout elapsed
    then record response { ok = false; error = "TTS request timed out" }
    else response

unfoldable pub audio_of : String → ℕ → VoiceTtsConfig → TtsProviderResponse → ℕ → AudioResource
unfolding build_audio_id
audio_of cache_key id config response now = record {
  id = build_audio_id cache_key id;
  format = response.format;
  mime_type =
      if is_empty response.mime_type then mime_type_of response.format else response.mime_type;
  bytes = response.bytes;
  duration = response.duration;
  created_at = now;
  expires_at = now + config.cache_ttl * ns_per_second;
  metadata = response.metadata;
}

module _ (X : TextOps) where
  abbrev pub nothing_done : TickResult X
  nothing_done = record { succeeded_tasks = []; retry_tasks = []; failed_tasks = [] }

  unfoldable pub finish_succeeded :
      VoiceTtsService X
      → ℕ
      → TtsTask X
      → TtsProviderResponse
      → ℕ
      → TickResult X
      → VoiceTtsService X × TickResult X
  unfolding audio_of store_cache_locked
  finish_succeeded s key task response now result =
      let resource = audio_of task.cache_key task.id s.config response now in
      let task' = record task {
        status = succeeded;
        last_error = "";
        audio = some resource;
        updated_at = now;
      } in
      (
        record s {
          tasks = insert ℕ_discrete key task' s.tasks;
          audio =
              if task.request.cache_enabled
              then store_cache_locked s.config.max_cache_items s.audio task.cache_key resource
              else s.audio;
        },
        record result { succeeded_tasks = result.succeeded_tasks ++ (task' ∷ []) },
      )

  unfoldable pub finish_failed :
      VoiceTtsService X
      → ℕ
      → TtsTask X
      → TtsProviderResponse
      → Bool
      → ℕ
      → TickResult X
      → VoiceTtsService X × TickResult X
  finish_failed s key task response late now result =
      let error = if is_empty response.error then "TTS request failed" else response.error in
      let wait = s.config.retry_backoff * task.attempts * ns_per_ms in
      let again = record task {
        status = queued;
        last_error = error;
        next_attempt_at = now + wait;
        updated_at = now;
      } in
      let ended = record task {
        status = if late then timed_out else failed;
        last_error = error;
        updated_at = now;
      } in
      if ltb task.attempts (max_attempts_from_retries s.config.max_retries)
      then (
        record s { tasks = insert ℕ_discrete key again s.tasks },
        record result { retry_tasks = result.retry_tasks ++ (again ∷ []) },
      )
      else (
        record s { tasks = insert ℕ_discrete key ended s.tasks },
        record result { failed_tasks = result.failed_tasks ++ (ended ∷ []) },
      )

  unfoldable pub finish_found :
      VoiceTtsService X
      → ℕ
      → TtsTask X
      → TtsProviderResponse
      → ℕ
      → ℕ
      → TickResult X
      → VoiceTtsService X × TickResult X
  unfolding checked_response finish_succeeded finish_failed
  finish_found s key task response elapsed now result =
      let response' = checked_response s.config response elapsed in
      if response'.ok && not (no_bytes response'.bytes)
      then finish_succeeded s key task response' now result
      else finish_failed s key task response' (ltb s.config.request_timeout elapsed) now result

  -- `none` is the exception of `tasks_.at`. `elapsed` is in milliseconds.
  unfoldable pub finish_task_locked :
      VoiceTtsService X
      → RunningTask X
      → TtsProviderResponse
      → ℕ
      → ℕ
      → TickResult X
      → Option (VoiceTtsService X × TickResult X)
  unfolding finish_found
  finish_task_locked s run response elapsed now result =
      elim (lookup ℕ_discrete run.task.id s.tasks) [
        | none ↦ none
        | some task ↦ some (finish_found s run.task.id task response elapsed now result)
      ]

  -- Without a client the response is a failure.
  unfoldable pub call_client :
      Option (TtsProviderRequest X → TtsProviderResponse)
      → TtsProviderRequest X
      → TtsProviderResponse
  call_client none request = record {
    ok = false;
    format = wav;
    mime_type = "audio/wav";
    bytes = [];
    duration = 0;
    error = "TTS client is not configured";
    metadata = [];
  }
  call_client (some client) request = client request

  -- The readings of the clock in one turn of the loop.
  pub record TurnTimes : Type 0 where
    pub taken_at : ℕ
    pub started_at : ℕ
    pub ended_at : ℕ
    pub finished_at : ℕ

  unfoldable pub tick_loop :
      ℕ
      → (ℕ → TurnTimes)
      → VoiceTtsService X
      → TickResult X
      → Option (VoiceTtsService X × TickResult X)
  unfolding take_next_task_locked call_client finish_task_locked
  tick_loop zero clock s result = some (s, result)
  tick_loop (suc n) clock s result =
      let taken = take_next_task_locked X s (clock 0).taken_at in
      let elapsed = ((clock 0).ended_at - (clock 0).started_at) / ns_per_ms in
      elim taken.1 [
        | none ↦ some (taken.0, result)
        | some run ↦
            let response = call_client taken.0.client run.request in
            elim (finish_task_locked taken.0 run response elapsed (clock 0).finished_at result) [
              | none ↦ none
              | some (s', result') ↦ tick_loop n (λ i. clock (suc i)) s' result'
            ]
      ]

  unfoldable pub tick :
      VoiceTtsService X → ℕ → (ℕ → TurnTimes) → Option (VoiceTtsService X × TickResult X)
  unfolding tick_loop
  tick s max_tasks clock = tick_loop max_tasks clock s nothing_done

  unfoldable pub find_task : VoiceTtsService X → ℕ → Option (TtsTask X)
  find_task s id = lookup ℕ_discrete id s.tasks

  unfoldable pub list_tasks : VoiceTtsService X → List (TtsTask X)
  list_tasks s = map (λ e. e.1) s.tasks

  unfoldable pub queued_task_count : VoiceTtsService X → ℕ
  queued_task_count s = count_if (λ e. is_queued e.1.status) s.tasks

  unfoldable pub cache_size : VoiceTtsService X → ℕ
  cache_size s = size s.audio.resources
