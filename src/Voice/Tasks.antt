-- ===== src/Voice/Tasks.antt =====
-- The tasks of src/voice_tts/voice_tts_service.cpp: `submit`, `cancelTask`, and the loop of `tick`
-- with its two locked parts, `takeNextTaskLocked` before the call of the client and
-- `finishTaskLocked` after it.
use Prim.Native.String.{len}
use red_culture_service.Common.{
  ℕ, ◌+◌, ◌%◌, ◌^◌, String, Bool, true, false, ◌&&◌, List, [], ◌∷◌, Option, none, some, ℕ_discrete,
  is_empty, ltb, leb, if◌then◌else◌, count_if, inc_u64, inc_u32,
}
use red_culture_service.Common.Selection.{select_oldest}
use red_culture_service.Common.Map.{lookup, insert}
use red_culture_service.Voice.Types.{
  TextOps, TtsRequest, TtsTask, TtsTaskStatus, queued, running, succeeded, canceled, RunningTask,
  SubmitResult, VoiceTtsService, rejected,
}
use red_culture_service.Voice.Cache.{build_cache_key, find_cached_audio_locked}

abbrev pub max_attempts_from_retries : ℕ → ℕ
max_attempts_from_retries max_retries = (max_retries + 1) % 2 ^ 32

abbrev pub is_finished : TtsTaskStatus → Bool
is_finished queued = false
is_finished running = false
is_finished _ = true

abbrev pub is_queued : TtsTaskStatus → Bool
is_queued queued = true
is_queued _ = false

abbrev pub is_active : TtsTaskStatus → Bool
is_active queued = true
is_active running = true
is_active _ = false

abbrev pub no_bytes : List ℕ → Bool
no_bytes [] = true
no_bytes (b ∷ bs) = false

module _ (X : TextOps) where
  abbrev pub new_task : ℕ → TtsRequest X → String → ℕ → TtsTask X
  new_task id request cache_key now = record {
    id = id;
    status = queued;
    request = request;
    attempts = 0;
    cache_key = cache_key;
    last_error = "";
    audio = none;
    created_at = now;
    updated_at = now;
    next_attempt_at = now;
  }

  -- `task.id = next_task_id_++` and `tasks_[task.id] = task`
  abbrev pub store_new : VoiceTtsService X → TtsTask X → Bool → VoiceTtsService X × SubmitResult X
  store_new s task hit = (
    record s {
      next_task_id = inc_u64 s.next_task_id;
      tasks = insert ℕ_discrete task.id task s.tasks;
    },
    record { ok = true; error = ""; cache_hit = hit; task = some task },
  )

  unfoldable pub submit : VoiceTtsService X → TtsRequest X → ℕ → VoiceTtsService X × SubmitResult X
  unfolding build_cache_key find_cached_audio_locked
  submit s request now =
      let active_task_count = count_if (λ e. is_active e.1.status) s.tasks in
      let cache_key = build_cache_key X request in
      let task = new_task s.next_task_id request cache_key now in
      let cached =
        if request.cache_enabled then find_cached_audio_locked s.audio cache_key now else none in
      if is_empty request.text
      then (s, rejected X "text is empty")
      else if ltb s.config.max_text_length (len request.text)
      then (s, rejected X "text is too long")
      else if leb s.config.max_queued_tasks active_task_count
      then (s, rejected X "TTS task queue is full")
      else elim cached [
        | none ↦ store_new s task false
        | some audio ↦ store_new s (record task { status = succeeded; audio = some audio }) true
      ]

  unfoldable pub cancel_task : VoiceTtsService X → ℕ → ℕ → VoiceTtsService X × Bool
  cancel_task s id now = elim (lookup ℕ_discrete id s.tasks) [
    | none ↦ (s, false)
    | some task ↦ if is_finished task.status then (s, false) else (
      record s {
        tasks = insert ℕ_discrete id (record task { status = canceled; updated_at = now }) s.tasks;
      },
      true,
    )
  ]

  -- `task.status != queued || task.next_attempt_at > now` passes an entry over.
  abbrev pub is_due : ℕ → TtsTask X → Bool
  is_due now task = is_queued task.status && leb task.next_attempt_at now

  unfoldable pub select_next : ℕ → List (ℕ × TtsTask X) → Option (ℕ × TtsTask X)
  unfolding select_oldest
  select_next now tasks = select_oldest (is_due now) (λ task. task.created_at) none tasks

  unfoldable pub started : TtsTask X → ℕ → TtsTask X
  unfolding inc_u32
  started task now = record task {
    status = running;
    updated_at = now;
    attempts = inc_u32 task.attempts;
  }

  unfoldable pub take_next_task_locked :
      VoiceTtsService X → ℕ → VoiceTtsService X × Option (RunningTask X)
  unfolding select_next started
  take_next_task_locked s now = elim (select_next now s.tasks) [
    | none ↦ (s, none)
    | some (id, old) ↦
        let task = started old now in
        (
          record s { tasks = insert ℕ_discrete id task s.tasks },
          some (record {
            task = task;
            request = record { task_id = task.id; request = task.request; attempt = task.attempts };
          }),
        )
  ]
