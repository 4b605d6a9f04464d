-- ===== src/Voice/Tests.antt =====
-- The theorems on speech tasks at concrete inputs.
use red_culture_service.Common.{
  ℕ, ◌+◌, ◌%◌, ◌^◌, ◌≡◌, ◌≢◌, ◌≤◌, refl, true, List, [], ◌∷◌, Option, none, some, ℕ_discrete,
  str_dec, inc_u64, count_if, arith, In, inl, inr, subst, ap,
}
use red_culture_service.Common.Text.{to_string, decimal}
use red_culture_service.Common.Map.{lookup, insert, size}
use red_culture_service.Voice.Types.{
  TextOps, TtsRequest, TtsTask, queued, running, wav, TtsProviderResponse, RunningTask, TickResult,
  VoiceTtsService,
}
use red_culture_service.Voice.Tasks.{take_next_task_locked, submit, new_task, cancel_task}
use red_culture_service.Voice.Finish.{TurnTimes, tick_loop, nothing_done, finish_task_locked}
use red_culture_service.Voice.Cache.{build_cache_key, find_cached_audio_locked, store_cache_locked}
use red_culture_service.Voice.Limit.{store_cache_locked-size}
use red_culture_service.Voice.Invariant.{GoodTask, Inv}
use red_culture_service.Voice.Turns.{tick_loop-Inv}
use red_culture_service.Voice.Steps.{
  Call, cancels, takes, finishes, step, IsPossible, run_calls, ArePossible, run_calls-Inv,
}
use red_culture_service.Voice.Selection.{take_next_oldest}
use red_culture_service.Voice.Cancel.{IsRevived, cancel_task_lost}

abbrev plain : TextOps
plain = record { Float = ℕ; print_float = λ n. "1"; hash = λ s. 7 }

abbrev request : TtsRequest plain
request = record {
  text = "hello";
  voice = record { voice_id = "default"; language = "zh-CN"; speed = 1; pitch = 1; volume = 1 };
  format = wav;
  player_id = "ann";
  purpose = "ai_explanation";
  cache_enabled = true;
  metadata = [];
}

abbrev task : TtsTask plain
task = record (new_task plain 1 request "tts:7" 0) { status = running; attempts = 1 }

abbrev service : VoiceTtsService plain
service = record {
  config = record {
    max_retries = 2;
    request_timeout = 8000;
    retry_backoff = 500;
    max_text_length = 1200;
    max_queued_tasks = 512;
    max_cache_items = 1;
    cache_ttl = 1800;
  };
  client = none;
  next_task_id = 2;
  tasks = (1, task) ∷ [];
  audio = record { resources = []; id_keys = [] };
}

abbrev run : RunningTask plain
run = record { task = task; request = record { task_id = 1; request = request; attempt = 1 } }

abbrev response : TtsProviderResponse
response = record {
  ok = true;
  format = wav;
  mime_type = "";
  bytes = 1 ∷ 2 ∷ [];
  duration = 10;
  error = "";
  metadata = [];
}

service-Inv : Inv plain service
service-Inv = record { unwrapped = omega arith; tasks = λ e i. only e i; cached = omega arith }
  where
    only : (e : ℕ × TtsTask plain) → In e service.tasks → GoodTask plain service.config e.0 e.1
    only e (inl q) =
        subst (λ e. GoodTask plain service.config e.0 e.1) q
          (record { named = refl; bounded = omega arith; left = λ h. cc; made = λ h. cc })
    only e (inr i) = absurd i

abbrev clock : ℕ → TurnTimes plain
clock i = record { taken_at = i; started_at = i; ended_at = i; finished_at = i }

tick_loop-Inv_example :
    (s' : VoiceTtsService plain) × (result : TickResult plain) × (tick_loop plain 3 clock service
        (nothing_done plain)
      ≡ some (s', result))
    × Inv plain s'
tick_loop-Inv_example = tick_loop-Inv plain 3 clock service (nothing_done plain) service-Inv

abbrev history : List (ℕ × Call plain)
history = (5, cancels 1) ∷ (9, finishes run response 3) ∷ (10, takes) ∷ []

abbrev first_task : Option (VoiceTtsService plain) → Option (TtsTask plain)
first_task none = none
first_task (some s) = lookup ℕ_discrete 1 s.tasks

-- The task of the run is stored when it ends.
history-ArePossible : ArePossible plain service history
unfolding ArePossible IsPossible step cancel_task lookup insert ℕ_discrete
history-ArePossible =
    (tt, λ after e. (λ gone. let kept = ap first_task e in cc, λ ended f. (tt, λ last g. tt)))

run_calls-Inv_example :
    (s' : VoiceTtsService plain) × (run_calls plain service history ≡ some s') × Inv plain s'
run_calls-Inv_example = run_calls-Inv plain service history service-Inv history-ArePossible

store_cache_locked-size_example :
    size
      (store_cache_locked 0 service.audio "tts:7" (record {
        id = "a";
        format = wav;
        mime_type = "audio/wav";
        bytes = 1 ∷ [];
        duration = 1;
        created_at = 0;
        expires_at = 9;
        metadata = [];
      })).resources
    ≤ 0
store_cache_locked-size_example = store_cache_locked-size 0 service.audio "tts:7" _

cancel_task_lost_example :
    ((cancel_task plain service 1 5).1 ≡ true)
    × (s' : VoiceTtsService plain) × (result : TickResult plain) × (finish_task_locked plain
          (cancel_task plain service 1 5).0
          run
          response
          3
          9
          (nothing_done plain)
        ≡ some (s', result))
    × IsRevived plain s' 1
unfolding lookup ℕ_discrete
cancel_task_lost_example =
    cancel_task_lost plain service run task response 5 3 9 (nothing_done plain) refl refl

take_next_oldest_example :
    let s = (submit plain service request 4).0 in
    (id : ℕ) × (task : TtsTask plain) × (run : RunningTask plain) × (s' : VoiceTtsService plain)
    × (take_next_task_locked plain s 6 ≡ (s', some run))
    × In (id, task) s.tasks
    × (task.status ≡ queued)
    × (task.next_attempt_at ≤ 6)
    × (task.created_at ≤ 4)
    × (run.task
        ≡ record task { status = running; attempts = (task.attempts + 1) % 2 ^ 32; updated_at = 6 })
    × (run.request.request ≡ task.request)
    × (lookup ℕ_discrete id s'.tasks ≡ some run.task)
    × ((j : ℕ) → j ≢ id → lookup ℕ_discrete j s'.tasks ≡ lookup ℕ_discrete j s.tasks)
unfolding submit build_cache_key find_cached_audio_locked to_string decimal count_if insert lookup
    ℕ_discrete str_dec inc_u64
take_next_oldest_example =
    take_next_oldest plain (submit plain service request 4).0 6
      (2, new_task plain 2 request "tts:7" 4) (inr (inl refl)) refl (omega arith)
