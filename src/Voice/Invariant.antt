-- ===== src/Voice/Invariant.antt =====
-- The invariant of `VoiceTtsService`: what holds of every task and of the cache, whatever the order
-- of the calls and of the locked parts of `tick`.
use Prim.Native.String.{len}
use red_culture_service.Common.{
  ℕ, ◌+◌, ◌≤◌, ◌<◌, ◌^◌, ◌≡◌, refl, inl, inr, ◌⊎◌, Bool, true, false, Option, none, some,
  ℕ_discrete, is_some, is_empty, ltb, leb, if◌then◌else◌, arith, sym, subst, Bool-cases,
  Option-cases, In, count_if,
}
use red_culture_service.Common.Map.{lookup, insert, size, In-lookup, In-insert}
use red_culture_service.Voice.Types.{
  TextOps, TtsRequest, TtsTask, queued, succeeded, canceled, AudioResource, VoiceTtsService,
  VoiceTtsConfig,
}
use red_culture_service.Voice.Cache.{find_cached_audio_locked, build_cache_key}
use red_culture_service.Voice.Tasks.{
  submit, cancel_task, is_finished, is_active, store_new, new_task,
}

module _ (X : TextOps) where
  -- A task under its own id: its attempts are within the limit, one is left while it is queued, and
  -- it has audio once it has succeeded.
  pub record GoodTask (config : VoiceTtsConfig) (id : ℕ) (task : TtsTask X) : Type 0 where
    pub named : task.id ≡ id
    pub bounded : task.attempts ≤ config.max_retries + 1
    pub left : task.status ≡ queued → task.attempts < config.max_retries + 1
    pub made : task.status ≡ succeeded → is_some task.audio ≡ true

  -- The number of attempts does not wrap around, every task is good, and the cache is within its
  -- limit.
  pub record Inv (s : VoiceTtsService X) : Type 0 where
    pub unwrapped : s.config.max_retries + 1 < 2 ^ 32
    pub tasks : (e : ℕ × TtsTask X) → In e s.tasks → GoodTask s.config e.0 e.1
    pub cached : size s.audio.resources ≤ s.config.max_cache_items

  -- A good task written under its id keeps the tasks good.
  pub insert-GoodTask :
      (s : VoiceTtsService X) (id : ℕ) (task : TtsTask X)
      → Inv s
      → GoodTask s.config id task
      → (e : ℕ × TtsTask X) → In e (insert ℕ_discrete id task s.tasks)
      → GoodTask s.config e.0 e.1
  insert-GoodTask s id task v good e i = elim (In-insert ℕ_discrete id task s.tasks e i) [
    | inl q ↦ subst (λ e. GoodTask s.config e.0 e.1) q good
    | inr old ↦ v.tasks e old
  ]

  pub cancel_task-Inv :
      (s : VoiceTtsService X) (id now : ℕ) → Inv s → Inv (cancel_task X s id now).0
  unfolding cancel_task
  cancel_task-Inv s id now v = elim (Option-cases (lookup ℕ_discrete id s.tasks)) [
    | inl e ↦ rw (e, cancel_task) v
    | inr (task, e) ↦ elim (Bool-cases (is_finished task.status)) [
      | inl f ↦ rw (e, cancel_task, f) v
      | inr f ↦
          let old = v.tasks (id, task) (In-lookup ℕ_discrete id task s.tasks e) in
          rw (e, cancel_task, f)
            (record {
              unwrapped = v.unwrapped;
              tasks =
                  insert-GoodTask s id (record task { status = canceled; updated_at = now }) v
                    (record {
                      named = old.named;
                      bounded = old.bounded;
                      left = λ q. cc;
                      made = λ q. cc;
                    });
              cached = v.cached;
            })
    ]
  ]

  abbrev pub hit_task : VoiceTtsService X → TtsRequest X → ℕ → AudioResource → TtsTask X
  hit_task s request now audio =
      record (new_task X s.next_task_id request (build_cache_key X request) now) {
        status = succeeded;
        audio = some audio;
      }

  abbrev cached_for : VoiceTtsService X → TtsRequest X → ℕ → Option AudioResource
  cached_for s request now =
      if request.cache_enabled
      then find_cached_audio_locked s.audio (build_cache_key X request) now
      else none

  submit_cases :
      (s : VoiceTtsService X) (request : TtsRequest X) (now : ℕ)
      → (submit X s request now).0 ≡ s
        ⊎ (submit X s request now
            ≡ store_new X s
                (new_task X s.next_task_id request (build_cache_key X request) now)
                false)
        ⊎ ((audio : AudioResource) × (submit X s request now
              ≡ store_new X s (hit_task s request now audio) true))
  unfolding submit
  submit_cases s request now = elim (Bool-cases (is_empty request.text)) [
    | inl e ↦ inl (rw e)
    | inr e ↦ elim (Bool-cases (ltb s.config.max_text_length (len request.text))) [
      | inl l ↦ inl (rw (e, l))
      | inr l ↦
          elim (Bool-cases
            (leb s.config.max_queued_tasks (count_if (λ e. is_active e.1.status) s.tasks))) [
              | inl c ↦ inl (rw (e, l, c))
              | inr c ↦ elim (Option-cases (cached_for s request now)) [
                | inl miss ↦ inr (inl (rw (e, l, c, miss)))
                | inr (audio, hit) ↦ inr (inr (audio, rw (e, l, c, hit)))
              ]
            ]
    ]
  ]

  store_new-Inv :
      (s : VoiceTtsService X) (task : TtsTask X) (hit : Bool)
      → Inv s
      → GoodTask s.config task.id task
      → Inv (store_new X s task hit).0
  store_new-Inv s task hit v good = record {
    unwrapped = v.unwrapped;
    tasks = insert-GoodTask s task.id task v good;
    cached = v.cached;
  }

  pub submit-Inv :
      (s : VoiceTtsService X) (request : TtsRequest X) (now : ℕ)
      → Inv s
      → Inv (submit X s request now).0
  submit-Inv s request now v = elim (submit_cases s request now) [
    | inl q ↦ subst Inv (sym q) v
    | inr (inl q) ↦ rw q (
        store_new-Inv s _ false v
          (record { named = refl; bounded = omega arith; left = λ e. omega arith; made = λ e. cc }))
    | inr (inr (audio, q)) ↦ rw q (
        store_new-Inv s (hit_task s request now audio) true v
          (record { named = refl; bounded = omega arith; left = λ e. cc; made = λ e. refl }))
  ]
