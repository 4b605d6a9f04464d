-- ===== src/Voice/Turns.antt =====
-- The locked parts of `tick` keep the invariant, and the loop of `tick` always returns.
use red_culture_service.Common.{
  ℕ, zero, suc, ◌+◌, ◌≡◌, refl, inl, inr, ◌⊎◌, Bool, true, false, not, ◌&&◌, none, some, ℕ_discrete,
  ltb, inc_u32, if◌then◌else◌, arith, sym, subst, Bool-cases, Option-cases, ◌-◌, ◌/◌, ns_per_ms,
}
use red_culture_service.Common.Map.{lookup, insert, In-lookup, lookup-insert_same}
use red_culture_service.Voice.Types.{
  TextOps, TtsTask, queued, succeeded, failed, timed_out, TtsProviderResponse, RunningTask,
  TickResult, VoiceTtsService,
}
use red_culture_service.Voice.Tasks.{
  select_next, started, take_next_task_locked, no_bytes, max_attempts_from_retries,
}
use red_culture_service.Voice.Finish.{
  finish_succeeded, finish_failed, finish_found, finish_task_locked, checked_response, tick_loop,
  TurnTimes, call_client,
}
use red_culture_service.Voice.Limit.{store_cache_locked-size}
use red_culture_service.Voice.Invariant.{GoodTask, Inv, insert-GoodTask}
use red_culture_service.Voice.Selection.{select_next-In}

late_status :
    (late : Bool)
    → ¬ ((if late then timed_out else failed) ≡ queued)
      × ¬ ((if late then timed_out else failed) ≡ succeeded)
late_status true = (λ q. cc, λ q. cc)
late_status false = (λ q. cc, λ q. cc)

module _ (X : TextOps) where
  -- A task is taken only from the queue: the invariant is kept, and the task taken is stored.
  pub take_next-Inv :
      (s : VoiceTtsService X) (now : ℕ)
      → Inv X s
      → Inv X (take_next_task_locked X s now).0
        × (((take_next_task_locked X s now).1 ≡ none)
            ⊎ ((run : RunningTask X) × ((take_next_task_locked X s now).1 ≡ some run)
                × (lookup ℕ_discrete run.task.id (take_next_task_locked X s now).0.tasks
                    ≡ some run.task)))
  unfolding take_next_task_locked started inc_u32
  take_next-Inv s now v = elim (Option-cases (select_next X now s.tasks)) [
    | inl e ↦ rw (e, take_next_task_locked) (v, inl refl)
    | inr ((id, old), e) ↦
        let (i, is_in_queue, due) = select_next-In X now s.tasks (id, old) e in
        let good = v.tasks (id, old) i in
        let left = good.left is_in_queue in
        let named = good.named in
        let unwrapped = v.unwrapped in
        rw (e, take_next_task_locked)
          (
            record {
              unwrapped = v.unwrapped;
              tasks =
                  insert-GoodTask X s id (started X old now) v (record {
                    named = named;
                    bounded = omega arith;
                    left = λ q. cc;
                    made = λ q. cc;
                  });
              cached = v.cached;
            },
            inr (
              record {
                task = started X old now;
                request = record {
                  task_id = old.id;
                  request = old.request;
                  attempt = inc_u32 old.attempts;
                };
              },
              refl,
              subst
                  (λ k.
                    lookup ℕ_discrete k (insert ℕ_discrete id (started X old now) s.tasks)
                    ≡ some (started X old now))
                  (sym named) (lookup-insert_same ℕ_discrete id (started X old now) s.tasks),
            ),
          )
  ]

  finish_failed-Inv :
      (s : VoiceTtsService X) (id : ℕ) (task : TtsTask X) (response : TtsProviderResponse)
      (late : Bool) (now : ℕ) (result : TickResult X)
      → Inv X s
      → GoodTask X s.config id task
      → Inv X (finish_failed X s id task response late now result).0
  unfolding finish_failed
  finish_failed-Inv s id task response late now result v good =
      let named = good.named in
      let bounded = good.bounded in
      let unwrapped = v.unwrapped in
      let limit : max_attempts_from_retries s.config.max_retries ≡ s.config.max_retries + 1 =
        omega arith in
      elim (Bool-cases (ltb task.attempts (max_attempts_from_retries s.config.max_retries))) [
        | inl again ↦ rw again (record {
          unwrapped = v.unwrapped;
          tasks = insert-GoodTask X s id _ v (record {
            named = named;
            bounded = bounded;
            left = λ q. ground arith;
            made = λ q. cc;
          });
          cached = v.cached;
        })
        | inr last ↦ rw last (record {
          unwrapped = v.unwrapped;
          tasks = insert-GoodTask X s id _ v (record {
            named = named;
            bounded = bounded;
            left = λ q. absurd ((late_status late).0 q);
            made = λ q. absurd ((late_status late).1 q);
          });
          cached = v.cached;
        })
      ]

  finish_succeeded-Inv :
      (s : VoiceTtsService X) (id : ℕ) (task : TtsTask X) (response : TtsProviderResponse) (now : ℕ)
      (result : TickResult X)
      → Inv X s
      → GoodTask X s.config id task
      → Inv X (finish_succeeded X s id task response now result).0
  unfolding finish_succeeded
  finish_succeeded-Inv s id task response now result v good = record {
    unwrapped = v.unwrapped;
    tasks =
        insert-GoodTask X s id _ v
          (record { named = good.named; bounded = good.bounded; left = λ q. cc; made = λ q. refl });
    cached = elim (Bool-cases task.request.cache_enabled) [
      | inl on ↦ rw on (store_cache_locked-size s.config.max_cache_items s.audio task.cache_key _)
      | inr off ↦ rw off v.cached
    ];
  }

  finish_found-Inv :
      (s : VoiceTtsService X) (id : ℕ) (task : TtsTask X) (response : TtsProviderResponse)
      (elapsed now : ℕ) (result : TickResult X)
      → Inv X s
      → GoodTask X s.config id task
      → Inv X (finish_found X s id task response elapsed now result).0
  unfolding finish_found
  finish_found-Inv s id task response elapsed now result v good =
      let response' = checked_response s.config response elapsed in
      elim (Bool-cases (response'.ok && not (no_bytes response'.bytes))) [
        | inl ok ↦ rw ok (finish_succeeded-Inv s id task response' now result v good)
        | inr bad ↦ rw bad (finish_failed-Inv s id task response' _ now result v good)
      ]

  -- The end of a task that is stored does not throw.
  pub finish_task-Inv :
      (s : VoiceTtsService X) (run : RunningTask X) (task : TtsTask X)
      (response : TtsProviderResponse) (elapsed now : ℕ) (result : TickResult X)
      → Inv X s
      → lookup ℕ_discrete run.task.id s.tasks ≡ some task
      → (s' : VoiceTtsService X) × (result' : TickResult X) × (finish_task_locked X s run response
            elapsed now result
          ≡ some (s', result'))
        × Inv X s'
  unfolding finish_task_locked
  finish_task-Inv s run task response elapsed now result v stored =
      let ended = finish_found X s run.task.id task response elapsed now result in
      let good =
        v.tasks (run.task.id, task) (In-lookup ℕ_discrete run.task.id task s.tasks stored) in
      (
        ended.0,
        ended.1,
        rw (stored, finish_task_locked) refl,
        finish_found-Inv s run.task.id task response elapsed now result v good,
      )

  -- From a service that keeps the invariant, the loop of `tick` returns, with any client and at any
  -- readings of the clock: `tasks_.at` does not throw, and the invariant is kept.
  pub tick_loop-Inv :
      (n : ℕ) (clock : ℕ → TurnTimes X) (s : VoiceTtsService X) (result : TickResult X)
      → Inv X s
      → (s' : VoiceTtsService X) × (result' : TickResult X) × (tick_loop X n clock s result
          ≡ some (s', result'))
        × Inv X s'
  unfolding tick_loop
  tick_loop-Inv zero clock s result v = (s, result, refl, v)
  tick_loop-Inv (suc n) clock s result v =
      let taken = take_next_task_locked X s (clock 0).taken_at in
      let elapsed = ((clock 0).ended_at - (clock 0).started_at) / ns_per_ms in
      let (v', how) = take_next-Inv s (clock 0).taken_at v in
      elim how [
        | inl e ↦ (taken.0, result, rw (e, tick_loop) refl, v')
        | inr (run, e, stored) ↦
            let response = call_client X taken.0.client run.request in
            let (s', result', f, w) =
              finish_task-Inv taken.0 run run.task response elapsed (clock 0).finished_at result v'
                stored in
            let (s'', result'', g, w') = tick_loop-Inv n (λ i. clock (suc i)) s' result' w in
            (s'', result'', rw (e, tick_loop) (rw (f, tick_loop) g), w')
      ]
