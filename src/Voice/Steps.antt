-- ===== src/Voice/Steps.antt =====
-- Histories of `VoiceTtsService`: calls of its operations and the locked parts of any number of
-- running `tick`s, in any order.
use red_culture_service.Common.{
  inl, inr, ℕ, ◌≤◌, ◌≡◌, ◌≢◌, refl, String, List, [], ◌∷◌, Option, none, some, ℕ_discrete, str_dec,
  leb, arith, Bool-cases, Option-cases,
}
use red_culture_service.Common.Map.{lookup, size, erase}
use red_culture_service.Voice.Types.{
  TextOps, TtsRequest, TtsProviderRequest, TtsProviderResponse, RunningTask, AudioResource,
  VoiceTtsService,
}
use red_culture_service.Voice.Cache.{clear_loop, clear_expired_cache}
use red_culture_service.Voice.Tasks.{submit, cancel_task, take_next_task_locked}
use red_culture_service.Voice.Finish.{finish_task_locked, nothing_done}
use red_culture_service.Voice.Invariant.{Inv, submit-Inv, cancel_task-Inv}
use red_culture_service.Voice.Turns.{take_next-Inv, finish_task-Inv}

clear_loop-size :
    (now : ℕ) (entries : List (String × AudioResource)) (ids : List (String × String))
    → size (clear_loop now entries ids).resources ≤ size entries
unfolding clear_loop
clear_loop-size now [] ids = omega arith
clear_loop-size now ((key, audio) ∷ entries) ids = elim (Bool-cases (leb audio.expires_at now)) [
  | inl old ↦
      let rest = clear_loop-size now entries (erase str_dec audio.id ids) in rw old (omega arith)
  | inr fresh ↦ let rest = clear_loop-size now entries ids in rw fresh (omega arith)
]

module _ (X : TextOps) where
  pub data Call : Type 0 where
    submits : TtsRequest X → Call
    cancels : ℕ → Call
    sets_client : Option (TtsProviderRequest X → TtsProviderResponse) → Call
    takes : Call
    finishes : RunningTask X → TtsProviderResponse → ℕ → Call
    clears : Call

  -- `none` is an exception that leaves the call.
  unfoldable pub step : VoiceTtsService X → ℕ → Call → Option (VoiceTtsService X)
  step s now (submits request) = some (submit X s request now).0
  step s now (cancels id) = some (cancel_task X s id now).0
  step s now (sets_client client) = some (record s { client = client })
  step s now takes = some (take_next_task_locked X s now).0
  step s now (finishes run response elapsed) =
      elim (finish_task_locked X s run response elapsed now (nothing_done X)) [
        | none ↦ none
        | some (s', result) ↦ some s'
      ]
  step s now clears = some (record s { audio = clear_expired_cache now s.audio })

  unfoldable pub run_calls : VoiceTtsService X → List (ℕ × Call) → Option (VoiceTtsService X)
  unfolding step
  run_calls s [] = some s
  run_calls s ((now, c) ∷ cs) = elim (step s now c) [ none ↦ none | some s' ↦ run_calls s' cs ]

  -- A task that ends has been taken, so it is stored.
  unfoldable pub IsPossible : VoiceTtsService X → Call → Type 0
  IsPossible s (finishes run response elapsed) = lookup ℕ_discrete run.task.id s.tasks ≢ none
  IsPossible s c = Unit {0}

  -- No call of a service that keeps the invariant throws, and each keeps it.
  pub step-Inv :
      (s : VoiceTtsService X) (now : ℕ) (c : Call)
      → Inv X s
      → IsPossible s c
      → (s' : VoiceTtsService X) × (step s now c ≡ some s') × Inv X s'
  unfolding step IsPossible clear_expired_cache
  step-Inv s now (submits request) v p =
      ((submit X s request now).0, refl, submit-Inv X s request now v)
  step-Inv s now (cancels id) v p = ((cancel_task X s id now).0, refl, cancel_task-Inv X s id now v)
  step-Inv s now (sets_client client) v p = (
    record s { client = client },
    refl,
    record { unwrapped = v.unwrapped; tasks = v.tasks; cached = v.cached },
  )
  step-Inv s now takes v p = ((take_next_task_locked X s now).0, refl, (take_next-Inv X s now v).0)
  step-Inv s now (finishes run response elapsed) v p =
      elim (Option-cases (lookup ℕ_discrete run.task.id s.tasks)) [
        | inl e ↦ absurd (p e)
        | inr (task, e) ↦
            let (s', result, f, w) =
              finish_task-Inv X s run task response elapsed now (nothing_done X) v e in
            (s', rw (f, step) refl, w)
      ]
  step-Inv s now clears v p =
      let fewer = clear_loop-size now s.audio.resources s.audio.id_keys in
      let cached = v.cached in
      (
        record s { audio = clear_expired_cache now s.audio },
        refl,
        record { unwrapped = v.unwrapped; tasks = v.tasks; cached = omega arith },
      )

  unfoldable pub ArePossible : VoiceTtsService X → List (ℕ × Call) → Type 0
  ArePossible s [] = Unit {0}
  ArePossible s ((now, c) ∷ cs) =
      IsPossible s c × ((s' : VoiceTtsService X) → step s now c ≡ some s' → ArePossible s' cs)

  -- From a service that keeps the invariant, in any order of calls and of the locked parts of `tick`
  -- in which only tasks that are stored end, no call throws, and the invariant is kept: no task is
  -- tried more often than the retries allow, a queued task has an attempt left, a task that has
  -- succeeded has audio, and the cache is within its limit.
  pub run_calls-Inv :
      (s : VoiceTtsService X) (cs : List (ℕ × Call))
      → Inv X s
      → ArePossible s cs
      → (s' : VoiceTtsService X) × (run_calls s cs ≡ some s') × Inv X s'
  unfolding run_calls ArePossible
  run_calls-Inv s [] v p = (s, refl, v)
  run_calls-Inv s ((now, c) ∷ cs) v (p, ps) =
      let (s', e, w) = step-Inv s now c v p in
      let (s'', f, w') = run_calls-Inv s' cs w (ps s' e) in (s'', rw (e, run_calls) f, w')
