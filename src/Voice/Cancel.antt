-- ===== src/Voice/Cancel.antt =====
-- What becomes of a task that is canceled while its client runs.
use red_culture_service.Common.{
  inl, inr, ℕ, ◌≡◌, refl, Bool, true, false, not, ◌&&◌, some, ℕ_discrete, ltb, if◌then◌else◌,
  Bool-cases,
}
use red_culture_service.Common.Map.{lookup, insert, lookup-insert_same}
use red_culture_service.Voice.Types.{
  TextOps, TtsTask, running, failed, timed_out, canceled, TtsProviderResponse, RunningTask,
  TickResult, VoiceTtsService,
}
use red_culture_service.Voice.Tasks.{cancel_task, no_bytes, max_attempts_from_retries}
use red_culture_service.Voice.Finish.{
  checked_response, finish_succeeded, finish_failed, finish_found, finish_task_locked,
}

late_status : (late : Bool) → ¬ ((if late then timed_out else failed) ≡ canceled)
late_status true q = cc
late_status false q = cc

module _ (X : TextOps) where
  -- The task stored under an id is not a canceled one.
  pub IsRevived : VoiceTtsService X → ℕ → Type 0
  IsRevived s id =
      (task : TtsTask X) × (lookup ℕ_discrete id s.tasks ≡ some task) × ¬ (task.status ≡ canceled)

  finish_found-IsRevived :
      (s : VoiceTtsService X) (id : ℕ) (task : TtsTask X) (response : TtsProviderResponse)
      (elapsed now : ℕ) (result : TickResult X)
      → IsRevived (finish_found X s id task response elapsed now result).0 id
  unfolding finish_found IsRevived finish_succeeded finish_failed
  finish_found-IsRevived s id task response elapsed now result =
      let response' = checked_response s.config response elapsed in
      elim (Bool-cases (response'.ok && not (no_bytes response'.bytes))) [
        | inl ok ↦ rw ok (_, lookup-insert_same ℕ_discrete id _ s.tasks, λ q. cc)
        | inr bad ↦
            elim (Bool-cases (ltb task.attempts (max_attempts_from_retries s.config.max_retries))) [
              | inl again ↦ rw (bad, again) (_, lookup-insert_same ℕ_discrete id _ s.tasks, λ q. cc)
              | inr last ↦
                  rw (bad, last)
                    (_, lookup-insert_same ℕ_discrete id _ s.tasks, λ q. late_status _ q)
            ]
      ]

  -- A stored task that is running can be canceled, and `cancelTask` answers true; but when its
  -- client then returns, whatever it returns, the task is stored with a status that is not
  -- `canceled`.
  pub cancel_task_lost :
      (s : VoiceTtsService X) (run : RunningTask X) (task : TtsTask X)
      (response : TtsProviderResponse) (canceled_at elapsed now : ℕ) (result : TickResult X)
      → lookup ℕ_discrete run.task.id s.tasks ≡ some task
      → task.status ≡ running
      → ((cancel_task X s run.task.id canceled_at).1 ≡ true)
        × (s' : VoiceTtsService X) × (result' : TickResult X) × (finish_task_locked X
              (cancel_task X s run.task.id canceled_at).0
              run
              response
              elapsed
              now
              result
            ≡ some (s', result'))
        × IsRevived s' run.task.id
  unfolding cancel_task finish_task_locked
  cancel_task_lost s run task response canceled_at elapsed now result stored is_running =
      let id = run.task.id in
      let lost = record task { status = canceled; updated_at = canceled_at } in
      let s1 = record s { tasks = insert ℕ_discrete id lost s.tasks } in
      let ended = finish_found X s1 id lost response elapsed now result in
      let at_id = lookup-insert_same ℕ_discrete id lost s.tasks in
      rw (stored, cancel_task, is_running)
        (
          refl,
          ended.0,
          ended.1,
          rw (at_id, finish_task_locked) refl,
          finish_found-IsRevived s1 id lost response elapsed now result,
        )
