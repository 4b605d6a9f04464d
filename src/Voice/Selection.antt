-- ===== src/Voice/Selection.antt =====
-- Which task the loop of `takeNextTaskLocked` selects.
use red_culture_service.Common.{
  ℕ, ◌+◌, ◌%◌, ◌^◌, ◌≤◌, ◌≡◌, ◌≢◌, refl, inl, inr, true, List, none, some, ℕ_discrete, inc_u32, leb,
  arith, Bool-cases, In,
}
use red_culture_service.Common.Map.{lookup, insert, lookup-insert_same, lookup-insert_ne}
use red_culture_service.Common.Selection.{select_oldest-In, select_oldest-least}
use red_culture_service.Voice.Types.{
  TextOps, TtsTask, TtsTaskStatus, queued, running, succeeded, failed, timed_out, canceled,
  RunningTask, VoiceTtsService,
}
use red_culture_service.Voice.Tasks.{is_queued, select_next, started, take_next_task_locked, is_due}

is_queued_lem : (status : TtsTaskStatus) → is_queued status ≡ true → status ≡ queued
is_queued_lem queued h = refl
is_queued_lem running h = cc
is_queued_lem succeeded h = cc
is_queued_lem failed h = cc
is_queued_lem timed_out h = cc
is_queued_lem canceled h = cc

module _ (X : TextOps) where
  -- What is selected is an entry that is queued and due.
  pub select_next-In :
      (now : ℕ) (m : List (ℕ × TtsTask X)) (e : ℕ × TtsTask X)
      → select_next X now m ≡ some e
      → In e m × (e.1.status ≡ queued) × (e.1.next_attempt_at ≤ now)
  unfolding select_next
  select_next-In now m e h =
      elim (select_oldest-In (is_due X now) (λ task. task.created_at) none m e h) [
        | inl q ↦ absurd (ground arith)
        | inr (i, due) ↦ elim (Bool-cases (is_queued e.1.status)) [
          | inl q ↦ (i, is_queued_lem e.1.status q, ground arith)
          | inr q ↦ absurd (ground arith)
        ]
      ]

  due_lem :
      (now : ℕ) (task : TtsTask X)
      → task.status ≡ queued
      → task.next_attempt_at ≤ now
      → is_due X now task ≡ true
  due_lem now task waits due =
      let in_time : leb task.next_attempt_at now ≡ true = ground arith in rw (waits, in_time)

  -- If some task is stored that is queued and due, `takeNextTaskLocked` takes the oldest of these:
  -- one that was stored, queued and due, and made no later. The task is now stored as running with
  -- one attempt more, its request goes out, and the tasks under the other ids are as they were.
  pub take_next_oldest :
      (s : VoiceTtsService X) (now : ℕ) (f : ℕ × TtsTask X)
      → In f s.tasks
      → f.1.status ≡ queued
      → f.1.next_attempt_at ≤ now
      → (id : ℕ) × (task : TtsTask X) × (run : RunningTask X) × (s' : VoiceTtsService X)
        × (take_next_task_locked X s now ≡ (s', some run))
        × In (id, task) s.tasks
        × (task.status ≡ queued)
        × (task.next_attempt_at ≤ now)
        × (task.created_at ≤ f.1.created_at)
        × (run.task ≡ record task {
          status = running;
          attempts = (task.attempts + 1) % 2 ^ 32;
          updated_at = now;
        })
        × (run.request.request ≡ task.request)
        × (lookup ℕ_discrete id s'.tasks ≡ some run.task)
        × ((j : ℕ) → j ≢ id → lookup ℕ_discrete j s'.tasks ≡ lookup ℕ_discrete j s.tasks)
  unfolding take_next_task_locked started select_next inc_u32
  take_next_oldest s now f i waits due =
      let (e, q, le) =
        select_oldest-least (is_due X now) (λ task. task.created_at) none s.tasks f i
          (due_lem now f.1 waits due) in
      let (there, waiting, in_time) = select_next-In now s.tasks e q in
      let task = started X e.1 now in
      (
        e.0,
        e.1,
        record {
          task = task;
          request = record { task_id = task.id; request = task.request; attempt = task.attempts };
        },
        record s { tasks = insert ℕ_discrete e.0 task s.tasks },
        rw (q, take_next_task_locked) refl,
        there,
        waiting,
        in_time,
        le,
        refl,
        refl,
        lookup-insert_same ℕ_discrete e.0 task s.tasks,
        λ j ne. lookup-insert_ne ℕ_discrete j e.0 task s.tasks ne,
      )
