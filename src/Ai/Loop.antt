-- ===== src/Ai/Loop.antt =====
-- `tick` of `AiOrchestratorService` refines the steps: its loop is a sequence of locked parts, between
-- which the steps of others may stand.
use red_culture_service.Common.{
  ℕ, zero, suc, ◌+◌, ◌-◌, ◌/◌, ◌<◌, ◌≡◌, ◌≢◌, refl, inl, inr, ◌⊎◌, true, List, [], ◌∷◌, Option,
  none, some, ℕ_discrete, arith, sym, ap, ◌∙◌, subst, Option-cases, In, ns_per_ms, remove_if,
  length, length-append,
}
use red_culture_service.Common.Map.{lookup}
use red_culture_service.Ai.Types.{
  AiTaskStatus, queued, AiResponse, RunningTask, TickResult, AiOrchestratorService,
}
use red_culture_service.Ai.Tasks.{select_next, started, request_of, take_next_task_locked}
use red_culture_service.Ai.Finish.{
  tick_loop, tick, TurnTimes, call_client, finish_task_locked, finish_found, nothing_done,
  store_task,
}
use red_culture_service.Ai.Invariant.{Inv, is_away}
use red_culture_service.Ai.Turns.{select_next-stored, back}
use red_culture_service.Ai.Steps.{
  Machine, taken, Step, takes, ends, Reach, stop, step, IsSound, Step-IsSound, finish_returns,
}

-- A request that goes out and comes back leaves the others as they were.
back_fresh : (id : ℕ) (in_flight : List ℕ) → ¬ In id in_flight → back id in_flight ≡ in_flight
unfolding back remove_if
back_fresh id [] out = refl
back_fresh id (i ∷ in_flight) out =
    let rest = back_fresh id in_flight (λ there. out (inr there)) in
    let other : i ≢ id = λ q. out (inl q) in ground arith

pub back_own :
    (id : ℕ) (in_flight : List ℕ) → ¬ In id in_flight → back id (id ∷ in_flight) ≡ in_flight
unfolding back remove_if
back_own id in_flight out = let rest = back_fresh id in_flight out in ground arith

pub queued_away : (status : AiTaskStatus) → status ≡ queued → ¬ (is_away status ≡ true)
queued_away status q h = let clash : is_away queued ≡ true = ap is_away (sym q) ∙ h in cc

-- The task that is taken is not with the client yet.
take_cases :
    (m : Machine) (now : ℕ)
    → IsSound m
    → (taken m now ≡ m)
        × (take_next_task_locked m.service now ≡ (m.service, none))
        × (select_next now m.service.tasks ≡ none)
      ⊎ ((run : RunningTask) × (s : AiOrchestratorService) × (take_next_task_locked m.service now
            ≡ (s, some run))
          × (taken m now ≡ record { service = s; in_flight = run.task.id ∷ m.in_flight })
          × (¬ In run.task.id m.in_flight))
unfolding taken take_next_task_locked started
take_cases m now v = elim (Option-cases (select_next now m.service.tasks)) [
  | inl e ↦
      inl (rw (e, taken, take_next_task_locked, e) refl, rw (e, take_next_task_locked) refl, e)
  | inr ((id, task), e) ↦
      let (stored, waits) = select_next-stored m.service m.in_flight now id task v e in
      let named = (v.tasks id task stored).named in
      let taken_task = started task now in
      inr (
        record { task = taken_task; request = request_of taken_task },
        store_task m.service id taken_task,
        rw (e, take_next_task_locked) refl,
        rw (e, taken, take_next_task_locked, e) refl,
        λ there.
            let (t, stored', is_out) = v.away task.id there in
            let found =
              subst (λ i. lookup ℕ_discrete i m.service.tasks ≡ some task) (sym named) stored in
            let same : t ≡ task = cc in
            queued_away task.status waits (ap (λ t. is_away t.status) (sym same) ∙ is_out),
      )
]

-- One turn, by what is taken and what its end makes of it.
pub tick_loop_next :
    (n : ℕ) (clock : ℕ → TurnTimes) (s s1 s2 : AiOrchestratorService) (run : RunningTask)
    (result result1 : TickResult)
    → let elapsed = ((clock 0).ended_at - (clock 0).started_at) / ns_per_ms in
      take_next_task_locked s (clock 0).taken_at ≡ (s1, some run)
      → finish_task_locked s1 run
          (call_client s1.client run.request)
          elapsed
          (clock 0).finished_at
          result
        ≡ some (s2, result1)
      → tick_loop (suc n) clock s result ≡ tick_loop n (λ i. clock (suc i)) s2 result1
unfolding tick_loop
tick_loop_next n clock s s1 s2 run result result1 e f =
    let elapsed = ((clock 0).ended_at - (clock 0).started_at) / ns_per_ms in
    let rest : Option (AiOrchestratorService × TickResult)
        → Option (AiOrchestratorService × TickResult) =
      λ o. elim o [ none ↦ none | some x ↦ tick_loop n (λ i. clock (suc i)) x.0 x.1 ] in
    ap
      (λ t. elim t.1 [
        | none ↦ some (t.0, result)
        | some run ↦ rest (
            finish_task_locked t.0 run (call_client t.0.client run.request) elapsed
              (clock 0).finished_at result)
      ])
      e
    ∙ ap rest f

-- `k` turns of a loop, at the readings of the clock: in each a task is taken, the client answers its
-- request, and the answer ends that task.
pub data Turns
    : (ℕ → TurnTimes)
      → ℕ
      → AiOrchestratorService
      → TickResult
      → AiOrchestratorService
      → TickResult
      → Type 0 where
  no_turn :
      {clock : ℕ → TurnTimes} {s : AiOrchestratorService} {r : TickResult} → Turns clock 0 s r s r
  turn :
      {clock : ℕ → TurnTimes} {k : ℕ} {s s' : AiOrchestratorService} {r r' : TickResult}
      (s1 s2 : AiOrchestratorService) (run : RunningTask) (r1 : TickResult)
      → take_next_task_locked s (clock 0).taken_at ≡ (s1, some run)
      → finish_task_locked s1 run
          (call_client s1.client run.request)
          (((clock 0).ended_at - (clock 0).started_at) / ns_per_ms)
          (clock 0).finished_at
          r
        ≡ some (s2, r1)
      → Turns (λ i. clock (suc i)) k s2 r1 s' r'
      → Turns clock (suc k) s r s' r'

-- The loop has had all of its turns, or there is no task that it could take.
abbrev pub IsOver : ℕ → ℕ → (ℕ → TurnTimes) → AiOrchestratorService → Type 0
IsOver max k clock s = (k ≡ max) ⊎ ((k < max) × (select_next (clock k).taken_at s.tasks ≡ none))

pub tick_loop-Reach :
    (n : ℕ) (clock : ℕ → TurnTimes) (m : Machine) (result : TickResult)
    → IsSound m
    → (s' : AiOrchestratorService) × (result' : TickResult) × (tick_loop n clock m.service result
        ≡ some (s', result'))
      × Reach m (record m { service = s' })
      × (k : ℕ) × Turns clock k m.service result s' result'
      × IsOver n k clock s'
unfolding tick_loop
tick_loop-Reach zero clock m result v = (m.service, result, refl, stop, 0, no_turn, inl refl)
tick_loop-Reach (suc n) clock m result v =
    let elapsed = ((clock 0).ended_at - (clock 0).started_at) / ns_per_ms in
    elim (take_cases m (clock 0).taken_at v) [
      | inl (_, e, idle) ↦
          (m.service, result, rw (e, tick_loop, e) refl, stop, 0, no_turn, inr (omega arith, idle))
      | inr (run, s, e, goes, out) ↦
          let first = subst (Step m) goes (takes m (clock 0).taken_at) in
          let (v1, _) = Step-IsSound first v in
          let response = call_client s.client run.request in
          let ids = run.task.id ∷ m.in_flight in
          let (s1, result1, f, w1, _) =
            finish_returns s ids run response elapsed (clock 0).finished_at result v1 (inl refl) in
          let second =
            ends (record { service = s; in_flight = ids }) run response elapsed
              (clock 0).finished_at result result1 s1 (inl refl) f in
          let same = back_own run.task.id m.in_flight out in
          let (s2, result2, g, rest, k, turns, over) =
            tick_loop-Reach n (λ i. clock (suc i)) (record m { service = s1 }) result1
              (subst (Inv s1) same w1) in
          let path : Reach (record { service = s; in_flight = ids }) (record m { service = s2 }) =
            step
              (subst
                (λ l.
                  Step (record { service = s; in_flight = ids })
                    (record { service = s1; in_flight = l }))
                same second)
              rest in
          (
            s2,
            result2,
            tick_loop_next n clock m.service s s1 run result result1 e f ∙ g,
            step first path,
            suc k,
            turn s s1 run result1 e f turns,
            elim over [ inl q ↦ inl (ap suc q) | inr (lt, idle) ↦ inr (omega arith, idle) ],
          )
    ]

-- The number of the tasks that a result reports.
abbrev pub total : TickResult → ℕ
total r = length r.succeeded_tasks + length r.retry_tasks + length r.failed_tasks

finish_task_locked-total :
    (s s' : AiOrchestratorService) (run : RunningTask) (response : AiResponse) (elapsed now : ℕ)
    (r r' : TickResult)
    → finish_task_locked s run response elapsed now r ≡ some (s', r')
    → total r' ≡ suc (total r)
unfolding finish_task_locked finish_found
finish_task_locked-total s s' run response elapsed now r r' h = grind (arith, length-append {0})

Turns-total :
    {clock : ℕ → TurnTimes} {k : ℕ} {s s' : AiOrchestratorService} {r r' : TickResult}
    → Turns clock k s r s' r'
    → total r' ≡ total r + k
Turns-total no_turn = omega arith
Turns-total {clock} {r = r} (turn s1 s2 run r1 e f turns) =
    let rest = Turns-total turns in
    let one = finish_task_locked-total s1 s2 run _ _ _ r r1 f in omega arith

-- If the invariant holds, `tick` returns, with any client and at any readings of the clock. What it
-- does to the service and to its result is a number of turns one after the other, in each of which a
-- task is taken and ended with what the client answers to its request; it reports as many tasks, and
-- it stops only after `max_tasks` turns or when no task is there to be taken. These turns are steps
-- of the histories, and the tasks that other `tick`s have with the client stay there.
pub tick-Reach :
    (max_tasks : ℕ) (clock : ℕ → TurnTimes) (m : Machine)
    → IsSound m
    → (s' : AiOrchestratorService) × (result : TickResult) × (tick m.service max_tasks clock
        ≡ some (s', result))
      × Reach m (record m { service = s' })
      × (k : ℕ) × Turns clock k m.service nothing_done s' result
      × IsOver max_tasks k clock s'
      × (total result ≡ k)
unfolding tick
tick-Reach max_tasks clock m v =
    let (s', result, e, path, k, turns, over) = tick_loop-Reach max_tasks clock m nothing_done v in
    let counted = Turns-total turns in (s', result, e, path, k, turns, over, omega arith)
