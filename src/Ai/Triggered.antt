-- ===== src/Ai/Triggered.antt =====
-- `handleTriggerEvent` of `AiOrchestratorService` keeps the invariant, and leaves the flows alone.
use red_culture_service.Common.{
  ℕ, ◌+◌, ◌≤◌, ◌<◌, ◌≡◌, refl, inl, inr, String, List, [], ◌∷◌, none, str_dec, u64_mod, inc_u64_lem,
  arith, ◌∙◌, subst, Bool-cases,
}
use red_culture_service.Common.Map.{lookup, size}
use red_culture_service.Ai.Types.{TriggerRule, TriggerEvent, AiOrchestratorService}
use red_culture_service.Ai.Triggers.{
  handle_trigger_event, trigger_loop, trigger_one, rule_matches_event, is_cooling,
  trigger_cooldown_key, context_for,
}
use red_culture_service.Ai.Invariant.{Inv, same_tables-Inv}
use red_culture_service.Ai.Queue.{enqueue_task-Inv, enqueue_cases}

-- At most one task is made, and no flow is touched.
trigger_one-Inv :
    (s : AiOrchestratorService) (in_flight : List ℕ) (rule : TriggerRule) (event : TriggerEvent)
    (now : ℕ)
    → Inv s in_flight
    → s.next_task_id + 1 < u64_mod
    → let s' = (trigger_one s rule event now).0 in
      Inv s' in_flight × (s'.flows ≡ s.flows) × (s'.next_task_id ≤ s.next_task_id + 1)
unfolding trigger_one
trigger_one-Inv s in_flight rule event now v lasts =
    let context = context_for rule event.context in
    let key = trigger_cooldown_key rule event in
    let next = inc_u64_lem s.next_task_id lasts in
    elim (Bool-cases (rule_matches_event rule event)) [
      | inr off ↦ rw off (v, refl, omega arith)
      | inl on ↦ elim (Bool-cases (is_cooling (lookup str_dec key s.last_triggered_at) rule now)) [
        | inl cooling ↦ rw (on, cooling) (v, refl, omega arith)
        | inr warm ↦
            let (v', kept) =
              enqueue_task-Inv s in_flight rule.task_kind context rule.prompt_template now v
                lasts in
            elim (enqueue_cases s rule.task_kind context rule.prompt_template none now) [
              | inl full ↦ rw (on, warm, full, trigger_one, full) (v, refl, omega arith)
              | inr made ↦
                  let stored = subst (λ r. Inv r.0 in_flight) made v' in
                  rw (on, warm, made, trigger_one, made)
                    (
                      same_tables-Inv _ _ in_flight stored refl refl refl refl refl,
                      refl,
                      omega arith,
                    )
            ]
      ]
    ]

trigger_loop-Inv :
    (rules : List (String × TriggerRule)) (s : AiOrchestratorService) (in_flight : List ℕ)
    (event : TriggerEvent) (now : ℕ)
    → Inv s in_flight
    → s.next_task_id + size rules + 1 < u64_mod
    → let s' = (trigger_loop s rules event now).0 in Inv s' in_flight × (s'.flows ≡ s.flows)
unfolding trigger_loop
trigger_loop-Inv [] s in_flight event now v lasts = (v, refl)
trigger_loop-Inv ((_, rule) ∷ rules) s in_flight event now v lasts =
    let (v', kept, next) = trigger_one-Inv s in_flight rule event now v (omega arith) in
    let (v'', kept') =
      trigger_loop-Inv rules (trigger_one s rule event now).0 in_flight event now v'
        (omega arith) in
    (v'', kept' ∙ kept)

pub handle_trigger_event-Inv :
    (s : AiOrchestratorService) (in_flight : List ℕ) (event : TriggerEvent) (now : ℕ)
    → Inv s in_flight
    → s.next_task_id + size s.trigger_rules + 1 < u64_mod
    → let s' = (handle_trigger_event s event now).0 in Inv s' in_flight × (s'.flows ≡ s.flows)
unfolding handle_trigger_event
handle_trigger_event-Inv s in_flight event now v lasts =
    trigger_loop-Inv s.trigger_rules s in_flight event now v lasts
