-- ===== src/Ops/Shutdown.antt =====
-- What follows the start of a shutdown in src/ops/ops_service.cpp.
use red_culture_service.Common.{
  ℕ, ◌≡◌, refl, inl, inr, ◌⊎◌, String, Bool, true, false, ◌&&◌, List, [], ◌∷◌, Option, none, some,
  same, arith, ap, ◌∙◌, Bool-cases, if_both, str_dec,
}
use red_culture_service.Common.Json.{JsonOps}
use red_culture_service.Http.Router.{normalize_method}
use red_culture_service.Ops.Types.{
  ServiceStatus, starting, running, draining, stopping, stopped, unhealthy, is_running, is_ending,
  HealthCheck, MetricsExporter, AdminRequest, OpsService, Handled,
}
use red_culture_service.Ops.Service.{
  set_ready, mark_unhealthy, begin_shutdown, complete_shutdown, is_ready, register_health_check,
  unregister_health_check, set_metrics_exporter, set_shutdown_callback, reason_or,
}
use red_culture_service.Ops.Admin.{
  handle_request, ready_response, shutdown_response, json_response, text_response,
}

-- Every call of the service but `start`.
pub data Call (Callback : Type 0) : Type 0 where
  sets_ready : Bool → Call Callback
  marks_unhealthy : String → Call Callback
  begins : String → Call Callback
  completes : Call Callback
  registers : String → Option HealthCheck → Call Callback
  unregisters : String → Call Callback
  sets_exporter : Option MetricsExporter → Call Callback
  sets_callback : Option Callback → Call Callback
  requests : AdminRequest → ℕ → Call Callback

module _ {Callback : Type 0} (W : JsonOps) where
  unfoldable pub run_call : OpsService Callback → Call Callback → OpsService Callback
  run_call s (sets_ready ready) = set_ready s ready
  run_call s (marks_unhealthy reason) = mark_unhealthy s reason
  run_call s (begins reason) = (begin_shutdown s reason).0
  run_call s completes = complete_shutdown s
  run_call s (registers component check) = (register_health_check s component check).0
  run_call s (unregisters component) = (unregister_health_check s component).0
  run_call s (sets_exporter exporter) = set_metrics_exporter s exporter
  run_call s (sets_callback callback) = set_shutdown_callback s callback
  run_call s (requests request now) = (handle_request W s request now).service

  unfoldable pub run_calls : OpsService Callback → List (Call Callback) → OpsService Callback
  unfolding run_call
  run_calls s [] = s
  run_calls s (c ∷ cs) = run_calls (run_call s c) cs

  begin_shutdown-stops :
      (s : OpsService Callback) (reason : String)
      → is_running (begin_shutdown s reason).0.status ≡ false
  unfolding begin_shutdown
  begin_shutdown-stops s reason = elim (Bool-cases (is_ending s.status)) [
    | inl e ↦ rw e (ending s.status e)
    | inr e ↦ rw e refl
  ]
    where
      ending : (status : ServiceStatus) → is_ending status ≡ true → is_running status ≡ false
      ending running h = cc
      ending starting h = refl
      ending draining h = refl
      ending stopping h = refl
      ending stopped h = refl
      ending unhealthy h = refl

  register-same :
      (s : OpsService Callback) (component : String) (check : Option HealthCheck)
      → (register_health_check s component check).0.status ≡ s.status
  unfolding register_health_check
  register-same s component none = refl
  register-same s component (some check) = ground arith

  -- A request is a shutdown, or changes nothing.
  handle_request_cases :
      (s : OpsService Callback) (request : AdminRequest) (now : ℕ)
      → ((handle_request W s request now).service ≡ s)
        ⊎ ((reason : String) × ((handle_request W s request now).service
              ≡ (begin_shutdown s reason).0))
  unfolding handle_request shutdown_response
  handle_request_cases s request now =
      let method = normalize_method request.method in
      let reason = reason_or request.body "admin request" in
      let IsKept : Handled Callback → Type 0 =
        λ r. (r.service ≡ s) ⊎ ((reason : String) × (r.service ≡ (begin_shutdown s reason).0)) in
      if_both IsKept (same method "GET" && same request.path "/health") (inl refl) (
        if_both IsKept (same method "GET" && same request.path "/ready") (inl refl) (
          if_both IsKept (same method "GET" && same request.path "/version") (inl refl) (
            if_both IsKept (same method "GET" && same request.path "/metrics") (inl refl) (
              if_both IsKept (same method "POST" && same request.path "/shutdown")
                (inr (reason, refl)) (inl refl)))))

  run_call-stopped :
      (s : OpsService Callback) (c : Call Callback)
      → is_running s.status ≡ false
      → is_running (run_call s c).status ≡ false
  unfolding run_call set_ready mark_unhealthy complete_shutdown unregister_health_check
      set_metrics_exporter set_shutdown_callback
  run_call-stopped s (sets_ready ready) h = h
  run_call-stopped s (marks_unhealthy reason) h = refl
  run_call-stopped s (begins reason) h = begin_shutdown-stops s reason
  run_call-stopped s completes h = refl
  run_call-stopped s (registers component check) h =
      ap is_running (register-same s component check) ∙ h
  run_call-stopped s (unregisters component) h = h
  run_call-stopped s (sets_exporter exporter) h = h
  run_call-stopped s (sets_callback callback) h = h
  run_call-stopped s (requests request now) h = elim (handle_request_cases s request now) [
    | inl q ↦ ap (λ s. is_running s.status) q ∙ h
    | inr (reason, q) ↦ ap (λ s. is_running s.status) q ∙ begin_shutdown-stops s reason
  ]

  run_calls-stopped :
      (s : OpsService Callback) (cs : List (Call Callback))
      → is_running s.status ≡ false
      → is_running (run_calls s cs).status ≡ false
  unfolding run_calls
  run_calls-stopped s [] h = h
  run_calls-stopped s (c ∷ cs) h = run_calls-stopped (run_call s c) cs (run_call-stopped s c h)

  -- After a call of `beginShutdown`, whatever calls but `start` follow, `isReady` is false, and a
  -- GET request for /ready, the case of the method's letters aside, is answered with 503.
  pub shutdown-NotReady :
      (s : OpsService Callback) (reason : String) (cs : List (Call Callback))
      (request : AdminRequest) (now : ℕ)
      → normalize_method request.method ≡ "GET"
      → request.path ≡ "/ready"
      → let s' = run_calls (begin_shutdown s reason).0 cs in
        (is_ready s' ≡ false) × ((handle_request W s' request now).response.status_code ≡ 503)
  unfolding handle_request ready_response is_ready json_response text_response str_dec
  shutdown-NotReady s reason cs request now get path =
      let s' = run_calls (begin_shutdown s reason).0 cs in
      let stopped =
        run_calls-stopped (begin_shutdown s reason).0 cs (begin_shutdown-stops s reason) in
      let idle : is_ready s' ≡ false = ground arith in (idle, rw (get, path, idle) refl)

  -- If the status is neither stopping nor stopped and a callback is set, two calls of
  -- `beginShutdown` in a row call the callback twice, and the reason of the second one replaces that
  -- of the first.
  pub begin_shutdown_again :
      (s : OpsService Callback) (callback : Callback) (first second : String)
      → is_ending s.status ≡ false
      → s.shutdown_callback ≡ some callback
      → let (s1, call1) = begin_shutdown s first in
        let (s2, call2) = begin_shutdown s1 second in
        (call1 ≡ some (callback, reason_or first "shutdown requested"))
        × (call2 ≡ some (callback, reason_or second "shutdown requested"))
        × (s2.shutdown_reason ≡ second)
  unfolding begin_shutdown
  begin_shutdown_again s callback first second on set = rw (on, set) (refl, refl, refl)
