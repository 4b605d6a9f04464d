-- ===== src/Ops/Admin.antt =====
-- The admin requests of src/ops/ops_service.cpp: `handleRequest` and the answers. The file has its own
-- `normalizeMethod`, which is the router's.
use red_culture_service.Common.{
  ℕ, ◌/◌, String, true, ◌&&◌, List, [], ◌∷◌, none, some, same, map, ns_per_ms, if◌then◌else◌,
}
use red_culture_service.Common.Json.{JsonOps}
use red_culture_service.Http.Router.{normalize_method}
use red_culture_service.Ops.Types.{
  status_name, ComponentHealth, HealthReport, AdminRequest, AdminResponse, OpsService, Handled,
}
use red_culture_service.Ops.Service.{
  version_info, begin_shutdown, is_ready, shutdown_reason_of, collect_health_report, reason_or,
}

abbrev pub epoch_millis : ℕ → ℕ
epoch_millis time = time / ns_per_ms

unfoldable pub text_response : ℕ → String → String → AdminResponse
text_response status_code body content_type = record {
  status_code = status_code;
  content_type = content_type;
  body = body;
  headers = ("cache-control", "no-store") ∷ [];
}

unfoldable pub json_response : ℕ → String → AdminResponse
unfolding text_response
json_response status_code body = text_response status_code body "application/json"

abbrev pub prometheus : String
prometheus = "text/plain; version=0.0.4"

module _ (W : JsonOps) where
  unfoldable pub component_to_json : ComponentHealth → W.Json
  component_to_json c = W.object (
      ("component", W.string c.component)
      ∷ ("healthy", W.boolean c.healthy)
      ∷ ("message", W.string c.message)
      ∷ ("checked_at_ms", W.number (epoch_millis c.checked_at))
      ∷ [])

  unfoldable pub health_report_json : HealthReport → String
  unfolding component_to_json
  health_report_json report = W.dump (
      W.object (
        ("healthy", W.boolean report.healthy)
        ∷ ("ready", W.boolean report.ready)
        ∷ ("status", W.string (status_name report.status))
        ∷ ("checked_at_ms", W.number (epoch_millis report.checked_at))
        ∷ ("components", W.array (map component_to_json report.components))
        ∷ []))

  module _ {Callback : Type 0} where
    unfoldable pub health_response : OpsService Callback → ℕ → AdminResponse
    unfolding collect_health_report health_report_json json_response
    health_response s now =
        let report = collect_health_report s now in
        json_response (if report.healthy then 200 else 503) (health_report_json report)

    unfoldable pub ready_response : OpsService Callback → AdminResponse
    unfolding is_ready json_response
    ready_response s =
        let ready = is_ready s in
        let body =
          W.object
            (("ready", W.boolean ready) ∷ ("status", W.string (status_name s.status)) ∷ []) in
        json_response (if ready then 200 else 503) (W.dump body)

    unfoldable pub version_json : OpsService Callback → String
    unfolding version_info
    version_json s =
        let version = version_info s in
        W.dump (
          W.object (
            ("serviceName", W.string version.service_name)
            ∷ ("version", W.string version.version)
            ∷ ("environment", W.string version.environment)
            ∷ ("instance_id", W.string version.instance_id)
            ∷ ("started_at_ms", W.number (epoch_millis version.started_at))
            ∷ []))

    unfoldable pub version_response : OpsService Callback → AdminResponse
    unfolding version_json json_response
    version_response s = json_response 200 (version_json s)

    unfoldable pub metrics_response : OpsService Callback → ℕ → AdminResponse
    unfolding text_response
    metrics_response s now = elim s.metrics_exporter [
      | none ↦ text_response 200 "# metrics exporter is not configured\n" prometheus
      | some exporter ↦ text_response 200 (exporter now) prometheus
    ]

    unfoldable pub shutdown_body : OpsService Callback → String
    unfolding shutdown_reason_of
    shutdown_body s =
        let reason : List (String × W.Json) = elim (shutdown_reason_of s) [
          | none ↦ []
          | some reason ↦ ("reason", W.string reason) ∷ []
        ] in
        W.dump (
          W.object (
            ("accepted", W.boolean true)
            ∷ ("status", W.string (status_name s.status))
            ∷ ("grace_period_seconds", W.number s.config.shutdown_grace_period)
            ∷ reason))

    unfoldable pub shutdown_response : OpsService Callback → String → Handled Callback
    unfolding begin_shutdown shutdown_body json_response
    shutdown_response s reason =
        let (s', call) = begin_shutdown s reason in
        record { service = s'; response = json_response 202 (shutdown_body s'); call = call }

    abbrev pub unchanged : OpsService Callback → AdminResponse → Handled Callback
    unchanged s response = record { service = s; response = response; call = none }

    unfoldable pub handle_request : OpsService Callback → AdminRequest → ℕ → Handled Callback
    unfolding normalize_method health_response ready_response version_response metrics_response
        shutdown_response json_response
    handle_request s request now =
        let method = normalize_method request.method in
        if same method "GET" && same request.path "/health"
        then unchanged s (health_response s now)
        else if same method "GET" && same request.path "/ready"
        then unchanged s (ready_response s)
        else if same method "GET" && same request.path "/version"
        then unchanged s (version_response s)
        else if same method "GET" && same request.path "/metrics"
        then unchanged s (metrics_response s now)
        else if same method "POST" && same request.path "/shutdown"
        then shutdown_response s (reason_or request.body "admin request")
        else unchanged s (json_response 404 "{\"error\":\"admin route not found\"}")
