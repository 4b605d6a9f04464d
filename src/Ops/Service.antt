-- ===== src/Ops/Service.antt =====
-- The operations of `OpsService` in src/ops/ops_service.cpp that change its state, the queries, and the
-- health report. An empty `std::function` is `none`.
use red_culture_service.Common.{
  ℕ, String, Bool, true, false, not, ◌&&◌, List, [], ◌∷◌, ◌++◌, Option, none, some, str_dec,
  is_empty, is_some, any_of, map, ◌==◌, if◌then◌else◌,
}
use red_culture_service.Common.Map.{lookup, insert, erase}
use red_culture_service.Ops.Types.{
  ServiceStatus, starting, running, draining, stopped, unhealthy, is_running, is_unhealthy,
  is_ending, is_leaving, OpsConfig, VersionInfo, ComponentHealth, HealthReport, CheckOutcome,
  returned, thrown, HealthCheck, MetricsExporter, OpsService,
}

-- `reason.empty() ? fallback : reason`
abbrev pub reason_or : String → String → String
reason_or reason fallback = if is_empty reason then fallback else reason

module _ {Callback : Type 0} where
  abbrev pub new_service : OpsConfig → ℕ → OpsService Callback
  new_service config now = record {
    config = config;
    started_at = now;
    status = starting;
    ready = false;
    unhealthy_reason = "";
    shutdown_reason = "";
    health_checks = [];
    metrics_exporter = none;
    shutdown_callback = none;
  }

  unfoldable pub version_info : OpsService Callback → VersionInfo
  version_info s = record {
    service_name = s.config.service_name;
    version = s.config.version;
    environment = s.config.environment;
    instance_id = s.config.instance_id;
    started_at = s.started_at;
  }

  unfoldable pub start : OpsService Callback → OpsService Callback
  start s = record s { status = running; ready = true; unhealthy_reason = "" }

  unfoldable pub set_ready : OpsService Callback → Bool → OpsService Callback
  set_ready s ready = record s { ready = ready }

  unfoldable pub mark_unhealthy : OpsService Callback → String → OpsService Callback
  mark_unhealthy s reason = record s {
    status = unhealthy;
    ready = false;
    unhealthy_reason = reason;
  }

  -- The state after the locked part, and the call of the callback that follows it.
  unfoldable pub begin_shutdown :
      OpsService Callback → String → OpsService Callback × Option (Callback × String)
  begin_shutdown s reason = if is_ending s.status then (s, none) else (
    record s { status = draining; ready = false; shutdown_reason = reason },
    elim s.shutdown_callback [
      | none ↦ none
      | some callback ↦ some (callback, reason_or reason "shutdown requested")
    ],
  )

  unfoldable pub complete_shutdown : OpsService Callback → OpsService Callback
  complete_shutdown s = record s { status = stopped; ready = false }

  unfoldable pub is_ready : OpsService Callback → Bool
  is_ready s = s.ready && is_running s.status

  unfoldable pub is_shutting_down : OpsService Callback → Bool
  is_shutting_down s = is_leaving s.status

  unfoldable pub shutdown_reason_of : OpsService Callback → Option String
  shutdown_reason_of s = if is_empty s.shutdown_reason then none else some s.shutdown_reason

  unfoldable pub register_health_check :
      OpsService Callback → String → Option HealthCheck → OpsService Callback × Bool
  register_health_check s component none = (s, false)
  register_health_check s component (some check) =
      if is_empty component
      then (s, false)
      else (record s { health_checks = insert str_dec component check s.health_checks }, true)

  unfoldable pub unregister_health_check : OpsService Callback → String → OpsService Callback × Bool
  unregister_health_check s component = (
    record s { health_checks = erase str_dec component s.health_checks },
    is_some (lookup str_dec component s.health_checks),
  )

  unfoldable pub set_metrics_exporter :
      OpsService Callback → Option MetricsExporter → OpsService Callback
  set_metrics_exporter s exporter = record s { metrics_exporter = exporter }

  unfoldable pub set_shutdown_callback : OpsService Callback → Option Callback → OpsService Callback
  set_shutdown_callback s callback = record s { shutdown_callback = callback }

  unfoldable pub health_checks_snapshot : OpsService Callback → List HealthCheck
  health_checks_snapshot s = map (λ e. e.1) s.health_checks

-- What the loop over the checks adds to the report. A check that gives no time gets the report's.
unfoldable pub component_of : ℕ → CheckOutcome → ComponentHealth
component_of now (returned component) =
    if component.checked_at == 0 then record component { checked_at = now } else component
component_of now (thrown what) = record {
  component = "unknown";
  healthy = false;
  message = what;
  checked_at = now;
}

unfoldable pub own_health : ServiceStatus → String → ℕ → List ComponentHealth
own_health status reason now =
    if is_unhealthy status
    then record {
      component = "service";
      healthy = false;
      message = reason_or reason "service marked unhealthy";
      checked_at = now;
    }
      ∷ []
    else []

-- `std::all_of` over the components
abbrev pub all_healthy : List ComponentHealth → Bool
all_healthy components = not (any_of (λ c. not c.healthy) components)

-- The checks and the status are read one after the other; no other call comes between here.
unfoldable pub collect_health_report : {Callback : Type 0} → OpsService Callback → ℕ → HealthReport
unfolding health_checks_snapshot component_of own_health
collect_health_report s now =
    let checked = map (λ check. component_of now (check now)) (health_checks_snapshot s) in
    let components = own_health s.status s.unhealthy_reason now ++ checked in
    record {
      healthy = not (is_unhealthy s.status) && all_healthy components;
      ready = s.ready && is_running s.status;
      status = s.status;
      components = components;
      checked_at = now;
    }
