-- ===== src/Ops/Tests.antt =====
-- The theorems on the admin requests at concrete inputs.
use red_culture_service.Common.{
  ℕ, ◌≡◌, ◌≢◌, ◌↔◌, ◌⊎◌, refl, true, false, String, [], ◌∷◌, some, In, if◌then◌else◌, dec_le,
}
use red_culture_service.Common.Json.{JsonOps}
use red_culture_service.Http.Router.{normalize_method, to_upper}
use red_culture_service.Ops.Types.{
  OpsConfig, OpsService, AdminRequest, HealthCheck, thrown, unhealthy,
}
use red_culture_service.Ops.Service.{
  new_service, start, register_health_check, set_shutdown_callback, begin_shutdown, is_ready,
}
use red_culture_service.Ops.Admin.{handle_request}
use red_culture_service.Ops.Health.{IsPassing, handle_health_iff}
use red_culture_service.Ops.Shutdown.{
  sets_ready, requests, run_calls, shutdown-NotReady, begin_shutdown_again,
}

abbrev plain : JsonOps
plain = record {
  Json = String;
  boolean = λ b. if b then "true" else "false";
  number = λ n. "1";
  tenths = λ n. "0.1";
  string = λ s. s;
  array = λ l. "[]";
  object = λ l. "{}";
  dump = λ s. s;
}

abbrev config : OpsConfig
config = record {
  service_name = "red_culture_service";
  version = "0.1.0";
  environment = "local";
  instance_id = "local-instance";
  admin_listen_address = "127.0.0.1";
  admin_port = 9000;
  shutdown_grace_period = 10;
}

abbrev database : HealthCheck
database now = thrown "no connection"

-- The callback is named by a number.
abbrev service : OpsService ℕ
service =
    set_shutdown_callback
      (register_health_check (start (new_service config 5)) "db" (some database)).0 (some 3)

abbrev get : String → AdminRequest
get path = record { method = "GET"; path = path; body = ""; headers = [] }

abbrev kill : AdminRequest
kill = record { method = "POST"; path = "/shutdown"; body = "deploy"; headers = [] }

handle_health_iff_example :
    let response = (handle_request plain service (get "/health") 9).response in
    ((response.status_code ≡ 200)
      ↔ (service.status ≢ unhealthy)
        × ((e : String × HealthCheck) → In e service.health_checks → IsPassing 9 e.1))
    × ((response.status_code ≡ 200) ⊎ (response.status_code ≡ 503))
unfolding normalize_method to_upper dec_le
handle_health_iff_example = handle_health_iff plain service (get "/health") 9 refl refl

shutdown-NotReady_example :
    let s' =
      run_calls plain
        (begin_shutdown service "deploy").0
        (sets_ready true ∷ requests kill 20 ∷ []) in
    (is_ready s' ≡ false) × ((handle_request plain s' (get "/ready") 30).response.status_code ≡ 503)
unfolding normalize_method to_upper dec_le
shutdown-NotReady_example =
    shutdown-NotReady plain service "deploy" (sets_ready true ∷ requests kill 20 ∷ [])
      (get "/ready") 30 refl refl

begin_shutdown_again_example :
    let (s1, call1) = begin_shutdown service "deploy" in
    let (s2, call2) = begin_shutdown s1 "" in
    (call1 ≡ some (3, "deploy"))
    × (call2 ≡ some (3, "shutdown requested"))
    × (s2.shutdown_reason ≡ "")
unfolding start register_health_check set_shutdown_callback
begin_shutdown_again_example = begin_shutdown_again plain service 3 "deploy" "" refl refl
