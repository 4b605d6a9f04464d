-- ===== src/Ops/Types.antt =====
-- The structs of include/rcs/ops/ops_service.hpp and the state of `OpsService`. Times are nanoseconds
-- of the system clock.
use red_culture_service.Common.{ℕ, String, Bool, true, false, List, Option}

pub data ServiceStatus : Type 0 where
  starting running draining stopping stopped unhealthy : ServiceStatus

abbrev pub status_name : ServiceStatus → String
status_name starting = "starting"
status_name running = "running"
status_name draining = "draining"
status_name stopping = "stopping"
status_name stopped = "stopped"
status_name unhealthy = "unhealthy"

abbrev pub is_running : ServiceStatus → Bool
is_running running = true
is_running _ = false

abbrev pub is_unhealthy : ServiceStatus → Bool
is_unhealthy unhealthy = true
is_unhealthy _ = false

-- `status_ == stopping || status_ == stopped`
abbrev pub is_ending : ServiceStatus → Bool
is_ending stopping = true
is_ending stopped = true
is_ending _ = false

-- `status_ == draining || status_ == stopping`
abbrev pub is_leaving : ServiceStatus → Bool
is_leaving draining = true
is_leaving stopping = true
is_leaving _ = false

pub record OpsConfig : Type 0 where
  pub service_name : String
  pub version : String
  pub environment : String
  pub instance_id : String
  pub admin_listen_address : String
  pub admin_port : ℕ
  pub shutdown_grace_period : ℕ

pub record VersionInfo : Type 0 where
  pub service_name : String
  pub version : String
  pub environment : String
  pub instance_id : String
  pub started_at : ℕ

pub record ComponentHealth : Type 0 where
  pub component : String
  pub healthy : Bool
  pub message : String
  pub checked_at : ℕ

pub record HealthReport : Type 0 where
  pub healthy : Bool
  pub ready : Bool
  pub status : ServiceStatus
  pub components : List ComponentHealth
  pub checked_at : ℕ

pub record AdminRequest : Type 0 where
  pub method : String
  pub path : String
  pub body : String
  pub headers : List (String × String)

pub record AdminResponse : Type 0 where
  pub status_code : ℕ
  pub content_type : String
  pub body : String
  pub headers : List (String × String)

-- What a health check does: it returns, or throws a `std::exception` with its `what()`.
pub data CheckOutcome : Type 0 where
  returned : ComponentHealth → CheckOutcome
  thrown : String → CheckOutcome

-- The functions that the service is given, by what they do at a time; a callback that shuts the
-- process down is a name, as the service only calls it.
abbrev pub HealthCheck : Type 0
HealthCheck = ℕ → CheckOutcome

abbrev pub MetricsExporter : Type 0
MetricsExporter = ℕ → String

pub record OpsService (Callback : Type 0) : Type 0 where
  pub config : OpsConfig
  pub started_at : ℕ
  pub status : ServiceStatus
  pub ready : Bool
  pub unhealthy_reason : String
  pub shutdown_reason : String
  pub health_checks : List (String × HealthCheck)
  pub metrics_exporter : Option MetricsExporter
  pub shutdown_callback : Option Callback

-- What a request leaves: the service, the answer, and the call of the shutdown callback.
pub record Handled (Callback : Type 0) : Type 0 where
  pub service : OpsService Callback
  pub response : AdminResponse
  pub call : Option (Callback × String)
