-- ===== src/Config/Service.antt =====
-- `ConfigHotReloadService` of src/config_hotreload/config_hotreload_service.cpp. What the file system and
-- the YAML library answer during a call is an argument of the call. The times of files are only
-- compared for equality; the time that a new service has is 0.
use Prim.Native.String.{◌++◌ as str_append}
use red_culture_service.Common.{
  ℕ, ◌+◌, ◌*◌, String, Bool, true, false, not, ◌&&◌, ◌||◌, Option, none, some, is_empty, is_some,
  ltb, ◌==◌, ns_per_ms, if◌then◌else◌,
}
use red_culture_service.Config.Types.{AppConfig, ConfigLoadResult}
use red_culture_service.Config.Yaml.{Attempt, done, thrown, ◌>>=◌, YamlOps}
use red_culture_service.Config.Parse.{parse_app_config}

-- The callback is a name, as the service only calls it.
pub record ConfigHotReloadService (Callback : Type 0) : Type 0 where
  pub config_path : String
  pub current_config : Option AppConfig
  pub last_write_time : ℕ
  pub last_checked_at : ℕ
  pub on_reload : Option Callback

pub record Disk (Node : Type 0) : Type 0 where
  pub exists : String → Attempt Bool
  pub last_write_time : String → Attempt ℕ
  pub load_file : String → Attempt Node

-- What the `try` block comes to.
pub data Found : Type 0 where
  missing unchanged : Found
  parsed : AppConfig → ℕ → Found

-- The state after the locked part, its result, and the call of the callback that follows it.
pub record Loaded (Callback : Type 0) : Type 0 where
  pub service : ConfigHotReloadService Callback
  pub result : ConfigLoadResult
  pub call : Option (Callback × AppConfig)

abbrev pub succeeded : Option AppConfig → ConfigLoadResult
succeeded config = record { ok = true; error = ""; config = config }

abbrev pub failed : String → ConfigLoadResult
failed error = record { ok = false; error = error; config = none }

-- `callback && result.config`
abbrev pub call_of :
    {Callback : Type 0} → Option Callback → Option AppConfig → Option (Callback × AppConfig)
call_of (some callback) (some config) = some (callback, config)
call_of _ _ = none

-- The two tests of `poll` that leave the file alone.
unfoldable pub is_idle : Option AppConfig → ℕ → ℕ → Bool
is_idle none last_checked_at now = false
is_idle (some config) last_checked_at now =
    not config.hot_reload.enabled
    || ltb now (last_checked_at + config.hot_reload.check_interval_ms * ns_per_ms)

module _ (Y : YamlOps) {Callback : Type 0} where
  unfoldable pub set_config_path :
      ConfigHotReloadService Callback → String → ConfigHotReloadService Callback
  set_config_path s config_path = record s {
    config_path = config_path;
    current_config = none;
    last_write_time = 0;
    last_checked_at = 0;
  }

  unfoldable pub find_config : ConfigHotReloadService Callback → Disk Y.Node → Bool → Attempt Found
  unfolding parse_app_config
  find_config s disk force = do
    exists ← disk.exists s.config_path
    if not exists then done missing else do
      write_time ← disk.last_write_time s.config_path
      if not force && is_some s.current_config && (write_time == s.last_write_time)
          then done unchanged
          else do
            root ← disk.load_file s.config_path
            config ← parse_app_config Y root
            done (parsed config write_time)

  unfoldable pub load_locked :
      ConfigHotReloadService Callback
      → Disk Y.Node
      → Bool
      → ConfigHotReloadService Callback × ConfigLoadResult
  unfolding find_config
  load_locked s disk force = elim (find_config s disk force) [
    | thrown what ↦ (s, failed what)
    | done missing ↦ (s, failed (str_append "config file does not exist: " s.config_path))
    | done unchanged ↦ (s, succeeded s.current_config)
    | done (parsed config write_time) ↦ (
      record s { current_config = some config; last_write_time = write_time },
      succeeded (some config),
    )
  ]

  unfoldable pub load : ConfigHotReloadService Callback → Disk Y.Node → Loaded Callback
  unfolding load_locked
  load s disk =
      let (s', result) = load_locked s disk true in
      record {
        service = s';
        result = result;
        call = if result.ok then call_of s'.on_reload result.config else none;
      }

  unfoldable pub reload : ConfigHotReloadService Callback → Disk Y.Node → Loaded Callback
  unfolding load
  reload s disk = load s disk

  -- The locked part of `poll` once the time to look at the file has come.
  unfoldable pub check_file : ConfigHotReloadService Callback → Disk Y.Node → ℕ → Loaded Callback
  unfolding load_locked
  check_file s disk now =
      let (s', result) = load_locked (record s { last_checked_at = now }) disk false in
      let changed =
        result.ok && is_some result.config && not (s'.last_write_time == s.last_write_time) in
      record {
        service = s';
        result = result;
        call = if changed then call_of s'.on_reload result.config else none;
      }

  unfoldable pub poll : ConfigHotReloadService Callback → Disk Y.Node → ℕ → Loaded Callback
  unfolding is_idle check_file
  poll s disk now =
      if is_idle s.current_config s.last_checked_at now
      then record { service = s; result = succeeded s.current_config; call = none }
      else check_file s disk now

  unfoldable pub set_on_reload :
      ConfigHotReloadService Callback → Option Callback → ConfigHotReloadService Callback
  set_on_reload s callback = record s { on_reload = callback }

  unfoldable pub check_interval : ConfigHotReloadService Callback → ℕ
  check_interval s = elim s.current_config [
    | none ↦ 0
    | some config ↦ config.hot_reload.check_interval_ms
  ]

  unfoldable pub hot_reload_enabled : ConfigHotReloadService Callback → Bool
  hot_reload_enabled s = elim s.current_config [
    | none ↦ false
    | some config ↦ config.hot_reload.enabled
  ]

-- `getenv` answers with nothing for a variable that is not set.
unfoldable pub resolve_env : (String → Option String) → String → Option String
resolve_env getenv env_name = if is_empty env_name then none else elim (getenv env_name) [
  | none ↦ none
  | some value ↦ if is_empty value then none else some value
]

unfoldable pub resolve_env_or : (String → Option String) → String → String → String
unfolding resolve_env
resolve_env_or getenv env_name fallback = elim (resolve_env getenv env_name) [
  | none ↦ fallback
  | some value ↦ value
]
