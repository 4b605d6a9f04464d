-- ===== src/Config/Parse.antt =====
-- The functions of src/config_hotreload/config_hotreload_service.cpp that make a configuration of a YAML
-- document.
use red_culture_service.Common.{ℕ, String, Bool, not, ◌||◌, List, [], ◌∷◌, str_dec, if◌then◌else◌}
use red_culture_service.Common.Map.{insert}
use red_culture_service.Config.Types.{
  NetworkConfig, ServerConfig, RuntimeConfig, AuthConfig, StorageConfig, AiConfig, VoiceTtsConfig,
  HotReloadConfig, LoggingConfig, AppConfig, default_network, default_server, default_runtime,
  default_auth, default_storage, default_ai, default_voice, default_hot_reload, default_logging,
}
use red_culture_service.Config.Yaml.{
  Attempt, done, ◌>>=◌, YamlOps, read_or, read_string_or, read_u16_or,
}

module _ (Y : YamlOps) where
  abbrev pub u32 : Y.Node → String → ℕ → Attempt ℕ
  u32 node key fallback = read_or Y Y.as_u32 node key fallback

  abbrev pub flag : Y.Node → String → Bool → Attempt Bool
  flag node key fallback = read_or Y Y.as_bool node key fallback

  abbrev pub text : Y.Node → String → String → Attempt String
  text node key fallback = read_string_or Y node key fallback

  unfoldable pub parse_network : Y.Node → Attempt NetworkConfig
  parse_network root = do
    let config = default_network
    node ← Y.at root "network"
    listen_address ← text node "listen_address" config.listen_address
    port ← read_u16_or Y node "port" config.port
    max_connections ← u32 node "max_connections" config.max_connections
    max_messages ← u32 node "max_messages_per_window" config.max_messages_per_window
    done (record {
      listen_address = listen_address;
      port = port;
      max_connections = max_connections;
      max_messages_per_window = max_messages;
    })

  unfoldable pub parse_server : Y.Node → Attempt ServerConfig
  parse_server root = do
    let config = default_server
    node ← Y.at root "server"
    listen_address ← text node "listen_address" config.listen_address
    port ← read_u16_or Y node "port" config.port
    thread_count ← u32 node "thread_count" config.thread_count
    max_body_bytes ← u32 node "max_body_bytes" config.max_body_bytes
    enable_cors ← flag node "enable_cors" config.enable_cors
    done (record {
      listen_address = listen_address;
      port = port;
      thread_count = thread_count;
      max_body_bytes = max_body_bytes;
      enable_cors = enable_cors;
    })

  unfoldable pub parse_runtime : Y.Node → Attempt RuntimeConfig
  parse_runtime root = do
    let config = default_runtime
    node ← Y.at root "app"
    service_name ← text node "service_name" config.service_name
    version ← text node "version" config.version
    environment ← text node "environment" config.environment
    allow_dev_auth ← flag node "allow_dev_auth" config.allow_dev_auth
    done (record {
      service_name = service_name;
      version = version;
      environment = environment;
      allow_dev_auth = allow_dev_auth;
    })

  unfoldable pub parse_auth : Y.Node → Attempt AuthConfig
  parse_auth root = do
    let config = default_auth
    node ← Y.at root "auth"
    issuer ← text node "issuer" config.issuer
    audience ← text node "audience" config.audience
    jwt_secret ← text node "jwt_secret" config.jwt_secret
    jwt_secret_env ← text node "jwt_secret_env" config.jwt_secret_env
    token_ttl ← u32 node "token_ttl_seconds" config.token_ttl_seconds
    idle_timeout ← u32 node "session_idle_timeout_seconds" config.session_idle_timeout_seconds
    done (record {
      issuer = issuer;
      audience = audience;
      jwt_secret = jwt_secret;
      jwt_secret_env = jwt_secret_env;
      token_ttl_seconds = token_ttl;
      session_idle_timeout_seconds = idle_timeout;
    })

  unfoldable pub parse_storage : Y.Node → Attempt StorageConfig
  parse_storage root = do
    let config = default_storage
    node ← Y.at root "storage"
    enabled ← flag node "enabled" config.enabled
    postgres_uri_env ← text node "postgres_uri_env" config.postgres_uri_env
    postgres_uri ← text node "postgres_uri" config.postgres_uri
    auto_migrate ← flag node "auto_migrate" config.auto_migrate
    allow_without ← flag node "allow_without_storage" config.allow_without_storage
    done (record {
      enabled = enabled;
      postgres_uri_env = postgres_uri_env;
      postgres_uri = postgres_uri;
      auto_migrate = auto_migrate;
      allow_without_storage = allow_without;
    })

  unfoldable pub parse_ai : Y.Node → Attempt AiConfig
  parse_ai root = do
    let config = default_ai
    node ← Y.at root "ai"
    provider ← text node "provider" config.provider
    base_url ← text node "base_url" config.base_url
    api_key_env ← text node "api_key_env" config.api_key_env
    model ← text node "model" config.model
    timeout_ms ← u32 node "timeout_ms" config.timeout_ms
    max_retries ← u32 node "max_retries" config.max_retries
    done (record {
      provider = provider;
      base_url = base_url;
      api_key_env = api_key_env;
      model = model;
      timeout_ms = timeout_ms;
      max_retries = max_retries;
    })

  unfoldable pub parse_voice_tts : Y.Node → Attempt VoiceTtsConfig
  parse_voice_tts root = do
    let config = default_voice
    node ← Y.at root "voice_tts"
    provider ← text node "provider" config.provider
    base_url ← text node "base_url" config.base_url
    api_key_env ← text node "api_key_env" config.api_key_env
    voice_id ← text node "voice_id" config.voice_id
    language ← text node "language" config.language
    timeout_ms ← u32 node "timeout_ms" config.timeout_ms
    max_retries ← u32 node "max_retries" config.max_retries
    cache_ttl ← u32 node "cache_ttl_seconds" config.cache_ttl_seconds
    done (record {
      provider = provider;
      base_url = base_url;
      api_key_env = api_key_env;
      voice_id = voice_id;
      language = language;
      timeout_ms = timeout_ms;
      max_retries = max_retries;
      cache_ttl_seconds = cache_ttl;
    })

  unfoldable pub parse_hot_reload : Y.Node → Attempt HotReloadConfig
  parse_hot_reload root = do
    let config = default_hot_reload
    node ← Y.at root "hot_reload"
    enabled ← flag node "enabled" config.enabled
    check_interval ← u32 node "check_interval_ms" config.check_interval_ms
    done (record { enabled = enabled; check_interval_ms = check_interval })

  unfoldable pub parse_logging : Y.Node → Attempt LoggingConfig
  parse_logging root = do
    let config = default_logging
    node ← Y.at root "logging"
    service_name ← text node "service_name" config.service_name
    logger_name ← text node "logger_name" config.logger_name
    level ← text node "level" config.level
    console ← flag node "console" config.console
    json ← flag node "json" config.json
    file_enabled ← flag node "file_enabled" config.file_enabled
    file_path ← text node "file_path" config.file_path
    pattern ← text node "pattern" config.pattern
    done (record {
      service_name = service_name;
      logger_name = logger_name;
      level = level;
      console = console;
      json = json;
      file_enabled = file_enabled;
      file_path = file_path;
      pattern = pattern;
    })

  -- The loop over the items of `overrides`.
  unfoldable pub read_items :
      List (Y.Node × Y.Node) → List (String × String) → Attempt (List (String × String))
  read_items [] values = done values
  read_items ((first, second) ∷ items) values = do
    key ← Y.as_string first
    value ← Y.as_string second
    read_items items (insert str_dec key value values)

  unfoldable pub parse_raw_overrides : Y.Node → Attempt (List (String × String))
  unfolding read_items
  parse_raw_overrides root = do
    node ← Y.at root "overrides"
    if not (Y.is_defined node) || not (Y.is_map node) then done [] else read_items (Y.items node) []

  unfoldable pub parse_app_config : Y.Node → Attempt AppConfig
  parse_app_config root = do
    app ← parse_runtime root
    server ← parse_server root
    network ← parse_network root
    auth ← parse_auth root
    storage ← parse_storage root
    ai ← parse_ai root
    voice_tts ← parse_voice_tts root
    logging ← parse_logging root
    hot_reload ← parse_hot_reload root
    raw_overrides ← parse_raw_overrides root
    done (record {
      app = app;
      server = server;
      network = network;
      auth = auth;
      storage = storage;
      ai = ai;
      voice_tts = voice_tts;
      logging = logging;
      hot_reload = hot_reload;
      raw_overrides = raw_overrides;
    })
