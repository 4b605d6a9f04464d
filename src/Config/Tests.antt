-- ===== src/Config/Tests.antt =====
-- The theorems on the configuration at concrete inputs.
use red_culture_service.Common.{
  refl, ap, ℕ, ◌≤◌, ◌≡◌, ◌^◌, String, Bool, true, false, [], none, some, same, str_dec, ltb, ◌||◌,
  if◌then◌else◌, ◌⊎◌,
}
use red_culture_service.Config.Types.{
  AppConfig, default_network, default_server, default_runtime, default_auth, default_storage,
  default_ai, default_voice, default_hot_reload, default_logging,
}
use red_culture_service.Config.Parse.{
  parse_app_config, parse_runtime, parse_server, parse_network, parse_auth, parse_storage, parse_ai,
  parse_voice_tts, parse_logging, parse_hot_reload, parse_raw_overrides,
}
use red_culture_service.Config.Yaml.{
  Attempt, done, thrown, YamlOps, read_or, read_string_or, read_u16_or,
}
use red_culture_service.Config.Service.{
  ConfigHotReloadService, Disk, poll, load, load_locked, find_config,
}
use red_culture_service.Config.Reload.{IsPolled, poll-IsPolled}
use red_culture_service.Config.Bounds.{HasPort, load-ports}

-- A document whose tables all have a port.
data Document : Type 0 where
  nothing table : Document
  word : ℕ → Document

find : Document → String → Document
find table key =
    if same key "port"
    then word 9000
    else if same key "network" || same key "server"
    then table
    else nothing
find _ key = nothing

is_there : Document → Bool
is_there nothing = false
is_there _ = true

to_u32 : Document → Attempt ℕ
to_u32 (word n) = if ltb n (2 ^ 32) then done n else thrown "bad conversion"
to_u32 _ = thrown "bad conversion"

abbrev yaml : YamlOps
yaml = record {
  Node = Document;
  at = λ node key. done (find node key);
  is_defined = is_there;
  is_null = λ node. false;
  is_map = λ node. false;
  as_u32 = to_u32;
  as_bool = λ node. thrown "bad conversion";
  as_string = λ node. thrown "bad conversion";
  items = λ node. [];
}

-- The callback is named by a number.
abbrev service : ConfigHotReloadService ℕ
service = record {
  config_path = "config/app.yaml";
  current_config = none;
  last_write_time = 0;
  last_checked_at = 0;
  on_reload = some 1;
}

abbrev disk : Disk Document
disk = record {
  exists = λ path. done true;
  last_write_time = λ path. done 77;
  load_file = λ path. done table;
}

abbrev loaded : AppConfig
loaded = record {
  app = default_runtime;
  server = record default_server { port = 9000 };
  network = record default_network { port = 9000 };
  auth = default_auth;
  storage = default_storage;
  ai = default_ai;
  voice_tts = default_voice;
  logging = default_logging;
  hot_reload = default_hot_reload;
  raw_overrides = [];
}

has_port : (key : String) → find table key ≡ table → HasPort yaml table key 9000
unfolding find is_there to_u32 str_dec
has_port key q = record {
  node = table;
  child = word 9000;
  there = ap (λ node. done node) q;
  defined = refl;
  port_there = refl;
  port_defined = refl;
  number = refl;
}

load-ports_example :
    let r = load yaml service disk in
    ((r.result.ok ≡ false) × (r.service ≡ service) × (r.call ≡ none))
    ⊎ ((9000 ≤ 65535)
        × (9000 ≤ 65535)
        × (c : AppConfig) × (r.service.current_config ≡ some c)
        × (c.network.port ≡ 9000)
        × (c.server.port ≡ 9000))
unfolding find str_dec
load-ports_example =
    load-ports yaml service disk table 9000 9000 refl (has_port "network" refl)
      (has_port "server" refl)

-- The file above is read, and its ports are in force.
load_test : (load yaml service disk).service.current_config ≡ some loaded
unfolding load load_locked find_config parse_app_config parse_runtime parse_server parse_network
    parse_auth parse_storage parse_ai parse_voice_tts parse_logging parse_hot_reload
    parse_raw_overrides read_or read_string_or read_u16_or find is_there to_u32 str_dec
load_test = refl

poll-IsPolled_example : IsPolled yaml service disk 9 (poll yaml service disk 9)
poll-IsPolled_example = poll-IsPolled yaml service disk 9
