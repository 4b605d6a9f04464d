-- ===== src/Config/Reload.antt =====
-- What a `poll` of src/config_hotreload/config_hotreload_service.cpp does to the configuration in force.
use red_culture_service.Common.{
  ℕ, ◌≡◌, ◌≢◌, refl, inl, inr, ◌⊎◌, true, false, Option, none, some, ◌==◌, arith, sym, ◌∙◌,
  Bool-cases,
}
use red_culture_service.Config.Types.{AppConfig}
use red_culture_service.Config.Yaml.{YamlOps}
use red_culture_service.Config.Found.{IsRead, IsUnchanged, load_cases}
use red_culture_service.Config.Service.{
  ConfigHotReloadService, Disk, Loaded, check_file, poll, call_of, is_idle, succeeded,
}

-- What a failure keeps, what a success comes from and reports, and when the callback is called.
pub record IsPolled (Y : YamlOps) {Callback : Type 0} (s : ConfigHotReloadService Callback)
    (disk : Disk Y.Node) (now : ℕ) (r : Loaded Callback) : Type 0 where
  pub idle :
      is_idle s.current_config s.last_checked_at now ≡ true
      → r ≡ record { service = s; result = succeeded s.current_config; call = none }
  pub source :
      is_idle s.current_config s.last_checked_at now ≡ false
      → r.result.ok ≡ true
      → IsUnchanged Y s r.service disk ⊎ IsRead Y s r.service disk
  pub kept :
      r.result.ok ≡ false
      → (r.service.current_config ≡ s.current_config)
        × (r.service.last_write_time ≡ s.last_write_time)
        × (r.call ≡ none)
  pub in_force : r.result.ok ≡ true → r.result.config ≡ r.service.current_config
  pub called :
      (callback : Callback) (config : AppConfig)
      → r.call ≡ some (callback, config)
      → (s.on_reload ≡ some callback)
        × (r.service.current_config ≡ some config)
        × (r.service.last_write_time ≢ s.last_write_time)

call_of_lem :
    {Callback : Type 0} (o : Option Callback) (config c : AppConfig) (callback : Callback)
    → call_of o (some config) ≡ some (callback, c)
    → (o ≡ some callback) × (some config ≡ some c)
call_of_lem none config c callback h = cc
call_of_lem (some f) config c callback h =
    let same_callback : f ≡ callback = cc in let same_config : config ≡ c = cc in (cc, cc)

module _ (Y : YamlOps) {Callback : Type 0} where
  check_file-IsPolled :
      (s : ConfigHotReloadService Callback) (disk : Disk Y.Node) (now : ℕ)
      → is_idle s.current_config s.last_checked_at now ≡ false
      → IsPolled Y s disk now (check_file Y s disk now)
  unfolding check_file
  check_file-IsPolled s disk now due =
      elim (load_cases Y (record s { last_checked_at = now }) disk false) [
        | inl (what, e) ↦
            rw (e, check_file)
              (record {
                idle = λ q. absurd (let clash : false ≡ true = sym due ∙ q in cc);
                source = λ q ok. cc;
                kept = λ q. (refl, refl, refl);
                in_force = λ q. cc;
                called = λ callback c q. cc;
              })
        | inr (inl (free, same, e)) ↦
            let same_time : (s.last_write_time == s.last_write_time) ≡ true = ground arith in
            rw (e, check_file)
              (record {
                idle = λ q. absurd (let clash : false ≡ true = sym due ∙ q in cc);
                source = λ q ok. inl (record {
                  exists = same.exists;
                  dated = same.dated;
                  in_force = same.in_force;
                  kept = refl;
                  time_kept = refl;
                });
                kept = λ q. cc;
                in_force = λ q. refl;
                called = λ callback c q. absurd (ground arith);
              })
        | inr (inr (c, time, read, e)) ↦
            rw (e, check_file)
              (record {
                idle = λ q. absurd (let clash : false ≡ true = sym due ∙ q in cc);
                source = λ q ok. inr (record {
                  time = read.time;
                  root = read.root;
                  config = read.config;
                  exists = read.exists;
                  dated = read.dated;
                  opened = read.opened;
                  was_parsed = read.was_parsed;
                  stored = read.stored;
                  time_stored = read.time_stored;
                });
                kept = λ q. cc;
                in_force = λ q. refl;
                called = λ callback d q. elim (Bool-cases (time == s.last_write_time)) [
                  | inl same ↦ absurd (ground arith)
                  | inr differs ↦
                      let (on, config) = call_of_lem s.on_reload c d callback (rw differs at q) in
                      (on, config, λ same. ground arith)
                ];
              })
      ]

  -- A `poll` whose time has not come changes nothing and answers with the configuration in force.
  -- Otherwise it succeeds only from the file: the file is there, and either has the time of the
  -- configuration in force, which stays, or is read and parsed, and what was parsed is in force with
  -- the time of the file. After a `poll` that fails, the configuration in force and its time are the
  -- old ones and no callback is called: a file that is missing or cannot be read or parsed replaces
  -- nothing. After one that succeeds, the result is the configuration in force. The callback is
  -- called only with that configuration, and only if the time of the file has changed.
  pub poll-IsPolled :
      (s : ConfigHotReloadService Callback) (disk : Disk Y.Node) (now : ℕ)
      → IsPolled Y s disk now (poll Y s disk now)
  unfolding poll
  poll-IsPolled s disk now = elim (Bool-cases (is_idle s.current_config s.last_checked_at now)) [
    | inl idle ↦
        let nothing : poll Y s disk now
            ≡ record { service = s; result = succeeded s.current_config; call = none } =
          rw idle refl in
        rw nothing (record {
          idle = λ q. refl;
          source = λ q ok. absurd (let clash : true ≡ false = sym idle ∙ q in cc);
          kept = λ q. cc;
          in_force = λ q. refl;
          called = λ callback c q. cc;
        })
    | inr due ↦
        let looks : poll Y s disk now ≡ check_file Y s disk now = rw due refl in
        rw looks (check_file-IsPolled s disk now due)
  ]
