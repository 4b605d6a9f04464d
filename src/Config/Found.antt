-- ===== src/Config/Found.antt =====
-- What a load by src/config_hotreload/config_hotreload_service.cpp finds in the file.
use Prim.Native.String.{◌++◌ as str_append}
use red_culture_service.Common.{
  String, ℕ, ◌≡◌, refl, inl, inr, ◌⊎◌, Bool, true, false, not, ◌&&◌, none, some, is_some, ◌==◌,
  arith, ap, ◌∙◌, Bool-cases,
}
use red_culture_service.Config.Types.{AppConfig}
use red_culture_service.Config.Parse.{parse_app_config}
use red_culture_service.Config.Yaml.{Attempt, done, thrown, YamlOps}
use red_culture_service.Config.Service.{
  ConfigHotReloadService, Disk, missing, unchanged, parsed, find_config, load_locked, check_file,
  poll, is_idle, failed, succeeded,
}

-- The configuration comes from the file: the file is there, it is read as a document, the document
-- is parsed, and the configuration and the time of the file are stored.
pub record IsRead (Y : YamlOps) {Callback : Type 0} (s s' : ConfigHotReloadService Callback)
    (disk : Disk Y.Node) : Type 0 where
  pub time : ℕ
  pub root : Y.Node
  pub config : AppConfig
  pub exists : disk.exists s.config_path ≡ done true
  pub dated : disk.last_write_time s.config_path ≡ done time
  pub opened : disk.load_file s.config_path ≡ done root
  pub was_parsed : parse_app_config Y root ≡ done config
  pub stored : s'.current_config ≡ some config
  pub time_stored : s'.last_write_time ≡ time

-- The file is there and has the time of the configuration in force, which stays.
pub record IsUnchanged (Y : YamlOps) {Callback : Type 0} (s s' : ConfigHotReloadService Callback)
    (disk : Disk Y.Node) : Type 0 where
  pub exists : disk.exists s.config_path ≡ done true
  pub dated : disk.last_write_time s.config_path ≡ done s.last_write_time
  pub in_force : is_some s.current_config ≡ true
  pub kept : s'.current_config ≡ s.current_config
  pub time_kept : s'.last_write_time ≡ s.last_write_time

Attempt-cases :
    {A : Type 0} (m : Attempt A) → ((a : A) × (m ≡ done a)) ⊎ ((what : String) × (m ≡ thrown what))
Attempt-cases (done a) = inl (a, refl)
Attempt-cases (thrown what) = inr (what, refl)

module _ (Y : YamlOps) {Callback : Type 0} where
  -- What the `try` block finds, by the answers of the file system and of the library.
  find_cases :
      (s : ConfigHotReloadService Callback) (disk : Disk Y.Node) (force : Bool)
      → ((what : String) × (find_config Y s disk force ≡ thrown what))
        ⊎ (find_config Y s disk force ≡ done missing)
        ⊎ ((force ≡ false) × IsUnchanged Y s s disk × (find_config Y s disk force ≡ done unchanged))
        ⊎ ((c : AppConfig) × (time : ℕ) × IsRead Y s
              (record s { current_config = some c; last_write_time = time })
              disk
            × (find_config Y s disk force ≡ done (parsed c time)))
  unfolding find_config
  find_cases s disk force = elim (Attempt-cases (disk.exists s.config_path)) [
    | inr (what, e) ↦ inl (what, rw (e, find_config) refl)
    | inl (false, e) ↦ inr (inl (rw (e, find_config) refl))
    | inl (true, e) ↦ elim (Attempt-cases (disk.last_write_time s.config_path)) [
      | inr (what, f) ↦ inl (what, rw (e, find_config, f) refl)
      | inl (time, f) ↦
          elim (Bool-cases (not force && is_some s.current_config && (time == s.last_write_time))) [
            | inl same ↦
                let at_time : time ≡ s.last_write_time = ground arith in
                let free : force ≡ false = ground arith in
                let there : is_some s.current_config ≡ true = ground arith in
                inr (
                  inr (
                    inl (
                      free,
                      record {
                        exists = e;
                        dated = f ∙ ap (λ t. done t) at_time;
                        in_force = there;
                        kept = refl;
                        time_kept = refl;
                      },
                      rw (e, find_config, f, same) refl,
                    )))
            | inr differs ↦ elim (Attempt-cases (disk.load_file s.config_path)) [
              | inr (what, g) ↦ inl (what, rw (e, find_config, f, differs, g) refl)
              | inl (root, g) ↦ elim (Attempt-cases (parse_app_config Y root)) [
                | inr (what, p) ↦ inl (what, rw (e, find_config, f, differs, g, p) refl)
                | inl (c, p) ↦ inr (
                    inr (
                      inr (
                        c,
                        time,
                        record {
                          time = time;
                          root = root;
                          config = c;
                          exists = e;
                          dated = f;
                          opened = g;
                          was_parsed = p;
                          stored = refl;
                          time_stored = refl;
                        },
                        rw (e, find_config, f, differs, g, p) refl,
                      )))
              ]
            ]
          ]
    ]
  ]

  -- `poll` leaves the service alone, or looks at the file.
  pub poll_cases :
      (s : ConfigHotReloadService Callback) (disk : Disk Y.Node) (now : ℕ)
      → (poll Y s disk now
          ≡ record { service = s; result = succeeded s.current_config; call = none })
        ⊎ (poll Y s disk now ≡ check_file Y s disk now)
  unfolding poll
  poll_cases s disk now = elim (Bool-cases (is_idle s.current_config s.last_checked_at now)) [
    | inl idle ↦ inl (rw idle refl)
    | inr due ↦ inr (rw due refl)
  ]

  -- What the locked part of a call comes to, in the new state and the result.
  pub load_cases :
      (s : ConfigHotReloadService Callback) (disk : Disk Y.Node) (force : Bool)
      → ((what : String) × (load_locked Y s disk force ≡ (s, failed what)))
        ⊎ ((force ≡ false)
            × IsUnchanged Y s s disk
            × (load_locked Y s disk force ≡ (s, succeeded s.current_config)))
        ⊎ ((c : AppConfig) × (time : ℕ) × IsRead Y s
              (record s { current_config = some c; last_write_time = time })
              disk
            × (load_locked Y s disk force ≡ (
              record s { current_config = some c; last_write_time = time },
              succeeded (some c),
            )))
  unfolding load_locked
  load_cases s disk force = elim (find_cases s disk force) [
    | inl (what, e) ↦ inl (what, rw (e, load_locked) refl)
    | inr (inl e) ↦
        inl (str_append "config file does not exist: " s.config_path, rw (e, load_locked) refl)
    | inr (inr (inl (free, same, e))) ↦ inr (inl (free, same, rw (e, load_locked) refl))
    | inr (inr (inr (c, time, read, e))) ↦ inr (inr (c, time, read, rw (e, load_locked) refl))
  ]
