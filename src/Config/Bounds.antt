-- ===== src/Config/Bounds.antt =====
-- The ports of a configuration that src/config_hotreload/config_hotreload_service.cpp reads.
use red_culture_service.Common.{
  ℕ, ◌≤◌, ◌≡◌, refl, inl, inr, ◌⊎◌, String, true, false, ltb, none, some, arith, sym, ap, ◌∙◌,
  Bool-cases,
}
use red_culture_service.Config.Types.{
  NetworkConfig, ServerConfig, AppConfig, default_network, default_server,
}
use red_culture_service.Config.Yaml.{done, YamlOps, read_or, read_u16_or}
use red_culture_service.Config.Parse.{parse_network, parse_server, parse_app_config}
use red_culture_service.Config.Service.{ConfigHotReloadService, Disk, load}
use red_culture_service.Config.Found.{load_cases}

done-inj : {A : Type 0} {a b : A} → done a ≡ done b → a ≡ b
done-inj q = cc

some-inj : {A : Type 0} {a b : A} → some a ≡ some b → a ≡ b
some-inj q = cc

module _ (Y : YamlOps) where
  -- The table has a port, and the library reads the number there.
  pub record HasPort (root : Y.Node) (key : String) (value : ℕ) : Type 0 where
    pub node : Y.Node
    pub child : Y.Node
    pub there : Y.at root key ≡ done node
    pub defined : Y.is_defined node ≡ true
    pub port_there : Y.at node "port" ≡ done child
    pub port_defined : Y.is_defined child ≡ true
    pub number : Y.as_u32 child ≡ done value

  read_u16_or_lem :
      (root : Y.Node) (key : String) (fallback value n : ℕ) (p : HasPort root key value)
      → read_u16_or Y p.node "port" fallback ≡ done n
      → (n ≡ value) × (value ≤ 65535)
  unfolding read_u16_or read_or
  read_u16_or_lem root key fallback value n p h =
      let read : read_or Y Y.as_u32 p.node "port" fallback ≡ done value =
        rw (p.defined, read_or, p.port_there, p.port_defined) p.number in
      elim (Bool-cases (ltb 65535 value)) [
        | inl high ↦ absurd (let clash = rw (read, read_u16_or, high) at h in cc)
        | inr low ↦
            let same : done value ≡ done n = rw (read, read_u16_or, low) at h in (cc, ground arith)
      ]

  parse_network_lem :
      (root : Y.Node) (c : NetworkConfig) (value : ℕ) (p : HasPort root "network" value)
      → parse_network Y root ≡ done c
      → (c.port ≡ value) × (value ≤ 65535)
  unfolding parse_network
  parse_network_lem root c value p h =
      let there = p.there in
      let read = λ (n : ℕ). read_u16_or_lem root "network" default_network.port value n p in
      grind (arith, read)

  parse_server_lem :
      (root : Y.Node) (c : ServerConfig) (value : ℕ) (p : HasPort root "server" value)
      → parse_server Y root ≡ done c
      → (c.port ≡ value) × (value ≤ 65535)
  unfolding parse_server
  parse_server_lem root c value p h =
      let there = p.there in
      let read = λ (n : ℕ). read_u16_or_lem root "server" default_server.port value n p in
      grind (arith, read)

  parse_app_config_lem :
      (root : Y.Node) (c : AppConfig) (a b : ℕ) (p : HasPort root "network" a)
      (q : HasPort root "server" b)
      → parse_app_config Y root ≡ done c
      → ((c.network.port ≡ a) × (a ≤ 65535)) × ((c.server.port ≡ b) × (b ≤ 65535))
  unfolding parse_app_config
  parse_app_config_lem root c a b p q h =
      let network = λ (c : NetworkConfig). parse_network_lem root c a p in
      let server = λ (c : ServerConfig). parse_server_lem root c b q in
      grind (arith, network, server)

  -- If the file opens as a document in which the library reads a number as the port of the network
  -- and one as the port of the server, then `load` either fails, changes nothing and calls no
  -- callback, or both numbers fit 16 bits and are the ports of the configuration that is now in
  -- force: a port above 65535 is refused, not cut off.
  pub load-ports :
      {Callback : Type 0} (s : ConfigHotReloadService Callback) (disk : Disk Y.Node) (root : Y.Node)
      (a b : ℕ)
      → disk.load_file s.config_path ≡ done root
      → HasPort root "network" a
      → HasPort root "server" b
      → let r = load Y s disk in
        ((r.result.ok ≡ false) × (r.service ≡ s) × (r.call ≡ none))
        ⊎ ((a ≤ 65535)
            × (b ≤ 65535)
            × (c : AppConfig) × (r.service.current_config ≡ some c)
            × (c.network.port ≡ a)
            × (c.server.port ≡ b))
  unfolding load
  load-ports s disk root a b opened p q = elim (load_cases Y s disk true) [
    | inl (what, e) ↦ rw (e, load) (inl (refl, refl, refl))
    | inr (inl (free, same, e)) ↦ absurd (cc)
    | inr (inr (c, time, read, e)) ↦
        let same_root : read.root ≡ root = done-inj (sym read.opened ∙ opened) in
        let same_config : read.config ≡ c = some-inj (sym read.stored) in
        let was_parsed : parse_app_config Y root ≡ done c =
          ap (parse_app_config Y) (sym same_root)
          ∙ read.was_parsed
          ∙ ap (λ c. done c) same_config in
        let ((na, la), (nb, lb)) = parse_app_config_lem root c a b p q was_parsed in
        rw (e, load) (inr (la, lb, c, refl, na, nb))
  ]
