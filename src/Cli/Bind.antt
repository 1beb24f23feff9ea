-- ===== src/Cli/Bind.antt =====
-- Where `serve` of src/main.rs listens.
use monnok_gigastt.Base.{
  ℕ, ◌≡◌, ◌⊎◌, refl, ◌∙◌, sym, subst, Bool, true, false, ◌||◌, Bool-cases, inl, inr, Option, none,
  some, List, [], ◌∷◌,
}
use monnok_gigastt.Words.{Text, text_eq}
use monnok_gigastt.Metrics.Slots.{text_eq-IsEquality}
use monnok_gigastt.Origin.{localhost}
use monnok_gigastt.RateLimit.ClientIp.{IpAddr, is_loopback}
use monnok_gigastt.Server.{ServerConfig}
use monnok_gigastt.Cli.{
  localhost_v6, stripped, lowered, is_loopback_ip, env_opt_in, CliStep, fetches, quantizes, loads,
  listens, CliError, failed, Run, step_or, Machine, is_loopback_host, ensure_bind_allowed,
  ensure_int8_encoder, listen, run_with_config, serve_command, invalid_address,
}

-- All that listens satisfies `P`.
abbrev pub AllListen : (IpAddr → ServerConfig → Type 0) → List CliStep → Type 0
AllListen P [] = Unit
AllListen P (listens ip config ∷ steps) = P ip config × AllListen P steps
AllListen P (CliStep.fetches d ∷ steps) = AllListen P steps
AllListen P (CliStep.fetches_speaker d ∷ steps) = AllListen P steps
AllListen P (CliStep.quantizes d ∷ steps) = AllListen P steps
AllListen P (CliStep.loads d n ∷ steps) = AllListen P steps
AllListen P (CliStep.checks_out ∷ steps) = AllListen P steps
AllListen P (CliStep.transcribes f ∷ steps) = AllListen P steps

step_or-AllListen :
    (P : IpAddr → ServerConfig → Type 0) (ok : Bool) (step : CliStep) (er : CliError) (rest : Run)
    → AllListen P (step ∷ [])
    → AllListen P rest.0
    → AllListen P (step_or ok step er rest).0
step_or-AllListen P false step er rest h k = h
step_or-AllListen P true (CliStep.fetches d) er rest h k = k
step_or-AllListen P true (CliStep.fetches_speaker d) er rest h k = k
step_or-AllListen P true (CliStep.quantizes d) er rest h k = k
step_or-AllListen P true (CliStep.loads d n) er rest h k = k
step_or-AllListen P true (listens ip c) er rest h k = (h.0, k)
step_or-AllListen P true CliStep.checks_out er rest h k = k
step_or-AllListen P true (CliStep.transcribes f) er rest h k = k

module _ (m : Machine) where
  ensure_int8_encoder-AllListen :
      (P : IpAddr → ServerConfig → Type 0) (dir : Text) (skip : Bool) (rest : Run)
      → AllListen P rest.0
      → AllListen P (ensure_int8_encoder m dir skip rest).0
  unfolding ensure_int8_encoder
  ensure_int8_encoder-AllListen P dir skip rest h = elim (Bool-cases (m.int8_exists dir)) [
    | inl a ↦ rw a h
    | inr a ↦ elim (Bool-cases skip) [
      | inl b ↦ rw (a, b) h
      | inr b ↦ elim (Bool-cases (m.fp32_exists dir)) [
        | inl c ↦ rw (a, b, c) (step_or-AllListen P (m.quantize dir) (quantizes dir) _ rest tt h)
        | inr c ↦ rw (a, b, c) tt
      ]
    ]
  ]

  -- What holds of where `run_with_config` listens holds of where `serve` does.
  serve_command-AllListen :
      (P : IpAddr → ServerConfig → Type 0) (dir : Text) (n : ℕ) (bind_all skip : Bool)
      (config : ServerConfig)
      → (ensure_bind_allowed m config.host bind_all ≡ true
          → AllListen P (run_with_config m config).0)
      → AllListen P (serve_command m dir n bind_all skip config).0
  unfolding serve_command
  serve_command-AllListen P dir n bind_all skip config h =
      elim (Bool-cases (ensure_bind_allowed m config.host bind_all)) [
        | inr e ↦ rw e tt
        | inl e ↦ rw e (
            step_or-AllListen P (m.ensure_model dir) (fetches dir) _ _ tt (
              ensure_int8_encoder-AllListen P dir skip _
                (step_or-AllListen P (m.load dir n) (loads dir n) _ _ tt (h e))))
      ]

  -- How std parses the address of a socket: as its host is parsed, and no names and no bare `::1`.
  module _
      (agree : (host : Text) (port : ℕ) (ip other : IpAddr)
        → m.parse_socket host port ≡ some ip
        → m.parse_ip (stripped (lowered host)) ≡ some other
        → other ≡ ip)
      (no_name : (host : Text) (port : ℕ)
        → (lowered host ≡ localhost) ⊎ (lowered host ≡ localhost_v6)
        → m.parse_socket host port ≡ none) where
    named :
        (host : Text) (port : ℕ) (ip : IpAddr)
        → (lowered host ≡ localhost) ⊎ (lowered host ≡ localhost_v6)
        → m.parse_socket host port ≡ some ip
        → ⊥
    named host port ip n e = let c : none ≡ some ip = sym (no_name host port n) ∙ e in cc

    -- A host that passes for loopback is bound, if at all, to a loopback address.
    is_loopback_host_bound :
        (host : Text) (port : ℕ) (ip : IpAddr)
        → is_loopback_host m host ≡ true
        → m.parse_socket host port ≡ some ip
        → is_loopback ip ≡ true
    unfolding is_loopback_host
    is_loopback_host_bound host port ip h e = elim (Bool-cases (text_eq (lowered host) localhost)) [
      | inl a ↦
          absurd
            (named host port ip (inl (text_eq-IsEquality.sound_eq (lowered host) localhost a)) e)
      | inr a ↦ elim (Bool-cases (text_eq (lowered host) localhost_v6)) [
        | inl b ↦
            absurd (
              named host port ip (inr (text_eq-IsEquality.sound_eq (lowered host) localhost_v6 b))
                e)
        | inr b ↦ by_ip (m.parse_ip (stripped (lowered host))) refl (rw (a, b) at h)
      ]
    ]
      where
        by_ip :
            (o : Option IpAddr)
            → m.parse_ip (stripped (lowered host)) ≡ o
            → is_loopback_ip o ≡ true
            → is_loopback ip ≡ true
        by_ip none k g = cc
        by_ip (some j) k g = subst (λ i. is_loopback i ≡ true) (agree host port ip j e k) g

    -- Without the flag and without the variable, `serve` listens, if at all, at a loopback address, and
    -- with the configuration that it was given. It is assumed that an address with a port is parsed
    -- as its host is, and that names and a bare `::1` are no addresses then.
    pub serve_command_loopback :
        (dir : Text) (n : ℕ) (skip : Bool) (config : ServerConfig)
        → env_opt_in m.allow_bind_any ≡ false
        → AllListen
            (λ ip c. (is_loopback ip ≡ true) × (c ≡ config))
            (serve_command m dir n false skip config).0
    unfolding ensure_bind_allowed run_with_config
    serve_command_loopback dir n skip config v =
        serve_command-AllListen _ dir n false skip config (λ a.
          elim (Bool-cases (is_loopback_host m config.host)) [
            | inl l ↦ by_socket l (m.parse_socket config.host config.port) refl
            | inr l ↦ let c : false ≡ true = rw (l, v) at a in cc
          ])
      where
        by_socket :
            is_loopback_host m config.host ≡ true
            → (o : Option IpAddr) → m.parse_socket config.host config.port ≡ o
            → AllListen (λ ip c. (is_loopback ip ≡ true) × (c ≡ config)) (listen m config o).0
        by_socket l none e = tt
        by_socket l (some ip) e = elim (Bool-cases (m.bind ip config.port)) [
          | inl b ↦ rw b ((is_loopback_host_bound config.host config.port ip l e, refl), tt)
          | inr b ↦ rw b tt
        ]

    -- The hosts `localhost` and a bare `::1`, which the guard lets pass, are never listened at: where the
    -- model can be fetched and loaded and has its INT8 encoder, the command fetches and loads it and
    -- then fails on the address, with the flag or without.
    pub serve_command_named :
        (dir : Text) (n : ℕ) (bind_all skip : Bool) (config : ServerConfig)
        → (lowered config.host ≡ localhost) ⊎ (lowered config.host ≡ localhost_v6)
        → m.ensure_model dir ≡ true
        → m.int8_exists dir ≡ true
        → m.load dir n ≡ true
        → serve_command m dir n bind_all skip config
          ≡ (fetches dir ∷ loads dir n ∷ [], failed invalid_address)
    unfolding serve_command ensure_bind_allowed ensure_int8_encoder run_with_config is_loopback_host
    serve_command_named dir n bind_all skip config h f i l =
        rw (passes h, f, i, l, no_name config.host config.port h) refl
      where
        passes :
            (lowered config.host ≡ localhost) ⊎ (lowered config.host ≡ localhost_v6)
            → (text_eq (lowered config.host) localhost
                || text_eq (lowered config.host) localhost_v6)
              ≡ true
        passes (inl e) = rw e refl
        passes (inr e) = rw e refl
