-- ===== src/Cli/Tests.antt =====
-- Concrete runs of src/main.rs.
use monnok_gigastt.Base.{
  ℕ, ◌≡◌, ◌⊎◌, refl, sym, ◌∙◌, ap, true, false, if◌then◌else◌, Bool-cases, inl, inr, Option, none,
  some, [], ◌∷◌,
}
use monnok_gigastt.Words.{Text, text_eq}
use monnok_gigastt.Words.Vocab.{trim, trim_start, trim_end, is_white}
use monnok_gigastt.Origin.{localhost, loopback_v4}
use monnok_gigastt.RateLimit.ClientIp.{IpAddr, v4, is_loopback}
use monnok_gigastt.Server.{server_config_local, positional_config}
use monnok_gigastt.Cli.{
  localhost_v6, stripped, lowered, env_opt_in, fetches, loads, failed, invalid_address, Machine,
  serve_command,
}
use monnok_gigastt.Cli.Bind.{AllListen, serve_command_loopback, serve_command_named}

-- A machine with an INT8 model, where `127.0.0.1` is the only address.
abbrev host_ip : Text → Option IpAddr
host_ip t = if text_eq t loopback_v4 then some (v4 127 0 0 1) else none

abbrev laptop : Machine
laptop = record {
  parse_ip = host_ip;
  parse_socket = λ host port. host_ip (lowered host);
  allow_bind_any = none;
  ensure_model = λ dir. true;
  ensure_speaker_model = λ dir. true;
  int8_exists = λ dir. true;
  fp32_exists = λ dir. true;
  quantize = λ dir. true;
  load = λ dir n. true;
  bind = λ ip port. true;
  checkout = true;
  transcribe_file = λ file. true;
}

host_ip-laptop : (t : Text) (ip : IpAddr) → host_ip t ≡ some ip → ip ≡ v4 127 0 0 1
host_ip-laptop t ip h = elim (Bool-cases (text_eq t loopback_v4)) [
  | inl e ↦ let k : some (v4 127 0 0 1) ≡ some ip = rw e at h in cc
  | inr e ↦ let k : none ≡ some ip = rw e at h in cc
]

agree :
    (host : Text) (port : ℕ) (ip other : IpAddr)
    → laptop.parse_socket host port ≡ some ip
    → laptop.parse_ip (stripped (lowered host)) ≡ some other
    → other ≡ ip
agree host port ip other h k =
    host_ip-laptop (stripped (lowered host)) other k ∙ sym (host_ip-laptop (lowered host) ip h)

no_name :
    (host : Text) (port : ℕ)
    → (lowered host ≡ localhost) ⊎ (lowered host ≡ localhost_v6)
    → laptop.parse_socket host port ≡ none
no_name host port (inl e) = ap host_ip e
no_name host port (inr e) = ap host_ip e

serve_command_loopback_example :
    AllListen
      (λ ip c. (is_loopback ip ≡ true) × (c ≡ server_config_local 80))
      (serve_command laptop [] 4 false false (server_config_local 80)).0
serve_command_loopback_example =
    serve_command_loopback laptop agree no_name [] 4 false (server_config_local 80)
      (unfold env_opt_in in refl)

lowered-localhost : lowered (positional_config 80 localhost).host ≡ localhost
unfolding positional_config server_config_local lowered trim trim_start trim_end is_white
lowered-localhost = refl

serve_command_named_example :
    serve_command laptop [] 4 false false (positional_config 80 localhost)
    ≡ (fetches [] ∷ loads [] 4 ∷ [], failed invalid_address)
serve_command_named_example =
    serve_command_named laptop agree no_name [] 4 false false (positional_config 80 localhost)
      (inl lowered-localhost) refl refl refl
