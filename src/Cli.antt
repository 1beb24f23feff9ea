-- ===== src/Cli.antt =====
-- The command line of src/main.rs: which host `serve` may bind, and what the commands do, in order. Texts of
-- addresses are parsed by std, and models are fetched, quantized and loaded by the rest of the
-- crate; these are parameters here. A log line is not a step.
pub mod Bind
mod Tests
use monnok_gigastt.Base.{
  ℕ, Bool, true, false, ◌&&◌, ◌||◌, not, ◌==◌, if◌then◌else◌, Option, none, some, List, [], ◌∷◌,
  ◌++◌,
}
use monnok_gigastt.Decode.{is_empty}
use monnok_gigastt.Words.{Text, text_eq}
use monnok_gigastt.Words.Vocab.{trim}
use monnok_gigastt.Origin.{OriginPolicy, localhost, to_ascii_lowercase}
use monnok_gigastt.RateLimit.ClientIp.{IpAddr, is_loopback}
use monnok_gigastt.Protocol.{RuntimeLimits}
use monnok_gigastt.Server.{ServerConfig}

abbrev pub localhost_v6 : Text
localhost_v6 = b':' ∷ b':' ∷ b'1' ∷ []

unfoldable pub trim_start_matches : ℕ → Text → Text
trim_start_matches c [] = []
trim_start_matches c (d ∷ t) = let rest = trim_start_matches c t in if d == c then rest else d ∷ t

unfoldable pub trim_end_matches : ℕ → Text → Text
trim_end_matches c [] = []
trim_end_matches c (d ∷ t) =
    let rest = trim_end_matches c t in if is_empty rest && (d == c) then [] else d ∷ rest

-- Without brackets.
unfoldable pub stripped : Text → Text
stripped lowered = trim_end_matches b']' (trim_start_matches b'[' lowered)

unfoldable pub lowered : Text → Text
lowered host = to_ascii_lowercase (trim host)

abbrev pub is_loopback_ip : Option IpAddr → Bool
is_loopback_ip none = false
is_loopback_ip (some ip) = is_loopback ip

-- The values of the variable that opt in.
abbrev pub opt_in_values : List Text
opt_in_values =
    (b'1' ∷ [])
    ∷ (b't' ∷ b'r' ∷ b'u' ∷ b'e' ∷ [])
    ∷ (b'T' ∷ b'R' ∷ b'U' ∷ b'E' ∷ [])
    ∷ (b'y' ∷ b'e' ∷ b's' ∷ [])
    ∷ (b'Y' ∷ b'E' ∷ b'S' ∷ [])
    ∷ []

abbrev pub is_one_of : List Text → Text → Bool
is_one_of [] t = false
is_one_of (u ∷ us) t = text_eq t u || is_one_of us t

-- `GIGASTT_ALLOW_BIND_ANY`
unfoldable pub env_opt_in : Option Text → Bool
env_opt_in none = false
env_opt_in (some v) = is_one_of opt_in_values (trim v)

-- What the commands do, and what may fail.
pub data CliStep : Type 0 where
  fetches fetches_speaker : (model_dir : Text) → CliStep
  quantizes : (model_dir : Text) → CliStep
  loads : (model_dir : Text) (pool_size : ℕ) → CliStep
  listens : IpAddr → ServerConfig → CliStep
  checks_out : CliStep
  transcribes : (file : Text) → CliStep

pub data CliError : Type 0 where
  bind_refused fetch_failed encoder_missing quantize_failed load_failed invalid_address : CliError
  bind_failed checkout_failed transcribe_failed : CliError

-- `?` stops at the first error; what has been done stays done.
pub data Outcome : Type 0 where
  finished : Outcome
  failed : CliError → Outcome

abbrev pub Run : Type 0
Run = List CliStep × Outcome

abbrev pub first : CliStep → Run → Run
first step (steps, o) = (step ∷ steps, o)

-- A step that can fail.
abbrev pub step_or : Bool → CliStep → CliError → Run → Run
step_or true step er rest = first step rest
step_or false step er rest = (step ∷ [], failed er)

-- The machine, as the commands find it.
pub record Machine : Type 0 where
  pub parse_ip : Text → Option IpAddr
  pub parse_socket : Text → ℕ → Option IpAddr
  pub allow_bind_any : Option Text
  pub ensure_model : Text → Bool
  pub ensure_speaker_model : Text → Bool
  pub int8_exists : Text → Bool
  pub fp32_exists : Text → Bool
  pub quantize : Text → Bool
  pub load : Text → ℕ → Bool
  pub bind : IpAddr → ℕ → Bool
  pub checkout : Bool
  pub transcribe_file : Text → Bool

module _ (m : Machine) where
  unfoldable pub is_loopback_host : Text → Bool
  is_loopback_host host =
      if text_eq (lowered host) localhost || text_eq (lowered host) localhost_v6
      then true
      else is_loopback_ip (m.parse_ip (stripped (lowered host)))

  -- Whether `ensure_bind_allowed` returns without an error.
  unfoldable pub ensure_bind_allowed : Text → Bool → Bool
  ensure_bind_allowed host bind_all_flag =
      if is_loopback_host host then true else bind_all_flag || env_opt_in m.allow_bind_any

  -- `ensure_int8_encoder`, before what follows it.
  unfoldable pub ensure_int8_encoder : Text → Bool → Run → Run
  ensure_int8_encoder model_dir skip rest =
      if m.int8_exists model_dir
      then rest
      else if skip
      then rest
      else if not (m.fp32_exists model_dir)
      then ([], failed encoder_missing)
      else step_or (m.quantize model_dir) (quantizes model_dir) quantize_failed rest

  abbrev pub listen : ServerConfig → Option IpAddr → Run
  listen config none = ([], failed invalid_address)
  listen config (some ip) =
      if m.bind ip config.port then (listens ip config ∷ [], finished) else ([], failed bind_failed)

  -- `run_with_config`, up to the first request.
  unfoldable pub run_with_config : ServerConfig → Run
  run_with_config config = listen config (m.parse_socket config.host config.port)

  unfoldable pub serve_command : Text → ℕ → (bind_all skip_quantize : Bool) → ServerConfig → Run
  serve_command model_dir pool_size bind_all skip_quantize config =
      if not (ensure_bind_allowed config.host bind_all)
      then ([], failed bind_refused)
      else step_or (m.ensure_model model_dir) (fetches model_dir) fetch_failed (
          ensure_int8_encoder model_dir skip_quantize (
            step_or (m.load model_dir pool_size) (loads model_dir pool_size) load_failed
              (run_with_config config)))

  unfoldable pub download_command : Text → (skip_diarization skip_quantize : Bool) → Run
  download_command model_dir skip_diarization skip_quantize =
      let quantizing = ensure_int8_encoder model_dir skip_quantize ([], finished) in
      step_or (m.ensure_model model_dir) (fetches model_dir) fetch_failed (
        if skip_diarization
        then quantizing
        else step_or (m.ensure_speaker_model model_dir) (fetches_speaker model_dir) fetch_failed
            quantizing)

  unfoldable pub quantize_command : Text → Bool → Run
  quantize_command model_dir force =
      step_or (m.ensure_model model_dir) (fetches model_dir) fetch_failed (
        if m.int8_exists model_dir && not force
        then ([], finished)
        else step_or (m.quantize model_dir) (quantizes model_dir) quantize_failed ([], finished))

  -- The guard is dropped before the result is looked at.
  unfoldable pub transcribe_command : Text → Text → Run
  transcribe_command file model_dir =
      step_or (m.ensure_model model_dir) (fetches model_dir) fetch_failed (
        step_or (m.load model_dir 1) (loads model_dir 1) load_failed (
          step_or m.checkout checks_out checkout_failed
            (step_or (m.transcribe_file file) (transcribes file) transcribe_failed ([], finished))))
