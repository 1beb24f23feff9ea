-- ===== src/Protocol.antt =====
-- The messages of src/protocol/mod.rs, the sink of a WebSocket, and the limits of src/server/mod.rs. The
-- text of an error message follows from its code and is left out, as are the constant fields of the
-- greeting (the model, the version, no `min_protocol_version`) and the JSON form.
use monnok_gigastt.Base.{
  ℕ, ◌+◌, ◌*◌, ◌-◌, ◌^◌, Bool, true, false, min, ltb, ◌==◌, if◌then◌else◌, Option, none, some, List,
  [], ◌∷◌, ◌++◌,
}
use monnok_gigastt.Words.{Text}
use monnok_gigastt.Transcript.{TranscriptSegment}

pub data ErrorCode : Type 0 where
  inference_error inference_panic configure_too_late unsupported_protocol_version
        invalid_sample_rate max_session_duration_exceeded pool_closed timeout :
      ErrorCode

pub data ServerMessage : Type 0 where
  ready : (sample_rate : ℕ) (supported_rates : List ℕ) (diarization : Bool) → ServerMessage
  partial_segment : TranscriptSegment → ServerMessage
  final_segment : TranscriptSegment → ServerMessage
  error : ErrorCode → (retry_after_ms : Option ℕ) → ServerMessage

pub data ClientMessage : Type 0 where
  stop : ClientMessage
  configure :
      (sample_rate : Option ℕ) (diarization : Option Bool) (protocol_version : Option Text)
      → ClientMessage

abbrev pub protocol_version : Text
protocol_version = b'1' ∷ b'.' ∷ b'0' ∷ []

abbrev pub supported_rates : List ℕ
supported_rates = 8000 ∷ 16000 ∷ 24000 ∷ 44100 ∷ 48000 ∷ []

abbrev pub default_sample_rate : ℕ
default_sample_rate = 48000

-- What the server writes to the socket.
pub data Out : Type 0 where
  message : ServerMessage → Out
  close_frame : (code : ℕ) → Out

-- `WsSink`: what has arrived, and how many sends were tried. `delivers n` says whether the send
-- number `n` succeeds.
pub record Sink : Type 0 where
  pub sent : List Out
  pub attempts : ℕ

unfoldable pub send_out : (ℕ → Bool) → Sink → Out → Sink × Bool
send_out delivers k out =
    if delivers k.attempts
    then (record { sent = k.sent ++ (out ∷ []); attempts = k.attempts + 1 }, true)
    else (record k { attempts = k.attempts + 1 }, false)

pub record RuntimeLimits : Type 0 where
  pub idle_timeout_secs : ℕ
  pub ws_frame_max_bytes : ℕ
  pub body_limit_bytes : ℕ
  pub rate_limit_per_minute : ℕ
  pub rate_limit_burst : ℕ
  pub max_session_secs : ℕ
  pub shutdown_drain_secs : ℕ
  pub pool_checkout_timeout_secs : ℕ

abbrev pub limits_default : RuntimeLimits
limits_default = record {
  idle_timeout_secs = 300;
  ws_frame_max_bytes = 512 * 1024;
  body_limit_bytes = 50 * 1024 * 1024;
  rate_limit_per_minute = 0;
  rate_limit_burst = 10;
  max_session_secs = 3600;
  shutdown_drain_secs = 10;
  pool_checkout_timeout_secs = 30;
}

-- A `u64` product that saturates, cut to `u32`.
unfoldable pub pool_retry_after_ms : RuntimeLimits → ℕ
pool_retry_after_ms limits =
    min (min (limits.pool_checkout_timeout_secs * 1000) (2 ^ 64 - 1)) (2 ^ 32 - 1)

unfoldable pub pool_retry_after_secs : RuntimeLimits → ℕ
pool_retry_after_secs limits = limits.pool_checkout_timeout_secs

-- `Instant::now() + Duration::from_secs(secs)`, in whole seconds; it panics, here `none`, beyond the last
-- instant that the platform can represent.
abbrev pub add_secs : ℕ → ℕ → ℕ → Option ℕ
add_secs last_instant now secs = if ltb last_instant (now + secs) then none else some (now + secs)

unfoldable pub session_deadline : ℕ → RuntimeLimits → ℕ → Option ℕ
session_deadline last_instant limits now =
    if limits.max_session_secs == 0
    then add_secs last_instant now (2 ^ 63 - 1)
    else add_secs last_instant now limits.max_session_secs
