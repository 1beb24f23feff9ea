-- ===== src/Server.antt =====
-- The start of the server of src/server/mod.rs: `ServerConfig`, `run_with_config_listener` up to its layers, and
-- what a request, a response and the running server are. The handlers have a state `S`; the texts
-- of headers and addresses are parameters.
pub mod Names
pub mod Layers
pub mod Cors
pub mod Rate
pub mod Reached
pub mod Scrape
mod Tests
use mathlib.Core.Option
use monnok_gigastt.Base.{
  ℕ, Bool, true, false, ltb, ◌==◌, if◌then◌else◌, Option, none, some, List, [], ◌∷◌, max,
}
use monnok_gigastt.Words.{Text, text_eq}
use monnok_gigastt.Origin.{
  OriginPolicy, loopback_only, OriginVerdict, allowed_no_echo, allowed, denied, evaluate,
}
use monnok_gigastt.RateLimit.ClientIp.{IpAddr, Request, extract_client_ip}
use monnok_gigastt.RateLimit.Limiter.{
  RateLimiter, limiter_new, Answer, forwarded, too_many_requests, rate_limit_middleware,
}
use monnok_gigastt.Protocol.{RuntimeLimits, limits_default}
use monnok_gigastt.Metrics.{Labels, MetricsRegistry, Floats, metrics_new}
use monnok_gigastt.Metrics.Totals.{
  Op, registers_counter, registers_gauge, registers_histogram, sets_gauge, incs_counter, incs_gauge,
  records_value, apply, run,
}
use Names.{
  http_requests_total, http_request_duration_seconds, pool_available,
  pool_checkout_duration_seconds, pool_timeouts_total, ws_active_connections,
  inference_duration_seconds, rate_limit_rejections_total, method_label, path_label, status_label,
  allow_origin, allow_methods, allow_headers, vary, retry_after, deprecation, link, any_origin,
  methods_text, origin_text, sixty, true_text, successor_link, local_host,
}

pub record ServerConfig : Type 0 where
  pub port : ℕ
  pub host : Text
  pub origin_policy : OriginPolicy
  pub limits : RuntimeLimits
  pub metrics_enabled : Bool
  pub trust_proxy : Bool

unfoldable pub server_config_local : ℕ → ServerConfig
server_config_local port = record {
  port = port;
  host = local_host;
  origin_policy = loopback_only;
  limits = limits_default;
  metrics_enabled = false;
  trust_proxy = false;
}

-- `run_with_shutdown` makes this of its arguments.
unfoldable pub positional_config : ℕ → Text → ServerConfig
unfolding server_config_local
positional_config port host = record (server_config_local port) { host = host }

-- The first step of `run_with_config_listener`.
unfoldable pub clamped : ServerConfig → ServerConfig
clamped config =
    if config.limits.pool_checkout_timeout_secs == 0
    then record config { limits = record (config.limits) { pool_checkout_timeout_secs = 1 } }
    else config

unfoldable pub drain_secs : ServerConfig → ℕ
drain_secs config = max config.limits.shutdown_drain_secs 1

-- The routes, and whether they are in the protected router.
pub data Route : Type 0 where
  health models transcribe transcribe_options transcribe_stream transcribe_stream_options : Route
  ws_canonical ws_legacy metrics : Route

abbrev pub is_health : Route → Bool
is_health health = true
is_health models = false
is_health transcribe = false
is_health transcribe_options = false
is_health transcribe_stream = false
is_health transcribe_stream_options = false
is_health ws_canonical = false
is_health ws_legacy = false
is_health metrics = false

-- A request: the clock readings at the limiter, and how long its handler takes.
pub record Incoming (F : Type 0) : Type 0 where
  pub route : Route
  pub method : Text
  pub path : Text
  pub origin : Option (List ℕ)
  pub client : Request
  pub now : ℕ
  pub now_ms : ℕ
  pub elapsed : F

pub record HttpResponse : Type 0 where
  pub status : ℕ
  pub headers : List (Text × Text)

-- `HeaderMap::insert`
abbrev pub without : Text → List (Text × Text) → List (Text × Text)
without name [] = []
without name ((n, v) ∷ hs) = if text_eq n name then without name hs else (n, v) ∷ without name hs

unfoldable pub insert_header : Text → Text → HttpResponse → HttpResponse
insert_header name value r = record r { headers = (name, value) ∷ without name r.headers }

-- What a handler does to the metrics.
pub data Use (F : Type 0) : Type 0 where
  uses_gauge : Text → Labels → ℕ → Use F
  uses_counter : Text → Labels → ℕ → Use F
  uses_histogram : Text → Labels → F → Use F

-- The server while it runs. The metrics and the limiter are there if they are configured.
pub record Service (S F : Type 0) : Type 0 where
  pub limiter : Option RateLimiter
  pub registry : Option (MetricsRegistry F)
  pub handlers : S

abbrev pub op_of : {F : Type 0} → Use F → Op F
op_of (uses_gauge n ls d) = incs_gauge n ls d
op_of (uses_counter n ls d) = incs_counter n ls d
op_of (uses_histogram n ls v) = records_value n ls v

abbrev pub ops_of : {F : Type 0} → List (Use F) → List (Op F)
ops_of [] = []
ops_of (u ∷ us) = op_of u ∷ ops_of us

-- What is registered at the start, in this order; the help texts are arguments.
unfoldable pub startup_ops : {F : Type 0} → List F → (Text → Text) → List (Op F)
startup_ops buckets help =
    registers_counter http_requests_total (help http_requests_total)
    ∷ registers_histogram http_request_duration_seconds (help http_request_duration_seconds) buckets
    ∷ registers_gauge pool_available (help pool_available)
    ∷ registers_histogram pool_checkout_duration_seconds (help pool_checkout_duration_seconds)
        buckets
    ∷ registers_counter pool_timeouts_total (help pool_timeouts_total)
    ∷ registers_gauge ws_active_connections (help ws_active_connections)
    ∷ registers_histogram inference_duration_seconds (help inference_duration_seconds) buckets
    ∷ registers_counter rate_limit_rejections_total (help rate_limit_rejections_total)
    ∷ []

module _ {S F : Type 0} (fl : Floats F) where
  -- The service at the start, from a configuration and the handlers' state.
  unfoldable pub start : (Text → Text) → ServerConfig → S → Service S F
  start help config s = record {
    limiter =
        if ltb 0 config.limits.rate_limit_per_minute
        then some (limiter_new config.limits.rate_limit_per_minute config.limits.rate_limit_burst)
        else none;
    registry =
        if config.metrics_enabled
        then some (run fl (startup_ops fl.default_buckets help) metrics_new)
        else none;
    handlers = s;
  }

  unfoldable pub record_ops : List (Op F) → Service S F → Service S F
  record_ops ops w = record w { registry = Option.map (run fl ops) w.registry }
