-- ===== src/Server/Layers.antt =====
-- The layers around the handlers of src/server/mod.rs: `origin_middleware`, the limiter and
-- `http_metrics_middleware`, in the order of the router, and the answers of `ws_handler`. Requests to a path
-- that no route has are left out.
use mathlib.Core.Option
use monnok_gigastt.Base.{ℕ, Bool, if◌then◌else◌, Option, none, some, List, [], ◌∷◌}
use monnok_gigastt.Words.{Text}
use monnok_gigastt.Origin.{OriginPolicy, OriginVerdict, allowed_no_echo, allowed, denied, evaluate}
use monnok_gigastt.RateLimit.ClientIp.{IpAddr, extract_client_ip}
use monnok_gigastt.RateLimit.Limiter.{
  RateLimiter, Answer, forwarded, too_many_requests, rate_limit_middleware,
}
use monnok_gigastt.Metrics.{Labels, MetricsRegistry, Floats}
use monnok_gigastt.Metrics.Totals.{sets_gauge, incs_counter, records_value}
use monnok_gigastt.Server.Names.{
  http_requests_total, http_request_duration_seconds, pool_available, rate_limit_rejections_total,
  method_label, path_label, status_label, allow_origin, allow_methods, allow_headers, vary,
  retry_after, deprecation, link, any_origin, methods_text, origin_text, true_text, successor_link,
}
use monnok_gigastt.Server.{
  is_health, Incoming, HttpResponse, insert_header, Use, Service, ops_of, record_ops,
}

-- A layer or a handler: the response, and the service after it.
abbrev pub Next : (S F : Type 0) → Type 0
Next S F = Service S F → HttpResponse × Service S F

-- What the layers are made of.
pub record Layers (S F : Type 0) : Type 0 where
  pub policy : OriginPolicy
  pub trust_proxy : Bool
  pub to_str : List ℕ → Option Text
  pub parse : List ℕ → Option IpAddr
  pub fl : Floats F
  pub show_u64 : ℕ → Text
  pub available : S → ℕ
  pub handle : Incoming F → S → HttpResponse × S × List (Use F)

module _ {S F : Type 0} (env : Layers S F) where
  -- A handler, and what it does to the metrics.
  unfoldable pub call_handler : Incoming F → Next S F
  call_handler req w =
      let (r, s, uses) = env.handle req w.handlers in
      (r, record_ops env.fl (ops_of uses) (record w { handlers = s }))

  abbrev pub request_labels : Incoming F → HttpResponse → Labels
  request_labels req r =
      (method_label, req.method)
      ∷ (path_label, req.path)
      ∷ (status_label, env.show_u64 r.status)
      ∷ []

  abbrev pub measured : Incoming F → HttpResponse × Service S F → HttpResponse × Service S F
  measured req (r, w) = (
    r,
    record_ops env.fl
        (incs_counter http_requests_total (request_labels req r) 1
          ∷ records_value http_request_duration_seconds
              ((method_label, req.method) ∷ (path_label, req.path) ∷ []) req.elapsed
          ∷ [])
        w,
  )

  abbrev pub with_registry :
      Incoming F → Next S F → Service S F → Option (MetricsRegistry F) → HttpResponse × Service S F
  with_registry req next w none = next w
  with_registry req next w (some registry) =
      measured req
        (next (record_ops env.fl (sets_gauge pool_available [] (env.available w.handlers) ∷ []) w))

  unfoldable pub http_metrics_middleware : Incoming F → Next S F → Next S F
  http_metrics_middleware req next w = with_registry req next w w.registry

  abbrev pub limited :
      Next S F → Service S F → RateLimiter × Answer × ℕ → HttpResponse × Service S F
  limited next w (l, forwarded, rejections) = next (record w { limiter = some l })
  limited next w (l, too_many_requests secs, rejections) = (
    record { status = 429; headers = (retry_after, env.show_u64 secs) ∷ [] },
    record_ops env.fl (incs_counter rate_limit_rejections_total [] rejections ∷ [])
        (record w { limiter = some l }),
  )

  abbrev pub client_ip : Incoming F → Option IpAddr
  client_ip req = extract_client_ip env.to_str env.parse req.client env.trust_proxy

  -- The layer of the limiter, if it is configured.
  abbrev pub with_limiter :
      Incoming F → Next S F → Service S F → Option RateLimiter → HttpResponse × Service S F
  with_limiter req next w none = next w
  with_limiter req next w (some l) =
      limited next w (rate_limit_middleware l (client_ip req) req.now req.now_ms)

  unfoldable pub rate_limit_layer : Incoming F → Next S F → Next S F
  rate_limit_layer req next w = with_limiter req next w w.limiter

  abbrev pub forbidden : HttpResponse
  forbidden = record { status = 403; headers = [] }

  abbrev pub origin_of : Incoming F → Option Text
  origin_of req = Option.bind req.origin env.to_str

  -- The headers on the way out. `from_str` of a header value is `to_str` of its bytes.
  abbrev pub echoed : Text → HttpResponse × Service S F → HttpResponse × Service S F
  echoed echo (r, w) = (
    insert_header vary origin_text (
        insert_header allow_headers any_origin (
          insert_header allow_methods methods_text
            (insert_header allow_origin (if env.policy.allow_any then any_origin else echo) r))),
    w,
  )

  abbrev pub by_verdict : Next S F → Service S F → OriginVerdict → HttpResponse × Service S F
  by_verdict next w allowed_no_echo = next w
  by_verdict next w (allowed echo) = echoed echo (next w)
  by_verdict next w denied = (forbidden, w)

  unfoldable pub origin_middleware : Incoming F → Next S F → Next S F
  origin_middleware req next w =
      if is_health req.route
      then next w
      else by_verdict next w (evaluate env.policy (origin_of req))

  -- A later `layer` is an outer one: the origin is checked before the limiter, and the metrics count
  -- what the limiter lets through. `/health` is outside of the protected router.
  unfoldable pub serve_request : Incoming F → Next S F
  serve_request req = origin_middleware req (
      if is_health req.route
      then call_handler req
      else rate_limit_layer req (http_metrics_middleware req (call_handler req)))

  -- Requests one after the other.
  unfoldable pub serve_all : List (Incoming F) → Service S F → Service S F
  serve_all [] w = w
  serve_all (req ∷ reqs) w = serve_all reqs (serve_request req w).1

abbrev pub shutting_down : HttpResponse
shutting_down = record { status = 503; headers = [] }

-- `ws_handler`: `upgrade` is the response that starts the session.
unfoldable pub ws_handler : (cancelled : Bool) → HttpResponse → HttpResponse
ws_handler cancelled upgrade = if cancelled then shutting_down else upgrade

-- `ws_handler_legacy`: a refusal has no headers.
unfoldable pub ws_handler_legacy : (cancelled : Bool) → HttpResponse → HttpResponse
ws_handler_legacy cancelled upgrade =
    if cancelled
    then shutting_down
    else insert_header link successor_link (insert_header deprecation true_text upgrade)
