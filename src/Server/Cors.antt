-- ===== src/Server/Cors.antt =====
-- The header by which src/server/mod.rs lets another origin read its responses.
use monnok_gigastt.Base.{
  ℕ, ◌≡◌, refl, ◌||◌, if◌then◌else◌, Bool-cases, inl, inr, Option, none, some, List, [], ◌∷◌,
}
use monnok_gigastt.Words.{Text, text_eq}
use monnok_gigastt.Origin.{
  OriginPolicy, OriginVerdict, allowed_no_echo, allowed, denied, evaluate, eq_ignore_ascii_case,
  null_text, is_loopback_origin, any_listed,
}
use monnok_gigastt.RateLimit.Limiter.{
  RateLimiter, Answer, forwarded, too_many_requests, rate_limit_middleware,
}
use monnok_gigastt.Metrics.{MetricsRegistry}
use monnok_gigastt.Server.Names.{allow_origin, any_origin}
use monnok_gigastt.Server.{Incoming, HttpResponse, Service, insert_header, is_health}
use monnok_gigastt.Server.Layers.{
  Next, Layers, call_handler, with_registry, http_metrics_middleware, limited, with_limiter,
  rate_limit_layer, by_verdict, origin_middleware, serve_request, client_ip, origin_of,
}

abbrev pub header_of : Text → List (Text × Text) → Option Text
header_of name [] = none
header_of name ((n, v) ∷ hs) = if text_eq n name then some v else header_of name hs

-- A verdict with an echo is about the origin that was sent.
evaluate-echo :
    (policy : OriginPolicy) (o : Option Text) (echo : Text)
    → evaluate policy o ≡ allowed echo
    → o ≡ some echo
unfolding evaluate
evaluate-echo policy none echo h = cc
evaluate-echo policy (some origin) echo h =
    elim (Bool-cases (eq_ignore_ascii_case origin null_text)) [
      | inl a ↦ let k : allowed_no_echo ≡ allowed echo = rw a at h in cc
      | inr a ↦ elim (Bool-cases (policy.allow_any || is_loopback_origin origin)) [
        | inl b ↦ let k : allowed origin ≡ allowed echo = rw (a, b) at h in cc
        | inr b ↦ elim (Bool-cases (any_listed policy.allowed_origins origin)) [
          | inl c ↦ let k : allowed origin ≡ allowed echo = rw (a, b, c) at h in cc
          | inr c ↦ let k : denied ≡ allowed echo = rw (a, b, c) at h in cc
        ]
      ]
    ]

module _ {S F : Type 0} (env : Layers S F)
    (plain : (req : Incoming F) (s : S)
      → header_of allow_origin (env.handle req s).0.headers ≡ none) where
  -- No origin is granted, or the request's own, which the policy allows; any is, if so configured.
  abbrev pub IsGranted : Incoming F → Option Text → Type 0
  IsGranted req none = Unit
  IsGranted req (some v) =
      (o : Text) × (origin_of env req ≡ some o)
      × (evaluate env.policy (some o) ≡ allowed o)
      × (v ≡ (if env.policy.allow_any then any_origin else o))

  -- Responses without the header.
  abbrev IsPlain : HttpResponse × Service S F → Type 0
  IsPlain (r, w) = header_of allow_origin r.headers ≡ none

  call_handler-IsPlain : (req : Incoming F) (w : Service S F) → IsPlain (call_handler env req w)
  unfolding call_handler
  call_handler-IsPlain req w = plain req w.handlers

  http_metrics_middleware-IsPlain :
      (req : Incoming F) (w : Service S F)
      → IsPlain (http_metrics_middleware env req (call_handler env req) w)
  unfolding http_metrics_middleware
  http_metrics_middleware-IsPlain req w = go w.registry
    where
      go :
          (o : Option (MetricsRegistry F))
          → IsPlain (with_registry env req (call_handler env req) w o)
      go none = call_handler-IsPlain req w
      go (some r) = call_handler-IsPlain req _

  rate_limit_layer-IsPlain :
      (req : Incoming F) (w : Service S F)
      → IsPlain
          (rate_limit_layer env req (http_metrics_middleware env req (call_handler env req)) w)
  unfolding rate_limit_layer
  rate_limit_layer-IsPlain req w = go w.limiter
    where
      inner : Next S F
      inner = http_metrics_middleware env req (call_handler env req)

      by_answer : (a : RateLimiter × Answer × ℕ) → IsPlain (limited env inner w a)
      by_answer (l, forwarded, n) =
          http_metrics_middleware-IsPlain req (record w { limiter = some l })
      by_answer (l, too_many_requests secs, n) = refl

      go : (o : Option RateLimiter) → IsPlain (with_limiter env req inner w o)
      go none = http_metrics_middleware-IsPlain req w
      go (some l) = by_answer (rate_limit_middleware l (client_ip env req) req.now req.now_ms)

  origin_middleware-IsGranted :
      (req : Incoming F) (next : Next S F) (w : Service S F)
      → IsPlain (next w)
      → IsGranted req (header_of allow_origin (origin_middleware env req next w).0.headers)
  unfolding origin_middleware insert_header
  origin_middleware-IsGranted req next w h = elim (Bool-cases (is_health req.route)) [
    | inl e ↦ rw (e, h) tt
    | inr e ↦ rw e (go (evaluate env.policy (origin_of env req)) refl)
  ]
    where
      go :
          (v : OriginVerdict)
          → evaluate env.policy (origin_of env req) ≡ v
          → IsGranted req (header_of allow_origin (by_verdict env next w v).0.headers)
      go allowed_no_echo e = rw h tt
      go (allowed echo) e =
          let o = evaluate-echo env.policy (origin_of env req) echo e in
          (echo, o, (rw o at e), refl)
      go denied e = tt

  -- Where no handler sets the header itself, a response allows no origin to read it but the one that
  -- sent the request, which the policy allows, or any at all where the policy allows any. This
  -- includes the answers of the limiter and of the policy.
  pub serve_request-IsGranted :
      (req : Incoming F) (w : Service S F)
      → IsGranted req (header_of allow_origin (serve_request env req w).0.headers)
  unfolding serve_request
  serve_request-IsGranted req w =
      origin_middleware-IsGranted req _ w (elim (Bool-cases (is_health req.route)) [
        | inl e ↦ rw e (call_handler-IsPlain req w)
        | inr e ↦ rw e (rate_limit_layer-IsPlain req w)
      ])
