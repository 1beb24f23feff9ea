-- ===== src/Server/Scrape.antt =====
-- The metrics of src/server/mod.rs under requests: a scrape never panics.
use mathlib.Core.Option
use monnok_gigastt.Base.{
  ℕ, ◌≡◌, refl, false, Bool-cases, inl, inr, Option, none, some, List, [], ◌∷◌,
}
use monnok_gigastt.Words.{Text}
use monnok_gigastt.Decode.{is_empty}
use monnok_gigastt.Origin.{OriginVerdict, allowed_no_echo, allowed, denied, evaluate}
use monnok_gigastt.RateLimit.Limiter.{
  RateLimiter, Answer, forwarded, too_many_requests, rate_limit_middleware,
}
use monnok_gigastt.Metrics.{
  MetricsRegistry, Floats, metrics_new, register_counter, register_gauge, register_histogram,
}
use monnok_gigastt.Metrics.Render.{render_prometheus}
use monnok_gigastt.Metrics.Totals.{Op, sets_gauge, apply, run}
use monnok_gigastt.Metrics.Covered.{
  AllCovered, AllEarly, IsEarly, run-AllCovered, Renders, render_prometheus-Renders,
}
use monnok_gigastt.Server.Names.{pool_available}
use monnok_gigastt.Server.{
  ServerConfig, Incoming, HttpResponse, Use, uses_gauge, uses_counter, uses_histogram, Service,
  ops_of, startup_ops, start, record_ops, is_health,
}
use monnok_gigastt.Server.Layers.{
  Next, Layers, call_handler, measured, with_registry, http_metrics_middleware, limited,
  with_limiter, rate_limit_layer, by_verdict, origin_middleware, serve_request, serve_all,
  client_ip, origin_of,
}

module _ {F : Type 0} (fl : Floats F) (some_buckets : is_empty fl.default_buckets ≡ false) where
  -- What the metrics of a service satisfy, if it has any.
  abbrev IsCoveredAt : Option (MetricsRegistry F) → Type 0
  IsCoveredAt none = Unit
  IsCoveredAt (some r) = AllCovered r

  -- No operation of the list registers a histogram.
  abbrev AllUses : List (Op F) → Type 0
  AllUses [] = Unit
  AllUses (op ∷ ops) = ((r : MetricsRegistry F) → IsEarly fl op r) × AllUses ops

  AllUses-AllEarly : (ops : List (Op F)) (r : MetricsRegistry F) → AllUses ops → AllEarly fl ops r
  AllUses-AllEarly [] r h = tt
  AllUses-AllEarly (op ∷ ops) r (h, hs) = (h r, AllUses-AllEarly ops (apply fl op r) hs)

  ops_of-AllUses : (us : List (Use F)) → AllUses (ops_of us)
  ops_of-AllUses [] = tt
  ops_of-AllUses (uses_gauge n ls d ∷ us) = (λ r. tt, ops_of-AllUses us)
  ops_of-AllUses (uses_counter n ls d ∷ us) = (λ r. tt, ops_of-AllUses us)
  ops_of-AllUses (uses_histogram n ls v ∷ us) = (λ r. tt, ops_of-AllUses us)

  run-IsCoveredAt :
      (ops : List (Op F)) (o : Option (MetricsRegistry F))
      → AllUses ops
      → IsCoveredAt o
      → IsCoveredAt (Option.map (run fl ops) o)
  run-IsCoveredAt ops none u h = tt
  run-IsCoveredAt ops (some r) u h =
      run-AllCovered fl ops r some_buckets (AllUses-AllEarly ops r u) h

module _ {S F : Type 0} (env : Layers S F)
    (some_buckets : is_empty env.fl.default_buckets ≡ false) where
  abbrev IsCoveredIn : Service S F → Type 0
  IsCoveredIn w = IsCoveredAt env.fl some_buckets w.registry

  record_ops-IsCoveredIn :
      (ops : List (Op F)) (w : Service S F)
      → AllUses env.fl some_buckets ops
      → IsCoveredIn w
      → IsCoveredIn (record_ops env.fl ops w)
  unfolding record_ops
  record_ops-IsCoveredIn ops w u h = run-IsCoveredAt env.fl some_buckets ops w.registry u h

  start-IsCoveredIn :
      (help : Text → Text) (config : ServerConfig) (s : S)
      → IsCoveredIn (start env.fl help config s)
  unfolding start startup_ops metrics_new register_counter register_gauge register_histogram
  start-IsCoveredIn help config s = elim (Bool-cases config.metrics_enabled) [
    | inl e ↦ rw e (
        run-AllCovered env.fl (startup_ops env.fl.default_buckets help) metrics_new some_buckets
          (tt, (refl, (tt, (refl, (tt, (tt, (refl, (tt, tt)))))))) tt)
    | inr e ↦ rw e tt
  ]

  -- Layers that keep the metrics covered.
  abbrev Keeps : Next S F → Type 0
  Keeps next = (w : Service S F) → IsCoveredIn w → IsCoveredIn (next w).1

  call_handler-Keeps : (req : Incoming F) → Keeps (call_handler env req)
  unfolding call_handler
  call_handler-Keeps req w h =
      let (r, s, uses) = env.handle req w.handlers in
      record_ops-IsCoveredIn (ops_of uses) (record w { handlers = s })
        (ops_of-AllUses env.fl some_buckets uses) h

  measured-IsCoveredIn :
      (req : Incoming F) (p : HttpResponse × Service S F)
      → IsCoveredIn p.1
      → IsCoveredIn (measured env req p).1
  measured-IsCoveredIn req (r, w) h = record_ops-IsCoveredIn _ w (λ _. tt, (λ _. tt, tt)) h

  http_metrics_middleware-Keeps :
      (req : Incoming F) (next : Next S F)
      → Keeps next
      → Keeps (http_metrics_middleware env req next)
  unfolding http_metrics_middleware
  http_metrics_middleware-Keeps req next k w h = go w.registry
    where
      go : (o : Option (MetricsRegistry F)) → IsCoveredIn (with_registry env req next w o).1
      go none = k w h
      go (some r) =
          let w' =
            record_ops env.fl (sets_gauge pool_available [] (env.available w.handlers) ∷ []) w in
          measured-IsCoveredIn req (next w') (k w' (record_ops-IsCoveredIn _ w (λ _. tt, tt) h))

  rate_limit_layer-Keeps :
      (req : Incoming F) (next : Next S F) → Keeps next → Keeps (rate_limit_layer env req next)
  unfolding rate_limit_layer
  rate_limit_layer-Keeps req next k w h = go w.limiter
    where
      by_answer : (a : RateLimiter × Answer × ℕ) → IsCoveredIn (limited env next w a).1
      by_answer (l, forwarded, n) = k (record w { limiter = some l }) h
      by_answer (l, too_many_requests secs, n) =
          record_ops-IsCoveredIn _ (record w { limiter = some l }) (λ _. tt, tt) h

      go : (o : Option RateLimiter) → IsCoveredIn (with_limiter env req next w o).1
      go none = k w h
      go (some l) = by_answer (rate_limit_middleware l (client_ip env req) req.now req.now_ms)

  origin_middleware-Keeps :
      (req : Incoming F) (next : Next S F) → Keeps next → Keeps (origin_middleware env req next)
  unfolding origin_middleware
  origin_middleware-Keeps req next k w h = elim (Bool-cases (is_health req.route)) [
    | inl e ↦ rw e (k w h)
    | inr e ↦ rw e (go (evaluate env.policy (origin_of env req)))
  ]
    where
      go : (v : OriginVerdict) → IsCoveredIn (by_verdict env next w v).1
      go allowed_no_echo = k w h
      go (allowed echo) = k w h
      go denied = h

  serve_request-Keeps : (req : Incoming F) → Keeps (serve_request env req)
  unfolding serve_request
  serve_request-Keeps req = origin_middleware-Keeps req _ (λ w h.
      elim (Bool-cases (is_health req.route)) [
        | inl e ↦ rw e (call_handler-Keeps req w h)
        | inr e ↦ rw e (
            rate_limit_layer-Keeps req _
              (http_metrics_middleware-Keeps req _ (call_handler-Keeps req)) w h)
      ])

  serve_all-IsCoveredIn :
      (reqs : List (Incoming F)) (w : Service S F)
      → IsCoveredIn w
      → IsCoveredIn (serve_all env reqs w)
  unfolding serve_all
  serve_all-IsCoveredIn [] w h = h
  serve_all-IsCoveredIn (req ∷ reqs) w h =
      serve_all-IsCoveredIn reqs (serve_request env req w).1 (serve_request-Keeps req w h)

  -- What a scrape of a service gives, if it has metrics.
  abbrev pub IsScraped : (ℕ → Text) → (ℕ → Text) → Option (MetricsRegistry F) → Type 0
  IsScraped show_u64 show_i64 none = Unit
  IsScraped show_u64 show_i64 (some r) = Renders (render_prometheus env.fl show_u64 show_i64 r)

  -- From the start on, whatever requests the server gets and whatever gauges, counters and histograms
  -- its handlers then use, a scrape of its metrics renders them and does not panic, provided that
  -- the default bounds are some.
  pub serve_all-IsScraped :
      (help : Text → Text) (config : ServerConfig) (s : S) (show_u64 show_i64 : ℕ → Text)
      (reqs : List (Incoming F))
      → IsScraped show_u64 show_i64 (serve_all env reqs (start env.fl help config s)).registry
  serve_all-IsScraped help config s show_u64 show_i64 reqs =
      go _
        (serve_all-IsCoveredIn reqs (start env.fl help config s) (start-IsCoveredIn help config s))
    where
      go :
          (o : Option (MetricsRegistry F))
          → IsCoveredAt env.fl some_buckets o
          → IsScraped show_u64 show_i64 o
      go none h = tt
      go (some r) h = render_prometheus-Renders env.fl show_u64 show_i64 r h
