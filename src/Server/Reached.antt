-- ===== src/Server/Reached.antt =====
-- Handlers of src/server/mod.rs that note what reaches them, and one request in the layers within the
-- origin policy.
use monnok_gigastt.Base.{
  ℕ, suc, ◌+◌, ◌≡◌, refl, ap, Bool, true, false, if◌then◌else◌, Bool-cases, inl, inr, Option, none,
  some, List, [], ◌∷◌, arith, not, ◌&&◌,
}
use monnok_gigastt.Origin.{OriginVerdict, allowed_no_echo, allowed, denied, evaluate}
use monnok_gigastt.RateLimit.Bucket.{count_true}
use monnok_gigastt.RateLimit.ClientIp.{IpAddr, ip_eq}
use monnok_gigastt.RateLimit.Limiter.{RateLimiter, rate_limit_middleware, check, admit}
use monnok_gigastt.RateLimit.Limiter.Isolation.{Arrival, allowed_to}
use monnok_gigastt.Metrics.{MetricsRegistry}
use monnok_gigastt.Server.{Incoming, HttpResponse, Use, Service, record_ops, is_health}
use monnok_gigastt.Server.Layers.{
  Next, Layers, call_handler, with_registry, http_metrics_middleware, limited, rate_limit_layer,
  client_ip, origin_of,
}

-- Handlers that note the requests which reach them.
module _ {F : Type 0} (base : Layers (List (Incoming F)) F) (answer : Incoming F → HttpResponse)
    (uses : Incoming F → List (Use F)) where
  abbrev pub noting : Layers (List (Incoming F)) F
  noting = record base { handle = λ req log. (answer req, req ∷ log, uses req) }

  abbrev pub from_ip : IpAddr → Option IpAddr → Bool
  from_ip ip none = false
  from_ip ip (some j) = ip_eq j ip

  -- The protected requests of an address that have reached a handler.
  abbrev pub reached : IpAddr → List (Incoming F) → ℕ
  reached ip [] = 0
  reached ip (req ∷ log) =
      let n = reached ip log in
      if not (is_health req.route) && from_ip ip (client_ip noting req) then suc n else n

  abbrev pub is_denied : OriginVerdict → Bool
  is_denied allowed_no_echo = false
  is_denied (allowed echo) = false
  is_denied denied = true

  abbrev pub arrives : Option IpAddr → Incoming F → List Arrival → List Arrival
  arrives none req rest = rest
  arrives (some ip) req rest = (ip, req.now, req.now_ms) ∷ rest

  -- The requests that the limiter sees.
  abbrev pub arrivals : List (Incoming F) → List Arrival
  arrivals [] = []
  arrivals (req ∷ reqs) =
      let rest = arrivals reqs in
      if is_health req.route
      then rest
      else if is_denied (evaluate noting.policy (origin_of noting req))
      then rest
      else arrives (client_ip noting req) req rest

  -- A service with a limiter, as far as the limit goes.
  abbrev pub Shows : Service (List (Incoming F)) F → RateLimiter → List (Incoming F) → Type 0
  Shows w l log = (w.limiter ≡ some l) × (w.handlers ≡ log)

  inner-Shows :
      (req : Incoming F) (w : Service (List (Incoming F)) F) (l : RateLimiter)
      (log : List (Incoming F))
      → Shows w l log
      → Shows (http_metrics_middleware noting req (call_handler noting req) w).1 l (req ∷ log)
  unfolding http_metrics_middleware call_handler record_ops
  inner-Shows req w l log (e, f) = go w.registry
    where
      go :
          (o : Option (MetricsRegistry F))
          → Shows (with_registry noting req (call_handler noting req) w o).1 l (req ∷ log)
      go none = (e, ap (λ ys. req ∷ ys) f)
      go (some r) = (e, ap (λ ys. req ∷ ys) f)

  module _ (ip : IpAddr) where
    -- That a request leads to `w'`, where nothing is counted twice: what has reached a handler and what
    -- the limiter will let through add up to the same, whatever comes after.
    abbrev pub Counts :
        Service (List (Incoming F)) F
        → RateLimiter
        → List (Incoming F)
        → (List Arrival → List Arrival)
        → Type 0
    Counts w' l log here =
        (l' : RateLimiter) × (log' : List (Incoming F)) × Shows w' l' log'
        × ((rest : List Arrival)
            → reached ip log' + allowed_to ip l' rest
              ≡ reached ip log + allowed_to ip l (here rest))

    reached-cons :
        (req : Incoming F) (log : List (Incoming F)) (o : Option IpAddr)
        → is_health req.route ≡ false
        → client_ip noting req ≡ o
        → reached ip (req ∷ log) ≡ (if from_ip ip o then suc (reached ip log) else reached ip log)
    reached-cons req log o p k = rw (p, k) refl

    allowed_to-cons :
        (l : RateLimiter) (j : IpAddr) (now now_ms : ℕ) (a : RateLimiter × Bool)
        (rest : List Arrival)
        → check l j now now_ms ≡ a
        → allowed_to ip l ((j, now, now_ms) ∷ rest)
          ≡ (if ip_eq j ip then count_true a.1 (allowed_to ip a.0 rest) else allowed_to ip a.0 rest)
    unfolding allowed_to
    allowed_to-cons l j now now_ms a rest c = rw c refl

    -- The layers within the origin policy, for a request with an address or without.
    pub limited-Counts :
        (req : Incoming F) (w : Service (List (Incoming F)) F) (l : RateLimiter)
        (log : List (Incoming F))
        → is_health req.route ≡ false
        → Shows w l log
        → Counts
            (rate_limit_layer noting req
              (http_metrics_middleware noting req (call_handler noting req))
              w).1
            l
            log
            (arrives (client_ip noting req) req)
    unfolding rate_limit_layer record_ops rate_limit_middleware
    limited-Counts req w l log p (e, f) = rw e (by_ip (client_ip noting req) refl)
      where
        inner : Next (List (Incoming F)) F
        inner = http_metrics_middleware noting req (call_handler noting req)

        by_answer :
            (j : IpAddr) (a : RateLimiter × Bool)
            → check l j req.now req.now_ms ≡ a
            → client_ip noting req ≡ some j
            → Counts (limited noting inner w (admit a)).1 l log (arrives (some j) req)
        by_answer j (l', true) c k = (
          l',
          req ∷ log,
          inner-Shows req (record w { limiter = some l' }) l' log (refl, f),
          λ rest.
              rw
                (
                  reached-cons req log (some j) p k,
                  allowed_to-cons l j req.now req.now_ms (l', true) rest c,
                )
                (elim (Bool-cases (ip_eq j ip)) [ inl t ↦ rw t (omega arith) | inr t ↦ rw t refl ]),
        )
        by_answer j (l', false) c k = (
          l',
          log,
          (refl, f),
          λ rest.
              rw (allowed_to-cons l j req.now req.now_ms (l', false) rest c)
                (elim (Bool-cases (ip_eq j ip)) [ inl t ↦ rw t refl | inr t ↦ rw t refl ]),
        )

        by_ip :
            (o : Option IpAddr)
            → client_ip noting req ≡ o
            → Counts
                (limited noting inner w (rate_limit_middleware l o req.now req.now_ms)).1
                l
                log
                (arrives o req)
        by_ip none k = (
          l,
          req ∷ log,
          inner-Shows req (record w { limiter = some l }) l log (refl, f),
          λ rest. rw (reached-cons req log none p k) refl,
        )
        by_ip (some j) k = by_answer j (check l j req.now req.now_ms) refl k
