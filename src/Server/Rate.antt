-- ===== src/Server/Rate.antt =====
-- How much gets to the handlers of src/server/mod.rs behind the origin policy and the limiter.
use native.Mathlib.Nat.{zero-add}
use monnok_gigastt.Base.{
  ℕ, ◌+◌, ◌-◌, ◌*◌, ◌≤◌, ◌≡◌, refl, sym, ◌∙◌, ap, true, false, ltb, if◌then◌else◌, Bool-cases, inl,
  inr, Option, none, some, List, [], ◌∷◌, arith, max, min,
}
use monnok_gigastt.Words.{Text}
use monnok_gigastt.Origin.{OriginVerdict, allowed_no_echo, allowed, denied, evaluate}
use monnok_gigastt.RateLimit.Newtypes.{max_rpm}
use monnok_gigastt.RateLimit.Bucket.{parts_per_token}
use monnok_gigastt.RateLimit.ClientIp.{IpAddr}
use monnok_gigastt.RateLimit.Limiter.{RateLimiter, limiter_new}
use monnok_gigastt.RateLimit.Limiter.Isolation.{allowed_to, ArriveAfter, ArriveBefore, limiter_rate}
use monnok_gigastt.Server.{
  ServerConfig, Incoming, HttpResponse, Use, Service, start, record_ops, is_health,
}
use monnok_gigastt.Server.Layers.{
  Layers, call_handler, http_metrics_middleware, rate_limit_layer, by_verdict, origin_middleware,
  serve_request, serve_all, client_ip, origin_of,
}
use monnok_gigastt.Server.Reached.{
  noting, reached, is_denied, arrives, arrivals, Shows, limited-Counts,
}

module _ {F : Type 0} (base : Layers (List (Incoming F)) F) (answer : Incoming F → HttpResponse)
    (uses : Incoming F → List (Use F)) where
  module _ (ip : IpAddr) where
    -- One request through all layers.
    serve_request-Counts :
        (req : Incoming F) (reqs : List (Incoming F)) (w : Service (List (Incoming F)) F)
        (l : RateLimiter) (log : List (Incoming F))
        → Shows base answer uses w l log
        → (l' : RateLimiter) × (log' : List (Incoming F)) × Shows base answer uses
            (serve_request (noting base answer uses) req w).1
            l'
            log'
          × (reached base answer uses ip log' + allowed_to ip l' (arrivals base answer uses reqs)
              ≡ reached base answer uses ip log
                + allowed_to ip l (arrivals base answer uses (req ∷ reqs)))
    unfolding serve_request origin_middleware call_handler record_ops
    serve_request-Counts req reqs w l log (e, f) = elim (Bool-cases (is_health req.route)) [
      | inl p ↦ rw p (l, req ∷ log, (e, ap (λ ys. req ∷ ys) f), rw p refl)
      | inr p ↦ rw p (
          by_verdict-Counts p
            (evaluate (noting base answer uses).policy (origin_of (noting base answer uses) req)))
    ]
      where
        by_verdict-Counts :
            is_health req.route ≡ false
            → (v : OriginVerdict)
            → (l' : RateLimiter) × (log' : List (Incoming F)) × Shows base answer uses
                (by_verdict
                  (noting base answer uses)
                  (rate_limit_layer (noting base answer uses) req (
                    http_metrics_middleware
                      (noting base answer uses)
                      req
                      (call_handler (noting base answer uses) req)))
                  w
                  v).1
                l'
                log'
              × (reached base answer uses ip log'
                    + allowed_to ip l' (arrivals base answer uses reqs)
                  ≡ reached base answer uses ip log
                    + allowed_to ip l (
                        if is_denied base answer uses v
                        then arrivals base answer uses reqs
                        else arrives base answer uses
                            (client_ip (noting base answer uses) req)
                            req
                            (arrivals base answer uses reqs)))
        by_verdict-Counts p denied = (l, log, (e, f), refl)
        by_verdict-Counts p allowed_no_echo =
            let (l', log', s, h) = limited-Counts base answer uses ip req w l log p (e, f) in
            (l', log', s, h (arrivals base answer uses reqs))
        by_verdict-Counts p (allowed echo) =
            let (l', log', s, h) = limited-Counts base answer uses ip req w l log p (e, f) in
            (l', log', s, h (arrivals base answer uses reqs))

    serve_all-reached :
        (reqs : List (Incoming F)) (w : Service (List (Incoming F)) F) (l : RateLimiter)
        (log : List (Incoming F))
        → Shows base answer uses w l log
        → reached base answer uses ip (serve_all (noting base answer uses) reqs w).handlers
          ≡ reached base answer uses ip log + allowed_to ip l (arrivals base answer uses reqs)
    unfolding serve_all allowed_to
    serve_all-reached [] w l log (e, f) = omega (arith, ap (reached base answer uses ip) f)
    serve_all-reached (req ∷ reqs) w l log s =
        let (l', log', s', h) = serve_request-Counts req reqs w l log s in
        serve_all-reached reqs (serve_request (noting base answer uses) req w).1 l' log' s' ∙ h

  -- All requests come at `start` at the earliest and at `end` at the latest.
  abbrev pub AllBetween : ℕ → ℕ → List (Incoming F) → Type 0
  AllBetween from to [] = Unit
  AllBetween from to (req ∷ reqs) = ((from ≤ req.now) × (req.now ≤ to)) × AllBetween from to reqs

  arrivals-between :
      (from to : ℕ) (reqs : List (Incoming F))
      → AllBetween from to reqs
      → ArriveAfter from (arrivals base answer uses reqs)
        × ArriveBefore to (arrivals base answer uses reqs)
  arrivals-between from to [] h = (tt, tt)
  arrivals-between from to (req ∷ reqs) ((a, b), h) = elim (Bool-cases (is_health req.route)) [
    | inl p ↦ rw p (arrivals-between from to reqs h)
    | inr p ↦
        rw p
          (elim (Bool-cases (
            is_denied base answer uses (
              evaluate (noting base answer uses).policy
                (origin_of (noting base answer uses) req)))) [
                  | inl d ↦ rw d (arrivals-between from to reqs h)
                  | inr d ↦ rw d (
                      by_ip (client_ip (noting base answer uses) req)
                        (arrivals-between from to reqs h))
                ])
  ]
    where
      by_ip :
          (o : Option IpAddr)
          → ArriveAfter from (arrivals base answer uses reqs)
            × ArriveBefore to (arrivals base answer uses reqs)
          → ArriveAfter from (arrives base answer uses o req (arrivals base answer uses reqs))
            × ArriveBefore to (arrives base answer uses o req (arrivals base answer uses reqs))
      by_ip none k = k
      by_ip (some ip) (k, m) = ((a, k), (b, m))

  -- The requests that are neither to `/health` nor denied by the origin policy.
  abbrev pub charged : List (Incoming F) → List (Incoming F)
  charged [] = []
  charged (req ∷ reqs) =
      let rest = charged reqs in
      if is_health req.route
      then rest
      else if is_denied base answer uses
          (evaluate (noting base answer uses).policy (origin_of (noting base answer uses) req))
      then rest
      else req ∷ rest

  arrivals-charged :
      (reqs : List (Incoming F))
      → arrivals base answer uses (charged reqs) ≡ arrivals base answer uses reqs
  arrivals-charged [] = refl
  arrivals-charged (req ∷ reqs) =
      let e = noting base answer uses in
      elim (Bool-cases (is_health req.route)) [
        | inl p ↦ rw p (arrivals-charged reqs)
        | inr p ↦
            elim (Bool-cases (is_denied base answer uses (evaluate e.policy (origin_of e req)))) [
              | inl d ↦ rw (p, d) (arrivals-charged reqs)
              | inr d ↦
                  rw (p, d)
                    (rw (p, d)
                      (ap (arrives base answer uses (client_ip e req) req) (arrivals-charged reqs)))
            ]
      ]

  -- From the start of a server with a limit, of requests that all come between `from` and `to`, in any
  -- order and with any origins, at most the burst (at least 1) and the refill of that time at the
  -- clamped rate get from one address to a handler of a protected route, while no bucket is
  -- evicted. Requests that the origin policy denies and requests to `/health` spend nothing: as
  -- many get there as if they had not been sent.
  pub serve_all_rate :
      (help : Text → Text) (config : ServerConfig) (ip : IpAddr) (from to : ℕ)
      (reqs : List (Incoming F))
      → ltb 0 config.limits.rate_limit_per_minute ≡ true
      → AllBetween from to reqs
      → let through : List (Incoming F) → ℕ = λ reqs.
        reached base answer uses ip
          (serve_all
            (noting base answer uses)
            reqs
            (start (noting base answer uses).fl help config [])).handlers in
        (through reqs * parts_per_token
          ≤ max config.limits.rate_limit_burst 1 * parts_per_token
            + (to - from) * min (max config.limits.rate_limit_per_minute 1) max_rpm)
        × (through reqs ≡ through (charged reqs))
  unfolding start
  serve_all_rate help config ip from to reqs h b =
      let l = limiter_new config.limits.rate_limit_per_minute config.limits.rate_limit_burst in
      let (k, m) = arrivals-between from to reqs b in
      let w = start (noting base answer uses).fl help config [] in
      let all : (rs : List (Incoming F))
          → reached base answer uses ip (serve_all (noting base answer uses) rs w).handlers
            ≡ allowed_to ip l (arrivals base answer uses rs) =
        λ rs. serve_all-reached ip rs w l [] (rw h refl, refl) ∙ zero-add _ in
      (
        rw (all reqs) (
            limiter_rate config.limits.rate_limit_per_minute config.limits.rate_limit_burst from to
              ip (arrivals base answer uses reqs) k m),
        all reqs ∙ ap (allowed_to ip l) (sym (arrivals-charged reqs)) ∙ sym (all (charged reqs)),
      )
