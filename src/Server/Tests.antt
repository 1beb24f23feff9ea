-- ===== src/Server/Tests.antt =====
-- Concrete requests to the layers of src/server/mod.rs.
use monnok_gigastt.Base.{
  ℕ, ◌+◌, ◌-◌, ◌*◌, ◌≤◌, ◌≡◌, refl, true, false, ◌==◌, none, some, List, [], ◌∷◌, ◌++◌, arith, min,
  max, leb,
}
use monnok_gigastt.Words.{Text}
use monnok_gigastt.Origin.{http, localhost}
use monnok_gigastt.RateLimit.Newtypes.{max_rpm}
use monnok_gigastt.RateLimit.Bucket.{parts_per_token}
use monnok_gigastt.RateLimit.ClientIp.{v4}
use monnok_gigastt.Protocol.{limits_default}
use monnok_gigastt.Metrics.{Floats}
use monnok_gigastt.Server.Names.{allow_origin}
use monnok_gigastt.Server.{ServerConfig, Incoming, HttpResponse, Use, uses_counter, start, Route}
use monnok_gigastt.Server.Layers.{Layers, serve_request, serve_all}
use monnok_gigastt.Server.Cors.{header_of, IsGranted, serve_request-IsGranted}
use monnok_gigastt.Server.Rate.{charged, serve_all_rate}
use monnok_gigastt.Server.Reached.{noting, reached}
use monnok_gigastt.Server.Scrape.{IsScraped, serve_all-IsScraped}

abbrev floats : Floats ℕ
floats = record {
  le = leb;
  same = λ a b. a == b;
  add = λ a b. a + b;
  float_zero = 0;
  is_infinite = λ x. false;
  is_sign_positive = λ x. true;
  is_nan = λ x. false;
  show_float = λ x. (b'0' + x) ∷ [];
  default_buckets = 1 ∷ 5 ∷ [];
}

abbrev digit : ℕ → Text
digit n = (b'0' + n) ∷ []

abbrev limited_config : ServerConfig
limited_config = record {
  port = 80;
  host = [];
  origin_policy = record { allow_any = false; allowed_origins = [] };
  limits = record limits_default { rate_limit_per_minute = 60; rate_limit_burst = 1 };
  metrics_enabled = true;
  trust_proxy = false;
}

-- Every handler answers 200, counts once, and notes its request.
abbrev layers : Layers (List (Incoming ℕ)) ℕ
layers = record {
  policy = limited_config.origin_policy;
  trust_proxy = false;
  to_str = λ bytes. some bytes;
  parse = λ t. none;
  fl = floats;
  show_u64 = digit;
  available = λ log. 4;
  handle = λ req log. (record { status = 200; headers = [] }, req ∷ log, uses_counter [] [] 1 ∷ []);
}

abbrev from_local : Route → Incoming ℕ
from_local route = record {
  route = route;
  method = [];
  path = [];
  origin = some (http ++ localhost);
  client = record { peer = some (v4 10 0 0 9); x_forwarded_for = none; x_real_ip = none };
  now = 5;
  now_ms = 5;
  elapsed = 1;
}

abbrev requests : List (Incoming ℕ)
requests = from_local Route.models ∷ from_local Route.health ∷ from_local Route.metrics ∷ []

abbrev ok_response : Incoming ℕ → HttpResponse
ok_response req = record { status = 200; headers = [] }

abbrev one_use : Incoming ℕ → List (Use ℕ)
one_use req = uses_counter [] [] 1 ∷ []

abbrev through : List (Incoming ℕ) → ℕ
through reqs =
    reached layers ok_response one_use (v4 10 0 0 9)
      (serve_all (noting layers ok_response one_use) reqs
        (start floats (λ name. name) limited_config [])).handlers

serve_all_rate_example :
    (through requests * parts_per_token
      ≤ max 1 1 * parts_per_token + (9 - 2) * min (max 60 1) max_rpm)
    × (through requests ≡ through (charged layers ok_response one_use requests))
serve_all_rate_example =
    serve_all_rate layers ok_response one_use (λ name. name) limited_config (v4 10 0 0 9) 2 9
      requests refl (omega arith)

serve_all-IsScraped_example :
    IsScraped layers refl digit digit
      (serve_all layers requests (start floats (λ name. name) limited_config [])).registry
serve_all-IsScraped_example =
    serve_all-IsScraped layers refl (λ name. name) limited_config [] digit digit requests

serve_request-IsGranted_example :
    IsGranted layers
      (λ req s. refl)
      (from_local Route.models)
      (header_of allow_origin
        (serve_request layers
          (from_local Route.models)
          (start floats (λ name. name) limited_config [])).0.headers)
serve_request-IsGranted_example =
    serve_request-IsGranted layers (λ req s. refl) (from_local Route.models)
      (start floats (λ name. name) limited_config [])
