-- ===== src/RateLimit/ClientIp.antt =====
-- `extract_client_ip` and `is_rfc1918` of src/server/rate_limit.rs. Header values are bytes. What the
-- HTTP and standard libraries do is a parameter: `to_str` of a header value, and the `parse` of an
-- address.
pub mod Trust
use Prim.Native.Nat.{bit_and}
use mathlib.Core.Option
use monnok_gigastt.Base.{
  ℕ, Bool, true, false, ◌&&◌, ◌||◌, not, ◌==◌, leb, if◌then◌else◌, Option, none, some, List, [],
  ◌∷◌, ◌++◌, reverse,
}

pub data IpAddr : Type 0 where
  v4 : (a b c d : ℕ) → IpAddr
  v6 : (bits : ℕ) → IpAddr

unfoldable pub ip_eq : IpAddr → IpAddr → Bool
ip_eq (v4 a b c d) (v4 a' b' c' d') = (a == a') && (b == b') && (c == c') && (d == d')
ip_eq (v6 n) (v6 m) = n == m
ip_eq _ _ = false

-- `IpAddr::is_loopback`: 127/8 and ::1.
unfoldable pub is_loopback : IpAddr → Bool
is_loopback (v4 a b c d) = a == 127
is_loopback (v6 n) = n == 1

unfoldable pub is_rfc1918 : IpAddr → Bool
is_rfc1918 (v4 a b c d) =
    (a == 10) || ((a == 172) && (bit_and b 0xf0 == 16)) || ((a == 192) && (b == 168))
is_rfc1918 (v6 n) = false

-- The parts of a request that `extract_client_ip` reads.
pub record Request : Type 0 where
  pub peer : Option IpAddr  -- `ConnectInfo`
  pub x_forwarded_for : Option (List ℕ)
  pub x_real_ip : Option (List ℕ)

-- `s.split(',').next().unwrap_or("")`
unfoldable pub first_hop : List ℕ → List ℕ
first_hop [] = []
first_hop (c ∷ s) = let rest = first_hop s in if c == b',' then [] else c ∷ rest

-- The white space of ASCII: the text of a header holds no other.
abbrev pub is_space : ℕ → Bool
is_space c = (c == b' ') || ((leb 9 c) && (leb c 13))

unfoldable pub trim_start : List ℕ → List ℕ
trim_start [] = []
trim_start (c ∷ s) = let rest = trim_start s in if is_space c then rest else c ∷ s

unfoldable pub trim : List ℕ → List ℕ
unfolding trim_start
trim s = reverse (trim_start (reverse (trim_start s)))

module _ (to_str : List ℕ → Option (List ℕ)) (parse : List ℕ → Option IpAddr) where
  -- The address in `X-Forwarded-For`, if there is one that parses.
  unfoldable pub forwarded_ip : Request → Option IpAddr
  unfolding first_hop trim
  forwarded_ip req =
      Option.bind req.x_forwarded_for λ v. Option.bind (to_str v) λ s. parse (trim (first_hop s))

  -- The address in `X-Real-IP`, if there is one that parses.
  unfoldable pub real_ip : Request → Option IpAddr
  unfolding trim
  real_ip req = Option.bind req.x_real_ip λ v. Option.bind (to_str v) λ s. parse (trim s)

  abbrev or_else : Option IpAddr → Option IpAddr → Option IpAddr
  or_else none k = k
  or_else (some ip) k = some ip

  -- What a trusted proxy's headers say, else the peer.
  unfoldable pub from_headers : Request → Option IpAddr
  from_headers req = or_else (forwarded_ip req) (or_else (real_ip req) req.peer)

  unfoldable pub trusted : Option IpAddr → Request → Option IpAddr
  trusted none req = from_headers req
  trusted (some ip) req =
      if not (is_loopback ip) && not (is_rfc1918 ip) then some ip else from_headers req

  unfoldable pub extract_client_ip : Request → Bool → Option IpAddr
  unfolding trusted
  extract_client_ip req trust_proxy = if not trust_proxy then req.peer else trusted req.peer req
