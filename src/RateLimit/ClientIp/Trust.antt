-- ===== src/RateLimit/ClientIp/Trust.antt =====
-- When the forwarded headers of a request count (src/server/rate_limit.rs, `extract_client_ip`).
use Prim.Native.Nat.{bit_and}
use monnok_gigastt.Base.{
  if◌then◌else◌, ◌+◌, ℕ, suc, zero, ◌≤◌, ◌<◌, ◌≡◌, refl, ◌↔◌, ◌⊎◌, Bool, true, false, ◌&&◌, Option,
  none, some, List, [], ◌∷◌, arith, ◌==◌, leb,
}
use monnok_gigastt.RateLimit.ClientIp.{
  IpAddr, v4, is_loopback, is_rfc1918, Request, forwarded_ip, real_ip, from_headers,
  extract_client_ip,
}

abbrev bool_eq : Bool → Bool → Bool
bool_eq true b = b
bool_eq false true = false
bool_eq false false = true

-- The mask test and the test of the range agree on a byte.
abbrev agrees : ℕ → Bool
agrees b = bool_eq (bit_and b 0xf0 == 16) (leb 16 b && leb b 31)

-- How many numbers below the bound they differ on, and what it means that there is none.
disagreements : ℕ → ℕ
disagreements zero = 0
disagreements (suc k) = (if agrees k then 0 else 1) + disagreements k

disagreements-zero : (k b : ℕ) → b < k → disagreements k ≡ 0 → agrees b ≡ true
unfolding disagreements
disagreements-zero zero b below none_found = absurd (omega arith)
disagreements-zero (suc k) b below none_found = ground (arith, disagreements-zero k b)

no_disagreement : disagreements 256 ≡ 0
unfolding disagreements
no_disagreement = refl

-- The mask `0xF0` picks exactly the bytes from 16 to 31.
mask_range : (b : ℕ) → b < 256 → (bit_and b 0xf0 == 16) ≡ (leb 16 b && leb b 31)
mask_range b h = ground (arith, disagreements-zero 256 b h no_disagreement)

-- An IPv4 address is private exactly if it lies in 10/8, 172.16/12 or 192.168/16.
pub is_rfc1918_iff :
    (a b c d : ℕ)
    → b < 256
    → (is_rfc1918 (v4 a b c d) ≡ true)
      ↔ ((a ≡ 10) ⊎ (((a ≡ 172) × (16 ≤ b) × (b ≤ 31)) ⊎ ((a ≡ 192) × (b ≡ 168))))
unfolding is_rfc1918
is_rfc1918_iff a b c d h = ground (arith, mask_range b h)

abbrev pub first_some : List (Option IpAddr) → Option IpAddr
first_some [] = none
first_some (none ∷ os) = first_some os
first_some (some ip ∷ os) = some ip

module _ (to_str : List ℕ → Option (List ℕ)) (parse : List ℕ → Option IpAddr) where
  -- Without `trust_proxy` the headers have no effect at all; with it, they have none where the peer
  -- is a public address. In both cases the client is the peer.
  pub extract_client_ip_direct :
      (req : Request) (trust_proxy : Bool)
      → (trust_proxy ≡ false)
        ⊎ ((ip : IpAddr) × (req.peer ≡ some ip)
            × (is_loopback ip ≡ false)
            × (is_rfc1918 ip ≡ false))
      → extract_client_ip to_str parse req trust_proxy ≡ req.peer
  unfolding extract_client_ip
  extract_client_ip_direct req trust_proxy h = ground arith

  -- With `trust_proxy`, and a peer that is unknown or at a loopback or private address, the client
  -- is the first of three that is there: the first hop that `X-Forwarded-For` names, the address of
  -- `X-Real-IP`, the peer. A header that is missing, is no text or does not parse is passed over.
  pub extract_client_ip_proxied :
      (req : Request)
      → (req.peer ≡ none)
        ⊎ ((ip : IpAddr) × (req.peer ≡ some ip)
            × ((is_loopback ip ≡ true) ⊎ (is_rfc1918 ip ≡ true)))
      → extract_client_ip to_str parse req true
        ≡ first_some (forwarded_ip to_str parse req ∷ real_ip to_str parse req ∷ req.peer ∷ [])
  unfolding extract_client_ip from_headers
  extract_client_ip_proxied req h = ground arith
