-- ===== src/Origin.antt =====
-- The origin policy of src/server/mod.rs. A text is its list of code points.
pub mod Verdict
mod Tests
use monnok_gigastt.Base.{
  ℕ, ◌+◌, Bool, true, false, ◌&&◌, ◌||◌, leb, ◌==◌, if◌then◌else◌, Option, none, some, List, [],
  ◌∷◌, ◌++◌,
}
use monnok_gigastt.Words.{Text, text_eq}

pub record OriginPolicy : Type 0 where
  pub allow_any : Bool
  pub allowed_origins : List Text

unfoldable pub loopback_only : OriginPolicy
loopback_only = record { allow_any = false; allowed_origins = [] }

pub data OriginVerdict : Type 0 where
  allowed_no_echo : OriginVerdict
  allowed : Text → OriginVerdict
  denied : OriginVerdict

abbrev pub lower : ℕ → ℕ
lower c = if leb b'A' c && leb c b'Z' then c + 32 else c

abbrev pub to_ascii_lowercase : Text → Text
to_ascii_lowercase [] = []
to_ascii_lowercase (c ∷ s) = lower c ∷ to_ascii_lowercase s

abbrev pub eq_ignore_ascii_case : Text → Text → Bool
eq_ignore_ascii_case s t = text_eq (to_ascii_lowercase s) (to_ascii_lowercase t)

abbrev and_then : Bool → Option Text → Option Text
and_then true o = o
and_then false o = none

unfoldable pub strip_prefix : Text → Text → Option Text
strip_prefix [] s = some s
strip_prefix (p ∷ ps) [] = none
strip_prefix (p ∷ ps) (c ∷ s) = and_then (p == c) (strip_prefix ps s)

-- What may follow the host: nothing, a port or a path.
abbrev pub ends_host : Option Text → Bool
ends_host none = false
ends_host (some []) = true
ends_host (some (c ∷ rest)) = (c == b':') || (c == b'/')

abbrev pub http : Text
http = b'h' ∷ b't' ∷ b't' ∷ b'p' ∷ b':' ∷ b'/' ∷ b'/' ∷ []

abbrev pub https : Text
https = b'h' ∷ b't' ∷ b't' ∷ b'p' ∷ b's' ∷ b':' ∷ b'/' ∷ b'/' ∷ []

abbrev pub localhost : Text
localhost = b'l' ∷ b'o' ∷ b'c' ∷ b'a' ∷ b'l' ∷ b'h' ∷ b'o' ∷ b's' ∷ b't' ∷ []

abbrev pub loopback_v4 : Text
loopback_v4 = b'1' ∷ b'2' ∷ b'7' ∷ b'.' ∷ b'0' ∷ b'.' ∷ b'0' ∷ b'.' ∷ b'1' ∷ []

abbrev pub loopback_v6 : Text
loopback_v6 = b'[' ∷ b':' ∷ b':' ∷ b'1' ∷ b']' ∷ []

abbrev pub host_prefixes : List Text
host_prefixes =
    (http ++ localhost)
    ∷ (https ++ localhost)
    ∷ (http ++ loopback_v4)
    ∷ (https ++ loopback_v4)
    ∷ (http ++ loopback_v6)
    ∷ (https ++ loopback_v6)
    ∷ []

unfoldable pub any_host : List Text → Text → Bool
any_host [] s = false
any_host (p ∷ ps) s = ends_host (strip_prefix p s) || any_host ps s

unfoldable pub is_loopback_origin : Text → Bool
is_loopback_origin origin = any_host host_prefixes (to_ascii_lowercase origin)

unfoldable pub any_listed : List Text → Text → Bool
any_listed [] origin = false
any_listed (a ∷ rest) origin = eq_ignore_ascii_case a origin || any_listed rest origin

abbrev pub null_text : Text
null_text = b'n' ∷ b'u' ∷ b'l' ∷ b'l' ∷ []

unfoldable pub evaluate : OriginPolicy → Option Text → OriginVerdict
evaluate policy none = allowed_no_echo
evaluate policy (some origin) =
    if eq_ignore_ascii_case origin null_text
    then allowed_no_echo
    else if policy.allow_any || is_loopback_origin origin
    then allowed origin
    else if any_listed policy.allowed_origins origin
    then allowed origin
    else denied
