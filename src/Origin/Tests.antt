-- ===== src/Origin/Tests.antt =====
-- A host that begins like a loopback host (src/server/mod.rs, `OriginPolicy`).
use monnok_gigastt.Base.{◌≡◌, ◌↔◌, false, some, [], ◌∷◌, ◌++◌}
use monnok_gigastt.Words.{Text}
use monnok_gigastt.Origin.{
  loopback_only, denied, http, localhost, host_prefixes, null_text, to_ascii_lowercase,
  eq_ignore_ascii_case, any_listed, evaluate,
}
use monnok_gigastt.Origin.Verdict.{HasHost, evaluate_iff}

-- "http://localhost.evil"
abbrev lookalike : Text
lookalike = http ++ localhost ++ (b'.' ∷ b'e' ∷ b'v' ∷ b'i' ∷ b'l' ∷ [])

evaluate_iff_example : (evaluate loopback_only (some lookalike) ≡ denied) ↔ (
    (eq_ignore_ascii_case lookalike null_text ≡ false)
    × (loopback_only.allow_any ≡ false)
    × (¬ HasHost host_prefixes (to_ascii_lowercase lookalike))
    × (any_listed loopback_only.allowed_origins lookalike ≡ false))
evaluate_iff_example = evaluate_iff loopback_only lookalike
