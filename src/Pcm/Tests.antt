-- ===== src/Pcm/Tests.antt =====
-- Frames cut in the middle of a sample (src/server/mod.rs, `handle_binary_frame`).
use monnok_gigastt.Base.{ℕ, ◌≡◌, none, List, [], ◌∷◌}
use monnok_gigastt.Pcm.{chunks_exact, with_carry}
use monnok_gigastt.Pcm.Carry.{leftover, session_samples, flat, session_samples-chunks_exact}

abbrev cut : List (List ℕ)
cut = (1 ∷ 2 ∷ 3 ∷ []) ∷ [] ∷ (4 ∷ 5 ∷ []) ∷ (6 ∷ []) ∷ (7 ∷ []) ∷ []

session_samples-chunks_exact_example :
    ((session_samples none cut).0 ≡ chunks_exact (with_carry none (flat cut)))
    × ((session_samples none cut).1 ≡ leftover (with_carry none (flat cut)))
session_samples-chunks_exact_example = session_samples-chunks_exact cut none
