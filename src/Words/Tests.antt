-- ===== src/Words/Tests.antt =====
-- Words from four tokens (src/inference/mod.rs, `tokens_to_words`), and a small vocabulary
-- (src/inference/tokenizer.rs).
use monnok_gigastt.Base.{ℕ, ◌≡◌, refl, arith, some, List, [], ◌∷◌}
use monnok_gigastt.Decode.{TokenInfo}
use monnok_gigastt.Words.{Text, boundary_mark, blk_text, tokens_to_words}
use monnok_gigastt.Words.Vocab.{
  parse_usize, parse_digits, trim, trim_start, trim_end, is_white, blank_of, blank_position, load,
  push_tokens, decode,
}
use monnok_gigastt.Words.Load.{render, texts, load-render}
use monnok_gigastt.Words.Text.{spelled, said, AllSpelled, tokens_to_words-said}

-- "▁a", "b" and "▁".
abbrev vocabulary : List Text
vocabulary = (boundary_mark ∷ b'a' ∷ []) ∷ (b'b' ∷ []) ∷ (boundary_mark ∷ []) ∷ []

abbrev mean : List ℕ → ℕ
mean confidences = 0

abbrev token : ℕ → ℕ → TokenInfo
token id frame = record { token_id = id; frame_index = frame; confidence = 0 }

-- "ab b" and an id out of range.
abbrev heard_tokens : List TokenInfo
heard_tokens = token 0 2 ∷ token 1 3 ∷ token 2 3 ∷ token 1 5 ∷ token 9 6 ∷ []

tokens_to_words-said_example :
    (spelled (tokens_to_words vocabulary mean 4 heard_tokens) ≡ said vocabulary heard_tokens)
    × AllSpelled (tokens_to_words vocabulary mean 4 heard_tokens)
tokens_to_words-said_example = tokens_to_words-said vocabulary mean 4 heard_tokens

-- A token with a tab and a space, a bare digit, and the blank.
abbrev entries : List (Text × Text)
entries =
    (b'a' ∷ 9 ∷ b' ' ∷ b'7' ∷ [], b'0' ∷ []) ∷ (b'5' ∷ [], b'1' ∷ []) ∷ (blk_text, b'2' ∷ []) ∷ []

load-render_example :
    load (some (render entries))
    ≡ some (record { tokens = texts entries; blank_id = blank_of (texts entries) })
unfolding parse_usize parse_digits
load-render_example = load-render entries (
  (omega arith, (refl, tt), refl),
  ((omega arith, (refl, tt), refl), ((omega arith, (refl, tt), refl), tt)),
)

-- Without tokens the position wraps around.
blank_of-nil : blank_of [] ≡ 18446744073709551615
unfolding blank_of blank_position
blank_of-nil = refl

decode_runs :
    decode (record { tokens = vocabulary; blank_id = 9 }) (0 ∷ 1 ∷ 9 ∷ 0 ∷ [])
    ≡ b'a' ∷ b'b' ∷ b' ' ∷ b'a' ∷ []
unfolding decode push_tokens trim trim_start trim_end is_white
decode_runs = refl
