-- ===== src/Transcript.antt =====
-- `TranscriptAssembler` of src/inference/mod.rs, which collects words into segments. A timestamp is a
-- number that is passed through.
pub mod Segments
use monnok_gigastt.Base.{ℕ, Bool, true, false, if◌then◌else◌, List, [], ◌∷◌, ◌++◌}
use monnok_gigastt.Decode.{is_empty}
use monnok_gigastt.Words.{Text, WordInfo}

pub record TranscriptAssembler : Type 0 where
  pub text : Text
  pub words : List WordInfo

pub record TranscriptSegment : Type 0 where
  pub segment_text : Text
  pub segment_words : List WordInfo
  pub is_final : Bool
  pub timestamp : ℕ

unfoldable pub assembler_new : TranscriptAssembler
assembler_new = record { text = []; words = [] }

-- `push(' ')`, unless the text is empty.
abbrev pub spaced : Text → Text
spaced t = if is_empty t then t else t ++ (b' ' ∷ [])

-- The loop of `append`.
unfoldable pub push_words : Text → List WordInfo → Text
push_words t [] = t
push_words t (w ∷ ws) = push_words (spaced t ++ w.word) ws

unfoldable pub append : TranscriptAssembler → List WordInfo → TranscriptAssembler
append a new_words = record { text = push_words a.text new_words; words = a.words ++ new_words }

unfoldable pub finalize : TranscriptAssembler → ℕ → TranscriptSegment × TranscriptAssembler
finalize a timestamp = (
  record { segment_text = a.text; segment_words = a.words; is_final = true; timestamp = timestamp },
  record { text = []; words = [] },
)

unfoldable pub partial : TranscriptAssembler → ℕ → TranscriptSegment
partial a timestamp = record {
  segment_text = a.text;
  segment_words = a.words;
  is_final = false;
  timestamp = timestamp;
}
