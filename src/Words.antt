-- ===== src/Words.antt =====
-- `token_text` of src/inference/tokenizer.rs, and `tokens_to_words` of src/inference/mod.rs. A text is its list of code points; a time is a number of encoder frames, of
-- 0.04 s each; the mean of `f32` confidences is a parameter.
pub mod Text
pub mod Times
pub mod Vocab
pub mod Load
mod Tests
use monnok_gigastt.Base.{
  ℕ, zero, suc, ◌+◌, Bool, true, false, ◌&&◌, ◌||◌, not, leb, ◌==◌, if◌then◌else◌, Option, none,
  some, List, [], ◌∷◌, ◌++◌, get_elem?,
}
use monnok_gigastt.Decode.{TokenInfo, is_empty}

abbrev pub Text : Type 0
Text = List ℕ

-- U+2581, which begins a word.
abbrev pub boundary_mark : ℕ
boundary_mark = 0x2581

abbrev pub text_eq : Text → Text → Bool
text_eq [] [] = true
text_eq [] (d ∷ t) = false
text_eq (c ∷ s) [] = false
text_eq (c ∷ s) (d ∷ t) = (c == d) && text_eq s t

abbrev pub blk_text : Text
blk_text = b'<' ∷ b'b' ∷ b'l' ∷ b'k' ∷ b'>' ∷ []

abbrev pub unk_text : Text
unk_text = b'<' ∷ b'u' ∷ b'n' ∷ b'k' ∷ b'>' ∷ []

abbrev pub shown : Option Text → Text
shown none = []
shown (some t) = if text_eq t blk_text || text_eq t unk_text then [] else t

-- `Tokenizer::token_text`: empty for an id out of range and for the special tokens.
unfoldable pub token_text : List Text → ℕ → Text
token_text tokens id = shown (get_elem? tokens id)

abbrev pub is_boundary : Text → Bool
is_boundary [] = false
is_boundary (c ∷ t) = c == boundary_mark

-- `strip_prefix('\u{2581}')`, or the text itself.
unfoldable pub clean : Text → Text
clean [] = []
clean (c ∷ t) = if c == boundary_mark then t else c ∷ t

pub record WordInfo : Type 0 where
  pub word : Text
  pub start : ℕ
  pub end : ℕ
  pub confidence : ℕ
  pub speaker : Option ℕ

-- The variables of the loop of `tokens_to_words`.
pub record Group : Type 0 where
  pub current_word : Text
  pub word_start_frame : Option ℕ
  pub word_end_frame : ℕ
  pub word_confidences : List ℕ

abbrev pub or_zero : Option ℕ → ℕ
or_zero none = 0
or_zero (some n) = n

abbrev pub or_frame : Option ℕ → ℕ → Option ℕ
or_frame none n = some n
or_frame (some m) n = some m

abbrev pub no_group : Group
no_group = record {
  current_word = [];
  word_start_frame = none;
  word_end_frame = 0;
  word_confidences = [];
}

-- The tokenizer's texts, the mean of the confidences with the bits of 1.0 for none, and the offset.
module _ (tokens : List Text) (mean : List ℕ → ℕ) (frame_offset : ℕ) where
  unfoldable pub emit : Group → WordInfo
  emit g = record {
    word = g.current_word;
    start = or_zero g.word_start_frame + frame_offset;
    end = g.word_end_frame + frame_offset;
    confidence = if is_empty g.word_confidences then 0x3f80_0000 else mean g.word_confidences;
    speaker = none;
  }

  -- Whether the token ends the word before it.
  unfoldable pub ends_word : Group → TokenInfo → Bool
  ends_word g t = is_boundary (token_text tokens t.token_id) && not (is_empty g.current_word)

  unfoldable pub cleared : Group → TokenInfo → Group
  cleared g t =
      if ends_word g t
      then record g { current_word = []; word_start_frame = none; word_confidences = [] }
      else g

  unfoldable pub extended : Group → TokenInfo → Text → Group
  extended g t [] = g
  extended g t (c ∷ s) = record g {
    current_word = g.current_word ++ (c ∷ s);
    word_start_frame = or_frame g.word_start_frame t.frame_index;
    word_end_frame = t.frame_index;
    word_confidences = g.word_confidences ++ (t.confidence ∷ []);
  }

  -- The group after a token.
  unfoldable pub after_token : Group → TokenInfo → Group
  after_token g t = extended (cleared g t) t (clean (token_text tokens t.token_id))

  unfoldable pub words_from : Group → List TokenInfo → List WordInfo
  words_from g [] = if is_empty g.current_word then [] else emit g ∷ []
  words_from g (t ∷ ts) =
      let rest = words_from (after_token g t) ts in if ends_word g t then emit g ∷ rest else rest

  unfoldable pub tokens_to_words : List TokenInfo → List WordInfo
  tokens_to_words [] = []
  tokens_to_words (t ∷ ts) = words_from no_group (t ∷ ts)
