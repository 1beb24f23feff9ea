-- ===== src/Words/Vocab.antt =====
-- `Tokenizer::load` and `decode` of src/inference/tokenizer.rs. The file is its text, or `none` where it
-- cannot be read. A release build is modelled, where the subtraction of `usize` wraps around.
use monnok_gigastt.Base.{
  ℕ, suc, ◌+◌, ◌-◌, ◌*◌, ◌^◌, ◌%◌, Bool, true, false, ◌&&◌, ◌||◌, leb, ltb, ◌==◌, if◌then◌else◌,
  Option, none, some, List, [], ◌∷◌, ◌++◌, get_elem?, length, map,
}
use monnok_gigastt.Decode.{is_empty}
use monnok_gigastt.Words.{Text, text_eq, blk_text, unk_text, boundary_mark}

pub record Tokenizer : Type 0 where
  pub tokens : List Text
  pub blank_id : ℕ

abbrev pub on_first : ℕ → List (Text × Bool) → List (Text × Bool)
on_first c [] = (c ∷ [], false) ∷ []
on_first c ((l, ended) ∷ ls) = (c ∷ l, ended) ∷ ls

-- The lines, and whether a line feed ends them.
abbrev pub split_lines : Text → List (Text × Bool)
split_lines [] = []
split_lines (c ∷ t) = if c == 10 then ([], true) ∷ split_lines t else on_first c (split_lines t)

abbrev pub strip_cr : Text → Text
strip_cr [] = []
strip_cr (c ∷ []) = if c == 13 then [] else c ∷ []
strip_cr (c ∷ d ∷ l) = c ∷ strip_cr (d ∷ l)

abbrev pub line_of : Text × Bool → Text
line_of (l, true) = strip_cr l
line_of (l, false) = l

-- `str::lines`
unfoldable pub lines : Text → List Text
lines t = map line_of (split_lines t)

abbrev pub is_digit : ℕ → Bool
is_digit c = leb b'0' c && leb c b'9'

abbrev pub checked : ℕ → (ℕ → Option ℕ) → Option ℕ
checked n k = if ltb n (2 ^ 64) then k n else none

unfoldable pub parse_digits : Text → ℕ → Option ℕ
parse_digits [] n = some n
parse_digits (c ∷ t) n = if is_digit c then checked (10 * n + (c - b'0')) (parse_digits t) else none

abbrev pub after_plus : Text → Option ℕ
after_plus [] = none
after_plus (c ∷ t) = parse_digits (c ∷ t) 0

-- `parse::<usize>`
unfoldable pub parse_usize : Text → Option ℕ
parse_usize [] = none
parse_usize (c ∷ t) = if c == b'+' then after_plus t else parse_digits (c ∷ t) 0

abbrev pub is_some : Option ℕ → Bool
is_some none = false
is_some (some n) = true

abbrev pub is_separator : ℕ → Bool
is_separator c = (c == 9) || (c == b' ')

abbrev pub before_last : ℕ → Text → Option (Text × Text) → Option (Text × Text)
before_last c t none = if is_separator c then some ([], t) else none
before_last c t (some (before, after)) = some (c ∷ before, after)

-- `rfind(['\t', ' '])`: what is before and after the last one.
unfoldable pub split_last : Text → Option (Text × Text)
split_last [] = none
split_last (c ∷ t) = before_last c t (split_last t)

-- `char::is_whitespace`
unfoldable pub is_white : ℕ → Bool
is_white c =
    (leb 9 c && leb c 13)
    || (c == 32)
    || (c == 0x85)
    || (c == 0xa0)
    || (c == 0x1680)
    || (leb 0x2000 c && leb c 0x200a)
    || (c == 0x2028)
    || (c == 0x2029)
    || (c == 0x202f)
    || (c == 0x205f)
    || (c == 0x3000)

unfoldable pub trim_start : Text → Text
trim_start [] = []
trim_start (c ∷ t) = let rest = trim_start t in if is_white c then rest else c ∷ t

unfoldable pub trim_end : Text → Text
trim_end [] = []
trim_end (c ∷ t) = let rest = trim_end t in if is_empty rest && is_white c then [] else c ∷ rest

unfoldable pub trim : Text → Text
unfolding trim_start trim_end
trim t = trim_end (trim_start t)

abbrev pub without_id : Text → Option (Text × Text) → Text
without_id line none = line
without_id line (some (before, after)) = if is_some (parse_usize (trim after)) then before else line

unfoldable pub token_of_line : Text → Text
token_of_line line = without_id line (split_last line)

-- The loop over the lines.
unfoldable pub tokens_of_lines : List Text → List Text
tokens_of_lines [] = []
tokens_of_lines (line ∷ ls) =
    let rest = tokens_of_lines ls in
    if is_empty line
    then rest
    else if is_some (parse_usize line)
    then rest
    else token_of_line line ∷ rest

abbrev pub shifted : Option ℕ → Option ℕ
shifted none = none
shifted (some n) = some (suc n)

-- `position(|t| t == "<blk>")`
unfoldable pub blank_position : List Text → Option ℕ
blank_position [] = none
blank_position (t ∷ ts) =
    let rest = blank_position ts in if text_eq t blk_text then some 0 else shifted rest

abbrev pub unwrap_or : ℕ → Option ℕ → ℕ
unwrap_or d none = d
unwrap_or d (some n) = n

unfoldable pub blank_of : List Text → ℕ
blank_of tokens = unwrap_or ((length tokens + 2 ^ 64 - 1) % 2 ^ 64) (blank_position tokens)

unfoldable pub load : Option Text → Option Tokenizer
load none = none
load (some content) =
    let tokens = tokens_of_lines (lines content) in
    some (record { tokens = tokens; blank_id = blank_of tokens })

abbrev pub shown_token : Option Text → Text
shown_token none = []
shown_token (some t) = if text_eq t unk_text then [] else t

-- The loop of `decode`: the blank, ids out of range and `<unk>` are skipped.
unfoldable pub push_tokens : Tokenizer → List ℕ → Text
push_tokens tok [] = []
push_tokens tok (id ∷ ids) =
    (if id == tok.blank_id then [] else shown_token (get_elem? tok.tokens id))
    ++ push_tokens tok ids

abbrev pub with_spaces : Text → Text
with_spaces t = map (λ c. if c == boundary_mark then 32 else c) t

unfoldable pub decode : Tokenizer → List ℕ → Text
decode tok ids = trim (with_spaces (push_tokens tok ids))
