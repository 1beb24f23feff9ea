-- ===== src/Words/Load.antt =====
-- What `Tokenizer::load` of src/inference/tokenizer.rs makes of a vocabulary file.
use monnok_gigastt.Base.{
  ℕ, suc, ◌+◌, ◌-◌, ◌*◌, ◌^◌, ◌<◌, ◌≡◌, ◌≢◌, refl, ap, Bool, true, false, ◌&&◌, ltb, ◌==◌,
  if◌then◌else◌, none, some, List, [], ◌∷◌, ◌++◌, get_elem?, length, arith, Bool-cases, ◌⊎◌, inl,
  inr, ==-false,
}
use monnok_gigastt.Decode.{is_empty}
use monnok_gigastt.Words.{Text, text_eq, blk_text}
use monnok_gigastt.Metrics.Slots.{text_eq-IsEquality}
use monnok_gigastt.Words.Vocab.{
  split_lines, strip_cr, lines, is_digit, parse_digits, after_plus, parse_usize, is_some,
  is_separator, split_last, is_white, trim_start, trim_end, trim, token_of_line, tokens_of_lines,
  blank_position, blank_of, load,
}

-- A vocabulary file: each token with the text of its id, after a tab.
abbrev pub render : List (Text × Text) → Text
render [] = []
render ((token, id) ∷ es) = (token ++ (9 ∷ id)) ++ (10 ∷ render es)

abbrev pub HasNoLineFeed : Text → Type 0
HasNoLineFeed [] = Unit
HasNoLineFeed (c ∷ t) = (c ≢ 10) × HasNoLineFeed t

abbrev pub HasDigits : Text → Type 0
HasDigits [] = Unit
HasDigits (c ∷ t) = (is_digit c ≡ true) × HasDigits t

-- The token is on one line, and the id is made of digits and fits 64 bits.
abbrev pub AllEntries : List (Text × Text) → Type 0
AllEntries [] = Unit
AllEntries ((token, id) ∷ es) =
    (HasNoLineFeed token × HasDigits id × (is_some (parse_usize id) ≡ true)) × AllEntries es

split_lines-line :
    (l rest : Text)
    → HasNoLineFeed l
    → split_lines (l ++ (10 ∷ rest)) ≡ (l, true) ∷ split_lines rest
split_lines-line [] rest h = refl
split_lines-line (c ∷ l) rest (n, h) = rw (==-false c 10 n, split_lines-line l rest h) refl

HasNoLineFeed-append : (s t : Text) → HasNoLineFeed s → HasNoLineFeed t → HasNoLineFeed (s ++ t)
HasNoLineFeed-append [] t h k = k
HasNoLineFeed-append (c ∷ s) t (n, h) k = (n, HasNoLineFeed-append s t h k)

HasNoLineFeed-digits : (t : Text) → HasDigits t → HasNoLineFeed t
HasNoLineFeed-digits [] h = tt
HasNoLineFeed-digits (c ∷ t) (d, h) = (λ e. ground arith, HasNoLineFeed-digits t h)

strip_cr-digits : (c : ℕ) (t : Text) → (c == 13) ≡ false → HasDigits t → strip_cr (c ∷ t) ≡ c ∷ t
strip_cr-digits c [] n h = rw n refl
strip_cr-digits c (d ∷ t) n (e, h) = ap (λ s. c ∷ s) (strip_cr-digits d t (ground arith) h)

strip_cr-entry : (s t : Text) → HasDigits t → strip_cr (s ++ (9 ∷ t)) ≡ s ++ (9 ∷ t)
strip_cr-entry [] t h = strip_cr-digits 9 t refl h
strip_cr-entry (c ∷ []) t h = ap (λ s. c ∷ s) (strip_cr-entry [] t h)
strip_cr-entry (c ∷ d ∷ s) t h = ap (λ s. c ∷ s) (strip_cr-entry (d ∷ s) t h)

-- A tab makes a line no number.
parse_digits-tab : (s t : Text) (n : ℕ) → parse_digits (s ++ (9 ∷ t)) n ≡ none
unfolding parse_digits
parse_digits-tab [] t n = refl
parse_digits-tab (c ∷ s) t n = elim (Bool-cases (is_digit c)) [
  | inr e ↦ rw e refl
  | inl e ↦ rw e (elim (Bool-cases (ltb (10 * n + (c - b'0')) (2 ^ 64))) [
    | inl f ↦ rw f (parse_digits-tab s t (10 * n + (c - b'0')))
    | inr f ↦ rw f refl
  ])
]

parse_usize-tab : (s t : Text) → parse_usize (s ++ (9 ∷ t)) ≡ none
unfolding parse_usize
parse_usize-tab [] t = parse_digits-tab [] t 0
parse_usize-tab (c ∷ s) t = elim (Bool-cases (c == b'+')) [
  | inr e ↦ rw e (parse_digits-tab (c ∷ s) t 0)
  | inl e ↦ rw e (after s)
]
  where
    after : (s : Text) → after_plus (s ++ (9 ∷ t)) ≡ none
    after [] = parse_digits-tab [] t 0
    after (d ∷ s) = parse_digits-tab (d ∷ s) t 0

split_last-digits : (t : Text) → HasDigits t → split_last t ≡ none
unfolding split_last
split_last-digits [] h = refl
split_last-digits (c ∷ t) (d, h) = rw (split_last-digits t h, digit-separator c d) refl
  where
    digit-separator : (c : ℕ) → is_digit c ≡ true → is_separator c ≡ false
    digit-separator c d = ground arith

split_last-entry : (s t : Text) → HasDigits t → split_last (s ++ (9 ∷ t)) ≡ some (s, t)
unfolding split_last
split_last-entry [] t h = rw (split_last-digits t h) refl
split_last-entry (c ∷ s) t h = rw (split_last-entry s t h) refl

is_white-digit : (c : ℕ) → is_digit c ≡ true → is_white c ≡ false
unfolding is_white
is_white-digit c d = ground arith

trim-digits : (t : Text) → HasDigits t → trim t ≡ t
unfolding trim trim_start
trim-digits [] h = unfold trim_end in refl
trim-digits (c ∷ t) (d, h) = rw (is_white-digit c d) (trim_end-digits (c ∷ t) (d, h))
  where
    trim_end-digits : (t : Text) → HasDigits t → trim_end t ≡ t
    trim_end-digits [] h = refl
    trim_end-digits (c ∷ t) (d, h) =
        rw (trim_end-digits t h, is_white-digit c d) (not_both (is_empty t))
      where
        not_both : (b : Bool) → (if b && false then [] else c ∷ t) ≡ c ∷ t
        not_both true = refl
        not_both false = refl

token_of_line-entry :
    (s t : Text) → HasDigits t → is_some (parse_usize t) ≡ true → token_of_line (s ++ (9 ∷ t)) ≡ s
unfolding token_of_line
token_of_line-entry s t h k = rw (split_last-entry s t h, trim-digits t h, k) refl

is_empty-tab : (s t : Text) → is_empty (s ++ (9 ∷ t)) ≡ false
is_empty-tab [] t = refl
is_empty-tab (c ∷ s) t = refl

abbrev pub texts : List (Text × Text) → List Text
texts [] = []
texts ((token, id) ∷ es) = token ∷ texts es

tokens_of_lines-render :
    (es : List (Text × Text)) → AllEntries es → tokens_of_lines (lines (render es)) ≡ texts es
unfolding tokens_of_lines lines
tokens_of_lines-render [] h = refl
tokens_of_lines-render ((token, id) ∷ es) ((n, d, k), h) =
    rw
      (
        split_lines-line (token ++ (9 ∷ id)) (render es)
            (HasNoLineFeed-append token (9 ∷ id) n (λ e. ground arith, HasNoLineFeed-digits id d)),
        strip_cr-entry token id d,
        is_empty-tab token id,
        parse_usize-tab token id,
        token_of_line-entry token id d k,
        tokens_of_lines-render es h,
      )
      refl

-- A vocabulary that is written with each token and the digits of its id on a line of its own, a tab
-- between them, is loaded with exactly its tokens, in order, even where tokens hold tabs, spaces or
-- digits, as long as no token has a line feed and each id fits 64 bits.
pub load-render :
    (es : List (Text × Text))
    → AllEntries es
    → load (some (render es)) ≡ some (record { tokens = texts es; blank_id = blank_of (texts es) })
unfolding load
load-render es h = rw (tokens_of_lines-render es h) refl

-- The first `<blk>`, or no `<blk>` at all.
blank_position_lem :
    (ts : List Text)
    → ((n : ℕ) × (blank_position ts ≡ some n) × (n < length ts) × (get_elem? ts n ≡ some blk_text))
      ⊎ (blank_position ts ≡ none)
unfolding blank_position
blank_position_lem [] = inr refl
blank_position_lem (t ∷ ts) = elim (Bool-cases (text_eq t blk_text)) [
  | inl e ↦ rw e (inl (0, refl, omega arith, ap some (text_eq-IsEquality.sound_eq t blk_text e)))
  | inr e ↦ rw e (elim (blank_position_lem ts) [
    | inl (n, k, l, g) ↦ rw k (inl (suc n, refl, omega arith, g))
    | inr k ↦ rw k (inr refl)
  ])
]

-- The blank of a vocabulary that is not empty, and has less than 2^64 tokens, is one of its tokens: a
-- `<blk>`, or, where no token is found to be one, the last.
pub blank_of_lem :
    (t : Text) (ts : List Text)
    → length (t ∷ ts) < 2 ^ 64
    → (blank_of (t ∷ ts) < length (t ∷ ts))
      × ((get_elem? (t ∷ ts) (blank_of (t ∷ ts)) ≡ some blk_text)
          ⊎ (blank_position (t ∷ ts) ≡ none) × (blank_of (t ∷ ts) ≡ length ts))
unfolding blank_of
blank_of_lem t ts h = elim (blank_position_lem (t ∷ ts)) [
  | inl (n, e, l, g) ↦ rw e (l, inl g)
  | inr e ↦ rw e (omega arith, inr (refl, omega arith))
]
