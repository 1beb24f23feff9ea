-- ===== src/Words/Text.antt =====
-- The words of `tokens_to_words` (src/inference/mod.rs) spell what the tokens spell.
use monnok_gigastt.Base.{
  ℕ, ◌≡◌, refl, sym, ◌∙◌, ap, true, false, inl, inr, Bool-cases, if◌then◌else◌, List, [], ◌∷◌, ◌++◌,
  append_assoc, append-nil, arith,
}
use monnok_gigastt.Decode.{TokenInfo, is_empty}
use monnok_gigastt.Words.{
  Text, token_text, clean, WordInfo, Group, no_group, emit, ends_word, cleared, extended,
  after_token, words_from, tokens_to_words,
}

abbrev pub spelled : List WordInfo → Text
spelled [] = []
spelled (w ∷ ws) = w.word ++ spelled ws

-- What the tokens say, without the marks.
abbrev pub said : List Text → List TokenInfo → Text
said tokens [] = []
said tokens (t ∷ ts) = clean (token_text tokens t.token_id) ++ said tokens ts

abbrev pub AllSpelled : List WordInfo → Type 0
AllSpelled [] = Unit {0}
AllSpelled (w ∷ ws) = (is_empty w.word ≡ false) × AllSpelled ws

is_empty-nil : (s : Text) → is_empty s ≡ true → s ≡ []
is_empty-nil [] h = refl
is_empty-nil (c ∷ s) h = cc

module _ (tokens : List Text) (mean : List ℕ → ℕ) (frame_offset : ℕ) where
  extended_word :
      (g : Group) (t : TokenInfo) (s : Text)
      → (extended tokens mean frame_offset g t s).current_word ≡ g.current_word ++ s
  unfolding extended
  extended_word g t [] = sym (append-nil _)
  extended_word g t (c ∷ s) = refl

  -- What a token adds, to an empty word where it has ended the one before.
  after_token_word :
      (g : Group) (t : TokenInfo)
      → (after_token tokens mean frame_offset g t).current_word ≡ (
          if ends_word tokens mean frame_offset g t
          then clean (token_text tokens t.token_id)
          else g.current_word ++ clean (token_text tokens t.token_id))
  unfolding after_token cleared
  after_token_word g t = elim (Bool-cases (ends_word tokens mean frame_offset g t)) [
    | inl e ↦ rw (e, extended_word)
    | inr e ↦ rw (e, extended_word)
  ]

  pub ends_word-spelled :
      (g : Group) (t : TokenInfo)
      → ends_word tokens mean frame_offset g t ≡ true
      → is_empty g.current_word ≡ false
  unfolding ends_word
  ends_word-spelled g t e = ground arith

  words_from-said :
      (g : Group) (ts : List TokenInfo)
      → (spelled (words_from tokens mean frame_offset g ts) ≡ g.current_word ++ said tokens ts)
        × AllSpelled (words_from tokens mean frame_offset g ts)
  unfolding words_from emit
  words_from-said g [] = elim (Bool-cases (is_empty g.current_word)) [
    | inl e ↦ rw e (rw (is_empty-nil g.current_word e), tt)
    | inr e ↦ rw e (refl, (e, tt))
  ]
  words_from-said g (t ∷ ts) =
      let (ih, full) = words_from-said (after_token tokens mean frame_offset g t) ts in
      let word = after_token_word g t in
      elim (Bool-cases (ends_word tokens mean frame_offset g t)) [
        | inl e ↦ rw e (
          ap (λ s. g.current_word ++ s) (ih ∙ ap (λ s. s ++ said tokens ts) (rw e at word)),
          (ends_word-spelled g t e, full),
        )
        | inr e ↦ rw e (
          ih
              ∙ ap (λ s. s ++ said tokens ts) (rw e at word)
              ∙ append_assoc g.current_word (clean (token_text tokens t.token_id)) (said tokens ts),
          full,
        )
      ]

  -- The words, put together without spaces, are the tokens' texts, put together without the marks; and no
  -- word is empty.
  pub tokens_to_words-said :
      (ts : List TokenInfo)
      → (spelled (tokens_to_words tokens mean frame_offset ts) ≡ said tokens ts)
        × AllSpelled (tokens_to_words tokens mean frame_offset ts)
  unfolding tokens_to_words
  tokens_to_words-said [] = (refl, tt)
  tokens_to_words-said (t ∷ ts) = words_from-said no_group (t ∷ ts)
