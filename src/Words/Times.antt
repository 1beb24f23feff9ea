-- ===== src/Words/Times.antt =====
-- The times of the words of `tokens_to_words` (src/inference/mod.rs).
use monnok_gigastt.Base.{
  ℕ, ◌+◌, ◌≤◌, ◌≡◌, refl, subst, true, false, ◌⊎◌, inl, inr, Bool-cases, if◌then◌else◌, none, some,
  List, [], ◌∷◌, ◌++◌, arith,
}
use monnok_gigastt.Decode.{TokenInfo, is_empty}
use monnok_gigastt.Words.Text.{ends_word-spelled}
use monnok_gigastt.Words.{
  Text, WordInfo, Group, no_group, emit, ends_word, cleared, extended, after_token, words_from,
  tokens_to_words,
}

-- The tokens' frames ascend from `m` on.
abbrev pub From : ℕ → List TokenInfo → Type 0
From m [] = Unit {0}
From m (t ∷ ts) = (m ≤ t.frame_index) × From t.frame_index ts

-- Each word ends after it starts, and starts no earlier than the one before it ends.
abbrev pub Ordered : ℕ → List WordInfo → Type 0
Ordered b [] = Unit {0}
Ordered b (w ∷ ws) = (b ≤ w.start) × (w.start ≤ w.end) × Ordered w.end ws

Ordered-mono : (b b' : ℕ) (ws : List WordInfo) → b' ≤ b → Ordered b ws → Ordered b' ws
Ordered-mono b b' [] h o = tt
Ordered-mono b b' (w ∷ ws) h o = (omega arith, o.1, o.2)

-- The group before a token at the frame `m` or later: empty, or begun at `lo` or later.
abbrev Begun : ℕ → ℕ → Group → Type 0
Begun lo m g =
    ((is_empty g.current_word ≡ true) × (g.word_start_frame ≡ none))
    ⊎ ((s : ℕ) × (is_empty g.current_word ≡ false)
        × (g.word_start_frame ≡ some s)
        × (lo ≤ s)
        × (s ≤ g.word_end_frame)
        × (g.word_end_frame ≤ m))

is_empty-append : (s : Text) (c : ℕ) (s' : Text) → is_empty (s ++ (c ∷ s')) ≡ false
is_empty-append [] c s' = refl
is_empty-append (d ∷ s) c s' = refl

module _ (tokens : List Text) (mean : List ℕ → ℕ) (frame_offset : ℕ) where
  extended-Begun :
      (lo m : ℕ) (g : Group) (t : TokenInfo) (s : Text)
      → lo ≤ m
      → m ≤ t.frame_index
      → Begun lo m g
      → Begun lo t.frame_index (extended tokens mean frame_offset g t s)
  unfolding extended
  extended-Begun lo m g t [] h k b = ground arith
  extended-Begun lo m g t (c ∷ s) h k b = ground (arith, is_empty-append g.current_word c s)

  after_token-Begun :
      (lo m : ℕ) (g : Group) (t : TokenInfo)
      → lo ≤ m
      → m ≤ t.frame_index
      → Begun lo m g
      → Begun
          (if ends_word tokens mean frame_offset g t then m else lo)
          t.frame_index
          (after_token tokens mean frame_offset g t)
  unfolding after_token cleared
  after_token-Begun lo m g t h k b = elim (Bool-cases (ends_word tokens mean frame_offset g t)) [
    | inl e ↦ rw e (
        extended-Begun m m
          (record g { current_word = []; word_start_frame = none; word_confidences = [] }) t _
          (omega arith) k (inl (refl, refl)))
    | inr e ↦ rw e (extended-Begun lo m g t _ h k b)
  ]

  emitted :
      (lo m : ℕ) (g : Group) (rest : List WordInfo)
      → is_empty g.current_word ≡ false
      → Begun lo m g
      → Ordered (m + frame_offset) rest
      → Ordered (lo + frame_offset) (emit tokens mean frame_offset g ∷ rest)
  unfolding emit
  emitted lo m g rest e b o =
      ground (arith, Ordered-mono (m + frame_offset) (g.word_end_frame + frame_offset) rest)

  words_from-Ordered :
      (lo m : ℕ) (g : Group) (ts : List TokenInfo)
      → lo ≤ m
      → From m ts
      → Begun lo m g
      → Ordered (lo + frame_offset) (words_from tokens mean frame_offset g ts)
  unfolding words_from emit
  words_from-Ordered lo m g [] h f b = ground arith
  words_from-Ordered lo m g (t ∷ ts) h f b =
      let g' = after_token tokens mean frame_offset g t in
      let rest = words_from tokens mean frame_offset g' ts in
      let next = after_token-Begun lo m g t h f.0 b in
      elim (Bool-cases (ends_word tokens mean frame_offset g t)) [
        | inl e ↦
            let ordered =
              words_from-Ordered m t.frame_index g' ts f.0 f.1
                (subst (λ x. Begun (if x then m else lo) t.frame_index g') e next) in
            rw e (emitted lo m g rest (ends_word-spelled tokens mean frame_offset g t e) b ordered)
        | inr e ↦ rw e (
            words_from-Ordered lo t.frame_index g' ts (omega arith) f.1
              (subst (λ x. Begun (if x then m else lo) t.frame_index g') e next))
      ]

  -- Where the tokens' frames ascend, each word starts no earlier than the one before it ends, and ends no
  -- earlier than it starts; all words start at the offset or later.
  pub tokens_to_words-Ordered :
      (ts : List TokenInfo)
      → From 0 ts
      → Ordered frame_offset (tokens_to_words tokens mean frame_offset ts)
  unfolding tokens_to_words
  tokens_to_words-Ordered [] f = tt
  tokens_to_words-Ordered (t ∷ ts) f =
      Ordered-mono (0 + frame_offset) frame_offset
        (words_from tokens mean frame_offset no_group (t ∷ ts)) (omega arith)
        (words_from-Ordered 0 0 no_group (t ∷ ts) (omega arith) f (inl (refl, refl)))
