-- ===== src/Transcript/Segments.antt =====
-- The segments of `TranscriptAssembler` (src/inference/mod.rs) over any use of it.
use monnok_gigastt.Base.{
  ℕ, ◌≡◌, refl, sym, ◌∙◌, ap, false, if◌then◌else◌, List, [], ◌∷◌, ◌++◌, append_assoc, append-nil,
}
use monnok_gigastt.Decode.{is_empty}
use monnok_gigastt.Words.{Text, WordInfo}
use monnok_gigastt.Words.Text.{AllSpelled}
use monnok_gigastt.Transcript.{
  TranscriptAssembler, TranscriptSegment, push_words, append, finalize, partial,
}

-- The words with a space between each two.
abbrev pub tail : List WordInfo → Text
tail [] = []
tail (w ∷ ws) = b' ' ∷ (w.word ++ tail ws)

abbrev pub joined : List WordInfo → Text
joined [] = []
joined (w ∷ ws) = w.word ++ tail ws

tail-append : (us ws : List WordInfo) → tail (us ++ ws) ≡ tail us ++ tail ws
tail-append [] ws = refl
tail-append (u ∷ us) ws =
    ap (λ t. b' ' ∷ (u.word ++ t)) (tail-append us ws)
    ∙ ap (λ t. b' ' ∷ t) (sym (append_assoc u.word (tail us) (tail ws)))

push_words-tail :
    (c : ℕ) (t : Text) (ws : List WordInfo) → push_words (c ∷ t) ws ≡ (c ∷ t) ++ tail ws
unfolding push_words
push_words-tail c t [] = sym (append-nil (c ∷ t))
push_words-tail c t (w ∷ ws) =
    push_words-tail c ((t ++ (b' ' ∷ [])) ++ w.word) ws
    ∙ ap (λ s. c ∷ s)
        (append_assoc (t ++ (b' ' ∷ [])) w.word (tail ws)
          ∙ append_assoc t (b' ' ∷ []) (w.word ++ tail ws))

-- From a text that is there, and from none.
push_words-spelled :
    (t : Text) (ws : List WordInfo) → is_empty t ≡ false → push_words t ws ≡ t ++ tail ws
push_words-spelled [] ws h = cc
push_words-spelled (c ∷ t) ws h = push_words-tail c t ws

spelled-append : (s t : Text) → is_empty s ≡ false → is_empty (s ++ t) ≡ false
spelled-append [] t h = cc
spelled-append (c ∷ s) t h = refl

push_words-joined :
    (us ws : List WordInfo)
    → AllSpelled us
    → AllSpelled ws
    → push_words (joined us) ws ≡ joined (us ++ ws)
unfolding push_words
push_words-joined [] [] h k = refl
push_words-joined [] (w ∷ ws) h k = push_words-spelled w.word ws k.0
push_words-joined (u ∷ us) ws h k =
    push_words-spelled (u.word ++ tail us) ws (spelled-append u.word (tail us) h.0)
    ∙ append_assoc u.word (tail us) (tail ws)
    ∙ ap (λ t. u.word ++ t) (sym (tail-append us ws))

AllSpelled-append : (us ws : List WordInfo) → AllSpelled us → AllSpelled ws → AllSpelled (us ++ ws)
AllSpelled-append [] ws h k = k
AllSpelled-append (u ∷ us) ws h k = (h.0, AllSpelled-append us ws h.1 k)

-- The calls of the engine on an assembler.
pub data Event : Type 0 where
  heard : List WordInfo → Event
  shown : ℕ → Event
  ended : ℕ → Event

unfoldable pub run : TranscriptAssembler → List Event → List TranscriptSegment × TranscriptAssembler
run a [] = ([], a)
run a (heard ws ∷ es) = run (append a ws) es
run a (shown timestamp ∷ es) =
    let (segments, end) = run a es in (partial a timestamp ∷ segments, end)
run a (ended timestamp ∷ es) =
    let (segment, a') = finalize a timestamp in
    let (segments, end) = run a' es in (segment ∷ segments, end)

abbrev pub all_heard : List Event → List WordInfo
all_heard [] = []
all_heard (heard ws ∷ es) = ws ++ all_heard es
all_heard (shown timestamp ∷ es) = all_heard es
all_heard (ended timestamp ∷ es) = all_heard es

-- The words of the final segments.
abbrev pub final_words : List TranscriptSegment → List WordInfo
final_words [] = []
final_words (s ∷ ss) = if s.is_final then s.segment_words ++ final_words ss else final_words ss

abbrev pub AllJoined : List TranscriptSegment → Type 0
AllJoined [] = Unit {0}
AllJoined (s ∷ ss) = (s.segment_text ≡ joined s.segment_words) × AllJoined ss

abbrev pub HeardSpelled : List Event → Type 0
HeardSpelled [] = Unit {0}
HeardSpelled (heard ws ∷ es) = AllSpelled ws × HeardSpelled es
HeardSpelled (shown timestamp ∷ es) = HeardSpelled es
HeardSpelled (ended timestamp ∷ es) = HeardSpelled es

pub record IsJoined (a : TranscriptAssembler) : Type 0 where
  pub text_joined : a.text ≡ joined a.words
  pub all_spelled : AllSpelled a.words

pub append-IsJoined :
    (a : TranscriptAssembler) (ws : List WordInfo)
    → IsJoined a
    → AllSpelled ws
    → IsJoined (append a ws)
unfolding append
append-IsJoined a ws v k = record {
  text_joined = rw v.text_joined (push_words-joined a.words ws v.all_spelled k);
  all_spelled = AllSpelled-append a.words ws v.all_spelled k;
}

-- Over any calls with words that are not empty, no word is lost, doubled or moved: the words of the
-- final segments, followed by those still collected, are the words at the start followed by all
-- words that came; and the text of each segment, partial or final, is its words with a space
-- between each two.
pub run-AllJoined :
    (a : TranscriptAssembler) (es : List Event)
    → IsJoined a
    → HeardSpelled es
    → let (segments, end) = run a es in
      (final_words segments ++ end.words ≡ a.words ++ all_heard es)
      × AllJoined segments
      × IsJoined end
unfolding run partial finalize append
run-AllJoined a [] v h = (sym (append-nil a.words), tt, v)
run-AllJoined a (heard ws ∷ es) v h =
    let (e, all, end) = run-AllJoined (append a ws) es (append-IsJoined a ws v h.0) h.1 in
    (e ∙ append_assoc a.words ws (all_heard es), all, end)
run-AllJoined a (shown timestamp ∷ es) v h =
    let (e, all, end) = run-AllJoined a es v h in (e, (v.text_joined, all), end)
run-AllJoined a (ended timestamp ∷ es) v h =
    let a' : TranscriptAssembler = record { text = []; words = [] } in
    let (e, all, end) = run-AllJoined a' es (record { text_joined = refl; all_spelled = tt }) h in
    (
      append_assoc a.words (final_words (run a' es).0) (run a' es).1.words
          ∙ ap (λ ws. a.words ++ ws) e,
      (v.text_joined, all),
      end,
    )
