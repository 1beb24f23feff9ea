-- ===== src/Stream/Scripted.antt =====
-- An engine with made-up models, for concrete runs of the stream and of the sessions: the encoder gives
-- no frame where it hears zeros, and else one, in which the joiner finds token 1 and then blanks.
use monnok_gigastt.Base.{ℕ, true, ◌==◌, if◌then◌else◌, Option, none, some, List, [], ◌∷◌, replicate}
use monnok_gigastt.Decode.{DecoderOutput}
use monnok_gigastt.Words.{boundary_mark}
use monnok_gigastt.Stream.{Engine}

abbrev decoder : ℕ → List ℕ → List ℕ → Option DecoderOutput
decoder token h c = some (record { dec_data = token ∷ []; new_h = h; new_c = c })

abbrev joiner : List ℕ → List ℕ → Option (List ℕ)
joiner frame [] = none
joiner frame (d ∷ ds) = some (if d == 0 then 0 ∷ 5 ∷ [] else 5 ∷ 0 ∷ [])

abbrev encoder : List ℕ → ℕ → Option (List ℕ × ℕ)
encoder [] frames = none
encoder (x ∷ xs) frames = some (if x == 0 then ([], 0) else (replicate 768 0, 1))

abbrev pub scripted : Engine ℕ ℕ
scripted = record {
  encode = encoder;
  run_decoder = decoder;
  run_joiner = joiner;
  softmax_confidence = λ logits i. 0;
  blank_id = 0;
  vocabulary = (b'-' ∷ []) ∷ (boundary_mark ∷ b'a' ∷ []) ∷ [];
  mean = λ confidences. 0;
  mel = λ samples. samples;
  has_speaker_encoder = true;
  new_diarizer = 0;
  feed = λ d samples. d;
  current_speaker = λ d. some d;
}

-- A chunk of 320 samples is a whole frame.
abbrev pub silence : List ℕ
silence = replicate 320 0

abbrev pub one_frame : List ℕ
one_frame = replicate 320 7
