-- ===== src/Decode/Tests.antt =====
-- A decoding of two frames with made-up models (src/inference/decode.rs).
use monnok_gigastt.Base.{
  ℕ, zero, suc, ◌*◌, ◌≡◌, refl, ◌==◌, if◌then◌else◌, Option, none, some, List, [], ◌∷◌, arith,
  replicate, length,
}
use monnok_gigastt.Decode.{
  DecoderOutput, decoder_state_new, decode_now, decode_by, greedy_decode, pred_hidden,
}
use monnok_gigastt.Decode.Cache.{greedy_decode-direct}
use monnok_gigastt.Decode.Sound.{IsShaped, Good}
use monnok_gigastt.Decode.Tokens.{greedy_decode-Good}

-- A decoder that shows the last token, and keeps its state.
abbrev decoder : ℕ → List ℕ → List ℕ → Option DecoderOutput
decoder token h c = some (record { dec_data = token ∷ []; new_h = h; new_c = c })

-- A joiner that says token 1 once, and then the blank 0.
abbrev joiner : List ℕ → List ℕ → Option (List ℕ)
joiner frame [] = none
joiner frame (d ∷ ds) = some (if d == 0 then 0 ∷ 5 ∷ [] else 5 ∷ 0 ∷ [])

abbrev confidence : List ℕ → ℕ → ℕ
confidence logits i = 0

abbrev two_frames : List ℕ
two_frames = replicate (768 * 2) 0

greedy_decode-direct_example :
    greedy_decode decoder joiner confidence 0 two_frames 2 (decoder_state_new 0)
    ≡ decode_by decoder joiner confidence 0
        (decode_now decoder joiner confidence 0)
        two_frames
        2
        (decoder_state_new 0)
greedy_decode-direct_example =
    greedy_decode-direct decoder joiner confidence 0 two_frames 2 (decoder_state_new 0)

length-replicate : (n x : ℕ) → length (replicate n x) ≡ n
length-replicate zero x = refl
length-replicate (suc n) x = omega (arith, length-replicate n x)

decoder_state_new-IsShaped : IsShaped (decoder_state_new 0)
unfolding decoder_state_new
decoder_state_new-IsShaped = record {
  h_len = length-replicate pred_hidden 0;
  c_len = length-replicate pred_hidden 0;
}

greedy_decode-Good_example :
    Good 0 2 20 (greedy_decode decoder joiner confidence 0 two_frames 2 (decoder_state_new 0))
greedy_decode-Good_example =
    greedy_decode-Good decoder joiner confidence 0 two_frames 2 (decoder_state_new 0)
      decoder_state_new-IsShaped
