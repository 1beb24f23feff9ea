-- ===== src/Stream/Decided.antt =====
-- What `run_inference` of src/inference/mod.rs gives: words that are not empty, or an error from outside.
use monnok_gigastt.Base.{ℕ, ◌*◌, ◌≢◌, ◌^◌, inl, inr, Bool-cases, ltb, Option, none, some, List, []}
use monnok_gigastt.Decode.{
  DecoderState, DecodeError, panic, out_of_fuel, Outcome, ok, err, Loop, max_tokens_per_step,
}
use monnok_gigastt.Decode.Sound.{IsShaped, Good}
use monnok_gigastt.Decode.Tokens.{greedy_decode-Good}
use monnok_gigastt.Words.{WordInfo}
use monnok_gigastt.Words.Text.{AllSpelled, tokens_to_words-said}
use monnok_gigastt.Stream.{
  Engine, InferenceError, decoding, Inferred, inferred, failed, decoded, encoded, run_inference,
}

-- An error of the models or of their output, not of the code's own indexing.
pub record IsForeign (er : InferenceError) : Type 0 where
  pub no_panic : er ≢ decoding panic
  pub no_fuel : er ≢ decoding out_of_fuel

abbrev pub IsDecided : Inferred → Type 0
IsDecided (inferred ws endpoint d) = IsShaped d × AllSpelled ws
IsDecided (failed er d) = IsShaped d × IsForeign er

abbrev pub words_of : Inferred → List WordInfo
words_of (inferred ws endpoint d) = ws
words_of (failed er d) = []

decoding-inj : (a b : DecodeError) → a ≢ b → decoding a ≢ decoding b
decoding-inj a b ne h = ne (cc)

module _ {R D : Type 0} where
  decoded-IsDecided :
      (e : Engine R D) (frame_offset hi count : ℕ) (o : Outcome Loop)
      → Good e.blank_id hi count o
      → IsDecided (decoded e frame_offset o)
  decoded-IsDecided e frame_offset hi count (ok l) g =
      (g.0.shaped, (tokens_to_words-said e.vocabulary e.mean frame_offset l.tokens).1)
  decoded-IsDecided e frame_offset hi count (err er s) g = (
    g.2,
    record { no_panic = decoding-inj er panic g.0; no_fuel = decoding-inj er out_of_fuel g.1 },
  )

  encoded-IsDecided :
      (e : Engine R D) (s : DecoderState) (frame_offset : ℕ) (o : Option (List ℕ × ℕ))
      → IsShaped s
      → IsDecided (encoded e s frame_offset o)
  encoded-IsDecided e s frame_offset none v = (v, record { no_panic = λ h. cc; no_fuel = λ h. cc })
  encoded-IsDecided e s frame_offset (some (enc_data, len)) v =
      elim (Bool-cases (ltb len (2 ^ 31))) [
        | inl b ↦ rw b (
            decoded-IsDecided e frame_offset len (max_tokens_per_step * len) _ (
              greedy_decode-Good e.run_decoder e.run_joiner e.softmax_confidence e.blank_id enc_data
                len s v))
        | inr b ↦ rw b (v, record { no_panic = λ h. cc; no_fuel = λ h. cc })
      ]

  pub run_inference-IsDecided :
      (e : Engine R D) (features : List ℕ) (frames : ℕ) (s : DecoderState) (frame_offset : ℕ)
      → IsShaped s
      → IsDecided (run_inference e features frames s frame_offset)
  unfolding run_inference
  run_inference-IsDecided e features frames s frame_offset v =
      encoded-IsDecided e s frame_offset (e.encode features frames) v
