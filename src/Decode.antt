-- ===== src/Decode.antt =====
-- src/inference/decode.rs: greedy RNN-T decoding. An `f32` is its bit pattern. The ONNX sessions and
-- the softmax are parameters: `run_decoder` and `run_joiner` are functions of their inputs, which
-- may fail.
pub mod Argmax
mod Cases
pub mod Cache
pub mod Sound
pub mod Tokens
mod Tests
use monnok_gigastt.Base.{
  ℕ, zero, suc, ◌+◌, ◌*◌, Bool, true, false, ◌&&◌, ◌||◌, not, ltb, leb, ◌==◌, if◌then◌else◌, Option,
  none, some, List, [], ◌∷◌, ◌++◌, length, get_elem?, replicate,
}
use Argmax.{argmax}

abbrev pub max_tokens_per_step : ℕ
max_tokens_per_step = 10

abbrev pub enc_dim : ℕ
enc_dim = 768

abbrev pub pred_hidden : ℕ
pred_hidden = 320

abbrev pub endpoint_blank_threshold : ℕ
endpoint_blank_threshold = 15

pub record TokenInfo : Type 0 where
  pub token_id : ℕ
  pub frame_index : ℕ
  pub confidence : ℕ

-- `DecoderState` of src/inference/mod.rs.
pub record DecoderState : Type 0 where
  pub h : List ℕ
  pub c : List ℕ
  pub prev_token : ℕ
  pub consecutive_blanks : ℕ

unfoldable pub decoder_state_new : ℕ → DecoderState
decoder_state_new blank_id = record {
  h = replicate pred_hidden 0;
  c = replicate pred_hidden 0;
  prev_token = blank_id;
  consecutive_blanks = 0;
}

pub record DecoderOutput : Type 0 where
  pub dec_data : List ℕ
  pub new_h : List ℕ
  pub new_c : List ℕ

-- `panic` is an index out of range, the `unwrap` of an empty cache, or a copy between slices of
-- different lengths; `out_of_fuel` does not occur in the source.
pub data DecodeError : Type 0 where
  size_mismatch decoder_failed joiner_failed bad_shape panic out_of_fuel : DecodeError

-- An error leaves the caller's decoder state as it stands.
pub data Outcome {ℓ} (A : Type ℓ) : Type ℓ where
  ok : A → Outcome A
  err : DecodeError → DecoderState → Outcome A

infixl 5 ◌>>=◌
abbrev pub ◌>>=◌ {ℓ κ} : {A : Type ℓ} {B : Type κ} → Outcome A → (A → Outcome B) → Outcome B
ok a >>= f = f a
err e s >>= f = err e s

abbrev pub or_err {ℓ} : {A : Type ℓ} → DecodeError → DecoderState → Option A → Outcome A
or_err e s none = err e s
or_err e s (some a) = ok a

-- The variables of the loops of `greedy_decode`, with the caller's state.
pub record Loop : Type 0 where
  pub state : DecoderState
  pub tokens : List TokenInfo
  pub endpoint_detected : Bool
  pub cached : Option DecoderOutput
  pub in_blank_run : Bool

-- One channel after another: `encoded[ch * encoded_len + t]`, from the channel `ch` on.
unfoldable pub frame_from : List ℕ → ℕ → ℕ → ℕ → ℕ → Option (List ℕ)
frame_from encoded encoded_len t ch zero = some []
frame_from encoded encoded_len t ch (suc n) = elim (get_elem? encoded (ch * encoded_len + t)) [
  | none ↦ none
  | some x ↦ elim (frame_from encoded encoded_len t (suc ch) n) [
    | none ↦ none
    | some xs ↦ some (x ∷ xs)
  ]
]

unfoldable pub extract_encoder_frame : List ℕ → ℕ → ℕ → Option (List ℕ)
extract_encoder_frame encoded encoded_len t = frame_from encoded encoded_len t 0 enc_dim

abbrev pub is_empty {ℓ} : {A : Type ℓ} → List A → Bool
is_empty [] = true
is_empty (x ∷ xs) = false

-- One more frame without a token.
unfoldable pub count_blank : Loop → Loop
count_blank l =
    let blanks = suc l.state.consecutive_blanks in
    record l {
      state = record (l.state) { consecutive_blanks = blanks };
      endpoint_detected =
          l.endpoint_detected || (leb endpoint_blank_threshold blanks && not (is_empty l.tokens));
    }

unfoldable pub blank_frame : Loop → Loop
unfolding count_blank
blank_frame l = record (count_blank l) { in_blank_run = true }

unfoldable pub capped_frame : Loop → Loop
unfolding count_blank
capped_frame l = record (count_blank l) { in_blank_run = false; cached = none }

-- A token that is no blank: commit the decoder's state and emit it. `copy_from_slice` panics where the
-- lengths differ.
unfoldable pub commit : Loop → DecoderOutput → ℕ → ℕ → ℕ → Outcome Loop
commit l out t token confidence =
    let named = record (l.state) { prev_token = token; consecutive_blanks = 0 } in
    if not (length out.new_h == pred_hidden) || not (length out.new_c == pred_hidden)
    then err bad_shape named
    else if not (length l.state.h == pred_hidden) || not (length l.state.c == pred_hidden)
    then err panic named
    else ok (record l {
      state = record named { h = out.new_h; c = out.new_c };
      tokens =
          l.tokens ++ (record { token_id = token; frame_index = t; confidence = confidence } ∷ []);
      in_blank_run = false;
    })

-- Whether the inner loop goes on.
pub data Flow : Type 0 where
  again : Loop → Flow
  done : Loop → Flow

abbrev pub continue_with : (Loop → Outcome Loop) → Flow → Outcome Loop
continue_with rest (again l) = rest l
continue_with rest (done l) = ok l

module _ (run_decoder : ℕ → List ℕ → List ℕ → Option DecoderOutput)
    (run_joiner : List ℕ → List ℕ → Option (List ℕ)) (softmax_confidence : List ℕ → ℕ → ℕ)
    (blank_id : ℕ) where
  unfoldable pub argmax_with_confidence : List ℕ → ℕ × ℕ
  argmax_with_confidence logits =
      if is_empty logits
      then (blank_id, 0)
      else (argmax logits blank_id, softmax_confidence logits (argmax logits blank_id))

  unfoldable pub decode_now : Loop → Outcome (DecoderOutput × Loop)
  decode_now l = do
    out ← or_err decoder_failed l.state (run_decoder l.state.prev_token l.state.h l.state.c)
    ok (out, record l { cached = some out })

  abbrev pub cached_output : Loop → Option DecoderOutput → Outcome (DecoderOutput × Loop)
  cached_output l none = err panic l.state
  cached_output l (some out) = ok (out, l)

  -- The decoder's output, from the cache in a blank run.
  unfoldable pub fetch : Loop → Outcome (DecoderOutput × Loop)
  fetch l = if l.in_blank_run then cached_output l l.cached else decode_now l

  -- The inner loop's body after the decoder, on the frame `t`, of which `emitted` tokens have been
  -- emitted.
  unfoldable pub classify : List ℕ → ℕ → ℕ → DecoderOutput × Loop → Outcome Flow
  classify frame t emitted (out, l) = do
    logits ← or_err joiner_failed l.state (run_joiner frame out.dec_data)
    let (token, confidence) = argmax_with_confidence logits
    if token == blank_id
        then ok (done (blank_frame l))
        else if leb max_tokens_per_step emitted
        then ok (done (capped_frame l))
        else (commit l out t token confidence >>= λ l'. ok (again l'))

  -- The inner loop, and the loop over the frames from `t` on. `how` is the way to the decoder's output.
  unfoldable pub frame_loop :
      (Loop → Outcome (DecoderOutput × Loop)) → ℕ → List ℕ → ℕ → ℕ → Loop → Outcome Loop
  frame_loop how zero frame t emitted l = err out_of_fuel l.state
  frame_loop how (suc fuel) frame t emitted l = how l >>= λ got.
      classify frame t emitted got >>= continue_with (frame_loop how fuel frame t (suc emitted))

  unfoldable pub frames :
      (Loop → Outcome (DecoderOutput × Loop)) → List ℕ → ℕ → ℕ → ℕ → Loop → Outcome Loop
  frames how encoded encoded_len t zero l = ok l
  frames how encoded encoded_len t (suc n) l = do
    frame ← or_err panic l.state (extract_encoder_frame encoded encoded_len t)
    l' ← frame_loop how (suc max_tokens_per_step) frame t 0 l
    frames how encoded encoded_len (suc t) n l'

  unfoldable pub decode_by :
      (Loop → Outcome (DecoderOutput × Loop)) → List ℕ → ℕ → DecoderState → Outcome Loop
  decode_by how encoded encoded_len state =
      if ltb (length encoded) (enc_dim * encoded_len)
      then err size_mismatch state
      else frames how encoded encoded_len 0 encoded_len (record {
        state = state;
        tokens = [];
        endpoint_detected = false;
        cached = none;
        in_blank_run = false;
      })

  unfoldable pub greedy_decode : List ℕ → ℕ → DecoderState → Outcome Loop
  greedy_decode = decode_by fetch
