-- ===== src/Decode/Tokens.antt =====
-- What `greedy_decode` (src/inference/decode.rs) returns.
use monnok_gigastt.Base.{
  ℕ, zero, suc, ◌+◌, ◌*◌, ◌≤◌, ◌<◌, ◌≡◌, refl, subst, inl, inr, Bool-cases, Option, some, List,
  arith, ltb, length,
}
use monnok_gigastt.Decode.Cases.{Outcome-cases, classify_cases}
use monnok_gigastt.Decode.{
  DecoderState, DecoderOutput, Outcome, ok, err, Loop, Flow, again, done, count_blank, blank_frame,
  capped_frame, fetch, decode_now, classify, continue_with, extract_encoder_frame, frame_loop,
  frames, decode_by, greedy_decode, max_tokens_per_step, enc_dim, ◌>>=◌,
}
use monnok_gigastt.Decode.Sound.{
  IsShaped, IsSound, HasCache, Good, GoodFlow, Fetched, IsSound-mono, IsSound-same,
  count_blank-IsSound, commit-IsSound, frame_from-some,
}

module _ (run_decoder : ℕ → List ℕ → List ℕ → Option DecoderOutput)
    (run_joiner : List ℕ → List ℕ → Option (List ℕ)) (softmax_confidence : List ℕ → ℕ → ℕ)
    (blank_id : ℕ) where
  abbrev get : Loop → Outcome (DecoderOutput × Loop)
  get = fetch run_decoder run_joiner softmax_confidence blank_id

  abbrev round : List ℕ → ℕ → ℕ → DecoderOutput × Loop → Outcome Flow
  round = classify run_decoder run_joiner softmax_confidence blank_id

  abbrev inner : ℕ → List ℕ → ℕ → ℕ → Loop → Outcome Loop
  inner = frame_loop run_decoder run_joiner softmax_confidence blank_id get

  abbrev outer : List ℕ → ℕ → ℕ → ℕ → Loop → Outcome Loop
  outer = frames run_decoder run_joiner softmax_confidence blank_id get

  fetch-Fetched : (l : Loop) → HasCache l → Fetched l (get l)
  unfolding fetch decode_now
  fetch-Fetched l c = ground arith

  classify-Good :
      (frame : List ℕ) (t emitted : ℕ) (out : DecoderOutput) (l : Loop)
      → IsSound blank_id (suc t) (max_tokens_per_step * t + emitted) l
      → l.cached ≡ some out
      → GoodFlow blank_id t emitted (round frame t emitted (out, l))
  unfolding blank_frame capped_frame
  classify-Good frame t emitted out l v c =
      let count = max_tokens_per_step * t + emitted in
      let counted = count_blank-IsSound blank_id (suc t) count l v in
      classify_cases run_decoder run_joiner softmax_confidence blank_id
        (GoodFlow blank_id t emitted) frame t emitted out l
        (λ e s k. (
          k.no_panic v.shaped.h_len v.shaped.c_len,
          k.no_fuel,
          record { h_len = rw k.same_h v.shaped.h_len; c_len = rw k.same_c v.shaped.c_len },
        ))
        (
          IsSound-same blank_id (suc t) count refl refl refl counted,
          inr (out, unfold count_blank in c),
        )
        (IsSound-same blank_id (suc t) count refl refl refl counted, inl refl)
        (λ token confidence l' ne below e.
          let (sound, off) =
            commit-IsSound blank_id t count l l' out token confidence (omega arith) (omega arith) v
              ne e in
          (
            IsSound-mono blank_id (suc t) (suc t) (suc count)
                (max_tokens_per_step * t + suc emitted) (omega arith) (omega arith) sound,
            inl off,
            below,
          ))

  then_Good :
      (t emitted : ℕ) (o : Outcome Flow) (rest : Loop → Outcome Loop)
      → emitted ≤ max_tokens_per_step
      → GoodFlow blank_id t emitted o
      → ((l : Loop)
          → IsSound blank_id (suc t) (max_tokens_per_step * t + suc emitted) l
          → HasCache l
          → emitted < max_tokens_per_step
          → Good blank_id (suc t) (max_tokens_per_step * suc t) (rest l))
      → Good blank_id (suc t) (max_tokens_per_step * suc t) (o >>= continue_with rest)
  then_Good t emitted (ok (again l)) rest h g ih = ih l g.0 g.1 g.2
  then_Good t emitted (ok (done l)) rest h g ih = (
    IsSound-mono blank_id (suc t) (suc t) (max_tokens_per_step * t + emitted)
        (max_tokens_per_step * suc t) (omega arith) (omega arith) g.0,
    g.1,
  )
  then_Good t emitted (err e s) rest h g ih = g

  frame_loop-Good :
      (fuel : ℕ) (frame : List ℕ) (t emitted : ℕ) (l : Loop)
      → emitted ≤ max_tokens_per_step
      → max_tokens_per_step < fuel + emitted
      → IsSound blank_id (suc t) (max_tokens_per_step * t + emitted) l
      → HasCache l
      → Good blank_id (suc t) (max_tokens_per_step * suc t) (inner fuel frame t emitted l)
  unfolding frame_loop
  frame_loop-Good zero frame t emitted l h k v c = absurd (omega arith)
  frame_loop-Good (suc fuel) frame t emitted l h k v c =
      let count = max_tokens_per_step * t + emitted in
      elim (Outcome-cases (get l)) [
        | inl ((out, l₁), e) ↦
            let (state, tokens, endpoint, cache) = subst (Fetched l) e (fetch-Fetched l c) in
            rw e (
              then_Good t emitted (round frame t emitted (out, l₁))
                (inner fuel frame t (suc emitted)) h
                (classify-Good frame t emitted out l₁
                  (IsSound-same blank_id (suc t) count state tokens endpoint v) cache)
                (λ l' v' c' below.
                  frame_loop-Good fuel frame t (suc emitted) l' below (omega arith) v' c'))
        | inr (er, s, e) ↦
            let (no_panic, no_fuel, same) = subst (Fetched l) e (fetch-Fetched l c) in
            rw e (no_panic, no_fuel, rw same v.shaped)
      ]

  then_frames :
      (t end : ℕ) (o : Outcome Loop) (rest : Loop → Outcome Loop)
      → Good blank_id t (max_tokens_per_step * t) o
      → ((l : Loop)
          → IsSound blank_id t (max_tokens_per_step * t) l
          → HasCache l
          → Good blank_id end (max_tokens_per_step * end) (rest l))
      → Good blank_id end (max_tokens_per_step * end) (o >>= rest)
  then_frames t end (ok l) rest g ih = ih l g.0 g.1
  then_frames t end (err e s) rest g ih = g

  frames-Good :
      (encoded : List ℕ) (encoded_len t n : ℕ) (l : Loop)
      → t + n ≡ encoded_len
      → enc_dim * encoded_len ≤ length encoded
      → IsSound blank_id t (max_tokens_per_step * t) l
      → HasCache l
      → Good blank_id encoded_len
          (max_tokens_per_step * encoded_len)
          (outer encoded encoded_len t n l)
  unfolding frames extract_encoder_frame
  frames-Good encoded encoded_len t zero l h k v c = (
    IsSound-mono blank_id t encoded_len (max_tokens_per_step * t)
        (max_tokens_per_step * encoded_len) (omega arith) (omega arith) v,
    c,
  )
  frames-Good encoded encoded_len t (suc n) l h k v c =
      let (frame, e, _) =
        frame_from-some encoded encoded_len t 0 enc_dim (omega arith) (omega arith) in
      let mono =
        IsSound-mono blank_id t (suc t) (max_tokens_per_step * t) (max_tokens_per_step * t + 0)
          (omega arith) (omega arith) v in
      let good =
        frame_loop-Good (suc max_tokens_per_step) frame t 0 l (omega arith) (omega arith) mono c in
      rw e (
        then_frames (suc t) encoded_len (inner (suc max_tokens_per_step) frame t 0 l)
          (outer encoded encoded_len (suc t) n) good
          (λ l' v' c'. frames-Good encoded encoded_len (suc t) n l' (omega arith) k v' c'))

  -- What `greedy_decode` does with a decoder state of the right shape. It never indexes out of range,
  -- never unwraps an empty cache, never copies between slices of different lengths, and its inner
  -- loop ends. If it returns, no token is a blank, the tokens' frames ascend and lie below
  -- `encoded_len`, no frame has more than ten, an endpoint is reported only with a
  -- token, and the state keeps its shape; if it fails, the state keeps its shape too.
  pub greedy_decode-Good :
      (encoded : List ℕ) (encoded_len : ℕ) (state : DecoderState)
      → IsShaped state
      → Good blank_id encoded_len (max_tokens_per_step * encoded_len) (
          greedy_decode run_decoder run_joiner softmax_confidence blank_id encoded encoded_len
            state)
  unfolding greedy_decode decode_by
  greedy_decode-Good encoded encoded_len state v =
      elim (Bool-cases (ltb (length encoded) (enc_dim * encoded_len))) [
        | inl e ↦ rw e ((λ f. cc), (λ f. cc), v)
        | inr e ↦ rw e (
            frames-Good encoded encoded_len 0 encoded_len _ (omega arith) (ground arith)
              (record {
                shaped = v;
                ascends = tt;
                few = omega arith;
                each = λ f. omega arith;
                room = λ f. omega arith;
                heard = inl refl;
              })
              (inl refl))
      ]
