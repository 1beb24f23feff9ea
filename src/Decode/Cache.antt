-- ===== src/Decode/Cache.antt =====
-- The cache of `greedy_decode` (src/inference/decode.rs) does not change what is decoded.
use monnok_gigastt.Base.{
  ℕ, zero, suc, ◌*◌, ◌≡◌, refl, subst, false, ◌⊎◌, inl, inr, Bool-cases, Option-cases, Option, some,
  List, arith, ltb, length,
}
use monnok_gigastt.Decode.Cases.{Outcome-cases, classify_cases}
use monnok_gigastt.Decode.{
  DecoderState, DecoderOutput, Outcome, ok, err, Loop, Flow, again, done, blank_frame, capped_frame,
  commit, decode_now, fetch, classify, frame_loop, frames, decode_by, greedy_decode,
  max_tokens_per_step, continue_with, ◌>>=◌, extract_encoder_frame, enc_dim,
}

module _ (run_decoder : ℕ → List ℕ → List ℕ → Option DecoderOutput)
    (run_joiner : List ℕ → List ℕ → Option (List ℕ)) (softmax_confidence : List ℕ → ℕ → ℕ)
    (blank_id : ℕ) where
  -- In a blank run the cache holds what the decoder would say now.
  abbrev pub IsFresh : Loop → Type 0
  IsFresh l =
      (l.in_blank_run ≡ false)
      ⊎ ((out : DecoderOutput) × (l.cached ≡ some out)
          × (run_decoder l.state.prev_token l.state.h l.state.c ≡ some out))

  abbrev FreshFlow : Outcome Flow → Type 0
  FreshFlow (ok (again l)) = IsFresh l
  FreshFlow (ok (done l)) = IsFresh l
  FreshFlow (err e s) = Unit {0}

  -- A cache that is fresh holds what a call of the decoder would give.
  fetch-decode_now :
      (l : Loop)
      → IsFresh l
      → fetch run_decoder run_joiner softmax_confidence blank_id l
        ≡ decode_now run_decoder run_joiner softmax_confidence blank_id l
  unfolding fetch decode_now
  fetch-decode_now l f = ground arith

  abbrev FreshGot : Outcome (DecoderOutput × Loop) → Type 0
  FreshGot (ok (out, l)) =
      (l.cached ≡ some out) × (run_decoder l.state.prev_token l.state.h l.state.c ≡ some out)
  FreshGot (err e s) = Unit {0}

  decode_now-Fresh :
      (l : Loop) → FreshGot (decode_now run_decoder run_joiner softmax_confidence blank_id l)
  unfolding decode_now
  decode_now-Fresh l = ground arith

  classify-Fresh :
      (frame : List ℕ) (t emitted : ℕ) (out : DecoderOutput) (l : Loop)
      → FreshGot (ok (out, l))
      → FreshFlow
          (classify run_decoder run_joiner softmax_confidence blank_id frame t emitted (out, l))
  unfolding commit blank_frame capped_frame
  classify-Fresh frame t emitted out l f =
      classify_cases run_decoder run_joiner softmax_confidence blank_id FreshFlow frame t emitted
        out l (λ e s k. tt) (inr (out, f.0, f.1)) (inl refl)
        (λ token confidence l' ne below e. inl (ground arith))

  abbrev FreshLoop : Outcome Loop → Type 0
  FreshLoop (ok l) = IsFresh l
  FreshLoop (err e s) = Unit {0}

  abbrev cached : Loop → Outcome (DecoderOutput × Loop)
  cached = fetch run_decoder run_joiner softmax_confidence blank_id

  abbrev direct : Loop → Outcome (DecoderOutput × Loop)
  direct = decode_now run_decoder run_joiner softmax_confidence blank_id

  abbrev inner : (Loop → Outcome (DecoderOutput × Loop)) → ℕ → List ℕ → ℕ → ℕ → Loop → Outcome Loop
  inner = frame_loop run_decoder run_joiner softmax_confidence blank_id

  -- Both ways give one outcome, and leave a fresh cache.
  abbrev Same : Outcome Loop → Outcome Loop → Type 0
  Same a b = (a ≡ b) × FreshLoop b

  abbrev round : List ℕ → ℕ → ℕ → DecoderOutput × Loop → Outcome Flow
  round = classify run_decoder run_joiner softmax_confidence blank_id

  round-Same :
      (frame : List ℕ) (t emitted : ℕ) (out : DecoderOutput) (l : Loop)
      (rest rest' : Loop → Outcome Loop)
      → FreshGot (ok (out, l))
      → ((l' : Loop) → IsFresh l' → Same (rest l') (rest' l'))
      → Same
          (round frame t emitted (out, l) >>= continue_with rest)
          (round frame t emitted (out, l) >>= continue_with rest')
  round-Same frame t emitted out l rest rest' f ih =
      go (round frame t emitted (out, l)) (classify-Fresh frame t emitted out l f)
    where
      go :
          (o : Outcome Flow)
          → FreshFlow o
          → Same (o >>= continue_with rest) (o >>= continue_with rest')
      go (ok (again l')) h = ih l' h
      go (ok (done l')) h = (refl, h)
      go (err e s) h = (refl, tt)

  frame_loop-cached :
      (fuel : ℕ) (frame : List ℕ) (t emitted : ℕ) (l : Loop)
      → IsFresh l
      → Same (inner cached fuel frame t emitted l) (inner direct fuel frame t emitted l)
  unfolding frame_loop
  frame_loop-cached zero frame t emitted l f = (refl, tt)
  frame_loop-cached (suc fuel) frame t emitted l f =
      rw (fetch-decode_now l f) (elim (Outcome-cases (direct l)) [
        | inl ((out, l₁), e) ↦ rw e (
            round-Same frame t emitted out l₁ (inner cached fuel frame t (suc emitted))
              (inner direct fuel frame t (suc emitted)) (subst FreshGot e (decode_now-Fresh l))
              (frame_loop-cached fuel frame t (suc emitted)))
        | inr (er, s, e) ↦ rw e (refl, tt)
      ])

  then_Same :
      (o : Outcome Loop) (rest rest' : Loop → Outcome Loop)
      → FreshLoop o
      → ((l : Loop) → IsFresh l → rest l ≡ rest' l)
      → (o >>= rest) ≡ (o >>= rest')
  then_Same (ok l) rest rest' f h = h l f
  then_Same (err e s) rest rest' f h = refl

  abbrev outer : (Loop → Outcome (DecoderOutput × Loop)) → List ℕ → ℕ → ℕ → ℕ → Loop → Outcome Loop
  outer = frames run_decoder run_joiner softmax_confidence blank_id

  frames-cached :
      (encoded : List ℕ) (encoded_len t n : ℕ) (l : Loop)
      → IsFresh l
      → outer cached encoded encoded_len t n l ≡ outer direct encoded encoded_len t n l
  unfolding frames
  frames-cached encoded encoded_len t zero l f = refl
  frames-cached encoded encoded_len t (suc n) l f =
      elim (Option-cases (extract_encoder_frame encoded encoded_len t)) [
        | inl e ↦ rw e
        | inr (frame, e) ↦
            let same = frame_loop-cached (suc max_tokens_per_step) frame t 0 l f in
            rw (e, same.0)
              (then_Same (inner direct (suc max_tokens_per_step) frame t 0 l)
                (outer cached encoded encoded_len (suc t) n)
                (outer direct encoded encoded_len (suc t) n) same.1
                (frames-cached encoded encoded_len (suc t) n))
      ]

  -- The cache of a blank run is sound: with it `greedy_decode` gives the same tokens, endpoint, final
  -- state or error as the decoding that calls the decoder for every logit vector.
  pub greedy_decode-direct :
      (encoded : List ℕ) (encoded_len : ℕ) (state : DecoderState)
      → greedy_decode run_decoder run_joiner softmax_confidence blank_id encoded encoded_len state
        ≡ decode_by run_decoder run_joiner softmax_confidence blank_id direct encoded encoded_len
            state
  unfolding greedy_decode decode_by
  greedy_decode-direct encoded encoded_len state =
      elim (Bool-cases (ltb (length encoded) (enc_dim * encoded_len))) [
        | inl e ↦ rw e
        | inr e ↦ rw e (frames-cached encoded encoded_len 0 encoded_len _ (inl refl))
      ]
