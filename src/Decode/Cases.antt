-- ===== src/Decode/Cases.antt =====
-- The ways out of one round of the inner loop of `greedy_decode` (src/inference/decode.rs).
use monnok_gigastt.Base.{
  ℕ, ◌≡◌, ◌<◌, ◌≢◌, false, inl, inr, ◌⊎◌, leb, ◌==◌, if◌then◌else◌, Bool-cases, Option-cases,
  Option, List, arith, refl, length,
}
use monnok_gigastt.Decode.{
  DecoderState, DecoderOutput, DecodeError, panic, out_of_fuel, Outcome, ok, err, Loop, Flow, again,
  done, blank_frame, capped_frame, commit, argmax_with_confidence, classify, max_tokens_per_step,
  pred_hidden, ◌>>=◌,
}

pub Outcome-cases {ℓ} :
    {A : Type ℓ} (o : Outcome A)
    → ((a : A) × (o ≡ ok a)) ⊎ ((e : DecodeError) × (s : DecoderState) × (o ≡ err e s))
Outcome-cases (ok a) = inl (a, refl)
Outcome-cases (err e s) = inr (e, s, refl)

-- An error that the loops can meet, with a state that keeps the shape of `s₀`.
pub record Harmless (s₀ : DecoderState) (e : DecodeError) (s : DecoderState) : Type 0 where
  pub no_panic : length s₀.h ≡ pred_hidden → length s₀.c ≡ pred_hidden → e ≢ panic
  pub no_fuel : e ≢ out_of_fuel
  pub same_h : s.h ≡ s₀.h
  pub same_c : s.c ≡ s₀.c

commit-Harmless :
    (l : Loop) (out : DecoderOutput) (t token confidence : ℕ) {e : DecodeError} {s : DecoderState}
    → commit l out t token confidence ≡ err e s
    → Harmless l.state e s
unfolding commit
commit-Harmless l out t token confidence h = ground arith

module _ (run_decoder : ℕ → List ℕ → List ℕ → Option DecoderOutput)
    (run_joiner : List ℕ → List ℕ → Option (List ℕ)) (softmax_confidence : List ℕ → ℕ → ℕ)
    (blank_id : ℕ) where
  -- It fails, ends the frame with a blank or at the cap, or commits a token that is no blank.
  pub classify_cases {ℓ} :
      (P : Outcome Flow → Type ℓ) (frame : List ℕ) (t emitted : ℕ) (out : DecoderOutput) (l : Loop)
      → ((e : DecodeError) (s : DecoderState) → Harmless l.state e s → P (err e s))
      → P (ok (done (blank_frame l)))
      → P (ok (done (capped_frame l)))
      → ((token confidence : ℕ) (l' : Loop)
          → token ≢ blank_id
          → emitted < max_tokens_per_step
          → commit l out t token confidence ≡ ok l'
          → P (ok (again l')))
      → P (classify run_decoder run_joiner softmax_confidence blank_id frame t emitted (out, l))
  unfolding classify
  classify_cases P frame t emitted out l failed blank capped emit =
      elim (Option-cases (run_joiner frame out.dec_data)) [
        | inl e ↦ rw e (failed _ _ (ground arith))
        | inr (logits, e) ↦ rw e (on_logits logits)
      ]
    where
      best : List ℕ → ℕ × ℕ
      best = argmax_with_confidence run_decoder run_joiner softmax_confidence blank_id

      on_token :
          (logits : List ℕ)
          → ((best logits).0 == blank_id) ≡ false
          → leb max_tokens_per_step emitted ≡ false
          → P (commit l out t (best logits).0 (best logits).1 >>= λ l'. ok (again l'))
      on_token logits no_blank below =
          elim (Outcome-cases (commit l out t (best logits).0 (best logits).1)) [
            | inl (l', e) ↦
                rw e (emit (best logits).0 (best logits).1 l' (ground arith) (ground arith) e)
            | inr (er, s, e) ↦ rw e (failed er s (commit-Harmless l out t _ _ e))
          ]

      on_logits :
          (logits : List ℕ)
          → P (
              if (best logits).0 == blank_id
              then ok (done (blank_frame l))
              else if leb max_tokens_per_step emitted
              then ok (done (capped_frame l))
              else (commit l out t (best logits).0 (best logits).1 >>= λ l'. ok (again l')))
      on_logits logits = elim (Bool-cases ((best logits).0 == blank_id)) [
        | inl e ↦ rw e blank
        | inr e ↦ rw e (elim (Bool-cases (leb max_tokens_per_step emitted)) [
          | inl f ↦ rw f capped
          | inr f ↦ rw f (on_token logits e f)
        ])
      ]
