-- ===== src/Ffi/Files.antt =====
-- The functions of src/ffi.rs on engines and files, called as their safety comments ask.
use monnok_gigastt.Base.{
  ℕ, ◌≡◌, refl, ◌∙◌, Bool, not, ◌&&◌, Bool-cases, inl, inr, Option, none, some, List,
}
use monnok_gigastt.Words.{Text}
use monnok_gigastt.Pool.{pool_new}
use monnok_gigastt.Stream.{Engine}
use monnok_gigastt.Ffi.{World, Host, Transcribed, transcribed, transcribe_failed, transcribe_panics}
use monnok_gigastt.Ffi.Client.{Kind, Ledger, gained, IsNullOr}
use monnok_gigastt.Ffi.Calls.{
  new_engine, load_dir, gigastt_engine_new_with_pool_size, gigastt_transcribe_file,
  gigastt_quantize_model, answer_text, transcribe_path, checked_path, quantized, quantize_dir,
}
use monnok_gigastt.Ffi.Agrees.{pointers-IsBox, with_pool-Agrees}
use monnok_gigastt.Ffi.Checkout.{with_checkout-IsGood, put_back-State, above-weight}
use monnok_gigastt.Ffi.Boxes.{
  State, Good, alloc_light-Good, string-Good, new_string-Good, as_engine-Good, null_or-Good,
}

module _ {R D : Type 0} (host : Host R D) (f : ℕ → ℕ) (q total : ℕ) where
  pub engine_new-Good :
      (l : Ledger) (dir : Option (List ℕ)) (n : ℕ) (w : World R D)
      → State host f q total l w
      → Good host f q total
          (λ p. gained Kind.engine p l)
          (gigastt_engine_new_with_pool_size host dir n w)
  unfolding gigastt_engine_new_with_pool_size pool_new
  engine_new-Good l none n w s = s
  engine_new-Good l (some dir) n w (a, b, h) = by_dir (host.from_utf8 dir)
    where
      by_load :
          (o : Option (Engine R D × List ℕ))
          → Good host f q total (λ p. gained Kind.engine p l) (new_engine host w o)
      by_load none = (a, b, h)
      by_load (some (e, triplets)) =
          alloc_light-Good host f q total Kind.engine l _ _
            (
              with_pool-Agrees l w w.next (pool_new triplets) a refl refl,
              b,
              above-weight host f q w w.next (pool_new triplets) b ∙ h,
            )
            refl refl

      by_dir :
          (o : Option Text)
          → Good host f q total (λ p. gained Kind.engine p l) (load_dir host n w o)
      by_dir none = (a, b, h)
      by_dir (some dir) = by_load (host.load dir n)

  pub transcribe_file-Good :
      (l : Ledger) (e : ℕ) (path : Option (List ℕ)) (w : World R D)
      → State host f q total l w
      → IsNullOr Kind.engine l e
      → Good host f q total (λ p. gained Kind.string p l) (gigastt_transcribe_file host e path w)
  unfolding gigastt_transcribe_file
  transcribe_file-Good l e path w (a, b, h) i =
      null_or-Good host f q total Kind.engine l (λ p. gained Kind.string p l) e w _ i (a, b, h)
        (λ g. by_path g (checked_path host path))
    where
      by_answer :
          (t : Transcribed) (w' : World R D)
          → State host f q total l w'
          → Good host f q total (λ p. gained Kind.string p l) (answer_text host t w')
      by_answer (transcribed text) w' s = new_string-Good host f q total l _ text _ w' s s
      by_answer transcribe_failed w' s = s
      by_answer transcribe_panics w' s = tt

      by_path :
          l e ≡ some Kind.engine
          → (o : Option Text)
          → Good host f q total (λ p. gained Kind.string p l) (transcribe_path host e w o)
      by_path g none = (a, b, h)
      by_path g (some path) =
          as_engine-Good host f q total (λ p. gained Kind.string p l) _ (w.heap e)
            (pointers-IsBox l w e a g).0
            (λ box _ _.
              with_checkout-IsGood host f q l (λ p. gained Kind.string p l) total box.pool _ w a b h
                (λ x w' a' b' h'.
                  by_answer _ _ (put_back-State host f q l box.pool x total w' a' b' h')))

  pub quantize_model-Good :
      (l : Ledger) (dir : Option (List ℕ)) (force : Bool) (w : World R D)
      → State host f q total l w
      → Good host f q total (λ p. gained Kind.string p l) (gigastt_quantize_model host dir force w)
  unfolding gigastt_quantize_model
  quantize_model-Good l none force w s = string-Good host f q total l _ w s
  quantize_model-Good l (some chars) force w s = by_dir (host.from_utf8 chars)
    where
      by_error :
          (o : Option Text) → Good host f q total (λ p. gained Kind.string p l) (quantized host w o)
      by_error none = string-Good host f q total l _ w s
      by_error (some e) =
          new_string-Good host f q total l _ e _ w s (string-Good host f q total l _ w s)

      by_dir :
          (o : Option Text)
          → Good host f q total (λ p. gained Kind.string p l) (quantize_dir host chars force w o)
      by_dir none = string-Good host f q total l _ w s
      by_dir (some dir) = elim (Bool-cases (not force && host.int8_exists dir)) [
        | inl t ↦ rw t (string-Good host f q total l _ w s)
        | inr t ↦ rw t (by_error (host.quantize dir))
      ]
