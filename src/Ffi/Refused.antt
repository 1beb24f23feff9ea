-- ===== src/Ffi/Refused.antt =====
-- What `gigastt_transcribe_file` of src/ffi.rs reads, and what the `disposed` flags are worth.
use monnok_gigastt.Base.{
  ℕ, ◌≡◌, ◌≢◌, ◌↔◌, refl, ◌∙◌, ap, true, false, ◌==◌, ==-false, ==-same, Bool-cases, inl, inr,
  Option-cases, if◌then◌else◌, Option, none, some, List, [], ◌∷◌, ◌++◌,
}
use monnok_gigastt.Words.{Text}
use monnok_gigastt.Metrics.Slots.{text_eq-IsEquality}
use monnok_gigastt.Audio.Decode.{Decoded}
use monnok_gigastt.Ffi.{
  GigasttStream, stream_box, World, returned, faulted, Host, free, null, as_engine,
}
use monnok_gigastt.Ffi.Calls.{
  checked_path, allowed_path, stream_checked_in, answer_text, transcribe_decoded,
  gigastt_transcribe_file, engine_transcribe_file, transcribe_path, with_checkout, put_back,
  gigastt_stream_free,
}
use monnok_gigastt.Ffi.Path.{
  is_absolute, has_parent_dir, starts_with, join, components, split_slash, to_first, significant,
  is_skipped, is_prefix,
}

to_first-append :
    (c d : ℕ) (ss ts : List Text)
    → to_first c (to_first d ss ++ ts) ≡ to_first c (to_first d ss) ++ ts
to_first-append c d [] ts = refl
to_first-append c d (s ∷ ss) ts = refl

to_first-split_slash :
    (c : ℕ) (s : Text) (ts : List Text)
    → to_first c (split_slash s ++ ts) ≡ to_first c (split_slash s) ++ ts
to_first-split_slash c [] ts = refl
to_first-split_slash c (d ∷ s) ts = elim (Bool-cases (d == b'/')) [
  | inl e ↦ rw e refl
  | inr e ↦ rw e (to_first-append c d (split_slash s) ts)
]

split_slash-append : (s t : Text) → split_slash (s ++ (b'/' ∷ t)) ≡ split_slash s ++ split_slash t
split_slash-append [] t = refl
split_slash-append (c ∷ s) t = elim (Bool-cases (c == b'/')) [
  | inl e ↦ rw e (ap (λ us. [] ∷ us) (split_slash-append s t))
  | inr e ↦
      rw e (ap (to_first c) (split_slash-append s t) ∙ to_first-split_slash c s (split_slash t))
]

significant-append : (ss ts : List Text) → significant (ss ++ ts) ≡ significant ss ++ significant ts
significant-append [] ts = refl
significant-append (s ∷ ss) ts = elim (Bool-cases (is_skipped s)) [
  | inl e ↦ rw e (significant-append ss ts)
  | inr e ↦ rw e (ap (λ us. s ∷ us) (significant-append ss ts))
]

is_prefix-append : (ss ts : List Text) → is_prefix ss (ss ++ ts) ≡ true
is_prefix-append [] ts = refl
is_prefix-append (s ∷ ss) ts = rw (text_eq-IsEquality.refl_eq s, is_prefix-append ss ts) refl

none≢some : {t : Text} → none ≡ some t → ⊥
none≢some e = cc

-- The last check never refuses a path: what is joined to a directory starts with it.
starts_with-join : (dir path : Text) → starts_with (join dir path) dir ≡ true
unfolding starts_with join components
starts_with-join dir path =
    rw (split_slash-append dir path, significant-append (split_slash dir) (split_slash path))
      (is_prefix-append (significant (split_slash dir)) (significant (split_slash path)))

module _ {R D : Type 0} (host : Host R D) where
  -- A path passes the checks exactly if it is UTF-8, relative and without `..`, and the working directory
  -- is known.
  pub checked_path_iff :
      (chars : List ℕ) (path : Text)
      → (checked_path host (some chars) ≡ some path)
        ↔ (host.from_utf8 chars ≡ some path)
          × (is_absolute path ≡ false)
          × (has_parent_dir path ≡ false)
          × (cwd : Text) × (host.current_dir ≡ some cwd)
  unfolding checked_path
  checked_path_iff chars path = (forward (host.from_utf8 chars), backward)
    where
      backward :
          (host.from_utf8 chars ≡ some path)
            × (is_absolute path ≡ false)
            × (has_parent_dir path ≡ false)
            × (cwd : Text) × (host.current_dir ≡ some cwd)
          → allowed_path host (host.from_utf8 chars) ≡ some path
      backward (o, a, p, cwd, c) = rw (o, a, p, c, starts_with-join cwd path) refl

      forward :
          (o : Option Text)
          → allowed_path host o ≡ some path
          → (o ≡ some path)
            × (is_absolute path ≡ false)
            × (has_parent_dir path ≡ false)
            × (cwd : Text) × (host.current_dir ≡ some cwd)
      forward none h = absurd (none≢some h)
      forward (some p) h = elim (Bool-cases (is_absolute p)) [
        | inl a ↦ absurd (none≢some (rw a at h))
        | inr a ↦ elim (Bool-cases (has_parent_dir p)) [
          | inl b ↦ absurd (none≢some (rw (a, b) at h))
          | inr b ↦ elim (Option-cases host.current_dir) [
            | inl n ↦ absurd (none≢some (rw (a, b, n) at h))
            | inr (cwd, c) ↦
                let k : some p ≡ some path = rw (a, b, c, starts_with-join cwd p) at h in
                (k, cc, cc, cwd, c)
          ]
        ]
      ]

  -- Two file systems that agree on all relative paths without `..` cannot be told apart: the function
  -- reads no other file.
  pub transcribe_file_confined :
      (other : Text → Decoded) (engine : ℕ) (path : Option (List ℕ)) (w : World R D)
      → ((p : Text)
          → is_absolute p ≡ false
          → has_parent_dir p ≡ false
          → host.decode_audio_file p ≡ other p)
      → gigastt_transcribe_file host engine path w
        ≡ gigastt_transcribe_file (record host { decode_audio_file = other }) engine path w
  unfolding gigastt_transcribe_file checked_path engine_transcribe_file with_checkout put_back
  transcribe_file_confined other engine path w h =
      ap (λ r. if engine == 0 then null w else r) (by_chars path)
    where
      same :
          (p : Text)
          → host.decode_audio_file p ≡ other p
          → transcribe_path host engine w (some p)
            ≡ transcribe_path (record host { decode_audio_file = other }) engine w (some p)
      same p e =
          ap
            (λ d.
              as_engine
                (λ b.
                  with_checkout host b.pool
                    (λ x w'.
                      answer_text host (transcribe_decoded host b.engine d)
                        (put_back host b.pool x w'))
                    w)
                (w.heap engine))
            e

      by_path :
          (chars : List ℕ) (o : Option Text)
          → checked_path host (some chars) ≡ o
          → transcribe_path host engine w o
            ≡ transcribe_path (record host { decode_audio_file = other }) engine w o
      by_path chars none e = refl
      by_path chars (some p) e =
          let (u, a, b, cwd, c) = (checked_path_iff chars p).0 e in same p (h p a b)

      by_chars :
          (path : Option (List ℕ))
          → transcribe_path host engine w (checked_path host path)
            ≡ transcribe_path
                (record host { decode_audio_file = other })
                engine
                w
                (checked_path (record host { decode_audio_file = other }) path)
      by_chars none = refl
      by_chars (some chars) = by_path chars (checked_path host (some chars)) refl

  -- The flag does not guard: it lies in the box that the first call frees, so that a second call on a
  -- pointer reads freed memory, for a stream as for an engine.
  pub free_twice :
      (p : ℕ) (w : World R D) (s : GigasttStream R D)
      → p ≢ 0
      → w.heap p ≡ some (stream_box s)
      → s.disposed ≡ false
      → (w' : World R D) × (gigastt_stream_free host p w ≡ returned 0 w')
        × (gigastt_stream_free host p w' ≡ faulted)
  unfolding gigastt_stream_free free
  free_twice p w s n e d = (
    stream_checked_in host s (free p w),
    rw (==-false p 0 n, e, d) refl,
    rw (==-false p 0 n, ==-same p) refl,
  )
