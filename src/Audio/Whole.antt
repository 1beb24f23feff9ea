-- ===== src/Audio/Whole.antt =====
-- The loop of `decode_audio_inner` in src/inference/audio.rs: what it gives, and how much it holds.
use monnok_gigastt.Base.{
  ℕ, ◌≤◌, ◌<◌, ◌≡◌, ◌≢◌, ◌⊎◌, refl, subst, ltb, Bool-cases, inl, inr, some, List, [], ◌∷◌, ◌++◌,
  length, length-append, append_assoc, append-nil, arith, ==-same, ==-false, not_ltb, ltb→lt,
}
use monnok_gigastt.Audio.Mix.{Floats, AudioBuffer, mono, IsShaped, mix_mono_lem}
use monnok_gigastt.Audio.Decode.{
  Read, packet, Symphonia, Decoded, decoded, refused, too_long, max_samples, check_cap,
  decode_packets,
}

-- The loop gave all samples, or stopped at too many of them.
abbrev pub IsWhole : ℕ → List ℕ → Decoded → Type 0
IsWhole rate all result =
    (length all ≤ max_samples rate) × (result ≡ decoded all)
    ⊎ ((n : ℕ) × (max_samples rate < n) × (n ≤ length all) × (result ≡ refused (too_long n rate)))

-- A packet that crosses the cap ends the loop.
check_cap-IsWhole :
    (rate : ℕ) (next : List ℕ → Decoded) (acc new rest : List ℕ)
    → (length (acc ++ new) ≤ max_samples rate
        → IsWhole rate ((acc ++ new) ++ rest) (next (acc ++ new)))
    → IsWhole rate (acc ++ (new ++ rest)) (check_cap rate next acc (some new))
check_cap-IsWhole rate next acc new rest h =
    elim (Bool-cases (ltb (max_samples rate) (length (acc ++ new)))) [
      | inl e ↦ rw e (
          inr (
            length (acc ++ new),
            ltb→lt _ _ e,
            subst (λ xs. length (acc ++ new) ≤ length xs) (append_assoc acc new rest)
                (omega (arith, length-append (acc ++ new) rest)),
            refl,
          ))
      | inr e ↦ rw e (
          subst (λ xs. IsWhole rate xs (next (acc ++ new))) (append_assoc acc new rest)
            (h (not_ltb _ _ e)))
    ]

module _ {P D : Type 0} (f32 : Floats) (symphonia : Symphonia P D) where
  -- That from a state of the decoder all can be read, and the packets of a track are decoded to these
  -- buffers, which have their frames and channels.
  pub data IsRead (track_id : ℕ) : List (Read P) → D → List AudioBuffer → Type 0 where
    done : {d : D} → IsRead track_id [] d []
    other :
        {track : ℕ} {p : P} {reads : List (Read P)} {d : D} {bs : List AudioBuffer}
        → track ≢ track_id
        → IsRead track_id reads d bs
        → IsRead track_id (packet track p ∷ reads) d bs
    own :
        {p : P} {reads : List (Read P)} {d : D} {b : AudioBuffer} {bs : List AudioBuffer}
        → (symphonia.decode d p).0 ≡ some b
        → IsShaped b
        → IsRead track_id reads (symphonia.decode d p).1 bs
        → IsRead track_id (packet track_id p ∷ reads) d (b ∷ bs)

  abbrev pub all_mono : List AudioBuffer → List ℕ
  all_mono [] = []
  all_mono (b ∷ bs) = mono f32 b ++ all_mono bs

  -- Where all packets can be read and those of the track can be decoded, the loop gives the samples
  -- of the track, mixed to mono, in order, if they last ten minutes at most, and else refuses the
  -- file with a number of samples that is over ten minutes and at most all of them.
  pub decode_packets-IsWhole :
      {track_id : ℕ} {reads : List (Read P)} {d : D} {bs : List AudioBuffer} (rate : ℕ)
      (acc : List ℕ)
      → IsRead track_id reads d bs
      → length acc ≤ max_samples rate
      → IsWhole rate (acc ++ all_mono bs) (decode_packets f32 symphonia track_id rate reads d acc)
  unfolding decode_packets
  decode_packets-IsWhole rate acc done h = rw append-nil (inl (h, refl))
  decode_packets-IsWhole {track_id = i} rate acc (other {track = t} ne r) h =
      rw (==-false t i ne) (decode_packets-IsWhole rate acc r h)
  decode_packets-IsWhole {track_id = i} rate acc (own {p = p} {reads = rs} {d = d} {b = b} e s r)
        h =
      rw (==-same i, e, mix_mono_lem f32 b s)
        (check_cap-IsWhole rate (decode_packets f32 symphonia i rate rs (symphonia.decode d p).1)
          acc (mono f32 b) _ (λ k. decode_packets-IsWhole rate (acc ++ mono f32 b) r k))
