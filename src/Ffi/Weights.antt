-- ===== src/Ffi/Weights.antt =====
-- The triplets of a pool that src/ffi.rs hands to streams: each triplet is given a weight, and the weights
-- of the pool's items and of its streams are added up.
use monnok_gigastt.Base.{
  ℕ, zero, suc, ◌+◌, ◌≤◌, ◌<◌, ◌≡◌, refl, ap, subst, false, ◌==◌, ==_iff, ==-false, ==-same,
  Bool-cases, inl, inr, if◌then◌else◌, Option, none, some, List, [], ◌∷◌, ◌++◌, arith,
}
use monnok_gigastt.Ffi.{GigasttStream, Object, engine_box, stream_box, string_box, World, set}

module _ (f : ℕ → ℕ) (q : ℕ) where
  abbrev pub of_items : List ℕ → ℕ
  of_items [] = 0
  of_items (x ∷ xs) = f x + of_items xs

  of_items-append : (xs ys : List ℕ) → of_items (xs ++ ys) ≡ of_items xs + of_items ys
  of_items-append [] ys = omega arith
  of_items-append (x ∷ xs) ys = omega (arith, of_items-append xs ys)

  pub of_items-push : (xs : List ℕ) (x : ℕ) → of_items (xs ++ (x ∷ [])) ≡ of_items xs + f x
  of_items-push xs x = omega (arith, of_items-append xs (x ∷ []))

  module _ {R D : Type 0} where
    abbrev pub of_stream : GigasttStream R D → ℕ
    of_stream s = if s.reservation == q then f s.triplet else 0

    abbrev pub of_object : Option (Object R D) → ℕ
    of_object none = 0
    of_object (some (engine_box e)) = 0
    of_object (some (stream_box s)) = of_stream s
    of_object (some (string_box c)) = 0

    -- The streams of the pool among the first `n` addresses.
    abbrev pub on_streams : (ℕ → Option (Object R D)) → ℕ → ℕ
    on_streams h zero = 0
    on_streams h (suc n) = of_object (h n) + on_streams h n

    abbrev pub weight : World R D → ℕ
    weight w = of_items (w.pools q).items + on_streams w.heap w.next

    set_same : (h : ℕ → Option (Object R D)) (p : ℕ) (o : Option (Object R D)) → set h p o p ≡ o
    set_same h p o = rw (==-same p) refl

    pub on_streams-set_above :
        (h : ℕ → Option (Object R D)) (p : ℕ) (o : Option (Object R D)) (n : ℕ)
        → n ≤ p
        → on_streams (set h p o) n ≡ on_streams h n
    on_streams-set_above h p o zero l = refl
    on_streams-set_above h p o (suc n) l =
        rw (==-false n p (omega arith))
          (ap (λ k. of_object (h n) + k) (on_streams-set_above h p o n (omega arith)))

    pub on_streams-set :
        (h : ℕ → Option (Object R D)) (p : ℕ) (o : Option (Object R D)) (n : ℕ)
        → p < n
        → on_streams (set h p o) n + of_object (h p) ≡ on_streams h n + of_object o
    on_streams-set h p o zero l = absurd (omega arith)
    on_streams-set h p o (suc n) l = elim (Bool-cases (n == p)) [
      | inl e ↦ same p ((==_iff n p).0 e) l
      | inr e ↦ rw e (omega (arith, on_streams-set h p o n (below e)))
    ]
      where
        same :
            (p : ℕ)
            → n ≡ p
            → p < suc n
            → on_streams (set h p o) (suc n) + of_object (h p) ≡ on_streams h (suc n) + of_object o
        same p e k =
            subst
              (λ p.
                on_streams (set h p o) (suc n) + of_object (h p)
                ≡ on_streams h (suc n) + of_object o)
              e (rw (==-same n) (omega (arith, on_streams-set_above h n o n (omega arith))))

        below : (n == p) ≡ false → p < n
        below k = ground arith
