-- ===== src/Ffi/Agrees.antt =====
-- The boxes of src/ffi.rs agree with what a legal client knows of them, and boxes come and go without
-- a change to the others.
use monnok_gigastt.Base.{
  ℕ, suc, ◌≤◌, ◌<◌, ◌≡◌, refl, ap, subst, false, ◌==◌, ==_iff, ==-false, Bool-cases, inl, inr,
  Option, none, some, [], arith, ltb, ltb→lt, not_ltb,
}
use monnok_gigastt.Pool.{PoolInner}
use monnok_gigastt.Ffi.{
  GigasttStream, Object, engine_box, stream_box, string_box, World, set, free, put, with_pool,
}
use monnok_gigastt.Ffi.Client.{Kind, Ledger, gained}

module _ {R D : Type 0} where
  -- A box of its kind, not disposed.
  abbrev pub IsBox : Kind → Option (Object R D) → Type 0
  IsBox k none = ⊥
  IsBox Kind.engine (some (engine_box e)) = e.disposed ≡ false
  IsBox Kind.engine (some (stream_box s)) = ⊥
  IsBox Kind.engine (some (string_box c)) = ⊥
  IsBox Kind.stream (some (engine_box e)) = ⊥
  IsBox Kind.stream (some (stream_box s)) = s.disposed ≡ false
  IsBox Kind.stream (some (string_box c)) = ⊥
  IsBox Kind.string (some (engine_box e)) = ⊥
  IsBox Kind.string (some (stream_box s)) = ⊥
  IsBox Kind.string (some (string_box c)) = Unit

  abbrev pub IsKnown : Option Kind → Option (Object R D) → Type 0
  IsKnown none o = Unit
  IsKnown (some k) o = IsBox k o

  -- Live pointers lead to their boxes, below the next address, and the pools are open, with nobody waiting.
  pub record Agrees (l : Ledger) (w : World R D) : Type 0 where
    pub pointers : (p : ℕ) → IsKnown (l p) (w.heap p)
    pub fresh : (p : ℕ) → w.next ≤ p → l p ≡ none
    pub serving : (q : ℕ) → ((w.pools q).closed ≡ false) × ((w.pools q).waiters ≡ [])
    pub positive : 0 < w.next

  pub pointers-IsBox :
      {k : Kind} (l : Ledger) (w : World R D) (p : ℕ)
      → Agrees l w
      → l p ≡ some k
      → IsBox k (w.heap p) × (p < w.next)
  pointers-IsBox {k = k} l w p a e = (subst (λ m. IsKnown m (w.heap p)) e (a.pointers p), below)
    where
      below : p < w.next
      below = elim (Bool-cases (ltb p w.next)) [
        | inl t ↦ ltb→lt _ _ t
        | inr t ↦ let f : l p ≡ none = a.fresh p (not_ltb _ _ t) in cc
      ]

  set-IsKnown :
      (l : Ledger) (h : ℕ → Option (Object R D)) (p : ℕ) (k : Option Kind) (o : Option (Object R D))
      → ((r : ℕ) → IsKnown (l r) (h r))
      → IsKnown k o
      → (r : ℕ) → IsKnown (set l p k r) (set h p o r)
  set-IsKnown l h p k o f i r = elim (Bool-cases (r == p)) [ inl e ↦ rw e i | inr e ↦ rw e (f r) ]

  pub alloc-Agrees :
      (l : Ledger) (w : World R D) (k : Kind) (o : Object R D)
      → Agrees l w
      → IsBox k (some o)
      → Agrees
          (gained k w.next l)
          (record w { heap = set w.heap w.next (some o); next = suc w.next })
  alloc-Agrees l w k o a i =
      rw (==-false w.next 0 (λ e. absurd (omega (arith, e, a.positive)))) (record {
        pointers = set-IsKnown l w.heap w.next (some k) (some o) a.pointers i;
        fresh = λ p h.
            rw (==-false p w.next (λ e. absurd (omega (arith, e, h)))) (a.fresh p (omega arith));
        serving = a.serving;
        positive = omega (arith, a.positive);
      })

  pub put-Agrees :
      (l : Ledger) (w : World R D) (p : ℕ) (s : GigasttStream R D)
      → Agrees l w
      → l p ≡ some Kind.stream
      → s.disposed ≡ false
      → Agrees l (put p s w)
  put-Agrees l w p s a e d = record {
    pointers = λ r. elim (Bool-cases (r == p)) [
      | inl t ↦ rw (t, ap l ((==_iff r p).0 t), e) d
      | inr t ↦ rw t (a.pointers r)
    ];
    fresh = a.fresh;
    serving = a.serving;
    positive = a.positive;
  }

  pub free-Agrees :
      (l : Ledger) (w : World R D) (p : ℕ) → Agrees l w → Agrees (set l p none) (free p w)
  unfolding free
  free-Agrees l w p a = record {
    pointers = set-IsKnown l w.heap p none none a.pointers tt;
    fresh = λ r h. elim (Bool-cases (r == p)) [ inl t ↦ rw t refl | inr t ↦ rw t (a.fresh r h) ];
    serving = a.serving;
    positive = a.positive;
  }

  pub forget-Agrees : (l : Ledger) (w : World R D) (p : ℕ) → Agrees l w → Agrees (set l p none) w
  forget-Agrees l w p a = record {
    pointers = λ r. elim (Bool-cases (r == p)) [ inl t ↦ rw t tt | inr t ↦ rw t (a.pointers r) ];
    fresh = λ r h. elim (Bool-cases (r == p)) [ inl t ↦ rw t refl | inr t ↦ rw t (a.fresh r h) ];
    serving = a.serving;
    positive = a.positive;
  }

  pub with_pool-Agrees :
      (l : Ledger) (w : World R D) (q : ℕ) (p : PoolInner ℕ)
      → Agrees l w
      → p.closed ≡ false
      → p.waiters ≡ []
      → Agrees l (with_pool q p w)
  with_pool-Agrees l w q p a c n = record {
    pointers = a.pointers;
    fresh = a.fresh;
    serving = λ r. elim (Bool-cases (r == q)) [ inl t ↦ rw t (c, n) | inr t ↦ rw t (a.serving r) ];
    positive = a.positive;
  }
