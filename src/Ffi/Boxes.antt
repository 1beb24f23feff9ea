-- ===== src/Ffi/Boxes.antt =====
-- The steps that the functions of src/ffi.rs share keep the boxes and the triplets in order.
use monnok_gigastt.Base.{
  ℕ, ◌+◌, ◌<◌, ◌≡◌, refl, ap, false, ◌==◌, ==-same, Bool-cases, inl, inr, if◌then◌else◌, Option,
  none, some, arith,
}
use monnok_gigastt.Words.{Text}
use monnok_gigastt.Ffi.{
  GigasttEngine, GigasttStream, Object, engine_box, stream_box, string_box, World, Called, Content,
  set, alloc, free, put, null, as_engine, as_stream, as_string, has_nul, new_string, Host,
}
use monnok_gigastt.Ffi.Client.{Kind, Ledger, gained, IsNullOr}
use monnok_gigastt.Ffi.Weights.{of_object, of_stream, weight, on_streams-set, on_streams-set_above}
use monnok_gigastt.Ffi.Agrees.{
  IsBox, Agrees, pointers-IsBox, alloc-Agrees, put-Agrees, free-Agrees, forget-Agrees,
}
use monnok_gigastt.Ffi.Checkout.{IsGood}

module _ {R D : Type 0} (host : Host R D) (f : ℕ → ℕ) (q total : ℕ) where
  abbrev pub State : Ledger → World R D → Type 0
  State l w = Agrees l w × (q < w.next) × (weight f q w ≡ total)

  abbrev pub Good : (ℕ → Ledger) → Called R D → Type 0
  Good l r = IsGood host f q l total r

  -- A new box, whose weight makes up the total.
  pub alloc-Good :
      (k : Kind) (l : Ledger) (o : Object R D) (w : World R D)
      → Agrees l w
      → q < w.next
      → IsBox k (some o)
      → weight f q w + of_object f q (some o) ≡ total
      → Good (λ p. gained k p l) (alloc o w)
  unfolding alloc
  alloc-Good k l o w a b i h = (
    alloc-Agrees l w k o a i,
    omega (arith, b),
    rw (==-same w.next, on_streams-set_above f q w.heap w.next (some o) w.next (omega arith))
        (omega (arith, h)),
  )

  -- A box that weighs nothing.
  pub alloc_light-Good :
      (k : Kind) (l : Ledger) (o : Object R D) (w : World R D)
      → State l w
      → IsBox k (some o)
      → of_object f q (some o) ≡ 0
      → Good (λ p. gained k p l) (alloc o w)
  alloc_light-Good k l o w (a, b, h) i e = alloc-Good k l o w a b i (omega (arith, h, e))

  pub string-Good :
      (l : Ledger) (c : Content) (w : World R D)
      → State l w
      → Good (λ p. gained Kind.string p l) (alloc (string_box c) w)
  string-Good l c w s = alloc_light-Good Kind.string l (string_box c) w s tt refl

  pub new_string-Good :
      (l : Ledger) (c : Text → Content) (t : Text) (or_else : Called R D) (w : World R D)
      → State l w
      → Good (λ p. gained Kind.string p l) or_else
      → Good (λ p. gained Kind.string p l) (new_string c t or_else w)
  unfolding new_string
  new_string-Good l c t or_else w s g = elim (Bool-cases (has_nul t)) [
    | inl e ↦ rw e g
    | inr e ↦ rw e (string-Good l (c t) w s)
  ]

  pub as_engine-Good :
      (m : ℕ → Ledger) (k : GigasttEngine R D → Called R D) (o : Option (Object R D))
      → IsBox Kind.engine o
      → ((e : GigasttEngine R D) → o ≡ some (engine_box e) → e.disposed ≡ false → Good m (k e))
      → Good m (as_engine k o)
  as_engine-Good m k (some (engine_box e)) i g = g e refl i
  as_engine-Good m k (some (stream_box s)) i g = absurd i
  as_engine-Good m k (some (string_box c)) i g = absurd i
  as_engine-Good m k none i g = absurd i

  pub as_stream-Good :
      (m : ℕ → Ledger) (k : GigasttStream R D → Called R D) (o : Option (Object R D))
      → IsBox Kind.stream o
      → ((s : GigasttStream R D) → o ≡ some (stream_box s) → s.disposed ≡ false → Good m (k s))
      → Good m (as_stream k o)
  as_stream-Good m k (some (stream_box s)) i g = g s refl i
  as_stream-Good m k (some (engine_box e)) i g = absurd i
  as_stream-Good m k (some (string_box c)) i g = absurd i
  as_stream-Good m k none i g = absurd i

  pub as_string-Good :
      (m : ℕ → Ledger) (k : Content → Called R D) (o : Option (Object R D))
      → IsBox Kind.string o
      → ((c : Content) → o ≡ some (string_box c) → Good m (k c))
      → Good m (as_string k o)
  as_string-Good m k (some (string_box c)) i g = g c refl
  as_string-Good m k (some (engine_box e)) i g = absurd i
  as_string-Good m k (some (stream_box s)) i g = absurd i
  as_string-Good m k none i g = absurd i

  -- The test for null.
  pub null_or-Good :
      (k : Kind) (l : Ledger) (m : ℕ → Ledger) (p : ℕ) (w : World R D) (r : Called R D)
      → IsNullOr k l p
      → Good m (null w)
      → (l p ≡ some k → Good m r)
      → Good m (if p == 0 then null w else r)
  null_or-Good k l m p w r (inl e) n g = rw e n
  null_or-Good k l m p w r (inr e) n g = elim (Bool-cases (p == 0)) [
    | inl z ↦ rw z n
    | inr z ↦ rw z (g e)
  ]

  -- A box is freed, and its weight is missing.
  pub free-weight :
      (p : ℕ) (w : World R D)
      → p < w.next
      → weight f q (free p w) + of_object f q (w.heap p) ≡ weight f q w
  unfolding free
  free-weight p w h = omega (arith, on_streams-set f q w.heap p none w.next h)

  pub free_light-Good :
      (k : Kind) (l : Ledger) (p : ℕ) (w : World R D)
      → State l w
      → l p ≡ some k
      → of_object f q (w.heap p) ≡ 0
      → Good (λ _. set l p none) (null (free p w))
  unfolding free
  free_light-Good k l p w (a, b, h) e z =
      (free-Agrees l w p a, b, omega (arith, free-weight p w (pointers-IsBox l w p a e).1, h, z))

  -- The null pointer is freed.
  pub null_free-Good :
      (l : Ledger) (p : ℕ) (w : World R D) → State l w → Good (λ _. set l p none) (null w)
  null_free-Good l p w (a, b, h) = (forget-Agrees l w p a, b, h)

  -- A stream changes its state.
  pub put-State :
      (l : Ledger) (p : ℕ) (s s' : GigasttStream R D) (w : World R D)
      → State l w
      → l p ≡ some Kind.stream
      → w.heap p ≡ some (stream_box s)
      → s'.disposed ≡ false
      → of_stream f q s' ≡ of_stream f q s
      → State l (put p s' w)
  put-State l p s s' w (a, b, h) e o d k = (
    put-Agrees l w p s' a e d,
    b,
    omega (
      arith,
      h,
      k,
      ap (of_object f q) o,
      on_streams-set f q w.heap p (some (stream_box s')) w.next (pointers-IsBox l w p a e).1,
    ),
  )
