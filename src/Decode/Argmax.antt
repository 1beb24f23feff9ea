-- ===== src/Decode/Argmax.antt =====
-- `argmax` of src/inference/decode.rs, over the bit patterns of `f32` values.
use monnok_gigastt.Base.{
  ℕ, suc, ◌+◌, ◌-◌, ◌≤◌, ◌≡◌, ◌^◌, ltb, if◌then◌else◌, some, List, [], ◌∷◌, arith, get_elem?, refl,
  ◌∙◌, Bool-cases, inl, inr, ◌⊎◌,
}

-- The order of `f32::total_cmp`, as an order of numbers: the negative patterns reversed, below the
-- positive ones.
abbrev pub total_key : ℕ → ℕ
total_key bits = if ltb bits (2 ^ 31) then bits + 2 ^ 31 else 2 ^ 32 - 1 - bits

-- `max_by` keeps the later of two equal elements: the best so far, and the next index.
unfoldable pub argmax_from : ℕ → ℕ → ℕ → List ℕ → ℕ
argmax_from best key i [] = best
argmax_from best key i (x ∷ xs) =
    argmax_from (if ltb (total_key x) key then best else i)
      (if ltb (total_key x) key then key else total_key x) (suc i) xs

unfoldable pub argmax : List ℕ → ℕ → ℕ
unfolding argmax_from
argmax [] blank_id = blank_id
argmax (x ∷ xs) blank_id = argmax_from 0 (total_key x) 1 xs

-- All elements have at most the key `k`.
abbrev pub KeysUpTo : ℕ → List ℕ → Type 0
KeysUpTo k [] = Unit {0}
KeysUpTo k (x ∷ xs) = (total_key x ≤ k) × KeysUpTo k xs

KeysUpTo-mono : (k m : ℕ) (xs : List ℕ) → k ≤ m → KeysUpTo k xs → KeysUpTo m xs
KeysUpTo-mono k m [] h a = tt
KeysUpTo-mono k m (x ∷ xs) h a = (omega arith, KeysUpTo-mono k m xs h a.1)

-- The loop keeps its best element unless a later one is at least as large.
abbrev Picks : ℕ → ℕ → ℕ → List ℕ → ℕ → Type 0
Picks best key i xs r =
    ((r ≡ best) × KeysUpTo key xs)
    ⊎ ((j : ℕ) × (v : ℕ) × (r ≡ i + j)
        × (get_elem? xs j ≡ some v)
        × (key ≤ total_key v)
        × KeysUpTo (total_key v) xs)

argmax_from-Picks : (best key i : ℕ) (xs : List ℕ) → Picks best key i xs (argmax_from best key i xs)
unfolding argmax_from
argmax_from-Picks best key i [] = inl (refl, tt)
argmax_from-Picks best key i (x ∷ xs) = elim (Bool-cases (ltb (total_key x) key)) [
  | inl less ↦ rw less (elim (argmax_from-Picks best key (suc i) xs) [
    | inl (e, a) ↦ inl (e, (ground arith, a))
    | inr (j, v, e, at, h, a) ↦ inr (suc j, v, omega arith, at, h, (ground arith, a))
  ])
  | inr more ↦ rw more (elim (argmax_from-Picks i (total_key x) (suc i) xs) [
    | inl (e, a) ↦ inr (0, x, omega arith, refl, ground arith, (omega arith, a))
    | inr (j, v, e, at, h, a) ↦ inr (suc j, v, omega arith, at, ground arith, (h, a))
  ])
]

suc-add : (j : ℕ) → 1 + j ≡ suc j
suc-add j = omega arith

-- On logits that are not empty `argmax` is the index of one of them, and no other is larger in the
-- order of `total_cmp`.
pub argmax-KeysUpTo :
    (x : ℕ) (xs : List ℕ) (blank_id : ℕ)
    → (v : ℕ) × (get_elem? (x ∷ xs) (argmax (x ∷ xs) blank_id) ≡ some v)
      × KeysUpTo (total_key v) (x ∷ xs)
unfolding argmax
argmax-KeysUpTo x xs blank_id = elim (argmax_from-Picks 0 (total_key x) 1 xs) [
  | inl (e, a) ↦ (x, rw e, (omega arith, a))
  | inr (j, v, e, at, h, a) ↦ (v, rw (e ∙ suc-add j) at, (h, a))
]
