-- ===== src/Metrics/Slots.antt =====
-- The maps of src/server/metrics.rs: looking up what `entry` changes.
use monnok_gigastt.Base.{
  ◌≡◌, refl, sym, ◌∙◌, ap₂, subst, Bool, true, false, inl, inr, Bool-cases, ◌==◌, ==_iff,
  if◌then◌else◌, List, [], ◌∷◌, arith,
}
use monnok_gigastt.Words.{Text, text_eq}
use monnok_gigastt.Metrics.{Labels, labels_eq, entry}

-- An equality test that decides equality.
pub record IsEquality {K : Type 0} (eq : K → K → Bool) : Type 0 where
  pub refl_eq : (k : K) → eq k k ≡ true
  pub sound_eq : (k l : K) → eq k l ≡ true → k ≡ l

text_eq_refl : (t : Text) → text_eq t t ≡ true
text_eq_refl [] = refl
text_eq_refl (c ∷ t) = rw (text_eq_refl t) (ground arith)

text_eq_sound : (s t : Text) → text_eq s t ≡ true → s ≡ t
text_eq_sound [] [] h = refl
text_eq_sound [] (d ∷ t) h = cc
text_eq_sound (c ∷ s) [] h = cc
text_eq_sound (c ∷ s) (d ∷ t) h = elim (Bool-cases (c == d)) [
  | inl b ↦ ap₂ (λ x xs. x ∷ xs) ((==_iff c d).0 b) (text_eq_sound s t (rw b at h))
  | inr b ↦ absurd (false≢true (rw b at h))
]
  where
    false≢true : false ≡ true → ⊥
    false≢true e = cc

pub text_eq-IsEquality : IsEquality text_eq
text_eq-IsEquality = record { refl_eq = text_eq_refl; sound_eq = text_eq_sound }

labels_eq_refl : (ls : Labels) → labels_eq ls ls ≡ true
labels_eq_refl [] = refl
labels_eq_refl ((k, v) ∷ ls) = rw (text_eq_refl k, text_eq_refl v) (labels_eq_refl ls)

labels_eq_sound : (ls ms : Labels) → labels_eq ls ms ≡ true → ls ≡ ms
labels_eq_sound [] [] h = refl
labels_eq_sound [] (m ∷ ms) h = cc
labels_eq_sound (l ∷ ls) [] h = cc
labels_eq_sound ((k, v) ∷ ls) ((k', v') ∷ ms) h = elim (Bool-cases (text_eq k k')) [
  | inl b ↦ elim (Bool-cases (text_eq v v')) [
    | inl c ↦
        ap₂ (λ x xs. x ∷ xs) (ap₂ (λ x y. (x, y)) (text_eq_sound k k' b) (text_eq_sound v v' c))
          (labels_eq_sound ls ms (rw (b, c) at h))
    | inr c ↦ absurd (false≢true (rw (b, c) at h))
  ]
  | inr b ↦ absurd (false≢true (rw b at h))
]
  where
    false≢true : false ≡ true → ⊥
    false≢true e = cc

pub labels_eq-IsEquality : IsEquality labels_eq
labels_eq-IsEquality = record { refl_eq = labels_eq_refl; sound_eq = labels_eq_sound }

module _ {K V : Type 0} (eq : K → K → Bool) (fresh : V) where
  -- What a map has for a key, which is `fresh` at first.
  abbrev pub slot : K → List (K × V) → V
  slot k [] = fresh
  slot k ((l, v) ∷ m) = if eq l k then v else slot k m

  pub slot-entry :
      IsEquality eq
      → (f : V → V) (k l : K) (m : List (K × V))
      → slot l (entry eq fresh f k m) ≡ (if eq k l then f (slot l m) else slot l m)
  slot-entry q f k l [] = refl
  slot-entry q f k l ((k', v) ∷ m) = elim (Bool-cases (eq k' k)) [
    | inl b ↦
        let same : k' ≡ k = q.sound_eq k' k b in
        rw b (
          subst
            (λ x. (if eq x l then f v else slot l m) ≡ (
              if eq k l
              then f (if eq x l then v else slot l m)
              else (if eq x l then v else slot l m)))
            (sym same) (at_same (eq k l)))
    | inr b ↦ rw b (elim (Bool-cases (eq k' l)) [
      | inl c ↦ rw c (other (eq k l) refl c b)
      | inr c ↦ rw c (slot-entry q f k l m)
    ])
  ]
    where
      at_same :
          (c : Bool)
          → (if c then f v else slot l m)
            ≡ (if c then f (if c then v else slot l m) else (if c then v else slot l m))
      at_same true = refl
      at_same false = refl

      other :
          (c : Bool) → eq k l ≡ c → eq k' l ≡ true → eq k' k ≡ false → v ≡ (if c then f v else v)
      other false e g h = refl
      other true e g h =
          let both : k' ≡ k = q.sound_eq k' l g ∙ sym (q.sound_eq k l e) in
          let yes : eq k' k ≡ true = subst (λ x. eq x k ≡ true) (sym both) (q.refl_eq k) in cc
