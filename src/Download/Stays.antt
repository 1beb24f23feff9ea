-- ===== src/Download/Stays.antt =====
-- Changes to one file only, among the files of src/model/mod.rs.
use monnok_gigastt.Base.{
  ℕ, zero, suc, ◌≡◌, refl, sym, ◌∙◌, subst, ◌⊎◌, inl, inr, false, Bool-cases, List, [], ◌∷◌, ◌++◌,
  take,
}
use monnok_gigastt.Words.{Text, text_eq}
use monnok_gigastt.Metrics.Slots.{text_eq-IsEquality}
use monnok_gigastt.Download.{
  Files, file_at, without, Action, creates, appends, removes, renames, old, act, act_all,
}

pub file_at-without :
    (p q : Text) (fs : Files) → text_eq p q ≡ false → file_at q (without p fs) ≡ file_at q fs
file_at-without p q [] h = refl
file_at-without p q ((r, c) ∷ fs) h = elim (Bool-cases (text_eq r p)) [
  | inl e ↦
      let other : text_eq r q ≡ false =
        subst (λ x. text_eq x q ≡ false) (sym (text_eq-IsEquality.sound_eq r p e)) h in
      rw (e, other) (file_at-without p q fs h)
  | inr e ↦ rw e (elim (Bool-cases (text_eq r q)) [
    | inl f ↦ rw f refl
    | inr f ↦ rw f (file_at-without p q fs h)
  ])
]

-- The action is on one file, and no rename.
abbrev pub StaysIn : Text → Action → Type 0
StaysIn p (creates q) = q ≡ p
StaysIn p (appends q c) = q ≡ p
StaysIn p (removes q) = q ≡ p
StaysIn p (renames q r) = ⊥

abbrev pub AllIn : Text → List Action → Type 0
AllIn p [] = Unit {0}
AllIn p (a ∷ acts) = StaysIn p a × AllIn p acts

pub AllIn-append :
    (p : Text) (as' bs : List Action) → AllIn p as' → AllIn p bs → AllIn p (as' ++ bs)
AllIn-append p [] bs h k = k
AllIn-append p (a ∷ as') bs h k = (h.0, AllIn-append p as' bs h.1 k)

file_at-put :
    (p q : Text) (c : List ℕ) (fs : Files)
    → text_eq p q ≡ false
    → file_at q ((p, c) ∷ without p fs) ≡ file_at q fs
file_at-put p q c fs h = rw h (file_at-without p q fs h)

pub file_at-act :
    (p q : Text) (a : Action) (fs : Files)
    → StaysIn p a
    → text_eq p q ≡ false
    → file_at q (act a fs) ≡ file_at q fs
file_at-act p q (creates r) fs e h =
    file_at-put r q [] fs (subst (λ x. text_eq x q ≡ false) (sym e) h)
file_at-act p q (appends r c) fs e h =
    file_at-put r q (old (file_at r fs) ++ c) fs (subst (λ x. text_eq x q ≡ false) (sym e) h)
file_at-act p q (removes r) fs e h =
    file_at-without r q fs (subst (λ x. text_eq x q ≡ false) (sym e) h)
file_at-act p q (renames r s) fs e h = absurd e

pub file_at-act_all :
    (p q : Text) (n : ℕ) (as' : List Action) (fs : Files)
    → AllIn p as'
    → text_eq p q ≡ false
    → file_at q (act_all (take n as') fs) ≡ file_at q fs
file_at-act_all p q zero as' fs k h = refl
file_at-act_all p q (suc n) [] fs k h = refl
file_at-act_all p q (suc n) (a ∷ as') fs k h =
    file_at-act_all p q n as' (act a fs) k.1 h ∙ file_at-act p q a fs k.0 h

pub file_at-act_whole :
    (p q : Text) (as' : List Action) (fs : Files)
    → AllIn p as'
    → text_eq p q ≡ false
    → file_at q (act_all as' fs) ≡ file_at q fs
file_at-act_whole p q [] fs k h = refl
file_at-act_whole p q (a ∷ as') fs k h =
    file_at-act_whole p q as' (act a fs) k.1 h ∙ file_at-act p q a fs k.0 h

-- The first actions of two lists are some of the first, or all of it and some of the second.
pub take_split :
    (n : ℕ) (as' bs : List Action) (fs : Files)
    → ((k : ℕ) × (act_all (take n (as' ++ bs)) fs ≡ act_all (take k as') fs))
      ⊎ ((k : ℕ) × (act_all (take n (as' ++ bs)) fs ≡ act_all (take k bs) (act_all as' fs)))
take_split n [] bs fs = inr (n, refl)
take_split zero (a ∷ as') bs fs = inl (0, refl)
take_split (suc n) (a ∷ as') bs fs = elim (take_split n as' bs (act a fs)) [
  | inl (k, e) ↦ inl (suc k, e)
  | inr (k, e) ↦ inr (k, e)
]
