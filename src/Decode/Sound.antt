-- ===== src/Decode/Sound.antt =====
-- What holds of the variables of `greedy_decode` (src/inference/decode.rs), and of the steps that
-- change them.
use monnok_gigastt.Base.{
  ℕ, zero, suc, ◌+◌, ◌*◌, ◌≤◌, ◌<◌, ◌≡◌, ◌≢◌, refl, ap, subst, false, ◌⊎◌, some, List, [], ◌∷◌,
  ◌++◌, arith, length, get_elem?, length-append, if◌then◌else◌, ◌==◌, ◌-◌,
}
use monnok_gigastt.Decode.{
  TokenInfo, DecoderState, DecoderOutput, Outcome, ok, err, DecodeError, panic, out_of_fuel, Loop,
  Flow, again, done, is_empty, count_blank, commit, frame_from, max_tokens_per_step, pred_hidden,
}

pub record IsShaped (s : DecoderState) : Type 0 where
  pub h_len : length s.h ≡ pred_hidden
  pub c_len : length s.c ≡ pred_hidden

-- The tokens are no blanks, and their frames ascend from `lo` on and stay below `hi`.
abbrev pub Ascends : ℕ → ℕ → ℕ → List TokenInfo → Type 0
Ascends blank_id lo hi [] = Unit {0}
Ascends blank_id lo hi (x ∷ xs) =
    (x.token_id ≢ blank_id)
    × (lo ≤ x.frame_index)
    × (x.frame_index < hi)
    × Ascends blank_id x.frame_index hi xs

Ascends-mono :
    (blank_id lo hi hi' : ℕ) (xs : List TokenInfo)
    → hi ≤ hi'
    → Ascends blank_id lo hi xs
    → Ascends blank_id lo hi' xs
Ascends-mono blank_id lo hi hi' [] h a = tt
Ascends-mono blank_id lo hi hi' (x ∷ xs) h a =
    (a.0, a.1, omega arith, Ascends-mono blank_id x.frame_index hi hi' xs h a.3)

Ascends-append :
    (blank_id lo t : ℕ) (xs : List TokenInfo) (x : TokenInfo)
    → x.frame_index ≡ t
    → x.token_id ≢ blank_id
    → lo ≤ t
    → Ascends blank_id lo (suc t) xs
    → Ascends blank_id lo (suc t) (xs ++ (x ∷ []))
Ascends-append blank_id lo t [] x e ne h a = (ne, omega arith, omega arith, tt)
Ascends-append blank_id lo t (y ∷ ys) x e ne h a =
    (a.0, a.1, a.2, Ascends-append blank_id y.frame_index t ys x e ne (omega arith) a.3)

-- How many tokens a frame has.
abbrev pub at_frame : ℕ → List TokenInfo → ℕ
at_frame f [] = 0
at_frame f (x ∷ xs) = let n = at_frame f xs in if x.frame_index == f then suc n else n

at_frame-snoc :
    (f : ℕ) (xs : List TokenInfo) (x : TokenInfo)
    → at_frame f (xs ++ (x ∷ []))
      ≡ (if x.frame_index == f then suc (at_frame f xs) else at_frame f xs)
at_frame-snoc f [] x = refl
at_frame-snoc f (y ∷ ys) x = ground (arith, at_frame-snoc f ys x)

-- What holds of the loops' variables, with the tokens' frames below `hi` and at most `count` tokens,
-- where each frame may have ten.
pub record IsSound (blank_id hi count : ℕ) (l : Loop) : Type 0 where
  pub shaped : IsShaped l.state
  pub ascends : Ascends blank_id 0 hi l.tokens
  pub few : length l.tokens ≤ count
  pub each : (f : ℕ) → at_frame f l.tokens ≤ max_tokens_per_step
  pub room : (f : ℕ) → at_frame f l.tokens ≤ count - max_tokens_per_step * f
  pub heard : (l.endpoint_detected ≡ false) ⊎ (is_empty l.tokens ≡ false)

abbrev pub HasCache : Loop → Type 0
HasCache l = (l.in_blank_run ≡ false) ⊎ ((out : DecoderOutput) × (l.cached ≡ some out))

abbrev pub Failed : DecodeError → DecoderState → Type 0
Failed e s = (e ≢ panic) × (e ≢ out_of_fuel) × IsShaped s

abbrev pub Good : ℕ → ℕ → ℕ → Outcome Loop → Type 0
Good blank_id hi count (ok l) = IsSound blank_id hi count l × HasCache l
Good blank_id hi count (err e s) = Failed e s

abbrev pub GoodFlow : ℕ → ℕ → ℕ → Outcome Flow → Type 0
GoodFlow blank_id t emitted (ok (again l)) =
    IsSound blank_id (suc t) (max_tokens_per_step * t + suc emitted) l
    × HasCache l
    × (emitted < max_tokens_per_step)
GoodFlow blank_id t emitted (ok (done l)) =
    IsSound blank_id (suc t) (max_tokens_per_step * t + emitted) l × HasCache l
GoodFlow blank_id t emitted (err e s) = Failed e s

abbrev pub Fetched : Loop → Outcome (DecoderOutput × Loop) → Type 0
Fetched l (ok (out, l₁)) =
    (l₁.state ≡ l.state)
    × (l₁.tokens ≡ l.tokens)
    × (l₁.endpoint_detected ≡ l.endpoint_detected)
    × (l₁.cached ≡ some out)
Fetched l (err e s) = (e ≢ panic) × (e ≢ out_of_fuel) × (s ≡ l.state)

pub IsSound-mono :
    (blank_id hi hi' count count' : ℕ) {l : Loop}
    → hi ≤ hi'
    → count ≤ count'
    → IsSound blank_id hi count l
    → IsSound blank_id hi' count' l
IsSound-mono blank_id hi hi' count count' {l} h k v = record {
  shaped = v.shaped;
  ascends = Ascends-mono blank_id 0 hi hi' l.tokens h v.ascends;
  few = omega arith;
  each = v.each;
  room = λ f. omega (arith, v.room f);
  heard = v.heard;
}

pub IsSound-same :
    (blank_id hi count : ℕ) {l l₁ : Loop}
    → l₁.state ≡ l.state
    → l₁.tokens ≡ l.tokens
    → l₁.endpoint_detected ≡ l.endpoint_detected
    → IsSound blank_id hi count l
    → IsSound blank_id hi count l₁
IsSound-same blank_id hi count e f g v = record {
  shaped = rw e v.shaped;
  ascends = rw f v.ascends;
  few = rw f v.few;
  each = rw f v.each;
  room = rw f v.room;
  heard = rw (f, g) v.heard;
}

pub count_blank-IsSound :
    (blank_id hi count : ℕ) (l : Loop)
    → IsSound blank_id hi count l
    → IsSound blank_id hi count (count_blank l)
unfolding count_blank
count_blank-IsSound blank_id hi count l v = record {
  shaped = record { h_len = v.shaped.h_len; c_len = v.shaped.c_len };
  ascends = v.ascends;
  few = v.few;
  each = v.each;
  room = v.room;
  heard = ground arith;
}

is_empty-snoc : (xs : List TokenInfo) (x : TokenInfo) → is_empty (xs ++ (x ∷ [])) ≡ false
is_empty-snoc [] x = refl
is_empty-snoc (y ∷ ys) x = refl

commit_lem :
    (l l' : Loop) (out : DecoderOutput) (t token confidence : ℕ)
    → IsShaped l.state
    → commit l out t token confidence ≡ ok l'
    → (l'.tokens
        ≡ l.tokens ++ (record { token_id = token; frame_index = t; confidence = confidence } ∷ []))
      × IsShaped l'.state
      × ((l'.endpoint_detected ≡ false) ⊎ (is_empty l'.tokens ≡ false))
      × (l'.in_blank_run ≡ false)
unfolding commit
commit_lem l l' out t token confidence v e = ground (
  arith,
  is_empty-snoc l.tokens (record { token_id = token; frame_index = t; confidence = confidence }),
)

-- A frame with less than ten tokens gets one more.
paced :
    (f t count n : ℕ)
    → n ≤ max_tokens_per_step
    → n ≤ count - max_tokens_per_step * f
    → max_tokens_per_step * t ≤ count
    → count < max_tokens_per_step * suc t
    → ((if t == f then suc n else n) ≤ max_tokens_per_step)
      × ((if t == f then suc n else n) ≤ suc count - max_tokens_per_step * f)
paced f t count n h k lo hi = ground arith

pub commit-IsSound :
    (blank_id t count : ℕ) (l l' : Loop) (out : DecoderOutput) (token confidence : ℕ)
    → max_tokens_per_step * t ≤ count
    → count < max_tokens_per_step * suc t
    → IsSound blank_id (suc t) count l
    → token ≢ blank_id
    → commit l out t token confidence ≡ ok l'
    → IsSound blank_id (suc t) (suc count) l' × (l'.in_blank_run ≡ false)
commit-IsSound blank_id t count l l' out token confidence lo hi v ne e =
    let x : TokenInfo = record { token_id = token; frame_index = t; confidence = confidence } in
    let (more, shaped, heard, off) = commit_lem l l' out t token confidence v.shaped e in
    let pace = λ (f : ℕ). paced f t count (at_frame f l.tokens) (v.each f) (v.room f) lo hi in
    (
      record {
        shaped = shaped;
        ascends = rw more (Ascends-append blank_id 0 t l.tokens x refl ne (omega arith) v.ascends);
        few = rw (more, length-append l.tokens (x ∷ [])) (omega (arith, v.few));
        each = λ f. rw (more, at_frame-snoc f l.tokens x) (pace f).0;
        room = λ f. rw (more, at_frame-snoc f l.tokens x) (pace f).1;
        heard = heard;
      },
      off,
    )

get_elem?-lt : (xs : List ℕ) (i : ℕ) → i < length xs → (x : ℕ) × (get_elem? xs i ≡ some x)
get_elem?-lt [] i h = absurd (omega arith)
get_elem?-lt (x ∷ xs) zero h = (x, refl)
get_elem?-lt (x ∷ xs) (suc i) h = get_elem?-lt xs i (omega arith)

cell-lt : (ch n len t size : ℕ) → (ch + suc n) * len ≤ size → t < len → ch * len + t < size
cell-lt ch n len t size h k = grind arith

frame_from-cons :
    (encoded : List ℕ) (encoded_len t ch n : ℕ) {x : ℕ} {xs : List ℕ}
    → get_elem? encoded (ch * encoded_len + t) ≡ some x
    → frame_from encoded encoded_len t (suc ch) n ≡ some xs
    → frame_from encoded encoded_len t ch (suc n) ≡ some (x ∷ xs)
unfolding frame_from
frame_from-cons encoded encoded_len t ch n at rest = ground arith

pub frame_from-some :
    (encoded : List ℕ) (encoded_len t ch n : ℕ)
    → t < encoded_len
    → (ch + n) * encoded_len ≤ length encoded
    → (frame : List ℕ) × (frame_from encoded encoded_len t ch n ≡ some frame) × (length frame ≡ n)
unfolding frame_from
frame_from-some encoded encoded_len t ch zero h k = ([], refl, refl)
frame_from-some encoded encoded_len t ch (suc n) h k =
    let (x, at) =
      get_elem?-lt encoded (ch * encoded_len + t)
        (cell-lt ch n encoded_len t (length encoded) k h) in
    let (xs, rest, len) =
      frame_from-some encoded encoded_len t (suc ch) n h
        (subst (λ m. m * encoded_len ≤ length encoded) (omega arith) k) in
    (x ∷ xs, frame_from-cons encoded encoded_len t ch n at rest, ap suc len)
