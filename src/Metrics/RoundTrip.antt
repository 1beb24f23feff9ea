-- ===== src/Metrics/RoundTrip.antt =====
-- Reading back what `format_labels` of src/server/metrics.rs writes.
use monnok_gigastt.Base.{
  ℕ, ◌≡◌, refl, sym, ◌∙◌, ap, true, false, inl, inr, Bool-cases, ◌==◌, ==_iff, subst, if◌then◌else◌,
  Option, none, some, [], ◌∷◌, ◌++◌, append_assoc, append-nil,
}
use monnok_gigastt.Words.{Text}
use monnok_gigastt.Metrics.{
  Labels, backslash, quote, newline, escape_char, escape, format_label, format_rest, format_labels,
}

-- Where a reader of labels is.
pub data Mode : Type 0 where
  in_name : Text → Mode
  after_equals : Text → Mode
  in_value : Text → Text → Mode
  in_escape : Text → Text → Mode
  after_value : Mode
  at_end : Mode

abbrev unescape_char : ℕ → ℕ
unescape_char c = if c == b'n' then newline else c

abbrev snoc : Text → ℕ → Text
snoc t c = t ++ (c ∷ [])

-- A reader of the text format: names end at `=`, values at a quote without a backslash.
abbrev pub read_labels : Mode → Labels → Text → Option Labels
read_labels at_end acc [] = some acc
read_labels (in_name k) acc [] = none
read_labels (after_equals k) acc [] = none
read_labels (in_value k v) acc [] = none
read_labels (in_escape k v) acc [] = none
read_labels after_value acc [] = none
read_labels at_end acc (c ∷ cs) = none
read_labels (in_name k) acc (c ∷ cs) =
    let done = read_labels (after_equals k) acc cs in
    let more = read_labels (in_name (snoc k c)) acc cs in if c == b'=' then done else more
read_labels (after_equals k) acc (c ∷ cs) =
    let opened = read_labels (in_value k []) acc cs in if c == quote then opened else none
read_labels (in_value k v) acc (c ∷ cs) =
    let done = read_labels after_value (acc ++ ((k, v) ∷ [])) cs in
    let escaped = read_labels (in_escape k v) acc cs in
    let more = read_labels (in_value k (snoc v c)) acc cs in
    if c == quote then done else if c == backslash then escaped else more
read_labels (in_escape k v) acc (c ∷ cs) =
    read_labels (in_value k (snoc v (unescape_char c))) acc cs
read_labels after_value acc (c ∷ cs) =
    let next = read_labels (in_name []) acc cs in
    let done = read_labels at_end acc cs in
    if c == b',' then next else if c == b'}' then done else none

abbrev pub parse_labels : Text → Option Labels
parse_labels [] = some []
parse_labels (c ∷ cs) = if c == b'{' then read_labels (in_name []) [] cs else none

abbrev pub HasNoEquals : Text → Type 0
HasNoEquals [] = Unit {0}
HasNoEquals (c ∷ cs) = ((c == b'=') ≡ false) × HasNoEquals cs

abbrev pub AllPlain : Labels → Type 0
AllPlain [] = Unit {0}
AllPlain ((k, v) ∷ ls) = HasNoEquals k × AllPlain ls

snoc_append : (t : Text) (c : ℕ) (cs : Text) → snoc t c ++ cs ≡ t ++ (c ∷ cs)
snoc_append t c cs = append_assoc t (c ∷ []) cs

read_name :
    (k done : Text) (acc : Labels) (rest : Text)
    → HasNoEquals k
    → read_labels (in_name done) acc (k ++ (b'=' ∷ rest))
      ≡ read_labels (after_equals (done ++ k)) acc rest
read_name [] done acc rest h =
    ap (λ t. read_labels (after_equals t) acc rest) (sym (append-nil done))
read_name (c ∷ k) done acc rest h = rw h.0 (
    read_name k (snoc done c) acc rest h.1
    ∙ ap (λ t. read_labels (after_equals t) acc rest) (snoc_append done c k))

read_char :
    (c : ℕ) (k done : Text) (acc : Labels) (rest : Text)
    → read_labels (in_value k done) acc (escape_char c ++ rest)
      ≡ read_labels (in_value k (snoc done c)) acc rest
read_char c k done acc rest = elim (Bool-cases (c == backslash)) [
  | inl b ↦ at backslash b refl
  | inr b ↦ elim (Bool-cases (c == quote)) [
    | inl q ↦ at quote q refl
    | inr q ↦ elim (Bool-cases (c == newline)) [
      | inl n ↦ at newline n refl
      | inr n ↦ rw (b, q, n) (rw (b, q) refl)
    ]
  ]
]
  where
    Reads : ℕ → Type 0
    Reads d =
        read_labels (in_value k done) acc (escape_char d ++ rest)
        ≡ read_labels (in_value k (snoc done d)) acc rest

    at : (d : ℕ) → (c == d) ≡ true → Reads d → Reads c
    at d e r = subst Reads (sym ((==_iff c d).0 e)) r

read_value :
    (v k done : Text) (acc : Labels) (rest : Text)
    → read_labels (in_value k done) acc (escape v ++ (quote ∷ rest))
      ≡ read_labels after_value (acc ++ ((k, done ++ v) ∷ [])) rest
read_value [] k done acc rest =
    ap (λ t. read_labels after_value (acc ++ ((k, t) ∷ [])) rest) (sym (append-nil done))
read_value (c ∷ v) k done acc rest =
    ap (λ t. read_labels (in_value k done) acc t)
      (append_assoc (escape_char c) (escape v) (quote ∷ rest))
    ∙ read_char c k done acc (escape v ++ (quote ∷ rest))
    ∙ read_value v k (snoc done c) acc rest
    ∙ ap (λ t. read_labels after_value (acc ++ ((k, t) ∷ [])) rest) (snoc_append done c v)

read_label :
    (l : Text × Text) (acc : Labels) (rest : Text)
    → HasNoEquals l.0
    → read_labels (in_name []) acc (format_label l rest)
      ≡ read_labels after_value (acc ++ (l ∷ [])) rest
read_label (k, v) acc rest h =
    read_name k [] acc (quote ∷ (escape v ++ (quote ∷ rest))) h ∙ read_value v k [] acc rest

read_rest :
    (ls acc : Labels)
    → AllPlain ls
    → read_labels after_value acc (format_rest ls) ≡ some (acc ++ ls)
read_rest [] acc h = ap some (sym (append-nil acc))
read_rest ((k, v) ∷ ls) acc h =
    read_label (k, v) acc (format_rest ls) h.0
    ∙ read_rest ls (acc ++ ((k, v) ∷ [])) h.1
    ∙ ap some (append_assoc acc ((k, v) ∷ []) ls)

-- No value of a label can break out of its quotes: where the names have no `=`, a reader of the
-- text format gets back the labels that were written, whatever bytes the values have.
pub parse_labels-format_labels :
    (ls : Labels) → AllPlain ls → parse_labels (format_labels ls) ≡ some ls
unfolding format_labels
parse_labels-format_labels [] h = refl
parse_labels-format_labels ((k, v) ∷ ls) h =
    read_label (k, v) [] (format_rest ls) h.0 ∙ read_rest ls ((k, v) ∷ []) h.1
