-- ===== src/Metrics/Totals.antt =====
-- Sequences of operations on the registry of src/server/metrics.rs, and what its counters have then.
use monnok_gigastt.Base.{
  ℕ, ◌+◌, ◌%◌, ◌^◌, ◌<◌, ◌≡◌, refl, ◌∙◌, ap, Bool, true, false, ◌&&◌, inl, inr, Bool-cases,
  if◌then◌else◌, List, [], ◌∷◌, arith,
}
use monnok_gigastt.Words.{Text, text_eq}
use monnok_gigastt.Metrics.{
  Labels, sort_labels, labels_eq, NumberFamily, number_family, MetricsRegistry, Floats, add_64,
  add_value, with_help, register_counter, register_gauge, gauge_set, gauge_inc, counter_inc,
  register_histogram, histogram_record,
}
use monnok_gigastt.Metrics.Slots.{slot, slot-entry, text_eq-IsEquality, labels_eq-IsEquality}

pub data Op (F : Type 0) : Type 0 where
  registers_counter : (name help : Text) → Op F
  registers_gauge : (name help : Text) → Op F
  registers_histogram : (name help : Text) (buckets : List F) → Op F
  sets_gauge : (name : Text) (labels : Labels) (value : ℕ) → Op F
  incs_gauge : (name : Text) (labels : Labels) (delta : ℕ) → Op F
  incs_counter : (name : Text) (labels : Labels) (delta : ℕ) → Op F
  records_value : (name : Text) (labels : Labels) (value : F) → Op F

module _ {F : Type 0} (fl : Floats F) where
  abbrev pub apply : Op F → MetricsRegistry F → MetricsRegistry F
  apply (registers_counter name h) r = register_counter name h r
  apply (registers_gauge name h) r = register_gauge name h r
  apply (registers_histogram name h bs) r = register_histogram fl name h bs r
  apply (sets_gauge name labels value) r = gauge_set name labels value r
  apply (incs_gauge name labels delta) r = gauge_inc name labels delta r
  apply (incs_counter name labels delta) r = counter_inc name labels delta r
  apply (records_value name labels value) r = histogram_record fl name labels value r

  unfoldable pub run : List (Op F) → MetricsRegistry F → MetricsRegistry F
  run [] r = r
  run (op ∷ ops) r = run ops (apply op r)

-- What a counter has under its sorted labels; zero before its first increment.
abbrev pub value_in : Labels → NumberFamily → ℕ
value_in labels fam = slot labels_eq 0 labels fam.values

module _ {F : Type 0} where
  abbrev pub counter_at : Text → Labels → MetricsRegistry F → ℕ
  counter_at name labels r = value_in labels (slot text_eq number_family name r.counters)

  -- What one operation adds to a counter.
  abbrev pub added : Text → Labels → Op F → ℕ
  added name labels (incs_counter n ls d) =
      if text_eq n name && labels_eq (sort_labels ls) labels then d else 0
  added name labels _ = 0

  abbrev pub total : Text → Labels → List (Op F) → ℕ
  total name labels [] = 0
  total name labels (op ∷ ops) = added name labels op + total name labels ops

value_in-add_value :
    (k l : Labels) (d : ℕ) (fam : NumberFamily)
    → value_in l (add_value k d fam)
      ≡ (if labels_eq k l then add_64 (value_in l fam) d else value_in l fam)
value_in-add_value k l d fam =
    slot-entry labels_eq 0 labels_eq-IsEquality (λ v. add_64 v d) k l fam.values

module _ {F : Type 0} (fl : Floats F) where
  counter_at-counter_inc :
      (name n : Text) (labels ls : Labels) (d : ℕ) (r : MetricsRegistry F)
      → counter_at name labels r < 2 ^ 64
      → counter_at name labels (counter_inc n ls d r)
        ≡ (counter_at name labels r + added {F = F} name labels (incs_counter n ls d)) % 2 ^ 64
  unfolding counter_inc
  counter_at-counter_inc name n labels ls d r h =
      ap (value_in labels) (
        slot-entry text_eq number_family text_eq-IsEquality (add_value (sort_labels ls) d) n name
          r.counters)
      ∙ go (text_eq n name)
    where
      fam : NumberFamily
      fam = slot text_eq number_family name r.counters

      go :
          (c : Bool)
          → value_in labels (if c then add_value (sort_labels ls) d fam else fam)
            ≡ (value_in labels fam + (if c && labels_eq (sort_labels ls) labels then d else 0))
              % 2 ^ 64
      go false = omega (arith, h)
      go true =
          value_in-add_value (sort_labels ls) labels d fam
          ∙ elim (Bool-cases (labels_eq (sort_labels ls) labels)) [
            | inl b ↦ rw b refl
            | inr b ↦ rw b (omega (arith, h))
          ]

  counter_at-register :
      (name n h : Text) (labels : Labels) (r : MetricsRegistry F)
      → counter_at name labels (register_counter n h r) ≡ counter_at name labels r
  unfolding register_counter
  counter_at-register name n h labels r =
      ap (value_in labels)
        (slot-entry text_eq number_family text_eq-IsEquality (with_help h) n name r.counters)
      ∙ go (text_eq n name)
    where
      fam : NumberFamily
      fam = slot text_eq number_family name r.counters

      go : (c : Bool) → value_in labels (if c then with_help h fam else fam) ≡ value_in labels fam
      go true = refl
      go false = refl

  counter_at-apply :
      (name : Text) (labels : Labels) (op : Op F) (r : MetricsRegistry F)
      → counter_at name labels r < 2 ^ 64
      → counter_at name labels (apply fl op r)
        ≡ (counter_at name labels r + added name labels op) % 2 ^ 64
  unfolding register_gauge register_histogram gauge_set gauge_inc histogram_record
  counter_at-apply name labels (registers_counter n h) r v =
      omega (arith, v, counter_at-register name n h labels r)
  counter_at-apply name labels (registers_gauge n h) r v = omega (arith, v)
  counter_at-apply name labels (registers_histogram n h bs) r v = omega (arith, v)
  counter_at-apply name labels (sets_gauge n ls x) r v = omega (arith, v)
  counter_at-apply name labels (incs_gauge n ls x) r v = omega (arith, v)
  counter_at-apply name labels (incs_counter n ls d) r v =
      counter_at-counter_inc name n labels ls d r v
  counter_at-apply name labels (records_value n ls x) r v = omega (arith, v)

  -- Every increment counts once, and only for its own counter. Over any operations on the registry,
  -- among others on gauges and histograms, a counter that fits 64 bits grows by the sum of the
  -- increments with its name and, sorted, its labels, up to a wrap at 64 bits.
  pub counter_at-run :
      (name : Text) (labels : Labels) (ops : List (Op F)) (r : MetricsRegistry F)
      → counter_at name labels r < 2 ^ 64
      → counter_at name labels (run fl ops r)
        ≡ (counter_at name labels r + total name labels ops) % 2 ^ 64
  unfolding run
  counter_at-run name labels [] r v = omega (arith, v)
  counter_at-run name labels (op ∷ ops) r v =
      let once = counter_at-apply name labels op r v in
      omega (arith, once, counter_at-run name labels ops (apply fl op r) (omega (arith, once)))
