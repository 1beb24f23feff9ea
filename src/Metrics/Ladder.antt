-- ===== src/Metrics/Ladder.antt =====
-- The buckets of a histogram in src/server/metrics.rs.
use monnok_gigastt.Base.{
  ℕ, suc, ap₂, ◌+◌, ◌-◌, ◌%◌, ◌^◌, ◌≡◌, refl, sym, ◌∙◌, ap, subst, Bool, true, false, ◌&&◌,
  if◌then◌else◌, List, [], ◌∷◌, ◌++◌, arith, length, replicate, append-nil,
}
use monnok_gigastt.Words.{Text, text_eq}
use monnok_gigastt.Decode.{is_empty}
use monnok_gigastt.Metrics.{
  Labels, sort_labels, labels_eq, entry, HistogramSeries, HistogramFamily, histogram_family,
  MetricsRegistry, Floats, add_64, register_counter, register_gauge, gauge_set, gauge_inc,
  counter_inc, register_histogram, histogram_record, resized, bump, series_new, observe,
  buckets_or_default, record_in, set_buckets,
}
use monnok_gigastt.Metrics.Slots.{slot, slot-entry, text_eq-IsEquality, labels_eq-IsEquality}
use monnok_gigastt.Metrics.Totals.{
  Op, registers_counter, registers_gauge, registers_histogram, sets_gauge, incs_gauge, incs_counter,
  records_value, apply, run,
}

module _ {F : Type 0} where
  abbrev pub family_at : Text → MetricsRegistry F → HistogramFamily F
  family_at name r = slot text_eq histogram_family name r.histograms

  -- There is no series with these labels.
  abbrev pub AllOther : Labels → List (Labels × HistogramSeries F) → Type 0
  AllOther labels [] = Unit {0}
  AllOther labels ((l, s) ∷ m) = (labels_eq l labels ≡ false) × AllOther labels m

  -- The operation does not register the histogram again.
  abbrev pub Spares : Text → Op F → Type 0
  Spares name (registers_histogram n h bs) = text_eq n name ≡ false
  Spares name _ = Unit {0}

  abbrev pub AllSpare : Text → List (Op F) → Type 0
  AllSpare name [] = Unit {0}
  AllSpare name (op ∷ ops) = Spares name op × AllSpare name ops

abbrev pub tick : Bool → ℕ → ℕ
tick true n = n + 1
tick false n = n

tick_add : (c : Bool) (m n : ℕ) → m + tick c n ≡ tick c m + n
tick_add true m n = omega arith
tick_add false m n = refl

module _ {F : Type 0} (fl : Floats F) where
  abbrev pub series_at : Labels → HistogramFamily F → HistogramSeries F
  series_at labels fam = slot labels_eq (series_new fl fam.buckets) labels fam.series

  -- Whether an operation is an observation of this series, and of at most `b`.
  abbrev pub hit : Text → Labels → F → Op F → Bool
  hit name labels b (records_value n ls v) =
      (text_eq n name && labels_eq (sort_labels ls) labels) && fl.le v b
  hit name labels b _ = false

  abbrev pub hits : Text → Labels → List (Op F) → F → ℕ
  hits name labels [] b = 0
  hits name labels (op ∷ ops) b = tick (hit name labels b op) (hits name labels ops b)

  -- One number for each bound.
  abbrev pub ladder : (F → ℕ) → List F → List ℕ
  ladder f [] = []
  ladder f (b ∷ bs) = f b % 2 ^ 64 ∷ ladder f bs

  ladder-length : (f : F → ℕ) (bs : List F) → length (ladder f bs) ≡ length bs
  ladder-length f [] = refl
  ladder-length f (b ∷ bs) = ap suc (ladder-length f bs)

  ladder-zero : (bs : List F) → replicate (length bs) 0 ≡ ladder (λ b. 0) bs
  ladder-zero [] = refl
  ladder-zero (b ∷ bs) = ap (λ cs. 0 ∷ cs) (ladder-zero bs)

  ladder-ext : (f g : F → ℕ) (bs : List F) → ((b : F) → f b ≡ g b) → ladder f bs ≡ ladder g bs
  ladder-ext f g [] e = refl
  ladder-ext f g (b ∷ bs) e = ap₂ (λ n ns. n % 2 ^ 64 ∷ ns) (e b) (ladder-ext f g bs e)

  resized-ladder : (f : F → ℕ) (bs : List F) → resized fl bs (ladder f bs) ≡ ladder f bs
  resized-ladder f bs =
      let full : length bs - length (ladder f bs) ≡ 0 = omega (arith, ladder-length f bs) in
      ap (λ n. ladder f bs ++ replicate n 0) full ∙ append-nil (ladder f bs)

  bump-ladder :
      (v : F) (f : F → ℕ) (bs : List F)
      → bump fl v bs (ladder f bs) ≡ ladder (λ b. tick (fl.le v b) (f b)) bs
  bump-ladder v f [] = refl
  bump-ladder v f (b ∷ bs) = ap₂ (λ n ns. n ∷ ns) (go (fl.le v b)) (bump-ladder v f bs)
    where
      go :
          (c : Bool) → (if c then add_64 (f b % 2 ^ 64) 1 else f b % 2 ^ 64) ≡ tick c (f b) % 2 ^ 64
      go true = omega arith
      go false = refl

  -- The bounds are there, and the counts are `f` of them.
  abbrev pub Counted : Labels → List F → (F → ℕ) → HistogramFamily F → Type 0
  Counted labels bs f fam =
      (fam.buckets ≡ bs)
      × (is_empty fam.buckets ≡ false)
      × ((series_at labels fam).counts ≡ ladder f bs)

  observe-ladder :
      (bs : List F) (f : F → ℕ) (v : F) (s : HistogramSeries F)
      → s.counts ≡ ladder f bs
      → (observe fl bs v s).counts ≡ ladder (λ b. tick (fl.le v b) (f b)) bs
  observe-ladder bs f v s e =
      ap (λ cs. bump fl v bs (resized fl bs cs)) e
      ∙ ap (λ cs. bump fl v bs cs) (resized-ladder f bs)
      ∙ bump-ladder v f bs

  entry-ladder :
      (labels ls : Labels) (bs : List F) (f : F → ℕ) (v : F) (m : List (Labels × HistogramSeries F))
      → (slot labels_eq (series_new fl bs) labels m).counts ≡ ladder f bs
      → (slot labels_eq
          (series_new fl bs)
          labels
          (entry labels_eq (series_new fl bs) (observe fl bs v) ls m)).counts
        ≡ ladder (λ b. tick (labels_eq ls labels && fl.le v b) (f b)) bs
  entry-ladder labels ls bs f v m e =
      ap (λ s. s.counts)
        (slot-entry labels_eq (series_new fl bs) labels_eq-IsEquality (observe fl bs v) ls labels m)
      ∙ go (labels_eq ls labels)
    where
      go :
          (c : Bool)
          → (let s = slot labels_eq (series_new fl bs) labels m in
              if c then observe fl bs v s else s).counts
            ≡ ladder (λ b. tick (c && fl.le v b) (f b)) bs
      go true = observe-ladder bs f v (slot labels_eq (series_new fl bs) labels m) e
      go false = e

  record_in-Counted :
      (labels ls : Labels) (bs : List F) (f : F → ℕ) (v : F) (fam : HistogramFamily F)
      → Counted labels bs f fam
      → Counted labels bs
          (λ b. tick (labels_eq ls labels && fl.le v b) (f b))
          (record_in fl ls v fam)
  record_in-Counted labels ls bs f v fam (at, some_bound, counts) = subst After (sym (same ∙ at)) (
    refl,
    subst (λ cs. is_empty cs ≡ false) at some_bound,
    entry-ladder labels ls bs f v fam.series (
        subst (λ cs. (slot labels_eq (series_new fl cs) labels fam.series).counts ≡ ladder f bs) at
          counts),
  )
    where
      same : buckets_or_default fl fam.buckets ≡ fam.buckets
      same = rw some_bound refl

      After : List F → Type 0
      After cs =
          (cs ≡ bs)
          × (is_empty cs ≡ false)
          × ((slot labels_eq (series_new fl cs) labels
                (entry labels_eq (series_new fl cs) (observe fl cs v) ls fam.series)).counts
              ≡ ladder (λ b. tick (labels_eq ls labels && fl.le v b) (f b)) bs)

  apply-Counted :
      (name : Text) (labels : Labels) (bs : List F) (f : F → ℕ) (op : Op F) (r : MetricsRegistry F)
      → Spares name op
      → Counted labels bs f (family_at name r)
      → Counted labels bs (λ b. tick (hit name labels b op) (f b)) (family_at name (apply fl op r))
  unfolding register_counter register_gauge gauge_set gauge_inc counter_inc register_histogram
      histogram_record
  apply-Counted name labels bs f (registers_counter n h) r k v = v
  apply-Counted name labels bs f (registers_gauge n h) r k v = v
  apply-Counted name labels bs f (sets_gauge n ls x) r k v = v
  apply-Counted name labels bs f (incs_gauge n ls x) r k v = v
  apply-Counted name labels bs f (incs_counter n ls x) r k v = v
  apply-Counted name labels bs f (registers_histogram n h cs) r k v =
      subst (Counted labels bs f)
        (sym (
          slot-entry text_eq histogram_family text_eq-IsEquality (set_buckets fl h cs) n name
            r.histograms
          ∙ ap (λ c. if c then set_buckets fl h cs (family_at name r) else family_at name r) k))
        v
  apply-Counted name labels bs f (records_value n ls x) r k v =
      subst
        (Counted labels bs
          (λ b. tick ((text_eq n name && labels_eq (sort_labels ls) labels) && fl.le x b) (f b)))
        (sym (
          slot-entry text_eq histogram_family text_eq-IsEquality (record_in fl (sort_labels ls) x) n
            name r.histograms))
        (go (text_eq n name))
    where
      go :
          (c : Bool)
          → Counted labels bs
              (λ b. tick ((c && labels_eq (sort_labels ls) labels) && fl.le x b) (f b))
              (if c then record_in fl (sort_labels ls) x (family_at name r) else family_at name r)
      go true = record_in-Counted labels (sort_labels ls) bs f x (family_at name r) v
      go false = v

  run-Counted :
      (name : Text) (labels : Labels) (bs : List F) (f : F → ℕ) (ops : List (Op F))
      (r : MetricsRegistry F)
      → AllSpare name ops
      → Counted labels bs f (family_at name r)
      → Counted labels bs (λ b. hits name labels ops b + f b) (family_at name (run fl ops r))
  unfolding run
  run-Counted name labels bs f [] r k v =
      (v.0, v.1, v.2 ∙ ladder-ext f (λ b. 0 + f b) bs (λ b. omega arith))
  run-Counted name labels bs f (op ∷ ops) r k v =
      let next =
        run-Counted name labels bs (λ b. tick (hit name labels b op) (f b)) ops (apply fl op r) k.1
          (apply-Counted name labels bs f op r k.0 v) in
      (
        next.0,
        next.1,
        next.2
            ∙ ladder-ext (λ b. hits name labels ops b + tick (hit name labels b op) (f b))
                (λ b. hits name labels (op ∷ ops) b + f b) bs
                (λ b. tick_add (hit name labels b op) (hits name labels ops b) (f b)),
      )

  slot-AllOther :
      (labels : Labels) (fresh : HistogramSeries F) (m : List (Labels × HistogramSeries F))
      → AllOther labels m
      → slot labels_eq fresh labels m ≡ fresh
  slot-AllOther labels fresh [] h = refl
  slot-AllOther labels fresh ((l, s) ∷ m) (e, h) = rw e (slot-AllOther labels fresh m h)

  -- The count of each bucket is what the text format asks for: the number of observations of at most its
  -- bound, up to a wrap at 64 bits. This holds for a histogram that has its bounds and no series
  -- with these labels yet, over any operations on the registry that do not register it again.
  pub run-ladder :
      (name : Text) (labels : Labels) (bs : List F) (ops : List (Op F)) (r : MetricsRegistry F)
      → (family_at name r).buckets ≡ bs
      → is_empty bs ≡ false
      → AllOther labels (family_at name r).series
      → AllSpare name ops
      → (series_at labels (family_at name (run fl ops r))).counts ≡ ladder (hits name labels ops) bs
  run-ladder name labels bs ops r at some_bound none_yet k =
      let fam = family_at name r in
      let zeros : (series_at labels fam).counts ≡ ladder (λ b. 0) bs =
        ap (λ s. s.counts) (slot-AllOther labels (series_new fl fam.buckets) fam.series none_yet)
        ∙ ap (λ cs. replicate (length cs) 0) at
        ∙ ladder-zero bs in
      let (_, _, counts) =
        run-Counted name labels bs (λ b. 0) ops r k
          (at, subst (λ cs. is_empty cs ≡ false) (sym at) some_bound, zeros) in
      counts
      ∙ ladder-ext (λ b. hits name labels ops b + 0) (hits name labels ops) bs (λ b. omega arith)
