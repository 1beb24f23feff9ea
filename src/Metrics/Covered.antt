-- ===== src/Metrics/Covered.antt =====
-- When `render_prometheus` of src/server/metrics.rs does not panic.
use monnok_gigastt.Base.{
  ℕ, ◌-◌, ◌≤◌, ◌≡◌, refl, sym, subst, Bool, true, false, inl, inr, Bool-cases, if◌then◌else◌,
  Option, some, List, [], ◌∷◌, ◌++◌, arith, length, replicate, length-append, length-replicate,
}
use monnok_gigastt.Words.{Text, text_eq}
use monnok_gigastt.Decode.{is_empty}
use monnok_gigastt.Metrics.{
  Labels, sort_labels, labels_eq, entry, insert_by, sort_by, HistogramSeries, HistogramFamily,
  histogram_family, MetricsRegistry, Floats, register_counter, register_gauge, gauge_set, gauge_inc,
  counter_inc, newline, metrics_new, register_histogram, histogram_record, resized, bump,
  series_new, observe, buckets_or_default, record_in, set_buckets,
}
use monnok_gigastt.Metrics.Slots.{slot}
use monnok_gigastt.Metrics.Totals.{
  Op, registers_counter, registers_gauge, registers_histogram, sets_gauge, incs_gauge, incs_counter,
  records_value, apply, run,
}
use monnok_gigastt.Metrics.Ladder.{family_at}
use monnok_gigastt.Metrics.Render.{
  then_text, help_line, type_line, histogram_text, number_families, counter_text, gauge_text,
  bucket_lines, all_series, histogram_families, by_key, by_labels, render_prometheus,
}

-- A property of all values of a map.
abbrev pub AllValues : {K V : Type 0} → (V → Type 0) → List (K × V) → Type 0
AllValues P [] = Unit {0}
AllValues P ((k, v) ∷ m) = P v × AllValues P m

module _ {K V : Type 0} (P : V → Type 0) where
  AllValues-insert_by :
      (le : K × V → K × V → Bool) (a : K × V) (m : List (K × V))
      → P a.1
      → AllValues P m
      → AllValues P (insert_by le a m)
  AllValues-insert_by le a [] h k = (h, tt)
  AllValues-insert_by le a (b ∷ m) h k = elim (Bool-cases (le a b)) [
    | inl e ↦ rw e (h, k)
    | inr e ↦ rw e (k.0, AllValues-insert_by le a m h k.1)
  ]

  AllValues-sort_by :
      (le : K × V → K × V → Bool) (m : List (K × V)) → AllValues P m → AllValues P (sort_by le m)
  AllValues-sort_by le [] h = tt
  AllValues-sort_by le (a ∷ m) h =
      AllValues-insert_by le a (sort_by le m) h.0 (AllValues-sort_by le m h.1)

  AllValues-slot :
      (eq : K → K → Bool) (fresh : V) (k : K) (m : List (K × V))
      → P fresh
      → AllValues P m
      → P (slot eq fresh k m)
  AllValues-slot eq fresh k [] p h = p
  AllValues-slot eq fresh k ((l, v) ∷ m) p h = elim (Bool-cases (eq l k)) [
    | inl e ↦ rw e h.0
    | inr e ↦ rw e (AllValues-slot eq fresh k m p h.1)
  ]

  AllValues-entry :
      (eq : K → K → Bool) (fresh : V) (f : V → V) (k : K) (m : List (K × V))
      → P (f (slot eq fresh k m))
      → AllValues P m
      → AllValues P (entry eq fresh f k m)
  AllValues-entry eq fresh f k [] p h = (p, tt)
  AllValues-entry eq fresh f k ((l, v) ∷ m) p h = elim (Bool-cases (eq l k)) [
    | inl e ↦ rw e (rw e at p, h.1)
    | inr e ↦ rw e (h.0, AllValues-entry eq fresh f k m (rw e at p) h.1)
  ]

abbrev pub Renders : Option Text → Type 0
Renders o = (t : Text) × (o ≡ some t)

then_text-Renders : (o p : Option Text) → Renders o → Renders p → Renders (then_text o p)
then_text-Renders o p (t, e) (u, f) = (t ++ u, rw (e, f) refl)

module _ {F : Type 0} where
  -- The series has a count for each bound.
  abbrev pub HasCounts : List F → HistogramSeries F → Type 0
  HasCounts bs s = length bs ≤ length s.counts

  -- And without bounds there is no series.
  abbrev pub IsCovered : HistogramFamily F → Type 0
  IsCovered fam =
      AllValues (HasCounts fam.buckets) fam.series × (is_empty fam.buckets ≡ true → fam.series ≡ [])

  abbrev pub AllCovered : MetricsRegistry F → Type 0
  AllCovered r = AllValues IsCovered r.histograms

module _ {F : Type 0} (fl : Floats F) where
  -- A histogram is registered only before anything is recorded in it.
  abbrev pub IsEarly : Op F → MetricsRegistry F → Type 0
  IsEarly (registers_histogram name h bs) r = (family_at name r).series ≡ []
  IsEarly _ r = Unit {0}

  abbrev pub AllEarly : List (Op F) → MetricsRegistry F → Type 0
  AllEarly [] r = Unit {0}
  AllEarly (op ∷ ops) r = IsEarly op r × AllEarly ops (apply fl op r)

  length-bump :
      (v : F) (bs : List F) (counts : List ℕ)
      → length bs ≤ length counts
      → length (bump fl v bs counts) ≡ length counts
  length-bump v [] counts h = refl
  length-bump v (b ∷ bs) [] h = absurd (omega (arith, h))
  length-bump v (b ∷ bs) (n ∷ counts) h = omega (arith, length-bump v bs counts (omega (arith, h)))

  length-resized : (bs : List F) (counts : List ℕ) → length bs ≤ length (resized fl bs counts)
  length-resized bs counts =
      let n = length bs - length counts in
      omega (arith, length-append counts (replicate n 0), length-replicate {A = ℕ} n 0)

  observe-HasCounts :
      (bs : List F) (v : F) (s : HistogramSeries F) → HasCounts bs (observe fl bs v s)
  observe-HasCounts bs v s =
      let full = length-resized bs s.counts in
      omega (arith, full, length-bump v bs (resized fl bs s.counts) full)

  record_in-IsCovered :
      (labels : Labels) (v : F) (fam : HistogramFamily F)
      → is_empty fl.default_buckets ≡ false
      → IsCovered fam
      → IsCovered (record_in fl labels v fam)
  record_in-IsCovered labels v fam d (h, e) = (
    AllValues-entry (HasCounts (buckets_or_default fl fam.buckets)) labels_eq
        (series_new fl (buckets_or_default fl fam.buckets))
        (observe fl (buckets_or_default fl fam.buckets) v) labels fam.series
        (observe-HasCounts (buckets_or_default fl fam.buckets) v
          (slot labels_eq (series_new fl (buckets_or_default fl fam.buckets)) labels fam.series))
        (go (is_empty fam.buckets) refl),
    λ f. absurd (bounds (is_empty fam.buckets) refl f),
  )
    where
      go :
          (c : Bool)
          → is_empty fam.buckets ≡ c
          → AllValues (HasCounts (if c then fl.default_buckets else fam.buckets)) fam.series
      go true q = subst (λ m. AllValues (HasCounts fl.default_buckets) m) (sym (e q)) tt
      go false q = h

      bounds :
          (c : Bool)
          → is_empty fam.buckets ≡ c
          → is_empty (if c then fl.default_buckets else fam.buckets) ≡ true
          → ⊥
      bounds true q f = cc
      bounds false q f = cc

  pub apply-AllCovered :
      (op : Op F) (r : MetricsRegistry F)
      → is_empty fl.default_buckets ≡ false
      → IsEarly op r
      → AllCovered r
      → AllCovered (apply fl op r)
  unfolding register_counter register_gauge gauge_set gauge_inc counter_inc register_histogram
      histogram_record
  apply-AllCovered (registers_counter n h) r d k v = v
  apply-AllCovered (registers_gauge n h) r d k v = v
  apply-AllCovered (sets_gauge n ls x) r d k v = v
  apply-AllCovered (incs_gauge n ls x) r d k v = v
  apply-AllCovered (incs_counter n ls x) r d k v = v
  apply-AllCovered (registers_histogram n h bs) r d k v =
      AllValues-entry IsCovered text_eq histogram_family (set_buckets fl h bs) n r.histograms
        (
          subst (λ m. AllValues (HasCounts (set_buckets fl h bs (family_at n r)).buckets) m) (sym k)
              tt,
          λ e. k,
        )
        v
  apply-AllCovered (records_value n ls x) r d k v =
      AllValues-entry IsCovered text_eq histogram_family (record_in fl (sort_labels ls) x) n
        r.histograms
        (record_in-IsCovered (sort_labels ls) x (family_at n r) d
          (AllValues-slot IsCovered text_eq histogram_family n r.histograms (tt, λ e. refl) v))
        v

  pub run-AllCovered :
      (ops : List (Op F)) (r : MetricsRegistry F)
      → is_empty fl.default_buckets ≡ false
      → AllEarly ops r
      → AllCovered r
      → AllCovered (run fl ops r)
  unfolding run
  run-AllCovered [] r d k v = v
  run-AllCovered (op ∷ ops) r d k v =
      run-AllCovered ops (apply fl op r) d k.1 (apply-AllCovered op r d k.0 v)

module _ {F : Type 0} (fl : Floats F) (show_u64 show_i64 : ℕ → Text) where
  bucket_lines-Renders :
      (name inner : Text) (bs : List F) (counts : List ℕ)
      → length bs ≤ length counts
      → Renders (bucket_lines fl show_u64 show_i64 name inner bs counts)
  bucket_lines-Renders name inner [] counts h = ([], refl)
  bucket_lines-Renders name inner (b ∷ bs) [] h = absurd (omega (arith, h))
  bucket_lines-Renders name inner (b ∷ bs) (n ∷ counts) h =
      then_text-Renders _ _ (_, refl) (bucket_lines-Renders name inner bs counts (omega (arith, h)))

  all_series-Renders :
      (name : Text) (bs : List F) (m : List (Labels × HistogramSeries F))
      → AllValues (HasCounts bs) m
      → Renders (all_series fl show_u64 show_i64 name bs m)
  all_series-Renders name bs [] h = ([], refl)
  all_series-Renders name bs ((labels, s) ∷ m) h =
      then_text-Renders _ _
        (then_text-Renders _ _ (bucket_lines-Renders name _ bs s.counts h.0) (_, refl))
        (all_series-Renders name bs m h.1)

  histogram_families-Renders :
      (m : List (Text × HistogramFamily F))
      → AllValues IsCovered m
      → Renders (histogram_families fl show_u64 show_i64 m)
  histogram_families-Renders [] h = ([], refl)
  histogram_families-Renders ((name, fam) ∷ m) h =
      then_text-Renders (some (help_line name fam.help ++ type_line name histogram_text)) _
        (_, refl)
        (then_text-Renders _ _
          (all_series-Renders name fam.buckets (sort_by by_labels fam.series)
            (AllValues-sort_by (HasCounts fam.buckets) by_labels fam.series h.0.0))
          (then_text-Renders (some (newline ∷ [])) _ (_, refl) (histogram_families-Renders m h.1)))

  pub render_prometheus-Renders :
      (r : MetricsRegistry F) → AllCovered r → Renders (render_prometheus fl show_u64 show_i64 r)
  unfolding render_prometheus
  render_prometheus-Renders r h =
      then_text-Renders (some (number_families show_u64 counter_text (sort_by by_key r.counters))) _
        (_, refl)
        (then_text-Renders (some (number_families show_i64 gauge_text (sort_by by_key r.gauges))) _
          (_, refl)
          (histogram_families-Renders (sort_by by_key r.histograms)
            (AllValues-sort_by IsCovered by_key r.histograms h)))

  -- A scrape always gets its text. After any operations on a new registry that register each histogram
  -- only before anything is recorded in it, with default bounds that are some, rendering does not
  -- panic.
  pub render_prometheus-run :
      (ops : List (Op F))
      → is_empty fl.default_buckets ≡ false
      → AllEarly fl ops metrics_new
      → Renders (render_prometheus fl show_u64 show_i64 (run fl ops metrics_new))
  render_prometheus-run ops d k =
      render_prometheus-Renders (run fl ops metrics_new)
        (run-AllCovered fl ops metrics_new d k (unfold metrics_new in tt))
