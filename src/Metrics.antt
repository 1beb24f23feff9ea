-- ===== src/Metrics.antt =====
-- The metrics registry of src/server/metrics.rs. Its maps are association lists; `f64` is a parameter,
-- with the operations that the code uses; an `i64` is its bit pattern. Each operation holds the
-- lock of its map from beginning to end, so it is one step.
pub mod RoundTrip
pub mod Slots
pub mod Totals
pub mod Ladder
pub mod Render
pub mod Covered
mod Tests
use monnok_gigastt.Base.{
  ℕ, ◌+◌, ◌-◌, ◌%◌, ◌^◌, Bool, true, false, ◌&&◌, ltb, ◌==◌, if◌then◌else◌, List, [], ◌∷◌, ◌++◌,
  length, replicate,
}
use monnok_gigastt.Words.{Text, text_eq}
use monnok_gigastt.Decode.{is_empty}

abbrev pub Labels : Type 0
Labels = List (Text × Text)

-- The order of strings, which is that of their code points and of their bytes.
abbrev pub text_leb : Text → Text → Bool
text_leb [] t = true
text_leb (a ∷ s) [] = false
text_leb (a ∷ s) (b ∷ t) = if a == b then text_leb s t else ltb a b

module _ {ℓ} {A : Type ℓ} (le : A → A → Bool) where
  abbrev pub insert_by : A → List A → List A
  insert_by a [] = a ∷ []
  insert_by a (b ∷ bs) = if le a b then a ∷ b ∷ bs else b ∷ insert_by a bs

  -- The stable sort of the standard library.
  abbrev pub sort_by : List A → List A
  sort_by [] = []
  sort_by (a ∷ bs) = insert_by a (sort_by bs)

-- By the names alone.
unfoldable pub sort_labels : Labels → Labels
sort_labels labels = sort_by (λ a b. text_leb a.0 b.0) labels

abbrev pub backslash : ℕ
backslash = 92

abbrev pub quote : ℕ
quote = 34

abbrev pub newline : ℕ
newline = 10

abbrev pub escape_char : ℕ → Text
escape_char c =
    if c == backslash
    then backslash ∷ backslash ∷ []
    else if c == quote
    then backslash ∷ quote ∷ []
    else if c == newline
    then backslash ∷ b'n' ∷ []
    else c ∷ []

abbrev pub escape : Text → Text
escape [] = []
escape (c ∷ cs) = escape_char c ++ escape cs

abbrev pub format_label : Text × Text → Text → Text
format_label (k, v) rest = k ++ (b'=' ∷ quote ∷ (escape v ++ (quote ∷ rest)))

abbrev pub format_rest : Labels → Text
format_rest [] = b'}' ∷ []
format_rest (l ∷ ls) = b',' ∷ format_label l (format_rest ls)

unfoldable pub format_labels : Labels → Text
format_labels [] = []
format_labels (l ∷ ls) = b'{' ∷ format_label l (format_rest ls)

abbrev pub labels_eq : Labels → Labels → Bool
labels_eq [] [] = true
labels_eq ((k, v) ∷ ls) ((k', v') ∷ ms) = (text_eq k k' && text_eq v v') && labels_eq ls ms
labels_eq _ _ = false

-- `*map.entry(key).or_insert(fresh)`, changed by `f`.
module _ {K V : Type 0} (eq : K → K → Bool) (fresh : V) (f : V → V) where
  abbrev pub entry : K → List (K × V) → List (K × V)
  entry k [] = (k, f fresh) ∷ []
  entry k ((k', v) ∷ m) = if eq k' k then (k', f v) ∷ m else (k', v) ∷ entry k m

-- `CounterFamily` and `GaugeFamily`, which have the same fields.
pub record NumberFamily : Type 0 where
  pub help : Text
  pub values : List (Labels × ℕ)

pub record HistogramSeries (F : Type 0) : Type 0 where
  pub counts : List ℕ
  pub sum : F
  pub count : ℕ

pub record HistogramFamily (F : Type 0) : Type 0 where
  pub help : Text
  pub buckets : List F
  pub series : List (Labels × HistogramSeries F)

pub record MetricsRegistry (F : Type 0) : Type 0 where
  pub counters : List (Text × NumberFamily)
  pub gauges : List (Text × NumberFamily)
  pub histograms : List (Text × HistogramFamily F)

-- `f64`: its order and equality, its sum, and how it is shown.
pub record Floats (F : Type 0) : Type 0 where
  pub le : F → F → Bool
  pub same : F → F → Bool
  pub add : F → F → F
  pub float_zero : F
  pub is_infinite : F → Bool
  pub is_sign_positive : F → Bool
  pub is_nan : F → Bool
  pub show_float : F → Text
  pub default_buckets : List F

-- A sum of 64 bits, which wraps.
abbrev pub add_64 : ℕ → ℕ → ℕ
add_64 a b = (a + b) % 2 ^ 64

abbrev pub number_family : NumberFamily
number_family = record { help = []; values = [] }

abbrev pub with_help : Text → NumberFamily → NumberFamily
with_help t fam = record fam { help = t }

abbrev pub add_value : Labels → ℕ → NumberFamily → NumberFamily
add_value labels delta fam = record fam {
  values = entry labels_eq 0 (λ v. add_64 v delta) labels fam.values;
}

abbrev pub set_value : Labels → ℕ → NumberFamily → NumberFamily
set_value labels value fam = record fam {
  values = entry labels_eq 0 (λ v. value) labels fam.values;
}

module _ {F : Type 0} where
  abbrev pub histogram_family : HistogramFamily F
  histogram_family = record { help = []; buckets = []; series = [] }

  unfoldable pub metrics_new : MetricsRegistry F
  metrics_new = record { counters = []; gauges = []; histograms = [] }

  unfoldable pub register_counter : Text → Text → MetricsRegistry F → MetricsRegistry F
  register_counter name h r = record r {
    counters = entry text_eq number_family (with_help h) name r.counters;
  }

  unfoldable pub register_gauge : Text → Text → MetricsRegistry F → MetricsRegistry F
  register_gauge name h r = record r {
    gauges = entry text_eq number_family (with_help h) name r.gauges;
  }

  unfoldable pub gauge_set : Text → Labels → ℕ → MetricsRegistry F → MetricsRegistry F
  gauge_set name labels value r = record r {
    gauges = entry text_eq number_family (set_value (sort_labels labels) value) name r.gauges;
  }

  unfoldable pub gauge_inc : Text → Labels → ℕ → MetricsRegistry F → MetricsRegistry F
  gauge_inc name labels delta r = record r {
    gauges = entry text_eq number_family (add_value (sort_labels labels) delta) name r.gauges;
  }

  unfoldable pub counter_inc : Text → Labels → ℕ → MetricsRegistry F → MetricsRegistry F
  counter_inc name labels delta r = record r {
    counters = entry text_eq number_family (add_value (sort_labels labels) delta) name r.counters;
  }

module _ {F : Type 0} (fl : Floats F) where
  -- `dedup`: of equal neighbours the first stays.
  abbrev pub dedup_from : F → List F → List F
  dedup_from b [] = []
  dedup_from b (c ∷ cs) = if fl.same b c then dedup_from b cs else c ∷ dedup_from c cs

  abbrev pub dedup : List F → List F
  dedup [] = []
  dedup (b ∷ bs) = b ∷ dedup_from b bs

  -- Bounds are taken to be no NaN, so that `partial_cmp` orders them.
  abbrev pub set_buckets : Text → List F → HistogramFamily F → HistogramFamily F
  set_buckets h bs fam = record fam { help = h; buckets = dedup (sort_by fl.le bs) }

  unfoldable pub register_histogram : Text → Text → List F → MetricsRegistry F → MetricsRegistry F
  register_histogram name h bs r = record r {
    histograms = entry text_eq histogram_family (set_buckets h bs) name r.histograms;
  }

  -- `resize`, which is called only to make the list longer.
  abbrev pub resized : List F → List ℕ → List ℕ
  resized bs counts = counts ++ replicate (length bs - length counts) 0

  -- Counts are at least as many as bounds here.
  abbrev pub bump : F → List F → List ℕ → List ℕ
  bump value [] counts = counts
  bump value (b ∷ bs) [] = []
  bump value (b ∷ bs) (c ∷ counts) =
      (if fl.le value b then add_64 c 1 else c) ∷ bump value bs counts

  abbrev pub series_new : List F → HistogramSeries F
  series_new bs = record { counts = replicate (length bs) 0; sum = fl.float_zero; count = 0 }

  abbrev pub observe : List F → F → HistogramSeries F → HistogramSeries F
  observe bs value s = record {
    counts = bump value bs (resized bs s.counts);
    sum = fl.add s.sum value;
    count = add_64 s.count 1;
  }

  abbrev pub buckets_or_default : List F → List F
  buckets_or_default bs = if is_empty bs then fl.default_buckets else bs

  abbrev pub record_in : Labels → F → HistogramFamily F → HistogramFamily F
  record_in labels value fam =
      let bs = buckets_or_default fam.buckets in
      record fam {
        buckets = bs;
        series = entry labels_eq (series_new bs) (observe bs value) labels fam.series;
      }

  unfoldable pub histogram_record : Text → Labels → F → MetricsRegistry F → MetricsRegistry F
  histogram_record name labels value r = record r {
    histograms =
        entry text_eq histogram_family (record_in (sort_labels labels) value) name r.histograms;
  }
