-- ===== src/Metrics/Render.antt =====
-- `render_prometheus` of src/server/metrics.rs. The result is `none` where the code panics: at a bound
-- for which a series has no count.
use monnok_gigastt.Base.{
  ℕ, Bool, true, false, ◌==◌, if◌then◌else◌, Option, none, some, List, [], ◌∷◌, ◌++◌,
}
use monnok_gigastt.Words.{Text, text_eq}
use monnok_gigastt.Decode.{is_empty}
use monnok_gigastt.Metrics.{
  Labels, quote, newline, text_leb, sort_by, format_labels, NumberFamily, HistogramSeries,
  HistogramFamily, MetricsRegistry, Floats,
}

-- Tuples of strings, and lists of them, are compared from left to right.
abbrev pub pair_leb : Text × Text → Text × Text → Bool
pair_leb (a, b) (c, d) = if text_eq a c then text_leb b d else text_leb a c

abbrev pair_eq : Text × Text → Text × Text → Bool
pair_eq (a, b) (c, d) = if text_eq a c then text_eq b d else false

abbrev pub labels_leb : Labels → Labels → Bool
labels_leb [] ms = true
labels_leb (l ∷ ls) [] = false
labels_leb (l ∷ ls) (m ∷ ms) = if pair_eq l m then labels_leb ls ms else pair_leb l m

abbrev pub line : Text → Text
line t = t ++ (newline ∷ [])

abbrev pub help_text : Text
help_text = b'#' ∷ b' ' ∷ b'H' ∷ b'E' ∷ b'L' ∷ b'P' ∷ b' ' ∷ []

abbrev pub type_text : Text
type_text = b'#' ∷ b' ' ∷ b'T' ∷ b'Y' ∷ b'P' ∷ b'E' ∷ b' ' ∷ []

abbrev pub counter_text : Text
counter_text = b'c' ∷ b'o' ∷ b'u' ∷ b'n' ∷ b't' ∷ b'e' ∷ b'r' ∷ []

abbrev pub gauge_text : Text
gauge_text = b'g' ∷ b'a' ∷ b'u' ∷ b'g' ∷ b'e' ∷ []

abbrev pub histogram_text : Text
histogram_text = b'h' ∷ b'i' ∷ b's' ∷ b't' ∷ b'o' ∷ b'g' ∷ b'r' ∷ b'a' ∷ b'm' ∷ []

abbrev pub bucket_text : Text
bucket_text = b'_' ∷ b'b' ∷ b'u' ∷ b'c' ∷ b'k' ∷ b'e' ∷ b't' ∷ b'{' ∷ []

abbrev pub le_text : Text
le_text = b'l' ∷ b'e' ∷ b'=' ∷ quote ∷ []

abbrev pub inf_text : Text
inf_text = b'+' ∷ b'I' ∷ b'n' ∷ b'f' ∷ []

abbrev pub minus_inf_text : Text
minus_inf_text = b'-' ∷ b'I' ∷ b'n' ∷ b'f' ∷ []

abbrev pub nan_text : Text
nan_text = b'N' ∷ b'a' ∷ b'N' ∷ []

abbrev pub sum_text : Text
sum_text = b'_' ∷ b's' ∷ b'u' ∷ b'm' ∷ []

abbrev pub count_text : Text
count_text = b'_' ∷ b'c' ∷ b'o' ∷ b'u' ∷ b'n' ∷ b't' ∷ []

abbrev pub help_line : Text → Text → Text
help_line name h = if is_empty h then [] else line (help_text ++ (name ++ (b' ' ∷ h)))

abbrev pub type_line : Text → Text → Text
type_line name kind = line (type_text ++ (name ++ (b' ' ∷ kind)))

abbrev pub strip_suffix : ℕ → Text → Option Text
strip_suffix b [] = none
strip_suffix b (c ∷ []) = if c == b then some [] else none
strip_suffix b (c ∷ d ∷ t) = elim (strip_suffix b (d ∷ t)) [ none ↦ none | some s ↦ some (c ∷ s) ]

abbrev pub or_else : Text → Option Text → Text
or_else t none = t
or_else t (some s) = s

unfoldable pub trim_outer_braces : Text → Text
trim_outer_braces [] = []
trim_outer_braces (c ∷ t) = if c == b'{' then or_else (c ∷ t) (strip_suffix b'}' t) else c ∷ t

-- One text after the other, if neither panics.
abbrev pub then_text : Option Text → Option Text → Option Text
then_text none u = none
then_text (some t) none = none
then_text (some t) (some u) = some (t ++ u)

abbrev pub number_lines : (ℕ → Text) → Text → List (Labels × ℕ) → Text
number_lines show name [] = []
number_lines show name ((ls, v) ∷ m) =
    line (name ++ (format_labels ls ++ (b' ' ∷ show v))) ++ number_lines show name m

abbrev pub by_key : {V : Type 0} → Text × V → Text × V → Bool
by_key a b = text_leb a.0 b.0

abbrev pub by_labels : {V : Type 0} → Labels × V → Labels × V → Bool
by_labels a b = labels_leb a.0 b.0

abbrev pub number_families : (ℕ → Text) → Text → List (Text × NumberFamily) → Text
number_families show kind [] = []
number_families show kind ((name, fam) ∷ m) =
    help_line name fam.help
    ++ (type_line name kind
        ++ (number_lines show name (sort_by by_labels fam.values)
            ++ (newline ∷ number_families show kind m)))

module _ {F : Type 0} (fl : Floats F) (show_u64 show_i64 : ℕ → Text) where
  unfoldable pub fmt_f64_prom : F → Text
  fmt_f64_prom v =
      if fl.is_infinite v
      then (if fl.is_sign_positive v then inf_text else minus_inf_text)
      else if fl.is_nan v
      then nan_text
      else fl.show_float v

  abbrev pub bucket_line : Text → Text → Text → ℕ → Text
  bucket_line name inner bound n =
      let prefix = if is_empty inner then [] else b',' ∷ [] in
      line (
        name
        ++ (bucket_text
            ++ (inner ++ (prefix ++ (le_text ++ (bound ++ (quote ∷ b'}' ∷ b' ' ∷ show_u64 n)))))))

  -- `series.counts[i]` for each bound.
  abbrev pub bucket_lines : Text → Text → List F → List ℕ → Option Text
  bucket_lines name inner [] counts = some []
  bucket_lines name inner (b ∷ bs) [] = none
  bucket_lines name inner (b ∷ bs) (n ∷ counts) =
      then_text (some (bucket_line name inner (fmt_f64_prom b) n))
        (bucket_lines name inner bs counts)

  abbrev pub series_lines : Text → List F → Labels → HistogramSeries F → Option Text
  series_lines name bs labels s =
      let base = format_labels labels in
      let inner = trim_outer_braces base in
      then_text (bucket_lines name inner bs s.counts) (
        some (
          bucket_line name inner inf_text s.count
          ++ (line (name ++ (sum_text ++ (base ++ (b' ' ∷ fmt_f64_prom s.sum))))
              ++ line (name ++ (count_text ++ (base ++ (b' ' ∷ show_u64 s.count)))))))

  abbrev pub all_series : Text → List F → List (Labels × HistogramSeries F) → Option Text
  all_series name bs [] = some []
  all_series name bs ((labels, s) ∷ m) =
      then_text (series_lines name bs labels s) (all_series name bs m)

  abbrev pub histogram_families : List (Text × HistogramFamily F) → Option Text
  histogram_families [] = some []
  histogram_families ((name, fam) ∷ m) =
      then_text (some (help_line name fam.help ++ type_line name histogram_text)) (
        then_text (all_series name fam.buckets (sort_by by_labels fam.series))
          (then_text (some (newline ∷ [])) (histogram_families m)))

  unfoldable pub render_prometheus : MetricsRegistry F → Option Text
  render_prometheus r =
      then_text (some (number_families show_u64 counter_text (sort_by by_key r.counters))) (
        then_text (some (number_families show_i64 gauge_text (sort_by by_key r.gauges)))
          (histogram_families (sort_by by_key r.histograms)))
