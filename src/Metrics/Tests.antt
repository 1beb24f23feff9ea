-- ===== src/Metrics/Tests.antt =====
-- Concrete runs of the registry of src/server/metrics.rs. Floats are numbers, with 0 for NaN.
use monnok_gigastt.Base.{
  ℕ, ◌+◌, ◌%◌, ◌^◌, ◌≡◌, refl, true, false, leb, ◌==◌, none, some, List, [], ◌∷◌, arith,
}
use monnok_gigastt.Words.{Text}
use monnok_gigastt.Metrics.{
  Labels, backslash, quote, newline, format_labels, sort_labels, MetricsRegistry, Floats,
  metrics_new, register_histogram, histogram_record,
}
use monnok_gigastt.Metrics.RoundTrip.{parse_labels, parse_labels-format_labels}
use monnok_gigastt.Metrics.Totals.{
  Op, registers_histogram, incs_counter, incs_gauge, records_value, run, counter_at, total,
  counter_at-run,
}
use monnok_gigastt.Metrics.Ladder.{family_at, series_at, hits, ladder, AllOther, run-ladder}
use monnok_gigastt.Metrics.Render.{render_prometheus}

abbrev floats : Floats ℕ
floats = record {
  le = leb;
  same = λ a b. a == b;
  add = λ a b. a + b;
  float_zero = 0;
  is_infinite = λ a. false;
  is_sign_positive = λ a. true;
  is_nan = λ a. a == 0;
  show_float = λ a. a ∷ [];
  default_buckets = 5 ∷ 10 ∷ [];
}

abbrev digit : ℕ → Text
digit n = (b'0' + n) ∷ []

-- A value with a quote, a backslash and a line break.
abbrev crafted : Labels
crafted = (b'm' ∷ [], quote ∷ b'}' ∷ backslash ∷ newline ∷ []) ∷ (b'p' ∷ [], b'=' ∷ b',' ∷ []) ∷ []

parse_labels-format_labels_example : parse_labels (format_labels crafted) ≡ some crafted
parse_labels-format_labels_example =
    parse_labels-format_labels crafted ((refl, tt), ((refl, tt), tt))

abbrev hits_name : Text
hits_name = b'h' ∷ []

abbrev waits_name : Text
waits_name = b'w' ∷ []

-- One counter with its labels in two orders, a gauge and a histogram.
abbrev ops : List (Op ℕ)
ops =
    registers_histogram waits_name [] (7 ∷ 3 ∷ [])
    ∷ incs_counter hits_name ((b'b' ∷ [], []) ∷ (b'a' ∷ [], []) ∷ []) 2
    ∷ incs_gauge hits_name [] 9
    ∷ records_value waits_name [] 4
    ∷ incs_counter hits_name ((b'a' ∷ [], []) ∷ (b'b' ∷ [], []) ∷ []) 3
    ∷ []

abbrev sorted : Labels
sorted = (b'a' ∷ [], []) ∷ (b'b' ∷ [], []) ∷ []

abbrev empty : MetricsRegistry ℕ
empty = metrics_new

empty_counter : counter_at hits_name sorted empty ≡ 0
unfolding metrics_new
empty_counter = refl

counter_at-run_example :
    counter_at hits_name sorted (run floats ops empty)
    ≡ (counter_at hits_name sorted empty + total hits_name sorted ops) % 2 ^ 64
counter_at-run_example =
    counter_at-run floats hits_name sorted ops empty (omega (arith, empty_counter))

both_count : total hits_name sorted ops ≡ 5
unfolding sort_labels
both_count = refl

abbrev later : List (Op ℕ)
later = records_value waits_name [] 4 ∷ records_value waits_name [] 1 ∷ []

abbrev registered : MetricsRegistry ℕ
registered =
    run floats
      (registers_histogram waits_name [] (7 ∷ 3 ∷ [])
        ∷ records_value waits_name ((b'a' ∷ [], []) ∷ []) 2
        ∷ [])
      empty

registered_buckets : (family_at waits_name registered).buckets ≡ 3 ∷ 7 ∷ []
unfolding run register_histogram histogram_record sort_labels metrics_new
registered_buckets = refl

-- It has a series, with other labels.
registered_series : AllOther [] (family_at waits_name registered).series
unfolding run register_histogram histogram_record sort_labels metrics_new
registered_series = (refl, tt)

run-ladder_example :
    (series_at floats [] (family_at waits_name (run floats later registered))).counts
    ≡ ladder floats (hits floats waits_name [] later) (3 ∷ 7 ∷ [])
run-ladder_example =
    run-ladder floats waits_name [] (3 ∷ 7 ∷ []) later registered registered_buckets refl
      registered_series (tt, (tt, tt))

-- A histogram that gets more bounds after a value was recorded makes the next scrape panic.
registered_late :
    render_prometheus floats digit digit (
      run floats
        (registers_histogram waits_name [] (3 ∷ [])
          ∷ records_value waits_name [] 1
          ∷ registers_histogram waits_name [] (3 ∷ 7 ∷ [])
          ∷ [])
        empty)
    ≡ none
unfolding run register_histogram histogram_record metrics_new render_prometheus sort_labels
registered_late = refl
