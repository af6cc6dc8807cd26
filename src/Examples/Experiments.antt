-- ===== src/Examples/Experiments.antt =====
-- The theorems on the tools, with a laboratory made up.
use crash_fuzz.Prelude.{ℕ, ◌≡◌, ◌↔◌, true, List, [], ◌∷◌, some, arith, false, ◌≢◌, flat_map, refl}
use crash_fuzz.Prelude.Io.{Outcome, pure}
use crash_fuzz.Prelude.Text.{codes, Text, trim}
use crash_fuzz.Image.Holds.{Resource}
use crash_fuzz.Tools.FtruncateVsOverwrite.{
  Lab, HeaderClassification, classify_header, experiment, buffer, new_byte, old_byte,
}
use crash_fuzz.Campaign.{LoadedBounds}
use crash_fuzz.Tools.TddReport.{
  TestRun, FormattedTest, ModuleResult, any_failed, parse_junit, tdd_report,
}
use crash_fuzz.Tools.TddReport.Exit.{tdd_report_zero_iff}
use crash_fuzz.Tools.StateExplosion.{
  Regime, Row, Fit, synthetic_trace, csv_of, explosion_main, bounded_lengths, unbounded_lengths,
}
use crash_fuzz.Tools.StateExplosion.Synthetic.{is_fsync, is_rename}
use crash_fuzz.Tools.StateExplosion.Counts.{count_of, synthetic_trace-counts}
use crash_fuzz.Tools.StateExplosion.Whole.{explosion_main_total}
use crash_fuzz.Prelude.{◌/◌, ◌++◌, map, All, length}
use crash_fuzz.Tools.FtruncateVsOverwrite.Classify.{classify_header_iff}
use crash_fuzz.Tools.FtruncateVsOverwrite.Exit.{Demonstrates, experiment_zero_iff}
use crash_fuzz.Examples.Mounting.{machine, other_mount}

abbrev two_new : List ℕ
two_new = 0x4e ∷ 0x4e ∷ []

classify_header_iff_example :
    ((classify_header two_new 2 ≡ HeaderClassification.new_header) ↔ (two_new ≡ buffer 2 new_byte))
    × ((classify_header two_new 2 ≡ HeaderClassification.old_header)
        ↔ (two_new ≡ buffer 2 old_byte))
classify_header_iff_example = classify_header_iff two_new 2 (omega arith)

abbrev joined : Text → Text → Text
joined a b = a ++ b

abbrev digit : ℕ → Text
digit n = n ∷ []

abbrev lab : Lab (List Resource)
lab = record {
  machine = machine true;
  file_size = λ path. pure 8388608;
  read_text = λ path. pure (codes "500");
  open_file = λ path flags. pure 3;
  write = λ fd bytes. pure tt;
  fsync = λ fd. pure tt;
  ftruncate = λ fd size. pure tt;
  close = λ fd. pure tt;
  sleep = λ ms. pure tt;
  number = λ text. some 500;
}

experiment_zero_iff_example :
    (experiment lab other_mount ≡ (Outcome.returned 0, other_mount))
    ↔ Demonstrates lab other_mount other_mount
experiment_zero_iff_example = experiment_zero_iff lab other_mount other_mount

synthetic_trace-counts_example :
    (count_of is_fsync (synthetic_trace digit 100 true).events ≡ 100 / 5)
    × (count_of is_rename (synthetic_trace digit 100 true).events ≡ 0)
    × (count_of is_rename (synthetic_trace digit 100 false).events ≡ 100 / 20)
synthetic_trace-counts_example = synthetic_trace-counts digit 100

abbrev small : LoadedBounds
small = record {
  crash_points = codes "fsyncAdjacent+sample";
  non_fsync_sample_rate = record { numerator = 1; denominator = 10 };
  max_unpersisted_window = 2;
  max_exhaustive_workload_ops = 4;
  max_states_per_crash_point = 8;
  torn_writes = true;
  torn_write_granularity_bytes = 512;
  max_torn_ops_per_state = 1;
}

one_explosion_main_total_run :
    (with_bounds : List Row) × (without_bounds : List Row) × (fit : Text) × (explosion_main digit
        length
        (λ (f : Fit ℕ). codes "fit")
        small
      ≡ some (
        0,
        (codes "plots/data/state-explosion.csv", csv_of digit (with_bounds ++ without_bounds))
            ∷ (codes "plots/data/state-explosion-fit.json", fit)
            ∷ [],
      ))
    × (map Row.operations with_bounds ≡ bounded_lengths)
    × All (λ (r : Row). r.regime ≡ Regime.bounded) with_bounds
    × (map Row.operations without_bounds ≡ unbounded_lengths)
    × All (λ (r : Row). r.regime ≡ Regime.unbounded) without_bounds
one_explosion_main_total_run = explosion_main_total digit length (λ (f : Fit ℕ). codes "fit") small

-- A run of two tests, one of them failed, in the form of bun's reporter.
abbrev two_tests : TestRun
two_tests = record {
  output = codes "1 fail";
  junit =
      codes
        "<testsuites><testsuite name=\"a\" file=\"a.test.ts\"><testcase name=\"x &amp; y\" classname=\"c\" /><testcase name=\"z\"><failure/></testcase></testsuite></testsuites>";
  exit_code = 1;
}

two_tests_parsed :
    map FormattedTest.name (
      flat_map ModuleResult.tests
        (parse_junit joined [] two_tests.junit two_tests.output).test_modules)
    ≡ codes "x & y" ∷ codes "z" ∷ []
unfolding parse_junit
two_tests_parsed = refl

tdd_report_zero_iff_example :
    (((tdd_report joined [] two_tests).1 ≡ 0) ↔ (
      (two_tests.exit_code ≡ 0)
      × (trim two_tests.junit ≢ [])
      × (any_failed (parse_junit joined [] two_tests.junit two_tests.output).test_modules ≡ false)))
    × ((tdd_report joined [] two_tests).0.has_failed
        ≡ any_failed (tdd_report joined [] two_tests).0.test_modules)
tdd_report_zero_iff_example = tdd_report_zero_iff joined [] two_tests
