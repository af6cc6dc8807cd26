-- ===== src/Cli/Laws.antt =====
-- The report of `enumerate` in core/src/index.ts.
use crash_fuzz.Prelude.{ℕ, ◌≡◌, ◌+◌, refl, List, [], ◌∷◌, some, length, All, ◌<◌, arith, ap, suc}
use crash_fuzz.Prelude.Text.{Text}
use crash_fuzz.Graph.{FilesystemModel, models}
use crash_fuzz.Trace.{Trace}
use crash_fuzz.Enumerate.States.Total.{enumerate_crash_states_total}
use crash_fuzz.Enumerate.CrashPoints.{select_crash_points}
use crash_fuzz.Campaign.{LoadedBounds, selection_of, window_bounds}
use crash_fuzz.Campaign.Whole.{select_crash_points-lt}
use crash_fuzz.Cli.{Output, report, model_lines}

module _ (show : ℕ → Text) where
  model_lines_total :
      (trace : Trace) (bounds : LoadedBounds) (points : List ℕ) (ms : List FilesystemModel)
      → All (λ p. p < length trace.events) points
      → (lines : List Text) × (model_lines show trace bounds points ms ≡ some lines)
        × (length lines ≡ length ms)
  unfolding model_lines
  model_lines_total trace bounds points [] h = ([], refl, refl)
  model_lines_total trace bounds points (m ∷ ms) h =
      let (states, enumerated) =
        enumerate_crash_states_total trace m (window_bounds bounds) (some points) h in
      let (lines, more, count) = model_lines_total trace bounds points ms h in
      rw (enumerated, more) ((_, refl, ap suc count))

  -- The enumerate command succeeds on every trace that the reader returns, whatever the bounds: it
  -- exits with 0, prints nothing to standard error, and prints two lines and one for each model.
  pub report_total :
      (trace : Trace) (bounds : LoadedBounds)
      → (output : Output) × (report show trace bounds ≡ some output)
        × (output.exit ≡ 0)
        × (output.err ≡ [])
        × (length output.out ≡ 2 + length models)
  unfolding report
  report_total trace bounds =
      let points = select_crash_points trace (selection_of bounds 1) in
      let (lines, printed, count) =
        model_lines_total trace bounds points models
          (select_crash_points-lt trace (selection_of bounds 1)) in
      rw printed ((_, refl, refl, refl, omega (arith, count)))
