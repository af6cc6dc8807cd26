-- ===== src/Tools/StateExplosion/Whole.antt =====
-- core/tools/state-explosion.ts as a whole.
use crash_fuzz.Prelude.{
  ℕ, ◌≡◌, refl, true, false, List, [], ◌∷◌, ◌++◌, Option, none, some, length, map, All,
}
use crash_fuzz.Prelude.Text.{Text, codes}
use crash_fuzz.Graph.{ext4_ordered}
use crash_fuzz.Enumerate.States.Total.{enumerate_crash_states_total}
use crash_fuzz.Enumerate.CrashPoints.{select_crash_points}
use crash_fuzz.Campaign.{LoadedBounds, selection_of, window_bounds}
use crash_fuzz.Campaign.Whole.{select_crash_points-lt}
use crash_fuzz.Tools.StateExplosion.{
  Regime, Row, Fit, fit_of, synthetic_trace, measure_bounded, measure_unbounded, measure_all,
  format_outputs, csv_of, explosion_main, explosion_seed, bounded_lengths, unbounded_lengths,
}

module _ (show : ℕ → Text) where
  measure_bounded_total :
      (bounds : LoadedBounds) (n : ℕ)
      → (row : Row) × (measure_bounded show bounds n ≡ some row)
        × (row.operations ≡ n)
        × (row.regime ≡ Regime.bounded)
  unfolding measure_bounded
  measure_bounded_total bounds n =
      let trace = synthetic_trace show n true in
      let chosen = select_crash_points trace (selection_of bounds explosion_seed) in
      let (states, e) =
        enumerate_crash_states_total trace ext4_ordered (window_bounds bounds) (some chosen)
          (select_crash_points-lt trace (selection_of bounds explosion_seed)) in
      (
        record {
          operations = n;
          regime = Regime.bounded;
          crash_points = length chosen;
          states = length states;
        },
        rw e refl,
        refl,
        refl,
      )

  measure_unbounded_total :
      (n : ℕ)
      → (row : Row) × (measure_unbounded show n ≡ some row)
        × (row.operations ≡ n)
        × (row.regime ≡ Regime.unbounded)
  unfolding measure_unbounded
  measure_unbounded_total n =
      let (states, e) =
        enumerate_crash_states_total (synthetic_trace show n false) ext4_ordered
          (record { torn_writes = false; max_unpersisted_window = n }) none tt in
      (
        record {
          operations = n;
          regime = Regime.unbounded;
          crash_points = n;
          states = length states;
        },
        rw e refl,
        refl,
        refl,
      )

measure_all_total :
    (measure : ℕ → Option Row) (regime : Regime)
    → ((n : ℕ)
        → (row : Row) × (measure n ≡ some row) × (row.operations ≡ n) × (row.regime ≡ regime))
    → (ns : List ℕ)
    → (rows : List Row) × (measure_all measure ns ≡ some rows)
      × (map Row.operations rows ≡ ns)
      × All (λ (r : Row). r.regime ≡ regime) rows
unfolding measure_all
measure_all_total measure regime h [] = ([], refl, refl, tt)
measure_all_total measure regime h (n ∷ ns) =
    let (row, e, size, kind) = h n in
    let (rows, f, sizes, kinds) = measure_all_total measure regime h ns in
    (row ∷ rows, rw (e, f) refl, rw (size, sizes) refl, (kind, kinds))

module _ {F : Type 0} (show : ℕ → Text) (least_squares : List (ℕ × ℕ) → F)
    (stringify : Fit F → Text) where
  -- The measurement succeeds under whatever bounds: it exits with 0 and writes the csv of a bounded
  -- row for each of its bounded lengths, in their order, and then of an unbounded row for each of
  -- its unbounded lengths, and the fit beside it.
  pub explosion_main_total :
      (bounds : LoadedBounds)
      → (with_bounds : List Row) × (without_bounds : List Row) × (fit : Text) × (explosion_main show
            least_squares stringify bounds
          ≡ some (
            0,
            (codes "plots/data/state-explosion.csv", csv_of show (with_bounds ++ without_bounds))
                ∷ (codes "plots/data/state-explosion-fit.json", fit)
                ∷ [],
          ))
        × (map Row.operations with_bounds ≡ bounded_lengths)
        × All (λ (r : Row). r.regime ≡ Regime.bounded) with_bounds
        × (map Row.operations without_bounds ≡ unbounded_lengths)
        × All (λ (r : Row). r.regime ≡ Regime.unbounded) without_bounds
  unfolding explosion_main format_outputs
  explosion_main_total bounds =
      let (rows, e, sizes, kinds) =
        measure_all_total (measure_bounded show bounds) Regime.bounded
          (measure_bounded_total show bounds) bounded_lengths in
      let (more, f, others, other_kinds) =
        measure_all_total (measure_unbounded show) Regime.unbounded (measure_unbounded_total show)
          unbounded_lengths in
      (
        rows,
        more,
        stringify (fit_of show least_squares (rows ++ more)) ++ 0x0a ∷ [],
        rw (e, f) refl,
        sizes,
        kinds,
        others,
        other_kinds,
      )
