-- ===== src/Tools/StateExplosion.antt =====
-- core/tools/state-explosion.ts: the number of crash states against the length of a trace. How a
-- number is printed, `JSON.stringify` and the least squares in doubles are parameters; what is
-- printed on the console is left out.
pub mod Synthetic
pub mod Counts
pub mod Whole
use crash_fuzz.Prelude.{
  ℕ, zero, suc, ◌+◌, ◌-◌, ◌*◌, ◌%◌, Bool, true, false, ◌&&◌, List, [], ◌∷◌, ◌++◌, Option, none,
  some, ◌>>=◌, length, filter, map, ltb, nat_beq, if◌then◌else◌,
}
use crash_fuzz.Prelude.Int.{pos}
use crash_fuzz.Prelude.Text.{Text, codes, join}
use crash_fuzz.Trace.{CallName, TraceEvent, Trace}
use crash_fuzz.Graph.{ext4_ordered}
use crash_fuzz.Enumerate.States.{enumerate_crash_states}
use crash_fuzz.Enumerate.CrashPoints.{select_crash_points}
use crash_fuzz.Campaign.{LoadedBounds, selection_of, window_bounds}

abbrev pub bounded_lengths : List ℕ
bounded_lengths = 1 ∷ 2 ∷ 3 ∷ 5 ∷ 10 ∷ 20 ∷ 50 ∷ 100 ∷ 200 ∷ 500 ∷ 1000 ∷ 2000 ∷ []

abbrev pub unbounded_lengths : List ℕ
unbounded_lengths = 1 ∷ 2 ∷ 3 ∷ 5 ∷ 8 ∷ 10 ∷ 12 ∷ 14 ∷ 16 ∷ 18 ∷ []

abbrev pub explosion_seed : ℕ
explosion_seed = 20260815

pub data Regime : Type 0 where
  bounded unbounded : Regime

pub record Row : Type 0 where
  pub operations : ℕ
  pub regime : Regime
  pub crash_points : ℕ
  pub states : ℕ

abbrev pub regime_text : Regime → Text
regime_text Regime.bounded = codes "bounded"
regime_text Regime.unbounded = codes "unbounded"

abbrev pub is_bounded : Row → Bool
is_bounded row = elim row.regime [ Regime.bounded ↦ true | Regime.unbounded ↦ false ]

abbrev pub is_unbounded : Row → Bool
is_unbounded row = elim row.regime [ Regime.bounded ↦ false | Regime.unbounded ↦ true ]

-- `text.padStart(width, '0')`, by how much is missing
unfoldable pub zeros : ℕ → Text → Text
zeros zero text = text
zeros (suc n) text = 0x30 ∷ zeros n text

abbrev pub pad_zeros : ℕ → Text → Text
pad_zeros width text = zeros (width - length text) text

module _ (show : ℕ → Text) where
  abbrev pub file_of : ℕ → Text
  file_of index = codes "/db/file-" ++ show (index % 3)

  abbrev pub base_event : ℕ → ℕ → TraceEvent
  base_event operations index = record {
    index = index;
    completion_index = index + operations;
    call = CallName.write;
    fd = pos (3 + index % 3);
    thread_id = 1;
    path = file_of index;
    path2 = [];
    offset = pos (index * 1024);
    length = 1024;
    return_value = pos 1024;
    errno = 0;
    digest = pad_zeros 64 (show index);
  }

  -- The body of the loop of `syntheticTrace`.
  unfoldable pub synthetic_event : ℕ → Bool → ℕ → TraceEvent
  synthetic_event operations with_persistence index =
      let base = base_event operations index in
      if nat_beq (index % 5) 4 && with_persistence
      then record base { call = CallName.fsync; length = 0; return_value = pos 0; digest = [] }
      else (if nat_beq (index % 20) 19
          then record base {
            call = CallName.rename;
            path = file_of index ++ codes ".tmp";
            path2 = file_of index;
            length = 0;
            return_value = pos 0;
            digest = [];
          }
          else base)

  -- The loop, from `index` on; the last argument is how many rounds are left.
  unfoldable pub synthetic_events : ℕ → Bool → ℕ → ℕ → List TraceEvent
  unfolding synthetic_event
  synthetic_events operations with_persistence index zero = []
  synthetic_events operations with_persistence index (suc left) =
      synthetic_event operations with_persistence index
      ∷ synthetic_events operations with_persistence (suc index) left

  -- `syntheticTrace`
  unfoldable pub synthetic_trace : ℕ → Bool → Trace
  unfolding synthetic_events
  synthetic_trace operations with_persistence = record {
    header = record { version = 1; pid = 1 };
    events = synthetic_events operations with_persistence 0 operations;
    markers = [];
  }

  -- `measureBounded`
  unfoldable pub measure_bounded : LoadedBounds → ℕ → Option Row
  unfolding synthetic_trace
  measure_bounded bounds operations =
      let trace = synthetic_trace operations true in
      let crash_points = select_crash_points trace (selection_of bounds explosion_seed) in
      do
        states ← enumerate_crash_states trace (record {
          model = ext4_ordered;
          bounds = window_bounds bounds;
          crash_points = some crash_points;
        })
        some (record {
          operations = operations;
          regime = Regime.bounded;
          crash_points = length crash_points;
          states = length states;
        })

  -- `measureUnbounded`
  unfoldable pub measure_unbounded : ℕ → Option Row
  unfolding synthetic_trace
  measure_unbounded operations = do
    states ← enumerate_crash_states (synthetic_trace operations false) (record {
      model = ext4_ordered;
      bounds = record { torn_writes = false; max_unpersisted_window = operations };
      crash_points = none;
    })
    some (record {
      operations = operations;
      regime = Regime.unbounded;
      crash_points = operations;
      states = length states;
    })

  abbrev pub csv_row : Row → Text
  csv_row row =
      join (0x2c ∷ []) (
        show row.operations ∷ regime_text row.regime ∷ show row.crash_points ∷ show row.states ∷ [])

  -- The csv of `formatOutputs`.
  unfoldable pub csv_of : List Row → Text
  csv_of rows =
      join (0x0a ∷ []) (codes "operations,regime,crash_points,states" ∷ map csv_row rows)
      ++ 0x0a ∷ []

-- `rows.at(-1) ?? null`
unfoldable pub last_row : List Row → Option Row
last_row [] = none
last_row (r ∷ []) = some r
last_row (r ∷ s ∷ rs) = last_row (s ∷ rs)

-- What the fit says, in the number type of the slope.
pub record Fit (F : Type 0) : Type 0 where
  pub bounded_exponent : F
  pub unbounded_exponent : Option F
  pub largest_bounded : Option Row

module _ {F : Type 0} (show : ℕ → Text) (least_squares : List (ℕ × ℕ) → F) where
  -- `logLogSlope`: the rows that count, and the slope of the logarithms
  unfoldable pub log_log_slope : List Row → F
  log_log_slope rows = least_squares (
      map (λ (r : Row). (r.operations, r.states))
        (filter (λ (r : Row). ltb 1 r.operations && ltb 0 r.states) rows))

  abbrev pub fit_of : List Row → Fit F
  fit_of rows =
      let unbounded = filter is_unbounded rows in
      record {
        bounded_exponent = log_log_slope (filter is_bounded rows);
        unbounded_exponent =
            if ltb 0 (length unbounded) then some (log_log_slope unbounded) else none;
        largest_bounded = last_row (filter is_bounded rows);
      }

  -- `formatOutputs`
  unfoldable pub format_outputs : (Fit F → Text) → List Row → Text × Text
  unfolding csv_of log_log_slope last_row
  format_outputs stringify rows = (csv_of show rows, stringify (fit_of rows) ++ 0x0a ∷ [])

-- `lengths.map(measure)`
unfoldable pub measure_all : (ℕ → Option Row) → List ℕ → Option (List Row)
measure_all measure [] = some []
measure_all measure (n ∷ ns) = do row ← measure n; rows ← measure_all measure ns; some (row ∷ rows)

module _ {F : Type 0} (show : ℕ → Text) (least_squares : List (ℕ × ℕ) → F)
    (stringify : Fit F → Text) where
  -- `main`: its exit code and the files that it writes
  unfoldable pub explosion_main : LoadedBounds → Option (ℕ × List (Text × Text))
  unfolding measure_bounded measure_unbounded measure_all format_outputs
  explosion_main bounds = do
    with_bounds ← measure_all (measure_bounded show bounds) bounded_lengths
    without_bounds ← measure_all (measure_unbounded show) unbounded_lengths
    let (csv, fit) = format_outputs show least_squares stringify (with_bounds ++ without_bounds)
    some (
      0,
      (codes "plots/data/state-explosion.csv", csv)
          ∷ (codes "plots/data/state-explosion-fit.json", fit)
          ∷ [],
    )
