-- ===== src/Examples/Selecting.antt =====
-- The theorems on the crash points, the sample and the bounds file.
use crash_fuzz.Prelude.{
  ℕ, ◌-◌, ◌<◌, ◌≤◌, ◌≡◌, refl, List, true, none, [], ◌∷◌, arith, includes, nat_eq, length, filter,
  max, ◌↔◌,
}
use crash_fuzz.Prelude.Text.{codes}
use crash_fuzz.Prelude.Sort.{IsSorted}
use crash_fuzz.Trace.{Trace}
use crash_fuzz.Enumerate.States.{CrashState}
use crash_fuzz.Enumerate.CrashPoints.{SelectionOptions, select_crash_points}
use crash_fuzz.Enumerate.CrashPoints.Laws.{IsCrashPoint, includes-select_crash_points}
use crash_fuzz.Enumerate.Sample.{SampleOptions, kept, sample_group, sample_states}
use crash_fuzz.Enumerate.Sample.Groups.{is_at}
use crash_fuzz.Enumerate.Sample.Keep.{kept_lem}
use crash_fuzz.Enumerate.Sample.Local.{sample_states-is_at}
use crash_fuzz.Enumerate.Comments.{strip_comments}
use crash_fuzz.Enumerate.Comments.Laws.{strip_comments-strip_comments}
use crash_fuzz.Examples.Traces.{trace_of, short_events}

abbrev short_trace : Trace
short_trace = trace_of short_events

-- No position is sampled, and no trace is short.
abbrev only_adjacent : SelectionOptions
only_adjacent = record {
  non_fsync_sample_rate = record { numerator = 0; denominator = 1 };
  seed = 1;
  max_exhaustive_workload_ops = none;
}

adjacent_run : select_crash_points short_trace only_adjacent ≡ 1 ∷ 2 ∷ []
unfolding select_crash_points
adjacent_run = refl

includes-select_crash_points_example :
    (includes 2 (select_crash_points short_trace only_adjacent) ≡ true)
    ↔ ((2 < 5) × IsCrashPoint short_events only_adjacent 2)
includes-select_crash_points_example = includes-select_crash_points short_trace only_adjacent 2

kept_lem_example :
    (length (kept 3 1 5) ≤ max 3 2)
    × IsSorted (kept 3 1 5)
    × (includes 0 (kept 3 1 5) ≡ true)
    × (includes (5 - 1) (kept 3 1 5) ≡ true)
    × ((i : ℕ) → includes i (kept 3 1 5) ≡ true → i < 5)
kept_lem_example = kept_lem 3 1 5 (omega arith)

abbrev at_point : ℕ → List ℕ → CrashState
at_point p persisted = record { crash_point = p; persisted = persisted; partials = [] }

-- Two crash points whose states are interleaved, the first with more than the cap.
abbrev mixed : List CrashState
mixed =
    at_point 1 (0 ∷ [])
    ∷ at_point 0 []
    ∷ at_point 1 (1 ∷ [])
    ∷ at_point 1 (2 ∷ [])
    ∷ at_point 0 (0 ∷ [])
    ∷ []

abbrev two_each : SampleOptions
two_each = record { max_per_crash_point = 2; seed = 1 }

sample_run :
    sample_states mixed two_each
    ≡ at_point 0 [] ∷ at_point 0 (0 ∷ []) ∷ at_point 1 (0 ∷ []) ∷ at_point 1 (2 ∷ []) ∷ []
unfolding sample_states
sample_run = refl

sample_states-is_at_example :
    filter (is_at 1) (sample_states mixed two_each)
    ≡ sample_group two_each 1 (filter (is_at 1) mixed)
sample_states-is_at_example = sample_states-is_at two_each 1 mixed

strip_run : strip_comments (codes "{ // a\n  \"b//\": 1 }") ≡ codes "{ \n  \"b//\": 1 }"
unfolding strip_comments
strip_run = refl

stripped_twice :
    strip_comments (strip_comments (codes "{ // a\n  \"b//\": 1 }"))
    ≡ strip_comments (codes "{ // a\n  \"b//\": 1 }")
stripped_twice = strip_comments-strip_comments (codes "{ // a\n  \"b//\": 1 }")
