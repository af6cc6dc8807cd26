-- ===== src/Enumerate/CrashPoints.antt =====
-- core/src/enumerate/crash-points.ts: the crash points to enumerate.
pub mod Laws
use crash_fuzz.Prelude.{
  ℕ, zero, suc, ◌*◌, ◌^◌, Bool, true, false, not, ◌||◌, List, Option, none, some, leb, ltb, length,
  any, filter, range_from, if◌then◌else◌,
}
use crash_fuzz.Trace.{TraceEvent, Trace, is_persistence}
use crash_fuzz.Enumerate.States.{test_at}
use crash_fuzz.Enumerate.Hash.{unit_hash}

-- A fraction: a double is one whose denominator is a power of two.
pub record Rate : Type 0 where
  pub numerator : ℕ
  pub denominator : ℕ

pub record SelectionOptions : Type 0 where
  pub non_fsync_sample_rate : Rate
  pub seed : ℕ
  pub max_exhaustive_workload_ops : Option ℕ

-- `options.maxExhaustiveWorkloadOps ?? 0`
abbrev pub exhaustive_of : Option ℕ → ℕ
exhaustive_of none = 0
exhaustive_of (some n) = n

abbrev pub calls_persistence : TraceEvent → Bool
calls_persistence event = is_persistence event.call

-- `index > 0 && PERSISTENCE.has(trace.events[index - 1]!.call)`
abbrev pub follows_persistence : List TraceEvent → ℕ → Bool
follows_persistence events zero = false
follows_persistence events (suc index) = test_at events calls_persistence index

-- `unitHash(options.seed, index) < options.nonFsyncSampleRate`
unfoldable pub is_sampled : SelectionOptions → ℕ → Bool
unfolding unit_hash
is_sampled options index =
    let rate = options.non_fsync_sample_rate in
    ltb (unit_hash options.seed index * rate.denominator) (rate.numerator * 2 ^ 32)

-- The body of the loop.
abbrev pub is_selected : List TraceEvent → SelectionOptions → ℕ → Bool
is_selected events options index =
    test_at events calls_persistence index
    || (follows_persistence events index || is_sampled options index)

-- `selectCrashPoints`
unfoldable pub select_crash_points : Trace → SelectionOptions → List ℕ
unfolding is_sampled
select_crash_points trace options =
    let events = trace.events in
    let everything = range_from 0 (length events) in
    if leb (length events) (exhaustive_of options.max_exhaustive_workload_ops)
    then everything
    else (if not (any calls_persistence events)
        then everything
        else filter (is_selected events options) everything)
