-- ===== src/Examples/States.antt =====
-- Runs of the enumerator.
use mathlib.Core.Option
use crash_fuzz.Prelude.{◌≡◌, refl, false, some, [], ◌∷◌, map}
use crash_fuzz.Graph.{ext4_ordered, ext4_journal}
use crash_fuzz.Enumerate.States.{CrashState, Bounds, enumerate_crash_states}
use crash_fuzz.Examples.Traces.{trace_of, short_events}

abbrev small : Bounds
small = record { torn_writes = false; max_unpersisted_window = 8 }

ordered_run :
    Option.map (map CrashState.persisted) (
      enumerate_crash_states
        (trace_of short_events)
        (record { model = ext4_ordered; bounds = small; crash_points = some (4 ∷ []) }))
    ≡ some ((0 ∷ []) ∷ (0 ∷ 2 ∷ []) ∷ (0 ∷ 3 ∷ []) ∷ (0 ∷ 2 ∷ 3 ∷ []) ∷ [])
unfolding enumerate_crash_states
ordered_run = refl

journal_run :
    Option.map (map CrashState.persisted) (
      enumerate_crash_states
        (trace_of short_events)
        (record { model = ext4_journal; bounds = small; crash_points = some (4 ∷ 0 ∷ []) }))
    ≡ some ((0 ∷ []) ∷ (0 ∷ 2 ∷ []) ∷ (0 ∷ 2 ∷ 3 ∷ []) ∷ [] ∷ (0 ∷ []) ∷ [])
unfolding enumerate_crash_states
journal_run = refl

-- A window of zero keeps every operation in the window and calls it older too.
zero_window :
    Option.map (map CrashState.persisted) (
      enumerate_crash_states (trace_of short_events) (record {
        model = ext4_ordered;
        bounds = record small { max_unpersisted_window = 0 };
        crash_points = some (0 ∷ []);
      }))
    ≡ some ((0 ∷ []) ∷ (0 ∷ 0 ∷ []) ∷ [])
unfolding enumerate_crash_states
zero_window = refl
