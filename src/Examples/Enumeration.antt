-- ===== src/Examples/Enumeration.antt =====
-- The theorems on the crash states at one short trace.
use crash_fuzz.Prelude.{
  ℕ, ◌≡◌, ◌↔◌, refl, Bool, List, true, false, none, some, [], ◌∷◌, arith, includes, nat_eq,
}
use crash_fuzz.Graph.{ext4_ordered, xfs}
use crash_fuzz.Trace.{TraceEvent, Trace, CallName}
use crash_fuzz.Enumerate.States.{
  CrashState, Bounds, EnumerateOptions, enumerate_crash_states, pinned_by, exists_on_disk,
}
use crash_fuzz.Enumerate.States.Pinned.{IsPinned, pinned_by_iff}
use crash_fuzz.Enumerate.States.Legal.{IsGrounded, exists_on_disk_iff}
use crash_fuzz.Enumerate.States.Total.{enumerate_crash_states_total, enumerate_crash_states_past}
use crash_fuzz.Enumerate.States.Models.{enumerate_crash_states-total_order}
use crash_fuzz.Examples.Traces.{trace_of, short_events, event, main_db, side_db}
use crash_fuzz.Prelude.Int.{pos}

abbrev short_trace : Trace
short_trace = trace_of short_events

abbrev small : Bounds
small = record { torn_writes = false; max_unpersisted_window = 8 }

abbrev last_point : EnumerateOptions
last_point = record { model = ext4_ordered; bounds = small; crash_points = some (4 ∷ []) }

abbrev state_of : List ℕ → CrashState
state_of persisted = record { crash_point = 4; persisted = persisted; partials = [] }

abbrev last_states : List CrashState
last_states =
    state_of (0 ∷ [])
    ∷ state_of (0 ∷ 2 ∷ [])
    ∷ state_of (0 ∷ 3 ∷ [])
    ∷ state_of (0 ∷ 2 ∷ 3 ∷ [])
    ∷ []

-- The write of the other file reached the disk, and the later write of the first did not.
abbrev side_only : ℕ → Bool
side_only i = includes i (0 ∷ 3 ∷ [])

pinned_by_iff_example : (includes {A = ℕ} 0 (0 ∷ []) ≡ true) ↔ IsPinned short_events 4 0
unfolding pinned_by
pinned_by_iff_example = pinned_by_iff short_events 4 0 (0 ∷ []) refl

-- A write of each file, and a truncate of the first.
abbrev resized : List TraceEvent
resized =
    event 0 CallName.write main_db [] 8 (pos 8)
    ∷ event 1 CallName.write side_db [] 8 (pos 8)
    ∷ event 2 CallName.truncate main_db [] 4 (pos 0)
    ∷ []

-- With the write of the other file alone the truncate has no file.
resized_lost : exists_on_disk resized (1 ∷ 2 ∷ []) ≡ false
unfolding exists_on_disk
resized_lost = refl

exists_on_disk_iff_example :
    (exists_on_disk resized (1 ∷ 2 ∷ []) ≡ true) ↔ IsGrounded resized (1 ∷ 2 ∷ [])
exists_on_disk_iff_example = exists_on_disk_iff resized (1 ∷ 2 ∷ [])

short_returns :
    (states : List CrashState) × (enumerate_crash_states short_trace last_point ≡ some states)
short_returns =
    enumerate_crash_states_total short_trace ext4_ordered small (some (4 ∷ [])) (omega arith, tt)

past_fails :
    enumerate_crash_states short_trace
      (record { model = ext4_ordered; bounds = small; crash_points = some (2 ∷ 9 ∷ []) })
    ≡ none
past_fails =
    enumerate_crash_states_past short_trace ext4_ordered small (2 ∷ 9 ∷ []) 9 refl (omega arith)

enumerate_crash_states-total_order_example :
    enumerate_crash_states short_trace
      (record { model = ext4_ordered; bounds = small; crash_points = none })
    ≡ enumerate_crash_states short_trace
        (record { model = xfs; bounds = small; crash_points = none })
enumerate_crash_states-total_order_example =
    enumerate_crash_states-total_order short_trace ext4_ordered xfs small none refl
