-- ===== src/Enumerate/States/Choices.antt =====
-- `enumerateCrashStates` of core/src/enumerate/states.ts misses no choice of the operations that are
-- inside the window, described without the enumerator.
use crash_fuzz.Prelude.{
  ℕ, ◌<◌, ◌≤◌, ◌≡◌, ◌⊎◌, Bool, true, false, List, All, length, includes, nat_eq,
}
use crash_fuzz.Prelude.Ascending.{IsAscending}
use crash_fuzz.Trace.{Trace, TraceEvent}
use crash_fuzz.Enumerate.States.Pinned.{IsPinned}
use crash_fuzz.Enumerate.States.Legal.{IsDone, IsGrounded}

-- A mutation up to the crash point that succeeded, and that no returned persistence call pins.
pub record IsFree (events : List TraceEvent) (crash_point i : ℕ) : Type 0 where
  pub reached : i ≤ crash_point
  pub done : IsDone events i
  pub unpinned : ¬ IsPinned events crash_point i

-- Which operations are on disk at a crash point, against a window of `max` operations: only those up
-- to it that succeeded or are pinned, all that are pinned, and no truncate or ftruncate without its
-- file. Of the free ones, one is left out only where fewer than `max` free ones come after it.
pub record IsChoice (events : List TraceEvent) (max crash_point : ℕ) (keep : ℕ → Bool)
    : Type 0 where
  pub issued :
      (i : ℕ)
      → keep i ≡ true
      → (i ≤ crash_point) × (IsDone events i ⊎ IsPinned events crash_point i)
  pub floor : (i : ℕ) → IsPinned events crash_point i → keep i ≡ true
  pub late :
      (i : ℕ) (later : List ℕ)
      → IsFree events crash_point i
      → keep i ≡ false
      → IsAscending later
      → All (λ j. (i < j) × IsFree events crash_point j) later
      → length later < max
  pub grounded :
      (persisted : List ℕ) → ((i : ℕ) → includes i persisted ≡ keep i) → IsGrounded events persisted
