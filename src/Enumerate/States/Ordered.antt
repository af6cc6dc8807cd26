-- ===== src/Enumerate/States/Ordered.antt =====
-- Well-formedness of the states of a totally ordered filesystem.
use crash_fuzz.Prelude.{
  ℕ, ◌≡◌, List, some, true, [], inl, inr, arith, All, ◌≤◌, take, All-includes, Bool-cases,
  All-flat_map, add_all, includes, All-take, all, range_from, suc, ◌++◌, all_at, nat_eq, All_of,
  length, ◌<◌,
}
use crash_fuzz.Trace.{TraceEvent}
use crash_fuzz.Enumerate.States.{
  pinned_by, sorted_union, prefix_states, ordered_states, test_at, is_done_mutation, slice_older,
}
use crash_fuzz.Enumerate.States.Free.{free_ops}
use crash_fuzz.Enumerate.States.Facts
use crash_fuzz.Enumerate.States.Legal.{IsGrounded, IsIssued, IsWellFormed, IsDone}
use crash_fuzz.Prelude.Sort.{IsSorted}
use crash_fuzz.Enumerate.States.Windows.{
  sort-IsSorted, All-sorted_union, includes-sorted_union, pinned_or_free, includes-slices,
}
use crash_fuzz.Enumerate.States.Pinned.{test_at_intro}
use crash_fuzz.Prelude.Sort.Laws.{includes-take_of_lt, IsSortedBy-take}
use crash_fuzz.Prelude.Text.{text_eq}
use crash_fuzz.Graph.{FilesystemModel}

module _ (events : List TraceEvent) (crash_point : ℕ) (pinned : List ℕ) (max : ℕ)
    (pins : pinned_by events crash_point ≡ some pinned) where
  abbrev window : List ℕ
  window = Facts.window events crash_point pinned max pins

  abbrev always : List ℕ
  always = Facts.always events crash_point pinned max pins

  abbrev issued : List ℕ
  issued = sorted_union always window

  issued-IsSorted : IsSorted issued
  unfolding sorted_union
  issued-IsSorted = sort-IsSorted (add_all (always ++ window) [])

  issued-IsIssued : All (IsIssued events crash_point) issued
  issued-IsIssued =
      All-sorted_union _ always window (Facts.always-IsIssued events crash_point pinned max pins)
        (Facts.window-IsIssued events crash_point pinned max pins)

  -- A mutation that succeeded by the crash point is among the issued ones.
  done-issued :
      (i : ℕ)
      → i ≤ crash_point
      → test_at events is_done_mutation i ≡ true
      → includes i issued ≡ true
  done-issued i le h =
      let free = free_ops events crash_point pinned in
      ground (
        arith,
        includes-sorted_union i always window,
        includes-sorted_union i pinned (slice_older max free),
        pinned_or_free events crash_point pinned i le h,
        includes-slices i max free,
      )

  -- A prefix of what was issued holds every mutation before an operation that it holds.
  prefix_in_order :
      (n i k : ℕ)
      → includes k (take n issued) ≡ true
      → i < k
      → IsDone events i
      → includes i (take n issued) ≡ true
  prefix_in_order n i k m lt d =
      let issued_k =
        All-includes (IsIssued events crash_point) k (take n issued)
          (All-take _ n issued issued-IsIssued) m in
      let done : test_at events is_done_mutation i ≡ true =
        test_at_intro events is_done_mutation i d.event d.at
          (ground (arith, d.mutates, d.succeeded)) in
      includes-take_of_lt n i k issued issued-IsSorted
        (done-issued i (omega (arith, issued_k.0)) done) m lt

  -- So it holds the operations that made the files of its size changes.
  prefix-IsGrounded : (n : ℕ) → IsGrounded events (take n issued)
  prefix-IsGrounded n k j event m at resizes lt made = (
    j,
    lt,
    made,
    prefix_in_order n j k m lt (record {
      event = made.event;
      at = made.at;
      mutates = made.mutates;
      succeeded = made.succeeded;
    }),
  )

  module _ (model : FilesystemModel) where
    prefix_states-IsWellFormed :
        (n : ℕ) → All (IsWellFormed events model) (prefix_states crash_point always issued n)
    unfolding prefix_states
    prefix_states-IsWellFormed n =
        elim (Bool-cases (all (λ i. includes i (take n issued)) always)) [
          | inr short ↦ rw short tt
          | inl full ↦ rw full (
            record {
              consistent =
                  Facts.whole-IsConsistent events crash_point pinned max pins (take n issued)
                    (IsSortedBy-take (λ i. i) n issued issued-IsSorted)
                    (All-take _ n issued issued-IsIssued)
                    (λ j m. all_at (λ i. includes i (take n issued)) j always full m)
                    (prefix-IsGrounded n) [] tt (omega arith);
              in_order = λ total. prefix_in_order n;
            },
            tt,
          )
        ]

    pub ordered_states-IsWellFormed :
        All (IsWellFormed events model) (ordered_states crash_point always window)
    unfolding ordered_states
    ordered_states-IsWellFormed =
        All-flat_map (IsWellFormed events model) _ (range_from 0 (suc (length issued)))
          (All_of _ prefix_states-IsWellFormed (range_from 0 (suc (length issued))))
