-- ===== src/Enumerate/States/Reordered.antt =====
-- Consistency of the states that the loop over the masks makes.
use crash_fuzz.Prelude.{
  ℕ, ◌≡◌, List, some, All, ◌++◌, ◌≤◌, arith, includes-append, [], All-flat_map, All-map, range_from,
  Bool-cases, All_of, inr, inl, All-append, nat_eq, true, false,
}
use crash_fuzz.Trace.{TraceEvent}
use crash_fuzz.Enumerate.States.{
  pinned_by, subset_states, reordered_states, Bool, includes, true, Partial, sort, length, pick,
  flat_map, torn_op, mask_limit, exists_on_disk,
}
use crash_fuzz.Enumerate.States.Facts
use crash_fuzz.Prelude.{if◌then◌else◌}
use crash_fuzz.Prelude.Sort.{IsSorted}
use crash_fuzz.Enumerate.States.Legal.{IsConsistent, IsIssued, IsTorn, exists_on_disk_iff}
use crash_fuzz.Enumerate.States.Windows.{includes-sort, sort-IsSorted, All-sort, All-pick}

module _ (events : List TraceEvent) (crash_point : ℕ) (pinned : List ℕ) (max : ℕ)
    (pins : pinned_by events crash_point ≡ some pinned) where
  abbrev window : List ℕ
  window = Facts.window events crash_point pinned max pins

  abbrev always : List ℕ
  always = Facts.always events crash_point pinned max pins

  subset_states-IsConsistent :
      (torn : Bool) (persisted : List ℕ)
      → IsSorted persisted
      → All (IsIssued events crash_point) persisted
      → ((j : ℕ) → includes j always ≡ true → includes j persisted ≡ true)
      → All (IsConsistent events) (subset_states events torn crash_point window persisted)
  unfolding subset_states
  subset_states-IsConsistent torn persisted s i f =
      elim (Bool-cases (exists_on_disk events persisted)) [
        | inr lost ↦ rw lost tt
        | inl there ↦
            let legal =
              Facts.whole-IsConsistent events crash_point pinned max pins persisted s i f
                ((exists_on_disk_iff events persisted).0 there) in
            rw there (legal [] tt (omega arith), tears torn legal)
      ]
    where
      tears :
          (torn : Bool)
          → ((partials : List Partial)
              → All
                  (IsTorn events (record {
                    crash_point = crash_point;
                    persisted = persisted;
                    partials = partials;
                  }))
                  partials
              → length partials ≤ 1
              → IsConsistent events (record {
                crash_point = crash_point;
                persisted = persisted;
                partials = partials;
              }))
          → All
              (IsConsistent events)
              (if torn then flat_map (torn_op events crash_point persisted) window else [])
      tears false legal = tt
      tears true legal =
          All-flat_map (IsConsistent events) (torn_op events crash_point persisted) window (
            All-map
              (λ op issued.
                Facts.torn_op-IsConsistent events crash_point pinned max pins persisted op legal
                  issued)
              window (Facts.window-IsIssued events crash_point pinned max pins))

  pub reordered_states-IsConsistent :
      (torn : Bool)
      → All (IsConsistent events) (reordered_states events torn crash_point always window)
  unfolding reordered_states
  reordered_states-IsConsistent torn =
      All-flat_map (IsConsistent events) _ (range_from 0 (mask_limit (length window))) (
        All_of _
          (λ mask.
            subset_states-IsConsistent torn (sort (always ++ pick mask 0 window))
              (sort-IsSorted (always ++ pick mask 0 window))
              (All-sort _ _ (
                All-append _ always _ (Facts.always-IsIssued events crash_point pinned max pins) (
                  All-pick _ mask 0 window
                    (Facts.window-IsIssued events crash_point pinned max pins))))
              (λ j m. kept j mask m))
          (range_from 0 (mask_limit (length window))))
    where
      kept :
          (j mask : ℕ)
          → includes j always ≡ true
          → includes j (sort (always ++ pick mask 0 window)) ≡ true
      kept j mask m = ground (
        arith,
        includes-sort j (always ++ pick mask 0 window),
        includes-append j always (pick mask 0 window),
      )
