-- ===== src/Enumerate/CrashPoints/Laws.antt =====
-- Which crash points `selectCrashPoints` of core/src/enumerate/crash-points.ts selects.
use crash_fuzz.Prelude.{
  ℕ, zero, suc, ◌<◌, ◌≤◌, ◌*◌, ◌^◌, ◌≡◌, refl, ◌↔◌, ◌⊎◌, true, not, ◌&&◌, ◌||◌, List, [], ◌∷◌,
  arith, leb, ltb, length, any, range_from, includes, get_elem?, some, nat_eq, includes-filter,
  includes-range_from, Bool-cases, inl, inr, sym, some-injective,
}
use crash_fuzz.Trace.{CallName, Trace, TraceEvent, is_persistence}
use crash_fuzz.Enumerate.Hash.{unit_hash}
use crash_fuzz.Enumerate.States.{test_at}
use crash_fuzz.Enumerate.States.Pinned.{test_at_witness, test_at_intro}
use crash_fuzz.Enumerate.CrashPoints.{
  SelectionOptions, Rate, exhaustive_of, calls_persistence, follows_persistence, is_sampled,
  is_selected, select_crash_points,
}

-- The three calls that make data durable.
abbrev pub IsSync : CallName → Type 0
IsSync call =
    (call ≡ CallName.fsync) ⊎ (call ≡ CallName.fdatasync) ⊎ (call ≡ CallName.sync_file_range)

abbrev pub IsSyncAt : List TraceEvent → ℕ → Type 0
IsSyncAt events i = (event : TraceEvent) × (get_elem? events i ≡ some event) × IsSync event.call

-- What makes a position of a trace a crash point: the trace is short, or it has no such call, or the
-- position holds one, or the position before it does, or its hash is below the rate.
abbrev pub IsCrashPoint : List TraceEvent → SelectionOptions → ℕ → Type 0
IsCrashPoint events options i =
    (length events ≤ exhaustive_of options.max_exhaustive_workload_ops)
    ⊎ ¬ ((j : ℕ) × IsSyncAt events j)
    ⊎ IsSyncAt events i
    ⊎ ((j : ℕ) × (suc j ≡ i) × IsSyncAt events j)
    ⊎ (unit_hash options.seed i * Rate.denominator options.non_fsync_sample_rate
        < Rate.numerator options.non_fsync_sample_rate * 2 ^ 32)

persistence-IsSync : (call : CallName) → is_persistence call ≡ true → IsSync call
persistence-IsSync CallName.fsync h = inl refl
persistence-IsSync CallName.fdatasync h = inr (inl refl)
persistence-IsSync CallName.sync_file_range h = inr (inr refl)
persistence-IsSync _ h = absurd (cc)

IsSync-persistence : (call : CallName) → IsSync call → is_persistence call ≡ true
IsSync-persistence call (inl e) = rw e refl
IsSync-persistence call (inr (inl e)) = rw e refl
IsSync-persistence call (inr (inr e)) = rw e refl

test_at-IsSyncAt :
    (events : List TraceEvent) (i : ℕ)
    → test_at events calls_persistence i ≡ true
    → IsSyncAt events i
test_at-IsSyncAt events i h =
    let (event, at, calls) = test_at_witness events calls_persistence i h in
    (event, at, persistence-IsSync event.call calls)

IsSyncAt-test_at :
    (events : List TraceEvent) (i : ℕ)
    → IsSyncAt events i
    → test_at events calls_persistence i ≡ true
IsSyncAt-test_at events i (event, at, sync) =
    test_at_intro events calls_persistence i event at (IsSync-persistence event.call sync)

any-IsSyncAt :
    (events : List TraceEvent) → any calls_persistence events ≡ true → (j : ℕ) × IsSyncAt events j
any-IsSyncAt [] h = absurd (cc)
any-IsSyncAt (e ∷ es) h = elim (Bool-cases (calls_persistence e)) [
  | inl here ↦ (0, (e, refl, persistence-IsSync e.call here))
  | inr other ↦ let (j, found) = any-IsSyncAt es (ground arith) in (suc j, found)
]

IsSyncAt-any :
    (events : List TraceEvent) (j : ℕ) → IsSyncAt events j → any calls_persistence events ≡ true
IsSyncAt-any [] zero (event, at, sync) = absurd (cc (at))
IsSyncAt-any [] (suc j) (event, at, sync) = absurd (cc (at))
IsSyncAt-any (e ∷ es) zero (event, at, sync) =
    let calls : calls_persistence event ≡ true = IsSync-persistence event.call sync in
    let same : e ≡ event = some-injective e event at in rw (same, calls) refl
IsSyncAt-any (e ∷ es) (suc j) found = ground (arith, IsSyncAt-any es j found)

is_selected-IsCrashPoint :
    (events : List TraceEvent) (options : SelectionOptions) (i : ℕ)
    → is_selected events options i ≡ true
    → IsCrashPoint events options i
unfolding is_sampled
is_selected-IsCrashPoint events options i h =
    elim (Bool-cases (test_at events calls_persistence i)) [
      | inl here ↦ inr (inr (inl (test_at-IsSyncAt events i here)))
      | inr other ↦ elim (Bool-cases (follows_persistence events i)) [
        | inl after1 ↦ inr (inr (inr (inl (before i after1))))
        | inr alone ↦ inr (inr (inr (inr (ground arith))))
      ]
    ]
  where
    before :
        (i : ℕ) → follows_persistence events i ≡ true → (j : ℕ) × (suc j ≡ i) × IsSyncAt events j
    before zero f = absurd (cc (f))
    before (suc j) f = (j, refl, test_at-IsSyncAt events j f)

IsCrashPoint-selected :
    (events : List TraceEvent) (options : SelectionOptions) (i : ℕ)
    → IsCrashPoint events options i
    → (leb (length events) (exhaustive_of options.max_exhaustive_workload_ops)
        || (not (any calls_persistence events) || is_selected events options i))
      ≡ true
unfolding is_sampled
IsCrashPoint-selected events options i (inl short) = ground arith
IsCrashPoint-selected events options i (inr (inl never)) =
    elim (Bool-cases (any calls_persistence events)) [
      | inl some_sync ↦ absurd (never (any-IsSyncAt events some_sync))
      | inr none_there ↦ ground arith
    ]
IsCrashPoint-selected events options i (inr (inr (inl here))) =
    ground (arith, IsSyncAt-test_at events i here)
IsCrashPoint-selected events options i (inr (inr (inr (inl (j, e, found))))) =
    let follows : follows_persistence events i ≡ true =
      rw (sym e) (IsSyncAt-test_at events j found) in
    ground arith
IsCrashPoint-selected events options i (inr (inr (inr (inr sampled)))) = ground arith

includes-selected :
    (trace : Trace) (options : SelectionOptions) (i : ℕ)
    → includes i (select_crash_points trace options) ≡ (
        ltb i (length trace.events)
        && (leb (length trace.events) (exhaustive_of options.max_exhaustive_workload_ops)
            || (not (any calls_persistence trace.events) || is_selected trace.events options i)))
unfolding select_crash_points
includes-selected trace options i =
    let whole = includes-range_from i 0 (length trace.events) in
    let part =
      includes-filter (is_selected trace.events options) i (range_from 0 (length trace.events)) in
    elim (Bool-cases
      (leb (length trace.events) (exhaustive_of options.max_exhaustive_workload_ops))) [
        | inl short ↦ rw short (ground (arith, whole))
        | inr long ↦ rw long (elim (Bool-cases (any calls_persistence trace.events)) [
          | inl synced ↦ rw synced (ground (arith, part, whole))
          | inr never ↦ rw never (ground (arith, whole))
        ])
      ]

-- A position is selected as a crash point exactly when it is within the trace and the trace is no
-- longer than the exhaustive bound, or has no fsync, fdatasync or sync_file_range at all, or the
-- position holds such a call, or the position just before it does, or the hash of the seed and the
-- position is below the sampling rate.
pub includes-select_crash_points :
    (trace : Trace) (options : SelectionOptions) (i : ℕ)
    → (includes i (select_crash_points trace options) ≡ true)
      ↔ ((i < length trace.events) × IsCrashPoint trace.events options i)
includes-select_crash_points trace options i = (
  λ m. let both = includes-selected trace options i in (ground arith, inverted both m),
  λ (lt, point). ground (
    arith,
    includes-selected trace options i,
    IsCrashPoint-selected trace.events options i point,
    lt,
  ),
)
  where
    inverted :
        includes i (select_crash_points trace options) ≡ (
          ltb i (length trace.events)
          && (leb (length trace.events) (exhaustive_of options.max_exhaustive_workload_ops)
              || (not (any calls_persistence trace.events) || is_selected trace.events options i)))
        → includes i (select_crash_points trace options) ≡ true
        → IsCrashPoint trace.events options i
    inverted both m =
        elim (Bool-cases
          (leb (length trace.events) (exhaustive_of options.max_exhaustive_workload_ops))) [
            | inl short ↦ inl (ground arith)
            | inr long ↦ elim (Bool-cases (any calls_persistence trace.events)) [
              | inl synced ↦ is_selected-IsCrashPoint trace.events options i (ground arith)
              | inr never ↦
                  inr (inl (λ (j, found). absurd (cc (never, IsSyncAt-any trace.events j found))))
            ]
          ]
