-- ===== src/Enumerate/States/Facts.antt =====
-- What the states of one crash point share: the operations that are always there, the floor, and the
-- states that tear one operation.
use crash_fuzz.Prelude.{
  ℕ, zero, suc, ◌+◌, ◌-◌, ◌*◌, ◌/◌, ◌≤◌, ◌<◌, ◌≡◌, refl, true, false, List, [], ◌∷◌, map, some,
  arith, All, length, includes, nat_eq, range_from, Option-cases, Bool-cases, inl, inr, get_elem?,
}
use crash_fuzz.Prelude.Sort.{IsSorted}
use crash_fuzz.Trace.{TraceEvent}
use crash_fuzz.Enumerate.States.{
  Partial, slice_last, slice_older, sorted_union, pinned_by, strict_sector_prefixes, torn_op,
  is_write, sector_bytes,
}
use crash_fuzz.Enumerate.States.Free.{free_ops}
use crash_fuzz.Enumerate.States.Pinned.{IsPinned, pinned_by_iff, pinned_by-lt-length}
use crash_fuzz.Enumerate.States.Legal.{IsIssued, IsGrounded, IsTorn, IsConsistent}
use crash_fuzz.Enumerate.States.Windows.{
  includes-sorted_union, All-sorted_union, All-slice_last, All-slice_older, pinned-IsIssued,
  free-IsIssued,
}

-- What `strictSectorPrefixes` gives: multiples of the sector strictly inside the payload.
abbrev IsStrictPrefix : TraceEvent → ℕ → Type 0
IsStrictPrefix event bytes =
    (is_write event.call ≡ true)
    × (0 < bytes)
    × (bytes < event.length)
    × ((sectors : ℕ) × (bytes ≡ sectors * sector_bytes))

sectors-IsStrictPrefix :
    (event : TraceEvent) (k n : ℕ)
    → is_write event.call ≡ true
    → 0 < k
    → n ≤ (event.length + 511) / sector_bytes - k
    → All (IsStrictPrefix event) (map (λ sector. sector * sector_bytes) (range_from k n))
sectors-IsStrictPrefix event k zero w p h = tt
sectors-IsStrictPrefix event k (suc n) w p h = (
  (w, omega arith, omega arith, (k, refl)),
  sectors-IsStrictPrefix event (suc k) n w (omega arith) (omega arith),
)

strict_sector_prefixes_strict :
    (event : TraceEvent) → All (IsStrictPrefix event) (strict_sector_prefixes event)
unfolding strict_sector_prefixes
strict_sector_prefixes_strict event = elim (Bool-cases (is_write event.call)) [
  | inl w ↦ rw w (sectors-IsStrictPrefix event 1 _ w (omega arith) (omega arith))
  | inr other ↦ rw other tt
]

-- The facts that the states of one crash point share.
module _ (events : List TraceEvent) (crash_point : ℕ) (pinned : List ℕ) (max : ℕ)
    (pins : pinned_by events crash_point ≡ some pinned) where
  abbrev pub window : List ℕ
  window = slice_last max (free_ops events crash_point pinned)

  abbrev pub always : List ℕ
  always = sorted_union pinned (slice_older max (free_ops events crash_point pinned))

  pub window-IsIssued : All (IsIssued events crash_point) window
  window-IsIssued = All-slice_last _ max _ (free-IsIssued events crash_point pinned)

  pub always-IsIssued : All (IsIssued events crash_point) always
  always-IsIssued =
      All-sorted_union _ pinned _ (pinned-IsIssued events crash_point pinned pins)
        (All-slice_older _ max _ (free-IsIssued events crash_point pinned))

  pub floor-always : (j : ℕ) → IsPinned events crash_point j → includes j always ≡ true
  floor-always j p = ground (
    arith,
    includes-sorted_union j pinned (slice_older max (free_ops events crash_point pinned)),
    (pinned_by_iff events crash_point j pinned pins).1 p,
  )

  -- A state that tears nothing, from what it persists.
  pub whole-IsConsistent :
      (persisted : List ℕ)
      → IsSorted persisted
      → All (IsIssued events crash_point) persisted
      → ((j : ℕ) → includes j always ≡ true → includes j persisted ≡ true)
      → IsGrounded events persisted
      → (partials : List Partial)
      → All
          (IsTorn events
            (record { crash_point = crash_point; persisted = persisted; partials = partials }))
          partials
      → length partials ≤ 1
      → IsConsistent events
          (record { crash_point = crash_point; persisted = persisted; partials = partials })
  whole-IsConsistent persisted s i f g partials t one = record {
    in_trace = pinned_by-lt-length events crash_point pinned pins;
    ascending = s;
    issued = i;
    floor = λ j p. f j (floor-always j p);
    grounded = g;
    torn = t;
    one_torn = one;
  }

  pub torn_op-IsConsistent :
      (persisted : List ℕ) (op : ℕ)
      → ((partials : List Partial)
          → All
              (IsTorn events
                (record { crash_point = crash_point; persisted = persisted; partials = partials }))
              partials
          → length partials ≤ 1
          → IsConsistent events
              (record { crash_point = crash_point; persisted = persisted; partials = partials }))
      → IsIssued events crash_point op
      → All (IsConsistent events) (torn_op events crash_point persisted op)
  torn_op-IsConsistent persisted op legal i = elim (Bool-cases (includes op persisted)) [
    | inl whole ↦ rw whole tt
    | inr missing ↦ elim (Option-cases (get_elem? events op)) [
      | inl past ↦ rw (missing, past) tt
      | inr (event, at) ↦
          rw (missing, at)
            (tear event at missing (strict_sector_prefixes event)
              (strict_sector_prefixes_strict event))
    ]
  ]
    where
      tear :
          (event : TraceEvent)
          → get_elem? events op ≡ some event
          → includes op persisted ≡ false
          → (sizes : List ℕ) → All (IsStrictPrefix event) sizes
          → All (IsConsistent events) (
              map
                (λ bytes. record {
                  crash_point = crash_point;
                  persisted = persisted;
                  partials = record { op = op; bytes = bytes } ∷ [];
                })
                sizes)
      tear event at missing [] h = tt
      tear event at missing (bytes ∷ sizes) ((w, p, lt, (sectors, aligned)), h) = (
        legal _
            (
              record {
                event = event;
                at = at;
                writes = w;
                issued = i.0;
                not_whole = missing;
                some_bytes = p;
                not_all_bytes = lt;
                sectors = sectors;
                aligned = aligned;
              },
              tt,
            )
            (omega arith),
        tear event at missing sizes h,
      )
