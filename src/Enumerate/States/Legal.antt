-- ===== src/Enumerate/States/Legal.antt =====
-- What is asked of a crash state, stated without the enumerator, and `existsOnDisk` against that
-- statement.
use crash_fuzz.Prelude.{
  ℕ, ◌≤◌, ◌<◌, ◌*◌, ◌≡◌, ◌↔◌, ◌⊎◌, true, false, ◌&&◌, ◌||◌, not, List, some, arith, All, get_elem?,
  any, length, range_from, includes, nat_eq, includes-range_from, Option-cases, Bool-cases,
  any_witness, any_intro, all_at, all_intro, inl, inr, eq→≡, ≡→==, refl,
}
use crash_fuzz.Prelude.Sort.{IsSorted}
use crash_fuzz.Trace.{TraceEvent, is_mutating, CallName}
use crash_fuzz.Enumerate.States.{
  CrashState, Partial, test_at, makes, needs_existing_file, is_write, sector_bytes, exists_at,
  exists_on_disk,
}
use crash_fuzz.Enumerate.States.Pinned.{IsPinned, test_at_witness, test_at_intro}
use crash_fuzz.Graph.{FilesystemModel}
use crash_fuzz.Prelude.Text.{text_eq, Text}
use crash_fuzz.Prelude.Int.{is_negative}

-- The event at `j` is a mutation that succeeded.
pub record IsDone (events : List TraceEvent) (j : ℕ) : Type 0 where
  pub event : TraceEvent
  pub at : get_elem? events j ≡ some event
  pub mutates : is_mutating event.call ≡ true
  pub succeeded : is_negative event.return_value ≡ false

-- The event at `j` is a mutation of the file at `path` that succeeded.
pub record IsMaker (events : List TraceEvent) (path : Text) (j : ℕ) : Type 0 where
  pub event : TraceEvent
  pub at : get_elem? events j ≡ some event
  pub same_file : event.path ≡ path
  pub mutates : is_mutating event.call ≡ true
  pub succeeded : is_negative event.return_value ≡ false

-- A size change is on disk only with a file: if a mutation of the file succeeded before it, one of
-- those is on disk too.
abbrev pub IsGrounded : List TraceEvent → List ℕ → Type 0
IsGrounded events persisted =
    (k j : ℕ) (event : TraceEvent)
    → includes k persisted ≡ true
    → get_elem? events k ≡ some event
    → (event.call ≡ CallName.truncate) ⊎ (event.call ≡ CallName.ftruncate)
    → j < k
    → IsMaker events event.path j
    → (m : ℕ) × (m < k) × IsMaker events event.path m × (includes m persisted ≡ true)

makes→IsMaker :
    (events : List TraceEvent) (event : TraceEvent) (j : ℕ)
    → makes events event j ≡ true
    → IsMaker events event.path j
makes→IsMaker events event j h =
    let (c, at, both) = test_at_witness events _ j h in
    record {
      event = c;
      at = at;
      same_file = eq→≡ c.path event.path (ground arith);
      mutates = ground arith;
      succeeded = ground arith;
    }

makes_of_IsMaker :
    (events : List TraceEvent) (event : TraceEvent) (j : ℕ)
    → IsMaker events event.path j
    → makes events event j ≡ true
makes_of_IsMaker events event j m =
    test_at_intro events _ j m.event m.at
      (ground (arith, ≡→== m.event.path event.path m.same_file, m.mutates, m.succeeded))

changes_size :
    (call : CallName)
    → needs_existing_file call ≡ true
    → (call ≡ CallName.truncate) ⊎ (call ≡ CallName.ftruncate)
changes_size CallName.truncate h = inl refl
changes_size CallName.ftruncate h = inr refl
changes_size _ h = absurd (cc)

pub needs_file :
    (call : CallName)
    → (call ≡ CallName.truncate) ⊎ (call ≡ CallName.ftruncate)
    → needs_existing_file call ≡ true
needs_file call (inl e) = rw e refl
needs_file call (inr e) = rw e refl

-- The same by the tests of the code.
abbrev HasMakers : List TraceEvent → List ℕ → Type 0
HasMakers events persisted =
    (k j : ℕ) (event : TraceEvent)
    → includes k persisted ≡ true
    → get_elem? events k ≡ some event
    → needs_existing_file event.call ≡ true
    → j < k
    → makes events event j ≡ true
    → (m : ℕ) × (m < k) × (makes events event m ≡ true) × (includes m persisted ≡ true)

HasMakers→IsGrounded :
    (events : List TraceEvent) (persisted : List ℕ)
    → HasMakers events persisted
    → IsGrounded events persisted
HasMakers→IsGrounded events persisted h k j event m at resizes lt made =
    let (i, before, making, there) =
      h k j event m at (needs_file event.call resizes) lt (makes_of_IsMaker events event j made) in
    (i, before, makes→IsMaker events event i making, there)

IsGrounded→HasMakers :
    (events : List TraceEvent) (persisted : List ℕ)
    → IsGrounded events persisted
    → HasMakers events persisted
IsGrounded→HasMakers events persisted g k j event m at needs lt made =
    let (i, before, making, there) =
      g k j event m at (changes_size event.call needs) lt (makes→IsMaker events event j made) in
    (i, before, makes_of_IsMaker events event i making, there)

-- An operation that the crash state may hold: issued by the crash point, and one that mutates.
abbrev pub IsIssued : List TraceEvent → ℕ → ℕ → Type 0
IsIssued events crash_point i =
    (i ≤ crash_point) × (test_at events (λ e. is_mutating e.call) i ≡ true)

-- A torn operation is a write that is not wholly on disk, cut at a sector strictly inside its payload.
pub record IsTorn (events : List TraceEvent) (s : CrashState) (p : Partial) : Type 0 where
  pub event : TraceEvent
  pub at : get_elem? events p.op ≡ some event
  pub writes : is_write event.call ≡ true
  pub issued : p.op ≤ s.crash_point
  pub not_whole : includes p.op s.persisted ≡ false
  pub some_bytes : 0 < p.bytes
  pub not_all_bytes : p.bytes < event.length
  pub sectors : ℕ
  pub aligned : p.bytes ≡ sectors * sector_bytes

pub record IsConsistent (events : List TraceEvent) (s : CrashState) : Type 0 where
  pub in_trace : s.crash_point < length events
  pub ascending : IsSorted s.persisted
  pub issued : All (IsIssued events s.crash_point) s.persisted
  -- a returned persistence call is a durability floor
  pub floor : (j : ℕ) → IsPinned events s.crash_point j → includes j s.persisted ≡ true
  pub grounded : IsGrounded events s.persisted
  pub torn : All (IsTorn events s) s.partials
  pub one_torn : length s.partials ≤ 1

-- What is asked of a crash state under a model: that it is consistent, and on a totally ordered
-- filesystem that it holds, with an operation, every mutation before it that succeeded.
pub record IsWellFormed (events : List TraceEvent) (model : FilesystemModel) (s : CrashState)
    : Type 0 where
  pub consistent : IsConsistent events s
  pub in_order :
      model.total_order ≡ true
      → (i k : ℕ) → includes k s.persisted ≡ true
      → i < k
      → IsDone events i
      → includes i s.persisted ≡ true

exists_at_iff :
    (events : List TraceEvent) (persisted : List ℕ) (k : ℕ) (event : TraceEvent)
    → get_elem? events k ≡ some event
    → exists_at events persisted k ≡ (
        not (needs_existing_file event.call)
        || (not (any (makes events event) (range_from 0 k))
            || any (λ j. makes events event j && includes j persisted) (range_from 0 k)))
unfolding exists_at
exists_at_iff events persisted k event at = ground arith

exists_on_disk→HasMakers :
    (events : List TraceEvent) (persisted : List ℕ)
    → exists_on_disk events persisted ≡ true
    → HasMakers events persisted
unfolding exists_on_disk
exists_on_disk→HasMakers events persisted h k j event m at needs lt made =
    let (i, within, both) =
      any_witness (λ i. makes events event i && includes i persisted) (range_from 0 k) present in
    (i, ground (arith, includes-range_from i 0 k), ground arith, ground arith)
  where
    earlier : any (makes events event) (range_from 0 k) ≡ true
    earlier =
        any_intro (makes events event) j (range_from 0 k)
          (ground (arith, includes-range_from j 0 k)) made

    present : any (λ i. makes events event i && includes i persisted) (range_from 0 k) ≡ true
    present = ground (
      arith,
      exists_at_iff events persisted k event at,
      earlier,
      all_at (exists_at events persisted) k persisted h m,
    )

exists_at_of_HasMakers :
    (events : List TraceEvent) (persisted : List ℕ) (k : ℕ)
    → HasMakers events persisted
    → includes k persisted ≡ true
    → exists_at events persisted k ≡ true
unfolding exists_at
exists_at_of_HasMakers events persisted k g m = elim (Option-cases (get_elem? events k)) [
  | inl past ↦ ground arith
  | inr (event, at) ↦
      go event at (Bool-cases (needs_existing_file event.call))
        (Bool-cases (any (makes events event) (range_from 0 k)))
]
  where
    go :
        (event : TraceEvent)
        → get_elem? events k ≡ some event
        → (needs_existing_file event.call ≡ true) ⊎ (needs_existing_file event.call ≡ false)
        → (any (makes events event) (range_from 0 k) ≡ true)
          ⊎ (any (makes events event) (range_from 0 k) ≡ false)
        → exists_at events persisted k ≡ true
    go event at (inr any_size) _ = ground arith
    go event at (inl needs) (inr predates) = ground arith
    go event at (inl needs) (inl made) =
        let (j, within, making) = any_witness (makes events event) (range_from 0 k) made in
        let (i, lt, made_i, on_disk) =
          g k j event m at needs (ground (arith, includes-range_from j 0 k)) making in
        let present : any (λ i. makes events event i && includes i persisted) (range_from 0 k)
            ≡ true =
          any_intro (λ i. makes events event i && includes i persisted) i (range_from 0 k)
            (ground (arith, includes-range_from i 0 k)) (ground arith) in
        ground arith

-- `existsOnDisk` decides whether every truncate and ftruncate among the persisted operations has its
-- file: if a mutation of the same path succeeded earlier in the trace, one that did is persisted.
pub exists_on_disk_iff :
    (events : List TraceEvent) (persisted : List ℕ)
    → (exists_on_disk events persisted ≡ true) ↔ IsGrounded events persisted
unfolding exists_on_disk
exists_on_disk_iff events persisted = (
  λ h. HasMakers→IsGrounded events persisted (exists_on_disk→HasMakers events persisted h),
  λ g. all_intro (exists_at events persisted) persisted (λ k m.
      exists_at_of_HasMakers events persisted k (IsGrounded→HasMakers events persisted g) m),
)
