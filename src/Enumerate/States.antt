-- ===== src/Enumerate/States.antt =====
-- core/src/enumerate/states.ts: the crash states of a trace, one group per crash point.
-- `none` is the TypeError of `events[i]!.call` past the end of the trace, in the loops of `pinnedBy`
-- and over the free operations. The other reads are at indexes that these loops have read.
pub mod Pinned
pub mod Free
pub mod Legal
pub mod Windows
pub mod Facts
pub mod Reordered
pub mod Ordered
pub mod Sound
pub mod Bits
pub mod Complete
pub mod Choices
pub mod Total
pub mod Models
use crash_fuzz.Prelude.{
  ℕ, zero, suc, ◌+◌, ◌-◌, ◌*◌, ◌/◌, ◌%◌, ◌^◌, Bool, true, false, not, ◌&&◌, ◌||◌, List, [], ◌∷◌,
  ◌++◌, map, Option, none, some, ◌==◌, nat_eq, nat_beq, ltb, if◌then◌else◌, length, get_elem?, take,
  drop, filter, all, any, flat_map, range_from, includes, add_all, ◌>>=◌,
}
use crash_fuzz.Prelude.Int.{is_negative}
use crash_fuzz.Prelude.Text.{text_eq}
use crash_fuzz.Prelude.Sort.{sort}
use crash_fuzz.Graph.{FilesystemModel}
use crash_fuzz.Trace.{CallName, TraceEvent, Trace, is_mutating, is_persistence}

pub record Bounds : Type 0 where
  pub torn_writes : Bool
  pub max_unpersisted_window : ℕ

pub record EnumerateOptions : Type 0 where
  pub model : FilesystemModel
  pub bounds : Bounds
  pub crash_points : Option (List ℕ)

-- An operation on disk as a prefix of its payload.
pub record Partial : Type 0 where
  pub op : ℕ
  pub bytes : ℕ

pub record CrashState : Type 0 where
  pub crash_point : ℕ
  pub persisted : List ℕ
  pub partials : List Partial

abbrev pub sector_bytes : ℕ
sector_bytes = 512

-- NEEDS_EXISTING_FILE
abbrev pub needs_existing_file : CallName → Bool
needs_existing_file CallName.truncate = true
needs_existing_file CallName.ftruncate = true
needs_existing_file _ = false

-- A test of the event at a position.
abbrev pub test_at : List TraceEvent → (TraceEvent → Bool) → ℕ → Bool
test_at events p i = elim (get_elem? events i) [ none ↦ false | some e ↦ p e ]

-- The test in the inner loop of `pinnedBy`.
abbrev pub pins : List TraceEvent → TraceEvent → ℕ → Bool
pins events event =
    test_at events (λ earlier. is_mutating earlier.call && earlier.path == event.path)

abbrev pub is_returned_persistence : TraceEvent → Bool
is_returned_persistence event = is_persistence event.call && not (is_negative event.return_value)

-- One round of the outer loop.
unfoldable pub pin_at : List TraceEvent → ℕ → List ℕ → List ℕ
pin_at events i pinned = elim (get_elem? events i) [
  | none ↦ pinned
  | some event ↦
      if is_returned_persistence event
      then add_all (filter (pins events event) (range_from 0 i)) pinned
      else pinned
]

unfoldable pub pin_loop : List TraceEvent → List ℕ → List ℕ → List ℕ
unfolding pin_at
pin_loop events [] pinned = pinned
pin_loop events (i ∷ is) pinned = pin_loop events is (pin_at events i pinned)

-- `pinnedBy`
unfoldable pub pinned_by : List TraceEvent → ℕ → Option (List ℕ)
unfolding pin_loop
pinned_by events upto =
    if ltb upto (length events) then some (pin_loop events (range_from 0 (suc upto)) []) else none

abbrev pub is_write : CallName → Bool
is_write CallName.write = true
is_write CallName.pwrite = true
is_write CallName.writev = true
is_write _ = false

-- `strictSectorPrefixes`; the quotient is `Math.ceil(length / SECTOR_BYTES)`
unfoldable pub strict_sector_prefixes : TraceEvent → List ℕ
strict_sector_prefixes event =
    if is_write event.call
    then map (λ sector. sector * sector_bytes)
        (range_from 1 ((event.length + 511) / sector_bytes - 1))
    else []

-- The inner loop of `existsOnDisk`: whether an earlier operation made the file, and whether one
-- of them is on disk.
abbrev pub makes : List TraceEvent → TraceEvent → ℕ → Bool
makes events event = test_at events (λ candidate.
    candidate.path == event.path
    && (is_mutating candidate.call && not (is_negative candidate.return_value)))

unfoldable pub exists_at : List TraceEvent → List ℕ → ℕ → Bool
exists_at events persisted index = elim (get_elem? events index) [
  | none ↦ true
  | some event ↦
      not (needs_existing_file event.call)
      || (not (any (makes events event) (range_from 0 index))
          || any (λ j. makes events event j && includes j persisted) (range_from 0 index))
]

unfoldable pub exists_on_disk : List TraceEvent → List ℕ → Bool
unfolding exists_at
exists_on_disk events persisted = all (exists_at events persisted) persisted

-- A mutation that the trace saw succeed.
abbrev pub is_done_mutation : TraceEvent → Bool
is_done_mutation e = is_mutating e.call && not (is_negative e.return_value)

-- The loop that fills `free`, over the indexes of the operations that may or may not be on disk; it
-- reads the event before anything else.
unfoldable pub free_loop : List TraceEvent → List ℕ → List ℕ → Option (List ℕ)
free_loop events pinned [] = some []
free_loop events pinned (i ∷ is) = do
  event ← get_elem? events i
  rest ← free_loop events pinned is
  some (if is_done_mutation event && not (includes i pinned) then i ∷ rest else rest)

unfoldable pub free_of : List TraceEvent → ℕ → List ℕ → Option (List ℕ)
unfolding free_loop
free_of events crash_point pinned = free_loop events pinned (range_from 0 (suc crash_point))

-- `free.slice(-max)`: at zero this is the whole list
unfoldable pub slice_last : ℕ → List ℕ → List ℕ
slice_last max free = if nat_beq max 0 then free else drop (length free - max) free

-- `free.slice(0, Math.max(0, free.length - max))`
unfoldable pub slice_older : ℕ → List ℕ → List ℕ
slice_older max free = take (length free - max) free

-- `[...new Set([...a, ...b])].sort((a, b) => a - b)`
unfoldable pub sorted_union : List ℕ → List ℕ → List ℕ
unfolding sort
sorted_union as' bs = sort (add_all (as' ++ bs) [])

-- The branch for a totally ordered filesystem.
unfoldable pub prefix_states : ℕ → List ℕ → List ℕ → ℕ → List CrashState
prefix_states crash_point always issued n =
    if all (λ i. includes i (take n issued)) always
    then record { crash_point = crash_point; persisted = take n issued; partials = [] } ∷ []
    else []

unfoldable pub ordered_states : ℕ → List ℕ → List ℕ → List CrashState
unfolding prefix_states sorted_union
ordered_states crash_point always window =
    let issued = sorted_union always window in
    flat_map (prefix_states crash_point always issued) (range_from 0 (suc (length issued)))

-- `mask & (1 << bit)`: a shift takes its count modulo 32
unfoldable pub bit_set : ℕ → ℕ → Bool
bit_set mask bit = nat_beq ((mask / 2 ^ (bit % 32)) % 2) 1

-- The rounds of `mask < 1 << n`: at a count of 31 the shift is negative.
unfoldable pub mask_limit : ℕ → ℕ
mask_limit n = if nat_beq (n % 32) 31 then 0 else 2 ^ (n % 32)

unfoldable pub pick : ℕ → ℕ → List ℕ → List ℕ
unfolding bit_set
pick mask bit [] = []
pick mask bit (op ∷ ops) = elim (bit_set mask bit) [
  | true ↦ op ∷ pick mask (suc bit) ops
  | false ↦ pick mask (suc bit) ops
]

-- The states with one operation of the window torn.
abbrev pub torn_op : List TraceEvent → ℕ → List ℕ → ℕ → List CrashState
torn_op events crash_point persisted op =
    if includes op persisted then [] else elim (get_elem? events op) [
      | none ↦ []
      | some event ↦
          map
            (λ bytes. record {
              crash_point = crash_point;
              persisted = persisted;
              partials = record { op = op; bytes = bytes } ∷ [];
            })
            (strict_sector_prefixes event)
    ]

unfoldable pub subset_states : List TraceEvent → Bool → ℕ → List ℕ → List ℕ → List CrashState
unfolding exists_on_disk strict_sector_prefixes
subset_states events torn crash_point window persisted =
    if exists_on_disk events persisted
    then record { crash_point = crash_point; persisted = persisted; partials = [] }
      ∷ (if torn then flat_map (torn_op events crash_point persisted) window else [])
    else []

unfoldable pub reordered_states : List TraceEvent → Bool → ℕ → List ℕ → List ℕ → List CrashState
unfolding subset_states pick sort mask_limit
reordered_states events torn crash_point always window =
    flat_map
      (λ mask. subset_states events torn crash_point window (sort (always ++ pick mask 0 window)))
      (range_from 0 (mask_limit (length window)))

-- The body of the loop over the crash points.
module _ (events : List TraceEvent) (model : FilesystemModel) (bounds : Bounds) where
  unfoldable pub states_from : ℕ → List ℕ → List ℕ → List CrashState
  unfolding slice_last slice_older ordered_states reordered_states sorted_union
  states_from crash_point pinned free =
      let window = slice_last bounds.max_unpersisted_window free in
      let always = sorted_union pinned (slice_older bounds.max_unpersisted_window free) in
      if model.total_order
      then ordered_states crash_point always window
      else reordered_states events bounds.torn_writes crash_point always window

  unfoldable pub states_at : ℕ → Option (List CrashState)
  unfolding pinned_by free_of states_from
  states_at crash_point = do
    pinned ← pinned_by events crash_point
    free ← free_of events crash_point pinned
    some (states_from crash_point pinned free)

  unfoldable pub states_at_all : List ℕ → Option (List CrashState)
  unfolding states_at
  states_at_all [] = some []
  states_at_all (p ∷ ps) = do states ← states_at p; more ← states_at_all ps; some (states ++ more)

abbrev pub crash_points_of : List TraceEvent → Option (List ℕ) → List ℕ
crash_points_of events none = range_from 0 (length events)
crash_points_of events (some ps) = ps

-- `enumerateCrashStates`
unfoldable pub enumerate_crash_states : Trace → EnumerateOptions → Option (List CrashState)
unfolding states_at_all
enumerate_crash_states trace options =
    states_at_all trace.events options.model options.bounds
      (crash_points_of trace.events options.crash_points)
