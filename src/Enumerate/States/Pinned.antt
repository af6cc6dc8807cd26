-- ===== src/Enumerate/States/Pinned.antt =====
-- `pinnedBy` of core/src/enumerate/states.ts against a description of what a barrier pins.
use crash_fuzz.Prelude.{
  ℕ, suc, ◌≤◌, ◌<◌, ◌≡◌, refl, sym, ap, ◌∙◌, ◌↔◌, Bool, true, false, ◌&&◌, ◌||◌, List, [], ◌∷◌,
  some, arith, get_elem?, ltb, any, filter, range_from, includes, nat_eq, includes-add_all,
  includes-filter, includes-range_from, Option-cases, any_witness, any_intro, inl, inr, length,
  eq→≡, ≡→==,
}
use crash_fuzz.Prelude.Text.{text_eq}
use crash_fuzz.Trace.{TraceEvent, is_mutating}
use crash_fuzz.Enumerate.States.{
  test_at, pins, is_returned_persistence, pin_at, pin_loop, pinned_by,
}

-- A returned persistence call, issued after the mutation and up to the crash point, on its file.
pub record IsPinned (events : List TraceEvent) (upto j : ℕ) : Type 0 where
  pub barrier : ℕ
  pub call : TraceEvent
  pub earlier : TraceEvent
  pub found : get_elem? events barrier ≡ some call
  pub reached : barrier ≤ upto
  pub returned : is_returned_persistence call ≡ true
  pub target : get_elem? events j ≡ some earlier
  pub before : j < barrier
  pub mutates : is_mutating earlier.call ≡ true
  pub same_file : earlier.path ≡ call.path

-- Whether the round `i` of the outer loop adds `j`.
abbrev adds : List TraceEvent → ℕ → ℕ → Bool
adds events j i =
    test_at events (λ event. is_returned_persistence event && (ltb j i && pins events event j)) i

includes-pin_at :
    (events : List TraceEvent) (j i : ℕ) (pinned : List ℕ)
    → includes j (pin_at events i pinned) ≡ (adds events j i || includes j pinned)
unfolding pin_at
includes-pin_at events j i pinned = elim (Option-cases (get_elem? events i)) [
  | inl past ↦ ground arith
  | inr (event, at) ↦ ground (
    arith,
    includes-add_all j (filter (pins events event) (range_from 0 i)) pinned,
    includes-filter (pins events event) j (range_from 0 i),
    includes-range_from j 0 i,
  )
]

includes-pin_loop :
    (events : List TraceEvent) (j : ℕ) (is pinned : List ℕ)
    → includes j (pin_loop events is pinned) ≡ (any (adds events j) is || includes j pinned)
unfolding pin_loop
includes-pin_loop events j [] pinned = refl
includes-pin_loop events j (i ∷ is) pinned = ground (
  arith,
  includes-pin_loop events j is (pin_at events i pinned),
  includes-pin_at events j i pinned,
)

pub test_at_witness :
    (events : List TraceEvent) (p : TraceEvent → Bool) (i : ℕ)
    → test_at events p i ≡ true
    → (e : TraceEvent) × (get_elem? events i ≡ some e) × (p e ≡ true)
test_at_witness events p i h = elim (Option-cases (get_elem? events i)) [
  | inl past ↦ absurd (ground arith)
  | inr (e, at) ↦ (e, at, ground arith)
]

pub test_at_intro :
    (events : List TraceEvent) (p : TraceEvent → Bool) (i : ℕ) (e : TraceEvent)
    → get_elem? events i ≡ some e
    → p e ≡ true
    → test_at events p i ≡ true
test_at_intro events p i e at h = ground arith

adds→IsPinned :
    (events : List TraceEvent) (upto j i : ℕ)
    → i ≤ upto
    → adds events j i ≡ true
    → IsPinned events upto j
adds→IsPinned events upto j i le h =
    let (call, at, test) = test_at_witness events _ i h in
    let (earlier, target, same) = test_at_witness events _ j (pins_of call test) in
    record {
      barrier = i;
      call = call;
      earlier = earlier;
      found = at;
      reached = le;
      returned = ground arith;
      target = target;
      before = ground arith;
      mutates = ground arith;
      same_file = eq→≡ _ _ (ground arith);
    }
  where
    pins_of :
        (call : TraceEvent)
        → (is_returned_persistence call && (ltb j i && pins events call j)) ≡ true
        → pins events call j ≡ true
    pins_of call test = ground arith

IsPinned→adds :
    (events : List TraceEvent) (upto j : ℕ)
    → (p : IsPinned events upto j) → adds events j p.barrier ≡ true
IsPinned→adds events upto j p =
    let same : pins events p.call j ≡ true =
      test_at_intro events _ j p.earlier p.target
        (ground (arith, p.mutates, ≡→== p.earlier.path p.call.path p.same_file)) in
    test_at_intro events _ p.barrier p.call p.found (ground (arith, same, p.returned, p.before))

pinned_by_eq :
    (events : List TraceEvent) (upto : ℕ) (pinned : List ℕ)
    → pinned_by events upto ≡ some pinned
    → pin_loop events (range_from 0 (suc upto)) [] ≡ pinned
unfolding pinned_by
pinned_by_eq events upto pinned h = ground arith

pub pinned_by-lt-length :
    (events : List TraceEvent) (upto : ℕ) (pinned : List ℕ)
    → pinned_by events upto ≡ some pinned
    → upto < length events
unfolding pinned_by
pinned_by-lt-length events upto pinned h = ground arith

-- Where `pinnedBy` returns, it has exactly the mutations that were followed, up to the crash point,
-- by a persistence call on their file that returned no error.
pub pinned_by_iff :
    (events : List TraceEvent) (upto j : ℕ) (pinned : List ℕ)
    → pinned_by events upto ≡ some pinned
    → (includes j pinned ≡ true) ↔ IsPinned events upto j
pinned_by_iff events upto j pinned h = (
  λ m.
      let (i, within, adding) = any_witness (adds events j) (range_from 0 (suc upto)) (in_loop m) in
      adds→IsPinned events upto j i (ground (arith, includes-range_from i 0 (suc upto))) adding,
  λ p. from_loop (
      any_intro (adds events j) p.barrier (range_from 0 (suc upto))
        (ground (arith, includes-range_from p.barrier 0 (suc upto), p.reached))
        (IsPinned→adds events upto j p)),
)
  where
    law : includes j pinned ≡ (any (adds events j) (range_from 0 (suc upto)) || false)
    law =
        sym (ap (includes j) (pinned_by_eq events upto pinned h))
        ∙ includes-pin_loop events j (range_from 0 (suc upto)) []

    in_loop : includes j pinned ≡ true → any (adds events j) (range_from 0 (suc upto)) ≡ true
    in_loop m = ground (arith, law)

    from_loop : any (adds events j) (range_from 0 (suc upto)) ≡ true → includes j pinned ≡ true
    from_loop m = ground (arith, law)
