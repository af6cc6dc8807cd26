-- ===== src/Enumerate/States/Windows.antt =====
-- The free operations, and how the window and what is older than it divide them.
use crash_fuzz.Prelude.{
  ℕ, suc, ◌-◌, ◌≤◌, ◌≡◌, refl, ap, true, false, ◌||◌, List, [], ◌∷◌, ◌++◌, some, arith, All,
  All-append, All-take, All-drop, All-add_all, All-of_includes, length, take, drop,
  take-append-drop, includes, includes-append, includes-filter, includes-add_all, nat_eq,
  range_from, add_all, filter_member, and-split, Bool-cases, inl, range_from_member, inr,
  range_from_intro,
}
use crash_fuzz.Prelude.Sort.{sort, IsSorted}
use crash_fuzz.Prelude.Sort.Laws.{sort_by-IsSortedBy, includes-sort_by, All-sort_by}
use crash_fuzz.Trace.{TraceEvent, is_mutating}
use crash_fuzz.Enumerate.States.{
  is_done_mutation, slice_last, slice_older, sorted_union, test_at, pick, pinned_by, not,
}
use crash_fuzz.Enumerate.States.Free.{free_ops, is_free}
use crash_fuzz.Enumerate.States.Pinned.{pinned_by_iff, test_at_witness, test_at_intro}
use crash_fuzz.Enumerate.States.Legal.{IsIssued}

pub All-sort {κ} : (P : ℕ → Type κ) (xs : List ℕ) → All P xs → All P (sort xs)
unfolding sort
All-sort P xs h = All-sort_by (λ n. n) P xs h

pub sort-IsSorted : (xs : List ℕ) → IsSorted (sort xs)
unfolding sort
sort-IsSorted xs = sort_by-IsSortedBy (λ n. n) xs

pub includes-sort : (a : ℕ) (xs : List ℕ) → includes a (sort xs) ≡ includes a xs
unfolding sort
includes-sort a xs = includes-sort_by (λ n. n) a xs

pub includes-sorted_union :
    (a : ℕ) (xs ys : List ℕ) → includes a (sorted_union xs ys) ≡ (includes a xs || includes a ys)
unfolding sorted_union
includes-sorted_union a xs ys = ground (
  arith,
  includes-sort a (add_all (xs ++ ys) []),
  includes-add_all a (xs ++ ys) [],
  includes-append a xs ys,
)

pub All-sorted_union {κ} :
    (P : ℕ → Type κ) (xs ys : List ℕ) → All P xs → All P ys → All P (sorted_union xs ys)
unfolding sorted_union
All-sorted_union P xs ys h k =
    All-sort P _ (All-add_all P (xs ++ ys) [] (All-append P xs ys h k) tt)

pub All-slice_last {κ} :
    (P : ℕ → Type κ) (max : ℕ) (xs : List ℕ) → All P xs → All P (slice_last max xs)
unfolding slice_last
All-slice_last P max xs h = ground (arith, All-drop P (length xs - max) xs h)

pub All-slice_older {κ} :
    (P : ℕ → Type κ) (max : ℕ) (xs : List ℕ) → All P xs → All P (slice_older max xs)
unfolding slice_older
All-slice_older P max xs h = All-take P (length xs - max) xs h

pub All-pick {κ} :
    (P : ℕ → Type κ) (mask bit : ℕ) (xs : List ℕ) → All P xs → All P (pick mask bit xs)
unfolding pick
All-pick P mask bit [] h = tt
All-pick P mask bit (x ∷ xs) (p, h) = ground (arith, All-pick P mask (suc bit) xs h)

-- Every free operation is older than the window or in it, whatever the cap.
pub includes-slices :
    (a max : ℕ) (free : List ℕ)
    → includes a free ≡ true
    → (includes a (slice_older max free) || includes a (slice_last max free)) ≡ true
unfolding slice_last slice_older
includes-slices a max free h =
    let whole = includes-append a (take (length free - max) free) (drop (length free - max) free) in
    let cut = ap (includes a) (take-append-drop (length free - max) free) in
    ground (arith, whole, cut)

pub pinned-IsIssued :
    (events : List TraceEvent) (crash_point : ℕ) (pinned : List ℕ)
    → pinned_by events crash_point ≡ some pinned
    → All (IsIssued events crash_point) pinned
pinned-IsIssued events crash_point pinned h =
    All-of_includes (IsIssued events crash_point) pinned λ j m.
      let p = (pinned_by_iff events crash_point j pinned h).0 m in
      (omega (arith, p.before, p.reached), test_at_intro events _ j p.earlier p.target p.mutates)

pub free_member :
    (events : List TraceEvent) (crash_point : ℕ) (pinned : List ℕ) (i : ℕ)
    → includes i (free_ops events crash_point pinned) ≡ true
    → (i ≤ crash_point) × (test_at events is_done_mutation i ≡ true) × (includes i pinned ≡ false)
free_member events crash_point pinned i m =
    let (within, free) =
      filter_member (is_free events pinned) i (range_from 0 (suc crash_point)) m in
    let (done, unpinned) =
      and-split (test_at events is_done_mutation i) (not (includes i pinned)) free in
    (omega (arith, range_from_member i 0 (suc crash_point) within), done, ground arith)

done-mutating :
    (events : List TraceEvent) (i : ℕ)
    → test_at events is_done_mutation i ≡ true
    → test_at events (λ e. is_mutating e.call) i ≡ true
done-mutating events i h =
    let (e, at, done) = test_at_witness events is_done_mutation i h in
    test_at_intro events (λ f. is_mutating f.call) i e at (and-split _ _ done).0

pub free-IsIssued :
    (events : List TraceEvent) (crash_point : ℕ) (pinned : List ℕ)
    → All (IsIssued events crash_point) (free_ops events crash_point pinned)
free-IsIssued events crash_point pinned =
    All-of_includes (IsIssued events crash_point) (free_ops events crash_point pinned) λ i m.
      let (within, done, _) = free_member events crash_point pinned i m in
      (within, done-mutating events i done)

-- A mutation that succeeded by the crash point is pinned or free.
pub pinned_or_free :
    (events : List TraceEvent) (crash_point : ℕ) (pinned : List ℕ) (i : ℕ)
    → i ≤ crash_point
    → test_at events is_done_mutation i ≡ true
    → (includes i pinned || includes i (free_ops events crash_point pinned)) ≡ true
pinned_or_free events crash_point pinned i le h = elim (Bool-cases (includes i pinned)) [
  | inl floor ↦ rw floor refl
  | inr unpinned ↦
      rw
        (
          unpinned,
          includes-filter (is_free events pinned) i (range_from 0 (suc crash_point)),
          range_from_intro i 0 (suc crash_point) (omega arith) (omega arith),
          h,
          unpinned,
        )
        refl
]
