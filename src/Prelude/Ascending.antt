-- ===== src/Prelude/Ascending.antt =====
-- Strictly ascending lists of numbers, such as the indices that a filter of all of them leaves.
use crash_fuzz.Prelude.{
  ℕ, zero, suc, ◌<◌, ◌≡◌, true, Bool, List, [], ◌∷◌, arith, take, drop, filter, range_from,
  includes, All, All-drop, All-filter_keep, Bool-cases, inl, inr, nat_eq, ◌==◌, eq→≡, subst,
}

-- Each number is below all that follow it.
abbrev pub IsAscending : List ℕ → Type 0
IsAscending [] = Unit
IsAscending (n ∷ ns) = All (λ m. n < m) ns × IsAscending ns

above-range_from : (b k n : ℕ) → b < k → All (λ m. b < m) (range_from k n)
above-range_from b k zero h = tt
above-range_from b k (suc n) h = (h, above-range_from b (suc k) n (omega arith))

pub filter_range-IsAscending : (p : ℕ → Bool) (k n : ℕ) → IsAscending (filter p (range_from k n))
filter_range-IsAscending p k zero = tt
filter_range-IsAscending p k (suc n) = elim (Bool-cases (p k)) [
  | inl h ↦ rw h (
    All-filter_keep (λ m. k < m) p (range_from (suc k) n)
        (above-range_from k (suc k) n (omega arith)),
    filter_range-IsAscending p (suc k) n,
  )
  | inr h ↦ rw h (filter_range-IsAscending p (suc k) n)
]

pub drop-IsAscending : (n : ℕ) (xs : List ℕ) → IsAscending xs → IsAscending (drop n xs)
drop-IsAscending zero xs h = h
drop-IsAscending (suc n) [] h = tt
drop-IsAscending (suc n) (x ∷ xs) (above, h) = drop-IsAscending n xs h

-- What is taken is below what is dropped.
pub drop-above_take :
    (n i : ℕ) (xs : List ℕ)
    → IsAscending xs
    → includes i (take n xs) ≡ true
    → All (λ j. i < j) (drop n xs)
drop-above_take zero i xs h m = absurd (cc (m))
drop-above_take (suc n) i [] h m = absurd (cc (m))
drop-above_take (suc n) i (x ∷ xs) (above, h) m = elim (Bool-cases (x == i)) [
  | inl same ↦ All-drop (λ j. i < j) n xs (subst (λ y. All (λ j. y < j) xs) (eq→≡ x i same) above)
  | inr other ↦ drop-above_take n i xs h (ground arith)
]
