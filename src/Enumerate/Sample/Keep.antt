-- ===== src/Enumerate/Sample/Keep.antt =====
-- The positions of a group that `sampleStates` of core/src/enumerate/sample.ts keeps.
use crash_fuzz.Prelude.{
  ℕ, suc, ◌-◌, ◌<◌, ◌≤◌, ◌≡◌, sym, ◌∙◌, true, ◌||◌, List, [], ◌∷◌, arith, leb, length, includes,
  add, add_all, range_from, nat_eq, Bool-cases, inl, inr, max, includes-add, includes-add_all,
  includes-range_from,
}
use crash_fuzz.Prelude.Sort.{sort, IsSorted}
use crash_fuzz.Prelude.Sort.Laws.{length-sort_by, includes-sort_by, sort_by-IsSortedBy}
use crash_fuzz.Enumerate.Sample.{ranked, keep_loop, kept}
use crash_fuzz.Enumerate.Hash.{unit_hash}

length-add : (a : ℕ) (s : List ℕ) → length (add a s) ≤ suc (length s)
length-add a [] = omega arith
length-add a (x ∷ s) = ground (arith, length-add a s)

keep_loop-length :
    (cap : ℕ) (candidates keep : List ℕ)
    → length (keep_loop cap candidates keep) ≤ max cap (length keep)
unfolding keep_loop
keep_loop-length cap [] keep = omega arith
keep_loop-length cap (c ∷ cs) keep = elim (Bool-cases (leb cap (length keep))) [
  | inl full ↦ rw full (omega arith)
  | inr room ↦ rw room (ground (arith, keep_loop-length cap cs (add c keep), length-add c keep))
]

keep_loop-keeps :
    (cap : ℕ) (candidates keep : List ℕ) (a : ℕ)
    → includes a keep ≡ true
    → includes a (keep_loop cap candidates keep) ≡ true
unfolding keep_loop
keep_loop-keeps cap [] keep a h = h
keep_loop-keeps cap (c ∷ cs) keep a h = elim (Bool-cases (leb cap (length keep))) [
  | inl full ↦ rw full h
  | inr room ↦
      rw room (keep_loop-keeps cap cs (add c keep) a (ground (arith, includes-add a c keep)))
]

keep_loop-member :
    (cap : ℕ) (candidates keep : List ℕ) (a : ℕ)
    → includes a (keep_loop cap candidates keep) ≡ true
    → (includes a candidates || includes a keep) ≡ true
unfolding keep_loop
keep_loop-member cap [] keep a h = h
keep_loop-member cap (c ∷ cs) keep a h = elim (Bool-cases (leb cap (length keep))) [
  | inl full ↦ ground (arith, rw full at h)
  | inr room ↦
      ground (arith, keep_loop-member cap cs (add c keep) a (rw room at h), includes-add a c keep)
]

-- The two ends of a group.
abbrev ends : ℕ → List ℕ
ends size = add_all (0 ∷ (size - 1) ∷ []) []

length-ends : (size : ℕ) → length (ends size) ≤ 2
length-ends size = length-add (size - 1) (0 ∷ [])

-- Of a group that is not empty, the positions kept are at most the cap or two, whichever is more;
-- they are in ascending order and within the group, and the first and the last are among them.
pub kept_lem :
    (cap seed size : ℕ)
    → 0 < size
    → (length (kept cap seed size) ≤ max cap 2)
      × IsSorted (kept cap seed size)
      × (includes 0 (kept cap seed size) ≡ true)
      × (includes (size - 1) (kept cap seed size) ≡ true)
      × ((i : ℕ) → includes i (kept cap seed size) ≡ true → i < size)
unfolding kept sort ranked
kept_lem cap seed size h =
    let filled = keep_loop cap (ranked seed size) (ends size) in
    let asked : (a : ℕ) → includes a (sort filled) ≡ includes a filled =
      λ a. includes-sort_by (λ n. n) a filled in
    (
      omega (
        arith,
        length-sort_by (λ n. n) filled,
        keep_loop-length cap (ranked seed size) (ends size),
        length-ends size,
      ),
      sort_by-IsSortedBy (λ n. n) filled,
      asked 0
          ∙ keep_loop-keeps cap (ranked seed size) (ends size) 0
              (ground (arith, includes-add_all 0 (0 ∷ (size - 1) ∷ []) [])),
      asked (size - 1)
          ∙ keep_loop-keeps cap (ranked seed size) (ends size) (size - 1)
              (ground (arith, includes-add_all (size - 1) (0 ∷ (size - 1) ∷ []) [])),
      λ i m. ground (
        arith,
        keep_loop-member cap (ranked seed size) (ends size) i (sym (asked i) ∙ m),
        includes-add_all i (0 ∷ (size - 1) ∷ []) [],
        includes-sort_by (unit_hash seed) i (range_from 0 size),
        includes-range_from i 0 size,
      ),
    )
