-- ===== src/Enumerate/Sample/Local.antt =====
-- `sampleStates` of core/src/enumerate/sample.ts, one crash point at a time.
use crash_fuzz.Prelude.{
  ℕ, ◌+◌, ◌≡◌, ◌≢◌, refl, sym, ap, ◌∙◌, Bool, true, false, List, [], ◌∷◌, Option, none, some, arith,
  leb, length, filter, filter_map, flat_map, get_elem?, ◌==◌, nat_eq, All, Bool-cases, inl, inr,
  subst, eq→≡, append-nil, if◌then◌else◌, filter-append, ap₂, All-get_elem?, All-map,
}
use crash_fuzz.Prelude.Dict.{get}
use crash_fuzz.Prelude.Sort.{sort_by, insert_by}
use crash_fuzz.Prelude.Sort.Laws.{filter-sort_by, All-sort_by}
use crash_fuzz.Prelude.Sort.Unique.{HasDistinctKeys}
use crash_fuzz.Enumerate.States.{CrashState}
use crash_fuzz.Enumerate.Sample.{
  SampleOptions, group_loop, sample_group, sample_entry, sample_states, kept,
}
use crash_fuzz.Enumerate.Sample.Groups.{
  Groups, entry_key, is_at, IsGrouped, group_in, group_loop-IsGrouped, group_loop-HasDistinctKeys,
  group_loop-group_of,
}

-- The entry that a lookup finds.
abbrev entry_in : ℕ → Option (List CrashState) → Groups
entry_in p none = []
entry_in p (some group) = (p, group) ∷ []

abbrev is_for : ℕ → ℕ × List CrashState → Bool
is_for p entry = entry_key entry == p

filter-absent :
    (p : ℕ) (groups : Groups) → All (λ y. p ≢ entry_key y) groups → filter (is_for p) groups ≡ []
filter-absent p [] h = refl
filter-absent p ((j, w) ∷ m) (n, h) = elim (Bool-cases (j == p)) [
  | inl e ↦ absurd (n (sym (eq→≡ j p e)))
  | inr e ↦ rw e (filter-absent p m h)
]

-- Where the keys are distinct, one entry at most has the key looked for.
filter-is_for :
    (p : ℕ) (groups : Groups)
    → HasDistinctKeys entry_key groups
    → filter (is_for p) groups ≡ entry_in p (get p groups)
filter-is_for p [] h = refl
filter-is_for p ((j, w) ∷ m) (n, h) = elim (Bool-cases (j == p)) [
  | inl e ↦
      let same = eq→≡ j p e in
      rw e (
        ap₂ (λ k rest. (k, w) ∷ rest) same
          (filter-absent p m (subst (λ k. All (λ y. k ≢ entry_key y) m) same n)))
  | inr e ↦ rw e (filter-is_for p m h)
]

module _ (options : SampleOptions) where
  sample_group-nil : (p : ℕ) → sample_group options p [] ≡ []
  unfolding sample_group
  sample_group-nil p = ground arith

  -- A sample is made of states of the group.
  All-filter_map {κ} :
      (P : CrashState → Type κ) (group : List CrashState) (is : List ℕ)
      → All P group
      → All P (filter_map (get_elem? group) is)
  All-filter_map P group [] h = tt
  All-filter_map P group (i ∷ is) h = go (get_elem? group i) refl (All-filter_map P group is h)
    where
      go :
          (o : Option CrashState)
          → get_elem? group i ≡ o
          → All P (filter_map (get_elem? group) is)
          → All P (elim o as (λ x. List CrashState) [
            | none ↦ filter_map (get_elem? group) is
            | some y ↦ y ∷ filter_map (get_elem? group) is
          ])
      go none e later = later
      go (some y) e later = (All-get_elem? P group i y h e, later)

  All-sample_group {κ} :
      (P : CrashState → Type κ) (p : ℕ) (group : List CrashState)
      → All P group
      → All P (sample_group options p group)
  unfolding sample_group
  All-sample_group P p group h =
      elim (Bool-cases (leb (length group) options.max_per_crash_point)) [
        | inl few ↦ rw few h
        | inr many ↦ rw many (
            All-filter_map P group
              (kept options.max_per_crash_point (options.seed + p) (length group)) h)
      ]

  sample-entry_in :
      (p : ℕ) (o : Option (List CrashState))
      → flat_map (sample_entry options) (sort_by entry_key (entry_in p o))
        ≡ sample_group options p (group_in o)
  unfolding sort_by insert_by
  sample-entry_in p none = sym (sample_group-nil p)
  sample-entry_in p (some group) = append-nil (sample_group options p group)

filter-all :
    (p : CrashState → Bool) (ss : List CrashState) → All (λ s. p s ≡ true) ss → filter p ss ≡ ss
filter-all p [] h = refl
filter-all p (s ∷ ss) (e, h) = rw e (ap (◌∷◌ s) (filter-all p ss h))

filter-none :
    (p : CrashState → Bool) (ss : List CrashState) → All (λ s. p s ≡ false) ss → filter p ss ≡ []
filter-none p [] h = refl
filter-none p (s ∷ ss) (e, h) = rw e (filter-none p ss h)

module _ (options : SampleOptions) (p : ℕ) where
  filter-sample_group :
      (j : ℕ) (w : List CrashState)
      → All (λ s. is_at j s ≡ true) w
      → filter (is_at p) (sample_group options j w)
        ≡ (if j == p then sample_group options j w else [])
  filter-sample_group j w g =
      let here = All-sample_group options (λ s. is_at j s ≡ true) j w g in
      elim (Bool-cases (j == p)) [
        | inl e ↦ rw e (
            filter-all (is_at p) (sample_group options j w) (
              subst (λ k. All (λ s. is_at k s ≡ true) (sample_group options j w)) (eq→≡ j p e)
                here))
        | inr e ↦ rw e (
            filter-none (is_at p) (sample_group options j w) (
              All-map (λ s at. ground (arith, nat_eq.beq_iff s.crash_point j))
                (sample_group options j w) here))
      ]

  filter-flat_map_entries :
      (groups : Groups)
      → IsGrouped groups
      → filter (is_at p) (flat_map (sample_entry options) groups)
        ≡ flat_map (sample_entry options) (filter (is_for p) groups)
  filter-flat_map_entries [] h = refl
  filter-flat_map_entries ((j, w) ∷ m) (g, h) =
      rw
        (
          filter-append (is_at p) (sample_group options j w) (flat_map (sample_entry options) m),
          filter-sample_group j w g,
          filter-flat_map_entries m h,
        )
        (elim (Bool-cases (j == p)) [ inl e ↦ rw e refl | inr e ↦ rw e refl ])

  -- The states sampled at one crash point are the sample of that crash point's own states, so they
  -- do not depend on what the other crash points enumerate.
  pub sample_states-is_at :
      (states : List CrashState)
      → filter (is_at p) (sample_states states options)
        ≡ sample_group options p (filter (is_at p) states)
  unfolding sample_states
  sample_states-is_at states =
      let groups = group_loop states [] in
      let grouped = group_loop-IsGrouped states [] tt in
      filter-flat_map_entries (sort_by entry_key groups) (All-sort_by entry_key _ groups grouped)
      ∙ ap (flat_map (sample_entry options)) (filter-sort_by entry_key (is_for p) groups)
      ∙ ap (λ d. flat_map (sample_entry options) (sort_by entry_key d))
          (filter-is_for p groups (group_loop-HasDistinctKeys states [] tt))
      ∙ sample-entry_in options p (get p groups)
      ∙ ap (sample_group options p) (group_loop-group_of p states [])
