-- ===== src/Enumerate/Sample.antt =====
-- core/src/enumerate/sample.ts: at most so many states for each crash point.
pub mod Keep
pub mod Groups
pub mod Local
use crash_fuzz.Prelude.{
  ℕ, ◌+◌, ◌-◌, List, [], ◌∷◌, ◌++◌, map, none, some, leb, length, get_elem?, filter_map, flat_map,
  range_from, add, add_all, nat_eq, if◌then◌else◌,
}
use crash_fuzz.Prelude.Dict.{Dict, get, set}
use crash_fuzz.Prelude.Sort.{sort, sort_by}
use crash_fuzz.Enumerate.States.{CrashState}
use crash_fuzz.Enumerate.Hash.{unit_hash}

pub record SampleOptions : Type 0 where
  pub max_per_crash_point : ℕ
  pub seed : ℕ

-- The first loop: `groups` lists, for each crash point, its states in order.
unfoldable pub group_step : CrashState → Dict ℕ (List CrashState) → Dict ℕ (List CrashState)
group_step state groups = elim (get state.crash_point groups) [
  | none ↦ set state.crash_point (state ∷ []) groups
  | some group ↦ set state.crash_point (group ++ (state ∷ [])) groups
]

unfoldable pub group_loop : List CrashState → Dict ℕ (List CrashState) → Dict ℕ (List CrashState)
unfolding group_step
group_loop [] groups = groups
group_loop (s ∷ ss) groups = group_loop ss (group_step s groups)

-- The positions of a group, ranked by their hash.
unfoldable pub ranked : ℕ → ℕ → List ℕ
unfolding unit_hash sort_by
ranked seed size = sort_by (unit_hash seed) (range_from 0 size)

-- The loop that fills `keep` up to the cap.
unfoldable pub keep_loop : ℕ → List ℕ → List ℕ → List ℕ
keep_loop max [] keep = keep
keep_loop max (candidate ∷ rest) keep =
    let filled = keep_loop max rest (add candidate keep) in
    if leb max (length keep) then keep else filled

-- `keep`, for a group of `size` states, in ascending order
unfoldable pub kept : ℕ → ℕ → ℕ → List ℕ
unfolding keep_loop ranked sort
kept max seed size = sort (keep_loop max (ranked seed size) (add_all (0 ∷ (size - 1) ∷ []) []))

-- The body of the loop over the groups.
unfoldable pub sample_group : SampleOptions → ℕ → List CrashState → List CrashState
unfolding kept
sample_group options crash_point group =
    let max = options.max_per_crash_point in
    if leb (length group) max
    then group
    else filter_map (get_elem? group) (kept max (options.seed + crash_point) (length group))

abbrev pub sample_entry : SampleOptions → ℕ × List CrashState → List CrashState
sample_entry options (crash_point, group) = sample_group options crash_point group

-- `sampleStates`
unfoldable pub sample_states : List CrashState → SampleOptions → List CrashState
unfolding group_loop sample_group sort_by
sample_states states options =
    flat_map (sample_entry options) (sort_by (λ entry. entry.0) (group_loop states []))
