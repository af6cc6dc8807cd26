-- ===== src/Enumerate/States/Total.antt =====
-- Where `enumerateCrashStates` of core/src/enumerate/states.ts returns, and where it throws.
use crash_fuzz.Prelude.{
  ℕ, ◌<◌, ◌≤◌, ◌≡◌, refl, true, List, [], ◌∷◌, some, none, arith, length, includes, nat_eq, All,
  range_from, suc, All-of_includes, range_from_member, Bool-cases, ◌++◌, ◌==◌, inl, eq→≡, inr, ◌⊎◌,
  Option, ◌>>=◌, Option-cases,
}
use crash_fuzz.Enumerate.States.{
  pinned_by, enumerate_crash_states, pin_loop, Bounds, states_at_all, states_at, CrashState,
  states_from,
}
use crash_fuzz.Enumerate.States.Free.{free_ops, states_at-free_ops}
use crash_fuzz.Trace.{TraceEvent, Trace}
use crash_fuzz.Graph.{FilesystemModel}

pub pinned_by_total :
    (events : List TraceEvent) (upto : ℕ)
    → upto < length events
    → (pinned : List ℕ) × (pinned_by events upto ≡ some pinned)
unfolding pinned_by
pinned_by_total events upto h = (pin_loop events (range_from 0 (suc upto)) [], ground arith)

pinned_by_past :
    (events : List TraceEvent) (upto : ℕ) → length events ≤ upto → pinned_by events upto ≡ none
unfolding pinned_by
pinned_by_past events upto h = ground arith

module _ (events : List TraceEvent) (model : FilesystemModel) (bounds : Bounds) where
  states_at_all_total :
      (points : List ℕ)
      → All (λ p. p < length events) points
      → (states : List CrashState) × (states_at_all events model bounds points ≡ some states)
  unfolding states_at_all
  states_at_all_total [] h = ([], refl)
  states_at_all_total (p ∷ ps) (lt, h) =
      let (pinned, e) = pinned_by_total events p lt in
      let (more, e') = states_at_all_total ps h in
      (
        states_from events model bounds p pinned (free_ops events p pinned) ++ more,
        rw (states_at-free_ops events model bounds p, e, e') refl,
      )

  states_at_all_past :
      (p : ℕ) (points : List ℕ)
      → includes p points ≡ true
      → length events ≤ p
      → states_at_all events model bounds points ≡ none
  unfolding states_at_all states_at
  states_at_all_past p [] m h = cc
  states_at_all_past p (q ∷ qs) m h = elim (Bool-cases (q == p)) [
    | inl same ↦ rw (eq→≡ q p same, pinned_by_past events p h) refl
    | inr other ↦
        skip (Option-cases (states_at events model bounds q))
          (states_at_all_past p qs (ground arith) h)
  ]
    where
      skip :
          (states_at events model bounds q ≡ none)
            ⊎ ((here : List CrashState) × (states_at events model bounds q ≡ some here))
          → states_at_all events model bounds qs ≡ none
          → (states_at events model bounds q >>= λ here.
              states_at_all events model bounds qs >>= λ more. some (here ++ more))
            ≡ none
      skip (inl e) later = rw e refl
      skip (inr (here, e)) later = rw (e, later) refl

-- The crash points that the caller gives, if any.
abbrev pub given_points : Option (List ℕ) → List ℕ
given_points none = []
given_points (some points) = points

range_from-lt : (n : ℕ) → All (λ p. p < n) (range_from 0 n)
range_from-lt n =
    All-of_includes (λ p. p < n) (range_from 0 n) (λ p m. omega (arith, range_from_member p 0 n m))

-- The enumeration returns on every trace if no crash points are given, or if each that is given is a
-- position of the trace.
pub enumerate_crash_states_total :
    (trace : Trace) (model : FilesystemModel) (bounds : Bounds) (given : Option (List ℕ))
    → All (λ p. p < length trace.events) (given_points given)
    → (states : List CrashState) × (enumerate_crash_states trace
          (record { model = model; bounds = bounds; crash_points = given })
        ≡ some states)
unfolding enumerate_crash_states
enumerate_crash_states_total trace model bounds none h =
    states_at_all_total trace.events model bounds _ (range_from-lt (length trace.events))
enumerate_crash_states_total trace model bounds (some points) h =
    states_at_all_total trace.events model bounds points h

-- It fails if one of the crash points lies past the end of the trace.
pub enumerate_crash_states_past :
    (trace : Trace) (model : FilesystemModel) (bounds : Bounds) (points : List ℕ) (p : ℕ)
    → includes p points ≡ true
    → length trace.events ≤ p
    → enumerate_crash_states trace
        (record { model = model; bounds = bounds; crash_points = some points })
      ≡ none
unfolding enumerate_crash_states
enumerate_crash_states_past trace model bounds points p m h =
    states_at_all_past trace.events model bounds p points m h
