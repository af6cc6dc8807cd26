-- ===== src/Enumerate/States/Models.antt =====
-- Which flags of a filesystem model the enumerator reads.
use crash_fuzz.Prelude.{◌≡◌, refl, List, Option, ℕ, ◌∷◌, []}
use crash_fuzz.Trace.{TraceEvent, Trace}
use crash_fuzz.Enumerate.States.{
  enumerate_crash_states, Bounds, states_from, states_at_all, states_at, crash_points_of,
}
use crash_fuzz.Graph.{FilesystemModel}

module _ (events : List TraceEvent) (m m' : FilesystemModel) (bounds : Bounds)
    (same : m.total_order ≡ m'.total_order) where
  states_from_congr :
      (p : ℕ) (pinned free : List ℕ)
      → states_from events m bounds p pinned free ≡ states_from events m' bounds p pinned free
  unfolding states_from
  states_from_congr p pinned free = rw same refl

  states_at_all_congr :
      (points : List ℕ)
      → states_at_all events m bounds points ≡ states_at_all events m' bounds points
  unfolding states_at_all states_at
  states_at_all_congr [] = refl
  states_at_all_congr (p ∷ ps) = simp (states_from_congr, states_at_all_congr ps)

-- Two models that agree on `totalOrder` give the same states, whatever their other four flags say.
pub enumerate_crash_states-total_order :
    (trace : Trace) (m m' : FilesystemModel) (bounds : Bounds) (points : Option (List ℕ))
    → m.total_order ≡ m'.total_order
    → enumerate_crash_states trace (record { model = m; bounds = bounds; crash_points = points })
      ≡ enumerate_crash_states trace (record { model = m'; bounds = bounds; crash_points = points })
unfolding enumerate_crash_states
enumerate_crash_states-total_order trace m m' bounds points same =
    states_at_all_congr trace.events m m' bounds same (crash_points_of trace.events points)
