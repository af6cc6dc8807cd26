-- ===== src/Enumerate/States/Free.antt =====
-- The free operations of `enumerateCrashStates` in core/src/enumerate/states.ts as a filter, which the
-- loop gives at a crash point within the trace.
use crash_fuzz.Prelude.{
  ℕ, zero, suc, ◌+◌, ◌≤◌, ◌<◌, ◌≡◌, refl, Bool, not, ◌&&◌, List, [], ◌∷◌, some, arith, filter,
  get_elem?, includes, length, nat_eq, range_from, ◌>>=◌, Option-cases, inl, inr, if◌then◌else◌,
  sym, false, ap, Option, none,
}
use crash_fuzz.Graph.{FilesystemModel}
use crash_fuzz.Trace.{TraceEvent}
use crash_fuzz.Enumerate.States.{
  Bounds, test_at, is_done_mutation, free_loop, free_of, pinned_by, states_from, states_at,
}
use crash_fuzz.Enumerate.States.Pinned.{pinned_by-lt-length}

abbrev pub is_free : List TraceEvent → List ℕ → ℕ → Bool
is_free events pinned i = test_at events is_done_mutation i && not (includes i pinned)

abbrev pub free_ops : List TraceEvent → ℕ → List ℕ → List ℕ
free_ops events crash_point pinned = filter (is_free events pinned) (range_from 0 (suc crash_point))

get_of_lt :
    (events : List TraceEvent) (i : ℕ)
    → i < length events
    → (event : TraceEvent) × (get_elem? events i ≡ some event)
get_of_lt [] i lt = absurd (omega (arith, lt))
get_of_lt (e ∷ es) zero lt = (e, refl)
get_of_lt (e ∷ es) (suc i) lt = get_of_lt es i (omega (arith, lt))

free_loop-filter :
    (events : List TraceEvent) (pinned : List ℕ) (k n : ℕ)
    → k + n ≤ length events
    → free_loop events pinned (range_from k n)
      ≡ some (filter (is_free events pinned) (range_from k n))
unfolding free_loop
free_loop-filter events pinned k zero within = refl
free_loop-filter events pinned k (suc n) within =
    let (event, at) = get_of_lt events k (omega arith) in
    step event at (free_loop-filter events pinned (suc k) n (omega arith))
  where
    later : List ℕ
    later = filter (is_free events pinned) (range_from (suc k) n)

    step :
        (event : TraceEvent)
        → get_elem? events k ≡ some event
        → free_loop events pinned (range_from (suc k) n) ≡ some later
        → (get_elem? events k >>= λ e. free_loop events pinned (range_from (suc k) n) >>= λ rest.
            some (if is_done_mutation e && not (includes k pinned) then k ∷ rest else rest))
          ≡ some (if is_free events pinned k then k ∷ later else later)
    step event at rest =
        let test : is_free events pinned k ≡ (is_done_mutation event && not (includes k pinned)) =
          ap
            (λ (o : Option TraceEvent).
              elim o as (λ x. Bool) [ none ↦ false | some e ↦ is_done_mutation e ]
              && not (includes k pinned))
            at in
        rw (at, rest) (ap (λ (b : Bool). some (if b then k ∷ later else later)) (sym test))

pub states_at-free_ops :
    (events : List TraceEvent) (model : FilesystemModel) (bounds : Bounds) (crash_point : ℕ)
    → states_at events model bounds crash_point ≡ (
        pinned_by events crash_point >>= λ pinned.
        some
          (states_from events model bounds crash_point pinned (free_ops events crash_point pinned)))
unfolding states_at free_of
states_at-free_ops events model bounds crash_point =
    elim (Option-cases (pinned_by events crash_point)) [
      | inl past ↦ rw past refl
      | inr (pinned, pins) ↦
          rw (pins, free_loop-filter events pinned 0 (suc crash_point) (within pinned pins)) refl
    ]
  where
    within :
        (pinned : List ℕ)
        → pinned_by events crash_point ≡ some pinned
        → 0 + suc crash_point ≤ length events
    within pinned pins = omega (arith, pinned_by-lt-length events crash_point pinned pins)
