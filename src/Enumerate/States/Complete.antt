-- ===== src/Enumerate/States/Complete.antt =====
-- `enumerateCrashStates` of core/src/enumerate/states.ts against the choices of the window.
use mathlib.Core.List.{Mem, mem-append_left, mem-append_right, mem-cons_self}
use crash_fuzz.Prelude.{
  ℕ, ◌<◌, ◌≡◌, refl, subst, Bool, true, false, List, [], ◌∷◌, ◌++◌, some, arith, inl, inr, filter,
  includes, nat_eq, flat_map, length, Bool-cases, ◌==◌, sym, range_from, eq→≡, range_from_intro,
  some-injective, ◌≤◌, ◌∙◌, ap, >>=-eq-some, ◌⊎◌, ◌||◌, includes-append, includes-filter,
}
use crash_fuzz.Enumerate.States.{
  CrashState, EnumerateOptions, Bounds, reordered_states, subset_states, states_at_all, states_at,
  pinned_by, mask_limit, states_from, sorted_union, enumerate_crash_states, test_at, slice_older,
  crash_points_of, is_done_mutation, slice_last,
}
use crash_fuzz.Enumerate.States.Free.{free_ops, states_at-free_ops}
use crash_fuzz.Trace.{Trace, TraceEvent}
use crash_fuzz.Prelude.Sort.{sort}
use crash_fuzz.Graph.{FilesystemModel}
use crash_fuzz.Enumerate.States.Legal.{IsGrounded, exists_on_disk_iff}
use crash_fuzz.Enumerate.States.Bits.{mask_of, mask_of-lt-limit, pick-mask_of}
use crash_fuzz.Enumerate.States.Windows.{
  includes-sort, pinned_or_free, includes-sorted_union, includes-slices,
}

mem-flat_map {ℓ} :
    {B : Type ℓ} (f : ℕ → List B) (x : ℕ) (b : B) (xs : List ℕ)
    → includes x xs ≡ true
    → Mem b (f x)
    → Mem b (flat_map f xs)
mem-flat_map f x b [] h m = absurd (cc)
mem-flat_map f x b (y ∷ ys) h m = elim (Bool-cases (y == x)) [
  | inl same ↦ mem-append_left (flat_map f ys) (subst (λ z. Mem b (f z)) (sym (eq→≡ y x same)) m)
  | inr other ↦ mem-append_right (f y) (mem-flat_map f x b ys (ground arith) m)
]

-- What a choice of the window persists.
abbrev pub chosen : List ℕ → List ℕ → (ℕ → Bool) → List ℕ
chosen always window keep = sort (always ++ filter keep window)

module _ (events : List TraceEvent) (torn : Bool) (crash_point : ℕ) (always window : List ℕ) where
  mem-subset_states :
      (persisted : List ℕ)
      → IsGrounded events persisted
      → Mem
          (record { crash_point = crash_point; persisted = persisted; partials = [] })
          (subset_states events torn crash_point window persisted)
  unfolding subset_states
  mem-subset_states persisted g = rw ((exists_on_disk_iff events persisted).1 g) mem-cons_self

  pub mem-reordered_states :
      (keep : ℕ → Bool)
      → length window < 31
      → IsGrounded events (chosen always window keep)
      → Mem
          (record {
            crash_point = crash_point;
            persisted = chosen always window keep;
            partials = [];
          })
          (reordered_states events torn crash_point always window)
  unfolding reordered_states
  mem-reordered_states keep small g =
      mem-flat_map _ (mask_of keep window) _ (range_from 0 (mask_limit (length window)))
        (range_from_intro (mask_of keep window) 0 (mask_limit (length window)) (omega arith)
          (omega (arith, mask_of-lt-limit keep window small)))
        (rw (pick-mask_of keep window small) (mem-subset_states (chosen always window keep) g))

module _ (events : List TraceEvent) (model : FilesystemModel) (bounds : Bounds) where
  mem-states_at_all :
      (crash_point : ℕ) (pinned : List ℕ) (s : CrashState) (points : List ℕ)
      (states : List CrashState)
      → states_at_all events model bounds points ≡ some states
      → includes crash_point points ≡ true
      → pinned_by events crash_point ≡ some pinned
      → Mem s
          (states_from events model bounds crash_point pinned (free_ops events crash_point pinned))
      → Mem s states
  unfolding states_at_all
  mem-states_at_all crash_point pinned s [] states h i pins m = absurd (cc)
  mem-states_at_all crash_point pinned s (p ∷ ps) states h i pins m =
      let (here, e, h') = >>=-eq-some (states_at events model bounds p) _ h in
      let (later, e', h'') = >>=-eq-some (states_at_all events model bounds ps) _ h' in
      subst (Mem s) (some-injective _ _ h'') (elim (Bool-cases (p == crash_point)) [
        | inl same ↦ mem-append_left later (first here same e)
        | inr other ↦
            mem-append_right here
              (mem-states_at_all crash_point pinned s ps later e' (ground arith) pins m)
      ])
    where
      at_point :
          states_at events model bounds crash_point
          ≡ some (
              states_from events model bounds crash_point pinned
                (free_ops events crash_point pinned))
      at_point = states_at-free_ops events model bounds crash_point ∙ rw pins refl

      first :
          (here : List CrashState)
          → (p == crash_point) ≡ true
          → states_at events model bounds p ≡ some here
          → Mem s here
      first here same e =
          subst (Mem s)
            (some-injective _ _ (
              sym at_point
              ∙ ap (states_at events model bounds) (sym (eq→≡ p crash_point same))
              ∙ e))
            m

-- A choice of operations at a crash point by the enumerator's own floor and slices.
pub record IsPick (events : List TraceEvent) (max crash_point : ℕ) (pinned : List ℕ)
    (keep : ℕ → Bool) : Type 0 where
  pub issued :
      (i : ℕ)
      → keep i ≡ true
      → (i ≤ crash_point)
        × ((test_at events is_done_mutation i ≡ true) ⊎ (includes i pinned ≡ true))
  pub floor : (i : ℕ) → includes i pinned ≡ true → keep i ≡ true
  pub older :
      (i : ℕ)
      → includes i (slice_older max (free_ops events crash_point pinned)) ≡ true
      → keep i ≡ true
  pub grounded :
      (persisted : List ℕ) → ((i : ℕ) → includes i persisted ≡ keep i) → IsGrounded events persisted

abbrev pub window_of : List TraceEvent → Bounds → ℕ → List ℕ → List ℕ
window_of events bounds p pinned =
    slice_last bounds.max_unpersisted_window (free_ops events p pinned)

abbrev pub always_of : List TraceEvent → Bounds → ℕ → List ℕ → List ℕ
always_of events bounds p pinned =
    sorted_union pinned (slice_older bounds.max_unpersisted_window (free_ops events p pinned))

includes-chosen :
    (pinned free : List ℕ) (max : ℕ) (keep : ℕ → Bool) (i : ℕ)
    → (keep i ≡ true → (includes i pinned || includes i free) ≡ true)
    → (includes i pinned ≡ true → keep i ≡ true)
    → (includes i (slice_older max free) ≡ true → keep i ≡ true)
    → includes i (chosen (sorted_union pinned (slice_older max free)) (slice_last max free) keep)
      ≡ keep i
includes-chosen pinned free max keep i cover floor older =
    let window = slice_last max free in
    let always = sorted_union pinned (slice_older max free) in
    ground (
      arith,
      includes-sort i (always ++ filter keep window),
      includes-append i always (filter keep window),
      includes-filter keep i window,
      includes-sorted_union i pinned (slice_older max free),
      includes-slices i max free,
    )

IsPick-covers :
    {events : List TraceEvent} {max crash_point : ℕ} {pinned : List ℕ} {keep : ℕ → Bool}
    → IsPick events max crash_point pinned keep
    → (i : ℕ) → keep i ≡ true
    → (includes i pinned || includes i (free_ops events crash_point pinned)) ≡ true
IsPick-covers {events} {crash_point} {pinned} c i k = elim (c.issued i k).1 [
  | inl done ↦ pinned_or_free events crash_point pinned i (c.issued i k).0 done
  | inr floor ↦ rw floor refl
]

-- On a filesystem that may reorder, with a window of fewer than 31 operations, every such choice is
-- the untorn content of some enumerated state.
pub enumerate_crash_states_picks :
    (trace : Trace) (options : EnumerateOptions) (states : List CrashState) (crash_point : ℕ)
    (pinned : List ℕ) (keep : ℕ → Bool)
    → enumerate_crash_states trace options ≡ some states
    → options.model.total_order ≡ false
    → includes crash_point (crash_points_of trace.events options.crash_points) ≡ true
    → pinned_by trace.events crash_point ≡ some pinned
    → length (
        slice_last options.bounds.max_unpersisted_window (free_ops trace.events crash_point pinned))
      < 31
    → IsPick trace.events options.bounds.max_unpersisted_window crash_point pinned keep
    → (s : CrashState) × Mem s states
      × (s.crash_point ≡ crash_point)
      × (s.partials ≡ [])
      × ((i : ℕ) → includes i s.persisted ≡ keep i)
unfolding enumerate_crash_states states_from
enumerate_crash_states_picks trace options states crash_point pinned keep h loose point pins small
      c =
    let always = always_of trace.events options.bounds crash_point pinned in
    let window = window_of trace.events options.bounds crash_point pinned in
    let s : CrashState = record {
      crash_point = crash_point;
      persisted = chosen always window keep;
      partials = [];
    } in
    (
      s,
      mem-states_at_all trace.events options.model options.bounds crash_point pinned s
          (crash_points_of trace.events options.crash_points) states h point pins (rw loose there),
      refl,
      refl,
      law,
    )
  where
    law :
        (i : ℕ)
        → includes i (
            chosen
              (always_of trace.events options.bounds crash_point pinned)
              (window_of trace.events options.bounds crash_point pinned)
              keep)
          ≡ keep i
    law i =
        includes-chosen pinned (free_ops trace.events crash_point pinned)
          options.bounds.max_unpersisted_window keep i (IsPick-covers c i) (c.floor i) (c.older i)

    there :
        Mem
          (record {
            crash_point = crash_point;
            persisted =
                chosen
                  (always_of trace.events options.bounds crash_point pinned)
                  (window_of trace.events options.bounds crash_point pinned)
                  keep;
            partials = [];
          })
          (reordered_states trace.events options.bounds.torn_writes crash_point
            (always_of trace.events options.bounds crash_point pinned)
            (window_of trace.events options.bounds crash_point pinned))
    there =
        mem-reordered_states trace.events options.bounds.torn_writes crash_point
          (always_of trace.events options.bounds crash_point pinned)
          (window_of trace.events options.bounds crash_point pinned) keep small (c.grounded _ law)
