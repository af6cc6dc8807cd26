-- ===== src/Trace/Replay/Laws.antt =====
-- `replaySelection` against `replayTrace`, of core/src/trace/replay.ts.
use crash_fuzz.Prelude.{
  ℕ, zero, suc, ◌+◌, ◌≡◌, refl, sym, Bool, true, false, not, List, [], ◌∷◌, Option, none, some,
  arith, includes, entries, inl, inr, Bool-cases, get_elem?, nat_eq, subst, if◌then◌else◌, ◌||◌,
}
use crash_fuzz.Prelude.Io.{Io, Outcome, after}
use crash_fuzz.Prelude.Int.{is_negative}
use crash_fuzz.Trace.{CallName, TraceEvent, Trace, is_mutating}
use crash_fuzz.Trace.Replay.{
  NodeFs, ReplayOptions, apply_call, apply_selected, selection_loop, trace_loop, replay_selection,
  replay_trace,
}

-- A position that holds a mutation is in the list exactly when the mutation succeeded.
abbrev pub IsEverything : ℕ → List TraceEvent → List ℕ → Type 0
IsEverything k events persisted =
    (i : ℕ) (e : TraceEvent)
    → get_elem? events i ≡ some e
    → is_mutating e.call ≡ true
    → includes (k + i) persisted ≡ not (is_negative e.return_value)

module _ {F : Type 0} (fs : NodeFs F) (options : ReplayOptions) where
  -- A call that is no mutation leaves the directory alone.
  apply_call-other :
      (call : CallName) (event : TraceEvent) (bytes : Option ℕ) (s : F)
      → is_mutating call ≡ false
      → apply_call fs options call event bytes s ≡ (Outcome.returned tt, s)
  unfolding apply_call
  apply_call-other CallName.open_ event bytes s h = refl
  apply_call-other CallName.close event bytes s h = refl
  apply_call-other CallName.write event bytes s h = absurd (cc)
  apply_call-other CallName.pwrite event bytes s h = absurd (cc)
  apply_call-other CallName.writev event bytes s h = absurd (cc)
  apply_call-other CallName.fsync event bytes s h = refl
  apply_call-other CallName.fdatasync event bytes s h = refl
  apply_call-other CallName.sync_file_range event bytes s h = refl
  apply_call-other CallName.ftruncate event bytes s h = absurd (cc)
  apply_call-other CallName.truncate event bytes s h = absurd (cc)
  apply_call-other CallName.mkdir event bytes s h = absurd (cc)
  apply_call-other CallName.unlink event bytes s h = absurd (cc)
  apply_call-other CallName.link event bytes s h = absurd (cc)
  apply_call-other CallName.rename event bytes s h = absurd (cc)

  apply_selected-other :
      (event : TraceEvent) (s : F)
      → is_mutating event.call ≡ false
      → apply_selected fs options event none s ≡ (Outcome.returned tt, s)
  unfolding apply_selected
  apply_selected-other event s h = apply_call-other event.call event none s h

  IsEverything-tail :
      (persisted : List ℕ) (k : ℕ) (event : TraceEvent) (events : List TraceEvent)
      → IsEverything k (event ∷ events) persisted
      → IsEverything (suc k) events persisted
  IsEverything-tail persisted k event events h i e at m =
      let same : suc k + i ≡ k + suc i = omega arith in
      subst (λ z. includes z persisted ≡ not (is_negative e.return_value)) (sym same)
        (h (suc i) e at m)

  -- One event of the loop over a selection with nothing torn, and of the loop over the trace.
  abbrev select_step : Bool → TraceEvent → Io F Unit → Io F Unit
  select_step chosen event rest s =
      if chosen || false
      then after (apply_selected fs options event none s) (λ done. rest)
      else rest s

  select_step-mutation :
      (chosen failed : Bool) (event : TraceEvent) (f g : Io F Unit) (s : F)
      → ((t : F) → f t ≡ g t)
      → chosen ≡ not failed
      → select_step chosen event f s
        ≡ (if failed then g s else after (apply_selected fs options event none s) (λ done. g))
  select_step-mutation true true event f g s h e = absurd (cc)
  select_step-mutation true false event f g s h e = go (apply_selected fs options event none s)
    where
      go : (r : Outcome (Unit {0}) × F) → after r (λ done. f) ≡ after r (λ done. g)
      go (Outcome.returned done, t) = h t
      go (Outcome.thrown message, t) = refl
  select_step-mutation false true event f g s h e = h s
  select_step-mutation false false event f g s h e = absurd (cc)

  select_step-other :
      (chosen failed : Bool) (event : TraceEvent) (f g : Io F Unit) (s : F)
      → ((t : F) → f t ≡ g t)
      → apply_selected fs options event none s ≡ (Outcome.returned tt, s)
      → select_step chosen event f s
        ≡ (if failed then g s else after (apply_selected fs options event none s) (λ done. g))
  select_step-other true true event f g s h e = rw e (h s)
  select_step-other true false event f g s h e = rw e (h s)
  select_step-other false true event f g s h e = h s
  select_step-other false false event f g s h e = rw e (h s)

  selection_loop-trace_loop :
      (persisted : List ℕ) (k : ℕ) (events : List TraceEvent)
      → IsEverything k events persisted
      → (s : F)
      → selection_loop fs options persisted [] (entries k events) s ≡ trace_loop fs options events s
  unfolding selection_loop trace_loop
  selection_loop-trace_loop persisted k [] h s = refl
  selection_loop-trace_loop persisted k (event ∷ events) h s =
      let later =
        selection_loop-trace_loop persisted (suc k) events
          (IsEverything-tail persisted k event events h) in
      let f = selection_loop fs options persisted [] (entries (suc k) events) in
      let g = trace_loop fs options events in
      let same : k + zero ≡ k = omega arith in
      elim (Bool-cases (is_mutating event.call)) [
        | inl m ↦
            select_step-mutation (includes k persisted) (is_negative event.return_value) event f g s
              later
              (subst (λ z. includes z persisted ≡ not (is_negative event.return_value)) same
                (h zero event refl m))
        | inr m ↦
            select_step-other (includes k persisted) (is_negative event.return_value) event f g s
              later (apply_selected-other event s m)
      ]

  -- A selection that tears nothing, and whose whole operations are, among the mutations, exactly
  -- those that succeeded, leaves the directory as the replay of the whole trace does, error
  -- included.
  pub replay_selection-everything :
      (trace : Trace) (persisted : List ℕ) (s : F)
      → IsEverything 0 trace.events persisted
      → replay_selection fs options trace (record { persisted = persisted; partial = [] }) s
        ≡ replay_trace fs options trace s
  unfolding replay_selection replay_trace
  replay_selection-everything trace persisted s h = go (fs.make_dir options.target_dir s)
    where
      go :
          (r : Outcome (Unit {0}) × F)
          → after r (λ done. selection_loop fs options persisted [] (entries 0 trace.events))
            ≡ after r (λ done. trace_loop fs options trace.events)
      go (Outcome.thrown message, t) = refl
      go (Outcome.returned done, t) = selection_loop-trace_loop persisted 0 trace.events h t
