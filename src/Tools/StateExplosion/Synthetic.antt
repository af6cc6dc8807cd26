-- ===== src/Tools/StateExplosion/Synthetic.antt =====
-- The calls of the traces that core/tools/state-explosion.ts makes up.
use crash_fuzz.Prelude.{
  ℕ, zero, suc, ◌+◌, ◌%◌, ◌<◌, ◌≡◌, refl, sym, ap, Bool, true, false, not, ◌&&◌, some, length,
  arith, nat_beq, get_elem?, subst, nat_beq_iff,
}
use crash_fuzz.Prelude.Text.{Text}
use crash_fuzz.Trace.{CallName, TraceEvent}
use crash_fuzz.Tools.StateExplosion.{synthetic_event, synthetic_events, synthetic_trace}

abbrev pub is_fsync : CallName → Bool
is_fsync CallName.fsync = true
is_fsync _ = false

abbrev pub is_rename : CallName → Bool
is_rename CallName.rename = true
is_rename _ = false

abbrev pub is_plain_write : CallName → Bool
is_plain_write CallName.write = true
is_plain_write _ = false

-- Which call stands at a position.
pub record IsAt (persistent : Bool) (i : ℕ) (e : TraceEvent) : Type 0 where
  pub stamp : e.index ≡ i
  pub fsync : is_fsync e.call ≡ (persistent && nat_beq (i % 5) 4)
  pub rename : is_rename e.call ≡ (not persistent && nat_beq (i % 20) 19)
  pub write : is_plain_write e.call ≡ (not (is_fsync e.call) && not (is_rename e.call))

twentieth : (i : ℕ) → nat_beq (i % 20) 19 ≡ true → nat_beq (i % 5) 4 ≡ true
twentieth i h =
    let e : i % 20 ≡ 19 = (nat_beq_iff (i % 20) 19).0 h in (nat_beq_iff (i % 5) 4).1 (omega arith)

module _ (show : ℕ → Text) (operations : ℕ) where
  -- By what the two tests give.
  IsAt-tests :
      (persistent : Bool) (i : ℕ) (fifth last : Bool)
      → nat_beq (i % 5) 4 ≡ fifth
      → nat_beq (i % 20) 19 ≡ last
      → (last ≡ true → fifth ≡ true)
      → IsAt persistent i (synthetic_event show operations persistent i)
  unfolding synthetic_event
  IsAt-tests true i true last e f h =
      rw e (record { stamp = refl; fsync = sym e; rename = refl; write = refl })
  IsAt-tests true i false true e f h = absurd (cc (h refl))
  IsAt-tests true i false false e f h =
      rw (e, f) (record { stamp = refl; fsync = sym e; rename = refl; write = refl })
  IsAt-tests false i true true e f h =
      rw (e, f) (record { stamp = refl; fsync = refl; rename = sym f; write = refl })
  IsAt-tests false i true false e f h =
      rw (e, f) (record { stamp = refl; fsync = refl; rename = sym f; write = refl })
  IsAt-tests false i false true e f h = absurd (cc (h refl))
  IsAt-tests false i false false e f h =
      rw (e, f) (record { stamp = refl; fsync = refl; rename = sym f; write = refl })

  pub synthetic_event-IsAt :
      (persistent : Bool) (i : ℕ) → IsAt persistent i (synthetic_event show operations persistent i)
  synthetic_event-IsAt persistent i =
      IsAt-tests persistent i (nat_beq (i % 5) 4) (nat_beq (i % 20) 19) refl refl (twentieth i)

  synthetic_events-IsAt :
      (persistent : Bool) (k n i : ℕ)
      → i < n
      → (e : TraceEvent) × (get_elem? (synthetic_events show operations persistent k n) i ≡ some e)
        × IsAt persistent (k + i) e
  unfolding synthetic_events
  synthetic_events-IsAt persistent k zero i h = absurd (omega arith)
  synthetic_events-IsAt persistent k (suc n) zero h =
      let same : k ≡ k + 0 = omega arith in
      (
        synthetic_event show operations persistent k,
        refl,
        subst (λ j. IsAt persistent j (synthetic_event show operations persistent k)) same
            (synthetic_event-IsAt persistent k),
      )
  synthetic_events-IsAt persistent k (suc n) (suc i) h =
      let same : suc k + i ≡ k + suc i = omega arith in
      let (e, at, is_at) = synthetic_events-IsAt persistent (suc k) n i (omega arith) in
      (e, at, subst (λ j. IsAt persistent j e) same is_at)

  pub length-synthetic_events :
      (persistent : Bool) (k n : ℕ) → length (synthetic_events show operations persistent k n) ≡ n
  unfolding synthetic_events
  length-synthetic_events persistent k zero = refl
  length-synthetic_events persistent k (suc n) =
      ap suc (length-synthetic_events persistent (suc k) n)

-- The synthetic trace has as many events as are asked for, each stamped with its position: with
-- persistence calls every fifth is an fsync and all others are writes, with no rename at all;
-- without them every twentieth is a rename and all others are writes.
pub synthetic_trace-IsAt :
    (show : ℕ → Text) (operations : ℕ) (persistent : Bool)
    → (length (synthetic_trace show operations persistent).events ≡ operations)
      × ((i : ℕ)
          → i < operations
          → (e : TraceEvent) × (get_elem? (synthetic_trace show operations persistent).events i
              ≡ some e)
            × IsAt persistent i e)
unfolding synthetic_trace
synthetic_trace-IsAt show operations persistent = (
  length-synthetic_events show operations persistent 0 operations,
  λ i h.
      let start : 0 + i ≡ i = omega arith in
      let (e, at, is_at) = synthetic_events-IsAt show operations persistent 0 operations i h in
      (e, at, subst (λ j. IsAt persistent j e) start is_at),
)
