-- ===== src/Tools/StateExplosion/Counts.antt =====
-- How many calls of each kind core/tools/state-explosion.ts puts into its traces.
use crash_fuzz.Prelude.{
  ℕ, zero, suc, ◌+◌, ◌/◌, ◌%◌, ◌≡◌, refl, ◌∙◌, Bool, true, false, List, ◌∷◌, length, filter, arith,
  nat_beq, Bool-cases, inl, inr, nat_beq_iff, ◌≢◌, if◌then◌else◌,
}
use crash_fuzz.Prelude.Text.{Text}
use crash_fuzz.Trace.{CallName, TraceEvent}
use crash_fuzz.Tools.StateExplosion.{synthetic_event, synthetic_events, synthetic_trace}
use crash_fuzz.Tools.StateExplosion.Synthetic.{is_fsync, is_rename, synthetic_event-IsAt, IsAt}

abbrev pub count_of : (CallName → Bool) → List TraceEvent → ℕ
count_of p events = length (filter (λ (e : TraceEvent). p e.call) events)

count_of-cons :
    (p : CallName → Bool) (e : TraceEvent) (es : List TraceEvent) (b : Bool)
    → p e.call ≡ b
    → count_of p (e ∷ es) ≡ (if b then suc (count_of p es) else count_of p es)
count_of-cons p e es true h = rw h refl
count_of-cons p e es false h = rw h refl

module _ (show : ℕ → Text) (operations : ℕ) where
  fsyncs_from :
      (k n : ℕ)
      → count_of is_fsync (synthetic_events show operations true k n) + k / 5 ≡ (k + n) / 5
  unfolding synthetic_events
  fsyncs_from k zero = omega arith
  fsyncs_from k (suc n) =
      let rest = synthetic_events show operations true (suc k) n in
      let at = synthetic_event-IsAt show operations true k in
      let one =
        λ (b : Bool). count_of-cons is_fsync (synthetic_event show operations true k) rest b in
      let later = fsyncs_from (suc k) n in
      elim (Bool-cases (nat_beq (k % 5) 4)) [
        | inl e ↦
            let m : k % 5 ≡ 4 = (nat_beq_iff (k % 5) 4).0 e in
            omega (arith, one true (at.fsync ∙ e), later, m)
        | inr e ↦
            let m : k % 5 ≢ 4 = λ h. absurd (cc ((nat_beq_iff (k % 5) 4).1 h)) in
            omega (arith, one false (at.fsync ∙ e), later, m)
      ]

  renames_from :
      (k n : ℕ)
      → count_of is_rename (synthetic_events show operations false k n) + k / 20 ≡ (k + n) / 20
  unfolding synthetic_events
  renames_from k zero = omega arith
  renames_from k (suc n) =
      let rest = synthetic_events show operations false (suc k) n in
      let at = synthetic_event-IsAt show operations false k in
      let one =
        λ (b : Bool). count_of-cons is_rename (synthetic_event show operations false k) rest b in
      let later = renames_from (suc k) n in
      elim (Bool-cases (nat_beq (k % 20) 19)) [
        | inl e ↦
            let m : k % 20 ≡ 19 = (nat_beq_iff (k % 20) 19).0 e in
            omega (arith, one true (at.rename ∙ e), later, m)
        | inr e ↦
            let m : k % 20 ≢ 19 = λ h. absurd (cc ((nat_beq_iff (k % 20) 19).1 h)) in
            omega (arith, one false (at.rename ∙ e), later, m)
      ]

  no_renames : (k n : ℕ) → count_of is_rename (synthetic_events show operations true k n) ≡ 0
  unfolding synthetic_events
  no_renames k zero = refl
  no_renames k (suc n) =
      count_of-cons is_rename (synthetic_event show operations true k)
        (synthetic_events show operations true (suc k) n) false
        (IsAt.rename (synthetic_event-IsAt show operations true k))
      ∙ no_renames (suc k) n

-- A synthetic trace of `n` operations has `n / 5` fsyncs and no rename where it has persistence
-- calls, and `n / 20` renames where it has none.
pub synthetic_trace-counts :
    (show : ℕ → Text) (n : ℕ)
    → (count_of is_fsync (synthetic_trace show n true).events ≡ n / 5)
      × (count_of is_rename (synthetic_trace show n true).events ≡ 0)
      × (count_of is_rename (synthetic_trace show n false).events ≡ n / 20)
unfolding synthetic_trace
synthetic_trace-counts show n = (
  omega (arith, fsyncs_from show n 0 n),
  no_renames show n 0 n,
  omega (arith, renames_from show n 0 n),
)
