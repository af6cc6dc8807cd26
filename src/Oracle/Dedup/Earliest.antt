-- ===== src/Oracle/Dedup/Earliest.antt =====
-- `earliestMissing` of core/src/oracle/dedup.ts against a description of the cause.
use crash_fuzz.Prelude.{
  ℕ, zero, suc, ◌+◌, ◌<◌, ◌≡◌, refl, ap, ◌∙◌, true, false, List, [], ◌∷◌, some, inl, inr, arith,
  Bool-cases, get_elem?, entries, includes, nat_eq, length, some-injective, subst, map,
}
use crash_fuzz.Trace.{TraceEvent, Trace}
use crash_fuzz.Oracle.AckLog.{AckedOperation}
use crash_fuzz.Oracle.Dedup.{in_flight, Cause, cause_loop, cause_of}
use crash_fuzz.Enumerate.States.{CrashState, Partial}

-- Position `i` holds an operation in flight.
abbrev pub IsInFlight : List TraceEvent → AckedOperation → ℕ → TraceEvent → Type 0
IsInFlight events operation i e = (get_elem? events i ≡ some e) × (in_flight operation e ≡ true)

-- Every operation in flight before position `n` is wholly on disk.
abbrev pub AllWholeBefore : List TraceEvent → AckedOperation → List ℕ → List ℕ → ℕ → ℕ → Type 0
AllWholeBefore events operation torn_ops persisted k n =
    (i : ℕ) (e : TraceEvent)
    → i < n
    → IsInFlight events operation i e
    → (includes (k + i) torn_ops ≡ false) × (includes (k + i) persisted ≡ true)

-- What the loop over the events at positions `k`, `k + 1`, … answers.
abbrev pub IsEarliest : List TraceEvent → AckedOperation → List ℕ → List ℕ → ℕ → Cause → Type 0
IsEarliest events operation torn_ops persisted k Cause.nothing =
    AllWholeBefore events operation torn_ops persisted k (length events)
IsEarliest events operation torn_ops persisted k (Cause.torn e) =
    (i : ℕ) × IsInFlight events operation i e
    × (includes (k + i) torn_ops ≡ true)
    × AllWholeBefore events operation torn_ops persisted k i
IsEarliest events operation torn_ops persisted k (Cause.missing e) =
    (i : ℕ) × IsInFlight events operation i e
    × (includes (k + i) torn_ops ≡ false)
    × (includes (k + i) persisted ≡ false)
    × AllWholeBefore events operation torn_ops persisted k i

-- Position `k` is not torn, and it is on disk.
abbrev pub IsWhole : List ℕ → List ℕ → ℕ → Type 0
IsWhole torn_ops persisted k = (includes k torn_ops ≡ false) × (includes k persisted ≡ true)

module _ (operation : AckedOperation) (torn_ops persisted : List ℕ) where
  -- One more event in front of those that are wholly there.
  AllWholeBefore-cons :
      (event : TraceEvent) (events : List TraceEvent) (k n : ℕ)
      → (in_flight operation event ≡ true → IsWhole torn_ops persisted k)
      → AllWholeBefore events operation torn_ops persisted (suc k) n
      → AllWholeBefore (event ∷ events) operation torn_ops persisted k (suc n)
  AllWholeBefore-cons event events k n here later zero e lt (at, flying) =
      let same : k ≡ k + zero = omega arith in
      subst (λ z. IsWhole torn_ops persisted z) same
        (here (ap (in_flight operation) (some-injective event e at) ∙ flying))
  AllWholeBefore-cons event events k n here later (suc i) e lt (at, flying) =
      let same : suc k + i ≡ k + suc i = omega arith in
      subst (λ z. IsWhole torn_ops persisted z) same (later i e (omega arith) (at, flying))

  skip-IsEarliest :
      (event : TraceEvent) (events : List TraceEvent) (k : ℕ) (c : Cause)
      → (in_flight operation event ≡ true → IsWhole torn_ops persisted k)
      → IsEarliest events operation torn_ops persisted (suc k) c
      → IsEarliest (event ∷ events) operation torn_ops persisted k c
  skip-IsEarliest event events k Cause.nothing here before =
      AllWholeBefore-cons event events k (length events) here before
  skip-IsEarliest event events k (Cause.torn e) here (i, flying, torn, before) =
      let same : suc k + i ≡ k + suc i = omega arith in
      (
        suc i,
        flying,
        subst (λ z. includes z torn_ops ≡ true) same torn,
        AllWholeBefore-cons event events k i here before,
      )
  skip-IsEarliest event events k (Cause.missing e) here (i, flying, whole, absent, before) =
      let same : suc k + i ≡ k + suc i = omega arith in
      (
        suc i,
        flying,
        subst (λ z. includes z torn_ops ≡ false) same whole,
        subst (λ z. includes z persisted ≡ false) same absent,
        AllWholeBefore-cons event events k i here before,
      )

  cause_loop-IsEarliest :
      (events : List TraceEvent) (k : ℕ)
      → IsEarliest events operation torn_ops persisted k
          (cause_loop torn_ops persisted operation (entries k events))
  unfolding cause_loop
  cause_loop-IsEarliest [] k = λ i e lt f. absurd (omega arith)
  cause_loop-IsEarliest (event ∷ events) k =
      let later = cause_loop-IsEarliest events (suc k) in
      let same : k ≡ k + zero = omega arith in
      let rest = cause_loop torn_ops persisted operation (entries (suc k) events) in
      elim (Bool-cases (in_flight operation event)) [
        | inr idle ↦ rw idle (skip-IsEarliest event events k rest (λ flying. absurd (cc)) later)
        | inl flying ↦ rw flying (elim (Bool-cases (includes k torn_ops)) [
          | inl torn ↦ rw torn (
            zero,
            (refl, flying),
            subst (λ z. includes z torn_ops ≡ true) same torn,
            λ i e lt f. absurd (omega arith),
          )
          | inr whole ↦ rw whole (elim (Bool-cases (includes k persisted)) [
            | inl there ↦ rw there (skip-IsEarliest event events k rest (λ f. (whole, there)) later)
            | inr absent ↦ rw absent (
              zero,
              (refl, flying),
              subst (λ z. includes z torn_ops ≡ false) same whole,
              subst (λ z. includes z persisted ≡ false) same absent,
              λ i e lt f. absurd (omega arith),
            )
          ])
        ])
      ]

-- The cause that a signature names is the earliest mutation in flight during the operation that is
-- torn or absent from the state, with everything in flight before it wholly on disk; there is no
-- such mutation exactly when the answer is that nothing is missing.
pub cause_of-IsEarliest :
    (state : CrashState) (trace : Trace) (operation : AckedOperation)
    → IsEarliest trace.events operation
        (map Partial.op state.partials)
        state.persisted
        0
        (cause_of state trace operation)
unfolding cause_of
cause_of-IsEarliest state trace operation =
    cause_loop-IsEarliest operation (map Partial.op state.partials) state.persisted trace.events 0
