-- ===== src/Oracle/Verdict/Evidence.antt =====
-- The violations that `checkOracle` of core/src/oracle/oracle.ts reports, and what is behind them.
use mathlib.Core.List.{Memᴰ}
use crash_fuzz.Prelude.{
  ℕ, ◌≡◌, ◌≢◌, ◌⊎◌, refl, true, false, List, [], ◌∷◌, some, inl, inr, All, All-map, Bool-cases,
  filter, Bool, subst,
}
use crash_fuzz.Oracle.AckLog.{AckedOperation}
use crash_fuzz.Oracle.Verdict.{
  lost_loop, RecoveryResult, Violation, refusal, is_promised, corruption, lost, judge, check_oracle,
  reads_back, promised_before, OracleInput,
}
use crash_fuzz.Prelude.Dict.{Dict, get}
use crash_fuzz.Prelude.Text.{Text, text_eq}
use crash_fuzz.Oracle.Verdict.Contract.{
  IsPromised, lost_of-cons, is_promised→IsPromised, unpromised_iff, reads_back_iff,
}

-- What stands behind a violation.
abbrev pub IsEvidence : ℕ → List AckedOperation → RecoveryResult → Violation → Type 0
IsEvidence stamp log (RecoveryResult.failed detail) v = v ≡ refusal stamp detail
IsEvidence stamp log (RecoveryResult.opened ok values detail) v =
    ((ok ≡ false) × (v ≡ corruption stamp detail))
    ⊎ ((o : AckedOperation) × Memᴰ o log
        × IsPromised stamp o
        × (get o.key values ≢ some o.digest)
        × (v ≡ lost stamp values o))

-- A promised operation that did not read back.
abbrev IsLost : ℕ → List AckedOperation → Dict Text Text → Violation → Type 0
IsLost stamp log values v =
    (o : AckedOperation) × Memᴰ o log
    × IsPromised stamp o
    × (get o.key values ≢ some o.digest)
    × (v ≡ lost stamp values o)

lost_loop-IsLost :
    (stamp : ℕ) (values : Dict Text Text) (log : List AckedOperation)
    → All (IsLost stamp log values) (lost_loop stamp values (filter (is_promised stamp) log))
unfolding lost_loop
lost_loop-IsLost stamp values [] = tt
lost_loop-IsLost stamp values (o ∷ log) =
    let later =
      All-map {P = IsLost stamp log values} {Q = IsLost stamp (o ∷ log) values}
        (λ v (q, m, p, ne, e). (q, Memᴰ.tail m, p, ne, e)) _ (lost_loop-IsLost stamp values log) in
    elim (Bool-cases (is_promised stamp o)) [
      | inr p ↦ rw (lost_of-cons stamp values o log, p) later
      | inl p ↦ elim (Bool-cases (reads_back values o)) [
        | inl r ↦ rw (lost_of-cons stamp values o log, p, r) later
        | inr r ↦
            rw (lost_of-cons stamp values o log, p, r)
              (
                (
                  o,
                  Memᴰ.head refl,
                  is_promised→IsPromised stamp o p,
                  (λ back. absurd (cc ((reads_back_iff values o).1 back))),
                  refl,
                ),
                later,
              )
      ]
    ]

judge-IsEvidence :
    (stamp : ℕ) (log ps : List AckedOperation)
    → filter (is_promised stamp) log ≡ ps
    → (r : RecoveryResult) → All (IsEvidence stamp log r) (judge stamp ps r)
unfolding judge
judge-IsEvidence stamp log [] e r = tt
judge-IsEvidence stamp log (p ∷ ps) e (RecoveryResult.failed detail) = (refl, tt)
judge-IsEvidence stamp log (p ∷ ps) e (RecoveryResult.opened ok values detail) = alarm ok
  where
    lost_ones :
        (ok : Bool)
        → All
            (IsEvidence stamp log (RecoveryResult.opened ok values detail))
            (lost_loop stamp values (p ∷ ps))
    lost_ones ok =
        subst
          (λ z.
            All (IsEvidence stamp log (RecoveryResult.opened ok values detail))
              (lost_loop stamp values z))
          e (All-map (λ v h. inr h) _ (lost_loop-IsLost stamp values log))

    alarm :
        (ok : Bool)
        → All
            (IsEvidence stamp log (RecoveryResult.opened ok values detail))
            (judge stamp (p ∷ ps) (RecoveryResult.opened ok values detail))
    alarm true = lost_ones true
    alarm false = (inl (refl, refl), lost_ones false)

-- Every violation has its evidence: a recovery that failed; a failed integrity check; or an operation
-- of the log that was acknowledged as durable before the crash and does not read back.
pub check_oracle-IsEvidence :
    (input : OracleInput)
    → All (IsEvidence input.crash_stamp input.ack_log input.recovery) (check_oracle input)
unfolding check_oracle promised_before
check_oracle-IsEvidence input =
    judge-IsEvidence input.crash_stamp input.ack_log
      (promised_before input.ack_log input.crash_stamp) refl input.recovery

-- A database that will not open is one violation, not one for each key, as soon as one operation of
-- the log was promised.
pub check_oracle-failed :
    (stamp : ℕ) (log : List AckedOperation) (detail : Text)
    → ¬ All (λ o. ¬ IsPromised stamp o) log
    → check_oracle
        (record { crash_stamp = stamp; ack_log = log; recovery = RecoveryResult.failed detail })
      ≡ refusal stamp detail ∷ []
unfolding check_oracle promised_before
check_oracle-failed stamp log detail some_promised =
    one (promised_before log stamp) (λ e. some_promised ((unpromised_iff stamp log).0 e))
  where
    one :
        (ps : List AckedOperation)
        → ps ≢ []
        → judge stamp ps (RecoveryResult.failed detail) ≡ refusal stamp detail ∷ []
    one [] nonempty = absurd (nonempty refl)
    one (p ∷ ps) nonempty = refl
