-- ===== src/Campaign/Counts.antt =====
-- What `runCampaign` of core/src/campaign/campaign.ts counts.
use crash_fuzz.Prelude.{
  ℕ, suc, ◌+◌, ◌≡◌, refl, ap, ◌∙◌, List, [], ◌∷◌, Option, none, some, arith, map, length, All,
  length-map,
}
use crash_fuzz.Prelude.Text.{text_eq}
use crash_fuzz.Prelude.Dict.{values}
use crash_fuzz.Trace.{Trace}
use crash_fuzz.Enumerate.States.{CrashState}
use crash_fuzz.Oracle.AckLog.{AckedOperation}
use crash_fuzz.Oracle.Verdict.{RecoveryResult, Violation}
use crash_fuzz.Campaign.{Progress, examine, run_loop, finding_of, violations_of}
use crash_fuzz.Campaign.Loop.{total, total-record_all}
use crash_fuzz.Campaign.Images.{Answers}

module _ (trace : Trace) (ack_log : List AckedOperation) where
  -- The number of violations that a list of states shows.
  abbrev pub violation_count : (CrashState → Option RecoveryResult) → List CrashState → ℕ
  violation_count recover [] = 0
  violation_count recover (s ∷ ss) =
      elim (recover s) [ none ↦ 0 | some r ↦ length (violations_of trace ack_log s r) ]
      + violation_count recover ss

  once-finding_of :
      (index : ℕ) (state : CrashState) (vs : List Violation)
      → All (λ f. f.occurrences ≡ 1) (map (finding_of trace ack_log index state) vs)
  unfolding finding_of
  once-finding_of index state [] = tt
  once-finding_of index state (v ∷ vs) = (refl, once-finding_of index state vs)

  total-examine :
      (index : ℕ) (state : CrashState) (recovery : RecoveryResult) (progress : Progress)
      → total (values (examine trace ack_log index state recovery progress).findings)
        ≡ length (violations_of trace ack_log state recovery) + total (values progress.findings)
  unfolding examine
  total-examine index state recovery progress =
      let vs = violations_of trace ack_log state recovery in
      total-record_all (map (finding_of trace ack_log index state) vs) progress.findings
        (once-finding_of index state vs)
      ∙ ap (λ n. n + total (values progress.findings))
          (length-map (finding_of trace ack_log index state) vs)

  tested-examine :
      (index : ℕ) (state : CrashState) (recovery : RecoveryResult) (progress : Progress)
      → (examine trace ack_log index state recovery progress).tested ≡ suc progress.tested
  unfolding examine
  tested-examine index state recovery progress = refl

  -- Where recovery answers for every state, the loop ends, with every state tested, and the
  -- occurrences of the findings add up to the number of violations: none is lost or counted twice.
  pub run_loop-total :
      (recover : CrashState → Option RecoveryResult) (index : ℕ) (states : List CrashState)
      (progress : Progress)
      → Answers recover states
      → (final : Progress) × (run_loop trace ack_log recover index states progress ≡ some final)
        × (final.tested ≡ length states + progress.tested)
        × (total (values final.findings)
            ≡ violation_count recover states + total (values progress.findings))
  unfolding run_loop
  run_loop-total recover index [] progress a = (progress, refl, omega arith, omega arith)
  run_loop-total recover index (s ∷ ss) progress ((r, e), a) =
      let next = examine trace ack_log index s r progress in
      let (final, runs, tested, counted) = run_loop-total recover (suc index) ss next a in
      rw e (
        final,
        runs,
        omega (arith, tested, tested-examine index s r progress),
        omega (arith, counted, total-examine index s r progress),
      )
