-- ===== src/Campaign/Images.antt =====
-- The image files that `runCampaign` of core/src/campaign/campaign.ts leaves behind.
use crash_fuzz.Prelude.{
  ℕ, suc, ◌≡◌, ◌≢◌, refl, sym, ◌∙◌, Bool, true, false, not, List, [], ◌∷◌, Option, some, arith, any,
  ◌==◌, eq→≡, inl, inr, Bool-cases, All, includes, nat_eq, filter, add, map, if◌then◌else◌,
  includes-add, includes-filter, ≡→==,
}
use crash_fuzz.Prelude.Text.{text_eq}
use crash_fuzz.Prelude.Dict.{values}
use crash_fuzz.Trace.{Trace}
use crash_fuzz.Enumerate.States.{CrashState}
use crash_fuzz.Oracle.AckLog.{AckedOperation}
use crash_fuzz.Oracle.Verdict.{RecoveryResult, Violation}
use crash_fuzz.Campaign.{Progress, examine, run_loop, finding_of, violations_of, record_all}
use crash_fuzz.Campaign.Loop.{any_image-record_all}

-- The image files are those of the findings, and no other.
abbrev pub HasEvidence : Progress → Type 0
HasEvidence progress =
    (i : ℕ) → includes i progress.images ≡ any (λ f. f.image == i) (values progress.findings)

-- Recovery answers for each of the states.
abbrev pub Answers : (CrashState → Option RecoveryResult) → List CrashState → Type 0
Answers recover = All (λ s. (r : RecoveryResult) × (recover s ≡ some r))

module _ (trace : Trace) (ack_log : List AckedOperation) where
  images-finding_of :
      (index i : ℕ) (state : CrashState) (vs : List Violation)
      → index ≢ i
      → All (λ f. f.image ≢ i) (map (finding_of trace ack_log index state) vs)
  unfolding finding_of
  images-finding_of index i state [] h = tt
  images-finding_of index i state (v ∷ vs) h = (h, images-finding_of index i state vs h)

  -- The images that the end of a round leaves: `e` says that the round made a finding.
  includes-kept_images :
      (index i : ℕ) (images : List ℕ) (e : Bool)
      → includes i
          (if e then add index images else filter (λ j. not (j == index)) (add index images))
        ≡ (if index == i then e else includes i images)
  includes-kept_images index i images true = ground (arith, includes-add i index images)
  includes-kept_images index i images false = ground (
    arith,
    includes-filter (λ j. not (j == index)) i (add index images),
    includes-add i index images,
    nat_eq.beq_iff i index,
    nat_eq.beq_iff index i,
  )

  pub examine-HasEvidence :
      (index : ℕ) (state : CrashState) (recovery : RecoveryResult) (progress : Progress)
      → HasEvidence progress
      → HasEvidence (examine trace ack_log index state recovery progress)
  unfolding examine
  examine-HasEvidence index state recovery progress h i =
      let made =
        map (finding_of trace ack_log index state) (violations_of trace ack_log state recovery) in
      let findings = record_all made progress.findings in
      includes-kept_images index i progress.images (any (λ f. f.image == index) (values findings))
      ∙ elim (Bool-cases (index == i)) [
        | inl same ↦ rw (same, eq→≡ index i same) refl
        | inr other ↦ rw other (
            h i
            ∙ sym (
                any_image-record_all i made progress.findings (
                  images-finding_of index i state (violations_of trace ack_log state recovery)
                    (λ e. absurd (cc (≡→== index i e))))))
      ]

  -- Where recovery answers for every state, the loop ends, and the image files there are then are
  -- exactly the images of the findings, if that was so when it began.
  pub run_loop-HasEvidence :
      (recover : CrashState → Option RecoveryResult) (index : ℕ) (states : List CrashState)
      (progress : Progress)
      → Answers recover states
      → HasEvidence progress
      → (final : Progress) × (run_loop trace ack_log recover index states progress ≡ some final)
        × HasEvidence final
  unfolding run_loop
  run_loop-HasEvidence recover index [] progress a h = (progress, refl, h)
  run_loop-HasEvidence recover index (s ∷ ss) progress ((r, e), a) h = rw e (
      run_loop-HasEvidence recover (suc index) ss (examine trace ack_log index s r progress) a
        (examine-HasEvidence index s r progress h))
