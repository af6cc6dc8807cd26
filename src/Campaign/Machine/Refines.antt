-- ===== src/Campaign/Machine/Refines.antt =====
-- `runCampaign` of core/src/campaign/campaign.ts on a machine against its model by the recoveries
-- alone.
use crash_fuzz.Prelude.{ℕ, suc, ◌≡◌, ap, List, [], ◌∷◌, Option, none, some, any, ◌==◌, nat_eq}
use crash_fuzz.Prelude.Int.{ℤ}
use crash_fuzz.Prelude.Io.{Outcome, after_inv}
use crash_fuzz.Prelude.Text.{Text}
use crash_fuzz.Prelude.Dict.{values}
use crash_fuzz.Trace.{Trace}
use crash_fuzz.Enumerate.States.{CrashState, enumerate_crash_states}
use crash_fuzz.Enumerate.CrashPoints.{select_crash_points}
use crash_fuzz.Enumerate.Sample.{sample_states}
use crash_fuzz.Oracle.AckLog.{AckedOperation, parse_ack_log}
use crash_fuzz.Oracle.Verdict.{RecoveryResult}
use crash_fuzz.Campaign.{
  Progress, Finding, LoadedBounds, CampaignResult, examine, run_loop, run_campaign, selection_of,
  window_bounds, sampling_of, at_start,
}
use crash_fuzz.Image.{Machine, materialize_state, with_mount}
use crash_fuzz.Campaign.Machine.{
  CampaignOptions, image_path_at, materialize_options, remove_unless, run_state, machine_loop,
  or_thrown, campaign_on_machine,
}

-- What is returned, where something is.
abbrev value_or : {A : Type 0} → A → Outcome A → A
value_or d (Outcome.returned a) = a
value_or d (Outcome.thrown message) = d

-- What recovery answers on the machine depends on the state alone, as `recover` says.
abbrev pub AnswersByState :
    {W : Type 0}
    → Machine W
    → CampaignOptions W
    → Trace
    → (CrashState → Option RecoveryResult)
    → Type 0
AnswersByState {W} machine options trace recover =
    (index : ℕ) (state : CrashState) (s s1 s2 : W) (recovery : RecoveryResult)
    → materialize_state machine trace state (materialize_options machine options index) s
      ≡ (Outcome.returned tt, s1)
    → with_mount machine (image_path_at machine options index) options.mount_options options.recover
        s1
      ≡ (Outcome.returned recovery, s2)
    → recover state ≡ some recovery

module _ {W : Type 0} (machine : Machine W) (options : CampaignOptions W) (trace : Trace)
    (recover : CrashState → Option RecoveryResult)
    (answers : AnswersByState machine options trace recover) where
  module _ (ack_log : List AckedOperation) where
    run_state_inv :
        (index : ℕ) (state : CrashState) (progress next : Progress) (s s' : W)
        → run_state machine options trace ack_log index state progress s
          ≡ (Outcome.returned next, s')
        → (recovery : RecoveryResult) × (recover state ≡ some recovery)
          × (examine trace ack_log index state recovery progress ≡ next)
    unfolding run_state
    run_state_inv index state progress next s s' e =
        let image = materialize_options machine options index in
        let path = image_path_at machine options index in
        let (done, s1, e1, k1) =
          after_inv (materialize_state machine trace state image s) _ next s' e in
        let (recovery, s2, e2, k2) =
          after_inv (with_mount machine path options.mount_options options.recover s1) _ next s'
            k1 in
        let new = examine trace ack_log index state recovery progress in
        let evidence = any (λ (finding : Finding). finding.image == index) (values new.findings) in
        let (removed, s3, e3, k3) =
          after_inv (remove_unless machine options evidence path s2) _ next s' k2 in
        (
          recovery,
          answers index state s s1 s2 recovery e1 e2,
          ap (λ (x : Outcome Progress × W). value_or new x.0) k3,
        )

    machine_loop-run_loop :
        (index : ℕ) (states : List CrashState) (progress last : Progress) (s s' : W)
        → machine_loop machine options trace ack_log index states progress s
          ≡ (Outcome.returned last, s')
        → run_loop trace ack_log recover index states progress ≡ some last
    unfolding machine_loop run_loop
    machine_loop-run_loop index [] progress last s s' e =
        ap (λ (x : Outcome Progress × W). some (value_or progress x.0)) e
    machine_loop-run_loop index (state ∷ states) progress last s s' e =
        let (next, s1, e1, k1) =
          after_inv (run_state machine options trace ack_log index state progress s) _ last s' e in
        let (recovery, answered, same) = run_state_inv index state progress next s s1 e1 in
        rw (answered, same) (machine_loop-run_loop (suc index) states next last s1 s' k1)

  or_thrown_inv :
      {A : Type 0} (message : Text) (o : Option A) (a : A) (s s' : W)
      → or_thrown machine options message o s ≡ (Outcome.returned a, s')
      → o ≡ some a
  or_thrown_inv {A} message none a s s' e = absurd (cc (ap (λ (x : Outcome A × W). x.0) e))
  or_thrown_inv {A} message (some b) a s s' e = ap (λ (x : Outcome A × W). some (value_or b x.0)) e

  -- A campaign that returns on a machine, where recovery answers by the state alone, returns what the
  -- model by recoveries returns: making, mounting and removing the images changes no result.
  pub campaign_on_machine-run_campaign :
      (number : Text → Option ℤ) (message : Text) (bounds : LoadedBounds) (result : CampaignResult)
      (s s' : W)
      → campaign_on_machine machine options number message trace bounds s
        ≡ (Outcome.returned result, s')
      → run_campaign number recover trace bounds options.model options.seed ≡ some result
  unfolding campaign_on_machine run_campaign
  campaign_on_machine-run_campaign number message bounds result s s' e =
      let enumerated = enumerate_crash_states trace (record {
        model = options.model;
        bounds = window_bounds bounds;
        crash_points = some (select_crash_points trace (selection_of bounds options.seed));
      }) in
      let (states, s1, e1, k1) =
        after_inv (or_thrown machine options message enumerated s) _ result s' e in
      let sampled = sample_states states (sampling_of bounds options.seed) in
      let log = parse_ack_log number trace in
      let (last, s2, e2, k2) =
        after_inv (machine_loop machine options trace log 0 sampled at_start s1) _ result s' k1 in
      let ran = machine_loop-run_loop log 0 sampled at_start last s1 s2 e2 in
      rw (or_thrown_inv message enumerated states s s1 e1, ran)
        (ap (λ (x : Outcome CampaignResult × W). some (value_or result x.0)) k2)
