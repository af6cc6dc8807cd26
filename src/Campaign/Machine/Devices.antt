-- ===== src/Campaign/Machine/Devices.antt =====
-- What `runCampaign` of core/src/campaign/campaign.ts leaves of loop devices and mounts.
use crash_fuzz.Prelude.{
  ℕ, suc, ◌≡◌, refl, ap, ◌∙◌, Bool, true, false, List, [], ◌∷◌, Option, none, some, any, ◌==◌,
  nat_eq, inl, sym,
}
use crash_fuzz.Prelude.Int.{ℤ}
use crash_fuzz.Prelude.Io.{pure, Outcome, Ends, Ends-after, Ends-mono}
use crash_fuzz.Prelude.Text.{Text}
use crash_fuzz.Prelude.Dict.{values}
use crash_fuzz.Trace.{Trace}
use crash_fuzz.Enumerate.States.{CrashState, enumerate_crash_states}
use crash_fuzz.Enumerate.CrashPoints.{select_crash_points}
use crash_fuzz.Oracle.AckLog.{AckedOperation, parse_ack_log}
use crash_fuzz.Campaign.{
  Progress, Finding, LoadedBounds, examine, selection_of, window_bounds, sampling_of, at_start,
}
use crash_fuzz.Image.{Machine, materialize_state, with_mount}
use crash_fuzz.Image.Holds.{Resource, Holds, busy}
use crash_fuzz.Image.Result.{with_mount-busy}
use crash_fuzz.Image.Releases.{IsTidy, Gives, Gives-same}
use crash_fuzz.Image.Whole.{materialize_state-busy}
use crash_fuzz.Campaign.Machine.{
  CampaignOptions, image_path_at, materialize_options, remove_unless, run_state, machine_loop,
  or_thrown, campaign_on_machine,
}
use crash_fuzz.Enumerate.Sample.{sample_states}

module _ {W : Type 0} (machine : Machine W) (options : CampaignOptions W) (held : W → List Resource)
    (h : Holds machine held) (tidy : IsTidy machine held h options.recover)
    (rs : List Resource) where
  abbrev Given : {A : Type 0} → Outcome A → W → Type 0
  Given o s = Gives machine held rs o s

  remove_unless-Ends :
      (b : Bool) (path : Text) (s : W)
      → busy (held s) ≡ rs
      → Ends Given (remove_unless machine options b path s)
  remove_unless-Ends true path s e = e
  remove_unless-Ends false path s e =
      Ends-mono (λ o s'. held s' ≡ held s) Given (machine.files.remove path s)
        ((h.files (held s)).remove path s refl)
        (λ o s' same. Gives-same machine held rs o s' (ap busy same ∙ e))

  or_thrown-Ends :
      {A : Type 0} (message : Text) (o : Option A) (s : W)
      → busy (held s) ≡ rs
      → Ends Given (or_thrown machine options message o s)
  or_thrown-Ends message none s e = inl e
  or_thrown-Ends message (some a) s e = e

  module _ (trace : Trace) (ack_log : List AckedOperation) where
    run_state-Ends :
        (index : ℕ) (state : CrashState) (progress : Progress) (s : W)
        → busy (held s) ≡ rs
        → Ends Given (run_state machine options trace ack_log index state progress s)
    unfolding run_state
    run_state-Ends index state progress s e =
        let path = image_path_at machine options index in
        let image = materialize_options machine options index in
        let made : Ends Given (materialize_state machine trace state image s) =
          rw (sym e) (materialize_state-busy machine held h trace state image s) in
        Ends-after Given Given _ _ made
          (λ done s1 e1.
            let mounts : Ends Given
                (with_mount machine path options.mount_options options.recover s1) =
              rw (sym e1) (
                with_mount-busy machine held h path options.mount_options options.recover s1
                  tidy) in
            Ends-after Given Given _ _ mounts
              (λ recovery s2 e2.
                let next = examine trace ack_log index state recovery progress in
                let evidence =
                  any (λ (finding : Finding). finding.image == index) (values next.findings) in
                Ends-after Given Given (remove_unless machine options evidence path s2)
                  (λ done. pure next) (remove_unless-Ends evidence path s2 e2) (λ done s3 e3. e3)
                  (λ m s3 e3. e3))
              (λ m s2 e2. e2))
          (λ m s1 e1. e1)

    machine_loop-Ends :
        (index : ℕ) (states : List CrashState) (progress : Progress) (s : W)
        → busy (held s) ≡ rs
        → Ends Given (machine_loop machine options trace ack_log index states progress s)
    unfolding machine_loop
    machine_loop-Ends index [] progress s e = e
    machine_loop-Ends index (state ∷ states) progress s e =
        Ends-after Given Given (run_state machine options trace ack_log index state progress s) _
          (run_state-Ends index state progress s e)
          (λ next s1 e1. machine_loop-Ends (suc index) states next s1 e1) (λ m s1 e1. e1)

-- Where the target's recovery leaves what is held alone, a campaign that returns leaves exactly the
-- loop devices and the mounted filesystems that were held when it started. One that throws does
-- too, but where a clean-up itself fails: then it ends in the state that a refused `umount` of its
-- mount, or a refused `losetup --detach` of its device, leads to. The commands that succeed are
-- taken to do what is documented of them.
pub campaign_on_machine-busy :
    {W : Type 0} (machine : Machine W) (options : CampaignOptions W) (held : W → List Resource)
    (h : Holds machine held) (number : Text → Option ℤ) (message : Text) (trace : Trace)
    (bounds : LoadedBounds) (s : W)
    → IsTidy machine held h options.recover
    → Ends
        (Gives machine held (busy (held s)))
        (campaign_on_machine machine options number message trace bounds s)
unfolding campaign_on_machine
campaign_on_machine-busy {W} machine options held h number message trace bounds s tidy =
    let rs = busy (held s) in
    let enumerated = enumerate_crash_states trace (record {
      model = options.model;
      bounds = window_bounds bounds;
      crash_points = some (select_crash_points trace (selection_of bounds options.seed));
    }) in
    Ends-after (Gives machine held rs) (Gives machine held rs)
      (or_thrown machine options message enumerated s) _
      (or_thrown-Ends machine options held h tidy rs message enumerated s refl)
      (λ states s1 e1.
        Ends-after (Gives machine held rs) (Gives machine held rs)
          (machine_loop machine options trace (parse_ack_log number trace) 0
            (sample_states states (sampling_of bounds options.seed)) at_start s1)
          _
          (machine_loop-Ends machine options held h tidy rs trace (parse_ack_log number trace) 0
            (sample_states states (sampling_of bounds options.seed)) at_start s1 e1)
          (λ progress s2 e2. e2) (λ m s2 e2. e2))
      (λ m s1 e1. e1)
