-- ===== src/Campaign/Whole.antt =====
-- `runCampaign` of core/src/campaign/campaign.ts against the stages that it runs.
use crash_fuzz.Prelude.{
  ℕ, ◌≡◌, ◌<◌, refl, List, Option, some, length, All, arith, nat_eq, All-of_includes, All_of,
}
use crash_fuzz.Prelude.Int.{ℤ}
use crash_fuzz.Prelude.Text.{Text}
use crash_fuzz.Graph.{FilesystemModel}
use crash_fuzz.Trace.{Trace}
use crash_fuzz.Enumerate.States.{CrashState, enumerate_crash_states}
use crash_fuzz.Enumerate.States.Total.{enumerate_crash_states_total}
use crash_fuzz.Enumerate.CrashPoints.{SelectionOptions, select_crash_points}
use crash_fuzz.Enumerate.CrashPoints.Laws.{includes-select_crash_points}
use crash_fuzz.Enumerate.Sample.{sample_states}
use crash_fuzz.Oracle.AckLog.{parse_ack_log}
use crash_fuzz.Oracle.Verdict.{RecoveryResult}
use crash_fuzz.Campaign.{
  LoadedBounds, CampaignResult, run_campaign, selection_of, window_bounds, sampling_of, at_start,
}
use crash_fuzz.Campaign.Loop.{total}
use crash_fuzz.Campaign.Counts.{violation_count, run_loop-total}
use crash_fuzz.Prelude.Dict.{values}

-- Every crash point that is selected is within the trace.
pub select_crash_points-lt :
    (trace : Trace) (options : SelectionOptions)
    → All (λ p. p < length trace.events) (select_crash_points trace options)
select_crash_points-lt trace options =
    All-of_includes (λ p. p < length trace.events) (select_crash_points trace options)
      (λ p m. ((includes-select_crash_points trace options p).0 m).0)

module _ (number : Text → Option ℤ) (recover : CrashState → Option RecoveryResult) where
  -- What a campaign reports, against the stages before its loop.
  pub record IsCampaign (trace : Trace) (bounds : LoadedBounds) (model : FilesystemModel) (seed : ℕ)
      (result : CampaignResult) : Type 0 where
    pub states : List CrashState
    pub enumerated :
        enumerate_crash_states trace (record {
          model = model;
          bounds = window_bounds bounds;
          crash_points = some (select_crash_points trace (selection_of bounds seed));
        })
        ≡ some states
    pub points :
        result.crash_points_tested ≡ length (select_crash_points trace (selection_of bounds seed))
    pub tested : result.states_tested ≡ length (sample_states states (sampling_of bounds seed))
    pub counted :
        total result.findings
        ≡ violation_count trace
            (parse_ack_log number trace)
            recover
            (sample_states states (sampling_of bounds seed))

  -- Where recovery answers for every state, the campaign returns a result whatever the trace, the
  -- bounds, the model and the seed: no selected crash point makes the enumeration fail, every
  -- sampled state is tested, and the findings count every violation of those states once.
  pub run_campaign-IsCampaign :
      (trace : Trace) (bounds : LoadedBounds) (model : FilesystemModel) (seed : ℕ)
      → ((s : CrashState) → (r : RecoveryResult) × (recover s ≡ some r))
      → (result : CampaignResult) × (run_campaign number recover trace bounds model seed
          ≡ some result)
        × IsCampaign trace bounds model seed result
  unfolding run_campaign
  run_campaign-IsCampaign trace bounds model seed answers =
      let chosen = select_crash_points trace (selection_of bounds seed) in
      let (states, enumerated) =
        enumerate_crash_states_total trace model (window_bounds bounds) (some chosen)
          (select_crash_points-lt trace (selection_of bounds seed)) in
      let sampled = sample_states states (sampling_of bounds seed) in
      let (final, runs, tested, counted) =
        run_loop-total trace (parse_ack_log number trace) recover 0 sampled at_start
          (All_of (λ s. (r : RecoveryResult) × (recover s ≡ some r)) answers sampled) in
      (
        record {
          crash_points_tested = length chosen;
          states_tested = final.tested;
          findings = values final.findings;
        },
        rw (enumerated, runs) refl,
        record {
          states = states;
          enumerated = enumerated;
          points = refl;
          tested = omega (arith, tested);
          counted = omega (arith, counted);
        },
      )
