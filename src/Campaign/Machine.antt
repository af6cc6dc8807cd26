-- ===== src/Campaign/Machine.antt =====
-- core/src/campaign/campaign.ts on a machine: the images are made and mounted, and the target's
-- recovery runs in them. `JSON.parse`, `Number` and the message of the error that the enumeration
-- throws are parameters.
pub mod Devices
pub mod Refines
pub mod Working
pub mod Returns
use crash_fuzz.Prelude.{
  ℕ, suc, Bool, true, false, List, [], ◌∷◌, ◌++◌, Option, none, some, any, ◌==◌, nat_eq, length,
}
use crash_fuzz.Prelude.Int.{ℤ}
use crash_fuzz.Prelude.Io.{Io, Outcome, pure, throw, ◌>>=◌, ◌>>◌}
use crash_fuzz.Prelude.Text.{Text, codes, text_eq}
use crash_fuzz.Prelude.Dict.{values}
use crash_fuzz.Graph.{FilesystemModel}
use crash_fuzz.Trace.{Trace}
use crash_fuzz.Enumerate.States.{CrashState, enumerate_crash_states}
use crash_fuzz.Enumerate.CrashPoints.{select_crash_points}
use crash_fuzz.Enumerate.Sample.{sample_states}
use crash_fuzz.Oracle.AckLog.{AckedOperation, parse_ack_log}
use crash_fuzz.Oracle.Verdict.{RecoveryResult}
use crash_fuzz.Campaign.Sweep.{Filesystem}
use crash_fuzz.Campaign.{
  Progress, Finding, CampaignResult, LoadedBounds, examine, selection_of, window_bounds,
  sampling_of, at_start,
}
use crash_fuzz.Image.{Machine, MaterializeOptions, materialize_state, with_mount}

-- IMAGE_BYTES
abbrev pub campaign_image_bytes : ℕ
campaign_image_bytes = 536870912

pub record CampaignOptions (W : Type 0) : Type 0 where
  pub cas_dir : Text
  pub root_dir : Text
  pub image_dir : Text
  pub model : FilesystemModel
  pub filesystem : Filesystem
  pub mount_options : Option Text
  pub seed : ℕ
  pub recover : Text → Io W RecoveryResult

module _ {W : Type 0} (machine : Machine W) (options : CampaignOptions W) where
  -- `state-${index}.img`
  abbrev pub image_path_at : ℕ → Text
  image_path_at index =
      machine.files.join options.image_dir
        (codes "state-" ++ (machine.show (some index) ++ codes ".img"))

  abbrev pub materialize_options : ℕ → MaterializeOptions
  materialize_options index = record {
    spec = record {
      image_path = image_path_at index;
      filesystem = options.filesystem;
      size_bytes = campaign_image_bytes;
    };
    mount_options = options.mount_options;
    cas_dir = options.cas_dir;
    root_dir = options.root_dir;
  }

  -- `if (!isEvidence) rmSync(imagePath, { force: true })`
  abbrev pub remove_unless : Bool → Text → Io W (Unit {0})
  remove_unless true path = pure tt
  remove_unless false path = machine.files.remove path

  module _ (trace : Trace) (ack_log : List AckedOperation) where
    -- The body of the loop over the states.
    unfoldable pub run_state : ℕ → CrashState → Progress → Io W Progress
    run_state index state progress = do
      materialize_state machine trace state (materialize_options index)
      recovery ← with_mount machine (image_path_at index) options.mount_options options.recover
      let next = examine trace ack_log index state recovery progress
      remove_unless (any (λ (finding : Finding). finding.image == index) (values next.findings))
          (image_path_at index)
      pure next

    unfoldable pub machine_loop : ℕ → List CrashState → Progress → Io W Progress
    unfolding run_state
    machine_loop index [] progress = pure progress
    machine_loop index (state ∷ rest) progress = do
      next ← run_state index state progress
      machine_loop (suc index) rest next

  abbrev pub or_thrown : {A : Type 0} → Text → Option A → Io W A
  or_thrown message none = throw message
  or_thrown message (some a) = pure a

  -- `runCampaign`, after the files are read
  unfoldable pub campaign_on_machine :
      (Text → Option ℤ) → Text → Trace → LoadedBounds → Io W CampaignResult
  unfolding machine_loop
  campaign_on_machine number message trace bounds =
      let crash_points = select_crash_points trace (selection_of bounds options.seed) in
      do
        states ← or_thrown message (
            enumerate_crash_states trace (record {
              model = options.model;
              bounds = window_bounds bounds;
              crash_points = some crash_points;
            }))
        progress ←
            machine_loop trace (parse_ack_log number trace) 0
              (sample_states states (sampling_of bounds options.seed)) at_start
        pure (record {
          crash_points_tested = length crash_points;
          states_tested = progress.tested;
          findings = values progress.findings;
        })
