-- ===== src/Examples/Campaigns.antt =====
-- The theorems on a campaign on a machine, with a recovery that always fails.
use crash_fuzz.Prelude.{
  ◌≡◌, refl, ap, List, [], ◌∷◌, Option, none, some, false, true, Bool-cases, ℕ, includes, ◌||◌, inl,
  inr, nat_eq,
}
use crash_fuzz.Prelude.Int.{pos, ℤ}
use crash_fuzz.Prelude.Io.{Outcome, pure, Ends}
use crash_fuzz.Prelude.Text.{Text, codes}
use crash_fuzz.Trace.{CallName, Trace}
use crash_fuzz.Graph.{ext4_ordered}
use crash_fuzz.Enumerate.States.{enumerate_crash_states, CrashState}
use crash_fuzz.Oracle.Verdict.{RecoveryResult, check_oracle}
use crash_fuzz.Campaign.Sweep.{Filesystem}
use crash_fuzz.Campaign.{LoadedBounds, CampaignResult, examine}
use crash_fuzz.Campaign.Machine.{CampaignOptions, materialize_options, campaign_on_machine}
use crash_fuzz.Trace.Replay.{ReplayOptions, Selection, has, torn_bytes}
use crash_fuzz.Prelude.Dict.{get}
use crash_fuzz.Campaign.Machine.Devices.{campaign_on_machine-busy}
use crash_fuzz.Campaign.Machine.Refines.{AnswersByState}
use crash_fuzz.Image.{with_mount, materialize_state}
use crash_fuzz.Image.Holds.{Resource, busy}
use crash_fuzz.Image.Releases.{Gives}
use crash_fuzz.Examples.Traces.{trace_of, event, main_db}
use crash_fuzz.Examples.Mounting.{
  machine, machine_of, quiet_fs, all_held, machine-Holds, other_mount,
}
use crash_fuzz.Enumerate.CrashPoints.{select_crash_points}
use crash_fuzz.Enumerate.Sample.{sample_states}
use crash_fuzz.Oracle.AckLog.{parse_ack_log}
use crash_fuzz.Trace.Replay.{replay_selection}

abbrev refused : RecoveryResult
refused = RecoveryResult.failed (codes "not a database")

abbrev options : CampaignOptions (List Resource)
options = record {
  cas_dir = codes "cas";
  root_dir = codes "/db";
  image_dir = codes "images";
  model = ext4_ordered;
  filesystem = Filesystem.ext4;
  mount_options = some (codes "data=ordered");
  seed = 7;
  recover = λ dir. pure refused;
}

abbrev pub few : LoadedBounds
few = record {
  crash_points = codes "fsyncAdjacent+sample";
  non_fsync_sample_rate = record { numerator = 0; denominator = 1 };
  max_unpersisted_window = 2;
  max_exhaustive_workload_ops = 3;
  max_states_per_crash_point = 4;
  torn_writes = false;
  torn_write_granularity_bytes = 512;
  max_torn_ops_per_state = 1;
}

abbrev pub no_number : Text → Option ℤ
no_number text = none

abbrev pub one_write : Trace
one_write = trace_of (event 0 CallName.write main_db [] 8 (pos 8) ∷ [])

campaign_on_machine-busy_example :
    let m = machine_of true false in
    Ends
      (Gives m all_held (busy other_mount))
      (campaign_on_machine m options no_number [] one_write few other_mount)
campaign_on_machine-busy_example =
    campaign_on_machine-busy (machine_of true false) options all_held (machine-Holds true false)
      no_number [] one_write few other_mount (λ dir s. refl)

abbrev answer_of : Outcome RecoveryResult → RecoveryResult
answer_of (Outcome.returned r) = r
answer_of (Outcome.thrown message) = refused

refused_by_state : AnswersByState (machine true) options one_write (λ state. some refused)
unfolding with_mount
refused_by_state index state s s1 s2 recovery e1 e2 =
    ap (λ (x : Outcome RecoveryResult × List Resource). some (answer_of x.0)) e2

-- Whether the write is chosen or not, the file system says nothing against it.
replay_quiet :
    (to : ReplayOptions) (selection : Selection) (s : List Resource)
    → replay_selection quiet_fs to one_write selection s ≡ (Outcome.returned tt, s)
unfolding replay_selection
replay_quiet to selection s =
    elim (Bool-cases
      (includes 0 selection.persisted || has (get 0 (torn_bytes selection.partial [])))) [
        | inl chosen ↦ rw chosen refl
        | inr left ↦ rw left refl
      ]

made_quietly :
    (index : ℕ) (state : CrashState) (s : List Resource)
    → materialize_state
        (machine true)
        one_write
        state
        (materialize_options (machine true) options index)
        s
      ≡ (Outcome.returned tt, s)
unfolding materialize_state
made_quietly index state s =
    rw (replay_quiet _ (record { persisted = state.persisted; partial = state.partials }) _) refl

abbrev outcome : CampaignResult
outcome = record { crash_points_tested = 1; states_tested = 2; findings = [] }

returned_outcome :
    campaign_on_machine (machine true) options no_number [] one_write few other_mount
    ≡ (Outcome.returned outcome, other_mount)
unfolding campaign_on_machine enumerate_crash_states select_crash_points sample_states parse_ack_log
    examine check_oracle materialize_state with_mount replay_selection
returned_outcome = refl
