-- ===== src/Examples/Sweeping.antt =====
-- The theorem on the loop over the sweep, with a runner made up.
use crash_fuzz.Prelude.{◌≡◌, refl, List, [], ◌∷◌, ◌++◌, none, some, false, true}
use crash_fuzz.Prelude.Io.{Outcome, pure}
use crash_fuzz.Prelude.Text.{codes, text_eq}
use crash_fuzz.Trace.Reader.{parse_trace, to_event}
use crash_fuzz.Trace.Replay.{replay_selection}
use crash_fuzz.Graph.{ext4_journal, xfs}
use crash_fuzz.Enumerate.States.{enumerate_crash_states}
use crash_fuzz.Enumerate.CrashPoints.{select_crash_points}
use crash_fuzz.Enumerate.Sample.{sample_states}
use crash_fuzz.Oracle.AckLog.{parse_ack_log}
use crash_fuzz.Oracle.Verdict.{check_oracle}
use crash_fuzz.Oracle.Recover.{recover_database}
use crash_fuzz.Campaign.{examine, load_bounds}
use crash_fuzz.Campaign.Sweep.{Shape, SweepRow, SweepRun, Filesystem}
use crash_fuzz.Campaign.Machine.{campaign_on_machine}
use crash_fuzz.Image.{materialize_state, with_mount}
use crash_fuzz.Image.Holds.{Resource}
use crash_fuzz.Tools.CampaignRun.{Sweeping, sweep_loop}
use crash_fuzz.Tools.CampaignRun.Runs.{Runner}
use crash_fuzz.Tools.CampaignRun.Rows.{AreRowsOf, swept_of, IsKeptIn, sweep_loop-rows}
use crash_fuzz.Examples.Mounting.{machine, other_mount, exits}
use crash_fuzz.Examples.Artifacts.{read_json, trace_text}
use crash_fuzz.Examples.Campaigns.{few, no_number}

abbrev runner : Runner (List Resource)
runner = record {
  machine = machine true;
  spawn_env = λ command env s. ((exits true [], some 7), s);
  exists = λ path s. false;
  read_text = λ path. pure trace_text;
  write_text = λ path text. pure tt;
  copy_file = λ from to. pure tt;
  parse_bounds = λ text. some few;
  bounds_path = codes "bounds.jsonc";
  elapsed = pure (codes "9");
  json_parse = read_json;
  stringify = λ finding. [];
  number = no_number;
  read_error = λ e. [];
  runtime_error = [];
  repo_root = codes "repo";
}

abbrev two_runs : List SweepRun
two_runs =
    record {
      config = record {
        name = codes "ext4-journal";
        filesystem = Filesystem.ext4;
        mount_options = some (codes "data=journal");
        model = ext4_journal;
      };
      shape = Shape.single;
    }
    ∷ record {
      config = record {
        name = codes "xfs";
        filesystem = Filesystem.xfs_fs;
        mount_options = none;
        model = xfs;
      };
      shape = Shape.single;
    }
    ∷ []

abbrev nothing_yet : Sweeping
nothing_yet = record { traces = []; rows = [] }

abbrev swept : Sweeping
swept =
    swept_of nothing_yet (sweep_loop runner 4 1 (codes "work") two_runs nothing_yet other_mount).0

-- The directories of the trace are still there.
abbrev afterwards : List Resource
afterwards = (sweep_loop runner 4 1 (codes "work") two_runs nothing_yet other_mount).1

swept_lem :
    sweep_loop runner 4 1 (codes "work") two_runs nothing_yet other_mount
    ≡ (Outcome.returned swept, afterwards)
unfolding sweep_loop enumerate_crash_states select_crash_points sample_states parse_ack_log examine
    check_oracle materialize_state with_mount replay_selection parse_trace campaign_on_machine
    recover_database to_event load_bounds
swept_lem = refl

sweep_loop-rows_example :
    (rows : List SweepRow) × (swept.rows ≡ [] ++ rows)
    × AreRowsOf runner 4 1 (codes "work") swept.traces two_runs rows
    × IsKeptIn [] swept.traces
sweep_loop-rows_example =
    sweep_loop-rows runner 4 1 (codes "work") two_runs nothing_yet swept other_mount afterwards
      swept_lem
