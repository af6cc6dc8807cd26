-- ===== src/Examples/Pipeline.antt =====
-- The theorems on the replay and the campaign, with a file system and a recovery made up.
use crash_fuzz.Prelude.{
  ℕ, zero, suc, ◌+◌, ◌≡◌, refl, List, true, Option, none, some, [], ◌∷◌, ◌++◌, not, if◌then◌else◌,
  get_elem?, includes, nat_eq, ap, some-injective, length,
}
use crash_fuzz.Prelude.Io.{Outcome, throw}
use crash_fuzz.Prelude.Int.{pos, is_negative, ℤ}
use crash_fuzz.Prelude.Text.{Text, codes, text_eq}
use crash_fuzz.Prelude.Dict.{values}
use crash_fuzz.Trace.{TraceEvent, is_mutating}
use crash_fuzz.Trace.Replay.{NodeFs, ReplayOptions, replay_selection, replay_trace}
use crash_fuzz.Trace.Replay.Laws.{replay_selection-everything}
use crash_fuzz.Enumerate.States.{CrashState}
use crash_fuzz.Oracle.AckLog.{AckedOperation}
use crash_fuzz.Oracle.Verdict.{RecoveryResult, check_oracle}
use crash_fuzz.Campaign.{Progress, run_loop, LoadedBounds, CampaignResult, run_campaign}
use crash_fuzz.Campaign.Loop.{total}
use crash_fuzz.Campaign.Images.{HasEvidence, run_loop-HasEvidence}
use crash_fuzz.Campaign.Counts.{violation_count, run_loop-total}
use crash_fuzz.Examples.Traces.{trace_of, short_events}
use mathlib.Core.Option
use crash_fuzz.Oracle.Dedup.{signature_of}
use crash_fuzz.Graph.{ext4_ordered, xfs, models}
use crash_fuzz.Campaign.Whole.{IsCampaign, run_campaign-IsCampaign}
use mathlib.Core.Option.{Mem}
use crash_fuzz.Campaign.Sweep.{SweepConfig, Filesystem, Shape, sweep_plan}
use mathlib.Core.List.{Memᴰ}
use crash_fuzz.Campaign.Sweep.Laws.{sweep_plan_complete}
use crash_fuzz.Cli.{Output, report}
use crash_fuzz.Cli.Laws.{report_total}

-- A file system that keeps a journal of the calls it gets.
abbrev journal : NodeFs (List Text)
journal = record {
  make_dir = λ path s. (Outcome.returned tt, (s ++ (path ∷ [])));
  touch = λ path s. (Outcome.returned tt, (s ++ (path ∷ [])));
  open_update = λ path. throw (codes "ENOENT");
  open_create = λ path s. (Outcome.returned tt, s);
  write_at = λ path payload offset s. (Outcome.returned tt, (s ++ (path ∷ payload ∷ [])));
  read = λ path s. (Outcome.returned path, s);
  truncate = λ path size s. (Outcome.returned tt, s);
  rename = λ path path2 s. (Outcome.returned tt, (s ++ (path ∷ path2 ∷ [])));
  link = λ path path2 s. (Outcome.returned tt, s);
  remove = λ path s. (Outcome.returned tt, s);
  dirname = λ path. [];
  join = λ a b. a ++ b;
  relative = λ a b. b;
}

abbrev to_image : ReplayOptions
to_image = record { cas_dir = codes "cas/"; root_dir = []; target_dir = codes "img" }

success-congr :
    (e e' : TraceEvent)
    → some e ≡ some e'
    → not (is_negative e.return_value) ≡ not (is_negative e'.return_value)
success-congr e e' at =
    ap (λ x. not (is_negative (TraceEvent.return_value x))) (some-injective e e' at)

done_only :
    (i : ℕ) (e : TraceEvent)
    → get_elem? short_events i ≡ some e
    → is_mutating e.call ≡ true
    → includes (0 + i) (0 ∷ 2 ∷ 3 ∷ []) ≡ not (is_negative e.return_value)
done_only zero e at m = success-congr _ e at
done_only (suc zero) e at m =
    absurd (cc (ap (λ x. is_mutating (TraceEvent.call x)) (some-injective _ e at)))
done_only (suc (suc zero)) e at m = success-congr _ e at
done_only (suc (suc (suc zero))) e at m = success-congr _ e at
done_only (suc (suc (suc (suc zero)))) e at m = success-congr _ e at
done_only (suc (suc (suc (suc (suc i))))) e at m = absurd (cc)

replay_selection-everything_example :
    replay_selection journal to_image
      (trace_of short_events)
      (record { persisted = 0 ∷ 2 ∷ 3 ∷ []; partial = [] })
      []
    ≡ replay_trace journal to_image (trace_of short_events) []
replay_selection-everything_example =
    replay_selection-everything journal to_image (trace_of short_events) (0 ∷ 2 ∷ 3 ∷ []) []
      done_only

abbrev promise : AckedOperation
promise = record {
  op = pos 1;
  kind = codes "put";
  key = codes "k";
  digest = codes "aa";
  began_at = 0;
  acknowledged_at = some 1;
  durable = true;
}

-- A recovery that finds the value only where the write of the other file is on disk.
abbrev recover : CrashState → Option RecoveryResult
recover state = some (
    RecoveryResult.opened true
      (if includes 3 state.persisted then (codes "k", codes "aa") ∷ [] else []) none)

abbrev state_of : List ℕ → CrashState
state_of persisted = record { crash_point = 4; persisted = persisted; partials = [] }

abbrev tested_states : List CrashState
tested_states = state_of (0 ∷ []) ∷ state_of (0 ∷ 3 ∷ []) ∷ state_of (0 ∷ 2 ∷ []) ∷ []

abbrev nothing_yet : Progress
nothing_yet = record { findings = []; tested = 0; images = [] }

-- The first state and the last show the same bug: one image stays.
images_run :
    Option.map Progress.images
      (run_loop (trace_of short_events) (promise ∷ []) recover 0 tested_states nothing_yet)
    ≡ some (0 ∷ [])
unfolding run_loop check_oracle signature_of
images_run = refl

run_loop-HasEvidence_example :
    (final : Progress) × (run_loop
        (trace_of short_events)
        (promise ∷ [])
        recover
        0
        tested_states
        nothing_yet
      ≡ some final)
    × HasEvidence final
run_loop-HasEvidence_example =
    run_loop-HasEvidence (trace_of short_events) (promise ∷ []) recover 0 tested_states nothing_yet
      ((_, refl), ((_, refl), ((_, refl), tt))) (λ i. refl)

run_loop-total_example :
    (final : Progress) × (run_loop
        (trace_of short_events)
        (promise ∷ [])
        recover
        0
        tested_states
        nothing_yet
      ≡ some final)
    × (final.tested ≡ 3 + 0)
    × (total (values final.findings)
        ≡ violation_count (trace_of short_events) (promise ∷ []) recover tested_states + 0)
run_loop-total_example =
    run_loop-total (trace_of short_events) (promise ∷ []) recover 0 tested_states nothing_yet
      ((_, refl), ((_, refl), ((_, refl), tt)))

abbrev file_bounds : LoadedBounds
file_bounds = record {
  crash_points = codes "fsyncAdjacent+sample";
  non_fsync_sample_rate = record { numerator = 0; denominator = 1 };
  max_unpersisted_window = 8;
  max_exhaustive_workload_ops = 3;
  max_states_per_crash_point = 24;
  torn_writes = true;
  torn_write_granularity_bytes = 512;
  max_torn_ops_per_state = 1;
}

no_number : Text → Option ℤ
no_number text = none

run_campaign-IsCampaign_example :
    (result : CampaignResult) × (run_campaign no_number recover
        (trace_of short_events)
        file_bounds
        ext4_ordered
        1
      ≡ some result)
    × IsCampaign no_number recover (trace_of short_events) file_bounds ext4_ordered 1 result
run_campaign-IsCampaign_example =
    run_campaign-IsCampaign no_number recover (trace_of short_events) file_bounds ext4_ordered 1
      (λ s. (_, refl))

abbrev xfs_config : SweepConfig
xfs_config = record {
  name = codes "xfs";
  filesystem = Filesystem.xfs_fs;
  mount_options = none;
  model = xfs;
}

one_sweep_plan_complete_run : Memᴰ (record { config = xfs_config; shape = Shape.mixed }) sweep_plan
one_sweep_plan_complete_run =
    sweep_plan_complete xfs_config Shape.mixed (Memᴰ.tail (Memᴰ.tail (Memᴰ.head refl)))

one_report_total_run :
    (output : Output) × (report (λ n. []) (trace_of short_events) file_bounds ≡ some output)
    × (output.exit ≡ 0)
    × (output.err ≡ [])
    × (length output.out ≡ 2 + length models)
one_report_total_run = report_total (λ n. []) (trace_of short_events) file_bounds
