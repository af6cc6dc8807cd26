-- ===== src/Tools/CampaignRun.antt =====
-- core/tools/campaign-run.ts: every filesystem of the sweep against every workload shape, with the
-- results table and an artifact for each finding. What is printed on the console is left out.
pub mod Runs
pub mod Artifacts
pub mod Rows
use crash_fuzz.Prelude.{
  ℕ, Bool, true, false, not, ◌&&◌, ◌||◌, List, [], ◌∷◌, ◌++◌, Option, none, some, map, flat_map,
  length, leb, includes, if◌then◌else◌, add, add_all,
}
use crash_fuzz.Prelude.Int.{ℤ}
use crash_fuzz.Prelude.Io.{Io, Outcome, pure, throw, ◌>>=◌, ◌>>◌}
use crash_fuzz.Prelude.Text.{Text, codes, text_eq, join}
use crash_fuzz.Prelude.Dict.{Dict, get, set}
use crash_fuzz.Trace.Reader.{RawRecord, Parsed, ReadError, parse_trace}
use crash_fuzz.Oracle.Verdict.{RecoveryResult}
use crash_fuzz.Oracle.Recover.{ProcResult, exited_zero, recover_database}
use crash_fuzz.Oracle.Reproducer.{
  FindingJson, PackagedFinding, Content, filesystem_text, write_reproducer, ReproducerOptions,
}
use crash_fuzz.Campaign.{Finding, CampaignResult, LoadedBounds}
use crash_fuzz.Campaign.Machine.{CampaignOptions, campaign_on_machine, image_path_at, or_thrown}
use crash_fuzz.Campaign.Sweep.{Shape, SweepRun, SweepRow, sweep_plan, results_table, join_lines}
use crash_fuzz.Campaign.Targets.{redb_binary, build_redb_workload}
use crash_fuzz.Image.{Machine, run}
use crash_fuzz.Tools.CampaignRun.Runs.{
  Runner, scratch, redb_name, shape_text, is_alphanumeric, dash_runs, Capture, path_of, shown,
  capture_end, workload, capture_trace, recover_redb, read_or_throw, campaign_options,
  campaign_on_files,
}
use crash_fuzz.Tools.CampaignRun.Artifacts.{
  write_content, write_contents, query_and_build, packaged, artifact_dir, reproducer_options,
  save_reproducer, save_all,
}

-- The traces that there are, by shape, and the rows so far.
pub record Sweeping : Type 0 where
  pub traces : Dict Text Capture
  pub rows : List SweepRow

module _ {W : Type 0} (runner : Runner W) where
  abbrev pub row_of : SweepRun → CampaignResult → SweepRow
  row_of sweep_run result = record {
    config_name = sweep_run.config.name;
    filesystem = filesystem_text sweep_run.config.filesystem;
    mount_options = sweep_run.config.mount_options;
    shape = shape_text sweep_run.shape;
    crash_points_tested = result.crash_points_tested;
    states_tested = result.states_tested;
    findings =
        map (λ (finding : Finding). (finding.signature, finding.occurrences)) result.findings;
  }

  -- The trace of a shape: it is captured where there is none yet.
  abbrev pub captured_once : Option Capture → Text → ℕ → Text → Io W Capture
  captured_once (some capture) shape operations workdir = pure capture
  captured_once none shape operations workdir = capture_trace runner shape operations workdir

  -- `if (!traces.has(run.shape)) traces.set(run.shape, …)`
  abbrev pub traces_with : Option Capture → Text → Capture → Dict Text Capture → Dict Text Capture
  traces_with (some there) shape capture traces = traces
  traces_with none shape capture traces = set shape capture traces

  -- The body of the loop over the sweep.
  unfoldable pub sweep_step : ℕ → ℕ → Text → SweepRun → Sweeping → Io W Sweeping
  unfolding save_all capture_trace
  sweep_step operations seed workdir sweep_run sweeping =
      let shape = shape_text sweep_run.shape in
      do
        capture ← captured_once (get shape sweeping.traces) shape operations workdir
        let options = campaign_options runner workdir sweep_run capture seed
        result ← campaign_on_files runner options capture.trace_path
        save_all runner sweep_run options capture.trace_path result.findings
        pure (record {
          traces = traces_with (get shape sweeping.traces) shape capture sweeping.traces;
          rows = sweeping.rows ++ row_of sweep_run result ∷ [];
        })

  unfoldable pub sweep_loop : ℕ → ℕ → Text → List SweepRun → Sweeping → Io W Sweeping
  unfolding sweep_step
  sweep_loop operations seed workdir [] sweeping = pure sweeping
  sweep_loop operations seed workdir (sweep_run ∷ rest) sweeping = do
    next ← sweep_step operations seed workdir sweep_run sweeping
    sweep_loop operations seed workdir rest next

  abbrev pub mount_text : Option Text → Text
  mount_text none = codes "default"
  mount_text (some options) = options

  abbrev pub csv_line : SweepRow → Text
  csv_line row = join (0x2c ∷ []) (
      row.filesystem
      ∷ mount_text row.mount_options
      ∷ row.shape
      ∷ shown runner row.crash_points_tested
      ∷ shown runner row.states_tested
      ∷ shown runner (length row.findings)
      ∷ [])

  abbrev pub campaign_csv : List SweepRow → Text
  campaign_csv rows =
      join (0x0a ∷ [])
        (codes "filesystem,mount_options,shape,crash_points,states,findings" ∷ map csv_line rows)
      ++ 0x0a ∷ []

  -- `[...new Set(rows.flatMap((row) => row.findings.map((f) => f.signature)))]`
  abbrev pub signatures_of : List SweepRow → List Text
  signatures_of rows =
      add_all (flat_map (λ (row : SweepRow). map (λ (f : Text × ℕ). f.0) row.findings) rows) []

  abbrev pub signature_text : List Text → Text
  signature_text [] =
      codes "None. Every state the sweep tested recovered within the contract in `docs/model.md`."
  signature_text (s ∷ ss) =
      join (0x0a ∷ []) (map (λ (t : Text). codes "- `" ++ (t ++ codes "`")) (s ∷ ss))

  -- The text of docs/results.md.
  unfoldable pub results_md : ℕ → ℕ → Text → List SweepRow → Text
  results_md operations seed elapsed rows = join (0x0a ∷ []) (
      codes "# Campaign results"
      ∷ []
      ∷ codes "> Generated by `bun run campaign`. Regenerate rather than edit."
      ∷ []
      ∷ (codes "Primary target: redb. Operations per workload: "
          ++ (shown runner operations ++ (codes ". Seed: " ++ (shown runner seed ++ codes "."))))
      ∷ (codes "Wall clock: " ++ (elapsed ++ codes "s."))
      ∷ []
      ∷ codes "Bounds are in `core/src/enumerate/bounds.jsonc`; what this run did not cover is in"
      ∷ codes "`docs/coverage.md`."
      ∷ []
      ∷ results_table (shown runner) rows
      ∷ []
      ∷ codes "## Distinct finding signatures"
      ∷ []
      ∷ signature_text (signatures_of rows)
      ∷ []
      ∷ [])

  abbrev pub built_shim : ProcResult × W → Outcome (Unit {0}) × W
  built_shim (proc, s) =
      if exited_zero proc.exit_code
      then (Outcome.returned tt, s)
      else (Outcome.thrown (codes "building shim failed"), s)

  -- `main`, from the numbers on its command line
  unfoldable pub campaign_main : ℕ → ℕ → Io W ℕ
  unfolding sweep_loop results_md
  campaign_main operations seed = do
    λ s. built_shim (
        runner.machine.spawn
          (codes "make" ∷ codes "-C" ∷ path_of runner runner.repo_root (codes "shim") ∷ []) s)
    build_redb_workload (λ command env s. let r = runner.spawn_env command env s in ((r.0).0, r.1))
        (path_of runner) runner.repo_root
    workdir ←
        runner.machine.make_temp_dir
          (path_of runner (path_of runner scratch (codes "images")) (codes "campaign-"))
    runner.machine.remove_tree (path_of runner scratch (codes "findings"))
    runner.machine.files.make_dir (path_of runner scratch (codes "findings"))
    swept ← sweep_loop operations seed workdir sweep_plan (record { traces = []; rows = [] })
    elapsed ← runner.elapsed
    runner.machine.files.make_dir
        (path_of runner (path_of runner runner.repo_root (codes "plots")) (codes "data"))
    runner.write_text
        ((path_of runner)
          (path_of runner (path_of runner runner.repo_root (codes "plots")) (codes "data"))
          (codes "campaign.csv"))
        (campaign_csv swept.rows)
    runner.write_text
        (path_of runner (path_of runner runner.repo_root (codes "docs")) (codes "results.md"))
        (results_md operations seed elapsed swept.rows)
    pure 0
