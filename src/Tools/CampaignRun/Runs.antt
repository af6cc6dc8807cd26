-- ===== src/Tools/CampaignRun/Runs.antt =====
-- The traces and the campaigns of core/tools/campaign-run.ts.
use crash_fuzz.Prelude.{
  ℕ, Bool, true, false, not, ◌&&◌, ◌||◌, List, [], ◌∷◌, ◌++◌, Option, none, some, leb,
  if◌then◌else◌,
}
use crash_fuzz.Prelude.Int.{ℤ}
use crash_fuzz.Prelude.Io.{Io, Outcome, pure, throw, ◌>>=◌}
use crash_fuzz.Prelude.Text.{Text, codes, text_eq}
use crash_fuzz.Trace.Reader.{RawRecord, Parsed, ReadError, parse_trace}
use crash_fuzz.Oracle.Verdict.{RecoveryResult}
use crash_fuzz.Oracle.Recover.{ProcResult, exited_zero, recover_database}
use crash_fuzz.Oracle.Reproducer.{FindingJson}
use crash_fuzz.Campaign.{CampaignResult, LoadedBounds, load_bounds}
use crash_fuzz.Campaign.Machine.{CampaignOptions, campaign_on_machine}
use crash_fuzz.Campaign.Sweep.{Shape, SweepRun}
use crash_fuzz.Campaign.Targets.{redb_binary}
use crash_fuzz.Image.{Machine}

-- What the tool uses of Bun and node:fs beside what a campaign needs, and of JSON and Number.
pub record Runner (W : Type 0) : Type 0 where
  pub machine : Machine W
  -- `Bun.spawnSync` with more variables in the environment, and the process's id
  pub spawn_env : List Text → List (Text × Text) → W → (ProcResult × Option ℕ) × W
  pub exists : Text → W → Bool
  pub read_text : Text → Io W Text
  pub write_text : Text → Text → Io W (Unit {0})
  pub copy_file : Text → Text → Io W (Unit {0})
  -- `JSON.parse` of the text of bounds.jsonc without its comments
  pub parse_bounds : Text → Option LoadedBounds
  pub bounds_path : Text
  -- `((Bun.nanoseconds() - started) / 1e9).toFixed(0)`
  pub elapsed : Io W Text
  pub json_parse : Text → Option RawRecord
  pub stringify : FindingJson → Text
  pub number : Text → Option ℤ
  -- the messages of the errors that the reader and the runtime throw
  pub read_error : ReadError → Text
  pub runtime_error : Text
  pub repo_root : Text

abbrev pub scratch : Text
scratch = codes "/var/lib/crashfuzz"

abbrev pub redb_name : Text
redb_name = codes "main.redb"

abbrev pub shape_text : Shape → Text
shape_text Shape.single = codes "single"
shape_text Shape.large = codes "large"
shape_text Shape.many = codes "many"
shape_text Shape.mixed = codes "mixed"
shape_text Shape.concurrent = codes "concurrent"

-- `[a-zA-Z0-9]`
abbrev pub is_alphanumeric : ℕ → Bool
is_alphanumeric c =
    (leb 0x61 c && leb c 0x7a) || ((leb 0x41 c && leb c 0x5a) || (leb 0x30 c && leb c 0x39))

-- `text.replace(/[^a-zA-Z0-9]+/g, '-')`; the first argument says that a run has begun
unfoldable pub dash_runs : Bool → Text → Text
dash_runs begun [] = []
dash_runs begun (c ∷ s) =
    let rest = dash_runs (not (is_alphanumeric c)) s in
    if is_alphanumeric c then c ∷ rest else (if begun then rest else 0x2d ∷ rest)

pub record Capture : Type 0 where
  pub live_dir : Text
  pub cas_dir : Text
  pub trace_path : Text

module _ {W : Type 0} (runner : Runner W) where
  abbrev pub path_of : Text → Text → Text
  path_of = runner.machine.files.join

  abbrev pub shown : ℕ → Text
  shown n = runner.machine.show (some n)

  -- The end of `captureTrace`, on what the workload's process gave.
  abbrev pub capture_end : Text → Text → Text → (ProcResult × Option ℕ) × W → Outcome Capture × W
  capture_end shape live_dir trace_dir ((proc, pid), s) =
      if exited_zero proc.exit_code
      then (
        Outcome.returned (record {
          live_dir = live_dir;
          cas_dir = path_of trace_dir (codes "cas");
          trace_path =
              path_of trace_dir (codes "trace-" ++ (runner.machine.show pid ++ codes ".jsonl"));
        }),
        s,
      )
      else (
        Outcome.thrown (
            codes "workload "
            ++ (shape
                ++ (codes " exited "
                    ++ (runner.machine.show proc.exit_code ++ (codes ": " ++ proc.stderr))))),
        s,
      )

  abbrev pub workload : Text → ℕ → Text → Text → Io W Capture
  workload shape operations live_dir trace_dir s = capture_end shape live_dir trace_dir (
      runner.spawn_env
        (redb_binary path_of (codes "redb-workload")
          ∷ path_of live_dir redb_name
          ∷ path_of live_dir (codes "crashfuzz.marker")
          ∷ shown operations
          ∷ shape
          ∷ [])
        ((
          codes "LD_PRELOAD",
          path_of (path_of (path_of runner.repo_root (codes "shim")) (codes "build"))
              (codes "shim.so"),
        )
          ∷ (codes "CRASHFUZZ_TRACE_DIR", trace_dir)
          ∷ [])
        s)

  -- `captureTrace`
  unfoldable pub capture_trace : Text → ℕ → Text → Io W Capture
  capture_trace shape operations workdir = do
    live_dir ←
        runner.machine.make_temp_dir (path_of workdir (codes "live-" ++ (shape ++ codes "-")))
    trace_dir ←
        runner.machine.make_temp_dir (path_of workdir (codes "trace-" ++ (shape ++ codes "-")))
    workload shape operations live_dir trace_dir

  -- `recoverRedb`: the query tool runs only where there is a database file.
  abbrev pub recover_redb : Text → Io W RecoveryResult
  recover_redb path s = elim (runner.exists path s) [
    | true ↦
        let r = runner.machine.spawn (redb_binary path_of (codes "redb-query") ∷ path ∷ []) s in
        (Outcome.returned (recover_database runner.machine.show true r.0), r.1)
    | false ↦ (
      Outcome.returned (
          recover_database runner.machine.show false
            (record { exit_code = none; stdout = []; stderr = [] })),
      s,
    )
  ]

  abbrev pub read_or_throw : {A : Type 0} → Parsed A → Io W A
  read_or_throw (Parsed.ok a) = pure a
  read_or_throw (Parsed.err e) = throw (runner.read_error e)

  abbrev pub campaign_options : Text → SweepRun → Capture → ℕ → CampaignOptions W
  campaign_options workdir sweep_run capture seed = record {
    cas_dir = capture.cas_dir;
    root_dir = capture.live_dir;
    image_dir =
        path_of workdir
          (codes "img-" ++ (sweep_run.config.name ++ (codes "-" ++ shape_text sweep_run.shape)));
    model = sweep_run.config.model;
    filesystem = sweep_run.config.filesystem;
    mount_options = sweep_run.config.mount_options;
    seed = seed;
    recover = λ mount_dir. recover_redb (path_of mount_dir redb_name);
  }

  abbrev pub or_throw : {A : Type 0} → Option A → Io W A
  or_throw none = throw runner.runtime_error
  or_throw (some a) = pure a

  -- `runCampaign`, the reading of the files included
  abbrev pub campaign_on_files : CampaignOptions W → Text → Io W CampaignResult
  campaign_on_files options trace_path = do
    bounds_text ← runner.read_text runner.bounds_path
    bounds ← or_throw (load_bounds runner.parse_bounds bounds_text)
    text ← runner.read_text trace_path
    trace ← read_or_throw (parse_trace runner.json_parse text)
    campaign_on_machine runner.machine options runner.number runner.runtime_error trace bounds
