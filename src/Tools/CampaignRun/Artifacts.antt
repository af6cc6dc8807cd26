-- ===== src/Tools/CampaignRun/Artifacts.antt =====
-- The artifacts that core/tools/campaign-run.ts writes.
use crash_fuzz.Prelude.{false, List, [], ◌∷◌, ◌++◌, some}
use crash_fuzz.Prelude.Io.{Io, pure, ◌>>=◌, ◌>>◌}
use crash_fuzz.Prelude.Text.{Text, codes, text_eq}
use crash_fuzz.Oracle.Reproducer.{PackagedFinding, Content, write_reproducer, ReproducerOptions}
use crash_fuzz.Campaign.{Finding}
use crash_fuzz.Campaign.Machine.{CampaignOptions, image_path_at}
use crash_fuzz.Campaign.Sweep.{SweepRun}
use crash_fuzz.Campaign.Targets.{redb_binary}
use crash_fuzz.Tools.CampaignRun.Runs.{
  Runner, scratch, redb_name, shape_text, dash_runs, path_of, or_throw,
}

module _ {W : Type 0} (runner : Runner W) where
  -- A file of an artifact; the image is copied before these.
  abbrev pub write_content : Text → Text × Content → Io W (Unit {0})
  write_content out_dir (name, Content.copy_of path) = pure tt
  write_content out_dir (name, Content.text text) =
      runner.write_text (path_of runner out_dir name) text

  unfoldable pub write_contents : Text → List (Text × Content) → Io W (Unit {0})
  write_contents out_dir [] = pure tt
  write_contents out_dir (c ∷ cs) = do write_content out_dir c; write_contents out_dir cs

  abbrev pub query_and_build : Text × Text
  query_and_build = (
    redb_binary (path_of runner) (codes "redb-query"),
    codes
        "CARGO_TARGET_DIR=/var/lib/crashfuzz/cargo-target cargo build --release --manifest-path \"$repo/targets/redb-workload/Cargo.toml\"",
  )

  abbrev pub packaged : CampaignOptions W → Finding → PackagedFinding
  packaged options finding = record {
    signature = finding.signature;
    occurrences = finding.occurrences;
    state = finding.state;
    image_path = image_path_at runner.machine options finding.image;
    violation = finding.violation;
  }

  abbrev pub artifact_dir : SweepRun → Finding → Text
  artifact_dir sweep_run finding = (path_of runner) (path_of runner scratch (codes "findings")) (
      sweep_run.config.name
      ++ (codes "-"
          ++ (shape_text sweep_run.shape ++ (codes "-" ++ dash_runs false finding.signature))))

  abbrev pub reproducer_options : SweepRun → Finding → ReproducerOptions
  reproducer_options sweep_run finding = record {
    out_dir = artifact_dir sweep_run finding;
    db_name = redb_name;
    filesystem = sweep_run.config.filesystem;
    query_command = query_and_build.0;
    build_command = some (query_and_build.1);
  }

  -- `writeReproducer` on the machine: the directory and the image first, then the other files.
  unfoldable pub save_reproducer : PackagedFinding → ReproducerOptions → Text → Io W (Unit {0})
  unfolding write_contents
  save_reproducer finding options trace_path = do
    runner.machine.files.make_dir options.out_dir
    runner.copy_file finding.image_path (path_of runner options.out_dir (codes "state.img"))
    text ← runner.read_text trace_path
    artifact ←
        or_throw runner (write_reproducer runner.json_parse runner.stringify finding options text)
    write_contents options.out_dir artifact.1

  unfoldable pub save_all : SweepRun → CampaignOptions W → Text → List Finding → Io W (Unit {0})
  unfolding save_reproducer
  save_all sweep_run options trace_path [] = pure tt
  save_all sweep_run options trace_path (finding ∷ rest) = do
    save_reproducer (packaged options finding) (reproducer_options sweep_run finding) trace_path
    save_all sweep_run options trace_path rest
