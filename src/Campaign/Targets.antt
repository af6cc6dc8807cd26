-- ===== src/Campaign/Targets.antt =====
-- core/src/campaign/targets.ts: where the redb workload is, and building it.
use crash_fuzz.Prelude.{List, [], ◌∷◌, ◌++◌, if◌then◌else◌}
use crash_fuzz.Prelude.Io.{Io, Outcome}
use crash_fuzz.Prelude.Text.{Text, codes}
use crash_fuzz.Oracle.Recover.{ProcResult, exited_zero}

abbrev pub cargo_target_dir : Text
cargo_target_dir = codes "/var/lib/crashfuzz/cargo-target"

-- `redbBinary`, with `join` of node:path
abbrev pub redb_binary : (Text → Text → Text) → Text → Text
redb_binary join name = join (join cargo_target_dir (codes "release")) name

abbrev pub cargo_command : (Text → Text → Text) → Text → List Text
cargo_command join root =
    codes "cargo"
    ∷ codes "build"
    ∷ codes "--release"
    ∷ codes "--manifest-path"
    ∷ join (join (join root (codes "targets")) (codes "redb-workload")) (codes "Cargo.toml")
    ∷ []

-- The end of `buildRedbWorkload`, on what the process gave and the state it left.
abbrev pub build_checked : {W : Type 0} → ProcResult × W → Outcome (Unit {0}) × W
build_checked (proc, s) =
    if exited_zero proc.exit_code
    then (Outcome.returned tt, s)
    else (Outcome.thrown (codes "building redb-workload failed: " ++ proc.stderr), s)

-- `buildRedbWorkload`; the first argument runs a command with more variables in its environment
unfoldable pub build_redb_workload :
    {W : Type 0}
    → (List Text → List (Text × Text) → W → ProcResult × W)
    → (Text → Text → Text)
    → Text
    → Io W (Unit {0})
build_redb_workload spawn_env join root s =
    build_checked
      (spawn_env (cargo_command join root) ((codes "CARGO_TARGET_DIR", cargo_target_dir) ∷ []) s)
