-- ===== src/Image.antt =====
-- core/src/image/image.ts: crash images, real filesystems on loop devices. The machine is a
-- parameter: the calls of node:fs and the commands that are run, on a state that holds all they
-- change.
pub mod Holds
pub mod Releases
pub mod Steps
pub mod Result
pub mod Whole
use crash_fuzz.Prelude.{ℕ, List, [], ◌∷◌, ◌++◌, Option, none, some, Bool, if◌then◌else◌}
use crash_fuzz.Prelude.Io.{Io, Outcome, pure, throw, finally, after, ◌>>=◌, ◌>>◌}
use crash_fuzz.Prelude.Text.{Text, codes, trim, join}
use crash_fuzz.Trace.{Trace}
use crash_fuzz.Trace.Replay.{NodeFs, ReplayOptions, replay_selection}
use crash_fuzz.Enumerate.States.{CrashState}
use crash_fuzz.Campaign.Sweep.{Filesystem}
use crash_fuzz.Oracle.Recover.{ProcResult, exited_zero}

pub record ImageSpec : Type 0 where
  pub image_path : Text
  pub filesystem : Filesystem
  pub size_bytes : ℕ

pub record MaterializeOptions : Type 0 where
  pub spec : ImageSpec
  pub mount_options : Option Text
  pub cas_dir : Text
  pub root_dir : Text

-- What the module uses of Bun and node:fs, beside what the replay uses.
pub record Machine (W : Type 0) : Type 0 where
  -- `Bun.spawnSync`
  pub spawn : List Text → W → ProcResult × W
  -- `mkdtempSync`
  pub make_temp_dir : Text → Io W Text
  -- `writeFileSync(path, '')`
  pub write_empty : Text → Io W (Unit {0})
  -- `truncateSync(path, size)`
  pub truncate : Text → ℕ → Io W (Unit {0})
  -- `rmSync(path, { recursive: true, force: true })`
  pub remove_tree : Text → Io W (Unit {0})
  pub files : NodeFs W
  -- an exit code as a template prints it
  pub show : Option ℕ → Text

abbrev pub mount_root : Text
mount_root = codes "/var/lib/crashfuzz/mnt"

abbrev pub losetup_command : Text → List Text
losetup_command image_path =
    codes "sudo" ∷ codes "losetup" ∷ codes "--find" ∷ codes "--show" ∷ image_path ∷ []

abbrev pub detach_command : Text → List Text
detach_command device = codes "sudo" ∷ codes "losetup" ∷ codes "--detach" ∷ device ∷ []

abbrev pub mount_args : Option Text → List Text
mount_args none = []
mount_args (some options) = codes "-o" ∷ options ∷ []

abbrev pub mount_command : Option Text → Text → Text → List Text
mount_command options device dir =
    codes "sudo" ∷ codes "mount" ∷ (mount_args options ++ device ∷ dir ∷ [])

abbrev pub chmod_command : Text → List Text
chmod_command dir = codes "sudo" ∷ codes "chmod" ∷ codes "0777" ∷ dir ∷ []

abbrev pub umount_command : Text → List Text
umount_command dir = codes "sudo" ∷ codes "umount" ∷ dir ∷ []

-- `formatCommand`
abbrev pub format_command : ImageSpec → List Text
format_command spec = elim spec.filesystem [
  | Filesystem.ext4 ↦ codes "/usr/sbin/mkfs.ext4" ∷ codes "-q" ∷ codes "-F" ∷ spec.image_path ∷ []
  | Filesystem.xfs_fs ↦ codes "/usr/sbin/mkfs.xfs" ∷ codes "-q" ∷ codes "-f" ∷ spec.image_path ∷ []
  | Filesystem.btrfs_fs ↦
      codes "/usr/sbin/mkfs.btrfs" ∷ codes "-q" ∷ codes "-f" ∷ spec.image_path ∷ []
]

module _ {W : Type 0} (machine : Machine W) where
  -- The message of the error that `run` and `capture` throw.
  abbrev pub failure : List Text → ProcResult → Text
  failure command proc =
      join (0x20 ∷ []) command
      ++ (codes " failed ("
          ++ (machine.show proc.exit_code ++ (codes "): " ++ trim (proc.stderr ++ proc.stdout))))

  -- The end of `run`, on what the process gave and the state it left.
  unfoldable pub checked : List Text → ProcResult × W → Outcome ProcResult × W
  checked command (proc, s) =
      if exited_zero proc.exit_code
      then (Outcome.returned proc, s)
      else (Outcome.thrown (failure command proc), s)

  unfoldable pub run : List Text → Io W (Unit {0})
  unfolding checked
  run command s = after (checked command (machine.spawn command s)) (λ proc. pure tt)

  unfoldable pub capture : List Text → Io W Text
  unfolding checked
  capture command s =
      after (checked command (machine.spawn command s)) (λ proc. pure (trim proc.stdout))

  -- `createImage`
  unfoldable pub create_image : ImageSpec → Io W (Unit {0})
  unfolding run
  create_image spec = do
    machine.files.make_dir (machine.files.dirname spec.image_path)
    machine.write_empty spec.image_path
    machine.truncate spec.image_path spec.size_bytes
    run (format_command spec)

  module _ {A : Type 0} where
    -- The inner `try` of `withMount`.
    unfoldable pub in_mount : Text → (Text → Io W A) → Io W A
    unfolding run
    in_mount dir fn = finally (do run (chmod_command dir); fn dir) (run (umount_command dir))

    -- The outer `try` of `withMount`.
    unfoldable pub on_device : Text → Text → Option Text → (Text → Io W A) → Io W A
    unfolding run in_mount
    on_device dir device options fn =
        finally (do run (mount_command options device dir); in_mount dir fn)
          (do run (detach_command device); machine.remove_tree dir)

    -- `withMount`
    unfoldable pub with_mount : Text → Option Text → (Text → Io W A) → Io W A
    unfolding capture on_device
    with_mount image_path options fn = do
      machine.files.make_dir mount_root
      dir ← machine.make_temp_dir (mount_root ++ codes "/m-")
      device ← capture (losetup_command image_path)
      on_device dir device options fn

  -- `materializeState`
  unfoldable pub materialize_state : Trace → CrashState → MaterializeOptions → Io W (Unit {0})
  unfolding create_image with_mount
  materialize_state trace state options = do
    create_image options.spec
    with_mount options.spec.image_path options.mount_options (λ dir.
        replay_selection machine.files
          (record { cas_dir = options.cas_dir; root_dir = options.root_dir; target_dir = dir })
          trace (record { persisted = state.persisted; partial = state.partials }))
