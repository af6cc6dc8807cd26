-- ===== src/Tools/FtruncateVsOverwrite.antt =====
-- core/tools/ftruncate-vs-overwrite.ts: can an overwrite reach the disk while the ftruncate that grew
-- the file before it does not? What is printed on the console is left out.
pub mod Classify
pub mod Exit
use crash_fuzz.Prelude.{
  ℕ, zero, suc, ◌+◌, ◌*◌, Bool, true, false, ◌&&◌, List, [], ◌∷◌, ◌++◌, Option, none, some, length,
  take, ltb, nat_beq, if◌then◌else◌, suc,
}
use crash_fuzz.Prelude.Io.{Io, Outcome, pure, throw, ◌>>=◌, ◌>>◌}
use crash_fuzz.Prelude.Text.{Text, codes}
use crash_fuzz.Image.{Machine, run, with_mount}

abbrev pub work_dir : Text
work_dir = codes "/var/lib/crashfuzz/exp/ftruncate-vs-overwrite"

abbrev pub image_bytes : ℕ
image_bytes = 67108864

abbrev pub base_len : ℕ
base_len = 8388608

abbrev pub grown_len : ℕ
grown_len = 16777216

abbrev pub header_len : ℕ
header_len = 320

abbrev pub writeback_wait_ms : ℕ
writeback_wait_ms = 45000

abbrev pub new_byte : ℕ
new_byte = 0x4e

abbrev pub old_byte : ℕ
old_byte = 0x41

pub data DataMode : Type 0 where
  ordered journal : DataMode

pub data HeaderClassification : Type 0 where
  new_header old_header ambiguous : HeaderClassification

-- `bytes.every((byte) => byte === b)`
unfoldable pub every_is : ℕ → List ℕ → Bool
every_is b [] = true
every_is b (c ∷ cs) = nat_beq c b && every_is b cs

-- `classifyHeader`
unfoldable pub classify_header : List ℕ → ℕ → HeaderClassification
unfolding every_is
classify_header bytes expected_len =
    if nat_beq (length bytes) expected_len
    then (if every_is new_byte bytes
        then HeaderClassification.new_header
        else (if every_is old_byte bytes
            then HeaderClassification.old_header
            else HeaderClassification.ambiguous))
    else HeaderClassification.ambiguous

pub record Observation : Type 0 where
  pub file_len : ℕ
  pub header : HeaderClassification

pub record Verdict : Type 0 where
  pub data_mode : DataMode
  pub reordering_observed : Bool
  pub no_reordering_confirmed : Bool

-- `header === 'new'` and `header === 'old'`
abbrev pub is_new : HeaderClassification → Bool
is_new HeaderClassification.new_header = true
is_new _ = false

abbrev pub is_old : HeaderClassification → Bool
is_old HeaderClassification.old_header = true
is_old _ = false

-- `interpretObservation`
unfoldable pub interpret_observation : DataMode → Observation → ℕ → Verdict
interpret_observation data_mode observation base = record {
  data_mode = data_mode;
  reordering_observed = nat_beq observation.file_len base && is_new observation.header;
  no_reordering_confirmed = nat_beq observation.file_len base && is_old observation.header;
}

-- What the tool uses of Bun and node:fs, beside what images need: a descriptor is a number.
pub record Lab (W : Type 0) : Type 0 where
  pub machine : Machine W
  -- `statSync(path).size`
  pub file_size : Text → Io W ℕ
  -- `readFileSync(path, 'utf8').trim()`
  pub read_text : Text → Io W Text
  -- `openSync(path, flags)`
  pub open_file : Text → Text → Io W ℕ
  -- `writeSync(fd, bytes)` at the start of the file
  pub write : ℕ → List ℕ → Io W (Unit {0})
  pub fsync : ℕ → Io W (Unit {0})
  pub ftruncate : ℕ → ℕ → Io W (Unit {0})
  pub close : ℕ → Io W (Unit {0})
  pub sleep : ℕ → Io W (Unit {0})
  -- `Number(text)`, where it is finite
  pub number : Text → Option ℕ

-- `Buffer.alloc(size, byte)`
unfoldable pub buffer : ℕ → ℕ → List ℕ
buffer zero byte = []
buffer (suc n) byte = byte ∷ buffer n byte

abbrev pub mode_text : DataMode → Text
mode_text DataMode.ordered = codes "ordered"
mode_text DataMode.journal = codes "journal"

abbrev pub image_path_of : DataMode → Text
image_path_of mode = work_dir ++ (codes "/" ++ (mode_text mode ++ codes ".img"))

abbrev pub snapshot_path_of : DataMode → Text
snapshot_path_of mode = work_dir ++ (codes "/" ++ (mode_text mode ++ codes "-crash.img"))

abbrev pub mkfs_command : Text → List Text
mkfs_command image_path =
    codes "/usr/sbin/mkfs.ext4"
    ∷ codes "-q"
    ∷ codes "-F"
    ∷ codes "-E"
    ∷ codes "lazy_itable_init=0,lazy_journal_init=0"
    ∷ image_path
    ∷ []

abbrev pub copy_command : Text → Text → List Text
copy_command from to = codes "cp" ∷ codes "--sparse=always" ∷ from ∷ to ∷ []

module _ {W : Type 0} (lab : Lab W) where
  -- The callback of `observeSnapshot`.
  unfoldable pub read_back : Text → Io W Observation
  unfolding classify_header
  read_back mount_dir = do
    file_len ← lab.file_size (mount_dir ++ codes "/testfile")
    bytes ← lab.machine.files.read (mount_dir ++ codes "/testfile")
    pure (record {
      file_len = file_len;
      header = classify_header (take header_len bytes) header_len;
    })

  -- `observeSnapshot`
  unfoldable pub observe_snapshot : Text → Text → Io W Observation
  unfolding read_back
  observe_snapshot snapshot_path mount_options =
      with_mount lab.machine snapshot_path (some mount_options) read_back

  -- The callback of `runExperiment`: the durable base, then the grow and the overwrite with no
  -- persistence call, then the copy of the image while it is mounted.
  unfoldable pub under_test : DataMode → Text → Io W (Unit {0})
  under_test mode mount_dir =
      let file_path = mount_dir ++ codes "/testfile" in
      do
        base_fd ← lab.open_file file_path (codes "w")
        lab.write base_fd (buffer base_len old_byte)
        lab.fsync base_fd
        lab.close base_fd
        run lab.machine (codes "sudo" ∷ codes "sync" ∷ [])
        fd ← lab.open_file file_path (codes "r+")
        lab.ftruncate fd grown_len
        lab.write fd (buffer header_len new_byte)
        lab.close fd
        lab.sleep writeback_wait_ms
        run lab.machine (copy_command (image_path_of mode) (snapshot_path_of mode))
        live ← lab.file_size file_path
        pure tt

  -- `runExperiment`
  unfoldable pub run_experiment : DataMode → Io W Observation
  unfolding under_test observe_snapshot
  run_experiment mode = do
    lab.machine.files.make_dir work_dir
    lab.machine.write_empty (image_path_of mode)
    lab.machine.truncate (image_path_of mode) image_bytes
    run lab.machine (mkfs_command (image_path_of mode))
    with_mount lab.machine (image_path_of mode)
        (some (codes "data=" ++ (mode_text mode ++ codes ",commit=300,noatime"))) (under_test mode)
    observe_snapshot (snapshot_path_of mode) (codes "data=" ++ mode_text mode)

  -- `Number` of a file's text, and the guard `Number.isFinite`
  abbrev pub finite_or_throw : Option ℕ → Text → Text → Io W ℕ
  finite_or_throw none path raw =
      throw (codes "could not parse " ++ (path ++ (codes ": got \"" ++ (raw ++ codes "\""))))
  finite_or_throw (some n) path raw = pure n

-- `writebackWaitIsSufficient`
abbrev pub writeback_wait_is_sufficient : ℕ → ℕ → ℕ → Bool
writeback_wait_is_sufficient dirty_expire dirty_writeback wait_ms =
    ltb ((dirty_expire + dirty_writeback) * 10) wait_ms

abbrev pub dirty_expire_path : Text
dirty_expire_path = codes "/proc/sys/vm/dirty_expire_centisecs"

abbrev pub dirty_writeback_path : Text
dirty_writeback_path = codes "/proc/sys/vm/dirty_writeback_centisecs"

module _ {W : Type 0} (lab : Lab W) where
  -- the last guard of `checkWritebackAssumption`
  abbrev pub clear_or_throw : Bool → Text → Text → Io W (Unit {0})
  clear_or_throw true raw_expire raw_writeback = pure tt
  clear_or_throw false raw_expire raw_writeback = throw (
      codes "WRITEBACK_WAIT_MS (45000) does not clear dirty_expire_centisecs ("
      ++ (raw_expire
          ++ (codes ") plus one dirty_writeback_centisecs wakeup ("
              ++ (raw_writeback ++ codes ") on this machine"))))

  -- `checkWritebackAssumption`
  unfoldable pub check_writeback_assumption : Io W (Unit {0})
  check_writeback_assumption = do
    raw_expire ← lab.read_text dirty_expire_path
    raw_writeback ← lab.read_text dirty_writeback_path
    dirty_expire ← finite_or_throw lab (lab.number raw_expire) dirty_expire_path raw_expire
    dirty_writeback ←
        finite_or_throw lab (lab.number raw_writeback) dirty_writeback_path raw_writeback
    clear_or_throw (writeback_wait_is_sufficient dirty_expire dirty_writeback writeback_wait_ms)
        raw_expire raw_writeback

  -- `main`, its exit code
  unfoldable pub experiment : Io W ℕ
  unfolding check_writeback_assumption run_experiment interpret_observation
  experiment = do
    check_writeback_assumption
    observed ← run_experiment lab DataMode.ordered
    control ← run_experiment lab DataMode.journal
    let ordered = interpret_observation DataMode.ordered observed base_len
    let journal = interpret_observation DataMode.journal control base_len
    pure (if ordered.reordering_observed && journal.no_reordering_confirmed then 0 else 1)
