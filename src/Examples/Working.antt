-- ===== src/Examples/Working.antt =====
-- A machine made up that keeps one image: a command fails where the image is not at its stage.
use crash_fuzz.Prelude.{ℕ, ◌≡◌, true, false, List, [], ◌∷◌, ◌++◌, none, some, if◌then◌else◌, ◌==◌}
use crash_fuzz.Prelude.Io.{Io, Outcome, pure, throw, Returns}
use crash_fuzz.Prelude.Text.{Text, codes, text_eq}
use crash_fuzz.Trace.Replay.{NodeFs}
use crash_fuzz.Graph.{ext4_ordered}
use crash_fuzz.Oracle.Verdict.{RecoveryResult}
use crash_fuzz.Oracle.Recover.{ProcResult}
use crash_fuzz.Campaign.Sweep.{Filesystem}
use crash_fuzz.Campaign.Machine.{CampaignOptions, image_path_at}
use crash_fuzz.Campaign.Machine.Working.{Stage}
use crash_fuzz.Image.{Machine}
use crash_fuzz.Examples.Mounting.{exits, last_of}

data Disk : Type 0 where
  nothing : Disk
  empty_file filesystem looped : Text → Disk
  mounted_on : Text → Text → Disk

abbrev removed : Disk → Disk
removed (Disk.filesystem image) = Disk.nothing
removed s = s

abbrev disk_fs : NodeFs Disk
disk_fs = record {
  make_dir = λ path. pure tt;
  touch = λ path. pure tt;
  open_update = λ path. throw (codes "ENOENT");
  open_create = λ path. pure tt;
  write_at = λ path payload offset. pure tt;
  read = λ path. pure [];
  truncate = λ path size. pure tt;
  rename = λ path path2. pure tt;
  link = λ path path2. throw (codes "EEXIST");
  remove = λ path s. (Outcome.returned tt, removed s);
  dirname = λ path. path;
  join = λ a b. a ++ b;
  relative = λ a b. b;
}

abbrev refused_at : Disk → ProcResult × Disk
refused_at s = (exits false [], s)

abbrev with_image : Text → Disk → ProcResult × Disk
with_image path (Disk.filesystem image) =
    if image == path
    then (exits true (codes "/dev/loop0"), Disk.looped image)
    else refused_at (Disk.filesystem image)
with_image path s = refused_at s

abbrev formatted_at : Disk → ProcResult × Disk
formatted_at (Disk.empty_file image) = (exits true [], Disk.filesystem image)
formatted_at s = refused_at s

abbrev mounted_at : Text → Disk → ProcResult × Disk
mounted_at dir (Disk.looped image) = (exits true [], Disk.mounted_on image dir)
mounted_at dir s = refused_at s

abbrev unmounted_at : Disk → ProcResult × Disk
unmounted_at (Disk.mounted_on image dir) = (exits true [], Disk.looped image)
unmounted_at s = refused_at s

abbrev detached_at : Disk → ProcResult × Disk
detached_at (Disk.looped image) = (exits true [], Disk.filesystem image)
detached_at s = refused_at s

abbrev as_root : Text → Text → List Text → Disk → ProcResult × Disk
as_root c flag args s =
    if c == codes "losetup"
    then (if flag == codes "--detach" then detached_at s else with_image (last_of flag args) s)
    else (if c == codes "mount"
        then mounted_at (last_of flag args) s
        else (if c == codes "umount" then unmounted_at s else (exits true [], s)))

abbrev obeyed : List Text → Disk → ProcResult × Disk
obeyed (tool ∷ c ∷ flag ∷ args) s =
    if tool == codes "sudo" then as_root c flag args s else formatted_at s
obeyed _ s = refused_at s

abbrev emptied : Text → Io Disk (Unit {0})
emptied path Disk.nothing = (Outcome.returned tt, Disk.empty_file path)
emptied path (Disk.filesystem image) = (Outcome.returned tt, Disk.empty_file path)
emptied path s = (Outcome.thrown (codes "EBUSY"), s)

abbrev disk_machine : Machine Disk
disk_machine = record {
  spawn = obeyed;
  make_temp_dir = λ prefix'. pure (prefix' ++ codes "x1");
  write_empty = emptied;
  truncate = λ path size. pure tt;
  remove_tree = λ dir. pure tt;
  files = disk_fs;
  show = λ code. elim code [ none ↦ [] | some n ↦ n ∷ [] ];
}

abbrev refused : RecoveryResult
refused = RecoveryResult.failed (codes "not a database")

abbrev disk_options : CampaignOptions Disk
disk_options = record {
  cas_dir = codes "cas";
  root_dir = codes "/db";
  image_dir = codes "images";
  model = ext4_ordered;
  filesystem = Filesystem.ext4;
  mount_options = some (codes "data=ordered");
  seed = 7;
  recover = λ dir. pure refused;
}

abbrev path_at : ℕ → Text
path_at = image_path_at disk_machine disk_options

abbrev IsUnloaded : Disk → Type 0
IsUnloaded Disk.nothing = Unit
IsUnloaded (Disk.filesystem image) = Unit
IsUnloaded _ = ⊥

abbrev At : Stage → Disk → Type 0
At Stage.idle s = IsUnloaded s
At (Stage.blank i) s = s ≡ Disk.empty_file (path_at i)
At (Stage.formatted i) s = s ≡ Disk.filesystem (path_at i)
At (Stage.attached i d) s = s ≡ Disk.looped (path_at i)
At (Stage.in_use i d dir) s = s ≡ Disk.mounted_on (path_at i) dir

abbrev answer_of : Outcome RecoveryResult → RecoveryResult
answer_of (Outcome.returned r) = r
answer_of (Outcome.thrown message) = refused
