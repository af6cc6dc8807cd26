-- ===== src/Examples/Mounting.antt =====
-- The theorems on mounting an image, with a machine made up that keeps only what is held of it.
use crash_fuzz.Prelude.{
  ℕ, ◌≡◌, refl, ap, Bool, true, false, List, [], ◌∷◌, Option, none, some, if◌then◌else◌, ◌==◌, ◌++◌,
}
use crash_fuzz.Prelude.Io.{Io, Outcome, pure, throw, Ends}
use crash_fuzz.Prelude.Text.{Text, codes, text_eq, trim}
use crash_fuzz.Trace.Replay.{NodeFs}
use crash_fuzz.Trace.Replay.Keeps.{KeepsFiles}
use crash_fuzz.Campaign.Sweep.{Filesystem}
use crash_fuzz.Oracle.Recover.{ProcResult}
use crash_fuzz.Image.{
  ImageSpec, Machine, losetup_command, mount_command, format_command, failure, with_mount,
  mount_root, umount_command,
}
use crash_fuzz.Image.Holds.{Resource, mounted, device, directory, took, Holds, exits_zero, busy}
use crash_fuzz.Image.Result.{with_mount-busy, with_mount-losetup}
use crash_fuzz.Image.Releases.{Gives}

abbrev pub quiet_fs : NodeFs (List Resource)
quiet_fs = record {
  make_dir = λ path. pure tt;
  touch = λ path. pure tt;
  open_update = λ path. throw (codes "ENOENT");
  open_create = λ path. pure tt;
  write_at = λ path payload offset. pure tt;
  read = λ path. pure [];
  truncate = λ path size. pure tt;
  rename = λ path path2. pure tt;
  link = λ path path2. throw (codes "EEXIST");
  remove = λ path. pure tt;
  dirname = λ path. path;
  join = λ a b. a ++ b;
  relative = λ a b. b;
}

abbrev pub exits : Bool → Text → ProcResult
exits true out = record { exit_code = some 0; stdout = out; stderr = [] }
exits false out = record { exit_code = some 1; stdout = []; stderr = out }

abbrev pub without_top : List Resource → List Resource
without_top [] = []
without_top (r ∷ rs) = rs

abbrev pub last_of : Text → List Text → Text
last_of t [] = t
last_of t (u ∷ us) = last_of u us

-- `loops` says whether there is a free loop device, `idle` whether `umount` finds the target idle.
abbrev pub obey : Bool → Text → List Text → List Resource → ProcResult × List Resource
obey idle c args s =
    if c == codes "mount"
    then (exits true [], mounted (last_of [] args) ∷ s)
    else (if c == codes "umount"
        then (exits idle (codes "target is busy"), (if idle then without_top s else s))
        else (exits true [], s))

abbrev pub spawned : Bool → Bool → List Text → List Resource → ProcResult × List Resource
spawned loops idle [] s = (exits true [], s)
spawned loops idle (sudo ∷ []) s = (exits true [], s)
spawned loops idle (sudo ∷ c ∷ []) s = (exits true [], s)
spawned loops idle (sudo ∷ c ∷ flag ∷ args) s =
    if c == codes "losetup"
    then (if flag == codes "--detach"
        then (exits true [], without_top s)
        else (exits loops (codes "/dev/loop0"), took loops (device (codes "/dev/loop0")) s))
    else obey idle c (flag ∷ args) s

abbrev pub machine_of : Bool → Bool → Machine (List Resource)
machine_of loops idle = record {
  spawn = spawned loops idle;
  make_temp_dir = λ prefix' s.
      (Outcome.returned (prefix' ++ codes "x1"), directory (prefix' ++ codes "x1") ∷ s);
  write_empty = λ path. pure tt;
  truncate = λ path size. pure tt;
  remove_tree = λ dir s. (Outcome.returned tt, without_top s);
  files = quiet_fs;
  show = λ code. codes "1";
}

-- No target is busy.
abbrev pub machine : Bool → Machine (List Resource)
machine loops = machine_of loops true

abbrev pub all_held : List Resource → List Resource
all_held s = s

quiet_fs-KeepsFiles : (rs : List Resource) → KeepsFiles quiet_fs (λ s. all_held s ≡ rs)
quiet_fs-KeepsFiles rs = record {
  make_dir = λ path s p. p;
  touch = λ path s p. p;
  open_update = λ path s p. p;
  open_create = λ path s p. p;
  write_at = λ path payload offset s p. p;
  read = λ path s p. p;
  truncate = λ path size s p. p;
  rename = λ path path2 s p. p;
  link = λ path path2 s p. p;
  remove = λ path s p. p;
}

attach_lem :
    (loops idle : Bool) (image : Text) (s : List Resource)
    → let c = losetup_command image in
      (spawned loops idle c s).1
      ≡ took
          (exits_zero (machine_of loops idle) c s)
          (device (trim (ProcResult.stdout (spawned loops idle c s).0)))
          s
unfolding trim
attach_lem true idle image s = refl
attach_lem false idle image s = refl

mount_lem :
    (loops idle : Bool) (options : Option Text) (d dir : Text) (s : List Resource)
    → (spawned loops idle (mount_command options d dir) s).1
      ≡ took (exits_zero (machine_of loops idle) (mount_command options d dir) s) (mounted dir) s
mount_lem loops idle none d dir s = refl
mount_lem loops idle (some options) d dir s = refl

format_lem :
    (loops idle : Bool) (spec : ImageSpec) (s : List Resource)
    → (spawned loops idle (format_command spec) s).1 ≡ s
format_lem loops idle spec s = go spec.filesystem
  where
    go :
        (f : Filesystem)
        → (spawned loops idle
            (elim f as (λ x. List Text) [
              | Filesystem.ext4 ↦
                  codes "/usr/sbin/mkfs.ext4" ∷ codes "-q" ∷ codes "-F" ∷ spec.image_path ∷ []
              | Filesystem.xfs_fs ↦
                  codes "/usr/sbin/mkfs.xfs" ∷ codes "-q" ∷ codes "-f" ∷ spec.image_path ∷ []
              | Filesystem.btrfs_fs ↦
                  codes "/usr/sbin/mkfs.btrfs" ∷ codes "-q" ∷ codes "-f" ∷ spec.image_path ∷ []
            ])
            s).1
          ≡ s
    go Filesystem.ext4 = refl
    go Filesystem.xfs_fs = refl
    go Filesystem.btrfs_fs = refl

umount_lem :
    (loops idle : Bool) (dir : Text) (s rest : List Resource)
    → s ≡ mounted dir ∷ rest
    → exits_zero (machine_of loops idle) (umount_command dir) s ≡ true
    → (spawned loops idle (umount_command dir) s).1 ≡ rest
umount_lem loops true dir s rest e zero = ap without_top e
umount_lem loops false dir s rest e zero = absurd (cc (zero))

pub machine-Holds : (loops idle : Bool) → Holds (machine_of loops idle) all_held
machine-Holds loops idle = record {
  files = quiet_fs-KeepsFiles;
  write_empty = λ path s. refl;
  truncate = λ path size s. refl;
  format = format_lem loops idle;
  make_temp_dir = λ prefix' s. refl;
  remove_tree = λ dir s rest e. ap without_top e;
  attach = attach_lem loops idle;
  detach = λ d s rest e zero. ap without_top e;
  mount = mount_lem loops idle;
  umount = umount_lem loops idle;
  chmod = λ dir s. refl;
}

abbrev pub other_mount : List Resource
other_mount = mounted (codes "/mnt") ∷ []

abbrev image : Text
image = codes "state-0.img"

abbrev throwing : Text → Io (List Resource) ℕ
throwing dir = throw (codes "recovery crashed")

-- The callback throws, and `umount` finds the target busy.
with_mount-busy_example :
    let m = machine_of true false in
    Ends
      (Gives m all_held (busy other_mount))
      (with_mount m image (some (codes "data=ordered")) throwing other_mount)
with_mount-busy_example =
    with_mount-busy (machine_of true false) all_held (machine-Holds true false) image
      (some (codes "data=ordered")) throwing other_mount (λ dir s. refl)

-- With no free loop device the mount point is left behind.
mount_point_left :
    let end = with_mount (machine false) image none throwing other_mount in
    (end.0
      ≡ Outcome.thrown
          (failure (machine false) (losetup_command image) (exits false (codes "/dev/loop0"))))
    × (end.1 ≡ directory (mount_root ++ codes "/m-x1") ∷ other_mount)
mount_point_left =
    with_mount-losetup (machine false) all_held (machine-Holds false true) image none throwing
      other_mount other_mount (directory (mount_root ++ codes "/m-x1") ∷ other_mount)
      (mount_root ++ codes "/m-x1") refl refl refl
