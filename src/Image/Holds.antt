-- ===== src/Image/Holds.antt =====
-- The resources of the machine that core/src/image/image.ts takes, and what its commands do to them.
use crash_fuzz.Prelude.{
  ℕ, ◌≡◌, refl, Bool, true, false, List, ◌∷◌, Option, Bool-cases, inl, inr, [],
}
use crash_fuzz.Prelude.Io.{Outcome}
use crash_fuzz.Prelude.Text.{Text}
use crash_fuzz.Trace.Replay.Keeps.{KeepsFiles}
use crash_fuzz.Oracle.Recover.{ProcResult, exited_zero}
use crash_fuzz.Image.{
  ImageSpec, Machine, losetup_command, detach_command, mount_command, chmod_command, umount_command,
  format_command, failure, checked, run,
}
use crash_fuzz.Prelude.Text.{trim}

-- What is held of the machine, the latest first: a directory made for a mount, a loop device, a
-- mounted filesystem.
pub data Resource : Type 0 where
  directory device mounted : Text → Resource

abbrev pub took : Bool → Resource → List Resource → List Resource
took true r rs = r ∷ rs
took false r rs = rs

abbrev pub took_dir : Outcome Text → List Resource → List Resource
took_dir (Outcome.returned dir) rs = directory dir ∷ rs
took_dir (Outcome.thrown message) rs = rs

-- A directory whose removal throws is still there.
abbrev pub left_dir : Text → Outcome (Unit {0}) → List Resource → List Resource
left_dir dir (Outcome.returned done) rs = rs
left_dir dir (Outcome.thrown message) rs = directory dir ∷ rs

-- The loop devices and the mounted filesystems of what is held.
abbrev pub busy : List Resource → List Resource
busy [] = []
busy (Resource.directory d ∷ rs) = busy rs
busy (Resource.device d ∷ rs) = Resource.device d ∷ busy rs
busy (Resource.mounted d ∷ rs) = Resource.mounted d ∷ busy rs

module _ {W : Type 0} (machine : Machine W) where
  abbrev pub exits_zero : List Text → W → Bool
  exits_zero command s = exited_zero (ProcResult.exit_code (machine.spawn command s).0)

  -- What the documented commands do to what is held: `losetup`, `mount` and `mkdtempSync` that
  -- succeed add to it, and their counterparts take off what is on top where they succeed. That they
  -- succeed is not asked: `umount` is refused where the target is busy.
  pub record Holds (held : W → List Resource) : Type 0 where
    -- The calls of node:fs leave it alone.
    pub files : (rs : List Resource) → KeepsFiles machine.files (λ s. held s ≡ rs)
    pub write_empty : (path : Text) (s : W) → held (machine.write_empty path s).1 ≡ held s
    pub truncate : (path : Text) (size : ℕ) (s : W) → held (machine.truncate path size s).1 ≡ held s
    pub format :
        (spec : ImageSpec) (s : W) → held (machine.spawn (format_command spec) s).1 ≡ held s
    pub make_temp_dir :
        (prefix' : Text) (s : W)
        → held (machine.make_temp_dir prefix' s).1
          ≡ took_dir (machine.make_temp_dir prefix' s).0 (held s)
    pub remove_tree :
        (dir : Text) (s : W) (rest : List Resource)
        → held s ≡ directory dir ∷ rest
        → held (machine.remove_tree dir s).1 ≡ left_dir dir (machine.remove_tree dir s).0 rest
    pub attach :
        (image : Text) (s : W)
        → let c = losetup_command image in
          held (machine.spawn c s).1
          ≡ took (exits_zero c s) (device (trim (ProcResult.stdout (machine.spawn c s).0))) (held s)
    pub detach :
        (d : Text) (s : W) (rest : List Resource)
        → held s ≡ device d ∷ rest
        → exits_zero (detach_command d) s ≡ true
        → held (machine.spawn (detach_command d) s).1 ≡ rest
    pub mount :
        (options : Option Text) (d dir : Text) (s : W)
        → let c = mount_command options d dir in
          held (machine.spawn c s).1 ≡ took (exits_zero c s) (mounted dir) (held s)
    pub umount :
        (dir : Text) (s : W) (rest : List Resource)
        → held s ≡ mounted dir ∷ rest
        → exits_zero (umount_command dir) s ≡ true
        → held (machine.spawn (umount_command dir) s).1 ≡ rest
    pub chmod : (dir : Text) (s : W) → held (machine.spawn (chmod_command dir) s).1 ≡ held s

  abbrev pub run_outcome : Bool → Text → Outcome (Unit {0})
  run_outcome true message = Outcome.returned tt
  run_outcome false message = Outcome.thrown message

  pub run_lem :
      (command : List Text) (s : W)
      → let r = machine.spawn command s in
        run machine command s
        ≡ (run_outcome (exits_zero command s) (failure machine command r.0), r.1)
  unfolding run checked
  run_lem command s = elim (Bool-cases (exits_zero command s)) [
    | inl e ↦ rw e refl
    | inr e ↦ rw e refl
  ]
