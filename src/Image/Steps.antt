-- ===== src/Image/Steps.antt =====
-- The steps of `withMount` of core/src/image/image.ts before the device is mounted.
use crash_fuzz.Prelude.{
  ◌≡◌, refl, sym, ap, ◌∙◌, Bool, true, false, List, ◌∷◌, ◌++◌, Bool-cases, inl, inr, ap₂,
}
use crash_fuzz.Prelude.Io.{Outcome}
use crash_fuzz.Prelude.Text.{Text, trim, codes}
use crash_fuzz.Oracle.Recover.{ProcResult}
use crash_fuzz.Image.{Machine, losetup_command, failure, checked, capture, mount_root}
use crash_fuzz.Image.Holds.{Resource, device, directory, took, took_dir, Holds, exits_zero}

abbrev captured : Bool → Text → Text → Outcome Text
captured true stdout message = Outcome.returned stdout
captured false stdout message = Outcome.thrown message

module _ {W : Type 0} (machine : Machine W) where
  pub capture_lem :
      (command : List Text) (s : W)
      → let r = machine.spawn command s in
        capture machine command s ≡ (
          captured (exits_zero machine command s) (trim r.0.stdout) (failure machine command r.0),
          r.1,
        )
  unfolding capture checked
  capture_lem command s = elim (Bool-cases (exits_zero machine command s)) [
    | inl e ↦ rw e refl
    | inr e ↦ rw e refl
  ]

  module _ (held : W → List Resource) (h : Holds machine held) where
    attached :
        (image_path : Text) (s : W) (rs : List Resource)
        → let c = losetup_command image_path in
          held s ≡ rs
          → held (machine.spawn c s).1
            ≡ took
                (exits_zero machine c s)
                (device (trim (ProcResult.stdout (machine.spawn c s).0)))
                rs
    attached image_path s rs top =
        let c = losetup_command image_path in
        h.attach image_path s
        ∙ ap
            (took (exits_zero machine c s)
              (device (trim (ProcResult.stdout (machine.spawn c s).0))))
            top

    pub attached_zero :
        (image_path : Text) (s : W) (rs : List Resource) (b : Bool)
        → let c = losetup_command image_path in
          exits_zero machine c s ≡ b
          → held s ≡ rs
          → held (machine.spawn c s).1
            ≡ took b (device (trim (ProcResult.stdout (machine.spawn c s).0))) rs
    attached_zero image_path s rs b e top = rw (sym e) (attached image_path s rs top)

    -- The state once the directory of the mount point is made.
    pub with_dir :
        (s s1 s2 : W) (dir : Text)
        → machine.files.make_dir mount_root s ≡ (Outcome.returned tt, s1)
        → machine.make_temp_dir (mount_root ++ codes "/m-") s1 ≡ (Outcome.returned dir, s2)
        → held s2 ≡ directory dir ∷ held s
    with_dir s s1 s2 dir made temp =
        let before1 : held s1 ≡ held s =
          sym (ap (λ (x : Outcome (Unit {0}) × W). held x.1) made)
          ∙ (h.files (held s)).make_dir mount_root s refl in
        sym (ap (λ (x : Outcome Text × W). held x.1) temp)
        ∙ h.make_temp_dir (mount_root ++ codes "/m-") s1
        ∙ ap₂ took_dir (ap (λ (x : Outcome Text × W). x.0) temp) before1
