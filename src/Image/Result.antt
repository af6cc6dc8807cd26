-- ===== src/Image/Result.antt =====
-- How `withMount` of core/src/image/image.ts ends.
use crash_fuzz.Prelude.{
  ◌≡◌, refl, ap, ◌∙◌, true, false, List, ◌∷◌, ◌++◌, Option, Bool-cases, inl, inr,
}
use crash_fuzz.Prelude.Io.{Io, Outcome, after, Ends-after, Ends}
use crash_fuzz.Prelude.Text.{Text, codes}
use crash_fuzz.Image.{Machine, losetup_command, failure, capture, on_device, with_mount, mount_root}
use crash_fuzz.Image.Holds.{Resource, directory, took_dir, Holds, exits_zero, busy}
use crash_fuzz.Image.Releases.{IsTidy, Gives, on_device-Ends}
use crash_fuzz.Image.Steps.{capture_lem, attached_zero, with_dir}

module _ {W : Type 0} (machine : Machine W) (held : W → List Resource) (h : Holds machine held)
    {A : Type 0} where
  from_capture :
      (dir image : Text) (options : Option Text) (fn : Text → Io W A) (s : W) (rest : List Resource)
      → IsTidy machine held h fn
      → held s ≡ directory dir ∷ rest
      → Ends (Gives machine held (busy rest)) (
          after
            (capture machine (losetup_command image) s)
            (λ d. on_device machine dir d options fn))
  from_capture dir image options fn s rest tidy top =
      let c = losetup_command image in
      elim (Bool-cases (exits_zero machine c s)) [
        | inl e ↦
            rw (capture_lem machine c s, e)
              (on_device-Ends machine held h dir _ options fn _ rest tidy
                (attached_zero machine held h image s (directory dir ∷ rest) true e top))
        | inr e ↦
            let left : held (machine.spawn c s).1 ≡ directory dir ∷ rest =
              attached_zero machine held h image s (directory dir ∷ rest) false e top in
            rw (capture_lem machine c s, e) (inl (ap busy left))
      ]

  -- Where the callback leaves what is held alone, a `withMount` that returns leaves exactly the
  -- loop devices and the mounted filesystems that were held before it. One that throws does too,
  -- whatever failed on the way, the callback included, but where the clean-up itself fails: then
  -- it ends in the state that a refused `umount` of its mount, or a refused `losetup --detach` of
  -- its device, leads to. The commands that succeed are taken to do what is documented of them.
  pub with_mount-busy :
      (image_path : Text) (options : Option Text) (fn : Text → Io W A) (s : W)
      → IsTidy machine held h fn
      → Ends (Gives machine held (busy (held s))) (with_mount machine image_path options fn s)
  unfolding with_mount
  with_mount-busy image_path options fn s tidy =
      let prefix' = mount_root ++ codes "/m-" in
      let Q = λ (o : Outcome A) (s' : W). Gives machine held (busy (held s)) o s' in
      Ends-after (λ o s1. held s1 ≡ held s) Q (machine.files.make_dir mount_root s) _
        ((h.files (held s)).make_dir mount_root s refl)
        (λ done s1 e1.
          Ends-after (λ o s2. held s2 ≡ took_dir o (held s)) Q (machine.make_temp_dir prefix' s1) _
            (h.make_temp_dir prefix' s1 ∙ ap (took_dir _) e1)
            (λ dir s2 e2. from_capture dir image_path options fn s2 (held s) tidy e2)
            (λ message s2 e2. inl (ap busy e2)))
        (λ message s1 e1. inl (ap busy e1))

  -- Where the mount point is made and `losetup` fails, the callback is not run: the error of
  -- `losetup` is thrown, and the directory of the mount point is left behind.
  pub with_mount-losetup :
      (image_path : Text) (options : Option Text) (fn : Text → Io W A) (s s1 s2 : W) (dir : Text)
      → machine.files.make_dir mount_root s ≡ (Outcome.returned tt, s1)
      → machine.make_temp_dir (mount_root ++ codes "/m-") s1 ≡ (Outcome.returned dir, s2)
      → let c = losetup_command image_path in
        exits_zero machine c s2 ≡ false
        → let end = with_mount machine image_path options fn s in
          (end.0 ≡ Outcome.thrown (failure machine c (machine.spawn c s2).0))
          × (held end.1 ≡ directory dir ∷ held s)
  unfolding with_mount
  with_mount-losetup image_path options fn s s1 s2 dir made temp e1 =
      let c = losetup_command image_path in
      let before2 = with_dir machine held h s s1 s2 dir made temp in
      let left : held (machine.spawn c s2).1 ≡ directory dir ∷ held s =
        attached_zero machine held h image_path s2 (directory dir ∷ held s) false e1 before2 in
      rw (made, temp, capture_lem machine c s2, e1) (refl, left)
