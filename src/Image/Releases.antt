-- ===== src/Image/Releases.antt =====
-- What `withMount` of core/src/image/image.ts holds and gives back.
use crash_fuzz.Prelude.{◌≡◌, refl, ap, ◌∙◌, false, List, ◌∷◌, Option, Bool-cases, inl, inr, ◌⊎◌}
use crash_fuzz.Prelude.Io.{Io, Outcome, after, ◌>>◌, Ends, Ends-cleaned, merged}
use crash_fuzz.Prelude.Text.{Text}
use crash_fuzz.Image.{
  Machine, detach_command, mount_command, chmod_command, umount_command, run, in_mount, on_device,
}
use crash_fuzz.Image.Holds.{
  Resource, mounted, device, directory, Holds, exits_zero, run_lem, busy, left_dir,
}

module _ {W : Type 0} (machine : Machine W) (held : W → List Resource) where
  -- The end of the outer `try`: what was taken for the mount is given back.
  abbrev pub give_back : Text → Text → Io W (Unit {0})
  give_back dir d = do run machine (detach_command d); machine.remove_tree dir

  -- `s'` is the state that a failed clean-up leads to, which `rs` was busy before: `losetup
  -- --detach` fails and nothing follows, or `umount` fails and the device and the mount point are
  -- given back all the same, as far as that goes.
  abbrev pub IsLeak : List Resource → W → Type 0
  IsLeak rs s' =
      (dir : Text) × (d : Text) × (w : W) × (((busy (held w) ≡ device d ∷ rs)
          × (exits_zero machine (detach_command d) w ≡ false)
          × (s' ≡ (machine.spawn (detach_command d) w).1))
        ⊎ ((busy (held w) ≡ mounted dir ∷ device d ∷ rs)
            × (exits_zero machine (umount_command dir) w ≡ false)
            × (s' ≡ (give_back dir d (machine.spawn (umount_command dir) w).1).1)))

  -- A value comes with `rs` busy; an error does too, or it comes from a failed clean-up.
  abbrev pub Gives : {A : Type 0} → List Resource → Outcome A → W → Type 0
  Gives rs (Outcome.returned a) s = busy (held s) ≡ rs
  Gives rs (Outcome.thrown message) s = (busy (held s) ≡ rs) ⊎ IsLeak rs s

  pub Gives-same :
      {A : Type 0} (rs : List Resource) (o : Outcome A) (s : W) → busy (held s) ≡ rs → Gives rs o s
  Gives-same {A} rs (Outcome.returned a) s e = e
  Gives-same {A} rs (Outcome.thrown message) s e = inl e

  abbrev IsStuck : Text → List Resource → W → Type 0
  IsStuck dir rest s' =
      (w : W) × (held w ≡ mounted dir ∷ rest)
      × (exits_zero machine (umount_command dir) w ≡ false)
      × (s' ≡ (machine.spawn (umount_command dir) w).1)

  -- After the inner `try`.
  abbrev Unmounted : {A : Type 0} → Text → List Resource → Outcome A → W → Type 0
  Unmounted dir rest (Outcome.returned a) s = held s ≡ rest
  Unmounted dir rest (Outcome.thrown message) s = (held s ≡ rest) ⊎ IsStuck dir rest s

  Unmounted-same :
      {A : Type 0} (dir : Text) (rest : List Resource) (o : Outcome A) (s : W)
      → held s ≡ rest
      → Unmounted dir rest o s
  Unmounted-same {A} dir rest (Outcome.returned a) s e = e
  Unmounted-same {A} dir rest (Outcome.thrown message) s e = inl e

  leak-Ends :
      (A : Type 0) (message : Text) (rs : List Resource) (r : Outcome (Unit {0}) × W)
      → IsLeak rs r.1
      → Ends (λ c. Gives rs (merged {A = A} (Outcome.thrown message) c)) r
  leak-Ends A message rs (Outcome.returned done, s) leak = inr leak
  leak-Ends A message rs (Outcome.thrown message', s) leak = inr leak

  module _ (h : Holds machine held) {A : Type 0} where
    -- A callback that gives back what it takes.
    abbrev pub IsTidy : (Text → Io W A) → Type 0
    IsTidy fn = (dir : Text) (s : W) → held (fn dir s).1 ≡ held s

    in_mount-Ends :
        (dir : Text) (fn : Text → Io W A) (s : W) (rest : List Resource)
        → IsTidy fn
        → held s ≡ mounted dir ∷ rest
        → Ends (Unmounted dir rest) (in_mount machine dir fn s)
    unfolding in_mount
    in_mount-Ends dir fn s rest tidy top =
        let s1 = (machine.spawn (chmod_command dir) s).1 in
        let still : held s1 ≡ mounted dir ∷ rest = h.chmod dir s ∙ top in
        let at = λ (o : Outcome A) (s' : W). held s' ≡ mounted dir ∷ rest in
        let body : Ends at (after (run machine (chmod_command dir) s) (λ done. fn dir)) =
          elim (Bool-cases (exits_zero machine (chmod_command dir) s)) [
            | inl e ↦ rw (run_lem machine (chmod_command dir) s, e) (tidy dir s1 ∙ still)
            | inr e ↦ rw (run_lem machine (chmod_command dir) s, e) still
          ] in
        Ends-cleaned at (Unmounted dir rest) _ (run machine (umount_command dir)) body (λ o s' p.
          elim (Bool-cases (exits_zero machine (umount_command dir) s')) [
            | inl e ↦
                rw (run_lem machine (umount_command dir) s', e)
                  (Unmounted-same dir rest o (machine.spawn (umount_command dir) s').1
                    (h.umount dir s' rest p e))
            | inr e ↦ rw (run_lem machine (umount_command dir) s', e) (inr (s', p, e, refl))
          ])

    removed-Ends :
        (o : Outcome A) (dir : Text) (rest : List Resource) (r : Outcome (Unit {0}) × W)
        → held r.1 ≡ left_dir dir r.0 rest
        → Ends (λ c. Gives (busy rest) (merged o c)) r
    removed-Ends o dir rest (Outcome.returned done, s) e = Gives-same (busy rest) o s (ap busy e)
    removed-Ends o dir rest (Outcome.thrown message, s) e = inl (ap busy e)

    give_back-Ends :
        (o : Outcome A) (dir d : Text) (s : W) (rest : List Resource)
        → held s ≡ device d ∷ directory dir ∷ rest
        → Ends (λ c. Gives (busy rest) (merged o c)) (give_back dir d s)
    give_back-Ends o dir d s rest top =
        let s1 = (machine.spawn (detach_command d) s).1 in
        elim (Bool-cases (exits_zero machine (detach_command d) s)) [
          | inl e ↦
              rw (run_lem machine (detach_command d) s, e)
                (removed-Ends o dir rest (machine.remove_tree dir s1)
                  (h.remove_tree dir s1 rest (h.detach d s (directory dir ∷ rest) top e)))
          | inr e ↦
              rw (run_lem machine (detach_command d) s, e)
                (inr (dir, d, s, inl (ap busy top, e, refl)))
        ]

    gave_back :
        (dir d : Text) (rest : List Resource) (o : Outcome A) (s : W)
        → Unmounted dir (device d ∷ directory dir ∷ rest) o s
        → Ends (λ c. Gives (busy rest) (merged o c)) (give_back dir d s)
    gave_back dir d rest (Outcome.returned a) s p =
        give_back-Ends (Outcome.returned a) dir d s rest p
    gave_back dir d rest (Outcome.thrown message) s (inl p) =
        give_back-Ends (Outcome.thrown message) dir d s rest p
    gave_back dir d rest (Outcome.thrown message) s (inr (w, p, e, q)) =
        leak-Ends A message (busy rest) (give_back dir d s)
          (dir, d, w, inr (ap busy p, e, ap (λ (x : W). (give_back dir d x).1) q))

    pub on_device-Ends :
        (dir d : Text) (options : Option Text) (fn : Text → Io W A) (s : W) (rest : List Resource)
        → IsTidy fn
        → held s ≡ device d ∷ directory dir ∷ rest
        → Ends (Gives (busy rest)) (on_device machine dir d options fn s)
    unfolding on_device
    on_device-Ends dir d options fn s rest tidy top =
        let mount = mount_command options d dir in
        let all = device d ∷ directory dir ∷ rest in
        let s1 = (machine.spawn mount s).1 in
        let body : Ends (Unmounted dir all)
            (after (run machine mount s) (λ done. in_mount machine dir fn)) =
          elim (Bool-cases (exits_zero machine mount s)) [
            | inl e ↦
                rw (run_lem machine mount s, e)
                  (in_mount-Ends dir fn s1 all tidy
                    (h.mount options d dir s ∙ rw e (ap (◌∷◌ (mounted dir)) top)))
            | inr e ↦ rw (run_lem machine mount s, e) (inl (h.mount options d dir s ∙ rw e top))
          ] in
        Ends-cleaned (Unmounted dir all) (Gives (busy rest)) _ (give_back dir d) body
          (gave_back dir d rest)
