-- ===== src/Campaign/Machine/Working.antt =====
-- A machine on which no call of core/src/image/image.ts fails, stage by stage, and that
-- `materializeState` and `withMount` return on it.
use crash_fuzz.Prelude.{ℕ, ◌≡◌, ◌++◌, true, List, All}
use crash_fuzz.Prelude.Io.{Io, Good-after, Good-cleaned, Returns}
use crash_fuzz.Prelude.Text.{Text, codes, trim}
use crash_fuzz.Trace.{Trace}
use crash_fuzz.Trace.Replay.{ReplayOptions, replay_selection}
use crash_fuzz.Trace.Replay.Returns.{FilesWork, EventWorks, replay_selection-Returns}
use crash_fuzz.Enumerate.States.{CrashState}
use crash_fuzz.Oracle.Recover.{ProcResult}
use crash_fuzz.Image.{
  Machine, losetup_command, detach_command, mount_command, chmod_command, umount_command,
  format_command, mount_root, run, create_image, in_mount, on_device, with_mount, materialize_state,
}
use crash_fuzz.Image.Holds.{exits_zero, run_lem}
use crash_fuzz.Image.Steps.{capture_lem}
use crash_fuzz.Campaign.Machine.{CampaignOptions, image_path_at, materialize_options}

-- What there is of the image of a state: nothing, an empty file, a filesystem, a loop device on it,
-- a mount of that.
pub data Stage : Type 0 where
  idle : Stage
  blank formatted : ℕ → Stage
  attached : ℕ → Text → Stage
  in_use : ℕ → Text → Text → Stage

module _ {W : Type 0} (machine : Machine W) (options : CampaignOptions W) (trace : Trace)
    (At : Stage → W → Type 0) where
  abbrev Runs : (W → Type 0) → (W → Type 0) → List Text → Type 0
  Runs P Q command =
      (s : W) → P s → (exits_zero machine command s ≡ true) × Q (machine.spawn command s).1

  abbrev pub replay_into : Text → ReplayOptions
  replay_into dir = record {
    cas_dir = options.cas_dir;
    root_dir = options.root_dir;
    target_dir = dir;
  }

  -- Each call succeeds at the stage that it needs: `losetup` where there is a filesystem in the
  -- file, `mount` on the device that it named, `umount` where nothing else uses the mount.
  pub record Works : Type 0 where
    pub make_dir :
        (index : ℕ)
        → Returns
            (At Stage.idle)
            (At Stage.idle)
            (machine.files.make_dir (machine.files.dirname (image_path_at machine options index)))
    pub write_empty :
        (index : ℕ)
        → Returns
            (At Stage.idle)
            (At (Stage.blank index))
            (machine.write_empty (image_path_at machine options index))
    pub truncate :
        (index size : ℕ)
        → Returns
            (At (Stage.blank index))
            (At (Stage.blank index))
            (machine.truncate (image_path_at machine options index) size)
    pub format :
        (index : ℕ)
        → let spec = (materialize_options machine options index).spec in
          Runs (At (Stage.blank index)) (At (Stage.formatted index)) (format_command spec)
    pub make_root :
        (index : ℕ)
        → Returns
            (At (Stage.formatted index))
            (At (Stage.formatted index))
            (machine.files.make_dir mount_root)
    pub make_temp_dir :
        (index : ℕ)
        → Returns
            (At (Stage.formatted index))
            (At (Stage.formatted index))
            (machine.make_temp_dir (mount_root ++ codes "/m-"))
    pub attach :
        (index : ℕ) (s : W)
        → let command = losetup_command (image_path_at machine options index) in
          At (Stage.formatted index) s
          → (exits_zero machine command s ≡ true)
            × At
                (Stage.attached index (trim (ProcResult.stdout (machine.spawn command s).0)))
                (machine.spawn command s).1
    pub mount :
        (index : ℕ) (d dir : Text)
        → Runs
            (At (Stage.attached index d))
            (At (Stage.in_use index d dir))
            (mount_command options.mount_options d dir)
    pub chmod :
        (index : ℕ) (d dir : Text)
        → Runs (At (Stage.in_use index d dir)) (At (Stage.in_use index d dir)) (chmod_command dir)
    pub umount :
        (index : ℕ) (d dir : Text)
        → Runs (At (Stage.in_use index d dir)) (At (Stage.attached index d)) (umount_command dir)
    pub detach :
        (index : ℕ) (d : Text)
        → Runs (At (Stage.attached index d)) (At (Stage.formatted index)) (detach_command d)
    pub remove_tree :
        (index : ℕ) (dir : Text)
        → Returns
            (At (Stage.formatted index))
            (At (Stage.formatted index))
            (machine.remove_tree dir)
    pub remove :
        (index : ℕ)
        → Returns
            (At (Stage.formatted index))
            (At Stage.idle)
            (machine.files.remove (image_path_at machine options index))
    -- An image that is evidence stays where it is.
    pub leave : (index : ℕ) (s : W) → At (Stage.formatted index) s → At Stage.idle s
    pub files :
        (index : ℕ) (d dir : Text)
        → FilesWork machine.files (replay_into dir) (At (Stage.in_use index d dir))
    pub events :
        (index : ℕ) (d dir : Text)
        → All
            (EventWorks machine.files (replay_into dir) (At (Stage.in_use index d dir)))
            trace.events
    pub recover :
        (index : ℕ) (d dir : Text)
        → Returns
            (At (Stage.in_use index d dir))
            (At (Stage.in_use index d dir))
            (options.recover dir)

  run-Returns :
      (P Q : W → Type 0) (command : List Text)
      → Runs P Q command
      → Returns P Q (run machine command)
  run-Returns P Q command runs s p = let (e, q) = runs s p in rw (run_lem machine command s, e) q

  module _ (works : Works) (index : ℕ) where
    create_image-Returns :
        Returns
          (At Stage.idle)
          (At (Stage.formatted index))
          (create_image machine (materialize_options machine options index).spec)
    unfolding create_image
    create_image-Returns s p =
        let spec = (materialize_options machine options index).spec in
        let blank = At (Stage.blank index) in
        let formatted = At (Stage.formatted index) in
        Good-after (At Stage.idle) formatted _ _ (works.make_dir index s p) (λ done s1 p1.
          Good-after blank formatted (machine.write_empty spec.image_path s1) _
            (works.write_empty index s1 p1)
            (λ done2 s2 p2.
              Good-after blank formatted (machine.truncate spec.image_path spec.size_bytes s2)
                (λ done3. run machine (format_command spec))
                (works.truncate index spec.size_bytes s2 p2)
                (λ done3. run-Returns blank formatted (format_command spec) (works.format index))))

    module _ {A : Type 0} (fn : Text → Io W A)
        (h : (d dir : Text)
          → Returns (At (Stage.in_use index d dir)) (At (Stage.in_use index d dir)) (fn dir)) where
      in_mount-Returns :
          (d dir : Text)
          → Returns
              (At (Stage.in_use index d dir))
              (At (Stage.attached index d))
              (in_mount machine dir fn)
      unfolding in_mount
      in_mount-Returns d dir s p =
          let used = At (Stage.in_use index d dir) in
          let body =
            Good-after used used (run machine (chmod_command dir) s) (λ done. fn dir)
              (run-Returns used used (chmod_command dir) (works.chmod index d dir) s p)
              (λ done. h d dir) in
          Good-cleaned used (At (Stage.attached index d)) _ (run machine (umount_command dir)) body
            (run-Returns used (At (Stage.attached index d)) (umount_command dir)
              (works.umount index d dir))

      on_device-Returns :
          (dir d : Text)
          → Returns
              (At (Stage.attached index d))
              (At (Stage.formatted index))
              (on_device machine dir d options.mount_options fn)
      unfolding on_device
      on_device-Returns dir d s p =
          let on = At (Stage.attached index d) in
          let formatted = At (Stage.formatted index) in
          let mount = mount_command options.mount_options d dir in
          let body =
            Good-after (At (Stage.in_use index d dir)) on (run machine mount s)
              (λ done. in_mount machine dir fn)
              (run-Returns on (At (Stage.in_use index d dir)) mount (works.mount index d dir) s p)
              (λ done. in_mount-Returns d dir) in
          Good-cleaned on formatted _ _ body (λ s' p'.
            Good-after formatted formatted (run machine (detach_command d) s')
              (λ done. machine.remove_tree dir)
              (run-Returns on formatted (detach_command d) (works.detach index d) s' p')
              (λ done. works.remove_tree index dir))

      pub with_mount-Returns :
          Returns
            (At (Stage.formatted index))
            (At (Stage.formatted index))
            (with_mount machine (image_path_at machine options index) options.mount_options fn)
      unfolding with_mount
      with_mount-Returns s p =
          let formatted = At (Stage.formatted index) in
          let command = losetup_command (image_path_at machine options index) in
          Good-after formatted formatted (machine.files.make_dir mount_root s) _
            (works.make_root index s p)
            (λ done s1 p1.
              Good-after formatted formatted (machine.make_temp_dir (mount_root ++ codes "/m-") s1)
                _ (works.make_temp_dir index s1 p1)
                (λ dir s2 p2.
                  let (e, q) = works.attach index s2 p2 in
                  rw (capture_lem machine command s2, e) (on_device-Returns dir _ _ q)))

    pub materialize_state-Returns :
        (state : CrashState)
        → Returns
            (At Stage.idle)
            (At (Stage.formatted index))
            (materialize_state machine trace state (materialize_options machine options index))
    unfolding materialize_state
    materialize_state-Returns state s p =
        let formatted = At (Stage.formatted index) in
        Good-after formatted formatted _ _ (create_image-Returns s p) (λ done.
          with_mount-Returns
            (λ dir.
              replay_selection machine.files (replay_into dir) trace
                (record { persisted = state.persisted; partial = state.partials }))
            (λ d dir.
              replay_selection-Returns machine.files (replay_into dir)
                (At (Stage.in_use index d dir)) (works.files index d dir) trace
                (record { persisted = state.persisted; partial = state.partials })
                (works.events index d dir)))
