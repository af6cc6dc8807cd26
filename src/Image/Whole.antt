-- ===== src/Image/Whole.antt =====
-- `materializeState` of core/src/image/image.ts as a whole.
use crash_fuzz.Prelude.{◌≡◌, refl, ap, ◌∙◌, List, inl, sym}
use crash_fuzz.Prelude.Io.{Outcome, Ends, Ends-after}
use crash_fuzz.Trace.{Trace}
use crash_fuzz.Trace.Replay.Keeps.{Keeps, Keeps-after, replay_selection-Keeps}
use crash_fuzz.Enumerate.States.{CrashState}
use crash_fuzz.Image.{
  ImageSpec, MaterializeOptions, Machine, format_command, run, create_image, materialize_state,
}
use crash_fuzz.Image.Holds.{Resource, Holds, run_lem, busy}
use crash_fuzz.Image.Result.{with_mount-busy}
use crash_fuzz.Image.Releases.{Gives}

module _ {W : Type 0} (machine : Machine W) (held : W → List Resource)
    (h : Holds machine held) where
  create_image-Keeps :
      (spec : ImageSpec) (rs : List Resource) → Keeps (λ s. held s ≡ rs) (create_image machine spec)
  unfolding create_image
  create_image-Keeps spec rs s e =
      let P = λ (s : W). held s ≡ rs in
      let dir = machine.files.dirname spec.image_path in
      Keeps-after P (machine.files.make_dir dir s) _ ((h.files rs).make_dir dir s e) (λ done s1 e1.
        Keeps-after P (machine.write_empty spec.image_path s1) _
          (h.write_empty spec.image_path s1 ∙ e1)
          (λ done2 s2 e2.
            Keeps-after P (machine.truncate spec.image_path spec.size_bytes s2)
              (λ done3. run machine (format_command spec))
              (h.truncate spec.image_path spec.size_bytes s2 ∙ e2)
              (λ done3 s3 e3.
                ap (λ (x : Outcome (Unit {0}) × W). held x.1)
                  (run_lem machine (format_command spec) s3)
                ∙ h.format spec s3
                ∙ e3)))

  create_image-Ends :
      (spec : ImageSpec) (rs : List Resource) (s : W)
      → held s ≡ rs
      → Ends (λ o s'. held s' ≡ rs) (create_image machine spec s)
  create_image-Ends spec rs s e = create_image-Keeps spec rs s e

  -- Materializing a crash state gives back what it takes as `withMount` does, whatever the replay
  -- of the state does.
  pub materialize_state-busy :
      (trace : Trace) (state : CrashState) (options : MaterializeOptions) (s : W)
      → Ends (Gives machine held (busy (held s))) (materialize_state machine trace state options s)
  unfolding materialize_state
  materialize_state-busy trace state options s =
      let same = λ (o : Outcome (Unit {0})) (s' : W). held s' ≡ held s in
      let Q = λ (o : Outcome (Unit {0})) (s' : W). Gives machine held (busy (held s)) o s' in
      Ends-after same Q (create_image machine options.spec s) _
        (create_image-Ends options.spec (held s) s refl)
        (λ done s1 e1.
          let mounts =
            with_mount-busy machine held h options.spec.image_path options.mount_options _ s1
              (λ dir s2.
                replay_selection-Keeps machine.files
                  (record {
                    cas_dir = options.cas_dir;
                    root_dir = options.root_dir;
                    target_dir = dir;
                  })
                  (λ s'. held s' ≡ held s2) (h.files (held s2)) trace
                  (record { persisted = state.persisted; partial = state.partials }) s2 refl) in
          rw (sym (ap busy e1)) mounts)
        (λ message s1 e1. inl (ap busy e1))
