-- ===== src/Trace/Replay/Returns.antt =====
-- `replaySelection` of core/src/trace/replay.ts returns where the calls of node:fs that it makes do.
use crash_fuzz.Prelude.{
  ℕ, ◌≡◌, refl, List, [], ◌∷◌, All, Option, Bool-cases, inl, inr, ◌||◌, includes, nat_eq, entries,
  suc, true,
}
use crash_fuzz.Prelude.Io.{Io, Outcome, recovered, ◌>>◌, Ends, Good, Good-after, Returns}
use crash_fuzz.Prelude.Int.{ℤ}
use crash_fuzz.Prelude.Text.{Text}
use crash_fuzz.Prelude.Dict.{Dict, get}
use crash_fuzz.Enumerate.States.{is_write}
use crash_fuzz.Trace.{CallName, TraceEvent, Trace}
use crash_fuzz.Trace.Replay.{
  NodeFs, ReplayOptions, Selection, apply_write, apply_call, apply_selected, selection_loop,
  replay_selection, ensure_file, has, torn_bytes, rebase,
}

module _ {F : Type 0} (fs : NodeFs F) (options : ReplayOptions) (P : F → Type 0) where
  -- What node:fs does below the target: directories and files are made, written, resized and
  -- removed, and the opening of a file for update, which may throw, leaves `P` alone.
  pub record FilesWork : Type 0 where
    pub make_dir : (path : Text) → Returns P P (fs.make_dir path)
    pub touch : (path : Text) → Returns P P (fs.touch path)
    pub open_update : (path : Text) (s : F) → P s → P (fs.open_update path s).1
    pub open_create : (path : Text) → Returns P P (fs.open_create path)
    pub write_at :
        (path : Text) (payload : List ℕ) (offset : ℤ)
        → Returns P P (fs.write_at path payload offset)
    pub truncate : (path : Text) (size : ℕ) → Returns P P (fs.truncate path size)
    pub remove : (path : Text) → Returns P P (fs.remove path)

  -- What it does for one event: the payload of a write is in the content-addressed store, and a
  -- rename or a link of the trace can be made again.
  pub record EventWorks (event : TraceEvent) : Type 0 where
    pub stored :
        is_write event.call ≡ true → Returns P P (fs.read (fs.join options.cas_dir event.digest))
    pub renames :
        event.call ≡ CallName.rename
        → Returns P P (fs.rename (rebase fs options event.path) (rebase fs options event.path2))
    pub links :
        event.call ≡ CallName.link
        → Returns P P (fs.link (rebase fs options event.path) (rebase fs options event.path2))

  module _ (k : FilesWork) where
    ensured-Returns :
        (path : Text) (m : Io F (Unit {0}))
        → Returns P P m
        → Returns P P (ensure_file fs options path >> m)
    ensured-Returns path m h s p =
        let made =
          Good-after P P (fs.make_dir (fs.dirname path) s) (λ done. fs.touch path)
            (k.make_dir (fs.dirname path) s p) (λ done. k.touch path) in
        Good-after P P (ensure_file fs options path s) (λ done. m) made (λ done. h)

    opened-Returns :
        (path : Text) (r : Outcome (Unit {0}) × F)
        → P r.1
        → Ends (Good P) (recovered r (fs.open_create path))
    opened-Returns path (Outcome.returned done, s) p = p
    opened-Returns path (Outcome.thrown message, s) p = k.open_create path s p

    apply_write-Returns :
        (event : TraceEvent) (bytes : Option ℕ)
        → Returns P P (fs.read (fs.join options.cas_dir event.digest))
        → Returns P P (apply_write fs options event bytes)
    unfolding apply_write
    apply_write-Returns event bytes stored s p =
        let path = rebase fs options event.path in
        Good-after P P (fs.read (fs.join options.cas_dir event.digest) s) _ (stored s p)
          (λ whole s1 p1.
            Good-after P P (fs.make_dir (fs.dirname path) s1) _ (k.make_dir (fs.dirname path) s1 p1)
              (λ done s2 p2.
                Good-after P P (recovered (fs.open_update path s2) (fs.open_create path)) _
                  (opened-Returns path (fs.open_update path s2) (k.open_update path s2 p2))
                  (λ done2. k.write_at path _ event.offset)))

    apply_call-Returns :
        (call : CallName) (event : TraceEvent) (bytes : Option ℕ)
        → event.call ≡ call
        → EventWorks event
        → Returns P P (apply_call fs options call event bytes)
    unfolding apply_call
    apply_call-Returns CallName.open_ event bytes e w = λ s p. p
    apply_call-Returns CallName.close event bytes e w = λ s p. p
    apply_call-Returns CallName.write event bytes e w =
        apply_write-Returns event bytes (w.stored (rw e refl))
    apply_call-Returns CallName.pwrite event bytes e w =
        apply_write-Returns event bytes (w.stored (rw e refl))
    apply_call-Returns CallName.writev event bytes e w =
        apply_write-Returns event bytes (w.stored (rw e refl))
    apply_call-Returns CallName.fsync event bytes e w = λ s p. p
    apply_call-Returns CallName.fdatasync event bytes e w = λ s p. p
    apply_call-Returns CallName.sync_file_range event bytes e w = λ s p. p
    apply_call-Returns CallName.ftruncate event bytes e w =
        ensured-Returns (rebase fs options event.path) _
          (k.truncate (rebase fs options event.path) event.length)
    apply_call-Returns CallName.truncate event bytes e w =
        ensured-Returns (rebase fs options event.path) _
          (k.truncate (rebase fs options event.path) event.length)
    apply_call-Returns CallName.mkdir event bytes e w = k.make_dir (rebase fs options event.path)
    apply_call-Returns CallName.unlink event bytes e w = k.remove (rebase fs options event.path)
    apply_call-Returns CallName.link event bytes e w =
        ensured-Returns (rebase fs options event.path) _ (w.links e)
    apply_call-Returns CallName.rename event bytes e w =
        ensured-Returns (rebase fs options event.path) _ (w.renames e)

    selection_loop-Returns :
        (whole : List ℕ) (torn : Dict ℕ ℕ) (index : ℕ) (events : List TraceEvent)
        → All EventWorks events
        → Returns P P (selection_loop fs options whole torn (entries index events))
    unfolding selection_loop apply_selected
    selection_loop-Returns whole torn index [] w s p = p
    selection_loop-Returns whole torn index (event ∷ events) (here, w) s p =
        elim (Bool-cases (includes index whole || has (get index torn))) [
          | inl e ↦ rw e (
              Good-after P P (apply_call fs options event.call event (get index torn) s)
                (λ done. selection_loop fs options whole torn (entries (suc index) events))
                (apply_call-Returns event.call event (get index torn) refl here s p)
                (λ done. selection_loop-Returns whole torn (suc index) events w))
          | inr e ↦ rw e (selection_loop-Returns whole torn (suc index) events w s p)
        ]

    pub replay_selection-Returns :
        (trace : Trace) (selection : Selection)
        → All EventWorks trace.events
        → Returns P P (replay_selection fs options trace selection)
    unfolding replay_selection
    replay_selection-Returns trace selection w s p =
        Good-after P P (fs.make_dir options.target_dir s) _ (k.make_dir options.target_dir s p)
          (λ done.
            selection_loop-Returns selection.persisted (torn_bytes selection.partial []) 0
              trace.events w)
