-- ===== src/Trace/Replay/Keeps.antt =====
-- What every call of node:fs that core/src/trace/replay.ts makes leaves alone, the replay does too.
use crash_fuzz.Prelude.{
  ℕ, List, [], ◌∷◌, Option, Bool-cases, inl, inr, ◌||◌, includes, nat_eq, entries,
}
use crash_fuzz.Prelude.Io.{Io, Outcome, after, recovered, ◌>>◌}
use crash_fuzz.Prelude.Int.{ℤ}
use crash_fuzz.Prelude.Text.{Text}
use crash_fuzz.Prelude.Dict.{Dict, get}
use crash_fuzz.Trace.{CallName, TraceEvent, Trace}
use crash_fuzz.Trace.Replay.{
  NodeFs, ReplayOptions, Selection, apply_write, apply_call, apply_selected, selection_loop,
  replay_selection, ensure_file, has, torn_bytes, rebase,
}

-- An action that keeps `P`, whether it returns or throws.
abbrev pub Keeps : {F A : Type 0} → (F → Type 0) → Io F A → Type 0
Keeps {F} P m = (s : F) → P s → P (m s).1

pub Keeps-after :
    {F A B : Type 0}
    → (P : F → Type 0) (r : Outcome A × F) (k : A → Io F B) → P r.1
    → ((a : A) → Keeps P (k a))
    → P (after r k).1
Keeps-after P (Outcome.returned a, s) k p h = h a s p
Keeps-after P (Outcome.thrown message, s) k p h = p

Keeps-recovered :
    {F A : Type 0}
    → (P : F → Type 0) (r : Outcome A × F) (other : Io F A) → P r.1
    → Keeps P other
    → P (recovered r other).1
Keeps-recovered P (Outcome.returned a, s) other p h = p
Keeps-recovered P (Outcome.thrown message, s) other p h = h s p

pub record KeepsFiles {F : Type 0} (fs : NodeFs F) (P : F → Type 0) : Type 0 where
  pub make_dir : (path : Text) → Keeps P (fs.make_dir path)
  pub touch : (path : Text) → Keeps P (fs.touch path)
  pub open_update : (path : Text) → Keeps P (fs.open_update path)
  pub open_create : (path : Text) → Keeps P (fs.open_create path)
  pub write_at :
      (path : Text) (payload : List ℕ) (offset : ℤ) → Keeps P (fs.write_at path payload offset)
  pub read : (path : Text) → Keeps P (fs.read path)
  pub truncate : (path : Text) (size : ℕ) → Keeps P (fs.truncate path size)
  pub rename : (path path2 : Text) → Keeps P (fs.rename path path2)
  pub link : (path path2 : Text) → Keeps P (fs.link path path2)
  pub remove : (path : Text) → Keeps P (fs.remove path)

module _ {F : Type 0} (fs : NodeFs F) (options : ReplayOptions) (P : F → Type 0)
    (k : KeepsFiles fs P) where
  ensure_file-Keeps : (path : Text) → Keeps P (ensure_file fs options path)
  ensure_file-Keeps path s p =
      Keeps-after P (fs.make_dir (fs.dirname path) s) _ (k.make_dir (fs.dirname path) s p)
        (λ done. k.touch path)

  apply_write-Keeps :
      (event : TraceEvent) (bytes : Option ℕ) → Keeps P (apply_write fs options event bytes)
  unfolding apply_write
  apply_write-Keeps event bytes s p =
      let path = rebase fs options event.path in
      Keeps-after P (fs.read (fs.join options.cas_dir event.digest) s) _ (k.read _ s p)
        (λ whole s1 p1.
          Keeps-after P (fs.make_dir (fs.dirname path) s1) _ (k.make_dir _ s1 p1) (λ done s2 p2.
            Keeps-after P (recovered (fs.open_update path s2) (fs.open_create path)) _
              (Keeps-recovered P (fs.open_update path s2) (fs.open_create path)
                (k.open_update path s2 p2) (k.open_create path))
              (λ done2. k.write_at path _ event.offset)))

  ensured-Keeps :
      (path : Text) (m : Io F (Unit {0})) → Keeps P m → Keeps P (ensure_file fs options path >> m)
  ensured-Keeps path m h s p =
      Keeps-after P (ensure_file fs options path s) (λ done. m) (ensure_file-Keeps path s p)
        (λ done. h)

  apply_call-Keeps :
      (call : CallName) (event : TraceEvent) (bytes : Option ℕ)
      → Keeps P (apply_call fs options call event bytes)
  unfolding apply_call
  apply_call-Keeps CallName.open_ event bytes = λ s p. p
  apply_call-Keeps CallName.close event bytes = λ s p. p
  apply_call-Keeps CallName.write event bytes = apply_write-Keeps event bytes
  apply_call-Keeps CallName.pwrite event bytes = apply_write-Keeps event bytes
  apply_call-Keeps CallName.writev event bytes = apply_write-Keeps event bytes
  apply_call-Keeps CallName.fsync event bytes = λ s p. p
  apply_call-Keeps CallName.fdatasync event bytes = λ s p. p
  apply_call-Keeps CallName.sync_file_range event bytes = λ s p. p
  apply_call-Keeps CallName.ftruncate event bytes =
      ensured-Keeps (rebase fs options event.path) _
        (k.truncate (rebase fs options event.path) event.length)
  apply_call-Keeps CallName.truncate event bytes =
      ensured-Keeps (rebase fs options event.path) _
        (k.truncate (rebase fs options event.path) event.length)
  apply_call-Keeps CallName.mkdir event bytes = k.make_dir (rebase fs options event.path)
  apply_call-Keeps CallName.unlink event bytes = k.remove (rebase fs options event.path)
  apply_call-Keeps CallName.link event bytes =
      ensured-Keeps (rebase fs options event.path) _
        (k.link (rebase fs options event.path) (rebase fs options event.path2))
  apply_call-Keeps CallName.rename event bytes =
      ensured-Keeps (rebase fs options event.path) _
        (k.rename (rebase fs options event.path) (rebase fs options event.path2))

  selection_loop-Keeps :
      (whole : List ℕ) (torn : Dict ℕ ℕ) (es : List (ℕ × TraceEvent))
      → Keeps P (selection_loop fs options whole torn es)
  unfolding selection_loop apply_selected
  selection_loop-Keeps whole torn [] s p = p
  selection_loop-Keeps whole torn ((index, event) ∷ es) s p =
      elim (Bool-cases (includes index whole || has (get index torn))) [
        | inl e ↦ rw e (
            Keeps-after P (apply_call fs options event.call event (get index torn) s)
              (λ done. selection_loop fs options whole torn es)
              (apply_call-Keeps event.call event (get index torn) s p)
              (λ done. selection_loop-Keeps whole torn es))
        | inr e ↦ rw e (selection_loop-Keeps whole torn es s p)
      ]

  pub replay_selection-Keeps :
      (trace : Trace) (selection : Selection)
      → Keeps P (replay_selection fs options trace selection)
  unfolding replay_selection
  replay_selection-Keeps trace selection s p =
      Keeps-after P (fs.make_dir options.target_dir s) _ (k.make_dir options.target_dir s p)
        (λ done.
          selection_loop-Keeps selection.persisted (torn_bytes selection.partial [])
            (entries 0 trace.events))
