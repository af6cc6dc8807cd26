-- ===== src/Trace/Replay.antt =====
-- core/src/trace/replay.ts: applying a trace, or the part of it that reached the disk, to a
-- directory. The calls of node:fs and node:path are a parameter, and may throw. A file is opened, written and closed at once, so the calls on a descriptor are calls on its path.
pub mod Keeps
pub mod Returns
pub mod Laws
use crash_fuzz.Prelude.{
  ℕ, suc, Bool, true, false, not, ◌&&◌, List, [], ◌∷◌, Option, none, some, nat_eq, take, length,
  includes, entries, if◌then◌else◌, min, ◌||◌,
}
use crash_fuzz.Prelude.Io.{Io, Outcome, pure, catch, after, ◌>>=◌, ◌>>◌}
use crash_fuzz.Prelude.Int.{ℤ, is_negative}
use crash_fuzz.Prelude.Text.{Text}
use crash_fuzz.Prelude.Dict.{Dict, get, set}
use crash_fuzz.Trace.{CallName, TraceEvent, Trace}
use crash_fuzz.Enumerate.States.{Partial}

-- What the replay uses of node:fs and node:path, on a state `F` of the file system.
pub record NodeFs (F : Type 0) : Type 0 where
  -- `mkdirSync(path, { recursive: true })`
  pub make_dir : Text → Io F Unit
  -- `closeSync(openSync(path, 'a'))`
  pub touch : Text → Io F Unit
  -- `openSync(path, 'r+')`
  pub open_update : Text → Io F Unit
  -- `openSync(path, 'w+')`
  pub open_create : Text → Io F Unit
  -- `writeSync(fd, payload, 0, payload.length, offset)`
  pub write_at : Text → List ℕ → ℤ → Io F Unit
  -- `readFileSync`
  pub read : Text → Io F (List ℕ)
  pub truncate : Text → ℕ → Io F Unit
  pub rename : Text → Text → Io F Unit
  pub link : Text → Text → Io F Unit
  -- `rmSync(path, { force: true })`
  pub remove : Text → Io F Unit
  pub dirname : Text → Text
  pub join : Text → Text → Text
  pub relative : Text → Text → Text

pub record ReplayOptions : Type 0 where
  pub cas_dir : Text
  pub root_dir : Text
  pub target_dir : Text

-- The subset of a trace that a crash state says reached the disk.
pub record Selection : Type 0 where
  pub persisted : List ℕ
  pub partial : List Partial

-- `new Map(selection.partial.map((entry) => [entry.op, entry.bytes]))`
abbrev pub torn_bytes : List Partial → Dict ℕ ℕ → Dict ℕ ℕ
torn_bytes [] m = m
torn_bytes (p ∷ ps) m = torn_bytes ps (set p.op p.bytes m)

-- `tornBytes.has(index)`, by what `get` finds
abbrev pub has : Option ℕ → Bool
has none = false
has (some bytes) = true

-- The payload, or the prefix of it that a torn write put on disk.
abbrev pub payload_of : Option ℕ → List ℕ → List ℕ
payload_of none whole = whole
payload_of (some bytes) whole = take (min bytes (length whole)) whole

module _ {F : Type 0} (fs : NodeFs F) (options : ReplayOptions) where
  abbrev pub rebase : Text → Text
  rebase path = fs.join options.target_dir (fs.relative options.root_dir path)

  -- `ensureFile`
  abbrev pub ensure_file : Text → Io F Unit
  ensure_file path = do fs.make_dir (fs.dirname path); fs.touch path

  -- `applyWrite`
  unfoldable pub apply_write : TraceEvent → Option ℕ → Io F Unit
  apply_write event bytes =
      let path = rebase event.path in
      do
        whole ← fs.read (fs.join options.cas_dir event.digest)
        fs.make_dir (fs.dirname path)
        catch (fs.open_update path) (fs.open_create path)
        fs.write_at path (payload_of bytes whole) event.offset

  -- The cases of `applySelected`.
  unfoldable pub apply_call : CallName → TraceEvent → Option ℕ → Io F Unit
  unfolding apply_write
  apply_call CallName.write event bytes = apply_write event bytes
  apply_call CallName.pwrite event bytes = apply_write event bytes
  apply_call CallName.writev event bytes = apply_write event bytes
  apply_call CallName.truncate event bytes = do
    ensure_file (rebase event.path)
    fs.truncate (rebase event.path) event.length
  apply_call CallName.ftruncate event bytes = do
    ensure_file (rebase event.path)
    fs.truncate (rebase event.path) event.length
  apply_call CallName.mkdir event bytes = fs.make_dir (rebase event.path)
  apply_call CallName.rename event bytes = do
    ensure_file (rebase event.path)
    fs.rename (rebase event.path) (rebase event.path2)
  apply_call CallName.link event bytes = do
    ensure_file (rebase event.path)
    fs.link (rebase event.path) (rebase event.path2)
  apply_call CallName.unlink event bytes = fs.remove (rebase event.path)
  apply_call _ event bytes = pure tt

  -- `applySelected`
  unfoldable pub apply_selected : TraceEvent → Option ℕ → Io F Unit
  unfolding apply_call
  apply_selected event bytes = apply_call event.call event bytes

  unfoldable pub selection_loop : List ℕ → Dict ℕ ℕ → List (ℕ × TraceEvent) → Io F Unit
  unfolding apply_selected
  selection_loop whole torn [] s = (Outcome.returned tt, s)
  selection_loop whole torn ((index, event) ∷ rest) s =
      if includes index whole || has (get index torn)
      then after (apply_selected event (get index torn) s) (λ done. selection_loop whole torn rest)
      else selection_loop whole torn rest s

  -- `replaySelection`
  unfoldable pub replay_selection : Trace → Selection → Io F Unit
  unfolding selection_loop
  replay_selection trace selection = do
    fs.make_dir options.target_dir
    selection_loop selection.persisted (torn_bytes selection.partial []) (entries 0 trace.events)

  unfoldable pub trace_loop : List TraceEvent → Io F Unit
  unfolding apply_selected
  trace_loop [] s = (Outcome.returned tt, s)
  trace_loop (event ∷ rest) s =
      if is_negative event.return_value
      then trace_loop rest s
      else after (apply_selected event none s) (λ done. trace_loop rest)

  -- `replayTrace`
  unfoldable pub replay_trace : Trace → Io F Unit
  unfolding trace_loop
  replay_trace trace = do fs.make_dir options.target_dir; trace_loop trace.events
