-- ===== src/Trace.antt =====
-- core/src/trace/reader.ts: the records of a trace, and the reader's result.
pub mod Reader
pub mod Replay
use crash_fuzz.Prelude.{
  ℕ, ◌≡◌, refl, ◌↔◌, Bool, true, false, ◌||◌, List, [], ◌∷◌, arith, Eq, nat_beq, nat_beq_iff,
}
use crash_fuzz.Prelude.Int.{ℤ}
use crash_fuzz.Prelude.Text.{Text}

pub data CallName : Type 0 where
  open_ close write pwrite writev fsync fdatasync sync_file_range : CallName
  ftruncate truncate mkdir unlink link rename : CallName

pub record TraceEvent : Type 0 where
  -- stamp taken before the call was issued
  pub index : ℕ
  -- stamp taken after the call returned
  pub completion_index : ℕ
  pub call : CallName
  pub fd : ℤ
  pub thread_id : ℕ
  pub path : Text
  pub path2 : Text
  pub offset : ℤ
  pub length : ℕ
  pub return_value : ℤ
  pub errno : ℕ
  pub digest : Text

pub record TraceMarker : Type 0 where
  pub index : ℕ
  pub thread_id : ℕ
  pub text : Text

pub record Header : Type 0 where
  pub version : ℕ
  pub pid : ℕ

pub record Trace : Type 0 where
  pub header : Header
  pub events : List TraceEvent
  pub markers : List TraceMarker

-- The set MUTATING: calls that change file contents or the directory tree.
abbrev pub is_mutating : CallName → Bool
is_mutating CallName.write = true
is_mutating CallName.pwrite = true
is_mutating CallName.writev = true
is_mutating CallName.truncate = true
is_mutating CallName.ftruncate = true
is_mutating CallName.mkdir = true
is_mutating CallName.unlink = true
is_mutating CallName.link = true
is_mutating CallName.rename = true
is_mutating _ = false

-- The set PERSISTENCE.
abbrev pub is_persistence : CallName → Bool
is_persistence CallName.fsync = true
is_persistence CallName.fdatasync = true
is_persistence CallName.sync_file_range = true
is_persistence _ = false
