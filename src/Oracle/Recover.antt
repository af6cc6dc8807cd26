-- ===== src/Oracle/Recover.antt =====
-- core/src/oracle/recover.ts: the target's recovery, read from the report of its query tool or from
-- its directory. Outside the model stand whether the file exists, what the query tool answers, the
-- directory's entries and the SHA-256 of a file.
pub mod Report
use crash_fuzz.Prelude.{
  ℕ, Bool, true, false, not, ◌&&◌, ◌||◌, List, [], ◌∷◌, ◌++◌, Option, none, some, ◌==◌, drop,
  if◌then◌else◌, nat_eq,
}
use crash_fuzz.Prelude.Text.{Text, codes, text_eq, split, trim, starts_with, ends_with, or_text}
use crash_fuzz.Prelude.Dict.{Dict, set}
use crash_fuzz.Oracle.Verdict.{RecoveryResult}

-- What `Bun.spawnSync` gives; the exit code is null for a process that a signal ended.
pub record ProcResult : Type 0 where
  pub exit_code : Option ℕ
  pub stdout : Text
  pub stderr : Text

abbrev pub exited_zero : Option ℕ → Bool
exited_zero none = false
exited_zero (some code) = code == 0

abbrev pub integrity_mark : Text
integrity_mark = codes "integrity="

-- What the loop over the lines has read.
pub record Reading : Type 0 where
  pub integrity_ok : Bool
  pub values : Dict Text Text

-- `const [key, digest] = line.split(' ')`, and the guard on both
unfoldable pub add_parts : List Text → Dict Text Text → Dict Text Text
add_parts [] values = values
add_parts (key ∷ []) values = values
add_parts (key ∷ digest ∷ rest) values = set key digest values

-- The body of the loop, on a line that is not empty.
unfoldable pub read_line : Text → Reading → Reading
unfolding add_parts
read_line line reading =
    if starts_with integrity_mark line
    then record reading { integrity_ok = drop 10 line == codes "ok" }
    else record reading { values = add_parts (split 0x20 line) reading.values }

unfoldable pub read_lines : List Text → Reading → Reading
unfolding read_line
read_lines [] reading = reading
read_lines ([] ∷ lines) reading = read_lines lines reading
read_lines ((c ∷ line) ∷ lines) reading = read_lines lines (read_line (c ∷ line) reading)

-- `stderr || undefined`
abbrev pub detail_of : Text → Option Text
detail_of [] = none
detail_of (c ∷ s) = some (c ∷ s)

abbrev pub opened_with : Reading → Option Text → RecoveryResult
opened_with reading detail = RecoveryResult.opened reading.integrity_ok reading.values detail

-- A number, or null, is printed by a parameter.
module _ (show : Option ℕ → Text) where
  unfoldable pub read_report : ProcResult → RecoveryResult
  unfolding read_lines trim
  read_report proc =
      let stderr = trim proc.stderr in
      if exited_zero proc.exit_code
      then opened_with
          (read_lines (split 0x0a proc.stdout) (record { integrity_ok = false; values = [] }))
          (detail_of stderr)
      else RecoveryResult.failed (or_text stderr (codes "query exited " ++ show proc.exit_code))

  -- `queryTarget`; `exists` is `existsSync(dbPath)`
  unfoldable pub query_target : Bool → ProcResult → Text → RecoveryResult
  unfolding read_report
  query_target exists proc absent_detail =
      if exists then read_report proc else RecoveryResult.opened true [] (some absent_detail)

  -- `recoverRedb` and `recoverSqlite`, each with its own query tool
  unfoldable pub recover_database : Bool → ProcResult → RecoveryResult
  unfolding query_target
  recover_database exists proc =
      query_target exists proc (codes "database file absent at this crash point")

pub record DirEntry : Type 0 where
  pub name : Text
  pub is_file : Bool
  pub content : Text

unfoldable pub is_value_file : DirEntry → Bool
is_value_file entry =
    entry.is_file
    && not (ends_with (codes ".tmp") entry.name || entry.name == codes "crashfuzz.marker")

-- `createHash('sha256')` on a file's bytes, in hexadecimal, is a parameter.
module _ (sha256 : Text → Text) where
  unfoldable pub file_values : List DirEntry → Dict Text Text → Dict Text Text
  unfolding is_value_file
  file_values [] values = values
  file_values (entry ∷ rest) values =
      file_values rest
        (if is_value_file entry then set entry.name (sha256 entry.content) values else values)

  -- `recoverFileKv`
  unfoldable pub recover_file_kv : List DirEntry → RecoveryResult
  unfolding file_values
  recover_file_kv entries' = RecoveryResult.opened true (file_values entries' []) none
