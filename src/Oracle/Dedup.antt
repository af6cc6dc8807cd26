-- ===== src/Oracle/Dedup.antt =====
-- core/src/oracle/dedup.ts: the root-cause signature of a violation.
pub mod Earliest
use crash_fuzz.Prelude.{
  ℕ, Bool, true, false, not, ◌&&◌, List, [], ◌∷◌, ◌++◌, map, Option, none, some, leb, includes,
  nat_eq, entries, nat_beq, if◌then◌else◌,
}
use crash_fuzz.Prelude.Text.{Text, codes}
use crash_fuzz.Trace.{CallName, TraceEvent, Trace}
use crash_fuzz.Enumerate.States.{CrashState, Partial, is_done_mutation}
use crash_fuzz.Oracle.AckLog.{AckedOperation}
use crash_fuzz.Oracle.Verdict.{Violation, ViolationClass}

-- What follows the last slash: `path.slice(path.lastIndexOf('/') + 1)`, if there is one.
abbrev pub after_last_slash : Text → Option Text
after_last_slash [] = none
after_last_slash (c ∷ s) = elim (after_last_slash s) [
  | some t ↦ some t
  | none ↦ elim (nat_beq c b'/') [ true ↦ some s | false ↦ none ]
]

unfoldable pub basename : Text → Text
basename path = elim (after_last_slash path) [ none ↦ path | some t ↦ t ]

abbrev pub call_text : CallName → Text
call_text CallName.open_ = codes "open"
call_text CallName.close = codes "close"
call_text CallName.write = codes "write"
call_text CallName.pwrite = codes "pwrite"
call_text CallName.writev = codes "writev"
call_text CallName.fsync = codes "fsync"
call_text CallName.fdatasync = codes "fdatasync"
call_text CallName.sync_file_range = codes "sync_file_range"
call_text CallName.ftruncate = codes "ftruncate"
call_text CallName.truncate = codes "truncate"
call_text CallName.mkdir = codes "mkdir"
call_text CallName.unlink = codes "unlink"
call_text CallName.link = codes "link"
call_text CallName.rename = codes "rename"

unfoldable pub describe : TraceEvent → Text
unfolding basename
describe event = call_text event.call ++ (codes "@" ++ basename event.path)

-- `event.index > (acknowledgedAt ?? Infinity)` fails
abbrev pub by_ack : ℕ → Option ℕ → Bool
by_ack index none = true
by_ack index (some at) = leb index at

-- The mutations issued while the operation was in flight.
unfoldable pub in_flight : AckedOperation → TraceEvent → Bool
in_flight operation event =
    is_done_mutation event
    && (leb operation.began_at event.index && by_ack event.index operation.acknowledged_at)

-- Why the loop of `earliestMissing` stops.
pub data Cause : Type 0 where
  torn missing : TraceEvent → Cause
  nothing : Cause

unfoldable pub cause_loop : List ℕ → List ℕ → AckedOperation → List (ℕ × TraceEvent) → Cause
unfolding in_flight
cause_loop torn_ops persisted operation [] = Cause.nothing
cause_loop torn_ops persisted operation ((index, event) ∷ rest) =
    let later = cause_loop torn_ops persisted operation rest in
    if in_flight operation event
    then (if includes index torn_ops
        then Cause.torn event
        else (if includes index persisted then later else Cause.missing event))
    else later

unfoldable pub cause_of : CrashState → Trace → AckedOperation → Cause
unfolding cause_loop
cause_of state trace operation =
    cause_loop (map Partial.op state.partials) state.persisted operation (entries 0 trace.events)

unfoldable pub cause_text : Cause → Text
unfolding describe
cause_text (Cause.torn event) = codes "torn:" ++ describe event
cause_text (Cause.missing event) = codes "missing:" ++ describe event
cause_text Cause.nothing = codes "missing:none"

-- `earliestMissing`
unfoldable pub earliest_missing : CrashState → Trace → AckedOperation → Text
unfolding cause_of cause_text
earliest_missing state trace operation = cause_text (cause_of state trace operation)

abbrev pub class_text : ViolationClass → Text
class_text ViolationClass.lost_acked = codes "LOST_ACKED"
class_text ViolationClass.corrupt_invariant = codes "CORRUPT_INVARIANT"
class_text ViolationClass.recovery_failed = codes "RECOVERY_FAILED"
class_text ViolationClass.phantom_unacked = codes "PHANTOM_UNACKED"

-- `signatureOf`
unfoldable pub signature_of : Violation → CrashState → Trace → AckedOperation → Text
unfolding earliest_missing
signature_of violation state trace operation =
    class_text violation.violation_class ++ (codes "|" ++ earliest_missing state trace operation)
