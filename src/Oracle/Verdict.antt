-- ===== src/Oracle/Verdict.antt =====
-- core/src/oracle/oracle.ts: what a recovery violates.
pub mod Contract
pub mod Evidence
use crash_fuzz.Prelude.{
  ℕ, Bool, true, false, not, ◌&&◌, List, [], ◌∷◌, ◌++◌, Option, none, some, ltb, filter,
  if◌then◌else◌, ◌==◌,
}
use crash_fuzz.Prelude.Int.{ℤ}
use crash_fuzz.Prelude.Text.{Text, text_eq, codes}
use crash_fuzz.Prelude.Dict.{Dict, get}
use crash_fuzz.Oracle.AckLog.{AckedOperation}

pub data ViolationClass : Type 0 where
  lost_acked corrupt_invariant recovery_failed phantom_unacked : ViolationClass

pub data RecoveryResult : Type 0 where
  opened :
      (integrity_ok : Bool) → (values : Dict Text Text) → (detail : Option Text) → RecoveryResult
  failed : (detail : Text) → RecoveryResult

pub record OracleInput : Type 0 where
  pub crash_stamp : ℕ
  pub ack_log : List AckedOperation
  pub recovery : RecoveryResult

pub record Violation : Type 0 where
  pub violation_class : ViolationClass
  pub crash_stamp : ℕ
  pub op : Option ℤ
  pub key : Text
  pub expected : Text
  pub actual : Text

abbrev pub absent : Text
absent = codes "<absent>"

-- `acknowledgedAt !== null && acknowledgedAt < crashStamp`
abbrev pub acked_before : ℕ → Option ℕ → Bool
acked_before stamp none = false
acked_before stamp (some at) = ltb at stamp

unfoldable pub is_promised : ℕ → AckedOperation → Bool
is_promised stamp operation = operation.durable && acked_before stamp operation.acknowledged_at

-- `promisedBefore`
unfoldable pub promised_before : List AckedOperation → ℕ → List AckedOperation
unfolding is_promised
promised_before log stamp = filter (is_promised stamp) log

abbrev pub or_else : Option Text → Text → Text
or_else none t = t
or_else (some s) t = s

-- The round of the loop for one promised operation.
unfoldable pub reads_back : Dict Text Text → AckedOperation → Bool
reads_back values operation = elim (get operation.key values) [
  | none ↦ false
  | some v ↦ v == operation.digest
]

abbrev pub lost : ℕ → Dict Text Text → AckedOperation → Violation
lost stamp values operation = record {
  violation_class = ViolationClass.lost_acked;
  crash_stamp = stamp;
  op = some operation.op;
  key = operation.key;
  expected = operation.digest;
  actual = or_else (get operation.key values) absent;
}

unfoldable pub lost_loop : ℕ → Dict Text Text → List AckedOperation → List Violation
unfolding reads_back
lost_loop stamp values [] = []
lost_loop stamp values (operation ∷ rest) =
    if reads_back values operation
    then lost_loop stamp values rest
    else lost stamp values operation ∷ lost_loop stamp values rest

abbrev pub refusal : ℕ → Text → Violation
refusal stamp detail = record {
  violation_class = ViolationClass.recovery_failed;
  crash_stamp = stamp;
  op = none;
  key = [];
  expected = codes "<opens and recovers>";
  actual = detail;
}

abbrev pub corruption : ℕ → Option Text → Violation
corruption stamp detail = record {
  violation_class = ViolationClass.corrupt_invariant;
  crash_stamp = stamp;
  op = none;
  key = [];
  expected = codes "<integrity check passes>";
  actual = or_else detail (codes "<integrity check failed>");
}

unfoldable pub judge : ℕ → List AckedOperation → RecoveryResult → List Violation
unfolding lost_loop
judge stamp [] recovery = []
judge stamp (p ∷ ps) (RecoveryResult.failed detail) = refusal stamp detail ∷ []
judge stamp (p ∷ ps) (RecoveryResult.opened integrity_ok values detail) =
    (if integrity_ok then [] else corruption stamp detail ∷ []) ++ lost_loop stamp values (p ∷ ps)

-- `checkOracle`
unfoldable pub check_oracle : OracleInput → List Violation
unfolding judge promised_before
check_oracle input =
    judge input.crash_stamp (promised_before input.ack_log input.crash_stamp) input.recovery
