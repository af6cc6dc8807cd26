-- ===== src/Examples/Judging.antt =====
-- The theorems on the oracle and on root causes.
use mathlib.Core.List.{Memᴰ}
use crash_fuzz.Prelude.{
  ℕ, ◌≡◌, ◌≢◌, ◌↔◌, refl, List, true, false, none, some, [], ◌∷◌, All, arith, subst, ◌==◌,
}
use crash_fuzz.Prelude.Int.{pos}
use crash_fuzz.Prelude.Text.{Text, codes, text_eq}
use crash_fuzz.Enumerate.States.{CrashState}
use crash_fuzz.Oracle.AckLog.{AckedOperation}
use crash_fuzz.Oracle.Verdict.{RecoveryResult, OracleInput, check_oracle, refusal}
use crash_fuzz.Oracle.Verdict.Contract.{
  Contract, check_oracle-nil_iff, check_oracle-overwritten_key,
}
use crash_fuzz.Oracle.Verdict.Evidence.{IsEvidence, check_oracle-IsEvidence, check_oracle-failed}
use crash_fuzz.Oracle.Dedup.{cause_of, earliest_missing}
use crash_fuzz.Oracle.Dedup.Earliest.{IsEarliest, cause_of-IsEarliest}
use crash_fuzz.Examples.Traces.{trace_of, short_events}

abbrev put : Text → Text → ℕ → ℕ → AckedOperation
put key digest began_at acknowledged_at = record {
  op = pos began_at;
  kind = codes "put";
  key = key;
  digest = digest;
  began_at = began_at;
  acknowledged_at = some acknowledged_at;
  durable = true;
}

abbrev first_put : AckedOperation
first_put = put (codes "k") (codes "aa") 0 2

abbrev second_put : AckedOperation
second_put = put (codes "k") (codes "bb") 3 5

abbrev both : List AckedOperation
both = first_put ∷ second_put ∷ []

-- The recovery returns the value that was written last.
abbrev last_value : OracleInput
last_value = record {
  crash_stamp = 9;
  ack_log = both;
  recovery = RecoveryResult.opened true ((codes "k", codes "bb") ∷ []) none;
}

check_oracle-nil_iff_example : (check_oracle last_value ≡ []) ↔ Contract last_value
check_oracle-nil_iff_example = check_oracle-nil_iff last_value

digests_differ : codes "aa" ≢ codes "bb"
digests_differ e =
    subst (λ t. elim (t == codes "aa") as (λ x. Type 0) [ true ↦ Unit | false ↦ ⊥ ]) e tt

check_oracle-overwritten_key_example : check_oracle last_value ≢ []
check_oracle-overwritten_key_example =
    check_oracle-overwritten_key last_value first_put second_put (Memᴰ.head refl)
      (Memᴰ.tail (Memᴰ.head refl)) (refl, (2, refl, omega arith)) (refl, (5, refl, omega arith))
      refl digests_differ

check_oracle-IsEvidence_example :
    All
      (IsEvidence 9 both (RecoveryResult.opened true ((codes "k", codes "bb") ∷ []) none))
      (check_oracle last_value)
check_oracle-IsEvidence_example = check_oracle-IsEvidence last_value

one_check_oracle_failed_run :
    check_oracle (record {
      crash_stamp = 9;
      ack_log = both;
      recovery = RecoveryResult.failed (codes "corrupt");
    })
    ≡ refusal 9 (codes "corrupt") ∷ []
one_check_oracle_failed_run =
    check_oracle-failed 9 both (codes "corrupt") (λ h. h.0 (refl, (2, refl, omega arith)))

-- The write of the other file is missing, and the second write of the first is there.
abbrev side_missing : CrashState
side_missing = record { crash_point = 4; persisted = 0 ∷ 2 ∷ []; partials = [] }

missing_run :
    earliest_missing side_missing (trace_of short_events) (put (codes "k") (codes "aa") 0 9)
    ≡ codes "missing:write@side"
unfolding earliest_missing
missing_run = refl

cause_of-IsEarliest_example :
    IsEarliest short_events
      (put (codes "k") (codes "aa") 0 9)
      []
      (0 ∷ 2 ∷ [])
      0
      (cause_of side_missing (trace_of short_events) (put (codes "k") (codes "aa") 0 9))
cause_of-IsEarliest_example =
    cause_of-IsEarliest side_missing (trace_of short_events) (put (codes "k") (codes "aa") 0 9)
