-- ===== src/Oracle/Verdict/Contract.antt =====
-- The contract of docs/model.md ("The oracle"), stated without the checker, and the checker against it.
use mathlib.Core.List.{Memᴰ}
use crash_fuzz.Prelude.{
  ℕ, ◌<◌, ◌≡◌, ◌≢◌, ◌↔◌, ◌⊎◌, refl, true, false, List, [], ◌∷◌, some, inl, inr, arith, All,
  Bool-cases, Option-cases, filter, ap, eq→≡, ==_refl, if◌then◌else◌, subst, sym, some-injective,
  ◌∙◌,
}
use crash_fuzz.Oracle.AckLog.{AckedOperation}
use crash_fuzz.Oracle.Verdict.{
  OracleInput, lost_loop, RecoveryResult, is_promised, reads_back, Violation, lost, judge,
  check_oracle, promised_before,
}
use crash_fuzz.Prelude.Dict.{Dict, get}
use crash_fuzz.Prelude.Text.{Text, text_eq}

-- Acknowledged as durable strictly before the crash.
abbrev pub IsPromised : ℕ → AckedOperation → Type 0
IsPromised stamp o = (o.durable ≡ true) × ((at : ℕ) × (o.acknowledged_at ≡ some at) × (at < stamp))

-- The recovery opens, the target's integrity check passes, and each promised operation of the log
-- reads back with its digest.
abbrev pub Upholds : ℕ → List AckedOperation → RecoveryResult → Type 0
Upholds stamp log (RecoveryResult.failed detail) = ⊥
Upholds stamp log (RecoveryResult.opened ok values detail) =
    (ok ≡ true) × All (λ o. IsPromised stamp o → get o.key values ≡ some o.digest) log

abbrev pub Contract : OracleInput → Type 0
Contract input =
    All (λ o. ¬ IsPromised input.crash_stamp o) input.ack_log
    ⊎ Upholds input.crash_stamp input.ack_log input.recovery

pub is_promised→IsPromised :
    (stamp : ℕ) (o : AckedOperation) → is_promised stamp o ≡ true → IsPromised stamp o
unfolding is_promised
is_promised→IsPromised stamp o h = elim (Option-cases o.acknowledged_at) [
  | inl never ↦ absurd (ground arith)
  | inr (at, e) ↦ (ground arith, (at, e, ground arith))
]

IsPromised→is_promised :
    (stamp : ℕ) (o : AckedOperation) → IsPromised stamp o → is_promised stamp o ≡ true
unfolding is_promised
IsPromised→is_promised stamp o (d, (at, e, lt)) = ground arith

pub reads_back_iff :
    (values : Dict Text Text) (o : AckedOperation)
    → (reads_back values o ≡ true) ↔ (get o.key values ≡ some o.digest)
unfolding reads_back
reads_back_iff values o = (
  λ h. elim (Option-cases (get o.key values)) [
    | inl missing ↦ absurd (ground arith)
    | inr (v, e) ↦ rw e (ap some (eq→≡ v o.digest (ground arith)))
  ],
  λ h. rw (h, reads_back) (==_refl o.digest),
)

module _ (stamp : ℕ) (values : Dict Text Text) where
  abbrev pub lost_of : List AckedOperation → List Violation
  lost_of log = lost_loop stamp values (filter (is_promised stamp) log)

  abbrev ReadBack : AckedOperation → Type 0
  ReadBack o = IsPromised stamp o → get o.key values ≡ some o.digest

  pub lost_of-cons :
      (o : AckedOperation) (log : List AckedOperation)
      → lost_of (o ∷ log) ≡ (
          if is_promised stamp o
          then (if reads_back values o then lost_of log else lost stamp values o ∷ lost_of log)
          else lost_of log)
  unfolding lost_loop
  lost_of-cons o log = elim (Bool-cases (is_promised stamp o)) [
    | inl p ↦ rw p refl
    | inr p ↦ rw p refl
  ]

  -- The loop reports nothing exactly if every promised operation reads back.
  lost_loop-nil_iff : (log : List AckedOperation) → (lost_of log ≡ []) ↔ All ReadBack log
  unfolding lost_loop
  lost_loop-nil_iff [] = (λ _. tt, λ _. refl)
  lost_loop-nil_iff (o ∷ log) = elim (Bool-cases (is_promised stamp o)) [
    | inr p ↦ (
      λ h. (
        (λ q. absurd (ground (arith, IsPromised→is_promised stamp o q))),
        (lost_loop-nil_iff log).0 (rw (lost_of-cons o log, p) at h),
      ),
      λ h. rw (lost_of-cons o log, p) ((lost_loop-nil_iff log).1 h.1),
    )
    | inl p ↦ elim (Bool-cases (reads_back values o)) [
      | inl r ↦ (
        λ h. (
          (λ q. (reads_back_iff values o).0 r),
          (lost_loop-nil_iff log).0 (rw (lost_of-cons o log, p, r) at h),
        ),
        λ h. rw (lost_of-cons o log, p, r) ((lost_loop-nil_iff log).1 h.1),
      )
      | inr r ↦ (
        λ h. absurd (cc (rw (lost_of-cons o log, p, r) at h)),
        λ h. absurd (cc ((reads_back_iff values o).1 (h.0 (is_promised→IsPromised stamp o p)))),
      )
    ]
  ]

pub unpromised_iff :
    (stamp : ℕ) (log : List AckedOperation)
    → (filter (is_promised stamp) log ≡ []) ↔ All (λ o. ¬ IsPromised stamp o) log
unpromised_iff stamp [] = (λ _. tt, λ _. refl)
unpromised_iff stamp (o ∷ log) = elim (Bool-cases (is_promised stamp o)) [
  | inl p ↦ (λ h. absurd (cc (rw p at h)), λ h. absurd (h.0 (is_promised→IsPromised stamp o p)))
  | inr p ↦ (
    λ h. (
      (λ q. ground (arith, IsPromised→is_promised stamp o q)),
      (unpromised_iff stamp log).0 (rw p at h),
    ),
    λ h. rw p ((unpromised_iff stamp log).1 h.1),
  )
]

judge-nil_iff :
    (stamp : ℕ) (log ps : List AckedOperation)
    → filter (is_promised stamp) log ≡ ps
    → (r : RecoveryResult)
    → (judge stamp ps r ≡ []) ↔ (All (λ o. ¬ IsPromised stamp o) log ⊎ Upholds stamp log r)
unfolding judge
judge-nil_iff stamp log [] e r = (λ _. inl ((unpromised_iff stamp log).0 e), λ _. refl)
judge-nil_iff stamp log (p ∷ ps) e (RecoveryResult.failed detail) = (
  λ h. absurd (cc),
  λ h. elim h [
    | inl none_promised ↦ absurd (cc ((unpromised_iff stamp log).1 none_promised))
    | inr never ↦ absurd never
  ],
)
judge-nil_iff stamp log (p ∷ ps) e (RecoveryResult.opened false values detail) = (
  λ h. absurd (cc),
  λ h. elim h [
    | inl none_promised ↦ absurd (cc ((unpromised_iff stamp log).1 none_promised))
    | inr (bad, _) ↦ absurd (cc)
  ],
)
judge-nil_iff stamp log (p ∷ ps) e (RecoveryResult.opened true values detail) = (
  λ h. inr (refl, (lost_loop-nil_iff stamp values log).0 (rw e h)),
  λ h. elim h [
    | inl none_promised ↦ absurd (cc ((unpromised_iff stamp log).1 none_promised))
    | inr (_, all_read) ↦
        subst (λ z. lost_loop stamp values z ≡ []) e
          ((lost_loop-nil_iff stamp values log).1 all_read)
  ],
)

-- The oracle reports nothing exactly where the contract of docs/model.md is kept: no operation was
-- acknowledged as durable before the crash, or the recovery opened, passed its integrity check, and
-- returned every such operation's key with its digest.
pub check_oracle-nil_iff : (input : OracleInput) → (check_oracle input ≡ []) ↔ Contract input
unfolding check_oracle promised_before
check_oracle-nil_iff input =
    judge-nil_iff input.crash_stamp input.ack_log (promised_before input.ack_log input.crash_stamp)
      refl input.recovery

All-Memᴰ {ℓ} : {A : Type 0} (P : A → Type ℓ) {a : A} {xs : List A} → All P xs → Memᴰ a xs → P a
All-Memᴰ P h (Memᴰ.head e) = subst P (sym e) h.0
All-Memᴰ P h (Memᴰ.tail m) = All-Memᴰ P h.1 m

-- Two promised operations on one key with different digests are never both read back: whatever the
-- recovery returns, also the value that was written last, the oracle reports a violation.
pub check_oracle-overwritten_key :
    (input : OracleInput) (a b : AckedOperation)
    → Memᴰ a input.ack_log
    → Memᴰ b input.ack_log
    → IsPromised input.crash_stamp a
    → IsPromised input.crash_stamp b
    → a.key ≡ b.key
    → a.digest ≢ b.digest
    → check_oracle input ≢ []
check_oracle-overwritten_key input a b ma mb pa pb same differ quiet =
    elim ((check_oracle-nil_iff input).0 quiet) [
      | inl none_promised ↦ All-Memᴰ (λ o. ¬ IsPromised input.crash_stamp o) none_promised ma pa
      | inr kept ↦ clash input.recovery kept
    ]
  where
    clash : (r : RecoveryResult) → Upholds input.crash_stamp input.ack_log r → ⊥
    clash (RecoveryResult.failed detail) never = never
    clash (RecoveryResult.opened ok values detail) (_, all_read) =
        let P = λ (o : AckedOperation).
          IsPromised input.crash_stamp o → get o.key values ≡ some o.digest in
        differ (
          some-injective a.digest b.digest (
            sym (All-Memᴰ P all_read ma pa)
            ∙ ap (λ k. get k values) same
            ∙ All-Memᴰ P all_read mb pb))
