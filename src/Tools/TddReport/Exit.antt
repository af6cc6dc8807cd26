-- ===== src/Tools/TddReport/Exit.antt =====
-- What the exit code of core/tools/tdd-report.ts says of the run.
use crash_fuzz.Prelude.{
  ℕ, sym, ◌≡◌, ◌≢◌, ◌↔◌, refl, ap, ◌∙◌, Bool, true, false, not, ◌&&◌, ◌||◌, List, [], ◌∷◌, ◌++◌,
  arith, nat_beq, Bool-cases, inl, inr, if◌then◌else◌,
}
use crash_fuzz.Prelude.Text.{Text, trim}
use crash_fuzz.Tools.TddReport.{
  TestRun, TestRunOutput, ModuleResult, any_failed, load_failure, parse_junit, first_result,
  with_exit, tdd_report,
}

-- The flag of a result says whether a test of it failed.
abbrev IsConsistent : TestRunOutput → Type 0
IsConsistent result = result.has_failed ≡ any_failed result.test_modules

any_failed-load_failure :
    (modules : List ModuleResult) (output : Text)
    → any_failed (modules ++ load_failure output ∷ []) ≡ true
unfolding load_failure
any_failed-load_failure [] output = refl
any_failed-load_failure (m ∷ ms) output = ground (arith, any_failed-load_failure ms output)

with_exit-has_failed :
    (run : TestRun) (result : TestRunOutput)
    → IsConsistent result
    → (with_exit run result).has_failed
      ≡ (not (nat_beq run.exit_code 0) || any_failed result.test_modules)
with_exit-has_failed run result h =
    go (nat_beq run.exit_code 0) (any_failed result.test_modules) result.has_failed h
  where
    go :
        (zero_exit failed flag : Bool)
        → flag ≡ failed
        → TestRunOutput.has_failed (
            if not zero_exit && not failed
            then record {
              test_modules = result.test_modules ++ load_failure run.output ∷ [];
              has_failed = true;
            }
            else record { test_modules = result.test_modules; has_failed = flag })
          ≡ (not zero_exit || failed)
    go true failed flag e = e
    go false true flag e = e
    go false false flag e = refl

with_exit-IsConsistent :
    (run : TestRun) (result : TestRunOutput)
    → IsConsistent result
    → IsConsistent (with_exit run result)
with_exit-IsConsistent run result h =
    elim (Bool-cases (not (nat_beq run.exit_code 0) && not (any_failed result.test_modules))) [
      | inl e ↦ rw e (sym (any_failed-load_failure result.test_modules run.output))
      | inr e ↦ rw e h
    ]

abbrev code : Bool → ℕ
code failed = if failed then 1 else 0

code_zero :
    (n : ℕ) (failed : Bool)
    → (code (not (nat_beq n 0) || failed) ≡ 0) ↔ ((n ≡ 0) × (failed ≡ false))
code_zero n failed = (λ e. ground arith, λ p. let (e, f) = p in ground arith)

module _ (join : Text → Text → Text) (repo_root : Text) where
  first_result-IsConsistent :
      (run : TestRun) (junit : Text) → IsConsistent (first_result join repo_root run junit)
  unfolding parse_junit load_failure
  first_result-IsConsistent run [] = refl
  first_result-IsConsistent run (c ∷ s) = refl

  -- What the exit code is, by the text of the JUnit file without its margins.
  exit_iff :
      (run : TestRun) (junit : Text)
      → (code (with_exit run (first_result join repo_root run junit)).has_failed ≡ 0) ↔ (
          (run.exit_code ≡ 0)
          × (junit ≢ [])
          × (any_failed (parse_junit join repo_root run.junit run.output).test_modules ≡ false))
  unfolding parse_junit load_failure
  exit_iff run [] =
      let flag = with_exit-has_failed run (first_result join repo_root run []) refl in
      let (there, back) = code_zero run.exit_code true in
      (λ e. absurd (cc ((there (ap code (sym flag) ∙ e)).1)), λ p. absurd (p.1 refl))
  exit_iff run (c ∷ s) =
      let result = first_result join repo_root run (c ∷ s) in
      let flag = with_exit-has_failed run result refl in
      let (there, back) = code_zero run.exit_code (any_failed result.test_modules) in
      (
        λ e. let (x, y) = there (ap code (sym flag) ∙ e) in (x, λ h. absurd (cc h), y),
        λ p. ap code flag ∙ back (p.0, p.2),
      )

  -- The report exits with 0 exactly when the run did, its JUnit file is not blank, and no test in it
  -- is marked failed; and the reason that it writes is failed exactly when a test of what it writes
  -- is: a run that fails with no failed test, or that leaves no JUnit file, gets one.
  pub tdd_report_zero_iff :
      (run : TestRun)
      → (((tdd_report join repo_root run).1 ≡ 0) ↔ (
          (run.exit_code ≡ 0)
          × (trim run.junit ≢ [])
          × (any_failed (parse_junit join repo_root run.junit run.output).test_modules ≡ false)))
        × ((tdd_report join repo_root run).0.has_failed
            ≡ any_failed (tdd_report join repo_root run).0.test_modules)
  unfolding tdd_report
  tdd_report_zero_iff run = (
    exit_iff run (trim run.junit),
    with_exit-IsConsistent run (first_result join repo_root run (trim run.junit))
        (first_result-IsConsistent run (trim run.junit)),
  )
