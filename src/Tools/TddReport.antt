-- ===== src/Tools/TddReport.antt =====
-- core/tools/tdd-report.ts: the result of a test run, in the shape that tdd-guard reads. Outside the
-- model stand the two processes, of which the output, the JUnit file and the exit code are given,
-- and writing the result.
pub mod Xml
pub mod Exit
use crash_fuzz.Prelude.{
  ℕ, zero, suc, ◌+◌, ◌-◌, Bool, true, false, not, ◌&&◌, List, [], ◌∷◌, ◌++◌, Option, none, some,
  ◌>>=◌, map, any, length, drop, nat_beq, if◌then◌else◌,
}
use crash_fuzz.Prelude.Text.{Text, codes, trim, starts_with, is_space, or_text, is_blank}
use crash_fuzz.Tools.TddReport.Xml.{
  Element, until, decode_xml, find_attr, attr, suite_at, case_at, match_all, text_includes,
}

pub data TestState : Type 0 where
  passed failed skipped : TestState

-- `errors` are the messages, where there are any.
pub record FormattedTest : Type 0 where
  pub name : Text
  pub full_name : Text
  pub state : TestState
  pub errors : Option (List Text)

pub record ModuleResult : Type 0 where
  pub module_id : Text
  pub tests : List FormattedTest

-- `unhandledErrors` is always empty.
pub record TestRunOutput : Type 0 where
  pub test_modules : List ModuleResult
  pub has_failed : Bool

-- `runTests` gives this.
pub record TestRun : Type 0 where
  pub output : Text
  pub junit : Text
  pub exit_code : ℕ

-- `loadFailure`, its one module
unfoldable pub load_failure : Text → ModuleResult
unfolding trim
load_failure output = record {
  module_id = codes "test run";
  tests =
      record {
        name = codes "test run did not produce results";
        full_name = codes "test run did not produce results";
        state = TestState.failed;
        errors = some (or_text (trim output) (codes "no output") ∷ []);
      }
      ∷ [];
}

abbrev pub test_state : Bool → Bool → TestState
test_state true skip = TestState.failed
test_state false true = TestState.skipped
test_state false false = TestState.passed

abbrev pub full_name_of : Text → Text → Text
full_name_of [] name = name
full_name_of (c ∷ classname) name = (c ∷ classname) ++ (codes " > " ++ name)

unfoldable pub test_of : Text → Element → FormattedTest
unfolding until find_attr decode_xml trim
test_of console_output element =
    let name = attr element.attributes (codes "name") in
    let failing = text_includes (codes "<failure") element.body in
    record {
      name = name;
      full_name = full_name_of (attr element.attributes (codes "classname")) name;
      state = test_state failing (text_includes (codes "<skipped") element.body);
      errors =
          if failing then some (or_text (trim console_output) (codes "test failed") ∷ []) else none;
    }

abbrev pub is_failed : FormattedTest → Bool
is_failed test = elim test.state [
  | TestState.passed ↦ false
  | TestState.failed ↦ true
  | TestState.skipped ↦ false
]

abbrev pub any_failed : List ModuleResult → Bool
any_failed modules = any (λ (m : ModuleResult). any is_failed m.tests) modules

-- A run that exits with an error and has nothing marked failed is recorded as a failure.
abbrev pub with_exit : TestRun → TestRunOutput → TestRunOutput
with_exit run result =
    if not (nat_beq run.exit_code 0) && not (any_failed result.test_modules)
    then record {
      test_modules = result.test_modules ++ load_failure run.output ∷ [];
      has_failed = true;
    }
    else result

-- `join` of node:path and the root of the repository are parameters.
module _ (join : Text → Text → Text) (repo_root : Text) where
  abbrev pub module_of : Text → Element → ModuleResult
  module_of console_output suite =
      let file =
        or_text (attr suite.attributes (codes "file")) (attr suite.attributes (codes "name")) in
      record {
        module_id = join repo_root file;
        tests = map (test_of console_output) (match_all case_at 0 suite.body);
      }

  -- `parseJunit`
  unfoldable pub parse_junit : Text → Text → TestRunOutput
  unfolding match_all suite_at case_at test_of
  parse_junit xml console_output =
      let modules = map (module_of console_output) (match_all suite_at 0 xml) in
      record { test_modules = modules; has_failed = any_failed modules }

  -- `junit.trim() === '' ? loadFailure(output) : parseJunit(junit, output)`
  abbrev pub first_result : TestRun → Text → TestRunOutput
  first_result run [] = record { test_modules = load_failure run.output ∷ []; has_failed = true }
  first_result run (c ∷ s) = parse_junit run.junit run.output

  -- `main`: the result that it writes, and its exit code
  unfoldable pub tdd_report : TestRun → TestRunOutput × ℕ
  unfolding parse_junit load_failure
  tdd_report run =
      let result = with_exit run (first_result run (trim run.junit)) in
      (result, if result.has_failed then 1 else 0)
