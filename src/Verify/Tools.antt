-- ===== src/Verify/Tools.antt =====
-- The tools run_tests, run_lint and run_typecheck (internal/tools/run_tests.go, run_lint.go,
-- run_typecheck.go), in a workspace that is chosen, over the part of the dependencies that
-- they change. What the system gives is a parameter.
use code_gen_sandbox.Health.{Tracker, observe_test_result, observe_green}
use code_gen_sandbox.Testing.Events.{Event, count_passes}
use code_gen_sandbox.Testing.Rerun.{TestResultStore}
use code_gen_sandbox.Coverage.{ByFile}
use code_gen_sandbox.Coverage.Profile.{ingest}
use code_gen_sandbox.Shell.Command.{clamp_arg, is_zero}
use code_gen_sandbox.Verify.{Detector, go_language, decode_output}
use code_gen_sandbox.Verify.Exec.{
  ExecResult, Outcome, VerifyRun, ran, run_verify_cmd, format_verify_result,
}
use code_gen_sandbox.Verify.Dispatch.{Dispatched, detector, dispatch_by_language}
use code_gen_sandbox.Verify.Lint.{
  LintError, LintRun, linter_missing, linted, lint_with, format_findings,
}
use code_gen_sandbox.Verify.Packages.{extract_go_tests_by_package}
use code_gen_sandbox.Prelude.{
  ltb, ◌==◌, if◌then◌else◌, length, take, drop, ℤ, ℕ, ite, Bool, true, false, ◌&&◌, ◌||◌, Option,
  none, some, List, [], ◌∷◌, ◌++◌, Bytes, codes, bytes_discrete,
}

-- The fields of `Deps` that the tools change; the stores are `none` where they are not wired.
pub record Deps : Type 0 where
  pub health : Tracker
  pub test_results : Option TestResultStore
  pub coverage_index : Option ByFile

-- What the system gives to one call: the lookup on the path, the subprocess, the time, the path of the
-- temporary profile and its content behind the run, and the texts of the packages `strings` and
-- `encoding/json`.
pub record System : Type 0 where
  pub on_path : Bytes → Bool
  pub run : List Bytes → ℕ → Outcome
  pub now : ℕ
  pub profile_path : Option Bytes
  pub profile : Option Bytes
  pub lower_trim : Bytes → Bytes
  pub trim_space : Bytes → Bytes
  pub fields : Bytes → List Bytes
  pub json_event : Bytes → Option Event

pub data ToolResult : Type 0 where
  not_dispatched : Dispatched → ToolResult
  not_run : VerifyRun → ToolResult
  output : Bytes → ToolResult
  not_linted : LintRun → ToolResult
  -- The findings, and the error behind them.
  lint_output : Bytes → Option LintError → ToolResult

unfoldable pub is_go : Detector → Bool
is_go det = ite (bytes_discrete det.language go_language) true false

unfoldable pub parse_run_tests_timeout : Option ℤ → ℕ
parse_run_tests_timeout timeout = clamp_arg 300 1800 timeout

unfoldable pub parse_lint_timeout : Option ℤ → ℕ
parse_lint_timeout timeout = clamp_arg 120 600 timeout

unfoldable pub insert_profile : List Bytes → Bytes → List Bytes
insert_profile base path = take 2 base ++ (codes "-coverprofile=" ++ path) ∷ drop 2 base

-- `augmentTestCmdForCoverage`
unfoldable pub augment_test_cmd_for_coverage :
    Detector → Option ByFile → Option Bytes → List Bytes × Option Bytes
augment_test_cmd_for_coverage det none created = (det.test_cmd, none)
augment_test_cmd_for_coverage det (some index) none = (det.test_cmd, none)
augment_test_cmd_for_coverage det (some index) (some path) =
    if is_go det then (insert_profile det.test_cmd path, some path) else (det.test_cmd, none)

-- `recordTestResult`; `events` are those of the output.
unfoldable pub record_test_result :
    Option TestResultStore → Detector → ExecResult → List Event → ℕ → Option TestResultStore
record_test_result none det res events now = none
record_test_result (some store) det res events now =
    let failures = det.parse_test_failures res.stdout res.stderr in
    some (
      some (record {
        language = det.language;
        failures = failures;
        tests_passed = if is_go det then some (count_passes events) else none;
        at = now;
        supported = ltb 0 (length failures) || is_go det;
      }))

-- `ingestCoverage`; the profile is `none` where the file is not there or is not read.
unfoldable pub ingest_coverage :
    System → Option ByFile → Detector → List Event → Option Bytes → Option ByFile
ingest_coverage sys none det events profile_path = none
ingest_coverage sys (some index) det events none = some index
ingest_coverage sys (some index) det events (some path) =
    let tests_by_package = extract_go_tests_by_package events in
    if is_go det && ltb 0 (length tests_by_package)
    then some (ingest sys.trim_space sys.fields index sys.profile tests_by_package)
    else some index

unfoldable pub green_if : Bool → ℕ → Tracker → Tracker
green_if is_green now t = if is_green then observe_green t now else t

-- `HandleRunTests` behind the run.
unfoldable pub finish_tests : System → Detector → ExecResult → Option Bytes → Deps → Deps
finish_tests sys det res profile_path deps =
    let events = decode_output sys.trim_space sys.json_event res.stdout in
    record {
      health = green_if (is_zero res.exit_code) sys.now (
          observe_test_result deps.health (length (det.parse_test_failures res.stdout res.stderr)));
      test_results = record_test_result deps.test_results det res events sys.now;
      coverage_index = ingest_coverage sys deps.coverage_index det events profile_path;
    }

unfoldable pub run_tests : System → Detector → ℕ → Deps → ToolResult × Deps
run_tests sys det timeout_sec deps =
    let (test_cmd, profile_path) =
      augment_test_cmd_for_coverage det deps.coverage_index sys.profile_path in
    elim (run_verify_cmd sys.on_path sys.run test_cmd timeout_sec) [
      | ran res ↦ (
        output (format_verify_result res timeout_sec),
        finish_tests sys det res profile_path deps,
      )
      | failed ↦ (not_run failed, deps)
    ]

-- `HandleRunTests`
unfoldable pub handle_run_tests :
    System → List Detector → Bytes → Option ℤ → Deps → ToolResult × Deps
handle_run_tests sys all language timeout deps =
    elim (dispatch_by_language sys.lower_trim all language) [
      | detector det ↦ run_tests sys det (parse_run_tests_timeout timeout) deps
      | refused ↦ (not_dispatched refused, deps)
    ]

unfoldable pub run_typecheck : System → Detector → ℕ → Deps → ToolResult × Deps
run_typecheck sys det timeout_sec deps =
    elim (run_verify_cmd sys.on_path sys.run det.typecheck_cmd timeout_sec) [
      | ran res ↦ (
        output (format_verify_result res timeout_sec),
        record deps { health = green_if (is_zero res.exit_code) sys.now deps.health },
      )
      | failed ↦ (not_run failed, deps)
    ]

-- `HandleRunTypecheck`
unfoldable pub handle_run_typecheck :
    System → List Detector → Bytes → Option ℤ → Deps → ToolResult × Deps
handle_run_typecheck sys all language timeout deps =
    elim (dispatch_by_language sys.lower_trim all language) [
      | detector det ↦ run_typecheck sys det (clamp_arg 120 600 timeout) deps
      | refused ↦ (not_dispatched refused, deps)
    ]

-- `HandleRunLint` behind the run: `lintErrorResult`, the text, and the green path.
unfoldable pub finish_lint : ℕ → LintRun → Deps → ToolResult × Deps
finish_lint now linter_missing deps = (not_linted linter_missing, deps)
finish_lint now (linted findings none) deps = (
  lint_output (format_findings findings) none,
  record deps { health = green_if (length findings == 0) now deps.health },
)
finish_lint now (linted [] (some e)) deps = (not_linted (linted [] (some e)), deps)
finish_lint now (linted (f ∷ fs) (some e)) deps =
    (lint_output (format_findings (f ∷ fs)) (some e), deps)

unfoldable pub handle_run_lint :
    System → List Detector → Bytes → Option ℤ → Deps → ToolResult × Deps
handle_run_lint sys all language timeout deps =
    elim (dispatch_by_language sys.lower_trim all language) [
      | detector det ↦
          finish_lint sys.now (lint_with sys.on_path sys.run det (parse_lint_timeout timeout)) deps
      | refused ↦ (not_dispatched refused, deps)
    ]
