-- ===== src/Verify/Runs.antt =====
-- What a run of the tests leaves behind (internal/tools/run_tests.go): the coverage index, and the
-- state where the call is refused; and a linter that is killed (internal/tools/run_lint.go).
use code_gen_sandbox.Health.{observe_green}
use code_gen_sandbox.Coverage.{ByFile}
use code_gen_sandbox.Coverage.Profile.{parse_coverage_profile, ingest}
use code_gen_sandbox.Coverage.Query.{covering_names}
use code_gen_sandbox.Coverage.Attribution.{has_text-covering_names}
use code_gen_sandbox.Shell.Command.{exit_error}
use code_gen_sandbox.Verify.{Detector, decode_output}
use code_gen_sandbox.Verify.Exec.{
  ExecResult, Outcome, VerifyRun, empty_command, not_on_path, broken, ran, run_verify_cmd,
  format_verify_result,
}
use code_gen_sandbox.Verify.Dispatch.{
  Dispatched, no_project, polyglot, not_detected, detector, dispatch_by_language,
}
use code_gen_sandbox.Verify.Lint.{linted, lint_error, lint_with, format_findings}
use code_gen_sandbox.Testing.Events.{Event}
use code_gen_sandbox.Verify.Packages.{extract_go_tests_by_package}
use code_gen_sandbox.Verify.Covering.{any_end, covers, attributed-covers, has_tests-add_events}
use code_gen_sandbox.Verify.Tools.{
  Deps, System, output, lint_output, is_go, augment_test_cmd_for_coverage, ingest_coverage,
  finish_tests, run_tests, handle_run_tests, parse_run_tests_timeout, green_if, parse_lint_timeout,
  finish_lint, handle_run_lint,
}
use code_gen_sandbox.Prelude.{
  ltb, if◌then◌else◌, Bool-cases, length, ℤ, negsuc, ℕ, ◌≡◌, refl, ap, ◌∙◌, ◌≢◌, inl, inr, Bool,
  true, false, Option, none, some, List, [], ◌∷◌, arith, Bytes, has_text,
}

-- The names that a query finds where there is an index.
abbrev pub names_in : Option ByFile → Bytes → ℕ → List Bytes
names_in none file line = []
names_in (some by_file) file line = covering_names by_file file line

-- Whether a query finds the name behind a run with these events, given whether it did before, the path
-- made for the profile and the profile's content.
unfoldable pub finds_after :
    System → List Event → Bool → Option Bytes → Option Bytes → Bytes → ℕ → Bytes → Bool
finds_after sys evs before none profile file line name = before
finds_after sys evs before (some path) none file line name = before
finds_after sys evs before (some path) (some profile) file line name =
    if any_end evs
    then covers evs file line name (parse_coverage_profile sys.trim_space sys.fields profile)
    else before

ingest_coverage-finds :
    (sys : System) (det : Detector) (index : ByFile) (evs : List Event)
    (path profile : Option Bytes) (file : Bytes) (line : ℕ) (name : Bytes)
    → is_go det ≡ true
    → sys.profile ≡ profile
    → has_text name (names_in (ingest_coverage sys (some index) det evs path) file line)
      ≡ finds_after sys evs
          (has_text name (covering_names index file line))
          path
          profile
          file
          line
          name
unfolding ingest_coverage finds_after ingest
ingest_coverage-finds sys det index evs none profile file line name g e = refl
ingest_coverage-finds sys det index evs (some path) none file line name g e = ground arith
ingest_coverage-finds sys det index evs (some path) (some profile) file line name g e =
    let records = parse_coverage_profile sys.trim_space sys.fields profile in
    let tests = extract_go_tests_by_package evs in
    let c = has_text-covering_names records tests file line name in
    let a = attributed-covers evs file line name records in
    let t : ltb 0 (length tests) ≡ any_end evs =
      unfold extract_go_tests_by_package in (let h = has_tests-add_events evs [] in ground arith) in
    elim (Bool-cases (any_end evs)) [ inl q ↦ ground arith | inr q ↦ ground arith ]

augment-path :
    (det : Detector) (index : ByFile) (path : Option Bytes)
    → is_go det ≡ true
    → (augment_test_cmd_for_coverage det (some index) path).1 ≡ path
unfolding augment_test_cmd_for_coverage
augment-path det index none g = refl
augment-path det index (some path) g = ground arith

-- Behind a run of Go tests, whatever its outcome, where there is a coverage index: when a path for the
-- profile was made, the profile is read and some event of the output says that a test passed or failed,
-- a query finds exactly the qualified names of the tests that passed or failed, they or a subtest, in a
-- package of which a record of the profile touches the line; otherwise it finds what it found before.
pub run_tests-covering :
    (sys : System) (det : Detector) (timeout_sec : ℕ) (deps : Deps) (index : ByFile)
    (res : ExecResult) (file : Bytes) (line : ℕ) (name : Bytes)
    → is_go det ≡ true
    → deps.coverage_index ≡ some index
    → run_verify_cmd sys.on_path sys.run
        (augment_test_cmd_for_coverage det deps.coverage_index sys.profile_path).0
        timeout_sec
      ≡ ran res
    → let evs = decode_output sys.trim_space sys.json_event res.stdout in
      let after = (run_tests sys det timeout_sec deps).1 in
      has_text name (names_in after.coverage_index file line)
      ≡ finds_after sys evs
          (has_text name (covering_names index file line))
          sys.profile_path
          sys.profile
          file
          line
          name
unfolding run_tests finish_tests
run_tests-covering sys det timeout_sec deps index res file line name g i r =
    let evs = decode_output sys.trim_space sys.json_event res.stdout in
    let p : (augment_test_cmd_for_coverage det deps.coverage_index sys.profile_path).1
        ≡ sys.profile_path =
      ap (λ o. (augment_test_cmd_for_coverage det o sys.profile_path).1) i
      ∙ augment-path det index sys.profile_path g in
    let c =
      ingest_coverage-finds sys det index evs sys.profile_path sys.profile file line name g refl in
    let d : (run_tests sys det timeout_sec deps).1.coverage_index
        ≡ ingest_coverage sys (some index) det evs sys.profile_path =
      ground arith in
    ap (λ o. has_text name (names_in o file line)) d ∙ c

run_tests-refused :
    (sys : System) (det : Detector) (timeout_sec : ℕ) (deps : Deps)
    → ((text : Bytes) → (run_tests sys det timeout_sec deps).0 ≢ output text)
    → (run_tests sys det timeout_sec deps).1 ≡ deps
unfolding run_tests
run_tests-refused sys det timeout_sec deps h =
    let (cmd, path) = augment_test_cmd_for_coverage det deps.coverage_index sys.profile_path in
    by_run (run_verify_cmd sys.on_path sys.run cmd timeout_sec) refl
  where
    by_run :
        (r : VerifyRun)
        → run_verify_cmd sys.on_path sys.run
            (augment_test_cmd_for_coverage det deps.coverage_index sys.profile_path).0
            timeout_sec
          ≡ r
        → (run_tests sys det timeout_sec deps).1 ≡ deps
    by_run empty_command e = ground arith
    by_run (not_on_path name) e = ground arith
    by_run (broken name) e = ground arith
    by_run (ran res) e =
        let a = h (format_verify_result res timeout_sec) in absurd (a (ground arith))

-- A call of run_tests that answers no output, because no detector is chosen or because the command is
-- not started, changes nothing.
pub handle_run_tests-refused :
    (sys : System) (all : List Detector) (language : Bytes) (timeout : Option ℤ) (deps : Deps)
    → ((text : Bytes) → (handle_run_tests sys all language timeout deps).0 ≢ output text)
    → (handle_run_tests sys all language timeout deps).1 ≡ deps
unfolding handle_run_tests
handle_run_tests-refused sys all language timeout deps h =
    by_choice (dispatch_by_language sys.lower_trim all language) refl
  where
    by_choice :
        (choice : Dispatched)
        → dispatch_by_language sys.lower_trim all language ≡ choice
        → (handle_run_tests sys all language timeout deps).1 ≡ deps
    by_choice no_project e = ground arith
    by_choice (polyglot n l) e = ground arith
    by_choice (not_detected t l) e = ground arith
    by_choice (detector det) e =
        let timeout_sec = parse_run_tests_timeout timeout in
        let a : (handle_run_tests sys all language timeout deps).0
            ≡ (run_tests sys det timeout_sec deps).0 =
          ground arith in
        let b = run_tests-refused sys det timeout_sec deps (λ text q. h text (a ∙ q)) in
        ground arith

lint_with-killed :
    (sys : System) (det : Detector) (timeout_sec n : ℕ) (name : Bytes) (args : List Bytes)
    (o : Outcome)
    → det.lint_cmd ≡ name ∷ args
    → sys.on_path name ≡ true
    → sys.run (name ∷ args) timeout_sec ≡ o
    → o.run_error ≡ exit_error (negsuc n)
    → o.deadline ≡ false
    → lint_with sys.on_path sys.run det timeout_sec ≡ linted (det.parse_lint o.out o.err) none
unfolding lint_with lint_error
lint_with-killed sys det timeout_sec n name args o c p r e d = ground arith

-- A linter that is killed by a signal before its deadline and printed no finding counts as a clean run:
-- no finding is reported, without an error, and the time is stamped as green.
pub handle_run_lint-killed :
    (sys : System) (all : List Detector) (language : Bytes) (timeout : Option ℤ) (deps : Deps)
    (det : Detector) (n : ℕ) (name : Bytes) (args : List Bytes) (o : Outcome)
    → dispatch_by_language sys.lower_trim all language ≡ detector det
    → det.lint_cmd ≡ name ∷ args
    → sys.on_path name ≡ true
    → sys.run (name ∷ args) (parse_lint_timeout timeout) ≡ o
    → o.run_error ≡ exit_error (negsuc n)
    → o.deadline ≡ false
    → det.parse_lint o.out o.err ≡ []
    → handle_run_lint sys all language timeout deps ≡ (
      lint_output (format_findings []) none,
      record deps { health = observe_green deps.health sys.now },
    )
unfolding handle_run_lint
handle_run_lint-killed sys all language timeout deps det n name args o d c p r e f g =
    let l = lint_with-killed sys det (parse_lint_timeout timeout) n name args o c p r e f in
    unfold finish_lint green_if in ground arith
