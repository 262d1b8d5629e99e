-- ===== src/Testing/LastFailures.antt =====
-- The tool last_test_failures (internal/tools/last_test_failures.go): what it shows of the stored
-- result. Times are in nanoseconds; a count of `none` is -1 in the source.
use code_gen_sandbox.Testing.Events.{TestFailure}
use code_gen_sandbox.Testing.Rerun.{TestResult, TestResultStore}
use code_gen_sandbox.Snapshots.{split_all}
use code_gen_sandbox.Lsp.Wire.{format_decimal}
use code_gen_sandbox.Shell.Command.{clamp_arg}
use code_gen_sandbox.Prelude.{
  ltb, if◌then◌else◌, length, take, length-take, ℤ, ℕ, ◌+◌, ◌-◌, ◌/◌, ◌%◌, ◌^◌, ◌≤◌, ◌≡◌, not,
  Option, none, some, List, [], ◌∷◌, ◌++◌, arith, Bytes, codes,
}

abbrev pub default_last_failures_limit : ℕ
default_last_failures_limit = 50

abbrev pub max_last_failures_limit : ℕ
max_last_failures_limit = 500

unfoldable pub parse_last_failures_limit : Option ℤ → ℕ
parse_last_failures_limit limit =
    clamp_arg default_last_failures_limit max_last_failures_limit limit

-- `formatTestCount`
unfoldable pub format_test_count : Option ℕ → Bytes
format_test_count none = codes "passed"
format_test_count (some n) = format_decimal n ++ codes " tests passed"

-- `humanizeSince`, of nanoseconds.
unfoldable pub humanize_since : ℕ → Bytes
humanize_since d =
    let seconds = d / 10 ^ 9 in
    if ltb seconds 1
    then codes "just now"
    else if ltb seconds 60
    then format_decimal seconds ++ codes "s"
    else if ltb seconds 3600
    then format_decimal (seconds / 60) ++ codes "m" ++ format_decimal (seconds % 60) ++ codes "s"
    else format_decimal (seconds / 3600)
      ++ codes "h"
      ++ format_decimal (seconds / 60 % 60)
      ++ codes "m"

abbrev indent : Bytes → Bytes
indent s = codes "   " ++ s ++ 10 ∷ []

unfoldable pub diff_lines : List Bytes → Bytes
diff_lines [] = []
diff_lines (l ∷ ls) = indent l ++ diff_lines ls

-- `writeFailureBlock`
unfoldable pub failure_block : ℕ → TestFailure → Bytes
failure_block index f =
    (format_decimal index ++ codes ". " ++ f.test_name ++ 10 ∷ [])
    ++ (elim f.file [
      | [] ↦ []
      | c ∷ cs ↦
          if ltb 0 f.line then indent ((c ∷ cs) ++ codes ":" ++ format_decimal f.line) else []
    ])
    ++ (elim f.message [ [] ↦ [] | c ∷ cs ↦ indent (c ∷ cs) ])
    ++ (elim f.diff [
      | [] ↦ []
      | c ∷ cs ↦ indent (codes "--- diff ---") ++ diff_lines (split_all 10 (c ∷ cs))
    ])
    ++ 10 ∷ []

unfoldable pub failure_blocks : ℕ → List TestFailure → Bytes
failure_blocks index [] = []
failure_blocks index (f ∷ fs) = failure_block index f ++ failure_blocks (index + 1) fs

-- The failures that are shown, and how many are not.
unfoldable pub shown_failures : List TestFailure → ℕ → List TestFailure × ℕ
shown_failures failures limit =
    if ltb limit (length failures)
    then (take limit failures, length failures - length (take limit failures))
    else (failures, 0)

unfoldable pub render_failure_list : TestResult → ℕ → Bytes → Bytes
render_failure_list r limit age =
    let (shown, more) = shown_failures r.failures limit in
    (format_decimal (length r.failures)
      ++ codes " test failure(s) from last run_tests call ("
      ++ r.language
      ++ codes ", "
      ++ age
      ++ codes " ago):"
      ++ 10 ∷ 10 ∷ [])
    ++ failure_blocks 1 shown
    ++ (if ltb limit (length r.failures)
        then codes "("
          ++ format_decimal more
          ++ codes " more entries truncated; pass a larger limit to see them)"
          ++ 10 ∷ []
        else [])

unfoldable pub render_last_failures : TestResult → ℕ → ℕ → Bytes
render_last_failures r limit elapsed =
    let age = humanize_since elapsed in
    if not r.supported
    then codes "no structured failures available for "
      ++ r.language
      ++ codes " (last run_tests "
      ++ age
      ++ codes " ago)"
    else elim r.failures [
      | [] ↦
          codes "last run_tests had no failures ("
          ++ format_test_count r.tests_passed
          ++ codes ", "
          ++ r.language
          ++ codes ", "
          ++ age
          ++ codes " ago)"
      | f ∷ fs ↦ render_failure_list r limit age
    ]

pub data LastFailures : Type 0 where
  not_configured no_run_yet : LastFailures
  rendered : Bytes → LastFailures

-- `HandleLastTestFailures`; `now` is the time of the call.
unfoldable pub handle_last_test_failures : Option TestResultStore → Option ℤ → ℕ → LastFailures
handle_last_test_failures none limit now = not_configured
handle_last_test_failures (some none) limit now = no_run_yet
handle_last_test_failures (some (some r)) limit now =
    rendered (render_last_failures r (parse_last_failures_limit limit) (now - r.at))

-- The failures that are shown and those that are only counted are all the failures, and at most as
-- many as the limit are shown.
pub shown_failures_lem :
    (failures : List TestFailure) (limit : ℕ)
    → ((shown_failures failures limit).1 + length (shown_failures failures limit).0
        ≡ length failures)
      × (length (shown_failures failures limit).0 ≤ limit)
unfolding shown_failures
shown_failures_lem failures limit =
    let a = length-take limit failures in (ground arith, ground arith)
