-- ===== src/Verify/Lint.antt =====
-- The linter and the formatter of a project (internal/verify/lint.go and format.go) and the text of the
-- findings (internal/tools/run_lint.go). The subprocess is a parameter.
use code_gen_sandbox.Testing.Rerun.{join}
use code_gen_sandbox.Snapshots.{split_all}
use code_gen_sandbox.Lsp.Wire.{format_decimal}
use code_gen_sandbox.Shell.Command.{RunError, no_error, exit_error, other_error}
use code_gen_sandbox.Verify.{LintFinding, Detector}
use code_gen_sandbox.Verify.Exec.{Outcome}
use code_gen_sandbox.Prelude.{
  leb, if◌then◌else◌, length, take, pos, negsuc, ℕ, ◌-◌, Bool, true, false, Option, none, some,
  List, [], ◌∷◌, ◌++◌, Bytes, codes,
}

pub data LintError : Type 0 where
  timed_out spawn_failed linter_failed : LintError

pub data LintRun : Type 0 where
  linter_missing : LintRun
  linted : List LintFinding → Option LintError → LintRun

-- An exit code of 2 or more is a failure of the linter.
unfoldable pub lint_error : RunError → Bool → Option LintError
lint_error run_error deadline = if deadline then some timed_out else elim run_error [
  | no_error ↦ none
  | exit_error (pos n) ↦ if leb 2 n then some linter_failed else none
  | exit_error (negsuc n) ↦ none
  | other_error ↦ some spawn_failed
]

unfoldable pub finding_line : LintFinding → Bytes
finding_line f =
    f.file
    ++ 58 ∷ format_decimal f.line
    ++ 58 ∷ format_decimal f.column
    ++ 58 ∷ f.rule
    ++ 58 ∷ 32 ∷ f.message
    ++ 10 ∷ []

unfoldable pub finding_lines : List LintFinding → Bytes
finding_lines [] = []
finding_lines (f ∷ fs) = finding_line f ++ finding_lines fs

-- `formatFindings`
unfoldable pub format_findings : List LintFinding → Bytes
format_findings findings =
    finding_lines findings ++ format_decimal (length findings) ++ codes " findings" ++ 10 ∷ []

pub data FormatRun : Type 0 where
  no_formatter : FormatRun
  formatter_missing : Bytes → FormatRun
  -- Whether the file is formatted, and the output.
  checked : Bool → Bytes → FormatRun

unfoldable pub is_no_error : RunError → Bool
is_no_error no_error = true
is_no_error (exit_error code) = false
is_no_error other_error = false

abbrev pub post_edit_format_max_lines : ℕ
post_edit_format_max_lines = 500

-- `truncateFormatOutput`
unfoldable pub truncate_format_output : Bytes → ℕ → Bytes
truncate_format_output text max_lines =
    let lines = split_all 10 text in
    if leb (length lines) max_lines
    then text
    else join (10 ∷ []) (take max_lines lines)
      ++ 10 ∷ codes "... ("
      ++ format_decimal (length lines - max_lines)
      ++ codes " lines truncated)"
      ++ 10 ∷ []

module _ (on_path : Bytes → Bool) (run : List Bytes → ℕ → Outcome) where
  -- `LintWith`, of a detector that is not nil.
  unfoldable pub lint_with : Detector → ℕ → LintRun
  lint_with det timeout_sec = elim det.lint_cmd [
    | [] ↦ linted [] none
    | name ∷ args ↦
        if on_path name
        then (let o = run (name ∷ args) timeout_sec in
            linted (det.parse_lint o.out o.err) (lint_error o.run_error o.deadline))
        else linter_missing
  ]

  -- `FormatCheck`; the error that goes with a result is not shown by its caller. `out` is the combined
  -- output.
  unfoldable pub format_check : Option Detector → Bytes → ℕ → FormatRun
  format_check none rel_file timeout_sec = no_formatter
  format_check (some det) rel_file timeout_sec = elim (det.format_check_cmd rel_file) [
    | [] ↦ no_formatter
    | name ∷ args ↦
        if on_path name
        then (let o = run (name ∷ args) timeout_sec in checked (is_no_error o.run_error) o.out)
        else formatter_missing name
  ]

-- `postEditFormatFeedback` behind the check; `trim_right` cuts the newlines at the end.
unfoldable pub post_edit_format_feedback : (Bytes → Bytes) → FormatRun → Bytes
post_edit_format_feedback trim_right no_formatter = []
post_edit_format_feedback trim_right (formatter_missing name) =
    codes "post-edit format: " ++ name ++ codes " not found on PATH"
post_edit_format_feedback trim_right (checked true output) = []
post_edit_format_feedback trim_right (checked false output) =
    trim_right
      (codes "--- format ---" ++ 10 ∷ truncate_format_output output post_edit_format_max_lines)
