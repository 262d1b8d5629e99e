-- ===== src/Verify.antt =====
-- The verify tools: what a detector gives (internal/verify/detector.go), and the events of a test run
-- that the Go detector reads. A nil command is an empty list.
pub mod Detectors
pub mod Exec
pub mod Dispatch
pub mod Markers
pub mod Lint
pub mod Packages
pub mod Tools
pub mod Covering
pub mod Scripts
pub mod Runs
use code_gen_sandbox.Testing.Events.{Event, TestFailure}
use code_gen_sandbox.Snapshots.{split_all}
use code_gen_sandbox.Prelude.{
  ◌==◌, if◌then◌else◌, ℕ, Option, none, some, List, [], ◌∷◌, Bytes, codes,
}

pub record LintFinding : Type 0 where
  pub file : Bytes
  pub line : ℕ
  pub column : ℕ
  pub rule : Bytes
  pub message : Bytes

pub record Detector : Type 0 where
  pub language : Bytes
  pub test_cmd : List Bytes
  pub lint_cmd : List Bytes
  pub typecheck_cmd : List Bytes
  pub parse_lint : Bytes → Bytes → List LintFinding
  pub parse_test_failures : Bytes → Bytes → List TestFailure
  pub lsp_command : List Bytes
  pub format_check_cmd : Bytes → List Bytes
  pub package_manager : Bytes
  pub script_runner : List Bytes

abbrev pub go_language : Bytes
go_language = codes "go"

-- `decodeEvent`; the trimming of space and JSON are parameters.
module _ (trim_space : Bytes → Bytes) (json_event : Bytes → Option Event) where
  unfoldable pub decode_event : Bytes → Option Event
  decode_event line = elim (trim_space line) [
    | [] ↦ none
    | c ∷ cs ↦ if c == 123 then json_event (c ∷ cs) else none
  ]

  unfoldable pub decode_lines : List Bytes → List Event
  decode_lines [] = []
  decode_lines (line ∷ lines) =
      let rest = decode_lines lines in
      elim (decode_event line) [ none ↦ rest | some ev ↦ ev ∷ rest ]

  -- The events of an output, in order.
  unfoldable pub decode_output : Bytes → List Event
  decode_output stdout = decode_lines (split_all 10 stdout)
