-- ===== src/Verify/Detectors.antt =====
-- The four detectors and their order (internal/verify/verify.go, golang.go, rust.go, node.go,
-- python.go). Which files stand at the root, regular expressions and JSON are parameters.
use code_gen_sandbox.Testing.Events.{Event, Text, parse_go_test2_json}
use code_gen_sandbox.Snapshots.{split_all}
use code_gen_sandbox.Lsp.Wire.{atoi_natural}
use code_gen_sandbox.Verify.{LintFinding, Detector, decode_output}
use code_gen_sandbox.Prelude.{
  if◌then◌else◌, ℕ, ite, Bool, ◌||◌, Option, none, some, List, [], ◌∷◌, ◌++◌, Bytes, codes,
  bytes_discrete, has_text,
}

-- The named groups of a line that matches.
pub record LintMatch : Type 0 where
  pub file_group : Bytes
  pub line_group : Bytes
  pub col_group : Bytes
  pub rule_group : Bytes
  pub msg_group : Bytes

pub record EslintMsg : Type 0 where
  pub rule_id : Bytes
  pub message : Bytes
  pub line : ℕ
  pub column : ℕ

pub record EslintFile : Type 0 where
  pub file_path : Bytes
  pub messages : List EslintMsg

-- What the packages `strings`, `regexp` and `encoding/json` give.
pub record Outside : Type 0 where
  pub trim_space : Bytes → Bytes
  pub text : Text
  pub json_event : Bytes → Option Event
  pub json_scripts : Bytes → Option (List Bytes)
  pub json_eslint : Bytes → Option (List EslintFile)
  pub lint_line_re : Bytes → Option LintMatch
  pub clippy_line_re : Bytes → Option LintMatch
  pub ruff_line_re : Bytes → Option LintMatch

-- The number of a group of digits.
unfoldable pub atoi_or_zero : Bytes → ℕ
atoi_or_zero s = elim (atoi_natural s) [ none ↦ 0 | some n ↦ n ]

unfoldable pub finding_of : LintMatch → LintFinding
finding_of m = record {
  file = m.file_group;
  line = atoi_or_zero m.line_group;
  column = atoi_or_zero m.col_group;
  rule = m.rule_group;
  message = m.msg_group;
}

unfoldable pub parse_lint_lines : (Bytes → Option LintMatch) → List Bytes → List LintFinding
parse_lint_lines re [] = []
parse_lint_lines re (line ∷ lines) =
    let rest = parse_lint_lines re lines in
    elim (re line) [ none ↦ rest | some m ↦ finding_of m ∷ rest ]

-- `ParseLint` and `parseLintRegex`
unfoldable pub parse_lint_regex : (Bytes → Option LintMatch) → Bytes → List LintFinding
parse_lint_regex re text = parse_lint_lines re (split_all 10 text)

unfoldable pub eslint_messages : Bytes → List EslintMsg → List LintFinding
eslint_messages file [] = []
eslint_messages file (m ∷ ms) =
    record { file = file; line = m.line; column = m.column; rule = m.rule_id; message = m.message }
    ∷ eslint_messages file ms

unfoldable pub eslint_findings : List EslintFile → List LintFinding
eslint_findings [] = []
eslint_findings (f ∷ fs) = eslint_messages f.file_path f.messages ++ eslint_findings fs

unfoldable pub parse_eslint : Outside → Bytes → List LintFinding
parse_eslint o stdout = elim (o.trim_space stdout) [
  | [] ↦ []
  | c ∷ cs ↦ elim (o.json_eslint (c ∷ cs)) [ none ↦ [] | some files ↦ eslint_findings files ]
]

unfoldable pub go_detector : Outside → Detector
go_detector o = record {
  language = codes "go";
  test_cmd = codes "go" ∷ codes "test" ∷ codes "-json" ∷ codes "-count=1" ∷ codes "./..." ∷ [];
  lint_cmd = codes "golangci-lint" ∷ codes "run" ∷ codes "./..." ∷ [];
  typecheck_cmd = codes "go" ∷ codes "vet" ∷ codes "./..." ∷ [];
  parse_lint = λ stdout stderr. parse_lint_regex o.lint_line_re stdout;
  parse_test_failures =
      λ stdout stderr. parse_go_test2_json o.text (decode_output o.trim_space o.json_event stdout);
  lsp_command = codes "gopls" ∷ codes "serve" ∷ [];
  format_check_cmd = λ file. [];
  package_manager = [];
  script_runner = [];
}

unfoldable pub rust_detector : Outside → Detector
rust_detector o = record {
  language = codes "rust";
  test_cmd = codes "cargo" ∷ codes "test" ∷ [];
  lint_cmd =
      codes "cargo"
      ∷ codes "clippy"
      ∷ codes "--all-targets"
      ∷ codes "--message-format=short"
      ∷ codes "--"
      ∷ codes "-D"
      ∷ codes "warnings"
      ∷ [];
  typecheck_cmd = codes "cargo" ∷ codes "check" ∷ codes "--all-targets" ∷ [];
  parse_lint = λ stdout stderr. parse_lint_regex o.clippy_line_re stderr;
  parse_test_failures = λ stdout stderr. [];
  lsp_command = [];
  format_check_cmd = λ file. codes "rustfmt" ∷ codes "--check" ∷ file ∷ [];
  package_manager = [];
  script_runner = [];
}

unfoldable pub python_detector : Outside → Detector
python_detector o = record {
  language = codes "python";
  test_cmd = codes "pytest" ∷ [];
  lint_cmd = codes "ruff" ∷ codes "check" ∷ codes "--output-format=concise" ∷ codes "." ∷ [];
  typecheck_cmd = codes "mypy" ∷ codes "." ∷ [];
  parse_lint = λ stdout stderr. parse_lint_regex o.ruff_line_re stdout;
  parse_test_failures = λ stdout stderr. [];
  lsp_command = [];
  format_check_cmd =
      λ file. codes "ruff" ∷ codes "format" ∷ codes "--check" ∷ codes "--diff" ∷ file ∷ [];
  package_manager = [];
  script_runner = [];
}

-- `detectNodePackageManager`
unfoldable pub detect_node_package_manager : (Bytes → Bool) → Bytes
detect_node_package_manager file_exists =
    if file_exists (codes "pnpm-lock.yaml")
    then codes "pnpm"
    else if file_exists (codes "yarn.lock")
    then codes "yarn"
    else if file_exists (codes "bun.lockb")
    then codes "bun"
    else codes "npm"

-- `ScriptRunner`
unfoldable pub node_script_runner : Bytes → List Bytes
node_script_runner pm = ite (bytes_discrete pm (codes "yarn")) (codes "yarn" ∷ []) (
    ite (bytes_discrete pm (codes "pnpm")) (codes "pnpm" ∷ codes "run" ∷ []) (
      ite (bytes_discrete pm (codes "bun")) (codes "bun" ∷ codes "run" ∷ [])
        (codes "npm" ∷ codes "run" ∷ [])))

-- The script of the project where it is defined, and the default command otherwise.
unfoldable pub script_or : Bytes → List Bytes → Bytes → List Bytes → List Bytes
script_or pm scripts name default_cmd =
    if has_text name scripts then node_script_runner pm ++ name ∷ [] else default_cmd

-- `readPackageJSONScripts`: the names of the scripts; `package_json` is the file's content, if it is read.
unfoldable pub read_package_json_scripts : Outside → Option Bytes → List Bytes
read_package_json_scripts o none = []
read_package_json_scripts o (some body) = elim (o.json_scripts body) [
  | none ↦ []
  | some scripts ↦ scripts
]

-- `scripts` are the names of the project's scripts.
unfoldable pub node_detector : Outside → Bytes → List Bytes → Detector
node_detector o pm scripts = record {
  language = codes "node";
  test_cmd =
      script_or pm scripts (codes "test") (codes "npm" ∷ codes "test" ∷ codes "--silent" ∷ []);
  lint_cmd = script_or pm scripts (codes "lint") (
      codes "npx" ∷ codes "--no-install" ∷ codes "eslint" ∷ codes "." ∷ codes "--format=json" ∷ []);
  typecheck_cmd =
      script_or pm scripts (codes "typecheck")
        (codes "npx" ∷ codes "--no-install" ∷ codes "tsc" ∷ codes "--noEmit" ∷ []);
  parse_lint = λ stdout stderr. parse_eslint o stdout;
  parse_test_failures = λ stdout stderr. [];
  lsp_command = [];
  format_check_cmd = λ file. codes "prettier" ∷ codes "--check" ∷ file ∷ [];
  package_manager = pm;
  script_runner = node_script_runner pm;
}

unfoldable pub add_if : Bool → Detector → List Detector → List Detector
add_if marker d rest = if marker then d ∷ rest else rest

-- `DetectAll`; `file_exists` is whether a file of that name stands at the root, `package_json` the
-- content of package.json, if it is read.
unfoldable pub detect_all : Outside → (Bytes → Bool) → Option Bytes → List Detector
detect_all o file_exists package_json = add_if (file_exists (codes "go.mod")) (go_detector o) (
    add_if (file_exists (codes "Cargo.toml")) (rust_detector o) (
      add_if (file_exists (codes "package.json"))
        (node_detector o (detect_node_package_manager file_exists)
          (read_package_json_scripts o package_json))
        (add_if (file_exists (codes "pyproject.toml") || file_exists (codes "setup.py"))
          (python_detector o) [])))

-- `Detect`
unfoldable pub detect : List Detector → Option Detector
detect [] = none
detect (d ∷ ds) = some d
