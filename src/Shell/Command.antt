-- ===== src/Shell/Command.antt =====
-- The tool Bash (internal/tools/bash.go). The denylist's regular expression is a parameter that gives
-- the matched token; running the command is an argument.
use code_gen_sandbox.Files.Replace.{has_prefix}
use code_gen_sandbox.Lsp.Wire.{format_decimal}
use code_gen_sandbox.Prelude.{
  ltb, leb, ◌==◌, if◌then◌else◌, length, take, ℤ, pos, negsuc, ℕ, ◌+◌, ◌-◌, ◌*◌, ◌≤◌, ◌<◌, ◌≡◌,
  Bool, false, ◌||◌, not, Option, none, some, [], ◌∷◌, ◌++◌, arith, Bytes, codes,
}

abbrev pub default_bash_timeout_sec : ℕ
default_bash_timeout_sec = 120

abbrev pub max_bash_timeout_sec : ℕ
max_bash_timeout_sec = 600

abbrev pub bash_output_cap_bytes : ℕ
bash_output_cap_bytes = 100 * 1024

abbrev pub bash_timeout_exit_code : ℕ
bash_timeout_exit_code = 124

-- `%d` of an integer.
unfoldable pub format_int : ℤ → Bytes
format_int (pos n) = format_decimal n
format_int (negsuc n) = 45 ∷ format_decimal (n + 1)

-- `denyDetails`: the token as the metrics have it, and as the reason has it.
unfoldable pub deny_details : (Bytes → Option Bytes) → Bytes → Option (Bytes × Bytes)
deny_details deny command = elim (deny command) [
  | none ↦ none
  | some raw ↦ some (if has_prefix (codes "mkfs") raw then codes "mkfs" else raw, raw)
]

pub data ArgsResult : Type 0 where
  command_required description_required : ArgsResult
  -- The token counted, and the token of the reason.
  command_rejected : Bytes → Bytes → ArgsResult
  command : Bytes → ArgsResult

-- `validateBashArgs` and `validateWatchArgs`; an argument that is absent is empty.
unfoldable pub validate_bash_args : (Bytes → Option Bytes) → Bytes → Bytes → ArgsResult
validate_bash_args deny [] description = command_required
validate_bash_args deny (c ∷ cs) [] = description_required
validate_bash_args deny (c ∷ cs) (d ∷ ds) = elim (deny_details deny (c ∷ cs)) [
  | none ↦ command (c ∷ cs)
  | some (token, raw) ↦ command_rejected token raw
]

-- An argument converted to an integer, `none` where there is no number; the parsers of the tools clamp
-- it alike.
unfoldable pub clamp_arg : ℕ → ℕ → Option ℤ → ℕ
clamp_arg default_value max_value none = default_value
clamp_arg default_value max_value (some (negsuc n)) = default_value
clamp_arg default_value max_value (some (pos n)) =
    if n == 0 then default_value else if ltb max_value n then max_value else n

unfoldable pub parse_bash_timeout : Option ℤ → ℕ
parse_bash_timeout timeout = clamp_arg default_bash_timeout_sec max_bash_timeout_sec timeout

-- How a command ends: without an error, with an exit code, or with another error.
pub data RunError : Type 0 where
  no_error : RunError
  exit_error : ℤ → RunError
  other_error : RunError

-- `bashExitCode`; nothing where the call fails.
unfoldable pub bash_exit_code : RunError → Bool → Option ℤ
bash_exit_code no_error timed_out = some (pos 0)
bash_exit_code (exit_error code) timed_out = if timed_out then some (pos 124) else some code
bash_exit_code other_error timed_out = if timed_out then some (pos 124) else none

unfoldable pub truncate_output : Bytes → ℕ → Bytes
truncate_output b limit =
    if leb (length b) limit
    then b
    else take limit b
      ++ 10 ∷ codes "... (output truncated, "
      ++ format_decimal (length b - limit)
      ++ codes " bytes elided)"

unfoldable pub ends_with_newline : Bytes → Bool
ends_with_newline [] = false
ends_with_newline (c ∷ []) = c == 10
ends_with_newline (c ∷ d ∷ s) = ends_with_newline (d ∷ s)

unfoldable pub end_line : Bytes → Bytes
end_line [] = []
end_line (c ∷ s) = if ends_with_newline (c ∷ s) then c ∷ s else (c ∷ s) ++ 10 ∷ []

unfoldable pub is_zero : ℤ → Bool
is_zero (pos n) = n == 0
is_zero (negsuc n) = false

unfoldable pub format_bash_output : Bytes → ℤ → Bool → ℕ → Bytes
format_bash_output out exit_code timed_out timeout_sec =
    end_line (truncate_output out bash_output_cap_bytes)
    ++ (if timed_out
        then codes "bash: timed out after " ++ format_decimal timeout_sec ++ codes "s" ++ 10 ∷ []
        else [])
    ++ (if not (is_zero exit_code) || timed_out
        then codes "exit: " ++ format_int exit_code ++ 10 ∷ []
        else [])

pub data BashResult : Type 0 where
  bad_args : ArgsResult → BashResult
  -- The call goes on as `handleBashBackground`.
  in_background : Bytes → BashResult
  run_failed : BashResult
  output : Bytes → BashResult

-- `HandleBash` in a workspace that is chosen; `run` gives the output, the error and whether the
-- deadline passed, for the command and its timeout.
unfoldable pub handle_bash :
    (Bytes → Option Bytes)
    → (Bytes → ℕ → Bytes × RunError × Bool)
    → Bytes
    → Bytes
    → Bool
    → Option ℤ
    → BashResult
handle_bash deny run command_arg description background timeout =
    elim (validate_bash_args deny command_arg description) [
      | command c ↦
          if background
          then in_background c
          else let (out, run_error, timed_out) = run c (parse_bash_timeout timeout) in
            elim (bash_exit_code run_error timed_out) [
              | none ↦ run_failed
              | some code ↦
                  output (format_bash_output out code timed_out (parse_bash_timeout timeout))
            ]
      | bad ↦ bad_args bad
    ]

-- A timeout is at least one second and at most ten minutes.
parse_bash_timeout_bounds :
    (timeout : Option ℤ) → (1 ≤ parse_bash_timeout timeout) × (parse_bash_timeout timeout ≤ 600)
unfolding parse_bash_timeout clamp_arg
parse_bash_timeout_bounds none = (omega arith, omega arith)
parse_bash_timeout_bounds (some (negsuc n)) = (omega arith, omega arith)
parse_bash_timeout_bounds (some (pos n)) = (ground arith, ground arith)

-- A denied command is neither run nor started, whatever the other arguments.
pub handle_bash-denied :
    (deny : Bytes → Option Bytes) (run : Bytes → ℕ → Bytes × RunError × Bool)
    (command description raw : Bytes) (background : Bool) (timeout : Option ℤ)
    → deny command ≡ some raw
    → 0 < length command
    → 0 < length description
    → handle_bash deny run command description background timeout
      ≡ bad_args
          (command_rejected (if has_prefix (codes "mkfs") raw then codes "mkfs" else raw) raw)
unfolding handle_bash validate_bash_args deny_details
handle_bash-denied deny run [] description raw background timeout h l l' = absurd (omega arith)
handle_bash-denied deny run (c ∷ cs) [] raw background timeout h l l' = absurd (omega arith)
handle_bash-denied deny run (c ∷ cs) (d ∷ ds) raw background timeout h l l' = ground arith
