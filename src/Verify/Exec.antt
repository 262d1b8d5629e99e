-- ===== src/Verify/Exec.antt =====
-- The subprocess of a verify tool and the text of its result (internal/tools/exec.go). The lookup on
-- the path and the run itself are parameters.
use code_gen_sandbox.Lsp.Wire.{format_decimal}
use code_gen_sandbox.Shell.Command.{
  RunError, no_error, exit_error, other_error, truncate_output, end_line, format_int,
}
use code_gen_sandbox.Prelude.{
  if◌then◌else◌, ℤ, pos, ℕ, ◌*◌, Bool, Option, none, some, List, [], ◌∷◌, ◌++◌, Bytes, codes,
}

abbrev pub verify_output_cap_bytes : ℕ
verify_output_cap_bytes = 500 * 1024

pub record ExecResult : Type 0 where
  pub stdout : Bytes
  pub stderr : Bytes
  pub exit_code : ℤ
  pub timed_out : Bool

-- What a run leaves: the streams, the error and whether the deadline passed.
pub record Outcome : Type 0 where
  pub out : Bytes
  pub err : Bytes
  pub run_error : RunError
  pub deadline : Bool

pub data VerifyRun : Type 0 where
  empty_command : VerifyRun
  not_on_path : Bytes → VerifyRun
  broken : Bytes → VerifyRun
  ran : ExecResult → VerifyRun

-- The exit code, nothing where the run fails; a deadline goes before everything else.
unfoldable pub verify_exit_code : RunError → Bool → Option ℤ
verify_exit_code run_error deadline = if deadline then some (pos 124) else elim run_error [
  | no_error ↦ some (pos 0)
  | exit_error code ↦ some code
  | other_error ↦ none
]

-- `formatVerifyResult`
unfoldable pub format_verify_result : ExecResult → ℕ → Bytes
format_verify_result res timeout_sec =
    end_line res.stdout
    ++ (elim res.stderr [ [] ↦ [] | c ∷ cs ↦ codes "--- stderr ---" ++ 10 ∷ end_line (c ∷ cs) ])
    ++ (if res.timed_out
        then codes "timed out after " ++ format_decimal timeout_sec ++ codes "s" ++ 10 ∷ []
        else [])
    ++ codes "exit: "
    ++ format_int res.exit_code
    ++ 10 ∷ []

module _ (on_path : Bytes → Bool) (run : List Bytes → ℕ → Outcome) where
  -- `runVerifyCmd`; the working directory is the root of the workspace that the tool has chosen.
  unfoldable pub run_verify_cmd : List Bytes → ℕ → VerifyRun
  run_verify_cmd [] timeout_sec = empty_command
  run_verify_cmd (name ∷ args) timeout_sec =
      if on_path name
      then (let o = run (name ∷ args) timeout_sec in
          elim (verify_exit_code o.run_error o.deadline) [
            | none ↦ broken name
            | some code ↦ ran (record {
              stdout = truncate_output o.out verify_output_cap_bytes;
              stderr = truncate_output o.err verify_output_cap_bytes;
              exit_code = code;
              timed_out = o.deadline;
            })
          ])
      else not_on_path name
