-- ===== src/Verify/Scripts.antt =====
-- The tool run_script (internal/tools/run_script.go), in a workspace that is chosen.
use mathlib.Core.List.{reverse}
use code_gen_sandbox.Testing.Rerun.{text_lt, join}
use code_gen_sandbox.Shell.Command.{clamp_arg}
use code_gen_sandbox.Verify.{Detector}
use code_gen_sandbox.Verify.Exec.{VerifyRun, ran, run_verify_cmd, format_verify_result}
use code_gen_sandbox.Verify.Dispatch.{Dispatched, detector, dispatch_by_language}
use code_gen_sandbox.Verify.Tools.{System}
use code_gen_sandbox.Prelude.{
  if◌then◌else◌, ℤ, ℕ, Option, none, some, List, [], ◌∷◌, ◌++◌, Bytes, codes, has_text,
}

-- package.json: not there, not readable, or its content.
pub data PackageFile : Type 0 where
  missing unreadable : PackageFile
  content : Bytes → PackageFile

pub data PackageScripts : Type 0 where
  not_found not_read not_parsed : PackageScripts
  scripts : List Bytes → PackageScripts

-- `readPackageScripts`: the names of the scripts; JSON is a parameter.
unfoldable pub read_package_scripts : (Bytes → Option (List Bytes)) → PackageFile → PackageScripts
read_package_scripts json_scripts missing = not_found
read_package_scripts json_scripts unreadable = not_read
read_package_scripts json_scripts (content body) = elim (json_scripts body) [
  | none ↦ not_parsed
  | some names ↦ scripts names
]

pub data ScriptResult : Type 0 where
  not_dispatched : Dispatched → ScriptResult
  no_scripts name_required : ScriptResult
  bad_package : PackageScripts → ScriptResult
  -- The name, and those that there are.
  no_script : Bytes → Bytes → ScriptResult
  not_run : VerifyRun → ScriptResult
  output : Bytes → ScriptResult

unfoldable pub parse_run_script_timeout : Option ℤ → ℕ
parse_run_script_timeout timeout = clamp_arg 300 1800 timeout

-- The inner loop of `sortStringsInPlace`; the sorted part stands with its last text first.
unfoldable pub sift_back : Bytes → List Bytes → List Bytes
sift_back x [] = x ∷ []
sift_back x (y ∷ ys) = let rest = sift_back x ys in if text_lt x y then y ∷ rest else x ∷ y ∷ ys

unfoldable pub sort_onto : List Bytes → List Bytes → List Bytes
sort_onto done [] = reverse done
sort_onto done (x ∷ xs) = sort_onto (sift_back x done) xs

unfoldable pub sort_strings_in_place : List Bytes → List Bytes
sort_strings_in_place s = sort_onto [] s

-- `joinScriptNames`
unfoldable pub join_script_names : List Bytes → Bytes
join_script_names [] = codes "(none defined)"
join_script_names (n ∷ ns) = join (codes ", ") (sort_strings_in_place (n ∷ ns))

-- `HandleRunScript` with a detector that has a runner.
unfoldable pub run_script : System → List Bytes → Bytes → PackageScripts → ℕ → ScriptResult
run_script sys runner [] package_scripts timeout_sec = name_required
run_script sys runner (c ∷ cs) not_found timeout_sec = bad_package not_found
run_script sys runner (c ∷ cs) not_read timeout_sec = bad_package not_read
run_script sys runner (c ∷ cs) not_parsed timeout_sec = bad_package not_parsed
run_script sys runner (c ∷ cs) (scripts names) timeout_sec =
    if has_text (c ∷ cs) names
    then (elim (run_verify_cmd sys.on_path sys.run (runner ++ (c ∷ cs) ∷ []) timeout_sec) [
      | ran res ↦ output (format_verify_result res timeout_sec)
      | failed ↦ not_run failed
    ])
    else no_script (c ∷ cs) (join_script_names names)

unfoldable pub handle_run_script :
    (Bytes → Option (List Bytes))
    → System
    → List Detector
    → Bytes
    → Bytes
    → PackageFile
    → Option ℤ
    → ScriptResult
handle_run_script json_scripts sys all language name package_file timeout =
    elim (dispatch_by_language sys.lower_trim all language) [
      | detector det ↦ elim det.script_runner [
        | [] ↦ no_scripts
        | r ∷ runner ↦
            run_script sys (r ∷ runner) (sys.trim_space name)
              (read_package_scripts json_scripts package_file) (parse_run_script_timeout timeout)
      ]
      | refused ↦ not_dispatched refused
    ]
