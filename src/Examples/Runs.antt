-- ===== src/Examples/Runs.antt =====
-- Runs of the verify tools (internal/tools/run_tests.go, internal/tools/dispatch.go).
use code_gen_sandbox.Health
use code_gen_sandbox.Testing.Events.{Event, Text, split_at_byte}
use code_gen_sandbox.Snapshots.{split_all}
use code_gen_sandbox.Coverage.{file_keys_for, suffix_keys, qualified}
use code_gen_sandbox.Coverage.Profile.{
  parse_coverage_profile, parse_lines, parse_coverage_record, parse_location, split_last,
  parse_range, parse_line_part, package_of,
}
use code_gen_sandbox.Coverage.Query.{covering_names}
use code_gen_sandbox.Coverage.Attribution.{spans}
use code_gen_sandbox.Shell.Command.{no_error, truncate_output}
use code_gen_sandbox.Verify.{decode_event, decode_lines, decode_output}
use code_gen_sandbox.Verify.Detectors.{Outside, go_detector, detect_all}
use code_gen_sandbox.Verify.Exec.{ExecResult, ran, run_verify_cmd, verify_exit_code}
use code_gen_sandbox.Lsp.Wire.{atoi_natural, parse_digits, scan_digits}
use code_gen_sandbox.Files.Replace.{has_prefix}
use code_gen_sandbox.Verify.Covering.{any_end, ends, ended_as, covers}
use code_gen_sandbox.Verify.Dispatch.{detector, dispatch_by_language}
use code_gen_sandbox.Verify.Packages.{is_filled, is_text}
use code_gen_sandbox.Verify.Markers.{
  node, name_of, is_marked, detector_of, dispatch_by_language-detect_all,
}
use code_gen_sandbox.Verify.Tools.{
  Deps, System, is_go, insert_profile, augment_test_cmd_for_coverage, run_tests,
}
use code_gen_sandbox.Verify.Runs.{names_in, finds_after, run_tests-covering}
use code_gen_sandbox.Prelude.{
  pos, ◌≡◌, refl, ◌↔◌, ite, Bool, true, false, none, some, [], ◌∷◌, ◌++◌, ℕ_discrete, Bytes, codes,
  bytes_discrete, has_text,
}

abbrev same : Bytes → Bytes
same s = s

abbrev plain_text : Text
plain_text = record {
  trim_space = same;
  contains = λ s t. false;
  has_prefix = λ s t. false;
  file_line = λ s. none;
  behind_file_line = λ s. none;
  trim_newlines = same;
}

abbrev passed : Event
passed = record { action = codes "pass"; pkg = codes "m/p"; test = codes "TestA"; output = [] }

abbrev outside : Outside
outside = record {
  trim_space = same;
  text = plain_text;
  json_event = λ line. some passed;
  json_scripts = λ s. none;
  json_eslint = λ s. none;
  lint_line_re = λ s. none;
  clippy_line_re = λ s. none;
  ruff_line_re = λ s. none;
}

abbrev profile : Bytes
profile = codes "mode: set" ++ 10 ∷ codes "m/p/f.go:3.1,5.2 1 1"

abbrev system : System
system = record {
  on_path = λ name. true;
  run = λ cmd timeout_sec. record {
    out = codes "{}";
    err = [];
    run_error = no_error;
    deadline = false;
  };
  now = 7;
  profile_path = some (codes "/tmp/c.out");
  profile = some profile;
  lower_trim = same;
  trim_space = same;
  fields = split_all 32;
  json_event = λ line. some passed;
}

abbrev deps : Deps
deps = record {
  health = Health.new (record {
    repetition_window = pos 0;
    repetition_threshold = pos 0;
    error_rate_window = pos 0;
  });
  test_results = some none;
  coverage_index = some [];
}

abbrev passing : ExecResult
passing = record { stdout = codes "{}"; stderr = []; exit_code = pos 0; timed_out = false }

go_run :
    run_verify_cmd system.on_path system.run
      (augment_test_cmd_for_coverage (go_detector outside) (some []) system.profile_path).0
      300
    ≡ ran passing
unfolding run_verify_cmd insert_profile go_detector verify_exit_code truncate_output
    augment_test_cmd_for_coverage is_go bytes_discrete
go_run = refl

is_go-go_detector : is_go (go_detector outside) ≡ true
unfolding is_go go_detector bytes_discrete
is_go-go_detector = refl

run_tests-covering_example :
    has_text (codes "m/p:TestA") (
      names_in
        (run_tests system (go_detector outside) 300 deps).1.coverage_index
        (codes "p/f.go")
        4)
    ≡ finds_after system
        (decode_output same (λ line. some passed) (codes "{}"))
        (has_text (codes "m/p:TestA") (covering_names [] (codes "p/f.go") 4))
        (some (codes "/tmp/c.out"))
        (some profile)
        (codes "p/f.go")
        4
        (codes "m/p:TestA")
run_tests-covering_example =
    run_tests-covering system (go_detector outside) 300 deps [] passing (codes "p/f.go") 4
      (codes "m/p:TestA") is_go-go_detector refl go_run

-- The run is found behind it.
found_after :
    finds_after system
      (decode_output same (λ line. some passed) (codes "{}"))
      false
      (some (codes "/tmp/c.out"))
      (some profile)
      (codes "p/f.go")
      4
      (codes "m/p:TestA")
    ≡ true
unfolding finds_after decode_output decode_lines decode_event split_all any_end ends is_filled
    is_text bytes_discrete split_at_byte covers parse_coverage_profile parse_lines has_prefix
    parse_coverage_record parse_location split_last parse_range parse_line_part atoi_natural
    parse_digits scan_digits spans package_of file_keys_for qualified suffix_keys has_text ended_as
    ℕ_discrete
found_after = refl

abbrev only_package_json : Bytes → Bool
only_package_json name = ite (bytes_discrete name (codes "package.json")) true false

dispatch_by_language-detect_all_example :
    (dispatch_by_language same (detect_all outside only_package_json none) (codes "node")
      ≡ detector (detector_of outside only_package_json none node))
    ↔ ((is_marked only_package_json node ≡ true)
        × (detector_of outside only_package_json none node
            ≡ detector_of outside only_package_json none node))
dispatch_by_language-detect_all_example =
    dispatch_by_language-detect_all outside only_package_json none same (codes "node") node
      (detector_of outside only_package_json none node) (unfold name_of in refl)
