-- ===== src/Testing/Rerun.antt =====
-- The stored test result (internal/tools/test_result_store.go) and the tool run_failing_tests
-- (internal/tools/run_failing_tests.go): which tests and packages of the last run are run again.
pub mod Targets
pub mod Keys
use code_gen_sandbox.Testing.Events.{TestFailure, split_at_byte}
use code_gen_sandbox.Prelude.{
  ltb, leb, ◌==◌, if◌then◌else◌, length, take, ℤ, pos, negsuc, ℕ, ◌/◌, ite, Bool, true, false, ◌&&◌,
  Option, none, some, List, [], ◌∷◌, ◌++◌, Bytes, codes, bytes_discrete,
}

-- `tests_passed` is `none` where the runner gave no count (-1 in the source).
pub record TestResult : Type 0 where
  pub language : Bytes
  pub failures : List TestFailure
  pub tests_passed : Option ℕ
  pub at : ℕ
  pub supported : Bool

-- One slot; `none` until the first `Set`.
abbrev pub TestResultStore : Type 0
TestResultStore = Option TestResult

abbrev pub max_rerun_packages_positional : ℕ
max_rerun_packages_positional = 10

abbrev pub default_rerun_limit : ℕ
default_rerun_limit = 50

abbrev pub max_rerun_limit : ℕ
max_rerun_limit = 200

-- `splitQualifiedTestName`
unfoldable pub split_qualified_test_name : Bytes → Bytes × Bytes
split_qualified_test_name name =
    let (pkg, leaf) = split_at_byte 58 name in
    elim leaf [ none ↦ ([], name) | some test ↦ (pkg, test) ]

-- The order of Go's strings.
unfoldable pub text_lt : Bytes → Bytes → Bool
text_lt [] [] = false
text_lt [] (d ∷ ds) = true
text_lt (c ∷ cs) [] = false
text_lt (c ∷ cs) (d ∷ ds) = if ltb c d then true else if ltb d c then false else text_lt cs ds

-- A set as its sorted keys.
unfoldable pub add_key : Bytes → List Bytes → List Bytes
add_key k [] = k ∷ []
add_key k (j ∷ js) =
    ite (bytes_discrete k j) (j ∷ js) (if text_lt k j then k ∷ j ∷ js else j ∷ add_key k js)

-- The package and the parent test that a test's name is taken for.
unfoldable pub rerun_target : Bytes → Bytes × Bytes
rerun_target name =
    let (pkg, leaf) = split_qualified_test_name name in (pkg, (split_at_byte 47 leaf).0)

unfoldable pub add_target : List Bytes × List Bytes → Bytes → Bytes → List Bytes × List Bytes
add_target targets pkg [] = targets
add_target (tests, pkgs) [] (c ∷ cs) = (add_key (c ∷ cs) tests, pkgs)
add_target (tests, pkgs) (d ∷ ds) (c ∷ cs) = (add_key (c ∷ cs) tests, add_key (d ∷ ds) pkgs)

unfoldable pub collect_targets :
    List Bytes × List Bytes → List TestFailure → List Bytes × List Bytes
collect_targets targets [] = targets
collect_targets targets (f ∷ fs) = elim f.test_name [
  | [] ↦ collect_targets targets fs
  | c ∷ cs ↦
      let (pkg, parent) = rerun_target (c ∷ cs) in
      collect_targets (add_target targets pkg parent) fs
]

unfoldable pub extract_rerun_targets : List TestFailure → List Bytes × List Bytes
extract_rerun_targets failures = collect_targets ([], []) failures

-- `strings.Join`
unfoldable pub join : Bytes → List Bytes → Bytes
join sep [] = []
join sep (x ∷ []) = x
join sep (x ∷ y ∷ xs) = x ++ sep ++ join sep (y ∷ xs)

unfoldable pub cut_tests : List Bytes → ℕ → List Bytes
cut_tests tests limit = if ltb 0 limit && ltb limit (length tests) then take limit tests else tests

unfoldable pub package_args : List Bytes → List Bytes
package_args pkgs =
    if ltb 0 (length pkgs) && leb (length pkgs) max_rerun_packages_positional
    then pkgs
    else codes "./..." ∷ []

unfoldable pub rerun_argv : List Bytes → List Bytes → List Bytes
rerun_argv tests pkgs =
    codes "go"
    ∷ codes "test"
    ∷ codes "-json"
    ∷ codes "-count=1"
    ∷ codes "-run"
    ∷ (codes "^(" ++ join (codes "|") tests ++ codes ")$")
    ∷ package_args pkgs

-- `composeGoRerunArgv`; `[]` is the source's nil.
unfoldable pub compose_go_rerun_argv : List TestFailure → ℕ → List Bytes
compose_go_rerun_argv failures limit =
    let (tests, pkgs) = extract_rerun_targets failures in
    elim tests [ [] ↦ [] | t ∷ ts ↦ rerun_argv (cut_tests (t ∷ ts) limit) pkgs ]

-- `limit` is the argument converted to an integer, `none` where there is no number.
unfoldable pub parse_rerun_limit : Option ℤ → ℕ
parse_rerun_limit none = default_rerun_limit
parse_rerun_limit (some (negsuc n)) = default_rerun_limit
parse_rerun_limit (some (pos n)) =
    if n == 0 then default_rerun_limit else if ltb max_rerun_limit n then max_rerun_limit else n

pub data Rerun : Type 0 where
  not_configured : Rerun
  no_run_yet : Rerun
  refused : Rerun
  no_structured_failures : Rerun
  nothing_to_rerun : Rerun
  run_argv : List Bytes → Rerun

-- `HandleRunFailingTests` up to the run: `store` is `none` where there is no store, `dispatched` says
-- whether a workspace and a detector are found and, if so, whether the detector has structured
-- failures.
unfoldable pub handle_run_failing_tests : Option TestResultStore → Option Bool → Option ℤ → Rerun
handle_run_failing_tests none dispatched limit = not_configured
handle_run_failing_tests (some none) dispatched limit = no_run_yet
handle_run_failing_tests (some (some stored)) none limit = refused
handle_run_failing_tests (some (some stored)) (some false) limit = no_structured_failures
handle_run_failing_tests (some (some stored)) (some true) limit =
    elim (compose_go_rerun_argv stored.failures (parse_rerun_limit limit)) [
      | [] ↦ nothing_to_rerun
      | a ∷ argv ↦ run_argv (a ∷ argv)
    ]
