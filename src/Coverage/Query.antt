-- ===== src/Coverage/Query.antt =====
-- The query for a file and a line (internal/tools/coverage_index.go: TestsCovering,
-- internal/tools/tests_covering.go). A line of 0 stands for every line.
use code_gen_sandbox.Prelude.Maps
use code_gen_sandbox.Testing.Rerun.{add_key, split_qualified_test_name}
use code_gen_sandbox.Coverage.{Lines, ByFile}
use code_gen_sandbox.Prelude.{
  ltb, leb, ◌==◌, if◌then◌else◌, length, take, ℤ, pos, negsuc, ℕ, ◌-◌, ite, Bool, true, Option,
  none, some, List, [], ◌∷◌, Bytes, bytes_discrete,
}

pub record TestRef : Type 0 where
  pub pkg : Bytes
  pub test_name : Bytes

unfoldable pub line_matches : ℕ → ℕ → Bool
line_matches line ln = if ltb 0 line then ln == line else true

unfoldable pub add_all : List Bytes → List Bytes → List Bytes
add_all [] seen = seen
add_all (t ∷ ts) seen = add_all ts (add_key t seen)

unfoldable pub collect_tests : ℕ → Lines → List Bytes → List Bytes
collect_tests line [] seen = seen
collect_tests line ((ln, tests) ∷ lines) seen =
    collect_tests line lines (if line_matches line ln then add_all tests seen else seen)

-- The sorted names of the tests.
unfoldable pub covering_names : ByFile → Bytes → ℕ → List Bytes
covering_names by_file file line = elim (Maps.lookup bytes_discrete file by_file) [
  | none ↦ []
  | some lines ↦ collect_tests line lines []
]

unfoldable pub to_refs : List Bytes → List TestRef
to_refs [] = []
to_refs (name ∷ names) =
    let (pkg, test) = split_qualified_test_name name in
    record { pkg = pkg; test_name = test } ∷ to_refs names

-- `TestsCovering`, of an index that is not nil.
unfoldable pub tests_covering : ByFile → Bytes → ℕ → List TestRef
tests_covering by_file file line = to_refs (covering_names by_file file line)

-- `capRefs`
unfoldable pub cap_refs : List TestRef → ℕ → List TestRef × ℕ
cap_refs refs max_entries =
    if leb (length refs) max_entries
    then (refs, 0)
    else (take max_entries refs, length refs - max_entries)

abbrev pub max_tests_covering_entries : ℕ
max_tests_covering_entries = 200

unfoldable pub group_tests : Bytes → List TestRef → List Bytes
group_tests pkg [] = []
group_tests pkg (r ∷ refs) =
    let rest = group_tests pkg refs in ite (bytes_discrete r.pkg pkg) (r.test_name ∷ rest) rest

unfoldable pub packages_of : List TestRef → List Bytes
packages_of [] = []
packages_of (r ∷ refs) = add_key r.pkg (packages_of refs)

unfoldable pub with_tests : List TestRef → List Bytes → List (Bytes × List Bytes)
with_tests refs [] = []
with_tests refs (pkg ∷ pkgs) = (pkg, group_tests pkg refs) ∷ with_tests refs pkgs

-- What `renderTestsCovering` shows: the number of tests, the packages in order with their tests, and
-- the number of those left out.
unfoldable pub render_tests_covering : List TestRef → ℕ × List (Bytes × List Bytes) × ℕ
render_tests_covering refs =
    let (shown, truncated) = cap_refs refs max_tests_covering_entries in
    (length refs, with_tests shown (packages_of shown), truncated)

pub data Covering : Type 0 where
  not_configured no_data file_required : Covering
  no_coverage : Bytes → ℕ → Covering
  covering : Bytes → ℕ → ℕ × List (Bytes × List Bytes) × ℕ → Covering

-- The line of the arguments, `none` where there is no number.
unfoldable pub line_arg : Option ℤ → ℕ
line_arg none = 0
line_arg (some (negsuc n)) = 0
line_arg (some (pos n)) = n

-- `HandleTestsCovering`; `index` is `none` where there is none, `trim_space` is a parameter.
unfoldable pub handle_tests_covering : (Bytes → Bytes) → Option ByFile → Bytes → Option ℤ → Covering
handle_tests_covering trim_space none file line = not_configured
handle_tests_covering trim_space (some []) file line = no_data
handle_tests_covering trim_space (some (e ∷ index)) file line = elim (trim_space file) [
  | [] ↦ file_required
  | c ∷ cs ↦ elim (tests_covering (e ∷ index) file (line_arg line)) [
    | [] ↦ no_coverage file (line_arg line)
    | r ∷ refs ↦ covering file (line_arg line) (render_tests_covering (r ∷ refs))
  ]
]
