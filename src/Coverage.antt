-- ===== src/Coverage.antt =====
-- The coverage index (internal/tools/coverage_index.go) and the tool tests_covering
-- (internal/tools/tests_covering.go): which tests touched a line. The map of a file's lines is a list
-- of entries, a set of tests the list of its sorted names.
pub mod Profile
pub mod Query
pub mod Attribution
use code_gen_sandbox.Prelude.Maps
use code_gen_sandbox.Testing.Rerun.{add_key}
use code_gen_sandbox.Prelude.{
  ltb, ◌==◌, if◌then◌else◌, set, ℕ, zero, suc, ◌+◌, ◌-◌, Option, none, some, List, [], ◌∷◌, ◌++◌,
  Bytes, bytes_discrete,
}

pub record CoverageRecord : Type 0 where
  pub file : Bytes
  pub pkg : Bytes
  pub start_line : ℕ
  pub end_line : ℕ

abbrev pub Lines : Type 0
Lines = List (ℕ × List Bytes)

abbrev pub ByFile : Type 0
ByFile = List (Bytes × Lines)

-- The suffixes behind a slash that are not empty.
unfoldable pub suffix_keys : Bytes → List Bytes
suffix_keys [] = []
suffix_keys (c ∷ s) =
    let rest = suffix_keys s in
    if c == 47 then (elim s [ [] ↦ rest | d ∷ ds ↦ (d ∷ ds) ∷ rest ]) else rest

unfoldable pub file_keys_for : Bytes → List Bytes
file_keys_for profile_file = profile_file ∷ suffix_keys profile_file

unfoldable pub qualified : Bytes → Bytes → Bytes
qualified pkg test = pkg ++ 58 ∷ test

unfoldable pub add_tests : Bytes → List Bytes → List Bytes → List Bytes
add_tests pkg [] set = set
add_tests pkg (t ∷ ts) set = add_tests pkg ts (add_key (qualified pkg t) set)

-- `ensureLineEntry`, and the tests put into the line's set.
unfoldable pub add_line : ℕ → Bytes → List Bytes → Lines → Lines
add_line ln pkg tests [] = (ln, add_tests pkg tests []) ∷ []
add_line ln pkg tests ((j, set) ∷ lines) =
    let rest = add_line ln pkg tests lines in
    if j == ln then (j, add_tests pkg tests set) ∷ lines else (j, set) ∷ rest

-- The lines from `ln` on, `count` of them.
unfoldable pub add_lines : ℕ → ℕ → Bytes → List Bytes → Lines → Lines
add_lines zero ln pkg tests lines = lines
add_lines (suc count) ln pkg tests lines =
    add_lines count (ln + 1) pkg tests (add_line ln pkg tests lines)

unfoldable pub or_no_lines : Option Lines → Lines
or_no_lines none = []
or_no_lines (some lines) = lines

unfoldable pub or_no_tests : Option (List Bytes) → List Bytes
or_no_tests none = []
or_no_tests (some tests) = tests

-- `ensureFileEntry` and the lines, for every key of the record's file.
unfoldable pub add_keys : List Bytes → CoverageRecord → List Bytes → ByFile → ByFile
add_keys [] rec tests out = out
add_keys (key ∷ keys) rec tests out =
    let lines = or_no_lines (Maps.lookup bytes_discrete key out) in
    add_keys keys rec tests (
      Maps.insert bytes_discrete key
        (add_lines (rec.end_line + 1 - rec.start_line) rec.start_line rec.pkg tests lines) out)

unfoldable pub add_record : List (Bytes × List Bytes) → ByFile → CoverageRecord → ByFile
add_record tests_by_package out rec =
    elim (or_no_tests (Maps.lookup bytes_discrete rec.pkg tests_by_package)) [
      | [] ↦ out
      | t ∷ ts ↦
          if ltb rec.end_line rec.start_line
          then out
          else add_keys (file_keys_for rec.file) rec (t ∷ ts) out
    ]

unfoldable pub add_records : List (Bytes × List Bytes) → ByFile → List CoverageRecord → ByFile
add_records tests_by_package out [] = out
add_records tests_by_package out (rec ∷ records) =
    add_records tests_by_package (add_record tests_by_package out rec) records

-- `buildCoverageByFile`
unfoldable pub build_coverage_by_file : List CoverageRecord → List (Bytes × List Bytes) → ByFile
build_coverage_by_file records tests_by_package = add_records tests_by_package [] records
