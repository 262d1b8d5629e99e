-- ===== src/Coverage/Attribution.antt =====
-- The tests that the records attribute to a line, and those that a query finds
-- (internal/tools/coverage_index.go).
use code_gen_sandbox.Prelude.Maps
use code_gen_sandbox.Testing.Rerun.{add_key}
use code_gen_sandbox.Testing.Rerun.Keys.{has_text-add_key}
use code_gen_sandbox.Coverage.{
  CoverageRecord, Lines, ByFile, file_keys_for, qualified, add_tests, add_line, add_lines,
  or_no_lines, or_no_tests, add_keys, add_record, add_records, build_coverage_by_file,
}
use code_gen_sandbox.Coverage.Query.{line_matches, add_all, collect_tests, covering_names}
use code_gen_sandbox.Prelude.{
  ltb, leb, if◌then◌else◌, Bool-cases, Option-cases, set, ℕ, zero, suc, ◌+◌, ◌-◌, ◌≤◌, ◌<◌, ◌≡◌,
  refl, inl, inr, ite, Bool, true, false, ◌&&◌, ◌||◌, List, [], ◌∷◌, arith, Bytes, bytes_discrete,
  has_text,
}

-- Whether the name is that of one of the package's tests.
unfoldable pub names_test : Bytes → Bytes → List Bytes → Bool
names_test name pkg [] = false
names_test name pkg (t ∷ ts) =
    let rest = names_test name pkg ts in ite (bytes_discrete name (qualified pkg t)) true rest

-- Whether a record's lines have the line asked for, where 0 asks for any.
unfoldable pub spans : ℕ → CoverageRecord → Bool
spans line rec =
    if ltb 0 line
    then leb rec.start_line line && leb line rec.end_line
    else leb rec.start_line rec.end_line

-- Whether some record attributes the test to the line of the file.
unfoldable pub attributed :
    List (Bytes × List Bytes) → Bytes → ℕ → Bytes → List CoverageRecord → Bool
attributed tests_by_package file line name [] = false
attributed tests_by_package file line name (rec ∷ records) =
    let rest = attributed tests_by_package file line name records in
    (has_text file (file_keys_for rec.file)
      && spans line rec
      && names_test name rec.pkg
          (or_no_tests (Maps.lookup bytes_discrete rec.pkg tests_by_package)))
    || rest

has_text-add_tests :
    (name pkg : Bytes) (tests set : List Bytes)
    → has_text name (add_tests pkg tests set) ≡ (has_text name set || names_test name pkg tests)
unfolding add_tests names_test
has_text-add_tests name pkg [] set = ground arith
has_text-add_tests name pkg (t ∷ ts) set =
    let a = has_text-add_key name (qualified pkg t) set in
    let r = has_text-add_tests name pkg ts (add_key (qualified pkg t) set) in ground arith

has_text-add_all :
    (name : Bytes) (tests seen : List Bytes)
    → has_text name (add_all tests seen) ≡ (has_text name seen || has_text name tests)
unfolding add_all has_text
has_text-add_all name [] seen = ground arith
has_text-add_all name (t ∷ ts) seen =
    let a = has_text-add_key name t seen in
    let r = has_text-add_all name ts (add_key t seen) in ground arith

-- Whether the test stands in a set of the lines asked for.
any_line : ℕ → Bytes → Lines → Bool
any_line line name [] = false
any_line line name ((ln, tests) ∷ lines) =
    let rest = any_line line name lines in (line_matches line ln && has_text name tests) || rest

has_text-collect_tests :
    (line : ℕ) (name : Bytes) (lines : Lines) (seen : List Bytes)
    → has_text name (collect_tests line lines seen)
      ≡ (has_text name seen || any_line line name lines)
unfolding collect_tests any_line
has_text-collect_tests line name [] seen = ground arith
has_text-collect_tests line name ((ln, tests) ∷ lines) seen =
    let a = has_text-add_all name tests seen in
    let r =
      has_text-collect_tests line name lines
        (if line_matches line ln then add_all tests seen else seen) in
    ground arith

any_line-add_line :
    (line : ℕ) (name : Bytes) (ln : ℕ) (pkg : Bytes) (tests : List Bytes) (lines : Lines)
    → any_line line name (add_line ln pkg tests lines)
      ≡ (any_line line name lines || (line_matches line ln && names_test name pkg tests))
unfolding any_line add_line has_text
any_line-add_line line name ln pkg tests [] =
    let a = has_text-add_tests name pkg tests [] in ground arith
any_line-add_line line name ln pkg tests ((j, set) ∷ lines) =
    let a = has_text-add_tests name pkg tests set in
    let r = any_line-add_line line name ln pkg tests lines in ground arith

-- Whether one of `count` lines from `ln` on is asked for.
within : ℕ → ℕ → ℕ → Bool
within line count ln = if ltb 0 line then leb ln line && ltb line (ln + count) else ltb 0 count

any_line-add_lines :
    (line : ℕ) (name : Bytes) (count ln : ℕ) (pkg : Bytes) (tests : List Bytes) (lines : Lines)
    → any_line line name (add_lines count ln pkg tests lines)
      ≡ (any_line line name lines || (within line count ln && names_test name pkg tests))
unfolding add_lines within line_matches
any_line-add_lines line name zero ln pkg tests lines = ground arith
any_line-add_lines line name (suc count) ln pkg tests lines =
    let a = any_line-add_line line name ln pkg tests lines in
    let r = any_line-add_lines line name count (ln + 1) pkg tests (add_line ln pkg tests lines) in
    ground arith

-- Whether the index has the test under the file and a line asked for.
found : ByFile → Bytes → ℕ → Bytes → Bool
found out file line name = any_line line name (or_no_lines (Maps.lookup bytes_discrete file out))

found-insert :
    (out : ByFile) (key file : Bytes) (line : ℕ) (name : Bytes) (lines : Lines)
    → found (Maps.insert bytes_discrete key lines out) file line name
      ≡ ite (bytes_discrete file key) (any_line line name lines) (found out file line name)
unfolding found or_no_lines
found-insert out key file line name lines =
    let i = Maps.lookup-insert bytes_discrete key file lines out in
    elim (bytes_discrete file key) [ yes e ↦ ground arith | no n ↦ ground arith ]

found-key :
    (out : ByFile) (key file : Bytes) (line : ℕ) (name : Bytes)
    → file ≡ key
    → any_line line name (or_no_lines (Maps.lookup bytes_discrete key out))
      ≡ found out file line name
unfolding found
found-key out key file line name e = rw e refl

within-spans :
    (line : ℕ) (rec : CoverageRecord)
    → rec.start_line ≤ rec.end_line
    → within line (rec.end_line + 1 - rec.start_line) rec.start_line ≡ spans line rec
unfolding within spans
within-spans line rec h = ground arith

spans-empty :
    (line : ℕ) (rec : CoverageRecord) → rec.end_line < rec.start_line → spans line rec ≡ false
unfolding spans
spans-empty line rec h = ground arith

found-add_keys :
    (keys : List Bytes) (rec : CoverageRecord) (tests : List Bytes) (out : ByFile) (file : Bytes)
    (line : ℕ) (name : Bytes)
    → rec.start_line ≤ rec.end_line
    → found (add_keys keys rec tests out) file line name ≡ (
        found out file line name
        || (has_text file keys && spans line rec && names_test name rec.pkg tests))
unfolding add_keys has_text
found-add_keys [] rec tests out file line name h = ground arith
found-add_keys (key ∷ keys) rec tests out file line name h =
    let count = rec.end_line + 1 - rec.start_line in
    let lines = or_no_lines (Maps.lookup bytes_discrete key out) in
    let added = add_lines count rec.start_line rec.pkg tests lines in
    let a = any_line-add_lines line name count rec.start_line rec.pkg tests lines in
    let i = found-insert out key file line name added in
    let r =
      found-add_keys keys rec tests (Maps.insert bytes_discrete key added out) file line name h in
    let w = within-spans line rec h in
    let k = found-key out key file line name in
    elim (bytes_discrete file key) [ yes e ↦ let k' = k e in ground arith | no n ↦ ground arith ]

found-add_record :
    (tests_by_package : List (Bytes × List Bytes)) (out : ByFile) (rec : CoverageRecord)
    (file : Bytes) (line : ℕ) (name : Bytes)
    → found (add_record tests_by_package out rec) file line name ≡ (
        found out file line name
        || (has_text file (file_keys_for rec.file)
            && spans line rec
            && names_test name rec.pkg
                (or_no_tests (Maps.lookup bytes_discrete rec.pkg tests_by_package))))
unfolding add_record names_test
found-add_record tests_by_package out rec file line name =
    let tests = or_no_tests (Maps.lookup bytes_discrete rec.pkg tests_by_package) in
    let keys = file_keys_for rec.file in
    let r = found-add_keys keys rec tests out file line name in
    elim (Bool-cases (ltb rec.end_line rec.start_line)) [
      | inl e ↦ let s = spans-empty line rec (ground arith) in ground arith
      | inr e ↦ let r' = r (ground arith) in ground arith
    ]

found-add_records :
    (tests_by_package : List (Bytes × List Bytes)) (out : ByFile) (records : List CoverageRecord)
    (file : Bytes) (line : ℕ) (name : Bytes)
    → found (add_records tests_by_package out records) file line name
      ≡ (found out file line name || attributed tests_by_package file line name records)
unfolding add_records attributed
found-add_records tests_by_package out [] file line name = ground arith
found-add_records tests_by_package out (rec ∷ records) file line name =
    let a = found-add_record tests_by_package out rec file line name in
    let r =
      found-add_records tests_by_package (add_record tests_by_package out rec) records file line
        name in
    ground arith

-- The names that a query of the built index finds are exactly those that some record attributes to the
-- line: a record whose file has the queried name as a key, whose lines have the line, or are some
-- lines at all where none is asked for, and whose package ran a test with this qualified name.
pub has_text-covering_names :
    (records : List CoverageRecord) (tests_by_package : List (Bytes × List Bytes)) (file : Bytes)
    (line : ℕ) (name : Bytes)
    → has_text name (covering_names (build_coverage_by_file records tests_by_package) file line)
      ≡ attributed tests_by_package file line name records
unfolding covering_names build_coverage_by_file found or_no_lines any_line Maps.lookup has_text
has_text-covering_names records tests_by_package file line name =
    let out = add_records tests_by_package [] records in
    let a = found-add_records tests_by_package [] records file line name in
    elim (Option-cases (Maps.lookup bytes_discrete file out)) [
      | inl e ↦ ground arith
      | inr (lines, e) ↦ let c = has_text-collect_tests line name lines [] in ground arith
    ]
