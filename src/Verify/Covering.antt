-- ===== src/Verify/Covering.antt =====
-- The coverage index behind a run of Go tests (internal/tools/run_tests.go: ingestCoverage,
-- internal/verify/go_tests_by_package.go, internal/tools/coverage_index.go), against the events of the
-- run and the records of its profile.
use code_gen_sandbox.Prelude.Maps
use code_gen_sandbox.Testing.Events.{Event, split_at_byte}
use code_gen_sandbox.Testing.Rerun.{add_key}
use code_gen_sandbox.Coverage.{CoverageRecord, file_keys_for, qualified, or_no_tests}
use code_gen_sandbox.Coverage.Attribution.{names_test, spans, attributed}
use code_gen_sandbox.Verify.Packages.{
  ByPackage, is_end, parent_of, tests_in, add_parent, add_ended, add_events,
  extract_go_tests_by_package, is_filled, is_text,
}
use code_gen_sandbox.Prelude.{
  ltb, length, ℕ, ◌<◌, ◌≡◌, refl, Bool, false, ◌&&◌, ◌||◌, List, [], ◌∷◌, arith, Bytes, codes,
  bytes_discrete, has_text,
}

-- The test that an event is about, without its subtests.
abbrev pub test_of : Event → Bytes
test_of ev = (split_at_byte 47 ev.test).0

-- The event says that a test with a name, of a package with a name, passed or failed.
unfoldable pub ends : Event → Bool
ends ev =
    is_filled ev.test
    && is_filled ev.pkg
    && (is_text ev.action (codes "pass") || is_text ev.action (codes "fail"))
    && is_filled (test_of ev)

unfoldable pub any_end : List Event → Bool
any_end [] = false
any_end (ev ∷ evs) = ends ev || any_end evs

-- Some event ends, in the package, a test of that qualified name.
unfoldable pub ended_as : Bytes → Bytes → List Event → Bool
ended_as name pkg [] = false
ended_as name pkg (ev ∷ evs) =
    (ends ev && is_text ev.pkg pkg && is_text name (qualified pkg (test_of ev)))
    || ended_as name pkg evs

-- Some record touches the line of the file, and the test ended in the package of the record.
unfoldable pub covers : List Event → Bytes → ℕ → Bytes → List CoverageRecord → Bool
covers evs file line name [] = false
covers evs file line name (rec ∷ records) =
    (has_text file (file_keys_for rec.file) && spans line rec && ended_as name rec.pkg evs)
    || covers evs file line name records

names_test-add_key :
    (name pkg q : Bytes) (ts : List Bytes)
    → names_test name pkg (add_key q ts)
      ≡ (is_text name (qualified pkg q) || names_test name pkg ts)
unfolding names_test add_key is_text
names_test-add_key name pkg q [] = ground arith
names_test-add_key name pkg q (r ∷ ts) = let a = names_test-add_key name pkg q ts in ground arith

names_test-add_parent :
    (name pkg key parent : Bytes) (sets : ByPackage)
    → names_test name pkg (tests_in (add_parent key parent sets) pkg) ≡ (
        (is_filled parent && is_text key pkg && is_text name (qualified pkg parent))
        || names_test name pkg (tests_in sets pkg))
unfolding add_parent is_filled is_text
names_test-add_parent name pkg key [] sets = refl
names_test-add_parent name pkg key (q ∷ qs) sets =
    let k = names_test-add_key name pkg (q ∷ qs) (tests_in sets key) in
    let l = Maps.lookup-insert bytes_discrete key pkg (add_key (q ∷ qs) (tests_in sets key)) sets in
    elim (bytes_discrete key pkg) [
      | yes e ↦ unfold or_no_tests is_text in ground arith
      | no n ↦ ground arith
    ]

names_test-add_ended :
    (name pkg : Bytes) (ev : Event) (sets : ByPackage)
    → names_test name pkg (tests_in (add_ended ev.action ev.pkg ev.test sets) pkg) ≡ (
        (ends ev && is_text ev.pkg pkg && is_text name (qualified pkg (test_of ev)))
        || names_test name pkg (tests_in sets pkg))
unfolding ends
names_test-add_ended name pkg ev sets = by_fields ev.action ev.pkg ev.test
  where
    by_fields :
        (action key test : Bytes)
        → names_test name pkg (tests_in (add_ended action key test sets) pkg) ≡ (
            ((is_filled test
                && is_filled key
                && (is_text action (codes "pass") || is_text action (codes "fail"))
                && is_filled (split_at_byte 47 test).0)
              && is_text key pkg
              && is_text name (qualified pkg (split_at_byte 47 test).0))
            || names_test name pkg (tests_in sets pkg))
    by_fields action key [] = unfold add_ended is_filled in refl
    by_fields action [] (t ∷ ts) = unfold add_ended is_filled in refl
    by_fields action (p ∷ ps) (t ∷ ts) =
        let a = names_test-add_parent name pkg (p ∷ ps) (parent_of (t ∷ ts)) sets in
        unfold add_ended is_filled is_end is_text parent_of in ground arith

names_test-add_events :
    (name pkg : Bytes) (evs : List Event) (sets : ByPackage)
    → names_test name pkg (tests_in (add_events evs sets) pkg)
      ≡ (ended_as name pkg evs || names_test name pkg (tests_in sets pkg))
unfolding add_events ended_as
names_test-add_events name pkg [] sets = refl
names_test-add_events name pkg (ev ∷ evs) sets =
    let a = names_test-add_ended name pkg ev sets in
    let b = names_test-add_events name pkg evs (add_ended ev.action ev.pkg ev.test sets) in
    ground arith

pub attributed-covers :
    (evs : List Event) (file : Bytes) (line : ℕ) (name : Bytes) (records : List CoverageRecord)
    → attributed (extract_go_tests_by_package evs) file line name records
      ≡ covers evs file line name records
unfolding attributed covers extract_go_tests_by_package or_no_tests Maps.lookup names_test
attributed-covers evs file line name [] = refl
attributed-covers evs file line name (rec ∷ records) =
    let a = names_test-add_events name rec.pkg evs [] in
    let b = attributed-covers evs file line name records in ground arith

-- A run gives tests to a package exactly when some event ends a test.
length-insert :
    (key : Bytes) (v : List Bytes) (m : ByPackage) → 0 < length (Maps.insert bytes_discrete key v m)
unfolding Maps.insert
length-insert key v [] = omega arith
length-insert key v ((k, w) ∷ m) = ground arith

has_tests-add_parent :
    (key parent : Bytes) (sets : ByPackage)
    → ltb 0 (length (add_parent key parent sets)) ≡ (is_filled parent || ltb 0 (length sets))
unfolding add_parent is_filled
has_tests-add_parent key [] sets = refl
has_tests-add_parent key (q ∷ qs) sets =
    let l = length-insert key (add_key (q ∷ qs) (tests_in sets key)) sets in ground arith

has_tests-add_ended :
    (ev : Event) (sets : ByPackage)
    → ltb 0 (length (add_ended ev.action ev.pkg ev.test sets)) ≡ (ends ev || ltb 0 (length sets))
unfolding ends
has_tests-add_ended ev sets = by_fields ev.action ev.pkg ev.test
  where
    by_fields :
        (action key test : Bytes)
        → ltb 0 (length (add_ended action key test sets)) ≡ (
            (is_filled test
              && is_filled key
              && (is_text action (codes "pass") || is_text action (codes "fail"))
              && is_filled (split_at_byte 47 test).0)
            || ltb 0 (length sets))
    by_fields action key [] = unfold add_ended is_filled in refl
    by_fields action [] (t ∷ ts) = unfold add_ended is_filled in refl
    by_fields action (p ∷ ps) (t ∷ ts) =
        let a = has_tests-add_parent (p ∷ ps) (parent_of (t ∷ ts)) sets in
        unfold add_ended is_filled is_end is_text parent_of in ground arith

pub has_tests-add_events :
    (evs : List Event) (sets : ByPackage)
    → ltb 0 (length (add_events evs sets)) ≡ (any_end evs || ltb 0 (length sets))
unfolding add_events any_end
has_tests-add_events [] sets = refl
has_tests-add_events (ev ∷ evs) sets =
    let a = has_tests-add_ended ev sets in
    let b = has_tests-add_events evs (add_ended ev.action ev.pkg ev.test sets) in ground arith
