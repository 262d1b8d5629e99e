-- ===== src/Verify/Packages.antt =====
-- The tests of each package in an event stream (internal/verify/go_tests_by_package.go).
use code_gen_sandbox.Prelude.Maps
use code_gen_sandbox.Testing.Events.{Event, split_at_byte}
use code_gen_sandbox.Testing.Rerun.{add_key}
use code_gen_sandbox.Testing.Rerun.Keys.{has_text-add_key}
use code_gen_sandbox.Coverage.{or_no_tests}
use code_gen_sandbox.Prelude.{
  if◌then◌else◌, ◌≡◌, refl, ite, Bool, true, false, ◌&&◌, ◌||◌, List, [], ◌∷◌, arith, Bytes, codes,
  bytes_discrete, has_text,
}

-- The action of a test that ended.
unfoldable pub is_end : Bytes → Bool
is_end action =
    ite (bytes_discrete action (codes "pass")) true
      (ite (bytes_discrete action (codes "fail")) true false)

unfoldable pub parent_of : Bytes → Bytes
parent_of test = (split_at_byte 47 test).0

abbrev pub ByPackage : Type 0
ByPackage = List (Bytes × List Bytes)

abbrev pub tests_in : ByPackage → Bytes → List Bytes
tests_in sets pkg = or_no_tests (Maps.lookup bytes_discrete pkg sets)

-- A parent test is put into the sorted set of its package.
unfoldable pub add_parent : Bytes → Bytes → ByPackage → ByPackage
add_parent pkg [] sets = sets
add_parent pkg (q ∷ qs) sets =
    Maps.insert bytes_discrete pkg (add_key (q ∷ qs) (tests_in sets pkg)) sets

-- The body of the loop for an event with the action, the package and the test.
unfoldable pub add_ended : Bytes → Bytes → Bytes → ByPackage → ByPackage
add_ended action pkg [] sets = sets
add_ended action [] (t ∷ ts) sets = sets
add_ended action (p ∷ ps) (t ∷ ts) sets =
    if is_end action then add_parent (p ∷ ps) (parent_of (t ∷ ts)) sets else sets

unfoldable pub add_events : List Event → ByPackage → ByPackage
add_events [] sets = sets
add_events (ev ∷ evs) sets = add_events evs (add_ended ev.action ev.pkg ev.test sets)

-- `ExtractGoTestsByPackage` of the events that `decodeEvent` reads.
unfoldable pub extract_go_tests_by_package : List Event → ByPackage
extract_go_tests_by_package evs = add_events evs []

unfoldable pub is_filled : Bytes → Bool
is_filled [] = false
is_filled (c ∷ s) = true

unfoldable pub is_text : Bytes → Bytes → Bool
is_text s t = ite (bytes_discrete s t) true false

-- The event ends the test, or one of its subtests, in the package.
unfoldable pub ends_test : Bytes → Bytes → Event → Bool
ends_test pkg test ev =
    is_filled ev.test
    && is_filled ev.pkg
    && is_end ev.action
    && is_filled (parent_of ev.test)
    && is_text ev.pkg pkg
    && is_text test (parent_of ev.test)

unfoldable pub any_ends : Bytes → Bytes → List Event → Bool
any_ends pkg test [] = false
any_ends pkg test (ev ∷ evs) = ends_test pkg test ev || any_ends pkg test evs

has_text-add_parent :
    (pkg test key parent : Bytes) (sets : ByPackage)
    → has_text test (tests_in (add_parent key parent sets) pkg) ≡ (
        (is_filled parent && is_text key pkg && is_text test parent)
        || has_text test (tests_in sets pkg))
unfolding add_parent is_filled is_text
has_text-add_parent pkg test key [] sets = refl
has_text-add_parent pkg test key (q ∷ qs) sets = elim (bytes_discrete key pkg) [
  | yes e ↦
      let k = has_text-add_key test (q ∷ qs) (tests_in sets key) in
      let l =
        Maps.lookup-insert bytes_discrete key pkg (add_key (q ∷ qs) (tests_in sets key)) sets in
      unfold or_no_tests in ground arith
  | no n ↦
      let l =
        Maps.lookup-insert bytes_discrete key pkg (add_key (q ∷ qs) (tests_in sets key)) sets in
      ground arith
]

has_text-add_ended :
    (pkg test : Bytes) (ev : Event) (sets : ByPackage)
    → has_text test (tests_in (add_ended ev.action ev.pkg ev.test sets) pkg)
      ≡ (ends_test pkg test ev || has_text test (tests_in sets pkg))
unfolding ends_test
has_text-add_ended pkg test ev sets = by_fields ev.action ev.pkg ev.test
  where
    by_fields :
        (action key name : Bytes)
        → has_text test (tests_in (add_ended action key name sets) pkg) ≡ (
            (is_filled name
              && is_filled key
              && is_end action
              && is_filled (parent_of name)
              && is_text key pkg
              && is_text test (parent_of name))
            || has_text test (tests_in sets pkg))
    by_fields action key [] = unfold add_ended is_filled in refl
    by_fields action [] (t ∷ ts) = unfold add_ended is_filled in refl
    by_fields action (p ∷ ps) (t ∷ ts) =
        let a = has_text-add_parent pkg test (p ∷ ps) (parent_of (t ∷ ts)) sets in
        unfold add_ended is_filled in ground arith

has_text-add_events :
    (pkg test : Bytes) (evs : List Event) (sets : ByPackage)
    → has_text test (tests_in (add_events evs sets) pkg)
      ≡ (any_ends pkg test evs || has_text test (tests_in sets pkg))
unfolding add_events any_ends
has_text-add_events pkg test [] sets = refl
has_text-add_events pkg test (ev ∷ evs) sets =
    let a = has_text-add_ended pkg test ev sets in
    let b = has_text-add_events pkg test evs (add_ended ev.action ev.pkg ev.test sets) in
    ground arith

-- A test is listed under a package exactly when some event says that it, or a subtest of it, passed or
-- failed there.
pub extract_go_tests_by_package_lem :
    (pkg test : Bytes) (evs : List Event)
    → has_text test (tests_in (extract_go_tests_by_package evs) pkg) ≡ any_ends pkg test evs
unfolding extract_go_tests_by_package
extract_go_tests_by_package_lem pkg test evs =
    let a = has_text-add_events pkg test evs [] in
    unfold or_no_tests Maps.lookup has_text in ground arith
