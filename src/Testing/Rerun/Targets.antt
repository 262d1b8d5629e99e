-- ===== src/Testing/Rerun/Targets.antt =====
-- What the tests' names are taken for (internal/tools/run_failing_tests.go), in the documented form
-- and in the form that internal/verify/go_test_failures.go writes.
use code_gen_sandbox.Testing.Events.{
  Event, TestKey, TestFailure, Text, split_at_byte, key_sentinel, split_key_sentinel,
  extract_file_line, extract_message, extract_diff, frame_to_failure,
}
use code_gen_sandbox.Testing.Events.Frames.{frame_of, output_events, events_of}
use code_gen_sandbox.Testing.Rerun.{
  split_qualified_test_name, rerun_target, add_target, collect_targets, extract_rerun_targets,
  compose_go_rerun_argv, cut_tests, rerun_argv,
}
use code_gen_sandbox.Prelude.{
  length, length-append, length-take, take-append, All, get_elem?-append, ℕ, ◌-◌, ◌≤◌, ◌<◌, ◌≡◌,
  refl, ◌⊎◌, none, some, List, [], ◌∷◌, append-nil, ◌++◌, arith, Bytes, Lacks,
}

pub split_at_byte-append :
    (b : ℕ) (s rest : Bytes) → Lacks b s → split_at_byte b (s ++ b ∷ rest) ≡ (s, some rest)
unfolding split_at_byte
split_at_byte-append b [] rest h = ground arith
split_at_byte-append b (c ∷ s) rest h =
    let e = split_at_byte-append b s rest h.1 in let n = h.0 in rw e (ground arith)

pub split_at_byte-Lacks : (b : ℕ) (s : Bytes) → Lacks b s → split_at_byte b s ≡ (s, none)
unfolding split_at_byte
split_at_byte-Lacks b [] h = refl
split_at_byte-Lacks b (c ∷ s) h =
    let e = split_at_byte-Lacks b s h.1 in let n = h.0 in rw e (ground arith)

-- A sentinel gives its key back.
split_key_sentinel_lem : (k : TestKey) → Lacks 0 k.0 → split_key_sentinel (key_sentinel k) ≡ k
unfolding split_key_sentinel key_sentinel
split_key_sentinel_lem k h = let e = split_at_byte-append 0 k.0 k.1 h in ground arith

-- A name in the documented form, a package without a colon, a colon, a test without a slash, a
-- slash and a subtest, is taken for the package and the test.
pub rerun_target-documented :
    (pkg test sub : Bytes)
    → Lacks 58 pkg
    → Lacks 47 test
    → rerun_target (pkg ++ 58 ∷ (test ++ 47 ∷ sub)) ≡ (pkg, test)
unfolding rerun_target split_qualified_test_name
rerun_target-documented pkg test sub h g =
    let a = split_at_byte-append 58 pkg (test ++ 47 ∷ sub) h in
    let b = split_at_byte-append 47 test sub g in ground arith

-- A name with a slash and no colon, the form that the failure records have, is taken for no
-- package and for the test that stands in front of the first slash.
pub rerun_target-slash :
    (seg more : Bytes)
    → Lacks 47 seg
    → Lacks 58 (seg ++ 47 ∷ more)
    → rerun_target (seg ++ 47 ∷ more) ≡ ([], seg)
unfolding rerun_target split_qualified_test_name
rerun_target-slash seg more h g =
    let a = split_at_byte-Lacks 58 (seg ++ 47 ∷ more) g in
    let b = split_at_byte-append 47 seg more h in ground arith

rerun_target_plain : (name : Bytes) → Lacks 58 name → (rerun_target name).0 ≡ []
unfolding rerun_target split_qualified_test_name
rerun_target_plain name h = let a = split_at_byte-Lacks 58 name h in ground arith

add_target-plain :
    (targets : List Bytes × List Bytes) (parent : Bytes)
    → (add_target targets [] parent).1 ≡ targets.1
unfolding add_target
add_target-plain targets [] = refl
add_target-plain targets (c ∷ cs) = refl

-- Where no name has a colon, no package is picked.
collect_targets-packages :
    (targets : List Bytes × List Bytes) (fs : List TestFailure)
    → All (λ f. Lacks 58 f.test_name) fs
    → (collect_targets targets fs).1 ≡ targets.1
unfolding collect_targets
collect_targets-packages targets [] h = refl
collect_targets-packages targets (f ∷ fs) h =
    let a = rerun_target_plain f.test_name h.0 in
    let b = collect_targets-packages targets fs h.1 in
    let c = collect_targets-packages (add_target targets [] (rerun_target f.test_name).1) fs h.1 in
    let d = add_target-plain targets (rerun_target f.test_name).1 in ground arith

-- For a package without a zero byte, the record of the frame that a test's events give has the
-- package, a slash and the test as its name; its place, its message and its diff are read from
-- the outputs of that test alone.
pub frame_to_failure-frame_of :
    (text : Text) (evs : List Event) (k : TestKey)
    → Lacks 0 k.0
    → frame_to_failure text (frame_of evs k)
      ≡ some (record {
        file = (extract_file_line text (output_events (events_of k evs))).0;
        line = (extract_file_line text (output_events (events_of k evs))).1;
        test_name = k.0 ++ 47 ∷ k.1;
        message = extract_message text (output_events (events_of k evs));
        diff = extract_diff text (output_events (events_of k evs));
      })
unfolding frame_to_failure frame_of
frame_to_failure-frame_of text evs k h =
    let out = output_events (events_of k evs) in
    let e : length (out ++ key_sentinel k ∷ []) - 1 ≡ length out =
      omega (arith, length-append out (key_sentinel k ∷ [])) in
    let a = get_elem?-append out (key_sentinel k) [] in
    let b = take-append (length out) out (key_sentinel k ∷ []) (omega arith) in
    let c = split_key_sentinel_lem k h in
    let z : length out - length out ≡ 0 = omega arith in let n = append-nil out in ground arith

-- Where no test's name has a colon, either no rerun is composed, or the one that is composed
-- names no package, so that it runs "./...".
pub compose_go_rerun_argv-packages :
    (failures : List TestFailure) (limit : ℕ)
    → All (λ f. Lacks 58 f.test_name) failures
    → (compose_go_rerun_argv failures limit ≡ [])
      ⊎ (compose_go_rerun_argv failures limit
          ≡ rerun_argv (cut_tests (extract_rerun_targets failures).0 limit) [])
unfolding compose_go_rerun_argv extract_rerun_targets
compose_go_rerun_argv-packages failures limit h =
    let a = collect_targets-packages ([], []) failures h in ground arith

-- At most `limit` tests are named.
pub length-cut_tests :
    (tests : List Bytes) (limit : ℕ) → 0 < limit → length (cut_tests tests limit) ≤ limit
unfolding cut_tests
length-cut_tests tests limit h = let a = length-take limit tests in ground arith
