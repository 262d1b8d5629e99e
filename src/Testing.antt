-- ===== src/Testing.antt =====
-- The results of the project's tests: internal/verify/go_test_failures.go and
-- internal/tools/run_failing_tests.go.
pub mod Events
pub mod Rerun
pub mod LastFailures
