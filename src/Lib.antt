-- ===== src/Lib.antt =====
-- A verification library for the tool server of the sandbox: a Go program that gives an agent file,
-- shell, search and test tools inside one or several workspaces.
--
-- The parts and the files that model them:
-- - Prelude: shared names, lists and maps. Go's maps are association lists, texts are lists of bytes.
-- - Shell: background and watched shells of internal/tools/shell_registry.go. Shell/Stream is
--   appendCapped, Shell/Log the event log with its cap of 1024 events, Shell/Process the methods of a
--   BackgroundShell, Shell/Registry the registry and the handlers of bash.go, bash_output.go,
--   kill_shell.go and watch_process.go that go through it. The mutex of a shell makes each call one
--   step, so an interleaving of goroutines is a list of calls (Shell/Process/Trace, Simulation, History).
-- - Health: the tracker of internal/metrics/health/tracker.go with its gauges (Ring and
--   ErrorRate, Streak, Repetition). A rate is the pair of errors and calls.
-- - Files: the tools Read, Write and Edit (internal/tools/read.go, write.go, edit.go) over a file
--   system and the read tracker of internal/workspace/tracker.go. Files/Replace is applyEdit,
--   Files/Numbered is readNumbered, Files/Handlers composes them; what the system answers to a call is
--   an argument. Files/Render is render.go over the same files.
-- - Search: the tokenizer and the index of internal/search.
-- - Testing: the events of go test -json (internal/verify/go_test_failures.go) and the rerun of the
--   failed tests (internal/tools/run_failing_tests.go), which reads the names that the first writes.
-- - Workspaces: internal/workspace/set.go and internal/tools/workspace_dispatch.go.
-- - Secrets: internal/secrets/store.go, and the tools of internal/tools/secret.go (Secrets/Tools).
-- - Lsp: the language server client of internal/lsp. Lsp/Wire is wire.go, Lsp/Client the state of
--   client.go with the steps of calls that run at the same time (Calls) and the requests of one
--   caller (Requests, Returns), Lsp/Registry is registry.go. A channel is named by its call's id.
-- - Snapshots: internal/tools/snapshot.go over a git that is a parameter. Snapshots/Restoring states
--   what git's manual says of the commands, as laws on what the states hold, for the listings only of
--   paths that git prints without quotes.
-- - Coverage: internal/tools/coverage_index.go and tests_covering.go.
-- - Glob: internal/tools/glob.go, where the match of one segment and ripgrep are parameters, and
--   internal/tools/grep.go (Glob/Grep).
-- - Verify: internal/verify and the tools over it. Verify/Detectors are the four detectors, Dispatch
--   dispatch.go, Exec exec.go, Lint lint.go, format.go and the format feedback of edit.go, Packages
--   go_tests_by_package.go, Tools run_tests.go, run_lint.go and run_typecheck.go with what they change
--   of the stores and gauges of Testing, Coverage and Health, Covering and Runs the state behind a
--   run, Markers the choice by the files at the root, Scripts run_script.go.
-- - Examples: the theorems at concrete inputs.
--
-- Most loops are structural recursion on their lists. Three run on a number of rounds: the frames and
-- headers of Lsp/Wire take a round for each byte of the reader and one more, since each takes at least
-- a byte; the matcher of Glob one for each byte of the pattern and of the path and one more, since
-- each shortens one of them; the pruning of directories in Snapshots one for each byte of the path,
-- since each goes one directory up. A buffer longer than 2^48 bytes makes Go panic; below that, memory
-- is taken to be enough. Go's int is the natural
-- numbers where the code never goes below zero, and the integers where an argument may be negative;
-- 64-bit overflow of counters is not modelled. Times are natural numbers, with 0 the zero time.
--
-- Not modelled: processes and pipes, the MCP library, JSON, regular expressions and the unicode tables
-- (parameters where the code rests on them), floating-point BM25 scores, the HTTP interface, metrics
-- exposition and tracing, and the printed texts of some tools.
pub mod Prelude
pub mod Shell
pub mod Health
pub mod Files
pub mod Search
pub mod Testing
pub mod Workspaces
pub mod Secrets
pub mod Snapshots
pub mod Coverage
pub mod Glob
pub mod Lsp
pub mod Verify
pub mod Examples
