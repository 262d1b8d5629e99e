-- ===== src/Shell/Watch.antt =====
-- The tool watch_process (internal/tools/watch_process.go): its arguments, the goroutines that feed a
-- watched shell, and what it prints. Regular expressions, times as texts and durations are parameters.
use code_gen_sandbox.Lsp.Wire.{format_decimal}
use code_gen_sandbox.Testing.Rerun.{join}
use code_gen_sandbox.Shell.Log.{WatchEvent, started, error, idle_timeout, exited}
use code_gen_sandbox.Shell.Process.{
  BackgroundShell, new_watched_shell, observe_watch_line, observe_watch_stdout,
  record_watch_idle_timeout, record_watch_exit, set_exit, snapshot, last_output_at, idle_timeout_of,
}
use code_gen_sandbox.Shell.Registry.{
  ShellRegistry, ShellError, not_configured, Spawn, ok, err, launch,
}
use code_gen_sandbox.Shell.Command.{ArgsResult, command, validate_bash_args, clamp_arg, format_int}
use code_gen_sandbox.Prelude.{
  ltb, leb, ◌==◌, if◌then◌else◌, length, ℤ, ℕ, ◌+◌, ◌-◌, ◌*◌, ◌^◌, ◌≤◌, ◌≡◌, Bool, not, Option,
  none, some, List, [], ◌∷◌, ◌++◌, arith, Bytes, codes,
}

abbrev pub default_watch_patterns : List Bytes
default_watch_patterns =
    codes "^Error:"
    ∷ codes "^Fatal:"
    ∷ codes "^panic:"
    ∷ codes "\\buncaught\\b"
    ∷ codes "UnhandledPromiseRejection"
    ∷ []

abbrev pub max_watch_idle_timeout_sec : ℕ
max_watch_idle_timeout_sec = 3600

abbrev pub max_watch_patterns : ℕ
max_watch_patterns = 32

-- The argument `error_patterns`: an element that is no text is `none`.
pub data PatternsArg : Type 0 where
  absent not_an_array : PatternsArg
  array : List (Option Bytes) → PatternsArg

pub data PatternError : Type 0 where
  no_array too_many : PatternError
  not_a_string empty_pattern : ℕ → PatternError
  not_compiled : ℕ → Bytes → PatternError

pub data Patterns : Type 0 where
  compiled : List (Bytes → Bool) → List Bytes → Patterns
  bad_pattern : PatternError → Patterns

-- Seconds; the source multiplies by the nanoseconds of one.
unfoldable pub parse_watch_idle_timeout : Option ℤ → ℕ
parse_watch_idle_timeout timeout = clamp_arg 0 max_watch_idle_timeout_sec timeout * 10 ^ 9

pub data WatchResult : Type 0 where
  bad_args : ArgsResult → WatchResult
  bad_patterns : PatternError → WatchResult
  failed : ShellError → WatchResult
  watching : Bytes → List Bytes → ℕ → WatchResult

unfoldable pub start_watch :
    ShellRegistry
    → Bytes
    → Bytes
    → List (Bytes → Bool)
    → List Bytes
    → ℕ
    → ℕ
    → Spawn
    → ShellRegistry × WatchResult
start_watch r id c patterns sources timeout now spawn =
    let (r', launched) =
      launch r (new_watched_shell id c patterns sources timeout now) (codes "watch_process")
        spawn in
    elim launched [ err e ↦ (r', failed e) | ok got ↦ (r', watching got sources timeout) ]

module _ (compile : Bytes → Option (Bytes → Bool)) where
  -- `compilePatterns`, with the compiled ones, all the sources and the index of the next.
  unfoldable pub compile_patterns : List (Bytes → Bool) → List Bytes → ℕ → List Bytes → Patterns
  compile_patterns out sources i [] = compiled out sources
  compile_patterns out sources i (s ∷ rest) = elim (compile s) [
    | none ↦ bad_pattern (not_compiled i s)
    | some re ↦ compile_patterns (out ++ re ∷ []) sources (i + 1) rest
  ]

  unfoldable pub check_patterns : List Bytes → ℕ → List (Option Bytes) → Patterns
  check_patterns sources i [] = compile_patterns [] sources 0 sources
  check_patterns sources i (none ∷ rest) = bad_pattern (not_a_string i)
  check_patterns sources i (some [] ∷ rest) = bad_pattern (empty_pattern i)
  check_patterns sources i (some (c ∷ s) ∷ rest) =
      check_patterns (sources ++ (c ∷ s) ∷ []) (i + 1) rest

  unfoldable pub parse_watch_patterns : PatternsArg → Patterns
  parse_watch_patterns absent = compile_patterns [] default_watch_patterns 0 default_watch_patterns
  parse_watch_patterns not_an_array = bad_pattern no_array
  parse_watch_patterns (array items) =
      if ltb max_watch_patterns (length items)
      then bad_pattern too_many
      else check_patterns [] 0 items

  -- `HandleWatchProcess`; `id` and `now` are the new ID and the time of the call.
  unfoldable pub handle_watch_process :
      (Bytes → Option Bytes)
      → Option ShellRegistry
      → Bytes
      → Bytes
      → PatternsArg
      → Option ℤ
      → Bytes
      → ℕ
      → Spawn
      → Option ShellRegistry × WatchResult
  handle_watch_process deny none command_arg description patterns timeout id now spawn =
      (none, failed not_configured)
  handle_watch_process deny (some r) command_arg description patterns timeout id now spawn =
      elim (validate_bash_args deny command_arg description) [
        | command c ↦ elim (parse_watch_patterns patterns) [
          | bad_pattern e ↦ (some r, bad_patterns e)
          | compiled res sources ↦
              let (r', got) =
                start_watch r id c res sources (parse_watch_idle_timeout timeout) now spawn in
              (some r', got)
        ]
        | bad ↦ (some r, bad_args bad)
      ]

-- A line of a scanner loses its carriage return.
unfoldable pub drop_cr : Bytes → Bytes
drop_cr [] = []
drop_cr (c ∷ []) = if c == 13 then [] else c ∷ []
drop_cr (c ∷ d ∷ s) = c ∷ drop_cr (d ∷ s)

-- The buffer of the scanner.
abbrev pub max_scan_bytes : ℕ
max_scan_bytes = 1024 * 1024

-- `drainWatchStderr`, for lines with the times at which they are read. A line that does not fit the
-- buffer ends the scan.
unfoldable pub drain_watch_stderr : BackgroundShell → List (ℕ × Bytes) → BackgroundShell
drain_watch_stderr sh [] = sh
drain_watch_stderr sh ((now, line) ∷ lines) =
    if leb max_scan_bytes (length line)
    then sh
    else drain_watch_stderr (observe_watch_line sh now (drop_cr line)) lines

-- `drainWatchStdout`
unfoldable pub drain_watch_stdout : BackgroundShell → List (ℕ × Bytes) → BackgroundShell
drain_watch_stdout sh [] = sh
drain_watch_stdout sh ((now, b) ∷ reads) =
    drain_watch_stdout (if ltb 0 (length b) then observe_watch_stdout sh now b else sh) reads

-- `watchLifecycle`
unfoldable pub watch_lifecycle : BackgroundShell → ℕ → ℤ → BackgroundShell
watch_lifecycle sh now exit_code = set_exit (record_watch_exit sh now exit_code) exit_code

pub data Tick : Type 0 where
  waiting : Tick
  stopped : Tick
  -- The process group that is killed, if the shell has one.
  killed : Option ℕ → Tick

-- One round of `watchIdleWatchdog`, for a timeout above 0.
unfoldable pub watchdog_tick : BackgroundShell → ℕ → Bytes → BackgroundShell × Tick
watchdog_tick sh now reason =
    if not (snapshot sh).running
    then (sh, stopped)
    else if last_output_at sh == 0
    then (sh, waiting)
    else if ltb (now - last_output_at sh) (idle_timeout_of sh)
    then (sh, waiting)
    else (
      record_watch_idle_timeout sh now reason,
      killed (if ltb 0 sh.pgid then some sh.pgid else none),
    )

abbrev line_of : Bytes → Bytes
line_of s = s ++ 10 ∷ []

-- `formatWatchStarted`; `duration` prints a duration.
unfoldable pub format_watch_started : (ℕ → Bytes) → Bytes → Bytes → List Bytes → ℕ → Bytes
format_watch_started duration id command_text patterns timeout =
    line_of (codes "shell_id: " ++ id)
    ++ line_of (codes "started in background: " ++ command_text)
    ++ line_of (
        codes "error_patterns: " ++ (elim patterns [
          | [] ↦ codes "(none " ++ 226 ∷ 128 ∷ 148 ∷ codes " pattern matching disabled)"
          | p ∷ ps ↦ join (codes " | ") (p ∷ ps)
        ]))
    ++ line_of
        (codes "idle_timeout: " ++ (if ltb 0 timeout then duration timeout else codes "(disabled)"))
    ++ 10
      ∷ line_of (
          codes
            "Poll watch_process_events with this shell_id for structured events. KillShell terminates the process group.")

-- `formatWatchEventLine`; `time` prints a time and `quote` a text.
unfoldable pub format_watch_event_line : (ℕ → Bytes) → (Bytes → Bytes) → WatchEvent → Bytes
format_watch_event_line time quote ev =
    let start = codes "[" ++ format_decimal ev.id ++ codes "] " ++ time ev.at ++ codes "  " in
    elim ev.event_type [
      | started ↦ line_of (start ++ codes "started")
      | error ↦ elim ev.pattern_source [
        | [] ↦ line_of (start ++ codes "error" ++ codes "  " ++ ev.line)
        | c ∷ cs ↦ line_of (
            start
            ++ codes "error"
            ++ codes "  (matched "
            ++ quote (c ∷ cs)
            ++ codes ")  "
            ++ ev.line)
      ]
      | idle_timeout ↦ line_of (start ++ codes "idle_timeout" ++ codes "  " ++ ev.line)
      | exited ↦ line_of (start ++ codes "exited" ++ codes "  exit=" ++ format_int ev.exit_code)
    ]

-- A line of stderr that does not fit the buffer ends the reading: no line behind it reaches the shell.
pub drain_watch_stderr-long :
    (sh : BackgroundShell) (before : List (ℕ × Bytes)) (now : ℕ) (long : Bytes)
    (after : List (ℕ × Bytes))
    → max_scan_bytes ≤ length long
    → drain_watch_stderr sh (before ++ (now, long) ∷ after) ≡ drain_watch_stderr sh before
unfolding drain_watch_stderr
drain_watch_stderr-long sh [] now long after h = ground arith
drain_watch_stderr-long sh ((t, line) ∷ before) now long after h =
    let r =
      drain_watch_stderr-long (observe_watch_line sh t (drop_cr line)) before now long after h in
    ground arith
