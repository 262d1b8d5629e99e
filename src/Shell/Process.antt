-- ===== src/Shell/Process.antt =====
-- `BackgroundShell` of internal/tools/shell_registry.go. A method takes the time of its call where
-- the source reads the clock, and returns the new shell; the mutex makes each call one step.
pub mod Trace
pub mod Simulation
pub mod History
use code_gen_sandbox.Prelude.{
  ltb, if◌then◌else◌, length, ℤ, pos, ℕ, Bool, true, false, Option, none, some, List, [], ◌∷◌, ◌++◌,
  Bytes,
}
use code_gen_sandbox.Shell.Stream.{append_capped}
use code_gen_sandbox.Shell.Log
use code_gen_sandbox.Shell.Log.{
  WatchState, WatchEvent, append_event, events_since, error, idle_timeout, exited,
}

pub record BackgroundShell : Type 0 where
  pub id : Bytes
  pub command : Bytes
  pub started_at : ℕ
  -- 0 until the process has started.
  pub pgid : ℕ
  pub stdout : Bytes
  pub stdout_truncated : Bool
  pub stderr : Bytes
  pub stderr_truncated : Bool
  pub exit_code : Option ℤ
  pub watch : Option WatchState

unfoldable pub new_background_shell : Bytes → Bytes → ℕ → BackgroundShell
new_background_shell id command now = record {
  id = id;
  command = command;
  started_at = now;
  pgid = 0;
  stdout = [];
  stdout_truncated = false;
  stderr = [];
  stderr_truncated = false;
  exit_code = none;
  watch = none;
}

-- `appendEventLocked`: nothing on a shell that is not watched.
unfoldable pub append_shell_event :
    BackgroundShell → ℕ → Log.WatchEventType → Bytes → Bytes → ℤ → BackgroundShell
append_shell_event s now event_type source line exit_code = elim s.watch [
  | none ↦ s
  | some w ↦ record s { watch = some (append_event w now event_type source line exit_code) }
]

unfoldable pub new_watched_shell :
    Bytes → Bytes → List (Bytes → Bool) → List Bytes → ℕ → ℕ → BackgroundShell
unfolding append_shell_event new_background_shell
new_watched_shell id command patterns pattern_sources timeout now =
    let watch : WatchState = record {
      patterns = patterns;
      pattern_sources = pattern_sources;
      events = [];
      next_event_id = 0;
      events_dropped = 0;
      idle_timeout = timeout;
      last_output_at = now;
    } in
    let sh = record (new_background_shell id command now) { watch = some watch } in
    append_shell_event sh now Log.started [] [] (pos 0)

unfoldable pub is_watched : BackgroundShell → Bool
is_watched s = elim s.watch [ none ↦ false | some _ ↦ true ]

unfoldable pub watch_patterns : BackgroundShell → List Bytes
watch_patterns s = elim s.watch [ none ↦ [] | some w ↦ w.pattern_sources ]

abbrev newline : ℕ
newline = b'\n'

-- The source of the first pattern that matches: "" where the sources are fewer than the patterns.
unfoldable pub first_match : List (Bytes → Bool) → List Bytes → Bytes → Option Bytes
first_match [] sources line = none
first_match (re ∷ res) [] line = if re line then some [] else first_match res [] line
first_match (re ∷ res) (src ∷ sources) line =
    if re line then some src else first_match res sources line

-- The pattern loop of `ObserveWatchLine`, which stops at the first match.
unfoldable pub match_line : WatchState → ℕ → Bytes → WatchState
match_line w now line = elim (first_match w.patterns w.pattern_sources line) [
  | none ↦ w
  | some src ↦ append_event w now error src line (pos 0)
]

unfoldable pub append_stdout : BackgroundShell → Bytes → BackgroundShell
append_stdout s b =
    let (bytes, truncated) = append_capped s.stdout b s.stdout_truncated in
    record s { stdout = bytes; stdout_truncated = truncated }

unfoldable pub append_stderr : BackgroundShell → Bytes → BackgroundShell
append_stderr s b =
    let (bytes, truncated) = append_capped s.stderr b s.stderr_truncated in
    record s { stderr = bytes; stderr_truncated = truncated }

unfoldable pub observe_watch_line : BackgroundShell → ℕ → Bytes → BackgroundShell
unfolding match_line append_stderr
observe_watch_line s now line =
    let s' = append_stderr s (line ++ newline ∷ []) in
    elim s.watch [
      | none ↦ s'
      | some w ↦ record s' {
        watch = some (match_line (record w { last_output_at = now }) now line);
      }
    ]

unfoldable pub observe_watch_stdout : BackgroundShell → ℕ → Bytes → BackgroundShell
unfolding append_stdout
observe_watch_stdout s now b =
    let s' = append_stdout s b in
    elim s.watch [
      | none ↦ s'
      | some w ↦
          if ltb 0 (length b)
          then record s' { watch = some (record w { last_output_at = now }) }
          else s'
    ]

unfoldable pub record_watch_idle_timeout : BackgroundShell → ℕ → Bytes → BackgroundShell
unfolding append_shell_event
record_watch_idle_timeout s now reason = append_shell_event s now idle_timeout [] reason (pos 0)

unfoldable pub record_watch_exit : BackgroundShell → ℕ → ℤ → BackgroundShell
unfolding append_shell_event
record_watch_exit s now exit_code = append_shell_event s now exited [] [] exit_code

-- The zero time on a shell that is not watched.
unfoldable pub last_output_at : BackgroundShell → ℕ
last_output_at s = elim s.watch [ none ↦ 0 | some w ↦ w.last_output_at ]

unfoldable pub idle_timeout_of : BackgroundShell → ℕ
idle_timeout_of s = elim s.watch [ none ↦ 0 | some w ↦ w.idle_timeout ]

unfoldable pub events : BackgroundShell → ℕ → List WatchEvent × ℕ
events s since = elim s.watch [ none ↦ ([], 0) | some w ↦ events_since w since ]

unfoldable pub set_pgid : BackgroundShell → ℕ → BackgroundShell
set_pgid s pgid = record s { pgid = pgid }

unfoldable pub set_exit : BackgroundShell → ℤ → BackgroundShell
set_exit s code = record s { exit_code = some code }

pub record Snapshot : Type 0 where
  pub stdout : Bytes
  pub stderr : Bytes
  pub stdout_truncated : Bool
  pub stderr_truncated : Bool
  pub exit_code : Option ℤ
  pub running : Bool

unfoldable pub snapshot : BackgroundShell → Snapshot
snapshot s = record {
  stdout = s.stdout;
  stderr = s.stderr;
  stdout_truncated = s.stdout_truncated;
  stderr_truncated = s.stderr_truncated;
  exit_code = s.exit_code;
  running = elim s.exit_code [ none ↦ true | some _ ↦ false ];
}
