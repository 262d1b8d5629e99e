-- ===== src/Shell/Process/Trace.antt =====
-- The calls on a watched shell and the trace of all that they log and write, with no cap
-- (internal/tools/shell_registry.go).

use code_gen_sandbox.Prelude.{
  lt→ltb, length, ℤ, pos, ℕ, suc, ◌+◌, ◌≡◌, refl, ◌≢◌, Bool, Option, none, some, List, [], ◌∷◌,
  ◌++◌, arith, Bytes,
}
use code_gen_sandbox.Shell.Stream.{shell_output_cap_bytes, Captures}
use code_gen_sandbox.Shell.Log
use code_gen_sandbox.Shell.Log.{
  WatchState, WatchEvent, WatchEventType, Tracks, append_event, event_of, append_event-Tracks,
  append_event-patterns, events_since, watch_event_cap,
}
use code_gen_sandbox.Shell.Process
use code_gen_sandbox.Shell.Process.{
  BackgroundShell, new_watched_shell, first_match, observe_watch_line, observe_watch_stdout,
  record_watch_idle_timeout, record_watch_exit, append_stdout, append_stderr, set_exit, set_pgid,
  events,
}

-- One locked call of a goroutine or a handler, with the time at which it runs.
pub data Call : Type 0 where
  line : ℕ → Bytes → Call
  stdout : ℕ → Bytes → Call
  idle : ℕ → Bytes → Call
  exit : ℕ → ℤ → Call
  out_chunk : Bytes → Call
  err_chunk : Bytes → Call
  exit_code : ℤ → Call
  group : ℕ → Call

unfoldable pub step : BackgroundShell → Call → BackgroundShell
step s (line now text) = observe_watch_line s now text
step s (stdout now b) = observe_watch_stdout s now b
step s (idle now reason) = record_watch_idle_timeout s now reason
step s (exit now code) = record_watch_exit s now code
step s (out_chunk b) = append_stdout s b
step s (err_chunk b) = append_stderr s b
step s (exit_code code) = set_exit s code
step s (group pgid) = set_pgid s pgid

unfoldable pub run : BackgroundShell → List Call → BackgroundShell
run s [] = s
run s (c ∷ cs) = run (step s c) cs

-- The drain loops pass on only reads of at least one byte.
abbrev pub HasText : Call → Type 0
HasText (stdout now b) = b ≢ []
HasText (out_chunk b) = b ≢ []
HasText (err_chunk b) = b ≢ []
HasText (group pgid) = Unit {0}
HasText _ = Unit {0}

-- Everything that the calls so far have logged and written, with no cap.
pub record Trace : Type 0 where
  pub log : List WatchEvent
  pub out : Bytes
  pub err : Bytes

abbrev pub log_entry : Trace → ℕ → WatchEventType → Bytes → Bytes → ℤ → Trace
log_entry t now event_type source text code = record t {
  log =
      t.log
      ++ record {
        id = length t.log + 1;
        event_type = event_type;
        at = now;
        pattern_source = source;
        line = text;
        exit_code = code;
      }
        ∷ [];
}

pub append_watched :
    (s : BackgroundShell) (w : WatchState) (now : ℕ) (event_type : WatchEventType)
    (source text : Bytes) (code : ℤ)
    → s.watch ≡ some w
    → Process.append_shell_event s now event_type source text code
      ≡ record s { watch = some (append_event w now event_type source text code) }
unfolding Process.append_shell_event
append_watched s w now event_type source text code e = rw (e, Process.append_shell_event)

pub observe_watched :
    (s : BackgroundShell) (w : WatchState) (now : ℕ) (text : Bytes)
    → s.watch ≡ some w
    → observe_watch_line s now text ≡ record (append_stderr s (text ++ b'\n' ∷ [])) {
      watch = some (Process.match_line (record w { last_output_at = now }) now text);
    }
unfolding observe_watch_line
observe_watched s w now text e = rw (e, observe_watch_line)

pub observe_stdout_watched :
    (s : BackgroundShell) (w : WatchState) (now : ℕ) (b : Bytes)
    → b ≢ []
    → s.watch ≡ some w
    → observe_watch_stdout s now b
      ≡ record (append_stdout s b) { watch = some (record w { last_output_at = now }) }
unfolding observe_watch_stdout
observe_stdout_watched s w now [] ne e = absurd (ne refl)
observe_stdout_watched s w now (c ∷ b) ne e =
    rw (e, observe_watch_stdout, lt→ltb 0 (suc (length b)) (omega arith)) refl

module _ (patterns : List (Bytes → Bool)) (sources : List Bytes) where
  unfoldable pub note_line : Trace → ℕ → Bytes → Option Bytes → Trace
  note_line t now text none = t
  note_line t now text (some src) = log_entry t now Log.error src text (pos 0)

  unfoldable pub note : Trace → Call → Trace
  unfolding note_line
  note t (line now text) =
      note_line (record t { err = t.err ++ (text ++ b'\n' ∷ []) }) now text
        (first_match patterns sources text)
  note t (stdout now b) = record t { out = t.out ++ b }
  note t (idle now reason) = log_entry t now Log.idle_timeout [] reason (pos 0)
  note t (exit now code) = log_entry t now Log.exited [] [] code
  note t (out_chunk b) = record t { out = t.out ++ b }
  note t (err_chunk b) = record t { err = t.err ++ b }
  note t (exit_code code) = t
  note t (group pgid) = t

  unfoldable pub notes : Trace → List Call → Trace
  notes t [] = t
  notes t (c ∷ cs) = notes (note t c) cs

  -- The shell is the bounded view of a trace.
  pub record Follows (s : BackgroundShell) (t : Trace) : Type 0 where
    pub state : WatchState
    pub watched : s.watch ≡ some state
    pub tracks : Tracks state t.log
    pub same_patterns : state.patterns ≡ patterns
    pub same_sources : state.pattern_sources ≡ sources
    pub out_kept : Captures shell_output_cap_bytes t.out (s.stdout, s.stdout_truncated)
    pub err_kept : Captures shell_output_cap_bytes t.err (s.stderr, s.stderr_truncated)
