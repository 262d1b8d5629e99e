-- ===== src/Shell/Process/History.antt =====
-- A watched shell under any interleaving of its goroutines, against the history of its calls
-- (internal/tools/shell_registry.go).

use code_gen_sandbox.Prelude.{
  length, drop, length-drop, All, pos, ℕ, ◌+◌, ◌≤◌, max, ◌≡◌, refl, ap, Bool, List, [], ◌∷◌, arith,
  Bytes,
}
use code_gen_sandbox.Shell.Log
use code_gen_sandbox.Shell.Log.{
  WatchState, WatchEvent, WatchEventType, Tracks, append_event, event_of, append_event-Tracks,
  append_event-patterns, events_since, watch_event_cap,
}
use code_gen_sandbox.Shell.Log.Polling.{events_since-Tracks}
use code_gen_sandbox.Shell.Process.{BackgroundShell, new_watched_shell, events}
use code_gen_sandbox.Shell.Process.Trace.{Call, run, HasText, Trace, notes, Follows}
use code_gen_sandbox.Shell.Process.Simulation.{run-Follows}

abbrev pub start_trace : ℕ → Trace
start_trace now = record {
  log =
      record {
        id = 1;
        event_type = Log.started;
        at = now;
        pattern_source = [];
        line = [];
        exit_code = pos 0;
      }
      ∷ [];
  out = [];
  err = [];
}

new-Follows :
    (id command : Bytes) (patterns : List (Bytes → Bool)) (sources : List Bytes) (timeout now : ℕ)
    → Follows patterns sources
        (new_watched_shell id command patterns sources timeout now)
        (start_trace now)
unfolding new_watched_shell append_event
new-Follows id command patterns sources timeout now = record {
  state = _;
  watched = refl;
  tracks = record {
    window = refl;
    counted = refl;
    dropped_le = omega arith;
    bounded = omega arith;
    numbered = refl;
  };
  same_patterns = refl;
  same_sources = refl;
  out_kept = record { kept = refl; marked = refl };
  err_kept = record { kept = refl; marked = refl };
}

module _ (id command : Bytes) (patterns : List (Bytes → Bool)) (sources : List Bytes)
    (timeout start : ℕ) (cs : List Call) where
  abbrev pub ran : BackgroundShell
  ran = run (new_watched_shell id command patterns sources timeout start) cs

  abbrev pub traced : Trace
  traced = notes patterns sources (start_trace start) cs

  -- When every read that the drain loops pass on has at least one byte, then after any calls of
  -- its goroutines, in any order, a watched shell is the bounded view of the trace of those
  -- calls: its log is the end of the whole log, with exact IDs and an exact count of dropped
  -- events, and each stream is the first MiB of what was written to it, marked truncated exactly
  -- when there was more.
  pub ran-Follows : All HasText cs → Follows patterns sources ran traced
  ran-Follows h =
      run-Follows patterns sources _ (start_trace start) cs h
        (new-Follows id command patterns sources timeout start)

  -- When every read that the drain loops pass on has at least one byte, a poll after any calls,
  -- with the last ID that the client has seen, returns the whole log behind that ID, except for
  -- the dropped events whose count it reports; at most 1024 events are retained, and no more are
  -- reported dropped than there were.
  pub poll_lem :
      All HasText cs
      → (since : ℕ)
      → (dropped : ℕ) × (events ran since ≡ (drop (max since dropped) traced.log, dropped))
        × (length traced.log ≤ dropped + watch_event_cap)
        × (dropped ≤ length traced.log)
  unfolding events
  poll_lem h since =
      let f = ran-Follows h in
      let w = f.state in
      (
        w.events_dropped,
        rw (f.watched, events) (events_since-Tracks w traced.log since f.tracks),
        omega (
          arith,
          ap length f.tracks.window,
          length-drop w.events_dropped traced.log,
          f.tracks.bounded,
        ),
        f.tracks.dropped_le,
      )
