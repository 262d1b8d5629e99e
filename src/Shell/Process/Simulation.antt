-- ===== src/Shell/Process/Simulation.antt =====
-- Each call on a watched shell, against the trace of the calls
-- (internal/tools/shell_registry.go).
use mathlib.Core.List.{concat-ne-nil}
use code_gen_sandbox.Prelude.{
  Option-cases, All, ℤ, pos, ℕ, ◌≡◌, refl, ◌∙◌, ◌≢◌, inl, inr, Bool, some, List, [], ◌∷◌, ◌++◌,
  Bytes,
}
use code_gen_sandbox.Shell.Stream.{append_capped, append_within-Captures, shell_output_cap_bytes}
use code_gen_sandbox.Shell.Log
use code_gen_sandbox.Shell.Log.{
  WatchState, WatchEvent, WatchEventType, Tracks, append_event, event_of, append_event-Tracks,
  append_event-patterns, events_since, watch_event_cap,
}
use code_gen_sandbox.Shell.Process
use code_gen_sandbox.Shell.Process.{
  BackgroundShell, new_watched_shell, first_match, observe_watch_line, observe_watch_stdout,
  record_watch_idle_timeout, record_watch_exit, append_stdout, append_stderr, set_exit, set_pgid,
  events,
}
use code_gen_sandbox.Shell.Process.Trace.{
  Call, line, stdout, idle, exit, out_chunk, err_chunk, exit_code, group, step, run, HasText, Trace,
  log_entry, append_watched, observe_watched, observe_stdout_watched, note_line, note, notes,
  Follows,
}

module _ (patterns : List (Bytes → Bool)) (sources : List Bytes) where
  entry-Tracks :
      (w : WatchState) (t : Trace) (now : ℕ) (event_type : WatchEventType) (source text : Bytes)
      (code : ℤ)
      → Tracks w t.log
      → Tracks
          (append_event w now event_type source text code)
          (log_entry t now event_type source text code).log
  entry-Tracks w t now event_type source text code k =
      rw (← k.counted) (append_event-Tracks w t.log k now event_type source text code)

  log_entry-Follows :
      (s : BackgroundShell) (t : Trace) (now : ℕ) (event_type : WatchEventType)
      (source text : Bytes) (code : ℤ)
      → Follows patterns sources s t
      → Follows patterns sources
          (Process.append_shell_event s now event_type source text code)
          (log_entry t now event_type source text code)
  log_entry-Follows s t now event_type source text code f =
      let kept = append_event-patterns f.state now event_type source text code in
      rw (append_watched s f.state now event_type source text code f.watched) (record {
        state = append_event f.state now event_type source text code;
        watched = refl;
        tracks = entry-Tracks f.state t now event_type source text code f.tracks;
        same_patterns = kept.0 ∙ f.same_patterns;
        same_sources = kept.1 ∙ f.same_sources;
        out_kept = f.out_kept;
        err_kept = f.err_kept;
      })

  out-Follows :
      (s : BackgroundShell) (t : Trace) (b : Bytes)
      → b ≢ []
      → Follows patterns sources s t
      → Follows patterns sources (append_stdout s b) (record t { out = t.out ++ b })
  unfolding append_stdout append_capped
  out-Follows s t b ne f = record {
    state = f.state;
    watched = f.watched;
    tracks = f.tracks;
    same_patterns = f.same_patterns;
    same_sources = f.same_sources;
    out_kept = append_within-Captures shell_output_cap_bytes t.out b _ ne f.out_kept;
    err_kept = f.err_kept;
  }

  err-Follows :
      (s : BackgroundShell) (t : Trace) (b : Bytes)
      → b ≢ []
      → Follows patterns sources s t
      → Follows patterns sources (append_stderr s b) (record t { err = t.err ++ b })
  unfolding append_stderr append_capped
  err-Follows s t b ne f = record {
    state = f.state;
    watched = f.watched;
    tracks = f.tracks;
    same_patterns = f.same_patterns;
    same_sources = f.same_sources;
    out_kept = f.out_kept;
    err_kept = append_within-Captures shell_output_cap_bytes t.err b _ ne f.err_kept;
  }

  -- Output refreshes the time of the last output, which the trace does not hold.
  touch-Follows :
      (s : BackgroundShell) (t : Trace) (now : ℕ) (f : Follows patterns sources s t)
      → Follows patterns sources
          (record s { watch = some (record f.state { last_output_at = now }) })
          t
  touch-Follows s t now f = record {
    state = record f.state { last_output_at = now };
    watched = refl;
    tracks =
        let k = f.tracks in
        record {
          window = k.window;
          counted = k.counted;
          dropped_le = k.dropped_le;
          bounded = k.bounded;
          numbered = k.numbered;
        };
    same_patterns = f.same_patterns;
    same_sources = f.same_sources;
    out_kept = f.out_kept;
    err_kept = f.err_kept;
  }

  match-Follows :
      (s : BackgroundShell) (t : Trace) (w : WatchState) (now : ℕ) (text : Bytes)
      → w.patterns ≡ patterns
      → w.pattern_sources ≡ sources
      → Follows patterns sources (record s { watch = some w }) t
      → Follows patterns sources
          (record s { watch = some (Process.match_line w now text) })
          (note_line patterns sources t now text (first_match patterns sources text))
  unfolding note_line Process.match_line
  match-Follows s t w now text p q g = elim (Option-cases (first_match patterns sources text)) [
    | inl e ↦ rw (p, q, e, Process.match_line, note_line) g
    | inr (src, e) ↦
        rw (p, q, e, Process.match_line, note_line)
          (unfold Process.append_shell_event in
            log_entry-Follows (record s { watch = some w }) t now Log.error src text (pos 0) g)
  ]

  line-Follows :
      (s : BackgroundShell) (t : Trace) (now : ℕ) (text : Bytes)
      → Follows patterns sources s t
      → Follows patterns sources
          (observe_watch_line s now text)
          (note patterns sources t (line now text))
  unfolding note append_stderr
  line-Follows s t now text f =
      let f' = err-Follows s t (text ++ b'\n' ∷ []) (concat-ne-nil b'\n' text) f in
      let g = touch-Follows _ _ now f' in
      rw (observe_watched s f'.state now text f'.watched) (
        match-Follows (append_stderr s (text ++ b'\n' ∷ [])) _
          (record f'.state { last_output_at = now }) now text f'.same_patterns f'.same_sources g)

  stdout-Follows :
      (s : BackgroundShell) (t : Trace) (now : ℕ) (b : Bytes)
      → b ≢ []
      → Follows patterns sources s t
      → Follows patterns sources (observe_watch_stdout s now b) (record t { out = t.out ++ b })
  unfolding append_stdout
  stdout-Follows s t now b h f =
      let f' = out-Follows s t b h f in
      rw (observe_stdout_watched s f'.state now b h f'.watched) (touch-Follows _ _ now f')

  -- Every call keeps the shell the bounded view of the trace.
  pub step-Follows :
      (s : BackgroundShell) (t : Trace) (c : Call)
      → HasText c
      → Follows patterns sources s t
      → Follows patterns sources (step s c) (note patterns sources t c)
  unfolding step note
  step-Follows s t (line now text) h f = line-Follows s t now text f
  step-Follows s t (stdout now b) h f = stdout-Follows s t now b h f
  step-Follows s t (idle now reason) h f =
      unfold record_watch_idle_timeout in
      log_entry-Follows s t now Log.idle_timeout [] reason (pos 0) f
  step-Follows s t (exit now code) h f =
      unfold record_watch_exit in log_entry-Follows s t now Log.exited [] [] code f
  step-Follows s t (out_chunk b) h f = out-Follows s t b h f
  step-Follows s t (err_chunk b) h f = err-Follows s t b h f
  step-Follows s t (exit_code code) h f =
      unfold set_exit in
      record {
        state = f.state;
        watched = f.watched;
        tracks = f.tracks;
        same_patterns = f.same_patterns;
        same_sources = f.same_sources;
        out_kept = f.out_kept;
        err_kept = f.err_kept;
      }
  step-Follows s t (group pgid) h f =
      unfold set_pgid in
      record {
        state = f.state;
        watched = f.watched;
        tracks = f.tracks;
        same_patterns = f.same_patterns;
        same_sources = f.same_sources;
        out_kept = f.out_kept;
        err_kept = f.err_kept;
      }

  pub run-Follows :
      (s : BackgroundShell) (t : Trace) (cs : List Call)
      → All HasText cs
      → Follows patterns sources s t
      → Follows patterns sources (run s cs) (notes patterns sources t cs)
  unfolding run notes
  run-Follows s t [] h f = f
  run-Follows s t (c ∷ cs) h f =
      run-Follows (step s c) (note patterns sources t c) cs h.1 (step-Follows s t c h.0 f)
