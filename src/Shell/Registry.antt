-- ===== src/Shell/Registry.antt =====
-- `ShellRegistry` of internal/tools/shell_registry.go, and the handlers that go through it:
-- bash.go (background start), bash_output.go, kill_shell.go and watch_process.go.
pub mod Lifecycle
use code_gen_sandbox.Prelude.{
  ltb, if◌then◌else◌, length, ℤ, pos, ℕ, Bool, Option, none, some, List, [], ◌∷◌, Bytes, codes,
  bytes_discrete,
}
use code_gen_sandbox.Prelude.Maps
use code_gen_sandbox.Shell.Log.{WatchEvent}
use code_gen_sandbox.Shell.Process
use code_gen_sandbox.Shell.Process.{
  BackgroundShell, Snapshot, new_background_shell, new_watched_shell, set_pgid, is_watched, events,
  snapshot, watch_patterns,
}

abbrev pub ShellRegistry : Type 0
ShellRegistry = List (Bytes × BackgroundShell)

unfoldable pub register : ShellRegistry → BackgroundShell → ShellRegistry
register r shell = Maps.insert bytes_discrete shell.id shell r

unfoldable pub get : ShellRegistry → Bytes → Option BackgroundShell
get r id = Maps.lookup bytes_discrete id r

unfoldable pub remove : ShellRegistry → Bytes → ShellRegistry
remove r id = Maps.remove bytes_discrete id r

unfoldable pub len : ShellRegistry → ℕ
len r = length r

pub data ShellError : Type 0 where
  not_configured : ShellError
  shell_id_required : ShellError
  unknown_shell_id : Bytes → ShellError
  not_watched : Bytes → ShellError
  stdout_pipe_failed : Bytes → ShellError
  stderr_pipe_failed : Bytes → ShellError
  start_failed : Bytes → ShellError

pub data Result {ℓ} (A : Type ℓ) : Type ℓ where
  ok : A → Result A
  err : ShellError → Result A

-- The guards that the three handlers on a shell share: `[]` stands for an argument that is absent.
unfoldable pub find_shell : Option ShellRegistry → Bytes → Result (ShellRegistry × BackgroundShell)
unfolding get
find_shell none id = err not_configured
find_shell (some r) [] = err shell_id_required
find_shell (some r) (c ∷ id) = elim (get r (c ∷ id)) [
  | none ↦ err (unknown_shell_id (c ∷ id))
  | some sh ↦ ok (r, sh)
]

-- What the two polling tools print.
pub record Report : Type 0 where
  pub command : Bytes
  pub started_at : ℕ
  pub captured : Snapshot

unfoldable pub handle_bash_output : Option ShellRegistry → Bytes → Result Report
handle_bash_output shells id = elim (find_shell shells id) [
  | err e ↦ err e
  | ok (r, sh) ↦
      ok (record { command = sh.command; started_at = sh.started_at; captured = snapshot sh })
]

-- The registry without the shell, and the process group that gets SIGKILL.
unfoldable pub handle_kill_shell : Option ShellRegistry → Bytes → Result (ShellRegistry × Option ℕ)
unfolding remove
handle_kill_shell shells id = elim (find_shell shells id) [
  | err e ↦ err e
  | ok (r, sh) ↦ ok (remove r id, if ltb 0 sh.pgid then some sh.pgid else none)
]

pub record WatchReport : Type 0 where
  pub command : Bytes
  pub patterns : List Bytes
  pub events : List WatchEvent
  pub dropped : ℕ
  pub exit_code : Option ℤ
  pub running : Bool

-- `since` is the integer that the argument converts to, if there is one.
since_event_id : Option ℤ → ℕ
since_event_id (some (pos n)) = n
since_event_id _ = 0

unfoldable pub handle_watch_process_events :
    Option ShellRegistry → Bytes → Option ℤ → Result WatchReport
unfolding since_event_id
handle_watch_process_events shells id since = elim (find_shell shells id) [
  | err e ↦ err e
  | ok (r, sh) ↦
      if is_watched sh
      then (let (evs, dropped) = events sh (since_event_id since) in
          let shot = snapshot sh in
          ok (record {
            command = sh.command;
            patterns = watch_patterns sh;
            events = evs;
            dropped = dropped;
            exit_code = shot.exit_code;
            running = shot.running;
          }))
      else err (not_watched id)
]

-- What the operating system answers to a spawn.
pub data Spawn : Type 0 where
  no_stdout_pipe no_stderr_pipe no_start : Spawn
  runs : ℕ → Spawn

-- `startBackgroundBashCmd` on a shell that is registered. The shell in the registry is the one
-- that the caller holds, so `SetPgid` shows there.
unfoldable pub start_background_bash_cmd :
    ShellRegistry → BackgroundShell → Bytes → Spawn → ShellRegistry × Result (Unit {0})
unfolding register remove
start_background_bash_cmd r sh tag no_stdout_pipe = (remove r sh.id, err (stdout_pipe_failed tag))
start_background_bash_cmd r sh tag no_stderr_pipe = (remove r sh.id, err (stderr_pipe_failed tag))
start_background_bash_cmd r sh tag no_start = (remove r sh.id, err (start_failed tag))
start_background_bash_cmd r sh tag (runs pid) = (register r (set_pgid sh pid), ok tt)

-- The part of `handleBashBackground` and of `HandleWatchProcess` behind their guards: `sh` is new.
unfoldable pub launch :
    ShellRegistry → BackgroundShell → Bytes → Spawn → ShellRegistry × Result Bytes
unfolding register start_background_bash_cmd
launch r sh tag spawn =
    let (r', started) = start_background_bash_cmd (register r sh) sh tag spawn in
    elim started [ err e ↦ (r', err e) | ok _ ↦ (r', ok sh.id) ]

unfoldable pub handle_bash_background :
    Option ShellRegistry → Bytes → Bytes → ℕ → Spawn → Option ShellRegistry × Result Bytes
unfolding launch
handle_bash_background none id command now spawn = (none, err not_configured)
handle_bash_background (some r) id command now spawn =
    let (r', answer) = launch r (new_background_shell id command now) (codes "bash-bg") spawn in
    (some r', answer)
