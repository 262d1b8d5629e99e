-- ===== src/Examples/Session.antt =====
-- A short session: files, shells and workspaces (internal/tools, internal/workspace).
use code_gen_sandbox.Prelude.Maps
use code_gen_sandbox.Shell.Process
use code_gen_sandbox.Shell.Process.{BackgroundShell, new_background_shell, events}
use code_gen_sandbox.Shell.Process.Trace
use code_gen_sandbox.Shell.Process.Trace.{line, out_chunk, exit, Follows}
use code_gen_sandbox.Shell.Process.History.{ran, traced, ran-Follows, poll_lem}
use code_gen_sandbox.Shell.Log.{watch_event_cap}
use code_gen_sandbox.Shell.Stream.{shell_output_cap_bytes, drain, Captures, append_capped-Captures}
use code_gen_sandbox.Shell.Registry
use code_gen_sandbox.Shell.Registry.{
  ShellRegistry, runs, handle_kill_shell, handle_bash_output, unknown_shell_id, find_shell, launch,
}
use code_gen_sandbox.Shell.Registry.Lifecycle.{kill_shell_lem, launch_lem}
use code_gen_sandbox.Files.Handlers.{
  Node, file, State, renamed, new_read_tracker, has_been_read, mark_read, handle_write, handle_read,
  handle_edit, check_write_target, atomic_write, resolve_read_path, resolve_edit_target,
}
use code_gen_sandbox.Files.Handlers
use code_gen_sandbox.Files.Handlers.Guard
use code_gen_sandbox.Files.Handlers.Guard.{write, read, edit, Names, run-unread, run-Names}
use code_gen_sandbox.Files.Handlers.Session.{write-edit}
use code_gen_sandbox.Files.Replace
use code_gen_sandbox.Files.Numbered
use code_gen_sandbox.Workspaces
use code_gen_sandbox.Workspaces.{
  Entry, WorkspaceSet, Workspace, new_set, resolve_workspace, chosen, add_entries, is_no_name,
  entry_name, resolve_in, default_of,
}
use code_gen_sandbox.Workspaces.Dispatch.{IsIndexed, new_set-IsIndexed, resolve_workspace_lem}
use code_gen_sandbox.Prelude.{
  ltb, if◌then◌else◌, length, drop, pos, ℕ, ◌+◌, ◌≤◌, max, ◌≡◌, refl, ◌≢◌, ◌⊎◌, inr, ite, Bool,
  true, false, Option, none, some, List, [], ◌∷◌, flatten, arith, Bytes, codes, bytes_discrete,
}

-- A shell that watches for lines that are not empty.
abbrev not_empty : Bytes → Bool
not_empty [] = false
not_empty (c ∷ s) = true

abbrev calls : List Trace.Call
calls = line 5 (codes "boom") ∷ out_chunk (codes "ok") ∷ line 7 [] ∷ exit 9 (pos 1) ∷ []

ran-Follows_example :
    Follows
      (not_empty ∷ [])
      (codes "." ∷ [])
      (ran (codes "s1") (codes "run") (not_empty ∷ []) (codes "." ∷ []) 0 3 calls)
      (traced (codes "s1") (codes "run") (not_empty ∷ []) (codes "." ∷ []) 0 3 calls)
ran-Follows_example =
    ran-Follows (codes "s1") (codes "run") (not_empty ∷ []) (codes "." ∷ []) 0 3 calls
      (tt, ((λ e. ground arith), (tt, (tt, tt))))

poll_lem_example :
    (dropped : ℕ) × (events
        (ran (codes "s1") (codes "run") (not_empty ∷ []) (codes "." ∷ []) 0 3 calls)
        1
      ≡ (
        drop
            (max 1 dropped)
            (traced (codes "s1") (codes "run") (not_empty ∷ []) (codes "." ∷ []) 0 3 calls).log,
        dropped,
      ))
    × (length (traced (codes "s1") (codes "run") (not_empty ∷ []) (codes "." ∷ []) 0 3 calls).log
        ≤ dropped + watch_event_cap)
    × (dropped
        ≤ length
            (traced (codes "s1") (codes "run") (not_empty ∷ []) (codes "." ∷ []) 0 3 calls).log)
poll_lem_example =
    poll_lem (codes "s1") (codes "run") (not_empty ∷ []) (codes "." ∷ []) 0 3 calls
      (tt, ((λ e. ground arith), (tt, (tt, tt)))) 1

append_capped-Captures_example :
    Captures shell_output_cap_bytes
      (flatten (codes "ab" ∷ codes "c" ∷ []))
      (drain shell_output_cap_bytes (codes "ab" ∷ codes "c" ∷ []) ([], false))
append_capped-Captures_example =
    append_capped-Captures (codes "ab" ∷ codes "c" ∷ [])
      ((λ e. ground arith), ((λ e. ground arith), tt))

abbrev shell : BackgroundShell
shell = record {
  id = codes "s1";
  command = codes "run";
  started_at = 3;
  pgid = 42;
  stdout = [];
  stdout_truncated = false;
  stderr = [];
  stderr_truncated = false;
  exit_code = none;
  watch = none;
}

abbrev shells : ShellRegistry
shells = (codes "s1", shell) ∷ []

killed : handle_kill_shell (some shells) (codes "s1") ≡ Registry.ok ([], some 42)
unfolding handle_kill_shell find_shell Registry.get Registry.remove Maps.lookup Maps.remove
    bytes_discrete
killed = refl

kill_shell_lem_example :
    (handle_bash_output (some []) (codes "s1") ≡ Registry.err (unknown_shell_id (codes "s1")))
    × (handle_kill_shell (some []) (codes "s1") ≡ Registry.err (unknown_shell_id (codes "s1")))
    × ((sh : BackgroundShell) × (Registry.get shells (codes "s1") ≡ some sh)
        × (some 42 ≡ (if ltb 0 sh.pgid then some sh.pgid else none)))
    × ((other : Bytes)
        → Registry.get [] other
          ≡ ite (bytes_discrete (codes "s1") other) none (Registry.get shells other))
kill_shell_lem_example = kill_shell_lem shells [] (codes "s1") (some 42) killed

nothing_there : Registry.get [] (codes "s1") ≡ none
unfolding Registry.get Maps.lookup
nothing_there = refl

launch_lem_example :
    let (r', answer) = launch [] shell (codes "bash-bg") (runs 7) in
    ((answer ≡ Registry.ok (codes "s1"))
      × ((pid : ℕ) × (runs 7 ≡ runs pid)
          × ((other : Bytes)
              → Registry.get r' other
                ≡ ite
                    (bytes_discrete (codes "s1") other)
                    (some (Process.set_pgid shell pid))
                    (Registry.get [] other))))
    ⊎ ((answer ≢ Registry.ok (codes "s1"))
        × ((other : Bytes) → Registry.get r' other ≡ Registry.get [] other))
launch_lem_example = launch_lem [] shell (codes "bash-bg") (runs 7) nothing_there

-- One file, not read yet.
abbrev start : State
start = record {
  files = λ path. ite (bytes_discrete (codes "a") path) (some (file (codes "hi"))) none;
  tracker = new_read_tracker;
}

abbrev as_is : Bytes → Option Bytes
as_is p = some p

abbrev one_line : ℕ → ℕ → Bytes → Option (List Bytes)
one_line offset limit body = some (body ∷ [])

abbrev unread_calls : List Guard.Call
unread_calls =
    write (codes "a") (some (codes "x")) true renamed
    ∷ edit (codes "a") (some (codes "h")) (some (codes "y")) false true renamed
    ∷ write (codes "b") (some (codes "z")) true renamed
    ∷ []

still_there : start.files (codes "a") ≡ some (file (codes "hi"))
unfolding bytes_discrete
still_there = refl

still_unread :
    has_been_read (Guard.run as_is one_line start unread_calls).tracker (codes "a") ≡ false
unfolding Guard.run Guard.step handle_write handle_edit Handlers.parse_edit_args check_write_target
    atomic_write resolve_read_path resolve_edit_target has_been_read mark_read new_read_tracker
    bytes_discrete
still_unread = refl

run-unread_example :
    (Guard.run as_is one_line start unread_calls).files (codes "a") ≡ some (file (codes "hi"))
run-unread_example =
    run-unread as_is one_line start unread_calls (codes "a") (file (codes "hi")) still_there
      (inr still_unread)

abbrev reads : List Guard.Call
reads = read (codes "a") none none ∷ []

read_at_end : has_been_read (Guard.run as_is one_line start reads).tracker (codes "a") ≡ true
unfolding Guard.run Guard.step handle_read Numbered.read_numbered Numbered.parse_offset
    Numbered.parse_limit Numbered.scan resolve_read_path has_been_read mark_read new_read_tracker
    bytes_discrete
read_at_end = refl

unread_at_start : has_been_read start.tracker (codes "a") ≡ false
unfolding has_been_read new_read_tracker
unread_at_start = refl

run-Names_example : Names as_is one_line reads (codes "a")
run-Names_example = run-Names as_is one_line start reads (codes "a") unread_at_start read_at_end

written : (handle_write as_is start (codes "b") (some (codes "one")) true renamed).1 ≡ Handlers.ok 3
unfolding handle_write check_write_target atomic_write bytes_discrete
written = refl

edited :
    Replace.apply_edit (codes "one") (record {
      file_path = codes "b";
      old_str = codes "n";
      new_str = codes "r";
      replace_all = false;
    })
    ≡ Replace.ok (codes "ore", 1)
unfolding Replace.apply_edit Replace.count Replace.pieces Replace.has_prefix Replace.replace_first
    Replace.separated
edited = refl

write-edit_example :
    ((handle_edit as_is
          (handle_write as_is start (codes "b") (some (codes "one")) true renamed).0
          (codes "b")
          (some (codes "n"))
          (some (codes "r"))
          false
          true
          renamed).0.files
        (codes "b")
      ≡ some (file (codes "ore")))
    × ((handle_edit as_is
          (handle_write as_is start (codes "b") (some (codes "one")) true renamed).0
          (codes "b")
          (some (codes "n"))
          (some (codes "r"))
          false
          true
          renamed).1
        ≡ Handlers.ok 1)
write-edit_example =
    write-edit as_is start (codes "b") (codes "b") (codes "one") true renamed 3 (codes "n")
      (codes "r") (codes "ore") false 1 refl written (λ e. ground arith) edited

-- Two workspaces.
abbrev entries : List Entry
entries =
    record { name = codes "one"; root = codes "/x" }
    ∷ record { name = codes "two"; root = codes "/y" }
    ∷ []

abbrev base : Bytes → Bytes
base root = root

abbrev one : Workspace
one = record { name = codes "one"; root = codes "/x" }

abbrev two : Workspace
two = record { name = codes "two"; root = codes "/y" }

abbrev made : WorkspaceSet
made = record { ordered = one ∷ two ∷ []; by_name = (codes "one", one) ∷ (codes "two", two) ∷ [] }

made_of_entries : new_set base as_is entries ≡ Workspaces.ok made
unfolding new_set add_entries is_no_name entry_name Maps.lookup Maps.insert bytes_discrete
made_of_entries = refl

new_set-IsIndexed_example : IsIndexed made × (length made.ordered ≡ length entries)
new_set-IsIndexed_example = new_set-IsIndexed base as_is entries made made_of_entries

chosen_two : resolve_workspace (some made) none (codes "two") ≡ chosen two
unfolding resolve_workspace resolve_in Workspaces.get Maps.lookup bytes_discrete
chosen_two = refl

resolve_workspace_lem_example :
    (two.name ≡ codes "two") ⊎ ((codes "two" ≡ []) × (made.ordered ≡ two ∷ []))
resolve_workspace_lem_example =
    resolve_workspace_lem base as_is entries made none (codes "two") two made_of_entries chosen_two
