-- ===== src/Shell/Registry/Lifecycle.antt =====
-- The life of a shell in the registry: launched, polled, killed.
use mathlib.Core.List.{cons-ne-nil}
use code_gen_sandbox.Prelude.{
  ltb, if◌then◌else◌, Option-cases, ℕ, ◌≡◌, refl, ◌≢◌, ◌⊎◌, inl, inr, ite, Option, none, some, [],
  ◌∷◌, arith, Bytes, bytes_discrete,
}
use code_gen_sandbox.Prelude.Maps
use code_gen_sandbox.Shell.Process.{BackgroundShell, set_pgid}
use code_gen_sandbox.Shell.Registry
use code_gen_sandbox.Shell.Registry.{
  ShellRegistry, Result, ok, err, unknown_shell_id, Spawn, runs, no_stdout_pipe, no_stderr_pipe,
  no_start, find_shell, handle_bash_output, handle_kill_shell, launch,
}

get-remove :
    (r : ShellRegistry) (id other : Bytes)
    → Registry.get (Registry.remove r id) other
      ≡ ite (bytes_discrete id other) none (Registry.get r other)
unfolding Registry.get Registry.remove
get-remove r id other = Maps.lookup-remove bytes_discrete id other r

get-register :
    (r : ShellRegistry) (sh : BackgroundShell) (other : Bytes)
    → Registry.get (Registry.register r sh) other
      ≡ ite (bytes_discrete sh.id other) (some sh) (Registry.get r other)
unfolding Registry.get Registry.register
get-register r sh other = Maps.lookup-insert bytes_discrete sh.id other sh r

find_shell-gone :
    (r : ShellRegistry) (id : Bytes)
    → id ≢ []
    → Registry.get r id ≡ none
    → find_shell (some r) id ≡ err (unknown_shell_id id)
unfolding find_shell
find_shell-gone r [] ne h = absurd (ne refl)
find_shell-gone r (c ∷ id) ne h = rw (h, find_shell)

kill_found :
    (r r' : ShellRegistry) (id : Bytes) (group : Option ℕ)
    → handle_kill_shell (some r) id ≡ ok (r', group)
    → (id ≢ [])
      × (r' ≡ Registry.remove r id)
      × ((sh : BackgroundShell) × (Registry.get r id ≡ some sh)
          × (group ≡ (if ltb 0 sh.pgid then some sh.pgid else none)))
unfolding handle_kill_shell find_shell
kill_found r r' [] group h = cc
kill_found r r' (c ∷ id) group h = elim (Option-cases (Registry.get r (c ∷ id))) [
  | inl e ↦ absurd (ground arith)
  | inr (sh, e) ↦ (cons-ne-nil c id, ground arith, (sh, e, ground arith))
]

-- When a kill succeeds, polling or killing the ID again is refused as unknown. The process
-- group that is signalled is that of the shell that was registered, where it has one; the
-- registry answers none for the ID and as before for every other.
pub kill_shell_lem :
    (r r' : ShellRegistry) (id : Bytes) (group : Option ℕ)
    → handle_kill_shell (some r) id ≡ ok (r', group)
    → (handle_bash_output (some r') id ≡ err (unknown_shell_id id))
      × (handle_kill_shell (some r') id ≡ err (unknown_shell_id id))
      × ((sh : BackgroundShell) × (Registry.get r id ≡ some sh)
          × (group ≡ (if ltb 0 sh.pgid then some sh.pgid else none)))
      × ((other : Bytes)
          → Registry.get r' other ≡ ite (bytes_discrete id other) none (Registry.get r other))
unfolding handle_kill_shell handle_bash_output
kill_shell_lem r r' id group h =
    let (ne, removed, found) = kill_found r r' id group h in
    let gone : Registry.get r' id ≡ none = ground (arith, get-remove r id id) in
    let refused = find_shell-gone r' id ne gone in
    (
      rw (refused, handle_bash_output),
      rw (refused, handle_kill_shell),
      found,
      λ other. ground (arith, get-remove r id other),
    )

launch_undone :
    (r : ShellRegistry) (sh : BackgroundShell) (other : Bytes)
    → Registry.get r sh.id ≡ none
    → Registry.get (Registry.remove (Registry.register r sh) sh.id) other ≡ Registry.get r other
launch_undone r sh other h =
    ground (arith, get-remove (Registry.register r sh) sh.id other, get-register r sh other)

-- For a shell whose ID is not registered: a launch either answers that ID, the process runs,
-- and the registry has the shell with its process group and answers as before for every other
-- ID; or it answers something else, and the registry answers as before for every ID.
pub launch_lem :
    (r : ShellRegistry) (sh : BackgroundShell) (tag : Bytes) (spawn : Spawn)
    → Registry.get r sh.id ≡ none
    → let (r', answer) = launch r sh tag spawn in
      ((answer ≡ ok sh.id)
        × ((pid : ℕ) × (spawn ≡ runs pid)
            × ((other : Bytes)
                → Registry.get r' other
                  ≡ ite
                      (bytes_discrete sh.id other)
                      (some (set_pgid sh pid))
                      (Registry.get r other))))
      ⊎ ((answer ≢ ok sh.id) × ((other : Bytes) → Registry.get r' other ≡ Registry.get r other))
unfolding launch set_pgid
launch_lem r sh tag (runs pid) h = inl (
  refl,
  (
    pid,
    refl,
    λ other. ground (
      arith,
      get-register (Registry.register r sh) (record sh { pgid = pid }) other,
      get-register r sh other,
    ),
  ),
)
launch_lem r sh tag no_start h = inr (λ e. cc, λ other. launch_undone r sh other h)
launch_lem r sh tag no_stdout_pipe h = inr (λ e. cc, λ other. launch_undone r sh other h)
launch_lem r sh tag no_stderr_pipe h = inr (λ e. cc, λ other. launch_undone r sh other h)
