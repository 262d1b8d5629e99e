-- ===== src/Snapshots.antt =====
-- The snapshot tools (internal/tools/snapshot.go). Git and the removal of files are a parameter, with
-- the commands that the code gives it; `State` is the directory with its repository and the temporary
-- index. A path is a clean path below the root.
pub mod Names
pub mod Changes
pub mod Listing
pub mod Operations
pub mod Handlers
pub mod Restoring
use code_gen_sandbox.Prelude.{◌==◌, if◌then◌else◌, ℕ, Bool, Option, List, [], ◌∷◌, Bytes}

-- The argument lists of `runGit`. Those for the index use the temporary one, `ls_worktree` and the
-- ones for refs do not.
pub data Command : Type 0 where
  init : Command
  rev_parse : Bytes → Command
  add_all : Command
  write_tree : Command
  commit_tree : Bytes → Bytes → Command
  update_ref : Bytes → Bytes → Command
  for_each_ref : Command
  read_tree : Bytes → Command
  checkout_index : Command
  ls_index : Command
  ls_worktree : Command
  diff : Bytes → Bytes → Command

-- `os.Remove`
pub data Removal : Type 0 where
  removed missing denied : Removal

-- What runs a command gives the output, or nothing where git fails.
pub record Git (State : Type 0) : Type 0 where
  pub run : State → Command → State × Option Bytes
  pub has_repo : State → Bool
  pub remove : State → Bytes → State × Removal

-- The step that fails.
pub data Failure : Type 0 where
  git_init add snapshot_write_tree snapshot_commit_tree snapshot_update_ref : Failure
  snapshot_read_tree snapshot_checkout_index snapshot_paths cleanup : Failure
  diff_add diff_write_tree diff_trees : Failure

pub data Result {ℓ} (A : Type ℓ) : Type ℓ where
  ok : A → Result A
  err : Failure → Result A

-- `strings.TrimRight(s, "\n")`
unfoldable pub trim_newlines : Bytes → Bytes
trim_newlines [] = []
trim_newlines (c ∷ s) = elim (trim_newlines s) [
  | [] ↦ if c == 10 then [] else c ∷ []
  | d ∷ ds ↦ c ∷ d ∷ ds
]

-- `strings.Split` at a byte.
unfoldable pub split_all : ℕ → Bytes → List Bytes
split_all b [] = [] ∷ []
split_all b (c ∷ s) = elim (split_all b s) [
  | [] ↦ [] ∷ []
  | line ∷ lines ↦ if c == b then [] ∷ line ∷ lines else (c ∷ line) ∷ lines
]

-- `splitNonEmptyLines`
unfoldable pub split_non_empty_lines : Bytes → List Bytes
split_non_empty_lines s = elim (trim_newlines s) [ [] ↦ [] | c ∷ cs ↦ split_all 10 (c ∷ cs) ]
