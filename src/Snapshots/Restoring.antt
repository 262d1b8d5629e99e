-- ===== src/Snapshots/Restoring.antt =====
-- What a restored directory holds (internal/tools/snapshot.go: createSnapshot, restoreSnapshot), for a
-- git that does what its manual says, on paths that it prints as they are.
pub mod Removing
pub mod Restored
use code_gen_sandbox.Snapshots.{
  Command, init, add_all, write_tree, commit_tree, update_ref, read_tree, checkout_index, ls_index,
  ls_worktree, removed, missing, denied, Git, split_non_empty_lines,
}
use code_gen_sandbox.Snapshots.Operations.{dir_of}
use code_gen_sandbox.Prelude.{
  leb, ◌==◌, ℕ, ◌≡◌, ◌≢◌, Bool, true, false, ◌&&◌, not, Option, none, some, [], ◌∷◌, Bytes,
  has_text,
}

abbrev pub is_some : Option Bytes → Bool
is_some none = false
is_some (some b) = true

-- A byte that git prints as it is in a path: ASCII that is printed, without the double quote and the
-- backslash. `ls-files` without -z prints a path with another byte in quotes and with escapes, unless
-- `core.quotePath` is off.
abbrev pub is_plain_byte : ℕ → Bool
is_plain_byte c = leb 32 c && leb c 126 && not (c == 34) && not (c == 92)

unfoldable pub is_plain : Bytes → Bool
is_plain [] = true
is_plain (c ∷ s) = is_plain_byte c && is_plain s

-- What the states hold: the content of the files, as git stores it behind its filters; those of them
-- that git does not ignore; the entries of the temporary index; and those of the trees, of the commits
-- and of the refs' commits.
pub record View (State : Type 0) : Type 0 where
  pub content : State → Bytes → Option Bytes
  pub worktree : State → Bytes → Option Bytes
  pub index : State → Bytes → Option Bytes
  pub tree : State → Bytes → Bytes → Option Bytes
  pub commit : State → Bytes → Bytes → Option Bytes
  pub snapshot : State → Bytes → Bytes → Option Bytes

-- The documented behaviour of the commands and of `os.Remove`.
pub record Laws {State : Type 0} (git : Git State) (trim_space : Bytes → Bytes) (view : View State)
    : Type 0 where
  pub ls_worktree_law :
      (s : State) (ref q : Bytes)
      → (view.content (git.run s ls_worktree).0 q ≡ view.content s q)
        × (view.snapshot (git.run s ls_worktree).0 ref q ≡ view.snapshot s ref q)
  pub read_tree_law :
      (s : State) (ref text q : Bytes)
      → (git.run s (read_tree ref)).1 ≡ some text
      → view.index (git.run s (read_tree ref)).0 q ≡ view.snapshot s ref q
  pub checkout_index_law :
      (s : State) (text q b : Bytes)
      → (git.run s checkout_index).1 ≡ some text
      → view.index s q ≡ some b
      → view.content (git.run s checkout_index).0 q ≡ some b
  pub checkout_index-index :
      (s : State) (q : Bytes) → view.index (git.run s checkout_index).0 q ≡ view.index s q
  -- A path of plain bytes stands on a line of its own exactly when the index has it; no law is given for
  -- other paths.
  pub ls_index_law :
      (s : State) (text q : Bytes)
      → (git.run s ls_index).1 ≡ some text
      → is_plain q ≡ true
      → has_text q (split_non_empty_lines text) ≡ is_some (view.index s q)
  pub ls_index-content :
      (s : State) (q : Bytes) → view.content (git.run s ls_index).0 q ≡ view.content s q
  pub remove_other :
      (s : State) (p q : Bytes) → q ≢ p → view.content (git.remove s p).0 q ≡ view.content s q
  pub remove_self :
      (s : State) (p : Bytes)
      → view.content (git.remove s p).0 p
        ≡ (elim (git.remove s p).1 [ denied ↦ view.content s p | _ ↦ none ])
  -- A path below a file is not found missing: the file is no directory.
  pub remove_above :
      (s : State) (p : Bytes)
      → (git.remove s p).1 ≢ denied
      → view.content (git.remove s p).0 (dir_of p) ≡ none
  pub add_all_law :
      (s : State) (text q : Bytes)
      → (git.run s add_all).1 ≡ some text
      → view.index (git.run s add_all).0 q ≡ view.worktree s q
  pub write_tree_law :
      (s : State) (id q : Bytes)
      → (git.run s write_tree).1 ≡ some id
      → view.tree (git.run s write_tree).0 (trim_space id) q ≡ view.index s q
  pub commit_tree_law :
      (s : State) (t m id q : Bytes)
      → (git.run s (commit_tree t m)).1 ≡ some id
      → view.commit (git.run s (commit_tree t m)).0 (trim_space id) q ≡ view.tree s t q
  pub update_ref_law :
      (s : State) (ref sha text q : Bytes)
      → (git.run s (update_ref ref sha)).1 ≡ some text
      → view.snapshot (git.run s (update_ref ref sha)).0 ref q ≡ view.commit s sha q
