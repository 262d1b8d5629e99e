-- ===== src/Snapshots/Operations.antt =====
-- Creating, restoring and comparing snapshots (internal/tools/snapshot.go). The space trimming is a
-- parameter. The temporary index is removed at the end of each operation.
use code_gen_sandbox.Snapshots.{
  init, rev_parse, add_all, write_tree, commit_tree, update_ref, read_tree, checkout_index,
  ls_index, ls_worktree, diff, removed, missing, denied, Git, Failure, git_init, add,
  snapshot_write_tree, snapshot_commit_tree, snapshot_update_ref, snapshot_read_tree,
  snapshot_checkout_index, snapshot_paths, cleanup, diff_add, diff_write_tree, diff_trees, Result,
  ok, err, split_non_empty_lines,
}
use code_gen_sandbox.Snapshots.Names.{snapshot_ref}
use code_gen_sandbox.Snapshots.Changes.{diff_path_sets}
use code_gen_sandbox.Secrets.{has_byte}
use code_gen_sandbox.Prelude.{
  if◌then◌else◌, length, ℕ, zero, suc, Bool, true, false, Option, none, some, List, [], ◌∷◌, Bytes,
  has_text,
}

-- `filepath.Dir` of a path below the root, which is the empty path here.
unfoldable pub dir_of : Bytes → Bytes
dir_of [] = []
dir_of (c ∷ s) = let rest = dir_of s in if has_byte 47 s then c ∷ rest else []

module _ {State : Type 0} (git : Git State) (trim_space : Bytes → Bytes) where
  -- `ensureGitRepo`
  unfoldable pub ensure_git_repo : State → State × Option Failure
  ensure_git_repo s =
      if git.has_repo s
      then (s, none)
      else let (s', out) = git.run s init in
        elim out [ none ↦ (s', some git_init) | some text ↦ (s', none) ]

  unfoldable pub snapshot_exists : State → Bytes → State × Bool
  snapshot_exists s name =
      let (s', out) = git.run s (rev_parse (snapshot_ref name)) in
      elim out [ none ↦ (s', false) | some text ↦ (s', true) ]

  -- The directory's files as a tree.
  unfoldable pub stage_tree : State → Failure → Failure → State × Result Bytes
  stage_tree s add_failure tree_failure =
      let (s', added) = git.run s add_all in
      elim added [
        | none ↦ (s', err add_failure)
        | some text ↦
            let (s'', tree) = git.run s' write_tree in
            elim tree [ none ↦ (s'', err tree_failure) | some id ↦ (s'', ok (trim_space id)) ]
      ]

  unfoldable pub create_snapshot : State → Bytes → Bytes → State × Result Bytes
  create_snapshot s name description =
      let (s1, staged) = stage_tree s add snapshot_write_tree in
      elim staged [
        | err e ↦ (s1, err e)
        | ok tree ↦
            let (s2, committed) = git.run s1 (commit_tree tree description) in
            elim committed [
              | none ↦ (s2, err snapshot_commit_tree)
              | some id ↦
                  let sha = trim_space id in
                  let (s3, updated) = git.run s2 (update_ref (snapshot_ref name) sha) in
                  elim updated [ none ↦ (s3, err snapshot_update_ref) | some text ↦ (s3, ok sha) ]
            ]
      ]

  -- `listWorktreePaths`; a failure of git is no path.
  unfoldable pub list_worktree_paths : State → State × List Bytes
  list_worktree_paths s =
      let (s', out) = git.run s ls_worktree in
      elim out [ none ↦ (s', []) | some text ↦ (s', split_non_empty_lines text) ]

  unfoldable pub snapshot_path_set : State → State × Option (List Bytes)
  snapshot_path_set s =
      let (s', out) = git.run s ls_index in
      elim out [ none ↦ (s', none) | some text ↦ (s', some (split_non_empty_lines text)) ]

  -- Each round goes one directory up, so the bytes of the path are enough rounds.
  unfoldable pub prune_empty_dirs : ℕ → State → Bytes → State
  prune_empty_dirs zero s dir = s
  prune_empty_dirs (suc fuel) s [] = s
  prune_empty_dirs (suc fuel) s (c ∷ dir) =
      let (s', gone) = git.remove s (c ∷ dir) in
      elim gone [ removed ↦ prune_empty_dirs fuel s' (dir_of (c ∷ dir)) | _ ↦ s' ]

  unfoldable pub prune_above : State → Bytes → State
  prune_above s p = prune_empty_dirs (length p) s (dir_of p)

  -- `removeExtrasNotInSnapshot`, with whether it ends without an error.
  unfoldable pub remove_extras : State → List Bytes → List Bytes → State × Bool
  remove_extras s [] snapshot = (s, true)
  remove_extras s (p ∷ before) snapshot =
      if has_text p snapshot
      then remove_extras s before snapshot
      else let (s', gone) = git.remove s p in
        elim gone [
          | denied ↦ (s', false)
          | removed ↦ remove_extras (prune_above s' p) before snapshot
          | missing ↦ remove_extras (prune_above s' p) before snapshot
        ]

  unfoldable pub clean_up : State → List Bytes → List Bytes → State × Result (List Bytes)
  clean_up s before snapshot =
      let (s', cleaned) = remove_extras s before snapshot in
      if cleaned
      then (let (s'', after) = list_worktree_paths s' in (s'', ok (diff_path_sets before after)))
      else (s', err cleanup)

  unfoldable pub restore_snapshot : State → Bytes → State × Result (List Bytes)
  restore_snapshot s name =
      let (s1, before) = list_worktree_paths s in
      let (s2, read) = git.run s1 (read_tree (snapshot_ref name)) in
      elim read [
        | none ↦ (s2, err snapshot_read_tree)
        | some t ↦
            let (s3, checked_out) = git.run s2 checkout_index in
            elim checked_out [
              | none ↦ (s3, err snapshot_checkout_index)
              | some t' ↦
                  let (s4, paths) = snapshot_path_set s3 in
                  elim paths [
                    | none ↦ (s4, err snapshot_paths)
                    | some snapshot ↦ clean_up s4 before snapshot
                  ]
            ]
      ]

  unfoldable pub diff_snapshot : State → Bytes → State × Result Bytes
  diff_snapshot s name =
      let (s', staged) = stage_tree s diff_add diff_write_tree in
      elim staged [
        | err e ↦ (s', err e)
        | ok tree ↦
            let (s'', out) = git.run s' (diff (snapshot_ref name) tree) in
            elim out [ none ↦ (s'', err diff_trees) | some text ↦ (s'', ok text) ]
      ]
