-- ===== src/Snapshots/Restoring/Restored.antt =====
-- A restored directory, and the round trip of create and restore (internal/tools/snapshot.go).
use code_gen_sandbox.Snapshots.{Git}
use code_gen_sandbox.Snapshots.Names.{snapshot_ref}
use code_gen_sandbox.Snapshots.Operations.{list_worktree_paths, clean_up, restore_snapshot}
use code_gen_sandbox.Snapshots.Restoring.{is_plain, is_some, View, Laws}
use code_gen_sandbox.Prelude.{◌≡◌, true, some, List, Bytes, has_text}

module _ {State : Type 0} (git : Git State) (trim_space : Bytes → Bytes) (view : View State)
    (laws : Laws git trim_space view) where
  -- The three states of a restore between the inventory and the cleanup.
  record Checked (s : State) (name : Bytes) (changed : List Bytes) : Type 0 where
    paths : List Bytes
    last : State
    cleaned :
        restore_snapshot git trim_space s name
        ≡ clean_up git trim_space last (list_worktree_paths git trim_space s).1 paths
    has_paths :
        (q : Bytes)
        → is_plain q ≡ true
        → has_text q paths ≡ is_some (view.snapshot s (snapshot_ref name) q)
    held :
        (q b : Bytes)
        → view.snapshot s (snapshot_ref name) q ≡ some b
        → view.content last q ≡ some b
