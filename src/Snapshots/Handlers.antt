-- ===== src/Snapshots/Handlers.antt =====
-- The handlers of the snapshot tools (internal/tools/snapshot.go).
use code_gen_sandbox.Snapshots.{Git, Failure, ok, err, trim_newlines}
use code_gen_sandbox.Snapshots.Names.{name_required, invalid_name, named, parse_snapshot_name}
use code_gen_sandbox.Snapshots.Listing.{list_snapshots, format_snapshot_list}
use code_gen_sandbox.Snapshots.Operations.{
  ensure_git_repo, snapshot_exists, create_snapshot, restore_snapshot, diff_snapshot,
}
use code_gen_sandbox.Prelude.{
  if◌then◌else◌, length, ℕ, none, some, List, [], ◌∷◌, ◌++◌, Bytes, codes,
}

-- What a tool answers; the texts are those of the source, with their values.
pub data Answer : Type 0 where
  no_name bad_name : Answer
  failed : Failure → Answer
  created : Bytes → Bytes → Answer
  no_snapshots : Answer
  list_failed : Answer
  listed : Bytes → Answer
  not_found : Bytes → Answer
  restored : Bytes → List Bytes → Answer
  no_differences : Answer
  differences : Bytes → Answer

module _ {State : Type 0} (git : Git State) (trim_space : Bytes → Bytes) where
  unfoldable pub with_description : Bytes → Bytes → Bytes
  with_description name [] = codes "snapshot: " ++ name
  with_description name (c ∷ s) = c ∷ s

  unfoldable pub handle_snapshot_create : State → Bytes → Bytes → State × Answer
  handle_snapshot_create s name_arg description = elim (parse_snapshot_name name_arg) [
    | name_required ↦ (s, no_name)
    | invalid_name ↦ (s, bad_name)
    | named name ↦
        let (s', ensured) = ensure_git_repo git trim_space s in
        elim ensured [
          | some e ↦ (s', failed e)
          | none ↦
              let (s'', got) =
                create_snapshot git trim_space s' name (with_description name description) in
              elim got [ err e ↦ (s'', failed e) | ok sha ↦ (s'', created name sha) ]
        ]
  ]

  unfoldable pub handle_snapshot_list : State → State × Answer
  handle_snapshot_list s =
      if git.has_repo s
      then (let (s', got) = list_snapshots git s in
          elim got [
            | none ↦ (s', list_failed)
            | some [] ↦ (s', no_snapshots)
            | some (e ∷ es) ↦ (s', listed (format_snapshot_list (e ∷ es)))
          ])
      else (s, no_snapshots)

  unfoldable pub handle_snapshot_restore : State → Bytes → State × Answer
  handle_snapshot_restore s name_arg = elim (parse_snapshot_name name_arg) [
    | name_required ↦ (s, no_name)
    | invalid_name ↦ (s, bad_name)
    | named name ↦
        if git.has_repo s
        then (let (s', exists) = snapshot_exists git trim_space s name in
            if exists
            then (let (s'', got) = restore_snapshot git trim_space s' name in
                elim got [ err e ↦ (s'', failed e) | ok changed ↦ (s'', restored name changed) ])
            else (s', not_found name))
        else (s, not_found name)
  ]

  unfoldable pub handle_snapshot_diff : State → Bytes → State × Answer
  handle_snapshot_diff s name_arg = elim (parse_snapshot_name name_arg) [
    | name_required ↦ (s, no_name)
    | invalid_name ↦ (s, bad_name)
    | named name ↦
        if git.has_repo s
        then (let (s', exists) = snapshot_exists git trim_space s name in
            if exists
            then (let (s'', got) = diff_snapshot git trim_space s' name in
                elim got [
                  | err e ↦ (s'', failed e)
                  | ok [] ↦ (s'', no_differences)
                  | ok (c ∷ text) ↦ (s'', differences (c ∷ text))
                ])
            else (s', not_found name))
        else (s, not_found name)
  ]

-- `formatRestoreResult`, of the number of paths as text.
unfoldable pub list_lines : List Bytes → Bytes
list_lines [] = []
list_lines (p ∷ ps) = p ++ 10 ∷ list_lines ps

unfoldable pub format_restore_result : (ℕ → Bytes) → Bytes → List Bytes → Bytes
format_restore_result decimal name [] =
    codes "restored snapshot " ++ name ++ codes " (no files changed)"
format_restore_result decimal name (p ∷ ps) = trim_newlines (
    codes "restored snapshot "
    ++ name
    ++ codes " ("
    ++ decimal (length (p ∷ ps))
    ++ codes " file(s) changed):"
    ++ 10 ∷ list_lines (p ∷ ps))
