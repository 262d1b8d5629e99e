-- ===== src/Examples/Trees.antt =====
-- A git that knows two paths, and small inputs of the tools over directories (internal/tools,
-- internal/workspace).
use code_gen_sandbox.Prelude.Maps
use code_gen_sandbox.Snapshots
use code_gen_sandbox.Snapshots.{
  Command, init, rev_parse, add_all, write_tree, commit_tree, update_ref, for_each_ref, read_tree,
  checkout_index, ls_index, ls_worktree, diff, Removal, removed, missing, denied, Git, Result, err,
}
use code_gen_sandbox.Snapshots.Changes.{diff_path_sets, differ, has_text-diff_path_sets}
use code_gen_sandbox.Snapshots.Operations
use code_gen_sandbox.Snapshots.Operations.{dir_of}
use code_gen_sandbox.Snapshots.Restoring.{View}
use code_gen_sandbox.Prelude.{
  ◌≡◌, ite, true, Option, none, some, [], ◌∷◌, Bytes, codes, bytes_discrete, has_text,
}

record Pair : Type 0 where
  a : Option Bytes
  b : Option Bytes

record Disk : Type 0 where
  work : Pair
  index : Pair
  tree : Pair
  commit : Pair
  snap : Pair

unfoldable at_path : Pair → Bytes → Option Bytes
at_path p q = ite (bytes_discrete q (codes "a")) p.a (ite (bytes_discrete q (codes "b")) p.b none)

unfoldable paths : Option Bytes → Option Bytes → Bytes
paths none none = []
paths none (some y) = 98 ∷ 10 ∷ []
paths (some x) none = 97 ∷ 10 ∷ []
paths (some x) (some y) = 97 ∷ 10 ∷ 98 ∷ 10 ∷ []

unfoldable or_keep : Option Bytes → Option Bytes → Option Bytes
or_keep none old = old
or_keep (some x) old = some x

unfoldable run_disk : Disk → Command → Disk × Option Bytes
run_disk d init = (d, some [])
run_disk d (rev_parse ref) = (d, some [])
run_disk d add_all = (record d { index = d.work }, some [])
run_disk d write_tree = (record d { tree = d.index }, some (codes "t"))
run_disk d (commit_tree t m) = (record d { commit = d.tree }, some (codes "c"))
run_disk d (update_ref ref sha) = (record d { snap = d.commit }, some [])
run_disk d for_each_ref = (d, some [])
run_disk d (read_tree ref) = (record d { index = d.snap }, some [])
run_disk d checkout_index = (
  record d { work = record { a = or_keep d.index.a d.work.a; b = or_keep d.index.b d.work.b } },
  some [],
)
run_disk d ls_index = (d, some (paths d.index.a d.index.b))
run_disk d ls_worktree = (d, some (paths d.work.a d.work.b))
run_disk d (diff ref tree) = (d, some [])

unfoldable drop_path : Pair → Bytes → Pair
drop_path p q =
    ite (bytes_discrete q (codes "a")) (record p { a = none })
      (ite (bytes_discrete q (codes "b")) (record p { b = none }) p)

unfoldable remove_disk : Disk → Bytes → Disk × Removal
remove_disk d p = elim (at_path d.work (dir_of p)) [
  | some x ↦ (d, denied)
  | none ↦ elim (at_path d.work p) [
    | none ↦ (d, missing)
    | some x ↦ (record d { work = drop_path d.work p }, removed)
  ]
]

abbrev disk_git : Git Disk
disk_git = record { run = run_disk; has_repo = λ d. true; remove = remove_disk }

abbrev disk_view : View Disk
disk_view = record {
  content = λ d. at_path d.work;
  worktree = λ d. at_path d.work;
  index = λ d. at_path d.index;
  tree = λ d id. at_path d.tree;
  commit = λ d id. at_path d.commit;
  snapshot = λ d ref. at_path d.snap;
}

abbrev as_is : Bytes → Bytes
as_is s = s

abbrev only_a : Pair
only_a = record { a = some (codes "1"); b = none }

abbrev both : Pair
both = record { a = some (codes "2"); b = some (codes "3") }

abbrev nothing : Pair
nothing = record { a = none; b = none }

abbrev before : Disk
before = record { work = only_a; index = nothing; tree = nothing; commit = nothing; snap = nothing }

-- The snapshot of `before` is there, and the two files have been written since.
abbrev edited : Disk
edited = record { work = both; index = nothing; tree = nothing; commit = nothing; snap = only_a }

abbrev name : Bytes
name = codes "n"

has_text-diff_path_sets_example :
    has_text (codes "b") (diff_path_sets (codes "a" ∷ []) (codes "a" ∷ codes "b" ∷ []))
    ≡ differ
        (has_text (codes "b") (codes "a" ∷ []))
        (has_text (codes "b") (codes "a" ∷ codes "b" ∷ []))
has_text-diff_path_sets_example =
    has_text-diff_path_sets (codes "b") (codes "a" ∷ []) (codes "a" ∷ codes "b" ∷ [])
