-- ===== src/Snapshots/Listing.antt =====
-- The list of snapshots (internal/tools/snapshot.go: listSnapshots, parseSnapshotRefs,
-- formatSnapshotList). Entries with the same time keep their order, which the source leaves open.
use code_gen_sandbox.Testing.Events.{split_at_byte}
use code_gen_sandbox.Testing.Rerun.{text_lt}
use code_gen_sandbox.Files.Replace.{has_prefix}
use code_gen_sandbox.Snapshots.{Git, for_each_ref, trim_newlines, split_all}
use code_gen_sandbox.Snapshots.Names.{snapshot_ref_prefix}
use code_gen_sandbox.Prelude.{
  if◌then◌else◌, length, take, drop, Option, none, some, List, [], ◌∷◌, ◌++◌, Bytes,
}

pub record SnapshotEntry : Type 0 where
  pub name : Bytes
  pub sha : Bytes
  pub timestamp : Bytes
  pub description : Bytes

-- `strings.TrimPrefix` of the namespace.
unfoldable pub trim_ref_prefix : Bytes → Bytes
trim_ref_prefix ref =
    if has_prefix snapshot_ref_prefix ref then drop (length snapshot_ref_prefix) ref else ref

-- One line, cut at the first three tabs; nothing where there are fewer than two.
unfoldable pub parse_snapshot_line : Bytes → Option SnapshotEntry
parse_snapshot_line line =
    let (ref, more) = split_at_byte 9 line in
    elim more [
      | none ↦ none
      | some rest ↦
          let (sha, more') = split_at_byte 9 rest in
          elim more' [
            | none ↦ none
            | some rest' ↦
                let (time, desc) = split_at_byte 9 rest' in
                some (record {
                  name = trim_ref_prefix ref;
                  sha = sha;
                  timestamp = time;
                  description = elim desc [ none ↦ [] | some d ↦ d ];
                })
          ]
    ]

unfoldable pub parse_snapshot_lines : List Bytes → List SnapshotEntry
parse_snapshot_lines [] = []
parse_snapshot_lines (line ∷ lines) =
    let rest = parse_snapshot_lines lines in
    elim line [
      | [] ↦ rest
      | c ∷ cs ↦ elim (parse_snapshot_line (c ∷ cs)) [ none ↦ rest | some e ↦ e ∷ rest ]
    ]

unfoldable pub parse_snapshot_refs : Bytes → List SnapshotEntry
parse_snapshot_refs s = parse_snapshot_lines (split_all 10 (trim_newlines s))

unfoldable pub insert_newest : SnapshotEntry → List SnapshotEntry → List SnapshotEntry
insert_newest e [] = e ∷ []
insert_newest e (f ∷ fs) =
    let rest = insert_newest e fs in
    if text_lt e.timestamp f.timestamp then f ∷ rest else e ∷ f ∷ fs

unfoldable pub sort_newest : List SnapshotEntry → List SnapshotEntry
sort_newest [] = []
sort_newest (e ∷ es) = insert_newest e (sort_newest es)

unfoldable pub list_snapshots :
    {State : Type 0} → Git State → State → State × Option (List SnapshotEntry)
list_snapshots git s =
    let (s', out) = git.run s for_each_ref in
    elim out [ none ↦ (s', none) | some text ↦ (s', some (sort_newest (parse_snapshot_refs text))) ]

unfoldable pub format_lines : List SnapshotEntry → Bytes
format_lines [] = []
format_lines (e ∷ es) =
    e.name
    ++ 9 ∷ (take 12 e.sha ++ 9 ∷ (e.timestamp ++ 9 ∷ (e.description ++ 10 ∷ format_lines es)))

unfoldable pub format_snapshot_list : List SnapshotEntry → Bytes
format_snapshot_list es = trim_newlines (format_lines es)
