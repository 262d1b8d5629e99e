-- ===== src/Snapshots/Names.antt =====
-- Names and refs of snapshots (internal/tools/snapshot.go: parseSnapshotName, snapshotRef).
use code_gen_sandbox.Prelude.{
  leb, ◌==◌, if◌then◌else◌, ℕ, Bool, true, false, ◌&&◌, ◌||◌, [], ◌∷◌, ◌++◌, Bytes, codes,
}

abbrev pub snapshot_ref_prefix : Bytes
snapshot_ref_prefix = codes "refs/sandbox/snapshots/"

-- `snapshotNamePattern`
unfoldable pub is_name_start : ℕ → Bool
is_name_start c =
    (leb 65 c && leb c 90) || (leb 97 c && leb c 122) || (leb 48 c && leb c 57) || c == 95

unfoldable pub is_name_char : ℕ → Bool
is_name_char c = is_name_start c || c == 46 || c == 45

unfoldable pub all_name_chars : Bytes → Bool
all_name_chars [] = true
all_name_chars (c ∷ s) = is_name_char c && all_name_chars s

unfoldable pub is_snapshot_name : Bytes → Bool
is_snapshot_name [] = false
is_snapshot_name (c ∷ s) = is_name_start c && all_name_chars s

pub data NameResult : Type 0 where
  name_required : NameResult
  invalid_name : NameResult
  named : Bytes → NameResult

-- `parseSnapshotName`; a name that is no text is empty.
unfoldable pub parse_snapshot_name : Bytes → NameResult
parse_snapshot_name [] = name_required
parse_snapshot_name (c ∷ s) = if is_snapshot_name (c ∷ s) then named (c ∷ s) else invalid_name

unfoldable pub snapshot_ref : Bytes → Bytes
snapshot_ref name = snapshot_ref_prefix ++ name
