-- ===== src/Lsp/Client/Locations.antt =====
-- Decoded locations and edits (internal/lsp/client.go and internal/lsp/types.go). JSON, URIs and
-- relative paths are parameters; a map's entries stand in the order of the iteration.
use code_gen_sandbox.Prelude.Maps
use code_gen_sandbox.Files.Replace.{has_prefix}
use code_gen_sandbox.Prelude.{
  ◌==◌, if◌then◌else◌, ℕ, ◌+◌, ◌≡◌, sym, ite, Bool, true, false, Option, none, some, List, [], ◌∷◌,
  append_assoc, append-nil, ◌++◌, map, arith, Bytes, codes, bytes_discrete,
}

pub record LspPosition : Type 0 where
  pub line : ℕ
  pub character : ℕ

pub record LspRange : Type 0 where
  pub start : LspPosition
  pub end : LspPosition

pub record LspLocation : Type 0 where
  pub uri : Bytes
  pub range : LspRange

pub record LspTextEdit : Type 0 where
  pub range : LspRange
  pub new_text : Bytes

pub record LspWorkspaceEdit : Type 0 where
  pub changes : List (Bytes × List LspTextEdit)
  pub document_changes : List (Bytes × List LspTextEdit)

pub record Location : Type 0 where
  pub uri : Bytes
  pub line : ℕ
  pub col : ℕ
  pub end_line : ℕ
  pub end_col : ℕ

pub record TextEdit : Type 0 where
  pub line : ℕ
  pub col : ℕ
  pub end_line : ℕ
  pub end_col : ℕ
  pub new_text : Bytes

abbrev pub WorkspaceEdit : Type 0
WorkspaceEdit = List (Bytes × List TextEdit)

unfoldable pub to_text_edit : LspTextEdit → TextEdit
to_text_edit e = record {
  line = e.range.start.line + 1;
  col = e.range.start.character + 1;
  end_line = e.range.end.line + 1;
  end_col = e.range.end.character + 1;
  new_text = e.new_text;
}

unfoldable pub to_text_edits : List LspTextEdit → List TextEdit
to_text_edits edits = map to_text_edit edits

pub record Paths : Type 0 where
  pub uri_to_path : Bytes → Bytes
  pub rel : Bytes → Bytes → Option Bytes

pub record Json : Type 0 where
  pub locations : Bytes → Option (List LspLocation)
  pub location : Bytes → Option LspLocation
  pub workspace_edit : Bytes → Option LspWorkspaceEdit

unfoldable pub is_null : Bytes → Bool
is_null raw = ite (bytes_discrete raw []) true (ite (bytes_discrete raw (codes "null")) true false)

unfoldable pub is_array : Bytes → Bool
is_array [] = false
is_array (c ∷ s) = c == 91

unfoldable pub or_empty : Option (List TextEdit) → List TextEdit
or_empty none = []
or_empty (some edits) = edits

module _ (paths : Paths) (root : Bytes) where
  unfoldable pub uri_to_rel : Bytes → Bytes
  uri_to_rel uri =
      let path = paths.uri_to_path uri in
      elim (paths.rel root path) [
        | none ↦ path
        | some rel ↦ if has_prefix (codes "..") rel then path else rel
      ]

  unfoldable pub to_location : LspLocation → Location
  to_location l = record {
    uri = uri_to_rel l.uri;
    line = l.range.start.line + 1;
    col = l.range.start.character + 1;
    end_line = l.range.end.line + 1;
    end_col = l.range.end.character + 1;
  }

  unfoldable pub to_locations : List LspLocation → List Location
  to_locations locs = map to_location locs

  unfoldable pub decode_locations : Json → Bytes → Option (List Location)
  decode_locations json raw =
      if is_null raw
      then some []
      else if is_array raw
      then (elim (json.locations raw) [ none ↦ none | some locs ↦ some (to_locations locs) ])
      else elim (json.location raw) [ none ↦ none | some loc ↦ some (to_locations (loc ∷ [])) ]

  -- One file's edits are put behind those that the map has for its path.
  unfoldable pub add_edits : WorkspaceEdit → List (Bytes × List LspTextEdit) → WorkspaceEdit
  add_edits out [] = out
  add_edits out ((uri, edits) ∷ more) =
      let rel = uri_to_rel uri in
      add_edits
        (Maps.insert bytes_discrete rel
          (or_empty (Maps.lookup bytes_discrete rel out) ++ to_text_edits edits) out)
        more

  unfoldable pub decode_workspace_edit : Json → Bytes → Option WorkspaceEdit
  decode_workspace_edit json raw = if is_null raw then some [] else elim (json.workspace_edit raw) [
    | none ↦ none
    | some edit ↦ some (add_edits (add_edits [] edit.changes) edit.document_changes)
  ]

  -- The edits whose URI stands for this path, in their order.
  pub edits_for : Bytes → List (Bytes × List LspTextEdit) → List TextEdit
  edits_for path [] = []
  edits_for path ((uri, edits) ∷ more) =
      let rest = edits_for path more in
      ite (bytes_discrete (uri_to_rel uri) path) (to_text_edits edits ++ rest) rest

  add_edits-lookup :
      (path : Bytes) (out : WorkspaceEdit) (entries : List (Bytes × List LspTextEdit))
      → or_empty (Maps.lookup bytes_discrete path (add_edits out entries))
        ≡ or_empty (Maps.lookup bytes_discrete path out) ++ edits_for path entries
  unfolding add_edits edits_for or_empty
  add_edits-lookup path out [] = sym (append-nil (or_empty (Maps.lookup bytes_discrete path out)))
  add_edits-lookup path out ((uri, edits) ∷ more) =
      let key = uri_to_rel uri in
      let own = or_empty (Maps.lookup bytes_discrete key out) in
      let added = Maps.insert bytes_discrete key (own ++ to_text_edits edits) out in
      let r = add_edits-lookup path added more in
      let i = Maps.lookup-insert bytes_discrete key path (own ++ to_text_edits edits) out in
      let a = append_assoc own (to_text_edits edits) (edits_for path more) in
      elim (bytes_discrete key path) [ yes e ↦ ground arith | no n ↦ ground arith ]

  -- When a rename's answer is neither empty nor null and is decoded, every path has all the edits of
  -- the URIs that stand for it, those of `changes` and then those of `documentChanges`, in their order.
  pub decode_workspace_edit_lem :
      (json : Json) (raw path : Bytes) (edit : LspWorkspaceEdit) (out : WorkspaceEdit)
      → is_null raw ≡ false
      → json.workspace_edit raw ≡ some edit
      → decode_workspace_edit json raw ≡ some out
      → or_empty (Maps.lookup bytes_discrete path out)
        ≡ edits_for path edit.changes ++ edits_for path edit.document_changes
  unfolding decode_workspace_edit or_empty Maps.lookup
  decode_workspace_edit_lem json raw path edit out n e h =
      let first = add_edits [] edit.changes in
      let a = add_edits-lookup path [] edit.changes in
      let b = add_edits-lookup path first edit.document_changes in
      let d : out ≡ add_edits first edit.document_changes = ground arith in rw d (ground arith)
