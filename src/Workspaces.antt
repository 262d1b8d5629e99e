-- ===== src/Workspaces.antt =====
-- The set of workspaces (internal/workspace/set.go) and the choice of one for a call
-- (internal/tools/workspace_dispatch.go).
pub mod Dispatch
pub mod Resolve
use code_gen_sandbox.Prelude.Maps
use code_gen_sandbox.Prelude.{
  length, set, ℕ, suc, ite, Bool, true, false, Option, none, some, List, [], ◌∷◌, ◌++◌, Bytes,
  codes, bytes_discrete,
}

pub record Entry : Type 0 where
  pub name : Bytes
  pub root : Bytes

pub record Workspace : Type 0 where
  pub name : Bytes
  pub root : Bytes

pub record WorkspaceSet : Type 0 where
  pub ordered : List Workspace
  pub by_name : List (Bytes × Workspace)

pub data SetError : Type 0 where
  no_entries : SetError
  no_name : ℕ → SetError
  duplicate_name : ℕ → SetError
  bad_root : ℕ → SetError

pub data Made : Type 0 where
  ok : WorkspaceSet → Made
  err : SetError → Made

unfoldable pub is_no_name : Bytes → Bool
is_no_name name =
    ite (bytes_discrete name []) true (
      ite (bytes_discrete name (codes ".")) true (ite (bytes_discrete name (codes "/")) true false))

-- `base` is `filepath.Base`; `open_root` is the canonical root of `New`, where there is one.
module _ (base : Bytes → Bytes) (open_root : Bytes → Option Bytes) where
  unfoldable pub entry_name : Entry → Bytes
  entry_name e = elim e.name [ [] ↦ base e.root | c ∷ cs ↦ c ∷ cs ]

  -- The loop of `NewSet` from entry `i`.
  unfoldable pub add_entries : WorkspaceSet → ℕ → List Entry → Made
  add_entries set i [] = ok set
  add_entries set i (e ∷ es) = elim (is_no_name (entry_name e)) [
    | true ↦ err (no_name i)
    | false ↦ elim (Maps.lookup bytes_discrete (entry_name e) set.by_name) [
      | some dup ↦ err (duplicate_name i)
      | none ↦ elim (open_root e.root) [
        | none ↦ err (bad_root i)
        | some root ↦
            let ws : Workspace = record { name = entry_name e; root = root } in
            add_entries
              (record {
                ordered = set.ordered ++ ws ∷ [];
                by_name = Maps.insert bytes_discrete (entry_name e) ws set.by_name;
              })
              (suc i) es
      ]
    ]
  ]

  unfoldable pub new_set : List Entry → Made
  new_set [] = err no_entries
  new_set (e ∷ es) = add_entries (record { ordered = []; by_name = [] }) 0 (e ∷ es)

unfoldable pub get : WorkspaceSet → Bytes → Option Workspace
get set name = Maps.lookup bytes_discrete name set.by_name

-- `Default`: the sole workspace.
unfoldable pub default_of : WorkspaceSet → Option Workspace
default_of set = elim set.ordered [ [] ↦ none | w ∷ ws ↦ elim ws [ [] ↦ some w | v ∷ vs ↦ none ] ]

pub data Dispatched : Type 0 where
  chosen : Workspace → Dispatched
  not_configured : Dispatched
  ambiguous : ℕ → Dispatched
  unknown : Bytes → Dispatched

-- Without a set: the single workspace.
unfoldable pub resolve_single : Option Workspace → Bytes → Dispatched
resolve_single none hint = not_configured
resolve_single (some w) [] = chosen w
resolve_single (some w) (c ∷ cs) =
    ite (bytes_discrete w.name []) (chosen w)
      (ite (bytes_discrete (c ∷ cs) w.name) (chosen w) (unknown (c ∷ cs)))

unfoldable pub resolve_in : WorkspaceSet → Bytes → Dispatched
resolve_in set [] = elim (default_of set) [
  | none ↦ ambiguous (length set.ordered)
  | some w ↦ chosen w
]
resolve_in set (c ∷ cs) = elim (get set (c ∷ cs)) [ none ↦ unknown (c ∷ cs) | some w ↦ chosen w ]

-- `ResolveWorkspace` with the trimmed hint.
unfoldable pub resolve_workspace : Option WorkspaceSet → Option Workspace → Bytes → Dispatched
resolve_workspace none single hint = resolve_single single hint
resolve_workspace (some set) single hint = elim set.ordered [
  | [] ↦ resolve_single single hint
  | w ∷ ws ↦ resolve_in set hint
]
