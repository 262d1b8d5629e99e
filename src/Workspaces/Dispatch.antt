-- ===== src/Workspaces/Dispatch.antt =====
-- Which workspace a call gets (internal/workspace/set.go, internal/tools/workspace_dispatch.go).
use code_gen_sandbox.Prelude.Maps
use code_gen_sandbox.Workspaces.{
  Entry, Workspace, WorkspaceSet, ok, entry_name, add_entries, new_set, is_no_name, get, default_of,
  chosen, resolve_in, resolve_workspace,
}
use code_gen_sandbox.Prelude.{
  Bool-cases, Option-cases, length, set, length-append, All, ℕ, suc, ◌+◌, ◌≤◌, ◌≡◌, refl, subst,
  ◌≢◌, ◌⊎◌, inl, inr, if_neg, Option, none, some, List, [], ◌∷◌, ◌++◌, arith, dec_le, Bytes,
  bytes_discrete,
}

-- The map has exactly the ordered workspaces, each under its name.
pub record IsIndexed (set : WorkspaceSet) : Type 0 where
  pub listed : All (λ w. get set w.name ≡ some w) set.ordered
  pub named : (n : Bytes) (w : Workspace) → get set n ≡ some w → w.name ≡ n

module _ (base : Bytes → Bytes) (open_root : Bytes → Option Bytes) where
  listed-insert :
      (m : List (Bytes × Workspace)) (v : Workspace) (ws : List Workspace)
      → Maps.lookup bytes_discrete v.name m ≡ none
      → All (λ w. Maps.lookup bytes_discrete w.name m ≡ some w) ws
      → All
          (λ w. Maps.lookup bytes_discrete w.name (Maps.insert bytes_discrete v.name v m) ≡ some w)
          (ws ++ v ∷ [])
  listed-insert m v [] n h = (Maps.lookup-insert_self bytes_discrete v.name v m, tt)
  listed-insert m v (w ∷ ws) n h =
      let a = Maps.lookup-insert bytes_discrete v.name w.name v m in
      let b : Maps.lookup bytes_discrete w.name m ≡ some w = h.0 in
      (ground arith, listed-insert m v ws n h.1)

  add_entry-IsIndexed :
      (set : WorkspaceSet) (v : Workspace)
      → Maps.lookup bytes_discrete v.name set.by_name ≡ none
      → IsIndexed set
      → IsIndexed (record {
        ordered = set.ordered ++ v ∷ [];
        by_name = Maps.insert bytes_discrete v.name v set.by_name;
      })
  unfolding get
  add_entry-IsIndexed set v n h = record {
    listed = listed-insert set.by_name v set.ordered n h.listed;
    named = (λ k w e.
        let a = Maps.lookup-insert bytes_discrete v.name k v set.by_name in
        let b = h.named k w in
        elim (bytes_discrete v.name k) [
          | yes p ↦ ground arith
          | no q ↦ b (
              let c =
                if_neg (bytes_discrete v.name k) q (some v)
                  (Maps.lookup bytes_discrete k set.by_name) in
              ground arith)
        ]);
  }

  add_entries-IsIndexed :
      (set : WorkspaceSet) (i : ℕ) (es : List Entry) (made : WorkspaceSet)
      → add_entries base open_root set i es ≡ ok made
      → IsIndexed set
      → IsIndexed made × (length made.ordered ≡ length set.ordered + length es)
  unfolding add_entries
  add_entries-IsIndexed set i [] made e h =
      let same : set ≡ made = ground arith in
      subst (λ m. IsIndexed m × (length m.ordered ≡ length set.ordered + 0)) same (h, omega arith)
  add_entries-IsIndexed set i (x ∷ es) made e h =
      elim (Bool-cases (is_no_name (entry_name base open_root x))) [
        | inl q ↦ absurd (ground arith)
        | inr q ↦
            elim (Option-cases
              (Maps.lookup bytes_discrete (entry_name base open_root x) set.by_name)) [
                | inr (dup, r) ↦ absurd (ground arith)
                | inl r ↦ elim (Option-cases (open_root x.root)) [
                  | inl z ↦ absurd (ground arith)
                  | inr (root, z) ↦
                      let ws : Workspace = record {
                        name = entry_name base open_root x;
                        root = root;
                      } in
                      let next : WorkspaceSet = record {
                        ordered = set.ordered ++ ws ∷ [];
                        by_name =
                            Maps.insert bytes_discrete (entry_name base open_root x) ws set.by_name;
                      } in
                      let k : add_entries base open_root next (suc i) es ≡ ok made = ground arith in
                      let (a, b) =
                        add_entries-IsIndexed next (suc i) es made k
                          (add_entry-IsIndexed set ws r h) in
                      (a, omega (arith, b, length-append set.ordered (ws ∷ [])))
                ]
              ]
      ]

  -- A set that is made from entries has as many workspaces as entries; each is found under its
  -- own name, and what is found under a name has that name.
  pub new_set-IsIndexed :
      (entries : List Entry) (made : WorkspaceSet)
      → new_set base open_root entries ≡ ok made
      → IsIndexed made × (length made.ordered ≡ length entries)
  unfolding new_set get Maps.lookup
  new_set-IsIndexed [] made e = absurd (ground arith)
  new_set-IsIndexed (x ∷ es) made e =
      let (a, b) =
        add_entries-IsIndexed (record { ordered = []; by_name = [] }) 0 (x ∷ es) made e
          (record { listed = tt; named = (λ n w h. absurd (ground arith)) }) in
      (a, omega (arith, b))

  new_set-entries :
      (entries : List Entry) (made : WorkspaceSet)
      → new_set base open_root entries ≡ ok made
      → length entries ≢ 0
  unfolding new_set
  new_set-entries [] made e h = ground arith
  new_set-entries (x ∷ es) made e h = omega arith

  resolved :
      (made : WorkspaceSet) (single : Option Workspace) (hint : Bytes) (w : Workspace)
      → ¬ (length made.ordered ≤ 0)
      → (get made hint ≡ some w → w.name ≡ hint)
      → resolve_workspace (some made) single hint ≡ chosen w
      → (w.name ≡ hint) ⊎ ((hint ≡ []) × (made.ordered ≡ w ∷ []))
  unfolding resolve_workspace resolve_in default_of
  resolved made single [] w l m r = inr (refl, ground arith)
  resolved made single (c ∷ cs) w l m r = inl (m (ground arith))

  -- When a set was made from entries and a call on it gets a workspace, the workspace has the
  -- name that the call asked for, or the call asked for none and the workspace is the only one
  -- of the set.
  pub resolve_workspace_lem :
      (entries : List Entry) (made : WorkspaceSet) (single : Option Workspace) (hint : Bytes)
      (w : Workspace)
      → new_set base open_root entries ≡ ok made
      → resolve_workspace (some made) single hint ≡ chosen w
      → (w.name ≡ hint) ⊎ ((hint ≡ []) × (made.ordered ≡ w ∷ []))
  unfolding resolve_workspace resolve_in default_of
  resolve_workspace_lem entries made single hint w e r =
      let (h, n) = new_set-IsIndexed entries made e in
      let m = h.named hint w in
      let l : length entries ≢ 0 = new_set-entries entries made e in
      elim (dec_le (length made.ordered) 0) [
        | yes p ↦ absurd (omega arith)
        | no p ↦ resolved made single hint w p m r
      ]
