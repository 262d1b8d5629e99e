-- ===== src/Snapshots/Restoring/Removing.antt =====
-- The paths that a restore removes (internal/tools/snapshot.go: removeExtrasNotInSnapshot,
-- pruneEmptyDirs).
use code_gen_sandbox.Snapshots.{Removal, removed, missing, denied, Git}
use code_gen_sandbox.Snapshots.Operations.{dir_of, prune_empty_dirs, prune_above, remove_extras}
use code_gen_sandbox.Snapshots.Restoring.{View, Laws}
use code_gen_sandbox.Secrets.{has_byte}
use code_gen_sandbox.Prelude.{
  if◌then◌else◌, Bool-cases, length, ℕ, zero, suc, ◌-◌, ◌≤◌, ◌≡◌, refl, ap, ◌∙◌, ◌≢◌, ◌⊎◌, inl, inr,
  ite, true, ◌&&◌, not, none, List, [], ◌∷◌, arith, Bytes, bytes_discrete, has_text,
}

Removal-cases : (r : Removal) → (r ≡ removed) ⊎ (r ≡ missing) ⊎ (r ≡ denied)
Removal-cases removed = inl refl
Removal-cases missing = inr (inl refl)
Removal-cases denied = inr (inr refl)

length-dir_of : (p : Bytes) → length (dir_of p) ≤ length p - 1
unfolding dir_of has_byte
length-dir_of [] = omega arith
length-dir_of (c ∷ []) = omega arith
length-dir_of (c ∷ d ∷ s) = let r = length-dir_of (d ∷ s) in ground arith

module _ {State : Type 0} (git : Git State) (trim_space : Bytes → Bytes) (view : View State)
    (laws : Laws git trim_space view) where
  -- To go up with more rounds than bytes changes nothing.
  prune_empty_dirs-enough :
      (fuel : ℕ) (s : State) (dir : Bytes)
      → length dir ≤ fuel
      → prune_empty_dirs git trim_space (suc fuel) s dir
        ≡ prune_empty_dirs git trim_space fuel s dir
  unfolding prune_empty_dirs
  prune_empty_dirs-enough zero s [] h = refl
  prune_empty_dirs-enough zero s (c ∷ dir) h = absurd (omega arith)
  prune_empty_dirs-enough (suc fuel) s [] h = refl
  prune_empty_dirs-enough (suc fuel) s (c ∷ dir) h =
      let l = length-dir_of (c ∷ dir) in
      let r =
        prune_empty_dirs-enough fuel (git.remove s (c ∷ dir)).0 (dir_of (c ∷ dir)) (omega arith) in
      ground arith

  content-remove :
      (s : State) (p q : Bytes)
      → (git.remove s p).1 ≢ denied
      → view.content (git.remove s p).0 q ≡ ite (bytes_discrete q p) none (view.content s q)
  content-remove s p q n =
      let self = laws.remove_self s p in
      let other = laws.remove_other s p q in
      elim (Removal-cases (git.remove s p).1) [
        | inl e ↦ elim (bytes_discrete q p) [
          | yes d ↦ ground arith
          | no d ↦ let o = other d in ground arith
        ]
        | inr (inl e) ↦ elim (bytes_discrete q p) [
          | yes d ↦ ground arith
          | no d ↦ let o = other d in ground arith
        ]
        | inr (inr e) ↦ absurd (n e)
      ]

  content-remove_absent :
      (s : State) (p q : Bytes)
      → view.content s p ≡ none
      → view.content (git.remove s p).0 q ≡ view.content s q
  content-remove_absent s p q h =
      let self = laws.remove_self s p in
      let other = laws.remove_other s p q in
      elim (bytes_discrete q p) [
        | yes d ↦ elim (Removal-cases (git.remove s p).1) [
          | inl e ↦ ground arith
          | inr (inl e) ↦ ground arith
          | inr (inr e) ↦ ground arith
        ]
        | no d ↦ other d
      ]

  -- The directories that are removed hold no content of their own.
  content-prune_empty_dirs :
      (fuel : ℕ) (s : State) (dir q : Bytes)
      → view.content s dir ≡ none
      → view.content (prune_empty_dirs git trim_space fuel s dir) q ≡ view.content s q
  unfolding prune_empty_dirs
  content-prune_empty_dirs zero s dir q h = refl
  content-prune_empty_dirs (suc fuel) s [] q h = refl
  content-prune_empty_dirs (suc fuel) s (c ∷ dir) q h =
      let a = content-remove_absent s (c ∷ dir) q h in
      let above = laws.remove_above s (c ∷ dir) in
      let up = content-prune_empty_dirs fuel (git.remove s (c ∷ dir)).0 (dir_of (c ∷ dir)) q in
      elim (Removal-cases (git.remove s (c ∷ dir)).1) [
        | inl e ↦ let r = up (above (λ d. ground arith)) in ground arith
        | inr (inl e) ↦ ground arith
        | inr (inr e) ↦ ground arith
      ]

  content-prune_above :
      (s : State) (p q : Bytes)
      → (git.remove s p).1 ≢ denied
      → view.content (prune_above git trim_space (git.remove s p).0 p) q
        ≡ ite (bytes_discrete q p) none (view.content s q)
  unfolding prune_above
  content-prune_above s p q n =
      content-prune_empty_dirs (length p) (git.remove s p).0 (dir_of p) q (laws.remove_above s p n)
      ∙ content-remove s p q n

  -- A cleanup that ends without an error removes the listed paths that the snapshot lacks, and leaves
  -- the content of every other path.
  pub content-remove_extras :
      (s : State) (before snapshot : List Bytes) (q : Bytes)
      → (remove_extras git trim_space s before snapshot).1 ≡ true
      → view.content (remove_extras git trim_space s before snapshot).0 q
        ≡ (if has_text q before && not (has_text q snapshot) then none else view.content s q)
  unfolding remove_extras has_text
  content-remove_extras s [] snapshot q h = refl
  content-remove_extras s (p ∷ before) snapshot q h =
      let next = prune_above git trim_space (git.remove s p).0 p in
      let kept = content-remove_extras s before snapshot q in
      let gone = content-remove_extras next before snapshot q in
      let content = content-prune_above s p q in
      elim (Bool-cases (has_text p snapshot)) [
        | inl e ↦
            let r = kept (ground arith) in
            elim (bytes_discrete q p) [
              | yes d ↦ let f = ap (λ x. has_text x snapshot) d in ground arith
              | no d ↦ ground arith
            ]
        | inr e ↦ elim (Removal-cases (git.remove s p).1) [
          | inl g ↦
              let c = content (λ d. ground arith) in
              let r = gone (ground arith) in
              elim (bytes_discrete q p) [
                | yes d ↦ let f = ap (λ x. has_text x snapshot) d in ground arith
                | no d ↦ ground arith
              ]
          | inr (inl g) ↦
              let c = content (λ d. ground arith) in
              let r = gone (ground arith) in
              elim (bytes_discrete q p) [
                | yes d ↦ let f = ap (λ x. has_text x snapshot) d in ground arith
                | no d ↦ ground arith
              ]
          | inr (inr g) ↦ absurd (ground arith)
        ]
      ]
