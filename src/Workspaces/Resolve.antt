-- ===== src/Workspaces/Resolve.antt =====
-- Resolving a path inside a workspace (internal/workspace/workspace.go: Resolve). A canonical path is
-- the list of its segments; what exists and where its symbolic links lead are parameters.
use mathlib.Core.List.{reverse}
use code_gen_sandbox.Snapshots.{split_all}
use code_gen_sandbox.Prelude.{
  ◌==◌, if◌then◌else◌, length, replicate, ℕ, suc, ◌≡◌, refl, ite, Bool, true, false, Option, none,
  some, List, [], ◌∷◌, ◌++◌, Bytes, codes, bytes_discrete,
}

abbrev pub FilePath : Type 0
FilePath = List Bytes

abbrev pub parent_dir : Bytes
parent_dir = codes ".."

-- `filepath.Clean` of an absolute path: the segments, the last one first.
unfoldable pub clean_onto : List Bytes → List Bytes → List Bytes
clean_onto done [] = done
clean_onto done (s ∷ rest) = ite (bytes_discrete s []) (clean_onto done rest) (
    ite (bytes_discrete s (codes ".")) (clean_onto done rest) (
      ite (bytes_discrete s parent_dir)
        (elim done [ [] ↦ clean_onto [] rest | t ∷ ts ↦ clean_onto ts rest ])
        (clean_onto (s ∷ done) rest)))

unfoldable pub is_abs : Bytes → Bool
is_abs [] = false
is_abs (c ∷ s) = c == 47

-- The cleaned target, the last segment first: joined to the root where the path is relative.
unfoldable pub target : FilePath → Bytes → List Bytes
target root p =
    if is_abs p then clean_onto [] (split_all 47 p) else clean_onto [] (root ++ split_all 47 p)

-- `filepath.Rel` of canonical paths: a step up for each segment of the root that is not shared.
unfoldable pub rel : FilePath → FilePath → FilePath
rel [] path = path
rel (r ∷ root) [] = replicate (length (r ∷ root)) parent_dir
rel (r ∷ root) (s ∷ path) =
    ite (bytes_discrete r s) (rel root path) (replicate (length (r ∷ root)) parent_dir ++ s ∷ path)

unfoldable pub is_outside : FilePath → Bool
is_outside [] = false
is_outside (s ∷ rest) = ite (bytes_discrete s parent_dir) true false

pub data ResolveResult : Type 0 where
  resolved : FilePath → ResolveResult
  outside_workspace : ResolveResult
  not_resolved : ResolveResult

-- `exists` is whether `Lstat` finds the path, `links` what `EvalSymlinks` gives.
module _ (exists : FilePath → Bool) (links : FilePath → Option FilePath) where
  -- The loop of `evalSymlinksAllowMissing`: `up` is the current path, the last segment first, and
  -- `missing` what stands behind it.
  unfoldable pub eval_up : List Bytes → FilePath → Option FilePath
  eval_up [] missing =
      if exists [] then (elim (links []) [ none ↦ none | some r ↦ some (r ++ missing) ]) else none
  eval_up (s ∷ up) missing =
      if exists (reverse (s ∷ up))
      then (elim (links (reverse (s ∷ up))) [ none ↦ none | some r ↦ some (r ++ missing) ])
      else eval_up up (s ∷ missing)

  -- `Resolve`
  unfoldable pub resolve : FilePath → Bytes → ResolveResult
  resolve root p = elim (eval_up (target root p) []) [
    | none ↦ not_resolved
    | some r ↦ if is_outside (rel root r) then outside_workspace else resolved r
  ]

  -- None of the paths that the segments lead to, one by one from the base, is there.
  abbrev pub IsMissing : FilePath → FilePath → Type 0
  IsMissing base [] = Unit {0}
  IsMissing base (s ∷ rest) = (exists (base ++ s ∷ []) ≡ false) × IsMissing (base ++ s ∷ []) rest

  -- How a path is reached: an existing path whose links lead to `real`, and what is missing behind it.
  pub record Reached (path : FilePath) (whole : FilePath) : Type 0 where
    pub existing : FilePath
    pub behind : FilePath
    pub real : FilePath
    pub is_there : exists existing ≡ true
    pub behind-IsMissing : IsMissing existing behind
    pub leads : links existing ≡ some real
    pub parts : whole ≡ existing ++ behind
    pub path_parts : path ≡ real ++ behind

replicate-outside :
    (n : ℕ) (rest : FilePath) → is_outside (replicate (suc n) parent_dir ++ rest) ≡ true
unfolding is_outside bytes_discrete
replicate-outside n rest = refl
