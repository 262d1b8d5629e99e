-- ===== src/Glob.antt =====
-- The tool Glob (internal/tools/glob.go): ripgrep lists the files, the code matches and sorts them.
-- `filepath.Match` on one segment, the workspace, the file times and ripgrep are parameters.
pub mod Segments
pub mod Matching
pub mod Grep
use code_gen_sandbox.Files.Replace.{has_prefix}
use code_gen_sandbox.Testing.Events.{split_at_byte}
use code_gen_sandbox.Testing.Rerun.{text_lt, join}
use code_gen_sandbox.Secrets.{has_byte}
use code_gen_sandbox.Coverage.Profile.{split_last}
use code_gen_sandbox.Snapshots.{split_non_empty_lines}
use code_gen_sandbox.Prelude.{
  ltb, ◌==◌, if◌then◌else◌, length, take, drop, ℤ, pos, negsuc, ℕ, zero, suc, ◌+◌, ◌⊎◌, inl, inr,
  ite, Bool, true, false, Option, none, some, List, [], ◌∷◌, map, Bytes, codes, bytes_discrete,
}

-- `popSegment`
unfoldable pub pop_segment : Bytes → Bytes × Bytes
pop_segment s =
    let (seg, more) = split_at_byte 47 s in elim more [ none ↦ (seg, []) | some rest ↦ (seg, rest) ]

unfoldable pub is_empty : Bytes → Bool
is_empty [] = true
is_empty (c ∷ s) = false

abbrev pub double_star : Bytes
double_star = codes "**"

module _ (match_segment : Bytes → Bytes → Bool) where
  -- `doublestarMatch` and `matchDoublestarPrefix`; every round shortens the pattern or the path, so
  -- the bytes of both are enough rounds.
  unfoldable pub match_rounds : ℕ → Bytes → Bytes → Bool
  match_rounds zero pattern path = false
  match_rounds (suc fuel) [] path = is_empty path
  match_rounds (suc fuel) (c ∷ cs) path = elim (bytes_discrete (c ∷ cs) double_star) [
    | yes e ↦ true
    | no n ↦ elim (has_prefix (codes "**/") (c ∷ cs)) [
      | true ↦ elim (match_rounds fuel (drop 3 (c ∷ cs)) path) [
        | true ↦ true
        | false ↦ elim (split_at_byte 47 path).1 [
          | none ↦ false
          | some rest ↦ match_rounds fuel (c ∷ cs) rest
        ]
      ]
      | false ↦ elim (match_segment (pop_segment (c ∷ cs)).0 (pop_segment path).0) [
        | false ↦ false
        | true ↦ match_rounds fuel (pop_segment (c ∷ cs)).1 (pop_segment path).1
      ]
    ]
  ]

  unfoldable pub doublestar_match : Bytes → Bytes → Bool
  doublestar_match pattern path = match_rounds (suc (length pattern + length path)) pattern path

  unfoldable pub base_name : Bytes → Bytes
  base_name path = elim (split_last 47 path) [ none ↦ path | some (dir, base) ↦ base ]

  unfoldable pub match_doublestar : Bytes → Bytes → Bool
  match_doublestar pattern path =
      if has_byte 47 pattern
      then doublestar_match pattern path
      else match_segment pattern (base_name path)

  unfoldable pub matching_paths : Bytes → List Bytes → List Bytes
  matching_paths pattern [] = []
  matching_paths pattern (p ∷ ps) =
      let rest = matching_paths pattern ps in if match_doublestar pattern p then p ∷ rest else rest

-- The order of `sortByMtimeDesc`, of files with their times; a file without one comes last.
unfoldable pub newer : Bytes × Option ℕ → Bytes × Option ℕ → Bool
newer (p, none) (q, none) = text_lt p q
newer (p, none) (q, some u) = false
newer (p, some t) (q, none) = true
newer (p, some t) (q, some u) = if t == u then text_lt p q else ltb u t

unfoldable pub insert_newer : Bytes × Option ℕ → List (Bytes × Option ℕ) → List (Bytes × Option ℕ)
insert_newer e [] = e ∷ []
insert_newer e (f ∷ fs) = let rest = insert_newer e fs in if newer f e then f ∷ rest else e ∷ f ∷ fs

unfoldable pub sort_newer : List (Bytes × Option ℕ) → List (Bytes × Option ℕ)
sort_newer [] = []
sort_newer (e ∷ es) = insert_newer e (sort_newer es)

unfoldable pub sort_by_mtime_desc : (Bytes → Option ℕ) → List Bytes → List Bytes
sort_by_mtime_desc mtime paths = map (λ e. e.0) (sort_newer (map (λ p. (p, mtime p)) paths))

abbrev pub default_glob_limit : ℕ
default_glob_limit = 100

-- `limit` is the argument converted to an integer, `none` where there is no number.
unfoldable pub parse_glob_limit : Option ℤ → ℕ
parse_glob_limit none = default_glob_limit
parse_glob_limit (some (negsuc n)) = default_glob_limit
parse_glob_limit (some (pos zero)) = default_glob_limit
parse_glob_limit (some (pos (suc n))) = suc n

-- What `Resolve`, `Stat` and `Rel` give for the path argument.
pub data Scope : Type 0 where
  not_resolved not_found no_relative : Scope
  found_file : Scope
  found_dir : Bytes → Scope

pub data GlobResult : Type 0 where
  pattern_required : GlobResult
  bad_scope : Scope → GlobResult
  rg_failed : GlobResult
  globbed : Bytes → GlobResult

-- `resolveGlobScope`: the scope for ripgrep, empty for the root.
unfoldable pub resolve_glob_scope : (Bytes → Scope) → Bytes → Bytes ⊎ GlobResult
resolve_glob_scope look [] = inl []
resolve_glob_scope look (c ∷ cs) = elim (look (c ∷ cs)) [
  | found_dir rel ↦ ite (bytes_discrete rel (codes ".")) (inl []) (inl rel)
  | other ↦ inr (bad_scope other)
]

-- `buildGlobRgArgs`
unfoldable pub build_glob_rg_args : Bytes → List Bytes
build_glob_rg_args scope =
    codes "--files"
    ∷ codes "--no-require-git"
    ∷ codes "--color=never"
    ∷ (elim scope [ [] ↦ [] | c ∷ cs ↦ (c ∷ cs) ∷ [] ])

-- `HandleGlob`, in a workspace that is chosen; `run` is ripgrep.
unfoldable pub handle_glob :
    (Bytes → Bytes → Bool)
    → (Bytes → Scope)
    → (List Bytes → Option Bytes)
    → (Bytes → Option ℕ)
    → Bytes
    → Bytes
    → Option ℤ
    → GlobResult
handle_glob match_segment look run mtime [] path limit = pattern_required
handle_glob match_segment look run mtime (c ∷ cs) path limit = elim (resolve_glob_scope look path) [
  | inr bad ↦ bad
  | inl scope ↦ elim (run (build_glob_rg_args scope)) [
    | none ↦ rg_failed
    | some out ↦
        let paths = matching_paths match_segment (c ∷ cs) (split_non_empty_lines out) in
        globbed (join (10 ∷ []) (take (parse_glob_limit limit) (sort_by_mtime_desc mtime paths)))
  ]
]
