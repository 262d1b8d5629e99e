-- ===== src/Glob/Grep.antt =====
-- The tool Grep (internal/tools/grep.go) and the exit of ripgrep (internal/tools/ripgrep.go). A path is
-- the list of its segments, as `Resolve` gives it; ripgrep and the existence of the scope are parameters.
use code_gen_sandbox.Testing.Rerun.{join}
use code_gen_sandbox.Shell.Command.{RunError, no_error, exit_error, other_error}
use code_gen_sandbox.Workspaces.Resolve.{
  FilePath, ResolveResult, resolved, outside_workspace, not_resolved, rel,
}
use code_gen_sandbox.Prelude.{
  leb, ◌==◌, if◌then◌else◌, length, take, drop, take-append-drop, ℤ, pos, negsuc, ℕ, zero, suc, ◌≤◌,
  ◌≡◌, refl, ite, Bool, Option, none, some, List, [], ◌∷◌, append_assoc, append-nil, ◌++◌, arith,
  dec_le, Bytes, codes, bytes_discrete,
}

-- The arguments; a text that is absent is empty, a limit `none` where there is no number.
pub record GrepArgs : Type 0 where
  pub pattern : Bytes
  pub path : Bytes
  pub glob : Bytes
  pub case_insensitive : Bool
  pub output_mode : Bytes
  pub head_limit : Option ℤ

unfoldable pub grep_mode_args : Bytes → Option (List Bytes)
grep_mode_args mode =
    ite (bytes_discrete mode (codes "content")) (some (codes "-n" ∷ codes "--no-heading" ∷ [])) (
      ite (bytes_discrete mode (codes "files_with_matches")) (some (codes "-l" ∷ []))
        (ite (bytes_discrete mode (codes "count")) (some (codes "-c" ∷ [])) none))

unfoldable pub mode_of : Bytes → Bytes
mode_of [] = codes "content"
mode_of (c ∷ cs) = c ∷ cs

unfoldable pub glob_args : Bytes → List Bytes
glob_args [] = []
glob_args (c ∷ cs) = codes "-g" ∷ (c ∷ cs) ∷ []

-- `buildGrepRgArgs`, `none` for an unknown mode.
unfoldable pub build_grep_rg_args : GrepArgs → Option (List Bytes)
build_grep_rg_args a = elim (grep_mode_args (mode_of a.output_mode)) [
  | none ↦ none
  | some mode_args ↦ some (
      (codes "--no-require-git" ∷ codes "--color=never" ∷ [])
      ++ mode_args
      ++ (if a.case_insensitive then codes "-i" ∷ [] else [])
      ++ glob_args a.glob
      ++ codes "--" ∷ a.pattern ∷ [])
]

-- `relToRoot`: the root itself is the empty text.
unfoldable pub rel_to_root : FilePath → FilePath → Bytes
rel_to_root root path = join (codes "/") (rel root path)

pub data GrepScope : Type 0 where
  whole : GrepScope
  below : Bytes → GrepScope
  refused : ResolveResult → GrepScope
  no_such_path : GrepScope

-- `resolveGrepScope`
unfoldable pub resolve_grep_scope :
    (Bytes → ResolveResult) → (FilePath → Bool) → FilePath → Bytes → GrepScope
resolve_grep_scope resolve exists root [] = whole
resolve_grep_scope resolve exists root (c ∷ cs) = elim (resolve (c ∷ cs)) [
  | resolved path ↦ if exists path then below (rel_to_root root path) else no_such_path
  | outside_workspace ↦ refused outside_workspace
  | not_resolved ↦ refused not_resolved
]

-- `strings.SplitAfter` of the newline.
unfoldable pub split_after : Bytes → List Bytes
split_after [] = [] ∷ []
split_after (c ∷ s) = elim (split_after s) [
  | [] ↦ (c ∷ []) ∷ []
  | line ∷ lines ↦ if c == 10 then (c ∷ []) ∷ line ∷ lines else (c ∷ line) ∷ lines
]

unfoldable pub concat_lines : List Bytes → Bytes
concat_lines [] = []
concat_lines (line ∷ lines) = line ++ concat_lines lines

-- `truncateLines`
unfoldable pub truncate_lines : Bytes → ℕ → Bytes
truncate_lines s n =
    let lines = split_after s in if leb (length lines) n then s else concat_lines (take n lines)

unfoldable pub cut_head : Option ℤ → Bytes → Bytes
cut_head none body = body
cut_head (some (negsuc n)) body = body
cut_head (some (pos n)) body = if n == 0 then body else truncate_lines body n

-- `runRipgrep`: an exit code of 1 is no match.
pub data RgResult : Type 0 where
  rg_missing rg_failed : RgResult
  matches : Bytes → RgResult

unfoldable pub rg_result : RunError → Bytes → RgResult
rg_result no_error out = matches out
rg_result (exit_error (pos n)) out = if n == 1 then matches [] else rg_failed
rg_result (exit_error (negsuc n)) out = rg_failed
rg_result other_error out = rg_failed

pub data Grep : Type 0 where
  pattern_required unknown_mode : Grep
  bad_scope : GrepScope → Grep
  rg_error : RgResult → Grep
  found : Bytes → Grep

unfoldable pub scope_args : Bytes → List Bytes
scope_args [] = []
scope_args (c ∷ cs) = (c ∷ cs) ∷ []

unfoldable pub finish_grep : Option ℤ → RgResult → Grep
finish_grep head_limit (matches out) = found (cut_head head_limit out)
finish_grep head_limit rg_missing = rg_error rg_missing
finish_grep head_limit rg_failed = rg_error rg_failed

-- `HandleGrep` in a workspace that is chosen; `rg` runs ripgrep in the root.
unfoldable pub handle_grep :
    (Bytes → ResolveResult)
    → (FilePath → Bool)
    → FilePath
    → (List Bytes → RgResult)
    → GrepArgs
    → Grep
handle_grep resolve exists root rg a = elim a.pattern [
  | [] ↦ pattern_required
  | c ∷ cs ↦ elim (build_grep_rg_args a) [
    | none ↦ unknown_mode
    | some rg_args ↦ elim (resolve_grep_scope resolve exists root a.path) [
      | whole ↦ finish_grep a.head_limit (rg rg_args)
      | below scope ↦ finish_grep a.head_limit (rg (rg_args ++ scope_args scope))
      | refused r ↦ bad_scope (refused r)
      | no_such_path ↦ bad_scope no_such_path
    ]
  ]
]

concat_lines-split_after : (s : Bytes) → concat_lines (split_after s) ≡ s
unfolding concat_lines split_after
concat_lines-split_after [] = refl
concat_lines-split_after (c ∷ s) = let ih = concat_lines-split_after s in ground arith

concat_lines-append :
    (xs ys : List Bytes) → concat_lines (xs ++ ys) ≡ concat_lines xs ++ concat_lines ys
unfolding concat_lines
concat_lines-append [] ys = refl
concat_lines-append (x ∷ xs) ys =
    let ih = concat_lines-append xs ys in
    rw (ih, append_assoc x (concat_lines xs) (concat_lines ys)) refl

drop-all : (n : ℕ) (xs : List Bytes) → length xs ≤ n → drop n xs ≡ []
drop-all zero [] h = refl
drop-all (suc n) [] h = refl
drop-all zero (x ∷ xs) h = absurd (omega arith)
drop-all (suc n) (x ∷ xs) h = drop-all n xs (omega arith)

-- What is shown of an output is its first lines, whole, and what is cut off is the rest.
pub truncate_lines_lem :
    (s : Bytes) (n : ℕ) → truncate_lines s n ++ concat_lines (drop n (split_after s)) ≡ s
unfolding truncate_lines
truncate_lines_lem s n =
    let lines = split_after s in
    let w = concat_lines-split_after s in
    let t = take-append-drop n lines in
    let a = concat_lines-append (take n lines) (drop n lines) in
    elim (dec_le (length lines) n) [
      | yes p ↦
          let d = drop-all n lines p in let e = append-nil s in unfold concat_lines in ground arith
      | no p ↦ ground arith
    ]
