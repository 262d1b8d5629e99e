-- ===== src/Files/Replace.antt =====
-- `applyEdit` of internal/tools/edit.go, with the `strings.Count`, `strings.Replace` and
-- `strings.ReplaceAll` that it calls. The text to replace is never empty: the caller has checked it.
pub mod Scan
pub mod Laws
use code_gen_sandbox.Prelude.{
  ltb, ◌==◌, if◌then◌else◌, length, ℕ, zero, suc, ◌-◌, Bool, true, false, ◌&&◌, not, List, [], ◌∷◌,
  ◌++◌, Bytes,
}

-- Whether `s` begins with the text.
unfoldable pub has_prefix : Bytes → Bytes → Bool
has_prefix [] s = true
has_prefix (c ∷ old) [] = false
has_prefix (c ∷ old) (d ∷ s) = c == d && has_prefix old s

abbrev pub cut_here : Bytes × List Bytes → Bytes × List Bytes
cut_here (p, ps) = ([], p ∷ ps)

abbrev pub keep : ℕ → Bytes × List Bytes → Bytes × List Bytes
keep c (p, ps) = (c ∷ p, ps)

-- The pieces of a text between the matches that a scan from the left finds, which do not overlap:
-- the piece before the first, and the piece behind each. `skip` bytes of a match are still to pass.
unfoldable pub pieces : Bytes → ℕ → Bytes → Bytes × List Bytes
pieces old skip [] = ([], [])
pieces old (suc skip) (c ∷ s) = pieces old skip s
pieces old zero (c ∷ s) =
    let inside = cut_here (pieces old (length old - 1) s) in
    let outside = keep c (pieces old 0 s) in if has_prefix old (c ∷ s) then inside else outside

-- The pieces behind a separator each.
unfoldable pub separated : Bytes → List Bytes → Bytes
separated sep [] = []
separated sep (p ∷ ps) = sep ++ (p ++ separated sep ps)

-- `strings.Count(body, old)`
unfoldable pub count : Bytes → Bytes → ℕ
count body old = length (pieces old 0 body).1

-- `strings.ReplaceAll(body, old, new)`
unfoldable pub replace_all : Bytes → Bytes → Bytes → Bytes
replace_all body old new = let (p, ps) = pieces old 0 body in p ++ separated new ps

-- `strings.Replace(body, old, new, 1)`
unfoldable pub replace_first : Bytes → Bytes → Bytes → Bytes
replace_first body old new =
    let (p, ps) = pieces old 0 body in
    elim ps [ [] ↦ p | q ∷ qs ↦ p ++ (new ++ (q ++ separated old qs)) ]

pub record EditArgs : Type 0 where
  pub file_path : Bytes
  pub old_str : Bytes
  pub new_str : Bytes
  pub replace_all : Bool

pub data EditError : Type 0 where
  not_found : EditError
  matched_times : ℕ → EditError

pub data Result {ℓ} (A : Type ℓ) : Type ℓ where
  ok : A → Result A
  err : EditError → Result A

-- The new text and the number of matches.
unfoldable pub apply_edit : Bytes → EditArgs → Result (Bytes × ℕ)
apply_edit body p =
    let n = count body p.old_str in
    if n == 0
    then err not_found
    else if ltb 1 n && not p.replace_all
    then err (matched_times n)
    else if p.replace_all
    then ok (replace_all body p.old_str p.new_str, n)
    else ok (replace_first body p.old_str p.new_str, n)
