-- ===== src/Verify/Markers.antt =====
-- The detectors of a workspace and the choice among them (internal/verify/verify.go with
-- internal/tools/dispatch.go), by the markers at the root.
use code_gen_sandbox.Verify.{Detector}
use code_gen_sandbox.Verify.Detectors.{
  Outside, go_detector, rust_detector, node_detector, python_detector, add_if, detect_all,
  detect_node_package_manager, read_package_json_scripts,
}
use code_gen_sandbox.Verify.Dispatch.{detector, find_language, dispatch_by_language}
use code_gen_sandbox.Prelude.{
  if◌then◌else◌, Option-cases, ℕ, ◌≡◌, refl, sym, ◌∙◌, ◌↔◌, inl, inr, Bool, true, false, ◌||◌,
  Option, none, some, List, [], ◌∷◌, arith, ℕ_discrete, Bytes, codes, bytes_discrete,
}

pub data Language : Type 0 where
  go rust node python : Language

unfoldable pub name_of : Language → Bytes
name_of go = codes "go"
name_of rust = codes "rust"
name_of node = codes "node"
name_of python = codes "python"

-- The marker of the language stands at the root.
unfoldable pub is_marked : (Bytes → Bool) → Language → Bool
is_marked file_exists go = file_exists (codes "go.mod")
is_marked file_exists rust = file_exists (codes "Cargo.toml")
is_marked file_exists node = file_exists (codes "package.json")
is_marked file_exists python =
    file_exists (codes "pyproject.toml") || file_exists (codes "setup.py")

unfoldable pub detector_of : Outside → (Bytes → Bool) → Option Bytes → Language → Detector
detector_of o file_exists package_json go = go_detector o
detector_of o file_exists package_json rust = rust_detector o
detector_of o file_exists package_json node =
    node_detector o (detect_node_package_manager file_exists)
      (read_package_json_scripts o package_json)
detector_of o file_exists package_json python = python_detector o

find_language-detect_all :
    (o : Outside) (file_exists : Bytes → Bool) (package_json : Option Bytes) (l : Language)
    → find_language (name_of l) (detect_all o file_exists package_json)
      ≡ (if is_marked file_exists l then some (detector_of o file_exists package_json l) else none)
unfolding detect_all name_of is_marked detector_of go_detector rust_detector node_detector
    python_detector find_language add_if bytes_discrete ℕ_discrete
find_language-detect_all o file_exists package_json go = ground arith
find_language-detect_all o file_exists package_json rust = ground arith
find_language-detect_all o file_exists package_json node = ground arith
find_language-detect_all o file_exists package_json python = ground arith

chosen-found :
    (normalize : Bytes → Bytes) (all : List Detector) (hint : Bytes) (d : Detector) (c : ℕ)
    (cs : Bytes)
    → normalize hint ≡ c ∷ cs
    → (dispatch_by_language normalize all hint ≡ detector d) ↔ (find_language (c ∷ cs) all ≡ some d)
unfolding dispatch_by_language
chosen-found normalize [] hint d c cs e =
    (λ h. ground arith, λ h. unfold find_language in ground arith)
chosen-found normalize (a ∷ all) hint d c cs e =
    elim (Option-cases (find_language (c ∷ cs) (a ∷ all))) [
      | inl q ↦ (λ h. ground arith, λ h. ground arith)
      | inr (found, q) ↦ (
        (λ h. let m : detector found ≡ detector d = ground arith in let n : found ≡ d = cc in cc),
        λ h. let n : some found ≡ some d = cc in let m : found ≡ d = cc in ground arith,
      )
    ]

chosen-named :
    (normalize : Bytes → Bytes) (all : List Detector) (hint : Bytes) (d : Detector) (l : Language)
    → normalize hint ≡ name_of l
    → (dispatch_by_language normalize all hint ≡ detector d)
      ↔ (find_language (name_of l) all ≡ some d)
unfolding name_of
chosen-named normalize all hint d go e = chosen-found normalize all hint d 103 (codes "o") e
chosen-named normalize all hint d rust e = chosen-found normalize all hint d 114 (codes "ust") e
chosen-named normalize all hint d node e = chosen-found normalize all hint d 110 (codes "ode") e
chosen-named normalize all hint d python e = chosen-found normalize all hint d 112 (codes "ython") e

guarded-some :
    (b : Bool) (x d : Detector) → ((if b then some x else none) ≡ some d) ↔ ((b ≡ true) × (d ≡ x))
guarded-some true x d = (λ h. (refl, cc), λ h. cc)
guarded-some false x d = (λ h. ground arith, λ h. ground arith)

-- Where a hint names the language, its detector is chosen exactly when a marker of the language stands
-- at the root, and no other detector is.
pub dispatch_by_language-detect_all :
    (o : Outside) (file_exists : Bytes → Bool) (package_json : Option Bytes)
    (normalize : Bytes → Bytes) (hint : Bytes) (l : Language) (d : Detector)
    → normalize hint ≡ name_of l
    → (dispatch_by_language normalize (detect_all o file_exists package_json) hint ≡ detector d)
      ↔ ((is_marked file_exists l ≡ true) × (d ≡ detector_of o file_exists package_json l))
dispatch_by_language-detect_all o file_exists package_json normalize hint l d e =
    let c = chosen-named normalize (detect_all o file_exists package_json) hint d l e in
    let f = find_language-detect_all o file_exists package_json l in
    let g = guarded-some (is_marked file_exists l) (detector_of o file_exists package_json l) d in
    (λ h. g.0 (sym f ∙ c.0 h), λ h. c.1 (f ∙ g.1 h))
