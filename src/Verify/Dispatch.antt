-- ===== src/Verify/Dispatch.antt =====
-- The choice of a detector (internal/tools/dispatch.go). Lower case and space trimming are a
-- parameter.
use code_gen_sandbox.Testing.Rerun.{text_lt, join}
use code_gen_sandbox.Verify.{Detector}
use code_gen_sandbox.Prelude.{
  ◌==◌, if◌then◌else◌, Bool-cases, Option-cases, length, ℕ, ◌≡◌, refl, sym, ap, ◌∙◌, ◌⊎◌, inl, inr,
  ite, true, Option, none, some, List, [], ◌∷◌, arith, Bytes, codes, bytes_discrete,
}

pub data Dispatched : Type 0 where
  no_project : Dispatched
  -- The number of projects and their languages.
  polyglot : ℕ → Bytes → Dispatched
  not_detected : Bytes → Bytes → Dispatched
  detector : Detector → Dispatched

-- `sort.Strings`: equal texts are kept.
unfoldable pub insert_text : Bytes → List Bytes → List Bytes
insert_text x [] = x ∷ []
insert_text x (y ∷ ys) = let rest = insert_text x ys in if text_lt y x then y ∷ rest else x ∷ y ∷ ys

unfoldable pub sorted_languages : List Detector → List Bytes
sorted_languages [] = []
sorted_languages (d ∷ ds) = insert_text d.language (sorted_languages ds)

unfoldable pub format_language_list : List Detector → Bytes
format_language_list detectors = join (codes ", ") (sorted_languages detectors)

unfoldable pub find_language : Bytes → List Detector → Option Detector
find_language hint [] = none
find_language hint (d ∷ ds) =
    let rest = find_language hint ds in ite (bytes_discrete d.language hint) (some d) rest

-- `dispatchByLanguage` with the detectors found in the workspace.
unfoldable pub dispatch_by_language : (Bytes → Bytes) → List Detector → Bytes → Dispatched
dispatch_by_language normalize [] language = no_project
dispatch_by_language normalize (d ∷ ds) language = elim (normalize language) [
  | [] ↦
      if length ds == 0
      then detector d
      else polyglot (length (d ∷ ds)) (format_language_list (d ∷ ds))
  | c ∷ cs ↦ elim (find_language (c ∷ cs) (d ∷ ds)) [
    | none ↦ not_detected (c ∷ cs) (format_language_list (d ∷ ds))
    | some found ↦ detector found
  ]
]

pub find_language_lem :
    (hint : Bytes) (ds : List Detector) (d : Detector)
    → find_language hint ds ≡ some d
    → d.language ≡ hint
unfolding find_language
find_language_lem hint [] d h = ground arith
find_language_lem hint (e ∷ ds) d h = elim (bytes_discrete e.language hint) [
  | yes p ↦ let q : some e ≡ some d = ground arith in cc
  | no p ↦ find_language_lem hint ds d (ground arith)
]

empty_of : (ds : List Detector) → length ds == 0 ≡ true → ds ≡ []
empty_of [] h = refl
empty_of (d ∷ ds) h = ground arith

-- A detector that is chosen has the language that is asked for, or none is asked for and it is the only
-- one.
pub dispatch_by_language_lem :
    (normalize : Bytes → Bytes) (all : List Detector) (language : Bytes) (d : Detector)
    → dispatch_by_language normalize all language ≡ detector d
    → (d.language ≡ normalize language) ⊎ ((normalize language ≡ []) × (all ≡ d ∷ []))
unfolding dispatch_by_language
dispatch_by_language_lem normalize [] language d h = ground arith
dispatch_by_language_lem normalize (e ∷ es) language d h = by_hint (normalize language) refl
  where
    by_hint :
        (hint : Bytes)
        → normalize language ≡ hint
        → (d.language ≡ normalize language) ⊎ ((normalize language ≡ []) × (e ∷ es ≡ d ∷ []))
    by_hint [] r = elim (Bool-cases (length es == 0)) [
      | inl q ↦
          let m : detector e ≡ detector d = ground arith in
          let n : e ≡ d = cc in let o = empty_of es q in inr (r, cc)
      | inr q ↦ ground arith
    ]
    by_hint (c ∷ cs) r = elim (Option-cases (find_language (c ∷ cs) (e ∷ es))) [
      | inl q ↦ ground arith
      | inr (found, q) ↦
          let l = find_language_lem (c ∷ cs) (e ∷ es) found q in
          let m : detector found ≡ detector d = ground arith in
          let n : found ≡ d = cc in inl (ap (λ (x : Detector). x.language) (sym n) ∙ l ∙ sym r)
    ]
