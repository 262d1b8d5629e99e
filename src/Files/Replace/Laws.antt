-- ===== src/Files/Replace/Laws.antt =====
-- What an accepted edit does to the text.
use code_gen_sandbox.Prelude.{
  ◌==◌, if◌then◌else◌, length, drop, length-append, ℕ, ◌+◌, ◌*◌, ◌≤◌, ◌<◌, ◌≡◌, refl, sym, ap,
  subst, ◌∙◌, ◌≢◌, ◌⊎◌, inl, inr, true, false, List, [], ◌∷◌, append-nil, ◌++◌, arith, ℕ_discrete,
  Bytes,
}
use code_gen_sandbox.Files.Replace
use code_gen_sandbox.Files.Replace.Scan.{rejoin, around, not_before, not_behind}
use code_gen_sandbox.Files.Replace.{
  EditArgs, Result, ok, err, not_found, matched_times, apply_edit, pieces, separated, has_prefix,
}

-- The text around the one match that the count finds, and where else the text may match.
abbrev pub OneMatch : Bytes → Bytes → Bytes → Bytes → Type 0
OneMatch body old pre post =
    (body ≡ pre ++ (old ++ post))
    × ((i : ℕ)
        → has_prefix old (drop i body) ≡ true
        → (length pre ≤ i) × (i < length pre + length old))

one_match :
    (c : ℕ) (old body : Bytes) (x : Bytes × List Bytes)
    → pieces (c ∷ old) 0 body ≡ x
    → length x.1 ≡ 1
    → (pre post : Bytes) × (x ≡ (pre, post ∷ [])) × OneMatch body (c ∷ old) pre post
one_match c old body (pre, []) e h = absurd (omega arith)
one_match c old body (pre, post ∷ []) e h = (
  pre,
  post,
  refl,
  (
    around c old body pre post e,
    λ i m. (not_before c old body pre post e i m, not_behind c old body pre post e i m),
  ),
)
one_match c old body (pre, p ∷ q ∷ ps) e h = absurd (omega arith)

cons_of_ne : (xs : Bytes) → xs ≢ [] → (c : ℕ) × (rest : Bytes) × (xs ≡ c ∷ rest)
cons_of_ne [] ne = absurd (ne refl)
cons_of_ne (c ∷ rest) ne = (c, rest, refl)

module _ (body : Bytes) (a : EditArgs) (pre post : Bytes) where
  accepted :
      Replace.count body a.old_str ≡ 1
      → a.replace_all ≡ false
      → apply_edit body a ≡ ok (Replace.replace_first body a.old_str a.new_str, 1)
  unfolding apply_edit
  accepted p all = rw (p, all) refl

  replaced :
      pieces a.old_str 0 body ≡ (pre, post ∷ [])
      → Replace.replace_first body a.old_str a.new_str ≡ pre ++ (a.new_str ++ post)
  unfolding Replace.replace_first separated
  replaced e =
      rw (e, append-nil post, Replace.replace_first) (ap (λ x. x.0 ++ (a.new_str ++ post)) e)

refused :
    (body : Bytes) (a : EditArgs)
    → a.replace_all ≡ false
    → Replace.count body a.old_str ≢ 1
    → let n = Replace.count body a.old_str in
      apply_edit body a ≡ err (if n == 0 then not_found else matched_times n)
unfolding apply_edit
refused body a all p = ground arith

-- For a text to replace that is not empty and without `replace_all`: either the scan counts
-- one match, and the edit replaces a match at a place that every other place where the text
-- matches overlaps; or it counts another number, and the edit is refused as not found when
-- that is 0, and with that number when it is more.
pub apply_edit_single :
    (body : Bytes) (a : EditArgs)
    → a.old_str ≢ []
    → a.replace_all ≡ false
    → let n = Replace.count body a.old_str in
      ((n ≡ 1)
        × ((pre post : Bytes) × OneMatch body a.old_str pre post
            × (apply_edit body a ≡ ok (pre ++ (a.new_str ++ post), 1))))
      ⊎ ((n ≢ 1) × (apply_edit body a ≡ err (if n == 0 then not_found else matched_times n)))
unfolding Replace.count
apply_edit_single body a ne all =
    let (c, old, e) = cons_of_ne a.old_str ne in
    elim (ℕ_discrete (Replace.count body a.old_str) 1) [
      | yes p ↦
          let one : length (pieces (c ∷ old) 0 body).1 ≡ 1 =
            sym (ap (λ o. Replace.count body o) e) ∙ p in
          let (pre, post, found, m) = one_match c old body (pieces (c ∷ old) 0 body) refl one in
          let found' : pieces a.old_str 0 body ≡ (pre, post ∷ []) =
            ap (λ o. pieces o 0 body) e ∙ found in
          inl (
            p,
            (
              pre,
              post,
              subst (λ o. OneMatch body o pre post) (sym e) m,
              accepted body a pre post p all
                  ∙ ap (λ u. ok (u, 1)) (replaced body a pre post found'),
            ),
          )
      | no p ↦ inr (p, refused body a all p)
    ]

length-separated :
    (old new : Bytes) (ps : List Bytes)
    → length (separated new ps) + length ps * length old
      ≡ length (separated old ps) + length ps * length new
unfolding separated
length-separated old new [] = omega arith
length-separated old new (p ∷ ps) = omega (
  arith,
  length-separated old new ps,
  length-append new (p ++ separated new ps),
  length-append old (p ++ separated old ps),
  length-append p (separated new ps),
  length-append p (separated old ps),
)

-- For a text to replace that is not empty and with `replace_all`: either there is no match,
-- and the edit is refused as not found; or the text is a row of pieces with the old text
-- between them, one time for each match counted, and the answer is the same row with the new
-- text between them, and the count.
pub apply_edit_all :
    (body : Bytes) (a : EditArgs)
    → a.old_str ≢ []
    → a.replace_all ≡ true
    → let n = Replace.count body a.old_str in
      ((n ≡ 0) × (apply_edit body a ≡ err not_found))
      ⊎ ((first : Bytes) × (rest : List Bytes) × (length rest ≡ n)
          × (n ≢ 0)
          × (body ≡ first ++ separated a.old_str rest)
          × (apply_edit body a ≡ ok (first ++ separated a.new_str rest, n)))
unfolding Replace.count Replace.replace_all apply_edit
apply_edit_all body a ne all =
    let (c, old, e) = cons_of_ne a.old_str ne in
    let whole = rejoin c old 0 body in
    elim (ℕ_discrete (Replace.count body a.old_str) 0) [
      | yes p ↦ inl (p, ground arith)
      | no p ↦ inr (
        (pieces a.old_str 0 body).0,
        (pieces a.old_str 0 body).1,
        refl,
        p,
        sym (rw (← e) at whole),
        ground arith,
      )
    ]

-- When an edit with `replace_all`, of a text to replace that is not empty, answers a new text
-- and a count, the new text is as long as the old one when the count times the old part is
-- added to it, and the count times the new part to the old text.
pub length-apply_edit :
    (body : Bytes) (a : EditArgs) (updated : Bytes) (n : ℕ)
    → a.old_str ≢ []
    → a.replace_all ≡ true
    → apply_edit body a ≡ ok (updated, n)
    → length updated + n * length a.old_str ≡ length body + n * length a.new_str
length-apply_edit body a updated n ne all h = elim (apply_edit_all body a ne all) [
  | inl (_, e) ↦ absurd (ground arith)
  | inr (first, rest, counted, _, whole, e) ↦
      let same : updated ≡ first ++ separated a.new_str rest = ground arith in
      let times : n ≡ length rest = ground arith in
      rw (same, whole, times)
        (omega (
          arith,
          length-append first (separated a.new_str rest),
          length-append first (separated a.old_str rest),
          length-separated a.old_str a.new_str rest,
        ))
]
