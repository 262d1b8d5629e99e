-- ===== src/Glob/Matching.antt =====
-- The matcher on texts, against the segments of the pattern and of the path
-- (internal/tools/glob.go: doublestarMatch).
use code_gen_sandbox.Files.Replace.{has_prefix}
use code_gen_sandbox.Testing.Events.{split_at_byte}
use code_gen_sandbox.Testing.Rerun.{join}
use code_gen_sandbox.Testing.Rerun.Targets.{split_at_byte-append, split_at_byte-Lacks}
use code_gen_sandbox.Glob.{pop_segment, double_star, match_rounds, doublestar_match}
use code_gen_sandbox.Prelude.{
  length, All, ℕ, zero, suc, ◌+◌, ◌<◌, ◌≡◌, refl, sym, ap, subst, ◌∙◌, ◌≢◌, Bool, true, false, ◌&&◌,
  ◌||◌, none, some, List, [], ◌∷◌, ◌++◌, arith, Bytes, codes, bytes_discrete,
}
use code_gen_sandbox.Glob.Segments.{
  slash, IsSegment, first_of, rest_of, no_segments, segments_match, join-cons, join-nil, join-one,
  pop_segment-join, has_prefix-join, length-join, length-join_cons, join-double_star,
  pop_segment-segments, no_segments-join, rest_of-All, length-rest_of,
}

star-IsSegment : IsSegment (codes "*")
star-IsSegment = (((λ e. ground arith), tt), omega arith)

module _ (match_segment : Bytes → Bytes → Bool) where
  match_rounds-double_star :
      (fuel : ℕ) (path : Bytes) → match_rounds match_segment (suc fuel) double_star path ≡ true
  unfolding match_rounds bytes_discrete
  match_rounds-double_star fuel path = refl

  match_rounds-prefix :
      (fuel : ℕ) (rest path : Bytes)
      → match_rounds match_segment (suc fuel) (codes "**/" ++ rest) path ≡ (
          match_rounds match_segment fuel rest path || (elim (split_at_byte 47 path).1 [
            | none ↦ false
            | some more ↦ match_rounds match_segment fuel (codes "**/" ++ rest) more
          ]))
  unfolding match_rounds has_prefix
  match_rounds-prefix fuel rest path = ground arith

  match_rounds-segment :
      (fuel : ℕ) (pattern path : Bytes)
      → 0 < length pattern
      → pattern ≢ double_star
      → has_prefix (codes "**/") pattern ≡ false
      → match_rounds match_segment (suc fuel) pattern path ≡ (
          match_segment (pop_segment pattern).0 (pop_segment path).0
          && match_rounds match_segment fuel (pop_segment pattern).1 (pop_segment path).1)
  unfolding match_rounds
  match_rounds-segment fuel [] path l n h = absurd (omega arith)
  match_rounds-segment fuel (c ∷ cs) path l n h = ground arith

  match_rounds-empty :
      (fuel : ℕ) (qs : List Bytes)
      → All IsSegment qs
      → match_rounds match_segment (suc fuel) (join slash []) (join slash qs) ≡ no_segments qs
  unfolding match_rounds join
  match_rounds-empty fuel qs h = no_segments-join qs h

  segment_step :
      (fuel : ℕ) (p : Bytes) (ps qs : List Bytes)
      → p ≢ double_star
      → All IsSegment (p ∷ ps)
      → All IsSegment qs
      → match_rounds match_segment (suc fuel) (join slash (p ∷ ps)) (join slash qs) ≡ (
          match_segment p (first_of qs)
          && match_rounds match_segment fuel (join slash ps) (join slash (rest_of qs)))
  segment_step fuel p ps qs n hp hq =
      let l = length-join p ps in
      let p0 = hp.0.1 in
      let a =
        match_rounds-segment fuel (join slash (p ∷ ps)) (join slash qs) (omega arith)
          (join-double_star p ps hp n) (has_prefix-join p ps hp.0.0 n) in
      let b = pop_segment-join p ps hp.0.0 in
      let c = pop_segment-segments qs hq in rw (a, b, c) refl

  star_step :
      (fuel : ℕ) (p p' : Bytes) (ps : List Bytes) (path : Bytes)
      → p ≡ double_star
      → match_rounds match_segment (suc fuel) (join slash (p ∷ p' ∷ ps)) path ≡ (
          match_rounds match_segment fuel (join slash (p' ∷ ps)) path
          || (elim (split_at_byte 47 path).1 [
            | none ↦ false
            | some more ↦ match_rounds match_segment fuel (join slash (p ∷ p' ∷ ps)) more
          ]))
  star_step fuel p p' ps path e =
      let j : join slash (p ∷ p' ∷ ps) ≡ codes "**/" ++ join slash (p' ∷ ps) =
        join-cons p p' ps ∙ ap (λ x. x ++ 47 ∷ join slash (p' ∷ ps)) e in
      subst
        (λ x. match_rounds match_segment (suc fuel) x path ≡ (
          match_rounds match_segment fuel (join slash (p' ∷ ps)) path
          || (elim (split_at_byte 47 path).1 [
            | none ↦ false
            | some more ↦ match_rounds match_segment fuel x more
          ])))
        (sym j) (match_rounds-prefix fuel (join slash (p' ∷ ps)) path)

  match_rounds-join :
      (fuel : ℕ) (ps qs : List Bytes)
      → All IsSegment ps
      → All IsSegment qs
      → length (join slash ps) + length (join slash qs) < fuel
      → match_rounds match_segment fuel (join slash ps) (join slash qs)
        ≡ segments_match match_segment ps qs
  unfolding segments_match split_at_byte first_of rest_of no_segments
  match_rounds-join zero ps qs hp hq l = absurd (omega arith)
  match_rounds-join (suc fuel) [] qs hp hq l = match_rounds-empty fuel qs hq
  match_rounds-join (suc fuel) (p ∷ []) qs hp hq l =
      let one = join-one p in
      let p0 = hp.0.1 in
      let r =
        match_rounds-join fuel [] (rest_of qs) tt (rest_of-All qs hq)
          (length-rest_of fuel p qs hp hq l) in
      elim (bytes_discrete p double_star) [
        | yes e ↦ let s = match_rounds-double_star fuel (join slash qs) in ground arith
        | no n ↦ let s = segment_step fuel p [] qs n hp hq in ground arith
      ]
  match_rounds-join (suc fuel) (p ∷ p' ∷ ps) [] hp hq l =
      let len = length-join_cons p p' ps in
      let nil = join-nil in
      let r = match_rounds-join fuel (p' ∷ ps) [] hp.1 tt (omega arith) in
      elim (bytes_discrete p double_star) [
        | yes e ↦ let s = star_step fuel p p' ps (join slash []) e in ground arith
        | no n ↦ let s = segment_step fuel p (p' ∷ ps) [] n hp tt in ground arith
      ]
  match_rounds-join (suc fuel) (p ∷ p' ∷ ps) (q ∷ []) hp hq l =
      let len = length-join_cons p p' ps in
      let z = ap length join-nil in
      let q1 = hq.0.1 in
      let w = ap length (join-one q) in
      let r = match_rounds-join fuel (p' ∷ ps) (q ∷ []) hp.1 hq (omega arith) in
      let r' = match_rounds-join fuel (p' ∷ ps) [] hp.1 tt (omega arith) in
      let one = join-one q in
      let nil = join-nil in
      let q0 = hq.0.1 in
      let t = split_at_byte-Lacks 47 q hq.0.0 in
      elim (bytes_discrete p double_star) [
        | yes e ↦ let s = star_step fuel p p' ps (join slash (q ∷ [])) e in ground arith
        | no n ↦ let s = segment_step fuel p (p' ∷ ps) (q ∷ []) n hp hq in ground arith
      ]
  match_rounds-join (suc fuel) (p ∷ p' ∷ ps) (q ∷ q' ∷ qs) hp hq l =
      let len = length-join_cons p p' ps in
      let len' = length-join_cons q q' qs in
      let r = match_rounds-join fuel (p' ∷ ps) (q ∷ q' ∷ qs) hp.1 hq (omega arith) in
      let u = match_rounds-join fuel (p ∷ p' ∷ ps) (q' ∷ qs) hp hq.1 (omega arith) in
      let r' = match_rounds-join fuel (p' ∷ ps) (q' ∷ qs) hp.1 hq.1 (omega arith) in
      let j = join-cons q q' qs in
      let t = split_at_byte-append 47 q (join slash (q' ∷ qs)) hq.0.0 in
      elim (bytes_discrete p double_star) [
        | yes e ↦ let s = star_step fuel p p' ps (join slash (q ∷ q' ∷ qs)) e in ground arith
        | no n ↦ let s = segment_step fuel p (p' ∷ ps) (q ∷ q' ∷ qs) n hp hq in ground arith
      ]

  -- For a pattern and a path of segments that are not empty and have no slash, the matcher decides
  -- whether the pattern's segments match the path's, with the bytes of both as enough rounds.
  pub doublestar_match-join :
      (ps qs : List Bytes)
      → All IsSegment ps
      → All IsSegment qs
      → doublestar_match match_segment (join slash ps) (join slash qs)
        ≡ segments_match match_segment ps qs
  unfolding doublestar_match
  doublestar_match-join ps qs hp hq =
      match_rounds-join (suc (length (join slash ps) + length (join slash qs))) ps qs hp hq
        (omega arith)

  -- A pattern that ends in a star segment matches a path that has one segment less, where the other
  -- segments match and the star matches the empty text: "a/*" matches the file "a".
  pub segments_match-short :
      (p q : Bytes)
      → IsSegment p
      → IsSegment q
      → p ≢ double_star
      → match_segment p q ≡ true
      → match_segment (codes "*") [] ≡ true
      → doublestar_match match_segment (join slash (p ∷ codes "*" ∷ [])) (join slash (q ∷ []))
        ≡ true
  unfolding segments_match no_segments first_of rest_of
  segments_match-short p q hp hq n m star =
      let d =
        doublestar_match-join (p ∷ codes "*" ∷ []) (q ∷ []) (hp, (star-IsSegment, tt)) (hq, tt) in
      let x : codes "*" ≢ double_star = λ e. ground arith in ground arith
