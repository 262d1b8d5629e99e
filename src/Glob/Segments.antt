-- ===== src/Glob/Segments.antt =====
-- Patterns and paths as segments (internal/tools/glob.go: doublestarMatch, popSegment).
use code_gen_sandbox.Files.Replace.{has_prefix}
use code_gen_sandbox.Testing.Events.{split_at_byte}
use code_gen_sandbox.Testing.Rerun.{join}
use code_gen_sandbox.Testing.Rerun.Targets.{split_at_byte-append, split_at_byte-Lacks}
use code_gen_sandbox.Glob.{pop_segment, is_empty, double_star}
use code_gen_sandbox.Prelude.{
  length, length-append, All, ℕ, suc, ◌+◌, ◌≤◌, ◌<◌, ◌≡◌, refl, ap, ◌≢◌, ite, Bool, true, false,
  ◌&&◌, ◌||◌, List, [], ◌∷◌, append_assoc, ◌++◌, arith, ℕ_discrete, Bytes, codes, bytes_discrete,
  Lacks,
}

abbrev pub slash : Bytes
slash = 47 ∷ []

-- A segment of a clean path or pattern.
abbrev pub IsSegment : Bytes → Type 0
IsSegment p = Lacks 47 p × (0 < length p)

-- The first segment of a path that is left, empty where none is.
unfoldable pub first_of : List Bytes → Bytes
first_of [] = []
first_of (q ∷ qs) = q

unfoldable pub rest_of : List Bytes → List Bytes
rest_of [] = []
rest_of (q ∷ qs) = qs

unfoldable pub no_segments : List Bytes → Bool
no_segments [] = true
no_segments (q ∷ qs) = false

module _ (match_segment : Bytes → Bytes → Bool) where
  -- A double star at the end matches every path; in front of other segments, these match the path
  -- behind none or some of its segments, but not behind the last one. Any other segment matches the
  -- first segment of the path, or the empty text where the path has none left.
  unfoldable pub segments_match : List Bytes → List Bytes → Bool
  segments_match [] qs = no_segments qs
  segments_match (p ∷ []) qs =
      ite (bytes_discrete p double_star) true
        (match_segment p (first_of qs) && no_segments (rest_of qs))
  segments_match (p ∷ p' ∷ ps) [] =
      ite (bytes_discrete p double_star) (segments_match (p' ∷ ps) [])
        (match_segment p [] && segments_match (p' ∷ ps) [])
  segments_match (p ∷ p' ∷ ps) (q ∷ []) =
      ite (bytes_discrete p double_star) (segments_match (p' ∷ ps) (q ∷ []))
        (match_segment p q && segments_match (p' ∷ ps) [])
  segments_match (p ∷ p' ∷ ps) (q ∷ q' ∷ qs) =
      ite (bytes_discrete p double_star)
        (segments_match (p' ∷ ps) (q ∷ q' ∷ qs) || segments_match (p ∷ p' ∷ ps) (q' ∷ qs))
        (match_segment p q && segments_match (p' ∷ ps) (q' ∷ qs))

pub join-cons :
    (p q : Bytes) (ps : List Bytes) → join slash (p ∷ q ∷ ps) ≡ p ++ 47 ∷ join slash (q ∷ ps)
unfolding join
join-cons p q ps = append_assoc p slash (join slash (q ∷ ps))

pub join-nil : join slash [] ≡ []
unfolding join
join-nil = refl

pub join-one : (q : Bytes) → join slash (q ∷ []) ≡ q
unfolding join
join-one q = refl

pub pop_segment-join :
    (p : Bytes) (ps : List Bytes)
    → Lacks 47 p
    → pop_segment (join slash (p ∷ ps)) ≡ (p, join slash ps)
unfolding pop_segment join
pop_segment-join p [] h = let a = split_at_byte-Lacks 47 p h in ground arith
pop_segment-join p (q ∷ ps) h =
    let a = split_at_byte-append 47 p (join slash (q ∷ ps)) h in
    let e = join-cons p q ps in rw e (ground arith)

-- A segment other than the double star does not start the pattern as one.
pub has_prefix-join :
    (p : Bytes) (ps : List Bytes)
    → Lacks 47 p
    → p ≢ double_star
    → has_prefix (codes "**/") (join slash (p ∷ ps)) ≡ false
unfolding has_prefix join
has_prefix-join [] [] h n = refl
has_prefix-join [] (q ∷ ps) h n = refl
has_prefix-join (a ∷ []) [] h n = ground arith
has_prefix-join (a ∷ []) (q ∷ ps) h n = ground arith
has_prefix-join (a ∷ b ∷ []) [] h n = ground arith
has_prefix-join (a ∷ b ∷ []) (q ∷ ps) h n = elim (ℕ_discrete a 42) [
  | no d ↦ ground arith
  | yes d ↦ elim (ℕ_discrete b 42) [ no e ↦ ground arith | yes e ↦ absurd (n (ground arith)) ]
]
has_prefix-join (a ∷ b ∷ c ∷ s) [] h n = let d = h.1.1.0 in ground arith
has_prefix-join (a ∷ b ∷ c ∷ s) (q ∷ ps) h n = let d = h.1.1.0 in ground arith

pub length-join : (p : Bytes) (ps : List Bytes) → length p ≤ length (join slash (p ∷ ps))
unfolding join
length-join p [] = omega arith
length-join p (q ∷ ps) =
    let e = join-cons p q ps in rw e (omega (arith, length-append p (47 ∷ join slash (q ∷ ps))))

pub is_empty-lt : (s : Bytes) → 0 < length s → is_empty s ≡ false
unfolding is_empty
is_empty-lt [] h = absurd (omega arith)
is_empty-lt (c ∷ s) h = refl

pub pop_segment-segments :
    (qs : List Bytes)
    → All IsSegment qs
    → pop_segment (join slash qs) ≡ (first_of qs, join slash (rest_of qs))
unfolding pop_segment join split_at_byte first_of rest_of
pop_segment-segments [] h = refl
pop_segment-segments (q ∷ qs) h = pop_segment-join q qs h.0.0

pub no_segments-join :
    (qs : List Bytes) → All IsSegment qs → is_empty (join slash qs) ≡ no_segments qs
unfolding is_empty join no_segments
no_segments-join [] h = refl
no_segments-join (q ∷ qs) h =
    let a = length-join q qs in let b = h.0.1 in is_empty-lt (join slash (q ∷ qs)) (omega arith)

pub length-join_cons :
    (p q : Bytes) (ps : List Bytes)
    → length (join slash (p ∷ q ∷ ps)) ≡ length p + 1 + length (join slash (q ∷ ps))
length-join_cons p q ps =
    let e = join-cons p q ps in rw e (omega (arith, length-append p (47 ∷ join slash (q ∷ ps))))

-- Only the double star alone joins to the double star.
pub join-double_star :
    (p : Bytes) (ps : List Bytes)
    → All IsSegment (p ∷ ps)
    → p ≢ double_star
    → join slash (p ∷ ps) ≢ double_star
unfolding join
join-double_star p [] h n e = n e
join-double_star p (q ∷ ps) h n e =
    let a = length-join_cons p q ps in
    let b = length-join q ps in
    let k = ap length e in let p0 = h.0.1 in let q0 = h.1.0.1 in absurd (omega arith)

pub rest_of-All : (qs : List Bytes) → All IsSegment qs → All IsSegment (rest_of qs)
unfolding rest_of
rest_of-All [] h = tt
rest_of-All (q ∷ qs) h = h.1

pub length-rest_of :
    (fuel : ℕ) (p : Bytes) (qs : List Bytes)
    → All IsSegment (p ∷ [])
    → All IsSegment qs
    → length (join slash (p ∷ [])) + length (join slash qs) < suc fuel
    → length (join slash []) + length (join slash (rest_of qs)) < fuel
unfolding join rest_of
length-rest_of fuel p [] hp hq l = let a = hp.0.1 in omega arith
length-rest_of fuel p (q ∷ []) hp hq l = let a = hp.0.1 in omega arith
length-rest_of fuel p (q ∷ q' ∷ qs) hp hq l =
    let a = hp.0.1 in let b = length-join_cons q q' qs in omega arith
