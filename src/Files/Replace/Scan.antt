-- ===== src/Files/Replace/Scan.antt =====
-- The scan for a text: its pieces, and where it may match (internal/tools/edit.go).
use mathlib.Core.Bool.{true≢false}
use code_gen_sandbox.Prelude.{
  Bool-cases, length, drop, drop_of_length-le, drop-drop, ℕ, zero, suc, ◌+◌, ◌-◌, ◌≤◌, ◌<◌, ◌≡◌,
  refl, sym, ap, ◌∙◌, inl, inr, true, false, List, [], ◌∷◌, append-nil, ◌++◌, arith, dec_lt, Bytes,
}
use code_gen_sandbox.Files.Replace.{pieces, separated, has_prefix}

has_prefix-eq : (old s : Bytes) → has_prefix old s ≡ true → s ≡ old ++ drop (length old) s
unfolding has_prefix
has_prefix-eq [] s h = refl
has_prefix-eq (c ∷ old) [] h = cc
has_prefix-eq (c ∷ old) (d ∷ s) h = ground (arith, has_prefix-eq old s)

-- Past the rest of a match the scan goes on as from its end.
pieces-skip : (old : Bytes) (k : ℕ) (s : Bytes) → pieces old k s ≡ pieces old 0 (drop k s)
unfolding pieces
pieces-skip old zero [] = refl
pieces-skip old zero (c ∷ s) = refl
pieces-skip old (suc k) [] = refl
pieces-skip old (suc k) (c ∷ s) = pieces-skip old k s

-- The pieces with the matches between them are the text.
pub rejoin :
    (c : ℕ) (old : Bytes) (k : ℕ) (s : Bytes)
    → let (p, ps) = pieces (c ∷ old) k s in p ++ separated (c ∷ old) ps ≡ drop k s
unfolding pieces separated
rejoin c old zero [] = refl
rejoin c old (suc k) [] = refl
rejoin c old (suc k) (d ∷ s) = rejoin c old k s
rejoin c old zero (d ∷ s) = elim (Bool-cases (has_prefix (c ∷ old) (d ∷ s))) [
  | inl hit ↦
      let e : suc (length old) - 1 ≡ length old = omega arith in
      rw (hit, rejoin c old (suc (length old) - 1) s, e) (sym (has_prefix-eq (c ∷ old) (d ∷ s) hit))
  | inr miss ↦ rw miss (ap (◌∷◌ d) (rejoin c old 0 s))
]

not_lt_zero : {i : ℕ} → i < 0 → ⊥
not_lt_zero h = omega arith

suc-lt : {i n : ℕ} → suc i < suc n → i < n
suc-lt h = omega arith

-- Before the end of the first piece no position matches.
before_first :
    (c : ℕ) (old s : Bytes) (i : ℕ)
    → i < length (pieces (c ∷ old) 0 s).0
    → has_prefix (c ∷ old) (drop i s) ≡ false
unfolding pieces
before_first c old [] i h = absurd (omega arith)
before_first c old (d ∷ s) zero h = elim (Bool-cases (has_prefix (c ∷ old) (d ∷ s))) [
  | inl hit ↦ absurd (not_lt_zero (rw hit at h))
  | inr miss ↦ miss
]
before_first c old (d ∷ s) (suc i) h = elim (Bool-cases (has_prefix (c ∷ old) (d ∷ s))) [
  | inl hit ↦ absurd (not_lt_zero (rw hit at h))
  | inr miss ↦ before_first c old s i (suc-lt (rw miss at h))
]

pair_of_cons :
    {x : Bytes × List Bytes} {q : Bytes} {qs : List Bytes} → x.0 ∷ x.1 ≡ q ∷ qs → x ≡ (q, qs)
pair_of_cons {x} h = ground arith

-- Behind the first match the scan goes on with the other pieces.
after_first :
    (c : ℕ) (old s q : Bytes) (qs : List Bytes)
    → (pieces (c ∷ old) 0 s).1 ≡ q ∷ qs
    → pieces (c ∷ old) 0 (drop (length (pieces (c ∷ old) 0 s).0 + suc (length old)) s) ≡ (q, qs)
unfolding pieces
after_first c old [] q qs h = cc
after_first c old (d ∷ s) q qs h = elim (Bool-cases (has_prefix (c ∷ old) (d ∷ s))) [
  | inl hit ↦
      let e : 0 + suc (length old) ≡ suc (length old) = omega arith in
      let e' : suc (length old) - 1 ≡ length old = omega arith in
      let cut = pair_of_cons (rw hit at h) in
      rw (hit, e) (sym (pieces-skip (c ∷ old) (length old) s) ∙ (rw e' at cut))
  | inr miss ↦
      let n = length (pieces (c ∷ old) 0 s).0 in
      let e : suc n + suc (length old) ≡ suc (n + suc (length old)) = omega arith in
      rw (miss, e) (after_first c old s q qs (rw miss at h))
]

not_at_end :
    (c : ℕ) (old : Bytes) (k : ℕ) (s : Bytes)
    → length s ≤ k
    → has_prefix (c ∷ old) (drop k s) ≡ false
unfolding has_prefix
not_at_end c old k s h = rw (drop_of_length-le k s h) refl

-- A text that is one piece has no match.
no_match :
    (c : ℕ) (old s : Bytes) (k : ℕ)
    → (pieces (c ∷ old) 0 s).1 ≡ []
    → has_prefix (c ∷ old) (drop k s) ≡ false
unfolding separated
no_match c old s k h =
    let whole = rejoin c old 0 s in
    let one : (pieces (c ∷ old) 0 s).0 ≡ s =
      sym (append-nil (pieces (c ∷ old) 0 s).0) ∙ (rw h at whole) in
    elim (dec_lt k (length s)) [
      | yes p ↦ before_first c old s k (omega (arith, ap length one))
      | no p ↦ not_at_end c old k s (omega arith)
    ]

-- Around a single match: the position of every match overlaps it.
module _ (c : ℕ) (old body pre post : Bytes) (e : pieces (c ∷ old) 0 body ≡ (pre, post ∷ [])) where
  pub around : body ≡ pre ++ ((c ∷ old) ++ post)
  unfolding separated
  around = let whole = rejoin c old 0 body in sym (rw (e, append-nil post) at whole)

  pub not_before : (i : ℕ) → has_prefix (c ∷ old) (drop i body) ≡ true → length pre ≤ i
  not_before i m = elim (dec_lt i (length pre)) [
    | yes p ↦ absurd (
        true≢false (sym m ∙ before_first c old body i (omega (arith, ap length (ap (λ x. x.0) e)))))
    | no p ↦ omega arith
  ]

  behind : (pieces (c ∷ old) 0 (drop (length pre + suc (length old)) body)).1 ≡ []
  behind =
      let rest = after_first c old body post [] (ap (λ x. x.1) e) in ap (λ x. x.1) (rw e at rest)

  pub not_behind :
      (i : ℕ) → has_prefix (c ∷ old) (drop i body) ≡ true → i < length pre + suc (length old)
  not_behind i m = elim (dec_lt i (length pre + suc (length old))) [
    | yes p ↦ p
    | no p ↦
        let n = length pre + suc (length old) in
        let split : n + (i - n) ≡ i = omega arith in
        let at_i = drop-drop (i - n) n body ∙ ap (λ k. drop k body) split in
        let miss = no_match c old (drop n body) (i - n) behind in
        absurd (true≢false (sym m ∙ (rw at_i at miss)))
  ]
