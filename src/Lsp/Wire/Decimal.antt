-- ===== src/Lsp/Wire/Decimal.antt =====
-- Decimal numbers printed and read back (`%d` and `strconv.Atoi` in internal/lsp/wire.go).
use code_gen_sandbox.Lsp.Wire.{
  max_int, scan_digits, parse_digits, atoi_natural, format_digits, format_decimal,
}
use code_gen_sandbox.Prelude.{
  ltb, Bool-cases, length, length-append, All, All-append, ℕ, zero, suc, ◌+◌, ◌-◌, ◌*◌, ◌/◌, ◌%◌,
  ◌≤◌, ◌<◌, ◌≡◌, refl, ap, ◌∙◌, inl, inr, ◌||◌, some, [], ◌∷◌, ◌++◌, arith, Bytes,
}

abbrev pub IsDigits : Bytes → Type 0
IsDigits = All (λ c. (48 ≤ c) × (c ≤ 57))

scan_digits-append :
    (s : Bytes) (n m d : ℕ)
    → scan_digits s n ≡ some m
    → d ≤ 9
    → m * 10 + d ≤ max_int
    → scan_digits (s ++ (48 + d) ∷ []) n ≡ some (m * 10 + d)
unfolding scan_digits
scan_digits-append [] n m d h le bound =
    let e : 48 + d - 48 ≡ d = omega arith in rw e (ground arith)
scan_digits-append (c ∷ s) n m d h le bound = elim (Bool-cases (ltb c 48 || ltb 57 c)) [
  | inl e ↦ rw e (ground arith)
  | inr e ↦ elim (Bool-cases (ltb max_int (n * 10 + (c - 48)))) [
    | inl g ↦ ground arith
    | inr g ↦
        let r = scan_digits-append s (n * 10 + (c - 48)) m d (ground arith) le bound in ground arith
  ]
]

pub format_digits-IsDigits : (fuel n : ℕ) → n ≤ fuel → IsDigits (format_digits fuel n)
unfolding format_digits
format_digits-IsDigits zero n h = ((omega arith, omega arith), tt)
format_digits-IsDigits (suc fuel) n h = elim (Bool-cases (ltb n 10)) [
  | inl e ↦ rw e ((omega arith, ground arith), tt)
  | inr e ↦ rw e (
      All-append (λ c. (48 ≤ c) × (c ≤ 57)) (format_digits fuel (n / 10)) ((48 + n % 10) ∷ [])
        (format_digits-IsDigits fuel (n / 10) (omega arith)) ((omega arith, omega arith), tt))
]

scan_digits-format_digits :
    (fuel n : ℕ) → n ≤ fuel → n ≤ max_int → scan_digits (format_digits fuel n) 0 ≡ some n
unfolding scan_digits format_digits
scan_digits-format_digits zero n h b = let e : n ≡ 0 = omega arith in rw e refl
scan_digits-format_digits (suc fuel) n h b = elim (Bool-cases (ltb n 10)) [
  | inl e ↦ let m : 48 + n - 48 ≡ n = omega arith in rw (e, m) (ground arith)
  | inr e ↦
      let le : n / 10 ≤ fuel = ground arith in
      let r = scan_digits-format_digits fuel (n / 10) le (omega arith) in
      let d : n / 10 * 10 + n % 10 ≡ n = omega arith in
      let a =
        scan_digits-append (format_digits fuel (n / 10)) 0 (n / 10) (n % 10) r (omega arith)
          (omega arith) in
      rw e (a ∙ ap some d)
]

-- A text of digits has no sign, so that it is read as it stands.
atoi_natural-digits :
    (s : Bytes) (n : ℕ)
    → IsDigits s
    → 0 < length s
    → scan_digits s 0 ≡ some n
    → atoi_natural s ≡ some n
unfolding atoi_natural parse_digits
atoi_natural-digits [] n h p e = absurd (omega arith)
atoi_natural-digits (c ∷ s) n h p e = let a = h.0.0 in ground arith

length-format_digits : (fuel n : ℕ) → 0 < length (format_digits fuel n)
unfolding format_digits
length-format_digits zero n = omega arith
length-format_digits (suc fuel) n =
    let rest = format_digits fuel (n / 10) in
    let a = length-append rest ((48 + n % 10) ∷ []) in ground arith

-- A number is read back from its digits, where it is one of `int`.
pub atoi_natural-format_decimal : (n : ℕ) → n ≤ max_int → atoi_natural (format_decimal n) ≡ some n
unfolding format_decimal
atoi_natural-format_decimal n h =
    atoi_natural-digits (format_digits n n) n (format_digits-IsDigits n n (omega arith))
      (length-format_digits n n) (scan_digits-format_digits n n (omega arith) h)
