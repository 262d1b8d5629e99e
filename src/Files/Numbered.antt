-- ===== src/Files/Numbered.antt =====
-- `parseReadArgs` and the loop of `readNumbered` in internal/tools/read.go. The scanner hands over
-- lines of the file, or an error that the loop sees; a printed line is the pair of its number and its text.
use code_gen_sandbox.Prelude.{
  ltb, leb, ◌==◌, if◌then◌else◌, lt→ltb, length, take, drop, length-drop, drop_of_length-le, ℤ, pos,
  ℕ, zero, suc, ◌+◌, ◌-◌, ◌≤◌, ◌<◌, min, ◌≡◌, refl, sym, ap, ◌∙◌, true, false, ◌&&◌, Option, none,
  some, List, [], ◌∷◌, append_assoc, append-nil, ◌++◌, arith, dec_lt, Bytes,
}

abbrev default_read_limit : ℕ
default_read_limit = 2000

-- The integers that the optional arguments convert to.
unfoldable pub parse_offset : Option ℤ → ℕ
parse_offset (some (pos n)) = if ltb 1 n then n else 1
parse_offset _ = 1

unfoldable pub parse_limit : Option ℤ → ℕ
parse_limit (some (pos n)) = if ltb 0 n then n else default_read_limit
parse_limit _ = default_read_limit

pub record Progress : Type 0 where
  pub line_no : ℕ
  pub written : ℕ
  pub out : List (ℕ × Bytes)

-- The scan loop: lines before the offset are passed over, and the limit ends it.
unfoldable pub scan : ℕ → ℕ → List Bytes → Progress → Progress
scan offset limit [] p = p
scan offset limit (text ∷ lines) p =
    let n = p.line_no + 1 in
    let skip = scan offset limit lines (record p { line_no = n }) in
    let print =
      scan offset limit lines
        (record { line_no = n; written = p.written + 1; out = p.out ++ (n, text) ∷ [] }) in
    if ltb n offset then skip else if leb limit p.written then record p { line_no = n } else print

pub data ReadError : Type 0 where
  scanner_failed : ReadError
  offset_exceeds : ℕ → ℕ → ReadError

pub data Result {ℓ} (A : Type ℓ) : Type ℓ where
  ok : A → Result A
  err : ReadError → Result A

-- `none` where the scanner reports an error behind the loop.
unfoldable pub read_numbered : Option (List Bytes) → ℕ → ℕ → Result (List (ℕ × Bytes))
read_numbered none offset limit = err scanner_failed
read_numbered (some lines) offset limit =
    let p = scan offset limit lines (record { line_no = 0; written = 0; out = [] }) in
    if p.written == 0 && (ltb 0 p.line_no && ltb p.line_no offset)
    then err (offset_exceeds offset p.line_no)
    else ok p.out

-- Lines with their numbers, from `n`.
pub numbered : ℕ → List Bytes → List (ℕ × Bytes)
numbered n [] = []
numbered n (text ∷ lines) = (n, text) ∷ numbered (suc n) lines

take-nil {ℓ} : {A : Type ℓ} (n : ℕ) → take {A = A} n [] ≡ []
take-nil zero = refl
take-nil (suc n) = refl

abbrev Printed : ℕ → List Bytes → Progress → Progress → Type 0
Printed limit lines p q =
    (q.out ≡ p.out ++ take (limit - p.written) (numbered (p.line_no + 1) lines))
    × (q.written ≡ p.written + min (limit - p.written) (length lines))

-- From the offset on, the loop prints lines up to the limit.
scan_print :
    (offset limit : ℕ) (lines : List Bytes) (p : Progress)
    → offset ≤ p.line_no + 1
    → p.written ≤ limit
    → Printed limit lines p (scan offset limit lines p)
unfolding scan numbered
scan_print offset limit [] p o w =
    (sym (ap (λ l. p.out ++ l) (take-nil (limit - p.written)) ∙ append-nil p.out), omega arith)
scan_print offset limit (text ∷ lines) p o w =
    let n = p.line_no + 1 in
    let on : ltb n offset ≡ false = ground arith in
    elim (dec_lt p.written limit) [
      | yes more ↦
          let p' : Progress = record {
            line_no = n;
            written = p.written + 1;
            out = p.out ++ (n, text) ∷ [];
          } in
          let room : leb limit p.written ≡ false = ground arith in
          let (printed, counted) = scan_print offset limit lines p' (omega arith) (omega arith) in
          let next : n + 1 ≡ suc n = omega arith in
          let one : limit - p.written ≡ suc (limit - (p.written + 1)) = omega arith in
          (
            rw (on, room, one) ((rw next at printed) ∙ append_assoc p.out ((n, text) ∷ []) _),
            rw (on, room) (omega (arith, counted)),
          )
      | no full ↦
          let stop : leb limit p.written ≡ true = ground arith in
          let none_left : limit - p.written ≡ 0 = omega arith in
          (rw (on, stop, none_left) (sym (append-nil p.out)), rw (on, stop) (omega arith))
    ]

-- Before the offset the loop passes lines over.
scan_skip :
    (offset limit k : ℕ) (lines : List Bytes) (p : Progress)
    → p.line_no + k < offset
    → k ≤ length lines
    → scan offset limit lines p
      ≡ scan offset limit (drop k lines) (record p { line_no = p.line_no + k })
unfolding scan
scan_skip offset limit zero lines p h l =
    ap (λ n. scan offset limit lines (record p { line_no = n })) (omega arith)
scan_skip offset limit (suc k) [] p h l = absurd (omega arith)
scan_skip offset limit (suc k) (text ∷ lines) p h l =
    let before : ltb (p.line_no + 1) offset ≡ true = lt→ltb _ _ (omega arith) in
    rw before (
      scan_skip offset limit k lines (record p { line_no = p.line_no + 1 }) (omega arith)
        (omega arith)
      ∙ ap (λ n. scan offset limit (drop k lines) (record p { line_no = n })) (omega arith))

numbered-drop :
    (k n : ℕ) (lines : List Bytes) → drop k (numbered n lines) ≡ numbered (n + k) (drop k lines)
unfolding numbered
numbered-drop zero n lines = ap (λ m. numbered m lines) (omega arith)
numbered-drop (suc k) n [] = refl
numbered-drop (suc k) n (text ∷ lines) =
    numbered-drop k (suc n) lines ∙ ap (λ m. numbered m (drop k lines)) (omega arith)

length-numbered : (n : ℕ) (lines : List Bytes) → length (numbered n lines) ≡ length lines
unfolding numbered
length-numbered n [] = refl
length-numbered n (text ∷ lines) = ap suc (length-numbered (suc n) lines)

abbrev begin : Progress
begin = record { line_no = 0; written = 0; out = [] }

module _ (lines : List Bytes) (offset limit : ℕ) (o : 0 < offset) (l : 0 < limit) where
  -- The offset is on a line.
  read_inside :
      offset ≤ length lines
      → read_numbered (some lines) offset limit
        ≡ ok (take limit (drop (offset - 1) (numbered 1 lines)))
  unfolding read_numbered
  read_inside h =
      let k = offset - 1 in
      let skipped = scan_skip offset limit k lines begin (omega arith) (omega arith) in
      let at : Progress = record begin { line_no = 0 + k } in
      let (printed, counted) =
        scan_print offset limit (drop k lines) at (omega arith) (omega arith) in
      let q = scan offset limit (drop k lines) at in
      let some_lines : q.written == 0 ≡ false = ground (arith, counted, length-drop k lines) in
      let whole : limit - 0 ≡ limit = omega arith in
      let first : 0 + k + 1 ≡ 1 + k = omega arith in
      rw (skipped, some_lines)
        (ap ok (printed ∙ rw (whole, first) (ap (take limit) (sym (numbered-drop k 1 lines)))))

  -- The offset is behind the last line.
  read_behind :
      length lines < offset
      → read_numbered (some lines) offset limit ≡ (
          if ltb 0 (length lines) && ltb (length lines) offset
          then err (offset_exceeds offset (length lines))
          else ok (take limit (drop (offset - 1) (numbered 1 lines))))
  unfolding read_numbered scan
  read_behind h =
      let n = length lines in
      let skipped = scan_skip offset limit n lines begin (omega arith) (omega arith) in
      let nothing = drop_of_length-le n lines (omega arith) in
      let zero_add : 0 + n ≡ n = omega arith in
      let empty : drop (offset - 1) (numbered 1 lines) ≡ [] =
        drop_of_length-le (offset - 1) (numbered 1 lines)
          (omega (arith, length-numbered 1 lines)) in
      rw (skipped, nothing, zero_add, empty, take-nil {A = ℕ × Bytes} limit) refl

-- For an offset and a limit above 0, on the lines of a scanner that reports no error: Read
-- prints the lines from the offset on, at most the limit, each with its own number; an offset
-- behind the last line is reported instead, but not for an empty file.
pub read_numbered_lem :
    (lines : List Bytes) (offset limit : ℕ)
    → 0 < offset
    → 0 < limit
    → read_numbered (some lines) offset limit ≡ (
        if ltb 0 (length lines) && ltb (length lines) offset
        then err (offset_exceeds offset (length lines))
        else ok (take limit (drop (offset - 1) (numbered 1 lines))))
read_numbered_lem lines offset limit o l = elim (dec_lt (length lines) offset) [
  | yes p ↦ read_behind lines offset limit o l p
  | no p ↦
      let inside : ltb 0 (length lines) && ltb (length lines) offset ≡ false = ground arith in
      rw inside (read_inside lines offset limit o l (omega arith))
]
