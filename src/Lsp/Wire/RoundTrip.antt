-- ===== src/Lsp/Wire/RoundTrip.antt =====
-- Frames that are written and read back (internal/lsp/wire.go, and the loop of
-- readLoop in internal/lsp/client.go).
use code_gen_sandbox.Testing.Events.{split_at_byte}
use code_gen_sandbox.Testing.Rerun.Targets.{split_at_byte-append}
use code_gen_sandbox.Files.Replace.{has_prefix}
use code_gen_sandbox.Lsp.Wire.Decimal.{
  IsDigits, format_digits-IsDigits, atoi_natural-format_decimal,
}
use code_gen_sandbox.Lsp.Wire.{
  read_header, ok, format_digits, max_int, max_alloc, trim_right_newlines,
  parse_content_length_line, header_length, read_content_length, read_sized, read_message,
  read_frames, read_all, format_decimal, write_message,
}
use code_gen_sandbox.Prelude.{
  ltb, length, length-append, take_of_length-le, drop_of_length-le, take-append_left,
  drop-append_left, All, All-append, ℕ, zero, suc, ◌-◌, ◌≤◌, ◌<◌, ◌≡◌, refl, subst, Bool, true,
  ◌&&◌, Option, none, some, List, [], ◌∷◌, append_assoc, append-nil, ◌++◌, map, flatten, arith,
  Bytes, codes, Lacks,
}

-- The bytes of a header line that is not broken.
abbrev IsText : Bytes → Type 0
IsText = All (λ c. 13 < c)

Lacks-newline : (s : Bytes) → IsText s → Lacks 10 (s ++ 13 ∷ [])
Lacks-newline [] h = ((λ e. omega arith), tt)
Lacks-newline (c ∷ s) h = ((λ e. omega (arith, h.0)), Lacks-newline s h.1)

trim_right_newlines-append : (s : Bytes) → IsText s → trim_right_newlines (s ++ 13 ∷ []) ≡ s
unfolding trim_right_newlines
trim_right_newlines-append [] h = refl
trim_right_newlines-append (c ∷ []) h = let a = h.0 in ground arith
trim_right_newlines-append (c ∷ d ∷ ds) h =
    let e = trim_right_newlines-append (d ∷ ds) h.1 in ground arith

IsText-digits : (s : Bytes) → IsDigits s → IsText s
IsText-digits [] h = tt
IsText-digits (c ∷ s) h = (omega (arith, h.0.0), IsText-digits s h.1)

-- A literal is checked by evaluation.
is_text : Bytes → Bool
is_text [] = true
is_text (c ∷ s) = ltb 13 c && is_text s

is_text-IsText : (s : Bytes) → is_text s ≡ true → IsText s
unfolding is_text
is_text-IsText [] h = tt
is_text-IsText (c ∷ s) h = (ground arith, is_text-IsText s (ground arith))

IsText-header : (n : ℕ) → IsText (codes "Content-Length: " ++ format_decimal n)
unfolding format_decimal is_text
IsText-header n =
    All-append (λ c. 13 < c) (codes "Content-Length: ") (format_digits n n)
      (is_text-IsText (codes "Content-Length: ") refl)
      (IsText-digits (format_digits n n) (format_digits-IsDigits n n (omega arith)))

length-write_message : (body rest : Bytes) → 0 < length (write_message body ++ rest)
unfolding write_message
length-write_message body rest = omega arith

module _ (trim_space : Bytes → Bytes) where
  read_content_length-line :
      (fuel : ℕ) (line rest : Bytes) (len : Option ℕ)
      → IsText line
      → 0 < length line
      → read_content_length trim_space (suc fuel) (line ++ 13 ∷ 10 ∷ rest) len
        ≡ read_content_length trim_space fuel rest (header_length trim_space line len)
  unfolding read_content_length
  read_content_length-line fuel [] rest len t p = absurd (omega arith)
  read_content_length-line fuel (c ∷ cs) rest len t p =
      let a = split_at_byte-append 10 ((c ∷ cs) ++ 13 ∷ []) rest (Lacks-newline (c ∷ cs) t) in
      let b = append_assoc (c ∷ cs) (13 ∷ []) (10 ∷ rest) in
      let d = trim_right_newlines-append (c ∷ cs) t in ground arith

  read_content_length-blank :
      (fuel : ℕ) (rest : Bytes) (n : ℕ)
      → read_content_length trim_space (suc fuel) (13 ∷ 10 ∷ rest) (some n) ≡ ok (n, rest)
  unfolding read_content_length trim_right_newlines split_at_byte
  read_content_length-blank fuel rest n = refl

  read_frames-empty : (fuel : ℕ) → read_frames trim_space (suc fuel) [] ≡ ([], read_header)
  unfolding read_frames read_message read_content_length split_at_byte
  read_frames-empty fuel = refl

  module _ (trims : (n : ℕ) → trim_space (32 ∷ format_decimal n) ≡ format_decimal n) where
    header_length-written :
        (n : ℕ)
        → n ≤ max_int
        → header_length trim_space (codes "Content-Length: " ++ format_decimal n) none ≡ some n
    unfolding header_length parse_content_length_line has_prefix
    header_length-written n h =
        let a = atoi_natural-format_decimal n h in let t = trims n in ground arith

    read_content_length-written :
        (fuel : ℕ) (body rest : Bytes)
        → length body ≤ max_int
        → read_content_length trim_space (suc (suc fuel)) (write_message body ++ rest) none
          ≡ ok (length body, body ++ rest)
    unfolding write_message
    read_content_length-written fuel body rest h =
        let n = length body in
        let line = codes "Content-Length: " ++ format_decimal n in
        let t : IsText line = IsText-header n in
        let a =
          read_content_length-line (suc fuel) line (13 ∷ 10 ∷ body ++ rest) none t (omega arith) in
        let b = read_content_length-blank fuel (body ++ rest) n in
        let e = header_length-written n h in
        let assoc = append_assoc (format_decimal n) (13 ∷ 10 ∷ 13 ∷ 10 ∷ body) rest in cc

    read_sized-append :
        (body rest : Bytes)
        → length body ≤ max_alloc
        → read_sized trim_space (length body) (body ++ rest) ≡ ok (body, rest)
    unfolding read_sized
    read_sized-append body rest h =
        let t = take-append_left (length body) body rest (omega arith) in
        let u = take_of_length-le (length body) body (omega arith) in
        let d = drop-append_left (length body) body rest (omega arith) in
        let n = drop_of_length-le (length body) body (omega arith) in
        let l = length-append body rest in ground arith

    -- What is written for a body is read as the body, and the rest is left, where the trimming drops
    -- the space in front of a decimal number and the body is not longer than what Go can allocate.
    pub read_message-write :
        (body rest : Bytes)
        → length body ≤ max_alloc
        → read_message trim_space (write_message body ++ rest) ≡ ok (body, rest)
    unfolding read_message
    read_message-write body rest h =
        let br = write_message body ++ rest in
        let a = read_content_length-written (length br - 1) body rest (omega arith) in
        let p : 0 < length br = length-write_message body rest in
        let e : suc (suc (length br - 1)) ≡ suc (length br) = omega arith in
        let b =
          subst (λ k. read_content_length trim_space k br none ≡ ok (length body, body ++ rest)) e
            a in
        rw (read_message, b) (read_sized-append body rest h)

    read_frames-write :
        (fuel : ℕ) (bodies : List Bytes)
        → All (λ b. length b ≤ max_alloc) bodies
        → length (flatten (map write_message bodies)) < fuel
        → read_frames trim_space fuel (flatten (map write_message bodies)) ≡ (bodies, read_header)
    unfolding read_frames flatten
    read_frames-write zero bodies h l = absurd (omega arith)
    read_frames-write (suc fuel) [] h l = read_frames-empty fuel
    read_frames-write (suc fuel) (body ∷ bodies) h l =
        let rest = flatten (map write_message bodies) in
        let a = read_message-write body rest h.0 in
        let n = length-append (write_message body) rest in
        let p = length-write_message body [] in
        let z = append-nil (write_message body) in
        let p' : 0 < length (write_message body) = subst (λ x. 0 < length x) z p in
        let r = read_frames-write fuel bodies h.1 (omega arith) in ground arith

    -- The frames written for some bodies, each not longer than what Go can allocate, are read as these
    -- bodies in their order, and the reading ends at the header that is missing behind them, where
    -- the trimming drops the space in front of a decimal number.
    pub read_all-write :
        (bodies : List Bytes)
        → All (λ b. length b ≤ max_alloc) bodies
        → read_all trim_space (flatten (map write_message bodies)) ≡ (bodies, read_header)
    unfolding read_all
    read_all-write bodies h =
        read_frames-write (suc (length (flatten (map write_message bodies)))) bodies h (omega arith)
