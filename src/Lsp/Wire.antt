-- ===== src/Lsp/Wire.antt =====
-- Frames on the wire (internal/lsp/wire.go). The reader is the bytes not yet read. `strings.TrimSpace`
-- and JSON are parameters; decimal numbers are those of `strconv.Atoi` and `%d`.
pub mod Decimal
pub mod Ends
pub mod RoundTrip
use code_gen_sandbox.Files.Replace.{has_prefix}
use code_gen_sandbox.Testing.Events.{split_at_byte}
use code_gen_sandbox.Prelude.{
  ltb, ◌==◌, if◌then◌else◌, length, take, drop, ℕ, zero, suc, ◌+◌, ◌-◌, ◌*◌, ◌/◌, ◌%◌, ◌^◌, ◌||◌,
  Option, none, some, List, [], ◌∷◌, ◌++◌, Bytes, codes,
}

pub data ReadError : Type 0 where
  read_header : ReadError
  missing_content_length : ReadError
  read_body : ReadError
  -- `make` panics: the length is out of range.
  make_panics : ReadError
  out_of_fuel : ReadError

pub data ReadResult {ℓ} (A : Type ℓ) : Type ℓ where
  ok : A → ReadResult A
  err : ReadError → ReadResult A

abbrev pub max_int : ℕ
max_int = 2 ^ 63 - 1

-- The most bytes that Go's runtime allocates at once on a 64-bit Linux; below that, memory is taken to be
-- enough.
abbrev pub max_alloc : ℕ
max_alloc = 2 ^ 48

-- The digits of `strconv.Atoi`, with the range of `int`.
unfoldable pub scan_digits : Bytes → ℕ → Option ℕ
scan_digits [] n = some n
scan_digits (c ∷ s) n =
    if ltb c 48 || ltb 57 c
    then none
    else if ltb max_int (n * 10 + (c - 48))
    then none
    else scan_digits s (n * 10 + (c - 48))

unfoldable pub parse_digits : Bytes → Option ℕ
parse_digits [] = none
parse_digits (c ∷ s) = scan_digits (c ∷ s) 0

-- The value where `strconv.Atoi` gives one that is not negative. A minus sign leaves only zero.
unfoldable pub atoi_natural : Bytes → Option ℕ
atoi_natural [] = none
atoi_natural (c ∷ s) =
    if c == 43
    then parse_digits s
    else if c == 45
    then (elim (parse_digits s) [ none ↦ none | some zero ↦ some 0 | some (suc n) ↦ none ])
    else parse_digits (c ∷ s)

-- `%d`; a number has at most as many digits as its value and one more.
unfoldable pub format_digits : ℕ → ℕ → Bytes
format_digits zero n = (48 + n) ∷ []
format_digits (suc fuel) n =
    let rest = format_digits fuel (n / 10) in
    if ltb n 10 then (48 + n) ∷ [] else rest ++ (48 + n % 10) ∷ []

unfoldable pub format_decimal : ℕ → Bytes
format_decimal n = format_digits n n

abbrev pub content_length_prefix : Bytes
content_length_prefix = codes "Content-Length:"

-- `strings.TrimRight(line, "\r\n")`
unfoldable pub trim_right_newlines : Bytes → Bytes
trim_right_newlines [] = []
trim_right_newlines (c ∷ s) = elim (trim_right_newlines s) [
  | [] ↦ if c == 13 || c == 10 then [] else c ∷ []
  | d ∷ ds ↦ c ∷ d ∷ ds
]

module _ (trim_space : Bytes → Bytes) where
  unfoldable pub parse_content_length_line : Bytes → Option ℕ
  parse_content_length_line line =
      if has_prefix content_length_prefix line
      then atoi_natural (trim_space (drop (length content_length_prefix) line))
      else none

  -- One header line updates the length.
  unfoldable pub header_length : Bytes → Option ℕ → Option ℕ
  header_length line len = elim (parse_content_length_line line) [ none ↦ len | some v ↦ some v ]

  -- `readContentLength`; every round takes a line, so the bytes of the reader are enough rounds.
  unfoldable pub read_content_length : ℕ → Bytes → Option ℕ → ReadResult (ℕ × Bytes)
  read_content_length zero br len = err out_of_fuel
  read_content_length (suc fuel) br len =
      let (line, more) = split_at_byte 10 br in
      elim more [
        | none ↦ err read_header
        | some rest ↦ elim (trim_right_newlines line) [
          | [] ↦ elim len [ none ↦ err missing_content_length | some n ↦ ok (n, rest) ]
          | c ∷ cs ↦ read_content_length fuel rest (header_length (c ∷ cs) len)
        ]
      ]

  -- The buffer is made before the body is read.
  unfoldable pub read_sized : ℕ → Bytes → ReadResult (Bytes × Bytes)
  read_sized n br =
      if ltb max_alloc n
      then err make_panics
      else if ltb (length br) n
      then err read_body
      else ok (take n br, drop n br)

  -- `readMessage`: the body and what is left to read.
  unfoldable pub read_message : Bytes → ReadResult (Bytes × Bytes)
  read_message br = elim (read_content_length (suc (length br)) br none) [
    | err e ↦ err e
    | ok (n, rest) ↦ read_sized n rest
  ]

  -- The frames that `readLoop` takes until the reader fails, and the failure.
  unfoldable pub read_frames : ℕ → Bytes → List Bytes × ReadError
  read_frames zero br = ([], out_of_fuel)
  read_frames (suc fuel) br = elim (read_message br) [
    | err e ↦ ([], e)
    | ok (body, rest) ↦ let (bodies, e) = read_frames fuel rest in (body ∷ bodies, e)
  ]

  unfoldable pub read_all : Bytes → List Bytes × ReadError
  read_all br = read_frames (suc (length br)) br

-- `writeMessage`: what is written for the marshalled body.
unfoldable pub write_message : Bytes → Bytes
write_message body =
    codes "Content-Length: " ++ format_decimal (length body) ++ 13 ∷ 10 ∷ 13 ∷ 10 ∷ body
