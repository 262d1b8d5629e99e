-- ===== src/Lsp/Wire/Ends.antt =====
-- How the reading of frames ends (internal/lsp/wire.go, and the loop of readLoop in
-- internal/lsp/client.go).
use code_gen_sandbox.Testing.Events.{split_at_byte}
use code_gen_sandbox.Lsp.Wire.{
  ReadError, out_of_fuel, ReadResult, ok, err, trim_right_newlines, header_length,
  read_content_length, read_sized, read_message, read_frames, read_all,
}
use code_gen_sandbox.Prelude.{
  ◌==◌, Bool-cases, Option-cases, length, length-drop, ℕ, zero, suc, ◌<◌, ◌≡◌, refl, sym, subst,
  ◌≢◌, ◌⊎◌, inl, inr, Option, none, some, List, [], ◌∷◌, arith, Bytes,
}

split_at_byte-lt :
    (b : ℕ) (s rest : Bytes) → (split_at_byte b s).1 ≡ some rest → length rest < length s
unfolding split_at_byte
split_at_byte-lt b [] rest h = absurd (ground arith)
split_at_byte-lt b (c ∷ s) rest h = elim (Bool-cases (c == b)) [
  | inl e ↦ ground arith
  | inr e ↦ let r = split_at_byte-lt b s rest (ground arith) in omega arith
]

ok_cases {ℓ} :
    {A : Type ℓ} (r : ReadResult A) → ((e : ReadError) × (r ≡ err e)) ⊎ ((a : A) × (r ≡ ok a))
ok_cases (ok a) = inr (a, refl)
ok_cases (err e) = inl (e, refl)

-- The loop of `readLoop` as a relation: the bodies it takes from the reader, and the error it ends at.
pub data Reads (trim_space : Bytes → Bytes) : Bytes → List Bytes → ReadError → Type 0 where
  failed :
      {br : Bytes} {e : ReadError} → read_message trim_space br ≡ err e → Reads trim_space br [] e
  frame :
      {br body rest : Bytes} {bodies : List Bytes} {e : ReadError}
      → read_message trim_space br ≡ ok (body, rest)
      → Reads trim_space rest bodies e
      → Reads trim_space br (body ∷ bodies) e

module _ (trim_space : Bytes → Bytes) where
  -- With a round for each byte and one more, the headers are read or fail.
  read_content_length-ends :
      (fuel : ℕ) (br : Bytes) (len : Option ℕ)
      → length br < fuel
      → read_content_length trim_space fuel br len ≢ err out_of_fuel
  unfolding read_content_length
  read_content_length-ends zero br len h d = absurd (omega arith)
  read_content_length-ends (suc fuel) br len h d = elim (Option-cases (split_at_byte 10 br).1) [
    | inl e ↦ absurd (ground arith)
    | inr (more, e) ↦
        let lt = split_at_byte-lt 10 br more e in
        let line = trim_right_newlines (split_at_byte 10 br).0 in
        let r =
          read_content_length-ends fuel more (header_length trim_space line len) (omega arith) in
        absurd (ground arith)
  ]

  -- The headers take at least one line.
  read_content_length-lt :
      (fuel : ℕ) (br : Bytes) (len : Option ℕ) (n : ℕ) (rest : Bytes)
      → read_content_length trim_space fuel br len ≡ ok (n, rest)
      → length rest < length br
  unfolding read_content_length
  read_content_length-lt zero br len n rest h = absurd (ground arith)
  read_content_length-lt (suc fuel) br len n rest h = elim (Option-cases (split_at_byte 10 br).1) [
    | inl e ↦ absurd (ground arith)
    | inr (more, e) ↦
        let lt = split_at_byte-lt 10 br more e in
        let rec = read_content_length-lt fuel more in
        let line = trim_right_newlines (split_at_byte 10 br).0 in
        let r = rec (header_length trim_space line len) n rest in ground arith
  ]

  read_message-lt :
      (br body rest : Bytes)
      → read_message trim_space br ≡ ok (body, rest)
      → length rest < length br
  unfolding read_message read_sized
  read_message-lt br body rest h =
      let r = read_content_length-lt (suc (length br)) br none in
      let got = read_content_length trim_space (suc (length br)) br none in
      elim (ok_cases got) [
        | inl (e, g) ↦ absurd (ground arith)
        | inr ((n, more), g) ↦ let lt = r n more g in let d = length-drop n more in ground arith
      ]

  read_message-ends : (br : Bytes) → read_message trim_space br ≢ err out_of_fuel
  unfolding read_message read_sized
  read_message-ends br h =
      let a = read_content_length-ends (suc (length br)) br none (omega arith) in ground arith

  read_frames-ends :
      (fuel : ℕ) (br : Bytes) → length br < fuel → (read_frames trim_space fuel br).1 ≢ out_of_fuel
  unfolding read_frames
  read_frames-ends zero br h d = absurd (omega arith)
  read_frames-ends (suc fuel) br h d = elim (ok_cases (read_message trim_space br)) [
    | inl (e, g) ↦ let n = read_message-ends br in ground arith
    | inr ((body, rest), g) ↦
        let lt = read_message-lt br body rest g in
        let n = read_frames-ends fuel rest (omega arith) in ground arith
  ]

  -- With a round for each byte and one more the rounds do not matter.
  read_frames-Reads :
      (fuel : ℕ) (br : Bytes)
      → length br < fuel
      → Reads trim_space br (read_frames trim_space fuel br).0 (read_frames trim_space fuel br).1
  unfolding read_frames
  read_frames-Reads zero br h = absurd (omega arith)
  read_frames-Reads (suc fuel) br h = elim (ok_cases (read_message trim_space br)) [
    | inl (e, g) ↦
        let q : read_frames trim_space (suc fuel) br ≡ ([], e) = ground arith in
        subst (λ (x : List Bytes × ReadError). Reads trim_space br x.0 x.1) (sym q) (Reads.failed g)
    | inr ((body, rest), g) ↦
        let lt = read_message-lt br body rest g in
        let more = read_frames trim_space fuel rest in
        let q : read_frames trim_space (suc fuel) br ≡ (body ∷ more.0, more.1) = ground arith in
        let r = read_frames-Reads fuel rest (omega arith) in
        subst (λ (x : List Bytes × ReadError). Reads trim_space br x.0 x.1) (sym q)
          (Reads.frame g r)
  ]

  -- The loop that reads frames always ends: some run of it, of whatever length is needed, takes exactly
  -- the bodies that are read, one message behind the other, and ends at the error that is given, which
  -- is one of the reader, or the panic for a length that cannot be allocated. The bytes of the reader
  -- are enough rounds both for the headers of one frame and for the frames.
  pub read_all-ends :
      (br : Bytes)
      → Reads trim_space br (read_all trim_space br).0 (read_all trim_space br).1
        × ((read_all trim_space br).1 ≢ out_of_fuel)
  unfolding read_all
  read_all-ends br = (
    read_frames-Reads (suc (length br)) br (omega arith),
    read_frames-ends (suc (length br)) br (omega arith),
  )
