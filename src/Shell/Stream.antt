-- ===== src/Shell/Stream.antt =====
-- `appendCapped` of internal/tools/shell_registry.go: one captured stream with a byte cap.
use code_gen_sandbox.Prelude.{
  ltb, leb, if◌then◌else◌, length, take, length-append, length-take, take_of_length-le, take-append,
  take-append_left, All, ℕ, ◌-◌, ◌*◌, ◌≤◌, ◌<◌, ◌≡◌, refl, ap, ◌≢◌, Bool, true, false, List, [],
  ◌∷◌, append_assoc, append-nil, ◌++◌, flatten, arith, dec_le, Bytes,
}

abbrev pub shell_output_cap_bytes : ℕ
shell_output_cap_bytes = 1 * 1024 * 1024

-- `limit` is the source's constant; the lemmas below hold for every limit.
pub append_within : ℕ → Bytes → Bytes → Bool → Bytes × Bool
append_within limit dst src already_truncated =
    if already_truncated
    then (dst, true)
    else let remaining = limit - length dst in
      if leb remaining 0
      then (dst, true)
      else if leb (length src) remaining
      then (dst ++ src, false)
      else (dst ++ take remaining src, true)

unfoldable pub append_capped : Bytes → Bytes → Bool → Bytes × Bool
append_capped = append_within shell_output_cap_bytes

-- What a drain loop does to a stream: one append for each chunk that it reads.
abbrev pub drain : ℕ → List Bytes → Bytes × Bool → Bytes × Bool
drain limit [] s = s
drain limit (c ∷ cs) s = drain limit cs (append_within limit s.0 c s.1)

length_pos : (xs : Bytes) → xs ≢ [] → 0 < length xs
length_pos [] h = absurd (h refl)
length_pos (x ∷ xs) h = omega arith

-- A stream that holds the first `limit` bytes of `whole`, and is marked when some were cut off.
pub record Captures (limit : ℕ) (whole : Bytes) (s : Bytes × Bool) : Type 0 where
  pub kept : s.0 ≡ take limit whole
  pub marked : s.1 ≡ ltb limit (length whole)

module _ (limit : ℕ) (whole src : Bytes) (d : Bytes) (t : Bool) (k : d ≡ take limit whole)
    (m : t ≡ ltb limit (length whole)) where
  append_kept_below :
      length whole ≤ limit → (append_within limit d src t).0 ≡ take limit (whole ++ src)
  unfolding append_within
  append_kept_below p = ground (
    arith,
    take_of_length-le limit whole p,
    take-append limit whole src p,
    take_of_length-le (limit - length whole) src,
    append-nil whole,
  )

  append_kept_above :
      limit < length whole → (append_within limit d src t).0 ≡ take limit (whole ++ src)
  unfolding append_within
  append_kept_above p = ground (arith, take-append_left limit whole src)

  append_kept : (append_within limit d src t).0 ≡ take limit (whole ++ src)
  append_kept = elim (dec_le (length whole) limit) [
    | yes p ↦ append_kept_below p
    | no p ↦ append_kept_above (omega arith)
  ]

  append_marked : src ≢ [] → (append_within limit d src t).1 ≡ ltb limit (length (whole ++ src))
  unfolding append_within
  append_marked ne =
      ground
        (arith, length-append whole src, length-take limit whole, ap length k, length_pos src ne)

-- One append of a chunk that is not empty keeps the stream the prefix of all that was written.
pub append_within-Captures :
    (limit : ℕ) (whole src : Bytes) (s : Bytes × Bool)
    → src ≢ []
    → Captures limit whole s
    → Captures limit (whole ++ src) (append_within limit s.0 src s.1)
append_within-Captures limit whole src s ne c = record {
  kept = append_kept limit whole src s.0 s.1 c.kept c.marked;
  marked = append_marked limit whole src s.0 s.1 c.kept c.marked ne;
}

drain-Captures :
    (limit : ℕ) (cs : List Bytes) (whole : Bytes) (s : Bytes × Bool)
    → All (λ c. c ≢ []) cs
    → Captures limit whole s
    → Captures limit (whole ++ flatten cs) (drain limit cs s)
unfolding flatten
drain-Captures limit [] whole s ne c = rw append-nil c
drain-Captures limit (x ∷ cs) whole s ne c =
    rw (← append_assoc whole x (flatten cs))
      (drain-Captures limit cs (whole ++ x) _ ne.1 (append_within-Captures limit whole x s ne.0 c))

-- After any sequence of reads that are not empty the captured stream is the first MiB of the
-- output, and it is marked truncated exactly when the output was longer.
pub append_capped-Captures :
    (cs : List Bytes)
    → All (λ c. c ≢ []) cs
    → Captures shell_output_cap_bytes (flatten cs) (drain shell_output_cap_bytes cs ([], false))
append_capped-Captures cs ne =
    drain-Captures shell_output_cap_bytes cs [] ([], false) ne
      (record { kept = refl; marked = refl })
