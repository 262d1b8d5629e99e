-- ===== src/Search/Tokens/Segments.antt =====
-- The segments of a word (internal/search/tokenize.go, splitCamel).
use code_gen_sandbox.Search.Tokens.{Unicode, camel_boundary, first, split_behind, split_camel}
use code_gen_sandbox.Prelude.{
  Bool-cases, ℕ, ◌≡◌, refl, ap, inl, inr, true, false, List, [], ◌∷◌, ◌++◌, flatten, Bytes,
}

module _ (unicode : Unicode) where
  -- No boundary inside a segment that starts with `prev` and has `after` behind it.
  unfoldable pub Unbroken : ℕ → Bytes → Bytes → Type 0
  Unbroken prev [] after = Unit
  Unbroken prev (c ∷ seg) after =
      (camel_boundary unicode prev c (first unicode (seg ++ after)) ≡ false) × Unbroken c seg after

  unfoldable pub last_of : ℕ → Bytes → ℕ
  last_of prev [] = prev
  last_of prev (c ∷ seg) = last_of c seg

  -- Behind `prev`: the segments are not empty, have no boundary inside, and start at one.
  unfoldable pub Segments : ℕ → List Bytes → Type 0
  Segments prev [] = Unit
  Segments prev ([] ∷ segs) = ⊥
  Segments prev ((c ∷ seg) ∷ segs) =
      (camel_boundary unicode prev c (first unicode (seg ++ flatten segs)) ≡ true)
      × (Unbroken c seg (flatten segs) × Segments (last_of c seg) segs)

  split_behind-flatten :
      (prev : ℕ) (w : Bytes)
      → (split_behind unicode prev w).0 ++ flatten (split_behind unicode prev w).1 ≡ w
  unfolding split_behind flatten
  split_behind-flatten prev [] = refl
  split_behind-flatten prev (c ∷ w) =
      elim (Bool-cases (camel_boundary unicode prev c (first unicode w))) [
        | inl e ↦ rw e (ap (◌∷◌ c) (split_behind-flatten c w))
        | inr e ↦ rw e (ap (◌∷◌ c) (split_behind-flatten c w))
      ]

  split_behind-Segments :
      (prev : ℕ) (w : Bytes)
      → Unbroken prev (split_behind unicode prev w).0 (flatten (split_behind unicode prev w).1)
        × Segments (last_of prev (split_behind unicode prev w).0) (split_behind unicode prev w).1
  unfolding split_behind flatten Unbroken Segments last_of
  split_behind-Segments prev [] = (tt, tt)
  split_behind-Segments prev (c ∷ w) =
      let (u, s) = split_behind-Segments c w in
      elim (Bool-cases (camel_boundary unicode prev c (first unicode w))) [
        | inl e ↦ rw e (tt, (rw (split_behind-flatten c w) e, (u, s)))
        | inr e ↦ rw e ((rw (split_behind-flatten c w) e, u), s)
      ]

  -- A word that is not empty is cut exactly at its boundaries: joined, the segments are the word
  -- again, none is empty, no boundary lies inside one, and each but the first starts at a
  -- boundary.
  pub split_camel-Segments :
      (c : ℕ) (w : Bytes)
      → (flatten (split_camel unicode (c ∷ w)) ≡ c ∷ w)
        × ((seg : Bytes) × (segs : List Bytes) × ((split_camel unicode (c ∷ w) ≡ (c ∷ seg) ∷ segs)
              × Unbroken c seg (flatten segs)
              × Segments (last_of c seg) segs))
  unfolding split_camel flatten
  split_camel-Segments c w =
      let (u, s) = split_behind-Segments c w in
      (
        ap (◌∷◌ c) (split_behind-flatten c w),
        ((split_behind unicode c w).0, (split_behind unicode c w).1, (refl, u, s)),
      )
