-- ===== src/Search/Index/Contents.antt =====
-- What an index holds: the list of its units, each with its ID (internal/search/index.go).
use code_gen_sandbox.Prelude.Maps
use code_gen_sandbox.Search.Index.{SourceUnit}
use code_gen_sandbox.Prelude.{
  ℕ, ◌+◌, ◌≡◌, refl, ite, Option, none, some, List, [], ◌∷◌, ◌++◌, arith, ℕ_discrete,
}

abbrev pub Docs : Type 0
Docs = List (ℕ × SourceUnit)

unfoldable pub total : (SourceUnit → ℕ) → Docs → ℕ
total w [] = 0
total w ((id, u) ∷ docs) = w u + total w docs

abbrev pub find : ℕ → Docs → Option SourceUnit
find id docs = Maps.lookup ℕ_discrete id docs

-- No ID occurs twice.
unfoldable pub Distinct : Docs → Type 0
Distinct [] = Unit
Distinct ((id, u) ∷ docs) = (find id docs ≡ none) × Distinct docs

unfoldable pub map_option {ℓ κ} : {A : Type ℓ} {B : Type κ} → (A → B) → Option A → Option B
map_option f none = none
map_option f (some a) = some (f a)

pub total-append :
    (w : SourceUnit → ℕ) (xs ys : Docs) → total w (xs ++ ys) ≡ total w xs + total w ys
unfolding total
total-append w [] ys = omega arith
total-append w ((id, u) ∷ xs) ys = omega (arith, total-append w xs ys)

pub find-append :
    (id : ℕ) (xs ys : Docs)
    → find id (xs ++ ys) ≡ elim (find id xs) [ none ↦ find id ys | some u ↦ some u ]
unfolding Maps.lookup
find-append id [] ys = refl
find-append id ((j, u) ∷ xs) ys = ground (arith, find-append id xs ys)

-- A unit in the middle is the one found under its ID, and no other has that ID.
pub middle_lem :
    (kept rest : Docs) (id : ℕ) (u : SourceUnit)
    → Distinct (kept ++ (id, u) ∷ rest)
    → Distinct (kept ++ rest) × (find id (kept ++ rest) ≡ none)
unfolding Distinct Maps.lookup
middle_lem [] rest id u h = (h.1, h.0)
middle_lem ((j, v) ∷ kept) rest id u h =
    let m = middle_lem kept rest id u h.1 in
    let a = find-append j kept ((id, u) ∷ rest) in
    let b = find-append j kept rest in
    let n : find j (kept ++ (id, u) ∷ rest) ≡ none = h.0 in ((ground arith, m.0), ground arith)

pub find-middle :
    (kept rest : Docs) (id j : ℕ) (u : SourceUnit)
    → find id (kept ++ rest) ≡ none
    → find j (kept ++ (id, u) ∷ rest) ≡ ite (ℕ_discrete id j) (some u) (find j (kept ++ rest))
unfolding Maps.lookup
find-middle kept rest id j u h =
    let a = find-append j kept ((id, u) ∷ rest) in
    let b = find-append j kept rest in let c = find-append id kept rest in ground arith
