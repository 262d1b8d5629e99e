-- ===== src/Search/Index/Holds.antt =====
-- An index and the units it holds: one insertion and one deletion (internal/search/index.go).
use code_gen_sandbox.Prelude.Maps
use code_gen_sandbox.Search.Tokens.{Unicode}
use code_gen_sandbox.Search.Index.{
  SourceUnit, Index, or_zero, or_empty, unique, df_of, unit_tokens, remove_units,
}
use code_gen_sandbox.Search.Index.Counts.{present, count_token-unique, count_down_lem}
use code_gen_sandbox.Search.Index.Contents.{
  Docs, total, find, Distinct, map_option, total-append, middle_lem, find-middle,
}
use code_gen_sandbox.Prelude.{
  length, ℕ, ◌+◌, ◌≤◌, ◌≡◌, refl, ◌∙◌, ite, if_pos, none, some, List, [], ◌∷◌, ◌++◌, arith,
  ℕ_discrete, Bytes, bytes_discrete,
}

module _ (unicode : Unicode) where
  abbrev pub toks : SourceUnit → List Bytes
  toks u = unit_tokens unicode u

  -- Every map and counter but `file_units` is what the units give.
  pub record Holds (i : Index) (docs : Docs) : Type 0 where
    pub units : (id : ℕ) → Maps.lookup ℕ_discrete id i.units ≡ find id docs
    pub tokens : (id : ℕ) → Maps.lookup ℕ_discrete id i.tokens ≡ map_option toks (find id docs)
    pub lengths :
        (id : ℕ)
        → Maps.lookup ℕ_discrete id i.lengths ≡ map_option (λ u. length (toks u)) (find id docs)
    pub df : (t : Bytes) → df_of i.df t ≡ total (λ u. present (toks u) t) docs
    pub total_len : i.total_len ≡ total (λ u. length (toks u)) docs
    pub total_docs : i.total_docs ≡ total (λ u. 1) docs
    pub below : (id : ℕ) → i.next_id ≤ id → find id docs ≡ none
    pub distinct : Distinct docs

  -- Where the units are: under each file the IDs of its units, in their order.
  unfoldable pub ids_of : Bytes → Docs → List ℕ
  ids_of rel [] = []
  ids_of rel ((id, u) ∷ docs) =
      let rest = ids_of rel docs in ite (bytes_discrete rel u.file) (id ∷ rest) rest

  unfoldable pub Filed : Index → Docs → Type 0
  Filed i docs =
      (rel : Bytes) → or_empty (Maps.lookup bytes_discrete rel i.file_units) ≡ ids_of rel docs

  pub total-middle :
      (w : SourceUnit → ℕ) (kept rest : Docs) (id : ℕ) (u : SourceUnit)
      → total w (kept ++ (id, u) ∷ rest) ≡ total w (kept ++ rest) + w u
  unfolding total
  total-middle w kept rest id u =
      omega (arith, total-append w kept ((id, u) ∷ rest), total-append w kept rest)

  pub remove_unit-Holds :
      (i : Index) (kept rest : Docs) (id : ℕ) (u : SourceUnit)
      → Holds i (kept ++ (id, u) ∷ rest)
      → Holds (remove_units i (id ∷ [])) (kept ++ rest)
  unfolding remove_units or_zero or_empty map_option
  remove_unit-Holds i kept rest id u h =
      let (d, f) = middle_lem kept rest id u h.distinct in
      let at : (j : ℕ)
          → find j (kept ++ (id, u) ∷ rest)
            ≡ ite (ℕ_discrete id j) (some u) (find j (kept ++ rest)) =
        (λ j. find-middle kept rest id j u f) in
      let e : find id (kept ++ (id, u) ∷ rest) ≡ some u =
        at id ∙ if_pos (ℕ_discrete id id) refl _ _ in
      record {
        units = (λ j.
            rw (Maps.lookup-remove ℕ_discrete id j i.units)
              (let a = at j in let b = h.units j in ground arith));
        tokens = (λ j.
            rw (Maps.lookup-remove ℕ_discrete id j i.tokens)
              (let a = at j in let b = h.tokens j in ground arith));
        lengths = (λ j.
            rw (Maps.lookup-remove ℕ_discrete id j i.lengths)
              (let a = at j in let b = h.lengths j in ground arith));
        df = (λ t.
            let a = h.tokens id in
            let b = count_down_lem i.df (unique (toks u)) t in
            let c = count_token-unique (toks u) t in
            let g = total-middle (λ v. present (toks v) t) kept rest id u in
            let k = h.df t in rw (a, e, b, c, k, g) (omega arith));
        total_len =
            let a = h.lengths id in
            let g = total-middle (λ v. length (toks v)) kept rest id u in
            let k = h.total_len in rw (a, e, k, g) (omega arith);
        total_docs =
            let g = total-middle (λ v. 1) kept rest id u in let k = h.total_docs in omega arith;
        below = (λ j l. let a = at j in let b = h.below j l in ground arith);
        distinct = d;
      }
