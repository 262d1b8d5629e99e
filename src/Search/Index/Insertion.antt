-- ===== src/Search/Index/Insertion.antt =====
-- One insertion into the index (internal/search/index.go, the loop body of addUnitsLocked).
use code_gen_sandbox.Prelude.Maps
use code_gen_sandbox.Search.Tokens.{Unicode}
use code_gen_sandbox.Search.Index.{SourceUnit, Index, or_zero, or_empty, unique, add_unit}
use code_gen_sandbox.Search.Index.Counts.{present, count_token-unique, count_up_lem}
use code_gen_sandbox.Search.Index.Contents.{
  Docs, total, find, Distinct, map_option, find-append, total-append,
}
use code_gen_sandbox.Search.Index.Holds.{toks, Holds, ids_of, Filed}
use code_gen_sandbox.Prelude.{
  length, ℕ, ◌≡◌, refl, ◌≢◌, none, [], ◌∷◌, append-nil, ◌++◌, arith, ℕ_discrete, Bytes,
  bytes_discrete,
}

Distinct-append :
    (docs : Docs) (id : ℕ) (u : SourceUnit)
    → Distinct docs
    → find id docs ≡ none
    → Distinct (docs ++ (id, u) ∷ [])
unfolding Distinct Maps.lookup
Distinct-append [] id u d f = (refl, tt)
Distinct-append ((j, v) ∷ docs) id u d f =
    let a = find-append j docs ((id, u) ∷ []) in
    let n : find j docs ≡ none = d.0 in
    let g : (find id docs ≡ none) × (j ≢ id) = (ground arith, ground arith) in
    (ground arith, Distinct-append docs id u d.1 g.0)

module _ (unicode : Unicode) where
  pub add_unit-Holds :
      (i : Index) (docs : Docs) (rel : Bytes) (u : SourceUnit)
      → Holds unicode i docs
      → Holds unicode (add_unit unicode i rel u) (docs ++ (i.next_id, record u { file = rel }) ∷ [])
  unfolding add_unit or_zero or_empty map_option total Maps.lookup
  add_unit-Holds i docs rel u h =
      let v : SourceUnit = record u { file = rel } in
      let f : find i.next_id docs ≡ none = h.below i.next_id (omega arith) in
      record {
        units = (λ j.
            let a = Maps.lookup-insert ℕ_discrete i.next_id j v i.units in
            let b = find-append j docs ((i.next_id, v) ∷ []) in let c = h.units j in ground arith);
        tokens = (λ j.
            let a = Maps.lookup-insert ℕ_discrete i.next_id j (toks unicode v) i.tokens in
            let b = find-append j docs ((i.next_id, v) ∷ []) in let c = h.tokens j in ground arith);
        lengths = (λ j.
            let a = Maps.lookup-insert ℕ_discrete i.next_id j (length (toks unicode v)) i.lengths in
            let b = find-append j docs ((i.next_id, v) ∷ []) in
            let c = h.lengths j in ground arith);
        df = (λ t.
            let b = count_up_lem i.df (unique (toks unicode v)) t in
            let c = count_token-unique (toks unicode v) t in
            let g = total-append (λ w. present (toks unicode w) t) docs ((i.next_id, v) ∷ []) in
            let k = h.df t in rw (b, c, g, k) (omega arith));
        total_len =
            let g = total-append (λ w. length (toks unicode w)) docs ((i.next_id, v) ∷ []) in
            let k = h.total_len in rw (g, k) (omega arith);
        total_docs =
            let g = total-append (λ w. 1) docs ((i.next_id, v) ∷ []) in
            let k = h.total_docs in rw (g, k) (omega arith);
        below = (λ j l.
            let a = find-append j docs ((i.next_id, v) ∷ []) in
            let b : find j docs ≡ none = h.below j (omega arith) in ground arith);
        distinct = Distinct-append docs i.next_id v h.distinct f;
      }

  ids_of-append :
      (rel : Bytes) (xs ys : Docs)
      → ids_of unicode rel (xs ++ ys) ≡ ids_of unicode rel xs ++ ids_of unicode rel ys
  unfolding ids_of
  ids_of-append rel [] ys = refl
  ids_of-append rel ((id, u) ∷ xs) ys = ground (arith, ids_of-append rel xs ys)

  pub add_unit-Filed :
      (i : Index) (docs : Docs) (rel : Bytes) (u : SourceUnit)
      → Filed unicode i docs
      → Filed unicode (add_unit unicode i rel u) (docs ++ (i.next_id, record u { file = rel }) ∷ [])
  unfolding add_unit or_empty Filed ids_of
  add_unit-Filed i docs rel u h r =
      let a = ids_of-append r docs ((i.next_id, record u { file = rel }) ∷ []) in
      let b =
        Maps.lookup-insert bytes_discrete rel r
          (or_empty (Maps.lookup bytes_discrete rel i.file_units) ++ i.next_id ∷ []) i.file_units in
      let c = h r in let d = append-nil (ids_of unicode r docs) in ground arith
