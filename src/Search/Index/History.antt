-- ===== src/Search/Index/History.antt =====
-- The index behind histories of AddFile and RemoveFile (internal/search/index.go).
use code_gen_sandbox.Prelude.Maps
use code_gen_sandbox.Search.Tokens.{Unicode}
use code_gen_sandbox.Search.Index.{
  SourceUnit, Index, new_index, or_zero, or_empty, df_of, unit_tokens, add_units, remove_file_units,
  Change, add_file, remove_file, change, run,
}
use code_gen_sandbox.Search.Index.Contents.{Docs, total, Distinct, map_option}
use code_gen_sandbox.Search.Index.Counts.{present}
use code_gen_sandbox.Search.Index.Batches.{
  others, filed_as, units_of, other_docs, units_of-other_docs, remove_file_units_lem, add_units_lem,
}
use code_gen_sandbox.Search.Index.Holds.{Holds, ids_of, Filed}
use code_gen_sandbox.Prelude.{
  Bool-cases, length, ℕ, ◌+◌, ◌≡◌, refl, sym, ap, ◌∙◌, inl, inr, Bool, true, false, none, some,
  List, [], ◌∷◌, ◌++◌, arith, Bytes,
}

unfoldable pub sum_of : (SourceUnit → ℕ) → List SourceUnit → ℕ
sum_of w [] = 0
sum_of w (u ∷ us) = w u + sum_of w us

-- What a history of changes leaves to be searched: the last parse of each file that is a Go file
-- and was not removed since.
module _ (is_go : Bytes → Bool) (to_rel : Bytes → Bytes) where
  unfoldable pub searched : List SourceUnit → List Change → List SourceUnit
  searched us [] = us
  searched us (remove_file path ∷ cs) = searched (others (to_rel path) us) cs
  searched us (add_file path parsed ∷ cs) = elim (is_go path) [
    | false ↦ searched us cs
    | true ↦ elim parsed [
      | none ↦ searched (others (to_rel path) us) cs
      | some vs ↦ searched (others (to_rel path) us ++ filed_as (to_rel path) vs) cs
    ]
  ]

total-units_of : (w : SourceUnit → ℕ) (docs : Docs) → total w docs ≡ sum_of w (units_of docs)
unfolding total units_of sum_of
total-units_of w [] = refl
total-units_of w ((id, u) ∷ docs) = omega (arith, total-units_of w docs)

ones-length : (us : List SourceUnit) → sum_of (λ u. 1) us ≡ length us
unfolding sum_of
ones-length [] = refl
ones-length (u ∷ us) = omega (arith, ones-length us)

module _ (unicode : Unicode) where
  -- The units an index holds, whatever their IDs.
  unfoldable pub Exact : Index → List SourceUnit → Type 0
  Exact i us =
      ((t : Bytes) → df_of i.df t ≡ sum_of (λ u. present (unit_tokens unicode u) t) us)
      × (i.total_len ≡ sum_of (λ u. length (unit_tokens unicode u)) us)
      × (i.total_docs ≡ length us)

  module _ (is_go : Bytes → Bool) (to_rel : Bytes → Bytes) where
    run-Holds :
        (i : Index) (docs : Docs) (cs : List Change)
        → Holds unicode i docs
        → Filed unicode i docs
        → (after : Docs) × (Holds unicode (run unicode is_go to_rel i cs) after
            × (units_of after ≡ searched is_go to_rel (units_of docs) cs))
    unfolding run change searched
    run-Holds i docs [] h f = (docs, (h, refl))
    run-Holds i docs (remove_file path ∷ cs) h f =
        let (g, k) = remove_file_units_lem unicode i (to_rel path) docs h f in
        rw (sym (units_of-other_docs (to_rel path) docs))
          (run-Holds (remove_file_units i (to_rel path)) (other_docs (to_rel path) docs) cs g k)
    run-Holds i docs (add_file path none ∷ cs) h f =
        let (g, k) = remove_file_units_lem unicode i (to_rel path) docs h f in
        elim (Bool-cases (is_go path)) [
          | inr e ↦ rw (e, run, change, searched) (run-Holds i docs cs h f)
          | inl e ↦
              rw (e, run, change, searched, sym (units_of-other_docs (to_rel path) docs))
                (run-Holds (remove_file_units i (to_rel path)) (other_docs (to_rel path) docs) cs g
                  k)
        ]
    run-Holds i docs (add_file path (some vs) ∷ cs) h f =
        let (g, k) = remove_file_units_lem unicode i (to_rel path) docs h f in
        let (after, (u, v, q)) =
          add_units_lem unicode (remove_file_units i (to_rel path)) (other_docs (to_rel path) docs)
            (to_rel path) vs g k in
        elim (Bool-cases (is_go path)) [
          | inr e ↦ rw (e, run, change, searched) (run-Holds i docs cs h f)
          | inl e ↦
              rw (e, run, change, searched, sym (units_of-other_docs (to_rel path) docs), sym q)
                (run-Holds (add_units unicode (remove_file_units i (to_rel path)) (to_rel path) vs)
                  after cs u v)
        ]

    -- After any history of changes from the empty index, the document frequency of every word, the
    -- total length and the number of documents are those of the units that the history leaves to
    -- be searched.
    pub run-Exact :
        (cs : List Change)
        → Exact (run unicode is_go to_rel new_index cs) (searched is_go to_rel [] cs)
    unfolding Exact new_index Maps.lookup total df_of or_zero map_option Distinct Filed or_empty
        ids_of units_of
    run-Exact cs =
        let (after, (h, e)) =
          run-Holds new_index [] cs
            (record {
              units = (λ id. refl);
              tokens = (λ id. refl);
              lengths = (λ id. refl);
              df = (λ t. refl);
              total_len = refl;
              total_docs = refl;
              below = (λ id l. refl);
              distinct = tt;
            })
            (λ rel. refl) in
        (
          (λ t. h.df t ∙ total-units_of _ after ∙ ap (sum_of _) e),
          h.total_len ∙ total-units_of _ after ∙ ap (sum_of _) e,
          h.total_docs ∙ total-units_of _ after ∙ ap (sum_of _) e ∙ ones-length _,
        )
