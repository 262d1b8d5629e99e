-- ===== src/Search/Index/Batches.antt =====
-- All units of a file added or removed at once (internal/search/index.go, addUnitsLocked and
-- removeFileLocked).
use code_gen_sandbox.Prelude.Maps
use code_gen_sandbox.Search.Tokens.{Unicode}
use code_gen_sandbox.Search.Index.{
  SourceUnit, Index, or_empty, add_unit, add_units, remove_units, remove_file_units,
}
use code_gen_sandbox.Search.Index.Contents.{Docs}
use code_gen_sandbox.Search.Index.Insertion.{add_unit-Holds, add_unit-Filed}
use code_gen_sandbox.Search.Index.Holds.{Holds, ids_of, Filed, remove_unit-Holds}
use code_gen_sandbox.Prelude.{
  Option-cases, ℕ, ◌≡◌, refl, sym, ap, subst, ◌∙◌, inl, inr, ite, List, [], ◌∷◌, append_assoc,
  append-nil, ◌++◌, arith, Bytes, bytes_discrete,
}

-- The units of the other files.
unfoldable pub others : Bytes → List SourceUnit → List SourceUnit
others rel [] = []
others rel (u ∷ us) = let rest = others rel us in ite (bytes_discrete rel u.file) rest (u ∷ rest)

unfoldable pub filed_as : Bytes → List SourceUnit → List SourceUnit
filed_as rel [] = []
filed_as rel (u ∷ us) = record u { file = rel } ∷ filed_as rel us

unfoldable pub units_of : Docs → List SourceUnit
units_of [] = []
units_of ((id, u) ∷ docs) = u ∷ units_of docs

unfoldable pub other_docs : Bytes → Docs → Docs
other_docs rel [] = []
other_docs rel ((id, u) ∷ docs) =
    let rest = other_docs rel docs in ite (bytes_discrete rel u.file) rest ((id, u) ∷ rest)

pub units_of-other_docs :
    (rel : Bytes) (docs : Docs) → units_of (other_docs rel docs) ≡ others rel (units_of docs)
unfolding units_of other_docs others
units_of-other_docs rel [] = refl
units_of-other_docs rel ((id, u) ∷ docs) = ground (arith, units_of-other_docs rel docs)

units_of-append : (xs ys : Docs) → units_of (xs ++ ys) ≡ units_of xs ++ units_of ys
unfolding units_of
units_of-append [] ys = refl
units_of-append ((id, u) ∷ xs) ys = ap (◌∷◌ u) (units_of-append xs ys)

module _ (unicode : Unicode) where
  ids_of-other_docs :
      (rel r : Bytes) (docs : Docs)
      → ids_of unicode r (other_docs rel docs)
        ≡ ite (bytes_discrete rel r) [] (ids_of unicode r docs)
  unfolding ids_of other_docs
  ids_of-other_docs rel r [] = ground arith
  ids_of-other_docs rel r ((id, u) ∷ docs) = ground (arith, ids_of-other_docs rel r docs)

  -- The loop of `removeFileLocked` over the IDs of `rest`, with `kept` already passed.
  remove_units-Holds :
      (i : Index) (rel : Bytes) (kept rest : Docs)
      → Holds unicode i (kept ++ rest)
      → Holds unicode (remove_units i (ids_of unicode rel rest)) (kept ++ other_docs rel rest)
  unfolding remove_units ids_of other_docs
  remove_units-Holds i rel kept [] h = h
  remove_units-Holds i rel kept ((id, u) ∷ rest) h =
      elim (bytes_discrete rel u.file)
        as (λ d.
          Holds unicode
            (remove_units i (ite d (id ∷ ids_of unicode rel rest) (ids_of unicode rel rest)))
            (kept ++ ite d (other_docs rel rest) ((id, u) ∷ other_docs rel rest))) [
              | yes p ↦
                  remove_units-Holds (remove_units i (id ∷ [])) rel kept rest
                    (remove_unit-Holds unicode i kept rest id u h)
              | no p ↦
                  subst (λ docs. Holds unicode (remove_units i (ids_of unicode rel rest)) docs)
                    (append_assoc kept ((id, u) ∷ []) (other_docs rel rest))
                    (remove_units-Holds i rel (kept ++ (id, u) ∷ []) rest
                      (subst (Holds unicode i) (sym (append_assoc kept ((id, u) ∷ []) rest)) h))
            ]

  remove_units-file_units :
      (i : Index) (ids : List ℕ) → (remove_units i ids).file_units ≡ i.file_units
  unfolding remove_units
  remove_units-file_units i [] = refl
  remove_units-file_units i (id ∷ ids) = remove_units-file_units (remove_units i (id ∷ [])) ids

  unfiled_lem :
      (i : Index) (docs : Docs) (m : List (Bytes × List ℕ))
      → Holds unicode i docs
      → Holds unicode (record i { file_units = m }) docs
  unfiled_lem i docs m h = record {
    units = h.units;
    tokens = h.tokens;
    lengths = h.lengths;
    df = h.df;
    total_len = h.total_len;
    total_docs = h.total_docs;
    below = h.below;
    distinct = h.distinct;
  }

  pub remove_file_units_lem :
      (i : Index) (rel : Bytes) (docs : Docs)
      → Holds unicode i docs
      → Filed unicode i docs
      → Holds unicode (remove_file_units i rel) (other_docs rel docs)
        × Filed unicode (remove_file_units i rel) (other_docs rel docs)
  unfolding remove_file_units or_empty Filed remove_units
  remove_file_units_lem i rel docs h f =
      let g = remove_units-Holds i rel [] docs h in
      let o = (λ (r : Bytes). ids_of-other_docs rel r docs) in
      elim (Option-cases (Maps.lookup bytes_discrete rel i.file_units)) [
        | inl e ↦
            let n : ids_of unicode rel docs ≡ [] = sym (f rel) ∙ ap or_empty e in
            rw (e, remove_file_units)
              (
                subst (λ ids. Holds unicode (remove_units i ids) (other_docs rel docs)) n g,
                (λ r. let a = f r in let b = o r in ground (arith, n)),
              )
        | inr (ids, e) ↦
            let n : ids_of unicode rel docs ≡ ids = sym (f rel) ∙ ap or_empty e in
            rw (e, remove_file_units)
              (
                unfiled_lem (remove_units i ids) (other_docs rel docs) _
                    (subst (λ js. Holds unicode (remove_units i js) (other_docs rel docs)) n g),
                (λ r.
                    let a = f r in
                    let b = o r in
                    let c =
                      Maps.lookup-remove bytes_discrete rel r (remove_units i ids).file_units in
                    let d = remove_units-file_units i ids in ground arith),
              )
      ]

  pub add_units_lem :
      (i : Index) (docs : Docs) (rel : Bytes) (us : List SourceUnit)
      → Holds unicode i docs
      → Filed unicode i docs
      → (after : Docs) × (Holds unicode (add_units unicode i rel us) after
          × Filed unicode (add_units unicode i rel us) after
          × (units_of after ≡ units_of docs ++ filed_as rel us))
  unfolding add_units filed_as units_of
  add_units_lem i docs rel [] h f = (docs, (h, f, sym (append-nil (units_of docs))))
  add_units_lem i docs rel (u ∷ us) h f =
      let (after, (g, k, e)) =
        add_units_lem (add_unit unicode i rel u) (docs ++ (i.next_id, record u { file = rel }) ∷ [])
          rel us (add_unit-Holds unicode i docs rel u h) (add_unit-Filed unicode i docs rel u f) in
      (
        after,
        (
          g,
          k,
          e
              ∙ ap (λ vs. vs ++ filed_as rel us)
                  (units_of-append docs ((i.next_id, record u { file = rel }) ∷ []))
              ∙ append_assoc (units_of docs) (record u { file = rel } ∷ []) (filed_as rel us),
        ),
      )
