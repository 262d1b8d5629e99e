-- ===== src/Snapshots/Changes.antt =====
-- The paths that stand in one of two lists (internal/tools/snapshot.go: diffPathSets).
use code_gen_sandbox.Prelude.Maps
use code_gen_sandbox.Testing.Rerun.{add_key}
use code_gen_sandbox.Testing.Rerun.Keys.{has_text-add_key}
use code_gen_sandbox.Prelude.{
  if◌then◌else◌, ◌≡◌, refl, ite, Bool, true, false, ◌&&◌, ◌||◌, not, Option, none, some, List, [],
  ◌∷◌, arith, Bytes, bytes_discrete, has_text,
}

-- The two bits of a path: in the list before, and in the list after.
abbrev pub Bits : Type 0
Bits = Bool × Bool

unfoldable pub or_no_bits : Option Bits → Bits
or_no_bits none = (false, false)
or_no_bits (some bits) = bits

unfoldable pub mark_before : List (Bytes × Bits) → List Bytes → List (Bytes × Bits)
mark_before seen [] = seen
mark_before seen (p ∷ ps) =
    let bits = or_no_bits (Maps.lookup bytes_discrete p seen) in
    mark_before (Maps.insert bytes_discrete p (true, bits.1) seen) ps

unfoldable pub mark_after : List (Bytes × Bits) → List Bytes → List (Bytes × Bits)
mark_after seen [] = seen
mark_after seen (p ∷ ps) =
    let bits = or_no_bits (Maps.lookup bytes_discrete p seen) in
    mark_after (Maps.insert bytes_discrete p (bits.0, true) seen) ps

-- The paths without both bits, in the order of the texts.
unfoldable pub one_sided : List (Bytes × Bits) → List Bytes
one_sided [] = []
one_sided ((p, bits) ∷ seen) =
    let rest = one_sided seen in if bits.0 && bits.1 then rest else add_key p rest

unfoldable pub diff_path_sets : List Bytes → List Bytes → List Bytes
diff_path_sets before after = one_sided (mark_after (mark_before [] before) after)

bits_of : Bytes → List (Bytes × Bits) → Bits
bits_of p seen = or_no_bits (Maps.lookup bytes_discrete p seen)

bits-insert :
    (p q : Bytes) (v : Bits) (seen : List (Bytes × Bits))
    → bits_of p (Maps.insert bytes_discrete q v seen) ≡ ite (bytes_discrete p q) v (bits_of p seen)
unfolding bits_of or_no_bits
bits-insert p q v seen =
    let i = Maps.lookup-insert bytes_discrete q p v seen in
    elim (bytes_discrete p q) [ yes e ↦ ground arith | no n ↦ ground arith ]

bits-mark_before :
    (p : Bytes) (seen : List (Bytes × Bits)) (ps : List Bytes)
    → ((bits_of p (mark_before seen ps)).0 ≡ ((bits_of p seen).0 || has_text p ps))
      × ((bits_of p (mark_before seen ps)).1 ≡ (bits_of p seen).1)
unfolding mark_before has_text bits_of
bits-mark_before p seen [] = (ground arith, refl)
bits-mark_before p seen (q ∷ ps) =
    let v : Bits = (true, (bits_of q seen).1) in
    let i = bits-insert p q v seen in
    let r = bits-mark_before p (Maps.insert bytes_discrete q v seen) ps in
    elim (bytes_discrete p q) [
      | yes e ↦ (ground arith, ground arith)
      | no n ↦ (ground arith, ground arith)
    ]

bits-mark_after :
    (p : Bytes) (seen : List (Bytes × Bits)) (ps : List Bytes)
    → ((bits_of p (mark_after seen ps)).1 ≡ ((bits_of p seen).1 || has_text p ps))
      × ((bits_of p (mark_after seen ps)).0 ≡ (bits_of p seen).0)
unfolding mark_after has_text bits_of
bits-mark_after p seen [] = (ground arith, refl)
bits-mark_after p seen (q ∷ ps) =
    let v : Bits = ((bits_of q seen).0, true) in
    let i = bits-insert p q v seen in
    let r = bits-mark_after p (Maps.insert bytes_discrete q v seen) ps in
    elim (bytes_discrete p q) [
      | yes e ↦ (ground arith, ground arith)
      | no n ↦ (ground arith, ground arith)
    ]

-- No path has two entries.
unfoldable has_entry : Bytes → List (Bytes × Bits) → Bool
has_entry p [] = false
has_entry p ((q, bits) ∷ seen) = let rest = has_entry p seen in ite (bytes_discrete p q) true rest

abbrev Distinct : List (Bytes × Bits) → Type 0
Distinct [] = Unit
Distinct ((p, bits) ∷ seen) = (has_entry p seen ≡ false) × Distinct seen

has_entry-insert :
    (p q : Bytes) (v : Bits) (seen : List (Bytes × Bits))
    → has_entry p (Maps.insert bytes_discrete q v seen)
      ≡ (ite (bytes_discrete p q) true (has_entry p seen))
unfolding has_entry Maps.insert
has_entry-insert p q v [] = refl
has_entry-insert p q v ((r, w) ∷ seen) = let a = has_entry-insert p q v seen in ground arith

insert-Distinct :
    (q : Bytes) (v : Bits) (seen : List (Bytes × Bits))
    → Distinct seen
    → Distinct (Maps.insert bytes_discrete q v seen)
unfolding Maps.insert has_entry
insert-Distinct q v [] d = (refl, tt)
insert-Distinct q v ((r, w) ∷ seen) d =
    let a = insert-Distinct q v seen d.1 in
    let b = has_entry-insert r q v seen in
    let h = d.0 in
    elim (bytes_discrete r q)
      as (λ k. Distinct (ite k ((q, v) ∷ seen) ((r, w) ∷ Maps.insert bytes_discrete q v seen))) [
        | yes e ↦ (ground arith, d.1)
        | no n ↦ (ground arith, a)
      ]

mark_before-Distinct :
    (seen : List (Bytes × Bits)) (ps : List Bytes) → Distinct seen → Distinct (mark_before seen ps)
unfolding mark_before
mark_before-Distinct seen [] d = d
mark_before-Distinct seen (p ∷ ps) d =
    let v : Bits = (true, (or_no_bits (Maps.lookup bytes_discrete p seen)).1) in
    mark_before-Distinct (Maps.insert bytes_discrete p v seen) ps (insert-Distinct p v seen d)

mark_after-Distinct :
    (seen : List (Bytes × Bits)) (ps : List Bytes) → Distinct seen → Distinct (mark_after seen ps)
unfolding mark_after
mark_after-Distinct seen [] d = d
mark_after-Distinct seen (p ∷ ps) d =
    let v : Bits = ((or_no_bits (Maps.lookup bytes_discrete p seen)).0, true) in
    mark_after-Distinct (Maps.insert bytes_discrete p v seen) ps (insert-Distinct p v seen d)

one_sided-absent :
    (p : Bytes) (seen : List (Bytes × Bits))
    → has_entry p seen ≡ false
    → (has_text p (one_sided seen) ≡ false) × (bits_of p seen ≡ (false, false))
unfolding one_sided has_entry has_text bits_of or_no_bits Maps.lookup
one_sided-absent p [] h = (refl, refl)
one_sided-absent p ((q, bits) ∷ seen) h =
    let r = one_sided-absent p seen (ground arith) in
    let a = has_text-add_key p q (one_sided seen) in (ground arith, ground arith)

has_text-one_sided :
    (p : Bytes) (seen : List (Bytes × Bits))
    → Distinct seen
    → has_text p (one_sided seen)
      ≡ (has_entry p seen && not ((bits_of p seen).0 && (bits_of p seen).1))
unfolding one_sided bits_of or_no_bits Maps.lookup has_entry has_text
has_text-one_sided p [] d = refl
has_text-one_sided p ((q, bits) ∷ seen) d =
    let r = has_text-one_sided p seen d.1 in
    let a = has_text-add_key p q (one_sided seen) in
    let o = one_sided-absent q seen d.0 in
    elim (bytes_discrete p q) [ yes e ↦ let k = o.0 in ground arith | no n ↦ ground arith ]

has_entry-mark_before :
    (p : Bytes) (seen : List (Bytes × Bits)) (ps : List Bytes)
    → has_entry p (mark_before seen ps) ≡ (has_entry p seen || has_text p ps)
unfolding mark_before has_text
has_entry-mark_before p seen [] = ground arith
has_entry-mark_before p seen (q ∷ ps) =
    let v : Bits = (true, (or_no_bits (Maps.lookup bytes_discrete q seen)).1) in
    let i = has_entry-insert p q v seen in
    let r = has_entry-mark_before p (Maps.insert bytes_discrete q v seen) ps in ground arith

has_entry-mark_after :
    (p : Bytes) (seen : List (Bytes × Bits)) (ps : List Bytes)
    → has_entry p (mark_after seen ps) ≡ (has_entry p seen || has_text p ps)
unfolding mark_after has_text
has_entry-mark_after p seen [] = ground arith
has_entry-mark_after p seen (q ∷ ps) =
    let v : Bits = ((or_no_bits (Maps.lookup bytes_discrete q seen)).0, true) in
    let i = has_entry-insert p q v seen in
    let r = has_entry-mark_after p (Maps.insert bytes_discrete q v seen) ps in ground arith

-- Whether a path stands in exactly one of the two lists.
abbrev pub differ : Bool → Bool → Bool
differ true b = not b
differ false b = b

-- The changed paths are those that stand in exactly one of the two lists.
pub has_text-diff_path_sets :
    (p : Bytes) (before after : List Bytes)
    → has_text p (diff_path_sets before after) ≡ differ (has_text p before) (has_text p after)
unfolding diff_path_sets has_entry bits_of or_no_bits Maps.lookup
has_text-diff_path_sets p before after =
    let first = mark_before [] before in
    let seen = mark_after first after in
    let a =
      has_text-one_sided p seen
        (mark_after-Distinct first after (mark_before-Distinct [] before tt)) in
    let b = bits-mark_before p [] before in
    let c = bits-mark_after p first after in
    let e = has_entry-mark_before p [] before in
    let f = has_entry-mark_after p first after in
    let b' = b.0 in let c' = c.0 in let b'' = b.1 in let c'' = c.1 in ground arith
