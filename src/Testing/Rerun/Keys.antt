-- ===== src/Testing/Rerun/Keys.antt =====
-- Sorted sets of texts (the maps of strings that the source sorts before it reads them).
use code_gen_sandbox.Testing.Rerun.{add_key}
use code_gen_sandbox.Prelude.{
  ◌≡◌, refl, ite, true, List, [], ◌∷◌, arith, Bytes, bytes_discrete, has_text,
}

pub has_text-add_key :
    (p q : Bytes) (ps : List Bytes)
    → has_text p (add_key q ps) ≡ (ite (bytes_discrete p q) true (has_text p ps))
unfolding has_text add_key
has_text-add_key p q [] = refl
has_text-add_key p q (r ∷ ps) = let a = has_text-add_key p q ps in ground arith
