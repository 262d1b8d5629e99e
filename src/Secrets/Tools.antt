-- ===== src/Secrets/Tools.antt =====
-- The tools secret and secrets_available (internal/tools/secret.go), with the line of the audit log.
use code_gen_sandbox.Testing.Rerun.{text_lt, join}
use code_gen_sandbox.Secrets.{Store, Source, get, names, has_byte, is_safe_name}
use code_gen_sandbox.Prelude.{
  leb, ◌==◌, if◌then◌else◌, length, ℕ, ◌≡◌, refl, Bool, true, false, ◌&&◌, ◌||◌, not, Option, none,
  some, List, [], ◌∷◌, arith, Bytes, codes,
}

unfoldable pub is_name_byte : ℕ → Bool
is_name_byte c =
    (leb 97 c && leb c 122)
    || (leb 65 c && leb c 90)
    || (leb 48 c && leb c 57)
    || c == 95
    || c == 45

unfoldable pub all_name_bytes : Bytes → Bool
all_name_bytes [] = true
all_name_bytes (c ∷ s) = if is_name_byte c then all_name_bytes s else false

-- `isValidSecretName`
unfoldable pub is_valid_secret_name : Bytes → Bool
is_valid_secret_name [] = false
is_valid_secret_name (c ∷ s) = all_name_bytes (c ∷ s)

-- `sort.Strings`
unfoldable pub insert_name : Bytes → List Bytes → List Bytes
insert_name x [] = x ∷ []
insert_name x (y ∷ ys) = let rest = insert_name x ys in if text_lt y x then y ∷ rest else x ∷ y ∷ ys

unfoldable pub sort_names : List Bytes → List Bytes
sort_names [] = []
sort_names (n ∷ ns) = insert_name n (sort_names ns)

-- `sortedNames`; `entries` is what `ReadDir` gives.
unfoldable pub sorted_names : Option Store → List (Bytes × Bool) → List Bytes
sorted_names none entries = []
sorted_names (some s) entries = sort_names (names s entries)

pub data SecretResult : Type 0 where
  name_required not_configured : SecretResult
  invalid_name : Bytes → SecretResult
  -- The name in lower case, and the names that there are.
  unknown : Bytes → Bytes → SecretResult
  -- The value, and what the audit line says: the name, the length and the source.
  secret : Bytes → Bytes × ℕ × Source → SecretResult

module _ (to_lower : Bytes → Bytes) (trim_newlines : Bytes → Bytes) where
  -- `HandleSecret`
  unfoldable pub handle_secret : Option Store → List (Bytes × Bool) → Bytes → SecretResult
  handle_secret store entries [] = name_required
  handle_secret store entries (c ∷ cs) =
      if not (is_valid_secret_name (c ∷ cs)) then invalid_name (c ∷ cs) else elim store [
        | none ↦ not_configured
        | some s ↦ elim (get to_lower trim_newlines s (c ∷ cs)) [
          | none ↦ unknown (to_lower (c ∷ cs)) (join (codes ", ") (sorted_names (some s) entries))
          | some (value, source) ↦ secret value (to_lower (c ∷ cs), length value, source)
        ]
      ]

-- `HandleSecretsAvailable`
unfoldable pub handle_secrets_available : Option Store → List (Bytes × Bool) → Bytes
handle_secrets_available store entries = join (10 ∷ []) (sorted_names store entries)

lacks_separators :
    (s : Bytes) → all_name_bytes s ≡ true → (has_byte 47 s ≡ false) × (has_byte 92 s ≡ false)
unfolding all_name_bytes is_name_byte has_byte
lacks_separators [] h = (refl, refl)
lacks_separators (c ∷ s) h =
    let ih = lacks_separators s (ground arith) in (ground arith, ground arith)

-- A name that the tool lets pass is safe as the name of a file in the directory.
pub valid-safe : (name : Bytes) → is_valid_secret_name name ≡ true → is_safe_name name ≡ true
unfolding is_valid_secret_name is_safe_name
valid-safe [] h = h
valid-safe (c ∷ s) h =
    let l = lacks_separators (c ∷ s) h in unfold all_name_bytes is_name_byte in ground arith
