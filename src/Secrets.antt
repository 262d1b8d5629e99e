-- ===== src/Secrets.antt =====
-- The secret store (internal/secrets/store.go): secrets from the environment and from the files of a
-- directory. Lower case, the trimming of newlines and the directory are parameters.
pub mod Sources
pub mod Tools
use code_gen_sandbox.Prelude.Maps
use code_gen_sandbox.Files.Replace.{has_prefix}
use code_gen_sandbox.Prelude.{
  ◌==◌, if◌then◌else◌, length, drop, set, ℕ, ite, Bool, true, false, ◌||◌, not, Option, none, some,
  List, [], ◌∷◌, map, Bytes, codes, bytes_discrete,
}

-- `files` reads a file of the directory, `none` where no directory is set.
pub record Store : Type 0 where
  pub env_map : List (Bytes × Bytes)
  pub files : Option (Bytes → Option Bytes)

pub data Source : Type 0 where
  from_env from_file : Source

abbrev pub env_prefix : Bytes
env_prefix = codes "CODEGEN_SANDBOX_SECRET_"

-- `strings.IndexByte` with the two slices around the byte.
unfoldable pub split_pair : Bytes → Option (Bytes × Bytes)
split_pair [] = none
split_pair (c ∷ s) =
    if c == 61
    then some ([], s)
    else elim (split_pair s) [ none ↦ none | some (key, value) ↦ some (c ∷ key, value) ]

unfoldable pub has_byte : ℕ → Bytes → Bool
has_byte b [] = false
has_byte b (c ∷ s) = if c == b then true else has_byte b s

-- `isSafeName`
unfoldable pub is_safe_name : Bytes → Bool
is_safe_name [] = false
is_safe_name (c ∷ s) = if c == 46 then false else not (has_byte 47 (c ∷ s) || has_byte 92 (c ∷ s))

module _ (to_lower : Bytes → Bytes) (trim_newlines : Bytes → Bytes) where
  unfoldable pub add_variable : List (Bytes × Bytes) → Bytes → List (Bytes × Bytes)
  add_variable out kv = elim (split_pair kv) [
    | none ↦ out
    | some (key, value) ↦
        if has_prefix env_prefix key
        then (elim (to_lower (drop (length env_prefix) key)) [
          | [] ↦ out
          | c ∷ name ↦ Maps.insert bytes_discrete (c ∷ name) value out
        ])
        else out
  ]

  unfoldable pub parse_env : List (Bytes × Bytes) → List Bytes → List (Bytes × Bytes)
  parse_env out [] = out
  parse_env out (kv ∷ env) = parse_env (add_variable out kv) env

  -- `New`
  unfoldable pub new : Option (Bytes → Option Bytes) → List Bytes → Store
  new files env = record { env_map = parse_env [] env; files = files }

  -- `Get`; the path read is the directory and the key.
  unfoldable pub get : Store → Bytes → Option (Bytes × Source)
  get s name =
      let key = to_lower name in
      elim (Maps.lookup bytes_discrete key s.env_map) [
        | some v ↦ some (v, from_env)
        | none ↦ elim s.files [
          | none ↦ none
          | some read ↦
              if is_safe_name key
              then (elim (read key) [ none ↦ none | some b ↦ some (trim_newlines b, from_file) ])
              else none
        ]
      ]

-- The names of the files that may be read: each entry of the directory with whether it is a
-- directory itself.
unfoldable pub file_names : List (Bytes × Bool) → List Bytes
file_names [] = []
file_names ((name, is_dir) ∷ entries) =
    let rest = file_names entries in
    if is_dir then rest else if is_safe_name name then name ∷ rest else rest

unfoldable pub add_name : Bytes → List Bytes → List Bytes
add_name n [] = n ∷ []
add_name n (m ∷ ms) = ite (bytes_discrete m n) (m ∷ ms) (m ∷ add_name n ms)

unfoldable pub add_names : List Bytes → List Bytes → List Bytes
add_names set [] = set
add_names set (n ∷ ns) = add_names (add_name n set) ns

-- `Names`: the union of both sources, `entries` being what `ReadDir` gives.
unfoldable pub names : Store → List (Bytes × Bool) → List Bytes
names s entries = add_names (add_names [] (map (λ e. e.0) s.env_map)) (file_names entries)
