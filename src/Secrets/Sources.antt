-- ===== src/Secrets/Sources.antt =====
-- Where a secret comes from (internal/secrets/store.go, Get and parseEnv).
use code_gen_sandbox.Prelude.Maps
use code_gen_sandbox.Files.Replace.{has_prefix}
use code_gen_sandbox.Secrets
use code_gen_sandbox.Secrets.{
  Store, from_env, from_file, env_prefix, split_pair, has_byte, is_safe_name, add_variable,
  parse_env, get,
}
use code_gen_sandbox.Prelude.{
  if◌then◌else◌, Bool-cases, Option-cases, length, drop, All, ℕ, ◌≡◌, refl, ◌∙◌, ◌≢◌, ◌⊎◌, inl, inr,
  true, false, Option, none, some, List, [], ◌∷◌, ◌++◌, arith, Bytes, bytes_discrete, Lacks,
}

split_pair-append :
    (key value : Bytes) → Lacks 61 key → split_pair (key ++ 61 ∷ value) ≡ some (key, value)
unfolding split_pair
split_pair-append [] value h = ground arith
split_pair-append (c ∷ key) value h =
    let e = split_pair-append key value h.1 in let n = h.0 in ground arith

pub has_byte-Lacks : (b : ℕ) (s : Bytes) → has_byte b s ≡ false → Lacks b s
unfolding has_byte
has_byte-Lacks b [] h = tt
has_byte-Lacks b (c ∷ s) h = ((λ e. ground arith), has_byte-Lacks b s (ground arith))

safe_name-Lacks : (b : ℕ) (s : Bytes) → (b ≡ 47) ⊎ (b ≡ 92) → is_safe_name s ≡ true → Lacks b s
unfolding is_safe_name
safe_name-Lacks b [] o h = tt
safe_name-Lacks b (c ∷ s) o h =
    has_byte-Lacks b (c ∷ s) (elim o [ inl e ↦ ground arith | inr e ↦ ground arith ])

has_prefix-append : (p s : Bytes) → has_prefix p (p ++ s) ≡ true
unfolding has_prefix
has_prefix-append [] s = refl
has_prefix-append (c ∷ p) s = let e = has_prefix-append p s in ground arith

drop-length_append : (p s : Bytes) → drop (length p) (p ++ s) ≡ s
drop-length_append [] s = refl
drop-length_append (c ∷ p) s = drop-length_append p s

Bytes-cases : (s : Bytes) → (s ≡ []) ⊎ ((c : ℕ) × (cs : Bytes) × (s ≡ c ∷ cs))
Bytes-cases [] = inl refl
Bytes-cases (c ∷ cs) = inr (c, cs, refl)

module _ (to_lower : Bytes → Bytes) (trim_newlines : Bytes → Bytes) where
  add_variable-named :
      (out : List (Bytes × Bytes)) (name value : Bytes)
      → Lacks 61 (env_prefix ++ name)
      → to_lower name ≢ []
      → add_variable to_lower trim_newlines out ((env_prefix ++ name) ++ 61 ∷ value)
        ≡ Maps.insert bytes_discrete (to_lower name) value out
  unfolding add_variable split_pair Maps.insert
  add_variable-named out name value l n =
      let d = drop-length_append env_prefix name in
      rw (split_pair-append (env_prefix ++ name) value l, has_prefix-append env_prefix name)
        (ground arith)

  -- The key that a variable gives a secret, if it has the prefix and a name.
  unfoldable pub key_of : Bytes → Option Bytes
  key_of kv = elim (split_pair kv) [
    | none ↦ none
    | some (key, value) ↦
        if has_prefix env_prefix key
        then (elim (to_lower (drop (length env_prefix) key)) [
          | [] ↦ none
          | c ∷ name ↦ some (c ∷ name)
        ])
        else none
  ]

  add_variable-other :
      (out : List (Bytes × Bytes)) (kv key : Bytes)
      → key_of kv ≢ some key
      → Maps.lookup bytes_discrete key (add_variable to_lower trim_newlines out kv)
        ≡ Maps.lookup bytes_discrete key out
  unfolding add_variable key_of
  add_variable-other out kv key n = elim (Option-cases (split_pair kv)) [
    | inl e ↦ ground arith
    | inr ((k, v), e) ↦ elim (Bool-cases (has_prefix env_prefix k)) [
      | inr f ↦ ground arith
      | inl f ↦ elim (Bytes-cases (to_lower (drop (length env_prefix) k))) [
        | inl g ↦ ground arith
        | inr (c, cs, g) ↦
            let i = Maps.lookup-insert bytes_discrete (c ∷ cs) key v out in
            let d : (c ∷ cs) ≢ key = λ q. n (ground arith) in ground arith
      ]
    ]
  ]

  parse_env-other :
      (out : List (Bytes × Bytes)) (env : List Bytes) (key : Bytes)
      → All (λ kv. key_of kv ≢ some key) env
      → Maps.lookup bytes_discrete key (parse_env to_lower trim_newlines out env)
        ≡ Maps.lookup bytes_discrete key out
  unfolding parse_env
  parse_env-other out [] key h = refl
  parse_env-other out (kv ∷ env) key h =
      parse_env-other (add_variable to_lower trim_newlines out kv) env key h.1
      ∙ add_variable-other out kv key h.0

  parse_env-append :
      (out : List (Bytes × Bytes)) (env more : List Bytes)
      → parse_env to_lower trim_newlines out (env ++ more)
        ≡ parse_env to_lower trim_newlines (parse_env to_lower trim_newlines out env) more
  unfolding parse_env
  parse_env-append out [] more = refl
  parse_env-append out (x ∷ env) more =
      parse_env-append (add_variable to_lower trim_newlines out x) env more

  -- When a variable has the prefix, a name and a value, with no equals sign in the prefix and the
  -- name and a name that is not empty in lower case, and no later variable gives a secret under the
  -- same name in lower case, asking for a name with that lower case gives the value as one of the
  -- environment, whatever the variables before, the other variables behind, and the files.
  pub get-parse_env :
      (env more : List Bytes) (name value asked : Bytes) (files : Option (Bytes → Option Bytes))
      → Lacks 61 (env_prefix ++ name)
      → to_lower name ≢ []
      → All (λ kv. key_of kv ≢ some (to_lower name)) more
      → to_lower asked ≡ to_lower name
      → get to_lower trim_newlines
          (Secrets.new to_lower trim_newlines files
            (env ++ ((env_prefix ++ name) ++ 61 ∷ value) ∷ more))
          asked
        ≡ some (value, from_env)
  unfolding get Secrets.new
  get-parse_env env more name value asked files l n o h =
      let kv = (env_prefix ++ name) ++ 61 ∷ value in
      let out = parse_env to_lower trim_newlines [] env in
      let a = parse_env-append [] env (kv ∷ more) in
      let b = add_variable-named out name value l n in
      let e = Maps.lookup-insert_self bytes_discrete (to_lower name) value out in
      let g = parse_env-other (add_variable to_lower trim_newlines out kv) more (to_lower name) o in
      let p : Maps.lookup bytes_discrete (to_lower name)
            (parse_env to_lower trim_newlines [] (env ++ kv ∷ more))
          ≡ some value =
        unfold parse_env in cc in
      rw (get, h, p) refl

  -- When a secret comes from a file, the environment has none under the name in lower case, the
  -- directory's file of exactly that name was read and the value is its content without the newlines
  -- at the end; and that name has neither a slash nor a backslash and is a safe name.
  pub get-file :
      (s : Store) (name value : Bytes)
      → get to_lower trim_newlines s name ≡ some (value, from_file)
      → (Maps.lookup bytes_discrete (to_lower name) s.env_map ≡ none)
        × ((read : Bytes → Option Bytes) × (body : Bytes) × (s.files ≡ some read)
            × (read (to_lower name) ≡ some body)
            × (value ≡ trim_newlines body))
        × Lacks 47 (to_lower name)
        × Lacks 92 (to_lower name)
        × (is_safe_name (to_lower name) ≡ true)
  unfolding get
  get-file s name value h =
      let key = to_lower name in
      let safe : is_safe_name key ≡ true = ground arith in
      let e : Maps.lookup bytes_discrete key s.env_map ≡ none = ground arith in
      (
        e,
        elim (Option-cases s.files) [
          | inl f ↦ absurd (ground arith)
          | inr (read, f) ↦ elim (Option-cases (read key)) [
            | inl g ↦ absurd (ground arith)
            | inr (body, g) ↦ (read, body, f, g, ground arith)
          ]
        ],
        safe_name-Lacks 47 key (inl refl) safe,
        safe_name-Lacks 92 key (inr refl) safe,
        safe,
      )
