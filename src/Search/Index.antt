-- ===== src/Search/Index.antt =====
-- The BM25 index of internal/search/index.go without its lock: its units and the counts that the score
-- reads, under AddFile and RemoveFile. Search itself, with the floating-point score, is not modelled.
pub mod Counts
pub mod Contents
pub mod Holds
pub mod Insertion
pub mod Batches
pub mod History
use code_gen_sandbox.Prelude.Maps
use code_gen_sandbox.Search.Tokens.{Unicode, tokenize}
use code_gen_sandbox.Prelude.{
  leb, if◌then◌else◌, length, ℕ, suc, ◌+◌, ◌-◌, ite, Bool, true, false, Option, none, some, List,
  [], ◌∷◌, ◌++◌, ℕ_discrete, Bytes, bytes_discrete,
}

pub record SourceUnit : Type 0 where
  pub file : Bytes
  pub symbol : Bytes
  pub kind : Bytes
  pub signature : Bytes
  pub doc : Bytes

-- Go's maps are association lists; `total_len` and `total_docs` are Go's `int`.
pub record Index : Type 0 where
  pub units : List (ℕ × SourceUnit)
  pub tokens : List (ℕ × List Bytes)
  pub lengths : List (ℕ × ℕ)
  pub df : List (Bytes × ℕ)
  pub file_units : List (Bytes × List ℕ)
  pub next_id : ℕ
  pub total_len : ℕ
  pub total_docs : ℕ

unfoldable pub new_index : Index
new_index = record {
  units = [];
  tokens = [];
  lengths = [];
  df = [];
  file_units = [];
  next_id = 0;
  total_len = 0;
  total_docs = 0;
}

-- A missing key reads as Go's zero value.
unfoldable pub or_zero : Option ℕ → ℕ
or_zero none = 0
or_zero (some n) = n

unfoldable pub or_empty {ℓ} : {A : Type ℓ} → Option (List A) → List A
or_empty none = []
or_empty (some xs) = xs

unfoldable pub count_token : List Bytes → Bytes → ℕ
count_token [] t = 0
count_token (x ∷ toks) t = let n = count_token toks t in ite (bytes_discrete x t) (suc n) n

-- `unique` behind the words already seen.
unfoldable pub unseen : (Bytes → Bool) → List Bytes → List Bytes
unseen seen [] = []
unseen seen (v ∷ s) = elim (seen v) [
  | true ↦ unseen seen s
  | false ↦ v ∷ unseen (λ w. ite (bytes_discrete v w) true (seen w)) s
]

unfoldable pub unique : List Bytes → List Bytes
unique s = unseen (λ w. false) s

unfoldable pub df_of : List (Bytes × ℕ) → Bytes → ℕ
df_of df t = or_zero (Maps.lookup bytes_discrete t df)

-- `df[t]++` for each word.
unfoldable pub count_up : List (Bytes × ℕ) → List Bytes → List (Bytes × ℕ)
count_up df [] = df
count_up df (t ∷ ts) = count_up (Maps.insert bytes_discrete t (df_of df t + 1) df) ts

-- `df[t]--` for each word, and the entry goes when it is not above zero. Below zero the source
-- deletes as well, so the subtraction that stops at 0 does the same.
unfoldable pub count_down : List (Bytes × ℕ) → List Bytes → List (Bytes × ℕ)
count_down df [] = df
count_down df (t ∷ ts) =
    let left = df_of df t - 1 in
    count_down
      (if leb left 0 then Maps.remove bytes_discrete t df else Maps.insert bytes_discrete t left df)
      ts

module _ (unicode : Unicode) where
  unfoldable pub unit_tokens : SourceUnit → List Bytes
  unit_tokens u =
      (tokenize unicode u.symbol ++ tokenize unicode u.signature) ++ tokenize unicode u.doc

  unfoldable pub add_unit : Index → Bytes → SourceUnit → Index
  add_unit i rel v =
      let u = record v { file = rel } in
      let toks = unit_tokens u in
      record {
        units = Maps.insert ℕ_discrete i.next_id u i.units;
        tokens = Maps.insert ℕ_discrete i.next_id toks i.tokens;
        lengths = Maps.insert ℕ_discrete i.next_id (length toks) i.lengths;
        df = count_up i.df (unique toks);
        file_units =
            Maps.insert bytes_discrete rel
              (or_empty (Maps.lookup bytes_discrete rel i.file_units) ++ i.next_id ∷ [])
              i.file_units;
        next_id = suc i.next_id;
        total_len = i.total_len + length toks;
        total_docs = i.total_docs + 1;
      }

  -- `addUnitsLocked`
  unfoldable pub add_units : Index → Bytes → List SourceUnit → Index
  add_units i rel [] = i
  add_units i rel (u ∷ us) = add_units (add_unit i rel u) rel us

-- The loop of `removeFileLocked`.
unfoldable pub remove_units : Index → List ℕ → Index
remove_units i [] = i
remove_units i (id ∷ ids) =
    remove_units
      (record i {
        units = Maps.remove ℕ_discrete id i.units;
        tokens = Maps.remove ℕ_discrete id i.tokens;
        lengths = Maps.remove ℕ_discrete id i.lengths;
        df = count_down i.df (unique (or_empty (Maps.lookup ℕ_discrete id i.tokens)));
        total_len = i.total_len - or_zero (Maps.lookup ℕ_discrete id i.lengths);
        total_docs = i.total_docs - 1;
      })
      ids

-- `removeFileLocked`
unfoldable pub remove_file_units : Index → Bytes → Index
remove_file_units i rel = elim (Maps.lookup bytes_discrete rel i.file_units) [
  | none ↦ i
  | some ids ↦
      let j = remove_units i ids in
      record j { file_units = Maps.remove bytes_discrete rel j.file_units }
]

-- One change that the watcher reports, with what `ExtractGoFile` makes of the file then.
pub data Change : Type 0 where
  add_file : Bytes → Option (List SourceUnit) → Change
  remove_file : Bytes → Change

-- `is_go` is the test of the extension, `to_rel` is `toRelFile` of `absPath`.
module _ (unicode : Unicode) (is_go : Bytes → Bool) (to_rel : Bytes → Bytes) where
  unfoldable pub change : Index → Change → Index
  change i (remove_file path) = remove_file_units i (to_rel path)
  change i (add_file path parsed) = elim (is_go path) [
    | false ↦ i
    | true ↦ elim parsed [
      | none ↦ remove_file_units i (to_rel path)
      | some us ↦ add_units unicode (remove_file_units i (to_rel path)) (to_rel path) us
    ]
  ]

  unfoldable pub run : Index → List Change → Index
  run i [] = i
  run i (c ∷ cs) = run (change i c) cs
