-- ===== src/Search/Tokens.antt =====
-- The tokenizer of internal/search/tokenize.go on lists of runes. What the `unicode` and `strings`
-- packages say of a rune is a record of functions.
pub mod Segments
use code_gen_sandbox.Prelude.{
  if◌then◌else◌, ℕ, ite, Bool, true, false, ◌&&◌, ◌||◌, not, Option, none, some, List, [], ◌∷◌,
  ◌++◌, Bytes, codes, bytes_discrete,
}

pub record Unicode : Type 0 where
  pub is_letter : ℕ → Bool
  pub is_digit : ℕ → Bool
  pub is_upper : ℕ → Bool
  pub is_lower : ℕ → Bool
  pub to_lower : Bytes → Bytes

abbrev pub stopwords : List Bytes
stopwords =
    codes "the"
    ∷ codes "a"
    ∷ codes "an"
    ∷ codes "is"
    ∷ codes "of"
    ∷ codes "to"
    ∷ codes "and"
    ∷ codes "or"
    ∷ codes "for"
    ∷ codes "in"
    ∷ codes "on"
    ∷ codes "that"
    ∷ codes "this"
    ∷ []

unfoldable pub is_word_in : Bytes → List Bytes → Bool
is_word_in w [] = false
is_word_in w (x ∷ xs) = ite (bytes_discrete x w) true (is_word_in w xs)

module _ (unicode : Unicode) where
  -- `next` is the rune behind `cur`, where there is one.
  unfoldable pub camel_boundary : ℕ → ℕ → Option ℕ → Bool
  camel_boundary prev cur next =
      if unicode.is_lower prev && unicode.is_upper cur
      then true
      else if unicode.is_upper prev
          && unicode.is_upper cur
          && elim next [ none ↦ false | some n ↦ unicode.is_lower n ]
      then true
      else if unicode.is_letter prev
      then not (unicode.is_letter cur)
      else unicode.is_letter cur

  unfoldable pub first : Bytes → Option ℕ
  first [] = none
  first (c ∷ w) = some c

  -- The rest of the segment that `prev` is in, then the segments behind it.
  unfoldable pub split_behind : ℕ → Bytes → Bytes × List Bytes
  split_behind prev [] = ([], [])
  split_behind prev (c ∷ w) =
      let rest = split_behind c w in
      if◌then◌else◌ {A = Bytes × List Bytes} (camel_boundary prev c (first w))
        ([], (c ∷ rest.0) ∷ rest.1) (c ∷ rest.0, rest.1)

  unfoldable pub split_camel : Bytes → List Bytes
  split_camel [] = []
  split_camel (c ∷ w) = let rest = split_behind c w in (c ∷ rest.0) ∷ rest.1

  -- `FieldsFunc` on the runes that are neither letters nor digits: the maximal runs of the others.
  -- The first component is the run that starts here.
  unfoldable pub fields : Bytes → Bytes × List Bytes
  fields [] = ([], [])
  fields (c ∷ s) =
      let rest = fields s in
      if◌then◌else◌ {A = Bytes × List Bytes} (unicode.is_letter c || unicode.is_digit c)
        (c ∷ rest.0, rest.1) ([], rest.0 ∷ rest.1)

  unfoldable pub drop_empty : List Bytes → List Bytes
  drop_empty [] = []
  drop_empty ([] ∷ ws) = drop_empty ws
  drop_empty ((c ∷ w) ∷ ws) = (c ∷ w) ∷ drop_empty ws

  unfoldable pub split_on_non_alnum : Bytes → List Bytes
  split_on_non_alnum s = let fs = fields s in drop_empty (fs.0 ∷ fs.1)

  -- The segments of a word whose lower case is `lw` that are tokens of their own.
  unfoldable pub sub_tokens : Bytes → List Bytes → List Bytes
  sub_tokens lw [] = []
  sub_tokens lw (sub ∷ subs) =
      let ls = unicode.to_lower sub in
      let rest = sub_tokens lw subs in
      ite (bytes_discrete ls lw) rest (elim ls [
        | [] ↦ rest
        | c ∷ cs ↦ if is_word_in (c ∷ cs) stopwords then rest else (c ∷ cs) ∷ rest
      ])

  unfoldable pub word_tokens : Bytes → List Bytes
  word_tokens w =
      let lw = unicode.to_lower w in
      let subs = sub_tokens lw (split_camel w) in
      if is_word_in lw stopwords then subs else lw ∷ subs

  unfoldable pub tokens_of : List Bytes → List Bytes
  tokens_of [] = []
  tokens_of (w ∷ ws) = word_tokens w ++ tokens_of ws

  unfoldable pub tokenize : Bytes → List Bytes
  tokenize s = tokens_of (split_on_non_alnum s)
