-- ===== src/Search/Index/Counts.antt =====
-- Words and their counts (internal/search/index.go: countToken, unique, the updates of `df`).
use code_gen_sandbox.Prelude.Maps
use code_gen_sandbox.Search.Index.{
  or_zero, count_token, unseen, unique, df_of, count_up, count_down,
}
use code_gen_sandbox.Prelude.{
  if◌then◌else◌, ℕ, ◌+◌, ◌-◌, min, ◌≡◌, ite, Bool, true, false, List, [], ◌∷◌, arith, Bytes,
  bytes_discrete,
}

-- 1 where the word occurs, 0 where it does not.
abbrev pub present : List Bytes → Bytes → ℕ
present toks t = min 1 (count_token toks t)

unseen_lem :
    (seen : Bytes → Bool) (s : List Bytes) (t : Bytes)
    → count_token (unseen seen s) t ≡ (if seen t then 0 else present s t)
unfolding unseen count_token
unseen_lem seen [] t = ground arith
unseen_lem seen (v ∷ s) t =
    let a = unseen_lem seen s t in
    let b = unseen_lem (λ w. ite (bytes_discrete v w) true (seen w)) s t in ground arith

pub count_token-unique : (s : List Bytes) (t : Bytes) → count_token (unique s) t ≡ present s t
unfolding unique
count_token-unique s t = unseen_lem (λ w. false) s t

df_of-insert :
    (df : List (Bytes × ℕ)) (k : Bytes) (n : ℕ) (t : Bytes)
    → df_of (Maps.insert bytes_discrete k n df) t ≡ ite (bytes_discrete k t) n (df_of df t)
unfolding df_of or_zero
df_of-insert df k n t = rw (Maps.lookup-insert bytes_discrete k t n df) (ground arith)

df_of-remove :
    (df : List (Bytes × ℕ)) (k t : Bytes)
    → df_of (Maps.remove bytes_discrete k df) t ≡ ite (bytes_discrete k t) 0 (df_of df t)
unfolding df_of or_zero
df_of-remove df k t = rw (Maps.lookup-remove bytes_discrete k t df) (ground arith)

pub count_up_lem :
    (df : List (Bytes × ℕ)) (ts : List Bytes) (t : Bytes)
    → df_of (count_up df ts) t ≡ df_of df t + count_token ts t
unfolding count_up count_token
count_up_lem df [] t = omega arith
count_up_lem df (v ∷ ts) t =
    let a = count_up_lem (Maps.insert bytes_discrete v (df_of df v + 1) df) ts t in
    let b = df_of-insert df v (df_of df v + 1) t in ground arith

pub count_down_lem :
    (df : List (Bytes × ℕ)) (ts : List Bytes) (t : Bytes)
    → df_of (count_down df ts) t ≡ df_of df t - count_token ts t
unfolding count_down count_token
count_down_lem df [] t = omega arith
count_down_lem df (v ∷ ts) t =
    let a = count_down_lem (Maps.remove bytes_discrete v df) ts t in
    let b = count_down_lem (Maps.insert bytes_discrete v (df_of df v - 1) df) ts t in
    let c = df_of-remove df v t in let d = df_of-insert df v (df_of df v - 1) t in ground arith
