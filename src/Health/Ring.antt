-- ===== src/Health/Ring.antt =====
-- The slots of the rolling buffer of outcomes (internal/metrics/health/tracker.go,
-- recordErrorOutcome) and one write to them.
pub mod Steps
use mathlib.Core.Bool.{true≢false, false≢true}
use native.Mathlib.Nat.{mod_self, mod-eq_of_lt}
use code_gen_sandbox.Prelude.{
  ltb, ◌==◌, if◌then◌else◌, length, drop, length-append, drop-append_left, drop-drop, length-set,
  get_elem?-append, set-append, ℕ, suc, ◌+◌, ◌-◌, ◌%◌, ◌≤◌, ◌<◌, ◌≡◌, refl, sym, ap, ◌∙◌, Bool,
  true, false, ◌||◌, List, [], ◌∷◌, append_assoc, ◌++◌, arith,
}
use code_gen_sandbox.Health
use code_gen_sandbox.Health.{default_config, Tracker, Flags, record_error_outcome}

abbrev pub errors : List Bool → ℕ
errors [] = 0
errors (true ∷ os) = errors os
errors (false ∷ os) = suc (errors os)

-- The last `n` of a list.
abbrev pub last {ℓ} : {A : Type ℓ} → ℕ → List A → List A
last n os = drop (length os - n) os

-- `pre` is in the slots before the index, `post` from it on. Until the buffer has been filled
-- once `pre` is the history; after that the oldest outcome is at the index.
pub record IsRing (t : Tracker) (history : List Bool) : Type 0 where
  pub pre : List Bool
  pub post : List Bool
  pub slots : t.err_buf ≡ pre ++ post
  pub index : t.err_buf_idx ≡ length pre
  pub inside : 0 < length post
  pub filling : t.err_buf_full ≡ false → (pre ≡ history) × (t.err_count ≡ errors history)
  pub rolling :
      t.err_buf_full ≡ true
      → (post ++ pre ≡ last (length t.err_buf) history)
        × (t.err_count ≡ errors (post ++ pre))
        × (length t.err_buf ≤ length history)

errors-append : (xs ys : List Bool) → errors (xs ++ ys) ≡ errors xs + errors ys
errors-append [] ys = omega arith
errors-append (true ∷ xs) ys = errors-append xs ys
errors-append (false ∷ xs) ys = omega (arith, errors-append xs ys)

-- The rate that the fields of a tracker stand for.
abbrev pub rate_of : Tracker → ℕ × ℕ
rate_of t =
    let n = (if t.err_buf_full then length t.err_buf else t.err_buf_idx) in
    if ltb 0 n then (t.err_count, n) else (0, 0)

-- One call at a slot `x` of a buffer: what the four fields become.
module _ (t : Tracker) (ok : Bool) (pre : List Bool) (x : Bool) (rest : List Bool)
    (slots : t.err_buf ≡ pre ++ x ∷ rest) (index : t.err_buf_idx ≡ length pre) where
  abbrev after : Tracker
  after = record_error_outcome t ok

  pub size : length t.err_buf ≡ length pre + suc (length rest)
  size = ap length slots ∙ length-append pre (x ∷ rest)

  not_empty : (length t.err_buf == 0) ≡ false
  not_empty = ground (arith, size)

  pub after_buf : after.err_buf ≡ pre ++ ok ∷ rest
  unfolding record_error_outcome
  after_buf = rw (not_empty, slots, index, set-append pre x ok rest) refl

  pub after_size : length after.err_buf ≡ length t.err_buf
  after_size = ap length after_buf ∙ omega (arith, size, length-append pre (ok ∷ rest))

  pub after_idx : after.err_buf_idx ≡ (length pre + 1) % (length pre + suc (length rest))
  unfolding record_error_outcome
  after_idx = rw (not_empty, length-set t.err_buf t.err_buf_idx ok, size, index) refl

  after_count_filling : t.err_buf_full ≡ false → after.err_count ≡ t.err_count + errors (ok ∷ [])
  unfolding record_error_outcome
  after_count_filling e = rw (not_empty, e) (ground arith)

  after_count_rolling :
      t.err_buf_full ≡ true → after.err_count ≡ t.err_count - errors (x ∷ []) + errors (ok ∷ [])
  unfolding record_error_outcome Health.slot
  after_count_rolling e =
      rw (not_empty, e, slots, index, get_elem?-append pre x rest, Health.slot) (ground arith)

  pub after_full : after.err_buf_full ≡ (t.err_buf_full || (after.err_buf_idx == 0))
  unfolding record_error_outcome
  after_full = rw not_empty (ground arith)

  pub after_rate : after.gauges.error_rate ≡ rate_of after
  unfolding record_error_outcome
  after_rate = rw not_empty refl

  module _ (history : List Bool) where
    abbrev longer : List Bool
    longer = history ++ ok ∷ []

    length-longer : length longer ≡ length history + 1
    length-longer = length-append history (ok ∷ [])

    -- Behind a full buffer the window moves on by one.
    pub window_moves :
        length t.err_buf ≤ length history
        → (x ∷ rest) ++ pre ≡ last (length t.err_buf) history
        → rest ++ (pre ++ ok ∷ []) ≡ last (length t.err_buf) longer
    window_moves enough window =
        let k = length history - length t.err_buf in
        let next : length longer - length t.err_buf ≡ k + 1 = omega (arith, length-longer) in
        let tail : drop (k + 1) history ≡ rest ++ pre =
          sym (drop-drop 1 k history) ∙ ap (drop 1) (sym window) in
        let cut : k + 1 ≤ length history = omega (arith, size) in
        sym (append_assoc rest pre (ok ∷ []))
        ∙ sym (
            ap (λ n. drop n longer) next
            ∙ drop-append_left (k + 1) history (ok ∷ []) cut
            ∙ ap (λ l. l ++ ok ∷ []) tail)

    pub count_moves :
        t.err_buf_full ≡ true
        → t.err_count ≡ errors ((x ∷ rest) ++ pre)
        → after.err_count ≡ errors (rest ++ (pre ++ ok ∷ []))
    count_moves full counted = omega (
      arith,
      after_count_rolling full,
      errors-append (x ∷ []) (rest ++ pre),
      errors-append rest pre,
      errors-append rest (pre ++ ok ∷ []),
      errors-append pre (ok ∷ []),
    )

    pub count_fills :
        t.err_buf_full ≡ false → t.err_count ≡ errors history → after.err_count ≡ errors longer
    count_fills e counted = omega (arith, after_count_filling e, errors-append history (ok ∷ []))
