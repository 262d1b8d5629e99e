-- ===== src/Health/Ring/Steps.antt =====
-- A write that fills, wraps or moves the rolling buffer (internal/metrics/health/tracker.go,
-- recordErrorOutcome), against the history.
use mathlib.Core.Bool.{true≢false}
use native.Mathlib.Nat.{mod_self, mod-eq_of_lt}
use code_gen_sandbox.Prelude.{
  Bool-cases, length, length-append, ◌+◌, ◌-◌, ◌≤◌, ◌<◌, ◌≡◌, sym, ap, ◌∙◌, inl, inr, Bool, true,
  false, List, [], ◌∷◌, append_assoc, append-nil, ◌++◌, arith,
}
use code_gen_sandbox.Health.{Tracker, record_error_outcome}
use code_gen_sandbox.Health.Ring.{
  window_moves, count_moves, count_fills, IsRing, after_buf, after_full, after_idx, after_size,
  errors, last, size,
}

-- The slot that was written is the last one: the buffer is full from now on.
module _ (t : Tracker) (ok : Bool) (pre : List Bool) (x : Bool) (history : List Bool)
    (slots : t.err_buf ≡ pre ++ x ∷ []) (index : t.err_buf_idx ≡ length pre)
    (filling : t.err_buf_full ≡ false → (pre ≡ history) × (t.err_count ≡ errors history))
    (rolling : t.err_buf_full ≡ true
      → ((x ∷ []) ++ pre ≡ last (length t.err_buf) history)
        × (t.err_count ≡ errors ((x ∷ []) ++ pre))
        × (length t.err_buf ≤ length history)) where
  abbrev wrapped : Tracker
  wrapped = record_error_outcome t ok

  wrap_index : wrapped.err_buf_idx ≡ 0
  wrap_index = after_idx t ok pre x [] slots index ∙ mod_self (length pre + 1)

  wrap_full : wrapped.err_buf_full ≡ true
  wrap_full = ground (arith, after_full t ok pre x [] slots index, wrap_index)

  wrap_window : pre ++ ok ∷ [] ≡ last (length t.err_buf) (history ++ ok ∷ [])
  wrap_window = elim (Bool-cases t.err_buf_full) [
    | inl full ↦ window_moves t ok pre x [] slots index history (rolling full).2 (rolling full).0
    | inr e ↦
        let same = (filling e).0 in
        let all : length (history ++ ok ∷ []) - length t.err_buf ≡ 0 = omega (
          arith,
          size t ok pre x [] slots index,
          length-append history (ok ∷ []),
          ap length same,
        ) in
        rw (same, all)
  ]

  wrap_count : wrapped.err_count ≡ errors (pre ++ ok ∷ [])
  wrap_count = elim (Bool-cases t.err_buf_full) [
    | inl full ↦ count_moves t ok pre x [] slots index history full (rolling full).1
    | inr e ↦
        count_fills t ok pre x [] slots index history e (filling e).1
        ∙ ap (λ l. errors (l ++ ok ∷ [])) (sym (filling e).0)
  ]

  wrap_enough : length t.err_buf ≤ length (history ++ ok ∷ [])
  wrap_enough = elim (Bool-cases t.err_buf_full) [
    | inl full ↦ omega (arith, (rolling full).2, length-append history (ok ∷ []))
    | inr e ↦ omega (
      arith,
      size t ok pre x [] slots index,
      length-append history (ok ∷ []),
      ap length (filling e).0,
    )
  ]

  wrap-IsRing : IsRing wrapped (history ++ ok ∷ [])
  wrap-IsRing =
      let same_size = after_size t ok pre x [] slots index in
      record {
        pre = [];
        post = pre ++ ok ∷ [];
        slots = after_buf t ok pre x [] slots index;
        index = wrap_index;
        inside = omega (arith, length-append pre (ok ∷ []));
        filling = λ e. absurd (true≢false (sym wrap_full ∙ e));
        rolling = λ e. (
          append-nil (pre ++ ok ∷ [])
              ∙ wrap_window
              ∙ ap (λ n. last n (history ++ ok ∷ [])) (sym same_size),
          wrap_count ∙ ap errors (sym (append-nil (pre ++ ok ∷ []))),
          omega (arith, wrap_enough, same_size),
        );
      }

-- The slot that was written is not the last one.
module _ (t : Tracker) (ok : Bool) (pre : List Bool) (x y : Bool) (rest history : List Bool)
    (slots : t.err_buf ≡ pre ++ x ∷ y ∷ rest) (index : t.err_buf_idx ≡ length pre) where
  abbrev moved : Tracker
  moved = record_error_outcome t ok

  move_index : moved.err_buf_idx ≡ length pre + 1
  move_index = after_idx t ok pre x (y ∷ rest) slots index ∙ mod-eq_of_lt (omega arith)

  move_full : moved.err_buf_full ≡ t.err_buf_full
  move_full = ground (arith, after_full t ok pre x (y ∷ rest) slots index, move_index)

  move-IsRing :
      (t.err_buf_full ≡ false → (pre ≡ history) × (t.err_count ≡ errors history))
      → (t.err_buf_full ≡ true
          → ((x ∷ y ∷ rest) ++ pre ≡ last (length t.err_buf) history)
            × (t.err_count ≡ errors ((x ∷ y ∷ rest) ++ pre))
            × (length t.err_buf ≤ length history))
      → IsRing moved (history ++ ok ∷ [])
  move-IsRing filling rolling =
      let same_size = after_size t ok pre x (y ∷ rest) slots index in
      record {
        pre = pre ++ ok ∷ [];
        post = y ∷ rest;
        slots =
            after_buf t ok pre x (y ∷ rest) slots index
            ∙ sym (append_assoc pre (ok ∷ []) (y ∷ rest));
        index = move_index ∙ omega (arith, length-append pre (ok ∷ []));
        inside = omega arith;
        filling = λ e.
            let (same, counted) = filling (sym move_full ∙ e) in
            (
              ap (λ l. l ++ ok ∷ []) same,
              count_fills t ok pre x (y ∷ rest) slots index history (sym move_full ∙ e) counted,
            );
        rolling = λ e.
            let full = sym move_full ∙ e in
            let (window, counted, enough) = rolling full in
            (
              window_moves t ok pre x (y ∷ rest) slots index history enough window
                  ∙ ap (λ n. last n (history ++ ok ∷ [])) (sym same_size),
              count_moves t ok pre x (y ∷ rest) slots index history full counted,
              omega (arith, enough, same_size, length-append history (ok ∷ [])),
            );
      }

at_slot-IsRing :
    (t : Tracker) (ok : Bool) (pre post history : List Bool)
    → t.err_buf ≡ pre ++ post
    → t.err_buf_idx ≡ length pre
    → 0 < length post
    → (t.err_buf_full ≡ false → (pre ≡ history) × (t.err_count ≡ errors history))
    → (t.err_buf_full ≡ true
        → (post ++ pre ≡ last (length t.err_buf) history)
          × (t.err_count ≡ errors (post ++ pre))
          × (length t.err_buf ≤ length history))
    → IsRing (record_error_outcome t ok) (history ++ ok ∷ [])
at_slot-IsRing t ok pre [] history s i h f r = absurd (omega arith)
at_slot-IsRing t ok pre (x ∷ []) history s i h f r = wrap-IsRing t ok pre x history s i f r
at_slot-IsRing t ok pre (x ∷ y ∷ rest) history s i h f r =
    move-IsRing t ok pre x y rest history s i f r

-- One outcome keeps the buffer the window on the history, whether it fills, wraps or rolls.
pub record_error_outcome-IsRing :
    (t : Tracker) (ok : Bool) (history : List Bool)
    → IsRing t history
    → IsRing (record_error_outcome t ok) (history ++ ok ∷ [])
record_error_outcome-IsRing t ok history r =
    at_slot-IsRing t ok r.pre r.post history r.slots r.index r.inside r.filling r.rolling
