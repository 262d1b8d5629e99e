-- ===== src/Health/ErrorRate.antt =====
-- The published error rate against the list of all outcomes (internal/metrics/health/tracker.go).
use mathlib.Core.Bool.{false≢true}
use code_gen_sandbox.Prelude.{
  ltb, if◌then◌else◌, lt→ltb, Bool-cases, length, replicate, length-append, length-replicate, ℤ,
  pos, negsuc, ℕ, suc, ◌-◌, ◌<◌, min, ◌≡◌, refl, ap, ◌∙◌, inl, inr, Bool, false, List, [], ◌∷◌,
  append_assoc, append-nil, ◌++◌, arith,
}
use code_gen_sandbox.Health
use code_gen_sandbox.Health.{default_config, Tracker, Flags, record_error_outcome}
use code_gen_sandbox.Health.Ring.{IsRing, after_rate, after_size, errors, last, rate_of}
use code_gen_sandbox.Health.Ring.Steps.{record_error_outcome-IsRing}

unfoldable pub record_all : Tracker → List Bool → Tracker
record_all t [] = t
record_all t (o ∷ os) = record_all (record_error_outcome t o) os

record_all-snoc :
    (t : Tracker) (os : List Bool) (o : Bool)
    → record_all t (os ++ o ∷ []) ≡ record_error_outcome (record_all t os) o
unfolding record_all
record_all-snoc t [] o = refl
record_all-snoc t (p ∷ os) o = record_all-snoc (record_error_outcome t p) os o

record_all-IsRing :
    (t : Tracker) (os history : List Bool)
    → IsRing t history
    → IsRing (record_all t os) (history ++ os)
unfolding record_all
record_all-IsRing t [] history r = rw append-nil r
record_all-IsRing t (o ∷ os) history r = rw (← append_assoc history (o ∷ []) os) (
    record_all-IsRing (record_error_outcome t o) os (history ++ o ∷ [])
      (record_error_outcome-IsRing t o history r))

or_default_pos : (z : ℤ) (d : ℕ) → 0 < d → 0 < Health.or_default z d
unfolding Health.or_default
or_default_pos (pos n) d h = ground arith
or_default_pos (negsuc n) d h = h

new-IsRing : (flags : Flags) → IsRing (Health.new flags) []
unfolding Health.new
new-IsRing flags =
    let n = Health.or_default flags.error_rate_window default_config.error_rate_window in
    let positive : 0 < n = or_default_pos flags.error_rate_window 100 (omega arith) in
    record {
      pre = [];
      post = replicate n false;
      slots = refl;
      index = refl;
      inside = omega (arith, length-replicate n false);
      filling = λ e. (refl, refl);
      rolling = λ e. absurd (false≢true e);
    }

new_size :
    (flags : Flags) → length (Health.new flags).err_buf ≡ (Health.new flags).cfg.error_rate_window
unfolding Health.new
new_size flags = length-replicate _ false

rate_of_length :
    (history : List Bool)
    → if◌then◌else◌ {A = ℕ × ℕ} (ltb 0 (length history)) (errors history, length history) (0, 0)
      ≡ (errors history, length history)
rate_of_length [] = refl
rate_of_length (o ∷ history) = rw (lt→ltb 0 (suc (length history)) (omega arith)) refl

-- What the fields stand for: the errors among the last calls, at most a window of them.
published :
    (t : Tracker) (history : List Bool)
    → IsRing t history
    → rate_of t
      ≡ (errors (last (length t.err_buf) history), min (length t.err_buf) (length history))
published t history r = elim (Bool-cases t.err_buf_full) [
  | inl full ↦
      let (window, counted, enough) = r.rolling full in
      let count : t.err_count ≡ errors (last (length t.err_buf) history) =
        counted ∙ ap errors window in
      let positive : 0 < length t.err_buf =
        omega (arith, ap length r.slots, length-append r.pre r.post, r.inside) in
      let shorter : min (length t.err_buf) (length history) ≡ length t.err_buf = omega arith in
      rw full (rw (lt→ltb 0 (length t.err_buf) positive, shorter, count) refl)
  | inr e ↦
      let (same, counted) = r.filling e in
      let whole : length history - length t.err_buf ≡ 0 =
        omega (arith, ap length r.slots, ap length same, length-append r.pre r.post) in
      let index : t.err_buf_idx ≡ length history = r.index ∙ ap length same in
      let shorter : min (length t.err_buf) (length history) ≡ length history =
        omega (arith, whole) in
      rw e (rw (whole, shorter, index, counted) (rate_of_length history))
]

at_slot_rate :
    (t : Tracker) (ok : Bool) (pre post : List Bool)
    → t.err_buf ≡ pre ++ post
    → t.err_buf_idx ≡ length pre
    → 0 < length post
    → let t' = record_error_outcome t ok in
      (t'.gauges.error_rate ≡ rate_of t') × (length t'.err_buf ≡ length t.err_buf)
at_slot_rate t ok pre [] s i h = absurd (omega arith)
at_slot_rate t ok pre (x ∷ rest) s i h =
    (after_rate t ok pre x rest s i, after_size t ok pre x rest s i)

length-record_all :
    (t : Tracker) (os history : List Bool)
    → IsRing t history
    → length (record_all t os).err_buf ≡ length t.err_buf
unfolding record_all
length-record_all t [] history r = refl
length-record_all t (o ∷ os) history r =
    length-record_all (record_error_outcome t o) os _ (record_error_outcome-IsRing t o history r)
    ∙ (at_slot_rate t o r.pre r.post r.slots r.index r.inside).1

-- After any outcomes, the last of them `o`, the published rate is the exact number of errors
-- among the last `w` calls over the number of those calls, for the window `w` that the flags
-- give: the flag itself where it is positive, and 100 where not.
pub error_rate-record_all :
    (flags : Flags) (os : List Bool) (o : Bool)
    → let w = (Health.new flags).cfg.error_rate_window in
      let history = os ++ o ∷ [] in
      (record_all (Health.new flags) history).gauges.error_rate
      ≡ (errors (last w history), min w (length history))
error_rate-record_all flags os o =
    let t = Health.new flags in
    let before = record_all t os in
    let r = record_all-IsRing t os [] (new-IsRing flags) in
    let (rate, same) = at_slot_rate before o r.pre r.post r.slots r.index r.inside in
    let kept : length (record_error_outcome before o).err_buf ≡ t.cfg.error_rate_window =
      same ∙ length-record_all t os [] (new-IsRing flags) ∙ new_size flags in
    rw record_all-snoc (
      rate
      ∙ published (record_error_outcome before o) (os ++ o ∷ [])
          (record_error_outcome-IsRing before o os r)
      ∙ ap (λ n. (errors (last n (os ++ o ∷ [])), min n (length (os ++ o ∷ [])))) kept)
