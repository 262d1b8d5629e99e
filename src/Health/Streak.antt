-- ===== src/Health/Streak.antt =====
-- The test-failure streak, against the list of failure counts, newest first.
use code_gen_sandbox.Prelude.{
  drop, ℕ, zero, suc, ◌≤◌, ◌<◌, ◌≡◌, refl, ◌≢◌, ◌⊎◌, inl, inr, true, false, List, [], ◌∷◌, arith,
  dec_lt,
}
use code_gen_sandbox.Health
use code_gen_sandbox.Health.{Tracker, Flags, observe_test_result}

-- Apply the hook to the counts, the last of the list first.
unfoldable pub observe_tests : Tracker → List ℕ → Tracker
observe_tests t [] = t
observe_tests t (f ∷ fs) = observe_test_result (observe_tests t fs) f

-- The newest run counts: it failed, and did not fail less than the run before it.
abbrev pub IsStuck : List ℕ → Type 0
IsStuck [] = ⊥
IsStuck (f ∷ []) = f ≢ 0
IsStuck (f ∷ g ∷ fs) = (f ≢ 0) × (g ≤ f)

-- `n` runs in a row count, and the run before them does not.
abbrev pub IsStreak : ℕ → List ℕ → Type 0
IsStreak n fs = ((i : ℕ) → i < n → IsStuck (drop i fs)) × ¬ IsStuck (drop n fs)

observed :
    (t : Tracker) (f : ℕ) (fs : List ℕ)
    → let t' = observe_tests t (f ∷ fs) in (t'.last_failures ≡ f) × (t'.have_last ≡ true)
unfolding observe_tests observe_test_result
observed t f fs = (refl, refl)

grow-IsStreak :
    (n f : ℕ) (fs : List ℕ) → IsStreak n fs → IsStuck (f ∷ fs) → IsStreak (suc n) (f ∷ fs)
grow-IsStreak n f fs s h = (each, s.1)
  where
    each : (i : ℕ) → i < suc n → IsStuck (drop i (f ∷ fs))
    each zero lt = h
    each (suc i) lt = s.0 i (omega arith)

none-IsStreak : (fs : List ℕ) → ¬ IsStuck fs → IsStreak 0 fs
none-IsStreak fs h = (λ i lt. absurd (omega arith), h)

-- What the tracker remembers of the runs so far.
abbrev Remembers : Tracker → List ℕ → Type 0
Remembers t [] = t.have_last ≡ false
Remembers t (g ∷ fs) = (t.last_failures ≡ g) × (t.have_last ≡ true)

verdict :
    (t : Tracker) (f : ℕ) (fs : List ℕ)
    → Remembers t fs
    → (((observe_test_result t f).streak ≡ 0) × ¬ IsStuck (f ∷ fs))
      ⊎ (((observe_test_result t f).streak ≡ suc t.streak) × IsStuck (f ∷ fs))
unfolding observe_test_result
verdict t zero [] r = inl (refl, λ h. h refl)
verdict t (suc f) [] r = inr (ground arith, omega arith)
verdict t zero (g ∷ fs) r = inl (refl, λ h. h.0 refl)
verdict t (suc f) (g ∷ fs) r = elim (dec_lt (suc f) g) [
  | yes p ↦ inl (ground arith, λ h. omega arith)
  | no p ↦ inr (ground arith, (omega arith, omega arith))
]

step-IsStreak :
    (t : Tracker) (f : ℕ) (fs : List ℕ)
    → Remembers t fs
    → IsStreak t.streak fs
    → IsStreak (observe_test_result t f).streak (f ∷ fs)
step-IsStreak t f fs r s = elim (verdict t f fs r) [
  | inl (e, h) ↦ rw e (none-IsStreak (f ∷ fs) h)
  | inr (e, h) ↦ rw e (grow-IsStreak t.streak f fs s h)
]

remembered : (flags : Flags) (fs : List ℕ) → Remembers (observe_tests (Health.new flags) fs) fs
unfolding observe_tests Health.new
remembered flags [] = refl
remembered flags (f ∷ fs) = observed (Health.new flags) f fs

tests-IsStreak :
    (flags : Flags) (fs : List ℕ) → IsStreak (observe_tests (Health.new flags) fs).streak fs
unfolding observe_tests
tests-IsStreak flags [] = unfold Health.new in none-IsStreak [] (λ h. h)
tests-IsStreak flags (f ∷ fs) =
    step-IsStreak (observe_tests (Health.new flags) fs) f fs (remembered flags fs)
      (tests-IsStreak flags fs)

streak_gauge :
    (flags : Flags) (fs : List ℕ)
    → let t = observe_tests (Health.new flags) fs in t.gauges.failure_streak ≡ t.streak
unfolding observe_tests observe_test_result Health.new
streak_gauge flags [] = refl
streak_gauge flags (f ∷ fs) = refl

-- After any test results the streak is the length of the longest run of the newest results
-- that each failed and did not fail less than the result before it, and the gauge shows it.
pub streak_lem :
    (flags : Flags) (fs : List ℕ)
    → let t = observe_tests (Health.new flags) fs in
      IsStreak t.streak fs × (t.gauges.failure_streak ≡ t.streak)
streak_lem flags fs = (tests-IsStreak flags fs, streak_gauge flags fs)
