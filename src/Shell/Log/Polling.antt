-- ===== src/Shell/Log/Polling.antt =====
-- What a poll of the log returns, against the whole history of a shell.
use code_gen_sandbox.Prelude.{
  length, drop, drop_of_length-le, drop-drop, ℕ, zero, suc, ◌+◌, ◌-◌, ◌<◌, max, ◌≡◌, refl, sym, ap,
  ◌∙◌, if_pos, if_neg, List, [], ◌∷◌, filter, arith, dec_lt,
}
use code_gen_sandbox.Shell.Log.{WatchEvent, WatchState, Tracks, ids, consecutive, events_since}

head-eq : {a b : ℕ} {xs ys : List ℕ} → a ∷ xs ≡ b ∷ ys → (a ≡ b) × (xs ≡ ys)
head-eq e = (cc, cc)

-- On consecutive IDs the test of `Events` cuts the list in one place.
filter_above :
    (since start : ℕ) (l : List WatchEvent)
    → ids l ≡ consecutive (suc start) (length l)
    → filter (λ e. dec_lt since e.id) l ≡ drop (since - start) l
filter_above since start [] h = sym (drop_of_length-le (since - start) [] (omega arith))
filter_above since start (x ∷ l) h =
    let (first, rest) = head-eq h in
    elim (dec_lt since (suc start)) [
      | yes above ↦
          let e : since - start ≡ 0 = omega arith in
          let e' : since - suc start ≡ 0 = omega arith in
          let ih = filter_above since (suc start) l rest in
          let above' : since < x.id = omega arith in
          rw (e, if_pos _ above') (ap (◌∷◌ x) (rw e' at ih))
      | no below ↦
          let e : since - start ≡ suc (since - suc start) = omega arith in
          let below' : ¬ (since < x.id) = omega arith in
          rw (e, if_neg _ below') (filter_above since (suc start) l rest)
    ]

ids-drop :
    (k start : ℕ) (l : List WatchEvent)
    → ids l ≡ consecutive (suc start) (length l)
    → ids (drop k l) ≡ consecutive (suc (start + k)) (length (drop k l))
ids-drop zero start l h = let e : start + 0 ≡ start = omega arith in rw e h
ids-drop (suc k) start [] h = refl
ids-drop (suc k) start (x ∷ l) h =
    let e : start + suc k ≡ suc start + k = omega arith in
    rw e (ids-drop k (suc start) l (head-eq h).1)

-- A poll returns, in order, exactly the events of the history after the ID that the client has
-- seen, except those that the cap has dropped, and the count of the dropped ones.
pub events_since-Tracks :
    (w : WatchState) (history : List WatchEvent) (since : ℕ)
    → Tracks w history
    → events_since w since ≡ (drop (max since w.events_dropped) history, w.events_dropped)
unfolding events_since
events_since-Tracks w history since t =
    let offset : 0 + w.events_dropped ≡ w.events_dropped = omega arith in
    let numbered = ids-drop w.events_dropped 0 history t.numbered in
    let e : w.events_dropped + (since - w.events_dropped) ≡ max since w.events_dropped =
      omega arith in
    ap (λ l. (l, w.events_dropped))
      (rw t.window (
        filter_above since w.events_dropped (drop w.events_dropped history) (rw offset at numbered)
        ∙ drop-drop (since - w.events_dropped) w.events_dropped history
        ∙ ap (λ k. drop k history) e))
