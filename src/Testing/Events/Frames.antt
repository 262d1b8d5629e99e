-- ===== src/Testing/Events/Frames.antt =====
-- What the scan of the events gathers (internal/verify/go_test_failures.go, scanGoEvents).
use code_gen_sandbox.Prelude.Maps
use code_gen_sandbox.Testing.Events.{
  Event, TestKey, key_discrete, FailFrame, apply_event, Scanned, scan_event, scan_events,
  key_sentinel, frames_in_order, scan_go_events,
}
use code_gen_sandbox.Prelude.{
  Bool-cases, All, ℕ, ◌≡◌, refl, sym, ap, ◌∙◌, ◌≢◌, ite, Bool, true, false, ◌||◌, Option, none,
  some, List, [], ◌∷◌, append-nil, ◌++◌, arith, Bytes, codes, bytes_discrete,
}

empty_frame : FailFrame
empty_frame = record { outputs = []; failed = false }

-- The events of one test, in their order.
unfoldable pub events_of : TestKey → List Event → List Event
events_of k [] = []
events_of k (ev ∷ evs) =
    let rest = events_of k evs in ite (key_discrete (ev.pkg, ev.test) k) (ev ∷ rest) rest

unfoldable pub without_key : TestKey → List TestKey → List TestKey
without_key k [] = []
without_key k (j ∷ ks) = let rest = without_key k ks in ite (key_discrete j k) rest (j ∷ rest)

-- The tests with an event, each once, in the order they are first seen.
unfoldable pub keys_of : List Event → List TestKey
keys_of [] = []
keys_of (ev ∷ evs) =
    let rest = keys_of evs in
    elim ev.test [ [] ↦ rest | c ∷ cs ↦ (ev.pkg, c ∷ cs) ∷ without_key (ev.pkg, c ∷ cs) rest ]

unfoldable pub output_events : List Event → List Bytes
output_events [] = []
output_events (ev ∷ evs) =
    let rest = output_events evs in
    ite (bytes_discrete ev.action (codes "output"))
      (elim ev.output [ [] ↦ rest | c ∷ cs ↦ (c ∷ cs) ∷ rest ]) rest

unfoldable pub has_fail : List Event → Bool
has_fail [] = false
has_fail (ev ∷ evs) = ite (bytes_discrete ev.action (codes "fail")) true (has_fail evs)

-- The frame of one test: its outputs that are not empty, its sentinel, and whether it failed.
unfoldable pub frame_of : List Event → TestKey → FailFrame
frame_of evs k = record {
  outputs = output_events (events_of k evs) ++ key_sentinel k ∷ [];
  failed = has_fail (events_of k evs);
}

unfoldable pub frames_of : List Event → List TestKey → List FailFrame
frames_of evs [] = []
frames_of evs (k ∷ ks) = frame_of evs k ∷ frames_of evs ks

-- The frame gathered so far and the events to come.
gathered : FailFrame → List Event → FailFrame
gathered f evs = record {
  outputs = f.outputs ++ output_events evs;
  failed = f.failed || has_fail evs;
}

append-cons : {A : Type 0} (xs : List A) (y : A) (ys : List A) → (xs ++ y ∷ []) ++ ys ≡ xs ++ y ∷ ys
append-cons [] y ys = refl
append-cons (x ∷ xs) y ys = ap (◌∷◌ x) (append-cons xs y ys)

apply_event-outputs :
    (f : FailFrame) (ev : Event) (evs : List Event)
    → (apply_event f ev).outputs ++ output_events evs ≡ f.outputs ++ output_events (ev ∷ evs)
unfolding apply_event output_events
apply_event-outputs f ev evs =
    let e = append-cons f.outputs ev.output (output_events evs) in ground arith

apply_event-failed :
    (f : FailFrame) (ev : Event) (evs : List Event)
    → (apply_event f ev).failed || has_fail evs ≡ f.failed || has_fail (ev ∷ evs)
unfolding apply_event has_fail
apply_event-failed f ev evs =
    let distinct : codes "output" ≢ codes "fail" = (λ e. ground arith) in ground arith

append-nil_frame : (f : FailFrame) → gathered f [] ≡ f
unfolding gathered output_events has_fail
append-nil_frame f = let e = append-nil f.outputs in let b = Bool-cases f.failed in ground arith

apply_event-gathered :
    (f : FailFrame) (ev : Event) (evs : List Event)
    → gathered (apply_event f ev) evs ≡ gathered f (ev ∷ evs)
unfolding gathered
apply_event-gathered f ev evs =
    let e = apply_event-outputs f ev evs in let g = apply_event-failed f ev evs in ground arith

started : List Event → Option FailFrame
started [] = none
started (ev ∷ evs) = some (gathered empty_frame (ev ∷ evs))

-- The frame of a test after more events, by the frame it had.
continued : Option FailFrame → List Event → Option FailFrame
continued none evs = started evs
continued (some f) evs = some (gathered f evs)

frame_or_empty : Option FailFrame → FailFrame
frame_or_empty none = empty_frame
frame_or_empty (some f) = f

scan_event-by_key :
    (s : Scanned) (ev : Event) (k : TestKey)
    → k.1 ≢ []
    → Maps.lookup key_discrete k (scan_event s ev).by_key
      ≡ ite
          (key_discrete (ev.pkg, ev.test) k)
          (some (apply_event (frame_or_empty (Maps.lookup key_discrete k s.by_key)) ev))
          (Maps.lookup key_discrete k s.by_key)
unfolding scan_event frame_or_empty empty_frame
scan_event-by_key s ev k h =
    let key : TestKey = (ev.pkg, ev.test) in
    let a =
      Maps.lookup-insert key_discrete key k
        (apply_event (record { outputs = []; failed = false }) ev) s.by_key in
    let f = frame_or_empty (Maps.lookup key_discrete key s.by_key) in
    let b = Maps.lookup-insert key_discrete key k (apply_event f ev) s.by_key in ground arith

scan_events-by_key :
    (s : Scanned) (evs : List Event) (p : Bytes) (c : ℕ) (cs : Bytes)
    → Maps.lookup key_discrete (p, c ∷ cs) (scan_events s evs).by_key
      ≡ continued (Maps.lookup key_discrete (p, c ∷ cs) s.by_key) (events_of (p, c ∷ cs) evs)
unfolding scan_events events_of continued started frame_or_empty
scan_events-by_key s [] p c cs =
    elim (Maps.lookup key_discrete (p, c ∷ cs) s.by_key) as (λ o. o ≡ continued o []) [
      | none ↦ refl
      | some f ↦ ap some (sym (append-nil_frame f))
    ]
scan_events-by_key s (ev ∷ evs) p c cs =
    let a = scan_event-by_key s ev (p, c ∷ cs) (λ e. ground arith) in
    let b = scan_events-by_key (scan_event s ev) evs p c cs in
    let f = frame_or_empty (Maps.lookup key_discrete (p, c ∷ cs) s.by_key) in
    let g = apply_event-gathered f ev (events_of (p, c ∷ cs) evs) in ground arith

absent : List (TestKey × FailFrame) → List TestKey → List TestKey
absent m [] = []
absent m (k ∷ ks) =
    let rest = absent m ks in
    elim (Maps.lookup key_discrete k m) [ none ↦ k ∷ rest | some f ↦ rest ]

absent-insert :
    (m : List (TestKey × FailFrame)) (k : TestKey) (f : FailFrame) (ks : List TestKey)
    → absent (Maps.insert key_discrete k f m) ks ≡ absent m (without_key k ks)
unfolding absent without_key
absent-insert m k f [] = refl
absent-insert m k f (j ∷ ks) =
    let a = absent-insert m k f ks in
    let b = Maps.lookup-insert key_discrete k j f m in ground arith

absent-named :
    (m : List (TestKey × FailFrame)) (p test : Bytes) (ks : List TestKey)
    → absent m (elim test [ [] ↦ ks | c ∷ cs ↦ (p, c ∷ cs) ∷ without_key (p, c ∷ cs) ks ])
      ≡ elim test [
        | [] ↦ absent m ks
        | c ∷ cs ↦ elim (Maps.lookup key_discrete (p, c ∷ cs) m) [
          | none ↦ (p, c ∷ cs) ∷ absent m (without_key (p, c ∷ cs) ks)
          | some f ↦ absent m (without_key (p, c ∷ cs) ks)
        ]
      ]
unfolding absent
absent-named m p [] ks = refl
absent-named m p (c ∷ cs) ks = refl

absent-empty : (ks : List TestKey) → absent [] ks ≡ ks
unfolding absent Maps.lookup
absent-empty [] = refl
absent-empty (k ∷ ks) = ap (◌∷◌ k) (absent-empty ks)

scan_event-order :
    (s : Scanned) (ev : Event) (ks : List TestKey)
    → (scan_event s ev).order ++ absent (scan_event s ev).by_key ks
      ≡ s.order
        ++ absent s.by_key
            (elim ev.test [ [] ↦ ks | c ∷ cs ↦ (ev.pkg, c ∷ cs) ∷ without_key (ev.pkg, c ∷ cs) ks ])
unfolding scan_event absent frame_or_empty
scan_event-order s ev ks =
    let key : TestKey = (ev.pkg, ev.test) in
    let f = frame_or_empty (Maps.lookup key_discrete key s.by_key) in
    let a = absent-insert s.by_key key (apply_event f ev) ks in
    let b =
      absent-insert s.by_key key (apply_event (record { outputs = []; failed = false }) ev) ks in
    let c = append-cons s.order key (absent s.by_key (without_key key ks)) in
    rw (absent-named s.by_key ev.pkg ev.test ks) (ground arith)

scan_events-order :
    (s : Scanned) (evs : List Event)
    → (scan_events s evs).order ≡ s.order ++ absent s.by_key (keys_of evs)
unfolding scan_events keys_of absent
scan_events-order s [] = sym (append-nil s.order)
scan_events-order s (ev ∷ evs) =
    let a = scan_events-order (scan_event s ev) evs in
    let b = scan_event-order s ev (keys_of evs) in a ∙ b

-- Every key of the list has an event, and a name.
Seen : List Event → List TestKey → Type 0
Seen evs = All (λ k. (k.1 ≢ []) × (events_of k evs ≢ []))

without_key-Seen :
    (evs : List Event) (k : TestKey) (ks : List TestKey) → Seen evs ks → Seen evs (without_key k ks)
unfolding without_key Seen
without_key-Seen evs k [] h = tt
without_key-Seen evs k (j ∷ ks) h =
    elim (key_discrete j k) as (λ d. Seen evs (ite d (without_key k ks) (j ∷ without_key k ks))) [
      | yes p ↦ without_key-Seen evs k ks h.1
      | no n ↦ (h.0, without_key-Seen evs k ks h.1)
    ]

Seen-cons : (ev : Event) (evs : List Event) (ks : List TestKey) → Seen evs ks → Seen (ev ∷ evs) ks
unfolding Seen events_of
Seen-cons ev evs [] h = tt
Seen-cons ev evs (k ∷ ks) h =
    ((h.0.0, (λ e. let n = h.0.1 in ground arith)), Seen-cons ev evs ks h.1)

named-Seen :
    (ev : Event) (evs : List Event) (test : Bytes) (ks : List TestKey)
    → ev.test ≡ test
    → Seen (ev ∷ evs) ks
    → Seen
        (ev ∷ evs)
        (elim test [ [] ↦ ks | c ∷ cs ↦ (ev.pkg, c ∷ cs) ∷ without_key (ev.pkg, c ∷ cs) ks ])
unfolding Seen events_of
named-Seen ev evs [] ks e h = h
named-Seen ev evs (c ∷ cs) ks e h =
    (((λ n. ground arith), (λ n. ground arith)), without_key-Seen (ev ∷ evs) (ev.pkg, c ∷ cs) ks h)

keys_of-Seen : (evs : List Event) → Seen evs (keys_of evs)
unfolding keys_of Seen
keys_of-Seen [] = tt
keys_of-Seen (ev ∷ evs) =
    named-Seen ev evs ev.test (keys_of evs) refl (Seen-cons ev evs (keys_of evs) (keys_of-Seen evs))

frames_in_order-frames_of :
    (evs : List Event) (ks : List TestKey)
    → Seen evs ks
    → frames_in_order (scan_events (record { by_key = []; order = [] }) evs).by_key ks
      ≡ frames_of evs ks
unfolding frames_in_order frames_of Seen frame_of continued started gathered empty_frame Maps.lookup
frames_in_order-frames_of evs [] h = refl
frames_in_order-frames_of evs ((p, []) ∷ ks) h = absurd (h.0.0 refl)
frames_in_order-frames_of evs ((p, c ∷ cs) ∷ ks) h =
    let a = scan_events-by_key (record { by_key = []; order = [] }) evs p c cs in
    let b = frames_in_order-frames_of evs ks h.1 in let n = h.0.1 in ground arith

-- The scan gathers one frame for each test that has an event, in the order in which the tests
-- are first seen. The frame holds the outputs of that test alone that are not empty, in their
-- order, behind them the sentinel with the test's name, and it has failed when one of the
-- test's events is a failure.
pub scan_go_events_lem : (evs : List Event) → scan_go_events evs ≡ frames_of evs (keys_of evs)
unfolding scan_go_events Maps.lookup
scan_go_events_lem evs =
    let s : Scanned = record { by_key = []; order = [] } in
    rw (scan_events-order s evs, absent-empty (keys_of evs))
      (frames_in_order-frames_of evs (keys_of evs) (keys_of-Seen evs))
