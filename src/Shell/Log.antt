-- ===== src/Shell/Log.antt =====
-- The event log of a watched shell: `watchState`, `appendEventLocked` and `Events` of
-- internal/tools/shell_registry.go. Times are nanoseconds, 0 the zero time.
pub mod Polling
use native.Mathlib.Numerals.{add-one}
use code_gen_sandbox.Prelude.{
  ltb, leb, if◌then◌else◌, leb→le, leb_false→lt, Bool-cases, length, drop, length-append,
  length-drop, drop-append_left, drop-drop, ℤ, ℕ, zero, suc, ◌+◌, ◌-◌, ◌/◌, ◌≤◌, ◌≡◌, refl, ap, ◌∙◌,
  inl, inr, Bool, List, [], ◌∷◌, ◌++◌, map, filter, arith, dec_lt, Bytes,
}

pub data WatchEventType : Type 0 where
  started error idle_timeout exited : WatchEventType

pub record WatchEvent : Type 0 where
  pub id : ℕ
  pub event_type : WatchEventType
  pub at : ℕ
  pub pattern_source : Bytes
  pub line : Bytes
  pub exit_code : ℤ

abbrev pub watch_event_cap : ℕ
watch_event_cap = 1024

-- A compiled pattern is the test that it makes of a line.
pub record WatchState : Type 0 where
  pub patterns : List (Bytes → Bool)
  pub pattern_sources : List Bytes
  pub events : List WatchEvent
  pub next_event_id : ℕ
  pub events_dropped : ℕ
  pub idle_timeout : ℕ
  pub last_output_at : ℕ

-- How many entries go when the log is full.
abbrev drop_size : ℕ
drop_size = let tenth : ℕ = watch_event_cap / 10 in if ltb tenth 1 then 1 else tenth

make_room : WatchState → WatchState
make_room w =
    if leb watch_event_cap (length w.events)
    then record w {
      events = drop drop_size w.events;
      events_dropped = w.events_dropped + drop_size;
    }
    else w

unfoldable pub append_event : WatchState → ℕ → WatchEventType → Bytes → Bytes → ℤ → WatchState
unfolding make_room
append_event w now event_type source line exit_code =
    let id = w.next_event_id + 1 in
    let event : WatchEvent = record {
      id = id;
      event_type = event_type;
      at = now;
      pattern_source = source;
      line = line;
      exit_code = exit_code;
    } in
    let roomy = make_room (record w { next_event_id = id }) in
    record roomy { events = roomy.events ++ event ∷ [] }

-- Every retained event with an ID above `since`, and the count of dropped events.
unfoldable pub events_since : WatchState → ℕ → List WatchEvent × ℕ
events_since w since = (filter (λ e. dec_lt since e.id) w.events, w.events_dropped)

abbrev pub ids : List WatchEvent → List ℕ
ids = map (λ e. e.id)

-- `n` numbers in a row, from `start`.
abbrev pub consecutive : ℕ → ℕ → List ℕ
consecutive start zero = []
consecutive start (suc n) = start ∷ consecutive (suc start) n

-- The log beside the history that it was fed: a window on its end, with the counters exact.
pub record Tracks (w : WatchState) (history : List WatchEvent) : Type 0 where
  pub window : w.events ≡ drop w.events_dropped history
  pub counted : w.next_event_id ≡ length history
  pub dropped_le : w.events_dropped ≤ length history
  pub bounded : length w.events ≤ watch_event_cap
  pub numbered : ids history ≡ consecutive 1 (length history)

consecutive_end :
    (n start : ℕ) → consecutive start n ++ (start + n) ∷ [] ≡ consecutive start (n + 1)
consecutive_end zero start = let e : start + 0 ≡ start = omega arith in rw e
consecutive_end (suc n) start =
    let e : start + suc n ≡ suc start + n = omega arith in
    let step : n + 1 ≡ suc n = omega arith in
    rw (add-one, e)
      (ap (◌∷◌ start) (consecutive_end n (suc start) ∙ ap (consecutive (suc start)) step))

ids-append : (xs ys : List WatchEvent) → ids (xs ++ ys) ≡ ids xs ++ ids ys
ids-append [] ys = refl
ids-append (x ∷ xs) ys = ap (◌∷◌ x.id) (ids-append xs ys)

abbrev pub event_of : WatchState → ℕ → WatchEventType → Bytes → Bytes → ℤ → WatchEvent
event_of w now event_type source line exit_code = record {
  id = w.next_event_id + 1;
  event_type = event_type;
  at = now;
  pattern_source = source;
  line = line;
  exit_code = exit_code;
}

module _ (w : WatchState) (history : List WatchEvent) (t : Tracks w history) (now : ℕ)
    (event_type : WatchEventType) (source line : Bytes) (exit_code : ℤ) where
  abbrev appended : WatchState
  appended = append_event w now event_type source line exit_code

  abbrev event : WatchEvent
  event = event_of w now event_type source line exit_code

  length-events : length w.events ≡ length history - w.events_dropped
  length-events = ap length t.window ∙ length-drop w.events_dropped history

  -- A full log has enough behind the window for the events that go.
  room : watch_event_cap ≤ length w.events → w.events_dropped + drop_size ≤ length history
  room full = omega (arith, length-events)

  append_window : appended.events ≡ drop appended.events_dropped (history ++ event ∷ [])
  unfolding append_event
  append_window = elim (Bool-cases (leb watch_event_cap (length w.events))) [
    | inl full ↦
        let enough = room (leb→le _ _ full) in
        rw full (
          rw (drop-append_left (w.events_dropped + drop_size) history (event ∷ []) enough, t.window)
            (ap (λ l. l ++ event ∷ []) (drop-drop drop_size w.events_dropped history)))
    | inr free ↦
        rw free
          (rw (drop-append_left w.events_dropped history (event ∷ []) t.dropped_le, t.window) refl)
  ]

  append_dropped : appended.events_dropped ≤ length (history ++ event ∷ [])
  unfolding append_event
  append_dropped = elim (Bool-cases (leb watch_event_cap (length w.events))) [
    | inl full ↦ rw full (omega (arith, room (leb→le _ _ full), length-append history (event ∷ [])))
    | inr free ↦ rw free (omega (arith, t.dropped_le, length-append history (event ∷ [])))
  ]

  append_bounded : length appended.events ≤ watch_event_cap
  unfolding append_event
  append_bounded = elim (Bool-cases (leb watch_event_cap (length w.events))) [
    | inl full ↦ rw full (
        omega (
          arith,
          t.bounded,
          length-drop drop_size w.events,
          length-append (drop drop_size w.events) (event ∷ []),
        ))
    | inr free ↦ rw free (omega (arith, leb_false→lt _ _ free, length-append w.events (event ∷ [])))
  ]

  append_counted : appended.next_event_id ≡ length (history ++ event ∷ [])
  unfolding append_event
  append_counted = elim (Bool-cases (leb watch_event_cap (length w.events))) [
    | inl full ↦ rw full (omega (arith, t.counted, length-append history (event ∷ [])))
    | inr free ↦ rw free (omega (arith, t.counted, length-append history (event ∷ [])))
  ]

  append_numbered : ids (history ++ event ∷ []) ≡ consecutive 1 (length (history ++ event ∷ []))
  append_numbered =
      rw
        (ids-append history (event ∷ []), length-append history (event ∷ []), t.numbered, t.counted)
        (ap (λ k. consecutive 1 (length history) ++ k ∷ []) (omega arith)
          ∙ consecutive_end (length history) 1)

  pub append_event-Tracks : Tracks appended (history ++ event ∷ [])
  append_event-Tracks = record {
    window = append_window;
    counted = append_counted;
    dropped_le = append_dropped;
    bounded = append_bounded;
    numbered = append_numbered;
  }

-- An append leaves the configuration of the watch alone.
pub append_event-patterns :
    (w : WatchState) (now : ℕ) (event_type : WatchEventType) (source line : Bytes) (exit_code : ℤ)
    → let w' = append_event w now event_type source line exit_code in
      (w'.patterns ≡ w.patterns) × (w'.pattern_sources ≡ w.pattern_sources)
unfolding append_event
append_event-patterns w now event_type source line exit_code =
    elim (Bool-cases (leb watch_event_cap (length w.events))) [
      | inl full ↦ (rw full refl, rw full refl)
      | inr free ↦ (rw free refl, rw free refl)
    ]
