-- ===== src/Health/Repetition.antt =====
-- Repeated calls of a tool with the same arguments (internal/metrics/health/tracker.go,
-- recordRepetition).
use code_gen_sandbox.Prelude.{
  leb, if◌then◌else◌, length, length-replicate, ℕ, ◌+◌, ◌*◌, ◌<◌, ◌≡◌, ◌≢◌, ite, Bool, true, false,
  ◌&&◌, not, List, arith, Bytes, bytes_discrete,
}
use code_gen_sandbox.Prelude.Maps
use code_gen_sandbox.Health
use code_gen_sandbox.Health.{
  Tracker, empty_entry, Gauges, settle, is_counted, tool_ring, inc_repetition,
}

-- How often the tool's counter has moved.
abbrev pub repetitions : Gauges → Bytes → ℕ
repetitions g tool = Health.get_or (Maps.lookup bytes_discrete tool g.repetitions) 0

is_counted-insert :
    (counted : List (Bytes × Bool)) (hash other : Bytes)
    → is_counted (Maps.insert bytes_discrete hash true counted) other
      ≡ ite (bytes_discrete hash other) true (is_counted counted other)
unfolding is_counted
is_counted-insert counted hash other =
    ground (arith, Maps.lookup-insert bytes_discrete hash other true counted)

is_counted-remove :
    (counted : List (Bytes × Bool)) (hash other : Bytes)
    → is_counted (Maps.remove bytes_discrete hash counted) other
      ≡ ite (bytes_discrete hash other) false (is_counted counted other)
unfolding is_counted
is_counted-remove counted hash other =
    ground (arith, Maps.lookup-remove bytes_discrete hash other counted)

repetitions-inc :
    (g : Gauges) (tool other : Bytes)
    → repetitions (inc_repetition g tool) other
      ≡ ite (bytes_discrete tool other) (repetitions g tool + 1) (repetitions g other)
unfolding inc_repetition
repetitions-inc g tool other =
    ground
      (arith, Maps.lookup-insert bytes_discrete tool other (repetitions g tool + 1) g.repetitions)

-- The flag of the hash after a call says whether the count has reached the threshold; the flags of
-- other hashes stay; the tool's counter moves by one exactly when the flag goes up, and no other
-- tool's counter moves.
pub settle_lem :
    (count threshold : ℕ) (counted : List (Bytes × Bool)) (g : Gauges) (tool hash : Bytes)
    → let (counted', g') = settle count threshold counted g tool hash in
      (is_counted counted' hash ≡ leb threshold count)
      × ((other : Bytes) → other ≢ hash → is_counted counted' other ≡ is_counted counted other)
      × (repetitions g' tool
          ≡ repetitions g tool
            + (if leb threshold count && not (is_counted counted hash) then 1 else 0))
      × ((other : Bytes) → other ≢ tool → repetitions g' other ≡ repetitions g other)
unfolding settle
settle_lem count threshold counted g tool hash = (
  ground (arith, is_counted-insert counted hash hash, is_counted-remove counted hash hash),
  λ other d.
      ground (arith, is_counted-insert counted hash other, is_counted-remove counted hash other),
  ground (arith, repetitions-inc g tool tool),
  λ other d. ground (arith, repetitions-inc g tool other),
)

-- The ring of the tool is four times as long as the threshold, and its next slot is inside it.
abbrev pub IsRing : Tracker → Bytes → Type 0
IsRing t tool =
    (length (tool_ring t tool).0 ≡ t.cfg.repetition_threshold * 4)
    × ((tool_ring t tool).1 < t.cfg.repetition_threshold * 4)

-- A new tracker has such a ring for every tool.
pub new-IsRing :
    (flags : Health.Flags) (tool : Bytes)
    → 0 < (Health.new flags).cfg.repetition_threshold
    → IsRing (Health.new flags) tool
unfolding tool_ring Health.new Maps.lookup
new-IsRing flags tool h = (length-replicate _ empty_entry, omega (arith, h))
