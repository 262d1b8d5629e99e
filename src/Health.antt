-- ===== src/Health.antt =====
-- internal/metrics/health/tracker.go. The gauges that the tracker publishes are fields of the
-- state; a rate is the pair of its errors and calls, since there are no floats. Times are
-- nanoseconds, 0 the zero time. `nil` trackers, the lock and the hash of the arguments stay out.
pub mod Ring
pub mod ErrorRate
pub mod Streak
pub mod Repetition
use code_gen_sandbox.Prelude.{
  ltb, leb, ◌==◌, if◌then◌else◌, length, get_elem?, set, replicate, ℤ, pos, negsuc, ℕ, suc, ◌+◌,
  ◌-◌, ◌*◌, ◌%◌, ite, Bool, true, false, ◌&&◌, not, Option, none, some, List, [], ◌∷◌, Bytes, codes,
  bytes_discrete,
}
use code_gen_sandbox.Prelude.Maps

-- The flags as the operator gives them, in Go's `int`.
pub record Flags : Type 0 where
  pub repetition_window : ℤ
  pub repetition_threshold : ℤ
  pub error_rate_window : ℤ

pub record Config : Type 0 where
  pub repetition_window : ℕ
  pub repetition_threshold : ℕ
  pub error_rate_window : ℕ

abbrev pub default_config : Config
default_config = record {
  repetition_window = 10 * 60 * 1_000_000_000;
  repetition_threshold = 3;
  error_rate_window = 100;
}

-- A flag that is not positive takes the default.
or_default : ℤ → ℕ → ℕ
or_default (pos n) d = if leb n 0 then d else n
or_default (negsuc n) d = d

pub record RepetitionEntry : Type 0 where
  pub hash : Bytes
  pub at : ℕ

pub record Gauges : Type 0 where
  pub failure_streak : ℕ
  pub since_green : ℕ
  -- errors and calls
  pub error_rate : ℕ × ℕ
  pub repetitions : List (Bytes × ℕ)

pub record Tracker : Type 0 where
  pub cfg : Config
  pub gauges : Gauges
  pub last_failures : ℕ
  pub have_last : Bool
  pub streak : ℕ
  pub last_green : ℕ
  pub err_buf : List Bool
  pub err_buf_idx : ℕ
  pub err_buf_full : Bool
  pub err_count : ℕ
  pub rep_buf : List (Bytes × List RepetitionEntry)
  pub rep_buf_idx : List (Bytes × ℕ)
  pub rep_counted : List (Bytes × List (Bytes × Bool))

unfoldable pub new : Flags → Tracker
unfolding or_default
new flags =
    let cfg : Config = record {
      repetition_window = or_default flags.repetition_window default_config.repetition_window;
      repetition_threshold =
          or_default flags.repetition_threshold default_config.repetition_threshold;
      error_rate_window = or_default flags.error_rate_window default_config.error_rate_window;
    } in
    record {
      cfg = cfg;
      gauges = record {
        failure_streak = 0;
        since_green = 0;
        error_rate = (0, 0);
        repetitions = [];
      };
      last_failures = 0;
      have_last = false;
      streak = 0;
      last_green = 0;
      err_buf = replicate cfg.error_rate_window false;
      err_buf_idx = 0;
      err_buf_full = false;
      err_count = 0;
      rep_buf = [];
      rep_buf_idx = [];
      rep_counted = [];
    }

unfoldable pub observe_test_result : Tracker → ℕ → Tracker
observe_test_result t failure_count =
    let streak =
      (if failure_count == 0
        then 0
        else if t.have_last && ltb failure_count t.last_failures
        then 0
        else t.streak + 1) in
    record t {
      streak = streak;
      last_failures = failure_count;
      have_last = true;
      gauges = record t.gauges { failure_streak = streak };
    }

unfoldable pub observe_green : Tracker → ℕ → Tracker
observe_green t now = record t { last_green = now; gauges = record t.gauges { since_green = 0 } }

-- `secs` is the difference of the two times; the clock does not run backwards.
unfoldable pub update_time_since_last_green : Tracker → ℕ → Tracker
update_time_since_last_green t now =
    if t.last_green == 0
    then record t { gauges = record t.gauges { since_green = 0 } }
    else record t { gauges = record t.gauges { since_green = now - t.last_green } }

-- The outcome in the slot that is replaced; the index is always inside the buffer.
slot : List Bool → ℕ → Bool
slot buf idx = elim (get_elem? buf idx) [ none ↦ true | some b ↦ b ]

unfoldable pub record_error_outcome : Tracker → Bool → Tracker
unfolding slot
record_error_outcome t ok =
    if length t.err_buf == 0
    then t
    else let kept =
        (if t.err_buf_full
          then (if slot t.err_buf t.err_buf_idx then t.err_count else t.err_count - 1)
          else t.err_count) in
      let buf = set t.err_buf t.err_buf_idx ok in
      let count = (if ok then kept else kept + 1) in
      let idx = (t.err_buf_idx + 1) % length buf in
      let full = (if not t.err_buf_full && idx == 0 then true else t.err_buf_full) in
      let size = (if full then length buf else idx) in
      record t {
        err_buf = buf;
        err_buf_idx = idx;
        err_buf_full = full;
        err_count = count;
        gauges = record t.gauges { error_rate = if ltb 0 size then (count, size) else (0, 0) };
      }

abbrev get_or {ℓ} : {A : Type ℓ} → Option A → A → A
get_or none d = d
get_or (some a) d = a

abbrev pub empty_entry : RepetitionEntry
empty_entry = record { hash = []; at = 0 }

-- Entries of the hash that are inside the window at `now`.
unfoldable pub count_recent : Bytes → ℕ → ℕ → List RepetitionEntry → ℕ
count_recent hash now window [] = 0
count_recent hash now window (e ∷ es) =
    let rest = count_recent hash now window es in
    ite (bytes_discrete e.hash hash) (if leb now (e.at + window) then suc rest else rest) rest

-- The per-tool ring with its index, made on the first call of the tool.
unfoldable pub tool_ring : Tracker → Bytes → List RepetitionEntry × ℕ
tool_ring t tool = elim (Maps.lookup bytes_discrete tool t.rep_buf) [
  | none ↦ (replicate (t.cfg.repetition_threshold * 4) empty_entry, 0)
  | some buf ↦ (buf, get_or (Maps.lookup bytes_discrete tool t.rep_buf_idx) 0)
]

unfoldable pub tool_counted : Tracker → Bytes → List (Bytes × Bool)
tool_counted t tool = elim (Maps.lookup bytes_discrete tool t.rep_buf) [
  | none ↦ []
  | some _ ↦ get_or (Maps.lookup bytes_discrete tool t.rep_counted) []
]

unfoldable pub is_counted : List (Bytes × Bool) → Bytes → Bool
is_counted counted hash = get_or (Maps.lookup bytes_discrete hash counted) false

unfoldable pub inc_repetition : Gauges → Bytes → Gauges
inc_repetition g tool = record g {
  repetitions =
      Maps.insert bytes_discrete tool (get_or (Maps.lookup bytes_discrete tool g.repetitions) 0 + 1)
        g.repetitions;
}

-- The `switch` behind the count: the flags of the tool, and the gauges.
unfoldable pub settle :
    ℕ → ℕ → List (Bytes × Bool) → Gauges → Bytes → Bytes → List (Bytes × Bool) × Gauges
settle count threshold counted g tool hash =
    if leb threshold count && not (is_counted counted hash)
    then (Maps.insert bytes_discrete hash true counted, inc_repetition g tool)
    else if ltb count threshold && is_counted counted hash
    then (Maps.remove bytes_discrete hash counted, g)
    else (counted, g)

-- `at` and `now` are the two readings of the clock.
unfoldable pub record_repetition : Tracker → Bytes → Bytes → ℕ → ℕ → Tracker
record_repetition t tool [] at now = t
record_repetition t tool (c ∷ hash) at now =
    let (buf, idx) = tool_ring t tool in
    let args_hash = c ∷ hash in
    let buf' = set buf idx (record { hash = args_hash; at = at }) in
    let count = count_recent args_hash now t.cfg.repetition_window buf' in
    let (counted, gauges) =
      settle count t.cfg.repetition_threshold (tool_counted t tool) t.gauges tool args_hash in
    record t {
      rep_buf = Maps.insert bytes_discrete tool buf' t.rep_buf;
      rep_buf_idx =
          Maps.insert bytes_discrete tool ((idx + 1) % (t.cfg.repetition_threshold * 4))
            t.rep_buf_idx;
      rep_counted = Maps.insert bytes_discrete tool counted t.rep_counted;
      gauges = gauges;
    }

-- The status is "ok" or "error"; only the first counts as a success.
unfoldable pub observe : Tracker → Bytes → Bytes → Bytes → ℕ → ℕ → Tracker
observe t tool status args_hash at now =
    record_repetition (record_error_outcome t (ite (bytes_discrete status (codes "ok")) true false))
      tool args_hash at now
