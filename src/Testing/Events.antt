-- ===== src/Testing/Events.antt =====
-- The event stream of `go test -json` (internal/verify/go_test_failures.go): events are gathered into
-- one frame per (package, test), and the failed frames become failure records. The lines are those of
-- `strings.Split`. JSON, the space trimming and the regular expression are parameters.
pub mod Frames
use code_gen_sandbox.Prelude.Maps
use code_gen_sandbox.Prelude.{
  ◌==◌, if◌then◌else◌, length, take, get_elem?, ℕ, suc, ◌-◌, ite, Bool, true, false, ◌||◌, Option,
  none, some, List, [], ◌∷◌, ◌++◌, Bytes, codes, bytes_discrete,
}

pub record Event : Type 0 where
  pub action : Bytes
  pub pkg : Bytes
  pub test : Bytes
  pub output : Bytes

abbrev pub TestKey : Type 0
TestKey = Bytes × Bytes

unfoldable pub key_discrete : Discrete TestKey
key_discrete = hlevel bytes_discrete

pub record FailFrame : Type 0 where
  pub outputs : List Bytes
  pub failed : Bool

pub record TestFailure : Type 0 where
  pub file : Bytes
  pub line : ℕ
  pub test_name : Bytes
  pub message : Bytes
  pub diff : Bytes

unfoldable pub apply_event : FailFrame → Event → FailFrame
apply_event frame ev =
    ite (bytes_discrete ev.action (codes "output"))
      (elim ev.output [
        | [] ↦ frame
        | c ∷ cs ↦ record frame { outputs = frame.outputs ++ (c ∷ cs) ∷ [] }
      ])
      (ite (bytes_discrete ev.action (codes "fail")) (record frame { failed = true }) frame)

pub record Scanned : Type 0 where
  pub by_key : List (TestKey × FailFrame)
  pub order : List TestKey

unfoldable pub scan_event : Scanned → Event → Scanned
scan_event s ev = elim ev.test [
  | [] ↦ s
  | c ∷ cs ↦
      let key : TestKey = (ev.pkg, c ∷ cs) in
      elim (Maps.lookup key_discrete key s.by_key) [
        | none ↦ record {
          by_key =
              Maps.insert key_discrete key
                (apply_event (record { outputs = []; failed = false }) ev) s.by_key;
          order = s.order ++ key ∷ [];
        }
        | some frame ↦ record s {
          by_key = Maps.insert key_discrete key (apply_event frame ev) s.by_key;
        }
      ]
]

unfoldable pub scan_events : Scanned → List Event → Scanned
scan_events s [] = s
scan_events s (ev ∷ evs) = scan_events (scan_event s ev) evs

unfoldable pub key_sentinel : TestKey → Bytes
key_sentinel k = 0 ∷ k.0 ++ 0 ∷ k.1

-- The frames of the keys, each with its sentinel behind the outputs. A key in `order` has a frame.
unfoldable pub frames_in_order : List (TestKey × FailFrame) → List TestKey → List FailFrame
frames_in_order by_key [] = []
frames_in_order by_key (k ∷ ks) =
    let rest = frames_in_order by_key ks in
    elim (Maps.lookup key_discrete k by_key) [
      | none ↦ rest
      | some frame ↦ record frame { outputs = frame.outputs ++ key_sentinel k ∷ [] } ∷ rest
    ]

unfoldable pub scan_go_events : List Event → List FailFrame
scan_go_events evs =
    let s = scan_events (record { by_key = []; order = [] }) evs in frames_in_order s.by_key s.order

-- The text in front of the first `b`, and behind it where there is one.
unfoldable pub split_at_byte : ℕ → Bytes → Bytes × Option Bytes
split_at_byte b [] = ([], none)
split_at_byte b (c ∷ s) =
    let rest = split_at_byte b s in
    if◌then◌else◌ {A = Bytes × Option Bytes} (c == b) ([], some s) (c ∷ rest.0, rest.1)

-- `splitKeySentinel` on the text behind the leading zero, `none` where the source returns "", "".
unfoldable pub split_key_sentinel : Bytes → TestKey
split_key_sentinel [] = ([], [])
split_key_sentinel (c ∷ s) =
    if c == 0
    then (let (pkg, rest) = split_at_byte 0 s in
        elim rest [ none ↦ ([], []) | some test ↦ (pkg, test) ])
    else ([], [])

unfoldable pub count_passes : List Event → ℕ
count_passes [] = 0
count_passes (ev ∷ evs) =
    let n = count_passes evs in
    ite (bytes_discrete ev.action (codes "pass")) (elim ev.test [ [] ↦ n | c ∷ cs ↦ suc n ]) n

-- What the packages `strings`, `regexp` and `strconv` give for a line of output.
pub record Text : Type 0 where
  pub trim_space : Bytes → Bytes
  pub contains : Bytes → Bytes → Bool
  pub has_prefix : Bytes → Bytes → Bool
  pub file_line : Bytes → Option (Bytes × Option ℕ)
  pub behind_file_line : Bytes → Option Bytes
  pub trim_newlines : Bytes → Bytes

abbrev pub diff_markers : List Bytes
diff_markers =
    codes "got:" ∷ codes "want:" ∷ codes "Diff:" ∷ codes "--- Expected" ∷ codes "+++ Actual" ∷ []

module _ (text : Text) where
  unfoldable pub extract_file_line : List Bytes → Bytes × ℕ
  extract_file_line [] = ([], 0)
  extract_file_line (raw ∷ outputs) =
      let rest = extract_file_line outputs in
      elim (text.file_line raw) [
        | none ↦ rest
        | some (file, number) ↦ elim number [ none ↦ rest | some line ↦ (file, line) ]
      ]

  unfoldable pub first_non_empty : List Bytes → Bytes
  first_non_empty [] = []
  first_non_empty (raw ∷ outputs) =
      let rest = first_non_empty outputs in
      elim (text.trim_space raw) [ [] ↦ rest | c ∷ cs ↦ c ∷ cs ]

  unfoldable pub message_after_fail_marker : List Bytes → Bytes
  message_after_fail_marker [] = []
  message_after_fail_marker (raw ∷ outputs) =
      if text.contains raw (codes "--- FAIL:")
      then first_non_empty outputs
      else message_after_fail_marker outputs

  unfoldable pub first_meaningful_line : List Bytes → Bytes
  first_meaningful_line [] = []
  first_meaningful_line (raw ∷ outputs) =
      let rest = first_meaningful_line outputs in
      elim (text.trim_space raw) [
        | [] ↦ rest
        | c ∷ cs ↦
            if text.has_prefix (c ∷ cs) (codes "===") || text.has_prefix (c ∷ cs) (codes "---")
            then rest
            else elim (text.behind_file_line (c ∷ cs)) [
              | none ↦ c ∷ cs
              | some behind ↦ text.trim_space behind
            ]
      ]

  unfoldable pub extract_message : List Bytes → Bytes
  extract_message outputs = elim (message_after_fail_marker outputs) [
    | [] ↦ first_meaningful_line outputs
    | c ∷ cs ↦ c ∷ cs
  ]

  unfoldable pub contains_any : Bytes → List Bytes → Bool
  contains_any raw [] = false
  contains_any raw (m ∷ ms) = if text.contains raw m then true else contains_any raw ms

  unfoldable pub find_diff : List Bytes → List Bytes
  find_diff [] = []
  find_diff (raw ∷ outputs) =
      if contains_any raw diff_markers then raw ∷ outputs else find_diff outputs

  unfoldable pub joined_lines : List Bytes → Bytes
  joined_lines [] = []
  joined_lines (raw ∷ outputs) = (text.trim_newlines raw ++ 10 ∷ []) ++ joined_lines outputs

  -- At most 20 lines from the first that has a marker.
  unfoldable pub extract_diff : List Bytes → Bytes
  extract_diff outputs = text.trim_newlines (joined_lines (take 20 (find_diff outputs)))

  -- `n` is the length of the outputs; the last of them is the sentinel.
  unfoldable pub frame_to_failure : FailFrame → Option TestFailure
  frame_to_failure f = elim (get_elem? f.outputs (length f.outputs - 1)) [
    | none ↦ none
    | some sentinel ↦
        let (pkg, test) = split_key_sentinel sentinel in
        let body = take (length f.outputs - 1) f.outputs in
        let (file, line) = extract_file_line body in
        some (record {
          file = file;
          line = line;
          test_name = pkg ++ 47 ∷ test;
          message = extract_message body;
          diff = extract_diff body;
        })
  ]

  unfoldable pub frames_to_failures : List FailFrame → List TestFailure
  frames_to_failures [] = []
  frames_to_failures (f ∷ fs) =
      let rest = frames_to_failures fs in
      if f.failed then (elim (frame_to_failure f) [ none ↦ rest | some tf ↦ tf ∷ rest ]) else rest

  -- `events` are the lines that `decodeEvent` reads.
  unfoldable pub parse_go_test2_json : List Event → List TestFailure
  parse_go_test2_json events = frames_to_failures (scan_go_events events)
