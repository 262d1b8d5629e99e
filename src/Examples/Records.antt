-- ===== src/Examples/Records.antt =====
-- Small inputs: texts, counts, units, tests and secrets (internal/tools, internal/metrics/health,
-- internal/search, internal/verify, internal/secrets).
use code_gen_sandbox.Prelude.Maps
use code_gen_sandbox.Files.Replace
use code_gen_sandbox.Files.Replace.{has_prefix, EditArgs}
use code_gen_sandbox.Files.Replace.Laws.{
  OneMatch, apply_edit_single, apply_edit_all, length-apply_edit,
}
use code_gen_sandbox.Files.Numbered
use code_gen_sandbox.Files.Numbered.{read_numbered_lem}
use code_gen_sandbox.Health
use code_gen_sandbox.Health.{Flags, Tracker}
use code_gen_sandbox.Health.Ring.{errors, last}
use code_gen_sandbox.Health.ErrorRate.{record_all, error_rate-record_all}
use code_gen_sandbox.Health.Streak.{observe_tests, IsStreak, streak_lem}
use code_gen_sandbox.Search.Tokens.{Unicode, split_camel}
use code_gen_sandbox.Search.Tokens.Segments.{Unbroken, Segments, last_of, split_camel-Segments}
use code_gen_sandbox.Search.Index
use code_gen_sandbox.Search.Index.{SourceUnit, new_index, add_file, remove_file, Change}
use code_gen_sandbox.Search.Index.History.{Exact, searched, run-Exact}
use code_gen_sandbox.Testing.Events.{
  Event, TestKey, TestFailure, Text, extract_file_line, extract_message, extract_diff,
  frame_to_failure, scan_go_events,
}
use code_gen_sandbox.Testing.Events.Frames.{
  frame_of, frames_of, keys_of, events_of, output_events, scan_go_events_lem,
}
use code_gen_sandbox.Testing.Rerun.{rerun_target}
use code_gen_sandbox.Testing.Rerun.Targets.{frame_to_failure-frame_of, rerun_target-slash}
use code_gen_sandbox.Secrets
use code_gen_sandbox.Secrets.{
  split_pair, Store, env_prefix, from_env, from_file, is_safe_name, has_byte, parse_env,
}
use code_gen_sandbox.Secrets.Sources.{has_byte-Lacks, key_of, get-parse_env, get-file}
use code_gen_sandbox.Prelude.{
  ltb, leb, ◌==◌, if◌then◌else◌, length, take, drop, pos, ℕ, ◌+◌, ◌*◌, min, ◌≡◌, refl, ◌≢◌, ◌⊎◌,
  ite, Bool, true, false, ◌&&◌, ◌||◌, Option, none, some, List, [], ◌∷◌, ◌++◌, flatten, arith,
  Bytes, codes, bytes_discrete, Lacks,
}

abbrev edit_one : EditArgs
edit_one = record {
  file_path = codes "f";
  old_str = codes "b";
  new_str = codes "xy";
  replace_all = false;
}

apply_edit_single_example :
    ((Replace.count (codes "abc") (codes "b") ≡ 1)
      × ((pre post : Bytes) × OneMatch (codes "abc") (codes "b") pre post
          × (Replace.apply_edit (codes "abc") edit_one
              ≡ Replace.ok (pre ++ (codes "xy" ++ post), 1))))
    ⊎ ((Replace.count (codes "abc") (codes "b") ≢ 1)
        × (Replace.apply_edit (codes "abc") edit_one
            ≡ Replace.err (
                if Replace.count (codes "abc") (codes "b") == 0
                then Replace.not_found
                else Replace.matched_times (Replace.count (codes "abc") (codes "b")))))
apply_edit_single_example = apply_edit_single (codes "abc") edit_one (λ e. ground arith) refl

abbrev edit_all : EditArgs
edit_all = record {
  file_path = codes "f";
  old_str = codes "b";
  new_str = codes "xy";
  replace_all = true;
}

apply_edit_all_example :
    ((Replace.count (codes "abcb") (codes "b") ≡ 0)
      × (Replace.apply_edit (codes "abcb") edit_all ≡ Replace.err Replace.not_found))
    ⊎ ((first : Bytes) × (rest : List Bytes) × (length rest
          ≡ Replace.count (codes "abcb") (codes "b"))
        × (Replace.count (codes "abcb") (codes "b") ≢ 0)
        × (codes "abcb" ≡ first ++ Replace.separated (codes "b") rest)
        × (Replace.apply_edit (codes "abcb") edit_all
            ≡ Replace.ok (
              first ++ Replace.separated (codes "xy") rest,
              Replace.count (codes "abcb") (codes "b"),
            )))
apply_edit_all_example = apply_edit_all (codes "abcb") edit_all (λ e. ground arith) refl

edited_all : Replace.apply_edit (codes "abcb") edit_all ≡ Replace.ok (codes "axycxy", 2)
unfolding Replace.apply_edit Replace.count Replace.pieces Replace.has_prefix Replace.replace_all
    Replace.separated
edited_all = refl

length-apply_edit_example : length (codes "axycxy") + 2 * 1 ≡ length (codes "abcb") + 2 * 2
length-apply_edit_example =
    length-apply_edit (codes "abcb") edit_all (codes "axycxy") 2 (λ e. ground arith) refl edited_all

read_numbered_lem_example :
    Numbered.read_numbered (some (codes "a" ∷ codes "b" ∷ codes "c" ∷ [])) 2 1 ≡ (
      if ltb 0 3 && ltb 3 2
      then Numbered.err (Numbered.offset_exceeds 2 3)
      else Numbered.ok
          (take 1 (drop 1 (Numbered.numbered 1 (codes "a" ∷ codes "b" ∷ codes "c" ∷ [])))))
read_numbered_lem_example =
    read_numbered_lem (codes "a" ∷ codes "b" ∷ codes "c" ∷ []) 2 1 (omega arith) (omega arith)

-- A window of two calls.
abbrev flags : Flags
flags = record {
  repetition_window = pos 0;
  repetition_threshold = pos 2;
  error_rate_window = pos 2;
}

error_rate-record_all_example :
    let w = (Health.new flags).cfg.error_rate_window in
    (record_all (Health.new flags) (true ∷ false ∷ false ∷ [])).gauges.error_rate
    ≡ (errors (last w (true ∷ false ∷ false ∷ [])), min w 3)
error_rate-record_all_example = error_rate-record_all flags (true ∷ false ∷ []) false

streak_lem_example :
    let t = observe_tests (Health.new flags) (3 ∷ 3 ∷ 0 ∷ []) in
    IsStreak t.streak (3 ∷ 3 ∷ 0 ∷ []) × (t.gauges.failure_streak ≡ t.streak)
streak_lem_example = streak_lem flags (3 ∷ 3 ∷ 0 ∷ [])

-- ASCII.
abbrev between : ℕ → ℕ → ℕ → Bool
between low high c = leb low c && leb c high

abbrev ascii : Unicode
ascii = record {
  is_letter = λ c. between 65 90 c || between 97 122 c;
  is_digit = between 48 57;
  is_upper = between 65 90;
  is_lower = between 97 122;
  to_lower = λ w. w;
}

split_camel-Segments_example :
    (flatten (split_camel ascii (codes "getURLFor")) ≡ codes "getURLFor")
    × ((seg : Bytes) × (segs : List Bytes) × ((split_camel ascii (codes "getURLFor")
            ≡ (103 ∷ seg) ∷ segs)
          × Unbroken ascii 103 seg (flatten segs)
          × Segments ascii (last_of ascii 103 seg) segs))
split_camel-Segments_example = split_camel-Segments ascii 103 (codes "etURLFor")

abbrev unit_one : SourceUnit
unit_one = record {
  file = [];
  symbol = codes "run";
  kind = codes "func";
  signature = codes "run x";
  doc = [];
}

abbrev changes : List Change
changes =
    add_file (codes "a.go") (some (unit_one ∷ unit_one ∷ []))
    ∷ add_file (codes "b.go") (some (unit_one ∷ []))
    ∷ remove_file (codes "a.go")
    ∷ []

abbrev always : Bytes → Bool
always p = true

abbrev as_is : Bytes → Bytes
as_is p = p

run-Exact_example :
    Exact ascii (Index.run ascii always as_is new_index changes) (searched always as_is [] changes)
run-Exact_example = run-Exact ascii always as_is changes

abbrev key : TestKey
key = (codes "m/p", codes "TestA")

abbrev test_events : List Event
test_events =
    record { action = codes "output"; pkg = codes "m/p"; test = codes "TestA"; output = codes "x" }
    ∷ record { action = codes "fail"; pkg = codes "m/p"; test = codes "TestA"; output = [] }
    ∷ []

scan_go_events_lem_example :
    scan_go_events test_events ≡ frames_of test_events (keys_of test_events)
scan_go_events_lem_example = scan_go_events_lem test_events

abbrev plain_text : Text
plain_text = record {
  trim_space = λ s. s;
  contains = λ s m. false;
  has_prefix = λ s p. false;
  file_line = λ s. none;
  behind_file_line = λ s. none;
  trim_newlines = λ s. s;
}

no_zero : Lacks 0 (codes "m/p")
unfolding has_byte
no_zero = has_byte-Lacks 0 (codes "m/p") refl

frame_to_failure-frame_of_example :
    frame_to_failure plain_text (frame_of test_events key)
    ≡ some (record {
      file = (extract_file_line plain_text (output_events (events_of key test_events))).0;
      line = (extract_file_line plain_text (output_events (events_of key test_events))).1;
      test_name = codes "m/p" ++ 47 ∷ codes "TestA";
      message = extract_message plain_text (output_events (events_of key test_events));
      diff = extract_diff plain_text (output_events (events_of key test_events));
    })
frame_to_failure-frame_of_example = frame_to_failure-frame_of plain_text test_events key no_zero

abbrev failure : TestFailure
failure = record { file = []; line = 0; test_name = codes "m/p/A"; message = []; diff = [] }

no_colon : Lacks 58 (codes "m/p/A")
unfolding has_byte
no_colon = has_byte-Lacks 58 (codes "m/p/A") refl

rerun_target-slash_example : rerun_target (codes "m/p/A") ≡ ([], codes "m")
rerun_target-slash_example =
    rerun_target-slash (codes "m") (codes "p/A") ((λ e. ground arith), tt) no_colon

-- `NAME` is a secret in lower case.
abbrev lowered : Bytes → Bytes
lowered s = s

no_equals : Lacks 61 (env_prefix ++ codes "k")
unfolding has_byte
no_equals = has_byte-Lacks 61 (env_prefix ++ codes "k") refl

abbrev other_secret : Bytes
other_secret = codes "CODEGEN_SANDBOX_SECRET_j=w"

another_name : key_of lowered lowered other_secret ≢ some (codes "k")
unfolding key_of split_pair has_prefix
another_name e = ground arith

get-parse_env_example :
    Secrets.get lowered lowered
      (Secrets.new lowered lowered none
        ([] ++ ((env_prefix ++ codes "k") ++ 61 ∷ codes "v") ∷ other_secret ∷ []))
      (codes "k")
    ≡ some (codes "v", from_env)
get-parse_env_example =
    get-parse_env lowered lowered [] (other_secret ∷ []) (codes "k") (codes "v") (codes "k") none
      no_equals (λ e. ground arith) (another_name, tt) refl

abbrev store : Store
store = record {
  env_map = [];
  files = some (λ key. ite (bytes_discrete key (codes "k")) (some (codes "v")) none);
}

from_dir : Secrets.get lowered lowered store (codes "k") ≡ some (codes "v", from_file)
unfolding Secrets.get is_safe_name has_byte Maps.lookup bytes_discrete
from_dir = refl

get-file_example :
    (Maps.lookup bytes_discrete (codes "k") store.env_map ≡ none)
    × ((read : Bytes → Option Bytes) × (body : Bytes) × (store.files ≡ some read)
        × (read (codes "k") ≡ some body)
        × (codes "v" ≡ body))
    × Lacks 47 (codes "k")
    × Lacks 92 (codes "k")
    × (is_safe_name (codes "k") ≡ true)
get-file_example = get-file lowered lowered store (codes "k") (codes "v") from_dir
