-- ===== src/Files/Handlers.antt =====
-- The handlers of Read, Write and Edit (internal/tools/read.go, write.go, edit.go) over one
-- workspace's file system and the `ReadTracker` of internal/workspace/tracker.go. A path argument is
-- looked up by `resolve`, the workspace's `Resolve`. What the system answers to a call is an argument.
pub mod Guard
pub mod Session
use code_gen_sandbox.Prelude.{
  if◌then◌else◌, length, ℤ, ℕ, ite, Bool, true, false, Option, none, some, List, [], ◌∷◌, Bytes,
  codes, bytes_discrete,
}
use code_gen_sandbox.Files.Replace
use code_gen_sandbox.Files.Numbered
use code_gen_sandbox.Files.Replace.{EditArgs, EditError, apply_edit}

pub data Node : Type 0 where
  directory : Node
  file : Bytes → Node

-- `none` where `Stat` fails.
abbrev pub FileSystem : Type 0
FileSystem = Bytes → Option Node

-- The set of absolute paths that were read in this session.
abbrev pub ReadTracker : Type 0
ReadTracker = Bytes → Bool

unfoldable pub new_read_tracker : ReadTracker
new_read_tracker path = false

unfoldable pub mark_read : ReadTracker → Bytes → ReadTracker
mark_read t abs path = ite (bytes_discrete abs path) true (t path)

unfoldable pub has_been_read : ReadTracker → Bytes → Bool
has_been_read t abs = t abs

pub record State : Type 0 where
  pub files : FileSystem
  pub tracker : ReadTracker

pub data ToolError : Type 0 where
  argument_required : Bytes → ToolError
  cannot_resolve : ToolError
  stat_failed : ToolError
  is_directory : ToolError
  read_first : ToolError
  open_failed : ToolError
  mkdir_failed : ToolError
  write_failed : ToolError
  read_failed : Numbered.ReadError → ToolError
  edit_failed : EditError → ToolError

pub data Result {ℓ} (A : Type ℓ) : Type ℓ where
  ok : A → Result A
  err : ToolError → Result A

-- `atomicWrite`: the temporary file and the rename succeed; they do, and closing the file fails behind
-- them; or the target is left alone.
pub data Atomic : Type 0 where
  renamed unclosed aborted : Atomic

unfoldable pub atomic_write : FileSystem → Bytes → Bytes → Atomic → FileSystem × Bool
atomic_write fs abs content renamed =
    (λ path. ite (bytes_discrete abs path) (some (file content)) (fs path), true)
atomic_write fs abs content unclosed =
    (λ path. ite (bytes_discrete abs path) (some (file content)) (fs path), false)
atomic_write fs abs content aborted = (fs, false)

module _ (resolve : Bytes → Option Bytes) where
  -- `resolveReadPath`: the path of a file that is there, with its content.
  unfoldable pub resolve_read_path : State → Bytes → Result (Bytes × Bytes)
  resolve_read_path s file_path = elim (resolve file_path) [
    | none ↦ err cannot_resolve
    | some abs ↦ elim (s.files abs) [
      | none ↦ err stat_failed
      | some node ↦ elim node [ directory ↦ err is_directory | file body ↦ ok (abs, body) ]
    ]
  ]

  -- `scanner` is what `bufio.Scanner` gives to the loop with an offset and a limit: the lines of the
  -- content, or none where the loop ends at an error. An error behind the limit is not seen.
  unfoldable pub handle_read :
      (ℕ → ℕ → Bytes → Option (List Bytes))
      → State
      → Bytes
      → Option ℤ
      → Option ℤ
      → State × Result (List (ℕ × Bytes))
  unfolding mark_read
  handle_read scanner s [] offset limit = (s, err (argument_required (codes "file_path")))
  handle_read scanner s (c ∷ file_path) offset limit = elim (resolve_read_path s (c ∷ file_path)) [
    | err e ↦ (s, err e)
    | ok (abs, body) ↦
        elim (Numbered.read_numbered
          (scanner (Numbered.parse_offset offset) (Numbered.parse_limit limit) body)
          (Numbered.parse_offset offset) (Numbered.parse_limit limit)) [
            | Numbered.err e ↦ (s, err (read_failed e))
            | Numbered.ok lines ↦ (record s { tracker = mark_read s.tracker abs }, ok lines)
          ]
  ]

  -- `checkWriteTarget`: a path with nothing at it is free.
  unfoldable pub check_write_target : State → Bytes → Option ToolError
  unfolding has_been_read
  check_write_target s abs = elim (s.files abs) [
    | none ↦ none
    | some node ↦ elim node [
      | directory ↦ some is_directory
      | file body ↦ if has_been_read s.tracker abs then none else some read_first
    ]
  ]

  -- `made` says whether `MkdirAll` of the parent succeeds.
  unfoldable pub handle_write : State → Bytes → Option Bytes → Bool → Atomic → State × Result ℕ
  unfolding check_write_target atomic_write mark_read
  handle_write s [] content made outcome = (s, err (argument_required (codes "file_path")))
  handle_write s (c ∷ file_path) none made outcome = (s, err (argument_required (codes "content")))
  handle_write s (c ∷ file_path) (some content) made outcome = elim (resolve (c ∷ file_path)) [
    | none ↦ (s, err cannot_resolve)
    | some abs ↦ elim (check_write_target s abs) [
      | some e ↦ (s, err e)
      | none ↦
          if made
          then (let (fs, written) = atomic_write s.files abs content outcome in
              if written
              then (record s { files = fs; tracker = mark_read s.tracker abs }, ok (length content))
              else (record s { files = fs }, err write_failed))
          else (s, err mkdir_failed)
    ]
  ]

  -- `resolveEditTarget`
  unfoldable pub resolve_edit_target : State → Bytes → Result (Bytes × Bytes)
  unfolding resolve_read_path has_been_read
  resolve_edit_target s file_path = elim (resolve_read_path s file_path) [
    | err e ↦ err e
    | ok (abs, body) ↦ if has_been_read s.tracker abs then ok (abs, body) else err read_first
  ]

  -- `parseEditArgs`
  unfoldable pub parse_edit_args : Bytes → Option Bytes → Option Bytes → Bool → Result EditArgs
  parse_edit_args [] old_string new_string all = err (argument_required (codes "file_path"))
  parse_edit_args (c ∷ file_path) none new_string all = err (argument_required (codes "old_string"))
  parse_edit_args (c ∷ file_path) (some []) new_string all =
      err (argument_required (codes "old_string"))
  parse_edit_args (c ∷ file_path) (some (o ∷ old)) none all =
      err (argument_required (codes "new_string"))
  parse_edit_args (c ∷ file_path) (some (o ∷ old)) (some new) all =
      ok (record { file_path = c ∷ file_path; old_str = o ∷ old; new_str = new; replace_all = all })

  -- `read` says whether the content can be read; the feedback that follows changes nothing.
  unfoldable pub handle_edit :
      State → Bytes → Option Bytes → Option Bytes → Bool → Bool → Atomic → State × Result ℕ
  unfolding parse_edit_args resolve_edit_target atomic_write
  handle_edit s file_path old_string new_string all read outcome =
      elim (parse_edit_args file_path old_string new_string all) [
        | err e ↦ (s, err e)
        | ok args ↦ elim (resolve_edit_target s args.file_path) [
          | err e ↦ (s, err e)
          | ok (abs, body) ↦
              if read
              then elim (apply_edit body args) [
                | Replace.err e ↦ (s, err (edit_failed e))
                | Replace.ok (updated, count) ↦
                    let (fs, written) = atomic_write s.files abs updated outcome in
                    if written
                    then (record s { files = fs }, ok count)
                    else (record s { files = fs }, err write_failed)
              ]
              else (s, err open_failed)
        ]
      ]
