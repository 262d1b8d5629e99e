-- ===== src/Files/Handlers/Session.antt =====
-- Write, then Edit of the same path (internal/tools/write.go, edit.go).
use code_gen_sandbox.Files.Replace
use code_gen_sandbox.Files.Replace.{apply_edit}
use code_gen_sandbox.Files.Handlers.{
  State, Atomic, renamed, ok, file, atomic_write, mark_read, has_been_read, resolve_read_path,
  check_write_target, handle_write, resolve_edit_target, parse_edit_args, handle_edit,
}
use code_gen_sandbox.Prelude.{ℕ, ◌≡◌, ◌≢◌, Bool, true, Option, some, [], arith, Bytes}

module _ (resolve : Bytes → Option Bytes) where
  -- When a Write answers ok, an Edit of the same path, of a text to replace that is not empty,
  -- whose own file operations succeed and which `apply_edit` accepts on the content just
  -- written, makes the file what `apply_edit` gives and answers its count.
  pub write-edit :
      (s : State) (p abs content : Bytes) (made : Bool) (outcome : Atomic) (n : ℕ)
      (old new updated : Bytes) (all : Bool) (k : ℕ)
      → resolve p ≡ some abs
      → (handle_write resolve s p (some content) made outcome).1 ≡ ok n
      → old ≢ []
      → apply_edit content
          (record { file_path = p; old_str = old; new_str = new; replace_all = all })
        ≡ Replace.ok (updated, k)
      → ((handle_edit resolve
              (handle_write resolve s p (some content) made outcome).0
              p
              (some old)
              (some new)
              all
              true
              renamed).0.files
            abs
          ≡ some (file updated))
        × ((handle_edit resolve
              (handle_write resolve s p (some content) made outcome).0
              p
              (some old)
              (some new)
              all
              true
              renamed).1
            ≡ ok k)
  unfolding handle_write handle_edit resolve_edit_target resolve_read_path atomic_write
      parse_edit_args has_been_read mark_read check_write_target
  write-edit s p abs content made outcome n old new updated all k r w h a =
      (ground arith, ground arith)
