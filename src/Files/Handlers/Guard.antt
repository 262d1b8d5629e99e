-- ===== src/Files/Handlers/Guard.antt =====
-- The read-before-overwrite guard, over every history of calls to Read, Write and Edit
-- (internal/tools/read.go, write.go, edit.go).
use code_gen_sandbox.Files.Handlers.{
  Node, directory, State, Atomic, atomic_write, mark_read, has_been_read, resolve_read_path,
  handle_read, check_write_target, handle_write, resolve_edit_target, parse_edit_args, handle_edit,
}
use code_gen_sandbox.Prelude.{
  Bool-cases, ℤ, ℕ, ◌≡◌, ◌⊎◌, inl, inr, Bool, true, false, Option, some, List, [], ◌∷◌, arith,
  Bytes,
}

-- One call with what the system answers to it.
pub data Call : Type 0 where
  read : Bytes → Option ℤ → Option ℤ → Call
  write : Bytes → Option Bytes → Bool → Atomic → Call
  edit : Bytes → Option Bytes → Option Bytes → Bool → Bool → Atomic → Call

unfoldable pub path_of : Call → Bytes
path_of (read p offset limit) = p
path_of (write p content made outcome) = p
path_of (edit p old new all opened outcome) = p

module _ (resolve : Bytes → Option Bytes) (scanner : ℕ → ℕ → Bytes → Option (List Bytes)) where
  unfoldable pub step : State → Call → State
  unfolding handle_read handle_write handle_edit
  step s (read p offset limit) = (handle_read resolve scanner s p offset limit).0
  step s (write p content made outcome) = (handle_write resolve s p content made outcome).0
  step s (edit p old new all opened outcome) =
      (handle_edit resolve s p old new all opened outcome).0

  unfoldable pub run : State → List Call → State
  unfolding step
  run s [] = s
  run s (c ∷ cs) = run (step s c) cs

  -- A directory, or a node whose path was not read.
  Protected : State → Bytes → Node → Type 0
  Protected s path node = (node ≡ directory) ⊎ (has_been_read s.tracker path ≡ false)

  handle_write-tracker :
      (s : State) (p : Bytes) (content : Option Bytes) (made : Bool) (outcome : Atomic)
      (path : Bytes)
      → has_been_read s.tracker path ≡ true
      → has_been_read (handle_write resolve s p content made outcome).0.tracker path ≡ true
  unfolding handle_write atomic_write mark_read has_been_read check_write_target
  handle_write-tracker s p content made outcome path h = ground arith

  handle_write-files :
      (s : State) (p : Bytes) (content : Option Bytes) (made : Bool) (outcome : Atomic)
      (path : Bytes) (node : Node)
      → s.files path ≡ some node
      → Protected s path node
      → (handle_write resolve s p content made outcome).0.files path ≡ some node
  unfolding handle_write atomic_write mark_read has_been_read check_write_target Protected
  handle_write-files s p content made outcome path node f h = ground arith

  handle_write-reached :
      (s : State) (p : Bytes) (content : Option Bytes) (made : Bool) (outcome : Atomic)
      (path : Bytes)
      → has_been_read s.tracker path ≡ false
      → has_been_read (handle_write resolve s p content made outcome).0.tracker path ≡ true
      → resolve p ≡ some path
  unfolding handle_write atomic_write mark_read has_been_read check_write_target
  handle_write-reached s p content made outcome path h g = ground arith

  handle_read-tracker :
      (s : State) (p : Bytes) (offset limit : Option ℤ) (path : Bytes)
      → has_been_read s.tracker path ≡ true
      → has_been_read (handle_read resolve scanner s p offset limit).0.tracker path ≡ true
  unfolding handle_read resolve_read_path mark_read has_been_read
  handle_read-tracker s p offset limit path h = ground arith

  handle_read-files :
      (s : State) (p : Bytes) (offset limit : Option ℤ) (path : Bytes) (node : Node)
      → s.files path ≡ some node
      → Protected s path node
      → (handle_read resolve scanner s p offset limit).0.files path ≡ some node
  unfolding handle_read resolve_read_path mark_read has_been_read Protected
  handle_read-files s p offset limit path node f h = ground arith

  handle_read-reached :
      (s : State) (p : Bytes) (offset limit : Option ℤ) (path : Bytes)
      → has_been_read s.tracker path ≡ false
      → has_been_read (handle_read resolve scanner s p offset limit).0.tracker path ≡ true
      → resolve p ≡ some path
  unfolding handle_read resolve_read_path mark_read has_been_read
  handle_read-reached s p offset limit path h g = ground arith

  handle_edit-tracker :
      (s : State) (p : Bytes) (old new : Option Bytes) (all opened : Bool) (outcome : Atomic)
      (path : Bytes)
      → has_been_read s.tracker path ≡ true
      → has_been_read (handle_edit resolve s p old new all opened outcome).0.tracker path ≡ true
  unfolding handle_edit resolve_edit_target resolve_read_path atomic_write parse_edit_args
      has_been_read
  handle_edit-tracker s p old new all opened outcome path h = ground arith

  handle_edit-files :
      (s : State) (p : Bytes) (old new : Option Bytes) (all opened : Bool) (outcome : Atomic)
      (path : Bytes) (node : Node)
      → s.files path ≡ some node
      → Protected s path node
      → (handle_edit resolve s p old new all opened outcome).0.files path ≡ some node
  unfolding handle_edit resolve_edit_target resolve_read_path atomic_write parse_edit_args
      has_been_read Protected
  handle_edit-files s p old new all opened outcome path node f h = ground arith

  handle_edit-reached :
      (s : State) (p : Bytes) (old new : Option Bytes) (all opened : Bool) (outcome : Atomic)
      (path : Bytes)
      → has_been_read s.tracker path ≡ false
      → has_been_read (handle_edit resolve s p old new all opened outcome).0.tracker path ≡ true
      → resolve p ≡ some path
  unfolding handle_edit resolve_edit_target resolve_read_path atomic_write parse_edit_args
      has_been_read
  handle_edit-reached s p old new all opened outcome path h g = ground arith

  step-tracker :
      (s : State) (c : Call) (path : Bytes)
      → has_been_read s.tracker path ≡ true
      → has_been_read (step s c).tracker path ≡ true
  unfolding step
  step-tracker s (read p offset limit) path h = handle_read-tracker s p offset limit path h
  step-tracker s (write p content made outcome) path h =
      handle_write-tracker s p content made outcome path h
  step-tracker s (edit p old new all opened outcome) path h =
      handle_edit-tracker s p old new all opened outcome path h

  step-files :
      (s : State) (c : Call) (path : Bytes) (node : Node)
      → s.files path ≡ some node
      → Protected s path node
      → (step s c).files path ≡ some node
  unfolding step
  step-files s (read p offset limit) path node f h =
      handle_read-files s p offset limit path node f h
  step-files s (write p content made outcome) path node f h =
      handle_write-files s p content made outcome path node f h
  step-files s (edit p old new all opened outcome) path node f h =
      handle_edit-files s p old new all opened outcome path node f h

  step-reached :
      (s : State) (c : Call) (path : Bytes)
      → has_been_read s.tracker path ≡ false
      → has_been_read (step s c).tracker path ≡ true
      → resolve (path_of c) ≡ some path
  unfolding step path_of
  step-reached s (read p offset limit) path h g = handle_read-reached s p offset limit path h g
  step-reached s (write p content made outcome) path h g =
      handle_write-reached s p content made outcome path h g
  step-reached s (edit p old new all opened outcome) path h g =
      handle_edit-reached s p old new all opened outcome path h g

  run-tracker :
      (s : State) (cs : List Call) (path : Bytes)
      → has_been_read s.tracker path ≡ true
      → has_been_read (run s cs).tracker path ≡ true
  unfolding run
  run-tracker s [] path h = h
  run-tracker s (c ∷ cs) path h = run-tracker (step s c) cs path (step-tracker s c path h)

  -- Some call of the list resolves to the path.
  unfoldable pub Names : List Call → Bytes → Type 0
  Names [] path = ⊥
  Names (c ∷ cs) path = (resolve (path_of c) ≡ some path) ⊎ Names cs path

  -- Whatever calls are made, a node that was there at the start and is a directory, or whose
  -- path is unread at the end, is unchanged at the end.
  pub run-unread :
      (s : State) (cs : List Call) (path : Bytes) (node : Node)
      → s.files path ≡ some node
      → (node ≡ directory) ⊎ (has_been_read (run s cs).tracker path ≡ false)
      → (run s cs).files path ≡ some node
  unfolding run Protected
  run-unread s [] path node f h = f
  run-unread s (c ∷ cs) path node f h =
      run-unread (step s c) cs path node
        (step-files s c path node f (elim h [
          | inl d ↦ inl d
          | inr u ↦ elim (Bool-cases (has_been_read s.tracker path)) [
            | inr e ↦ inr e
            | inl e ↦ let w = run-tracker s (c ∷ cs) path e in ground arith
          ]
        ]))
        h

  -- A path that is unread at the start and read at the end of a list of calls was named by one
  -- of the calls: that call's path resolves to it.
  pub run-Names :
      (s : State) (cs : List Call) (path : Bytes)
      → has_been_read s.tracker path ≡ false
      → has_been_read (run s cs).tracker path ≡ true
      → Names cs path
  unfolding run Names
  run-Names s [] path h g = absurd (ground arith)
  run-Names s (c ∷ cs) path h g = elim (Bool-cases (has_been_read (step s c).tracker path)) [
    | inl e ↦ inl (step-reached s c path h e)
    | inr e ↦ inr (run-Names (step s c) cs path e g)
  ]
