-- ===== src/Files/Render.antt =====
-- The tools render_mermaid and render_dot (internal/tools/render.go) over the files and the read tracker
-- of Files/Handlers. The renderers, lower case and the making of directories are parameters.
use code_gen_sandbox.Secrets.{has_byte}
use code_gen_sandbox.Coverage.Profile.{split_last}
use code_gen_sandbox.Shell.Command.{clamp_arg}
use code_gen_sandbox.Files.Handlers.{Node, directory, file, FileSystem, State, mark_read}
use code_gen_sandbox.Prelude.{
  ltb, if◌then◌else◌, Bool-cases, Option-cases, length, ℤ, ℕ, ◌*◌, ◌≤◌, ◌≡◌, refl, sym, ap, subst,
  ◌∙◌, ◌⊎◌, inl, inr, ite, Bool, true, false, Option, none, some, [], ◌∷◌, arith, dec_lt, Bytes,
  codes, bytes_discrete,
}

abbrev pub max_render_source_bytes : ℕ
max_render_source_bytes = 1 * 1024 * 1024

abbrev pub max_render_output_bytes : ℕ
max_render_output_bytes = 10 * 1024 * 1024

pub data RenderKind : Type 0 where
  mermaid dot : RenderKind

unfoldable pub renderer_of : RenderKind → Bytes
renderer_of mermaid = codes "mmdc"
renderer_of dot = codes "dot"

pub data RenderError : Type 0 where
  source_required source_too_large output_path_required : RenderError
  unsupported_extension : Bytes → RenderError
  cannot_resolve output_is_directory mkdir_failed : RenderError
  renderer_missing : Bytes → RenderError
  timed_out : ℕ → RenderError
  run_failed stat_failed : RenderError
  output_too_large : ℕ → RenderError

pub data RenderResult : Type 0 where
  refused : RenderError → RenderResult
  -- The bytes written, and the format.
  wrote : ℕ → Bytes → RenderResult

-- `parseRenderArgs`: the timeout, or the error.
unfoldable pub parse_render_args : Bytes → Bytes → Option ℤ → RenderError ⊎ ℕ
parse_render_args [] output_path timeout = inl source_required
parse_render_args (c ∷ cs) output_path timeout =
    if ltb max_render_source_bytes (length (c ∷ cs))
    then inl source_too_large
    else elim output_path [
      | [] ↦ inl output_path_required
      | d ∷ ds ↦ inr (clamp_arg 60 300 timeout)
    ]

-- `filepath.Ext`
unfoldable pub extension : Bytes → Bytes
extension path = elim (split_last 46 path) [
  | none ↦ []
  | some (before, after) ↦ if has_byte 47 after then [] else 46 ∷ after
]

-- `inferRenderFormat` on the extension in lower case.
unfoldable pub infer_render_format : Bytes → Option Bytes
infer_render_format ext = ite (bytes_discrete ext (codes ".svg")) (some (codes "svg")) (
    ite (bytes_discrete ext (codes ".png")) (some (codes "png"))
      (ite (bytes_discrete ext (codes ".pdf")) (some (codes "pdf")) none))

unfoldable pub remove_file : FileSystem → Bytes → FileSystem
remove_file fs abs path = ite (bytes_discrete abs path) none (fs path)

-- How a renderer ends: whether it fails, whether the deadline passed, and the files it leaves.
pub record Rendered : Type 0 where
  pub failed : Bool
  pub deadline : Bool
  pub left : FileSystem

-- What the system gives to a call: `render` is the run with the format and the path of the output, and
-- `directory_size` the size that `Stat` has for a directory.
pub record Renderer : Type 0 where
  pub resolve : Bytes → Option Bytes
  pub to_lower : Bytes → Bytes
  pub mkdir_all : Bytes → Bool
  pub on_path : Bytes → Bool
  pub render : RenderKind → Bytes → Bytes → Bytes → FileSystem → Rendered
  pub directory_size : ℕ

unfoldable pub size_of : ℕ → Node → ℕ
size_of directory_size directory = directory_size
size_of directory_size (file body) = length body

unfoldable pub is_directory : Option Node → Bool
is_directory none = false
is_directory (some directory) = true
is_directory (some (file body)) = false

-- `resolveRenderOutput`
unfoldable pub resolve_render_output : Renderer → FileSystem → Bytes → RenderError ⊎ Bytes
resolve_render_output r fs output_path = elim (r.resolve output_path) [
  | none ↦ inl cannot_resolve
  | some abs ↦
      if is_directory (fs abs)
      then inl output_is_directory
      else if r.mkdir_all abs
      then inr abs
      else inl mkdir_failed
]

unfoldable pub settle_output : Renderer → State → Bytes → Bytes → FileSystem → RenderResult × State
settle_output r s format abs fs = elim (fs abs) [
  | none ↦ (refused stat_failed, record s { files = fs })
  | some node ↦
      if ltb max_render_output_bytes (size_of r.directory_size node)
      then (
        refused (output_too_large (size_of r.directory_size node)),
        record s { files = remove_file fs abs },
      )
      else (
        wrote (size_of r.directory_size node) format,
        record { files = fs; tracker = mark_read s.tracker abs },
      )
]

-- `handleRender` behind the checks, `runRenderSubprocess` included.
unfoldable pub render_to :
    Renderer → RenderKind → State → Bytes → Bytes → Bytes → ℕ → RenderResult × State
render_to r kind s source format abs timeout_sec =
    if r.on_path (renderer_of kind)
    then (let run = r.render kind source format abs s.files in
        if run.failed
        then (
          refused (if run.deadline then timed_out timeout_sec else run_failed),
          record s { files = remove_file run.left abs },
        )
        else settle_output r s format abs run.left)
    else (
      refused (renderer_missing (renderer_of kind)),
      record s { files = remove_file s.files abs },
    )

-- `handleRender`
unfoldable pub handle_render :
    Renderer → RenderKind → State → Bytes → Bytes → Option ℤ → RenderResult × State
handle_render r kind s source output_path timeout =
    elim (parse_render_args source output_path timeout) [
      | inl e ↦ (refused e, s)
      | inr timeout_sec ↦
          let ext = r.to_lower (extension output_path) in
          elim (infer_render_format ext) [
            | none ↦ (refused (unsupported_extension ext), s)
            | some format ↦ elim (resolve_render_output r s.files output_path) [
              | inl e ↦ (refused e, s)
              | inr abs ↦ render_to r kind s source format abs timeout_sec
            ]
          ]
    ]

-- Where the renderer is not installed a call still removes the file that stood at the output path, and
-- no other.
pub render_to-missing :
    (r : Renderer) (kind : RenderKind) (s : State) (source format abs path : Bytes)
    (timeout_sec : ℕ)
    → r.on_path (renderer_of kind) ≡ false
    → let (result, after) = render_to r kind s source format abs timeout_sec in
      (result ≡ refused (renderer_missing (renderer_of kind)))
      × (after.files path ≡ ite (bytes_discrete abs path) none (s.files path))
unfolding render_to remove_file
render_to-missing r kind s source format abs path timeout_sec h = rw h (refl, refl)

-- The state that a rendered file of `n` bytes leaves.
abbrev pub HasOutput : Renderer → Bytes → ℕ → State → Type 0
HasOutput r abs n after =
    (node : Node) × (after.files abs ≡ some node)
    × (n ≡ size_of r.directory_size node)
    × (n ≤ max_render_output_bytes)
    × (after.tracker abs ≡ true)

settle_output-HasOutput :
    (r : Renderer) (s : State) (format abs : Bytes) (fs : FileSystem) (n : ℕ)
    → (settle_output r s format abs fs).0 ≡ wrote n format
    → HasOutput r abs n (settle_output r s format abs fs).1
unfolding settle_output mark_read
settle_output-HasOutput r s format abs fs n h = elim (Option-cases (fs abs)) [
  | inl e ↦ ground arith
  | inr (node, e) ↦ elim (dec_lt max_render_output_bytes (size_of r.directory_size node)) [
    | yes p ↦ ground arith
    | no p ↦
        let m : wrote (size_of r.directory_size node) format ≡ wrote n format = ground arith in
        let k : size_of r.directory_size node ≡ n = cc in
        (node, ground arith, sym k, omega arith, ground arith)
  ]
]

-- A call that answers a size has left a file of that size within the cap, and counts it as read.
pub render_to-wrote :
    (r : Renderer) (kind : RenderKind) (s : State) (source format abs : Bytes) (timeout_sec n : ℕ)
    → let (result, after) = render_to r kind s source format abs timeout_sec in
      result ≡ wrote n format → HasOutput r abs n after
unfolding render_to
render_to-wrote r kind s source format abs timeout_sec n h =
    elim (Bool-cases (r.on_path (renderer_of kind))) [
      | inr e ↦ ground arith
      | inl e ↦
          let run = r.render kind source format abs s.files in
          elim (Bool-cases run.failed) [
            | inl f ↦ ground arith
            | inr f ↦
                let q : render_to r kind s source format abs timeout_sec
                    ≡ settle_output r s format abs run.left =
                  ground arith in
                let p =
                  settle_output-HasOutput r s format abs run.left n
                    (ap (λ (x : RenderResult × State). x.0) (sym q) ∙ h) in
                subst (λ (x : RenderResult × State). HasOutput r abs n x.1) (sym q) p
          ]
    ]
