-- ===== src/Examples/Queries.antt =====
-- Coverage, patterns and paths (internal/tools/coverage_index.go, internal/tools/glob.go,
-- internal/workspace/workspace.go).
use code_gen_sandbox.Secrets.{has_byte}
use code_gen_sandbox.Secrets.Sources.{has_byte-Lacks}
use code_gen_sandbox.Testing.Rerun.{join}
use code_gen_sandbox.Coverage.{CoverageRecord, build_coverage_by_file}
use code_gen_sandbox.Coverage.Query.{covering_names}
use code_gen_sandbox.Coverage.Attribution.{attributed, has_text-covering_names}
use code_gen_sandbox.Glob.{doublestar_match}
use code_gen_sandbox.Glob.Segments.{slash, IsSegment, segments_match}
use code_gen_sandbox.Glob.Matching.{doublestar_match-join}
use code_gen_sandbox.Workspaces.Resolve
use code_gen_sandbox.Workspaces.Resolve.{FilePath}
use code_gen_sandbox.Prelude.{
  length, All, ◌<◌, ◌≡◌, refl, ite, Bool, true, false, Option, some, List, [], ◌∷◌, arith, Bytes,
  codes, bytes_discrete, has_text,
}

abbrev covered : CoverageRecord
covered = record { file = codes "m/p/f.go"; pkg = codes "m/p"; start_line = 3; end_line = 5 }

abbrev ran : List (Bytes × List Bytes)
ran = (codes "m/p", codes "TestA" ∷ []) ∷ []

has_text-covering_names_example :
    has_text
      (codes "m/p:TestA")
      (covering_names (build_coverage_by_file (covered ∷ []) ran) (codes "p/f.go") 4)
    ≡ attributed ran (codes "p/f.go") 4 (codes "m/p:TestA") (covered ∷ [])
has_text-covering_names_example =
    has_text-covering_names (covered ∷ []) ran (codes "p/f.go") 4 (codes "m/p:TestA")

abbrev same_segment : Bytes → Bytes → Bool
same_segment p s = ite (bytes_discrete p s) true false

abbrev pattern_segments : List Bytes
pattern_segments = codes "a" ∷ codes "**" ∷ codes "c" ∷ []

abbrev path_segments : List Bytes
path_segments = codes "a" ∷ codes "b" ∷ codes "c" ∷ []

segment : (s : Bytes) → has_byte 47 s ≡ false → 0 < length s → IsSegment s
segment s h l = (has_byte-Lacks 47 s h, l)

pattern_segments_lem : All IsSegment pattern_segments
unfolding has_byte
pattern_segments_lem = (
  segment (codes "a") refl (omega arith),
  (segment (codes "**") refl (omega arith), (segment (codes "c") refl (omega arith), tt)),
)

path_segments_lem : All IsSegment path_segments
unfolding has_byte
path_segments_lem = (
  segment (codes "a") refl (omega arith),
  (segment (codes "b") refl (omega arith), (segment (codes "c") refl (omega arith), tt)),
)

doublestar_match-join_example :
    doublestar_match same_segment (join slash pattern_segments) (join slash path_segments)
    ≡ segments_match same_segment pattern_segments path_segments
doublestar_match-join_example =
    doublestar_match-join same_segment pattern_segments path_segments pattern_segments_lem
      path_segments_lem

abbrev work_root : FilePath
work_root = codes "w" ∷ []

-- The root and the workspace exist, and no link leads elsewhere.
abbrev there : FilePath → Bool
there [] = true
there (s ∷ []) = ite (bytes_discrete s (codes "w")) true false
there (s ∷ t ∷ path) = false

abbrev no_links : FilePath → Option FilePath
no_links path = some path

abbrev inner : FilePath
inner = codes "w" ∷ codes "a" ∷ codes "b" ∷ []
