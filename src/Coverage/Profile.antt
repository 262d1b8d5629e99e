-- ===== src/Coverage/Profile.antt =====
-- The text of a coverage profile (internal/tools/coverage_index.go: parseCoverageProfile). The space
-- trimming and `strings.Fields` are parameters.
use code_gen_sandbox.Files.Replace.{has_prefix}
use code_gen_sandbox.Testing.Events.{split_at_byte}
use code_gen_sandbox.Snapshots.{split_all}
use code_gen_sandbox.Lsp.Wire.{atoi_natural}
use code_gen_sandbox.Coverage.{CoverageRecord, ByFile, build_coverage_by_file}
use code_gen_sandbox.Prelude.{
  ltb, ◌==◌, if◌then◌else◌, length, ℕ, zero, suc, Option, none, some, List, [], ◌∷◌, Bytes, codes,
}

-- `strings.LastIndex` of a byte, with the text on both sides.
unfoldable pub split_last : ℕ → Bytes → Option (Bytes × Bytes)
split_last b [] = none
split_last b (c ∷ s) = elim (split_last b s) [
  | none ↦ if c == b then some ([], s) else none
  | some (before, after) ↦ some (c ∷ before, after)
]

-- `parseLinePart`
unfoldable pub parse_line_part : Bytes → Option ℕ
parse_line_part s =
    let (before, dot) = split_at_byte 46 s in
    elim dot [
      | none ↦ none
      | some after ↦ elim before [
        | [] ↦ none
        | c ∷ cs ↦ elim (atoi_natural (c ∷ cs)) [
          | none ↦ none
          | some zero ↦ none
          | some (suc n) ↦ some (suc n)
        ]
      ]
    ]

-- The package is what stands before the last slash, unless that is the first byte.
unfoldable pub package_of : Bytes → Bytes
package_of file = elim (split_last 47 file) [ none ↦ [] | some (before, after) ↦ before ]

unfoldable pub parse_range : Bytes → Option (ℕ × ℕ)
parse_range spec =
    let (before, comma) = split_at_byte 44 spec in
    elim comma [
      | none ↦ none
      | some after ↦ elim before [
        | [] ↦ none
        | c ∷ cs ↦ elim (parse_line_part (c ∷ cs)) [
          | none ↦ none
          | some start ↦ elim (parse_line_part after) [ none ↦ none | some end ↦ some (start, end) ]
        ]
      ]
    ]

unfoldable pub parse_location : Bytes → Option CoverageRecord
parse_location location = elim (split_last 58 location) [
  | none ↦ none
  | some (before, after) ↦ elim before [
    | [] ↦ none
    | c ∷ cs ↦ elim after [
      | [] ↦ none
      | d ∷ ds ↦ elim (parse_range (d ∷ ds)) [
        | none ↦ none
        | some (start, end) ↦ some (record {
          file = c ∷ cs;
          pkg = package_of (c ∷ cs);
          start_line = start;
          end_line = end;
        })
      ]
    ]
  ]
]

module _ (trim_space : Bytes → Bytes) (fields : Bytes → List Bytes) where
  unfoldable pub parse_coverage_record : Bytes → Option CoverageRecord
  parse_coverage_record line =
      if ltb (length (fields line)) 3
      then none
      else elim (fields line) [ [] ↦ none | location ∷ rest ↦ parse_location location ]

  unfoldable pub parse_lines : List Bytes → List CoverageRecord
  parse_lines [] = []
  parse_lines (line ∷ lines) =
      let rest = parse_lines lines in
      elim (trim_space line) [
        | [] ↦ rest
        | c ∷ cs ↦
            if has_prefix (codes "mode:") (c ∷ cs)
            then rest
            else elim (parse_coverage_record (c ∷ cs)) [ none ↦ rest | some rec ↦ rec ∷ rest ]
      ]

  unfoldable pub parse_coverage_profile : Bytes → List CoverageRecord
  parse_coverage_profile body = parse_lines (split_all 10 body)

  -- `Ingest`, of an index that is not nil; `profile` is the file's content, if it is read.
  unfoldable pub ingest : ByFile → Option Bytes → List (Bytes × List Bytes) → ByFile
  ingest by_file none tests_by_package = by_file
  ingest by_file (some profile) tests_by_package =
      build_coverage_by_file (parse_coverage_profile profile) tests_by_package
