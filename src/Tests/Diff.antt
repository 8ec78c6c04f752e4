-- ===== src/Tests/Diff.antt =====
-- The theorems on the line diff at concrete inputs.
use tx_ide_rs.Prelude.{◌≡◌, refl, List, [], ◌∷◌, some, Text, codes, text_eq}
use tx_ide_rs.Artifacts.Diff.{Opcode, opcodes, equal, replaced}
use tx_ide_rs.Artifacts.Diff.Script.{concat, old_lines, new_lines, opcodes-lines}
use tx_ide_rs.Artifacts.Diff.Unified.{grouped_opcodes}
use tx_ide_rs.Artifacts.Diff.Unified.Changes.{changes, grouped_opcodes-changes}
use tx_ide_rs.Artifacts.Lines.{splitlines_keepends, join, FallsInto, splitlines_keepends-lines}

abbrev old_text : List Text
old_text = codes "a\n" ∷ codes "b\n" ∷ []

abbrev new_text : List Text
new_text = codes "a\n" ∷ codes "c\n" ∷ []

opcodes-lines_example :
    (ops : List Opcode) × (opcodes old_text new_text ≡ some ops)
    × (concat (old_lines old_text) ops ≡ old_text)
    × (concat (new_lines old_text new_text) ops ≡ new_text)
opcodes-lines_example = opcodes-lines old_text new_text

abbrev sample_opcodes : List Opcode
sample_opcodes =
    record { tag = equal; i1 = 0; i2 = 1; j1 = 0; j2 = 1 }
    ∷ record { tag = replaced; i1 = 1; i2 = 2; j1 = 1; j2 = 2 }
    ∷ []

sample_opcodes-found : opcodes old_text new_text ≡ some sample_opcodes
unfolding opcodes text_eq
sample_opcodes-found = refl

grouped_opcodes-changes_example :
    (groups : List (List Opcode)) × (grouped_opcodes old_text new_text 3 ≡ some groups)
    × (concat changes groups ≡ changes sample_opcodes)
grouped_opcodes-changes_example =
    grouped_opcodes-changes old_text new_text 3 sample_opcodes sample_opcodes-found

splitlines_keepends-lines_example :
    (join (splitlines_keepends (codes "a\r\nb")) ≡ codes "a\r\nb")
    × FallsInto (codes "a\r\nb") (splitlines_keepends (codes "a\r\nb"))
splitlines_keepends-lines_example = splitlines_keepends-lines (codes "a\r\nb")
