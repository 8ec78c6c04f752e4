-- ===== src/Artifacts/Diff/Unified.antt =====
-- The groups of opcodes and the text of a unified diff (plugins/artifacts/src/difflib.rs).
pub mod Changes
use mathlib.Core.Option
use tx_ide_rs.Prelude.{
  ℕ, zero, suc, ◌+◌, ◌-◌, ◌*◌, ◌/◌, ◌%◌, min, max, Bool, true, false, not, ◌&&◌, List, [], ◌∷◌,
  ◌++◌, Option, none, some, Text, codes, ltb, if◌then◌else◌,
}
use tx_ide_rs.Artifacts.Diff.{Tag, replaced, deleted, inserted, equal, Opcode, opcodes}
use tx_ide_rs.Artifacts.Diff.Script.{slice}

abbrev pub is_equal : Opcode → Bool
is_equal op = by_tag op.tag
  where
    by_tag : Tag → Bool
    by_tag equal = true
    by_tag _ = false

-- The last `n` lines of an opcode, and the first.
abbrev pub last_lines : ℕ → Opcode → Opcode
last_lines n op = record op { i1 = max op.i1 (op.i2 - n); j1 = max op.j1 (op.j2 - n) }

abbrev pub first_lines : ℕ → Opcode → Opcode
first_lines n op = record op { i2 = min op.i2 (op.i1 + n); j2 = min op.j2 (op.j1 + n) }

unfoldable pub trim_first : ℕ → List Opcode → List Opcode
trim_first n [] = []
trim_first n (op ∷ ops) = (if is_equal op then last_lines n op else op) ∷ ops

unfoldable pub trim_last : ℕ → List Opcode → List Opcode
trim_last n [] = []
trim_last n (op ∷ []) = (if is_equal op then first_lines n op else op) ∷ []
trim_last n (op ∷ op' ∷ ops) = op ∷ trim_last n (op' ∷ ops)

-- The group that is open at the end.
unfoldable pub close_group : List Opcode → List (List Opcode)
close_group [] = []
close_group (op ∷ []) = if is_equal op then [] else (op ∷ []) ∷ []
close_group (op ∷ op' ∷ ops) = (op ∷ op' ∷ ops) ∷ []

-- A long run of equal lines ends a group and starts the next.
unfoldable pub groups_from : ℕ → List Opcode → List Opcode → List (List Opcode)
unfolding close_group
groups_from n group [] = close_group group
groups_from n group (op ∷ ops) =
    let cut = (group ++ first_lines n op ∷ []) ∷ groups_from n (last_lines n op ∷ []) ops in
    let joined = groups_from n (group ++ op ∷ []) ops in
    if is_equal op && ltb (2 * n) (op.i2 - op.i1) then cut else joined

abbrev pub or_one_equal : List Opcode → List Opcode
or_one_equal [] = record { tag = equal; i1 = 0; i2 = 1; j1 = 0; j2 = 1 } ∷ []
or_one_equal (op ∷ ops) = op ∷ ops

unfoldable pub group_opcodes : ℕ → List Opcode → List (List Opcode)
unfolding trim_first trim_last groups_from
group_opcodes n ops = groups_from n [] (trim_last n (trim_first n (or_one_equal ops)))

unfoldable pub grouped_opcodes : List Text → List Text → ℕ → Option (List (List Opcode))
unfolding group_opcodes opcodes
grouped_opcodes a b n = Option.map (group_opcodes n) (opcodes a b)

-- `usize::to_string`: a number has no more digits than its value and one.
unfoldable pub decimal_from : ℕ → ℕ → Text
decimal_from zero n = []
decimal_from (suc fuel) n =
    let more = decimal_from fuel (n / 10) ++ (b'0' + n % 10) ∷ [] in
    if ltb n 10 then (b'0' + n) ∷ [] else more

unfoldable pub decimal : ℕ → Text
unfolding decimal_from
decimal n = decimal_from (n + 1) n

unfoldable pub format_range_unified : ℕ → ℕ → Text
unfolding decimal
format_range_unified start stop = by_length (stop - start)
  where
    by_length : ℕ → Text
    by_length zero = decimal start ++ codes ",0"
    by_length (suc zero) = decimal (start + 1)
    by_length (suc (suc n)) = decimal (start + 1) ++ (b',' ∷ decimal (suc (suc n)))

-- The lines, each after a mark.
abbrev pub marked : ℕ → List Text → Text
marked mark [] = []
marked mark (line ∷ lines) = mark ∷ (line ++ marked mark lines)

unfoldable pub opcode_text : List Text → List Text → Opcode → Text
opcode_text a b op = by_tag op.tag
  where
    by_tag : Tag → Text
    by_tag equal = marked b' ' (slice a op.i1 op.i2)
    by_tag replaced = marked b'-' (slice a op.i1 op.i2) ++ marked b'+' (slice b op.j1 op.j2)
    by_tag deleted = marked b'-' (slice a op.i1 op.i2)
    by_tag inserted = marked b'+' (slice b op.j1 op.j2)

abbrev pub last_of : Opcode → List Opcode → Opcode
last_of op [] = op
last_of op (op' ∷ ops) = last_of op' ops

abbrev pub opcode_texts : List Text → List Text → List Opcode → Text
opcode_texts a b [] = []
opcode_texts a b (op ∷ ops) = opcode_text a b op ++ opcode_texts a b ops

-- A group is never empty.
unfoldable pub group_text : List Text → List Text → List Opcode → Text
unfolding format_range_unified opcode_text
group_text a b [] = []
group_text a b (op ∷ ops) =
    let last = last_of op ops in
    codes "@@ -"
    ++ (format_range_unified op.i1 last.i2
        ++ (codes " +"
            ++ (format_range_unified op.j1 last.j2
                ++ (codes " @@\n" ++ opcode_texts a b (op ∷ ops)))))

abbrev pub group_texts : List Text → List Text → List (List Opcode) → Text
group_texts a b [] = []
group_texts a b (g ∷ gs) = group_text a b g ++ group_texts a b gs

abbrev pub diff_text : List Text → List Text → Text → Text → List (List Opcode) → Text
diff_text a b fromfile tofile [] = []
diff_text a b fromfile tofile (g ∷ gs) =
    codes "--- "
    ++ (fromfile ++ (codes "\n+++ " ++ (tofile ++ (codes "\n" ++ group_texts a b (g ∷ gs)))))

unfoldable pub unified_diff : List Text → List Text → Text → Text → Option Text
unfolding group_text grouped_opcodes
unified_diff a b fromfile tofile =
    Option.map (diff_text a b fromfile tofile) (grouped_opcodes a b 3)
