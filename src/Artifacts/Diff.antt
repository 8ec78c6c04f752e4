-- ===== src/Artifacts/Diff.antt =====
-- The diff of two lists of lines (plugins/artifacts/src/difflib.rs), up to the opcodes.
pub mod Matching
pub mod Longest
pub mod Blocks
pub mod Chain
pub mod Script
pub mod Unified
use mathlib.Core.Option
use tx_ide_rs.Prelude.{
  ℕ, zero, suc, ◌+◌, ◌-◌, ◌*◌, ◌/◌, Bool, true, false, ◌&&◌, List, [], ◌∷◌, ◌++◌, Option, none,
  some, Text, text_eq, ltb, leb, ◌==◌, if◌then◌else◌, length, get_elem?, take, drop,
}

-- The lines of the first list from `alo` up to `ahi`, and of the second from `blo` up to `bhi`.
pub record Range : Type 0 where
  pub alo : ℕ
  pub ahi : ℕ
  pub blo : ℕ
  pub bhi : ℕ

-- `size` lines that are the same, from `i` in the first list and from `j` in the second.
pub record Block : Type 0 where
  pub i : ℕ
  pub j : ℕ
  pub size : ℕ

-- The positions of a line, ascending.
unfoldable pub positions : Text → List Text → ℕ → List ℕ
positions line [] j = []
positions line (x ∷ b) j =
    let rest = positions line b (suc j) in if text_eq x line then j ∷ rest else rest

-- `b2j` at a line: a line that is popular in a long list has none.
unfoldable pub b2j : List Text → Text → List ℕ
unfolding positions
b2j b line =
    let js = positions line b 0 in
    if leb 200 (length b) && ltb (length b / 100 + 1) (length js) then [] else js

-- `j2len.get(&j)`, where a missing entry reads as 0.
unfoldable pub run_at : ℕ → List (ℕ × ℕ) → ℕ
run_at j [] = 0
run_at j ((j', k) ∷ m) = if j' == j then k else run_at j m

-- The entry of the column before `j`.
unfoldable pub run_before : ℕ → List (ℕ × ℕ) → ℕ
unfolding run_at
run_before zero m = 0
run_before (suc j) m = run_at j m

unfoldable pub better : ℕ → ℕ → ℕ → Block → Block
better i j k best =
    if ltb best.size k then record { i = i + 1 - k; j = j + 1 - k; size = k } else best

-- The columns of row `i`: the best block so far and the new `j2len`.
unfoldable pub scan_row :
    Range → ℕ → List (ℕ × ℕ) → List ℕ → Block → List (ℕ × ℕ) → Block × List (ℕ × ℕ)
unfolding run_before better
scan_row r i j2len [] best new = (best, new)
scan_row r i j2len (j ∷ js) best new =
    let k = run_before j j2len + 1 in
    let skipped = scan_row r i j2len js best new in
    let entered = scan_row r i j2len js (better i j k best) ((j, k) ∷ new) in
    if ltb j r.blo then skipped else (if leb r.bhi j then (best, new) else entered)

-- The test of two lines, which the loops make only at positions within the lists.
abbrev same : Option Text → Option Text → Bool
same (some x) (some y) = text_eq x y
same _ _ = false

module _ (a b : List Text) where
  unfoldable pub same_line : ℕ → ℕ → Bool
  same_line i j = same (get_elem? a i) (get_elem? b j)

  unfoldable pub scan_rows : Range → List Text → ℕ → List (ℕ × ℕ) → Block → Block
  unfolding scan_row b2j
  scan_rows r [] i j2len best = best
  scan_rows r (line ∷ lines) i j2len best =
      let row = scan_row r i j2len (b2j b line) best [] in scan_rows r lines (suc i) row.1 row.0

  -- The loop that extends a block towards the start of the range.
  unfoldable pub grow_down : Range → ℕ → ℕ → ℕ → Block
  unfolding same_line
  grow_down r (suc i) (suc j) k =
      let down = grow_down r i j (suc k) in
      if ltb r.alo (suc i) && (ltb r.blo (suc j) && same_line i j)
      then down
      else record { i = suc i; j = suc j; size = k }
  grow_down r i j k = record { i = i; j = j; size = k }

  -- The loop that extends a block towards the end of the range, `room` lines at most.
  unfoldable pub grow_up : Range → ℕ → Block → Block
  unfolding same_line
  grow_up r zero m = m
  grow_up r (suc room) m =
      let up = grow_up r room (record m { size = m.size + 1 }) in
      if ltb (m.j + m.size) r.bhi && same_line (m.i + m.size) (m.j + m.size) then up else m

  unfoldable pub find_longest_match : Range → Block
  unfolding scan_rows grow_down grow_up
  find_longest_match r =
      let start : Block = record { i = r.alo; j = r.blo; size = 0 } in
      let best = scan_rows r (drop r.alo (take r.ahi a)) r.alo [] start in
      let down = grow_down r best.i best.j best.size in
      grow_up r (r.ahi - (down.i + down.size)) down

  -- What is left to match on either side of a block, on top of the queue.
  unfoldable pub push_sides : Range → Block → List Range → List Range
  push_sides r m queue =
      let left : Range = record { alo = r.alo; ahi = m.i; blo = r.blo; bhi = m.j } in
      let right : Range = record {
        alo = m.i + m.size;
        ahi = r.ahi;
        blo = m.j + m.size;
        bhi = r.bhi;
      } in
      let queued = if ltb r.alo m.i && ltb r.blo m.j then left ∷ queue else queue in
      if ltb (m.i + m.size) r.ahi && ltb (m.j + m.size) r.bhi then right ∷ queued else queued

  -- The blocks in the order in which they are found; `none` when the rounds run out.
  unfoldable pub find_blocks : ℕ → List Range → Option (List Block)
  unfolding find_longest_match push_sides
  find_blocks fuel [] = some []
  find_blocks zero (r ∷ queue) = none
  find_blocks (suc fuel) (r ∷ queue) =
      let m = find_longest_match r in
      let hit = Option.map (λ ms. m ∷ ms) (find_blocks fuel (push_sides r m queue)) in
      let miss = find_blocks fuel queue in if ltb 0 m.size then hit else miss

-- The order of the tuples.
unfoldable pub block_le : Block → Block → Bool
block_le x y =
    if x.i == y.i then (if x.j == y.j then leb x.size y.size else ltb x.j y.j) else ltb x.i y.i

unfoldable pub insert_block : Block → List Block → List Block
unfolding block_le
insert_block x [] = x ∷ []
insert_block x (y ∷ ys) =
    let later = insert_block x ys in if block_le x y then x ∷ y ∷ ys else y ∷ later

unfoldable pub sort_blocks : List Block → List Block
unfolding insert_block
sort_blocks [] = []
sort_blocks (x ∷ xs) = insert_block x (sort_blocks xs)

unfoldable pub push_block : Block → List Block → List Block
push_block m ms = if ltb 0 m.size then m ∷ ms else ms

-- Blocks that touch become one.
unfoldable pub collapse : Block → List Block → List Block
unfolding push_block
collapse m [] = push_block m []
collapse m (x ∷ xs) =
    let joined = collapse (record m { size = m.size + x.size }) xs in
    let apart = push_block m (collapse x xs) in
    if m.i + m.size == x.i && m.j + m.size == x.j then joined else apart

-- The rounds are enough: each one takes lines off a range, or the range itself.
unfoldable pub matching_blocks : List Text → List Text → Option (List Block)
unfolding find_blocks sort_blocks collapse
matching_blocks a b =
    let whole : Range = record { alo = 0; ahi = length a; blo = 0; bhi = length b } in
    let no_lines : Block = record { i = 0; j = 0; size = 0 } in
    let end : Block = record { i = length a; j = length b; size = 0 } in
    Option.map (λ ms. collapse no_lines (sort_blocks ms) ++ end ∷ [])
      (find_blocks a b (2 * length a + 1) (whole ∷ []))

pub data Tag : Type 0 where
  replaced deleted inserted equal : Tag

-- `Opcode`
pub record Opcode : Type 0 where
  pub tag : Tag
  pub i1 : ℕ
  pub i2 : ℕ
  pub j1 : ℕ
  pub j2 : ℕ

abbrev gap_tag : Bool → Bool → Option Tag
gap_tag true true = some replaced
gap_tag true false = some deleted
gap_tag false true = some inserted
gap_tag false false = none

abbrev push_gap : Option Tag → ℕ → ℕ → ℕ → ℕ → List Opcode → List Opcode
push_gap none i i' j j' ops = ops
push_gap (some t) i i' j j' ops = record { tag = t; i1 = i; i2 = i'; j1 = j; j2 = j' } ∷ ops

abbrev push_equal : Block → List Opcode → List Opcode
push_equal m ops =
    if ltb 0 m.size
    then record { tag = equal; i1 = m.i; i2 = m.i + m.size; j1 = m.j; j2 = m.j + m.size } ∷ ops
    else ops

unfoldable pub opcodes_from : ℕ → ℕ → List Block → List Opcode
opcodes_from i j [] = []
opcodes_from i j (m ∷ ms) =
    push_gap (gap_tag (ltb i m.i) (ltb j m.j)) i m.i j m.j
      (push_equal m (opcodes_from (m.i + m.size) (m.j + m.size) ms))

unfoldable pub opcodes : List Text → List Text → Option (List Opcode)
unfolding opcodes_from matching_blocks
opcodes a b = Option.map (opcodes_from 0 0) (matching_blocks a b)
