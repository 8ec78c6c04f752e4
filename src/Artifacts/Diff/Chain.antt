-- ===== src/Artifacts/Diff/Chain.antt =====
-- The matching blocks, sorted and joined, stand one after the other up to the ends of the lists.
use mathlib.Core.Option
use tx_ide_rs.Prelude.{
  ℕ, ◌+◌, ◌-◌, ◌*◌, ◌≤◌, ◌<◌, ◌≡◌, ap, true, false, ◌&&◌, List, [], ◌∷◌, ◌++◌, some, Text, ltb,
  ◌==◌, length, All, Bool-cases, inl, inr, arith,
}
use tx_ide_rs.Artifacts.Diff.{
  Range, Block, block_le, insert_block, sort_blocks, push_block, collapse, matching_blocks,
}
use tx_ide_rs.Artifacts.Diff.Matching.{Same}
use tx_ide_rs.Artifacts.Diff.Blocks.{
  Apart, lines_of, PairwiseBlocks, All-if, IsBlock, find_blocks-Found,
}

block_le-lt : (x y : Block) → x.i < y.i → block_le x y ≡ true
unfolding block_le
block_le-lt x y h = ground arith

block_le-gt : (x y : Block) → y.i < x.i → block_le x y ≡ false
unfolding block_le
block_le-gt x y h = ground arith

-- The blocks stand one after the other from `i` and `j` on, before `la` and `lb`.
module _ (a b : List Text) where
  abbrev pub Chain : ℕ → ℕ → List Block → Type 0
  Chain i j [] = (i ≤ length a) × (j ≤ length b)
  Chain i j (m ∷ ms) =
      (i ≤ m.i) × (j ≤ m.j) × Same a b m.i m.j m.size × Chain (m.i + m.size) (m.j + m.size) ms

  insert_block-Chain :
      (i j : ℕ) (x : Block) (ms : List Block)
      → i ≤ x.i
      → j ≤ x.j
      → IsBlock a b x
      → All (λ y. Apart (lines_of x) (lines_of y)) ms
      → All (IsBlock a b) ms
      → Chain i j ms
      → Chain i j (insert_block x ms)
  unfolding insert_block
  insert_block-Chain i j x [] hi hj h apart bs c = (hi, hj, h.lines, (h.hi_i, h.hi_j))
  insert_block-Chain i j x (y ∷ ys) hi hj h (inl before, apart) bs c =
      let first : block_le x y ≡ true = block_le-lt x y (omega (arith, h.pos)) in
      rw first (hi, hj, h.lines, (before.0, before.1, c.2, c.3))
  insert_block-Chain i j x (y ∷ ys) hi hj h (inr after, apart) bs c =
      let second : block_le x y ≡ false = block_le-gt x y (omega (arith, bs.0.pos)) in
      rw second (
        c.0,
        c.1,
        c.2,
        insert_block-Chain (y.i + y.size) (y.j + y.size) x ys after.0 after.1 h apart bs.1 c.3,
      )

  All-insert_block {κ} :
      (P : Block → Type κ) (x : Block) (ms : List Block)
      → P x
      → All P ms
      → All P (insert_block x ms)
  unfolding insert_block
  All-insert_block P x [] p h = (p, tt)
  All-insert_block P x (y ∷ ys) p h =
      All-if P (block_le x y) _ _ (p, h) (h.0, All-insert_block P x ys p h.1)

  All-sort_blocks {κ} : (P : Block → Type κ) (ms : List Block) → All P ms → All P (sort_blocks ms)
  unfolding sort_blocks
  All-sort_blocks P [] h = tt
  All-sort_blocks P (m ∷ ms) h =
      All-insert_block P m (sort_blocks ms) h.0 (All-sort_blocks P ms h.1)

  sort_blocks-Chain :
      (ms : List Block) → All (IsBlock a b) ms → PairwiseBlocks ms → Chain 0 0 (sort_blocks ms)
  unfolding sort_blocks
  sort_blocks-Chain [] bs p = (omega arith, omega arith)
  sort_blocks-Chain (m ∷ ms) bs p =
      insert_block-Chain 0 0 m (sort_blocks ms) (omega arith) (omega arith) bs.0
        (All-sort_blocks (λ y. Apart (lines_of m) (lines_of y)) ms p.0)
        (All-sort_blocks (IsBlock a b) ms bs.1) (sort_blocks-Chain ms bs.1 p.1)

  Same-join : (i j k l : ℕ) → Same a b i j k → Same a b (i + k) (j + k) l → Same a b i j (k + l)
  Same-join i j k l s s' t h = elim (Bool-cases (ltb t k)) [
    | inl below ↦ s t (ground arith)
    | inr above ↦
        (let e : i + t ≡ i + k + (t - k) = ground arith in
          let e' : j + t ≡ j + k + (t - k) = ground arith in rw (e, e') (s' (t - k) (ground arith)))
  ]

  Chain-bounds : (i j : ℕ) (ms : List Block) → Chain i j ms → (i ≤ length a) × (j ≤ length b)
  Chain-bounds i j [] c = c
  Chain-bounds i j (m ∷ ms) c =
      let rest = Chain-bounds (m.i + m.size) (m.j + m.size) ms c.3 in omega (arith, c.0, c.1)

  push_block-Chain :
      (i j : ℕ) (m : Block) (ms : List Block)
      → i ≤ m.i
      → j ≤ m.j
      → Same a b m.i m.j m.size
      → Chain (m.i + m.size) (m.j + m.size) ms
      → Chain i j ms
      → Chain i j (push_block m ms)
  unfolding push_block
  push_block-Chain i j m ms hi hj s c c' = elim (Bool-cases (ltb 0 m.size)) [
    | inl some_lines ↦ rw some_lines (hi, hj, s, c)
    | inr no_lines ↦ rw no_lines c'
  ]

  collapse-Chain :
      (i j : ℕ) (m : Block) (ms : List Block)
      → i ≤ m.i
      → j ≤ m.j
      → Same a b m.i m.j m.size
      → Chain (m.i + m.size) (m.j + m.size) ms
      → Chain i j (collapse m ms)
  unfolding collapse
  collapse-Chain i j m [] hi hj s c = push_block-Chain i j m [] hi hj s c (omega (arith, c))
  collapse-Chain i j m (x ∷ xs) hi hj s c =
      elim (Bool-cases (m.i + m.size == x.i && m.j + m.size == x.j)) [
        | inl touch ↦
            (let e : x.i ≡ m.i + m.size = ground arith in
              let e' : x.j ≡ m.j + m.size = ground arith in
              let here : Same a b (m.i + m.size) (m.j + m.size) x.size = rw (← e, ← e') c.2 in
              let at : m.i + (m.size + x.size) ≡ x.i + x.size = omega arith in
              let at' : m.j + (m.size + x.size) ≡ x.j + x.size = omega arith in
              rw touch (
                collapse-Chain i j (record m { size = m.size + x.size }) xs hi hj
                  (Same-join m.i m.j m.size x.size s here) (rw (at, at') c.3)))
        | inr apart ↦ rw apart (
            push_block-Chain i j m (collapse x xs) hi hj s
              (collapse-Chain (m.i + m.size) (m.j + m.size) x xs c.0 c.1 c.2 c.3)
              (collapse-Chain i j x xs (omega (arith, c.0)) (omega (arith, c.1)) c.2 c.3))
      ]

  -- A chain of blocks up to the ends of both lists.
  abbrev pub Tiles : ℕ → ℕ → List Block → Type 0
  Tiles i j [] = (i ≡ length a) × (j ≡ length b)
  Tiles i j (m ∷ ms) =
      (i ≤ m.i) × (j ≤ m.j) × Same a b m.i m.j m.size × Tiles (m.i + m.size) (m.j + m.size) ms

  Chain-Tiles :
      (i j : ℕ) (ms : List Block)
      → Chain i j ms
      → Tiles i j (ms ++ record { i = length a; j = length b; size = 0 } ∷ [])
  Chain-Tiles i j [] c = (c.0, c.1, (λ t h. elim h [ ]), (omega arith, omega arith))
  Chain-Tiles i j (m ∷ ms) c = (c.0, c.1, c.2, Chain-Tiles (m.i + m.size) (m.j + m.size) ms c.3)

  pub matching_blocks-Tiles : (ms : List Block) × (matching_blocks a b ≡ some ms) × Tiles 0 0 ms
  unfolding matching_blocks
  matching_blocks-Tiles =
      let whole : Range = record { alo = 0; ahi = length a; blo = 0; bhi = length b } in
      let (ms, found, f) =
        find_blocks-Found a b (2 * length a + 1) (whole ∷ []) (omega arith)
          (
            record {
              lo_a = omega arith;
              hi_a = omega arith;
              lo_b = omega arith;
              hi_b = omega arith;
            },
            tt,
          )
          (tt, tt) in
      let no_lines : Block = record { i = 0; j = 0; size = 0 } in
      let c =
        collapse-Chain 0 0 no_lines (sort_blocks ms) (omega arith) (omega arith) (λ t h. elim h [ ])
          (sort_blocks-Chain ms f.blocks f.pairwise) in
      (_, ap (Option.map _) found, Chain-Tiles 0 0 (collapse no_lines (sort_blocks ms)) c)
