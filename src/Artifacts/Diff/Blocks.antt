-- ===== src/Artifacts/Diff/Blocks.antt =====
-- The matching blocks: the rounds are enough, and the blocks stand one after the other.
use tx_ide_rs.Prelude.{
  ℕ, zero, suc, ◌+◌, ◌-◌, ◌*◌, ◌≤◌, ◌<◌, ◌≡◌, refl, Bool, true, false, ◌&&◌, List, [], ◌∷◌, some,
  Text, ltb, if◌then◌else◌, length, All, Bool-cases, inl, inr, ◌⊎◌, arith,
}
use tx_ide_rs.Artifacts.Diff.{Range, Block, find_longest_match, push_sides, find_blocks}
use tx_ide_rs.Artifacts.Diff.Matching.{IsRange, IsMatch, Same}
use tx_ide_rs.Artifacts.Diff.Longest.{find_longest_match-IsMatch}

-- One of the ranges lies before the other in both lists.
abbrev pub Before : Range → Range → Type 0
Before r s = (r.ahi ≤ s.alo) × (r.bhi ≤ s.blo)

abbrev pub Apart : Range → Range → Type 0
Apart r s = Before r s ⊎ Before s r

abbrev Within : Range → Range → Type 0
Within s r = (r.alo ≤ s.alo) × (s.ahi ≤ r.ahi) × (r.blo ≤ s.blo) × (s.bhi ≤ r.bhi)

Apart-Within : (t r s : Range) → Within s r → Apart t r → Apart t s
Apart-Within t r s w (inl h) = inl (omega arith)
Apart-Within t r s w (inr h) = inr (omega arith)

Apart-sym : (r s : Range) → Apart r s → Apart s r
Apart-sym r s (inl h) = inr h
Apart-sym r s (inr h) = inl h

-- The lines of a block.
abbrev pub lines_of : Block → Range
lines_of m = record { alo = m.i; ahi = m.i + m.size; blo = m.j; bhi = m.j + m.size }

abbrev pub Pairwise : List Range → Type 0
Pairwise [] = Unit
Pairwise (r ∷ rs) = All (Apart r) rs × Pairwise rs

abbrev pub PairwiseBlocks : List Block → Type 0
PairwiseBlocks [] = Unit
PairwiseBlocks (m ∷ ms) = All (λ x. Apart (lines_of m) (lines_of x)) ms × PairwiseBlocks ms

-- What the rounds have still to do, at most.
abbrev pub work : List Range → ℕ
work [] = 0
work (r ∷ rs) = 2 * (r.ahi - r.alo) + 1 + work rs

All-Apart : (t r : Range) (rs : List Range) → Within t r → All (Apart r) rs → All (Apart t) rs
All-Apart t r [] w h = tt
All-Apart t r (s ∷ rs) w h =
    (Apart-sym s t (Apart-Within s r t w (Apart-sym r s h.0)), All-Apart t r rs w h.1)

pub All-if {ℓ κ} :
    {A : Type ℓ} (P : A → Type κ) (t : Bool) (xs ys : List A)
    → All P xs
    → All P ys
    → All P (if t then xs else ys)
All-if P true xs ys h h' = h
All-if P false xs ys h h' = h'

Pairwise-if :
    (t : Bool) (rs ss : List Range) → Pairwise rs → Pairwise ss → Pairwise (if t then rs else ss)
Pairwise-if true rs ss h h' = h
Pairwise-if false rs ss h h' = h'

module _ (a b : List Text) where
  -- A block of the diff: not empty, within the lists, and of lines that are the same.
  pub record IsBlock (m : Block) : Type 0 where
    pub pos : 0 < m.size
    pub hi_i : m.i + m.size ≤ length a
    pub hi_j : m.j + m.size ≤ length b
    pub lines : Same a b m.i m.j m.size

  All-push_sides :
      (P : Range → Type 0) (r : Range) (m : Block) (queue : List Range)
      → P (record { alo = r.alo; ahi = m.i; blo = r.blo; bhi = m.j })
      → P (record { alo = m.i + m.size; ahi = r.ahi; blo = m.j + m.size; bhi = r.bhi })
      → All P queue
      → All P (push_sides a b r m queue)
  unfolding push_sides
  All-push_sides P r m queue left right q =
      let lower = ltb r.alo m.i && ltb r.blo m.j in
      let queued = All-if P lower _ _ (left, q) q in
      All-if P (ltb (m.i + m.size) r.ahi && ltb (m.j + m.size) r.bhi) _ _ (right, queued) queued

  IsRange-push_sides :
      (r : Range) (m : Block) (queue : List Range)
      → IsMatch a b r m
      → All (IsRange a b) (r ∷ queue)
      → All (IsRange a b) (push_sides a b r m queue)
  IsRange-push_sides r m queue h rs =
      All-push_sides (IsRange a b) r m queue
        (record {
          lo_a = h.lo_i;
          hi_a = omega (arith, rs.0.hi_a, h.hi_i);
          lo_b = h.lo_j;
          hi_b = omega (arith, rs.0.hi_b, h.hi_j);
        })
        (record { lo_a = h.hi_i; hi_a = rs.0.hi_a; lo_b = h.hi_j; hi_b = rs.0.hi_b }) rs.1

  Pairwise-push_sides :
      (r : Range) (m : Block) (queue : List Range)
      → IsMatch a b r m
      → Pairwise (r ∷ queue)
      → Pairwise (push_sides a b r m queue)
  unfolding push_sides
  Pairwise-push_sides r m queue h (rs, q) =
      let left : Range = record { alo = r.alo; ahi = m.i; blo = r.blo; bhi = m.j } in
      let right : Range = record {
        alo = m.i + m.size;
        ahi = r.ahi;
        blo = m.j + m.size;
        bhi = r.bhi;
      } in
      let l : All (Apart left) queue = All-Apart left r queue (omega (arith, h.hi_i, h.hi_j)) rs in
      let r' : All (Apart right) queue =
        All-Apart right r queue (omega (arith, h.lo_i, h.lo_j)) rs in
      let apart : Apart right left = inr (omega arith) in
      let lower = ltb r.alo m.i && ltb r.blo m.j in
      let upper = ltb (m.i + m.size) r.ahi && ltb (m.j + m.size) r.bhi in
      let queued = Pairwise-if lower _ _ (l, q) q in
      Pairwise-if upper _ _ (All-if (Apart right) lower _ _ (apart, r') r', queued) queued

  work-push_sides :
      (r : Range) (m : Block) (queue : List Range)
      → IsMatch a b r m
      → 0 < m.size
      → work (push_sides a b r m queue) < work (r ∷ queue)
  unfolding push_sides
  work-push_sides r m queue h pos = ground (arith, h.lo_i, h.hi_i)

  -- What the rounds have found in the ranges of the queue.
  pub record Found (queue : List Range) (ms : List Block) : Type 0 where
    pub blocks : All IsBlock ms
    pub pairwise : PairwiseBlocks ms
    pub apart : (t : Range) → All (Apart t) queue → All (λ x. Apart t (lines_of x)) ms

  Found-cons :
      (r : Range) (queue : List Range) (m : Block) (ms : List Block)
      → IsRange a b r
      → IsMatch a b r m
      → 0 < m.size
      → All (Apart r) queue
      → Found (push_sides a b r m queue) ms
      → Found (r ∷ queue) (m ∷ ms)
  Found-cons r queue m ms whole h pos p f =
      let within : Within (lines_of m) r = omega (arith, h.lo_i, h.hi_i, h.lo_j, h.hi_j) in
      record {
        blocks = (
          record {
            pos = pos;
            hi_i = omega (arith, h.hi_i, whole.hi_a);
            hi_j = omega (arith, h.hi_j, whole.hi_b);
            lines = h.lines;
          },
          f.blocks,
        );
        pairwise = (
          f.apart (lines_of m) (
              All-push_sides (Apart (lines_of m)) r m queue (inr (omega arith)) (inl (omega arith))
                (All-Apart (lines_of m) r queue within p)),
          f.pairwise,
        );
        apart = λ t q. (
          Apart-Within t r (lines_of m) within q.0,
          f.apart t (
              All-push_sides (Apart t) r m queue
                (Apart-Within t r _ (omega (arith, h.hi_i, h.hi_j)) q.0)
                (Apart-Within t r _ (omega (arith, h.lo_i, h.lo_j)) q.0) q.1),
        );
      }

  pub find_blocks-Found :
      (fuel : ℕ) (queue : List Range)
      → work queue ≤ fuel
      → All (IsRange a b) queue
      → Pairwise queue
      → (ms : List Block) × (find_blocks a b fuel queue ≡ some ms) × Found queue ms
  unfolding find_blocks
  find_blocks-Found fuel [] w rs p =
      ([], refl, record { blocks = tt; pairwise = tt; apart = λ t h. tt })
  find_blocks-Found zero (r ∷ queue) w rs p = absurd (omega arith)
  find_blocks-Found (suc fuel) (r ∷ queue) w rs p =
      let m = find_longest_match a b r in
      let h = find_longest_match-IsMatch a b r rs.0 in
      elim (Bool-cases (ltb 0 m.size)) [
        | inl some_lines ↦
            (let pos : 0 < m.size = ground arith in
              let ranges = IsRange-push_sides r m queue h rs in
              let (ms, found, f) =
                find_blocks-Found fuel (push_sides a b r m queue)
                  (omega (arith, work-push_sides r m queue h pos)) ranges
                  (Pairwise-push_sides r m queue h p) in
              (m ∷ ms, rw (some_lines, found), Found-cons r queue m ms rs.0 h pos p.0 f))
        | inr no_lines ↦
            (let (ms, found, f) = find_blocks-Found fuel queue (omega arith) rs.1 p.1 in
              (
                ms,
                rw (no_lines, found),
                record { blocks = f.blocks; pairwise = f.pairwise; apart = λ t h. f.apart t h.1 },
              ))
      ]
