-- ===== src/Artifacts/Diff/Matching.antt =====
-- The block that `find_longest_match` finds: lines that are the same, within the range.
use tx_ide_rs.Prelude.{
  ℕ, zero, suc, ◌+◌, ◌-◌, ◌≤◌, ◌<◌, ◌≡◌, true, List, [], ◌∷◌, Text, ◌==◌, length, All, Bool-cases,
  inl, inr, arith,
}
use tx_ide_rs.Artifacts.Diff.{Range, Block, same_line, run_at, run_before}

-- The range lies within the two lists.
pub record IsRange (a b : List Text) (r : Range) : Type 0 where
  pub lo_a : r.alo ≤ r.ahi
  pub hi_a : r.ahi ≤ length a
  pub lo_b : r.blo ≤ r.bhi
  pub hi_b : r.bhi ≤ length b

module _ (a b : List Text) where
  -- The `k` lines from `i` on are the `k` lines from `j` on.
  abbrev pub Same : ℕ → ℕ → ℕ → Type 0
  Same i j k = (t : ℕ) → t < k → same_line a b (i + t) (j + t) ≡ true

  pub record IsMatch (r : Range) (m : Block) : Type 0 where
    pub lo_i : r.alo ≤ m.i
    pub hi_i : m.i + m.size ≤ r.ahi
    pub lo_j : r.blo ≤ m.j
    pub hi_j : m.j + m.size ≤ r.bhi
    pub lines : Same m.i m.j m.size

  pub Same-none : (i j : ℕ) → Same i j 0
  Same-none i j t h = elim h [ ]

  pub Same-snoc : (i j k : ℕ) → Same i j k → same_line a b (i + k) (j + k) ≡ true → Same i j (suc k)
  Same-snoc i j k s last t h = elim (Bool-cases (t == k)) [
    | inl at ↦ (let e : t ≡ k = ground arith in rw e last)
    | inr before ↦ s t (ground arith)
  ]

  pub Same-cons : (i j k : ℕ) → same_line a b i j ≡ true → Same (suc i) (suc j) k → Same i j (suc k)
  Same-cons i j k first s zero h =
      let e : i + 0 ≡ i = omega arith in let e' : j + 0 ≡ j = omega arith in rw (e, e') first
  Same-cons i j k first s (suc t) h =
      let e : i + suc t ≡ suc i + t = omega arith in
      let e' : j + suc t ≡ suc j + t = omega arith in rw (e, e') (s t (omega arith))

  -- An entry of `j2len` before row `i`: a run of `k` lines that ends at row `i` and column `j`.
  pub record IsRun (r : Range) (i : ℕ) (e : ℕ × ℕ) : Type 0 where
    pub from_i : r.alo + e.1 ≤ i
    pub from_j : r.blo + e.1 ≤ e.0 + 1
    pub lines : Same (i - e.1) (e.0 + 1 - e.1) e.1

  -- The run that ends before row `i` and column `j`.
  pub record EndsAt (r : Range) (i j k : ℕ) : Type 0 where
    pub from_i : r.alo + k ≤ i
    pub from_j : r.blo + k ≤ j
    pub lines : Same (i - k) (j - k) k

  no_run : (r : Range) (i j : ℕ) → r.alo ≤ i → r.blo ≤ j → EndsAt r i j 0
  no_run r i j hi hj = record {
    from_i = omega arith;
    from_j = omega arith;
    lines = Same-none (i - 0) (j - 0);
  }

  run_at-EndsAt :
      (r : Range) (i j : ℕ) (m : List (ℕ × ℕ))
      → r.alo ≤ i
      → r.blo ≤ suc j
      → All (IsRun r i) m
      → EndsAt r i (suc j) (run_at j m)
  unfolding run_at
  run_at-EndsAt r i j [] hi hj runs = no_run r i (suc j) hi hj
  run_at-EndsAt r i j ((j', k) ∷ m) hi hj runs = elim (Bool-cases (j' == j)) [
    | inl at ↦ rw at (ends (ground arith))
    | inr other ↦ rw other (run_at-EndsAt r i j m hi hj runs.1)
  ]
    where
      ends : j' ≡ j → EndsAt r i (suc j) k
      ends e =
          let run = runs.0 in
          record {
            from_i = run.from_i;
            from_j = omega (arith, run.from_j);
            lines = (let e' : suc j - k ≡ j' + 1 - k = omega arith in rw e' run.lines);
          }

  pub run_before-EndsAt :
      (r : Range) (i j : ℕ) (m : List (ℕ × ℕ))
      → r.alo ≤ i
      → r.blo ≤ j
      → All (IsRun r i) m
      → EndsAt r i j (run_before j m)
  unfolding run_before
  run_before-EndsAt r i zero m hi hj runs = no_run r i 0 hi hj
  run_before-EndsAt r i (suc j) m hi hj runs = run_at-EndsAt r i j m hi hj runs

  pub longer :
      (r : Range) (i j k : ℕ)
      → EndsAt r i j k
      → same_line a b i j ≡ true
      → EndsAt r (suc i) (suc j) (k + 1)
  longer r i j k e here = record {
    from_i = omega (arith, e.from_i);
    from_j = omega (arith, e.from_j);
    lines =
        (let at_i : suc i - (k + 1) ≡ i - k = omega arith in
          let at_j : suc j - (k + 1) ≡ j - k = omega arith in
          let size : k + 1 ≡ suc k = omega arith in
          let end_i : i - k + k ≡ i = omega (arith, e.from_i) in
          let end_j : j - k + k ≡ j = omega (arith, e.from_j) in
          rw (at_i, at_j, size) (Same-snoc (i - k) (j - k) k e.lines (rw (end_i, end_j) here)));
  }

  pub EndsAt-IsRun : (r : Range) (i j k : ℕ) → EndsAt r i (suc j) k → IsRun r i (j, k)
  EndsAt-IsRun r i j k e = record {
    from_i = e.from_i;
    from_j = omega (arith, e.from_j);
    lines = (let at : j + 1 - k ≡ suc j - k = omega arith in rw at e.lines);
  }
