-- ===== src/Artifacts/Diff/Longest.antt =====
-- `find_longest_match` finds a match, from the columns of one row to the whole range.
use tx_ide_rs.Prelude.{
  ℕ, zero, suc, ◌+◌, ◌-◌, ◌/◌, ◌≤◌, ◌<◌, ◌≡◌, refl, ap, true, ◌&&◌, List, [], ◌∷◌, some, Text,
  text_eq, text_eq_iff, text_eq_refl, ltb, leb, length, get_elem?, take, drop, All, Bool-cases, inl,
  inr, arith,
}
use tx_ide_rs.Artifacts.Diff.{
  Range, Block, same_line, positions, b2j, run_before, better, scan_row, scan_rows, grow_down,
  grow_up, find_longest_match,
}
use tx_ide_rs.Artifacts.Diff.Matching.{
  IsRange, IsMatch, IsRun, EndsAt, Same-none, Same-snoc, Same-cons, run_before-EndsAt, longer,
  EndsAt-IsRun,
}

All-map {ℓ κ} :
    {A : Type ℓ} (P Q : A → Type κ) (xs : List A) → ((x : A) → P x → Q x) → All P xs → All Q xs
All-map P Q [] f h = tt
All-map P Q (x ∷ xs) f h = (f x h.0, All-map P Q xs f h.1)

-- The position `j`, counted from `start`, is one of the line.
abbrev IsAt : Text → List Text → ℕ → ℕ → Type 0
IsAt line b start j = (d : ℕ) × (j ≡ start + d) × (get_elem? b d ≡ some line)

positions-IsAt :
    (line : Text) (b : List Text) (start : ℕ) → All (IsAt line b start) (positions line b start)
unfolding positions
positions-IsAt line [] start = tt
positions-IsAt line (x ∷ b) start =
    let rest =
      All-map (IsAt line b (suc start)) (IsAt line (x ∷ b) start) (positions line b (suc start))
        (λ j (d, e, h). (suc d, omega (arith, e), h)) (positions-IsAt line b (suc start)) in
    elim (Bool-cases (text_eq x line)) [
      | inl here ↦ rw here ((0, omega arith, ap some ((text_eq_iff x line).0 here)), rest)
      | inr other ↦ rw other rest
    ]

b2j-get_elem? : (b : List Text) (line : Text) → All (λ j. get_elem? b j ≡ some line) (b2j b line)
unfolding b2j
b2j-get_elem? b line =
    elim (Bool-cases
      (leb 200 (length b) && ltb (length b / 100 + 1) (length (positions line b 0)))) [
        | inl popular ↦ rw popular tt
        | inr rare ↦ rw rare (
            All-map (IsAt line b 0) (λ j. get_elem? b j ≡ some line) (positions line b 0)
              (λ j (d, e, h). (let at : j ≡ d = omega (arith, e) in rw at h))
              (positions-IsAt line b 0))
      ]

drop-cons {ℓ} :
    {A : Type ℓ} (xs : List A) (i : ℕ) (x : A) (rest : List A)
    → drop i xs ≡ x ∷ rest
    → (get_elem? xs i ≡ some x) × (drop (suc i) xs ≡ rest)
drop-cons [] zero x rest h = cc
drop-cons [] (suc i) x rest h = cc
drop-cons (y ∷ xs) zero x rest h = (cc, cc)
drop-cons (y ∷ xs) (suc i) x rest h = drop-cons xs i x rest h

get_elem?-take {ℓ} :
    {A : Type ℓ} (n : ℕ) (xs : List A) (i : ℕ) (x : A)
    → get_elem? (take n xs) i ≡ some x
    → (get_elem? xs i ≡ some x) × (i < n)
get_elem?-take zero xs i x h = cc
get_elem?-take (suc n) [] i x h = cc
get_elem?-take (suc n) (y ∷ xs) zero x h = (h, omega arith)
get_elem?-take (suc n) (y ∷ xs) (suc i) x h =
    let (at, below) = get_elem?-take n xs i x h in (at, omega (arith, below))

module _ (a b : List Text) where
  better-IsMatch :
      (r : Range) (i j k : ℕ) (best : Block)
      → i < r.ahi
      → j < r.bhi
      → EndsAt a b r (suc i) (suc j) k
      → IsMatch a b r best
      → IsMatch a b r (better i j k best)
  unfolding better
  better-IsMatch r i j k best hi hj e m = elim (Bool-cases (ltb best.size k)) [
    | inl more ↦ rw more (record {
      lo_i = omega (arith, e.from_i);
      hi_i = omega (arith, e.from_i);
      lo_j = omega (arith, e.from_j);
      hi_j = omega (arith, e.from_j);
      lines =
          (let at_i : i + 1 - k ≡ suc i - k = omega arith in
            let at_j : j + 1 - k ≡ suc j - k = omega arith in rw (at_i, at_j) e.lines);
    })
    | inr less ↦ rw less m
  ]

  scan_row-IsMatch :
      (r : Range) (i : ℕ) (j2len : List (ℕ × ℕ)) (js : List ℕ) (best : Block) (new : List (ℕ × ℕ))
      → r.alo ≤ i
      → i < r.ahi
      → All (IsRun a b r i) j2len
      → All (λ j. same_line a b i j ≡ true) js
      → IsMatch a b r best
      → All (IsRun a b r (suc i)) new
      → IsMatch a b r (scan_row r i j2len js best new).0
        × All (IsRun a b r (suc i)) (scan_row r i j2len js best new).1
  unfolding scan_row
  scan_row-IsMatch r i j2len [] best new lo hi runs here m news = (m, news)
  scan_row-IsMatch r i j2len (j ∷ js) best new lo hi runs here m news =
      elim (Bool-cases (ltb j r.blo)) [
        | inl before ↦ rw before (scan_row-IsMatch r i j2len js best new lo hi runs here.1 m news)
        | inr inside ↦ elim (Bool-cases (leb r.bhi j)) [
          | inl after ↦ rw (inside, after) (m, news)
          | inr within ↦
              let k = run_before j j2len + 1 in
              let run : EndsAt a b r (suc i) (suc j) k =
                longer a b r i j (run_before j j2len)
                  (run_before-EndsAt a b r i j j2len lo (ground arith) runs) here.0 in
              rw (inside, within)
                (scan_row-IsMatch r i j2len js (better i j k best) ((j, k) ∷ new) lo hi runs here.1
                  (better-IsMatch r i j k best hi (ground arith) run m)
                  (EndsAt-IsRun a b r (suc i) j k run, news))
        ]
      ]

  scan_rows-IsMatch :
      (r : Range) (lines : List Text) (i : ℕ) (j2len : List (ℕ × ℕ)) (best : Block)
      → drop i (take r.ahi a) ≡ lines
      → r.alo ≤ i
      → All (IsRun a b r i) j2len
      → IsMatch a b r best
      → IsMatch a b r (scan_rows a b r lines i j2len best)
  unfolding scan_rows same_line
  scan_rows-IsMatch r [] i j2len best at lo runs m = m
  scan_rows-IsMatch r (line ∷ lines) i j2len best at lo runs m =
      let (found, rest) = drop-cons (take r.ahi a) i line lines at in
      let (there, below) = get_elem?-take r.ahi a i line found in
      let here =
        All-map (λ j. get_elem? b j ≡ some line) (λ j. same_line a b i j ≡ true) (b2j b line)
          (λ j e. rw (there, e, text_eq_refl line)) (b2j-get_elem? b line) in
      let row = scan_row-IsMatch r i j2len (b2j b line) best [] lo below runs here m tt in
      scan_rows-IsMatch r lines (suc i) _ _ rest (omega arith) row.1 row.0

  grow_down-IsMatch :
      (r : Range) (i j k : ℕ)
      → IsMatch a b r (record { i = i; j = j; size = k })
      → IsMatch a b r (grow_down a b r i j k)
  unfolding grow_down
  grow_down-IsMatch r zero j k m = m
  grow_down-IsMatch r (suc i) zero k m = m
  grow_down-IsMatch r (suc i) (suc j) k m =
      elim (Bool-cases (ltb r.alo (suc i) && (ltb r.blo (suc j) && same_line a b i j))) [
        | inl more ↦ rw more (
            grow_down-IsMatch r i j (suc k) (record {
              lo_i = ground arith;
              hi_i = omega (arith, m.hi_i);
              lo_j = ground arith;
              hi_j = omega (arith, m.hi_j);
              lines = Same-cons a b i j k (ground arith) m.lines;
            }))
        | inr done ↦ rw done m
      ]

  grow_up-IsMatch :
      (r : Range) (room : ℕ) (m : Block)
      → m.i + m.size + room ≤ r.ahi
      → IsMatch a b r m
      → IsMatch a b r (grow_up a b r room m)
  unfolding grow_up
  grow_up-IsMatch r zero m h match_ = match_
  grow_up-IsMatch r (suc room) m h match_ =
      elim (Bool-cases (ltb (m.j + m.size) r.bhi && same_line a b (m.i + m.size) (m.j + m.size))) [
        | inl more ↦ rw more (
            grow_up-IsMatch r room (record m { size = m.size + 1 }) (omega arith)
              (record {
                lo_i = match_.lo_i;
                hi_i = omega arith;
                lo_j = match_.lo_j;
                hi_j = ground arith;
                lines =
                    (let size : m.size + 1 ≡ suc m.size = omega arith in
                      rw size (Same-snoc a b m.i m.j m.size match_.lines (ground arith)));
              }))
        | inr done ↦ rw done match_
      ]

  pub find_longest_match-IsMatch :
      (r : Range) → IsRange a b r → IsMatch a b r (find_longest_match a b r)
  unfolding find_longest_match
  find_longest_match-IsMatch r h =
      let start : Block = record { i = r.alo; j = r.blo; size = 0 } in
      let best = scan_rows a b r (drop r.alo (take r.ahi a)) r.alo [] start in
      let found : IsMatch a b r best =
        scan_rows-IsMatch r (drop r.alo (take r.ahi a)) r.alo [] start refl (omega arith) tt
          (record {
            lo_i = omega arith;
            hi_i = omega (arith, h.lo_a);
            lo_j = omega arith;
            hi_j = omega (arith, h.lo_b);
            lines = Same-none a b r.alo r.blo;
          }) in
      let down = grow_down a b r best.i best.j best.size in
      let grown = grow_down-IsMatch r best.i best.j best.size found in
      grow_up-IsMatch r (r.ahi - (down.i + down.size)) down (omega (arith, grown.hi_i)) grown
