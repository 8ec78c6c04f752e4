-- ===== src/Artifacts/Diff/Script.antt =====
-- The opcodes rebuild both lists.
use mathlib.Core.Option
use mathlib.Core.Path.{◌≡⟨◌⟩◌, ◌∎}
use tx_ide_rs.Prelude.{
  ℕ, zero, suc, ◌+◌, ◌-◌, ◌≤◌, ◌≡◌, refl, sym, ap, ◌∙◌, Bool, true, false, List, [], ◌∷◌, ◌++◌,
  Option, none, some, Text, text_eq_iff, ltb, length, get_elem?, take, drop, Bool-cases, inl, inr,
  arith,
}
use tx_ide_rs.Artifacts.Diff.{
  Block, same, same_line, Tag, replaced, deleted, inserted, equal, Opcode, gap_tag, push_gap,
  push_equal, opcodes_from, opcodes,
}
use tx_ide_rs.Artifacts.Diff.Matching.{Same}
use tx_ide_rs.Artifacts.Diff.Chain.{Tiles, matching_blocks-Tiles}

-- `&lines[i..i2]`
abbrev pub slice {ℓ} : {A : Type ℓ} → List A → ℕ → ℕ → List A
slice xs i i2 = take (i2 - i) (drop i xs)

abbrev keep_old : Tag → List Text → List Text
keep_old inserted xs = []
keep_old replaced xs = xs
keep_old deleted xs = xs
keep_old equal xs = xs

abbrev keep_new : Tag → List Text → List Text → List Text
keep_new inserted xs ys = ys
keep_new replaced xs ys = ys
keep_new deleted xs ys = []
keep_new equal xs ys = xs

-- The lines of the first list that an opcode is about.
abbrev pub old_lines : List Text → Opcode → List Text
old_lines a op = keep_old op.tag (slice a op.i1 op.i2)

-- The lines that stand in the place of those: the old ones where the tag says that they are equal.
abbrev pub new_lines : List Text → List Text → Opcode → List Text
new_lines a b op = keep_new op.tag (slice a op.i1 op.i2) (slice b op.j1 op.j2)

abbrev pub concat {ℓ κ} : {A : Type ℓ} {B : Type κ} → (A → List B) → List A → List B
concat f [] = []
concat f (x ∷ xs) = f x ++ concat f xs

take-append-drop {ℓ} : {A : Type ℓ} (n : ℕ) (xs : List A) → take n xs ++ drop n xs ≡ xs
take-append-drop zero xs = refl
take-append-drop (suc n) [] = refl
take-append-drop (suc n) (x ∷ xs) = ap (◌∷◌ x) (take-append-drop n xs)

take-nil {ℓ} : {A : Type ℓ} (n : ℕ) → take {A = A} n [] ≡ []
take-nil zero = refl
take-nil (suc n) = refl

slice-drop {ℓ} :
    {A : Type ℓ} (xs : List A) (i i2 : ℕ) → i ≤ i2 → slice xs i i2 ++ drop i2 xs ≡ drop i xs
slice-drop xs zero i2 h = let e : i2 - 0 ≡ i2 = omega arith in rw e (take-append-drop i2 xs)
slice-drop xs (suc i) zero h = absurd (omega arith)
slice-drop [] (suc i) (suc i2) h = rw (take-nil (suc i2 - suc i))
slice-drop (x ∷ xs) (suc i) (suc i2) h =
    let e : suc i2 - suc i ≡ i2 - i = omega arith in rw e (slice-drop xs i i2 (omega arith))

slice-none {ℓ} : {A : Type ℓ} (xs : List A) (i i2 : ℕ) → ltb i i2 ≡ false → slice xs i i2 ≡ []
slice-none xs i i2 h = let e : i2 - i ≡ 0 = ground arith in rw e

take-get_elem? {ℓ} :
    {A : Type ℓ} (k i : ℕ) (x : A) (xs : List A)
    → get_elem? xs i ≡ some x
    → take (suc k) (drop i xs) ≡ x ∷ take k (drop (suc i) xs)
take-get_elem? k i x [] h = cc
take-get_elem? k zero x (y ∷ xs) h = ap (λ z. z ∷ take k xs) cc
take-get_elem? k (suc i) x (y ∷ xs) h = take-get_elem? k i x xs h

drop-length {ℓ} : {A : Type ℓ} (xs : List A) → drop (length xs) xs ≡ []
drop-length [] = refl
drop-length (x ∷ xs) = drop-length xs

module _ (a b : List Text) where
  both_there : (o o' : Option Text) → same o o' ≡ true → (x : Text) × (o ≡ some x) × (o' ≡ some x)
  both_there (some x) (some y) h = (x, refl, ap some (sym ((text_eq_iff x y).0 h)))
  both_there none o' h = cc
  both_there (some x) none h = cc

  Same-take : (k i j : ℕ) → Same a b i j k → take k (drop i a) ≡ take k (drop j b)
  unfolding same_line
  Same-take zero i j s = refl
  Same-take (suc k) i j s =
      let first : same (get_elem? a i) (get_elem? b j) ≡ true =
        (let e : i + 0 ≡ i = omega arith in
          let e' : j + 0 ≡ j = omega arith in rw (e, e') at (s 0 (omega arith))) in
      let later : Same a b (suc i) (suc j) k = λ t h.
        (let e : suc i + t ≡ i + suc t = omega arith in
          let e' : suc j + t ≡ j + suc t = omega arith in rw (e, e') (s (suc t) (omega arith))) in
      let (x, at, at') = both_there (get_elem? a i) (get_elem? b j) first in
      take-get_elem? k i x a at
      ∙ ap (◌∷◌ x) (Same-take k (suc i) (suc j) later)
      ∙ sym (take-get_elem? k j x b at')

  Same-slice : (i j k : ℕ) → Same a b i j k → slice a i (i + k) ≡ slice b j (j + k)
  Same-slice i j k s =
      let e : i + k - i ≡ k = omega arith in
      let e' : j + k - j ≡ k = omega arith in rw (e, e') (Same-take k i j s)

  -- What an operation adds to the old lines and to the new ones.
  record Adds (ops ops' : List Opcode) (old new : List Text) : Type 0 where
    old_eq : concat (old_lines a) ops' ≡ old ++ concat (old_lines a) ops
    new_eq : concat (new_lines a b) ops' ≡ new ++ concat (new_lines a b) ops

  push_gap-Adds :
      (i i2 j j2 : ℕ) (ops : List Opcode)
      → Adds ops
          (push_gap (gap_tag (ltb i i2) (ltb j j2)) i i2 j j2 ops)
          (slice a i i2)
          (slice b j j2)
  push_gap-Adds i i2 j j2 ops = by_test (ltb i i2) (ltb j j2) refl refl
    where
      by_test :
          (x y : Bool)
          → ltb i i2 ≡ x
          → ltb j j2 ≡ y
          → Adds ops (push_gap (gap_tag x y) i i2 j j2 ops) (slice a i i2) (slice b j j2)
      by_test true true h h' = record { old_eq = refl; new_eq = refl }
      by_test true false h h' = record { old_eq = refl; new_eq = rw (slice-none b j j2 h') }
      by_test false true h h' = record { old_eq = rw (slice-none a i i2 h); new_eq = refl }
      by_test false false h h' = record {
        old_eq = rw (slice-none a i i2 h);
        new_eq = rw (slice-none b j j2 h');
      }

  push_equal-Adds :
      (m : Block) (ops : List Opcode)
      → Adds ops (push_equal m ops) (slice a m.i (m.i + m.size)) (slice a m.i (m.i + m.size))
  push_equal-Adds m ops = elim (Bool-cases (ltb 0 m.size)) [
    | inl some_lines ↦ rw some_lines (record { old_eq = refl; new_eq = refl })
    | inr no_lines ↦
        (let e : slice a m.i (m.i + m.size) ≡ [] = slice-none a m.i (m.i + m.size) (ground arith) in
          rw (no_lines, e) (record { old_eq = refl; new_eq = refl }))
  ]

  opcodes_from-lines :
      (i j : ℕ) (ms : List Block)
      → Tiles a b i j ms
      → (concat (old_lines a) (opcodes_from i j ms) ≡ drop i a)
        × (concat (new_lines a b) (opcodes_from i j ms) ≡ drop j b)
  unfolding opcodes_from
  opcodes_from-lines i j [] (e, e') = (rw (e, drop-length a), rw (e', drop-length b))
  opcodes_from-lines i j (m ∷ ms) (hi, hj, s, rest) =
      let ops = opcodes_from (m.i + m.size) (m.j + m.size) ms in
      let ih = opcodes_from-lines (m.i + m.size) (m.j + m.size) ms rest in
      let kept = push_equal-Adds m ops in
      let gap = push_gap-Adds i m.i j m.j (push_equal m ops) in
      (
        (concat (old_lines a) (opcodes_from i j (m ∷ ms))
            ≡⟨ gap.old_eq ⟩ slice a i m.i ++ concat (old_lines a) (push_equal m ops)
            ≡⟨ ap (λ xs. slice a i m.i ++ xs)
                (kept.old_eq ∙ ap (λ xs. slice a m.i (m.i + m.size) ++ xs) ih.0) ⟩
              slice a i m.i ++ (slice a m.i (m.i + m.size) ++ drop (m.i + m.size) a)
            ≡⟨ ap (λ xs. slice a i m.i ++ xs) (slice-drop a m.i (m.i + m.size) (omega arith)) ⟩
              slice a i m.i ++ drop m.i a
            ≡⟨ slice-drop a i m.i hi ⟩ drop i a ∎),
        (concat (new_lines a b) (opcodes_from i j (m ∷ ms))
            ≡⟨ gap.new_eq ⟩ slice b j m.j ++ concat (new_lines a b) (push_equal m ops)
            ≡⟨ ap (λ xs. slice b j m.j ++ xs)
                (kept.new_eq ∙ ap (λ xs. slice a m.i (m.i + m.size) ++ xs) ih.1) ⟩
              slice b j m.j ++ (slice a m.i (m.i + m.size) ++ drop (m.j + m.size) b)
            ≡⟨ ap (λ xs. slice b j m.j ++ (xs ++ drop (m.j + m.size) b))
                (Same-slice m.i m.j m.size s) ⟩
              slice b j m.j ++ (slice b m.j (m.j + m.size) ++ drop (m.j + m.size) b)
            ≡⟨ ap (λ xs. slice b j m.j ++ xs) (slice-drop b m.j (m.j + m.size) (omega arith)) ⟩
              slice b j m.j ++ drop m.j b
            ≡⟨ slice-drop b j m.j hj ⟩ drop j b ∎),
      )

  -- The opcodes are found within the rounds of the model. The lines that they name of the first list,
  -- in order, are the first list; with each opcode's lines replaced as its tag says, where equal
  -- lines are taken from the first list, they are the second list.
  pub opcodes-lines :
      (ops : List Opcode) × (opcodes a b ≡ some ops)
      × (concat (old_lines a) ops ≡ a)
      × (concat (new_lines a b) ops ≡ b)
  unfolding opcodes
  opcodes-lines =
      let (ms, found, tiles) = matching_blocks-Tiles a b in
      let lines = opcodes_from-lines 0 0 ms tiles in
      (opcodes_from 0 0 ms, ap (Option.map (opcodes_from 0 0)) found, lines.0, lines.1)
