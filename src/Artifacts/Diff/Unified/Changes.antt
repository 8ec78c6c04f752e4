-- ===== src/Artifacts/Diff/Unified/Changes.antt =====
-- The groups keep every change.
use tx_ide_rs.Prelude.{
  ℕ, ◌-◌, ◌*◌, ◌≡◌, refl, sym, ap, ◌∙◌, true, not, ◌&&◌, List, [], ◌∷◌, ◌++◌, filter, ltb, some,
  Text, Bool-cases, inl, inr, arith,
}
use mathlib.Core.Option
use mathlib.Core.Option.{map-eq-some_iff}
use mathlib.Core.List.{append_assoc, append-nil}
use tx_ide_rs.Artifacts.Diff.{Opcode, opcodes}
use tx_ide_rs.Artifacts.Diff.Script.{concat}
use tx_ide_rs.Artifacts.Diff.Unified.{
  is_equal, last_lines, first_lines, trim_first, trim_last, close_group, groups_from, or_one_equal,
  group_opcodes, grouped_opcodes,
}

-- The opcodes that change lines.
abbrev pub changes : List Opcode → List Opcode
changes ops = filter (λ op. not (is_equal op)) ops

changes-append : (xs ys : List Opcode) → changes (xs ++ ys) ≡ changes xs ++ changes ys
changes-append [] ys = refl
changes-append (x ∷ xs) ys = elim (Bool-cases (is_equal x)) [
  | inl same ↦ rw same (changes-append xs ys)
  | inr changed ↦ rw changed (ap (◌∷◌ x) (changes-append xs ys))
]

trim_first-changes : (n : ℕ) (ops : List Opcode) → changes (trim_first n ops) ≡ changes ops
unfolding trim_first
trim_first-changes n [] = refl
trim_first-changes n (op ∷ ops) = elim (Bool-cases (is_equal op)) [
  | inl same ↦ rw (same, same)
  | inr changed ↦ rw (changed, changed)
]

trim_last-changes : (n : ℕ) (ops : List Opcode) → changes (trim_last n ops) ≡ changes ops
unfolding trim_last
trim_last-changes n [] = refl
trim_last-changes n (op ∷ []) = elim (Bool-cases (is_equal op)) [
  | inl same ↦ rw (same, same)
  | inr changed ↦ rw (changed, changed)
]
trim_last-changes n (op ∷ op' ∷ ops) = elim (Bool-cases (is_equal op)) [
  | inl same ↦ rw same (trim_last-changes n (op' ∷ ops))
  | inr changed ↦ rw changed (ap (◌∷◌ op) (trim_last-changes n (op' ∷ ops)))
]

close_group-changes : (group : List Opcode) → concat changes (close_group group) ≡ changes group
unfolding close_group
close_group-changes [] = refl
close_group-changes (op ∷ []) = elim (Bool-cases (is_equal op)) [
  | inl same ↦ rw same
  | inr changed ↦ rw (changed, changed)
]
close_group-changes (op ∷ op' ∷ ops) = append-nil (changes (op ∷ op' ∷ ops))

changes-step :
    (n : ℕ) (group : List Opcode) (op : Opcode) (ops : List Opcode)
    → changes (group ++ op ∷ []) ++ changes ops ≡ changes group ++ changes (op ∷ ops)
changes-step n group op ops =
    sym (changes-append (group ++ op ∷ []) ops)
    ∙ ap changes (append_assoc group (op ∷ []) ops)
    ∙ changes-append group (op ∷ ops)

equal-changes : (op : Opcode) → is_equal op ≡ true → changes (op ∷ []) ≡ []
equal-changes op h = rw h

groups_from-changes :
    (n : ℕ) (group ops : List Opcode)
    → concat changes (groups_from n group ops) ≡ changes group ++ changes ops
unfolding groups_from
groups_from-changes n group [] = close_group-changes group ∙ sym (append-nil (changes group))
groups_from-changes n group (op ∷ ops) =
    elim (Bool-cases (is_equal op && ltb (2 * n) (op.i2 - op.i1))) [
      | inl long ↦
          (let same : is_equal op ≡ true = ground arith in
            rw (long, same)
              (ap (λ xs. changes (group ++ first_lines n op ∷ []) ++ xs)
                  (groups_from-changes n (last_lines n op ∷ []) ops)
                ∙ ap (λ xs. xs ++ (changes (last_lines n op ∷ []) ++ changes ops))
                    (changes-append group (first_lines n op ∷ []))
                ∙ ap
                    (λ xs. (changes group ++ xs) ++ (changes (last_lines n op ∷ []) ++ changes ops))
                    (equal-changes (first_lines n op) same)
                ∙ ap (λ xs. (changes group ++ []) ++ (xs ++ changes ops))
                    (equal-changes (last_lines n op) same)
                ∙ ap (λ xs. xs ++ changes ops) (append-nil (changes group))))
      | inr short ↦
          rw short (groups_from-changes n (group ++ op ∷ []) ops ∙ changes-step n group op ops)
    ]

or_one_equal-changes : (ops : List Opcode) → changes (or_one_equal ops) ≡ changes ops
or_one_equal-changes [] = refl
or_one_equal-changes (op ∷ ops) = refl

group_opcodes-changes :
    (n : ℕ) (ops : List Opcode) → concat changes (group_opcodes n ops) ≡ changes ops
unfolding group_opcodes
group_opcodes-changes n ops =
    groups_from-changes n [] (trim_last n (trim_first n (or_one_equal ops)))
    ∙ trim_last-changes n (trim_first n (or_one_equal ops))
    ∙ trim_first-changes n (or_one_equal ops)
    ∙ or_one_equal-changes ops

-- Whatever the number of lines of context, the groups of a diff hold the opcodes that change lines,
-- each once and in order.
pub grouped_opcodes-changes :
    (a b : List Text) (n : ℕ) (ops : List Opcode)
    → opcodes a b ≡ some ops
    → (groups : List (List Opcode)) × (grouped_opcodes a b n ≡ some groups)
      × (concat changes groups ≡ changes ops)
unfolding grouped_opcodes
grouped_opcodes-changes a b n ops h =
    (group_opcodes n ops, ap (Option.map (group_opcodes n)) h, group_opcodes-changes n ops)
