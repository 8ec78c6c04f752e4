-- ===== src/Core/Env/Names.antt =====
-- The name of a new agent (`WorktreeManager::create_unique` of tx-core/src/worktree.rs): the first
-- free candidate.
use tx_ide_rs.Prelude.{
  ℕ, zero, suc, ◌+◌, ◌≤◌, ◌<◌, ◌≡◌, refl, sym, ap, ◌∙◌, ◌==◌, ==_iff, inl, inr, Bool, true, false,
  not, ◌&&◌, List, none, some, arith, Text, contains, Bool-cases,
}
use tx_ide_rs.Core.Env.{candidate, is_path_name, first_free, free_name}

-- The candidate numbered `n` is a name that is not taken.
abbrev pub is_usable : Text → List Text → ℕ → Bool
is_usable base taken n = is_path_name (candidate base n) && not (contains taken (candidate base n))

-- `k` is the number of the first usable candidate from `n` on.
pub record FirstFrom (base : Text) (taken : List Text) (n k : ℕ) : Type 0 where
  pub from : n ≤ k
  pub usable : is_usable base taken k ≡ true
  pub before : (j : ℕ) → n ≤ j → j < k → is_usable base taken j ≡ false

first_free-some :
    (rounds n : ℕ) (base : Text) (taken : List Text) (name : Text)
    → first_free rounds n base taken ≡ some name
    → (k : ℕ) × (name ≡ candidate base k) × (k < n + rounds) × FirstFrom base taken n k
unfolding first_free
first_free-some zero n base taken name h = cc
first_free-some (suc rounds) n base taken name h = elim (Bool-cases (is_usable base taken n)) [
  | inl usable ↦
      let found : some (candidate base n) ≡ some name = rw usable at h in
      (
        n,
        cc,
        omega arith,
        record { from = omega arith; usable = usable; before = λ j ge lt. absurd (omega arith) },
      )
  | inr taken_one ↦
      let (k, named, bound, first) =
        first_free-some rounds (n + 1) base taken name (rw taken_one at h) in
      (
        k,
        named,
        omega arith,
        record {
          from = omega (arith, first.from);
          usable = first.usable;
          before = λ j ge lt. earlier n k j taken_one first ge lt;
        },
      )
]
  where
    earlier :
        (n k j : ℕ)
        → is_usable base taken n ≡ false
        → FirstFrom base taken (n + 1) k
        → n ≤ j
        → j < k
        → is_usable base taken j ≡ false
    earlier n k j taken_one first ge lt = elim (Bool-cases (n == j)) [
      | inl same ↦ ap (is_usable base taken) (sym ((==_iff n j).0 same)) ∙ taken_one
      | inr other ↦ first.before j (ground arith) lt
    ]

first_free-none :
    (rounds n : ℕ) (base : Text) (taken : List Text)
    → first_free rounds n base taken ≡ none
    → (j : ℕ) → n ≤ j
    → j < n + rounds
    → is_usable base taken j ≡ false
unfolding first_free
first_free-none zero n base taken h j ge lt = absurd (omega arith)
first_free-none (suc rounds) n base taken h j ge lt = elim (Bool-cases (is_usable base taken n)) [
  | inl usable ↦ absurd (ground arith)
  | inr taken_one ↦ elim (Bool-cases (n == j)) [
    | inl same ↦ ap (is_usable base taken) (sym ((==_iff n j).0 same)) ∙ taken_one
    | inr other ↦
        first_free-none rounds (n + 1) base taken (rw taken_one at h) j (ground arith) (omega arith)
  ]
]

-- A name that is chosen is the first of `base`, `base-2`, … `base-99` that is a name and not taken.
pub free_name-FirstFrom :
    (base : Text) (taken : List Text) (name : Text)
    → free_name base taken ≡ some name
    → (k : ℕ) × (name ≡ candidate base k) × (k < 100) × FirstFrom base taken 1 k
unfolding free_name
free_name-FirstFrom base taken name h = first_free-some 99 1 base taken name h

-- If no name is chosen, none of the candidates from 1 to 99 is both a name and not taken.
free_name-none :
    (base : Text) (taken : List Text)
    → free_name base taken ≡ none
    → (j : ℕ) → 1 ≤ j
    → j < 100
    → is_usable base taken j ≡ false
unfolding free_name
free_name-none base taken h j ge lt = first_free-none 99 1 base taken h j ge lt

pub free_name-not_taken :
    (base : Text) (taken : List Text) (name : Text)
    → free_name base taken ≡ some name
    → contains taken name ≡ false
free_name-not_taken base taken name h =
    let (k, named, bound, first) = free_name-FirstFrom base taken name h in
    ap (contains taken) named ∙ right (is_path_name (candidate base k)) _ first.usable
  where
    right : (a b : Bool) → (a && not b) ≡ true → b ≡ false
    right true true e = cc
    right true false e = refl
    right false b e = cc
