-- ===== src/Home/Nearest.antt =====
-- The rows that can be selected, and the positions that the cursor is moved to.
use tx_ide_rs.Prelude.{
  ℕ, zero, suc, ◌+◌, ◌≡◌, refl, Bool, true, false, ◌&&◌, List, [], ◌∷◌, Option, none, some, Text,
  ltb, get_elem?, any, All, Bool-cases, inl, inr, arith,
}
use tx_ide_rs.Home.{Row}
use tx_ide_rs.Home.Rows.{is_selectable, holds}
use tx_ide_rs.Home.Keys.{
  position, selectable_from, abs_diff, nearest, nearest_or, named_position, or_nearest, anchor_of,
  rows,
}

abbrev is_on : Option Row → Bool
is_on none = false
is_on (some r) = is_selectable r

-- The row at the position can be selected, if any row can.
abbrev pub OnRow : List Row → ℕ → Type 0
OnRow rows i = any is_selectable rows ≡ true → is_on (get_elem? rows i) ≡ true

abbrev pub On : ℕ → List Row → ℕ → Type 0
On start rows i = (d : ℕ) × (i ≡ start + d) × (is_on (get_elem? rows d) ≡ true)

On-suc :
    (start : ℕ) (r : Row) (rows : List Row) (i : ℕ) → On (suc start) rows i → On start (r ∷ rows) i
On-suc start r rows i (d, e, h) = (suc d, omega (arith, e), h)

pub On-zero : (rows : List Row) (i : ℕ) → On 0 rows i → is_on (get_elem? rows i) ≡ true
On-zero rows i (d, e, h) = let at : i ≡ d = omega (arith, e) in rw at h

All-On-suc :
    (start : ℕ) (r : Row) (rows : List Row) (is_ : List ℕ)
    → All (On (suc start) rows) is_
    → All (On start (r ∷ rows)) is_
All-On-suc start r rows [] h = tt
All-On-suc start r rows (i ∷ is_) h = (On-suc start r rows i h.0, All-On-suc start r rows is_ h.1)

position-On :
    (name : Text) (start : ℕ) (rows : List Row) (i : ℕ)
    → position (λ r. is_selectable r && holds name r) start rows ≡ some i
    → On start rows i
unfolding position
position-On name start [] i h = cc
position-On name start (r ∷ rows) i h = elim (Bool-cases (is_selectable r && holds name r)) [
  | inl found ↦
      (let at : ◌≡◌ {A = Option ℕ} (some start) (some i) = rw found at h in
        let same : start ≡ i = cc in (0, omega (arith, same), ground arith))
  | inr other_row ↦ On-suc start r rows i (position-On name (suc start) rows i (rw other_row at h))
]

pub selectable_from-On :
    (start : ℕ) (rows : List Row) → All (On start rows) (selectable_from start rows)
unfolding selectable_from
selectable_from-On start [] = tt
selectable_from-On start (r ∷ rows) =
    let rest =
      All-On-suc start r rows (selectable_from (suc start) rows)
        (selectable_from-On (suc start) rows) in
    elim (Bool-cases (is_selectable r)) [
      | inl chosen ↦ rw chosen ((0, omega arith, chosen), rest)
      | inr passed ↦ rw passed rest
    ]

selectable_from-nil :
    (start : ℕ) (rows : List Row) → selectable_from start rows ≡ [] → any is_selectable rows ≡ false
unfolding selectable_from
selectable_from-nil start [] h = refl
selectable_from-nil start (r ∷ rows) h = elim (Bool-cases (is_selectable r)) [
  | inl chosen ↦ absurd (no_cons start (selectable_from (suc start) rows) (rw chosen at h))
  | inr passed ↦ rw passed (selectable_from-nil (suc start) rows (rw passed at h))
]
  where
    no_cons : (i : ℕ) (is_ : List ℕ) → i ∷ is_ ≡ [] → ⊥
    no_cons i is_ e = cc

nearest-All :
    (P : ℕ → Type 0) (cursor best : ℕ) (is_ : List ℕ)
    → P best
    → All P is_
    → P (nearest cursor best is_)
unfolding nearest
nearest-All P cursor best [] p h = p
nearest-All P cursor best (i ∷ is_) p h =
    elim (Bool-cases (ltb (abs_diff i cursor) (abs_diff best cursor))) [
      | inl nearer ↦ rw nearer (nearest-All P cursor i is_ h.0 h.1)
      | inr farther ↦ rw farther (nearest-All P cursor best is_ p h.1)
    ]

pub get_elem?-All :
    (P : ℕ → Type 0) (xs : List ℕ) (k i : ℕ) → All P xs → get_elem? xs k ≡ some i → P i
get_elem?-All P [] k i h e = cc
get_elem?-All P (x ∷ xs) zero i h e = let same : x ≡ i = cc in rw (← same) h.0
get_elem?-All P (x ∷ xs) (suc k) i h e = get_elem?-All P xs k i h.1 e

nearest_or-OnRow :
    (cursor : ℕ) (rows : List Row) (is_ : List ℕ)
    → (is_ ≡ [] → any is_selectable rows ≡ false)
    → All (On 0 rows) is_
    → OnRow rows (nearest_or cursor is_)
nearest_or-OnRow cursor rows [] nil h some_row = cc (nil refl, some_row)
nearest_or-OnRow cursor rows (i ∷ is_) nil h some_row =
    On-zero rows (nearest cursor i is_) (nearest-All (On 0 rows) cursor i is_ h.0 h.1)

or_nearest-OnRow :
    (o : Option ℕ) (cursor : ℕ) (rows : List Row)
    → ((i : ℕ) → o ≡ some i → On 0 rows i)
    → OnRow rows (or_nearest o cursor rows)
or_nearest-OnRow (some i) cursor rows h = λ _. On-zero rows i (h i refl)
or_nearest-OnRow none cursor rows h =
    nearest_or-OnRow cursor rows (selectable_from 0 rows) (selectable_from-nil 0 rows)
      (selectable_from-On 0 rows)

pub named_position-On :
    (name : Option Text) (rows : List Row) (i : ℕ) → named_position name rows ≡ some i → On 0 rows i
named_position-On none rows i h = cc
named_position-On (some name) rows i h = position-On name 0 rows i h

pub anchor_of-OnRow :
    (name : Option Text) (cursor : ℕ) (rows : List Row) → OnRow rows (anchor_of name cursor rows)
unfolding anchor_of
anchor_of-OnRow name cursor rows =
    or_nearest-OnRow (named_position name rows) cursor rows (named_position-On name rows)
