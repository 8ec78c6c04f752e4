-- ===== src/Engine/Paths/Containment.antt =====
-- What `resolve_in` lets through stays inside the working directory.
use tx_ide_rs.Prelude.{
  ◌≡◌, refl, sym, ap, ◌∙◌, true, List, [], ◌∷◌, ◌++◌, map, Option, none, some, arith, Text,
  text_eq_iff, Bool-cases, Option-cases, inl, inr,
}
use tx_ide_rs.Result.{ok}
use tx_ide_rs.Engine.Paths.{
  Component, root_dir, cur_dir, parent_dir, normal, component_eq, components, reverse_onto,
  normalize_onto, normalize, is_absolute, skip_cur_dir, join, path_starts_with, check_inside,
  resolve_from, resolve_in,
}

-- A root with names below it, the last name first.
abbrev CleanRev : List Component → Type 0
CleanRev (root_dir ∷ []) = Unit
CleanRev (normal n ∷ acc) = CleanRev acc
CleanRev _ = ⊥

-- A root with names below it: no dot, and no dot-dot.
abbrev pub Clean : List Component → Type 0
Clean p = (names : List Text) × (p ≡ root_dir ∷ map normal names)

reverse_onto-Clean :
    (acc : List Component) (names : List Text)
    → CleanRev acc
    → Clean (reverse_onto acc (map normal names))
unfolding reverse_onto
reverse_onto-Clean [] names h = elim h [ ]
reverse_onto-Clean (root_dir ∷ []) names h = (names, refl)
reverse_onto-Clean (root_dir ∷ c ∷ acc) names h = elim h [ ]
reverse_onto-Clean (cur_dir ∷ acc) names h = elim h [ ]
reverse_onto-Clean (parent_dir ∷ acc) names h = elim h [ ]
reverse_onto-Clean (normal n ∷ acc) names h = reverse_onto-Clean acc (n ∷ names) h

some-Clean : {p q : List Component} → Clean p → some p ≡ some q → Clean q
some-Clean (names, e) h = (names, cc)

normalize_onto-Clean :
    (acc cs : List Component) (p : List Component)
    → CleanRev acc
    → normalize_onto acc cs ≡ some p
    → Clean p
unfolding normalize_onto
normalize_onto-Clean acc [] p h e = some-Clean (reverse_onto-Clean acc [] h) e
normalize_onto-Clean acc (cur_dir ∷ cs) p h e = normalize_onto-Clean acc cs p h e
normalize_onto-Clean (normal n ∷ acc) (parent_dir ∷ cs) p h e = normalize_onto-Clean acc cs p h e
normalize_onto-Clean [] (parent_dir ∷ cs) p h e = cc
normalize_onto-Clean (root_dir ∷ acc) (parent_dir ∷ cs) p h e = cc
normalize_onto-Clean (cur_dir ∷ acc) (parent_dir ∷ cs) p h e = cc
normalize_onto-Clean (parent_dir ∷ acc) (parent_dir ∷ cs) p h e = cc
normalize_onto-Clean acc (root_dir ∷ cs) p h e = normalize_onto-Clean (root_dir ∷ []) cs p tt e
normalize_onto-Clean acc (normal n ∷ cs) p h e = normalize_onto-Clean (normal n ∷ acc) cs p h e

-- Normalizing an absolute path leaves a root with names below it.
pub normalize-Clean :
    (cs p : List Component) → is_absolute cs ≡ true → normalize cs ≡ some p → Clean p
unfolding normalize is_absolute
normalize-Clean (root_dir ∷ cs) p h e = normalize_onto-Clean (root_dir ∷ []) cs p tt e
normalize-Clean [] p h e = cc
normalize-Clean (cur_dir ∷ cs) p h e = cc
normalize-Clean (parent_dir ∷ cs) p h e = cc
normalize-Clean (normal n ∷ cs) p h e = cc

component_eq-eq : (a b : Component) → component_eq a b ≡ true → a ≡ b
unfolding component_eq
component_eq-eq root_dir root_dir h = refl
component_eq-eq cur_dir cur_dir h = refl
component_eq-eq parent_dir parent_dir h = refl
component_eq-eq (normal a) (normal b) h = ap normal ((text_eq_iff a b).0 h)
component_eq-eq _ _ h = cc

path_starts_with-append :
    (p base : List Component)
    → path_starts_with p base ≡ true
    → (rest : List Component) × (p ≡ base ++ rest)
unfolding path_starts_with
path_starts_with-append p [] h = (p, refl)
path_starts_with-append [] (c ∷ base) h = cc
path_starts_with-append (d ∷ p) (c ∷ base) h =
    let (rest, e) = path_starts_with-append p base (ground arith) in
    (rest, cc (component_eq-eq d c (ground arith)))

names_behind :
    (base rest : List Component) (names : List Text)
    → map normal names ≡ base ++ rest
    → (below : List Text) × (rest ≡ map normal below)
names_behind [] rest names e = (names, sym e)
names_behind (c ∷ base) rest [] e = cc
names_behind (c ∷ base) rest (n ∷ names) e = names_behind base rest names (cc)

below_root :
    (base rest : List Component) {p : List Component}
    → Clean base
    → Clean p
    → p ≡ base ++ rest
    → (below : List Text) × (rest ≡ map normal below)
below_root [] rest (names, e) q h = cc
below_root (c ∷ base) rest (names, e) (names', e') h = names_behind base rest names' (cc)

is_absolute-append : (base cs : List Component) → Clean base → is_absolute (base ++ cs) ≡ true
unfolding is_absolute
is_absolute-append base cs (names, e) = rw e

join-is_absolute : (base path : List Component) → Clean base → is_absolute (join base path) ≡ true
unfolding join
join-is_absolute base path h = elim (Bool-cases (is_absolute path)) [
  | inl yes_absolute ↦ rw yes_absolute yes_absolute
  | inr relative ↦ rw relative (is_absolute-append base (skip_cur_dir path) h)
]

-- The answer lies below the normalized working directory, with names only in between.
pub record Inside (cwd : Text) (p : List Component) : Type 0 where
  pub base : List Component
  pub below : List Text
  pub base_is : normalize (components cwd) ≡ some base
  pub base_clean : Clean base
  pub lies : p ≡ base ++ map normal below

check_inside-ok :
    (path : Text) (base : List Component) (o : Option (List Component)) (p : List Component)
    → check_inside path base o ≡ ok p
    → (o ≡ some p) × (path_starts_with p base ≡ true)
unfolding check_inside
check_inside-ok path base none p h = cc
check_inside-ok path base (some q) p h = ground arith

-- Whatever path an engine asks for, and whatever dot-dots it holds, a target that `resolve_in`
-- accepts lies below the normalized working directory.
pub resolve_in-Inside :
    (cwd path : Text) (p : List Component) → resolve_in cwd path ≡ ok p → Inside cwd p
unfolding resolve_in resolve_from
resolve_in-Inside cwd path p h = elim (Bool-cases (is_absolute (components cwd))) [
  | inl rooted ↦ elim (Option-cases (normalize (components cwd))) [
    | inl climbs ↦ absurd (ground arith)
    | inr (base, e) ↦
        let clean = normalize-Clean (components cwd) base rooted e in
        let (target, inside) =
          check_inside-ok path base (normalize (join base (components path))) p (ground arith) in
        let (rest, lies) = path_starts_with-append p base inside in
        let clean_p =
          normalize-Clean (join base (components path)) p
            (join-is_absolute base (components path) clean) target in
        let (below, names) = below_root base rest clean clean_p lies in
        record {
          base = base;
          below = below;
          base_is = e;
          base_clean = clean;
          lies = lies ∙ ap (λ r. base ++ r) names;
        }
  ]
  | inr relative ↦ absurd (ground arith)
]
