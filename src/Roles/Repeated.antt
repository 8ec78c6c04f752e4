-- ===== src/Roles/Repeated.antt =====
-- A role that is named twice counts once, at its first position.
use tx_ide_rs.Prelude.{
  ◌≡◌, refl, sym, ap, ◌∙◌, ◌⊎◌, Bool, true, List, [], ◌∷◌, ◌++◌, Text, text_eq, text_eq_iff,
  text_eq_refl, contains, if◌then◌else◌, Bool-cases, inl, inr,
}
use tx_ide_rs.Result.{Res, ok, err}
use tx_ide_rs.Roles.{
  RoleError, invalid_name, Profiles, ◌>>=◌, is_bare_name, order_roles, gather_roles, skill_paths,
  resolved_of, resolve,
}

contains-snoc : (xs : List Text) (x : Text) → contains (xs ++ x ∷ []) x ≡ true
unfolding contains
contains-snoc [] x = rw (text_eq_refl x) refl
contains-snoc (y ∷ xs) x = elim (Bool-cases (text_eq y x)) [
  | inl same ↦ rw same refl
  | inr other ↦ rw other (contains-snoc xs x)
]

contains-append :
    (xs ys : List Text) (x : Text) → contains xs x ≡ true → contains (xs ++ ys) x ≡ true
unfolding contains
contains-append [] ys x h = cc
contains-append (y ∷ xs) ys x h = elim (Bool-cases (text_eq y x)) [
  | inl same ↦ rw same refl
  | inr other ↦ rw other (contains-append xs ys x (rw other at h))
]

abbrev next : List Text → Text → List Text
next ordered role = if contains ordered role then ordered else ordered ++ role ∷ []

next-has : (ordered : List Text) (role : Text) → contains (next ordered role) role ≡ true
next-has ordered role = elim (Bool-cases (contains ordered role)) [
  | inl known ↦ rw known known
  | inr new ↦ rw new (contains-snoc ordered role)
]

next-keeps :
    (ordered : List Text) (r role : Text)
    → contains ordered role ≡ true
    → contains (next ordered r) role ≡ true
next-keeps ordered r role h = elim (Bool-cases (contains ordered r)) [
  | inl known ↦ rw known h
  | inr new ↦ rw new (contains-append ordered (r ∷ []) role h)
]

order-cons :
    (r : Text) (roles ordered : List Text)
    → order_roles (r ∷ roles) ordered
      ≡ (if is_bare_name r then order_roles roles (next ordered r) else err (invalid_name r))
unfolding order_roles
order-cons r roles ordered = refl

-- The role is in its place already, or is still to come.
Comes : List Text → List Text → Text → Type 0
Comes roles ordered role =
    ((contains ordered role ≡ true) × (is_bare_name role ≡ true)) ⊎ (contains roles role ≡ true)

order-last :
    (roles ordered : List Text) (role : Text)
    → Comes roles ordered role
    → order_roles (roles ++ role ∷ []) ordered ≡ order_roles roles ordered
unfolding Comes contains
order-last [] ordered role (inl (known, bare)) =
    order-cons role [] ordered ∙ rw bare (rw known refl)
order-last [] ordered role (inr h) = cc
order-last (r ∷ roles) ordered role comes = elim (Bool-cases (is_bare_name r)) [
  | inr not_bare ↦
      order-cons r (roles ++ role ∷ []) ordered
      ∙ rw not_bare refl
      ∙ sym (order-cons r roles ordered)
  | inl bare ↦
      order-cons r (roles ++ role ∷ []) ordered
      ∙ ap (λ x. if is_bare_name r then x else err (invalid_name r))
          (order-last roles (next ordered r) role (later bare comes))
      ∙ sym (order-cons r roles ordered)
]
  where
    later :
        is_bare_name r ≡ true → Comes (r ∷ roles) ordered role → Comes roles (next ordered r) role
    later bare (inl (known, name)) = inl (next-keeps ordered r role known, name)
    later bare (inr h) = elim (Bool-cases (text_eq r role)) [
      | inl same ↦
          let e : r ≡ role = (text_eq_iff r role).0 same in
          inl (
            ap (λ x. contains (next ordered r) x) (sym e) ∙ next-has ordered r,
            ap is_bare_name (sym e) ∙ bare,
          )
      | inr other ↦ inr (rw other at h)
    ]

-- To name a role once more, after it has been named, does not change what the roles resolve to, be it
-- a profile or an error.
pub resolve-again :
    (is_file : Text → Bool) (read_text : Text → Res Text Text) (p : Profiles) (roles : List Text)
    (role : Text)
    → contains roles role ≡ true
    → resolve is_file read_text p (roles ++ role ∷ []) ≡ resolve is_file read_text p roles
unfolding resolve Comes
resolve-again is_file read_text p roles role h =
    ap
      (λ (o : Res RoleError (List Text)). o >>= λ ordered.
        gather_roles is_file read_text p ordered (record { bodies = []; skills = [] }) >>= λ g.
        skill_paths is_file read_text p g.skills >>= λ dirs.
        ok (resolved_of is_file read_text p g dirs))
      (order-last roles [] role (inr h))
