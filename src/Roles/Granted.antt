-- ===== src/Roles/Granted.antt =====
-- What a role grants: each skill directory is the one of the last search directory that has it.
use mathlib.Core.List.{reverse, reverse-append, reverse-reverse, reverse-cons, append_assoc}
use mathlib.Core.Path.{subst}
use tx_ide_rs.Prelude.{
  ◌≡◌, refl, sym, ap, ◌∙◌, Bool, true, false, List, [], ◌∷◌, ◌++◌, map, Option, none, some, Text,
  find, if◌then◌else◌, All, All-append, Bool-cases, inl, inr,
}
use tx_ide_rs.Result.{Res, ok, err}
use tx_ide_rs.Roles.{
  RoleError, invalid_name, Profiles, Resolved, Gathered, skill_file, join_path, is_bare_name, ◌>>=◌,
  order_roles, gather_roles, found_skill, skill_dir, skill_paths, resolved_of, resolve,
}

-- The first element of a list whose image passes the test, and what stands around it.
record FirstIn {A B : Type 0} (f : A → B) (test : B → Bool) (xs : List A) (y : B) : Type 0 where
  before : List A
  element : A
  after : List A
  parts : xs ≡ before ++ element ∷ after
  image : y ≡ f element
  passes : test y ≡ true
  earlier : All (λ x. test (f x) ≡ false) before

find-FirstIn :
    {A B : Type 0} (f : A → B) (test : B → Bool) (xs : List A) (y : B)
    → find test (map f xs) ≡ some y
    → FirstIn f test xs y
find-FirstIn f test [] y h = cc
find-FirstIn f test (x ∷ xs) y h = elim (Bool-cases (test (f x))) [
  | inl here ↦
      let found : ◌≡◌ {A = Option _} (some (f x)) (some y) = rw here at h in
      let same : f x ≡ y = cc in
      record {
        before = [];
        element = x;
        after = xs;
        parts = refl;
        image = sym same;
        passes = ap test (sym same) ∙ here;
        earlier = tt;
      }
  | inr not_here ↦
      let rest = find-FirstIn f test xs y (rw not_here at h) in
      record {
        before = x ∷ rest.before;
        element = rest.element;
        after = rest.after;
        parts = ap (λ ys. x ∷ ys) rest.parts;
        image = rest.image;
        passes = rest.passes;
        earlier = (not_here, rest.earlier);
      }
]

All-reverse : {A : Type 0} (P : A → Type 0) (xs : List A) → All P xs → All P (reverse xs)
All-reverse P [] h = tt
All-reverse P (x ∷ xs) h =
    subst (All P) (sym (reverse-cons x xs))
      (All-append P (reverse xs) (x ∷ []) (All-reverse P xs h.1) (h.0, tt))

reverse-parts :
    {A : Type 0} (before after : List A) (x : A)
    → reverse (before ++ x ∷ after) ≡ reverse after ++ x ∷ reverse before
reverse-parts before after x =
    reverse-append before (x ∷ after)
    ∙ ap (λ ys. ys ++ reverse before) (reverse-cons x after)
    ∙ append_assoc (reverse after) (x ∷ []) (reverse before)

-- The directory of a skill with a bare name: the last search directory that has a file for it.
pub record IsGranted (is_file : Text → Bool) (dirs : List Text) (path : Text) : Type 0 where
  name : Text
  earlier : List Text
  dir : Text
  later : List Text
  bare : is_bare_name name ≡ true
  parts : dirs ≡ earlier ++ dir ∷ later
  joined : path ≡ join_path dir name
  present : is_file (join_path path skill_file) ≡ true
  absent : All (λ d. is_file (join_path (join_path d name) skill_file) ≡ false) later

bind-ok :
    {A B : Type 0} (m : Res RoleError A) (f : A → Res RoleError B) (b : B)
    → (m >>= f) ≡ ok b
    → (a : A) × (m ≡ ok a) × (f a ≡ ok b)
bind-ok (ok a) f b h = (a, refl, h)
bind-ok (err e) f b h = cc

if-ok :
    {A : Type 0} (t : Bool) (m : Res RoleError A) (e : RoleError) (a : A)
    → (if t then m else err e) ≡ ok a
    → (t ≡ true) × (m ≡ ok a)
if-ok true m e a h = (refl, h)
if-ok false m e a h = cc

module _ (is_file : Text → Bool) (read_text : Text → Res Text Text) (p : Profiles) where
  found_skill-some :
      (name path : Text) (o : Option Text)
      → found_skill is_file read_text p name o ≡ ok path
      → o ≡ some path
  found_skill-some name path (some dir) h = cc
  found_skill-some name path none h = cc

  found-IsGranted :
      (name path : Text)
      → is_bare_name name ≡ true
      → FirstIn
          (λ d. join_path d name)
          (λ d. is_file (join_path d skill_file))
          (reverse p.skill_dirs)
          path
      → IsGranted is_file p.skill_dirs path
  found-IsGranted name path bare f = record {
    name = name;
    earlier = reverse f.after;
    dir = f.element;
    later = reverse f.before;
    bare = bare;
    parts =
        sym (reverse-reverse p.skill_dirs)
        ∙ ap (λ ds. reverse ds) f.parts
        ∙ reverse-parts f.before f.after f.element;
    joined = f.image;
    present = f.passes;
    absent = All-reverse _ f.before f.earlier;
  }

  skill_dir-tested :
      (name : Text)
      → skill_dir is_file read_text p name ≡ (
          if is_bare_name name
          then found_skill is_file read_text p name (
              find
                (λ d. is_file (join_path d skill_file))
                (map (λ d. join_path d name) (reverse p.skill_dirs)))
          else err (invalid_name name))
  unfolding skill_dir
  skill_dir-tested name = refl

  nil-IsGranted :
      (paths : List Text)
      → skill_paths is_file read_text p [] ≡ ok paths
      → All (IsGranted is_file p.skill_dirs) paths
  unfolding skill_paths
  nil-IsGranted [] h = tt
  nil-IsGranted (path ∷ paths) h = cc

  skill_paths-cons :
      (name : Text) (names : List Text)
      → skill_paths is_file read_text p (name ∷ names) ≡ (
          skill_dir is_file read_text p name >>= λ dir.
          skill_paths is_file read_text p names >>= λ rest. ok (dir ∷ rest))
  unfolding skill_paths
  skill_paths-cons name names = refl

  resolve-do :
      (roles : List Text)
      → resolve is_file read_text p roles ≡ (
          order_roles roles [] >>= λ ordered.
          gather_roles is_file read_text p ordered (record { bodies = []; skills = [] }) >>= λ g.
          skill_paths is_file read_text p g.skills >>= λ dirs.
          ok (resolved_of is_file read_text p g dirs))
  unfolding resolve
  resolve-do roles = refl

  skill_dir-IsGranted :
      (name path : Text)
      → skill_dir is_file read_text p name ≡ ok path
      → IsGranted is_file p.skill_dirs path
  skill_dir-IsGranted name path h =
      let tested =
        if-ok (is_bare_name name) _ (invalid_name name) path (sym (skill_dir-tested name) ∙ h) in
      found-IsGranted name path tested.0 (
        find-FirstIn (λ d. join_path d name) (λ d. is_file (join_path d skill_file))
          (reverse p.skill_dirs) path (found_skill-some name path _ tested.1))

  skill_paths-IsGranted :
      (names paths : List Text)
      → skill_paths is_file read_text p names ≡ ok paths
      → All (IsGranted is_file p.skill_dirs) paths
  skill_paths-IsGranted [] paths h = nil-IsGranted paths h
  skill_paths-IsGranted (name ∷ names) paths h =
      let (path, found, more) = bind-ok _ _ paths (sym (skill_paths-cons name names) ∙ h) in
      let (rest, others, made) = bind-ok _ _ paths more in
      let whole : path ∷ rest ≡ paths = cc in
      subst (All (IsGranted is_file p.skill_dirs)) whole
        (skill_dir-IsGranted name path found, skill_paths-IsGranted names rest others)

  -- When roles resolve, each skill directory that they grant is that of a bare name below one of the
  -- search directories, holds the skill's file, and no later search directory has one for the name.
  pub resolve-IsGranted :
      (roles : List Text) (r : Resolved)
      → resolve is_file read_text p roles ≡ ok r
      → All (IsGranted is_file p.skill_dirs) r.skill_dirs
  resolve-IsGranted roles r h =
      let grant = λ (g : Gathered). skill_paths is_file read_text p g.skills >>= λ dirs.
      ok (resolved_of is_file read_text p g dirs) in
      let gather = λ (ordered : List Text).
        gather_roles is_file read_text p ordered (record { bodies = []; skills = [] }) >>= grant in
      let (ordered, _, gathers) =
        bind-ok (order_roles roles []) gather r (sym (resolve-do roles) ∙ h) in
      let (g, _, grants) =
        bind-ok (gather_roles is_file read_text p ordered (record { bodies = []; skills = [] }))
          grant r gathers in
      let (dirs, found, made) =
        bind-ok (skill_paths is_file read_text p g.skills)
          (λ dirs. ok (resolved_of is_file read_text p g dirs)) r grants in
      let whole : resolved_of is_file read_text p g dirs ≡ r = cc in
      subst (λ (x : Resolved). All (IsGranted is_file p.skill_dirs) x.skill_dirs) whole
        (skill_paths-IsGranted g.skills dirs found)
