-- ===== src/Roles.antt =====
-- Profiles (tx-core/src/profile.rs): role names resolved against search directories into one text and
-- the skill directories that the roles grant. The two questions to the file system are parameters:
-- whether a path is a file, and what text it holds. A text is a list of code points.
pub mod Granted
pub mod Repeated
use tx_ide_rs.Prelude.{
  ℕ, zero, suc, Bool, true, false, not, ◌&&◌, ◌||◌, List, [], ◌∷◌, ◌++◌, Option, none, some, Text,
  codes, text_eq, contains, starts_with, leb, ◌==◌, if◌then◌else◌, length, all, filter, find, map,
  trim, trim_start, trim_end, drop,
}
use mathlib.Core.Option
use mathlib.Core.List.{reverse}
use tx_ide_rs.Result.{Res, ok, err}

-- `RoleError`
pub data RoleError : Type 0 where
  invalid_name : Text → RoleError
  unknown_role unknown_skill : Text → List Text → RoleError
  unclosed_frontmatter : Text → RoleError
  read_failed : Text → Text → RoleError

infixl 1 ◌>>=◌
abbrev pub ◌>>=◌ : {A B : Type 0} → Res RoleError A → (A → Res RoleError B) → Res RoleError B
◌>>=◌ (ok a) f = f a
◌>>=◌ (err e) f = err e

pub record Profiles : Type 0 where
  pub profile_dirs : List Text
  pub skill_dirs : List Text

-- The fields of `ResolvedProfile` that roles fill; the others keep their defaults.
pub record Resolved : Type 0 where
  pub text : Text
  pub skill_dirs : List Text

abbrev pub role_suffix : Text
role_suffix = codes ".md"

abbrev pub local_suffix : Text
local_suffix = codes ".local.md"

abbrev pub skill_file : Text
skill_file = codes "SKILL.md"

abbrev pub delimiter : Text
delimiter = codes "---"

-- `Path::join` with a name that is not absolute.
unfoldable pub join_path : Text → Text → Text
join_path [] name = name
join_path (c ∷ []) name = if c == b'/' then c ∷ name else c ∷ b'/' ∷ name
join_path (c ∷ d ∷ dir) name = c ∷ join_path (d ∷ dir) name

unfoldable pub is_name_char : ℕ → Bool
is_name_char c =
    (leb b'0' c && leb c b'9')
    || ((leb b'A' c && leb c b'Z') || ((leb b'a' c && leb c b'z') || (c == b'_' || c == b'-')))

unfoldable pub is_bare_name : Text → Bool
unfolding is_name_char
is_bare_name [] = false
is_bare_name (c ∷ name) = all is_name_char (c ∷ name)

-- `replace("\r\n", "\n")`, then `replace('\r', "\n")`
unfoldable pub universal_newlines : Text → Text
universal_newlines [] = []
universal_newlines (c ∷ []) = (if c == 0x0d then 0x0a else c) ∷ []
universal_newlines (c ∷ d ∷ text) =
    let rest = universal_newlines (d ∷ text) in
    if c == 0x0d then (if d == 0x0a then rest else 0x0a ∷ rest) else c ∷ rest

abbrev pub strip_bom : Text → Text
strip_bom [] = []
strip_bom (c ∷ text) = if c == 0xfeff then text else c ∷ text

abbrev pub onto_first : ℕ → List Text → List Text
onto_first c [] = (c ∷ []) ∷ []
onto_first c (line ∷ lines) = (c ∷ line) ∷ lines

-- `split` at a character; there is always a first piece.
unfoldable pub split_at : ℕ → Text → List Text
split_at at [] = [] ∷ []
split_at at (c ∷ text) =
    let rest = split_at at text in if c == at then [] ∷ rest else onto_first c rest

-- `join`
unfoldable pub join_with : Text → List Text → Text
join_with separator [] = []
join_with separator (line ∷ []) = line
join_with separator (line ∷ next ∷ lines) =
    line ++ (separator ++ join_with separator (next ∷ lines))

unfoldable pub is_delimiter : Text → Bool
unfolding trim text_eq
is_delimiter line = text_eq (trim line) delimiter

-- The lines before the first delimiter and those after it, if there is one.
unfoldable pub until_delimiter : List Text → Option (List Text × List Text)
unfolding is_delimiter
until_delimiter [] = none
until_delimiter (line ∷ lines) =
    let rest =
      Option.map (λ (p : List Text × List Text). (line ∷ p.0, p.1)) (until_delimiter lines) in
    if is_delimiter line then some ([], lines) else rest

abbrev pub closed_by : Text → Option (List Text × List Text) → Res RoleError (List Text × Text)
closed_by path none = err (unclosed_frontmatter path)
closed_by path (some (front, body)) = ok (front, join_with (0x0a ∷ []) body)

-- `split_frontmatter` of the text of a file.
abbrev pub split_lines : Text → Text → List Text → Res RoleError (List Text × Text)
split_lines path text [] = ok ([], text)
split_lines path text (opener ∷ lines) =
    if is_delimiter opener then closed_by path (until_delimiter lines) else ok ([], text)

unfoldable pub split_text : Text → Text → Res RoleError (List Text × Text)
unfolding universal_newlines split_at until_delimiter join_with
split_text path raw =
    let text = universal_newlines (strip_bom raw) in split_lines path text (split_at 0x0a text)

-- `strip_prefix` and `strip_suffix`
unfoldable pub strip_prefix : Text → Text → Option Text
strip_prefix [] text = some text
strip_prefix (p ∷ start) [] = none
strip_prefix (p ∷ start) (c ∷ text) =
    let rest = strip_prefix start text in if p == c then rest else none

unfoldable pub strip_last : ℕ → Text → Option Text
strip_last at [] = none
strip_last at (c ∷ []) = if c == at then some [] else none
strip_last at (c ∷ d ∷ text) = Option.map (λ rest. c ∷ rest) (strip_last at (d ∷ text))

abbrev pub closed : Option Text → Option Text
closed none = none
closed (some list) = strip_last b']' (trim_end list)

abbrev pub bracketed : Option Text → Option Text
bracketed none = none
bracketed (some rest) = closed (strip_prefix (codes "[") (trim_start rest))

-- The list of a line that grants skills.
unfoldable pub list_of : Text → Option Text
unfolding strip_prefix strip_last trim_start trim_end
list_of line = bracketed (strip_prefix (codes "skills:") (trim_start line))

abbrev pub names_in : Option Text → List Text
names_in none = []
names_in (some list) =
    filter (λ (name : Text). not (length name == 0)) (map trim (split_at b',' list))

unfoldable pub skills_in : List Text → List Text
unfolding list_of split_at trim
skills_in [] = []
skills_in (line ∷ lines) = names_in (list_of line) ++ skills_in lines

-- A name is added at the end when it is not there.
unfoldable pub add_new : List Text → List Text → List Text
add_new [] known = known
add_new (name ∷ names) known =
    add_new names (if contains known name then known else known ++ name ∷ [])

-- `ordered`: the names with the first position of each, unless one is not a bare name.
unfoldable pub order_roles : List Text → List Text → Res RoleError (List Text)
unfolding is_bare_name
order_roles [] ordered = ok ordered
order_roles (role ∷ roles) ordered =
    let rest =
      order_roles roles (if contains ordered role then ordered else ordered ++ role ∷ []) in
    if is_bare_name role then rest else err (invalid_name role)

-- The bodies and the skills so far.
pub record Gathered : Type 0 where
  pub bodies : List Text
  pub skills : List Text

module _ (is_file : Text → Bool) (read_text : Text → Res Text Text) (p : Profiles) where
  abbrev pub with_locals : Text → Option Text → Res RoleError (List Text)
  with_locals role none = err (unknown_role role p.profile_dirs)
  with_locals role (some base) = ok (
      base
      ∷ filter is_file (map (λ (dir : Text). join_path dir (role ++ local_suffix)) p.profile_dirs))

  -- `Profiles::role_files`
  unfoldable pub role_files : Text → Res RoleError (List Text)
  unfolding join_path
  role_files role = with_locals role (
      find is_file
        (map (λ (dir : Text). join_path dir (role ++ role_suffix)) (reverse p.profile_dirs)))

  abbrev pub read_parts : Text → Res Text Text → Res RoleError (List Text × Text)
  read_parts path (err why) = err (read_failed path why)
  read_parts path (ok raw) = split_text path raw

  -- `split_frontmatter`
  unfoldable pub split_frontmatter : Text → Res RoleError (List Text × Text)
  unfolding split_text
  split_frontmatter path = read_parts path (read_text path)

  abbrev pub add_body : Text → List Text → List Text
  add_body [] bodies = bodies
  add_body (c ∷ body) bodies = bodies ++ (c ∷ body) ∷ []

  abbrev pub gather_parts : Gathered → List Text × Text → Gathered
  gather_parts g (front, body) = record {
    bodies = add_body (trim body) g.bodies;
    skills = add_new (skills_in front) g.skills;
  }

  unfoldable pub gather_files : List Text → Gathered → Res RoleError Gathered
  unfolding split_frontmatter skills_in add_new trim
  gather_files [] g = ok g
  gather_files (path ∷ paths) g = do
    parts ← split_frontmatter path
    gather_files paths (gather_parts g parts)

  unfoldable pub gather_roles : List Text → Gathered → Res RoleError Gathered
  unfolding role_files gather_files
  gather_roles [] g = ok g
  gather_roles (role ∷ roles) g = do
    files ← role_files role
    gathered ← gather_files files g
    gather_roles roles gathered

  abbrev pub found_skill : Text → Option Text → Res RoleError Text
  found_skill name none = err (unknown_skill name p.skill_dirs)
  found_skill name (some dir) = ok dir

  -- `Profiles::skill_dir`
  unfoldable pub skill_dir : Text → Res RoleError Text
  unfolding join_path is_bare_name
  skill_dir name =
      if is_bare_name name
      then found_skill name (
          find (λ (dir : Text). is_file (join_path dir skill_file))
            (map (λ (dir : Text). join_path dir name) (reverse p.skill_dirs)))
      else err (invalid_name name)

  unfoldable pub skill_paths : List Text → Res RoleError (List Text)
  unfolding skill_dir
  skill_paths [] = ok []
  skill_paths (name ∷ names) = do dir ← skill_dir name; rest ← skill_paths names; ok (dir ∷ rest)

  abbrev pub resolved_of : Gathered → List Text → Resolved
  resolved_of g dirs = record { text = join_with (codes "\n\n") g.bodies; skill_dirs = dirs }

  -- `Profiles::resolve`
  unfoldable pub resolve : List Text → Res RoleError Resolved
  unfolding order_roles gather_roles skill_paths join_with
  resolve roles = do
    ordered ← order_roles roles []
    g ← gather_roles ordered (record { bodies = []; skills = [] })
    dirs ← skill_paths g.skills
    ok (resolved_of g dirs)

  abbrev pub is_ok : Res RoleError (List Text) → Bool
  is_ok (ok files) = true
  is_ok (err why) = false

  -- `Profiles::has_role`
  unfoldable pub has_role : Text → Bool
  unfolding role_files is_bare_name
  has_role role = is_bare_name role && is_ok (role_files role)
