-- ===== src/Engine/Paths.antt =====
-- Where a workspace action may write: `resolve_in` and `normalize` of tx-core/src/engine.rs. A
-- path is the list of components that `Path::components` of the standard library yields.
pub mod Containment
use tx_ide_rs.Prelude.{
  ℕ, Bool, true, false, not, ◌&&◌, List, [], ◌∷◌, ◌++◌, Option, none, some, Text, text_eq, ◌==◌,
  if◌then◌else◌, codes,
}
use tx_ide_rs.Result.{Res, ok, err, EngineError, workspace}

pub data Component : Type 0 where
  root_dir cur_dir parent_dir : Component
  normal : Text → Component

component_eq : Component → Component → Bool
component_eq root_dir root_dir = true
component_eq cur_dir cur_dir = true
component_eq parent_dir parent_dir = true
component_eq (normal a) (normal b) = text_eq a b
component_eq _ _ = false

add_byte : ℕ → List Text → List Text
add_byte b [] = if b == b'/' then [] ∷ [] ∷ [] else (b ∷ []) ∷ []
add_byte b (s ∷ ss) = if b == b'/' then [] ∷ s ∷ ss else (b ∷ s) ∷ ss

-- The pieces between the slashes.
segments : Text → List Text
unfolding add_byte
segments [] = [] ∷ []
segments (c ∷ t) = add_byte c (segments t)

-- An empty piece and a dot stand for nothing, except a dot in front of a relative path.
component_of : Bool → Text → List Component
component_of first [] = []
component_of first s =
    if text_eq s (codes ".")
    then (if first then cur_dir ∷ [] else [])
    else if text_eq s (codes "..")
    then parent_dir ∷ []
    else normal s ∷ []

components_of : Bool → List Text → List Component
components_of first [] = []
components_of first (s ∷ ss) = component_of first s ++ components_of false ss

-- `Path::components`
unfoldable pub components : Text → List Component
unfolding components_of component_of segments
components [] = []
components (c ∷ t) =
    if c == b'/'
    then root_dir ∷ components_of false (segments t)
    else components_of true (segments (c ∷ t))

reverse_onto : List Component → List Component → List Component
reverse_onto [] p = p
reverse_onto (c ∷ acc) p = reverse_onto acc (c ∷ p)

-- The loop of `normalize`; the path built so far has its last component first.
normalize_onto : List Component → List Component → Option (List Component)
normalize_onto acc [] = some (reverse_onto acc [])
normalize_onto acc (cur_dir ∷ cs) = normalize_onto acc cs
normalize_onto (normal n ∷ acc) (parent_dir ∷ cs) = normalize_onto acc cs
normalize_onto acc (parent_dir ∷ cs) = none
normalize_onto acc (root_dir ∷ cs) = normalize_onto (root_dir ∷ []) cs
normalize_onto acc (normal n ∷ cs) = normalize_onto (normal n ∷ acc) cs

-- `normalize`
unfoldable pub normalize : List Component → Option (List Component)
unfolding normalize_onto reverse_onto
normalize = normalize_onto []

-- `Path::is_absolute`
unfoldable pub is_absolute : List Component → Bool
is_absolute (root_dir ∷ cs) = true
is_absolute _ = false

skip_cur_dir : List Component → List Component
skip_cur_dir (cur_dir ∷ cs) = cs
skip_cur_dir cs = cs

-- `Path::join`
join : List Component → List Component → List Component
unfolding skip_cur_dir
join cwd path = if is_absolute path then path else cwd ++ skip_cur_dir path

-- `Path::starts_with`
path_starts_with : List Component → List Component → Bool
path_starts_with p [] = true
path_starts_with [] (c ∷ cs) = false
path_starts_with (d ∷ p) (c ∷ cs) = component_eq d c && path_starts_with p cs

check_inside : Text → List Component → Option (List Component) → Res EngineError (List Component)
check_inside path cwd none = err (workspace path (codes "escapes the working directory"))
check_inside path cwd (some p) =
    if path_starts_with p cwd
    then ok p
    else err (workspace path (codes "escapes the working directory"))

resolve_from : Text → Text → Option (List Component) → Res EngineError (List Component)
unfolding join check_inside
resolve_from cwd path none = err (workspace cwd (codes "escapes the working directory"))
resolve_from cwd path (some base) = check_inside path base (normalize (join base (components path)))

-- `resolve_in`
unfoldable pub resolve_in : Text → Text → Res EngineError (List Component)
unfolding resolve_from path_starts_with component_eq
resolve_in cwd path =
    if is_absolute (components cwd)
    then resolve_from cwd path (normalize (components cwd))
    else err (workspace cwd (codes "working directory is not absolute"))
