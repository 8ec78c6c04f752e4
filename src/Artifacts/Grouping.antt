-- ===== src/Artifacts/Grouping.antt =====
-- The effective group of a session, a view and an artifact
-- (plugins/artifacts/src/grouping.rs). The loop up the parents runs on rounds: `none` is out of
-- rounds, and one more than the number of sessions is given.
pub mod Walk
pub mod Group
use tx_ide_rs.Prelude.{
  ℕ, zero, suc, Bool, true, false, not, List, [], ◌∷◌, ◌++◌, Option, none, some, Text, codes,
  text_eq, contains, if◌then◌else◌, length, drop, take,
}
use mathlib.Core.List.{reverse}
use tx_ide_rs.Json.{Value, string, get}
use tx_ide_rs.Agent.{Agent, ext_get}
use tx_ide_rs.Artifacts.Record.{Touch, Artifact}

abbrev pub ungrouped : Text
ungrouped = codes "ungrouped"

abbrev pub user_actor : Text
user_actor = codes "user"

abbrev pub edit_plugin : Text
edit_plugin = codes "edit"

abbrev pub artifacts_plugin : Text
artifacts_plugin = codes "artifacts"

abbrev pub or_else {ℓ} : {A : Type ℓ} → Option A → Option A → Option A
or_else (some a) b = some a
or_else none b = b

abbrev pub first_of {ℓ} : {A : Type ℓ} → A → List A → A
first_of a [] = a
first_of a (b ∷ bs) = b

-- `non_empty`
abbrev pub non_empty : Option Value → Option Text
non_empty (some (string (c ∷ group))) = some (c ∷ group)
non_empty _ = none

abbrev pub group_in : Option Value → Option Value
group_in none = none
group_in (some v) = get (codes "group") v

unfoldable pub own_group : Agent → Option Text
unfolding ext_get get
own_group a =
    or_else (non_empty (group_in (ext_get edit_plugin a.ext)))
      (non_empty (group_in (ext_get artifacts_plugin a.ext)))

unfoldable pub is_hub : Agent → Bool
unfolding text_eq
is_hub a = text_eq (codes "tx-assistant") a.name

-- `HashMap::get` of the map that is collected from the list: a later session takes the place.
unfoldable pub session_by_id : Text → List Agent → Option Agent
session_by_id id [] = none
session_by_id id (a ∷ sessions) =
    or_else (session_by_id id sessions) (if text_eq a.id id then some a else none)

-- `GroupResolver::parent`, of the id that it reads.
unfoldable pub parent_of : List Agent → Option Text → Option Agent
unfolding session_by_id
parent_of sessions none = none
parent_of sessions (some id) = session_by_id id sessions

-- An override of its own, else what is further up, where a hub stops.
abbrev pub by_own : Option (Option Text) → Bool → Option Text → Option (Option Text)
by_own further hub (some group) = some (some group)
by_own further true none = some none
by_own further false none = further

-- `GroupResolver::ancestor_override`
unfoldable pub ancestor_override : ℕ → List Agent → Option Agent → List Text → Option (Option Text)
unfolding own_group is_hub parent_of
ancestor_override zero sessions ancestor visited = none
ancestor_override (suc rounds) sessions none visited = some none
ancestor_override (suc rounds) sessions (some current) visited =
    let further =
      ancestor_override rounds sessions (parent_of sessions current.parent_id)
        (current.id ∷ visited) in
    if contains visited current.id
    then some none
    else by_own further (is_hub current) (own_group current)

abbrev pub rounds_for : List Agent → ℕ
rounds_for sessions = suc (suc (length sessions))

-- `GroupResolver::session_override`
unfoldable pub session_override : List Agent → Agent → Option (Option Text)
unfolding ancestor_override
session_override sessions session =
    by_own
      (ancestor_override (rounds_for sessions) sessions (parent_of sessions session.parent_id)
        (session.id ∷ []))
      (is_hub session) (own_group session)

abbrev pub or_floor : Text → Option Text → Text
or_floor floor none = floor
or_floor floor (some group) = group

abbrev pub or_floor_of : Text → Option (Option Text) → Option Text
or_floor_of floor none = none
or_floor_of floor (some o) = some (or_floor floor o)

-- `GroupResolver::session_group`
unfoldable pub session_group : List Agent → Agent → Option Text
unfolding session_override
session_group sessions session =
    or_floor_of (first_of session.name session.tags) (session_override sessions session)

-- `creator_first`: the first touch, then the others from the newest.
abbrev pub creator_first : List Touch → List Touch
creator_first history = take 1 history ++ reverse (drop 1 history)

abbrev pub some_group : Option Text → Option (Option Text)
some_group none = none
some_group (some group) = some (some group)

abbrev pub by_author : List Agent → Option (Option Text) → Option Agent → Option (Option Text)
by_author sessions rest (some author) = some_group (session_group sessions author)
by_author sessions rest none = rest

unfoldable pub author_group : List Agent → List Touch → Option (Option Text)
unfolding session_group session_by_id
author_group sessions [] = some none
author_group sessions (t ∷ touches) =
    let rest = author_group sessions touches in
    if text_eq t.session_id user_actor
    then rest
    else by_author sessions rest (session_by_id t.session_id sessions)

abbrev pub by_set : Option (Option Text) → Option Text → Option (Option Text)
by_set authors (some (c ∷ group)) = some (some (c ∷ group))
by_set authors _ = authors

-- `GroupResolver::artifact_override`
unfoldable pub artifact_override : List Agent → Artifact → Option (Option Text)
unfolding author_group
artifact_override sessions a = by_set (author_group sessions (creator_first a.history)) a.group

-- `GroupResolver::artifact_group`
unfoldable pub artifact_group : List Agent → Artifact → Option Text
unfolding artifact_override
artifact_group sessions a = or_floor_of ungrouped (artifact_override sessions a)

unfoldable pub artifact_by_id : Text → List Artifact → Option Artifact
artifact_by_id id [] = none
artifact_by_id id (a ∷ artifacts) =
    or_else (artifact_by_id id artifacts) (if text_eq a.id id then some a else none)

-- `View` of tx-client/src/views.rs, as far as it is read here.
pub record View : Type 0 where
  pub name : Text
  pub tags : List Text
  pub parent_id : Option Text
  pub bound : Option Text

abbrev pub override_of : List Agent → Option Artifact → Option (Option Text)
override_of sessions none = some none
override_of sessions (some a) = artifact_override sessions a

-- `GroupResolver::bound_override`
unfoldable pub bound_override : List Agent → List Artifact → Option Text → Option (Option Text)
unfolding artifact_override artifact_by_id
bound_override sessions artifacts none = some none
bound_override sessions artifacts (some id) = override_of sessions (artifact_by_id id artifacts)

abbrev pub or_bound : Option (Option Text) → Option (Option Text) → Option (Option Text)
or_bound none bound = none
or_bound (some none) bound = bound
or_bound (some (some group)) bound = some (some group)

-- `GroupResolver::view_group`
unfoldable pub view_group : List Agent → List Artifact → View → Option Text
unfolding bound_override ancestor_override
view_group sessions artifacts v = or_floor_of (first_of v.name v.tags) (
    or_bound (ancestor_override (rounds_for sessions) sessions (parent_of sessions v.parent_id) [])
      (bound_override sessions artifacts v.bound))
