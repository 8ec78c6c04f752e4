-- ===== src/Timeline.antt =====
-- The group cascade of the timeline (plugins/timeline/src/model.rs), which has its own copy of the
-- one of the artifacts plugin. The loop runs on rounds: `none` is out of rounds.
pub mod Copy
pub mod Same
use tx_ide_rs.Prelude.{
  ℕ, zero, suc, Bool, true, false, List, [], ◌∷◌, Option, none, some, Text, codes, text_eq,
  contains, if◌then◌else◌,
}
use tx_ide_rs.Json.{Value, string, get}
use tx_ide_rs.Agent.{Agent, ext_get}
use tx_ide_rs.Artifacts.Grouping.{session_by_id}

abbrev pub text_in : Option Value → Option Text
text_in (some (string (c ∷ group))) = some (c ∷ group)
text_in _ = none

abbrev pub group_member : Option Value → Option Value
group_member none = none
group_member (some v) = get (codes "group") v

-- `group_override`
unfoldable pub group_override : Agent → Option Text
unfolding ext_get get
group_override a = text_in (group_member (ext_get (codes "edit") a.ext))

unfoldable pub stops_walk : Agent → Bool
unfolding text_eq
stops_walk a = text_eq (codes "tx-assistant") a.name

abbrev pub ancestor_of : List Agent → Option Text → Option Agent
ancestor_of sessions none = none
ancestor_of sessions (some id) = session_by_id id sessions

abbrev pub by_override : Option (Option Text) → Bool → Option Text → Option (Option Text)
by_override further hub (some group) = some (some group)
by_override further hub none = if hub then some none else further

-- The loop of `session_group`.
unfoldable pub walk : ℕ → List Agent → Option Agent → List Text → Option (Option Text)
unfolding group_override stops_walk session_by_id
walk zero sessions ancestor visited = none
walk (suc rounds) sessions none visited = some none
walk (suc rounds) sessions (some current) visited =
    let further =
      walk rounds sessions (ancestor_of sessions current.parent_id) (current.id ∷ visited) in
    if contains visited current.id
    then some none
    else by_override further (stops_walk current) (group_override current)

abbrev pub floor_of : Agent → List Text → Text
floor_of a [] = a.name
floor_of a (tag ∷ tags) = tag

abbrev pub or_floor : Agent → Option (Option Text) → Option Text
or_floor a none = none
or_floor a (some none) = some (floor_of a a.tags)
or_floor a (some (some group)) = some group

abbrev pub group_of : Option Text → Option Text → Option Text
group_of (some group) walked = some group
group_of none walked = walked

-- `session_group`, on the rounds given.
unfoldable pub session_group : ℕ → List Agent → Agent → Option Text
unfolding walk
session_group rounds sessions a = group_of (group_override a) (
    if stops_walk a
    then some (floor_of a a.tags)
    else or_floor a (walk rounds sessions (ancestor_of sessions a.parent_id) (a.id ∷ [])))
