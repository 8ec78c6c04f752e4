-- ===== src/Tests/Groups.antt =====
-- The theorems on groups and artifact records at concrete inputs.
use mathlib.Core.List.{map}
use tx_ide_rs.Prelude.{◌≡◌, refl, List, [], ◌∷◌, Option, none, some, Text, text_eq, codes, length}
use tx_ide_rs.Json.{Value, string, object, field, end}
use tx_ide_rs.Agent.{Agent, claude, idle}
use tx_ide_rs.Artifacts.Record.{Artifact, document, new_artifact, record_touch}
use tx_ide_rs.Artifacts.Record.History.{CountsFrom, made, record_touch-counts}
use tx_ide_rs.Artifacts.Grouping.{session_by_id, or_floor, rounds_for}
use tx_ide_rs.Artifacts.Grouping
use tx_ide_rs.Artifacts.Grouping.Walk.{Answers}
use tx_ide_rs.Artifacts.Grouping.Group.{session_group-resolved}
use tx_ide_rs.Timeline.{session_group}
use tx_ide_rs.Timeline.Same.{without_artifacts, session_group-same}

-- Two sessions that are each other's parent.
abbrev session : Text → Option Text → List (Text × Value) → Agent
session id parent ext_ = record {
  id = id;
  name = id;
  engine = claude;
  working_directory = codes "/r";
  roles = [];
  definition = none;
  state = idle;
  created_at = 1;
  last_modified_at = 1;
  last_activity_at = none;
  tags = [];
  parent_id = parent;
  ext = ext_;
  other = [];
}

abbrev edited : List (Text × Value)
edited = (codes "edit", object (field (codes "group") (string (codes "g")) end)) ∷ []

abbrev circle : List Agent
circle =
    session (codes "a") (some (codes "b")) [] ∷ session (codes "b") (some (codes "a")) edited ∷ []

abbrev one : Agent
one = session (codes "a") (some (codes "b")) []

one-listed : session_by_id one.id circle ≡ some one
unfolding session_by_id text_eq
one-listed = refl

session_group-resolved_example :
    (o : Option Text) × (Grouping.session_group circle one ≡ some (or_floor (codes "a") o))
    × Answers circle (some one) o
session_group-resolved_example = session_group-resolved circle one one-listed

-- Another session that is a child of `b`, with a group of its own that `tx group` has set.
abbrev set_apart : Agent
set_apart =
    session (codes "c") (some (codes "b"))
      ((codes "artifacts", object (field (codes "group") (string (codes "h")) end)) ∷ [])

session_group-same_example :
    session_group (rounds_for circle) circle set_apart
    ≡ Grouping.session_group (map without_artifacts circle) (without_artifacts set_apart)
session_group-same_example = session_group-same circle set_apart

abbrev plan : Artifact
plan =
    new_artifact (codes "i") (document (codes "plan.md")) none (codes "plan.md") 7 none
      (codes "user")

record_touch-counts_example :
    (b : Artifact) × (record_touch (codes "s") 9 none plan ≡ some (1, b))
    × CountsFrom 0 b.history
    × (length b.history ≡ 2)
record_touch-counts_example =
    record_touch-counts 0 plan (codes "s") 9 none
      (made (codes "i") (document (codes "plan.md")) none (codes "plan.md") 7 none (codes "user"))
