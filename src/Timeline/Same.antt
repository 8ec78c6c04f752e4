-- ===== src/Timeline/Same.antt =====
-- What the timeline's copy of the cascade leaves out: the groups in the artifacts plugin's own data,
-- which `tx group` sets.
use mathlib.Core.List.{map}
use tx_ide_rs.Prelude.{
  ℕ, zero, suc, ◌≡◌, refl, sym, ap, ◌∙◌, Bool, true, false, List, [], ◌∷◌, Option, none, some,
  arith, Text, codes, text_eq, text_eq_refl, contains, if◌then◌else◌, All, length,
}
use tx_ide_rs.Agent.{Agent, ext_get, ext_remove}
use tx_ide_rs.Agent.Names.{ext_get-ext_remove}
use tx_ide_rs.Artifacts.Grouping.{
  artifacts_plugin, non_empty, group_in, or_else, session_by_id, rounds_for,
}
use tx_ide_rs.Artifacts.Grouping
use tx_ide_rs.Timeline.{
  text_in, group_member, group_override, stops_walk, ancestor_of, walk, by_override, floor_of,
  or_floor, group_of, session_group,
}
use tx_ide_rs.Timeline.Copy.{HasNoTxGroup, no_tx_group-session_group}

-- The session without the data of the artifacts plugin.
abbrev pub without_artifacts : Agent → Agent
without_artifacts a = record a { ext = ext_remove artifacts_plugin a.ext }

without_artifacts-HasNoTxGroup : (a : Agent) → HasNoTxGroup (without_artifacts a)
without_artifacts-HasNoTxGroup a =
    ap (λ o. non_empty (group_in o)) (removed (text_eq artifacts_plugin artifacts_plugin) refl)
  where
    removed :
        (t : Bool)
        → text_eq artifacts_plugin artifacts_plugin ≡ t
        → ext_get artifacts_plugin (without_artifacts a).ext ≡ none
    removed true e =
        ext_get-ext_remove artifacts_plugin artifacts_plugin a.ext
        ∙ ap (λ t. if t then none else ext_get artifacts_plugin a.ext) e
    removed false e = absurd (ground (arith, e, text_eq_refl artifacts_plugin))

without_artifacts-All : (sessions : List Agent) → All HasNoTxGroup (map without_artifacts sessions)
without_artifacts-All [] = tt
without_artifacts-All (a ∷ sessions) =
    (without_artifacts-HasNoTxGroup a, without_artifacts-All sessions)

other_plugin : text_eq artifacts_plugin (codes "edit") ≡ false
unfolding text_eq
other_plugin = refl

group_override-without_artifacts :
    (a : Agent) → group_override (without_artifacts a) ≡ group_override a
unfolding group_override
group_override-without_artifacts a =
    ap (λ o. text_in (group_member o))
      (ext_get-ext_remove artifacts_plugin (codes "edit") a.ext
        ∙ ap (λ t. if t then none else ext_get (codes "edit") a.ext) other_plugin)

stops_walk-without_artifacts : (a : Agent) → stops_walk (without_artifacts a) ≡ stops_walk a
unfolding stops_walk
stops_walk-without_artifacts a = refl

map_option : (Agent → Agent) → Option Agent → Option Agent
map_option f none = none
map_option f (some a) = some (f a)

or_else-without_artifacts :
    (o p : Option Agent)
    → or_else (map_option without_artifacts o) (map_option without_artifacts p)
      ≡ map_option without_artifacts (or_else o p)
unfolding map_option
or_else-without_artifacts none p = refl
or_else-without_artifacts (some a) p = refl

if-without_artifacts :
    (t : Bool) (a : Agent)
    → ◌≡◌ {A = Option Agent}
        (if t then some (without_artifacts a) else none)
        (map_option without_artifacts (if t then some a else none))
unfolding map_option
if-without_artifacts true a = refl
if-without_artifacts false a = refl

session_by_id-without_artifacts :
    (id : Text) (sessions : List Agent)
    → session_by_id id (map without_artifacts sessions)
      ≡ map_option without_artifacts (session_by_id id sessions)
unfolding session_by_id map_option
session_by_id-without_artifacts id [] = refl
session_by_id-without_artifacts id (a ∷ sessions) =
    ap (λ o. or_else o (if text_eq a.id id then some (without_artifacts a) else none))
      (session_by_id-without_artifacts id sessions)
    ∙ ap (λ o. or_else (map_option without_artifacts (session_by_id id sessions)) o)
        (if-without_artifacts (text_eq a.id id) a)
    ∙ or_else-without_artifacts (session_by_id id sessions)
        (if text_eq a.id id then some a else none)

ancestor_of-without_artifacts :
    (sessions : List Agent) (id : Option Text)
    → ancestor_of (map without_artifacts sessions) id
      ≡ map_option without_artifacts (ancestor_of sessions id)
unfolding map_option
ancestor_of-without_artifacts sessions none = refl
ancestor_of-without_artifacts sessions (some id) = session_by_id-without_artifacts id sessions

walk-without_artifacts :
    (rounds : ℕ) (sessions : List Agent) (o : Option Agent) (visited : List Text)
    → walk rounds (map without_artifacts sessions) (map_option without_artifacts o) visited
      ≡ walk rounds sessions o visited
unfolding walk map_option
walk-without_artifacts zero sessions o visited = refl
walk-without_artifacts (suc rounds) sessions none visited = refl
walk-without_artifacts (suc rounds) sessions (some a) visited =
    let rest = walk rounds sessions (ancestor_of sessions a.parent_id) (a.id ∷ visited) in
    let further =
      ap (λ p. walk rounds (map without_artifacts sessions) p (a.id ∷ visited))
        (ancestor_of-without_artifacts sessions a.parent_id)
      ∙ walk-without_artifacts rounds sessions (ancestor_of sessions a.parent_id)
          (a.id ∷ visited) in
    ap (λ x. if contains visited a.id then some none else x)
      (ap
          (λ f.
            by_override f (stops_walk (without_artifacts a)) (group_override (without_artifacts a)))
          further
        ∙ ap (λ t. by_override rest t (group_override (without_artifacts a)))
            (stops_walk-without_artifacts a)
        ∙ ap (λ g. by_override rest (stops_walk a) g) (group_override-without_artifacts a))

length-without_artifacts :
    (sessions : List Agent) → length (map without_artifacts sessions) ≡ length sessions
length-without_artifacts [] = refl
length-without_artifacts (a ∷ sessions) = ap suc (length-without_artifacts sessions)

session_group-without_artifacts :
    (rounds : ℕ) (sessions : List Agent) (a : Agent)
    → session_group rounds (map without_artifacts sessions) (without_artifacts a)
      ≡ session_group rounds sessions a
unfolding session_group
session_group-without_artifacts rounds sessions a =
    let walked =
      ap (λ p. walk rounds (map without_artifacts sessions) p (a.id ∷ []))
        (ancestor_of-without_artifacts sessions a.parent_id)
      ∙ walk-without_artifacts rounds sessions (ancestor_of sessions a.parent_id) (a.id ∷ []) in
    ap
      (λ g. group_of g (
        if stops_walk (without_artifacts a)
        then some (floor_of a a.tags)
        else or_floor a (
            walk rounds (map without_artifacts sessions)
              (ancestor_of (map without_artifacts sessions) a.parent_id) (a.id ∷ []))))
      (group_override-without_artifacts a)
    ∙ ap
        (λ t. group_of (group_override a) (
          if t
          then some (floor_of a a.tags)
          else or_floor a (
              walk rounds (map without_artifacts sessions)
                (ancestor_of (map without_artifacts sessions) a.parent_id) (a.id ∷ []))))
        (stops_walk-without_artifacts a)
    ∙ ap
        (λ w.
          group_of (group_override a)
            (if stops_walk a then some (floor_of a a.tags) else or_floor a w))
        walked

-- The timeline puts a session into the group that the artifacts plugin would put it into if the data
-- of that plugin, where `tx group` keeps a group, were taken out of every session; the walk up the
-- parents, cycles and hubs included, and what stands below it are the same.
pub session_group-same :
    (sessions : List Agent) (a : Agent)
    → session_group (rounds_for sessions) sessions a
      ≡ Grouping.session_group (map without_artifacts sessions) (without_artifacts a)
session_group-same sessions a =
    sym (session_group-without_artifacts (rounds_for sessions) sessions a)
    ∙ ap (λ n. session_group (suc (suc n)) (map without_artifacts sessions) (without_artifacts a))
        (sym (length-without_artifacts sessions))
    ∙ no_tx_group-session_group (map without_artifacts sessions) (without_artifacts a)
        (without_artifacts-All sessions) (without_artifacts-HasNoTxGroup a)
