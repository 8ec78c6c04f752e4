-- ===== src/Timeline/Copy.antt =====
-- The copy of the cascade agrees with the one of the artifacts plugin, where the data of that plugin
-- holds no group.
use tx_ide_rs.Prelude.{
  ℕ, zero, suc, ◌≡◌, refl, sym, ap, ◌∙◌, Bool, true, false, List, [], ◌∷◌, Option, none, some, Text,
  text_eq, contains, if◌then◌else◌, All,
}
use tx_ide_rs.Json.{Value, string}
use tx_ide_rs.Agent.{Agent, ext_get}
use tx_ide_rs.Artifacts.Grouping.{
  artifacts_plugin, edit_plugin, non_empty, group_in, own_group, is_hub, session_by_id, parent_of,
  ancestor_override, rounds_for, by_own, first_of, or_else, or_floor_of,
}
use tx_ide_rs.Artifacts.Grouping
use tx_ide_rs.Timeline.{
  text_in, group_member, group_override, stops_walk, ancestor_of, walk, by_override, floor_of,
  or_floor, group_of, session_group,
}

-- The two readers of the override agree on the record.
unfoldable HasOneOverride : Agent → Type 0
HasOneOverride a = own_group a ≡ group_override a

-- No group that `tx group` has set stands in the record: the artifacts plugin's data has none.
abbrev pub HasNoTxGroup : Agent → Type 0
HasNoTxGroup a = non_empty (group_in (ext_get artifacts_plugin a.ext)) ≡ none

text_in-non_empty : (o : Option Value) → text_in o ≡ non_empty o
text_in-non_empty (some (string (c ∷ group))) = refl
text_in-non_empty _ = refl

group_member-group_in : (o : Option Value) → group_member o ≡ group_in o
group_member-group_in none = refl
group_member-group_in (some v) = refl

or_else-none : (o p : Option Text) → p ≡ none → or_else o p ≡ o
or_else-none none p h = h
or_else-none (some t) p h = refl

HasNoTxGroup-HasOneOverride : (a : Agent) → HasNoTxGroup a → HasOneOverride a
unfolding HasOneOverride own_group group_override
HasNoTxGroup-HasOneOverride a h =
    let edit = ext_get edit_plugin a.ext in
    or_else-none (non_empty (group_in edit)) _ h
    ∙ sym (text_in-non_empty (group_in edit))
    ∙ ap text_in (sym (group_member-group_in edit))

All-HasOneOverride :
    (sessions : List Agent) → All HasNoTxGroup sessions → All HasOneOverride sessions
All-HasOneOverride [] h = tt
All-HasOneOverride (a ∷ sessions) h =
    (HasNoTxGroup-HasOneOverride a h.0, All-HasOneOverride sessions h.1)

stops_walk-is_hub : (a : Agent) → stops_walk a ≡ is_hub a
unfolding stops_walk is_hub
stops_walk-is_hub a = refl

ancestor_of-parent_of :
    (sessions : List Agent) (id : Option Text) → ancestor_of sessions id ≡ parent_of sessions id
unfolding parent_of
ancestor_of-parent_of sessions none = refl
ancestor_of-parent_of sessions (some id) = refl

by_override-by_own :
    (further : Option (Option Text)) (hub : Bool) (o : Option Text)
    → by_override further hub o ≡ by_own further hub o
by_override-by_own further hub (some group) = refl
by_override-by_own further true none = refl
by_override-by_own further false none = refl

-- So is it for the session, if there is one.
OneIn : Option Agent → Type 0
OneIn none = Unit
OneIn (some a) = HasOneOverride a

or_else-OneIn : (o p : Option Agent) → OneIn o → OneIn p → OneIn (or_else o p)
or_else-OneIn (some a) p h h' = h
or_else-OneIn none p h h' = h'

none-OneIn : OneIn none
unfolding OneIn
none-OneIn = tt

HasOneOverride-same : (a : Agent) → HasOneOverride a → own_group a ≡ group_override a
unfolding HasOneOverride
HasOneOverride-same a h = h

some-OneIn : (a : Agent) → OneIn (some a) → own_group a ≡ group_override a
unfolding OneIn HasOneOverride
some-OneIn a h = h

if-OneIn : (t : Bool) (a : Agent) → HasOneOverride a → OneIn (if t then some a else none)
unfolding OneIn
if-OneIn true a h = h
if-OneIn false a h = tt

session_by_id-OneIn :
    (id : Text) (sessions : List Agent)
    → All HasOneOverride sessions
    → OneIn (session_by_id id sessions)
unfolding session_by_id
session_by_id-OneIn id [] all_one = none-OneIn
session_by_id-OneIn id (a ∷ sessions) all_one =
    or_else-OneIn (session_by_id id sessions) _ (session_by_id-OneIn id sessions all_one.1)
      (if-OneIn (text_eq a.id id) a all_one.0)

parent_of-OneIn :
    (id : Option Text) (sessions : List Agent)
    → All HasOneOverride sessions
    → OneIn (parent_of sessions id)
unfolding parent_of
parent_of-OneIn none sessions all_one = none-OneIn
parent_of-OneIn (some id) sessions all_one = session_by_id-OneIn id sessions all_one

walk-some :
    (rounds : ℕ) (sessions : List Agent) (a : Agent) (visited : List Text)
    → walk (suc rounds) sessions (some a) visited ≡ (
        if contains visited a.id
        then some none
        else by_override
            (walk rounds sessions (ancestor_of sessions a.parent_id) (a.id ∷ visited))
            (stops_walk a)
            (group_override a))
unfolding walk
walk-some rounds sessions a visited = refl

ancestor_override-some :
    (rounds : ℕ) (sessions : List Agent) (a : Agent) (visited : List Text)
    → ancestor_override (suc rounds) sessions (some a) visited ≡ (
        if contains visited a.id
        then some none
        else by_own
            (ancestor_override rounds sessions (parent_of sessions a.parent_id) (a.id ∷ visited))
            (is_hub a)
            (own_group a))
unfolding ancestor_override
ancestor_override-some rounds sessions a visited = refl

walk-zero :
    (sessions : List Agent) (ancestor : Option Agent) (visited : List Text)
    → walk 0 sessions ancestor visited ≡ ancestor_override 0 sessions ancestor visited
unfolding walk ancestor_override
walk-zero sessions ancestor visited = refl

walk-none :
    (rounds : ℕ) (sessions : List Agent) (visited : List Text)
    → walk (suc rounds) sessions none visited ≡ ancestor_override (suc rounds) sessions none visited
unfolding walk ancestor_override
walk-none rounds sessions visited = refl

walk-ancestor_override :
    (rounds : ℕ) (sessions : List Agent) (ancestor : Option Agent) (visited : List Text)
    → All HasOneOverride sessions
    → OneIn ancestor
    → walk rounds sessions ancestor visited ≡ ancestor_override rounds sessions ancestor visited
walk-ancestor_override zero sessions ancestor visited all_one one =
    walk-zero sessions ancestor visited
walk-ancestor_override (suc rounds) sessions none visited all_one one =
    walk-none rounds sessions visited
walk-ancestor_override (suc rounds) sessions (some a) visited all_one one =
    let further =
      ap (λ (o : Option Agent). walk rounds sessions o (a.id ∷ visited))
        (ancestor_of-parent_of sessions a.parent_id)
      ∙ walk-ancestor_override rounds sessions (parent_of sessions a.parent_id) (a.id ∷ visited)
          all_one (parent_of-OneIn a.parent_id sessions all_one) in
    let same : group_override a ≡ own_group a = sym (some-OneIn a one) in
    walk-some rounds sessions a visited
    ∙ ap (λ x. if contains visited a.id then some none else x)
        (ap (λ f. by_override f (stops_walk a) (group_override a)) further
          ∙ ap
              (λ o.
                by_override
                  (ancestor_override rounds sessions (parent_of sessions a.parent_id)
                    (a.id ∷ visited))
                  (stops_walk a) o)
              same
          ∙ by_override-by_own _ (stops_walk a) (own_group a)
          ∙ ap
              (λ t.
                by_own
                  (ancestor_override rounds sessions (parent_of sessions a.parent_id)
                    (a.id ∷ visited))
                  t (own_group a))
              (stops_walk-is_hub a))
    ∙ sym (ancestor_override-some rounds sessions a visited)

floor_of-first_of : (a : Agent) (tags : List Text) → floor_of a tags ≡ first_of a.name tags
floor_of-first_of a [] = refl
floor_of-first_of a (tag ∷ tags) = refl

or_floor-or_floor_of :
    (a : Agent) (walked : Option (Option Text))
    → or_floor a walked ≡ or_floor_of (first_of a.name a.tags) walked
or_floor-or_floor_of a none = refl
or_floor-or_floor_of a (some none) = ap (λ (t : Text). some t) (floor_of-first_of a a.tags)
or_floor-or_floor_of a (some (some group)) = refl

group_of-by_own :
    (a : Agent) (o : Option Text) (hub : Bool) (walked : Option (Option Text))
    → group_of o (if hub then some (floor_of a a.tags) else or_floor a walked)
      ≡ or_floor_of (first_of a.name a.tags) (by_own walked hub o)
group_of-by_own a (some group) hub walked = refl
group_of-by_own a none true walked = ap (λ (t : Text). some t) (floor_of-first_of a a.tags)
group_of-by_own a none false walked = or_floor-or_floor_of a walked

session_group-resolver :
    (sessions : List Agent) (a : Agent)
    → Grouping.session_group sessions a
      ≡ or_floor_of (first_of a.name a.tags) (
          by_own
            (ancestor_override
              (rounds_for sessions)
              sessions
              (parent_of sessions a.parent_id)
              (a.id ∷ []))
            (is_hub a)
            (own_group a))
unfolding Grouping.session_group
session_group-resolver sessions a = refl

session_group-copy :
    (rounds : ℕ) (sessions : List Agent) (a : Agent)
    → session_group rounds sessions a
      ≡ group_of (group_override a) (
          if stops_walk a
          then some (floor_of a a.tags)
          else or_floor a (walk rounds sessions (ancestor_of sessions a.parent_id) (a.id ∷ [])))
unfolding session_group
session_group-copy rounds sessions a = refl

same_overrides-session_group :
    (sessions : List Agent) (a : Agent)
    → All HasOneOverride sessions
    → HasOneOverride a
    → session_group (rounds_for sessions) sessions a ≡ Grouping.session_group sessions a
same_overrides-session_group sessions a all_one one =
    let rounds = rounds_for sessions in
    let walked = ancestor_override rounds sessions (parent_of sessions a.parent_id) (a.id ∷ []) in
    let walks =
      ap (λ (o : Option Agent). walk rounds sessions o (a.id ∷ []))
        (ancestor_of-parent_of sessions a.parent_id)
      ∙ walk-ancestor_override rounds sessions (parent_of sessions a.parent_id) (a.id ∷ []) all_one
          (parent_of-OneIn a.parent_id sessions all_one) in
    let same : group_override a ≡ own_group a = sym (HasOneOverride-same a one) in
    session_group-copy rounds sessions a
    ∙ ap
        (λ w.
          group_of (group_override a)
            (if stops_walk a then some (floor_of a a.tags) else or_floor a w))
        walks
    ∙ group_of-by_own a (group_override a) (stops_walk a) walked
    ∙ ap (λ o. or_floor_of (first_of a.name a.tags) (by_own walked (stops_walk a) o)) same
    ∙ ap (λ t. or_floor_of (first_of a.name a.tags) (by_own walked t (own_group a)))
        (stops_walk-is_hub a)
    ∙ sym (session_group-resolver sessions a)

pub no_tx_group-session_group :
    (sessions : List Agent) (a : Agent)
    → All HasNoTxGroup sessions
    → HasNoTxGroup a
    → session_group (rounds_for sessions) sessions a ≡ Grouping.session_group sessions a
no_tx_group-session_group sessions a none_set not_set =
    same_overrides-session_group sessions a (All-HasOneOverride sessions none_set)
      (HasNoTxGroup-HasOneOverride a not_set)
