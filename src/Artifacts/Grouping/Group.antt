-- ===== src/Artifacts/Grouping/Group.antt =====
-- The group of a session: always found, and the one that the chain of its parents gives.
use tx_ide_rs.Prelude.{◌≡◌, refl, ap, List, [], ◌∷◌, Option, some, Text, contains, arith}
use tx_ide_rs.Agent.{Agent}
use tx_ide_rs.Artifacts.Grouping.{
  own_group, is_hub, session_by_id, parent_of, by_own, ancestor_override, rounds_for, first_of,
  or_floor, or_floor_of, session_override, session_group,
}
use tx_ide_rs.Artifacts.Grouping.Walk.{
  fresh-le, Listed, parent_of-Listed, Answers, Closed, visit-Closed, Walks, own-Walks,
  ancestor_override-Walks,
}

module _ (sessions : List Agent) where
  override-some :
      (a : Agent)
      → session_override sessions a
        ≡ by_own
            (ancestor_override
              (rounds_for sessions)
              sessions
              (parent_of sessions a.parent_id)
              (a.id ∷ []))
            (is_hub a)
            (own_group a)
  unfolding session_override
  override-some a = refl

  nothing-Closed : (ancestor : Option Agent) → Closed sessions [] ancestor
  unfolding Closed contains
  nothing-Closed ancestor a seen = cc

  pub session_override-Walks :
      (a : Agent)
      → session_by_id a.id sessions ≡ some a
      → Walks sessions (some a) (session_override sessions a)
  unfolding Listed
  session_override-Walks a listed = rw (override-some a) (
      own-Walks sessions a _ λ none_ hub.
        ancestor_override-Walks sessions (rounds_for sessions) (parent_of sessions a.parent_id)
          (a.id ∷ []) (parent_of-Listed sessions a.parent_id)
          (visit-Closed sessions [] a listed none_ (nothing-Closed (some a)))
          (omega (arith, fresh-le (a.id ∷ []) sessions)))

  -- The group of a listed session is always found. It is the first override on the chain of its
  -- parents that no hub cuts, where the chain has one, also when the parents run in a circle; or
  -- else it is the first tag of the session, or its name.
  pub session_group-resolved :
      (a : Agent)
      → session_by_id a.id sessions ≡ some a
      → (o : Option Text) × (session_group sessions a ≡ some (or_floor (first_of a.name a.tags) o))
        × Answers sessions (some a) o
  unfolding session_group Walks
  session_group-resolved a listed =
      let walk = session_override-Walks a listed in
      (walk.0, ap (or_floor_of (first_of a.name a.tags)) walk.1, walk.2)
