-- ===== src/Artifacts/Grouping/Walk.antt =====
-- The loop up the parents of a session: `ancestor_override` against the chain of parents.
use tx_ide_rs.Prelude.{
  ℕ, zero, suc, ◌<◌, ◌≤◌, ◌≡◌, refl, sym, ap, ◌∙◌, ◌⊎◌, Bool, true, false, List, [], ◌∷◌, Option,
  none, some, Text, text_eq, text_eq_iff, text_eq_refl, contains, if◌then◌else◌, length, arith,
  Bool-cases, Option-cases, inl, inr,
}
use mathlib.Core.Path.{subst}
use tx_ide_rs.Agent.{Agent}
use tx_ide_rs.Artifacts.Grouping.{
  own_group, is_hub, session_by_id, parent_of, or_else, by_own, ancestor_override,
}

-- The sessions whose id has not been visited.
pub fresh : List Text → List Agent → ℕ
fresh visited [] = 0
fresh visited (a ∷ sessions) =
    let rest = fresh visited sessions in if contains visited a.id then rest else suc rest

pub fresh-le :
    (visited : List Text) (sessions : List Agent) → fresh visited sessions ≤ length sessions
unfolding fresh
fresh-le visited [] = omega arith
fresh-le visited (a ∷ sessions) = ground (arith, fresh-le visited sessions)

fresh-cons-le :
    (id : Text) (visited : List Text) (sessions : List Agent)
    → fresh (id ∷ visited) sessions ≤ fresh visited sessions
unfolding fresh contains
fresh-cons-le id visited [] = omega arith
fresh-cons-le id visited (a ∷ sessions) = ground (arith, fresh-cons-le id visited sessions)

or_else-cases :
    {A : Type 0} (o p : Option A) (a : A) → or_else o p ≡ some a → (o ≡ some a) ⊎ (p ≡ some a)
or_else-cases (some b) p a e = inl e
or_else-cases none p a e = inr e

if-some :
    {A : Type 0} (t : Bool) (b a : A) → (if t then some b else none) ≡ some a → (t ≡ true) × (b ≡ a)
if-some true b a e = (refl, cc)
if-some false b a e = cc

session_by_id-id :
    (id : Text) (sessions : List Agent) (a : Agent) → session_by_id id sessions ≡ some a → a.id ≡ id
unfolding session_by_id
session_by_id-id id [] a e = cc
session_by_id-id id (b ∷ sessions) a e = elim (or_else-cases (session_by_id id sessions) _ a e) [
  | inl later ↦ session_by_id-id id sessions a later
  | inr here ↦
      let same = if-some (text_eq b.id id) b a here in
      ap (λ (x : Agent). x.id) (sym same.1) ∙ (text_eq_iff b.id id).0 same.0
]

-- The sessions that are found by their own id.
unfoldable pub Listed : List Agent → Option Agent → Type 0
Listed sessions none = Unit
Listed sessions (some a) = session_by_id a.id sessions ≡ some a

pub parent_of-Listed :
    (sessions : List Agent) (id : Option Text) → Listed sessions (parent_of sessions id)
unfolding parent_of Listed
parent_of-Listed sessions none = tt
parent_of-Listed sessions (some id) = elim (Option-cases (session_by_id id sessions)) [
  | inl missing ↦ subst (Listed sessions) (sym missing) tt
  | inr (a, found) ↦
      subst (Listed sessions) (sym found)
        (ap (λ (i : Text). session_by_id i sessions) (session_by_id-id id sessions a found) ∙ found)
]

fresh-tail :
    (id : Text) (visited : List Text) (b : Agent) (sessions : List Agent)
    → fresh (id ∷ visited) sessions < fresh visited sessions
    → fresh (id ∷ visited) (b ∷ sessions) < fresh visited (b ∷ sessions)
unfolding fresh contains
fresh-tail id visited b sessions h = ground arith

fresh-head :
    (visited : List Text) (b : Agent) (sessions : List Agent)
    → contains visited b.id ≡ false
    → fresh (b.id ∷ visited) (b ∷ sessions) < fresh visited (b ∷ sessions)
unfolding fresh contains
fresh-head visited b sessions new =
    ground (arith, text_eq_refl b.id, fresh-cons-le b.id visited sessions)

-- To visit a listed session leaves fewer.
fresh-visit :
    (id : Text) (visited : List Text) (sessions : List Agent) (a : Agent)
    → session_by_id id sessions ≡ some a
    → contains visited a.id ≡ false
    → fresh (a.id ∷ visited) sessions < fresh visited sessions
unfolding session_by_id
fresh-visit id visited [] a e new = cc
fresh-visit id visited (b ∷ sessions) a e new =
    elim (or_else-cases (session_by_id id sessions) _ a e) [
      | inl later ↦ fresh-tail a.id visited b sessions (fresh-visit id visited sessions a later new)
      | inr here ↦ at_head ((if-some (text_eq b.id id) b a here).1)
    ]
  where
    at_head : b ≡ a → fresh (a.id ∷ visited) (b ∷ sessions) < fresh visited (b ∷ sessions)
    at_head same =
        subst (λ (x : Agent). fresh (x.id ∷ visited) (b ∷ sessions) < fresh visited (b ∷ sessions))
          same
          (fresh-head visited b sessions (ap (λ (x : Agent). contains visited x.id) same ∙ new))

-- `n` parents further up stands the first override of the chain that a hub does not cut.
pub LeadsIn : List Agent → ℕ → Option Agent → Text → Type 0
LeadsIn sessions n none group = ⊥
LeadsIn sessions zero (some a) group = own_group a ≡ some group
LeadsIn sessions (suc n) (some a) group =
    (own_group a ≡ none)
    × (is_hub a ≡ false)
    × LeadsIn sessions n (parent_of sessions a.parent_id) group

-- What the walk from a session answers: the first override, or that there is none.
pub Answers : List Agent → Option Agent → Option Text → Type 0
Answers sessions ancestor (some group) = (n : ℕ) × LeadsIn sessions n ancestor group
Answers sessions ancestor none = (n : ℕ) (group : Text) → LeadsIn sessions n ancestor group → ⊥

module _ (sessions : List Agent) where
  -- From a visited session the chain comes to the ancestor first.
  unfoldable pub Closed : List Text → Option Agent → Type 0
  Closed visited ancestor =
      (a : Agent)
      → contains visited a.id ≡ true
      → session_by_id a.id sessions ≡ some a
      → (k : ℕ) (group : Text) → LeadsIn sessions k (some a) group
      → (j : ℕ) × (j < k) × LeadsIn sessions j ancestor group

  peel :
      (k : ℕ) (a : Agent) (group : Text)
      → own_group a ≡ none
      → LeadsIn sessions k (some a) group
      → (j : ℕ) × (suc j ≡ k) × LeadsIn sessions j (parent_of sessions a.parent_id) group
  unfolding LeadsIn
  peel zero a group none_ leads = cc
  peel (suc k) a group none_ (e, hub, leads) = (k, refl, leads)

  descend :
      (a : Option Agent)
      → ((k : ℕ) (group : Text)
          → LeadsIn sessions k a group
          → (j : ℕ) × (j < k) × LeadsIn sessions j a group)
      → (bound k : ℕ) (group : Text) → k < bound
      → LeadsIn sessions k a group
      → ⊥
  descend a down zero k group h leads = omega arith
  descend a down (suc bound) k group h leads =
      let less = down k group leads in
      descend a down bound less.0 group (omega (arith, less.1)) less.2

  pub visit-Closed :
      (visited : List Text) (a : Agent)
      → Listed sessions (some a)
      → own_group a ≡ none
      → Closed visited (some a)
      → Closed (a.id ∷ visited) (parent_of sessions a.parent_id)
  unfolding Closed contains Listed
  visit-Closed visited a listed none_ closed x seen found k group leads =
      elim (Bool-cases (text_eq a.id x.id)) [
        | inl same ↦
            let e : Option.some a ≡ some x =
              sym listed
              ∙ ap (λ (i : Text). session_by_id i sessions) ((text_eq_iff a.id x.id).0 same)
              ∙ found in
            let up = peel k a group none_ (subst (λ o. LeadsIn sessions k o group) (sym e) leads) in
            (up.0, omega (arith, up.1), up.2)
        | inr other ↦
            let earlier : contains visited x.id ≡ true =
              subst (λ (t : Bool). (if t then true else contains visited x.id) ≡ true) other seen in
            let on = closed x earlier found k group leads in
            let up = peel on.0 a group none_ on.2 in (up.0, omega (arith, up.1, on.1), up.2)
      ]

  own-Answers :
      (a : Agent) (group : Text) → own_group a ≡ some group → Answers sessions (some a) (some group)
  unfolding Answers LeadsIn
  own-Answers a group e = (0, e)

  hub-Answers : (a : Agent) → own_group a ≡ none → is_hub a ≡ true → Answers sessions (some a) none
  unfolding Answers LeadsIn
  hub-Answers a none_ hub zero group leads = cc
  hub-Answers a none_ hub (suc n) group (e, not_hub, leads) = cc

  up-Answers :
      (a : Agent) (r : Option Text)
      → own_group a ≡ none
      → is_hub a ≡ false
      → Answers sessions (parent_of sessions a.parent_id) r
      → Answers sessions (some a) r
  unfolding Answers LeadsIn
  up-Answers a (some group) none_ hub leads = (suc leads.0, (none_, hub, leads.1))
  up-Answers a none none_ hub ans =
      λ n group leads. let up = peel n a group none_ leads in ans up.0 group up.2

  seen-Answers :
      (visited : List Text) (a : Agent)
      → contains visited a.id ≡ true
      → Listed sessions (some a)
      → Closed visited (some a)
      → Answers sessions (some a) none
  unfolding Answers Closed Listed
  seen-Answers visited a seen listed closed n group leads =
      descend (some a) (closed a seen listed) (suc n) n group (omega arith) leads

  walk-some :
      (rounds : ℕ) (a : Agent) (visited : List Text)
      → ancestor_override (suc rounds) sessions (some a) visited ≡ (
          if contains visited a.id
          then some none
          else by_own
              (ancestor_override rounds sessions (parent_of sessions a.parent_id) (a.id ∷ visited))
              (is_hub a)
              (own_group a))
  unfolding ancestor_override
  walk-some rounds a visited = refl

  -- The walk ends with this answer, which is right.
  unfoldable pub Walks : Option Agent → Option (Option Text) → Type 0
  Walks ancestor walked = (r : Option Text) × (walked ≡ some r) × Answers sessions ancestor r

  pub own-Walks :
      (a : Agent) (further : Option (Option Text))
      → (own_group a ≡ none → is_hub a ≡ false → Walks (parent_of sessions a.parent_id) further)
      → Walks (some a) (by_own further (is_hub a) (own_group a))
  unfolding Walks
  own-Walks a further goes = elim (Option-cases (own_group a)) [
    | inr (group, own) ↦ rw own (some group, refl, own-Answers a group own)
    | inl none_ ↦ elim (Bool-cases (is_hub a)) [
      | inl hub ↦ rw none_ (rw hub (none, refl, hub-Answers a none_ hub))
      | inr not_hub ↦
          let up = goes none_ not_hub in
          rw none_ (rw not_hub (up.0, up.1, up-Answers a up.0 none_ not_hub up.2))
    ]
  ]

  none-Walks :
      (rounds : ℕ) (visited : List Text)
      → Walks none (ancestor_override (suc rounds) sessions none visited)
  unfolding Walks ancestor_override Answers LeadsIn
  none-Walks rounds visited = (none, refl, λ n group leads. leads)

  fresh-Listed :
      (a : Agent) (visited : List Text)
      → Listed sessions (some a)
      → contains visited a.id ≡ false
      → fresh (a.id ∷ visited) sessions < fresh visited sessions
  unfolding Listed
  fresh-Listed a visited listed new = fresh-visit a.id visited sessions a listed new

  -- Enough rounds end the walk, with the first override of the chain, or with none when the chain
  -- has none.
  pub ancestor_override-Walks :
      (rounds : ℕ) (ancestor : Option Agent) (visited : List Text)
      → Listed sessions ancestor
      → Closed visited ancestor
      → fresh visited sessions < rounds
      → Walks ancestor (ancestor_override rounds sessions ancestor visited)
  unfolding Walks
  ancestor_override-Walks zero ancestor visited listed closed h = absurd (omega arith)
  ancestor_override-Walks (suc rounds) none visited listed closed h = none-Walks rounds visited
  ancestor_override-Walks (suc rounds) (some a) visited listed closed h =
      rw (walk-some rounds a visited) (elim (Bool-cases (contains visited a.id)) [
        | inl seen ↦ rw seen (none, refl, seen-Answers visited a seen listed closed)
        | inr new ↦ rw new (
            own-Walks a _ λ none_ hub.
              ancestor_override-Walks rounds (parent_of sessions a.parent_id) (a.id ∷ visited)
                (parent_of-Listed sessions a.parent_id) (visit-Closed visited a listed none_ closed)
                (omega (arith, fresh-Listed a visited listed new)))
      ])
