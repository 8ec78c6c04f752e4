-- ===== src/Core/Read/Resolve.antt =====
-- Which record `resolve` of tx-core/src/core.rs finds.
use mathlib.Core.Path.{subst}
use tx_ide_rs.Prelude.{
  ◌≡◌, refl, sym, ap, ◌∙◌, ◌⊎◌, inl, inr, Bool, true, false, List, [], ◌∷◌, Option, none, some,
  arith, Text, text_eq, text_eq_iff, find, filter, if◌then◌else◌, Bool-cases,
}
use tx_ide_rs.Agent.{Agent, AgentId, parse_id, max_id_bytes}
use tx_ide_rs.Agent.Names.{SafeFragment, parse_id_iff}
use tx_ide_rs.Result.{Res, ok, err, StoreError, CoreError, store_error, not_found}
use tx_ide_rs.Store.{Dir, load, all}
use tx_ide_rs.Store.Scan.{Member, here, there, Distinct, load-all, all-Member}
use tx_ide_rs.Core.World.{
  TxCore, World, M, bind_result, map_error, ◌>>=◌, pure, from_option, all_agents,
}
use tx_ide_rs.Core.Refine.{bind-ok}
use tx_ide_rs.Core.Refine.Names.{all_agents-ok}
use tx_ide_rs.Core.Read.{is_running, last, pick, resolve, resolve_name, record_of_id}

find-some :
    (p : Agent → Bool) (xs : List Agent) (a : Agent)
    → find p xs ≡ some a
    → Member a xs × (p a ≡ true)
find-some p [] a h = cc
find-some p (x ∷ xs) a h = elim (Bool-cases (p x)) [
  | inl holds_it ↦
      let found : some x ≡ some a = rw holds_it at h in
      let same : x ≡ a = cc in (here (sym same), rw (← same) holds_it)
  | inr fails ↦ let (m, t) = find-some p xs a (rw fails at h) in (there m, t)
]

find-none :
    (p : Agent → Bool) (xs : List Agent) (a : Agent) → find p xs ≡ none → Member a xs → p a ≡ false
find-none p [] a h m = elim m [ ]
find-none p (x ∷ xs) a h (here e) = elim (Bool-cases (p x)) [
  | inl holds_it ↦ absurd (ground arith)
  | inr fails ↦ rw e fails
]
find-none p (x ∷ xs) a h (there m) = elim (Bool-cases (p x)) [
  | inl holds_it ↦ absurd (ground arith)
  | inr fails ↦ find-none p xs a (rw fails at h) m
]

last-Member : (xs : List Agent) (a : Agent) → last xs ≡ some a → Member a xs
unfolding last
last-Member [] a h = cc
last-Member (x ∷ []) a h = here (cc)
last-Member (x ∷ y ∷ xs) a h = there (last-Member (y ∷ xs) a h)

-- A running one, or one of several of which none runs.
pick-Member :
    (xs : List Agent) (a : Agent)
    → pick xs ≡ some a
    → Member a xs × ((is_running a ≡ true) ⊎ ((b : Agent) → Member b xs → is_running b ≡ false))
unfolding pick
pick-Member xs a h = by_find (find is_running xs) refl h
  where
    by_find :
        (o : Option Agent)
        → find is_running xs ≡ o
        → ◌≡◌ {A = Option Agent} (elim o [ some b ↦ some b | none ↦ last xs ]) (some a)
        → Member a xs × ((is_running a ≡ true) ⊎ ((b : Agent) → Member b xs → is_running b ≡ false))
    by_find none q e = (last-Member xs a e, inr (λ b m. find-none is_running xs b q m))
    by_find (some b) q e =
        let found : find is_running xs ≡ some a = q ∙ e in
        let (m, runs) = find-some is_running xs a found in (m, inl runs)

filter-Member :
    (p : Agent → Bool) (xs : List Agent) (a : Agent)
    → Member a (filter p xs)
    → Member a xs × (p a ≡ true)
filter-Member p [] a m = elim m [ ]
filter-Member p (x ∷ xs) a m = by_test (p x) refl m (λ k. filter-Member p xs a k)
  where
    by_test :
        (t : Bool)
        → p x ≡ t
        → Member a (if t then x ∷ filter p xs else filter p xs)
        → (Member a (filter p xs) → Member a xs × (p a ≡ true))
        → Member a (x ∷ xs) × (p a ≡ true)
    by_test true q (here e) ih = (here e, ap p e ∙ q)
    by_test true q (there k) ih = (there (ih k).0, (ih k).1)
    by_test false q k ih = (there (ih k).0, (ih k).1)

Member-filter :
    (p : Agent → Bool) (xs : List Agent) (a : Agent)
    → Member a xs
    → p a ≡ true
    → Member a (filter p xs)
Member-filter p [] a m h = elim m [ ]
Member-filter p (x ∷ xs) a (here e) h =
    let yields : p x ≡ true = ap p (sym e) ∙ h in rw yields (here e)
Member-filter p (x ∷ xs) a (there m) h = elim (Bool-cases (p x)) [
  | inl holds_it ↦ rw holds_it (there (Member-filter p xs a m h))
  | inr fails ↦ rw fails (Member-filter p xs a m h)
]

-- The text `t` is not the id of a record: it cannot be an id, or no record of it is there.
abbrev pub NamesNoId : Dir → Text → Type 0
NamesNoId d t = SafeFragment max_id_bytes t → load t d ≡ ok none

-- What a name or id `t` resolves to: the record of the id that it is, and only if there is none a
-- record of that name, running unless every record of the name has ended.
abbrev pub Resolved : Dir → Text → AgentId → Type 0
Resolved d t id =
    (a : Agent) × (load id d ≡ ok (some a))
    × (((id ≡ t) × SafeFragment max_id_bytes t)
        ⊎ (NamesNoId d t
            × (a.name ≡ t)
            × ((is_running a ≡ true)
                ⊎ ((i : AgentId) (b : Agent)
                    → load i d ≡ ok (some b)
                    → b.name ≡ t
                    → is_running b ≡ false))))

no_parse : (t : Text) → parse_id t ≡ none → SafeFragment max_id_bytes t → ⊥
no_parse t q safe =
    let parsed : parse_id t ≡ some t = (parse_id_iff t t).1 (refl, safe) in
    let impossible : ◌≡◌ {A = Option AgentId} none (some t) = sym q ∙ parsed in cc

module _ {T : Type 0} (core : TxCore T) where
  option-ok :
      {A : Type 0} (e : CoreError) (o : Option A) (w : World T) (a : A)
      → (from_option e o w).0 ≡ ok a
      → o ≡ some a
  option-ok e none w a h = cc
  option-ok e (some b) w a h = cc

  named-Resolved :
      (d : Dir) (t : Text) (agents : List Agent) (a : Agent)
      → Distinct d
      → NamesNoId d t
      → all d ≡ ok agents
      → pick (filter (λ x. text_eq x.name t) agents) ≡ some a
      → Resolved d t a.id
  named-Resolved d t agents a distinct no_id listed picked =
      let (m, choice) = pick-Member (filter (λ x. text_eq x.name t) agents) a picked in
      let (known, named) = filter-Member (λ x. text_eq x.name t) agents a m in
      (
        a,
        load-all d agents a distinct listed known,
        inr (
          no_id,
          (text_eq_iff a.name t).0 named,
          elim choice [
            | inl runs ↦ inl runs
            | inr none_runs ↦ inr (λ i b l n. none_runs b (
                Member-filter (λ x. text_eq x.name t) agents b (all-Member i d agents b listed l)
                  ((text_eq_iff b.name t).1 n)))
          ],
        ),
      )

  resolve_name-Resolved :
      (t : Text) (w : World T) (id : AgentId)
      → Distinct w.dir
      → NamesNoId w.dir t
      → (resolve_name core t w).0 ≡ ok id
      → Resolved w.dir t id
  unfolding resolve_name
  resolve_name-Resolved t w id distinct no_id h =
      let (agents, got, rest) = bind-ok (all_agents core) _ w id h in
      let (a, found, last_step) =
        bind-ok (from_option (not_found t) (pick (filter (λ x. text_eq x.name t) agents))) _ _ id
          rest in
      let same : a.id ≡ id = cc in
      subst (Resolved w.dir t) same (
        named-Resolved w.dir t agents a distinct no_id (all_agents-ok core w agents got)
          (option-ok (not_found t) _ _ a found))

  loaded-ok :
      (r : Res StoreError (Option Agent)) (o : Option Agent)
      → map_error store_error r ≡ ok o
      → r ≡ ok o
  loaded-ok (ok p) o h = cc
  loaded-ok (err e) o h = cc

  -- In a directory that lists no id twice, a name or id that resolves gives the id of a record that
  -- can be read: the text itself where it is the id of a record, and only where it is not that of a
  -- record of the name, which is running unless no record of the name is.
  pub resolve-Resolved :
      (t : Text) (w : World T) (id : AgentId)
      → Distinct w.dir
      → (resolve core t w).0 ≡ ok id
      → Resolved w.dir t id
  unfolding resolve ◌>>=◌
  resolve-Resolved t w id distinct h = by_parse (parse_id t) refl h
    where
      by_load :
          (i : AgentId) (r : Res StoreError (Option Agent))
          → load i w.dir ≡ r
          → (i ≡ t) × SafeFragment max_id_bytes t
          → (bind_result
              (map_error store_error r, w)
              (λ found. elim found as (λ _. M T AgentId) [
                | some session ↦ pure t
                | none ↦ resolve_name core t
              ])).0
            ≡ ok id
          → Resolved w.dir t id
      by_load i (ok none) l e k =
          resolve_name-Resolved t w id distinct (λ _. ap (λ x. load x w.dir) (sym e.0) ∙ l) k
      by_load i (ok (some a)) l e k =
          let same : t ≡ id = cc in
          (a, ap (λ x. load x w.dir) (sym same ∙ sym e.0) ∙ l, inl (sym same, e.1))
      by_load i (err x) l e k = cc

      by_parse :
          (o : Option AgentId)
          → parse_id t ≡ o
          → ((record_of_id core o >>= (λ found. elim found as (λ _. M T AgentId) [
            | some session ↦ pure t
            | none ↦ resolve_name core t
          ]))
              w).0
            ≡ ok id
          → Resolved w.dir t id
      by_parse none q k =
          resolve_name-Resolved t w id distinct (λ safe. absurd (no_parse t q safe)) k
      by_parse (some i) q k = by_load i (load i w.dir) refl ((parse_id_iff t i).0 q) k
