-- ===== src/Core/Refine/Names.antt =====
-- What the queries for names (`name_holder` and `running_names` of tx-core/src/core.rs) tell of the
-- directory.
use tx_ide_rs.Prelude.{
  ◌≡◌, refl, sym, ◌∙◌, Bool, true, false, List, [], ◌∷◌, Option, none, some, arith, Text, text_eq,
  text_eq_iff, text_eq_refl, contains, inl, inr, Bool-cases, find, filter, map,
}
use tx_ide_rs.Agent.{Agent, AgentId, is_ended}
use tx_ide_rs.Result.{Res, ok, err, StoreError, store_error}
use tx_ide_rs.Store.{all}
use tx_ide_rs.Store.Lookup.{load-id}
use tx_ide_rs.Store.Scan.{Member, here, there, all-Member}
use tx_ide_rs.Core.World.{TxCore, World, M, bind_result, map_error, pure, ◌>>=◌, all_agents}
use tx_ide_rs.Core.Read.{is_running, holds_name, name_holder, running_names}
use tx_ide_rs.Core.Evolve.{NameFree}
use tx_ide_rs.Core.Refine.{Quiet, bind-Quiet}

find-Member :
    (p : Agent → Bool) (xs : List Agent) (a : Agent) → find p xs ≡ none → Member a xs → p a ≡ false
find-Member p [] a h m = elim m [ ]
find-Member p (x ∷ xs) a h (here e) = elim (Bool-cases (p x)) [
  | inl holds_it ↦ cc
  | inr fails ↦ rw e fails
]
find-Member p (x ∷ xs) a h (there m) = elim (Bool-cases (p x)) [
  | inl holds_it ↦ cc
  | inr fails ↦ find-Member p xs a (rw fails at h) m
]

holds_name-false :
    (name : Text) (id : AgentId) (a : Agent)
    → holds_name name (some id) a ≡ false
    → is_ended a.state ≡ false
    → a.name ≡ name
    → a.id ≡ id
unfolding holds_name
holds_name-false name id a h r n = ground (arith, text_eq_iff a.name name, text_eq_iff id a.id)

-- A running record's name is among the names of the running records.
pub name-contained :
    (xs : List Agent) (a : Agent)
    → Member a xs
    → is_ended a.state ≡ false
    → contains (map (λ x. x.name) (filter is_running xs)) a.name ≡ true
unfolding contains
name-contained [] a m r = elim m [ ]
name-contained (x ∷ xs) a (here e) r = rw (← e, r, text_eq_refl a.name)
name-contained (x ∷ xs) a (there m) r = elim (Bool-cases (is_ended x.state)) [
  | inl gone ↦ rw gone (name-contained xs a m r)
  | inr runs ↦ elim (Bool-cases (text_eq x.name a.name)) [
    | inl same ↦ rw (runs, same)
    | inr other ↦ rw (runs, other) (name-contained xs a m r)
  ]
]

abbrev id_of : {T : Type 0} → Option Agent → M T (Option AgentId)
id_of none = pure none
id_of (some a) = pure (some a.id)

module _ {T : Type 0} (core : TxCore T) where
  pub all_agents-Quiet : Quiet (all_agents core)
  unfolding all_agents
  all_agents-Quiet w = refl

  pub name_holder-Quiet :
      (name : Text) (except : Option AgentId) → Quiet (name_holder core name except)
  unfolding name_holder
  name_holder-Quiet name except =
      bind-Quiet (all_agents core) _ all_agents-Quiet
        (λ agents. answer (find (holds_name name except) agents))
    where
      answer : (o : Option Agent) → Quiet (id_of {T = T} o)
      answer none w = refl
      answer (some a) w = refl

  pub all_agents-ok :
      (w : World T) (l : List Agent) → (all_agents core w).0 ≡ ok l → all w.dir ≡ ok l
  unfolding all_agents
  all_agents-ok w l h = of_all (all w.dir) h
    where
      of_all : (r : Res StoreError (List Agent)) → map_error store_error r ≡ ok l → r ≡ ok l
      of_all (ok xs) e = cc
      of_all (err e) h' = cc

  -- Where no holder is found, no other running record carries the name.
  pub name_holder-NameFree :
      (name : Text) (id : AgentId) (w : World T)
      → (name_holder core name (some id) w).0 ≡ ok none
      → NameFree w.dir id name
  unfolding name_holder all_agents ◌>>=◌
  name_holder-NameFree name id w h i b l r n = of_all (all w.dir) refl h
    where
      answer :
          (xs : List Agent)
          → all w.dir ≡ ok xs
          → (o : Option Agent) → find (holds_name name (some id)) xs ≡ o
          → (id_of {T = T} o w).0 ≡ ok none
          → i ≡ id
      answer xs e none q k =
          sym (load-id i w.dir b l)
          ∙ holds_name-false name id b (find-Member _ xs b q (all-Member i w.dir xs b e l)) r n
      answer xs e (some a) q k = cc

      of_all :
          (r : Res StoreError (List Agent))
          → all w.dir ≡ r
          → (bind_result
              (map_error store_error r, w)
              (λ agents. id_of {T = T} (find (holds_name name (some id)) agents))).0
            ≡ ok none
          → i ≡ id
      of_all (ok xs) e k = answer xs e (find (holds_name name (some id)) xs) refl k
      of_all (err x) e k = cc

  pub running_names-Quiet : Quiet (running_names core)
  unfolding running_names
  running_names-Quiet = bind-Quiet (all_agents core) _ all_agents-Quiet (λ agents w. refl)

  -- A name that is not among them is free.
  pub running_names-NameFree :
      (names : List Text) (id : AgentId) (name : Text) (w : World T)
      → (running_names core w).0 ≡ ok names
      → contains names name ≡ false
      → NameFree w.dir id name
  unfolding running_names all_agents ◌>>=◌
  running_names-NameFree names id name w h c i b l r n = of_all (all w.dir) refl h
    where
      of_all :
          (r : Res StoreError (List Agent))
          → all w.dir ≡ r
          → (bind_result
              (map_error store_error r, w)
              (λ agents. pure {T = T} (map (λ a. a.name) (filter is_running agents)))).0
            ≡ ok names
          → i ≡ id
      of_all (ok xs) e k =
          let there_is = name-contained xs b (all-Member i w.dir xs b e l) r in
          let listed : map (λ a. a.name) (filter is_running xs) ≡ names = cc in
          absurd (ground (arith, rw (listed, n) at there_is))
      of_all (err x) e k = cc
