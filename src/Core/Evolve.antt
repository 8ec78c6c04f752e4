-- ===== src/Core/Evolve.antt =====
-- How the record files may change: a step relation on the store, which every operation of the core
-- refines (the modules below), and what it keeps.
pub mod Identity
pub mod Ended
use tx_ide_rs.Prelude.{
  ap, ℕ, ◌≡◌, refl, sym, ◌∙◌, ◌⊎◌, inl, inr, ◌≢◌, Bool, true, false, List, [], ◌∷◌, Option, none,
  some, arith, Text, text_eq, text_eq_iff, if◌then◌else◌, Bool-cases,
}
use tx_ide_rs.Json.{Value}
use tx_ide_rs.Agent.{Agent, AgentId, EngineKind, is_ended, starting}
use tx_ide_rs.Result.{Res, ok, err}
use tx_ide_rs.Store.{Dir, load, put}
use tx_ide_rs.Store.Lookup.{load-put, load-id}
use tx_ide_rs.Store.Scan.{Distinct, put-Distinct}

-- What no operation ever changes of a record.
pub record SameAgent (a b : Agent) : Type 0 where
  pub id : b.id ≡ a.id
  pub engine : b.engine ≡ a.engine
  pub working_directory : b.working_directory ≡ a.working_directory
  pub roles : b.roles ≡ a.roles
  pub created_at : b.created_at ≡ a.created_at
  pub parent_id : b.parent_id ≡ a.parent_id

-- No other running record carries the name.
abbrev pub NameFree : Dir → AgentId → Text → Type 0
NameFree d id name =
    (i : AgentId) (b : Agent)
    → load i d ≡ ok (some b)
    → is_ended b.state ≡ false
    → b.name ≡ name
    → i ≡ id

-- One write of a record; `may` tells whether ended agents may start again.
pub data Step (may : Bool) (d : Dir) (e : Dir) : Type 0 where
  -- Tags, plugin data, a state: the name stays, and an ended agent stays ended.
  edit :
      (a b : Agent)
      → load a.id d ≡ ok (some a)
      → SameAgent a b
      → b.name ≡ a.name
      → (is_ended a.state ≡ true → is_ended b.state ≡ true)
      → e ≡ put b d
      → Step may d e
  -- A new name, free among the running records; the state stays.
  rename :
      (a b : Agent)
      → load a.id d ≡ ok (some a)
      → SameAgent a b
      → b.state ≡ a.state
      → NameFree d a.id b.name
      → e ≡ put b d
      → Step may d e
  -- An ended agent starts again under its name, free among the running records.
  respawn :
      (a b : Agent)
      → may ≡ true
      → load a.id d ≡ ok (some a)
      → is_ended a.state ≡ true
      → SameAgent a b
      → b.name ≡ a.name
      → NameFree d a.id b.name
      → e ≡ put b d
      → Step may d e
  -- A new record, under a fresh id and a free name.
  create : (b : Agent) → load b.id d ≡ ok none → NameFree d b.id b.name → e ≡ put b d → Step may d e

pub data Evolves (may : Bool) (d : Dir) : Dir → Type 0 where
  same : {e : Dir} → e ≡ d → Evolves may d e
  more : {e f : Dir} → Evolves may d e → Step may e f → Evolves may d f

-- The running records have distinct names.
abbrev pub UniqueNames : Dir → Type 0
UniqueNames d =
    (i j : AgentId) (a b : Agent)
    → load i d ≡ ok (some a)
    → load j d ≡ ok (some b)
    → is_ended a.state ≡ false
    → is_ended b.state ≡ false
    → a.name ≡ b.name
    → i ≡ j

-- A record read after a write is the written one, or was there before.
load-put-cases :
    (b : Agent) (i : AgentId) (d : Dir) (c : Agent)
    → load i (put b d) ≡ ok (some c)
    → ((i ≡ b.id) × (c ≡ b)) ⊎ (load i d ≡ ok (some c))
load-put-cases b i d c h = elim (Bool-cases (text_eq b.id i)) [
  | inl same_id ↦
      let now : ◌≡◌ {A = Res _ (Option Agent)} (ok (some b)) (ok (some c)) =
        rw (load-put, same_id) at h in
      inl (sym ((text_eq_iff b.id i).0 same_id), cc)
  | inr other ↦ inr (rw (load-put, other) at h)
]

put-UniqueNames :
    (b : Agent) (d : Dir)
    → (is_ended b.state ≡ false → NameFree d b.id b.name)
    → UniqueNames d
    → UniqueNames (put b d)
put-UniqueNames b d free u i j x y hi hj rx ry n =
    split (load-put-cases b i d x hi) (load-put-cases b j d y hj)
  where
    split :
        ((i ≡ b.id) × (x ≡ b)) ⊎ (load i d ≡ ok (some x))
        → ((j ≡ b.id) × (y ≡ b)) ⊎ (load j d ≡ ok (some y))
        → i ≡ j
    split (inl (p, e)) (inl (q, f)) = p ∙ sym q
    split (inl (p, e)) (inr old) =
        p ∙ sym (free (rw e at rx) j y old ry (sym n ∙ ap (λ (a : Agent). a.name) e))
    split (inr old) (inl (q, f)) =
        free (rw f at ry) i x old rx (n ∙ ap (λ (a : Agent). a.name) f) ∙ sym q
    split (inr old) (inr old') = u i j x y old old' rx ry n

not_ended : (a b : Bool) → (a ≡ true → b ≡ true) → b ≡ false → a ≡ false
not_ended true b h e = absurd (ground arith)
not_ended false b h e = refl

Step-UniqueNames : {may : Bool} {d e : Dir} → Step may d e → UniqueNames d → UniqueNames e
Step-UniqueNames {may} {d} {e} (edit a b l s n keeps p) u = rw p (
    put-UniqueNames b d
      (λ running i c hi rc nc.
        u i a.id c a hi l rc (not_ended _ _ keeps running) (nc ∙ n) ∙ sym s.id)
      u)
Step-UniqueNames {may} {d} {e} (rename a b l s st free p) u =
    rw p (put-UniqueNames b d (λ running i c hi rc nc. free i c hi rc nc ∙ sym s.id) u)
Step-UniqueNames {may} {d} {e} (respawn a b ok_to l en s n free p) u =
    rw p (put-UniqueNames b d (λ running i c hi rc nc. free i c hi rc nc ∙ sym s.id) u)
Step-UniqueNames {may} {d} {e} (create b l free p) u =
    rw p (put-UniqueNames b d (λ running. free) u)

-- The directory lists no id twice, and no two running records share a name.
pub record IsSound (d : Dir) : Type 0 where
  pub distinct : Distinct d
  pub unique : UniqueNames d

Step-Distinct : {may : Bool} {d e : Dir} → Step may d e → Distinct d → Distinct e
Step-Distinct {may} {d} {e} (edit a b l s n keeps p) u = rw p (put-Distinct b d u)
Step-Distinct {may} {d} {e} (rename a b l s st free p) u = rw p (put-Distinct b d u)
Step-Distinct {may} {d} {e} (respawn a b ok_to l en s n free p) u = rw p (put-Distinct b d u)
Step-Distinct {may} {d} {e} (create b l free p) u = rw p (put-Distinct b d u)

-- Distinct ids and distinct running names survive any sequence of permitted writes.
pub Evolves-IsSound : {may : Bool} {d e : Dir} → Evolves may d e → IsSound d → IsSound e
Evolves-IsSound (same p) s = rw p s
Evolves-IsSound (more r st) s =
    let before = Evolves-IsSound r s in
    record {
      distinct = Step-Distinct st before.distinct;
      unique = Step-UniqueNames st before.unique;
    }

-- A record that is there stays there, and what identifies it never changes.
pub SameAgent-refl : (a : Agent) → SameAgent a a
SameAgent-refl a = record {
  id = refl;
  engine = refl;
  working_directory = refl;
  roles = refl;
  created_at = refl;
  parent_id = refl;
}

pub SameAgent-trans : (a b c : Agent) → SameAgent a b → SameAgent b c → SameAgent a c
SameAgent-trans a b c h k = record {
  id = k.id ∙ h.id;
  engine = k.engine ∙ h.engine;
  working_directory = k.working_directory ∙ h.working_directory;
  roles = k.roles ∙ h.roles;
  created_at = k.created_at ∙ h.created_at;
  parent_id = k.parent_id ∙ h.parent_id;
}

abbrev pub Persists : Agent → AgentId → Dir → Type 0
Persists a id e = (b : Agent) × (load id e ≡ ok (some b)) × SameAgent a b
