-- ===== src/Core/Evolve/Identity.antt =====
-- What identifies a record never changes, and an ended agent stays ended unless it is respawned.
use tx_ide_rs.Prelude.{
  ◌≡◌, sym, ap, ◌∙◌, inl, inr, Bool, none, some, arith, text_eq, text_eq_iff, Bool-cases,
}
use tx_ide_rs.Agent.{Agent, AgentId}
use tx_ide_rs.Result.{ok}
use tx_ide_rs.Store.{Dir, load, put}
use tx_ide_rs.Store.Lookup.{load-put}
use tx_ide_rs.Core.Evolve.{
  SameAgent, SameAgent-refl, SameAgent-trans, Step, edit, rename, respawn, create, Evolves, same,
  more, Persists,
}

-- A write over record `a` by one of the same identity keeps every record.
put-Persists :
    (a b x : Agent) (id : AgentId) (d : Dir)
    → load a.id d ≡ ok (some a)
    → SameAgent a b
    → load id d ≡ ok (some x)
    → Persists x id (put b d)
put-Persists a b x id d l s h = elim (Bool-cases (text_eq b.id id)) [
  | inl here ↦
      let at_id : id ≡ a.id = sym ((text_eq_iff b.id id).0 here) ∙ s.id in
      let was : ok (some x) ≡ ok (some a) = sym h ∙ ap (λ i. load i d) at_id ∙ l in
      (b, rw (load-put, here), same_as x (cc))
  | inr elsewhere ↦ (x, rw (load-put, elsewhere) h, SameAgent-refl x)
]
  where
    same_as : (y : Agent) → y ≡ a → SameAgent y b
    same_as y e = rw e s

fresh-Persists :
    (b x : Agent) (id : AgentId) (d : Dir)
    → load b.id d ≡ ok none
    → load id d ≡ ok (some x)
    → Persists x id (put b d)
fresh-Persists b x id d l h = elim (Bool-cases (text_eq b.id id)) [
  | inl here ↦
      let was : ok (some x) ≡ ok none =
        sym h ∙ ap (λ i. load i d) (sym ((text_eq_iff b.id id).0 here)) ∙ l in
      absurd (ground arith)
  | inr elsewhere ↦ (x, rw (load-put, elsewhere) h, SameAgent-refl x)
]

Step-Persists :
    {may : Bool} {d e : Dir} (id : AgentId) (x : Agent)
    → Step may d e
    → load id d ≡ ok (some x)
    → Persists x id e
Step-Persists {may} {d} {e} id x (edit a b l s n keeps p) h = rw p (put-Persists a b x id d l s h)
Step-Persists {may} {d} {e} id x (rename a b l s st free p) h = rw p (put-Persists a b x id d l s h)
Step-Persists {may} {d} {e} id x (respawn a b ok_to l en s n free p) h =
    rw p (put-Persists a b x id d l s h)
Step-Persists {may} {d} {e} id x (create b l free p) h = rw p (fresh-Persists b x id d l h)

-- Through any sequence of permitted writes a record keeps its id, engine, worktree, roles, time of
-- creation and parent, and is never lost.
pub Evolves-Persists :
    {may : Bool} {d e : Dir} (id : AgentId) (x : Agent)
    → Evolves may d e
    → load id d ≡ ok (some x)
    → Persists x id e
Evolves-Persists id x (same p) h = (x, rw p h, SameAgent-refl x)
Evolves-Persists id x (more r st) h =
    let (y, there_is, kept) = Evolves-Persists id x r h in
    let (z, now, kept') = Step-Persists id y st there_is in
    (z, now, SameAgent-trans x y z kept kept')
