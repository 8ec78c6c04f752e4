-- ===== src/Core/Evolve/Ended.antt =====
-- An ended agent stays ended where none may start again.
use tx_ide_rs.Prelude.{
  ◌≡◌, refl, sym, ap, ◌∙◌, inl, inr, Bool, true, false, none, some, arith, text_eq, text_eq_iff,
  Bool-cases,
}
use tx_ide_rs.Agent.{Agent, AgentId, is_ended}
use tx_ide_rs.Result.{ok}
use tx_ide_rs.Store.{Dir, load, put}
use tx_ide_rs.Store.Lookup.{load-put}
use tx_ide_rs.Core.Evolve.{Step, edit, rename, respawn, create, Evolves, same, more}

-- The record of the id is there, and ended.
abbrev pub EndedAt : AgentId → Dir → Type 0
EndedAt id d = (a : Agent) × (load id d ≡ ok (some a)) × (is_ended a.state ≡ true)

put-EndedAt :
    (a b : Agent) (id : AgentId) (d : Dir)
    → load a.id d ≡ ok (some a)
    → b.id ≡ a.id
    → (is_ended a.state ≡ true → is_ended b.state ≡ true)
    → EndedAt id d
    → EndedAt id (put b d)
put-EndedAt a b id d l s keeps (x, h, gone) = elim (Bool-cases (text_eq b.id id)) [
  | inl same_id ↦
      let at_id : id ≡ a.id = sym ((text_eq_iff b.id id).0 same_id) ∙ s in
      let was : ok (some x) ≡ ok (some a) = sym h ∙ ap (λ i. load i d) at_id ∙ l in
      (b, rw (load-put, same_id), keeps (ended_as x (cc) gone))
  | inr other ↦ (x, rw (load-put, other) h, gone)
]
  where
    ended_as : (y : Agent) → y ≡ a → is_ended y.state ≡ true → is_ended a.state ≡ true
    ended_as y e g = rw e at g

fresh-EndedAt :
    (b : Agent) (id : AgentId) (d : Dir)
    → load b.id d ≡ ok none
    → EndedAt id d
    → EndedAt id (put b d)
fresh-EndedAt b id d l (x, h, gone) = elim (Bool-cases (text_eq b.id id)) [
  | inl same_id ↦
      let was : ok (some x) ≡ ok none =
        sym h ∙ ap (λ i. load i d) (sym ((text_eq_iff b.id id).0 same_id)) ∙ l in
      absurd (ground arith)
  | inr other ↦ (x, rw (load-put, other) h, gone)
]

Step-EndedAt :
    {may : Bool} {d e : Dir} (id : AgentId)
    → may ≡ false
    → Step may d e
    → EndedAt id d
    → EndedAt id e
Step-EndedAt {may} {d} {e} id f (edit a b l s n keeps p) h =
    rw p (put-EndedAt a b id d l s.id keeps h)
Step-EndedAt {may} {d} {e} id f (rename a b l s st free p) h =
    rw p (put-EndedAt a b id d l s.id (λ g. ap is_ended st ∙ g) h)
Step-EndedAt {may} {d} {e} id f (respawn a b ok_to l en s n free p) h = absurd (ground arith)
Step-EndedAt {may} {d} {e} id f (create b l free p) h = rw p (fresh-EndedAt b id d l h)

pub Evolves-EndedAt : {d e : Dir} (id : AgentId) → Evolves false d e → EndedAt id d → EndedAt id e
Evolves-EndedAt id (same p) h = rw p h
Evolves-EndedAt id (more r st) h = Step-EndedAt id refl st (Evolves-EndedAt id r h)
