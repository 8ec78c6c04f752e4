-- ===== src/Core/Outcome/Saved.antt =====
-- What `save` and `mark_exited` have done when they succeed.
use mathlib.Core.Path.{subst}
use tx_ide_rs.Prelude.{ℕ, ◌≡◌, refl, sym, ap, ◌∙◌, [], none, some, text_eq_refl}
use tx_ide_rs.Agent.{Agent, AgentId, ended}
use tx_ide_rs.Result.{ok}
use tx_ide_rs.Store.{Dir, load, put}
use tx_ide_rs.Store.Lookup.{load-put, load-id}
use tx_ide_rs.Core.World.{
  TxCore, WriteOutcome, written, unencodable, not_written, not_synced, ask, finish_write,
  write_agent, save,
}
use tx_ide_rs.Core.Archive.{mark_exited}
use tx_ide_rs.Core.Refine.{bind-Quiet}
use tx_ide_rs.Core.Refine.Parts.{event-Quiet, archive_conversation-Quiet}
use tx_ide_rs.Core.Outcome.{Gives, pure-Returns, bind-Returns, bind-Gives, bind-Gives_after}

-- The record was saved: `b`, with the time of the save, now stands in the directory, which is
-- otherwise as it was.
pub record IsSaved (d : Dir) (b saved : Agent) (e : Dir) : Type 0 where
  pub at : ℕ
  pub stamped : saved ≡ record b { last_modified_at = at }
  pub dir : e ≡ put saved d

pub IsSaved-load :
    {d e : Dir} (b saved : Agent) → IsSaved d b saved e → load b.id e ≡ ok (some saved)
IsSaved-load {d} {e} b saved s =
    let own : saved.id ≡ b.id = ap (λ (x : Agent). x.id) s.stamped in
    rw (s.dir, load-put, own, text_eq_refl b.id)

module _ {T : Type 0} (core : TxCore T) where
  open core use {outside}

  finish_write-IsSaved :
      (d : Dir) (b : Agent) (at : ℕ) (o : WriteOutcome)
      → Gives d (finish_write core (record b { last_modified_at = at }) o) (IsSaved d b)
  unfolding finish_write Gives
  finish_write-IsSaved d b at written w e a h = record {
    at = at;
    stamped = cc;
    dir =
        (let same : record b { last_modified_at = at } ≡ a = cc in
          subst (λ x. put (record b { last_modified_at = at }) w.dir ≡ put x d) same
            (ap (put (record b { last_modified_at = at })) e));
  }
  finish_write-IsSaved d b at unencodable w e a h = cc
  finish_write-IsSaved d b at (not_written x) w e a h = cc
  finish_write-IsSaved d b at (not_synced x) w e a h = cc

  write_agent-IsSaved :
      (d : Dir) (b : Agent) (at : ℕ)
      → Gives d (write_agent core (record b { last_modified_at = at })) (IsSaved d b)
  unfolding write_agent Gives
  write_agent-IsSaved d b at w e =
      finish_write-IsSaved d b at
        (outside.write_record (record b { last_modified_at = at }) w.outer).0
        (record w { outer = (outside.write_record (record b { last_modified_at = at }) w.outer).1 })
        e

  pub save-IsSaved : (d : Dir) (b : Agent) → Gives d (save core b) (IsSaved d b)
  unfolding save
  save-IsSaved d b =
      bind-Gives d (ask outside.now) (λ at. write_agent core (record b { last_modified_at = at })) _
        (λ w. refl) (λ at. write_agent-IsSaved d b at)

  pub mark_exited-IsSaved :
      (d : Dir) (a : Agent)
      → Gives d (mark_exited core a) (λ r. IsSaved d (record a { state = ended }) r.0)
  unfolding mark_exited
  mark_exited-IsSaved d a =
      bind-Gives_after d (save core (record a { state = ended })) _
        (IsSaved d (record a { state = ended })) _ (save-IsSaved d (record a { state = ended }))
        (λ gone.
          bind-Quiet _ _ (archive_conversation-Quiet core gone)
            λ _. bind-Quiet _ _ (event-Quiet core _ gone none []) (λ _ w. refl))
        (λ gone.
          bind-Returns _ _ _ λ _. bind-Returns _ _ _ λ x. pure-Returns T (gone, x) _ (λ e s. s))

-- The record of the id, as a read of it gives.
abbrev pub Holds : AgentId → Agent → Dir → Type 0
Holds id a d = load id d ≡ ok (some a)

pub saved-Holds :
    (d e : Dir) (id : AgentId) (session b saved : Agent)
    → load id d ≡ ok (some session)
    → b.id ≡ session.id
    → IsSaved d b saved e
    → Holds id saved e
saved-Holds d e id session b saved l own s =
    ap (λ i. load i e) (sym (load-id id d session l) ∙ sym own) ∙ IsSaved-load b saved s
