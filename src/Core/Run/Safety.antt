-- ===== src/Core/Run/Safety.antt =====
-- What holds in every state that a run of the core reaches.
use mathlib.Core.Path.{subst}
use tx_ide_rs.Prelude.{◌≡◌, refl, sym, Bool, true, false, some}
use tx_ide_rs.Agent.{Agent, AgentId}
use tx_ide_rs.Result.{ok}
use tx_ide_rs.Store.{load}
use tx_ide_rs.Core.World.{TxCore, World}
use tx_ide_rs.Core.Evolve.{Evolves, same, IsSound, Evolves-IsSound, Persists}
use tx_ide_rs.Core.Evolve.Identity.{Evolves-Persists}
use tx_ide_rs.Core.Evolve.Ended.{EndedAt, Evolves-EndedAt}
use tx_ide_rs.Core.Launch.{respawn_agent}
use tx_ide_rs.Core.Refine.{Evolves-trans}
use tx_ide_rs.Core.Refine.Changes.{
  rename_agent-From, update_ext-From, set_agent_tags-From, hook-From,
}
use tx_ide_rs.Core.Refine.Stops.{
  refresh_agent-From, refresh_all-From, interrupt_agent-From, stop_agent-From,
}
use tx_ide_rs.Core.Refine.Launches.{respawn_agent-From}
use tx_ide_rs.Core.Refine.Mints.{create_agent-Mints, fork_agent-Mints}
use tx_ide_rs.Core.Refine.Messages.{send_message-Quiet, get_execution_location-Quiet}
use tx_ide_rs.Core.Run.{
  Operation, create, fork, respawn, rename, change_ext, report_hook, set_tags, refresh,
  refresh_every, interrupt, stop, send, locate, is_respawn, run, MintsNew, Reaches, here, operation,
  elsewhere,
}

module _ {T : Type 0} (core : TxCore T) where
  -- Every operation, whether it succeeds or fails and whatever the world outside answers, writes
  -- records only by the steps of `Evolves`, provided that the id which it mints, if it is a create
  -- or a fork that comes so far, is not the id of a record; a respawn is the only operation that
  -- uses the step that restarts an ended agent.
  pub run-Evolves :
      {may : Bool} (o : Operation) (w : World T)
      → (is_respawn o ≡ true → may ≡ true)
      → MintsNew core o w
      → Evolves may w.dir (run core o w).dir
  unfolding run
  run-Evolves (create opts) w permits fresh = create_agent-Mints core w.dir opts w refl fresh
  run-Evolves (fork id options) w permits fresh =
      fork_agent-Mints core w.dir id options w refl fresh
  run-Evolves (respawn id) w permits fresh =
      subst (λ may. Evolves may w.dir (respawn_agent core id w).1.dir) (sym (permits refl))
        (respawn_agent-From core w.dir id w refl)
  run-Evolves (rename id name) w permits fresh = rename_agent-From core w.dir id name w refl
  run-Evolves (change_ext id plugin f) w permits fresh =
      update_ext-From core w.dir id plugin f w refl
  run-Evolves (report_hook id h) w permits fresh = hook-From core w.dir id h w refl
  run-Evolves (set_tags id tags) w permits fresh = set_agent_tags-From core w.dir id tags w refl
  run-Evolves (refresh id) w permits fresh = refresh_agent-From core w.dir id w refl
  run-Evolves refresh_every w permits fresh = refresh_all-From core w.dir w refl
  run-Evolves (interrupt id) w permits fresh = interrupt_agent-From core w.dir id w refl
  run-Evolves (stop id) w permits fresh = stop_agent-From core w.dir id w refl
  run-Evolves (send to text sender) w permits fresh =
      same (send_message-Quiet core to text sender w)
  run-Evolves (locate id) w permits fresh = same (get_execution_location-Quiet core id w)

  Reaches-Evolves : {may : Bool} {w v : World T} → Reaches core may w v → Evolves may w.dir v.dir
  Reaches-Evolves here = same refl
  Reaches-Evolves (operation {v} o permits r fresh) =
      Evolves-trans (Reaches-Evolves r) (run-Evolves o v permits fresh)
  Reaches-Evolves (elsewhere t r) = Reaches-Evolves r

  -- In a run of the core in which each id that is minted is new to the directory, from a directory that lists no id
  -- twice and in which no two running agents share a name, every state that is reached has such a
  -- directory again.
  pub Reaches-IsSound :
      {may : Bool} {w v : World T} → Reaches core may w v → IsSound w.dir → IsSound v.dir
  Reaches-IsSound r s = Evolves-IsSound (Reaches-Evolves r) s

  -- In a run in which each id that is minted is new to the directory, a record that can be read can be read in
  -- every later state, with the same id, engine, working directory, roles, time of creation and
  -- parent.
  pub Reaches-Persists :
      {may : Bool} {w v : World T} (id : AgentId) (a : Agent)
      → Reaches core may w v
      → load id w.dir ≡ ok (some a)
      → Persists a id v.dir
  Reaches-Persists id a r l = Evolves-Persists id a (Reaches-Evolves r) l

  -- In a run without a respawn, in which each id that is minted is new to the directory, an agent that has ended is
  -- in the directory, and ended, in every later state: no late hook, rename, refresh or stop brings
  -- it back.
  pub Reaches-EndedAt :
      {w v : World T} (id : AgentId) → Reaches core false w v → EndedAt id w.dir → EndedAt id v.dir
  Reaches-EndedAt id r h = Evolves-EndedAt id (Reaches-Evolves r) h
