-- ===== src/Core/Run/Outcomes.antt =====
-- What the operations of the core have done when they succeed, whatever the world outside answers.
use tx_ide_rs.Prelude.{◌≡◌, refl, Bool, true, Text, List, Option}
use tx_ide_rs.Json.{Value}
use tx_ide_rs.Agent.{Agent, AgentId, LlmEngineState, is_valid_name}
use tx_ide_rs.Result.{ok}
use tx_ide_rs.Engine.{LlmEngineHook}
use tx_ide_rs.Core.World.{TxCore, World}
use tx_ide_rs.Core.Change.{rename_agent, update_ext, set_agent_tags, hook}
use tx_ide_rs.Core.Stop.{RefreshResult, refresh_agent, interrupt_agent, stop_agent}
use tx_ide_rs.Core.Message.{Sender, send_message}
use tx_ide_rs.Core.Launch.{CreateOptions, ForkOptions, create_agent, fork_agent, respawn_agent}
use tx_ide_rs.Core.Refine.Messages.{send_message-Quiet}
use tx_ide_rs.Core.Outcome.{Gives}
use tx_ide_rs.Core.Outcome.Saved.{Holds}
use tx_ide_rs.Core.Outcome.Edits.{
  Updated, rename_agent-Gives, update_ext-Gives, set_agent_tags-Gives,
}
use tx_ide_rs.Core.Outcome.Stopped.{Stopped, stop_agent-Gives}
use tx_ide_rs.Core.Outcome.Refreshed.{At, Refreshed, live_answer, refresh_agent-At}
use tx_ide_rs.Core.Outcome.Hooked.{Hooked, hook-Gives}
use tx_ide_rs.Core.Outcome.Respawned.{Respawned, respawn_agent-Gives}
use tx_ide_rs.Core.Outcome.Interrupted.{Interrupted, interrupt_agent-Gives}
use tx_ide_rs.Core.Outcome.Created.{Created, ForkedFrom, create_agent-Gives, fork_agent-Gives}

module _ {T : Type 0} (core : TxCore T) where
  -- A creation that returns an id leaves under it the record that was asked for: with the parent,
  -- tags, engine and roles of the options, and a valid name that is one of the first 99 candidates
  -- for the wanted one.
  pub create_agent-Created :
      (opts : CreateOptions) (w : World T) (id : AgentId)
      → (create_agent core opts w).0 ≡ ok id
      → Created opts id (create_agent core opts w).1.dir
  unfolding Gives
  create_agent-Created opts w id h = create_agent-Gives core w.dir opts w refl id h

  -- A fork that returns an id found the source's record, and leaves under the returned id a child of
  -- the source, with its engine and roles, and its tags unless the fork options have their own.
  pub fork_agent-Created :
      (id : AgentId) (options : ForkOptions) (w : World T) (child : AgentId)
      → (fork_agent core id options w).0 ≡ ok child
      → ForkedFrom w.dir id options child (fork_agent core id options w).1.dir
  unfolding Gives
  fork_agent-Created id options w child h = fork_agent-Gives core w.dir id options w refl child h

  -- A respawn that returns a record found the record of the id ended, and its name free of every
  -- other running record, and leaves the returned one in its place: the same agent under the same
  -- name and tags.
  pub respawn_agent-Respawned :
      (id : AgentId) (w : World T) (b : Agent)
      → (respawn_agent core id w).0 ≡ ok b
      → Respawned w.dir id b (respawn_agent core id w).1.dir
  unfolding Gives
  respawn_agent-Respawned id w b h = respawn_agent-Gives core w.dir id w refl b h

  -- A stop that returns a record found the record of the id not ended, and leaves the returned one
  -- in its place, ended, under the name it had and with every other field but the time of the last
  -- modification as it was.
  pub stop_agent-Stopped :
      (id : AgentId) (w : World T) (b : Agent)
      → (stop_agent core id w).0 ≡ ok b
      → Stopped w.dir id b (stop_agent core id w).1.dir
  unfolding Gives
  stop_agent-Stopped id w b h = stop_agent-Gives core w.dir id w refl b h

  -- A refresh that succeeds leaves every record as it was and returns the stored one, when that
  -- has ended or when the table of live sessions that tmux gives lists the agent; it reports as gone,
  -- and leaves ended and otherwise as it was, a record that was running whose agent is not in the
  -- table.
  pub refresh_agent-Refreshed :
      (id : AgentId) (w : World T) (r : RefreshResult)
      → (refresh_agent core id w).0 ≡ ok r
      → Refreshed w.dir id (live_answer core id w) r (refresh_agent core id w).1.dir
  unfolding At
  refresh_agent-Refreshed id w r h = refresh_agent-At core id w r h

  -- A hook that returns no state found a record that has ended or whose engine is not known, and
  -- leaves every record as it was; one that returns a state found a running record, and leaves under
  -- its name a record in that state, where the state and the engine's own data are what the engine's
  -- answer asks for, or the old ones where it asks for none.
  pub hook-Hooked :
      (id : AgentId) (h : LlmEngineHook) (w : World T) (r : Option LlmEngineState)
      → (hook core id h w).0 ≡ ok r
      → Hooked core.engines h w.dir id r (hook core id h w).1.dir
  unfolding Gives
  hook-Hooked id h w r returned = hook-Gives core w.dir id h w refl r returned

  -- An interrupt that succeeds found a running record whose engine has a way to interrupt it, and
  -- leaves the record under its name in the state that the engine gives with the interrupt, or in
  -- the state it had where the engine gives none.
  interrupt_agent-Interrupted :
      (id : AgentId) (w : World T)
      → (interrupt_agent core id w).0 ≡ ok tt
      → Interrupted core.engines w.dir id (interrupt_agent core id w).1.dir
  unfolding Gives
  interrupt_agent-Interrupted id w h = interrupt_agent-Gives core w.dir id w refl tt h

  -- A rename that returns a record leaves that record in its directory, under the new name, and the
  -- new name is valid.
  pub rename_agent-named :
      (id : AgentId) (name : Text) (w : World T) (b : Agent)
      → (rename_agent core id name w).0 ≡ ok b
      → Holds id b (rename_agent core id name w).1.dir
        × (b.name ≡ name)
        × (is_valid_name name ≡ true)
  unfolding Gives
  rename_agent-named id name w b h = rename_agent-Gives core w.dir id name w refl b h

  -- An update of plugin data that returns `true` leaves a record whose data at the plugin's key is
  -- what the function makes of the old one, `Null` standing for no data, and is another value than
  -- the old one; the data at every other key and every other field but the time of the last
  -- modification are kept. One that returns `false` leaves every record as it was, since the
  -- function gave back the old data.
  pub update_ext-Updated :
      (id : AgentId) (plugin : Text) (f : Value → Value) (w : World T) (changed : Bool)
      → (update_ext core id plugin f w).0 ≡ ok changed
      → Updated w.dir id plugin f changed (update_ext core id plugin f w).1.dir
  unfolding Gives
  update_ext-Updated id plugin f w changed h =
      update_ext-Gives core w.dir id plugin f w refl changed h

  -- Setting tags returns the record that it leaves in the directory, with exactly the given tags.
  set_agent_tags-tagged :
      (id : AgentId) (tags : List Text) (w : World T) (b : Agent)
      → (set_agent_tags core id tags w).0 ≡ ok b
      → Holds id b (set_agent_tags core id tags w).1.dir × (b.tags ≡ tags)
  unfolding Gives
  set_agent_tags-tagged id tags w b h = set_agent_tags-Gives core w.dir id tags w refl b h

  -- Sending a message, delivered or refused, leaves every record as it was.
  send_message-dir :
      (to : AgentId) (text : Text) (sender : Sender) (w : World T)
      → (send_message core to text sender w).1.dir ≡ w.dir
  send_message-dir to text sender w = send_message-Quiet core to text sender w
