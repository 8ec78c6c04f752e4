-- ===== src/Core/Run.antt =====
-- Runs of the core: the operations that `TxCore` offers, one after the other. An operation holds
-- the locks that it needs until its record is written, so that other processes of the program
-- appear in a run as further operations; whatever else happens outside may happen in between.
pub mod Safety
pub mod Outcomes
pub mod Minted
use tx_ide_rs.Prelude.{◌≡◌, Bool, true, false, Text, List, none}
use tx_ide_rs.Result.{Res, ok, CoreError}
use tx_ide_rs.Store.{Dir, load}
use tx_ide_rs.Json.{Value}
use tx_ide_rs.Agent.{AgentId}
use tx_ide_rs.Engine.{LlmEngineHook}
use tx_ide_rs.Core.World.{TxCore, World}
use tx_ide_rs.Core.Change.{rename_agent, update_ext, hook, set_agent_tags}
use tx_ide_rs.Core.Stop.{refresh_agent, refresh_all, interrupt_agent, stop_agent}
use tx_ide_rs.Core.Message.{Sender, send_message, get_execution_location}
use tx_ide_rs.Core.Launch.{CreateOptions, ForkOptions, create_agent, fork_agent, respawn_agent}
use tx_ide_rs.Core.Refine.Mints.{minting, fork_minting}

pub data Operation : Type 0 where
  create : CreateOptions → Operation
  fork : AgentId → ForkOptions → Operation
  respawn : AgentId → Operation
  rename : AgentId → Text → Operation
  change_ext : AgentId → Text → (Value → Value) → Operation
  report_hook : AgentId → LlmEngineHook → Operation
  set_tags : AgentId → List Text → Operation
  refresh : AgentId → Operation
  refresh_every : Operation
  interrupt : AgentId → Operation
  stop : AgentId → Operation
  send : AgentId → Text → Sender → Operation
  locate : AgentId → Operation

abbrev pub is_respawn : Operation → Bool
is_respawn (respawn id) = true
is_respawn _ = false

-- The id, if there is one, is not the id of a record.
abbrev pub IsNew : Dir → Res CoreError AgentId → Type 0
IsNew d r = (id : AgentId) → r ≡ ok id → load id d ≡ ok none

module _ {T : Type 0} (core : TxCore T) where
  -- The state that the operation leaves, whether it succeeds or fails.
  unfoldable pub run : Operation → World T → World T
  run (create opts) w = (create_agent core opts w).1
  run (fork id options) w = (fork_agent core id options w).1
  run (respawn id) w = (respawn_agent core id w).1
  run (rename id name) w = (rename_agent core id name w).1
  run (change_ext id plugin f) w = (update_ext core id plugin f w).1
  run (report_hook id h) w = (hook core id h w).1
  run (set_tags id tags) w = (set_agent_tags core id tags w).1
  run (refresh id) w = (refresh_agent core id w).1
  run refresh_every w = (refresh_all core w).1
  run (interrupt id) w = (interrupt_agent core id w).1
  run (stop id) w = (stop_agent core id w).1
  run (send to text sender) w = (send_message core to text sender w).1
  run (locate id) w = (get_execution_location core id w).1

  -- The id that the operation mints here, if it comes so far, is not the id of a record: the ids
  -- are random, and that a new one is not an old one is all that the code relies on.
  abbrev pub MintsNew : Operation → World T → Type 0
  MintsNew (create opts) w = IsNew w.dir (minting core opts w).0
  MintsNew (fork id options) w = IsNew w.dir (fork_minting core id options w).0
  MintsNew _ w = Unit

  -- The worlds that a run may reach, where each id that it mints is new; `may` tells whether the
  -- run may respawn agents.
  pub data Reaches (may : Bool) (w : World T) : World T → Type 0 where
    here : Reaches may w w
    operation :
        {v : World T} (o : Operation)
        → (is_respawn o ≡ true → may ≡ true)
        → Reaches may w v
        → MintsNew o v
        → Reaches may w (run o v)
    elsewhere : {v : World T} (t : T) → Reaches may w v → Reaches may w (record v { outer = t })
