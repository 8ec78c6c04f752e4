-- ===== src/Engine.antt =====
-- Engines as plugins (tx-core/src/engine.rs, and the hook types of tx-core/src/state.rs). An
-- adapter is a record of functions. What an adapter does outside the core (trust files, archives)
-- happens to a state `T` of the outside world.
pub mod Registry
pub mod Paths
use tx_ide_rs.Prelude.{ℕ, Bool, List, [], ◌∷◌, Option, none, some, Text}
use tx_ide_rs.Json.{Value, null, object, Fields}
use tx_ide_rs.Agent.{Agent, EngineKind, LlmEngineState, ext_get}
use tx_ide_rs.Result.{Res, EngineError}
use tx_ide_rs.Messaging.{EnvelopeSender, Input}

pub record LlmEngineHook : Type 0 where
  pub hook_name : Text
  pub payload : Value
  pub at : ℕ

pub record LlmEngineChange : Type 0 where
  pub new_state : Option LlmEngineState
  pub engine_data : Option Value

-- The roles' text and skills with the definition on top, and the MCP servers of a launch, each
-- with the variables that its secrets name.
pub record ResolvedProfile : Type 0 where
  pub prompt_text : Text
  pub mcp_servers : List (Text × List Text)

pub record LaunchRequest : Type 0 where
  pub session : Agent
  pub profile : ResolvedProfile
  pub profile_file : Text
  pub hook_command : List Text

pub data WorkspaceAction : Type 0 where
  write_file : Text → Text → WorkspaceAction
  symlink : Text → Text → WorkspaceAction

pub record LaunchPlan : Type 0 where
  pub program : Text
  pub args : List Text
  pub env : List (Text × Text)
  pub workspace : List WorkspaceAction
  pub engine_data : Option Value

pub record Conversation : Type 0 where
  pub conversation_id : Text
  pub transcript_path : Text

pub record LlmEngine (T : Type 0) : Type 0 where
  pub kind : EngineKind
  pub ext_key : Text
  pub configure : Agent → Value → Res EngineError Value
  pub start : LaunchRequest → Text → Res EngineError LaunchPlan
  pub resume : LaunchRequest → Res EngineError LaunchPlan
  pub fork : LaunchRequest → Agent → Text → Res EngineError LaunchPlan
  pub receive_message : EnvelopeSender → Text → Input
  pub stop : Agent → Option Input
  pub interrupt : Agent → Option (Input × Option LlmEngineState)
  pub on_hook : Agent → LlmEngineHook → LlmEngineChange
  pub archive : Agent → Text → T → Res EngineError (Unit {0}) × T
  pub prepare : Agent → T → Res EngineError (Unit {0}) × T
  pub restore : Agent → Text → T → Res EngineError Bool × T
  pub conversation : Agent → Option Conversation

object_or_null : Option Value → Value
object_or_null (some (object fs)) = object fs
object_or_null _ = null

-- `engine_data`: the engine's data in a record, `Null` unless it is an object.
pub engine_data_of : {T : Type 0} → LlmEngine T → Agent → Value
unfolding object_or_null
engine_data_of engine session = object_or_null (ext_get engine.ext_key session.ext)
