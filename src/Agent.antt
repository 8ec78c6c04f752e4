-- ===== src/Agent.antt =====
-- The session record and the grammar of ids and names (tx-core/src/agent.rs), and the agent's
-- state (tx-core/src/state.rs). Times are natural numbers: the clock is only stamped and compared.
pub mod Names
use tx_ide_rs.Prelude.{
  ℕ, ◌≡◌, ◌↔◌, arith, Bool, true, false, not, ◌&&◌, ◌||◌, List, [], ◌∷◌, Option, none, some, Text,
  text_eq, codes, leb, ◌==◌, if◌then◌else◌, length, all,
}
use tx_ide_rs.Json.{Value}

-- `EngineKind` of tx-core/src/engine.rs.
pub data EngineKind : Type 0 where
  claude codex : EngineKind

abbrev pub engine_name : EngineKind → Text
engine_name claude = codes "claude"
engine_name codex = codes "codex"

unfoldable pub kind_eq : EngineKind → EngineKind → Bool
kind_eq claude claude = true
kind_eq codex codex = true
kind_eq _ _ = false

pub kind_eq_iff : (a b : EngineKind) → (kind_eq a b ≡ true) ↔ (a ≡ b)
unfolding kind_eq
kind_eq_iff claude b = ground arith
kind_eq_iff codex b = ground arith

-- `EngineKind::from_str`: `none` is `InvalidEngineKind`.
unfoldable pub parse_kind : Text → Option EngineKind
parse_kind text =
    if text_eq (engine_name claude) text
    then some claude
    else if text_eq (engine_name codex) text
    then some codex
    else none

-- `LlmEngineState`
pub data LlmEngineState : Type 0 where
  starting idle working ended : LlmEngineState

abbrev pub state_name : LlmEngineState → Text
state_name starting = codes "starting"
state_name idle = codes "idle"
state_name working = codes "working"
state_name ended = codes "ended"

abbrev pub state_eq : LlmEngineState → LlmEngineState → Bool
state_eq starting starting = true
state_eq idle idle = true
state_eq working working = true
state_eq ended ended = true
state_eq _ _ = false

-- `state == LlmEngineState::Ended`; a record is running while it is not.
abbrev pub is_ended : LlmEngineState → Bool
is_ended ended = true
is_ended _ = false

abbrev pub max_name_bytes : ℕ
max_name_bytes = 128

abbrev pub max_id_bytes : ℕ
max_id_bytes = 64

-- `u8::is_ascii_alphanumeric`
unfoldable pub is_ascii_alphanumeric : ℕ → Bool
is_ascii_alphanumeric b =
    (leb b'0' b && leb b b'9') || ((leb b'A' b && leb b b'Z') || (leb b'a' b && leb b b'z'))

is_safe_byte : ℕ → Bool
unfolding is_ascii_alphanumeric
is_safe_byte b = is_ascii_alphanumeric b || (b == b'_' || b == b'-')

is_safe_fragment : Text → ℕ → Bool
is_safe_fragment text max_bytes =
    not (length text == 0) && (leb (length text) max_bytes && all is_safe_byte text)

abbrev pub AgentId : Type 0
AgentId = Text

-- `AgentId::from_str`: `none` is `InvalidAgentId`.
unfoldable pub parse_id : Text → Option AgentId
unfolding is_safe_fragment is_safe_byte
parse_id id = if is_safe_fragment id max_id_bytes then some id else none

-- `validate_name`: whether it is `Ok`.
unfoldable pub is_valid_name : Text → Bool
unfolding is_safe_fragment is_safe_byte
is_valid_name name = is_safe_fragment name max_name_bytes

pub record DefinitionChoice : Type 0 where
  pub agent : Text
  pub skills : List Text
  pub mcp_servers : List Text
  pub tools : List Text

-- `DefinitionChoice::new`
abbrev pub new_choice : Text → DefinitionChoice
new_choice agent = record { agent = agent; skills = []; mcp_servers = []; tools = [] }

-- `ext` is a map from a plugin's or an engine's key to its data; `other` holds unknown keys.
pub record Agent : Type 0 where
  pub id : AgentId
  pub name : Text
  pub engine : EngineKind
  pub working_directory : Text
  pub roles : List Text
  pub definition : Option DefinitionChoice
  pub state : LlmEngineState
  pub created_at : ℕ
  pub last_modified_at : ℕ
  pub last_activity_at : Option ℕ
  pub tags : List Text
  pub parent_id : Option AgentId
  pub ext : List (Text × Value)
  pub other : List (Text × Value)

-- `BTreeMap::get`
unfoldable pub ext_get : Text → List (Text × Value) → Option Value
ext_get key [] = none
ext_get key ((k, v) ∷ m) = if text_eq k key then some v else ext_get key m

-- `BTreeMap::insert`
unfoldable pub ext_insert : Text → Value → List (Text × Value) → List (Text × Value)
ext_insert key v [] = (key, v) ∷ []
ext_insert key v ((k, w) ∷ m) = if text_eq k key then (key, v) ∷ m else (k, w) ∷ ext_insert key v m

-- `BTreeMap::remove`
unfoldable pub ext_remove : Text → List (Text × Value) → List (Text × Value)
ext_remove key [] = []
ext_remove key ((k, w) ∷ m) = if text_eq k key then ext_remove key m else (k, w) ∷ ext_remove key m
