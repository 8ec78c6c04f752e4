-- ===== src/Home.antt =====
-- The model of the home screen (plugins/home/src/model.rs): the data that it lists.
pub mod Rows
pub mod Keys
pub mod Choice
pub mod Footer
pub mod Nearest
pub mod Cursor
pub mod Calm
pub mod Stopping
pub mod Codec
use tx_ide_rs.Prelude.{
  ℕ, Bool, true, false, ◌&&◌, List, [], ◌∷◌, Option, none, some, Text, if◌then◌else◌, ◌==◌,
}
use tx_ide_rs.Agent.{LlmEngineState}

pub record Project : Type 0 where
  pub name : Text
  pub path : Text

-- Times are in whole units; texts are lists of code points.
pub record AgentRow : Type 0 where
  pub id : Text
  pub name : Text
  pub tag : Text
  pub state : LlmEngineState
  pub age_at : ℕ
  pub branch : Option Text
  pub chats : ℕ
  pub project : ℕ
  pub is_assistant : Bool

pub record ViewRow : Type 0 where
  pub name : Text
  pub parent : Option Text
  pub project : Option ℕ

pub record Detail : Type 0 where
  pub roles : List Text
  pub model : Option Text
  pub effort : Option Text
  pub parent_name : Option Text
  pub last_user : Option Text
  pub last_agent : Option Text
  pub artifacts : List (Text × ℕ)
  pub started_at : ℕ
  pub ended_at : Option ℕ

pub data AssistantState : Type 0 where
  absent creating starting_up ready : AssistantState
  stopped failed : Text → AssistantState

pub record KeyHint : Type 0 where
  pub plugin : Text
  pub keys : List Text
  pub text : Text

pub record Context : Type 0 where
  pub projects : List Project
  pub agents : List AgentRow
  pub views : List ViewRow
  pub details : List (Text × Detail)
  pub assistant : AssistantState
  pub plugins : List (Text × Bool)
  pub keys : List KeyHint
  pub now : ℕ
  pub home_directory : Text

-- A row of the main list. The first view of a views row is apart, since the row is never empty.
pub data Row : Type 0 where
  project_row : Project → Row
  agent_row : AgentRow → Row
  detail_row : AgentRow → Option Detail → Row
  views_row : ViewRow → List ViewRow → Row
  ended_fold : ℕ → ℕ → Row
  first_run loading : Row

pub data Action : Type 0 where
  attach resume new stop ask artifacts : Text → Action
  timeline tutor warm : Action

pub data View : Type 0 where
  main_view : View
  plugins_view keys_view : ℕ → View

pub data Outcome : Type 0 where
  stay close next_theme : Outcome
  run : Action → Outcome

pub data Confirm : Type 0 where
  stop_agent : Text → Confirm

pub data Input : Type 0 where
  find_input : Input
  ask_input : Text → Input

pub record Home : Type 0 where
  pub context : Context
  pub loaded : Bool
  pub cursor : ℕ
  pub unfolded : List Text
  pub ended_shown : Bool
  pub filter_text : Text
  pub view : View
  pub confirm : Option Confirm
  pub input : Option Input
  pub popup : Bool
  pub themed : Bool
  pub notice : Option (Text × ℕ)
