-- ===== src/Core/Read.antt =====
-- The operations that only read: stored snapshots, never tmux.
pub mod Resolve
use tx_ide_rs.Prelude.{
  Bool, true, false, not, ◌&&◌, List, [], ◌∷◌, map, Option, none, some, Text, text_eq, contains,
  find, filter,
}
use tx_ide_rs.Agent.{Agent, AgentId, is_ended, parse_id}
use tx_ide_rs.Result.{not_found}
use tx_ide_rs.Store.{load, skipped_records}
use tx_ide_rs.Engine.{Conversation}
use tx_ide_rs.Core.World.{
  TxCore, M, pure, ◌>>=◌, from_store, from_option, get_agent, all_agents, engine_of,
}

pub record ListFilter : Type 0 where
  pub parent : Option AgentId
  pub tag : Option Text
  pub ended : Option Bool

option_text_eq : Option Text → Text → Bool
option_text_eq none t = false
option_text_eq (some s) t = text_eq s t

bool_eq : Bool → Bool → Bool
bool_eq true b = b
bool_eq false b = not b

matches_parent : Option AgentId → Agent → Bool
matches_parent none session = true
matches_parent (some parent) session = option_text_eq session.parent_id parent

matches_tag : Option Text → Agent → Bool
matches_tag none session = true
matches_tag (some tag) session = contains session.tags tag

matches_ended : Option Bool → Agent → Bool
matches_ended none session = true
matches_ended (some ended) session = bool_eq (is_ended session.state) ended

-- `ListFilter::matches`
unfoldable pub matches : ListFilter → Agent → Bool
unfolding matches_parent matches_tag matches_ended option_text_eq bool_eq
matches f session =
    matches_parent f.parent session && (matches_tag f.tag session && matches_ended f.ended session)

abbrev pub is_running : Agent → Bool
is_running a = not (is_ended a.state)

pub last : List Agent → Option Agent
last [] = none
last (a ∷ []) = some a
last (a ∷ as') = last as'

-- The choice of `resolve` among the records of a name: the first running one, else the last.
unfoldable pub pick : List Agent → Option Agent
unfolding last
pick named =
    let newest = last named in elim (find is_running named) [ some a ↦ some a | none ↦ newest ]

unfoldable pub holds_name : Text → Option AgentId → Agent → Bool
unfolding option_text_eq
holds_name name except a = is_running a && (text_eq a.name name && not (option_text_eq except a.id))

module _ {T : Type 0} (core : TxCore T) where
  unfoldable pub list_agents : ListFilter → M T (List AgentId)
  list_agents f = do agents ← all_agents core; pure (map (λ a. a.id) (filter (matches f) agents))

  unfoldable pub list_skipped : M T (List (AgentId × Text))
  list_skipped = from_store skipped_records

  unfoldable pub conversation : AgentId → M T (Option Conversation)
  conversation id = do
    session ← get_agent core id
    adapter ← engine_of core session.engine
    pure (adapter.conversation session)

  unfoldable pub resolve_name : Text → M T AgentId
  resolve_name name = do
    agents ← all_agents core
    session ← from_option (not_found name) (pick (filter (λ a. text_eq a.name name) agents))
    pure session.id

  -- The record that the text names as an id, if it is one.
  unfoldable pub record_of_id : Option AgentId → M T (Option Agent)
  record_of_id none = pure none
  record_of_id (some id) = from_store (load id)

  unfoldable pub resolve : Text → M T AgentId
  unfolding resolve_name record_of_id
  resolve name_or_id = do
    found ← record_of_id (parse_id name_or_id)
    elim found [ some session ↦ pure name_or_id | none ↦ resolve_name name_or_id ]

  -- The names of the running records.
  unfoldable pub running_names : M T (List Text)
  running_names = do agents ← all_agents core; pure (map (λ a. a.name) (filter is_running agents))

  -- The running record other than `except` that carries `name`.
  unfoldable pub name_holder : Text → Option AgentId → M T (Option AgentId)
  name_holder name except = do
    agents ← all_agents core
    elim (find (holds_name name except) agents) [ none ↦ pure none | some a ↦ pure (some a.id) ]
