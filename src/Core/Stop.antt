-- ===== src/Core/Stop.antt =====
-- The operations that compare a record with tmux, and stop an agent: refresh, interrupt, stop.
use tx_ide_rs.Prelude.{
  ℕ, Bool, true, false, not, ◌||◌, List, [], ◌∷◌, ◌++◌, Option, none, some, Text, codes,
  if◌then◌else◌,
}
use tx_ide_rs.Agent.{Agent, AgentId, LlmEngineState, ended, state_eq, is_ended, engine_name}
use tx_ide_rs.Result.{not_running, tmux_error, engine_error, refused}
use tx_ide_rs.Store.{load}
use tx_ide_rs.Messaging.{Input}
use tx_ide_rs.Engine.{LlmEngine}
use tx_ide_rs.Engine.Registry.{get_engine}
use tx_ide_rs.Events.{Event, stopped, state_changed}
use tx_ide_rs.Core.World.{
  Live, TxCore, M, pure, ◌>>=◌, ◌>>◌, guard, ask, attempt, from_store, from_option, emit, save,
  get_agent, all_agents, event, is_live, find_live, live_or_not_running, hold_create_lock,
  hold_agent_lock, engine_of,
}
use tx_ide_rs.Core.Read.{is_running}
use tx_ide_rs.Core.Archive.{
  archive_conversation, mark_exited, deliver, wait_for_exit, wait_or_kill, stop_wait,
}
use tx_ide_rs.Core.Change.{is_none, state_detail}

-- `RefreshResult`: `Unchanged`, and `Exited`, which is `gone` here.
pub data RefreshResult : Type 0 where
  unchanged gone : Agent → RefreshResult

-- `LiveTable::contains`
unfoldable pub is_listed : AgentId → List (AgentId × Live) → Bool
unfolding find_live
is_listed id table = not (is_none (find_live id table))

module _ {T : Type 0} where
  unfoldable pub stop_input : Option (LlmEngine T) → Agent → Option Input
  stop_input none session = none
  stop_input (some adapter) session = adapter.stop session

module _ {T : Type 0} (core : TxCore T) where
  open core use {outside, engines}

  unfoldable pub list_live_agents : M T (List (AgentId × Live))
  list_live_agents = attempt tmux_error outside.list_live

  unfoldable pub refresh_exited : Agent → M T RefreshResult
  refresh_exited session = do
    left ← mark_exited core session
    emit (left.1 ∷ [])
    pure (gone left.0)

  unfoldable pub refresh_running : AgentId → Agent → M T RefreshResult
  unfolding refresh_exited list_live_agents
  refresh_running id session = do
    table ← list_live_agents
    if is_listed id table then pure (unchanged session) else refresh_exited session

  unfoldable pub refresh_agent : AgentId → M T RefreshResult
  unfolding refresh_running
  refresh_agent id = do
    hold_agent_lock core id
    session ← get_agent core id
    if is_ended session.state then pure (unchanged session) else refresh_running id session

  -- The record is read again under its lock: another process may have stopped it meanwhile.
  unfoldable pub exit_current : Option Agent → M T (List Agent)
  exit_current none = pure []
  exit_current (some current) =
      if is_ended current.state
      then pure []
      else (do left ← mark_exited core current; emit (left.1 ∷ []); pure (left.0 ∷ []))

  unfoldable pub exit_if_gone : List (AgentId × Live) → Agent → M T (List Agent)
  unfolding exit_current
  exit_if_gone table session =
      if is_ended session.state || is_listed session.id table then pure [] else (do
        hold_agent_lock core session.id
        current ← from_store (load session.id)
        exit_current current)

  unfoldable pub exit_all_gone : List (AgentId × Live) → List Agent → M T (List Agent)
  exit_all_gone table [] = pure []
  exit_all_gone table (session ∷ rest) = do
    changed ← exit_if_gone table session
    later ← exit_all_gone table rest
    pure (changed ++ later)

  -- The records that changed.
  unfoldable pub refresh_all : M T (List Agent)
  unfolding exit_all_gone exit_if_gone list_live_agents
  refresh_all = do records ← all_agents core; table ← list_live_agents; exit_all_gone table records

  -- The state that the engine says the agent is in after its turn was aborted.
  unfoldable pub apply_interrupt : Agent → Option LlmEngineState → M T (Unit {0})
  apply_interrupt session none = pure tt
  apply_interrupt session (some to) = if state_eq to session.state then pure tt else (do
    at ← ask outside.now
    saved ← save core (record session { state = to; last_activity_at = some at })
    e ← event core state_changed saved none (state_detail session.state to)
    emit (e ∷ []))

  unfoldable pub interrupt_agent : AgentId → M T (Unit {0})
  unfolding apply_interrupt
  interrupt_agent id = do
    hold_agent_lock core id
    session ← get_agent core id
    guard (is_running session) (not_running id)
    adapter ← engine_of core session.engine
    plan ←
        from_option
          (engine_error
            (refused (engine_name session.engine ++ codes " has no way to interrupt a turn")))
          (adapter.interrupt session)
    live ← live_or_not_running core id
    deliver core live.pane_target plan.0
    apply_interrupt session plan.1

  -- The engine's own stop input, or the end of the tmux session.
  unfoldable pub send_stop : Live → Option Input → M T (Unit {0})
  send_stop live (some input) = deliver core live.pane_target input
  send_stop live none = do
    killed ← attempt tmux_error (outside.kill_session live.session_target)
    pure tt

  unfoldable pub leaves : Bool → ℕ → M T Bool
  leaves false pid = pure false
  leaves true pid = wait_for_exit core pid stop_wait

  unfoldable pub kill_asked : Bool → Live → M T (Unit {0})
  kill_asked false live = pure tt
  kill_asked true live = do
    killed ← attempt tmux_error (outside.kill_session live.session_target)
    pure tt

  unfoldable pub kill_if_left : Bool → Bool → ℕ → Live → M T Text
  unfolding kill_asked
  kill_if_left true asked pid live = pure []
  kill_if_left false asked pid live = do
    kill_asked asked live
    killed ← wait_or_kill core pid
    pure (codes "killed")

  -- After the save, with the session lock released; the detail of the event.
  unfoldable pub finish_stop : Live → Bool → Agent → Option ℕ → M T Text
  unfolding leaves kill_if_left
  finish_stop live asked session none = pure []
  finish_stop live asked session (some pid) = do
    left ← leaves asked pid
    detail ← kill_if_left left asked pid live
    archive_conversation core session
    pure detail

  unfoldable pub stop_live : Agent → Live → M T (Agent × Event)
  unfolding stop_input send_stop finish_stop
  stop_live session live = do
    let input = stop_input (get_engine session.engine engines) session
    pid ← attempt tmux_error (outside.pane_pid live.pane_target)
    send_stop live input
    saved ← save core (record session { state = ended })
    detail ← finish_stop live (not (is_none input)) saved pid
    e ← event core stopped saved none detail
    pure (saved, e)

  unfoldable pub stop_found : Agent → Option Live → M T (Agent × Event)
  unfolding stop_live
  stop_found session none = mark_exited core session
  stop_found session (some live) = stop_live session live

  unfoldable pub stop_locked : AgentId → M T (Agent × Event)
  unfolding stop_found
  stop_locked id = do
    hold_agent_lock core id
    session ← get_agent core id
    guard (is_running session) (not_running id)
    found ← is_live core id
    stop_found session found

  unfoldable pub stop_agent : AgentId → M T Agent
  unfolding stop_locked
  stop_agent id = do hold_create_lock core; left ← stop_locked id; emit (left.1 ∷ []); pure left.0
