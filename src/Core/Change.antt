-- ===== src/Core/Change.antt =====
-- The operations that change one record: rename, plugin data, hooks, tags, refresh.
use tx_ide_rs.Prelude.{
  Bool, true, false, List, [], ◌∷◌, ◌++◌, Option, none, some, Text, text_eq, codes, starts_with,
  if◌then◌else◌,
}
use tx_ide_rs.Json.{Value, null, value_eq, is_null}
use tx_ide_rs.Agent.{
  Agent, AgentId, LlmEngineState, state_eq, state_name, is_ended, is_valid_name, ext_get,
  ext_insert, ext_remove,
}
use tx_ide_rs.Result.{Res, ok, err, TmuxError, failed, invalid_name, name_taken, tmux_error}
use tx_ide_rs.Engine.{LlmEngine, LlmEngineHook}
use tx_ide_rs.Engine.Registry.{get_engine}
use tx_ide_rs.Events.{Event, renamed, tagged, state_changed, engine_data_changed}
use tx_ide_rs.Core.World.{
  Live, TxCore, M, pure, fail, ◌>>=◌, ◌>>◌, guard, ask, emit, save, get_agent, event, is_live,
  hold_create_lock, hold_agent_lock,
}
use tx_ide_rs.Core.Read.{is_running, name_holder}
use tx_ide_rs.Core.Archive.{archive_conversation}

-- `Option::is_none`
abbrev pub is_none {ℓ} : {A : Type ℓ} → Option A → Bool
is_none none = true
is_none (some _) = false

-- `ext[plugin]`, `Null` when absent.
unfoldable pub ext_or_null : Option Value → Value
ext_or_null none = null
ext_or_null (some v) = v

unfoldable pub same_data : Option Value → Value → Bool
same_data none v = false
same_data (some w) v = value_eq w v

-- `tags.join(", ")`
unfoldable pub join_tags : List Text → Text
join_tags [] = []
join_tags (t ∷ []) = t
join_tags (t ∷ ts) = t ++ (codes ", " ++ join_tags ts)

-- "<from> → <to>", with the three bytes of the arrow.
abbrev pub state_detail : LlmEngineState → LlmEngineState → Text
state_detail from to = state_name from ++ (0x20 ∷ 0xe2 ∷ 0x86 ∷ 0x92 ∷ 0x20 ∷ state_name to)

-- The record with the plugin's data replaced; `Null` removes the key.
unfoldable pub with_ext : Text → Value → Agent → Agent
with_ext plugin value session = record session {
  ext =
      if is_null value then ext_remove plugin session.ext else ext_insert plugin value session.ext;
}

module _ {T : Type 0} (core : TxCore T) where
  open core use {outside, engines}

  unfoldable pub rename_refused : Text → Res TmuxError (Unit {0}) → M T (Unit {0})
  rename_refused name (ok _) = pure tt
  rename_refused name (err (failed stderr)) =
      if starts_with stderr (codes "duplicate session")
      then fail (name_taken name)
      else fail (tmux_error (failed stderr))
  rename_refused name (err e) = fail (tmux_error e)

  unfoldable pub rename_in_tmux : Text → Option Live → M T (Unit {0})
  unfolding rename_refused
  rename_in_tmux name none = pure tt
  rename_in_tmux name (some live) = do
    answer ← ask (outside.rename_session live.session_target name)
    rename_refused name answer

  -- Only a running record has a tmux session to rename.
  unfoldable pub rename_live : AgentId → Agent → Text → M T (Unit {0})
  unfolding rename_in_tmux
  rename_live id session name =
      if is_running session
      then (do found ← is_live core id; rename_in_tmux name found)
      else pure tt

  unfoldable pub rename_record : AgentId → Agent → Text → M T (Agent × List Event)
  unfolding rename_live
  rename_record id session name = do
    holder ← name_holder core name (some id)
    guard (is_none holder) (name_taken name)
    rename_live id session name
    saved ← save core (record session { name = name })
    e ← event core renamed saved none (session.name ++ (codes " -> " ++ name))
    pure (saved, e ∷ [])

  unfoldable pub rename_locked : AgentId → Text → M T (Agent × List Event)
  rename_locked id name = do
    guard (is_valid_name name) (invalid_name name)
    hold_create_lock core
    hold_agent_lock core id
    session ← get_agent core id
    if text_eq session.name name then pure (session, []) else rename_record id session name

  unfoldable pub rename_agent : AgentId → Text → M T Agent
  rename_agent id name = do renamed_to ← rename_locked id name; emit renamed_to.1; pure renamed_to.0

  unfoldable pub write_ext : Text → Agent → Value → Value → M T Bool
  write_ext plugin session before value =
      if value_eq value before
      then pure false
      else (do saved ← save core (with_ext plugin value session); pure true)

  unfoldable pub update_ext : AgentId → Text → (Value → Value) → M T Bool
  unfolding write_ext
  update_ext id plugin f = do
    hold_agent_lock core id
    session ← get_agent core id
    let before = ext_or_null (ext_get plugin session.ext)
    write_ext plugin session before (f before)

  -- The state of a record moves, with its event, if it is another one.
  unfoldable pub move_state : Agent → Option LlmEngineState → M T (Agent × List Event)
  move_state session none = pure (session, [])
  move_state session (some to) = if state_eq to session.state then pure (session, []) else (do
    at ← ask outside.now
    let moved = record session { state = to; last_activity_at = some at }
    e ← event core state_changed moved none (state_detail session.state to)
    pure (moved, e ∷ []))

  unfoldable pub set_engine_data : Text → Agent → Option Value → M T (Agent × List Event)
  set_engine_data key session none = pure (session, [])
  set_engine_data key session (some value) =
      if same_data (ext_get key session.ext) value then pure (session, []) else (do
        let written = record session { ext = ext_insert key value session.ext }
        e ← event core engine_data_changed written none key
        pure (written, e ∷ []))

  unfoldable pub save_changed : List Event → Agent → M T Agent
  save_changed [] session = pure session
  save_changed (_ ∷ _) session = save core session

  unfoldable pub hook_engine : LlmEngine T → Agent → LlmEngineHook → M T (Option LlmEngineState)
  unfolding move_state set_engine_data save_changed
  hook_engine adapter session h = do
    let change = adapter.on_hook session h
    moved ← move_state session change.new_state
    written ← set_engine_data adapter.ext_key moved.0 change.engine_data
    saved ← save_changed (moved.1 ++ written.1) written.0
    emit (moved.1 ++ written.1)
    archive_conversation core saved
    pure (some moved.0.state)

  unfoldable pub hook_running :
      Option (LlmEngine T) → Agent → LlmEngineHook → M T (Option LlmEngineState)
  unfolding hook_engine
  hook_running none session h = pure none
  hook_running (some adapter) session h = hook_engine adapter session h

  unfoldable pub hook : AgentId → LlmEngineHook → M T (Option LlmEngineState)
  unfolding hook_running
  hook id h = do
    hold_agent_lock core id
    session ← get_agent core id
    if is_ended session.state
        then pure none
        else hook_running (get_engine session.engine engines) session h

  unfoldable pub set_agent_tags : AgentId → List Text → M T Agent
  unfolding join_tags
  set_agent_tags id tags = do
    hold_agent_lock core id
    session ← get_agent core id
    saved ← save core (record session { tags = tags })
    e ← event core tagged saved none (join_tags tags)
    emit (e ∷ [])
    pure saved
