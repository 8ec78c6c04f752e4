-- ===== src/Core/World.antt =====
-- The state that an operation runs on, what lies outside the core, and the operations that every
-- public one is made of. A result and the state after it are returned together, so that what a
-- failed operation has already done stays done.
use tx_ide_rs.Prelude.{
  ℕ, Bool, true, false, List, [], ◌∷◌, ◌++◌, Option, none, some, Text, text_eq, if◌then◌else◌,
}
use tx_ide_rs.Agent.{Agent, AgentId, DefinitionChoice, EngineKind}
use tx_ide_rs.Result.{
  Res, ok, err, StoreError, store_io, encode, TmuxError, EngineError, CoreError, not_found,
  lock_error, store_error, tmux_error, engine_disabled, not_running,
}
use tx_ide_rs.Store.{Dir, load, put, all}
use tx_ide_rs.Engine.{LlmEngine, ResolvedProfile, WorkspaceAction}
use tx_ide_rs.Engine.Registry.{get_engine}
use tx_ide_rs.Events.{Event, EventType}

-- `Live` of tx-core/src/tmux.rs.
pub record Live : Type 0 where
  pub session_target : Text
  pub pane_target : Text

-- How a write of a record file ends. The rename is atomic: before it nothing has changed, and
-- after it the record is there, also when the directory cannot be synced.
pub data WriteOutcome : Type 0 where
  written : WriteOutcome
  unencodable : WriteOutcome
  not_written : Text → WriteOutcome
  not_synced : Text → WriteOutcome

-- What the core does not implement: the clock, the minting of ids, file locks, the file system,
-- tmux, processes, git and the definition files. `T` is the state of all that.
pub record Outside (T : Type 0) : Type 0 where
  pub now : T → ℕ × T
  pub mint : T → AgentId × T
  pub lock_create : T → Res Text (Unit {0}) × T
  pub lock_agent : AgentId → T → Res Text (Unit {0}) × T
  pub archive_lock : Text → T → Res EngineError Bool × T
  pub write_record : Agent → T → WriteOutcome × T
  pub is_dir : Text → T → Bool × T
  pub canonicalize : Text → T → Res Text Text × T
  pub list_live : T → Res TmuxError (List (AgentId × Live)) × T
  pub new_session : Agent → Text → List Text → List (Text × Text) → T → Res TmuxError (Unit {0}) × T
  pub set_tx_id : Text → AgentId → T → Res TmuxError (Unit {0}) × T
  pub rename_session : Text → Text → T → Res TmuxError (Unit {0}) × T
  pub kill_session : Text → T → Res TmuxError Bool × T
  pub pane_pid : Text → T → Res TmuxError (Option ℕ) × T
  pub send_keys_literal : Text → Text → T → Res TmuxError (Unit {0}) × T
  pub send_key : Text → Text → T → Res TmuxError (Unit {0}) × T
  pub sleep : ℕ → T → T
  pub process_exists : ℕ → T → Bool × T
  pub kill_process : ℕ → T → T
  pub create_worktree : Text → Text → T → Res Text Text × T
  pub remove_worktree : Text → T → T
  pub resolve_roles : List Text → T → Res Text ResolvedProfile × T
  pub definition_roles : Text → T → Res Text (List Text) × T
  pub apply_definition : ResolvedProfile → DefinitionChoice → T → Res Text ResolvedProfile × T
  pub write_profile : ResolvedProfile → Text → T → Res Text (Unit {0}) × T
  pub remove_profile : Text → T → T
  pub apply_workspace : Text → List WorkspaceAction → T → Res EngineError (Unit {0}) × T

-- The parts of `CoreConfig` that the operations read.
pub record Config : Type 0 where
  pub socket : Text
  pub directory_env : List (Text × Text)
  pub env : List (Text × Text)
  pub caller_env : List (Text × Text)
  pub hook_command : List Text
  pub default_definition : Option Text
  pub profile_path : AgentId → Text
  pub archive_directory : AgentId → Text

-- `TxCore`
pub record TxCore (T : Type 0) : Type 0 where
  pub outside : Outside T
  pub config : Config
  pub engines : List (LlmEngine T)

-- The record files, the world outside, and the events emitted so far, oldest first.
pub record World (T : Type 0) : Type 0 where
  pub dir : Dir
  pub outer : T
  pub log : List Event

abbrev pub M : Type 0 → Type 0 → Type 0
M T A = World T → Res CoreError A × World T

abbrev pub bind_result {ℓ} :
    {E : Type 0} {A B : Type 0} {W : Type ℓ} → Res E A × W → (A → W → Res E B × W) → Res E B × W
bind_result (ok a, w) f = f a w
bind_result (err e, w) f = (err e, w)

abbrev pub map_error : {E B : Type 0} → (E → CoreError) → Res E B → Res CoreError B
map_error wrap (ok b) = ok b
map_error wrap (err e) = err (wrap e)

module _ {T : Type 0} where
  abbrev pub pure : {A : Type 0} → A → M T A
  pure a w = (ok a, w)

  abbrev pub fail : {A : Type 0} → CoreError → M T A
  fail e w = (err e, w)

  infixl 5 ◌>>=◌ ◌>>◌
  unfoldable pub ◌>>=◌ : {A B : Type 0} → M T A → (A → M T B) → M T B
  ◌>>=◌ m f w = bind_result (m w) f

  abbrev pub ◌>>◌ : {B : Type 0} → M T (Unit {0}) → M T B → M T B
  m >> k = m >>= λ _. k

  abbrev pub guard : Bool → CoreError → M T (Unit {0})
  guard true e = pure tt
  guard false e = fail e

  -- A call outside the core that cannot fail, one that can, and one whose failure is ignored.
  abbrev pub ask : {B : Type 0} → (T → B × T) → M T B
  ask call w = let r = call w.outer in (ok r.0, record w { outer = r.1 })

  abbrev pub attempt : {E B : Type 0} → (E → CoreError) → (T → Res E B × T) → M T B
  attempt wrap call w = let r = call w.outer in (map_error wrap r.0, record w { outer = r.1 })

  abbrev pub effect : (T → T) → M T (Unit {0})
  effect call w = (ok tt, record w { outer = call w.outer })

  abbrev pub from_store : {B : Type 0} → (Dir → Res StoreError B) → M T B
  from_store query w = (map_error store_error (query w.dir), w)

  abbrev pub from_result : {E B : Type 0} → (E → CoreError) → Res E B → M T B
  from_result wrap r w = (map_error wrap r, w)

  abbrev pub from_option : {B : Type 0} → CoreError → Option B → M T B
  from_option e none = fail e
  from_option e (some b) = pure b

  -- `emit`: the log line and the sinks; a failed append and a panicking sink change nothing else.
  abbrev pub emit : List Event → M T (Unit {0})
  emit events w = (ok tt, record w { log = w.log ++ events })

-- `LiveTable::get`
unfoldable pub find_live : AgentId → List (AgentId × Live) → Option Live
find_live id [] = none
find_live id ((i, live) ∷ table) = if text_eq i id then some live else find_live id table

module _ {T : Type 0} (core : TxCore T) where
  open core use {outside}

  -- `AgentStore::save`, by the outcome of the write.
  unfoldable pub finish_write : Agent → WriteOutcome → World T → Res CoreError Agent × World T
  finish_write a written w = (ok a, record w { dir = put a w.dir })
  finish_write a unencodable w = (err (store_error (encode a.id)), w)
  finish_write a (not_written e) w = (err (store_error (store_io e)), w)
  finish_write a (not_synced e) w = (err (store_error (store_io e)), record w { dir = put a w.dir })

  unfoldable pub write_agent : Agent → M T Agent
  unfolding finish_write
  write_agent a w =
      let r = outside.write_record a w.outer in finish_write a r.0 (record w { outer = r.1 })

  -- `TxCore::save`: the record with `last_modified_at` stamped.
  unfoldable pub save : Agent → M T Agent
  save session = do at ← ask outside.now; write_agent (record session { last_modified_at = at })

  unfoldable pub get_agent : AgentId → M T Agent
  get_agent id = do found ← from_store (load id); from_option (not_found id) found

  unfoldable pub all_agents : M T (List Agent)
  all_agents = from_store all

  -- `Event::new`, which reads the clock.
  unfoldable pub event : EventType → Agent → Option AgentId → Text → M T Event
  event type_ session actor detail = do
    at ← ask outside.now
    pure (record {
      ts = at;
      type_ = type_;
      id = session.id;
      name = session.name;
      actor = actor;
      detail = detail;
    })

  -- `Tmux::is_live`
  unfoldable pub is_live : AgentId → M T (Option Live)
  is_live id = do table ← attempt tmux_error outside.list_live; pure (find_live id table)

  unfoldable pub live_or_not_running : AgentId → M T Live
  live_or_not_running id = do found ← is_live id; from_option (not_running id) found

  unfoldable pub hold_create_lock : M T (Unit {0})
  hold_create_lock = attempt lock_error outside.lock_create

  unfoldable pub hold_agent_lock : AgentId → M T (Unit {0})
  hold_agent_lock id = attempt lock_error (outside.lock_agent id)

  unfoldable pub engine_of : EngineKind → M T (LlmEngine T)
  engine_of kind = from_option (engine_disabled kind) (get_engine kind core.engines)
