-- ===== src/Result.antt =====
-- Results, and the errors of the core's components (tx-core/src/error.rs and the error types
-- that it wraps). A message that only a person reads is carried as a text.
use tx_ide_rs.Prelude.{ℕ, Text}
use tx_ide_rs.Agent.{AgentId, EngineKind}

pub data Res {ℓ} (E : Type ℓ) (A : Type ℓ) : Type ℓ where
  ok : A → Res E A
  err : E → Res E A

-- `ReadError` of tx-core/src/store.rs, with `RecordError` behind `json` and the version cases.
pub data ReadError : Type 0 where
  io : Text → ReadError
  utf8 : ReadError
  json : ReadError
  unsupported_version : ℕ → ReadError
  invalid_version : ReadError
  missing_version : ReadError
  unknown_engine : Text → ReadError
  not_a_file : ReadError
  id_mismatch : Text → ReadError

-- `StoreError`
pub data StoreError : Type 0 where
  store_io : Text → StoreError
  unreadable : AgentId → ReadError → StoreError
  encode : AgentId → StoreError

-- `TmuxError` of tx-core/src/tmux.rs.
pub data TmuxError : Type 0 where
  spawn : Text → TmuxError
  failed : Text → TmuxError
  inspection_failed : Text → TmuxError

-- `EngineError` of tx-core/src/engine.rs.
pub data EngineError : Type 0 where
  refused : Text → EngineError
  workspace : Text → Text → EngineError
  engine_io : Text → EngineError

-- `CoreError`
pub data CoreError : Type 0 where
  not_found : Text → CoreError
  name_taken : Text → CoreError
  name_held : Text → AgentId → CoreError
  invalid_name : Text → CoreError
  invalid_env_key : Text → CoreError
  not_a_directory : Text → CoreError
  not_running : AgentId → CoreError
  still_running : AgentId → CoreError
  worktree_missing : Text → CoreError
  engine_disabled : EngineKind → CoreError
  prompt_required : CoreError
  engine_taken : EngineKind → CoreError
  ext_key_taken : Text → CoreError
  invalid_ext_key : Text → CoreError
  profile_error : Text → CoreError
  definition_error : Text → CoreError
  missing_variable : Text → Text → CoreError
  engine_error : EngineError → CoreError
  store_error : StoreError → CoreError
  tmux_error : TmuxError → CoreError
  worktree_error : Text → CoreError
  lock_error : Text → CoreError
