-- ===== src/Tests/Sample.antt =====
-- A world outside in which every call succeeds, an engine, and a directory of two agents.
use tx_ide_rs.Prelude.{refl, text_eq, ℕ, ◌+◌, true, false, [], ◌∷◌, none, some, Text, codes}
use tx_ide_rs.Json.{null}
use tx_ide_rs.Agent.{Agent, AgentId, claude, LlmEngineState, idle, working, ended}
use tx_ide_rs.Result.{ok}
use tx_ide_rs.Messaging.{line, escape, key_input, build_envelope}
use tx_ide_rs.Store.Scan.{Distinct}
use tx_ide_rs.Store.{file_of, Dir, holds}
use tx_ide_rs.Engine.{LlmEngine, LaunchPlan, LlmEngineHook}
use tx_ide_rs.Core.World.{Live, Outside, TxCore, World, written}
use tx_ide_rs.Core.Launch.{CreateOptions, ForkOptions}

abbrev pub main_id : AgentId
main_id = codes "a1"

-- The id that is minted at a time.
abbrev pub sample_id : ℕ → AgentId
sample_id t = b'b' ∷ t ∷ []

abbrev pub old_id : AgentId
old_id = codes "a2"

-- The first that is minted when the clock shows 10.
abbrev pub fresh_id : AgentId
fresh_id = sample_id 10

abbrev pub live_main : Live
live_main = record { session_target = codes "=main"; pane_target = codes "%1" }

-- The state of the outside is its clock.
abbrev pub sample_outside : Outside ℕ
sample_outside = record {
  now = λ t. (t, t + 1);
  mint = λ t. (sample_id t, t);
  lock_create = λ t. (ok tt, t);
  lock_agent = λ id t. (ok tt, t);
  archive_lock = λ path t. (ok true, t);
  write_record = λ a t. (written, t);
  is_dir = λ path t. (true, t);
  canonicalize = λ path t. (ok path, t);
  list_live = λ t. (ok ((main_id, live_main) ∷ []), t);
  new_session = λ a program args env t. (ok tt, t);
  set_tx_id = λ name id t. (ok tt, t);
  rename_session = λ target name t. (ok tt, t);
  kill_session = λ target t. (ok true, t);
  pane_pid = λ pane t. (ok none, t);
  send_keys_literal = λ pane text t. (ok tt, t);
  send_key = λ pane key t. (ok tt, t);
  sleep = λ ms t. t + ms;
  process_exists = λ pid t. (false, t);
  kill_process = λ pid t. t;
  create_worktree = λ cwd name t. (ok (codes "/w"), t);
  remove_worktree = λ path t. t;
  resolve_roles = λ names t. (ok (record { prompt_text = []; mcp_servers = [] }), t);
  definition_roles = λ name t. (ok [], t);
  apply_definition = λ resolved choice t. (ok resolved, t);
  write_profile = λ resolved path t. (ok tt, t);
  remove_profile = λ path t. t;
  apply_workspace = λ cwd actions t. (ok tt, t);
}

abbrev pub sample_plan : LaunchPlan
sample_plan = record {
  program = codes "claude";
  args = [];
  env = [];
  workspace = [];
  engine_data = none;
}

abbrev pub sample_engine : LlmEngine ℕ
sample_engine = record {
  kind = claude;
  ext_key = codes "claude";
  configure = λ session options. ok options;
  start = λ request prompt. ok sample_plan;
  resume = λ request. ok sample_plan;
  fork = λ request source prompt. ok sample_plan;
  receive_message = λ sender text. line (build_envelope sender text);
  stop = λ session. none;
  interrupt = λ session. some (key_input escape, some idle);
  on_hook = λ session h. record { new_state = some idle; engine_data = none };
  archive = λ session path t. (ok tt, t);
  prepare = λ session t. (ok tt, t);
  restore = λ session path t. (ok true, t);
  conversation = λ session. none;
}

abbrev pub sample_core : TxCore ℕ
sample_core = record {
  outside = sample_outside;
  config = record {
    socket = codes "tx";
    directory_env = [];
    env = [];
    caller_env = [];
    hook_command = codes "tx" ∷ codes "hook" ∷ [];
    default_definition = none;
    profile_path = λ id. id;
    archive_directory = λ id. id;
  };
  engines = sample_engine ∷ [];
}

abbrev pub sample_agent : AgentId → Text → LlmEngineState → ℕ → Agent
sample_agent id name state created_at = record {
  id = id;
  name = name;
  engine = claude;
  working_directory = codes "/w";
  roles = [];
  definition = none;
  state = state;
  created_at = created_at;
  last_modified_at = created_at;
  last_activity_at = none;
  tags = [];
  parent_id = none;
  ext = [];
  other = [];
}

abbrev pub main_agent : Agent
main_agent = sample_agent main_id (codes "main") working 2

abbrev pub old_agent : Agent
old_agent = sample_agent old_id (codes "old") ended 1

abbrev pub sample_dir : Dir
sample_dir = (main_id, holds main_agent) ∷ (old_id, holds old_agent) ∷ []

abbrev pub sample_world : World ℕ
sample_world = record { dir = sample_dir; outer = 10; log = [] }

abbrev pub empty_world : World ℕ
empty_world = record { dir = []; outer = 10; log = [] }

abbrev pub sample_options : CreateOptions
sample_options = record {
  name = codes "main";
  cwd = codes "/r";
  parent = none;
  tags = codes "x" ∷ [];
  env = [];
  launch = record {
    engine = claude;
    profile = [];
    options = null;
    initial_prompt = codes "go";
    definition = none;
  };
}

abbrev pub sample_fork : ForkOptions
sample_fork = record {
  fork_name = none;
  prompt = codes "go";
  fork_tags = none;
  fork_options = null;
}

abbrev pub sample_hook : LlmEngineHook
sample_hook = record { hook_name = codes "Stop"; payload = null; at = 11 }

pub sample_dir-Distinct : Distinct sample_dir
unfolding file_of text_eq
sample_dir-Distinct = (refl, (refl, tt))
