-- ===== src/Core/Launch.antt =====
-- Create, fork and respawn: the launch of an agent.
use tx_ide_rs.Prelude.{
  Bool, true, false, not, List, [], ◌∷◌, ◌++◌, Option, none, some, Text, starts_with, codes, length,
  ◌==◌, if◌then◌else◌,
}
use tx_ide_rs.Json.{Value}
use tx_ide_rs.Agent.{
  Agent, AgentId, EngineKind, DefinitionChoice, new_choice, starting, ended, is_ended,
  is_valid_name, ext_get, ext_insert,
}
use tx_ide_rs.Result.{
  Res, ok, err, TmuxError, failed, EngineError, CoreError, invalid_name, name_taken, name_held,
  not_a_directory, still_running, worktree_missing, prompt_required, profile_error,
  definition_error, engine_error, store_error, store_io, tmux_error, worktree_error,
}
use tx_ide_rs.Engine.{LlmEngine, LaunchRequest, LaunchPlan, ResolvedProfile}
use tx_ide_rs.Events.{Event, created, forked, respawned, exited}
use tx_ide_rs.Core.World.{
  TxCore, World, M, pure, fail, ◌>>=◌, ◌>>◌, guard, ask, attempt, effect, from_result, from_option,
  emit, save, get_agent, event, is_live, hold_create_lock, hold_agent_lock, engine_of,
}
use tx_ide_rs.Core.Read.{running_names, name_holder}
use tx_ide_rs.Core.Change.{is_none}
use tx_ide_rs.Core.Env.{
  Env, session_id_env, tmux_socket_env, merge_env, validate_env, add_secrets, is_blank,
  session_vanished, free_name,
}

-- `LaunchOptions`
pub record LaunchOptions : Type 0 where
  pub engine : EngineKind
  pub profile : List Text
  pub options : Value
  pub initial_prompt : Text
  pub definition : Option DefinitionChoice

pub record CreateOptions : Type 0 where
  pub name : Text
  pub cwd : Text
  pub parent : Option AgentId
  pub tags : List Text
  pub env : Env
  pub launch : LaunchOptions

pub record ForkOptions : Type 0 where
  pub fork_name : Option Text
  pub prompt : Text
  pub fork_tags : Option (List Text)
  pub fork_options : Value

-- Which of the engine's launch methods opens the conversation.
pub data Opening : Type 0 where
  start : Text → Opening
  resume : Opening
  fork : Agent → Text → Opening

unfoldable pub opening_of : Option Agent → Text → Opening
opening_of (some source) prompt = fork source prompt
opening_of none prompt = start prompt

abbrev pub or_else {ℓ} : {A : Type ℓ} → Option A → A → A
or_else none d = d
or_else (some a) d = a

-- `exact`: an exact session target.
abbrev pub exact : Text → Text
exact name = b'=' ∷ name

module _ {T : Type 0} where
  unfoldable pub plan_of : LlmEngine T → LaunchRequest → Opening → Res EngineError LaunchPlan
  plan_of adapter request (start prompt) = adapter.start request prompt
  plan_of adapter request resume = adapter.resume request
  plan_of adapter request (fork source prompt) = adapter.fork request source prompt

  -- `inspect_err`: runs the cleanup after a failure, which stays the result.
  unfoldable pub after_error :
      {A : Type 0} → M T (Unit {0}) → Res CoreError A × World T → Res CoreError A × World T
  after_error cleanup (ok a, w) = (ok a, w)
  after_error cleanup (err e, w) = (err e, (cleanup w).1)

  unfoldable pub on_error : {A : Type 0} → M T (Unit {0}) → M T A → M T A
  unfolding after_error
  on_error cleanup m w = after_error cleanup (m w)

unfoldable pub with_engine_data : Text → Option Value → Agent → Agent
with_engine_data key none session = session
with_engine_data key (some data_) session = record session {
  ext = ext_insert key data_ session.ext;
}

unfoldable pub refuse_session : Agent → TmuxError → CoreError
refuse_session session (failed stderr) =
    if starts_with stderr (codes "duplicate session")
    then name_taken session.name
    else tmux_error (failed stderr)
refuse_session session e = tmux_error e

abbrev pub mark_if : Bool → Agent → Agent
mark_if exited_at_once session =
    if exited_at_once then record session { state = ended } else session

unfoldable pub source_data : Text → Option Agent → List (Text × Value)
source_data key none = []
source_data key (some source) = elim (ext_get key source.ext) [
  | none ↦ []
  | some v ↦ ext_insert key v []
]

unfoldable pub source_options : Agent → ForkOptions → CreateOptions
source_options source options = record {
  name = or_else options.fork_name (source.name ++ codes "-fork");
  cwd = source.working_directory;
  parent = some source.id;
  tags = or_else options.fork_tags source.tags;
  env = [];
  launch = record {
    engine = source.engine;
    profile = source.roles;
    options = options.fork_options;
    initial_prompt = options.prompt;
    definition = source.definition;
  };
}

module _ {T : Type 0} (core : TxCore T) where
  open core use {outside, config, engines}

  unfoldable pub default_definition : Option DefinitionChoice → Option DefinitionChoice
  default_definition (some choice) = some choice
  default_definition none = elim config.default_definition [
    | none ↦ none
    | some d ↦ some (new_choice d)
  ]

  -- The roles of the launch, or those of its definition where it names none.
  unfoldable pub profile_roles : List Text → Option DefinitionChoice → M T (List Text)
  profile_roles [] (some choice) = attempt definition_error (outside.definition_roles choice.agent)
  profile_roles roles definition = pure roles

  unfoldable pub apply_choice : Option DefinitionChoice → ResolvedProfile → M T ResolvedProfile
  apply_choice none resolved = pure resolved
  apply_choice (some choice) resolved =
      attempt definition_error (outside.apply_definition resolved choice)

  unfoldable pub resolve_profile : List Text → Option DefinitionChoice → M T ResolvedProfile
  unfolding profile_roles apply_choice
  resolve_profile roles definition = do
    names ← profile_roles roles definition
    resolved ← attempt profile_error (outside.resolve_roles names)
    apply_choice definition resolved

  unfoldable pub base_env : Agent → Env
  base_env session =
      (session_id_env, session.id) ∷ (tmux_socket_env, config.socket) ∷ config.directory_env

  unfoldable pub cleanup_profile : Agent → M T (Unit {0})
  cleanup_profile session = effect (outside.remove_profile (config.profile_path session.id))

  unfoldable pub undo : Agent → M T (Unit {0})
  unfolding cleanup_profile
  undo session = do
    killed ← ask (outside.kill_session (exact session.name))
    cleanup_profile session

  unfoldable pub started : Agent → Res TmuxError (Unit {0}) → M T (Unit {0})
  unfolding refuse_session cleanup_profile
  started session (ok _) = pure tt
  started session (err e) = do cleanup_profile session; fail (refuse_session session e)

  -- Whether the program has exited before its session could be linked.
  unfoldable pub linked : Agent → Res TmuxError (Unit {0}) → M T Bool
  unfolding undo
  linked session (ok _) = pure false
  linked session (err (failed stderr)) =
      if session_vanished stderr
      then pure true
      else (undo session >> fail (tmux_error (failed stderr)))
  linked session (err e) = do undo session; fail (tmux_error e)

  -- From the start of the program on.
  unfoldable pub run_plan : Agent → LaunchPlan → Env → M T (Agent × Bool)
  unfolding started linked undo
  run_plan session plan env = do
    made ← ask (outside.new_session session plan.program plan.args env)
    started session made
    link ← ask (outside.set_tx_id session.name session.id)
    exited_at_once ← linked session link
    saved ← on_error (undo session) (save core (mark_if exited_at_once session))
    pure (saved, exited_at_once)

  unfoldable pub check_program : Agent → LaunchPlan → M T (Unit {0})
  unfolding cleanup_profile
  check_program session plan =
      if length plan.program == 0
      then (cleanup_profile session >> fail (invalid_name plan.program))
      else pure tt

  -- The saved record, and whether the program exited at once.
  unfoldable pub start_locked :
      Agent → LlmEngine T → ResolvedProfile → Opening → Env → M T (Agent × Bool)
  unfolding base_env cleanup_profile with_engine_data check_program run_plan
  start_locked session adapter resolved opening extra_env = do
    let file = config.profile_path session.id
    env ←
        from_result (λ e. e)
          (add_secrets config.caller_env resolved.mcp_servers
            (merge_env (merge_env (base_env session) config.env) extra_env))
    attempt engine_error (adapter.prepare session)
    attempt (λ e. store_error (store_io e)) (outside.write_profile resolved file)
    let request : LaunchRequest = record {
      session = session;
      profile = resolved;
      profile_file = file;
      hook_command = config.hook_command;
    }
    plan ←
        on_error (cleanup_profile session)
          (from_result engine_error (plan_of adapter request opening))
    on_error (cleanup_profile session)
        (attempt engine_error (outside.apply_workspace session.working_directory plan.workspace))
    on_error (cleanup_profile session) (from_result (λ e. e) (validate_env plan.env))
    check_program session plan
    run_plan (with_engine_data adapter.ext_key plan.engine_data session) plan
        (merge_env env plan.env)

  unfoldable pub exit_events : Bool → Agent → M T (List Event)
  exit_events false session = pure []
  exit_events true session = do
    e ← event core exited session none (codes "exited before registration")
    pure (e ∷ [])

  unfoldable pub launch_event : Option Agent → Agent → M T Event
  launch_event (some source) session = event core forked session none source.id
  launch_event none session = event core created session none []

  unfoldable pub launch_locked :
      CreateOptions
      → Text
      → Text
      → LlmEngine T
      → ResolvedProfile
      → Option Agent
      → M T (AgentId × List Event)
  unfolding start_locked exit_events launch_event source_data opening_of
  launch_locked opts name cwd adapter resolved fork_of = do
    id ← ask outside.mint
    created_at ← ask outside.now
    let session : Agent = record {
      id = id;
      name = name;
      engine = opts.launch.engine;
      working_directory = cwd;
      roles = opts.launch.profile;
      definition = default_definition opts.launch.definition;
      state = starting;
      created_at = created_at;
      last_modified_at = created_at;
      last_activity_at = none;
      tags = opts.tags;
      parent_id = opts.parent;
      ext = source_data adapter.ext_key fork_of;
      other = [];
    }
    engine_data ← from_result engine_error (adapter.configure session opts.launch.options)
    let configured = record session { ext = ext_insert adapter.ext_key engine_data session.ext }
    run ←
        start_locked configured adapter resolved (opening_of fork_of opts.launch.initial_prompt)
          opts.env
    e ← launch_event fork_of run.0
    more ← exit_events run.1 run.0
    pure (id, e ∷ more)

  unfoldable pub launch_in :
      CreateOptions
      → Text
      → Text
      → LlmEngine T
      → ResolvedProfile
      → Option Agent
      → M T (AgentId × List Event)
  unfolding launch_locked
  launch_in opts name worktree adapter resolved fork_of = do
    guard (is_valid_name name) (invalid_name name)
    cwd ← attempt (λ e. store_error (store_io e)) (outside.canonicalize worktree)
    launch_locked opts name cwd adapter resolved fork_of

  unfoldable pub create_locked : CreateOptions → Option Agent → M T (AgentId × List Event)
  unfolding resolve_profile default_definition launch_in
  create_locked opts fork_of = do
    guard (is_valid_name opts.name) (invalid_name opts.name)
    from_result (λ e. e) (validate_env opts.env)
    there_is ← ask (outside.is_dir opts.cwd)
    guard there_is (not_a_directory opts.cwd)
    cwd ← attempt (λ e. store_error (store_io e)) (outside.canonicalize opts.cwd)
    adapter ← engine_of core opts.launch.engine
    guard (not (is_blank opts.launch.initial_prompt)) prompt_required
    resolved ← resolve_profile opts.launch.profile (default_definition opts.launch.definition)
    hold_create_lock core
    taken ← running_names core
    name ← from_option (worktree_error opts.name) (free_name opts.name taken)
    worktree ← attempt worktree_error (outside.create_worktree cwd name)
    on_error (effect (outside.remove_worktree worktree))
        (launch_in opts name worktree adapter resolved fork_of)

  unfoldable pub create_agent : CreateOptions → M T AgentId
  unfolding create_locked
  create_agent opts = do made ← create_locked opts none; emit made.1; pure made.0

  unfoldable pub fork_agent : AgentId → ForkOptions → M T AgentId
  unfolding create_locked source_options
  fork_agent id options = do
    guard (not (is_blank options.prompt)) prompt_required
    hold_agent_lock core id
    source ← get_agent core id
    made ← create_locked (source_options source options) (some source)
    emit made.1
    pure made.0

  unfoldable pub check_name : AgentId → Agent → M T (Unit {0})
  check_name id session = do
    holder ← name_holder core session.name (some id)
    elim holder [ none ↦ pure tt | some other ↦ fail (name_held session.name other) ]

  unfoldable pub check_not_live : AgentId → Agent → M T (Unit {0})
  check_not_live id session =
      if is_ended session.state
      then (do found ← is_live core id; guard (is_none found) (still_running id))
      else fail (still_running id)

  unfoldable pub respawn_locked : AgentId → M T (Agent × List Event)
  unfolding resolve_profile default_definition check_name check_not_live start_locked exit_events
  respawn_locked id = do
    hold_create_lock core
    hold_agent_lock core id
    stored ← get_agent core id
    adapter ← engine_of core stored.engine
    let session = record stored { definition = default_definition stored.definition }
    resolved ← resolve_profile session.roles session.definition
    check_not_live id session
    there_is ← ask (outside.is_dir session.working_directory)
    guard there_is (worktree_missing session.working_directory)
    check_name id session
    let fresh = record session { state = starting }
    restored ← attempt engine_error (adapter.restore fresh (config.archive_directory id))
    run ← start_locked fresh adapter resolved resume []
    e ← event core respawned run.0 none []
    more ← exit_events run.1 run.0
    pure (run.0, e ∷ more)

  unfoldable pub respawn_agent : AgentId → M T Agent
  unfolding respawn_locked
  respawn_agent id = do run ← respawn_locked id; emit run.1; pure run.0
