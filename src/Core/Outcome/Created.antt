-- ===== src/Core/Outcome/Created.antt =====
-- What `create_agent` and `fork_agent` have done when they succeed.
use tx_ide_rs.Prelude.{ℕ, ◌≤◌, ◌<◌, ◌≡◌, refl, ap, ◌∙◌, true, ◌∷◌, Option, none, some, Text}
use tx_ide_rs.Agent.{Agent, AgentId, is_valid_name}
use tx_ide_rs.Result.{ok}
use tx_ide_rs.Store.{Dir, load}
use tx_ide_rs.Store.Lookup.{load-id}
use tx_ide_rs.Engine.{LlmEngine, ResolvedProfile}
use tx_ide_rs.Core.World.{TxCore, ask, attempt, effect, from_result, emit}
use tx_ide_rs.Core.Env.{candidate, free_name}
use tx_ide_rs.Core.Env.Names.{free_name-FirstFrom}
use tx_ide_rs.Core.Launch.{
  CreateOptions, ForkOptions, source_options, or_else, launch_locked, launch_in, create_locked,
  create_agent, fork_agent,
}
use tx_ide_rs.Core.Refine.{bind-Quiet, from_option-Quiet}
use tx_ide_rs.Core.Refine.Runs.{resolve_profile-Quiet}
use tx_ide_rs.Core.Refine.Launches.{exit_events-Quiet, launch_event-Quiet, from_option-ok}
use tx_ide_rs.Core.Refine.Names.{running_names-Quiet}
use tx_ide_rs.Core.Refine.Parts.{hold_create_lock-Quiet, hold_agent_lock-Quiet, engine_of-Quiet}
use tx_ide_rs.Core.Outcome.{
  Gives, pure-Returns, bind-Returns, bind-Gives, bind-Gives_result, bind-Gives_after, guard-Gives,
  get_agent-Gives,
}
use tx_ide_rs.Core.Outcome.Saved.{Holds}
use tx_ide_rs.Core.Outcome.Launched.{Launched, on_error-Gives, start_locked-Launched}

-- What a creation that returns `id` leaves: the record of that id, made from the options, under
-- a valid name that is one of the candidates for the wanted one.
abbrev pub Created : CreateOptions → AgentId → Dir → Type 0
Created opts id e =
    (b : Agent) × Holds id b e
    × (b.parent_id ≡ opts.parent)
    × (b.tags ≡ opts.tags)
    × (b.engine ≡ opts.launch.engine)
    × (b.roles ≡ opts.launch.profile)
    × (is_valid_name b.name ≡ true)
    × (k : ℕ) × (b.name ≡ candidate opts.name k)
    × (1 ≤ k)
    × (k < 100)

-- What a fork of `id` that returns `child` leaves: the record of that id, a child of the source
-- with its engine and roles, and its tags unless the fork has its own.
abbrev pub ForkedFrom : Dir → AgentId → ForkOptions → AgentId → Dir → Type 0
ForkedFrom d id options child e =
    (source b : Agent) × Holds id source d
    × Holds child b e
    × (b.parent_id ≡ some id)
    × (b.engine ≡ source.engine)
    × (b.roles ≡ source.roles)
    × (b.tags ≡ or_else options.fork_tags source.tags)

Created-ForkedFrom :
    (d e : Dir) (id child : AgentId) (options : ForkOptions) (source : Agent)
    → load id d ≡ ok (some source)
    → Created (source_options source options) child e
    → ForkedFrom d id options child e
unfolding source_options
Created-ForkedFrom d e id child options source l
      (b, held, parent, tags, engine, roles, valid, k, named, least, bound) =
    (source, b, l, held, parent ∙ ap some (load-id id d source l), engine, roles, tags)

module _ {T : Type 0} (core : TxCore T) where
  open core use {outside, config}

  launch_locked-Created :
      (d : Dir) (opts : CreateOptions) (name cwd : Text) (adapter : LlmEngine T)
      (resolved : ResolvedProfile) (fork_of : Option Agent) (k : ℕ)
      → is_valid_name name ≡ true
      → name ≡ candidate opts.name k
      → (1 ≤ k) × (k < 100)
      → Gives d
          (launch_locked core opts name cwd adapter resolved fork_of)
          (λ r e. Created opts r.0 e)
  unfolding launch_locked
  launch_locked-Created d opts name cwd adapter resolved fork_of k valid named bound =
      bind-Gives d (ask outside.mint) _ _ (λ w. refl)
        λ id.
          bind-Gives d (ask outside.now) _ _ (λ w. refl)
            λ created_at.
              bind-Gives d (from_result _ _) _ _ (λ w. refl)
                λ data_.
                  bind-Gives_after d _ _ (λ r e. Launched _ r.0 e) _
                    (start_locked-Launched core d _ adapter resolved _ opts.env)
                    (λ run.
                      bind-Quiet _ _ (launch_event-Quiet core fork_of run.0)
                        λ e. bind-Quiet _ _ (exit_events-Quiet core run.1 run.0) (λ _ w. refl))
                    (λ run. bind-Returns _ _ _ λ x. bind-Returns _ _ _ λ more.
                      pure-Returns T (id, x ∷ more) _
                        λ e h. (
                          run.0,
                          h.0,
                          h.1.parent_id,
                          h.3,
                          h.1.engine,
                          h.1.roles,
                          ap is_valid_name h.2 ∙ valid,
                          k,
                          h.2 ∙ named,
                          bound.0,
                          bound.1,
                        ))

  launch_in-Created :
      (d : Dir) (opts : CreateOptions) (name worktree : Text) (adapter : LlmEngine T)
      (resolved : ResolvedProfile) (fork_of : Option Agent) (k : ℕ)
      → name ≡ candidate opts.name k
      → (1 ≤ k) × (k < 100)
      → Gives d
          (launch_in core opts name worktree adapter resolved fork_of)
          (λ r e. Created opts r.0 e)
  unfolding launch_in
  launch_in-Created d opts name worktree adapter resolved fork_of k named bound =
      guard-Gives d (is_valid_name name) _ _ _ λ valid.
        bind-Gives d (attempt _ (outside.canonicalize worktree)) _ _ (λ w. refl)
          λ cwd. launch_locked-Created d opts name cwd adapter resolved fork_of k valid named bound

  create_locked-Created :
      (d : Dir) (opts : CreateOptions) (fork_of : Option Agent)
      → Gives d (create_locked core opts fork_of) (λ r e. Created opts r.0 e)
  unfolding create_locked
  create_locked-Created d opts fork_of = guard-Gives d (is_valid_name opts.name) _ _ _ λ _.
      bind-Gives d (from_result (λ e. e) _) _ _ (λ w. refl)
        λ _.
          bind-Gives d (ask (outside.is_dir opts.cwd)) _ _ (λ w. refl)
            λ there_is. guard-Gives d there_is _ _ _ λ _.
              bind-Gives d (attempt _ (outside.canonicalize opts.cwd)) _ _ (λ w. refl)
                λ cwd. bind-Gives d _ _ _ (engine_of-Quiet core opts.launch.engine) λ adapter.
                  guard-Gives d _ _ _ _ λ _.
                    bind-Gives d _ _ _ (resolve_profile-Quiet core opts.launch.profile _)
                      λ resolved. bind-Gives d _ _ _ (hold_create_lock-Quiet core) λ _.
                        bind-Gives d _ _ _ (running_names-Quiet core) λ taken.
                          bind-Gives_result d _ _ _
                            (from_option-Quiet _ (free_name opts.name taken))
                            λ name w' _ chosen.
                              let (k, named, bound, first) =
                                free_name-FirstFrom opts.name taken name
                                  (from_option-ok core _ _ w' name chosen) in
                              bind-Gives d (attempt _ (outside.create_worktree cwd name)) _ _
                                (λ w. refl)
                                λ worktree.
                                  on_error-Gives d (effect (outside.remove_worktree worktree)) _ _ (
                                    launch_in-Created d opts name worktree adapter resolved fork_of
                                      k named (first.from, bound))

  -- A creation that succeeds leaves the record that was asked for.
  pub create_agent-Gives :
      (d : Dir) (opts : CreateOptions) → Gives d (create_agent core opts) (Created opts)
  unfolding create_agent
  create_agent-Gives d opts =
      bind-Gives_after d _ _ (λ r e. Created opts r.0 e) _ (create_locked-Created d opts none)
        (λ made. bind-Quiet (emit made.1) _ (λ w. refl) (λ _ w. refl))
        (λ made. bind-Returns _ _ _ λ _. pure-Returns T made.0 _ (λ e h. h))

  -- A fork that succeeds leaves a child of the source, with its engine and roles.
  pub fork_agent-Gives :
      (d : Dir) (id : AgentId) (options : ForkOptions)
      → Gives d (fork_agent core id options) (ForkedFrom d id options)
  unfolding fork_agent
  fork_agent-Gives d id options = guard-Gives d _ _ _ _ λ _.
      bind-Gives d _ _ _ (hold_agent_lock-Quiet core id) λ _.
        get_agent-Gives core d id _ _ λ source l.
          bind-Gives_after d _ _ (λ r e. Created (source_options source options) r.0 e) _
            (create_locked-Created d (source_options source options) (some source))
            (λ made. bind-Quiet (emit made.1) _ (λ w. refl) (λ _ w. refl))
            (λ made. bind-Returns _ _ _ λ _.
              pure-Returns T made.0 _ (λ e h. Created-ForkedFrom d e id made.0 options source l h))
