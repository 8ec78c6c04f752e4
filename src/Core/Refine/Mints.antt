-- ===== src/Core/Refine/Mints.antt =====
-- `create_agent` and `fork_agent` write only as `Evolves` permits, if the id that they mint is new.
use mathlib.Core.Path.{subst}
use tx_ide_rs.Prelude.{◌≡◌, refl, ◌∙◌, Bool, sym, not, Option, none, some, Text}
use tx_ide_rs.Agent.{Agent, AgentId, is_valid_name}
use tx_ide_rs.Result.{
  Res, ok, err, CoreError, invalid_name, not_a_directory, prompt_required, store_error, store_io,
  worktree_error,
}
use tx_ide_rs.Store.{Dir, load}
use tx_ide_rs.Engine.{LlmEngine, ResolvedProfile}
use tx_ide_rs.Core.World.{
  TxCore, World, M, bind_result, ◌>>=◌, ◌>>◌, guard, ask, attempt, effect, from_result, from_option,
  emit, get_agent, hold_create_lock, hold_agent_lock, engine_of,
}
use tx_ide_rs.Core.Read.{running_names}
use tx_ide_rs.Core.Env.{validate_env, is_blank, free_name}
use tx_ide_rs.Core.Env.Names.{free_name-not_taken}
use tx_ide_rs.Core.Launch.{
  CreateOptions, ForkOptions, default_definition, resolve_profile, source_options, on_error,
  launch_locked, launch_in, create_locked, create_agent, fork_agent,
}
use tx_ide_rs.Core.Evolve.{Evolves, same, NameFree, create}
use tx_ide_rs.Core.Refine.{
  Quiet, From, Evolves-same, bind-Quiet, guard-Quiet, from_option-Quiet, bind-From, bind-From_after,
  bind_result-From, bind_result-after,
}
use tx_ide_rs.Core.Refine.Runs.{after_error-Quiet, resolve_profile-Quiet, start_locked-From}
use tx_ide_rs.Core.Refine.Names.{running_names-Quiet, running_names-NameFree}
use tx_ide_rs.Core.Refine.Parts.{
  hold_create_lock-Quiet, hold_agent_lock-Quiet, engine_of-Quiet, get_agent-Quiet,
}
use tx_ide_rs.Core.Refine.Launches.{exit_events-Quiet, launch_event-Quiet, from_option-ok}

module _ {T : Type 0} where
  -- Started on the directory `d`, the operation `m` leaves one that `d` may become, if the id that
  -- `g` gives there, when it gives one, is not the id of a record.
  abbrev pub Mints : {A : Type 0} → Bool → Dir → M T A → M T AgentId → Type 0
  Mints may d m g =
      (w : World T)
      → w.dir ≡ d
      → ((id : AgentId) → (g w).0 ≡ ok id → load id d ≡ ok none)
      → Evolves may d (m w).1.dir

  bind_result-Mints :
      {may : Bool} {A B : Type 0} (d : Dir) (r : Res CoreError A × World T) (f : A → M T B)
      (g : A → M T AgentId)
      → r.1.dir ≡ d
      → ((a : A) → r.0 ≡ ok a → Mints may d (f a) (g a))
      → ((id : AgentId) → (bind_result r g).0 ≡ ok id → load id d ≡ ok none)
      → Evolves may d (bind_result r f).1.dir
  bind_result-Mints d (ok a, w) f g e k new = k a refl w e new
  bind_result-Mints d (err x, w) f g e k new = same e

  -- A quiet step that both take.
  bind-Mints :
      {may : Bool} {A B : Type 0} (d : Dir) (m : M T A) (f : A → M T B) (g : A → M T AgentId)
      → Quiet m
      → ((a : A) → Mints may d (f a) (g a))
      → Mints may d (m >>= f) (m >>= g)
  unfolding ◌>>=◌
  bind-Mints d m f g q k w e = bind_result-Mints d (m w) f g (q w ∙ e) (λ a _. k a)

  -- The same, where the result tells something of `d`.
  bind-Mints_result :
      {may : Bool} {A B : Type 0} (d : Dir) (m : M T A) (f : A → M T B) (g : A → M T AgentId)
      → Quiet m
      → ((a : A) (w : World T) → w.dir ≡ d → (m w).0 ≡ ok a → Mints may d (f a) (g a))
      → Mints may d (m >>= f) (m >>= g)
  unfolding ◌>>=◌
  bind-Mints_result d m f g q k w e = bind_result-Mints d (m w) f g (q w ∙ e) (λ a h. k a w e h)

  -- What follows a write is quiet.
  bind-Mints_after :
      {may : Bool} {A B : Type 0} (d : Dir) (m : M T A) (f : A → M T B) (g : M T AgentId)
      → Mints may d m g
      → ((a : A) → Quiet (f a))
      → Mints may d (m >>= f) g
  unfolding ◌>>=◌
  bind-Mints_after d m f g h k w e new = bind_result-after d (m w) f (h w e new) k

  -- The id that `m` mints is the one that `g` gives.
  mint-Mints :
      {may : Bool} {B : Type 0} (d : Dir) (m : M T AgentId) (f : AgentId → M T B)
      → Quiet m
      → ((id : AgentId) → load id d ≡ ok none → From may d (f id))
      → Mints may d (m >>= f) m
  unfolding ◌>>=◌
  mint-Mints d m f q k w e new =
      bind_result-From d (m w) f (q w ∙ e) (λ id minted. k id (new id minted))

  on_error-Mints :
      {may : Bool} {A : Type 0} (d : Dir) (cleanup : M T (Unit {0})) (m : M T A) (g : M T AgentId)
      → Quiet cleanup
      → Mints may d m g
      → Mints may d (on_error cleanup m) g
  unfolding on_error
  on_error-Mints d cleanup m g q h w e new =
      Evolves-same (h w e new) (after_error-Quiet cleanup (m w) q)

module _ {T : Type 0} (core : TxCore T) where
  open core use {outside}

  -- `launch_in` up to the id that it mints.
  unfoldable pub minting_in : Text → Text → M T AgentId
  minting_in name worktree = do
    guard (is_valid_name name) (invalid_name name)
    cwd ← attempt (λ e. store_error (store_io e)) (outside.canonicalize worktree)
    ask outside.mint

  -- `create_locked` up to the id that it mints, if it comes so far.
  unfoldable pub minting : CreateOptions → M T AgentId
  unfolding minting_in
  minting opts = do
    guard (is_valid_name opts.name) (invalid_name opts.name)
    from_result (λ e. e) (validate_env opts.env)
    there_is ← ask (outside.is_dir opts.cwd)
    guard there_is (not_a_directory opts.cwd)
    cwd ← attempt (λ e. store_error (store_io e)) (outside.canonicalize opts.cwd)
    adapter ← engine_of core opts.launch.engine
    guard (not (is_blank opts.launch.initial_prompt)) prompt_required
    resolved ←
        resolve_profile core opts.launch.profile (default_definition core opts.launch.definition)
    hold_create_lock core
    taken ← running_names core
    name ← from_option (worktree_error opts.name) (free_name opts.name taken)
    worktree ← attempt worktree_error (outside.create_worktree cwd name)
    minting_in name worktree

  -- `fork_agent` up to the id that it mints, if it comes so far.
  unfoldable pub fork_minting : AgentId → ForkOptions → M T AgentId
  unfolding minting
  fork_minting id options = do
    guard (not (is_blank options.prompt)) prompt_required
    hold_agent_lock core id
    source ← get_agent core id
    minting (source_options source options)

  launch_locked-Mints :
      {may : Bool} (d : Dir) (opts : CreateOptions) (name cwd : Text) (adapter : LlmEngine T)
      (resolved : ResolvedProfile) (fork_of : Option Agent)
      → ((id : AgentId) → NameFree d id name)
      → Mints may d (launch_locked core opts name cwd adapter resolved fork_of) (ask outside.mint)
  unfolding launch_locked
  launch_locked-Mints d opts name cwd adapter resolved fork_of free =
      mint-Mints d (ask outside.mint) _ (λ w. refl)
        λ id new.
          bind-From d (ask outside.now) _ (λ w. refl)
            λ created_at.
              bind-From d (from_result _ _) _ (λ w. refl)
                λ data_.
                  bind-From_after d _ _
                    (start_locked-From core d _ adapter resolved _ opts.env (λ b s n.
                      create b (subst (λ i. load i d ≡ ok none) (sym s.id) new)
                        (subst (NameFree d b.id) (sym n) (free b.id)) refl))
                    λ run.
                      bind-Quiet _ _ (launch_event-Quiet core fork_of run.0)
                        λ e. bind-Quiet _ _ (exit_events-Quiet core run.1 run.0) (λ _ w. refl)

  launch_in-Mints :
      {may : Bool} (d : Dir) (opts : CreateOptions) (name worktree : Text) (adapter : LlmEngine T)
      (resolved : ResolvedProfile) (fork_of : Option Agent)
      → ((id : AgentId) → NameFree d id name)
      → Mints may d
          (launch_in core opts name worktree adapter resolved fork_of)
          (minting_in name worktree)
  unfolding launch_in minting_in
  launch_in-Mints d opts name worktree adapter resolved fork_of free =
      bind-Mints d _ _ _ (guard-Quiet (is_valid_name name) (invalid_name name)) λ _.
        bind-Mints d (attempt _ (outside.canonicalize worktree)) _ _ (λ w. refl)
          λ cwd. launch_locked-Mints d opts name cwd adapter resolved fork_of free

  create_locked-Mints :
      {may : Bool} (d : Dir) (opts : CreateOptions) (fork_of : Option Agent)
      → Mints may d (create_locked core opts fork_of) (minting opts)
  unfolding create_locked minting
  create_locked-Mints d opts fork_of =
      bind-Mints d _ _ _ (guard-Quiet (is_valid_name opts.name) _) λ _.
        bind-Mints d (from_result (λ e. e) (validate_env opts.env)) _ _ (λ w. refl)
          λ _.
            bind-Mints d (ask (outside.is_dir opts.cwd)) _ _ (λ w. refl)
              λ there_is. bind-Mints d _ _ _ (guard-Quiet there_is _) λ _.
                bind-Mints d (attempt _ (outside.canonicalize opts.cwd)) _ _ (λ w. refl)
                  λ cwd. bind-Mints d _ _ _ (engine_of-Quiet core opts.launch.engine) λ adapter.
                    bind-Mints d _ _ _ (guard-Quiet (not (is_blank opts.launch.initial_prompt)) _)
                      λ _.
                        bind-Mints d _ _ _ (resolve_profile-Quiet core opts.launch.profile _)
                          λ resolved. bind-Mints d _ _ _ (hold_create_lock-Quiet core) λ _.
                            bind-Mints_result d _ _ _ (running_names-Quiet core)
                              λ taken w at listed.
                                bind-Mints_result d _ _ _
                                  (from_option-Quiet _ (free_name opts.name taken))
                                  λ name w' _ chosen.
                                    bind-Mints d (attempt _ (outside.create_worktree cwd name)) _ _
                                      (λ w. refl)
                                      λ worktree.
                                        on_error-Mints d (effect (outside.remove_worktree worktree))
                                          _ (minting_in name worktree) (λ w. refl)
                                          (launch_in-Mints d opts name worktree adapter resolved
                                            fork_of
                                            (λ id.
                                              subst (λ x. NameFree x id name) at
                                                (running_names-NameFree core taken id name w listed
                                                  (free_name-not_taken opts.name taken name
                                                    (from_option-ok core _ _ w' name chosen)))))

  pub create_agent-Mints :
      {may : Bool} (d : Dir) (opts : CreateOptions)
      → Mints may d (create_agent core opts) (minting opts)
  unfolding create_agent
  create_agent-Mints d opts =
      bind-Mints_after d _ _ (minting opts) (create_locked-Mints d opts none)
        λ made. bind-Quiet (emit made.1) _ (λ w. refl) (λ _ w. refl)

  pub fork_agent-Mints :
      {may : Bool} (d : Dir) (id : AgentId) (options : ForkOptions)
      → Mints may d (fork_agent core id options) (fork_minting id options)
  unfolding fork_agent fork_minting
  fork_agent-Mints d id options =
      bind-Mints d _ _ _ (guard-Quiet (not (is_blank options.prompt)) _) λ _.
        bind-Mints d _ _ _ (hold_agent_lock-Quiet core id) λ _.
          bind-Mints d _ _ _ (get_agent-Quiet core id) λ source.
            bind-Mints_after d _ _ (minting (source_options source options))
              (create_locked-Mints d (source_options source options) (some source))
              λ made. bind-Quiet (emit made.1) _ (λ w. refl) (λ _ w. refl)
