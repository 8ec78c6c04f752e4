-- ===== src/Tests/Safety.antt =====
-- Runs of several operations of the core, from the sample world and from an empty one.
use mathlib.Core.Path.{subst}
use tx_ide_rs.Prelude.{ℕ, ◌≡◌, refl, true, false, [], Option, none, some, codes, text_eq, contains}
use tx_ide_rs.Agent.{Agent, AgentId, kind_eq, is_valid_name, ext_get, ext_insert}
use tx_ide_rs.Result.{Res, ok, StoreError, CoreError}
use tx_ide_rs.Store.{Dir, load, put, all, scan, insert_record, older, read, file_of}
use tx_ide_rs.Engine.Registry.{get_engine}
use tx_ide_rs.Core.World.{
  World, ◌>>=◌, save, write_agent, get_agent, all_agents, event, hold_create_lock, hold_agent_lock,
  engine_of,
}
use tx_ide_rs.Core.Read.{running_names}
use tx_ide_rs.Core.Env.{free_name, merge_env, validate_env, add_secrets, is_blank, candidate}
use tx_ide_rs.Core.Launch.{
  source_options, create_agent, resolve_profile, default_definition, on_error, plan_of,
}
use tx_ide_rs.Core.Evolve.{Evolves, IsSound, Persists}
use tx_ide_rs.Core.Evolve.Ended.{EndedAt}
use tx_ide_rs.Core.Refine.Mints.{minting, fork_minting}
use tx_ide_rs.Core.Run.{
  create, fork, stop, report_hook, rename, run, IsNew, MintsNew, Reaches, here, operation,
}
use tx_ide_rs.Core.Run.Safety.{run-Evolves, Reaches-IsSound, Reaches-Persists, Reaches-EndedAt}
use tx_ide_rs.Tests.Sample.{
  main_id, old_id, fresh_id, sample_id, sample_core, old_agent, sample_dir, sample_world,
  empty_world, sample_options, sample_fork, sample_hook,
}

nothing_there : {a : Agent} → ◌≡◌ {A = Res StoreError (Option Agent)} (ok none) (ok (some a)) → ⊥
nothing_there h = cc

empty_world-IsSound : IsSound []
unfolding load file_of
empty_world-IsSound = record { distinct = tt; unique = λ i j a b h. absurd (nothing_there h) }

old_found : load old_id sample_dir ≡ ok (some old_agent)
unfolding load file_of read text_eq
old_found = refl

-- What an operation mints is new when the id that it mints here is.
known-IsNew :
    (d : Dir) (r : Res CoreError AgentId) (id : AgentId)
    → r ≡ ok id
    → load id d ≡ ok none
    → IsNew d r
known-IsNew d r id minted new other h =
    let same : id ≡ other = cc in subst (λ i. load i d ≡ ok none) same new

known_fork-MintsNew :
    (id : AgentId) (w : World ℕ) (new : AgentId)
    → (fork_minting sample_core id sample_fork w).0 ≡ ok new
    → load new w.dir ≡ ok none
    → MintsNew sample_core (fork id sample_fork) w
known_fork-MintsNew id w new = known-IsNew w.dir _ new

abbrev after_create : World ℕ → World ℕ
after_create = run sample_core (create sample_options)

abbrev after_fork : World ℕ → AgentId → World ℕ
after_fork w id = run sample_core (fork id sample_fork) (after_create w)

create_new : MintsNew sample_core (create sample_options) sample_world
unfolding load file_of text_eq minting ◌>>=◌ is_valid_name validate_env engine_of get_engine kind_eq
    is_blank hold_create_lock running_names all_agents all scan read insert_record older free_name
    candidate contains resolve_profile default_definition
create_new = known-IsNew sample_dir _ fresh_id refl refl

empty_new : MintsNew sample_core (create sample_options) empty_world
unfolding load file_of text_eq minting ◌>>=◌ is_valid_name validate_env engine_of get_engine kind_eq
    is_blank hold_create_lock running_names all_agents all scan read insert_record older free_name
    candidate contains resolve_profile default_definition
empty_new = known-IsNew [] _ fresh_id refl refl

fork_new : MintsNew sample_core (fork main_id sample_fork) (after_create sample_world)
unfolding fork_minting minting run create_agent hold_agent_lock get_agent load file_of ext_get
    ext_insert ◌>>=◌ is_valid_name validate_env engine_of get_engine kind_eq is_blank
    hold_create_lock running_names all_agents all scan read insert_record older free_name candidate
    contains text_eq resolve_profile default_definition merge_env add_secrets on_error plan_of save
    write_agent event put source_options
fork_new = known_fork-MintsNew main_id (after_create sample_world) (sample_id 13) refl refl

fresh_fork_new : MintsNew sample_core (fork fresh_id sample_fork) (after_create empty_world)
unfolding fork_minting minting run create_agent hold_agent_lock get_agent load file_of ext_get
    ext_insert ◌>>=◌ is_valid_name validate_env engine_of get_engine kind_eq is_blank
    hold_create_lock running_names all_agents all scan read insert_record older free_name candidate
    contains text_eq resolve_profile default_definition merge_env add_secrets on_error plan_of save
    write_agent event put source_options
fresh_fork_new = known_fork-MintsNew fresh_id (after_create empty_world) (sample_id 13) refl refl

run-Evolves_example :
    Evolves true
      (after_create sample_world).dir
      (run sample_core (fork main_id sample_fork) (after_create sample_world)).dir
run-Evolves_example =
    run-Evolves sample_core (fork main_id sample_fork) (after_create sample_world) (λ e. refl)
      fork_new

-- A create, a fork of what it made, a rename and a stop.
from_nothing : Reaches sample_core false empty_world (
    run sample_core
      (stop fresh_id)
      (run sample_core (rename fresh_id (codes "other")) (after_fork empty_world fresh_id)))
from_nothing =
    operation (stop fresh_id) (λ e. e)
      (operation (rename fresh_id (codes "other")) (λ e. e)
        (operation (fork fresh_id sample_fork) (λ e. e)
          (operation (create sample_options) (λ e. e) here empty_new) fresh_fork_new)
        tt)
      tt

-- A create, a fork, and a late hook of the agent that has ended.
from_sample :
    Reaches sample_core false sample_world
      (run sample_core (report_hook old_id sample_hook) (after_fork sample_world main_id))
from_sample =
    operation (report_hook old_id sample_hook) (λ e. e)
      (operation (fork main_id sample_fork) (λ e. e)
        (operation (create sample_options) (λ e. e) here create_new) fork_new)
      tt

Reaches-IsSound_example :
    IsSound
      (run sample_core
        (stop fresh_id)
        (run sample_core (rename fresh_id (codes "other")) (after_fork empty_world fresh_id))).dir
Reaches-IsSound_example = Reaches-IsSound sample_core from_nothing empty_world-IsSound

Reaches-Persists_example :
    Persists old_agent old_id
      (run sample_core (report_hook old_id sample_hook) (after_fork sample_world main_id)).dir
Reaches-Persists_example = Reaches-Persists sample_core old_id old_agent from_sample old_found

Reaches-EndedAt_example :
    EndedAt old_id
      (run sample_core (report_hook old_id sample_hook) (after_fork sample_world main_id)).dir
Reaches-EndedAt_example =
    Reaches-EndedAt sample_core old_id from_sample (old_agent, old_found, refl)
