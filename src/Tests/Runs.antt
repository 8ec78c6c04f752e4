-- ===== src/Tests/Runs.antt =====
-- The operations of the core on the sample world.
use tx_ide_rs.Prelude.{◌≡◌, refl, true, some, codes, text_eq, contains}
use tx_ide_rs.Json.{string, value_eq}
use tx_ide_rs.Agent.{Agent, starting, idle, ended, kind_eq, is_valid_name, ext_get, ext_insert}
use tx_ide_rs.Result.{ok}
use tx_ide_rs.Store.{load, put, all, scan, insert_record, older, read, file_of}
use tx_ide_rs.Engine.Registry.{get_engine}
use tx_ide_rs.Core.World.{
  ◌>>=◌, save, write_agent, get_agent, all_agents, event, is_live, find_live, hold_create_lock,
  hold_agent_lock, engine_of,
}
use tx_ide_rs.Core.Read.{name_holder, running_names, holds_name}
use tx_ide_rs.Core.Archive.{archive_conversation}
use tx_ide_rs.Core.Change.{
  rename_agent, rename_locked, rename_record, update_ext, ext_or_null, hook, move_state,
}
use tx_ide_rs.Core.Stop.{refresh_agent, stop_agent, unchanged, is_listed}
use tx_ide_rs.Core.Launch.{
  create_agent, fork_agent, respawn_agent, check_not_live, check_name, on_error, plan_of,
}
use tx_ide_rs.Core.Env.{free_name, merge_env, validate_env, add_secrets, is_blank, candidate}
use tx_ide_rs.Agent.{parse_id}
use tx_ide_rs.Core.Read.{resolve, pick}
use tx_ide_rs.Core.Read.Resolve.{Resolved, resolve-Resolved}
use tx_ide_rs.Core.Outcome.Saved.{Holds}
use tx_ide_rs.Core.Outcome.Edits.{Updated}
use tx_ide_rs.Core.Outcome.Stopped.{Stopped}
use tx_ide_rs.Core.Outcome.Refreshed.{Refreshed, live_answer}
use tx_ide_rs.Core.Outcome.Hooked.{Hooked}
use tx_ide_rs.Core.Outcome.Respawned.{Respawned}
use tx_ide_rs.Core.Outcome.Created.{Created, ForkedFrom}
use tx_ide_rs.Core.Run.Outcomes.{
  create_agent-Created, fork_agent-Created, respawn_agent-Respawned, stop_agent-Stopped,
  refresh_agent-Refreshed, hook-Hooked, rename_agent-named, update_ext-Updated,
}
use tx_ide_rs.Tests.Sample.{
  sample_dir-Distinct, main_id, old_id, fresh_id, sample_core, main_agent, old_agent, sample_dir,
  sample_world, sample_options, sample_fork, sample_hook,
}

-- The wanted name is taken, so that the new agent is called `main-2`.
created : (create_agent sample_core sample_options sample_world).0 ≡ ok fresh_id
unfolding create_agent ◌>>=◌ is_valid_name validate_env engine_of get_engine kind_eq is_blank
    hold_create_lock running_names all_agents all scan read insert_record older free_name candidate
    contains text_eq merge_env add_secrets on_error plan_of save write_agent event put
created = refl

forked : (fork_agent sample_core main_id sample_fork sample_world).0 ≡ ok fresh_id
unfolding fork_agent hold_agent_lock get_agent load file_of ext_get ext_insert ◌>>=◌ is_valid_name
    validate_env engine_of get_engine kind_eq is_blank hold_create_lock running_names all_agents all
    scan read insert_record older free_name candidate contains text_eq merge_env add_secrets
    on_error plan_of save write_agent event put
forked = refl

abbrev respawned_old : Agent
respawned_old = record old_agent { state = starting; last_modified_at = 10 }

back : (respawn_agent sample_core old_id sample_world).0 ≡ ok respawned_old
unfolding respawn_agent ◌>>=◌ hold_create_lock hold_agent_lock get_agent load file_of engine_of
    get_engine kind_eq check_not_live is_live find_live check_name name_holder holds_name all_agents
    all scan read insert_record older text_eq merge_env validate_env add_secrets is_blank on_error
    plan_of save write_agent event
back = refl

abbrev stopped_main : Agent
stopped_main = record main_agent { state = ended; last_modified_at = 10 }

stopped : (stop_agent sample_core main_id sample_world).0 ≡ ok stopped_main
unfolding stop_agent ◌>>=◌ hold_create_lock hold_agent_lock get_agent load file_of read text_eq
    is_live find_live get_engine kind_eq save write_agent event archive_conversation
stopped = refl

refreshed : (refresh_agent sample_core main_id sample_world).0 ≡ ok (unchanged main_agent)
unfolding refresh_agent ◌>>=◌ hold_agent_lock get_agent load file_of read text_eq is_listed
refreshed = refl

abbrev renamed_main : Agent
renamed_main = record main_agent { name = codes "other"; last_modified_at = 10 }

renamed : (rename_agent sample_core main_id (codes "other") sample_world).0 ≡ ok renamed_main
unfolding rename_agent rename_locked ◌>>=◌ hold_create_lock hold_agent_lock get_agent load file_of
    read text_eq rename_record is_valid_name name_holder holds_name all_agents all scan
    insert_record older is_live find_live save write_agent event
renamed = refl

updated :
    (update_ext sample_core main_id (codes "notes") (λ v. string (codes "hi")) sample_world).0
    ≡ ok true
unfolding update_ext ◌>>=◌ hold_agent_lock get_agent load file_of read text_eq ext_get ext_or_null
    value_eq save write_agent
updated = refl

hooked : (hook sample_core main_id sample_hook sample_world).0 ≡ ok (some idle)
unfolding hook ◌>>=◌ hold_agent_lock get_agent load file_of read text_eq get_engine kind_eq
    move_state save write_agent event archive_conversation
hooked = refl

create_agent-Created_example :
    Created sample_options fresh_id (create_agent sample_core sample_options sample_world).1.dir
create_agent-Created_example =
    create_agent-Created sample_core sample_options sample_world fresh_id created

fork_agent-Created_example :
    ForkedFrom sample_dir main_id sample_fork fresh_id
      (fork_agent sample_core main_id sample_fork sample_world).1.dir
fork_agent-Created_example =
    fork_agent-Created sample_core main_id sample_fork sample_world fresh_id forked

respawn_agent-Respawned_example :
    Respawned sample_dir old_id respawned_old (respawn_agent sample_core old_id sample_world).1.dir
respawn_agent-Respawned_example =
    respawn_agent-Respawned sample_core old_id sample_world respawned_old back

stop_agent-Stopped_example :
    Stopped sample_dir main_id stopped_main (stop_agent sample_core main_id sample_world).1.dir
stop_agent-Stopped_example =
    stop_agent-Stopped sample_core main_id sample_world stopped_main stopped

refresh_agent-Refreshed_example :
    Refreshed sample_dir main_id
      (live_answer sample_core main_id sample_world)
      (unchanged main_agent)
      (refresh_agent sample_core main_id sample_world).1.dir
refresh_agent-Refreshed_example =
    refresh_agent-Refreshed sample_core main_id sample_world (unchanged main_agent) refreshed

hook-Hooked_example :
    Hooked sample_core.engines sample_hook sample_dir main_id
      (some idle)
      (hook sample_core main_id sample_hook sample_world).1.dir
hook-Hooked_example = hook-Hooked sample_core main_id sample_hook sample_world (some idle) hooked

rename_agent-named_example :
    Holds main_id renamed_main (rename_agent sample_core main_id (codes "other") sample_world).1.dir
    × (renamed_main.name ≡ codes "other")
    × (is_valid_name (codes "other") ≡ true)
rename_agent-named_example =
    rename_agent-named sample_core main_id (codes "other") sample_world renamed_main renamed

update_ext-Updated_example :
    Updated sample_dir main_id
      (codes "notes")
      (λ v. string (codes "hi"))
      true
      (update_ext sample_core main_id (codes "notes") (λ v. string (codes "hi")) sample_world).1.dir
update_ext-Updated_example =
    update_ext-Updated sample_core main_id (codes "notes") (λ v. string (codes "hi")) sample_world
      true updated

main_resolved : (resolve sample_core (codes "main") sample_world).0 ≡ ok main_id
unfolding resolve ◌>>=◌ parse_id load file_of read text_eq all_agents all scan insert_record older
    pick
main_resolved = refl

resolve-Resolved_example : Resolved sample_dir (codes "main") main_id
resolve-Resolved_example =
    resolve-Resolved sample_core (codes "main") sample_world main_id sample_dir-Distinct
      main_resolved
