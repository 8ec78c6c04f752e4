-- ===== src/Core/Refine/Launches.antt =====
-- `respawn_agent` writes only as `Evolves` permits, and what the launches share.
use mathlib.Core.Path.{subst}
use tx_ide_rs.Prelude.{
  ◌≡◌, refl, sym, ap, ◌∙◌, inl, inr, Bool-cases, Bool, true, false, [], Option, none, some, Text,
}
use tx_ide_rs.Agent.{Agent, AgentId, DefinitionChoice, starting, is_ended}
use tx_ide_rs.Result.{Res, ok, err, CoreError, name_held, still_running}
use tx_ide_rs.Store.{Dir, load}
use tx_ide_rs.Store.Lookup.{load-id}
use tx_ide_rs.Core.World.{TxCore, World, M, pure, fail, ask, attempt, from_option, emit}
use tx_ide_rs.Core.Read.{name_holder}
use tx_ide_rs.Core.Launch.{
  default_definition, exit_events, launch_event, check_name, check_not_live, respawn_locked,
  respawn_agent,
}
use tx_ide_rs.Core.Evolve.{NameFree, respawn}
use tx_ide_rs.Core.Refine.{
  Quiet, From, bind-Quiet, if-Quiet, guard-Quiet, guard-From, bind-From, bind-From_result,
  bind-From_after, bind-ok,
}
use tx_ide_rs.Core.Refine.Runs.{Writable, resolve_profile-Quiet, start_locked-From}
use tx_ide_rs.Core.Refine.Names.{name_holder-Quiet, name_holder-NameFree}
use tx_ide_rs.Core.Refine.Parts.{
  event-Quiet, hold_create_lock-Quiet, hold_agent_lock-Quiet, is_live-Quiet, engine_of-Quiet,
  get_agent-From,
}

-- An ended record may start again under its own name, where that is free.
Writable-respawned :
    (d : Dir) (id : AgentId) (stored : Agent) {definition : Option DefinitionChoice}
    → load id d ≡ ok (some stored)
    → is_ended stored.state ≡ true
    → NameFree d id stored.name
    → Writable true d (record stored { definition = definition; state = starting })
Writable-respawned d id stored l gone free b s n =
    respawn stored b refl (ap (λ i. load i d) own ∙ l) gone
      (record {
        id = s.id;
        engine = s.engine;
        working_directory = s.working_directory;
        roles = s.roles;
        created_at = s.created_at;
        parent_id = s.parent_id;
      })
      n (subst (λ i. NameFree d i b.name) (sym own) (subst (NameFree d id) (sym n) free)) refl
  where
    own : stored.id ≡ id
    own = load-id id d stored l

module _ {T : Type 0} (core : TxCore T) where
  open core use {outside, config}

  pub exit_events-Quiet : (x : Bool) (session : Agent) → Quiet (exit_events core x session)
  unfolding exit_events
  exit_events-Quiet false session = λ w. refl
  exit_events-Quiet true session = bind-Quiet _ _ (event-Quiet core _ session none _) (λ e w. refl)

  pub launch_event-Quiet :
      (o : Option Agent) (session : Agent) → Quiet (launch_event core o session)
  unfolding launch_event
  launch_event-Quiet none session = event-Quiet core _ session none _
  launch_event-Quiet (some source) session = event-Quiet core _ session none _

  pub from_option-ok :
      {A : Type 0} (e : CoreError) (o : Option A) (w : World T) (a : A)
      → (from_option e o w).0 ≡ ok a
      → o ≡ some a
  from_option-ok e none w a h = cc
  from_option-ok e (some b) w a h = cc

  pub check_not_live-ended :
      (id : AgentId) (session : Agent) (w : World T)
      → (check_not_live core id session w).0 ≡ ok tt
      → is_ended session.state ≡ true
  unfolding check_not_live
  check_not_live-ended id session w h = elim (Bool-cases (is_ended session.state)) [
    | inl gone ↦ gone
    | inr runs ↦ absurd (failed_there (rw runs at h))
  ]
    where
      failed_there : ◌≡◌ {A = Res CoreError (Unit {0})} (err (still_running id)) (ok tt) → ⊥
      failed_there e = cc

  pub check_not_live-Quiet :
      (id : AgentId) (session : Agent) → Quiet (check_not_live core id session)
  unfolding check_not_live
  check_not_live-Quiet id session =
      if-Quiet _ _ _ (bind-Quiet _ _ (is_live-Quiet core id) (λ found. guard-Quiet _ _)) (λ w. refl)

  pass_if_free : Text → Option AgentId → M T (Unit {0})
  pass_if_free name none = pure tt
  pass_if_free name (some other) = fail (name_held name other)

  pass_if_free-Quiet : (name : Text) (o : Option AgentId) → Quiet (pass_if_free name o)
  unfolding pass_if_free
  pass_if_free-Quiet name none = λ w. refl
  pass_if_free-Quiet name (some other) = λ w. refl

  pass_if_free-ok :
      (name : Text) (o : Option AgentId) (w : World T)
      → (pass_if_free name o w).0 ≡ ok tt
      → o ≡ none
  unfolding pass_if_free
  pass_if_free-ok name none w h = refl
  pass_if_free-ok name (some other) w h = cc

  pub check_name-Quiet : (id : AgentId) (session : Agent) → Quiet (check_name core id session)
  unfolding check_name pass_if_free
  check_name-Quiet id session =
      bind-Quiet (name_holder core session.name (some id)) _
        (name_holder-Quiet core session.name (some id)) (pass_if_free-Quiet session.name)

  pub check_name-NameFree :
      (id : AgentId) (session : Agent) (w : World T)
      → (check_name core id session w).0 ≡ ok tt
      → NameFree w.dir id session.name
  unfolding check_name pass_if_free
  check_name-NameFree id session w h =
      let (holder, found, passed) =
        bind-ok (name_holder core session.name (some id)) (pass_if_free session.name) w tt h in
      name_holder-NameFree core session.name id w
        (found ∙ ap ok (pass_if_free-ok session.name holder _ passed))

  respawn_locked-From : (d : Dir) (id : AgentId) → From true d (respawn_locked core id)
  unfolding respawn_locked
  respawn_locked-From d id = bind-From d _ _ (hold_create_lock-Quiet core) λ _.
      bind-From d _ _ (hold_agent_lock-Quiet core id) λ _. get_agent-From core d id _ λ stored l.
        let session = record stored { definition = default_definition core stored.definition } in
        bind-From d _ _ (engine_of-Quiet core stored.engine) λ adapter.
          bind-From d _ _ (resolve_profile-Quiet core stored.roles _) λ resolved.
            bind-From_result d _ _ (check_not_live-Quiet id session) λ _ w _ gone.
              bind-From d (ask (outside.is_dir stored.working_directory)) _ (λ w. refl)
                λ there_is. guard-From d there_is _ _ λ _.
                  bind-From_result d _ _ (check_name-Quiet id session) λ _ w' at free.
                    bind-From d
                      (attempt _ (
                        adapter.restore (record session { state = starting })
                          (config.archive_directory id)))
                      _ (λ w. refl)
                      λ restored.
                        bind-From_after d _ _
                          (start_locked-From core d _ adapter resolved _ [] (
                            Writable-respawned d id stored l
                              (check_not_live-ended id session w gone)
                              (subst (λ x. NameFree x id stored.name) at
                                (check_name-NameFree id session w' free))))
                          λ run.
                            bind-Quiet _ _ (event-Quiet core _ run.0 none [])
                              λ e. bind-Quiet _ _ (exit_events-Quiet run.1 run.0) (λ _ w. refl)

  pub respawn_agent-From : (d : Dir) (id : AgentId) → From true d (respawn_agent core id)
  unfolding respawn_agent
  respawn_agent-From d id =
      bind-From_after d _ _ (respawn_locked-From d id)
        λ run. bind-Quiet (emit run.1) _ (λ w. refl) (λ _ w. refl)
