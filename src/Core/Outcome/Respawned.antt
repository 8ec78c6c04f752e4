-- ===== src/Core/Outcome/Respawned.antt =====
-- What `respawn_agent` has done when it succeeds.
use mathlib.Core.Path.{subst}
use tx_ide_rs.Prelude.{◌≡◌, refl, sym, ap, ◌∙◌, true, [], ◌∷◌, none, some}
use tx_ide_rs.Agent.{Agent, AgentId, starting, is_ended}
use tx_ide_rs.Result.{ok}
use tx_ide_rs.Store.{Dir, load}
use tx_ide_rs.Store.Lookup.{load-id}
use tx_ide_rs.Core.World.{TxCore, ask, attempt, emit}
use tx_ide_rs.Core.Launch.{default_definition, respawn_locked, respawn_agent}
use tx_ide_rs.Core.Evolve.{SameAgent, SameAgent-trans, NameFree}
use tx_ide_rs.Core.Refine.{bind-Quiet}
use tx_ide_rs.Core.Refine.Runs.{resolve_profile-Quiet}
use tx_ide_rs.Core.Refine.Launches.{
  exit_events-Quiet, check_not_live-ended, check_not_live-Quiet, check_name-Quiet,
  check_name-NameFree,
}
use tx_ide_rs.Core.Refine.Parts.{
  event-Quiet, hold_create_lock-Quiet, hold_agent_lock-Quiet, engine_of-Quiet,
}
use tx_ide_rs.Core.Outcome.{
  Gives, pure-Returns, bind-Returns, bind-Gives, bind-Gives_result, bind-Gives_after, guard-Gives,
  get_agent-Gives,
}
use tx_ide_rs.Core.Outcome.Saved.{Holds}
use tx_ide_rs.Core.Outcome.Launched.{Launched, start_locked-Launched}

-- What a respawn of `id` that returns `b` found and leaves: the record had ended and no other
-- running record had its name; `b` stands in its place, the same agent under the same name and tags.
abbrev pub Respawned : Dir → AgentId → Agent → Dir → Type 0
Respawned d id b e =
    (a : Agent) × Holds id a d
    × (is_ended a.state ≡ true)
    × NameFree d id a.name
    × Holds id b e
    × SameAgent a b
    × (b.name ≡ a.name)
    × (b.tags ≡ a.tags)

Launched-Respawned :
    (d e : Dir) (id : AgentId) (stored session b : Agent)
    → load id d ≡ ok (some stored)
    → is_ended stored.state ≡ true
    → NameFree d id stored.name
    → SameAgent stored session
    → session.name ≡ stored.name
    → session.tags ≡ stored.tags
    → Launched session b e
    → Respawned d id b e
Launched-Respawned d e id stored session b l gone free s n t (h, s', n', t') = (
  stored,
  l,
  gone,
  free,
  ap (λ i. load i e) (sym (s.id ∙ load-id id d stored l)) ∙ h,
  SameAgent-trans stored session b s s',
  n' ∙ n,
  t' ∙ t,
)

module _ {T : Type 0} (core : TxCore T) where
  open core use {outside, config}

  respawn_locked-Respawned :
      (d : Dir) (id : AgentId) → Gives d (respawn_locked core id) (λ r e. Respawned d id r.0 e)
  unfolding respawn_locked
  respawn_locked-Respawned d id = bind-Gives d _ _ _ (hold_create_lock-Quiet core) λ _.
      bind-Gives d _ _ _ (hold_agent_lock-Quiet core id) λ _.
        get_agent-Gives core d id _ _ λ stored l.
          let session = record stored { definition = default_definition core stored.definition } in
          bind-Gives d _ _ _ (engine_of-Quiet core stored.engine) λ adapter.
            bind-Gives d _ _ _ (resolve_profile-Quiet core stored.roles _) λ resolved.
              bind-Gives_result d _ _ _ (check_not_live-Quiet core id session) λ _ w _ gone.
                bind-Gives d (ask (outside.is_dir stored.working_directory)) _ _ (λ w. refl)
                  λ there_is. guard-Gives d there_is _ _ _ λ _.
                    bind-Gives_result d _ _ _ (check_name-Quiet core id session) λ _ w' at free.
                      bind-Gives d
                        (attempt _ (
                          adapter.restore (record session { state = starting })
                            (config.archive_directory id)))
                        _ _ (λ w. refl)
                        λ restored.
                          bind-Gives_after d _ _
                            (λ r e. Launched (record session { state = starting }) r.0 e) _
                            (start_locked-Launched core d _ adapter resolved _ [])
                            (λ run. bind-Quiet _ _ (event-Quiet core _ run.0 none []) λ e.
                              bind-Quiet _ _ (exit_events-Quiet core run.1 run.0) (λ _ w. refl))
                            (λ run. bind-Returns _ _ _ λ x. bind-Returns _ _ _ λ more.
                              pure-Returns T (run.0, x ∷ more) _
                                λ e h.
                                  Launched-Respawned d e id stored
                                    (record session { state = starting }) run.0 l
                                    (check_not_live-ended core id session w gone)
                                    (subst (λ x. NameFree x id stored.name) at
                                      (check_name-NameFree core id session w' free))
                                    (record {
                                      id = refl;
                                      engine = refl;
                                      working_directory = refl;
                                      roles = refl;
                                      created_at = refl;
                                      parent_id = refl;
                                    })
                                    refl refl h)

  pub respawn_agent-Gives :
      (d : Dir) (id : AgentId) → Gives d (respawn_agent core id) (Respawned d id)
  unfolding respawn_agent
  respawn_agent-Gives d id =
      bind-Gives_after d _ _ (λ r e. Respawned d id r.0 e) _ (respawn_locked-Respawned d id)
        (λ run. bind-Quiet (emit run.1) _ (λ w. refl) (λ _ w. refl))
        (λ run. bind-Returns _ _ _ λ _. pure-Returns T run.0 _ (λ e h. h))
