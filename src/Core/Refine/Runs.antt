-- ===== src/Core/Refine/Runs.antt =====
-- From the profile to the record of a started program: the rules for `start_locked`.
use tx_ide_rs.Prelude.{
  ℕ, ◌≡◌, refl, ◌∙◌, Bool, true, false, List, [], ◌∷◌, Option, none, some, Text,
}
use tx_ide_rs.Json.{Value}
use tx_ide_rs.Agent.{Agent, DefinitionChoice}
use tx_ide_rs.Result.{Res, ok, err, TmuxError, spawn, failed, inspection_failed, CoreError}
use tx_ide_rs.Store.{Dir, put}
use tx_ide_rs.Engine.{LlmEngine, LaunchPlan, ResolvedProfile}
use tx_ide_rs.Core.World.{TxCore, World, M, ask, attempt, from_result}
use tx_ide_rs.Core.Env.{Env}
use tx_ide_rs.Core.Launch.{
  Opening, plan_of, after_error, on_error, profile_roles, apply_choice, resolve_profile,
  cleanup_profile, undo, with_engine_data, started, linked, mark_if, run_plan, check_program,
  start_locked, exact,
}
use tx_ide_rs.Core.Evolve.{SameAgent, SameAgent-refl, SameAgent-trans, Step}
use tx_ide_rs.Core.Refine.{
  Quiet, From, bind-Quiet, if-Quiet, bind-From, bind-From_after, Evolves-same,
}
use tx_ide_rs.Core.Refine.Parts.{save-From}

-- The record may be written over `d` by whoever keeps its identity and its name.
abbrev pub Writable : Bool → Dir → Agent → Type 0
Writable may d session =
    (b : Agent) → SameAgent session b → b.name ≡ session.name → Step may d (put b d)

pub mark_if-SameAgent :
    (x : Bool) (session : Agent)
    → SameAgent session (mark_if x session) × ((mark_if x session).name ≡ session.name)
mark_if-SameAgent true session = (
  record {
    id = refl;
    engine = refl;
    working_directory = refl;
    roles = refl;
    created_at = refl;
    parent_id = refl;
  },
  refl,
)
mark_if-SameAgent false session = (SameAgent-refl session, refl)

stamped-SameAgent :
    (a b : Agent) (at : ℕ) → SameAgent a b → SameAgent a (record b { last_modified_at = at })
stamped-SameAgent a b at s = record {
  id = s.id;
  engine = s.engine;
  working_directory = s.working_directory;
  roles = s.roles;
  created_at = s.created_at;
  parent_id = s.parent_id;
}

pub with_engine_data-SameAgent :
    (key : Text) (o : Option Value) (session : Agent)
    → SameAgent session (with_engine_data key o session)
      × ((with_engine_data key o session).name ≡ session.name)
unfolding with_engine_data
with_engine_data-SameAgent key none session = (SameAgent-refl session, refl)
with_engine_data-SameAgent key (some v) session = (
  record {
    id = refl;
    engine = refl;
    working_directory = refl;
    roles = refl;
    created_at = refl;
    parent_id = refl;
  },
  refl,
)

module _ {T : Type 0} where
  pub after_error-Quiet :
      {A : Type 0} (cleanup : M T (Unit {0})) (r : Res CoreError A × World T)
      → Quiet cleanup
      → (after_error cleanup r).1.dir ≡ r.1.dir
  unfolding after_error
  after_error-Quiet cleanup (ok a, w) q = refl
  after_error-Quiet cleanup (err e, w) q = q w

  pub on_error-Quiet :
      {A : Type 0} (cleanup : M T (Unit {0})) (m : M T A)
      → Quiet cleanup
      → Quiet m
      → Quiet (on_error cleanup m)
  unfolding on_error
  on_error-Quiet cleanup m q h w = after_error-Quiet cleanup (m w) q ∙ h w

  pub on_error-From :
      {may : Bool} {A : Type 0} (d : Dir) (cleanup : M T (Unit {0})) (m : M T A)
      → Quiet cleanup
      → From may d m
      → From may d (on_error cleanup m)
  unfolding on_error
  on_error-From d cleanup m q h w e = Evolves-same (h w e) (after_error-Quiet cleanup (m w) q)

module _ {T : Type 0} (core : TxCore T) where
  open core use {outside, config}

  profile_roles-Quiet :
      (roles : List Text) (o : Option DefinitionChoice) → Quiet (profile_roles core roles o)
  unfolding profile_roles
  profile_roles-Quiet [] none w = refl
  profile_roles-Quiet [] (some choice) w = refl
  profile_roles-Quiet (r ∷ roles) o w = refl

  apply_choice-Quiet :
      (o : Option DefinitionChoice) (p : ResolvedProfile) → Quiet (apply_choice core o p)
  unfolding apply_choice
  apply_choice-Quiet none p w = refl
  apply_choice-Quiet (some choice) p w = refl

  pub resolve_profile-Quiet :
      (roles : List Text) (o : Option DefinitionChoice) → Quiet (resolve_profile core roles o)
  unfolding resolve_profile
  resolve_profile-Quiet roles o = bind-Quiet _ _ (profile_roles-Quiet roles o) λ names.
      bind-Quiet (attempt _ (outside.resolve_roles names)) _ (λ w. refl) (apply_choice-Quiet o)

  pub cleanup_profile-Quiet : (session : Agent) → Quiet (cleanup_profile core session)
  unfolding cleanup_profile
  cleanup_profile-Quiet session w = refl

  pub undo-Quiet : (session : Agent) → Quiet (undo core session)
  unfolding undo
  undo-Quiet session =
      bind-Quiet (ask (outside.kill_session (exact session.name))) _ (λ w. refl)
        (λ _. cleanup_profile-Quiet session)

  pub started-Quiet :
      (session : Agent) (r : Res TmuxError (Unit {0})) → Quiet (started core session r)
  unfolding started
  started-Quiet session (ok _) = λ w. refl
  started-Quiet session (err e) = bind-Quiet _ _ (cleanup_profile-Quiet session) (λ _ w. refl)

  pub linked-Quiet :
      (session : Agent) (r : Res TmuxError (Unit {0})) → Quiet (linked core session r)
  unfolding linked
  linked-Quiet session (ok _) = λ w. refl
  linked-Quiet session (err (failed stderr)) =
      if-Quiet _ _ _ (λ w. refl) (bind-Quiet _ _ (undo-Quiet session) (λ _ w. refl))
  linked-Quiet session (err (spawn e)) = bind-Quiet _ _ (undo-Quiet session) (λ _ w. refl)
  linked-Quiet session (err (inspection_failed e)) =
      bind-Quiet _ _ (undo-Quiet session) (λ _ w. refl)

  run_plan-From :
      {may : Bool} (d : Dir) (session : Agent) (plan : LaunchPlan) (env : Env)
      → Writable may d session
      → From may d (run_plan core session plan env)
  unfolding run_plan
  run_plan-From d session plan env writable =
      bind-From d (ask (outside.new_session session plan.program plan.args env)) _ (λ w. refl)
        λ made. bind-From d _ _ (started-Quiet session made) λ _.
          bind-From d (ask (outside.set_tx_id session.name session.id)) _ (λ w. refl)
            λ link. bind-From d _ _ (linked-Quiet session link) λ x.
              bind-From_after d _ _
                (on_error-From d (undo core session) _ (undo-Quiet session) (
                  save-From core d (mark_if x session) λ at.
                    writable (record (mark_if x session) { last_modified_at = at })
                      (stamped-SameAgent session (mark_if x session) at
                        (mark_if-SameAgent x session).0)
                      (mark_if-SameAgent x session).1))
                (λ saved w. refl)

  pub check_program-Quiet :
      (session : Agent) (plan : LaunchPlan) → Quiet (check_program core session plan)
  unfolding check_program
  check_program-Quiet session plan =
      if-Quiet _ _ _ (bind-Quiet _ _ (cleanup_profile-Quiet session) (λ _ w. refl)) (λ w. refl)

  pub start_locked-From :
      {may : Bool} (d : Dir) (session : Agent) (adapter : LlmEngine T) (resolved : ResolvedProfile)
      (opening : Opening) (env : Env)
      → Writable may d session
      → From may d (start_locked core session adapter resolved opening env)
  unfolding start_locked
  start_locked-From d session adapter resolved opening extra writable =
      let clean = cleanup_profile-Quiet session in
      bind-From d (from_result (λ e. e) _) _ (λ w. refl)
        λ env.
          bind-From d (attempt _ (adapter.prepare session)) _ (λ w. refl)
            λ _.
              bind-From d (attempt _ (outside.write_profile resolved _)) _ (λ w. refl)
                λ _.
                  bind-From d _ _
                    (on_error-Quiet _ (from_result _ (plan_of adapter _ opening)) clean (λ w. refl))
                    λ plan.
                      bind-From d _ _
                        (on_error-Quiet _
                          (attempt _
                            (outside.apply_workspace session.working_directory plan.workspace))
                          clean (λ w. refl))
                        λ _.
                          bind-From d _ _
                            (on_error-Quiet _ (from_result (λ e. e) _) clean (λ w. refl))
                            λ _. bind-From d _ _ (check_program-Quiet session plan) λ _.
                              let (kept, named) =
                                with_engine_data-SameAgent adapter.ext_key plan.engine_data
                                  session in
                              run_plan-From d
                                (with_engine_data adapter.ext_key plan.engine_data session) plan _
                                (λ b s n.
                                  writable b (SameAgent-trans session _ b kept s) (n ∙ named))
