-- ===== src/Core/Outcome/Launched.antt =====
-- What `start_locked` has done when it succeeds.
use tx_ide_rs.Prelude.{◌≡◌, refl, sym, ap, ◌∙◌, Bool, true, false, Option, none, some, Text}
use tx_ide_rs.Json.{Value}
use tx_ide_rs.Agent.{Agent}
use tx_ide_rs.Result.{Res, ok, err, CoreError}
use tx_ide_rs.Store.{Dir, load}
use tx_ide_rs.Engine.{LlmEngine, LaunchPlan, ResolvedProfile}
use tx_ide_rs.Core.World.{TxCore, World, M, ask, attempt, from_result}
use tx_ide_rs.Core.Env.{Env}
use tx_ide_rs.Core.Launch.{
  Opening, plan_of, after_error, on_error, undo, with_engine_data, mark_if, run_plan, start_locked,
}
use tx_ide_rs.Core.Evolve.{SameAgent, SameAgent-trans}
use tx_ide_rs.Core.Refine.Runs.{
  on_error-Quiet, cleanup_profile-Quiet, started-Quiet, linked-Quiet, check_program-Quiet,
  mark_if-SameAgent, with_engine_data-SameAgent,
}
use tx_ide_rs.Core.Outcome.{Gives, pure-Returns, bind-Gives, bind-Gives_after, weaken-Gives}
use tx_ide_rs.Core.Outcome.Saved.{IsSaved, IsSaved-load, save-IsSaved, Holds}

-- The record `b` stands in the directory under the id of `session`, with its identity, name and tags.
abbrev pub Launched : Agent → Agent → Dir → Type 0
Launched session b e =
    Holds session.id b e × SameAgent session b × (b.name ≡ session.name) × (b.tags ≡ session.tags)

mark_if-tags : (x : Bool) (session : Agent) → (mark_if x session).tags ≡ session.tags
mark_if-tags true session = refl
mark_if-tags false session = refl

with_engine_data-tags :
    (key : Text) (o : Option Value) (session : Agent)
    → (with_engine_data key o session).tags ≡ session.tags
unfolding with_engine_data
with_engine_data-tags key none session = refl
with_engine_data-tags key (some v) session = refl

saved-Launched :
    (d e : Dir) (x : Bool) (session b : Agent)
    → IsSaved d (mark_if x session) b e
    → Launched session b e
saved-Launched d e x session b s =
    let (kept, named) = mark_if-SameAgent x session in
    let own : (mark_if x session).id ≡ session.id = kept.id in
    (
      ap (λ i. load i e) (sym own) ∙ IsSaved-load (mark_if x session) b s,
      SameAgent-trans session (mark_if x session) b kept (record {
        id = ap (λ (a : Agent). a.id) s.stamped;
        engine = ap (λ (a : Agent). a.engine) s.stamped;
        working_directory = ap (λ (a : Agent). a.working_directory) s.stamped;
        roles = ap (λ (a : Agent). a.roles) s.stamped;
        created_at = ap (λ (a : Agent). a.created_at) s.stamped;
        parent_id = ap (λ (a : Agent). a.parent_id) s.stamped;
      }),
      ap (λ (a : Agent). a.name) s.stamped ∙ named,
      ap (λ (a : Agent). a.tags) s.stamped ∙ mark_if-tags x session,
    )

Launched-trans :
    (a b c : Agent) (e : Dir)
    → SameAgent a b
    → b.name ≡ a.name
    → b.tags ≡ a.tags
    → Launched b c e
    → Launched a c e
Launched-trans a b c e s n t (h, s', n', t') =
    (ap (λ i. load i e) (sym s.id) ∙ h, SameAgent-trans a b c s s', n' ∙ n, t' ∙ t)

module _ {T : Type 0} where
  after_error-ok :
      {A : Type 0} (cleanup : M T (Unit {0})) (r : Res CoreError A × World T) (a : A)
      (P : A → Dir → Type 0)
      → ((b : A) → r.0 ≡ ok b → P b r.1.dir)
      → (after_error cleanup r).0 ≡ ok a
      → P a (after_error cleanup r).1.dir
  unfolding after_error
  after_error-ok cleanup (ok b, w) a P k h = k a h
  after_error-ok cleanup (err e, w) a P k h = cc

  pub on_error-Gives :
      {A : Type 0} (d : Dir) (cleanup : M T (Unit {0})) (m : M T A) (P : A → Dir → Type 0)
      → Gives d m P
      → Gives d (on_error cleanup m) P
  unfolding on_error Gives
  on_error-Gives d cleanup m P g w e a h = after_error-ok cleanup (m w) a P (g w e) h

module _ {T : Type 0} (core : TxCore T) where
  open core use {outside, config}

  run_plan-Launched :
      (d : Dir) (session : Agent) (plan : LaunchPlan) (env : Env)
      → Gives d (run_plan core session plan env) (λ r e. Launched session r.0 e)
  unfolding run_plan
  run_plan-Launched d session plan env =
      bind-Gives d (ask (outside.new_session session plan.program plan.args env)) _ _ (λ w. refl)
        λ made. bind-Gives d _ _ _ (started-Quiet core session made) λ _.
          bind-Gives d (ask (outside.set_tx_id session.name session.id)) _ _ (λ w. refl)
            λ link. bind-Gives d _ _ _ (linked-Quiet core session link) λ x.
              bind-Gives_after d _ _ (IsSaved d (mark_if x session)) _
                (on_error-Gives d (undo core session) _ _ (save-IsSaved core d (mark_if x session)))
                (λ saved w. refl)
                (λ saved. pure-Returns T (saved, x) _ (λ e s. saved-Launched d e x session saved s))

  pub start_locked-Launched :
      (d : Dir) (session : Agent) (adapter : LlmEngine T) (resolved : ResolvedProfile)
      (opening : Opening) (env : Env)
      → Gives d
          (start_locked core session adapter resolved opening env)
          (λ r e. Launched session r.0 e)
  unfolding start_locked
  start_locked-Launched d session adapter resolved opening extra =
      let clean = cleanup_profile-Quiet core session in
      bind-Gives d (from_result (λ e. e) _) _ _ (λ w. refl)
        λ env.
          bind-Gives d (attempt _ (adapter.prepare session)) _ _ (λ w. refl)
            λ _.
              bind-Gives d (attempt _ (outside.write_profile resolved _)) _ _ (λ w. refl)
                λ _.
                  bind-Gives d _ _ _
                    (on_error-Quiet _ (from_result _ (plan_of adapter _ opening)) clean (λ w. refl))
                    λ plan.
                      bind-Gives d _ _ _
                        (on_error-Quiet _
                          (attempt _
                            (outside.apply_workspace session.working_directory plan.workspace))
                          clean (λ w. refl))
                        λ _.
                          bind-Gives d _ _ _
                            (on_error-Quiet _ (from_result (λ e. e) _) clean (λ w. refl))
                            λ _. bind-Gives d _ _ _ (check_program-Quiet core session plan) λ _.
                              let (kept, named) =
                                with_engine_data-SameAgent adapter.ext_key plan.engine_data
                                  session in
                              weaken-Gives d _ _ _
                                (λ r e h.
                                  Launched-trans session _ r.0 e kept named
                                    (with_engine_data-tags adapter.ext_key plan.engine_data session)
                                    h)
                                (run_plan-Launched d
                                  (with_engine_data adapter.ext_key plan.engine_data session) plan
                                  _)
