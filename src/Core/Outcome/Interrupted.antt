-- ===== src/Core/Outcome/Interrupted.antt =====
-- What `interrupt_agent` has done when it succeeds.
use tx_ide_rs.Prelude.{◌≡◌, refl, sym, ap, false, List, Option, none, some}
use tx_ide_rs.Agent.{Agent, AgentId, EngineKind, LlmEngineState, state_eq, is_ended}
use tx_ide_rs.Result.{ok}
use tx_ide_rs.Store.{Dir, load}
use tx_ide_rs.Messaging.{Input}
use tx_ide_rs.Engine.{LlmEngine}
use tx_ide_rs.Engine.Registry.{get_engine}
use tx_ide_rs.Core.World.{TxCore, World, ask, engine_of}
use tx_ide_rs.Core.Read.{is_running}
use tx_ide_rs.Core.Stop.{apply_interrupt, interrupt_agent}
use tx_ide_rs.Core.Refine.{bind-Quiet, from_option-Quiet}
use tx_ide_rs.Core.Refine.Launches.{from_option-ok}
use tx_ide_rs.Core.Refine.Parts.{
  live_or_not_running-Quiet, deliver-Quiet, event-Quiet, hold_agent_lock-Quiet, engine_of-Quiet,
}
use tx_ide_rs.Core.Refine.Stops.{not-false}
use tx_ide_rs.Core.Outcome.{
  Gives, pure-Gives, bind-Returns, Returns, bind-Gives, bind-Gives_result, bind-Gives_after,
  guard-Gives, if-Gives, weaken-Gives, get_agent-Gives,
}
use tx_ide_rs.Core.Outcome.Saved.{IsSaved, save-IsSaved, Holds, saved-Holds}
use tx_ide_rs.Core.Outcome.Moved.{state_after, state_eq_same}

-- What an interrupt of `id` found and leaves: a running record whose engine has a way to interrupt
-- it, now under the same name in the state that the engine gives with it.
abbrev pub Interrupted : {T : Type 0} → List (LlmEngine T) → Dir → AgentId → Dir → Type 0
Interrupted {T} engines d id e =
    (a : Agent) × (adapter : LlmEngine T) × (plan : Input × Option LlmEngineState) × (b : Agent)
    × Holds id a d
    × (is_ended a.state ≡ false)
    × (get_engine a.engine engines ≡ some adapter)
    × (adapter.interrupt a ≡ some plan)
    × Holds id b e
    × (b.state ≡ state_after plan.1 a.state)
    × (b.name ≡ a.name)

module _ {T : Type 0} (core : TxCore T) where
  open core use {outside, engines}

  apply_interrupt-Gives :
      (d : Dir) (id : AgentId) (session : Agent) (o : Option LlmEngineState)
      → load id d ≡ ok (some session)
      → Gives d (apply_interrupt core session o) (λ _ e.
        (b : Agent) × Holds id b e
        × (b.state ≡ state_after o session.state)
        × (b.name ≡ session.name))
  unfolding apply_interrupt Returns
  apply_interrupt-Gives d id session none l = pure-Gives T d tt _ (session, l, refl, refl)
  apply_interrupt-Gives d id session (some to) l =
      if-Gives d (state_eq to session.state) _ _ _
        (λ alike.
          pure-Gives T d tt _ (session, l, sym (state_eq_same to session.state alike), refl))
        (λ _.
          bind-Gives d (ask outside.now) _ _ (λ w. refl)
            λ at.
              let moved = record session { state = to; last_activity_at = some at } in
              bind-Gives_after d _ _ (IsSaved d moved) _ (save-IsSaved core d moved)
                (λ saved. bind-Quiet _ _ (event-Quiet core _ saved none _) λ e. λ w. refl)
                (λ saved. bind-Returns _ _ _ λ x w u h e s. (
                  saved,
                  saved-Holds d e id session moved saved l refl s,
                  ap (λ (a : Agent). a.state) s.stamped,
                  ap (λ (a : Agent). a.name) s.stamped,
                )))

  engine_of-ok :
      (kind : EngineKind) (w : World T) (adapter : LlmEngine T)
      → (engine_of core kind w).0 ≡ ok adapter
      → get_engine kind engines ≡ some adapter
  unfolding engine_of
  engine_of-ok kind w adapter h = from_option-ok core _ (get_engine kind engines) w adapter h

  pub interrupt_agent-Gives :
      (d : Dir) (id : AgentId)
      → Gives d (interrupt_agent core id) (λ _ e. Interrupted engines d id e)
  unfolding interrupt_agent
  interrupt_agent-Gives d id = bind-Gives d _ _ _ (hold_agent_lock-Quiet core id) λ _.
      get_agent-Gives core d id _ _ λ session l. guard-Gives d (is_running session) _ _ _ λ runs.
        bind-Gives_result d _ _ _ (engine_of-Quiet core session.engine) λ adapter w _ known.
          bind-Gives_result d _ _ _ (from_option-Quiet _ (adapter.interrupt session))
            λ plan w' _ has. bind-Gives d _ _ _ (live_or_not_running-Quiet core id) λ live.
              bind-Gives d _ _ _ (deliver-Quiet core live.pane_target plan.0) λ _.
                weaken-Gives d _ _ _
                  (λ _ e h. (
                    session,
                    adapter,
                    plan,
                    h.0,
                    l,
                    not-false (is_ended session.state) runs,
                    engine_of-ok session.engine w adapter known,
                    from_option-ok core _ _ w' plan has,
                    h.1,
                    h.2,
                    h.3,
                  ))
                  (apply_interrupt-Gives d id session plan.1 l)
