-- ===== src/Core/Outcome/Hooked.antt =====
-- What `hook` has done when it succeeds.
use tx_ide_rs.Prelude.{
  ◌≡◌, refl, sym, ap, ◌∙◌, true, false, List, [], ◌∷◌, ◌++◌, Option, none, some, ◌⊎◌, inl, inr,
}
use tx_ide_rs.Agent.{Agent, AgentId, LlmEngineState, is_ended, ext_get}
use tx_ide_rs.Result.{ok}
use tx_ide_rs.Store.{Dir, load}
use tx_ide_rs.Engine.{LlmEngine, LlmEngineHook}
use tx_ide_rs.Engine.Registry.{get_engine}
use tx_ide_rs.Events.{Event}
use tx_ide_rs.Core.World.{TxCore, emit}
use tx_ide_rs.Core.Change.{save_changed, hook_engine, hook_running, hook}
use tx_ide_rs.Core.Refine.{bind-Quiet}
use tx_ide_rs.Core.Refine.Parts.{hold_agent_lock-Quiet, archive_conversation-Quiet}
use tx_ide_rs.Core.Refine.Changes.{move_state-Quiet, set_engine_data-Quiet}
use tx_ide_rs.Core.Outcome.{
  Gives, pure-Gives, pure-Returns, bind-Returns, bind-Gives, bind-Gives_result, bind-Gives_after,
  if-Gives, get_agent-Gives,
}
use tx_ide_rs.Core.Outcome.Saved.{save-IsSaved, Holds, saved-Holds}
use tx_ide_rs.Core.Outcome.Moved.{
  state_after, data_after, no_cons, move_state-Moves, set_engine_data-Writes,
}

-- What the hook leaves of a running record `a` of the id: under its name, the state and the data
-- that its engine asks for.
abbrev HookedOf :
    {T : Type 0}
    → List (LlmEngine T)
    → LlmEngineHook
    → AgentId
    → Agent
    → LlmEngineState
    → Dir
    → Type 0
HookedOf {T} engines h id a s e =
    (adapter : LlmEngine T) × (b : Agent) × (get_engine a.engine engines ≡ some adapter)
    × Holds id b e
    × (b.state ≡ s)
    × (s ≡ state_after (adapter.on_hook a h).new_state a.state)
    × (ext_get adapter.ext_key b.ext
        ≡ data_after (adapter.on_hook a h).engine_data (ext_get adapter.ext_key a.ext))
    × (b.name ≡ a.name)

-- What a hook leaves, by what it returns: nothing changed for a record that has ended or whose
-- engine is not known, or else what the engine asks for.
abbrev pub Hooked :
    {T : Type 0}
    → List (LlmEngine T)
    → LlmEngineHook
    → Dir
    → AgentId
    → Option LlmEngineState
    → Dir
    → Type 0
Hooked engines h d id none e =
    (e ≡ d)
    × ((a : Agent) × Holds id a d
        × ((is_ended a.state ≡ true) ⊎ (get_engine a.engine engines ≡ none)))
Hooked engines h d id (some s) e =
    (a : Agent) × Holds id a d × (is_ended a.state ≡ false) × HookedOf engines h id a s e

none_before : {A : Type 0} (xs ys : List A) → xs ++ ys ≡ [] → xs ≡ []
none_before [] ys h = refl
none_before (x ∷ xs) ys h = absurd (no_cons _ _ h)

none_after : {A : Type 0} (xs ys : List A) → xs ++ ys ≡ [] → ys ≡ []
none_after [] ys h = h
none_after (x ∷ xs) ys h = absurd (no_cons _ _ h)

module _ {T : Type 0} (core : TxCore T) where
  open core use {outside, engines}

  save_changed-Gives :
      (d : Dir) (id : AgentId) (session b : Agent) (es : List Event)
      → load id d ≡ ok (some session)
      → b.id ≡ session.id
      → (es ≡ [] → b ≡ session)
      → Gives d
          (save_changed core es b)
          (λ c e. Holds id c e × (c.state ≡ b.state) × (c.ext ≡ b.ext) × (c.name ≡ b.name))
  unfolding save_changed Gives
  save_changed-Gives d id session b [] l own still w at c h =
      let same : b ≡ c = cc in
      (
        (ap (load id) at ∙ l ∙ ap (λ (x : Agent). ok (some x)) (sym (still refl) ∙ same)),
        ap (λ (x : Agent). x.state) (sym same),
        ap (λ (x : Agent). x.ext) (sym same),
        ap (λ (x : Agent). x.name) (sym same),
      )
  save_changed-Gives d id session b (_ ∷ _) l own still w at c h =
      let s = save-IsSaved core d b w at c h in
      (
        saved-Holds d _ id session b c l own s,
        ap (λ (x : Agent). x.state) s.stamped,
        ap (λ (x : Agent). x.ext) s.stamped,
        ap (λ (x : Agent). x.name) s.stamped,
      )

  hook_engine-Gives :
      (d : Dir) (id : AgentId) (adapter : LlmEngine T) (session : Agent) (h : LlmEngineHook)
      → load id d ≡ ok (some session)
      → is_ended session.state ≡ false
      → get_engine session.engine engines ≡ some adapter
      → Gives d (hook_engine core adapter session h) (Hooked engines h d id)
  unfolding hook_engine
  hook_engine-Gives d id adapter session h l runs known =
      let change = adapter.on_hook session h in
      let key = adapter.ext_key in
      bind-Gives_result d _ _ _ (move_state-Quiet core session change.new_state)
        λ moved w at was_moved.
          bind-Gives_result d _ _ _ (set_engine_data-Quiet core key moved.0 change.engine_data)
            λ written w' at' was_written.
              let m = move_state-Moves core session change.new_state w moved was_moved in
              let n =
                set_engine_data-Writes core key moved.0 change.engine_data w' written was_written in
              bind-Gives_after d _ _ _ _
                (save_changed-Gives d id session written.0 (moved.1 ++ written.1) l (n.0.0 ∙ m.0.0)
                  (λ e. n.0.2 (none_after _ _ e) ∙ m.0.2 (none_before _ _ e)))
                (λ saved.
                  bind-Quiet (emit (moved.1 ++ written.1)) _ (λ w. refl)
                    λ _. bind-Quiet _ _ (archive_conversation-Quiet core saved) (λ _ w. refl))
                (λ saved. bind-Returns _ _ _ λ _. bind-Returns _ _ _ λ _.
                  pure-Returns T (some moved.0.state) _ λ e s. (
                    session,
                    l,
                    runs,
                    (
                      adapter,
                      saved,
                      known,
                      s.0,
                      s.1 ∙ n.1,
                      m.1,
                      (ap (ext_get key) s.2
                          ∙ n.2
                          ∙ ap (λ x. data_after change.engine_data (ext_get key x)) m.2),
                      s.3 ∙ n.0.1 ∙ m.0.1,
                    ),
                  ))

  hook_running-Gives :
      (d : Dir) (id : AgentId) (o : Option (LlmEngine T)) (session : Agent) (h : LlmEngineHook)
      → load id d ≡ ok (some session)
      → is_ended session.state ≡ false
      → get_engine session.engine engines ≡ o
      → Gives d (hook_running core o session h) (Hooked engines h d id)
  unfolding hook_running
  hook_running-Gives d id none session h l runs known =
      pure-Gives T d none (Hooked engines h d id) (refl, (session, l, inr known))
  hook_running-Gives d id (some adapter) session h l runs known =
      hook_engine-Gives d id adapter session h l runs known

  pub hook-Gives :
      (d : Dir) (id : AgentId) (h : LlmEngineHook)
      → Gives d (hook core id h) (Hooked engines h d id)
  unfolding hook
  hook-Gives d id h = bind-Gives d _ _ _ (hold_agent_lock-Quiet core id) λ _.
      get_agent-Gives core d id _ _ λ session l.
        if-Gives d (is_ended session.state) _ _ _
          (λ over. pure-Gives T d none (Hooked engines h d id) (refl, (session, l, inl over)))
          (λ runs.
            hook_running-Gives d id (get_engine session.engine engines) session h l runs refl)
