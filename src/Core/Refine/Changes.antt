-- ===== src/Core/Refine/Changes.antt =====
-- `rename_agent`, `update_ext`, `hook` and `set_agent_tags` write only as `Evolves` permits.
use mathlib.Core.Path.{subst}
use tx_ide_rs.Prelude.{
  ◌≡◌, refl, sym, ap, ◌∙◌, Bool, true, false, List, [], ◌∷◌, ◌++◌, Option, none, some, arith, Text,
  text_eq, Bool-cases, inl, inr,
}
use tx_ide_rs.Json.{Value, value_eq}
use tx_ide_rs.Agent.{
  Agent, AgentId, LlmEngineState, state_eq, is_ended, is_valid_name, ext_get, ext_insert,
}
use tx_ide_rs.Result.{
  Res, ok, err, TmuxError, spawn, failed, inspection_failed, CoreError, invalid_name, name_taken,
}
use tx_ide_rs.Store.{Dir, load}
use tx_ide_rs.Store.Lookup.{load-id}
use tx_ide_rs.Engine.{LlmEngine, LlmEngineHook}
use tx_ide_rs.Engine.Registry.{get_engine}
use tx_ide_rs.Events.{Event}
use tx_ide_rs.Core.World.{Live, TxCore, World, ◌>>=◌, ask, emit, save, event}
use tx_ide_rs.Core.Read.{name_holder}
use tx_ide_rs.Core.Change.{
  is_none, same_data, rename_refused, rename_in_tmux, rename_live, rename_record, rename_locked,
  rename_agent, with_ext, write_ext, update_ext, move_state, set_engine_data, save_changed,
  hook_engine, hook_running, hook, set_agent_tags,
}
use tx_ide_rs.Core.Evolve.{SameAgent, SameAgent-trans, NameFree, rename, same}
use tx_ide_rs.Core.Refine.{
  Quiet, From, bind-Quiet, if-Quiet, if-From, guard-From, bind-From, bind-From_result,
  bind-From_after,
}
use tx_ide_rs.Core.Refine.Names.{name_holder-Quiet, name_holder-NameFree}
use tx_ide_rs.Core.Refine.Parts.{
  event-Quiet, hold_create_lock-Quiet, hold_agent_lock-Quiet, is_live-Quiet, get_agent-From,
  save-From, edit-From, archive_conversation-Quiet,
}

-- The record `b` is an edit of `a` under its name.
abbrev EditOf : Agent → Agent → Type 0
EditOf a b = SameAgent a b × (b.name ≡ a.name)

edited :
    (a b : Agent)
    → b.id ≡ a.id
    → b.engine ≡ a.engine
    → b.working_directory ≡ a.working_directory
    → b.roles ≡ a.roles
    → b.created_at ≡ a.created_at
    → b.parent_id ≡ a.parent_id
    → SameAgent a b
edited a b i e d r c p = record {
  id = i;
  engine = e;
  working_directory = d;
  roles = r;
  created_at = c;
  parent_id = p;
}

EditOf-trans : (a b c : Agent) → EditOf a b → EditOf b c → EditOf a c
EditOf-trans a b c h k = (SameAgent-trans a b c h.0 k.0, k.1 ∙ h.1)

is_none-none : {A : Type 0} (o : Option A) → is_none o ≡ true → o ≡ none
is_none-none none e = refl
is_none-none (some a) e = cc

first :
    {a : Agent} (b : Agent) (r : Agent × List Event) (es : List Event)
    → ◌≡◌ {A = Res CoreError (Agent × List Event)} (ok (b, es)) (ok r)
    → EditOf a b
    → EditOf a r.0
first {a} b r es h e =
    let together : ◌≡◌ {A = Agent × List Event} (b, es) r = cc in
    subst (λ (x : Agent × List Event). EditOf a x.0) together e

module _ {T : Type 0} (core : TxCore T) where
  open core use {outside, engines}

  rename_refused-Quiet :
      (name : Text) (r : Res TmuxError (Unit {0})) → Quiet (rename_refused core name r)
  unfolding rename_refused
  rename_refused-Quiet name (ok _) = λ w. refl
  rename_refused-Quiet name (err (failed stderr)) = if-Quiet _ _ _ (λ w. refl) (λ w. refl)
  rename_refused-Quiet name (err (spawn e)) = λ w. refl
  rename_refused-Quiet name (err (inspection_failed e)) = λ w. refl

  rename_in_tmux-Quiet : (name : Text) (o : Option Live) → Quiet (rename_in_tmux core name o)
  unfolding rename_in_tmux
  rename_in_tmux-Quiet name none = λ w. refl
  rename_in_tmux-Quiet name (some live) =
      bind-Quiet (ask (outside.rename_session live.session_target name)) (rename_refused core name)
        (λ w. refl) (rename_refused-Quiet name)

  pub rename_live-Quiet :
      (id : AgentId) (session : Agent) (name : Text) → Quiet (rename_live core id session name)
  unfolding rename_live
  rename_live-Quiet id session name =
      if-Quiet _ _ _ (bind-Quiet _ _ (is_live-Quiet core id) (rename_in_tmux-Quiet name))
        (λ w. refl)

  rename_record-From :
      {may : Bool} (d : Dir) (id : AgentId) (session : Agent) (name : Text)
      → load id d ≡ ok (some session)
      → From may d (rename_record core id session name)
  unfolding rename_record
  rename_record-From {may} d id session name l =
      bind-From_result d (name_holder core name (some id)) _ (name_holder-Quiet core name (some id))
        λ holder w at found. guard-From d (is_none holder) (name_taken name) _ λ none_found.
          bind-From d (rename_live core id session name) _ (rename_live-Quiet id session name) λ _.
            bind-From_after d (save core (record session { name = name })) _
              (written (
                subst (λ x. NameFree x id name) at
                  (name_holder-NameFree core name id w
                    (found ∙ ap ok (is_none-none holder none_found)))))
              (λ saved. bind-Quiet _ _ (event-Quiet core _ saved none _) (λ e w. refl))
    where
      written : NameFree d id name → From may d (save core (record session { name = name }))
      written free =
          save-From core d (record session { name = name })
            λ at.
              rename session (record session { name = name; last_modified_at = at })
                (ap (λ i. load i d) (load-id id d session l) ∙ l)
                (edited _ _ refl refl refl refl refl refl) refl
                (subst (λ i. NameFree d i name) (sym (load-id id d session l)) free) refl

  rename_locked-From :
      {may : Bool} (d : Dir) (id : AgentId) (name : Text) → From may d (rename_locked core id name)
  unfolding rename_locked
  rename_locked-From d id name = guard-From d (is_valid_name name) (invalid_name name) _ λ _.
      bind-From d _ _ (hold_create_lock-Quiet core) λ _.
        bind-From d _ _ (hold_agent_lock-Quiet core id) λ _. get_agent-From core d id _ λ session l.
          if-From d (text_eq session.name name) _ _ (λ _ w e. same e)
            (λ _. rename_record-From d id session name l)

  -- A rename writes only as permitted, whatever tmux answers.
  pub rename_agent-From :
      {may : Bool} (d : Dir) (id : AgentId) (name : Text) → From may d (rename_agent core id name)
  unfolding rename_agent
  rename_agent-From d id name =
      bind-From_after d _ _ (rename_locked-From d id name)
        (λ renamed. bind-Quiet (emit renamed.1) _ (λ w. refl) (λ _ w. refl))

  -- An edit of a record that is running, or that keeps its state.
  keep :
      {may : Bool} (d : Dir) (id : AgentId) (a b : Agent)
      → load id d ≡ ok (some a)
      → EditOf a b
      → (is_ended a.state ≡ true → is_ended b.state ≡ true)
      → From may d (save core b)
  keep d id a b l s keeps =
      edit-From core d a b (ap (λ i. load i d) (load-id id d a l) ∙ l) s.0 s.1 keeps

  write_ext-From :
      {may : Bool} (d : Dir) (id : AgentId) (session : Agent) (plugin : Text) (before value : Value)
      → load id d ≡ ok (some session)
      → From may d (write_ext core plugin session before value)
  unfolding write_ext with_ext
  write_ext-From d id session plugin before value l =
      if-From d (value_eq value before) _ _ (λ _ w e. same e)
        λ _.
          bind-From_after d (save core (with_ext plugin value session)) _
            (keep d id session (with_ext plugin value session) l
              (edited _ _ refl refl refl refl refl refl, refl) (λ h. h))
            (λ _ w. refl)

  pub update_ext-From :
      {may : Bool} (d : Dir) (id : AgentId) (plugin : Text) (f : Value → Value)
      → From may d (update_ext core id plugin f)
  unfolding update_ext
  update_ext-From d id plugin f =
      bind-From d _ _ (hold_agent_lock-Quiet core id)
        λ _. get_agent-From core d id _ λ session l. write_ext-From d id session plugin _ _ l

  pub set_agent_tags-From :
      {may : Bool} (d : Dir) (id : AgentId) (tags : List Text)
      → From may d (set_agent_tags core id tags)
  unfolding set_agent_tags
  set_agent_tags-From d id tags = bind-From d _ _ (hold_agent_lock-Quiet core id) λ _.
      get_agent-From core d id _ λ session l.
        bind-From_after d (save core (record session { tags = tags })) _
          (keep d id session (record session { tags = tags }) l
            (edited _ _ refl refl refl refl refl refl, refl) (λ h. h))
          (λ saved.
            bind-Quiet _ _ (event-Quiet core _ saved none _)
              λ e. bind-Quiet (emit (e ∷ [])) _ (λ w. refl) (λ _ w. refl))

  pub move_state-Quiet :
      (session : Agent) (o : Option LlmEngineState) → Quiet (move_state core session o)
  unfolding move_state
  move_state-Quiet session none = λ w. refl
  move_state-Quiet session (some to) =
      if-Quiet _ _ _ (λ w. refl)
        (bind-Quiet (ask outside.now) _ (λ w. refl)
          λ at.
            bind-Quiet _ _
              (event-Quiet core _ (record session { state = to; last_activity_at = some at }) none
                _)
              (λ e w. refl))

  pub set_engine_data-Quiet :
      (key : Text) (session : Agent) (o : Option Value) → Quiet (set_engine_data core key session o)
  unfolding set_engine_data
  set_engine_data-Quiet key session none = λ w. refl
  set_engine_data-Quiet key session (some value) =
      if-Quiet _ _ _ (λ w. refl) (bind-Quiet _ _ (event-Quiet core _ _ none key) (λ e w. refl))

  move_state-EditOf :
      (session : Agent) (o : Option LlmEngineState) (w : World T) (r : Agent × List Event)
      → (move_state core session o w).0 ≡ ok r
      → EditOf session r.0
  unfolding move_state event ◌>>=◌
  move_state-EditOf session none w r h =
      first session r _ h (edited _ _ refl refl refl refl refl refl, refl)
  move_state-EditOf session (some to) w r h = elim (Bool-cases (state_eq to session.state)) [
    | inl same_state ↦
        first session r [] (rw same_state at h) (edited _ _ refl refl refl refl refl refl, refl)
    | inr other ↦
        first (record session { state = to; last_activity_at = some (outside.now w.outer).0 }) r _
          (rw other at h) (edited _ _ refl refl refl refl refl refl, refl)
  ]

  set_engine_data-EditOf :
      (key : Text) (session : Agent) (o : Option Value) (w : World T) (r : Agent × List Event)
      → (set_engine_data core key session o w).0 ≡ ok r
      → EditOf session r.0
  unfolding set_engine_data event ◌>>=◌
  set_engine_data-EditOf key session none w r h =
      first session r _ h (edited _ _ refl refl refl refl refl refl, refl)
  set_engine_data-EditOf key session (some value) w r h =
      elim (Bool-cases (same_data (ext_get key session.ext) value)) [
        | inl same_value ↦
            first session r [] (rw same_value at h) (edited _ _ refl refl refl refl refl refl, refl)
        | inr other ↦
            first (record session { ext = ext_insert key value session.ext }) r _ (rw other at h)
              (edited _ _ refl refl refl refl refl refl, refl)
      ]

  save_changed-From :
      {may : Bool} (d : Dir) (id : AgentId) (a b : Agent) (es : List Event)
      → load id d ≡ ok (some a)
      → is_ended a.state ≡ false
      → EditOf a b
      → From may d (save_changed core es b)
  unfolding save_changed
  save_changed-From d id a b [] l runs s = λ w e. same e
  save_changed-From d id a b (e ∷ es) l runs s = keep d id a b l s (λ h. absurd (ground arith))

  hook_engine-From :
      {may : Bool} (d : Dir) (id : AgentId) (adapter : LlmEngine T) (session : Agent)
      (h : LlmEngineHook)
      → load id d ≡ ok (some session)
      → is_ended session.state ≡ false
      → From may d (hook_engine core adapter session h)
  unfolding hook_engine
  hook_engine-From d id adapter session h l runs =
      let change = adapter.on_hook session h in
      bind-From_result d _ _ (move_state-Quiet session change.new_state) λ moved w at was_moved.
        bind-From_result d _ _ (set_engine_data-Quiet adapter.ext_key moved.0 change.engine_data)
          λ written w' at' was_written.
            bind-From_after d _ _
              (save_changed-From d id session written.0 (moved.1 ++ written.1) l runs (
                EditOf-trans session moved.0 written.0
                  (move_state-EditOf session change.new_state w moved was_moved)
                  (set_engine_data-EditOf adapter.ext_key moved.0 change.engine_data w' written
                    was_written)))
              (λ saved.
                bind-Quiet (emit (moved.1 ++ written.1)) _ (λ w. refl)
                  λ _. bind-Quiet _ _ (archive_conversation-Quiet core saved) (λ _ w. refl))

  hook_running-From :
      {may : Bool} (d : Dir) (id : AgentId) (o : Option (LlmEngine T)) (session : Agent)
      (h : LlmEngineHook)
      → load id d ≡ ok (some session)
      → is_ended session.state ≡ false
      → From may d (hook_running core o session h)
  unfolding hook_running
  hook_running-From d id none session h l runs = λ w e. same e
  hook_running-From d id (some adapter) session h l runs =
      hook_engine-From d id adapter session h l runs

  pub hook-From :
      {may : Bool} (d : Dir) (id : AgentId) (h : LlmEngineHook) → From may d (hook core id h)
  unfolding hook
  hook-From d id h = bind-From d _ _ (hold_agent_lock-Quiet core id) λ _.
      get_agent-From core d id _ λ session l.
        if-From d (is_ended session.state) _ _ (λ _ w e. same e)
          (λ runs. hook_running-From d id (get_engine session.engine engines) session h l runs)
