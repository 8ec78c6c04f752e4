-- ===== src/Core/Refine/Stops.antt =====
-- `refresh_agent`, `refresh_all`, `interrupt_agent` and `stop_agent` write only as `Evolves` permits.
use tx_ide_rs.Prelude.{
  ℕ, ◌≡◌, refl, sym, ap, ◌∙◌, Bool, true, false, not, ◌||◌, List, [], ◌∷◌, Option, none, some,
  arith,
}
use tx_ide_rs.Agent.{Agent, AgentId, LlmEngineState, ended, state_eq, is_ended}
use tx_ide_rs.Result.{Res, ok, err, StoreError, store_error, not_running, tmux_error}
use tx_ide_rs.Store.{Dir, load}
use tx_ide_rs.Store.Lookup.{load-id}
use tx_ide_rs.Messaging.{Input}
use tx_ide_rs.Engine.Registry.{get_engine}
use tx_ide_rs.Core.World.{Live, TxCore, map_error, ask, attempt, from_store, emit}
use tx_ide_rs.Core.Read.{is_running}
use tx_ide_rs.Core.Archive.{stop_wait}
use tx_ide_rs.Core.Change.{is_none}
use tx_ide_rs.Core.Stop.{
  is_listed, list_live_agents, refresh_exited, refresh_running, refresh_agent, exit_current,
  exit_if_gone, exit_all_gone, refresh_all, apply_interrupt, interrupt_agent, stop_input, send_stop,
  leaves, kill_asked, kill_if_left, finish_stop, stop_live, stop_found, stop_locked, stop_agent,
}
use tx_ide_rs.Core.Evolve.{same}
use tx_ide_rs.Core.Refine.{
  Quiet, From, bind-Quiet, if-From, guard-From, from_option-Quiet, bind-From, bind-From_result,
  bind-From_after, bind-From_then,
}
use tx_ide_rs.Core.Refine.Names.{all_agents-Quiet}
use tx_ide_rs.Core.Refine.Parts.{
  event-Quiet, hold_create_lock-Quiet, hold_agent_lock-Quiet, is_live-Quiet,
  live_or_not_running-Quiet, engine_of-Quiet, deliver-Quiet, wait_for_exit-Quiet,
  wait_or_kill-Quiet, get_agent-From, edit-From, mark_exited-From, archive_conversation-Quiet,
}

pub not-false : (b : Bool) → not b ≡ true → b ≡ false
not-false true h = cc
not-false false h = refl

module _ {T : Type 0} (core : TxCore T) where
  open core use {outside, engines}

  pub list_live_agents-Quiet : Quiet (list_live_agents core)
  unfolding list_live_agents
  list_live_agents-Quiet w = refl

  own : (d : Dir) (id : AgentId) (a : Agent) → load id d ≡ ok (some a) → load a.id d ≡ ok (some a)
  own d id a l = ap (λ i. load i d) (load-id id d a l) ∙ l

  refresh_exited-From :
      {may : Bool} (d : Dir) (id : AgentId) (session : Agent)
      → load id d ≡ ok (some session)
      → From may d (refresh_exited core session)
  unfolding refresh_exited
  refresh_exited-From d id session l =
      bind-From_after d _ _ (mark_exited-From core d session (own d id session l))
        λ left. bind-Quiet (emit (left.1 ∷ [])) _ (λ w. refl) (λ _ w. refl)

  pub refresh_agent-From :
      {may : Bool} (d : Dir) (id : AgentId) → From may d (refresh_agent core id)
  unfolding refresh_agent refresh_running
  refresh_agent-From d id = bind-From d _ _ (hold_agent_lock-Quiet core id) λ _.
      get_agent-From core d id _ λ session l.
        if-From d (is_ended session.state) _ _ (λ _ w e. same e)
          λ _. bind-From d _ _ list_live_agents-Quiet λ table.
            if-From d (is_listed id table) _ _ (λ _ w e. same e)
              (λ _. refresh_exited-From d id session l)

  exit_current-From :
      {may : Bool} (d : Dir) (id : AgentId) (o : Option Agent)
      → load id d ≡ ok o
      → From may d (exit_current core o)
  unfolding exit_current
  exit_current-From d id none l = λ w e. same e
  exit_current-From d id (some current) l =
      if-From d (is_ended current.state) _ _ (λ _ w e. same e)
        λ _.
          bind-From_after d _ _ (mark_exited-From core d current (own d id current l))
            λ left. bind-Quiet (emit (left.1 ∷ [])) _ (λ w. refl) (λ _ w. refl)

  exit_if_gone-From :
      {may : Bool} (table : List (AgentId × Live)) (session : Agent) (d : Dir)
      → From may d (exit_if_gone core table session)
  unfolding exit_if_gone
  exit_if_gone-From table session d =
      if-From d (is_ended session.state || is_listed session.id table) _ _ (λ _ w e. same e)
        λ _. bind-From d _ _ (hold_agent_lock-Quiet core session.id) λ _.
          bind-From_result d (from_store (load session.id)) _ (λ w. refl)
            λ current w e h.
              exit_current-From d session.id current
                (ap (λ x. load session.id x) (sym e) ∙ of_load (load session.id w.dir) current h)
    where
      of_load :
          (r : Res StoreError (Option Agent)) (o : Option Agent)
          → map_error store_error r ≡ ok o
          → r ≡ ok o
      of_load (ok p) o h = cc
      of_load (err x) o h = cc

  exit_all_gone-From :
      {may : Bool} (table : List (AgentId × Live)) (records : List Agent) (d : Dir)
      → From may d (exit_all_gone core table records)
  unfolding exit_all_gone
  exit_all_gone-From table [] d = λ w e. same e
  exit_all_gone-From table (session ∷ rest) d =
      bind-From_then d _ _ (exit_if_gone-From table session d)
        λ changed e. bind-From_after e _ _ (exit_all_gone-From table rest e) (λ later w. refl)

  pub refresh_all-From : {may : Bool} (d : Dir) → From may d (refresh_all core)
  unfolding refresh_all
  refresh_all-From d = bind-From d _ _ (all_agents-Quiet core) λ records.
      bind-From d _ _ list_live_agents-Quiet (λ table. exit_all_gone-From table records d)

  apply_interrupt-From :
      {may : Bool} (d : Dir) (id : AgentId) (session : Agent) (o : Option LlmEngineState)
      → load id d ≡ ok (some session)
      → is_ended session.state ≡ false
      → From may d (apply_interrupt core session o)
  unfolding apply_interrupt
  apply_interrupt-From d id session none l runs = λ w e. same e
  apply_interrupt-From d id session (some to) l runs =
      if-From d (state_eq to session.state) _ _ (λ _ w e. same e)
        λ _.
          bind-From d (ask outside.now) _ (λ w. refl)
            λ at.
              bind-From_after d _ _
                (edit-From core d session
                  (record session { state = to; last_activity_at = some at }) (own d id session l)
                  (record {
                    id = refl;
                    engine = refl;
                    working_directory = refl;
                    roles = refl;
                    created_at = refl;
                    parent_id = refl;
                  })
                  refl (λ h. absurd (ground arith)))
                (λ saved. bind-Quiet _ _ (event-Quiet core _ saved none _) λ e. (λ w. refl))

  pub interrupt_agent-From :
      {may : Bool} (d : Dir) (id : AgentId) → From may d (interrupt_agent core id)
  unfolding interrupt_agent
  interrupt_agent-From d id = bind-From d _ _ (hold_agent_lock-Quiet core id) λ _.
      get_agent-From core d id _ λ session l.
        guard-From d (is_running session) (not_running id) _ λ runs.
          bind-From d _ _ (engine_of-Quiet core session.engine) λ adapter.
            bind-From d _ _ (from_option-Quiet _ (adapter.interrupt session)) λ plan.
              bind-From d _ _ (live_or_not_running-Quiet core id) λ live.
                bind-From d _ _ (deliver-Quiet core live.pane_target plan.0) λ _.
                  apply_interrupt-From d id session plan.1 l
                    (not-false (is_ended session.state) runs)

  pub send_stop-Quiet : (live : Live) (o : Option Input) → Quiet (send_stop core live o)
  unfolding send_stop
  send_stop-Quiet live none =
      bind-Quiet (attempt tmux_error (outside.kill_session live.session_target)) _ (λ w. refl)
        (λ _ w. refl)
  send_stop-Quiet live (some input) = deliver-Quiet core live.pane_target input

  leaves-Quiet : (asked : Bool) (pid : ℕ) → Quiet (leaves core asked pid)
  unfolding leaves
  leaves-Quiet false pid = λ w. refl
  leaves-Quiet true pid = wait_for_exit-Quiet core pid stop_wait

  kill_asked-Quiet : (asked : Bool) (live : Live) → Quiet (kill_asked core asked live)
  unfolding kill_asked
  kill_asked-Quiet false live = λ w. refl
  kill_asked-Quiet true live =
      bind-Quiet (attempt tmux_error (outside.kill_session live.session_target)) _ (λ w. refl)
        (λ _ w. refl)

  kill_if_left-Quiet :
      (left asked : Bool) (pid : ℕ) (live : Live) → Quiet (kill_if_left core left asked pid live)
  unfolding kill_if_left
  kill_if_left-Quiet true asked pid live = λ w. refl
  kill_if_left-Quiet false asked pid live =
      bind-Quiet _ _ (kill_asked-Quiet asked live)
        λ _. bind-Quiet _ _ (wait_or_kill-Quiet core pid) (λ _ w. refl)

  pub finish_stop-Quiet :
      (live : Live) (asked : Bool) (session : Agent) (pid : Option ℕ)
      → Quiet (finish_stop core live asked session pid)
  unfolding finish_stop
  finish_stop-Quiet live asked session none = λ w. refl
  finish_stop-Quiet live asked session (some pid) = bind-Quiet _ _ (leaves-Quiet asked pid) λ left.
      bind-Quiet _ _ (kill_if_left-Quiet left asked pid live)
        λ detail. bind-Quiet _ _ (archive_conversation-Quiet core session) (λ _ w. refl)

  stop_live-From :
      {may : Bool} (d : Dir) (id : AgentId) (session : Agent) (live : Live)
      → load id d ≡ ok (some session)
      → From may d (stop_live core session live)
  unfolding stop_live
  stop_live-From d id session live l =
      let input = stop_input (get_engine session.engine engines) session in
      bind-From d (attempt tmux_error (outside.pane_pid live.pane_target)) _ (λ w. refl)
        λ pid. bind-From d _ _ (send_stop-Quiet live input) λ _.
          bind-From_after d _ _
            (edit-From core d session (record session { state = ended }) (own d id session l)
              (record {
                id = refl;
                engine = refl;
                working_directory = refl;
                roles = refl;
                created_at = refl;
                parent_id = refl;
              })
              refl (λ _. refl))
            λ saved.
              bind-Quiet _ _ (finish_stop-Quiet live (not (is_none input)) saved pid)
                λ detail. bind-Quiet _ _ (event-Quiet core _ saved none detail) (λ e w. refl)

  stop_found-From :
      {may : Bool} (d : Dir) (id : AgentId) (session : Agent) (o : Option Live)
      → load id d ≡ ok (some session)
      → From may d (stop_found core session o)
  unfolding stop_found
  stop_found-From d id session none l = mark_exited-From core d session (own d id session l)
  stop_found-From d id session (some live) l = stop_live-From d id session live l

  pub stop_agent-From : {may : Bool} (d : Dir) (id : AgentId) → From may d (stop_agent core id)
  unfolding stop_agent stop_locked
  stop_agent-From d id = bind-From d _ _ (hold_create_lock-Quiet core) λ _.
      bind-From_after d _ _
        (bind-From d _ _ (hold_agent_lock-Quiet core id) λ _.
          get_agent-From core d id _ λ session l.
            guard-From d (is_running session) (not_running id) _ λ _.
              bind-From d _ _ (is_live-Quiet core id)
                (λ found. stop_found-From d id session found l))
        (λ left. bind-Quiet (emit (left.1 ∷ [])) _ (λ w. refl) (λ _ w. refl))
