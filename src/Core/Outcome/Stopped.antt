-- ===== src/Core/Outcome/Stopped.antt =====
-- What `stop_agent` has done when it succeeds.
use mathlib.Core.Path.{subst}
use tx_ide_rs.Prelude.{◌≡◌, refl, sym, ap, false, not, [], ◌∷◌, Option, none, some}
use tx_ide_rs.Agent.{Agent, AgentId, ended, is_ended}
use tx_ide_rs.Result.{ok}
use tx_ide_rs.Store.{Dir, load}
use tx_ide_rs.Core.World.{TxCore, emit}
use tx_ide_rs.Core.Refine.{bind-Quiet}
use tx_ide_rs.Core.Refine.Parts.{event-Quiet, hold_create_lock-Quiet, hold_agent_lock-Quiet}
use tx_ide_rs.Core.Change.{is_none}
use tx_ide_rs.Result.{tmux_error, not_running}
use tx_ide_rs.Core.World.{Live, attempt}
use tx_ide_rs.Engine.Registry.{get_engine}
use tx_ide_rs.Core.Read.{is_running}
use tx_ide_rs.Core.Stop.{stop_input, stop_live, stop_found, stop_locked, stop_agent}
use tx_ide_rs.Core.Refine.Parts.{is_live-Quiet}
use tx_ide_rs.Core.Refine.Stops.{send_stop-Quiet, finish_stop-Quiet, not-false}
use tx_ide_rs.Core.Outcome.{
  Gives, pure-Returns, bind-Returns, bind-Gives, bind-Gives_after, guard-Gives, get_agent-Gives,
  weaken-Gives,
}
use tx_ide_rs.Core.Outcome.Saved.{IsSaved, save-IsSaved, mark_exited-IsSaved, Holds, saved-Holds}

-- The record was running in `d`; now it is as it was, but ended, and with the time of the save.
abbrev pub Stopped : Dir → AgentId → Agent → Dir → Type 0
Stopped d id b e =
    (a : Agent) × Holds id a d
    × (is_ended a.state ≡ false)
    × Holds id b e
    × (b.state ≡ ended)
    × (b.name ≡ a.name)
    × (b ≡ record a { state = ended; last_modified_at = b.last_modified_at })

pub saved-Stopped :
    (d e : Dir) (id : AgentId) (a b : Agent)
    → load id d ≡ ok (some a)
    → is_ended a.state ≡ false
    → IsSaved d (record a { state = ended }) b e
    → Stopped d id b e
saved-Stopped d e id a b l runs s = (
  a,
  l,
  runs,
  saved-Holds d e id a _ b l refl s,
  ap (λ (x : Agent). x.state) s.stamped,
  ap (λ (x : Agent). x.name) s.stamped,
  subst (λ x. x ≡ record a { state = ended; last_modified_at = x.last_modified_at }) (sym s.stamped)
      refl,
)

module _ {T : Type 0} (core : TxCore T) where
  open core use {outside, engines}

  stop_live-Stopped :
      (d : Dir) (id : AgentId) (session : Agent) (live : Live)
      → load id d ≡ ok (some session)
      → is_ended session.state ≡ false
      → Gives d (stop_live core session live) (λ r e. Stopped d id r.0 e)
  unfolding stop_live
  stop_live-Stopped d id session live l runs =
      let input = stop_input (get_engine session.engine engines) session in
      bind-Gives d (attempt tmux_error (outside.pane_pid live.pane_target)) _ _ (λ w. refl)
        λ pid. bind-Gives d _ _ _ (send_stop-Quiet core live input) λ _.
          bind-Gives_after d _ _ (IsSaved d (record session { state = ended })) _
            (save-IsSaved core d (record session { state = ended }))
            (λ saved.
              bind-Quiet _ _ (finish_stop-Quiet core live (not (is_none input)) saved pid)
                λ detail. bind-Quiet _ _ (event-Quiet core _ saved none detail) (λ e w. refl))
            (λ saved. bind-Returns _ _ _ λ detail.
              bind-Returns _ _ _ λ x.
                pure-Returns T (saved, x) _ (λ e s. saved-Stopped d e id session saved l runs s))

  stop_found-Stopped :
      (d : Dir) (id : AgentId) (session : Agent) (o : Option Live)
      → load id d ≡ ok (some session)
      → is_ended session.state ≡ false
      → Gives d (stop_found core session o) (λ r e. Stopped d id r.0 e)
  unfolding stop_found
  stop_found-Stopped d id session none l runs =
      weaken-Gives d _ _ _ (λ r e s. saved-Stopped d e id session r.0 l runs s)
        (mark_exited-IsSaved core d session)
  stop_found-Stopped d id session (some live) l runs = stop_live-Stopped d id session live l runs

  -- A stop that succeeds found the agent running and leaves its record ended, under its name.
  pub stop_agent-Gives : (d : Dir) (id : AgentId) → Gives d (stop_agent core id) (Stopped d id)
  unfolding stop_agent stop_locked
  stop_agent-Gives d id = bind-Gives d _ _ _ (hold_create_lock-Quiet core) λ _.
      bind-Gives_after d (stop_locked core id) _ (λ r e. Stopped d id r.0 e) _
        (bind-Gives d _ _ _ (hold_agent_lock-Quiet core id) λ _.
          get_agent-Gives core d id _ _ λ session l.
            guard-Gives d (is_running session) (not_running id) _ _ λ running.
              bind-Gives d _ _ _ (is_live-Quiet core id) λ found.
                stop_found-Stopped d id session found l
                  (not-false (is_ended session.state) running))
        (λ r. bind-Quiet (emit (r.1 ∷ [])) _ (λ w. refl) (λ _ w. refl))
        (λ r. bind-Returns _ _ _ λ _. pure-Returns T r.0 _ (λ e h. h))
