-- ===== src/Core/Refine/Parts.antt =====
-- The rules for the operations that the public ones are made of.
use mathlib.Core.Path.{subst}
use tx_ide_rs.Prelude.{
  ℕ, zero, suc, ◌+◌, ◌/◌, ◌≡◌, refl, sym, Bool, true, false, not, [], Option, none, some, Text,
}
use tx_ide_rs.Agent.{Agent, AgentId, EngineKind, ended, is_ended}
use tx_ide_rs.Result.{Res, ok, err, EngineError, StoreError, not_found, store_error}
use tx_ide_rs.Messaging.{Input, text_input, key_input}
use tx_ide_rs.Store.{Dir, load, put}
use tx_ide_rs.Engine.{LlmEngine}
use tx_ide_rs.Engine.Registry.{get_engine}
use tx_ide_rs.Events.{EventType}
use tx_ide_rs.Core.World.{
  TxCore, World, M, WriteOutcome, written, unencodable, not_written, not_synced, bind_result, ◌>>=◌,
  ask, attempt, effect, from_store, from_option, map_error, save, write_agent, finish_write,
  get_agent, event, is_live, live_or_not_running, hold_create_lock, hold_agent_lock, engine_of,
}
use tx_ide_rs.Core.Archive.{
  deliver, submit_text, poll, wait_for_exit, wait_or_kill, archive_conversation, archive_with,
  archive_held, report, mark_exited, exit_poll, stop_wait, kill_wait,
}
use tx_ide_rs.Core.Evolve.{SameAgent, Step, edit, same, more}
use tx_ide_rs.Core.Refine.{
  Quiet, From, bind-Quiet, if-Quiet, from_option-Quiet, bind-From, bind-From_result,
  bind-From_after,
}

module _ {T : Type 0} (core : TxCore T) where
  open core use {outside, config, engines}

  pub event-Quiet :
      (type_ : EventType) (session : Agent) (actor : Option AgentId) (detail : Text)
      → Quiet (event core type_ session actor detail)
  unfolding event ◌>>=◌
  event-Quiet type_ session actor detail w = refl

  pub hold_create_lock-Quiet : Quiet (hold_create_lock core)
  unfolding hold_create_lock
  hold_create_lock-Quiet w = refl

  pub hold_agent_lock-Quiet : (id : AgentId) → Quiet (hold_agent_lock core id)
  unfolding hold_agent_lock
  hold_agent_lock-Quiet id w = refl

  pub get_agent-Quiet : (id : AgentId) → Quiet (get_agent core id)
  unfolding get_agent
  get_agent-Quiet id =
      bind-Quiet (from_store (load id)) _ (λ w. refl) (from_option-Quiet (not_found id))

  pub is_live-Quiet : (id : AgentId) → Quiet (is_live core id)
  unfolding is_live
  is_live-Quiet id = bind-Quiet (attempt _ outside.list_live) _ (λ w. refl) (λ table w. refl)

  pub live_or_not_running-Quiet : (id : AgentId) → Quiet (live_or_not_running core id)
  unfolding live_or_not_running
  live_or_not_running-Quiet id =
      bind-Quiet (is_live core id) _ (is_live-Quiet id) (from_option-Quiet _)

  pub engine_of-Quiet : (kind : EngineKind) → Quiet (engine_of core kind)
  unfolding engine_of
  engine_of-Quiet kind = from_option-Quiet _ (get_engine kind engines)

  submit_text-Quiet : (pane : Text) (submit : Bool) → Quiet (submit_text core pane submit)
  unfolding submit_text ◌>>=◌
  submit_text-Quiet pane false w = refl
  submit_text-Quiet pane true w = refl

  pub deliver-Quiet : (pane : Text) (input : Input) → Quiet (deliver core pane input)
  unfolding deliver
  deliver-Quiet pane (text_input text submit) =
      bind-Quiet (attempt _ (outside.send_keys_literal pane text)) _ (λ w. refl)
        (λ _. submit_text-Quiet pane submit)
  deliver-Quiet pane (key_input key) = λ w. refl

  poll-Quiet : (n pid deadline : ℕ) → Quiet (poll core n pid deadline)
  unfolding poll
  poll-Quiet zero pid deadline = λ w. refl
  poll-Quiet (suc n) pid deadline =
      bind-Quiet (ask (outside.process_exists pid)) _ (λ w. refl)
        λ alive.
          if-Quiet (not alive) _ _ (λ w. refl)
            (bind-Quiet (ask outside.now) _ (λ w. refl)
              λ at.
                if-Quiet _ _ _ (λ w. refl)
                  (bind-Quiet (effect _) _ (λ w. refl) λ _. poll-Quiet n pid deadline))

  pub wait_for_exit-Quiet : (pid timeout : ℕ) → Quiet (wait_for_exit core pid timeout)
  unfolding wait_for_exit
  wait_for_exit-Quiet pid timeout =
      bind-Quiet (ask outside.now)
        (λ start. poll core (timeout / exit_poll + 2) pid (start + timeout)) (λ w. refl)
        (λ start. poll-Quiet _ pid (start + timeout))

  pub wait_or_kill-Quiet : (pid : ℕ) → Quiet (wait_or_kill core pid)
  unfolding wait_or_kill
  wait_or_kill-Quiet pid =
      bind-Quiet (wait_for_exit core pid stop_wait) _ (wait_for_exit-Quiet pid stop_wait) λ gone.
        if-Quiet gone _ _ (λ w. refl)
          (bind-Quiet (effect _) _ (λ w. refl) (λ _. wait_for_exit-Quiet pid kill_wait))

  archive_held-Quiet :
      (adapter : LlmEngine T) (session : Agent) (r : Res EngineError Bool)
      → Quiet (archive_held core adapter session r)
  unfolding archive_held
  archive_held-Quiet adapter session (ok true) w = refl
  archive_held-Quiet adapter session (ok false) w = refl
  archive_held-Quiet adapter session (err e) w = refl

  report-Quiet : (session : Agent) (r : Res EngineError (Unit {0})) → Quiet (report core session r)
  unfolding report
  report-Quiet session (ok _) = λ w. refl
  report-Quiet session (err e) =
      bind-Quiet (event core _ session none _) _ (event-Quiet _ session none _) (λ _ w. refl)

  archive_with-Quiet :
      (o : Option (LlmEngine T)) (session : Agent) → Quiet (archive_with core o session)
  unfolding archive_with
  archive_with-Quiet none session = λ w. refl
  archive_with-Quiet (some adapter) session =
      bind-Quiet (ask _) _ (λ w. refl)
        λ lock.
          bind-Quiet (archive_held core adapter session lock) _
            (archive_held-Quiet adapter session lock) (report-Quiet session)

  pub archive_conversation-Quiet : (session : Agent) → Quiet (archive_conversation core session)
  unfolding archive_conversation
  archive_conversation-Quiet session =
      archive_with-Quiet (get_engine session.engine engines) session

  pub get_agent-ok :
      (id : AgentId) (session : Agent) (w : World T)
      → (get_agent core id w).0 ≡ ok session
      → load id w.dir ≡ ok (some session)
  unfolding get_agent ◌>>=◌
  get_agent-ok id session w h = of_load (load id w.dir) h
    where
      of_load :
          (r : Res StoreError (Option Agent))
          → (bind_result (map_error store_error r, w) (λ o. from_option (not_found id) o)).0
            ≡ ok session
          → r ≡ ok (some session)
      of_load (ok none) e = cc
      of_load (ok (some a)) e = cc
      of_load (err x) e = cc

  -- The record that was asked for stands in the directory.
  pub get_agent-From :
      {may : Bool} {B : Type 0} (d : Dir) (id : AgentId) (f : Agent → M T B)
      → ((session : Agent) → load id d ≡ ok (some session) → From may d (f session))
      → From may d (get_agent core id >>= f)
  get_agent-From d id f k =
      bind-From_result d (get_agent core id) f (get_agent-Quiet id) λ session w e h.
        k session (subst (λ x. load id x ≡ ok (some session)) e (get_agent-ok id session w h))

  finish_write-From :
      {may : Bool} (d : Dir) (a : Agent) (o : WriteOutcome)
      → Step may d (put a d)
      → From may d (finish_write core a o)
  unfolding finish_write
  finish_write-From {may} d a written st w e =
      more (same refl) (subst (λ x. Step may d (put a x)) (sym e) st)
  finish_write-From {may} d a unencodable st w e = same e
  finish_write-From {may} d a (not_written x) st w e = same e
  finish_write-From {may} d a (not_synced x) st w e =
      more (same refl) (subst (λ x. Step may d (put a x)) (sym e) st)

  write_agent-From :
      {may : Bool} (d : Dir) (a : Agent) → Step may d (put a d) → From may d (write_agent core a)
  unfolding write_agent
  write_agent-From d a st w e =
      finish_write-From d a (outside.write_record a w.outer).0 st
        (record w { outer = (outside.write_record a w.outer).1 }) e

  pub save-From :
      {may : Bool} (d : Dir) (a : Agent)
      → ((at : ℕ) → Step may d (put (record a { last_modified_at = at }) d))
      → From may d (save core a)
  unfolding save
  save-From d a st =
      bind-From d (ask outside.now) (λ at. write_agent core (record a { last_modified_at = at }))
        (λ w. refl) (λ at. write_agent-From d _ (st at))

  -- An edit of the record that was read, saved.
  pub edit-From :
      {may : Bool} (d : Dir) (a b : Agent)
      → load a.id d ≡ ok (some a)
      → SameAgent a b
      → b.name ≡ a.name
      → (is_ended a.state ≡ true → is_ended b.state ≡ true)
      → From may d (save core b)
  edit-From d a b l s n keeps =
      save-From d b λ at. edit a (record b { last_modified_at = at }) l (stamped at) n keeps refl
    where
      stamped : (at : ℕ) → SameAgent a (record b { last_modified_at = at })
      stamped at = record {
        id = s.id;
        engine = s.engine;
        working_directory = s.working_directory;
        roles = s.roles;
        created_at = s.created_at;
        parent_id = s.parent_id;
      }

  pub mark_exited-From :
      {may : Bool} (d : Dir) (a : Agent)
      → load a.id d ≡ ok (some a)
      → From may d (mark_exited core a)
  unfolding mark_exited
  mark_exited-From d a l =
      bind-From_after d (save core (record a { state = ended })) _
        (edit-From d a (record a { state = ended }) l
          (record {
            id = refl;
            engine = refl;
            working_directory = refl;
            roles = refl;
            created_at = refl;
            parent_id = refl;
          })
          refl (λ _. refl))
        λ gone.
          bind-Quiet (archive_conversation core gone) _ (archive_conversation-Quiet gone)
            λ _. bind-Quiet (event core _ gone none []) _ (event-Quiet _ gone none []) (λ _ w. refl)
