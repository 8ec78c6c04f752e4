-- ===== src/Core/Archive.antt =====
-- Typing into a pane (`deliver` of tx-core/src/messaging.rs), waiting for a process, and bringing
-- an archive up to date: the parts that the mutations share. Times are in milliseconds.
pub mod Waiting
use tx_ide_rs.Prelude.{
  ℕ, zero, suc, ◌+◌, ◌/◌, Bool, true, false, not, [], ◌∷◌, ◌++◌, Option, none, some, Text, codes,
  leb, if◌then◌else◌,
}
use tx_ide_rs.Agent.{Agent, ended}
use tx_ide_rs.Result.{Res, ok, err, EngineError, refused, workspace, engine_io, tmux_error}
use tx_ide_rs.Messaging.{Input, text_input, key_input, tmux_name}
use tx_ide_rs.Engine.{LlmEngine}
use tx_ide_rs.Engine.Registry.{get_engine}
use tx_ide_rs.Events.{Event, archive_failed, exited}
use tx_ide_rs.Core.World.{TxCore, M, pure, ◌>>=◌, ◌>>◌, ask, attempt, effect, emit, save, event}

abbrev pub delivery_pause : ℕ
delivery_pause = 300

abbrev pub stop_wait : ℕ
stop_wait = 10000

abbrev pub kill_wait : ℕ
kill_wait = 2000

abbrev pub exit_poll : ℕ
exit_poll = 50

-- The `Display` of an engine's error.
unfoldable pub engine_error_text : EngineError → Text
engine_error_text (refused message) = message
engine_error_text (workspace path reason) =
    codes "workspace action on " ++ (path ++ (codes ": " ++ reason))
engine_error_text (engine_io message) = message

module _ {T : Type 0} (core : TxCore T) where
  open core use {outside, config, engines}

  unfoldable pub submit_text : Text → Bool → M T (Unit {0})
  submit_text pane false = pure tt
  submit_text pane true = do
    effect (outside.sleep delivery_pause)
    attempt tmux_error (outside.send_key pane (codes "Enter"))

  unfoldable pub deliver : Text → Input → M T (Unit {0})
  unfolding submit_text
  deliver pane (text_input text submit) = do
    attempt tmux_error (outside.send_keys_literal pane text)
    submit_text pane submit
  deliver pane (key_input key) = attempt tmux_error (outside.send_key pane (tmux_name key))

  -- A round of the loop waits for at least `exit_poll`, so the deadline falls within the fuel.
  unfoldable pub poll : ℕ → ℕ → ℕ → M T Bool
  poll zero pid deadline = pure false
  poll (suc n) pid deadline =
      let rest = poll n pid deadline in
      do
        alive ← ask (outside.process_exists pid)
        if not alive then pure true else (do
          at ← ask outside.now
          if leb deadline at then pure false else (effect (outside.sleep exit_poll) >> rest))

  -- Whether the process is gone within the timeout.
  unfoldable pub wait_for_exit : ℕ → ℕ → M T Bool
  unfolding poll
  wait_for_exit pid timeout = do
    start ← ask outside.now
    poll (timeout / exit_poll + 2) pid (start + timeout)

  unfoldable pub wait_or_kill : ℕ → M T Bool
  unfolding wait_for_exit
  wait_or_kill pid = do
    gone ← wait_for_exit pid stop_wait
    if gone then pure true else (effect (outside.kill_process pid) >> wait_for_exit pid kill_wait)

  unfoldable pub archive_held :
      LlmEngine T → Agent → Res EngineError Bool → M T (Res EngineError (Unit {0}))
  archive_held adapter session (ok true) =
      ask (adapter.archive session (config.archive_directory session.id))
  archive_held adapter session (ok false) = pure (ok tt)
  archive_held adapter session (err e) = pure (err e)

  unfoldable pub report : Agent → Res EngineError (Unit {0}) → M T (Unit {0})
  report session (ok _) = pure tt
  report session (err e) = do
    failed_event ← event core archive_failed session none (engine_error_text e)
    emit (failed_event ∷ [])

  unfoldable pub archive_with : Option (LlmEngine T) → Agent → M T (Unit {0})
  unfolding archive_held report
  archive_with none session = pure tt
  archive_with (some adapter) session = do
    lock ← ask (outside.archive_lock (config.archive_directory session.id))
    result ← archive_held adapter session lock
    report session result

  unfoldable pub archive_conversation : Agent → M T (Unit {0})
  unfolding archive_with
  archive_conversation session = archive_with (get_engine session.engine engines) session

  -- Saves the record as ended; the caller emits the event.
  unfoldable pub mark_exited : Agent → M T (Agent × Event)
  mark_exited session = do
    gone ← save core (record session { state = ended })
    archive_conversation gone
    e ← event core exited gone none []
    pure (gone, e)
