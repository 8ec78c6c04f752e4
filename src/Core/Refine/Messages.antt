-- ===== src/Core/Refine/Messages.antt =====
-- `send_message` and `get_execution_location` write no record.
use tx_ide_rs.Prelude.{refl, Text}
use tx_ide_rs.Agent.{AgentId}
use tx_ide_rs.Result.{not_running}
use tx_ide_rs.Engine.Registry.{get_engine}
use tx_ide_rs.Core.World.{TxCore, ask, emit}
use tx_ide_rs.Core.Read.{is_running}
use tx_ide_rs.Core.Message.{
  Sender, from_user, from_agent, sender_id, get_execution_location, message_input, envelope_sender,
  send_message,
}
use tx_ide_rs.Core.Refine.{Quiet, bind-Quiet, guard-Quiet}
use tx_ide_rs.Core.Refine.Parts.{
  event-Quiet, hold_agent_lock-Quiet, get_agent-Quiet, live_or_not_running-Quiet, deliver-Quiet,
}

module _ {T : Type 0} (core : TxCore T) where
  open core use {outside, engines}

  pub get_execution_location-Quiet : (id : AgentId) → Quiet (get_execution_location core id)
  unfolding get_execution_location
  get_execution_location-Quiet id = bind-Quiet _ _ (get_agent-Quiet core id) λ session.
      bind-Quiet _ _ (guard-Quiet (is_running session) (not_running id))
        λ _. bind-Quiet _ _ (live_or_not_running-Quiet core id) (λ live w. refl)

  envelope_sender-Quiet : (sender : Sender) → Quiet (envelope_sender core sender)
  unfolding envelope_sender
  envelope_sender-Quiet (from_user via) = λ w. refl
  envelope_sender-Quiet (from_agent id) =
      bind-Quiet _ _ (get_agent-Quiet core id) (λ session w. refl)

  pub send_message-Quiet :
      (to : AgentId) (text : Text) (sender : Sender) → Quiet (send_message core to text sender)
  unfolding send_message
  send_message-Quiet to text sender = bind-Quiet _ _ (envelope_sender-Quiet sender) λ framed.
      bind-Quiet _ _ (hold_agent_lock-Quiet core to) λ _.
        bind-Quiet _ _ (get_agent-Quiet core to) λ recipient.
          bind-Quiet _ _ (guard-Quiet (is_running recipient) (not_running to)) λ _.
            bind-Quiet _ _ (live_or_not_running-Quiet core to) λ live.
              bind-Quiet _ _
                (deliver-Quiet core live.pane_target
                  (message_input (get_engine recipient.engine engines) framed text))
                λ _.
                  bind-Quiet (ask outside.now) _ (λ w. refl)
                    λ at.
                      bind-Quiet _ _ (event-Quiet core _ recipient (sender_id sender) _)
                        λ sent. bind-Quiet (emit _) _ (λ w. refl) (λ _ w. refl)
