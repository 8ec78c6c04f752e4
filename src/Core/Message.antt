-- ===== src/Core/Message.antt =====
-- Delivery of a message to a running agent, and where an agent executes.
use tx_ide_rs.Prelude.{ℕ, [], ◌∷◌, ◌++◌, Option, none, some, Text, codes}
use tx_ide_rs.Agent.{AgentId}
use tx_ide_rs.Result.{not_running}
use tx_ide_rs.Messaging.{EnvelopeSender, user, agent, build_envelope, Input, line}
use tx_ide_rs.Engine.{LlmEngine}
use tx_ide_rs.Engine.Registry.{get_engine}
use tx_ide_rs.Events.{message_sent}
use tx_ide_rs.Core.World.{
  TxCore, M, pure, ◌>>=◌, ◌>>◌, guard, ask, emit, get_agent, event, live_or_not_running,
  hold_agent_lock,
}
use tx_ide_rs.Core.Read.{is_running}
use tx_ide_rs.Core.Archive.{deliver}

pub data Sender : Type 0 where
  from_user : Option Text → Sender
  from_agent : AgentId → Sender

pub record DeliveryReceipt : Type 0 where
  pub recipient : AgentId
  pub pane : Text
  pub submitted_at : ℕ

pub record ExecutionLocation : Type 0 where
  pub socket : Text
  pub session_target : Text
  pub pane_target : Text

abbrev pub sender_detail : EnvelopeSender → Text
sender_detail (user none) = codes "from user"
sender_detail (user (some via)) = codes "from user via " ++ via
sender_detail (agent name) = codes "from " ++ name

abbrev pub sender_id : Sender → Option AgentId
sender_id (from_user via) = none
sender_id (from_agent id) = some id

module _ {T : Type 0} where
  -- An agent whose engine is not registered gets the default envelope, submitted.
  unfoldable pub message_input : Option (LlmEngine T) → EnvelopeSender → Text → Input
  message_input none sender text = line (build_envelope sender text)
  message_input (some adapter) sender text = adapter.receive_message sender text

module _ {T : Type 0} (core : TxCore T) where
  open core use {outside, config, engines}

  unfoldable pub get_execution_location : AgentId → M T ExecutionLocation
  get_execution_location id = do
    session ← get_agent core id
    guard (is_running session) (not_running id)
    live ← live_or_not_running core id
    pure (record {
      socket = config.socket;
      session_target = live.session_target;
      pane_target = live.pane_target;
    })

  unfoldable pub envelope_sender : Sender → M T EnvelopeSender
  envelope_sender (from_user via) = pure (user via)
  envelope_sender (from_agent id) = do session ← get_agent core id; pure (agent session.name)

  unfoldable pub send_message : AgentId → Text → Sender → M T DeliveryReceipt
  unfolding message_input envelope_sender
  send_message to text sender = do
    framed ← envelope_sender sender
    hold_agent_lock core to
    recipient ← get_agent core to
    guard (is_running recipient) (not_running to)
    live ← live_or_not_running core to
    deliver core live.pane_target (message_input (get_engine recipient.engine engines) framed text)
    submitted_at ← ask outside.now
    sent ← event core message_sent recipient (sender_id sender) (sender_detail framed)
    emit (sent ∷ [])
    pure (record { recipient = to; pane = live.pane_target; submitted_at = submitted_at })
