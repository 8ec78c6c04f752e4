-- ===== src/Messaging.antt =====
-- The framing of messages (tx-core/src/messaging.rs), and the inputs that an engine answers with
-- (`Input` and `Key` of tx-core/src/engine.rs).
pub mod Envelope
use tx_ide_rs.Prelude.{Bool, true, Text, Option, none, some, ◌++◌, codes}

pub data EnvelopeSender : Type 0 where
  user : Option Text → EnvelopeSender
  agent : Text → EnvelopeSender

unfoldable pub build_envelope : EnvelopeSender → Text → Text
build_envelope (user none) text = codes "<from-user>" ++ (text ++ codes "</from-user>")
build_envelope (user (some via)) text =
    codes "<from-user session=\"" ++ (via ++ (codes "\">" ++ (text ++ codes "</from-user>")))
build_envelope (agent name) text =
    codes "<from-agent session=\"" ++ (name ++ (codes "\">" ++ (text ++ codes "</from-agent>")))

pub data Key : Type 0 where
  escape enter control_c control_d : Key

-- `Key::tmux_name`
abbrev pub tmux_name : Key → Text
tmux_name escape = codes "Escape"
tmux_name enter = codes "Enter"
tmux_name control_c = codes "C-c"
tmux_name control_d = codes "C-d"

pub data Input : Type 0 where
  text_input : Text → Bool → Input
  key_input : Key → Input

-- `Input::line`
abbrev pub line : Text → Input
line text = text_input text true
