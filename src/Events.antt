-- ===== src/Events.antt =====
-- Events and the line that the operation log gets for each (tx-core/src/events.rs). A character
-- is its code point; the JSON encoder is serde_json's, a parameter of the trimming.
pub mod Escapes
pub mod Trim
use tx_ide_rs.Prelude.{
  ℕ, zero, suc, ◌+◌, ◌-◌, Bool, true, false, ◌||◌, List, [], ◌∷◌, Option, none, some, Text, leb,
  ltb, ◌==◌, if◌then◌else◌, length, codes, take,
}
use tx_ide_rs.Agent.{AgentId}

pub data EventType : Type 0 where
  created forked respawned renamed tagged message_sent state_changed engine_data_changed : EventType
  exited stopped archive_failed : EventType

-- `EventType::as_str`
abbrev pub event_name : EventType → Text
event_name created = codes "created"
event_name forked = codes "forked"
event_name respawned = codes "respawned"
event_name renamed = codes "renamed"
event_name tagged = codes "tagged"
event_name message_sent = codes "message-sent"
event_name state_changed = codes "state-changed"
event_name engine_data_changed = codes "engine-data-changed"
event_name exited = codes "exited"
event_name stopped = codes "stopped"
event_name archive_failed = codes "archive-failed"

pub record Event : Type 0 where
  pub ts : ℕ
  pub type_ : EventType
  pub id : AgentId
  pub name : Text
  pub actor : Option AgentId
  pub detail : Text

abbrev pub pipe_buf : ℕ
pipe_buf = 512

-- `char::len_utf8`
unfoldable pub len_utf8 : ℕ → ℕ
len_utf8 c = if ltb c 0x80 then 1 else if ltb c 0x800 then 2 else if ltb c 0x10000 then 3 else 4

-- `escaped_len`: the bytes of a character inside a serde_json string.
unfoldable pub escaped_len : ℕ → ℕ
unfolding len_utf8
escaped_len c =
    if c == 0x22
      || (c == 0x5c || (c == 0x0a || (c == 0x0d || (c == 0x09 || (c == 0x08 || c == 0x0c)))))
    then 2
    else if leb c 0x1f
    then 6
    else len_utf8 c

-- The loop of `encode`: the characters that fit the budget, up to the first that does not.
trim : ℕ → List ℕ → List ℕ
trim budget [] = []
trim budget (c ∷ cs) =
    let kept = c ∷ trim (budget - escaped_len c) cs in
    if ltb budget (escaped_len c) then [] else kept

-- `encode`, over the encoder `line` of a message behind the other fields.
unfoldable pub encode : (List ℕ → Text) → List ℕ → Text
unfolding trim
encode line msg =
    if leb (length (line msg)) pipe_buf
    then line msg
    else line (trim (pipe_buf - length (line [])) msg)
