-- ===== src/Messaging/Envelope.antt =====
-- What a reader of an envelope can recover.
use mathlib.Core.List.{append_cancel_right, append_cancel_left}
use tx_ide_rs.Prelude.{◌≡◌, refl, arith, Text, Option, none, some, [], ◌∷◌, ◌++◌, codes, ◌≢◌, All}
use tx_ide_rs.Agent.Names.{SafeByte}
use tx_ide_rs.Messaging.{user, agent, build_envelope}

-- A text that ends at the first quote is determined by what follows.
quoted-injective :
    (n n' t t' : Text)
    → All SafeByte n
    → All SafeByte n'
    → n ++ (b'"' ∷ t) ≡ n' ++ (b'"' ∷ t')
    → (n ≡ n') × (t ≡ t')
quoted-injective [] [] t t' h h' e = (refl, cc)
quoted-injective [] (c ∷ n') t t' h h' e = absurd (ground arith)
quoted-injective (c ∷ n) [] t t' h h' e = absurd (ground arith)
quoted-injective (c ∷ n) (c' ∷ n') t t' h h' e =
    let (p, q) = quoted-injective n n' t t' h.1 h'.1 (cc) in (cc, q)

-- Two envelopes of agents that are the same text carry the same name and the same message, whatever
-- the message holds, when the names consist of the bytes that a name may hold.
pub agent_envelope-injective :
    (n n' t t' : Text)
    → All SafeByte n
    → All SafeByte n'
    → build_envelope (agent n) t ≡ build_envelope (agent n') t'
    → (n ≡ n') × (t ≡ t')
unfolding build_envelope
agent_envelope-injective n n' t t' h h' e =
    let (p, q) =
      quoted-injective n n' _ _ h h' (append_cancel_left (codes "<from-agent session=\"") _ _ e) in
    (p, append_cancel_right t t' (codes "</from-agent>") (cc))

-- Two envelopes of the operator from the same place, or from none, that are the same text carry the
-- same message.
user_envelope-injective :
    (via : Option Text) (t t' : Text)
    → build_envelope (user via) t ≡ build_envelope (user via) t'
    → t ≡ t'
unfolding build_envelope
user_envelope-injective none t t' e =
    append_cancel_right t t' (codes "</from-user>") (append_cancel_left (codes "<from-user>") _ _ e)
user_envelope-injective (some via) t t' e = append_cancel_right t t' (codes "</from-user>") (
    append_cancel_left (codes "\">") _ _
      (append_cancel_left via _ _ (append_cancel_left (codes "<from-user session=\"") _ _ e)))

-- No place, name or message makes an envelope of the operator the same text as an envelope of an
-- agent.
user_envelope-ne-agent_envelope :
    (via : Option Text) (name t t' : Text)
    → build_envelope (user via) t ≢ build_envelope (agent name) t'
unfolding build_envelope
user_envelope-ne-agent_envelope none name t t' = ground arith
user_envelope-ne-agent_envelope (some via) name t t' = ground arith
