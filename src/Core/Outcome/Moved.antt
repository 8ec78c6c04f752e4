-- ===== src/Core/Outcome/Moved.antt =====
-- The two changes that a hook makes to a record: its state, and its engine's data.
use mathlib.Core.Path.{subst}
use tx_ide_rs.Prelude.{
  ◌≡◌, refl, sym, ap, true, List, [], ◌∷◌, Option, none, some, arith, Text, Bool-cases, inl, inr,
  text_eq_refl,
}
use tx_ide_rs.Json.{Value, value_eq_iff}
use tx_ide_rs.Agent.{Agent, LlmEngineState, state_eq, ext_get}
use tx_ide_rs.Agent.Names.{ext_get-ext_insert}
use tx_ide_rs.Result.{Res, ok, CoreError}
use tx_ide_rs.Events.{Event}
use tx_ide_rs.Core.World.{TxCore, World, ◌>>=◌, event}
use tx_ide_rs.Core.Change.{same_data, move_state, set_engine_data}

-- The state of the record after the change that the engine asks for.
abbrev pub state_after : Option LlmEngineState → LlmEngineState → LlmEngineState
state_after none old = old
state_after (some new) old = new

-- The engine's data in the record after the change that the engine asks for.
abbrev pub data_after : Option Value → Option Value → Option Value
data_after none old = old
data_after (some new) old = some new

pub state_eq_same : (a b : LlmEngineState) → state_eq a b ≡ true → a ≡ b
state_eq_same a b h = ground arith

same_data_same : (o : Option Value) (v : Value) → same_data o v ≡ true → o ≡ some v
unfolding same_data
same_data_same none v h = cc
same_data_same (some w) v h = ap some ((value_eq_iff w v).0 h)

-- How a step of the hook carries the record on: the id and the name stay, and without an event it
-- is the record that it was.
abbrev pub Carries : Agent → Agent × List Event → Type 0
Carries a r = (r.0.id ≡ a.id) × (r.0.name ≡ a.name) × (r.1 ≡ [] → r.0 ≡ a)

abbrev pub Moves : Agent → Option LlmEngineState → Agent × List Event → Type 0
Moves a o r = Carries a r × (r.0.state ≡ state_after o a.state) × (r.0.ext ≡ a.ext)

abbrev pub Writes : Text → Agent → Option Value → Agent × List Event → Type 0
Writes key a o r =
    Carries a r × (r.0.state ≡ a.state) × (ext_get key r.0.ext ≡ data_after o (ext_get key a.ext))

carried :
    (P : Agent × List Event → Type 0) (b : Agent) (es : List Event) (r : Agent × List Event)
    → ◌≡◌ {A = Res CoreError (Agent × List Event)} (ok (b, es)) (ok r)
    → P (b, es)
    → P r
carried P b es r h c =
    let together : ◌≡◌ {A = Agent × List Event} (b, es) r = cc in subst P together c

pub no_cons : {A : Type 0} (x : A) (xs : List A) → x ∷ xs ≡ [] → ⊥
no_cons x xs h = cc

module _ {T : Type 0} (core : TxCore T) where
  open core use {outside, engines}

  pub move_state-Moves :
      (session : Agent) (o : Option LlmEngineState) (w : World T) (r : Agent × List Event)
      → (move_state core session o w).0 ≡ ok r
      → Moves session o r
  unfolding move_state event ◌>>=◌
  move_state-Moves session none w r h =
      carried (Moves session none) session [] r h ((refl, refl, λ _. refl), refl, refl)
  move_state-Moves session (some to) w r h = elim (Bool-cases (state_eq to session.state)) [
    | inl alike ↦
        carried (Moves session (some to)) session [] r (rw alike at h)
          ((refl, refl, λ _. refl), sym (state_eq_same to session.state alike), refl)
    | inr other ↦
        carried (Moves session (some to)) _ _ r (rw other at h)
          ((refl, refl, λ e. absurd (no_cons _ _ e)), refl, refl)
  ]

  pub set_engine_data-Writes :
      (key : Text) (session : Agent) (o : Option Value) (w : World T) (r : Agent × List Event)
      → (set_engine_data core key session o w).0 ≡ ok r
      → Writes key session o r
  unfolding set_engine_data event ◌>>=◌
  set_engine_data-Writes key session none w r h =
      carried (Writes key session none) session [] r h ((refl, refl, λ _. refl), refl, refl)
  set_engine_data-Writes key session (some v) w r h =
      elim (Bool-cases (same_data (ext_get key session.ext) v)) [
        | inl alike ↦
            carried (Writes key session (some v)) session [] r (rw alike at h)
              ((refl, refl, λ _. refl), refl, same_data_same _ v alike)
        | inr other ↦ carried (Writes key session (some v)) _ _ r (rw other at h) (
          (refl, refl, λ e. absurd (no_cons _ _ e)),
          refl,
          rw (ext_get-ext_insert key key v session.ext, text_eq_refl key),
        )
      ]
