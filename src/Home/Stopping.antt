-- ===== src/Home/Stopping.antt =====
-- An agent is stopped by two keys, never by one.
use tx_ide_rs.Prelude.{
  ◌≡◌, refl, sym, ap, ◌∙◌, Bool, true, false, Option, none, some, Text, ==_iff, if◌then◌else◌,
  Bool-cases, inl, inr,
}
use tx_ide_rs.Agent.{is_ended}
use tx_ide_rs.Home.{
  AgentRow, stop, View, main_view, plugins_view, keys_view, Outcome, stay, run, Confirm, stop_agent,
  Home,
}
use tx_ide_rs.Home.Keys.{
  KeyCode, char, up, down, left, right, enter, tab, esc, backspace, home, end, other, cursor_agent,
  ask_to_stop, is_yes, by_confirm, by_view, key,
}
use tx_ide_rs.Home.Calm.{StopsNone, Quiet, stay-StopsNone, by_input-Quiet, by_view-Quiet}

module _ (lowercase : Text → Text) where
  -- The agent under the cursor is this one, and it has not ended.
  abbrev pub RunningAt : Home → Text → Type 0
  RunningAt h id =
      (a : AgentRow) × (cursor_agent lowercase h ≡ some a)
      × (a.id ≡ id)
      × (is_ended a.state ≡ false)

  stop_agent-injective : (x y : Text) → Option.some (stop_agent x) ≡ some (stop_agent y) → x ≡ y
  stop_agent-injective x y e = cc

  ask_to_stop-asked :
      (o : Option AgentRow) (h : Home) (id : Text)
      → h.confirm ≡ none
      → (ask_to_stop lowercase o h).confirm ≡ some (stop_agent id)
      → (a : AgentRow) × (o ≡ some a) × (a.id ≡ id) × (is_ended a.state ≡ false)
  ask_to_stop-asked none h id e asked = absurd (cc)
  ask_to_stop-asked (some a) h id e asked = elim (Bool-cases (is_ended a.state)) [
    | inl gone ↦ absurd (let o : h.confirm ≡ some (stop_agent id) = ask_gone gone asked in cc)
    | inr runs ↦ (a, refl, stop_agent-injective a.id id (ask_runs runs asked), runs)
  ]
    where
      ask_gone :
          is_ended a.state ≡ true
          → (ask_to_stop lowercase (some a) h).confirm ≡ some (stop_agent id)
          → h.confirm ≡ some (stop_agent id)
      ask_gone gone = rw gone (λ e. e)

      ask_runs :
          is_ended a.state ≡ false
          → (ask_to_stop lowercase (some a) h).confirm ≡ some (stop_agent id)
          → Option.some (stop_agent a.id) ≡ some (stop_agent id)
      ask_runs runs = rw runs (λ e. e)

  -- A key that opens the question is `x` on a running agent.
  Quiet-asked :
      (code : KeyCode) (h : Home) (id : Text) (o : Outcome × Home)
      → Quiet lowercase code h o
      → h.confirm ≡ none
      → o.1.confirm ≡ some (stop_agent id)
      → (code ≡ char b'x') × RunningAt h id
  Quiet-asked code h id o (inl same) e asked = absurd (let kept = same.confirm in cc)
  Quiet-asked code h id o (inr (is_x, opens)) e asked = (
    is_x,
    ask_to_stop-asked (cursor_agent lowercase h) h id e
        (ap (λ (p : Outcome × Home). p.1.confirm) (sym opens) ∙ asked),
  )

  if-stops :
      (t : Bool) (x id : Text)
      → (if t then run (stop x) else stay) ≡ run (stop id)
      → (t ≡ true) × (x ≡ id)
  if-stops true x id e = (refl, cc)
  if-stops false x id e = absurd (stay-StopsNone id e)

  is_yes-y : (code : KeyCode) → is_yes lowercase code ≡ true → code ≡ char b'y'
  is_yes-y (char c) said = ap char ((==_iff c b'y').0 said)
  is_yes-y up said = cc
  is_yes-y down said = cc
  is_yes-y left said = cc
  is_yes-y right said = cc
  is_yes-y enter said = cc
  is_yes-y tab said = cc
  is_yes-y esc said = cc
  is_yes-y backspace said = cc
  is_yes-y home said = cc
  is_yes-y end said = cc
  is_yes-y other said = cc

  -- An outcome that stops an agent was asked for, and confirmed by this key.
  Confirmed : KeyCode → Home → Outcome → Type 0
  Confirmed code h o =
      (id : Text) → o ≡ run (stop id) → (h.confirm ≡ some (stop_agent id)) × (code ≡ char b'y')

  StopsNone-Confirmed : (code : KeyCode) (h : Home) (o : Outcome) → StopsNone o → Confirmed code h o
  unfolding Confirmed
  StopsNone-Confirmed code h o none_ id e = absurd (none_ id e)

  Quiet-StopsNone :
      (code : KeyCode) (h : Home) (o : Outcome × Home) → Quiet lowercase code h o → StopsNone o.0
  Quiet-StopsNone code h o (inl same) id e = same.stops_none id e
  Quiet-StopsNone code h o (inr (is_x, opens)) id e =
      let kept : stay ≡ o.0 = ap (λ (p : Outcome × Home). p.0) (sym opens) in
      stay-StopsNone id (kept ∙ e)

  by_confirm-Confirmed :
      (c : Option Confirm) (code : KeyCode) (h : Home)
      → h.confirm ≡ c
      → Confirmed code h (by_confirm lowercase c code h).0
  unfolding Confirmed
  by_confirm-Confirmed none code h e id stops =
      StopsNone-Confirmed code h _
        (Quiet-StopsNone code h _ (by_input-Quiet lowercase h.input code h)) id stops
  by_confirm-Confirmed (some (stop_agent x)) code h e id stops =
      let both = if-stops (is_yes lowercase code) x id stops in
      (e ∙ ap (λ (y : Text). some (stop_agent y)) both.1, is_yes-y code both.0)

  by_view-Confirmed :
      (v : View) (code : KeyCode) (h : Home) → Confirmed code h (by_view lowercase v code h).0
  by_view-Confirmed main_view code h = by_confirm-Confirmed h.confirm code h refl
  by_view-Confirmed (plugins_view row) code h = StopsNone-Confirmed code h stay stay-StopsNone
  by_view-Confirmed (keys_view row) code h = StopsNone-Confirmed code h stay stay-StopsNone

  -- From a home with no question open, two keys stop an agent only when the first is `x`, the
  -- second is `y`, and the agent was under the cursor and running at the first.
  pub key-key_stops :
      (first second : KeyCode) (h : Home) (id : Text)
      → h.confirm ≡ none
      → (key lowercase second (key lowercase first h).1).0 ≡ run (stop id)
      → (first ≡ char b'x') × (second ≡ char b'y') × RunningAt h id
  unfolding key Confirmed
  key-key_stops first second h id e stops =
      let after = (key lowercase first h).1 in
      let confirmed = by_view-Confirmed after.view second after id stops in
      let asked =
        Quiet-asked first h id (key lowercase first h) (by_view-Quiet lowercase h.view first h e) e
          confirmed.0 in
      (asked.0, confirmed.1, asked.1)

  -- From a home with no question open, no single key stops an agent.
  key-stops_none :
      (code : KeyCode) (h : Home) (id : Text)
      → h.confirm ≡ none
      → (key lowercase code h).0 ≡ run (stop id)
      → ⊥
  unfolding key
  key-stops_none code h id e stops =
      Quiet-StopsNone code h (key lowercase code h) (by_view-Quiet lowercase h.view code h e) id
        stops
