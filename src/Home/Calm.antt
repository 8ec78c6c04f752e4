-- ===== src/Home/Calm.antt =====
-- The keys that neither stop an agent nor open a question.
use tx_ide_rs.Prelude.{
  ℕ, ◌≡◌, refl, ap, Bool, true, false, ◌&&◌, ◌||◌, List, [], ◌∷◌, ◌++◌, Option, none, some, Text,
  ◌==◌, ==_iff, if◌then◌else◌, length, Bool-cases, inl, inr, ◌⊎◌,
}
use tx_ide_rs.Agent.{is_ended}
use tx_ide_rs.Home.{
  AgentRow, AssistantState, absent, creating, starting_up, ready, stopped, failed, Row, project_row,
  agent_row, detail_row, views_row, ended_fold, first_run, loading, stop, View, main_view,
  plugins_view, keys_view, Outcome, stay, close, run, Confirm, Input, find_input, ask_input, Home,
}
use tx_ide_rs.Home.Keys.{
  KeyCode, char, up, down, left, right, enter, tab, esc, backspace, home, end, other, is_back,
  back_on, rows, cursor_row, cursor_agent, reshape, or_stay, step_in, step, unfold_agent, enter_row,
  has_failed, is_none_or_assistant, resume_stopped, resume_agent, resume_row, main_char, main_key,
  find_key, ask_key, trim, ask_to_stop, show_artifacts, by_input, by_confirm, by_view,
  selectable_from, set_unfolded, toggle_ended, clear_filter, push_filter, pop_filter, asking,
  finding,
}

-- The outcome stops no agent.
abbrev pub StopsNone : Outcome → Type 0
StopsNone o = (id : Text) → o ≡ run (stop id) → ⊥

-- The key stops no agent, and leaves the question that is open.
pub record Calm (c : Option Confirm) (o : Outcome × Home) : Type 0 where
  pub stops_none : StopsNone o.0
  pub confirm : o.1.confirm ≡ c

calm : (o : Outcome) (h : Home) → StopsNone o → Calm h.confirm (o, h)
calm o h n = record { stops_none = n; confirm = refl }

pub stay-StopsNone : StopsNone stay
stay-StopsNone id e = cc

still : (h : Home) → Calm h.confirm (stay, h)
still h = calm stay h stay-StopsNone

if-StopsNone :
    (t : Bool) (x y : Outcome) → StopsNone x → StopsNone y → StopsNone (if t then x else y)
if-StopsNone true x y h h' = h
if-StopsNone false x y h h' = h'

module _ (lowercase : Text → Text) where
  reshape-confirm :
      (change : Home → Home) (h : Home)
      → (change h).confirm ≡ h.confirm
      → Calm h.confirm (stay, reshape lowercase change h)
  unfolding reshape
  reshape-confirm change h e = record { stops_none = stay-StopsNone; confirm = e }

  or_stay-confirm : (o : Option ℕ) (h : Home) → (or_stay lowercase o h).confirm ≡ h.confirm
  or_stay-confirm none h = refl
  or_stay-confirm (some i) h = refl

  step_in-confirm :
      (forward : Bool) (is_ : List ℕ) (h : Home)
      → (step_in lowercase forward is_ h).confirm ≡ h.confirm
  step_in-confirm forward [] h = refl
  step_in-confirm forward (i ∷ is_) h = or_stay-confirm _ h

  step-Calm : (forward : Bool) (h : Home) → Calm h.confirm (stay, step lowercase forward h)
  unfolding step
  step-Calm forward h = record {
    stops_none = stay-StopsNone;
    confirm = step_in-confirm forward (selectable_from 0 (rows lowercase h)) h;
  }

  unfold-Calm :
      (open_ : Bool) (o : Option AgentRow) (h : Home)
      → Calm h.confirm (stay, unfold_agent lowercase open_ o h)
  unfold-Calm open_ none h = still h
  unfold-Calm open_ (some a) h = reshape-confirm (set_unfolded lowercase open_ a.id) h refl

  enter_row-StopsNone : (o : Option Row) → StopsNone (enter_row lowercase o)
  enter_row-StopsNone (some (agent_row a)) = elim (Bool-cases (is_ended a.state)) [
    | inl gone ↦ rw gone (λ id e. cc)
    | inr runs ↦ rw runs (λ id e. cc)
  ]
  enter_row-StopsNone (some (views_row v vs)) = λ id e. cc
  enter_row-StopsNone (some (project_row p)) = stay-StopsNone
  enter_row-StopsNone (some (detail_row a d)) = stay-StopsNone
  enter_row-StopsNone (some (ended_fold p n)) = stay-StopsNone
  enter_row-StopsNone (some first_run) = stay-StopsNone
  enter_row-StopsNone (some loading) = stay-StopsNone
  enter_row-StopsNone none = stay-StopsNone

  resume_stopped-StopsNone :
      (s : AssistantState) (a : AgentRow) → StopsNone (resume_stopped lowercase s a)
  resume_stopped-StopsNone (stopped id) a =
      if-StopsNone a.is_assistant _ _ (λ id e. cc) stay-StopsNone
  resume_stopped-StopsNone absent a = stay-StopsNone
  resume_stopped-StopsNone creating a = stay-StopsNone
  resume_stopped-StopsNone starting_up a = stay-StopsNone
  resume_stopped-StopsNone ready a = stay-StopsNone
  resume_stopped-StopsNone (failed why) a = stay-StopsNone

  resume_agent-StopsNone :
      (s : AssistantState) (o : Option AgentRow) → StopsNone (resume_agent lowercase s o)
  resume_agent-StopsNone s none = stay-StopsNone
  resume_agent-StopsNone s (some a) =
      if-StopsNone (is_ended a.state) _ _ (λ id e. cc) (resume_stopped-StopsNone s a)

  resume_row-StopsNone :
      (s : AssistantState) (o : Option AgentRow) → StopsNone (resume_row lowercase s o)
  unfolding resume_row
  resume_row-StopsNone s o =
      if-StopsNone (has_failed lowercase s && is_none_or_assistant lowercase o) _ _ (λ id e. cc)
        (resume_agent-StopsNone s o)

  show_artifacts-StopsNone : (o : Option AgentRow) → StopsNone (show_artifacts lowercase o)
  show_artifacts-StopsNone none = stay-StopsNone
  show_artifacts-StopsNone (some a) = λ id e. cc

  if-Calm :
      (t : Bool) (c : Option Confirm) (x y : Outcome × Home)
      → Calm c x
      → (t ≡ false → Calm c y)
      → Calm c (if t then x else y)
  if-Calm true c x y h h' = h
  if-Calm false c x y h h' = h' refl

  skip-Calm :
      (t : Bool) (c : Option Confirm) (x y : Outcome × Home)
      → t ≡ false
      → Calm c y
      → Calm c (if t then x else y)
  skip-Calm true c x y e h = cc
  skip-Calm false c x y e h = h

  main_char-Calm :
      (c : ℕ) (h : Home) → (c == b'x') ≡ false → Calm h.confirm (main_char lowercase c h)
  unfolding main_char
  main_char-Calm c h not_x =
      let goes = λ (o : Outcome) (n : StopsNone o). calm o h n in
      if-Calm (c == b'j') h.confirm _ _ (step-Calm true h) λ _.
        if-Calm (c == b'k') h.confirm _ _ (step-Calm false h) λ _.
          if-Calm (c == b'l') h.confirm _ _ (unfold-Calm true (cursor_agent lowercase h) h) λ _.
            if-Calm (c == b'h') h.confirm _ _ (unfold-Calm false (cursor_agent lowercase h) h) λ _.
              if-Calm (c == b'n') h.confirm _ _ (goes _ (λ id e. cc)) λ _.
                skip-Calm (c == b'x') h.confirm _ _ not_x (
                  if-Calm (c == b'r') h.confirm _ _
                    (goes _ (resume_row-StopsNone h.context.assistant (cursor_agent lowercase h)))
                    λ _.
                      if-Calm (c == b'a') h.confirm _ _
                        (goes _ (show_artifacts-StopsNone (cursor_agent lowercase h)))
                        λ _.
                          if-Calm (c == b'b' && h.themed) h.confirm _ _ (goes _ (λ id e. cc)) λ _.
                            if-Calm (c == b't' || c == b'T') h.confirm _ _ (goes _ (λ id e. cc))
                              λ _. if-Calm (c == b'L') h.confirm _ _ (goes _ (λ id e. cc)) λ _.
                                if-Calm (c == b'?' || c == b'K') h.confirm _ _
                                  (still (record h { view = keys_view 0 }))
                                  λ _.
                                    if-Calm (c == b'p') h.confirm _ _
                                      (still (record h { view = plugins_view 0 }))
                                      λ _.
                                        if-Calm (c == b'f') h.confirm _ _
                                          (still (record h { input = some find_input }))
                                          λ _.
                                            if-Calm (c == b'/') h.confirm _ _
                                              (still (record h { input = some (ask_input []) }))
                                              λ _.
                                                if-Calm (c == b'q' && h.popup) h.confirm _ _
                                                  (goes _ (λ id e. cc)) (λ _. still h))

  -- The key leaves the question that is open, or it is `x` and may open one.
  abbrev pub Quiet : KeyCode → Home → Outcome × Home → Type 0
  Quiet code h o =
      Calm h.confirm o
      ⊎ ((code ≡ char b'x') × (o ≡ (stay, ask_to_stop lowercase (cursor_agent lowercase h) h)))

  main_char-Quiet : (c : ℕ) (h : Home) → Quiet (char c) h (main_char lowercase c h)
  unfolding main_char
  main_char-Quiet c h = elim (Bool-cases (c == b'x')) [
    | inl is_x ↦ inr (let e : c ≡ b'x' = (==_iff c b'x').0 is_x in (ap char e, rw e refl))
    | inr not_x ↦ inl (main_char-Calm c h not_x)
  ]

  main_key-Quiet : (code : KeyCode) (h : Home) → Quiet code h (main_key lowercase code h)
  unfolding main_key
  main_key-Quiet (char c) h = main_char-Quiet c h
  main_key-Quiet down h = inl (step-Calm true h)
  main_key-Quiet up h = inl (step-Calm false h)
  main_key-Quiet enter h = inl (calm _ h (enter_row-StopsNone (cursor_row lowercase h)))
  main_key-Quiet right h = inl (unfold-Calm true (cursor_agent lowercase h) h)
  main_key-Quiet left h = inl (unfold-Calm false (cursor_agent lowercase h) h)
  main_key-Quiet tab h = inl (reshape-confirm (toggle_ended lowercase) h refl)
  main_key-Quiet esc h =
      inl (if-Calm h.popup h.confirm _ _ (calm close h (λ id e. cc)) (λ _. still h))
  main_key-Quiet backspace h = inl (still h)
  main_key-Quiet home h = inl (still h)
  main_key-Quiet end h = inl (still h)
  main_key-Quiet other h = inl (still h)

  finding-Calm :
      (change : Home → Home) (h : Home)
      → (change h).confirm ≡ h.confirm
      → Calm h.confirm (finding lowercase (reshape lowercase change h))
  unfolding reshape
  finding-Calm change h e = record { stops_none = stay-StopsNone; confirm = e }

  find_key-Calm : (code : KeyCode) (h : Home) → Calm h.confirm (find_key lowercase code h)
  unfolding find_key
  find_key-Calm enter h = still h
  find_key-Calm esc h = reshape-confirm (clear_filter lowercase) h refl
  find_key-Calm (char c) h = finding-Calm (push_filter lowercase c) h refl
  find_key-Calm backspace h = finding-Calm (pop_filter lowercase) h refl
  find_key-Calm up h = still (record h { input = some find_input })
  find_key-Calm down h = still (record h { input = some find_input })
  find_key-Calm left h = still (record h { input = some find_input })
  find_key-Calm right h = still (record h { input = some find_input })
  find_key-Calm tab h = still (record h { input = some find_input })
  find_key-Calm home h = still (record h { input = some find_input })
  find_key-Calm end h = still (record h { input = some find_input })
  find_key-Calm other h = still (record h { input = some find_input })

  asks : (text : Text) (h : Home) → Calm h.confirm (asking lowercase text h)
  asks text h = still (record h { input = some (ask_input text) })

  ask_key-Calm :
      (text : Text) (code : KeyCode) (h : Home) → Calm h.confirm (ask_key lowercase text code h)
  unfolding ask_key
  ask_key-Calm text (char c) h = asks (text ++ c ∷ []) h
  ask_key-Calm text backspace h = asks _ h
  ask_key-Calm text enter h =
      calm _ h (if-StopsNone (length (trim text) == 0) _ _ stay-StopsNone (λ id e. cc))
  ask_key-Calm text esc h = still h
  ask_key-Calm text up h = asks text h
  ask_key-Calm text down h = asks text h
  ask_key-Calm text left h = asks text h
  ask_key-Calm text right h = asks text h
  ask_key-Calm text tab h = asks text h
  ask_key-Calm text home h = asks text h
  ask_key-Calm text end h = asks text h
  ask_key-Calm text other h = asks text h

  pub by_input-Quiet :
      (i : Option Input) (code : KeyCode) (h : Home) → Quiet code h (by_input lowercase i code h)
  by_input-Quiet none code h = main_key-Quiet code h
  by_input-Quiet (some find_input) code h = inl (find_key-Calm code (record h { input = none }))
  by_input-Quiet (some (ask_input text)) code h =
      inl (ask_key-Calm text code (record h { input = none }))

  back_on-Calm : (code : KeyCode) (h : Home) → Calm h.confirm (back_on code h)
  back_on-Calm code h = record { stops_none = stay-StopsNone; confirm = if-same (is_back code) }
    where
      if-same : (t : Bool) → (if t then record h { view = main_view } else h).confirm ≡ h.confirm
      if-same true = refl
      if-same false = refl

  by_confirm-Quiet :
      (c : Option Confirm) (code : KeyCode) (h : Home)
      → c ≡ none
      → Quiet code h (by_confirm lowercase c code h)
  by_confirm-Quiet none code h e = by_input-Quiet h.input code h
  by_confirm-Quiet (some c) code h e = cc

  pub by_view-Quiet :
      (v : View) (code : KeyCode) (h : Home)
      → h.confirm ≡ none
      → Quiet code h (by_view lowercase v code h)
  by_view-Quiet main_view code h e = by_confirm-Quiet h.confirm code h e
  by_view-Quiet (plugins_view row) code h e =
      inl (back_on-Calm code (record h { view = plugins_view _ }))
  by_view-Quiet (keys_view row) code h e = inl (back_on-Calm code (record h { view = keys_view _ }))
