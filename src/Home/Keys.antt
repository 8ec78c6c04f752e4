-- ===== src/Home/Keys.antt =====
-- The keys of the home screen (plugins/home/src/model.rs): the cursor and what each key does.
use tx_ide_rs.Prelude.{
  ℕ, suc, ◌+◌, ◌-◌, ◌%◌, min, Bool, true, false, not, ◌&&◌, ◌||◌, List, [], ◌∷◌, ◌++◌, Option, none,
  some, Text, text_eq, contains, ltb, leb, ◌==◌, if◌then◌else◌, length, get_elem?,
}
use tx_ide_rs.Agent.{is_ended}
unfoldable pub use tx_ide_rs.Prelude.{trim_start, trim_cons, trim_end, trim}
use tx_ide_rs.Home.{
  AgentRow, Context, AssistantState, stopped, failed, Row, agent_row, views_row, attach, resume,
  new, stop, ask, artifacts, timeline, tutor, warm, View, main_view, plugins_view, keys_view,
  Outcome, stay, close, next_theme, run, Confirm, stop_agent, Input, find_input, ask_input, Home,
}
use tx_ide_rs.Home.Rows.{is_selectable, session_name, holds, parent_agent, project_at, rows_of}

-- `KeyCode`
pub data KeyCode : Type 0 where
  char : ℕ → KeyCode
  up down left right enter tab esc backspace home end other : KeyCode

-- `position`
unfoldable pub position : (Row → Bool) → ℕ → List Row → Option ℕ
position p i [] = none
position p i (r ∷ rows) = if p r then some i else position p (suc i) rows

unfoldable pub selectable_from : ℕ → List Row → List ℕ
selectable_from i [] = []
selectable_from i (r ∷ rows) =
    let rest = selectable_from (suc i) rows in if is_selectable r then i ∷ rest else rest

abbrev pub abs_diff : ℕ → ℕ → ℕ
abs_diff a b = if leb a b then b - a else a - b

-- `min_by_key`: the first of the nearest.
unfoldable pub nearest : ℕ → ℕ → List ℕ → ℕ
nearest cursor best [] = best
nearest cursor best (i ∷ is_) =
    nearest cursor (if ltb (abs_diff i cursor) (abs_diff best cursor) then i else best) is_

abbrev pub nearest_or : ℕ → List ℕ → ℕ
nearest_or cursor [] = cursor
nearest_or cursor (i ∷ is_) = nearest cursor i is_

abbrev pub named_position : Option Text → List Row → Option ℕ
named_position none rows = none
named_position (some name) rows = position (λ r. is_selectable r && holds name r) 0 rows

abbrev pub or_nearest : Option ℕ → ℕ → List Row → ℕ
or_nearest (some i) cursor rows = i
or_nearest none cursor rows = nearest_or cursor (selectable_from 0 rows)

-- `Home::anchor`, of the rows and the cursor.
unfoldable pub anchor_of : Option Text → ℕ → List Row → ℕ
unfolding position selectable_from nearest
anchor_of name cursor rows = or_nearest (named_position name rows) cursor rows

abbrev pub selectable : Option Row → Option Row
selectable none = none
selectable (some r) = if is_selectable r then some r else none

unfoldable pub insert_id : Text → List Text → List Text
insert_id id ids = if contains ids id then ids else id ∷ ids

unfoldable pub remove_id : Text → List Text → List Text
remove_id id [] = []
remove_id id (x ∷ ids) = if text_eq x id then remove_id id ids else x ∷ remove_id id ids

-- `String::pop`
unfoldable pub pop : Text → Text
pop [] = []
pop (c ∷ []) = []
pop (c ∷ d ∷ text) = c ∷ pop (d ∷ text)

unfoldable pub scroll : ℕ → ℕ → KeyCode → ℕ
scroll row len down = min (row + 1) (len - 1)
scroll row len up = row - 1
scroll row len home = 0
scroll row len end = len - 1
scroll row len (char c) =
    if c == b'j'
    then min (row + 1) (len - 1)
    else (if c == b'k'
        then row - 1
        else (if c == b'g' then 0 else (if c == b'G' then len - 1 else row)))
scroll row len _ = row

abbrev pub is_back : KeyCode → Bool
is_back esc = true
is_back backspace = true
is_back (char c) = c == b'q' || c == b'h'
is_back _ = false

-- `Home::back_on`
abbrev pub back_on : KeyCode → Home → Outcome × Home
back_on code h = (stay, (if is_back code then record h { view = main_view } else h))

-- `accept`, by whether Control or Alt is held.
abbrev pub is_navigation : KeyCode → Bool
is_navigation up = true
is_navigation down = true
is_navigation enter = true
is_navigation esc = true
is_navigation (char c) = c == b'j' || (c == b'k' || c == b'q')
is_navigation _ = false

unfoldable pub accept : KeyCode → Bool → Bool → Option KeyCode
accept code chord in_grace =
    if chord then none else (if not in_grace || is_navigation code then some code else none)

module _ (lowercase : Text → Text) where
  abbrev pub rows : Home → List Row
  rows h = rows_of lowercase h.loaded h.context h.unfolded h.ended_shown h.filter_text

  abbrev pub cursor_row : Home → Option Row
  cursor_row h = selectable (get_elem? (rows h) h.cursor)

  abbrev pub agent_of : Option Row → Option AgentRow
  agent_of (some (agent_row a)) = some a
  agent_of _ = none

  abbrev pub cursor_agent : Home → Option AgentRow
  cursor_agent h = agent_of (cursor_row h)

  abbrev pub name_of : Option Row → Option Text
  name_of none = none
  name_of (some r) = session_name r

  -- `Home::reshape`
  unfoldable pub reshape : (Home → Home) → Home → Home
  unfolding anchor_of
  reshape change h =
      let changed = change h in
      record changed { cursor = anchor_of (name_of (cursor_row h)) changed.cursor (rows changed) }

  abbrev pub set_context : Context → Home → Home
  set_context c h = record h { context = c; loaded = true }

  unfoldable pub replace_context : Context → Home → Home
  unfolding reshape
  replace_context c = reshape (set_context c)

  abbrev pub or_stay : Option ℕ → Home → Home
  or_stay none h = h
  or_stay (some i) h = record h { cursor = i }

  unfoldable pub select_session : Text → Home → Home
  unfolding position
  select_session name h = or_stay (named_position (some name) (rows h)) h

  unfoldable pub position_of : ℕ → ℕ → List ℕ → Option ℕ
  position_of cursor k [] = none
  position_of cursor k (i ∷ is_) = if i == cursor then some k else position_of cursor (suc k) is_

  abbrev pub next_position : Bool → ℕ → Option ℕ → ℕ
  next_position forward count none = 0
  next_position true count (some k) = (k + 1) % count
  next_position false count (some k) = (k + count - 1) % count

  abbrev pub step_in : Bool → List ℕ → Home → Home
  step_in forward [] h = h
  step_in forward (i ∷ is_) h =
      or_stay
        (get_elem? (i ∷ is_)
          (next_position forward (length (i ∷ is_)) (position_of h.cursor 0 (i ∷ is_))))
        h

  unfoldable pub step : Bool → Home → Home
  unfolding selectable_from position_of
  step forward h = step_in forward (selectable_from 0 (rows h)) h

  abbrev pub set_unfolded : Bool → Text → Home → Home
  set_unfolded open_ id h = record h {
    unfolded = if open_ then insert_id id h.unfolded else remove_id id h.unfolded;
  }

  abbrev pub unfold_agent : Bool → Option AgentRow → Home → Home
  unfold_agent open_ none h = h
  unfold_agent open_ (some a) h = reshape (set_unfolded open_ a.id) h

  abbrev pub enter_row : Option Row → Outcome
  enter_row (some (agent_row a)) = run (if is_ended a.state then resume a.id else attach a.name)
  enter_row (some (views_row v vs)) = run (attach v.name)
  enter_row _ = stay

  abbrev pub has_failed : AssistantState → Bool
  has_failed (failed why) = true
  has_failed _ = false

  abbrev pub is_none_or_assistant : Option AgentRow → Bool
  is_none_or_assistant none = true
  is_none_or_assistant (some a) = a.is_assistant

  abbrev pub resume_stopped : AssistantState → AgentRow → Outcome
  resume_stopped (stopped id) a = if a.is_assistant then run (resume id) else stay
  resume_stopped _ a = stay

  abbrev pub resume_agent : AssistantState → Option AgentRow → Outcome
  resume_agent assistant none = stay
  resume_agent assistant (some a) =
      if is_ended a.state then run (resume a.id) else resume_stopped assistant a

  unfoldable pub resume_row : AssistantState → Option AgentRow → Outcome
  resume_row assistant agent =
      if has_failed assistant && is_none_or_assistant agent
      then run warm
      else resume_agent assistant agent

  abbrev pub project_or_parent : Option AgentRow → Option ℕ → Option ℕ
  project_or_parent none project = project
  project_or_parent (some a) project = some a.project

  abbrev pub path_of : Context → Option ℕ → Text
  path_of c none = c.home_directory
  path_of c (some p) = (project_at c p).path

  abbrev pub row_project : Context → Option Row → Option ℕ
  row_project c (some (agent_row a)) = some a.project
  row_project c (some (views_row v vs)) = project_or_parent (parent_agent c v) v.project
  row_project c _ = none

  unfoldable pub cursor_project_path : Home → Text
  cursor_project_path h = path_of h.context (row_project h.context (cursor_row h))

  abbrev pub ask_to_stop : Option AgentRow → Home → Home
  ask_to_stop none h = h
  ask_to_stop (some a) h =
      if is_ended a.state then h else record h { confirm = some (stop_agent a.id) }

  abbrev pub show_artifacts : Option AgentRow → Outcome
  show_artifacts none = stay
  show_artifacts (some a) = run (artifacts a.id)

  abbrev pub toggle_ended : Home → Home
  toggle_ended h = record h { ended_shown = not h.ended_shown }

  unfoldable pub main_char : ℕ → Home → Outcome × Home
  unfolding resume_row cursor_project_path step reshape
  main_char c h =
      if c == b'j'
      then (stay, step true h)
      else (if c == b'k'
          then (stay, step false h)
          else (if c == b'l'
              then (stay, unfold_agent true (cursor_agent h) h)
              else (if c == b'h'
                  then (stay, unfold_agent false (cursor_agent h) h)
                  else (if c == b'n'
                      then (run (new (cursor_project_path h)), h)
                      else (if c == b'x'
                          then (stay, ask_to_stop (cursor_agent h) h)
                          else (if c == b'r'
                              then (resume_row h.context.assistant (cursor_agent h), h)
                              else (if c == b'a'
                                  then (show_artifacts (cursor_agent h), h)
                                  else (if c == b'b' && h.themed
                                      then (next_theme, h)
                                      else (if c == b't' || c == b'T'
                                          then (run timeline, h)
                                          else (if c == b'L'
                                              then (run tutor, h)
                                              else (if c == b'?' || c == b'K'
                                                  then (stay, record h { view = keys_view 0 })
                                                  else (if c == b'p'
                                                      then (
                                                        stay,
                                                        record h { view = plugins_view 0 },
                                                      )
                                                      else (if c == b'f'
                                                          then (
                                                            stay,
                                                            record h { input = some find_input },
                                                          )
                                                          else (if c == b'/'
                                                            then (
                                                            stay,
                                                            record h {
                                                            input = some (ask_input []);
                                                            },
                                                            )
                                                            else (if c == b'q' && h.popup
                                                            then (close, h)
                                                            else (stay, h))))))))))))))))

  unfoldable pub main_key : KeyCode → Home → Outcome × Home
  unfolding main_char step reshape
  main_key down h = (stay, step true h)
  main_key up h = (stay, step false h)
  main_key enter h = (enter_row (cursor_row h), h)
  main_key right h = (stay, unfold_agent true (cursor_agent h) h)
  main_key left h = (stay, unfold_agent false (cursor_agent h) h)
  main_key tab h = (stay, reshape toggle_ended h)
  main_key esc h = if h.popup then (close, h) else (stay, h)
  main_key (char c) h = main_char c h
  main_key _ h = (stay, h)

  abbrev pub clear_filter : Home → Home
  clear_filter h = record h { filter_text = [] }

  abbrev pub push_filter : ℕ → Home → Home
  push_filter c h = record h { filter_text = h.filter_text ++ c ∷ [] }

  unfoldable pub pop_filter : Home → Home
  unfolding pop
  pop_filter h = record h { filter_text = pop h.filter_text }

  abbrev pub finding : Home → Outcome × Home
  finding h = (stay, record h { input = some find_input })

  -- `Home::find_key`, of the home whose input has been taken.
  unfoldable pub find_key : KeyCode → Home → Outcome × Home
  unfolding reshape pop_filter
  find_key enter h = (stay, h)
  find_key esc h = (stay, reshape clear_filter h)
  find_key (char c) h = finding (reshape (push_filter c) h)
  find_key backspace h = finding (reshape pop_filter h)
  find_key _ h = finding h

  abbrev pub asking : Text → Home → Outcome × Home
  asking text h = (stay, record h { input = some (ask_input text) })

  -- `Home::ask_key`, of the home whose input has been taken.
  unfoldable pub ask_key : Text → KeyCode → Home → Outcome × Home
  unfolding trim pop
  ask_key text (char c) h = asking (text ++ c ∷ []) h
  ask_key text backspace h = asking (pop text) h
  ask_key text enter h = (if length (trim text) == 0 then stay else run (ask (trim text)), h)
  ask_key text esc h = (stay, h)
  ask_key text _ h = asking text h

  abbrev pub is_yes : KeyCode → Bool
  is_yes (char c) = c == b'y'
  is_yes _ = false

  abbrev pub by_input : Option Input → KeyCode → Home → Outcome × Home
  by_input none code h = main_key code h
  by_input (some find_input) code h = find_key code (record h { input = none })
  by_input (some (ask_input text)) code h = ask_key text code (record h { input = none })

  abbrev pub by_confirm : Option Confirm → KeyCode → Home → Outcome × Home
  by_confirm none code h = by_input h.input code h
  by_confirm (some (stop_agent id)) code h =
      ((if is_yes code then run (stop id) else stay), record h { confirm = none })

  abbrev pub by_view : View → KeyCode → Home → Outcome × Home
  by_view main_view code h = by_confirm h.confirm code h
  by_view (plugins_view row) code h =
      back_on code (record h { view = plugins_view (scroll row (length h.context.plugins) code) })
  by_view (keys_view row) code h =
      back_on code (record h { view = keys_view (scroll row (length h.context.keys) code) })

  unfoldable pub key : KeyCode → Home → Outcome × Home
  unfolding main_key find_key ask_key scroll
  key code h = by_view h.view code h

  -- `Home::new`
  unfoldable pub new_home : Context → Home
  unfolding anchor_of
  new_home c =
      let h : Home = record {
        context = c;
        loaded = true;
        cursor = 0;
        unfolded = [];
        ended_shown = false;
        filter_text = [];
        view = main_view;
        confirm = none;
        input = none;
        popup = false;
        themed = false;
        notice = none;
      } in
      record h { cursor = anchor_of none 0 (rows h) }
