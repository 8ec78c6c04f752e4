-- ===== src/Home/Cursor.antt =====
-- The cursor of the home screen stays on a row that can be selected.
use tx_ide_rs.Prelude.{
  ℕ, ◌≡◌, refl, Bool, true, false, ◌&&◌, ◌||◌, List, [], ◌∷◌, Option, none, some, Text, ◌==◌,
  if◌then◌else◌, length, All, Bool-cases, inl, inr,
}
use tx_ide_rs.Agent.{is_ended}
use tx_ide_rs.Home.{
  AgentRow, Context, View, main_view, plugins_view, keys_view, Outcome, Confirm, stop_agent, Input,
  find_input, ask_input, Home,
}
use tx_ide_rs.Home.Rows.{rows_of}
use tx_ide_rs.Home.Footer.{new_popup, loading_home, set_themed, notify, expire_notice, has_expired}
use tx_ide_rs.Home.Nearest.{
  OnRow, On, On-zero, selectable_from-On, get_elem?-All, named_position-On, anchor_of-OnRow,
}
use tx_ide_rs.Home.Keys.{
  KeyCode, char, up, down, left, right, enter, tab, esc, backspace, home, end, other,
  selectable_from, named_position, is_back, back_on, scroll, rows, cursor_agent, reshape,
  replace_context, or_stay, select_session, step_in, step, unfold_agent, set_unfolded, toggle_ended,
  main_char, main_key, find_key, ask_key, set_context, clear_filter, push_filter, pop_filter,
  ask_to_stop, by_input, by_confirm, by_view, key, new_home,
}

module _ (lowercase : Text → Text) where
  -- The cursor is on a row that can be selected, if there is one.
  pub record Rests (h : Home) : Type 0 where
    pub on_row : OnRow (rows lowercase h) h.cursor

  -- The home screen that is left has its cursor so.
  record Leaves (o : Outcome × Home) : Type 0 where
    rests : Rests o.1

  leaves : (o : Outcome) (h : Home) → Rests h → Leaves (o, h)
  leaves o h r = record { rests = r }

  reshape-Rests : (change : Home → Home) (h : Home) → Rests (reshape lowercase change h)
  unfolding reshape
  reshape-Rests change h = record {
    on_row = anchor_of-OnRow _ (change h).cursor (rows lowercase (change h));
  }

  or_stay-Rests :
      (o : Option ℕ) (h : Home)
      → ((i : ℕ) → o ≡ some i → On 0 (rows lowercase h) i)
      → Rests h
      → Rests (or_stay lowercase o h)
  or_stay-Rests none h on r = r
  or_stay-Rests (some i) h on r = record { on_row = λ _. On-zero (rows lowercase h) i (on i refl) }

  step_in-Rests :
      (forward : Bool) (is_ : List ℕ) (h : Home)
      → All (On 0 (rows lowercase h)) is_
      → Rests h
      → Rests (step_in lowercase forward is_ h)
  step_in-Rests forward [] h on r = r
  step_in-Rests forward (i ∷ is_) h on r =
      or_stay-Rests _ h (λ j e. get_elem?-All (On 0 (rows lowercase h)) (i ∷ is_) _ j on e) r

  step-Rests : (forward : Bool) (h : Home) → Rests h → Rests (step lowercase forward h)
  unfolding step
  step-Rests forward h r =
      step_in-Rests forward (selectable_from 0 (rows lowercase h)) h
        (selectable_from-On 0 (rows lowercase h)) r

  unfold_agent-Rests :
      (open_ : Bool) (o : Option AgentRow) (h : Home)
      → Rests h
      → Rests (unfold_agent lowercase open_ o h)
  unfold_agent-Rests open_ none h r = r
  unfold_agent-Rests open_ (some a) h r = reshape-Rests (set_unfolded lowercase open_ a.id) h

  ask_to_stop-Rests : (o : Option AgentRow) (h : Home) → Rests h → Rests (ask_to_stop lowercase o h)
  ask_to_stop-Rests none h r = r
  ask_to_stop-Rests (some a) h r = elim (Bool-cases (is_ended a.state)) [
    | inl gone ↦ rw gone r
    | inr runs ↦ rw runs (record { on_row = r.on_row })
  ]

  if-Leaves : (t : Bool) (x y : Outcome × Home) → Leaves x → Leaves y → Leaves (if t then x else y)
  if-Leaves true x y h h' = h
  if-Leaves false x y h h' = h'

  main_char-Leaves : (c : ℕ) (h : Home) → Rests h → Leaves (main_char lowercase c h)
  unfolding main_char
  main_char-Leaves c h r =
      let same = λ (o : Outcome). leaves o h r in
      if-Leaves (c == b'j') _ _ (leaves _ _ (step-Rests true h r)) (
        if-Leaves (c == b'k') _ _ (leaves _ _ (step-Rests false h r)) (
          if-Leaves (c == b'l') _ _
            (leaves _ _ (unfold_agent-Rests true (cursor_agent lowercase h) h r))
            (if-Leaves (c == b'h') _ _
              (leaves _ _ (unfold_agent-Rests false (cursor_agent lowercase h) h r))
              (if-Leaves (c == b'n') _ _ (same _) (
                if-Leaves (c == b'x') _ _
                  (leaves _ _ (ask_to_stop-Rests (cursor_agent lowercase h) h r))
                  (if-Leaves (c == b'r') _ _ (same _) (
                    if-Leaves (c == b'a') _ _ (same _) (
                      if-Leaves (c == b'b' && h.themed) _ _ (same _) (
                        if-Leaves (c == b't' || c == b'T') _ _ (same _) (
                          if-Leaves (c == b'L') _ _ (same _) (
                            if-Leaves (c == b'?' || c == b'K') _ _
                              (leaves _ _ (record { on_row = r.on_row }))
                              (if-Leaves (c == b'p') _ _ (leaves _ _ (record { on_row = r.on_row }))
                                (if-Leaves (c == b'f') _ _
                                  (leaves _ _ (record { on_row = r.on_row }))
                                  (if-Leaves (c == b'/') _ _
                                    (leaves _ _ (record { on_row = r.on_row }))
                                    (if-Leaves (c == b'q' && h.popup) _ _ (same _)
                                      (same _))))))))))))))))

  main_key-Leaves : (code : KeyCode) (h : Home) → Rests h → Leaves (main_key lowercase code h)
  unfolding main_key
  main_key-Leaves down h r = leaves _ _ (step-Rests true h r)
  main_key-Leaves up h r = leaves _ _ (step-Rests false h r)
  main_key-Leaves enter h r = leaves _ h r
  main_key-Leaves right h r = leaves _ _ (unfold_agent-Rests true (cursor_agent lowercase h) h r)
  main_key-Leaves left h r = leaves _ _ (unfold_agent-Rests false (cursor_agent lowercase h) h r)
  main_key-Leaves tab h r = leaves _ _ (reshape-Rests (toggle_ended lowercase) h)
  main_key-Leaves esc h r = if-Leaves h.popup _ _ (leaves _ h r) (leaves _ h r)
  main_key-Leaves (char c) h r = main_char-Leaves c h r
  main_key-Leaves backspace h r = leaves _ h r
  main_key-Leaves home h r = leaves _ h r
  main_key-Leaves end h r = leaves _ h r
  main_key-Leaves other h r = leaves _ h r

  typing : (i : Option Input) (h : Home) → Rests h → Rests (record h { input = i })
  typing i h r = record { on_row = r.on_row }

  find_key-Leaves : (code : KeyCode) (h : Home) → Rests h → Leaves (find_key lowercase code h)
  unfolding find_key
  find_key-Leaves enter h r = leaves _ h r
  find_key-Leaves esc h r = leaves _ _ (reshape-Rests (clear_filter lowercase) h)
  find_key-Leaves (char c) h r = leaves _ _ (typing _ _ (reshape-Rests (push_filter lowercase c) h))
  find_key-Leaves backspace h r = leaves _ _ (typing _ _ (reshape-Rests (pop_filter lowercase) h))
  find_key-Leaves up h r = leaves _ _ (typing _ h r)
  find_key-Leaves down h r = leaves _ _ (typing _ h r)
  find_key-Leaves left h r = leaves _ _ (typing _ h r)
  find_key-Leaves right h r = leaves _ _ (typing _ h r)
  find_key-Leaves tab h r = leaves _ _ (typing _ h r)
  find_key-Leaves home h r = leaves _ _ (typing _ h r)
  find_key-Leaves end h r = leaves _ _ (typing _ h r)
  find_key-Leaves other h r = leaves _ _ (typing _ h r)

  ask_key-Leaves :
      (text : Text) (code : KeyCode) (h : Home) → Rests h → Leaves (ask_key lowercase text code h)
  unfolding ask_key
  ask_key-Leaves text enter h r = leaves _ h r
  ask_key-Leaves text esc h r = leaves _ h r
  ask_key-Leaves text (char c) h r = leaves _ _ (typing _ h r)
  ask_key-Leaves text backspace h r = leaves _ _ (typing _ h r)
  ask_key-Leaves text up h r = leaves _ _ (typing _ h r)
  ask_key-Leaves text down h r = leaves _ _ (typing _ h r)
  ask_key-Leaves text left h r = leaves _ _ (typing _ h r)
  ask_key-Leaves text right h r = leaves _ _ (typing _ h r)
  ask_key-Leaves text tab h r = leaves _ _ (typing _ h r)
  ask_key-Leaves text home h r = leaves _ _ (typing _ h r)
  ask_key-Leaves text end h r = leaves _ _ (typing _ h r)
  ask_key-Leaves text other h r = leaves _ _ (typing _ h r)

  by_input-Leaves :
      (o : Option Input) (code : KeyCode) (h : Home)
      → Rests h
      → Leaves (by_input lowercase o code h)
  by_input-Leaves none code h r = main_key-Leaves code h r
  by_input-Leaves (some find_input) code h r =
      find_key-Leaves code (record h { input = none }) (typing none h r)
  by_input-Leaves (some (ask_input text)) code h r =
      ask_key-Leaves text code (record h { input = none }) (typing none h r)

  by_confirm-Leaves :
      (o : Option Confirm) (code : KeyCode) (h : Home)
      → Rests h
      → Leaves (by_confirm lowercase o code h)
  by_confirm-Leaves none code h r = by_input-Leaves h.input code h r
  by_confirm-Leaves (some (stop_agent id)) code h r = leaves _ _ (record { on_row = r.on_row })

  viewing : (v : View) (h : Home) → Rests h → Rests (record h { view = v })
  viewing v h r = record { on_row = r.on_row }

  back_on-Leaves : (code : KeyCode) (h : Home) → Rests h → Leaves (back_on code h)
  back_on-Leaves code h r = elim (Bool-cases (is_back code)) [
    | inl back ↦ rw back (leaves _ _ (viewing main_view h r))
    | inr on ↦ rw on (leaves _ h r)
  ]

  by_view-Leaves :
      (v : View) (code : KeyCode) (h : Home) → Rests h → Leaves (by_view lowercase v code h)
  by_view-Leaves main_view code h r = by_confirm-Leaves h.confirm code h r
  by_view-Leaves (plugins_view row) code h r =
      back_on-Leaves code
        (record h { view = plugins_view (scroll row (length h.context.plugins) code) })
        (viewing _ h r)
  by_view-Leaves (keys_view row) code h r =
      back_on-Leaves code (record h { view = keys_view (scroll row (length h.context.keys) code) })
        (viewing _ h r)

  key-Rests : (code : KeyCode) (h : Home) → Rests h → Rests (key lowercase code h).1
  unfolding key
  key-Rests code h r = (by_view-Leaves h.view code h r).rests

  loading_home-Rests : (popup : Bool) → Rests (loading_home lowercase popup)
  unfolding loading_home rows_of
  loading_home-Rests popup = record { on_row = λ none_. cc }

  expire_notice-Rests : (now : ℕ) (h : Home) → Rests h → Rests (expire_notice now h).1
  unfolding expire_notice
  expire_notice-Rests now h r = elim (Bool-cases (has_expired now h.notice)) [
    | inl gone ↦ rw gone (record { on_row = r.on_row })
    | inr shown ↦ rw shown r
  ]

  -- The operations of the home screen that change what it shows or where its cursor is.
  pub data Reachable : Home → Type 0 where
    opened : (c : Context) (h : Home) → h ≡ new_home lowercase c → Reachable h
    pressed :
        (code : KeyCode) {h : Home} (g : Home)
        → Reachable h
        → g ≡ (key lowercase code h).1
        → Reachable g
    polled :
        (c : Context) {h : Home} (g : Home)
        → Reachable h
        → g ≡ replace_context lowercase c h
        → Reachable g
    popped_up : (c : Context) (h : Home) → h ≡ new_popup lowercase c → Reachable h
    loads : (popup : Bool) (h : Home) → h ≡ loading_home lowercase popup → Reachable h
    themed_ : (t : Bool) {h : Home} (g : Home) → Reachable h → g ≡ set_themed t h → Reachable g
    notified :
        (text : Text) (now : ℕ) {h : Home} (g : Home)
        → Reachable h
        → g ≡ notify text now h
        → Reachable g
    expired :
        (now : ℕ) {h : Home} (g : Home) → Reachable h → g ≡ (expire_notice now h).1 → Reachable g
    returned :
        (name : Text) {h : Home} (g : Home)
        → Reachable h
        → g ≡ select_session lowercase name h
        → Reachable g

  -- In every state that a home screen, a popup or one that still loads reaches by keys, new data,
  -- notices, the theme and returns from a session, the cursor is on a row that can be selected, if
  -- there is one.
  pub Reachable-Rests : {h : Home} → Reachable h → Rests h
  unfolding new_home replace_context select_session new_popup set_themed notify
  Reachable-Rests (opened c h e) =
      rw e (record { on_row = anchor_of-OnRow none 0 (rows lowercase (new_home lowercase c)) })
  Reachable-Rests (pressed code {h} g r e) = rw e (key-Rests code h (Reachable-Rests r))
  Reachable-Rests (polled c {h} g r e) = rw e (reshape-Rests (set_context lowercase c) h)
  Reachable-Rests (returned name {h} g r e) = rw e (
      or_stay-Rests (named_position (some name) (rows lowercase h)) h
        (named_position-On (some name) (rows lowercase h)) (Reachable-Rests r))
  Reachable-Rests (popped_up c h e) =
      rw e (record { on_row = anchor_of-OnRow none 0 (rows lowercase (new_home lowercase c)) })
  Reachable-Rests (loads popup h e) = rw e (loading_home-Rests popup)
  Reachable-Rests (themed_ t {h} g r e) = rw e (record { on_row = (Reachable-Rests r).on_row })
  Reachable-Rests (notified text now {h} g r e) =
      rw e (record { on_row = (Reachable-Rests r).on_row })
  Reachable-Rests (expired now {h} g r e) = rw e (expire_notice-Rests now h (Reachable-Rests r))
