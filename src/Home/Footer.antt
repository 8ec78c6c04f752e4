-- ===== src/Home/Footer.antt =====
-- The footer line of the home screen (plugins/home/src/model.rs), its notice, and the other ways to
-- make a home.
use tx_ide_rs.Prelude.{
  ℕ, ◌-◌, Bool, true, false, List, [], ◌∷◌, ◌++◌, Option, none, some, Text, codes, text_eq, leb,
  if◌then◌else◌, find,
}
use tx_ide_rs.Agent.{is_ended}
use tx_ide_rs.Home.{
  AgentRow, Context, absent, Confirm, stop_agent, Input, find_input, ask_input, Home,
}
use tx_ide_rs.Home.Rows.{is_first_run}
use tx_ide_rs.Home.Keys.{cursor_agent, new_home}

-- `NOTICE`, in milliseconds.
abbrev pub notice_time : ℕ
notice_time = 2000

abbrev pub middle_dot : Text
middle_dot = b' ' ∷ 0xb7 ∷ b' ' ∷ []

-- The parts of a footer, with a middle dot between.
unfoldable pub dotted : List Text → Text
dotted [] = []
dotted (part ∷ []) = part
dotted (part ∷ next ∷ parts) = part ++ (middle_dot ++ dotted (next ∷ parts))

abbrev pub unfold_hint : Text
unfold_hint = 0x2192 ∷ b'/' ∷ 0x2190 ∷ codes " unfold"

abbrev pub main_footer : Text
main_footer = dotted (
    codes "enter attach"
    ∷ unfold_hint
    ∷ codes "n new here"
    ∷ codes "/ ask"
    ∷ codes "f find"
    ∷ codes "? keys"
    ∷ [])

abbrev pub ended_footer : Text
ended_footer = dotted (
    codes "enter resume"
    ∷ unfold_hint
    ∷ codes "n new here"
    ∷ codes "/ ask"
    ∷ codes "f find"
    ∷ codes "? keys"
    ∷ [])

abbrev pub first_run_footer : Text
first_run_footer =
    dotted
      (codes "enter attach" ∷ codes "n new" ∷ codes "/ ask" ∷ codes "L tour" ∷ codes "? keys" ∷ [])

unfoldable pub set_themed : Bool → Home → Home
set_themed themed h = record h { themed = themed }

unfoldable pub notify : Text → ℕ → Home → Home
notify text now h = record h { notice = some (text, now) }

-- `is_some_and`, of the notice; `duration_since` is no less than zero.
abbrev pub has_expired : ℕ → Option (Text × ℕ) → Bool
has_expired now none = false
has_expired now (some (text, shown)) = leb notice_time (now - shown)

-- `Home::expire_notice`
unfoldable pub expire_notice : ℕ → Home → Bool × Home
expire_notice now h =
    let expired = has_expired now h.notice in
    (expired, (if expired then record h { notice = none } else h))

abbrev pub name_or : Text → Option AgentRow → Text
name_or id none = id
name_or id (some a) = a.name

unfoldable pub agent_named : Text → List AgentRow → Text
agent_named id agents = name_or id (find (λ (a : AgentRow). text_eq a.id id) agents)

abbrev pub empty_context : Context
empty_context = record {
  projects = [];
  agents = [];
  views = [];
  details = [];
  assistant = absent;
  plugins = [];
  keys = [];
  now = 0;
  home_directory = [];
}

module _ (lowercase : Text → Text) where
  unfoldable pub new_popup : Context → Home
  unfolding new_home
  new_popup c = record (new_home lowercase c) { popup = true }

  -- `Home::loading`
  unfoldable pub loading_home : Bool → Home
  unfolding new_home
  loading_home popup = record (new_home lowercase empty_context) { loaded = false; popup = popup }

  abbrev pub is_gone : Option AgentRow → Bool
  is_gone none = false
  is_gone (some a) = is_ended a.state

  abbrev pub hint : Home → Text
  hint h =
      if is_first_run lowercase h.loaded h.context
      then first_run_footer
      else (if is_gone (cursor_agent lowercase h) then ended_footer else main_footer)

  abbrev pub close_hint : Bool → Text
  close_hint popup = if popup then middle_dot ++ codes "q close" else []

  abbrev pub theme_hint : Bool → Text
  theme_hint themed = if themed then middle_dot ++ codes "b theme" else []

  abbrev pub by_notice : Home → Option (Text × ℕ) → Text
  by_notice h (some (text, shown)) = text
  by_notice h none = hint h ++ (close_hint h.popup ++ theme_hint h.themed)

  abbrev pub by_open_input : Home → Option Input → Text
  by_open_input h (some find_input) = codes "find " ++ 0x203a ∷ b' ' ∷ h.filter_text
  by_open_input h (some (ask_input text)) = codes "ask " ++ 0x203a ∷ b' ' ∷ text
  by_open_input h none = by_notice h h.notice

  abbrev pub by_question : Home → Option Confirm → Text
  by_question h (some (stop_agent id)) =
      codes "stop " ++ (agent_named id h.context.agents ++ codes "? y/n")
  by_question h none = by_open_input h h.input

  -- `Home::footer`
  unfoldable pub footer : Home → Text
  unfolding agent_named dotted
  footer h = by_question h h.confirm
