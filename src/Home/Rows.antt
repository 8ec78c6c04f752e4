-- ===== src/Home/Rows.antt =====
-- The rows of the home screen (plugins/home/src/model.rs): `Home::rows` and what it asks. The
-- lowercase of a text, which the search compares by, is a parameter.
use tx_ide_rs.Prelude.{
  ℕ, suc, ◌+◌, ◌-◌, Bool, true, false, not, ◌&&◌, ◌||◌, List, [], ◌∷◌, ◌++◌, Option, none, some,
  Text, codes, text_eq, starts_with, contains, ltb, leb, ◌==◌, if◌then◌else◌, length, get_elem?,
  filter, any, all, find,
}
use tx_ide_rs.Agent.{is_ended}
use tx_ide_rs.Home.{
  Project, AgentRow, ViewRow, Detail, Context, Row, project_row, agent_row, detail_row, views_row,
  ended_fold, first_run, loading,
}

abbrev pub is_selectable : Row → Bool
is_selectable (agent_row a) = true
is_selectable (views_row v vs) = true
is_selectable _ = false

abbrev pub session_name : Row → Option Text
session_name (agent_row a) = some a.name
session_name (views_row v vs) = some v.name
session_name _ = none

abbrev pub holds : Text → Row → Bool
holds name (agent_row a) = text_eq a.name name
holds name (views_row v vs) = any (λ (x : ViewRow). text_eq x.name name) (v ∷ vs)
holds name _ = false

abbrev pub same_id : Option Text → Text → Bool
same_id none id = false
same_id (some parent) id = text_eq parent id

abbrev pub same_project : Option ℕ → Option ℕ → Bool
same_project none none = true
same_project (some p) (some q) = p == q
same_project _ _ = false

-- `context.projects[project]`, which is asked only of listed projects.
abbrev pub or_no_project : Option Project → Project
or_no_project none = record { name = []; path = [] }
or_no_project (some p) = p

abbrev pub project_at : Context → ℕ → Project
project_at c i = or_no_project (get_elem? c.projects i)

unfoldable pub detail_of : Text → List (Text × Detail) → Option Detail
detail_of id [] = none
detail_of id ((key, d) ∷ details) = if text_eq key id then some d else detail_of id details

-- Running agents first, then the newest.
abbrev pub agent_le : AgentRow → AgentRow → Bool
agent_le x y = by_ended (is_ended x.state) (is_ended y.state)
  where
    by_ended : Bool → Bool → Bool
    by_ended true false = false
    by_ended false true = true
    by_ended _ _ = leb y.age_at x.age_at

-- `sort_by`, which is stable.
module _ {A : Type 0} (le : A → A → Bool) where
  unfoldable pub insert_by : A → List A → List A
  insert_by x [] = x ∷ []
  insert_by x (y ∷ ys) = let later = insert_by x ys in if le x y then x ∷ y ∷ ys else y ∷ later

  unfoldable pub sort_by : List A → List A
  unfolding insert_by
  sort_by [] = []
  sort_by (x ∷ xs) = insert_by x (sort_by xs)

-- The newest agent of a project, where a project without one is older than any.
abbrev pub later_of : Option ℕ → ℕ → Option ℕ
later_of none t = some t
later_of (some s) t = some (if leb s t then t else s)

unfoldable pub newest : ℕ → List AgentRow → Option ℕ
newest project [] = none
newest project (a ∷ agents) =
    let rest = newest project agents in
    if a.project == project then later_of rest a.age_at else rest

abbrev pub system_tag : Text
system_tag = codes "tx-system"

abbrev pub is_system : List AgentRow → ℕ → Bool
is_system agents project =
    any (λ (a : AgentRow). a.project == project && (a.is_assistant || text_eq a.tag system_tag))
      agents

abbrev pub newest_ge : Option ℕ → Option ℕ → Bool
newest_ge _ none = true
newest_ge none (some t) = false
newest_ge (some s) (some t) = leb t s

abbrev pub project_le : List AgentRow → ℕ → ℕ → Bool
project_le agents x y = by_system (is_system agents x) (is_system agents y)
  where
    by_system : Bool → Bool → Bool
    by_system true false = false
    by_system false true = true
    by_system _ _ = newest_ge (newest x agents) (newest y agents)

-- The numbers from `start` on.
abbrev pub count_from : ℕ → List Project → List ℕ
count_from start [] = []
count_from start (p ∷ projects) = start ∷ count_from (suc start) projects

unfoldable pub project_order : Context → List ℕ
unfolding sort_by newest
project_order c = sort_by (project_le c.agents) (count_from 0 c.projects)

abbrev pub parent_agent : Context → ViewRow → Option AgentRow
parent_agent c view = find (λ (a : AgentRow). same_id view.parent a.id) c.agents

abbrev pub is_none {ℓ} : {A : Type ℓ} → Option A → Bool
is_none none = true
is_none (some a) = false

-- `str::contains`
unfoldable pub has_part : Text → Text → Bool
has_part part [] = starts_with [] part
has_part part (c ∷ text) = if starts_with (c ∷ text) part then true else has_part part text

abbrev pub views_rows : List ViewRow → List Row
views_rows [] = []
views_rows (v ∷ vs) = views_row v vs ∷ []

abbrev pub ended_limit : ℕ
ended_limit = 3

module _ (lowercase : Text → Text) where
  unfoldable pub matches_filter : Text → Text → Bool
  unfolding has_part
  matches_filter filter_text text = has_part (lowercase filter_text) (lowercase text)

  abbrev pub branch_matches : Text → Option Text → Bool
  branch_matches filter_text none = false
  branch_matches filter_text (some branch) = matches_filter filter_text branch

  abbrev pub keeps_agent : Context → Text → AgentRow → Bool
  keeps_agent c t a =
      matches_filter t a.name
      || (matches_filter t a.tag
          || (matches_filter t (project_at c a.project).name
              || (branch_matches t a.branch
                  || any (λ (v : ViewRow). same_id v.parent a.id && matches_filter t v.name)
                      c.views)))

  abbrev pub project_matches : Context → Text → Option ℕ → Bool
  project_matches c t none = false
  project_matches c t (some p) = matches_filter t (project_at c p).name

  unfoldable pub loose_views : Context → Text → Option ℕ → List ViewRow
  unfolding matches_filter
  loose_views c t project =
      filter
        (λ (v : ViewRow).
          same_project v.project project
          && (is_none (parent_agent c v)
              && (matches_filter t v.name || project_matches c t project)))
        c.views

  abbrev pub detail_rows : Context → List Text → AgentRow → List Row
  detail_rows c unfolded a =
      if contains unfolded a.id then detail_row a (detail_of a.id c.details) ∷ [] else []

  -- An agent with its detail and its views.
  abbrev pub agent_rows : Context → List Text → AgentRow → List Row
  agent_rows c unfolded a =
      agent_row a
      ∷ (detail_rows c unfolded a
          ++ views_rows (filter (λ (v : ViewRow). same_id v.parent a.id) c.views))

  -- The rows of the agents, `ended` of which had ended before, and how many have ended in all.
  unfoldable pub list_rows : Context → List Text → Bool → ℕ → List AgentRow → List Row × ℕ
  unfolding detail_of
  list_rows c unfolded shown ended [] = ([], ended)
  list_rows c unfolded shown ended (a ∷ agents) =
      let gone = list_rows c unfolded shown (ended + 1) agents in
      let running = list_rows c unfolded shown ended agents in
      if is_ended a.state
      then (if ltb ended_limit (ended + 1) && not shown
          then gone
          else (agent_rows c unfolded a ++ gone.0, gone.1))
      else (agent_rows c unfolded a ++ running.0, running.1)

  abbrev pub fold_rows : Bool → ℕ → ℕ → List Row
  fold_rows shown project ended =
      if ltb ended_limit ended && not shown
      then ended_fold project (ended - ended_limit) ∷ []
      else []

  unfoldable pub project_rows : Context → List Text → Bool → Text → ℕ → List Row
  unfolding list_rows sort_by loose_views matches_filter
  project_rows c unfolded shown t project =
      let agents =
        sort_by agent_le
          (filter (λ (a : AgentRow). a.project == project && keeps_agent c t a) c.agents) in
      let loose = loose_views c t (some project) in
      let listed = list_rows c unfolded shown 0 agents in
      if length agents == 0 && length loose == 0
      then []
      else project_row (project_at c project)
        ∷ (listed.0 ++ (fold_rows shown project listed.1 ++ views_rows loose))

  unfoldable pub all_project_rows : Context → List Text → Bool → Text → List ℕ → List Row
  unfolding project_rows
  all_project_rows c unfolded shown t [] = []
  all_project_rows c unfolded shown t (p ∷ projects) =
      project_rows c unfolded shown t p ++ all_project_rows c unfolded shown t projects

  -- The views under no project, below a project of their own.
  abbrev pub loose_rows : List ViewRow → List Row
  loose_rows [] = []
  loose_rows (v ∷ vs) =
      project_row (record { name = codes "views"; path = [] }) ∷ views_row v vs ∷ []

  abbrev pub is_first_run : Bool → Context → Bool
  is_first_run loaded c =
      loaded && (all (λ (a : AgentRow). a.is_assistant) c.agents && length c.views == 0)

  -- `Home::rows`, of the fields that it reads.
  unfoldable pub rows_of : Bool → Context → List Text → Bool → Text → List Row
  unfolding project_order all_project_rows loose_views
  rows_of false c unfolded shown t = loading ∷ []
  rows_of true c unfolded shown t =
      all_project_rows c unfolded shown t (project_order c)
      ++ (loose_rows (loose_views c t none) ++ (if is_first_run true c then first_run ∷ [] else []))
