-- ===== src/Core/Outcome/Refreshed.antt =====
-- What `refresh_agent` has done when it succeeds, by the table of live sessions that tmux gave it.
use mathlib.Core.Path.{subst}
use tx_ide_rs.Prelude.{
  ◌≡◌, refl, ◌∙◌, ◌⊎◌, inl, inr, Bool, true, false, List, [], ◌∷◌, Option, none, some, text_eq,
  text_eq_iff, if◌then◌else◌, Bool-cases,
}
use tx_ide_rs.Agent.{Agent, AgentId, ended, is_ended}
use tx_ide_rs.Result.{
  Res, ok, err, TmuxError, StoreError, CoreError, tmux_error, store_error, not_found,
}
use tx_ide_rs.Store.{Dir, load}
use tx_ide_rs.Core.World.{
  TxCore, World, M, Live, bind_result, map_error, ◌>>=◌, emit, from_option, get_agent, find_live,
  hold_agent_lock,
}
use tx_ide_rs.Core.Refine.{bind-Quiet}
use tx_ide_rs.Core.Refine.Parts.{hold_agent_lock-Quiet, get_agent-Quiet, get_agent-ok}
use tx_ide_rs.Core.Refine.Stops.{list_live_agents-Quiet}
use tx_ide_rs.Core.Stop.{
  RefreshResult, unchanged, gone, is_listed, list_live_agents, refresh_exited, refresh_running,
  refresh_agent,
}
use tx_ide_rs.Core.Outcome.{Gives, pure-Gives, pure-Returns, bind-Returns, bind-Gives_after}
use tx_ide_rs.Core.Outcome.Saved.{IsSaved, mark_exited-IsSaved, Holds}
use tx_ide_rs.Core.Outcome.Stopped.{Stopped, saved-Stopped}

-- A live session of the table belongs to the agent.
abbrev pub Listed : AgentId → List (AgentId × Live) → Type 0
Listed id [] = ⊥
Listed id ((i, live) ∷ table) = (i ≡ id) ⊎ Listed id table

is_listed-true :
    (id : AgentId) (table : List (AgentId × Live)) → is_listed id table ≡ true → Listed id table
unfolding is_listed find_live
is_listed-true id [] h = cc
is_listed-true id ((i, live) ∷ table) h = elim (Bool-cases (text_eq i id)) [
  | inl same ↦ inl ((text_eq_iff i id).0 same)
  | inr other ↦ inr (is_listed-true id table (rw other at h))
]

true_is_false : true ≡ false → ⊥
true_is_false h = cc

is_listed-false :
    (id : AgentId) (table : List (AgentId × Live))
    → is_listed id table ≡ false
    → Listed id table
    → ⊥
unfolding is_listed find_live
is_listed-false id [] h later = elim later [ ]
is_listed-false id ((i, live) ∷ table) h (inl same) =
    let found : text_eq i id ≡ true = (text_eq_iff i id).1 same in
    let impossible : true ≡ false = rw found at h in cc
is_listed-false id ((i, live) ∷ table) h (inr later) = elim (Bool-cases (text_eq i id)) [
  | inl same ↦ absurd (true_is_false (rw same at h))
  | inr other ↦ is_listed-false id table (rw other at h) later
]

-- What a refresh leaves, by what it returns, where `answer` is what tmux says of the live sessions:
-- an agent that has ended before, or that is listed, is left as it was, and one that has not ended
-- and is not listed is left ended.
abbrev pub Refreshed :
    Dir → AgentId → Res TmuxError (List (AgentId × Live)) → RefreshResult → Dir → Type 0
Refreshed d id answer (unchanged a) e =
    Holds id a d
    × (e ≡ d)
    × ((is_ended a.state ≡ true)
        ⊎ ((table : List (AgentId × Live)) × (answer ≡ ok table) × Listed id table))
Refreshed d id answer (gone b) e =
    ((table : List (AgentId × Live)) × (answer ≡ ok table) × (Listed id table → ⊥))
    × Stopped d id b e

module _ {T : Type 0} where
  -- What the operation returns on `w` when it succeeds, with the directory it leaves.
  unfoldable pub At : {A : Type 0} → M T A → World T → (A → Dir → Type 0) → Type 0
  At m w P = (a : _) → (m w).0 ≡ ok a → P a (m w).1.dir

  bind_result-At :
      {A B : Type 0} (r : Res CoreError A × World T) (f : A → M T B) (P : B → Dir → Type 0)
      → ((a : A) → r.0 ≡ ok a → At (f a) r.1 P)
      → (b : B) → (bind_result r f).0 ≡ ok b
      → P b (bind_result r f).1.dir
  unfolding At
  bind_result-At (ok a, w) f P k b h = k a refl b h
  bind_result-At (err x, w) f P k b h = cc

  bind-At :
      {A B : Type 0} (m : M T A) (f : A → M T B) (w : World T) (P : B → Dir → Type 0)
      → ((a : A) → (m w).0 ≡ ok a → At (f a) (m w).1 P)
      → At (m >>= f) w P
  unfolding ◌>>=◌ At
  bind-At m f w P k b h = bind_result-At (m w) f P k b h

  if-At :
      {A : Type 0} (t : Bool) (m k : M T A) (w : World T) (P : A → Dir → Type 0)
      → (t ≡ true → At m w P)
      → (t ≡ false → At k w P)
      → At (if t then m else k) w P
  unfolding At
  if-At true m k w P h h' = h refl
  if-At false m k w P h h' = h' refl

  Gives-At :
      {A : Type 0} (d : Dir) (m : M T A) (w : World T) (P : A → Dir → Type 0)
      → w.dir ≡ d
      → Gives d m P
      → At m w P
  unfolding Gives At
  Gives-At d m w P e g = g w e

module _ {T : Type 0} (core : TxCore T) where
  open core use {outside}

  -- What tmux answers after the agent's lock was taken.
  abbrev pub live_answer : AgentId → World T → Res TmuxError (List (AgentId × Live))
  live_answer id w = (outside.list_live (outside.lock_agent id w.outer).1).0

  get_agent-outer : (id : AgentId) (w : World T) → (get_agent core id w).1.outer ≡ w.outer
  unfolding get_agent ◌>>=◌
  get_agent-outer id w = of_load (load id w.dir)
    where
      of_load :
          (r : Res StoreError (Option Agent))
          → (bind_result (map_error store_error r, w) (λ o. from_option (not_found id) o)).1.outer
            ≡ w.outer
      of_load (ok none) = refl
      of_load (ok (some a)) = refl
      of_load (err x) = refl

  tmux_ok :
      (r : Res TmuxError (List (AgentId × Live))) (table : List (AgentId × Live))
      → map_error tmux_error r ≡ ok table
      → r ≡ ok table
  tmux_ok (ok t) table h = cc
  tmux_ok (err e) table h = cc

  list_live_agents-answer :
      (w : World T) (table : List (AgentId × Live))
      → (list_live_agents core w).0 ≡ ok table
      → (outside.list_live w.outer).0 ≡ ok table
  unfolding list_live_agents
  list_live_agents-answer w table h = tmux_ok (outside.list_live w.outer).0 table h

  locked-outer :
      (id : AgentId) (w : World T)
      → (hold_agent_lock core id w).1.outer ≡ (outside.lock_agent id w.outer).1
  unfolding hold_agent_lock
  locked-outer id w = refl

  refresh_exited-Refreshed :
      (d : Dir) (id : AgentId) (session : Agent) (answer : Res TmuxError (List (AgentId × Live)))
      (table : List (AgentId × Live))
      → load id d ≡ ok (some session)
      → is_ended session.state ≡ false
      → answer ≡ ok table
      → (Listed id table → ⊥)
      → Gives d (refresh_exited core session) (Refreshed d id answer)
  unfolding refresh_exited
  refresh_exited-Refreshed d id session answer table l runs listing absent =
      bind-Gives_after d _ _ (λ r. IsSaved d (record session { state = ended }) r.0) _
        (mark_exited-IsSaved core d session)
        (λ r. bind-Quiet (emit (r.1 ∷ [])) _ (λ w. refl) (λ _ w. refl))
        (λ r. bind-Returns _ _ _ λ _.
          pure-Returns T (gone r.0) _
            (λ e s. ((table, listing, absent), saved-Stopped d e id session r.0 l runs s)))

  -- A refresh that succeeds ends the record of a running agent that is not listed, and no other.
  pub refresh_agent-At :
      (id : AgentId) (w : World T)
      → At (refresh_agent core id) w (Refreshed w.dir id (live_answer id w))
  unfolding refresh_agent refresh_running
  refresh_agent-At id w =
      let w1 = (hold_agent_lock core id w).1 in
      let w2 = (get_agent core id w1).1 in
      let w3 = (list_live_agents core w2).1 in
      let d1 : w1.dir ≡ w.dir = hold_agent_lock-Quiet core id w in
      let d2 : w2.dir ≡ w.dir = get_agent-Quiet core id w1 ∙ d1 in
      let outer2 : w2.outer ≡ (outside.lock_agent id w.outer).1 =
        get_agent-outer id w1 ∙ locked-outer id w in
      bind-At (hold_agent_lock core id) _ w _ λ _ locked.
        bind-At (get_agent core id) _ w1 _ λ session got.
          let l : load id w.dir ≡ ok (some session) =
            subst (λ x. load id x ≡ ok (some session)) d1 (get_agent-ok core id session w1 got) in
          if-At (is_ended session.state) _ _ w2 _
            (λ over.
              Gives-At w.dir _ w2 _ d2
                (pure-Gives T w.dir (unchanged session) _ (l, refl, inl over)))
            λ runs. bind-At (list_live_agents core) _ w2 _ λ table listed.
              let listing : live_answer id w ≡ ok table =
                subst (λ t. (outside.list_live t).0 ≡ ok table) outer2
                  (list_live_agents-answer w2 table listed) in
              let d3 : w3.dir ≡ w.dir = list_live_agents-Quiet core w2 ∙ d2 in
              if-At (is_listed id table) _ _ w3 _
                (λ there. Gives-At w.dir _ w3 _ d3 (
                  pure-Gives T w.dir (unchanged session) _
                    (l, refl, inr (table, listing, is_listed-true id table there))))
                (λ absent. Gives-At w.dir _ w3 _ d3 (
                  refresh_exited-Refreshed w.dir id session (live_answer id w) table l runs listing
                    (is_listed-false id table absent)))
