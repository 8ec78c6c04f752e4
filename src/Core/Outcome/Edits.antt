-- ===== src/Core/Outcome/Edits.antt =====
-- What `rename_agent`, `set_agent_tags` and `update_ext` have done when they succeed.
use mathlib.Core.Path.{subst}
use tx_ide_rs.Prelude.{
  ℕ, ◌≡◌, ◌≢◌, refl, sym, ap, ◌∙◌, Bool, true, false, List, [], ◌∷◌, none, some, Text, text_eq,
  text_eq_iff, if◌then◌else◌, ◌⊎◌, inl, inr, Bool-cases,
}
use tx_ide_rs.Json.{Value, value_eq, value_eq_iff, is_null, is_null-null}
use tx_ide_rs.Agent.{Agent, AgentId, is_valid_name, ext_get}
use tx_ide_rs.Agent.Names.{ext_get-ext_insert, ext_get-ext_remove}
use tx_ide_rs.Result.{ok, name_taken, invalid_name}
use tx_ide_rs.Store.{Dir, load}
use tx_ide_rs.Core.World.{TxCore, emit}
use tx_ide_rs.Core.Refine.{bind-Quiet}
use tx_ide_rs.Core.Refine.Parts.{event-Quiet, hold_create_lock-Quiet, hold_agent_lock-Quiet}
use tx_ide_rs.Core.Change.{
  is_none, rename_record, rename_locked, rename_agent, ext_or_null, with_ext, write_ext, update_ext,
  set_agent_tags,
}
use tx_ide_rs.Core.Refine.Changes.{rename_live-Quiet}
use tx_ide_rs.Core.Refine.Names.{name_holder-Quiet}
use tx_ide_rs.Core.Outcome.{
  Gives, pure-Gives, pure-Returns, bind-Returns, bind-Gives, bind-Gives_after, guard-Gives,
  if-Gives, get_agent-Gives, weaken-Gives,
}
use tx_ide_rs.Core.Outcome.Saved.{IsSaved, save-IsSaved, Holds, saved-Holds}

with_ext-id :
    (plugin : Text) (v : Value) (session : Agent) → (with_ext plugin v session).id ≡ session.id
unfolding with_ext
with_ext-id plugin v session = refl

-- The plugin's data is the value written, where `Null` is no data, and all other data is kept.
with_ext-lookup :
    (plugin key : Text) (v : Value) (session : Agent)
    → ext_or_null (ext_get key (with_ext plugin v session).ext)
      ≡ (if text_eq plugin key then v else ext_or_null (ext_get key session.ext))
unfolding with_ext ext_or_null
with_ext-lookup plugin key v session =
    by_test (Bool-cases (is_null v)) (Bool-cases (text_eq plugin key))
  where
    by_test :
        (is_null v ≡ true) ⊎ (is_null v ≡ false)
        → (text_eq plugin key ≡ true) ⊎ (text_eq plugin key ≡ false)
        → ext_or_null (ext_get key (with_ext plugin v session).ext)
          ≡ (if text_eq plugin key then v else ext_or_null (ext_get key session.ext))
    by_test (inl nothing) (inl same) =
        rw (nothing, ext_get-ext_remove, same) (sym (is_null-null v nothing))
    by_test (inl nothing) (inr other) = rw (nothing, ext_get-ext_remove, other)
    by_test (inr something) (inl same) = rw (something, ext_get-ext_insert, same)
    by_test (inr something) (inr other) = rw (something, ext_get-ext_insert, other)

-- `b` is `a` but for its plugin data and the time of the save.
abbrev pub IsExtEdit : Agent → Agent → Type 0
IsExtEdit a b = b ≡ record a { ext = b.ext; last_modified_at = b.last_modified_at }

-- What `update_ext` leaves, by what it returns: the record with other data at the plugin's key and
-- nothing else changed, or the directory as it was.
abbrev pub Updated : Dir → AgentId → Text → (Value → Value) → Bool → Dir → Type 0
Updated d id plugin f true e =
    (a b : Agent) × Holds id a d
    × Holds id b e
    × IsExtEdit a b
    × ((key : Text)
        → ext_or_null (ext_get key b.ext) ≡ (
            if text_eq plugin key
            then f (ext_or_null (ext_get plugin a.ext))
            else ext_or_null (ext_get key a.ext)))
    × (f (ext_or_null (ext_get plugin a.ext)) ≢ ext_or_null (ext_get plugin a.ext))
Updated d id plugin f false e =
    (a : Agent) × Holds id a d
    × (e ≡ d)
    × (f (ext_or_null (ext_get plugin a.ext)) ≡ ext_or_null (ext_get plugin a.ext))

saved-IsExtEdit :
    (plugin : Text) (v : Value) (a b : Agent) (at : ℕ)
    → b ≡ record (with_ext plugin v a) { last_modified_at = at }
    → IsExtEdit a b
unfolding with_ext
saved-IsExtEdit plugin v a b at e = subst (IsExtEdit a) (sym e) refl

value_neq : (v w : Value) → value_eq v w ≡ false → v ≢ w
value_neq v w h e =
    let same : value_eq v w ≡ true = (value_eq_iff v w).1 e in
    let impossible : true ≡ false = sym same ∙ h in cc

module _ {T : Type 0} (core : TxCore T) where
  -- The new name is valid and the record that is returned stands in the directory under it.
  rename_record-named :
      (d : Dir) (id : AgentId) (session : Agent) (name : Text)
      → load id d ≡ ok (some session)
      → Gives d (rename_record core id session name) (λ r e. Holds id r.0 e × (r.0.name ≡ name))
  unfolding rename_record
  rename_record-named d id session name l =
      bind-Gives d _ _ _ (name_holder-Quiet core name (some id)) λ holder.
        guard-Gives d (is_none holder) (name_taken name) _ _ λ _.
          bind-Gives d _ _ _ (rename_live-Quiet core id session name) λ _.
            bind-Gives_after d _ _ (IsSaved d (record session { name = name })) _
              (save-IsSaved core d (record session { name = name }))
              (λ saved. bind-Quiet _ _ (event-Quiet core _ saved none _) (λ e w. refl))
              (λ saved. bind-Returns _ _ _ λ x.
                pure-Returns T (saved, x ∷ []) _
                  λ e s. (
                    saved-Holds d e id session _ saved l refl s,
                    ap (λ (a : Agent). a.name) s.stamped,
                  ))

  pub rename_agent-Gives :
      (d : Dir) (id : AgentId) (name : Text)
      → Gives d
          (rename_agent core id name)
          (λ b e. Holds id b e × (b.name ≡ name) × (is_valid_name name ≡ true))
  unfolding rename_agent rename_locked
  rename_agent-Gives d id name =
      bind-Gives_after d (rename_locked core id name) _
        (λ r e. Holds id r.0 e × (r.0.name ≡ name) × (is_valid_name name ≡ true)) _
        (guard-Gives d (is_valid_name name) (invalid_name name) _ _ λ valid.
          bind-Gives d _ _ _ (hold_create_lock-Quiet core) λ _.
            bind-Gives d _ _ _ (hold_agent_lock-Quiet core id) λ _.
              get_agent-Gives core d id _ _ λ session l.
                if-Gives d (text_eq session.name name) _ _ _
                  (λ same.
                    pure-Gives T d (session, []) _
                      (l, (text_eq_iff session.name name).0 same, valid))
                  (λ _.
                    weaken-Gives d _ _ _ (λ r e h. (h.0, h.1, valid))
                      (rename_record-named d id session name l)))
        (λ r. bind-Quiet (emit r.1) _ (λ w. refl) (λ _ w. refl))
        (λ r. bind-Returns _ _ _ λ _. pure-Returns T r.0 _ (λ e h. h))

  -- The tags are the given ones and the record that is returned stands in the directory.
  pub set_agent_tags-Gives :
      (d : Dir) (id : AgentId) (tags : List Text)
      → Gives d (set_agent_tags core id tags) (λ b e. Holds id b e × (b.tags ≡ tags))
  unfolding set_agent_tags
  set_agent_tags-Gives d id tags = bind-Gives d _ _ _ (hold_agent_lock-Quiet core id) λ _.
      get_agent-Gives core d id _ _ λ session l.
        bind-Gives_after d _ _ (IsSaved d (record session { tags = tags })) _
          (save-IsSaved core d (record session { tags = tags }))
          (λ saved.
            bind-Quiet _ _ (event-Quiet core _ saved none _)
              λ e. bind-Quiet (emit (e ∷ [])) _ (λ w. refl) (λ _ w. refl))
          (λ saved. bind-Returns _ _ _ λ x. bind-Returns _ _ _ λ _. pure-Returns T saved _ λ e s.
            (saved-Holds d e id session _ saved l refl s, ap (λ (a : Agent). a.tags) s.stamped))

  write_ext-Updated :
      (d : Dir) (id : AgentId) (session : Agent) (plugin : Text) (f : Value → Value)
      → load id d ≡ ok (some session)
      → Gives d
          (write_ext core plugin session
            (ext_or_null (ext_get plugin session.ext))
            (f (ext_or_null (ext_get plugin session.ext))))
          (Updated d id plugin f)
  unfolding write_ext
  write_ext-Updated d id session plugin f l =
      let before = ext_or_null (ext_get plugin session.ext) in
      if-Gives d (value_eq (f before) before) _ _ _
        (λ same. pure-Gives T d false _ (session, l, refl, (value_eq_iff (f before) before).0 same))
        λ changed.
          bind-Gives_after d _ _ (IsSaved d (with_ext plugin (f before) session)) _
            (save-IsSaved core d (with_ext plugin (f before) session)) (λ saved w. refl)
            (λ saved. pure-Returns T true _ λ e s.
              let ext : saved.ext ≡ (with_ext plugin (f before) session).ext =
                ap (λ (a : Agent). a.ext) s.stamped in
              (
                session,
                saved,
                l,
                saved-Holds d e id session _ saved l (with_ext-id plugin (f before) session) s,
                saved-IsExtEdit plugin (f before) session saved s.at s.stamped,
                (λ key.
                    ap (λ m. ext_or_null (ext_get key m)) ext
                    ∙ with_ext-lookup plugin key (f before) session),
                value_neq (f before) before changed,
              ))

  pub update_ext-Gives :
      (d : Dir) (id : AgentId) (plugin : Text) (f : Value → Value)
      → Gives d (update_ext core id plugin f) (Updated d id plugin f)
  unfolding update_ext
  update_ext-Gives d id plugin f =
      bind-Gives d _ _ _ (hold_agent_lock-Quiet core id)
        λ _. get_agent-Gives core d id _ _ λ session l. write_ext-Updated d id session plugin f l
