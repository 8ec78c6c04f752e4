-- ===== src/Plugins/Plug.antt =====
-- Plugging the manifest into the core (tx-core/src/plugin.rs): `preview_verbs`, `TxCore::plug` and what
-- the core then lists.
use tx_ide_rs.Prelude.{
  not, List, [], ◌∷◌, ◌++◌, Option, none, some, Text, text_eq, contains, starts_with, if◌then◌else◌,
  any, filter, map,
}
use tx_ide_rs.Result.{Res, ok, err, CoreError}
use tx_ide_rs.Engine.{LlmEngine}
use tx_ide_rs.Engine.Registry.{register}
use tx_ide_rs.Plugins.{
  PluginError, duplicate_verb, reserved_verb, duplicate_resource, engine_failed, PluginStatus,
  active, disabled, PluginConfig, Resource, get_key, insert_key, Registry, Plugin, Host, Loaded,
  and_then, load,
}

module _ {V : Type 0} where
  abbrev pub verbs_of : List (Text × (Text × V)) → List V
  verbs_of table = map (λ (e : Text × (Text × V)). e.1.1) table

  abbrev pub table_verbs :
      Res PluginError (Unit {0}) × List (Text × (Text × V)) → Res PluginError (List V)
  table_verbs (ok u, table) = ok (verbs_of table)
  table_verbs (err e, table) = err e

  abbrev pub verb_of : Option (Text × V) → Option V
  verb_of none = none
  verb_of (some e) = some e.1

module _ {V : Type 0} (verb_name : V → Text) where
  abbrev pub insert_new :
      Text
      → V
      → List (Text × (Text × V))
      → Option (Text × V)
      → Res PluginError (Unit {0}) × List (Text × (Text × V))
  insert_new plugin verb table (some first) =
      (err (duplicate_verb (verb_name verb) first.0 plugin), table)
  insert_new plugin verb table none = (ok tt, insert_key (verb_name verb) (plugin, verb) table)

  unfoldable pub insert_verb :
      PluginConfig
      → Text
      → V
      → List (Text × (Text × V))
      → Res PluginError (Unit {0}) × List (Text × (Text × V))
  unfolding get_key insert_key contains
  insert_verb cfg plugin verb table =
      if contains cfg.reserved (verb_name verb)
      then (err (reserved_verb (verb_name verb) plugin), table)
      else insert_new plugin verb table (get_key (verb_name verb) table)

  unfoldable pub insert_verbs :
      PluginConfig
      → Text
      → List V
      → List (Text × (Text × V))
      → Res PluginError (Unit {0}) × List (Text × (Text × V))
  unfolding insert_verb
  insert_verbs cfg plugin [] table = (ok tt, table)
  insert_verbs cfg plugin (v ∷ vs) table =
      and_then (insert_verb cfg plugin v table) (insert_verbs cfg plugin vs)

module _ {T S V : Type 0} where
  abbrev pub engine_added :
      Text
      → Host T S V
      → Res CoreError (List (LlmEngine T))
      → Res PluginError (Unit {0}) × Host T S V
  engine_added id h (ok engines) = (ok tt, record h { engines = engines })
  engine_added id h (err e) = (err (engine_failed id e), h)

  unfoldable pub register_engines :
      Text → List (LlmEngine T) → Host T S V → Res PluginError (Unit {0}) × Host T S V
  unfolding register
  register_engines id [] h = (ok tt, h)
  register_engines id (e ∷ es) h =
      and_then (engine_added id h (register e h.engines)) (register_engines id es)

  unfoldable pub publish : Text → Text × Text → Host T S V → Res PluginError (Unit {0}) × Host T S V
  unfolding text_eq
  publish id (name, bytes) h =
      if any (λ (r : Resource). text_eq r.name name) h.resources
      then (err (duplicate_resource name), h)
      else (
        ok tt,
        record h {
          resources = h.resources ++ record { plugin = id; name = name; bytes = bytes } ∷ [];
        },
      )

  unfoldable pub publish_each :
      Text → List (Text × Text) → Host T S V → Res PluginError (Unit {0}) × Host T S V
  unfolding publish
  publish_each id [] h = (ok tt, h)
  publish_each id (r ∷ rs) h = and_then (publish id r h) (publish_each id rs)

  abbrev pub set_verbs :
      Host T S V
      → Res PluginError (Unit {0}) × List (Text × (Text × V))
      → Res PluginError (Unit {0}) × Host T S V
  set_verbs h (r, table) = (r, record h { verbs = table })

  abbrev pub push_status :
      Text → PluginStatus → Host T S V → Res PluginError (Unit {0}) × Host T S V
  push_status id status h = (ok tt, record h { status = h.status ++ (id, status) ∷ [] })

  abbrev pub subscribe_each : List S → Host T S V → Host T S V
  subscribe_each sinks h = record h { sinks = h.sinks ++ sinks }

  -- `TxCore::verb`
  unfoldable pub verb : Text → Host T S V → Option V
  unfolding get_key
  verb name h = verb_of (get_key name h.verbs)

  unfoldable pub resources_under : Text → Host T S V → List Resource
  unfolding starts_with
  resources_under prefix h = filter (λ (r : Resource). starts_with r.name prefix) h.resources

  -- `TxCore::plugin_resources`, of the id under which the core's own roles are published.
  unfoldable pub plugin_resources : Text → Text → Host T S V → List Resource
  unfolding resources_under text_eq
  plugin_resources own prefix h =
      filter (λ (r : Resource). not (text_eq r.plugin own)) (resources_under prefix h)

  -- `Host::with_shipped_roles`, of the roles that the build includes.
  unfoldable pub with_shipped_roles : Text → List (Text × Text) → Host T S V
  with_shipped_roles own shipped = record {
    engines = [];
    sinks = [];
    verbs = [];
    resources = map (λ (r : Text × Text). record { plugin = own; name = r.0; bytes = r.1 }) shipped;
    status = [];
  }

module _ {T S V C : Type 0} (verb_name : V → Text) where
  abbrev pub preview_one :
      PluginConfig
      → Text
      → Option (Registry T S V C)
      → List (Text × (Text × V))
      → Res PluginError (Unit {0}) × List (Text × (Text × V))
  preview_one cfg id none table = (ok tt, table)
  preview_one cfg id (some r) table = insert_verbs verb_name cfg id r.verbs table

  unfoldable pub preview_each :
      PluginConfig
      → List (Loaded T S V C)
      → List (Text × (Text × V))
      → Res PluginError (Unit {0}) × List (Text × (Text × V))
  unfolding insert_verbs
  preview_each cfg [] table = (ok tt, table)
  preview_each cfg (l ∷ ls) table =
      and_then (preview_one cfg l.id l.registry table) (preview_each cfg ls)

  abbrev pub preview_loaded :
      PluginConfig → Res PluginError (List (Loaded T S V C)) → Res PluginError (List V)
  preview_loaded cfg (err e) = err e
  preview_loaded cfg (ok ls) = table_verbs (preview_each cfg ls [])

  unfoldable pub preview_verbs : List (Plugin T S V C) → PluginConfig → C → Res PluginError (List V)
  unfolding load preview_each
  preview_verbs ps cfg config = preview_loaded cfg (load ps cfg config)

  abbrev pub plug_one :
      PluginConfig
      → Text
      → Option (Registry T S V C)
      → Host T S V
      → Res PluginError (Unit {0}) × Host T S V
  plug_one cfg id none h = push_status id disabled h
  plug_one cfg id (some r) h = and_then (register_engines id r.engines h) λ h1.
      and_then
        (set_verbs (subscribe_each r.sinks h1) (insert_verbs verb_name cfg id r.verbs h1.verbs))
        λ h2. and_then (publish_each id r.resources h2) (push_status id active)

  unfoldable pub plug_each :
      PluginConfig → List (Loaded T S V C) → Host T S V → Res PluginError (Unit {0}) × Host T S V
  unfolding register_engines insert_verbs publish_each
  plug_each cfg [] h = (ok tt, h)
  plug_each cfg (l ∷ ls) h = and_then (plug_one cfg l.id l.registry h) (plug_each cfg ls)

  abbrev pub plug_loaded :
      PluginConfig
      → Host T S V
      → Res PluginError (List (Loaded T S V C))
      → Res PluginError (Unit {0}) × Host T S V
  plug_loaded cfg h (err e) = (err e, h)
  plug_loaded cfg h (ok ls) = plug_each cfg ls h

  -- `TxCore::plug`
  unfoldable pub plug :
      List (Plugin T S V C)
      → PluginConfig
      → C
      → Host T S V
      → Res PluginError (Unit {0}) × Host T S V
  unfolding load plug_each
  plug ps cfg config h = plug_loaded cfg h (load ps cfg config)
