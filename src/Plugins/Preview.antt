-- ===== src/Plugins/Preview.antt =====
-- What `preview_verbs` lists is what the core has after plugging the same manifest.
use tx_ide_rs.Prelude.{
  ◌≡◌, refl, sym, ap, ◌∙◌, Bool, true, false, if◌then◌else◌, any, text_eq, List, [], ◌∷◌, Option,
  none, some, Text,
}
use tx_ide_rs.Result.{Res, ok, err, CoreError}
use tx_ide_rs.Engine.{LlmEngine}
use tx_ide_rs.Engine.Registry.{register}
use tx_ide_rs.Plugins.{
  PluginError, PluginConfig, Resource, Registry, Plugin, Host, Loaded, and_then, load, active,
}
use tx_ide_rs.Plugins.Plug.{
  verbs_of, table_verbs, insert_verbs, preview_one, preview_each, preview_loaded, preview_verbs,
  engine_added, register_engines, publish, publish_each, set_verbs, push_status, subscribe_each,
  plug_one, plug_each, plug_loaded, plug,
}

and_then-ok :
    {H : Type 0} (m : Res PluginError (Unit {0}) × H) (f : H → Res PluginError (Unit {0}) × H)
    (h : H)
    → and_then m f ≡ (ok tt, h)
    → (g : H) × (m ≡ (ok tt, g)) × (f g ≡ (ok tt, h))
and_then-ok (ok u, g) f h e = (g, refl, e)
and_then-ok (err x, g) f h e = cc

module _ {T S V : Type 0} where
  engine_added-verbs :
      (id : Text) (h : Host T S V) (r : Res CoreError (List (LlmEngine T)))
      → (engine_added id h r).1.verbs ≡ h.verbs
  engine_added-verbs id h (ok engines) = refl
  engine_added-verbs id h (err e) = refl

  register_engines-verbs :
      (id : Text) (es : List (LlmEngine T)) (h g : Host T S V)
      → register_engines id es h ≡ (ok tt, g)
      → g.verbs ≡ h.verbs
  unfolding register_engines
  register_engines-verbs id [] h g e =
      ap (λ (r : Res PluginError (Unit {0}) × Host T S V). r.1.verbs) (sym e)
  register_engines-verbs id (x ∷ es) h g e =
      let (mid, first, rest) =
        and_then-ok (engine_added id h (register x h.engines)) (register_engines id es) g e in
      register_engines-verbs id es mid g rest
      ∙ ap (λ (r : Res PluginError (Unit {0}) × Host T S V). r.1.verbs) (sym first)
      ∙ engine_added-verbs id h (register x h.engines)

  if-verbs :
      (t : Bool) (x y : Res PluginError (Unit {0}) × Host T S V) (table : List (Text × (Text × V)))
      → x.1.verbs ≡ table
      → y.1.verbs ≡ table
      → (if t then x else y).1.verbs ≡ table
  if-verbs true x y table e e' = e
  if-verbs false x y table e e' = e'

  publish-verbs :
      (id : Text) (r : Text × Text) (h : Host T S V) → (publish id r h).1.verbs ≡ h.verbs
  unfolding publish
  publish-verbs id (name, bytes) h =
      if-verbs (any (λ (r : Resource). text_eq r.name name) h.resources) _ _ h.verbs refl refl

  publish_each-verbs :
      (id : Text) (rs : List (Text × Text)) (h g : Host T S V)
      → publish_each id rs h ≡ (ok tt, g)
      → g.verbs ≡ h.verbs
  unfolding publish_each
  publish_each-verbs id [] h g e =
      ap (λ (r : Res PluginError (Unit {0}) × Host T S V). r.1.verbs) (sym e)
  publish_each-verbs id (x ∷ rs) h g e =
      let (mid, first, rest) = and_then-ok (publish id x h) (publish_each id rs) g e in
      publish_each-verbs id rs mid g rest
      ∙ ap (λ (r : Res PluginError (Unit {0}) × Host T S V). r.1.verbs) (sym first)
      ∙ publish-verbs id x h

  set_verbs-ok :
      (h g : Host T S V) (m : Res PluginError (Unit {0}) × List (Text × (Text × V)))
      → set_verbs h m ≡ (ok tt, g)
      → m ≡ (ok tt, g.verbs)
  set_verbs-ok h g (ok u, table) e =
      ap (λ (t : List (Text × (Text × V))). (ok tt, t))
        (ap (λ (r : Res PluginError (Unit {0}) × Host T S V). r.1.verbs) e)
  set_verbs-ok h g (err x, table) e = cc

module _ {T S V C : Type 0} (verb_name : V → Text) where
  plug_one-preview :
      (cfg : PluginConfig) (id : Text) (r : Option (Registry T S V C)) (h g : Host T S V)
      → plug_one verb_name cfg id r h ≡ (ok tt, g)
      → preview_one verb_name cfg id r h.verbs ≡ (ok tt, g.verbs)
  plug_one-preview cfg id none h g e =
      ap (λ (r : Res PluginError (Unit {0}) × Host T S V). (ok tt, r.1.verbs)) e
  plug_one-preview cfg id (some r) h g e =
      let sinks = λ (h1 : Host T S V).
        set_verbs (subscribe_each r.sinks h1) (insert_verbs verb_name cfg id r.verbs h1.verbs) in
      let publishes =
        λ (h2 : Host T S V). and_then (publish_each id r.resources h2) (push_status id active) in
      let (h1, engines, rest) =
        and_then-ok (register_engines id r.engines h) (λ h1. and_then (sinks h1) publishes) g e in
      let (h2, verbs, more) = and_then-ok (sinks h1) publishes g rest in
      let (h3, published, last) =
        and_then-ok (publish_each id r.resources h2) (push_status id active) g more in
      let same : g.verbs ≡ h2.verbs =
        ap (λ (x : Res PluginError (Unit {0}) × Host T S V). x.1.verbs) (sym last)
        ∙ publish_each-verbs id r.resources h2 h3 published in
      ap (λ t. insert_verbs verb_name cfg id r.verbs t)
        (sym (register_engines-verbs id r.engines h h1 engines))
      ∙ set_verbs-ok (subscribe_each r.sinks h1) h2 _ verbs
      ∙ ap (λ (t : List (Text × (Text × V))). (ok tt, t)) (sym same)

  plug_each-preview :
      (cfg : PluginConfig) (ls : List (Loaded T S V C)) (h g : Host T S V)
      → plug_each verb_name cfg ls h ≡ (ok tt, g)
      → preview_each verb_name cfg ls h.verbs ≡ (ok tt, g.verbs)
  unfolding plug_each preview_each
  plug_each-preview cfg [] h g e =
      ap (λ (r : Res PluginError (Unit {0}) × Host T S V). (ok tt, r.1.verbs)) e
  plug_each-preview cfg (l ∷ ls) h g e =
      let (mid, first, rest) =
        and_then-ok (plug_one verb_name cfg l.id l.registry h) (plug_each verb_name cfg ls) g e in
      ap (λ m. and_then m (preview_each verb_name cfg ls))
        (plug_one-preview cfg l.id l.registry h mid first)
      ∙ plug_each-preview cfg ls mid g rest

  plug_loaded-preview :
      (cfg : PluginConfig) (l : Res PluginError (List (Loaded T S V C))) (h g : Host T S V)
      → h.verbs ≡ []
      → plug_loaded verb_name cfg h l ≡ (ok tt, g)
      → preview_loaded verb_name cfg l ≡ ok (verbs_of g.verbs)
  plug_loaded-preview cfg (err x) h g none_ e = cc
  plug_loaded-preview cfg (ok ls) h g none_ e =
      ap table_verbs
        (ap (λ t. preview_each verb_name cfg ls t) (sym none_) ∙ plug_each-preview cfg ls h g e)

  -- When a manifest is plugged without an error into a core that has no verbs yet, the preview of the
  -- same manifest and configuration lists the verbs that the core then has, in their order.
  pub plug-preview :
      (ps : List (Plugin T S V C)) (cfg : PluginConfig) (config : C) (h g : Host T S V)
      → h.verbs ≡ []
      → plug verb_name ps cfg config h ≡ (ok tt, g)
      → preview_verbs verb_name ps cfg config ≡ ok (verbs_of g.verbs)
  unfolding plug preview_verbs
  plug-preview ps cfg config h g none_ e = plug_loaded-preview cfg (load ps cfg config) h g none_ e
