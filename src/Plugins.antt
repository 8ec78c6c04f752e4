-- ===== src/Plugins.antt =====
-- The plugin host (tx-core/src/plugin.rs): the registry that a plugin fills, the manifest, and what
-- the core keeps of it. What a plugin registers is its own code, a field of the manifest's entries; the
-- types of sinks, of verbs and of the configuration are parameters.
pub mod Plug
pub mod Preview
pub mod Unique
use tx_ide_rs.Prelude.{
  ℕ, Bool, true, false, not, ◌&&◌, ◌||◌, List, [], ◌∷◌, ◌++◌, Option, none, some, Text, text_eq,
  contains, starts_with, leb, ◌==◌, if◌then◌else◌, all, any, filter, codes, map,
}
use tx_ide_rs.Json.{Value, null}
use tx_ide_rs.Result.{Res, ok, err, CoreError}
use tx_ide_rs.Store.{text_lt}
use tx_ide_rs.Engine.{LlmEngine}
use tx_ide_rs.Engine.Registry.{register}

-- `PluginError`
pub data PluginError : Type 0 where
  invalid_id duplicate_plugin unknown_plugin : Text → PluginError
  duplicate_verb : (verb first second : Text) → PluginError
  reserved_verb : (verb plugin : Text) → PluginError
  duplicate_resource invalid_resource_name : Text → PluginError
  engine_failed : (plugin : Text) → CoreError → PluginError
  register_failed : (plugin reason : Text) → PluginError

pub data PluginStatus : Type 0 where
  active disabled : PluginStatus

-- `PluginConfig`; the sets and the map are in the order of their keys.
pub record PluginConfig : Type 0 where
  pub disabled : List Text
  pub settings : List (Text × Value)
  pub reserved : List Text

pub record Resource : Type 0 where
  pub plugin : Text
  pub name : Text
  pub bytes : Text

unfoldable pub is_id_byte : ℕ → Bool
is_id_byte b = (leb b'a' b && leb b b'z') || ((leb b'0' b && leb b b'9') || b == b'-')

-- `validate_id`: whether it is `Ok`.
unfoldable pub is_valid_id : Text → Bool
unfolding is_id_byte
is_valid_id [] = false
is_valid_id (b ∷ id) = all is_id_byte (b ∷ id)

unfoldable pub is_resource_byte : ℕ → Bool
is_resource_byte b =
    (leb b'a' b && leb b b'z')
    || ((leb b'A' b && leb b b'Z')
        || ((leb b'0' b && leb b b'9') || (b == b'_' || (b == b'.' || (b == b'/' || b == b'-')))))

abbrev pub onto_segment : ℕ → List Text → List Text
onto_segment b [] = (b ∷ []) ∷ []
onto_segment b (s ∷ segments) = (b ∷ s) ∷ segments

-- `split('/')`
unfoldable pub segments : Text → List Text
segments [] = [] ∷ []
segments (b ∷ name) =
    let rest = segments name in if b == b'/' then [] ∷ rest else onto_segment b rest

-- `validate_resource_name`: whether it is `Ok`.
unfoldable pub is_valid_resource : Text → Bool
unfolding is_resource_byte segments text_eq
is_valid_resource [] = false
is_valid_resource (b ∷ name) =
    not (b == b'/')
    && (all is_resource_byte (b ∷ name)
        && all (λ (s : Text). not (text_eq s (codes ".."))) (segments (b ∷ name)))

-- `BTreeMap`: `get`, `contains_key`, `insert`, `into_values`.
module _ {A : Type 0} where
  unfoldable pub get_key : Text → List (Text × A) → Option A
  get_key k [] = none
  get_key k ((j, a) ∷ m) = if text_eq j k then some a else get_key k m

  unfoldable pub insert_key : Text → A → List (Text × A) → List (Text × A)
  unfolding text_lt
  insert_key k a [] = (k, a) ∷ []
  insert_key k a ((j, b) ∷ m) =
      let later = insert_key k a m in
      if text_eq j k
      then (k, a) ∷ m
      else (if text_lt k j then (k, a) ∷ (j, b) ∷ m else (j, b) ∷ later)

  abbrev pub or_value : A → Option A → A
  or_value default none = default
  or_value default (some a) = a

-- `Registry`
pub record Registry (T S V C : Type 0) : Type 0 where
  pub engines : List (LlmEngine T)
  pub sinks : List S
  pub verbs : List V
  pub resources : List (Text × Text)
  pub settings : Value
  pub config : C

-- An entry of the manifest.
pub record Plugin (T S V C : Type 0) : Type 0 where
  pub id : Text
  pub fill : Registry T S V C → Res PluginError (Registry T S V C)

-- `Host`, with the fields of the core that plugins reach.
pub record Host (T S V : Type 0) : Type 0 where
  pub engines : List (LlmEngine T)
  pub sinks : List S
  pub verbs : List (Text × (Text × V))
  pub resources : List Resource
  pub status : List (Text × PluginStatus)

-- `Loaded`
pub record Loaded (T S V C : Type 0) : Type 0 where
  pub id : Text
  pub registry : Option (Registry T S V C)

abbrev pub if_new : Text → Option Text → Res PluginError (Unit {0})
if_new name none = ok tt
if_new name (some bytes) = err (duplicate_resource name)

-- A step that may fail, where what it has done stays done.
abbrev pub and_then :
    {H : Type 0}
    → Res PluginError (Unit {0}) × H
    → (H → Res PluginError (Unit {0}) × H)
    → Res PluginError (Unit {0}) × H
and_then (ok u, h) f = f h
and_then (err e, h) f = (err e, h)

abbrev pub first_unknown : List Text → List Text → Option Text
first_unknown ids [] = none
first_unknown ids (id ∷ named) = if contains ids id then first_unknown ids named else some id

module _ {T S V C : Type 0} where
  unfoldable pub add_engine : LlmEngine T → Registry T S V C → Registry T S V C
  add_engine e r = record r { engines = r.engines ++ e ∷ [] }

  unfoldable pub add_sink : S → Registry T S V C → Registry T S V C
  add_sink s r = record r { sinks = r.sinks ++ s ∷ [] }

  unfoldable pub add_verb : V → Registry T S V C → Registry T S V C
  add_verb v r = record r { verbs = r.verbs ++ v ∷ [] }

  -- `Registry::resource`
  unfoldable pub add_resource :
      Text → Text → Registry T S V C → Res PluginError (Unit {0}) × Registry T S V C
  unfolding is_valid_resource get_key insert_key
  add_resource name bytes r =
      if is_valid_resource name
      then (
        if_new name (get_key name r.resources),
        record r { resources = insert_key name bytes r.resources },
      )
      else (err (invalid_resource_name name), r)

  abbrev pub empty_registry : Value → C → Registry T S V C
  empty_registry settings config = record {
    engines = [];
    sinks = [];
    verbs = [];
    resources = [];
    settings = settings;
    config = config;
  }

  abbrev pub push_loaded :
      Text
      → Option (Registry T S V C)
      → Res PluginError (List (Loaded T S V C))
      → Res PluginError (List (Loaded T S V C))
  push_loaded id registry (ok loaded) = ok (record { id = id; registry = registry } ∷ loaded)
  push_loaded id registry (err e) = err e

  abbrev pub after_fill :
      Text
      → Res PluginError (Registry T S V C)
      → Res PluginError (List (Loaded T S V C))
      → Res PluginError (List (Loaded T S V C))
  after_fill id (ok registry) rest = push_loaded id (some registry) rest
  after_fill id (err e) rest = err e

  unfoldable pub load_each :
      PluginConfig → C → List Text → List (Plugin T S V C) → Res PluginError (List (Loaded T S V C))
  unfolding is_valid_id get_key contains
  load_each cfg config seen [] = ok []
  load_each cfg config seen (p ∷ ps) =
      let rest = load_each cfg config (p.id ∷ seen) ps in
      if not (is_valid_id p.id)
      then err (invalid_id p.id)
      else (if contains seen p.id
          then err (duplicate_plugin p.id)
          else (if contains cfg.disabled p.id
              then push_loaded p.id none rest
              else after_fill p.id
                  (p.fill (empty_registry (or_value null (get_key p.id cfg.settings)) config))
                  rest))

  abbrev pub if_known :
      Option Text
      → Res PluginError (List (Loaded T S V C))
      → Res PluginError (List (Loaded T S V C))
  if_known none loaded = loaded
  if_known (some id) loaded = err (unknown_plugin id)

  -- `load`
  unfoldable pub load :
      List (Plugin T S V C) → PluginConfig → C → Res PluginError (List (Loaded T S V C))
  unfolding load_each contains
  load ps cfg config =
      if_known
        (first_unknown (map (λ (p : Plugin T S V C). p.id) ps)
          (cfg.disabled ++ map (λ (e : Text × Value). e.0) cfg.settings))
        (load_each cfg config [] ps)
