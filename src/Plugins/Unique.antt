-- ===== src/Plugins/Unique.antt =====
-- What the core holds of its plugins is named once, whether plugging succeeds or fails.
use tx_ide_rs.Prelude.{
  ◌≡◌, refl, Bool, true, false, List, [], ◌∷◌, ◌++◌, Option, none, some, Text, text_eq, text_eq_iff,
  contains, any, if◌then◌else◌, All, All-append, Bool-cases, inl, inr, arith,
}
use tx_ide_rs.Store.{text_lt}
use tx_ide_rs.Result.{Res, ok, err, CoreError}
use tx_ide_rs.Engine.{LlmEngine}
use tx_ide_rs.Engine.Registry.{register, IsRegistry, register-IsRegistry}
use tx_ide_rs.Plugins.{
  PluginError, PluginConfig, Resource, Registry, Plugin, Host, Loaded, and_then, load, active,
  get_key, insert_key,
}
use tx_ide_rs.Plugins.Plug.{
  insert_new, insert_verb, insert_verbs, engine_added, register_engines, publish, publish_each,
  set_verbs, push_status, subscribe_each, plug_one, plug_each, plug_loaded, plug,
}

text_eq-false_sym : (a b : Text) → text_eq a b ≡ false → text_eq b a ≡ false
text_eq-false_sym a b h = ground (arith, text_eq_iff a b, text_eq_iff b a)

if-both : {B : Type 0} (P : B → Type 0) (t : Bool) (x y : B) → P x → P y → P (if t then x else y)
if-both P true x y h h' = h
if-both P false x y h h' = h'

module _ {A : Type 0} where
  -- No key stands twice.
  unfoldable pub DistinctKeys : List (Text × A) → Type 0
  DistinctKeys [] = Unit
  DistinctKeys ((k, a) ∷ m) = All (λ (e : Text × A). text_eq k e.0 ≡ false) m × DistinctKeys m

  get_key-missing :
      (k : Text) (m : List (Text × A))
      → get_key k m ≡ none
      → All (λ (e : Text × A). text_eq e.0 k ≡ false) m
  unfolding get_key
  get_key-missing k [] h = tt
  get_key-missing k ((j, a) ∷ m) h = elim (Bool-cases (text_eq j k)) [
    | inl same ↦ (let found : ◌≡◌ {A = Option A} (some a) none = rw same at h in cc)
    | inr other ↦ (other, get_key-missing k m (rw other at h))
  ]

  insert_key-All :
      (P : Text × A → Type 0) (k : Text) (a : A) (m : List (Text × A))
      → P (k, a)
      → All P m
      → All P (insert_key k a m)
  unfolding insert_key
  insert_key-All P k a [] p h = (p, tt)
  insert_key-All P k a ((j, b) ∷ m) p h =
      if-both (All P) (text_eq j k) _ _ (p, h.1)
        (if-both (All P) (text_lt k j) _ _ (p, h) (h.0, insert_key-All P k a m p h.1))

  All-from_missing :
      (k : Text) (m : List (Text × A))
      → All (λ (e : Text × A). text_eq e.0 k ≡ false) m
      → All (λ (e : Text × A). text_eq k e.0 ≡ false) m
  All-from_missing k [] h = tt
  All-from_missing k (e ∷ m) h = (text_eq-false_sym e.0 k h.0, All-from_missing k m h.1)

  insert_key-DistinctKeys :
      (k : Text) (a : A) (m : List (Text × A))
      → All (λ (e : Text × A). text_eq e.0 k ≡ false) m
      → DistinctKeys m
      → DistinctKeys (insert_key k a m)
  unfolding insert_key DistinctKeys
  insert_key-DistinctKeys k a [] new d = (tt, tt)
  insert_key-DistinctKeys k a ((j, b) ∷ m) new d =
      if-both DistinctKeys (text_eq j k) _ _ (All-from_missing k m new.1, d.1)
        (if-both DistinctKeys (text_lt k j) _ _
          ((text_eq-false_sym j k new.0, All-from_missing k m new.1), d)
          (
            insert_key-All (λ (e : Text × A). text_eq j e.0 ≡ false) k a m new.0 d.0,
            insert_key-DistinctKeys k a m new.1 d.1,
          ))

-- No name is published twice.
unfoldable pub DistinctNames : List Resource → Type 0
DistinctNames [] = Unit
DistinctNames (r ∷ rs) = All (λ (s : Resource). text_eq r.name s.name ≡ false) rs × DistinctNames rs

any-missing :
    (name : Text) (rs : List Resource)
    → any (λ (r : Resource). text_eq r.name name) rs ≡ false
    → All (λ (r : Resource). text_eq r.name name ≡ false) rs
any-missing name [] h = tt
any-missing name (r ∷ rs) h = elim (Bool-cases (text_eq r.name name)) [
  | inl same ↦ (let found : ◌≡◌ {A = Bool} true false = rw same at h in cc)
  | inr other ↦ (other, any-missing name rs (rw other at h))
]

push-DistinctNames :
    (x : Resource) (rs : List Resource)
    → All (λ (r : Resource). text_eq r.name x.name ≡ false) rs
    → DistinctNames rs
    → DistinctNames (rs ++ x ∷ [])
unfolding DistinctNames
push-DistinctNames x [] new d = (tt, tt)
push-DistinctNames x (r ∷ rs) new d = (
  All-append (λ (s : Resource). text_eq r.name s.name ≡ false) rs (x ∷ []) d.0 (new.0, tt),
  push-DistinctNames x rs new.1 d.1,
)

-- What each of two steps keeps, also when it fails, both keep.
and_then-Keeps :
    {H : Type 0} (P : H → Type 0) (m : Res PluginError (Unit {0}) × H)
    (f : H → Res PluginError (Unit {0}) × H)
    → P m.1
    → ((g : H) → P g → P (f g).1)
    → P (and_then m f).1
and_then-Keeps P (ok u, g) f h k = k g h
and_then-Keeps P (err e, g) f h k = h

-- The verbs are named once and none has a name of the front end's.
pub record IsTable {V : Type 0} (cfg : PluginConfig) (table : List (Text × (Text × V)))
    : Type 0 where
  pub unreserved : All (λ (e : Text × (Text × V)). contains cfg.reserved e.0 ≡ false) table
  pub distinct : DistinctKeys table

module _ {V : Type 0} (cfg : PluginConfig) (verb_name : V → Text) where
  insert_new-IsTable :
      (plugin : Text) (v : V) (table : List (Text × (Text × V))) (o : Option (Text × V))
      → get_key (verb_name v) table ≡ o
      → contains cfg.reserved (verb_name v) ≡ false
      → IsTable cfg table
      → IsTable cfg (insert_new verb_name plugin v table o).1
  insert_new-IsTable plugin v table (some first) found free k = k
  insert_new-IsTable plugin v table none missing free k = record {
    unreserved =
        insert_key-All (λ e. contains cfg.reserved e.0 ≡ false) (verb_name v) (plugin, v) table free
          k.unreserved;
    distinct =
        insert_key-DistinctKeys (verb_name v) (plugin, v) table
          (get_key-missing (verb_name v) table missing) k.distinct;
  }

  if-IsTable :
      (t : Bool) (x y : Res PluginError (Unit {0}) × List (Text × (Text × V)))
      → IsTable cfg x.1
      → (t ≡ false → IsTable cfg y.1)
      → IsTable cfg (if t then x else y).1
  if-IsTable true x y h h' = h
  if-IsTable false x y h h' = h' refl

  insert_verb-IsTable :
      (plugin : Text) (v : V) (table : List (Text × (Text × V)))
      → IsTable cfg table
      → IsTable cfg (insert_verb verb_name cfg plugin v table).1
  unfolding insert_verb
  insert_verb-IsTable plugin v table k =
      if-IsTable (contains cfg.reserved (verb_name v)) _ _ k
        λ free. insert_new-IsTable plugin v table _ refl free k

  insert_verbs-IsTable :
      (plugin : Text) (vs : List V) (table : List (Text × (Text × V)))
      → IsTable cfg table
      → IsTable cfg (insert_verbs verb_name cfg plugin vs table).1
  unfolding insert_verbs
  insert_verbs-IsTable plugin [] table k = k
  insert_verbs-IsTable plugin (v ∷ vs) table k =
      and_then-Keeps (IsTable cfg) _ (insert_verbs verb_name cfg plugin vs)
        (insert_verb-IsTable plugin v table k) (insert_verbs-IsTable plugin vs)

module _ {T S V : Type 0} (cfg : PluginConfig) where
  -- The engines are in order with distinct kinds and keys, the verbs are a table, and no resource is
  -- published twice.
  pub record IsHost (h : Host T S V) : Type 0 where
    pub engines : IsRegistry h.engines
    pub verbs : IsTable cfg h.verbs
    pub resources : DistinctNames h.resources

  engine_added-IsHost :
      (id : Text) (e : LlmEngine T) (h : Host T S V) (r : Res CoreError (List (LlmEngine T)))
      → register e h.engines ≡ r
      → IsHost h
      → IsHost (engine_added id h r).1
  engine_added-IsHost id e h (ok engines) found k = record {
    engines = register-IsRegistry e h.engines engines k.engines found;
    verbs = k.verbs;
    resources = k.resources;
  }
  engine_added-IsHost id e h (err x) found k = k

  register_engines-IsHost :
      (id : Text) (es : List (LlmEngine T)) (h : Host T S V)
      → IsHost h
      → IsHost (register_engines id es h).1
  unfolding register_engines
  register_engines-IsHost id [] h k = k
  register_engines-IsHost id (e ∷ es) h k =
      and_then-Keeps IsHost _ (register_engines id es) (engine_added-IsHost id e h _ refl k)
        (register_engines-IsHost id es)

  publish-IsHost :
      (id : Text) (r : Text × Text) (h : Host T S V) → IsHost h → IsHost (publish id r h).1
  unfolding publish
  publish-IsHost id (name, bytes) h k =
      elim (Bool-cases (any (λ (r : Resource). text_eq r.name name) h.resources)) [
        | inl taken ↦ rw taken k
        | inr new ↦ rw new (record {
          engines = k.engines;
          verbs = k.verbs;
          resources =
              push-DistinctNames _ h.resources (any-missing name h.resources new) k.resources;
        })
      ]

  publish_each-IsHost :
      (id : Text) (rs : List (Text × Text)) (h : Host T S V)
      → IsHost h
      → IsHost (publish_each id rs h).1
  unfolding publish_each
  publish_each-IsHost id [] h k = k
  publish_each-IsHost id (r ∷ rs) h k =
      and_then-Keeps IsHost _ (publish_each id rs) (publish-IsHost id r h k)
        (publish_each-IsHost id rs)

  set_verbs-IsHost :
      (h : Host T S V) (m : Res PluginError (Unit {0}) × List (Text × (Text × V)))
      → IsHost h
      → IsTable cfg m.1
      → IsHost (set_verbs h m).1
  set_verbs-IsHost h m k table = record {
    engines = k.engines;
    verbs = table;
    resources = k.resources;
  }

module _ {T S V C : Type 0} (cfg : PluginConfig) (verb_name : V → Text) where
  plug_one-IsHost :
      (id : Text) (r : Option (Registry T S V C)) (h : Host T S V)
      → IsHost cfg h
      → IsHost cfg (plug_one verb_name cfg id r h).1
  plug_one-IsHost id none h k = record {
    engines = k.engines;
    verbs = k.verbs;
    resources = k.resources;
  }
  plug_one-IsHost id (some r) h k =
      let verbs = λ (h1 : Host T S V).
        set_verbs (subscribe_each r.sinks h1) (insert_verbs verb_name cfg id r.verbs h1.verbs) in
      let publishes =
        λ (h2 : Host T S V). and_then (publish_each id r.resources h2) (push_status id active) in
      and_then-Keeps (IsHost cfg) (register_engines id r.engines h)
        (λ h1. and_then (verbs h1) publishes) (register_engines-IsHost cfg id r.engines h k)
        λ h1 k1.
          and_then-Keeps (IsHost cfg) (verbs h1) publishes
            (set_verbs-IsHost cfg (subscribe_each r.sinks h1)
              (insert_verbs verb_name cfg id r.verbs h1.verbs)
              (record { engines = k1.engines; verbs = k1.verbs; resources = k1.resources })
              (insert_verbs-IsTable cfg verb_name id r.verbs h1.verbs k1.verbs))
            λ h2 k2.
              and_then-Keeps (IsHost cfg) (publish_each id r.resources h2) (push_status id active)
                (publish_each-IsHost cfg id r.resources h2 k2)
                λ h3 k3. record { engines = k3.engines; verbs = k3.verbs; resources = k3.resources }

  plug_each-IsHost :
      (ls : List (Loaded T S V C)) (h : Host T S V)
      → IsHost cfg h
      → IsHost cfg (plug_each verb_name cfg ls h).1
  unfolding plug_each
  plug_each-IsHost [] h k = k
  plug_each-IsHost (l ∷ ls) h k =
      and_then-Keeps (IsHost cfg) (plug_one verb_name cfg l.id l.registry h)
        (plug_each verb_name cfg ls) (plug_one-IsHost l.id l.registry h k) (plug_each-IsHost ls)

  plug_loaded-IsHost :
      (l : Res PluginError (List (Loaded T S V C))) (h : Host T S V)
      → IsHost cfg h
      → IsHost cfg (plug_loaded verb_name cfg h l).1
  plug_loaded-IsHost (err e) h k = k
  plug_loaded-IsHost (ok ls) h k = plug_each-IsHost ls h k

  -- Plugging any manifest, whether it succeeds or fails halfway, keeps what the core holds: each engine
  -- kind and extension key once, each verb name once and none of the front end's, each resource name
  -- once.
  pub plug-IsHost :
      (ps : List (Plugin T S V C)) (config : C) (h : Host T S V)
      → IsHost cfg h
      → IsHost cfg (plug verb_name ps cfg config h).1
  unfolding plug
  plug-IsHost ps config h k = plug_loaded-IsHost (load ps cfg config) h k
