-- ===== src/Engine/Registry.antt =====
-- `EngineRegistry`: a map from the kind to its adapter, kept in the order of the kinds.
use tx_ide_rs.Prelude.{
  ℕ, ◌≡◌, refl, inl, inr, Bool, true, false, not, ◌&&◌, ◌||◌, List, [], ◌∷◌, Option, none, some,
  arith, Text, text_eq, text_eq_iff, leb, ◌==◌, if◌then◌else◌, length, all, All, Bool-cases,
}
use tx_ide_rs.Agent.{EngineKind, claude, codex, kind_eq, kind_eq_iff}
use tx_ide_rs.Result.{Res, ok, err, CoreError, engine_taken, ext_key_taken, invalid_ext_key}
use tx_ide_rs.Engine.{LlmEngine}

is_key_byte : ℕ → Bool
is_key_byte b = (leb b'a' b && leb b b'z') || ((leb b'0' b && leb b b'9') || b == b'-')

-- `validate_ext_key`: whether it is `Ok`.
unfoldable pub validate_ext_key : Text → Bool
unfolding is_key_byte
validate_ext_key key = not (length key == 0) && all is_key_byte key

-- `Ord for EngineKind`: the order of declaration.
unfoldable pub kind_lt : EngineKind → EngineKind → Bool
kind_lt claude codex = true
kind_lt _ _ = false

kind_lt_trans : (a b c : EngineKind) → kind_lt a b ≡ true → kind_lt b c ≡ true → kind_lt a c ≡ true
unfolding kind_lt
kind_lt_trans claude codex c h k = ground arith
kind_lt_trans _ _ c h k = ground arith

kind_lt_total : (a b : EngineKind) → kind_eq b a ≡ false → kind_lt b a ≡ false → kind_lt a b ≡ true
unfolding kind_lt kind_eq
kind_lt_total claude codex h k = refl
kind_lt_total codex claude h k = ground arith
kind_lt_total claude claude h k = ground arith
kind_lt_total codex codex h k = ground arith

module _ {T : Type 0} where
  -- `EngineRegistry::get`
  unfoldable pub get_engine : EngineKind → List (LlmEngine T) → Option (LlmEngine T)
  get_engine kind [] = none
  get_engine kind (e ∷ r) = if kind_eq e.kind kind then some e else get_engine kind r

  has_kind : EngineKind → List (LlmEngine T) → Bool
  has_kind kind [] = false
  has_kind kind (e ∷ r) = if kind_eq e.kind kind then true else has_kind kind r

  has_ext_key : Text → List (LlmEngine T) → Bool
  has_ext_key key [] = false
  has_ext_key key (e ∷ r) = if text_eq e.ext_key key then true else has_ext_key key r

  insert_engine : LlmEngine T → List (LlmEngine T) → List (LlmEngine T)
  insert_engine e [] = e ∷ []
  insert_engine e (f ∷ r) = if kind_lt f.kind e.kind then f ∷ insert_engine e r else e ∷ f ∷ r

  -- `EngineRegistry::register`
  unfoldable pub register : LlmEngine T → List (LlmEngine T) → Res CoreError (List (LlmEngine T))
  unfolding insert_engine has_kind has_ext_key kind_lt
  register e r =
      if not (validate_ext_key e.ext_key)
      then err (invalid_ext_key e.ext_key)
      else if has_kind e.kind r
      then err (engine_taken e.kind)
      else if has_ext_key e.ext_key r
      then err (ext_key_taken e.ext_key)
      else ok (insert_engine e r)

  -- `EngineRegistry::kinds`
  pub kinds : List (LlmEngine T) → List EngineKind
  kinds [] = []
  kinds (e ∷ r) = e.kind ∷ kinds r

  -- Kinds strictly increase, and no engine owns the ext key of one behind it.
  abbrev pub IsRegistry : List (LlmEngine T) → Type 0
  IsRegistry [] = Unit
  IsRegistry (e ∷ r) =
      (validate_ext_key e.ext_key ≡ true)
      × All (λ f. kind_lt e.kind f.kind ≡ true) r
      × All (λ f. text_eq e.ext_key f.ext_key ≡ false) r
      × IsRegistry r

  get_engine-insert :
      (e : LlmEngine T) (kind : EngineKind) (r : List (LlmEngine T))
      → has_kind e.kind r ≡ false
      → get_engine kind (insert_engine e r)
        ≡ (if kind_eq e.kind kind then some e else get_engine kind r)
  unfolding get_engine insert_engine has_kind
  get_engine-insert e kind [] h = refl
  get_engine-insert e kind (f ∷ r) h = ground (
    arith,
    kind_eq_iff e.kind kind,
    kind_eq_iff f.kind kind,
    kind_eq_iff f.kind e.kind,
    get_engine-insert e kind r,
  )

  -- After a registration that succeeds its kind has the new adapter, and every other kind what it
  -- had.
  get_engine-register :
      (e : LlmEngine T) (kind : EngineKind) (r r' : List (LlmEngine T))
      → register e r ≡ ok r'
      → get_engine kind r' ≡ (if kind_eq e.kind kind then some e else get_engine kind r)
  unfolding register
  get_engine-register e kind r r' h = ground (arith, get_engine-insert e kind r)

  All-insert_engine :
      (P : LlmEngine T → Type 0) (e : LlmEngine T) (r : List (LlmEngine T))
      → P e
      → All P r
      → All P (insert_engine e r)
  unfolding insert_engine
  All-insert_engine P e [] p h = (p, tt)
  All-insert_engine P e (f ∷ r) p h = elim (Bool-cases (kind_lt f.kind e.kind)) [
    | inl before ↦ rw before (h.0, All-insert_engine P e r p h.1)
    | inr after ↦ rw after (p, (h.0, h.1))
  ]

  no_ext_key :
      (key : Text) (r : List (LlmEngine T))
      → has_ext_key key r ≡ false
      → All (λ f. text_eq key f.ext_key ≡ false) r
  unfolding has_ext_key
  no_ext_key key [] h = tt
  no_ext_key key (f ∷ r) h = (
    ground (arith, text_eq_iff key f.ext_key, text_eq_iff f.ext_key key),
    no_ext_key key r (ground arith),
  )

  kinds_above :
      (e f : LlmEngine T) (r : List (LlmEngine T))
      → kind_lt e.kind f.kind ≡ true
      → All (λ g. kind_lt f.kind g.kind ≡ true) r
      → All (λ g. kind_lt e.kind g.kind ≡ true) r
  kinds_above e f [] h k = tt
  kinds_above e f (g ∷ r) h k = (kind_lt_trans e.kind f.kind g.kind h k.0, kinds_above e f r h k.1)

  insert-IsRegistry :
      (e : LlmEngine T) (r : List (LlmEngine T))
      → validate_ext_key e.ext_key ≡ true
      → has_kind e.kind r ≡ false
      → has_ext_key e.ext_key r ≡ false
      → IsRegistry r
      → IsRegistry (insert_engine e r)
  unfolding insert_engine has_kind has_ext_key
  insert-IsRegistry e [] v k x h = (v, tt, tt, tt)
  insert-IsRegistry e (f ∷ r) v k x h = elim (Bool-cases (kind_lt f.kind e.kind)) [
    | inl before ↦ rw before (
      h.0,
      All-insert_engine (λ g. kind_lt f.kind g.kind ≡ true) e r before h.1,
      All-insert_engine (λ g. text_eq f.ext_key g.ext_key ≡ false) e r (ground arith) h.2,
      insert-IsRegistry e r v (ground arith) (ground arith) h.3,
    )
    | inr after ↦
        let above : kind_lt e.kind f.kind ≡ true =
          kind_lt_total e.kind f.kind (ground arith) after in
        rw after (v, (above, kinds_above e f r above h.1), no_ext_key e.ext_key (f ∷ r) x, h)
  ]

  -- A registration that succeeds on a registry whose kinds are in strict order and whose ext keys
  -- are valid and distinct gives such a registry again.
  pub register-IsRegistry :
      (e : LlmEngine T) (r r' : List (LlmEngine T))
      → IsRegistry r
      → register e r ≡ ok r'
      → IsRegistry r'
  unfolding register
  register-IsRegistry e r r' h k = elim (Bool-cases (validate_ext_key e.ext_key)) [
    | inl v ↦ ground (arith, insert-IsRegistry e r v)
    | inr v ↦ ground arith
  ]
