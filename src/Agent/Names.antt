-- ===== src/Agent/Names.antt =====
-- Laws of the record's parts: the grammar of names, and the map of plugin data.
use tx_ide_rs.Prelude.{
  ℕ, ◌≤◌, ◌<◌, ◌≡◌, refl, ◌↔◌, ◌⊎◌, true, List, [], ◌∷◌, none, some, arith, Text, text_eq,
  text_eq_iff, if◌then◌else◌, length, all, All, codes,
}
use tx_ide_rs.Json.{Value}
use tx_ide_rs.Agent.{
  is_safe_byte, is_safe_fragment, is_valid_name, parse_id, ext_get, ext_insert, ext_remove,
  max_id_bytes, max_name_bytes, EngineKind, claude, codex, engine_name, parse_kind,
}

-- The bytes that a path component, a tmux target and an option value may all hold.
abbrev pub SafeByte : ℕ → Type 0
SafeByte b =
    (b'0' ≤ b) × (b ≤ b'9')
    ⊎ (b'A' ≤ b) × (b ≤ b'Z')
    ⊎ (b'a' ≤ b) × (b ≤ b'z')
    ⊎ (b ≡ b'_')
    ⊎ (b ≡ b'-')

abbrev pub SafeFragment : ℕ → Text → Type 0
SafeFragment max_bytes text = (0 < length text) × (length text ≤ max_bytes) × All SafeByte text

is_safe_byte_iff : (b : ℕ) → (is_safe_byte b ≡ true) ↔ SafeByte b
unfolding is_safe_byte
is_safe_byte_iff b = ground arith

all-is_safe_byte_iff : (t : Text) → (all is_safe_byte t ≡ true) ↔ All SafeByte t
all-is_safe_byte_iff [] = ground arith
all-is_safe_byte_iff (b ∷ t) =
    let here = is_safe_byte_iff b in
    let rest = all-is_safe_byte_iff t in
    (λ h. (here.0 (ground arith), rest.0 (ground arith)), λ h. rw (here.1 h.0) (rest.1 h.1))

is_safe_fragment_iff :
    (t : Text) (max_bytes : ℕ) → (is_safe_fragment t max_bytes ≡ true) ↔ SafeFragment max_bytes t
unfolding is_safe_fragment
is_safe_fragment_iff t max_bytes =
    let safe = all-is_safe_byte_iff t in
    (λ h. (ground arith, ground arith, safe.0 (ground arith)), λ h. ground (arith, safe.1 h.2))

-- A name is accepted exactly when it has 1 to 128 bytes, each a letter, a digit, `_` or `-`.
is_valid_name_iff : (name : Text) → (is_valid_name name ≡ true) ↔ SafeFragment max_name_bytes name
unfolding is_valid_name
is_valid_name_iff name = is_safe_fragment_iff name max_name_bytes

-- A text parses as an id exactly when it has 1 to 64 safe bytes, and the id is the text itself.
pub parse_id_iff : (t i : Text) → (parse_id t ≡ some i) ↔ ((i ≡ t) × SafeFragment max_id_bytes t)
unfolding parse_id
parse_id_iff t i =
    let safe = is_safe_fragment_iff t max_id_bytes in
    (λ h. (ground arith, safe.0 (ground arith)), λ h. ground (arith, safe.1 h.1))

-- An engine's name parses as that engine, and no other text does.
parse_kind_iff : (t : Text) (k : EngineKind) → (parse_kind t ≡ some k) ↔ (t ≡ engine_name k)
unfolding parse_kind
parse_kind_iff t claude =
    ground (arith, text_eq_iff (codes "claude") t, text_eq_iff (codes "codex") t)
parse_kind_iff t codex =
    ground (arith, text_eq_iff (codes "claude") t, text_eq_iff (codes "codex") t)

-- The plugin map after an insertion.
pub ext_get-ext_insert :
    (key k : Text) (v : Value) (m : List (Text × Value))
    → ext_get k (ext_insert key v m) ≡ (if text_eq key k then some v else ext_get k m)
unfolding ext_get ext_insert
ext_get-ext_insert key k v [] = refl
ext_get-ext_insert key k v ((i, w) ∷ m) =
    ground
      (arith, text_eq_iff key k, text_eq_iff i key, text_eq_iff i k, ext_get-ext_insert key k v m)

pub ext_get-ext_remove :
    (key k : Text) (m : List (Text × Value))
    → ext_get k (ext_remove key m) ≡ (if text_eq key k then none else ext_get k m)
unfolding ext_get ext_remove
ext_get-ext_remove key k [] = ground arith
ext_get-ext_remove key k ((i, w) ∷ m) =
    ground
      (arith, text_eq_iff key k, text_eq_iff i key, text_eq_iff i k, ext_get-ext_remove key k m)
