-- ===== src/Artifacts/Record.antt =====
-- The artifact record (plugins/artifacts/src/artifact.rs): its kinds and the history of touches.
-- `none` is a panic on an empty history. Times are natural numbers, texts lists of code points.
pub mod History
use tx_ide_rs.Prelude.{
  ℕ, zero, suc, ◌+◌, min, Bool, true, false, List, [], ◌∷◌, ◌++◌, Option, none, some, Text, codes,
  take, length,
}
use tx_ide_rs.Json.{Fields}

pub data Kind : Type 0 where
  document : (file : Text) → Kind
  diff : (worktree base : Text) → (repository : Option Text) → Kind
  other : (kind : Text) → (facts : Fields) → Kind

-- `Kind::name`
unfoldable pub kind_name : Kind → Text
kind_name (document file) = codes "document"
kind_name (diff worktree base repository) = codes "diff"
kind_name (other kind facts) = kind

-- `Kind::describe`, of a base that is ASCII.
unfoldable pub describe : Kind → Text
unfolding kind_name
describe (diff worktree base repository) = codes "diff vs " ++ take 7 base
describe (document file) = kind_name (document file)
describe (other kind facts) = kind_name (other kind facts)

pub record Touch : Type 0 where
  pub session_id : Text
  pub at : ℕ
  pub rev : ℕ
  pub changes : Option Text

pub record Artifact : Type 0 where
  pub id : Text
  pub kind : Kind
  pub title : Option Text
  pub filename : Text
  pub created_at : ℕ
  pub group : Option Text
  pub archived : Bool
  pub history : List Touch

-- `Artifact::new`
unfoldable pub new_artifact : Text → Kind → Option Text → Text → ℕ → Option Text → Text → Artifact
new_artifact id kind title filename created_at group session_id = record {
  id = id;
  kind = kind;
  title = title;
  filename = filename;
  created_at = created_at;
  group = group;
  archived = false;
  history = (record { session_id = session_id; at = created_at; rev = 0; changes = none }) ∷ [];
}

unfoldable pub last : List Touch → Option Touch
last [] = none
last (t ∷ []) = some t
last (t ∷ u ∷ touches) = last (u ∷ touches)

-- `Artifact::last_touch`
abbrev pub last_touch : Artifact → Option Touch
last_touch a = last a.history

-- `Artifact::next_rev`, of the last touch.
abbrev pub rev_after : Touch → ℕ
rev_after t = t.rev + 1

abbrev pub touch_after : Text → ℕ → Option Text → Artifact → Option Touch → Option (ℕ × Artifact)
touch_after session_id at_ changes a none = none
touch_after session_id at_ changes a (some t) =
    let touch : Touch = record {
      session_id = session_id;
      at = at_;
      rev = rev_after t;
      changes = changes;
    } in
    some (rev_after t, record a { history = a.history ++ touch ∷ [] })

-- `Artifact::record_touch`
unfoldable pub record_touch : Text → ℕ → Option Text → Artifact → Option (ℕ × Artifact)
unfolding last
record_touch session_id at_ changes a = touch_after session_id at_ changes a (last_touch a)

abbrev pub titled : Text → Option Text → Text
titled filename (some (c ∷ title)) = c ∷ title
titled filename _ = filename

-- `Artifact::display_name`
unfoldable pub display_name : Artifact → Text
display_name a = titled a.filename a.title
