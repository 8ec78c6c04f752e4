-- ===== src/Tmux.antt =====
-- What tx-core/src/tmux.rs decides by itself: the table of live sessions that it reads from the
-- listing of tmux, and the arguments that make tmux type a text.
pub mod Typing
use tx_ide_rs.Prelude.{
  ℕ, zero, suc, ◌+◌, ◌-◌, Bool, true, false, not, ◌||◌, List, [], ◌∷◌, ◌++◌, Option, none, some,
  Text, codes, ◌==◌, length, if◌then◌else◌,
}
use tx_ide_rs.Agent.{AgentId, parse_id}
use tx_ide_rs.Result.{Res, ok, err, TmuxError, inspection_failed}
use tx_ide_rs.Core.World.{Live, find_live}
use tx_ide_rs.Core.Change.{is_none}
use tx_ide_rs.Core.Env.{is_no_server, server_quit}

add_to_first : ℕ → List Text → List Text
add_to_first b [] = (b ∷ []) ∷ []
add_to_first b (s ∷ ss) = (b ∷ s) ∷ ss

-- `str::split` by one byte.
split : ℕ → Text → List Text
unfolding add_to_first
split c [] = [] ∷ []
split c (b ∷ t) = let rest = split c t in if b == c then [] ∷ rest else add_to_first b rest

-- `entry(id).or_insert_with`: the first session of an id is kept.
or_insert : AgentId → Live → List (AgentId × Live) → List (AgentId × Live)
or_insert id live table = if is_none (find_live id table) then table ++ (id, live) ∷ [] else table

insert_parsed : Option AgentId → Live → List (AgentId × Live) → List (AgentId × Live)
unfolding or_insert
insert_parsed none live table = table
insert_parsed (some id) live table = or_insert id live table

parse_fields : Text → List Text → List (AgentId × Live) → Res TmuxError (List (AgentId × Live))
unfolding insert_parsed
parse_fields line (id ∷ session ∷ pane ∷ []) table =
    ok (insert_parsed (parse_id id) (record { session_target = session; pane_target = pane }) table)
parse_fields line _ table =
    err (inspection_failed (codes "unexpected list-sessions line: " ++ line))

parse_line : Text → List (AgentId × Live) → Res TmuxError (List (AgentId × Live))
unfolding parse_fields split
parse_line [] table = ok table
parse_line (b ∷ line) table = parse_fields (b ∷ line) (split b'\t' (b ∷ line)) table

parse_lines : List Text → List (AgentId × Live) → Res TmuxError (List (AgentId × Live))
unfolding parse_line
parse_lines [] table = ok table
parse_lines (l ∷ ls) table = elim (parse_line l table) [
  | ok grown ↦ parse_lines ls grown
  | err e ↦ err e
]

-- `LiveTable::parse`
unfoldable pub parse : Text → Res TmuxError (List (AgentId × Live))
unfolding parse_lines split
parse out = parse_lines (split b'\n' out) []

-- What a run of the tmux binary gives; `stderr` is trimmed, as the source does first.
pub record Output : Type 0 where
  pub success : Bool
  pub stdout : Text
  pub stderr : Text

-- `Tmux::list_live`, of the output of `list-sessions`.
unfoldable pub list_live : Output → Res TmuxError (List (AgentId × Live))
unfolding parse
list_live output =
    if output.success
    then parse output.stdout
    else if is_no_server output.stderr || server_quit output.stderr
    then ok []
    else err (inspection_failed output.stderr)

-- `str::trim_end_matches` of one byte.
pub trim_end_matches : ℕ → Text → Text
trim_end_matches c [] = []
trim_end_matches c (b ∷ t) =
    let rest = trim_end_matches c t in
    if length rest == 0 then (if b == c then [] else b ∷ []) else b ∷ rest

pub repeat {ℓ} : {A : Type ℓ} → ℕ → A → List A
repeat zero a = []
repeat (suc n) a = a ∷ repeat n a

abbrev pub escaped_semicolon : Text
escaped_semicolon = b'\\' ∷ b';' ∷ []

-- `literal_chunks`
unfoldable pub literal_chunks : Text → List Text
unfolding trim_end_matches repeat
literal_chunks text =
    let head = trim_end_matches b';' text in
    let escapes = repeat (length text - length head) escaped_semicolon in
    if length head == 0 then escapes else head ∷ escapes

-- `str::strip_suffix` of one byte.
unfoldable pub strip_last : ℕ → Text → Option Text
strip_last c [] = none
strip_last c (b ∷ []) = if b == c then some [] else none
strip_last c (b ∷ d ∷ t) = elim (strip_last c (d ∷ t)) [ none ↦ none | some rest ↦ some (b ∷ rest) ]

-- `escape_trailing_semicolon`
unfoldable pub escape_trailing_semicolon : Text → Text
unfolding strip_last trim_end_matches repeat
escape_trailing_semicolon arg = elim (strip_last b';' arg) [
  | none ↦ arg
  | some head ↦
      let stem = trim_end_matches b'\\' head in
      stem ++ (repeat (length head - length stem + 1) b'\\' ++ b';' ∷ [])
]
