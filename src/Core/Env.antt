-- ===== src/Core/Env.antt =====
-- Environments, blank prompts and names: the pure parts of a launch. From tx-core/src/core.rs, with
-- the phrases of tx-core/src/tmux.rs and the candidate names of tx-core/src/worktree.rs.
pub mod Names
pub mod Secrets
pub mod Variables
use tx_ide_rs.Prelude.{
  ℕ, zero, suc, ◌+◌, ◌-◌, ◌/◌, ◌%◌, Bool, true, false, not, ◌&&◌, ◌||◌, List, [], ◌∷◌, ◌++◌, Option,
  none, some, Text, text_eq, starts_with, contains, codes, ltb, leb, ◌==◌, if◌then◌else◌, length,
  all, find, drop,
}
use tx_ide_rs.Agent.{is_ascii_alphanumeric}
use tx_ide_rs.Result.{Res, ok, err, CoreError, invalid_env_key, missing_variable}

abbrev pub Env : Type 0
Env = List (Text × Text)

abbrev pub session_id_env : Text
session_id_env = codes "TX_SESSION_ID"

abbrev pub tmux_socket_env : Text
tmux_socket_env = codes "TX_TMUX_SOCKET"

unfoldable pub env_get : Text → Env → Option Text
env_get key [] = none
env_get key ((k, v) ∷ env) = if text_eq k key then some v else env_get key env

-- One pair of `merge_env`: replaced in place, else appended.
set_env : Text → Text → Env → Env
set_env key value [] = (key, value) ∷ []
set_env key value ((k, v) ∷ env) =
    if text_eq k key then (k, value) ∷ env else (k, v) ∷ set_env key value env

unfoldable pub merge_env : Env → Env → Env
unfolding set_env
merge_env env [] = env
merge_env env ((key, value) ∷ layer) = merge_env (set_env key value env) layer

is_env_byte : ℕ → Bool
is_env_byte b = is_ascii_alphanumeric b || (b == b'_' || (b == b'-' || b == b'.'))

has_nul : Text → Bool
has_nul [] = false
has_nul (b ∷ t) = if b == 0 then true else has_nul t

is_valid_pair : Text → Text → Bool
unfolding is_env_byte has_nul
is_valid_pair key value = not (length key == 0) && (all is_env_byte key && not (has_nul value))

-- `validate_env`: the first key that is refused.
unfoldable pub validate_env : Env → Res CoreError (Unit {0})
unfolding is_valid_pair
validate_env [] = ok tt
validate_env ((key, value) ∷ env) =
    if is_valid_pair key value then validate_env env else err (invalid_env_key key)

unfoldable pub has_key : Text → Env → Bool
has_key key [] = false
has_key key ((k, v) ∷ env) = if text_eq k key then true else has_key key env

found_secret : Text → Text → Env → Option Text → Res CoreError Env
found_secret server variable env none = err (missing_variable server variable)
found_secret server variable env (some value) = ok (env ++ (variable, value) ∷ [])

-- One variable that an MCP server names: from the environment so far, else from the caller's.
add_secret : Env → Text → Text → Env → Res CoreError Env
unfolding found_secret
add_secret caller server variable env =
    if has_key variable env
    then ok env
    else found_secret server variable env (env_get variable caller)

and_then : Res CoreError Env → (Env → Res CoreError Env) → Res CoreError Env
and_then (ok env) f = f env
and_then (err e) f = err e

add_variables : Env → Text → List Text → Env → Res CoreError Env
unfolding and_then
add_variables caller server [] env = ok env
add_variables caller server (variable ∷ variables) env =
    and_then (add_secret caller server variable env) (add_variables caller server variables)

unfoldable pub add_secrets : Env → List (Text × List Text) → Env → Res CoreError Env
unfolding and_then add_variables add_secret
add_secrets caller [] env = ok env
add_secrets caller ((server, variables) ∷ servers) env =
    and_then (add_variables caller server variables env) (add_secrets caller servers)

-- `char::is_whitespace`, on the UTF-8 bytes of a character.
is_white : ℕ → Bool
is_white b = (leb 9 b && leb b 13) || b == 32

is_white_pair : ℕ → ℕ → Bool
is_white_pair b c = b == 0xc2 && (c == 0x85 || c == 0xa0)

is_white_triple : ℕ → ℕ → ℕ → Bool
is_white_triple b c d =
    (b == 0xe1 && (c == 0x9a && d == 0x80))
    || ((b == 0xe2
          && (c == 0x80 && ((leb 0x80 d && leb d 0x8a) || (d == 0xa8 || (d == 0xa9 || d == 0xaf)))))
        || ((b == 0xe2 && (c == 0x81 && d == 0x9f)) || (b == 0xe3 && (c == 0x80 && d == 0x80))))

-- `text.trim().is_empty()`
unfoldable pub is_blank : Text → Bool
unfolding is_white is_white_pair is_white_triple
is_blank [] = true
is_blank (b ∷ []) = is_white b
is_blank (b ∷ c ∷ []) = (is_white b && is_white c) || is_white_pair b c
is_blank (b ∷ c ∷ d ∷ t) =
    let one = is_blank (c ∷ d ∷ t) in
    let two = is_blank (d ∷ t) in
    let three = is_blank t in
    if is_white b
    then one
    else if is_white_pair b c
    then two
    else if is_white_triple b c d
    then three
    else false

push_kept : ℕ → Text → Text
push_kept b [] = if is_white b then [] else b ∷ []
push_kept b (c ∷ t) = b ∷ c ∷ t

-- `str::trim_end`, on the ASCII messages of tmux.
trim_end : Text → Text
unfolding push_kept is_white
trim_end [] = []
trim_end (b ∷ t) = push_kept b (trim_end t)

ends_with : Text → Text → Bool
ends_with s p = leb (length p) (length s) && text_eq (drop (length s - length p) s) p

pub is_no_server : Text → Bool
unfolding trim_end ends_with
is_no_server stderr =
    let said = trim_end stderr in
    starts_with said (codes "no server running on ")
    || (starts_with said (codes "error connecting to ")
        && ends_with said (codes "(No such file or directory)"))

pub server_quit : Text → Bool
unfolding trim_end
server_quit stderr = text_eq (trim_end stderr) (codes "server exited unexpectedly")

-- Whether tmux says that the session just made is already gone.
unfoldable pub session_vanished : Text → Bool
unfolding is_no_server server_quit
session_vanished stderr =
    is_no_server stderr
    || (starts_with stderr (codes "can't find session")
        || (starts_with stderr (codes "no such session") || server_quit stderr))

-- A number below 100 in decimal.
decimal : ℕ → Text
decimal n = if ltb n 10 then (b'0' + n) ∷ [] else (b'0' + n / 10) ∷ (b'0' + n % 10) ∷ []

unfoldable pub candidate : Text → ℕ → Text
unfolding decimal
candidate base n = if n == 1 then base else base ++ (b'-' ∷ decimal n)

has_slash : Text → Bool
has_slash [] = false
has_slash (b ∷ t) = if b == b'/' then true else has_slash t

-- The worktree manager's own `is_valid_name`.
unfoldable pub is_path_name : Text → Bool
unfolding has_slash
is_path_name name =
    not (length name == 0)
    && (not (text_eq name (codes ".")) && (not (text_eq name (codes "..")) && not (has_slash name)))

-- The first of the candidates from `n` on that is a name and not taken, `rounds` of them.
unfoldable pub first_free : ℕ → ℕ → Text → List Text → Option Text
unfolding candidate is_path_name
first_free zero n base taken = none
first_free (suc rounds) n base taken =
    let rest = first_free rounds (n + 1) base taken in
    if is_path_name (candidate base n) && not (contains taken (candidate base n))
    then some (candidate base n)
    else rest

-- The name of `WorktreeManager::create_unique`: the first of `base`, `base-2`, … `base-99`.
unfoldable pub free_name : Text → List Text → Option Text
unfolding first_free
free_name base taken = first_free 99 1 base taken
