-- ===== src/Store.antt =====
-- `AgentStore` (tx-core/src/store.rs): one directory per agent, holding its record. The store is
-- the list of the agent directories that hold a record file, in the order in which the directory
-- lists them; entries that every read ignores (temp files, names that are no id) are left out.
pub mod Lookup
pub mod Scan
pub mod Order
use tx_ide_rs.Prelude.{
  ℕ, Bool, true, false, List, [], ◌∷◌, Option, none, some, Text, text_eq, ltb, ◌==◌, if◌then◌else◌,
}
use tx_ide_rs.Agent.{Agent, AgentId}
use tx_ide_rs.Result.{Res, ok, err, ReadError, unknown_engine, id_mismatch, StoreError, unreadable}

-- What reading the bytes of a record file gives: a record, or why there is none.
pub data RecordFile : Type 0 where
  holds : Agent → RecordFile
  broken : ReadError → RecordFile

abbrev pub Dir : Type 0
Dir = List (AgentId × RecordFile)

unfoldable pub file_of : AgentId → Dir → Option RecordFile
file_of id [] = none
file_of id ((i, f) ∷ d) = if text_eq i id then some f else file_of id d

-- `read`: the record must carry the id of its directory.
unfoldable pub read : AgentId → RecordFile → Res ReadError Agent
read id (holds a) = if text_eq a.id id then ok a else err (id_mismatch a.id)
read id (broken e) = err e

-- An unknown engine makes a record that every read skips.
skip_or_fail : AgentId → ReadError → Res StoreError (Option Agent)
skip_or_fail id (unknown_engine _) = ok none
skip_or_fail id e = err (unreadable id e)

load_read : AgentId → Res ReadError Agent → Res StoreError (Option Agent)
unfolding skip_or_fail
load_read id (ok a) = ok (some a)
load_read id (err e) = skip_or_fail id e

load_file : AgentId → Option RecordFile → Res StoreError (Option Agent)
unfolding load_read
load_file id none = ok none
load_file id (some f) = load_read id (read id f)

-- `AgentStore::load`
unfoldable pub load : AgentId → Dir → Res StoreError (Option Agent)
unfolding load_file
load id d = load_file id (file_of id d)

-- The rename of `AgentStore::save`: the record file of the agent's directory is replaced.
unfoldable pub put : Agent → Dir → Dir
put a [] = (a.id, holds a) ∷ []
put a ((i, f) ∷ d) = if text_eq i a.id then (i, holds a) ∷ d else (i, f) ∷ put a d

-- `AgentStore::delete`, where the removal succeeds; whether there was a file.
unfoldable pub delete : AgentId → Dir → Dir
delete id [] = []
delete id ((i, f) ∷ d) = if text_eq i id then delete id d else (i, f) ∷ delete id d

-- `Ord for AgentId`: bytes in order, a prefix first.
unfoldable pub text_lt : Text → Text → Bool
text_lt a [] = false
text_lt [] (y ∷ ys) = true
text_lt (x ∷ xs) (y ∷ ys) = if x == y then text_lt xs ys else ltb x y

-- The order of `all`: by `created_at`, then by id.
unfoldable pub older : Agent → Agent → Bool
older a b =
    if a.created_at == b.created_at then text_lt a.id b.id else ltb a.created_at b.created_at

unfoldable pub insert_record : Agent → List Agent → List Agent
insert_record a [] = a ∷ []
insert_record a (b ∷ bs) = if older b a then b ∷ insert_record a bs else a ∷ b ∷ bs

insert_skipped : AgentId × Text → List (AgentId × Text) → List (AgentId × Text)
insert_skipped s [] = s ∷ []
insert_skipped s (t ∷ ts) = if text_lt t.0 s.0 then t ∷ insert_skipped s ts else s ∷ t ∷ ts

pub record Scanned : Type 0 where
  pub sessions : List Agent
  pub skipped : List (AgentId × Text)

-- One entry of the scan, with what the entries behind it give.
unfoldable pub scan_entry :
    AgentId → Res ReadError Agent → Res StoreError Scanned → Res StoreError Scanned
unfolding insert_skipped
scan_entry id (ok a) (ok s) = ok (record s { sessions = insert_record a s.sessions })
scan_entry id (err (unknown_engine e)) (ok s) =
    ok (record s { skipped = insert_skipped (id, e) s.skipped })
scan_entry id (err e) (ok s) = err (unreadable id e)
scan_entry id (ok a) (err e) = err e
scan_entry id (err (unknown_engine e)) (err e') = err e'
scan_entry id (err e) (err _) = err (unreadable id e)

-- `AgentStore::scan`: the first unreadable record, in the order of the directory, fails it.
unfoldable pub scan : Dir → Res StoreError Scanned
unfolding scan_entry
scan [] = ok (record { sessions = []; skipped = [] })
scan ((i, f) ∷ d) = scan_entry i (read i f) (scan d)

scanned_sessions : Res StoreError Scanned → Res StoreError (List Agent)
scanned_sessions (ok s) = ok s.sessions
scanned_sessions (err e) = err e

-- `AgentStore::all`
unfoldable pub all : Dir → Res StoreError (List Agent)
unfolding scanned_sessions
all d = scanned_sessions (scan d)

scanned_skipped : Res StoreError Scanned → Res StoreError (List (AgentId × Text))
scanned_skipped (ok s) = ok s.skipped
scanned_skipped (err e) = err e

-- `AgentStore::skipped`
pub skipped_records : Dir → Res StoreError (List (AgentId × Text))
unfolding scanned_skipped
skipped_records d = scanned_skipped (scan d)
