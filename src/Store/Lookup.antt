-- ===== src/Store/Lookup.antt =====
-- Reading after writing.
use tx_ide_rs.Prelude.{
  ◌≡◌, refl, ap, [], ◌∷◌, Option, none, some, arith, text_eq, text_eq_iff, if◌then◌else◌,
}
use tx_ide_rs.Agent.{Agent, AgentId}
use tx_ide_rs.Result.{ok}
use tx_ide_rs.Store.{
  RecordFile, holds, broken, Dir, file_of, read, load_file, load_read, load, put, delete,
}

pub file_of-put :
    (a : Agent) (id : AgentId) (d : Dir)
    → file_of id (put a d) ≡ (if text_eq a.id id then some (holds a) else file_of id d)
unfolding file_of put
file_of-put a id [] = refl
file_of-put a id ((i, f) ∷ d) =
    ground (arith, text_eq_iff a.id id, text_eq_iff i a.id, text_eq_iff i id, file_of-put a id d)

pub file_of-delete :
    (i id : AgentId) (d : Dir)
    → file_of id (delete i d) ≡ (if text_eq i id then none else file_of id d)
unfolding file_of delete
file_of-delete i id [] = ground arith
file_of-delete i id ((j, f) ∷ d) =
    ground (arith, text_eq_iff i id, text_eq_iff j i, text_eq_iff j id, file_of-delete i id d)

-- A saved record is what the next read of its id gives, whatever the directory held before, and
-- the read of every other id is as it was.
pub load-put :
    (a : Agent) (id : AgentId) (d : Dir)
    → load id (put a d) ≡ (if text_eq a.id id then ok (some a) else load id d)
unfolding load read
load-put a id d = ground (arith, file_of-put a id d, text_eq_iff a.id id)

-- A deleted record is gone, and the read of every other id is as it was.
load-delete :
    (i id : AgentId) (d : Dir)
    → load id (delete i d) ≡ (if text_eq i id then ok none else load id d)
unfolding load
load-delete i id d = ground (arith, file_of-delete i id d)

load_read-id :
    (id : AgentId) (f : RecordFile) (a : Agent)
    → load_read id (read id f) ≡ ok (some a)
    → (f ≡ holds a) × (a.id ≡ id)
unfolding load_read read
load_read-id id (holds b) a h = ground (arith, text_eq_iff b.id id)
load_read-id id (broken e) a h = ground arith

load_file-id :
    (id : AgentId) (f : Option RecordFile) (a : Agent)
    → load_file id f ≡ ok (some a)
    → (f ≡ some (holds a)) × (a.id ≡ id)
unfolding load_file
load_file-id id none a h = cc
load_file-id id (some f) a h = let (e, same) = load_read-id id f a h in (ap some e, same)

-- A record that a read returns carries the id that was asked for.
pub load-id : (id : AgentId) (d : Dir) (a : Agent) → load id d ≡ ok (some a) → a.id ≡ id
unfolding load
load-id id d a h = (load_file-id id (file_of id d) a h).1

pub file_of-load :
    (id : AgentId) (d : Dir) (a : Agent) → load id d ≡ ok (some a) → file_of id d ≡ some (holds a)
unfolding load
file_of-load id d a h = (load_file-id id (file_of id d) a h).0
