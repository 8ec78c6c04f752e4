-- ===== src/Store/Scan.antt =====
-- What a scan of the directory returns.
use tx_ide_rs.Prelude.{
  ◌≡◌, refl, ◌↔◌, ◌⊎◌, inl, inr, Bool, true, false, List, [], ◌∷◌, none, some, arith, text_eq,
  text_eq_iff, text_eq_refl, sym, ◌∙◌, Bool-cases, if◌then◌else◌, All,
}
use tx_ide_rs.Agent.{Agent, AgentId}
use tx_ide_rs.Result.{Res, ok, err, ReadError, unknown_engine, StoreError}
use tx_ide_rs.Store.Lookup.{file_of-load, file_of-put, load-id}
use tx_ide_rs.Store.{
  put, RecordFile, holds, broken, Dir, file_of, read, load, Scanned, scan_entry, scan, all,
  scanned_sessions, insert_record, older,
}

-- `a` stands in the list.
pub data Member (a : Agent) : List Agent → Type 0 where
  here : {b : Agent} {bs : List Agent} → a ≡ b → Member a (b ∷ bs)
  there : {b : Agent} {bs : List Agent} → Member a bs → Member a (b ∷ bs)

pub All-Member : (P : Agent → Type 0) (a : Agent) (bs : List Agent) → All P bs → Member a bs → P a
All-Member P a [] h m = elim m [ ]
All-Member P a (b ∷ bs) h (here e) = rw e h.0
All-Member P a (b ∷ bs) h (there m) = All-Member P a bs h.1 m

abbrev insert_if : Bool → Agent → Agent → List Agent → List Agent
insert_if t a b bs = if t then b ∷ insert_record a bs else a ∷ b ∷ bs

Member-insert_self : (a : Agent) (bs : List Agent) → Member a (insert_record a bs)
unfolding insert_record
Member-insert_self a [] = here refl
Member-insert_self a (b ∷ bs) = elim (older b a) as (λ t. Member a (insert_if t a b bs)) [
  | true ↦ there (Member-insert_self a bs)
  | false ↦ here refl
]

Member-insert : (x a : Agent) (bs : List Agent) → Member x bs → Member x (insert_record a bs)
unfolding insert_record
Member-insert x a [] m = elim m [ ]
Member-insert x a (b ∷ bs) (here e) = elim (older b a) as (λ t. Member x (insert_if t a b bs)) [
  | true ↦ here e
  | false ↦ there (here e)
]
Member-insert x a (b ∷ bs) (there m) = elim (older b a) as (λ t. Member x (insert_if t a b bs)) [
  | true ↦ there (Member-insert x a bs m)
  | false ↦ there (there m)
]

insert-Member :
    (x a : Agent) (bs : List Agent) → Member x (insert_record a bs) → (x ≡ a) ⊎ Member x bs
unfolding insert_record
insert-Member x a [] (here e) = inl e
insert-Member x a [] (there m) = elim m [ ]
insert-Member x a (b ∷ bs) m = split (older b a) (insert-Member x a bs) m
  where
    split :
        (t : Bool)
        → (Member x (insert_record a bs) → (x ≡ a) ⊎ Member x bs)
        → Member x (insert_if t a b bs)
        → (x ≡ a) ⊎ Member x (b ∷ bs)
    split true rest (here e) = inr (here e)
    split true rest (there m') = elim (rest m') [ inl e ↦ inl e | inr m'' ↦ inr (there m'') ]
    split false rest (here e) = inl e
    split false rest (there m') = inr m'

-- What one entry of the directory adds to the sessions that the scan returns.
abbrev pub EntryAdds : Res ReadError Agent → Scanned → Scanned → Type 0
EntryAdds (ok a) s t = t.sessions ≡ insert_record a s.sessions
EntryAdds (err e) s t = t.sessions ≡ s.sessions

pub scan_entry-ok :
    (id : AgentId) (r : Res ReadError Agent) (rest : Res StoreError Scanned) (t : Scanned)
    → scan_entry id r rest ≡ ok t
    → (s : Scanned) × (rest ≡ ok s) × EntryAdds r s t
unfolding scan_entry
scan_entry-ok id (ok a) (ok s) t h = (s, refl, ground arith)
scan_entry-ok id (ok a) (err e) t h = cc
scan_entry-ok id (err (unknown_engine e)) (ok s) t h = (s, refl, ground arith)
scan_entry-ok id (err (unknown_engine e)) (err _) t h = cc
scan_entry-ok id (err e) (ok s) t h = (s, refl, ground arith)
scan_entry-ok id (err e) (err _) t h = cc

adds-Member :
    (a : Agent) (r : Res ReadError Agent) (s t : Scanned)
    → EntryAdds r s t
    → Member a s.sessions
    → Member a t.sessions
adds-Member a (ok b) s t e m = rw e (Member-insert a b s.sessions m)
adds-Member a (err _) s t e m = rw e m

read-holds : (i : AgentId) (a : Agent) → a.id ≡ i → read i (holds a) ≡ ok a
unfolding read
read-holds i a e = ground (arith, text_eq_iff a.id i)

none_in : (a : Agent) (l : List Agent) → l ≡ [] → Member a l → ⊥
none_in a [] e m = elim m [ ]
none_in a (b ∷ l) e m = cc

scan-Member :
    (id : AgentId) (a : Agent) (d : Dir) (t : Scanned)
    → scan d ≡ ok t
    → file_of id d ≡ some (holds a)
    → a.id ≡ id
    → Member a t.sessions
unfolding scan file_of
scan-Member id a [] t h f e = cc
scan-Member id a ((i, f) ∷ d) t h g e =
    let (s, rest, adds) = scan_entry-ok i (read i f) (scan d) t h in
    elim (Bool-cases (text_eq i id)) [
      | inl same ↦
          let file : f ≡ holds a = ground arith in
          let there_is : read i f ≡ ok a =
            rw file (read-holds i a (e ∙ sym ((text_eq_iff i id).0 same))) in
          let grown : t.sessions ≡ insert_record a s.sessions = rw there_is at adds in
          rw grown (Member-insert_self a s.sessions)
      | inr other ↦ adds-Member a (read i f) s t adds (scan-Member id a d s rest (rw other at g) e)
    ]

pub all-ok :
    (d : Dir) (l : List Agent) → all d ≡ ok l → (s : Scanned) × (scan d ≡ ok s) × (s.sessions ≡ l)
unfolding all
all-ok d l h = sessions_of (scan d) h
  where
    sessions_of :
        (r : Res StoreError Scanned)
        → scanned_sessions r ≡ ok l
        → (s : Scanned) × (r ≡ ok s) × (s.sessions ≡ l)
    sessions_of (ok s) e = (s, refl, cc)
    sessions_of (err _) e = cc

-- Every record that can be loaded stands in the list of all records.
pub all-Member :
    (id : AgentId) (d : Dir) (l : List Agent) (a : Agent)
    → all d ≡ ok l
    → load id d ≡ ok (some a)
    → Member a l
all-Member id d l a h g =
    let (s, scanned, sessions) = all-ok d l h in
    rw (← sessions) (scan-Member id a d s scanned (file_of-load id d a g) (load-id id d a g))

-- A directory lists no name twice.
abbrev pub Distinct : Dir → Type 0
Distinct [] = Unit
Distinct ((i, f) ∷ d) = (file_of i d ≡ none) × Distinct d

pub put-Distinct : (a : Agent) (d : Dir) → Distinct d → Distinct (put a d)
unfolding put file_of
put-Distinct a [] h = (refl, tt)
put-Distinct a ((i, f) ∷ d) h = elim (Bool-cases (text_eq i a.id)) [
  | inl same ↦ rw same h
  | inr other ↦ rw other (
    ground (arith, file_of-put a i d, text_eq_iff i a.id, text_eq_iff a.id i),
    put-Distinct a d h.1,
  )
]

adds-cases :
    (a : Agent) (r : Res ReadError Agent) (s t : Scanned)
    → EntryAdds r s t
    → Member a t.sessions
    → (r ≡ ok a) ⊎ Member a s.sessions
adds-cases a (ok b) s t e m = elim (insert-Member a b s.sessions (rw e at m)) [
  | inl same ↦ inl (cc)
  | inr old ↦ inr old
]
adds-cases a (err _) s t e m = inr (rw e at m)

read-ok : (i : AgentId) (f : RecordFile) (a : Agent) → read i f ≡ ok a → (f ≡ holds a) × (a.id ≡ i)
unfolding read
read-ok i (holds b) a h = ground (arith, text_eq_iff b.id i)
read-ok i (broken e) a h = cc

scan-file_of :
    (d : Dir) (t : Scanned) (a : Agent)
    → Distinct d
    → scan d ≡ ok t
    → Member a t.sessions
    → file_of a.id d ≡ some (holds a)
unfolding scan file_of
scan-file_of [] t a u h m = absurd (none_in a t.sessions (ground arith) m)
scan-file_of ((i, f) ∷ d) t a u h m =
    let (s, rest, adds) = scan_entry-ok i (read i f) (scan d) t h in
    elim (adds-cases a (read i f) s t adds m) [
      | inl now ↦ let (file, same) = read-ok i f a now in rw (file, same, text_eq_refl i)
      | inr before ↦
          let old = scan-file_of d s a u.1 rest before in ground (arith, text_eq_iff i a.id)
    ]

load-file_of : (a : Agent) (d : Dir) → file_of a.id d ≡ some (holds a) → load a.id d ≡ ok (some a)
unfolding load read
load-file_of a d h = ground (arith, text_eq_iff a.id a.id)

-- Every listed record is what a read of its id gives.
pub load-all :
    (d : Dir) (l : List Agent) (a : Agent)
    → Distinct d
    → all d ≡ ok l
    → Member a l
    → load a.id d ≡ ok (some a)
load-all d l a u h m =
    let (s, scanned, sessions) = all-ok d l h in
    load-file_of a d (scan-file_of d s a u scanned (rw sessions m))

-- In a directory that lists no id twice, a listing that succeeds holds exactly the records that can
-- be loaded by their ids.
pub all_iff :
    (d : Dir) (l : List Agent) (a : Agent)
    → Distinct d
    → all d ≡ ok l
    → Member a l ↔ (load a.id d ≡ ok (some a))
all_iff d l a u h = (load-all d l a u h, all-Member a.id d l a h)
