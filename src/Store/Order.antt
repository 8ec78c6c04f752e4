-- ===== src/Store/Order.antt =====
-- The order of `AgentStore::all`: by `created_at`, then by id.
use tx_ide_rs.Prelude.{
  ◌≡◌, ◌<◌, ◌==◌, ==_iff, ◌⊎◌, ◌∙◌, sym, refl, inl, inr, true, false, List, [], ◌∷◌, arith, Text,
  Bool-cases, All,
}
use tx_ide_rs.Agent.{Agent}
use tx_ide_rs.Result.{Res, ok, err, ReadError}
use tx_ide_rs.Store.{Dir, read, Scanned, scan, all, insert_record, older, text_lt}
use tx_ide_rs.Store.Scan.{all-ok, scan_entry-ok, EntryAdds}

text_lt_asymm : (a b : Text) → text_lt a b ≡ true → text_lt b a ≡ false
unfolding text_lt
text_lt_asymm a [] h = cc
text_lt_asymm [] (y ∷ b) h = refl
text_lt_asymm (x ∷ a) (y ∷ b) h = ground (arith, text_lt_asymm a b)

older_asymm : (a b : Agent) → older a b ≡ true → older b a ≡ false
unfolding older
older_asymm a b h = ground (arith, text_lt_asymm a.id b.id)

-- The lexicographic order: `a` is `b`, or what is left of `a` at the first place where they differ
-- is nothing or starts with the smaller character.
abbrev pub IdLe : Text → Text → Type 0
IdLe [] b = Unit
IdLe (x ∷ a) [] = ⊥
IdLe (x ∷ a) (y ∷ b) = (x < y) ⊎ ((x ≡ y) × IdLe a b)

-- Created earlier, or at the same time with an id that does not come later.
abbrev pub Precedes : Agent → Agent → Type 0
Precedes a b = (a.created_at < b.created_at) ⊎ ((a.created_at ≡ b.created_at) × IdLe a.id b.id)

-- Each record precedes all that stand behind it.
abbrev pub IsOrdered : List Agent → Type 0
IsOrdered [] = Unit
IsOrdered (a ∷ as') = All (Precedes a) as' × IsOrdered as'

text_lt-IdLe : (a b : Text) → text_lt b a ≡ false → IdLe a b
unfolding text_lt
text_lt-IdLe [] b h = tt
text_lt-IdLe (x ∷ a) [] h = cc
text_lt-IdLe (x ∷ a) (y ∷ b) h = elim (Bool-cases (y == x)) [
  | inl same ↦ inr (sym ((==_iff y x).0 same), text_lt-IdLe a b (rw same at h))
  | inr other ↦ inl (ground arith)
]

older-Precedes : (a b : Agent) → older b a ≡ false → Precedes a b
unfolding older
older-Precedes a b h = elim (Bool-cases (b.created_at == a.created_at)) [
  | inl same ↦
      inr (sym ((==_iff b.created_at a.created_at).0 same), text_lt-IdLe a.id b.id (rw same at h))
  | inr other ↦ inl (ground arith)
]

older-Precedes_first : (a b : Agent) → older b a ≡ true → Precedes b a
older-Precedes_first a b h = older-Precedes b a (older_asymm b a h)

IdLe-trans : (a b c : Text) → IdLe a b → IdLe b c → IdLe a c
IdLe-trans [] b c h k = tt
IdLe-trans (x ∷ a) [] c h k = elim h [ ]
IdLe-trans (x ∷ a) (y ∷ b) [] h k = elim k [ ]
IdLe-trans (x ∷ a) (y ∷ b) (z ∷ c) (inl less) (inl less') = inl (omega arith)
IdLe-trans (x ∷ a) (y ∷ b) (z ∷ c) (inl less) (inr (same, k)) = inl (omega arith)
IdLe-trans (x ∷ a) (y ∷ b) (z ∷ c) (inr (same, h)) (inl less) = inl (omega arith)
IdLe-trans (x ∷ a) (y ∷ b) (z ∷ c) (inr (same, h)) (inr (same', k)) =
    inr (same ∙ same', IdLe-trans a b c h k)

Precedes-trans : (a b c : Agent) → Precedes a b → Precedes b c → Precedes a c
Precedes-trans a b c (inl less) (inl less') = inl (omega arith)
Precedes-trans a b c (inl less) (inr (same, k)) = inl (omega arith)
Precedes-trans a b c (inr (same, h)) (inl less) = inl (omega arith)
Precedes-trans a b c (inr (same, h)) (inr (same', k)) =
    inr (same ∙ same', IdLe-trans a.id b.id c.id h k)

All-insert :
    (P : Agent → Type 0) (a : Agent) (bs : List Agent) → P a → All P bs → All P (insert_record a bs)
unfolding insert_record
All-insert P a [] p h = (p, tt)
All-insert P a (b ∷ bs) p h = elim (Bool-cases (older b a)) [
  | inl first ↦ rw first (h.0, All-insert P a bs p h.1)
  | inr after ↦ rw after (p, (h.0, h.1))
]

All-weaken :
    (a b : Agent) (bs : List Agent) → Precedes a b → All (Precedes b) bs → All (Precedes a) bs
All-weaken a b [] e h = tt
All-weaken a b (c ∷ bs) e h = (Precedes-trans a b c e h.0, All-weaken a b bs e h.1)

insert-IsOrdered : (a : Agent) (bs : List Agent) → IsOrdered bs → IsOrdered (insert_record a bs)
unfolding insert_record
insert-IsOrdered a [] h = (tt, tt)
insert-IsOrdered a (b ∷ bs) h = elim (Bool-cases (older b a)) [
  | inl first ↦
      rw first (
        All-insert (Precedes b) a bs (older-Precedes_first a b first) h.0,
        insert-IsOrdered a bs h.1,
      )
  | inr after ↦
      let before : Precedes a b = older-Precedes a b after in
      rw after ((before, All-weaken a b bs before h.0), h)
]

adds-IsOrdered :
    (r : Res ReadError Agent) (s t : Scanned)
    → EntryAdds r s t
    → IsOrdered s.sessions
    → IsOrdered t.sessions
adds-IsOrdered (ok a) s t e h = rw e (insert-IsOrdered a s.sessions h)
adds-IsOrdered (err _) s t e h = rw e h

nil-IsOrdered : (l : List Agent) → l ≡ [] → IsOrdered l
nil-IsOrdered [] e = tt
nil-IsOrdered (a ∷ l) e = cc

scan-IsOrdered : (d : Dir) (t : Scanned) → scan d ≡ ok t → IsOrdered t.sessions
unfolding scan
scan-IsOrdered [] t h = nil-IsOrdered t.sessions (ground arith)
scan-IsOrdered ((i, f) ∷ d) t h =
    let (s, rest, adds) = scan_entry-ok i (read i f) (scan d) t h in
    adds-IsOrdered (read i f) s t adds (scan-IsOrdered d s rest)

-- In a listing that succeeds each record was created before those behind it, or at the same time
-- with an id that does not come later in the lexicographic order.
pub all-IsOrdered : (d : Dir) (l : List Agent) → all d ≡ ok l → IsOrdered l
all-IsOrdered d l h =
    let (s, scanned, sessions) = all-ok d l h in rw (← sessions) (scan-IsOrdered d s scanned)
