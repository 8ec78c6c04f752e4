-- ===== src/Artifacts/Record/History.antt =====
-- The history of an artifact: its revisions are counted from 0.
use mathlib.Core.Path.{subst}
use tx_ide_rs.Prelude.{
  ℕ, ◌+◌, ◌≡◌, refl, ap, ◌∙◌, List, [], ◌∷◌, ◌++◌, Option, some, Text, length, arith, length-append,
}
use tx_ide_rs.Artifacts.Record.{
  Kind, Touch, Artifact, new_artifact, last, record_touch, touch_after,
}

-- The revisions are `start`, `start + 1`, … in order.
pub CountsFrom : ℕ → List Touch → Type 0
CountsFrom start [] = Unit
CountsFrom start (t ∷ touches) = (t.rev ≡ start) × CountsFrom (start + 1) touches

-- An artifact that is made and touched, and how many touches it has had.
pub data Touched : ℕ → Artifact → Type 0 where
  made :
      (id : Text) (kind : Kind) (title : Option Text) (filename : Text) (created_at : ℕ)
      (group : Option Text) (session_id : Text)
      → Touched 0 (new_artifact id kind title filename created_at group session_id)
  touched :
      (n : ℕ) (a b : Artifact) (session_id : Text) (at_ : ℕ) (changes : Option Text) (rev : ℕ)
      → Touched n a
      → record_touch session_id at_ changes a ≡ some (rev, b)
      → Touched (n + 1) b

last-snoc : (touches : List Touch) (t : Touch) → last (touches ++ t ∷ []) ≡ some t
unfolding last
last-snoc [] t = refl
last-snoc (u ∷ []) t = refl
last-snoc (u ∷ v ∷ touches) t = last-snoc (v ∷ touches) t

CountsFrom-snoc :
    (start : ℕ) (touches : List Touch) (t : Touch)
    → CountsFrom start touches
    → t.rev ≡ start + length touches
    → CountsFrom start (touches ++ t ∷ [])
unfolding CountsFrom
CountsFrom-snoc start [] t h e = (omega (arith, e), tt)
CountsFrom-snoc start (u ∷ touches) t (here, rest) e =
    (here, CountsFrom-snoc (start + 1) touches t rest (omega (arith, e)))

-- A history of `n` touches after the first, which are counted.
record IsCounted (n : ℕ) (a : Artifact) : Type 0 where
  latest : Touch
  is_last : last a.history ≡ some latest
  rev : latest.rev ≡ n
  counts : CountsFrom 0 a.history
  size : length a.history ≡ n + 1

record_touch-IsCounted :
    (n : ℕ) (a : Artifact) (session_id : Text) (at_ : ℕ) (changes : Option Text)
    → IsCounted n a
    → (b : Artifact) × (record_touch session_id at_ changes a ≡ some (n + 1, b))
      × IsCounted (n + 1) b
unfolding record_touch
record_touch-IsCounted n a session_id at_ changes h =
    let t : Touch = record {
      session_id = session_id;
      at = at_;
      rev = h.latest.rev + 1;
      changes = changes;
    } in
    let b : Artifact = record a { history = a.history ++ t ∷ [] } in
    let e : touch_after session_id at_ changes a (last a.history) ≡ some (n + 1, b) =
      ap (touch_after session_id at_ changes a) h.is_last
      ∙ ap (λ (k : ℕ). some (k, b)) (omega (arith, h.rev)) in
    (
      b,
      e,
      record {
        latest = t;
        is_last = last-snoc a.history t;
        rev = omega (arith, h.rev);
        counts = CountsFrom-snoc 0 a.history t h.counts (omega (arith, h.rev, h.size));
        size = omega (arith, length-append a.history (t ∷ []), h.size);
      },
    )

Touched-IsCounted : (n : ℕ) (a : Artifact) → Touched n a → IsCounted n a
unfolding new_artifact CountsFrom last
Touched-IsCounted n a (made id kind title filename created_at group session_id) = record {
  latest = _;
  is_last = refl;
  rev = refl;
  counts = (refl, tt);
  size = refl;
}
Touched-IsCounted n b (touched m a _ session_id at_ changes rev before e) =
    let next = record_touch-IsCounted m a session_id at_ changes (Touched-IsCounted m a before) in
    let same : next.0 ≡ b = cc in subst (IsCounted (m + 1)) same next.2

-- An artifact that has been touched `n` times since it was made can be touched again without a
-- panic; the touch has the revision `n + 1`, and the revisions of the history are then `0`, `1`,
-- … in order, `n + 2` of them.
pub record_touch-counts :
    (n : ℕ) (a : Artifact) (session_id : Text) (at_ : ℕ) (changes : Option Text)
    → Touched n a
    → (b : Artifact) × (record_touch session_id at_ changes a ≡ some (n + 1, b))
      × CountsFrom 0 b.history
      × (length b.history ≡ n + 2)
record_touch-counts n a session_id at_ changes h =
    let next = record_touch-IsCounted n a session_id at_ changes (Touched-IsCounted n a h) in
    (next.0, next.1, next.2.counts, omega (arith, next.2.size))
