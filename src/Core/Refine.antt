-- ===== src/Core/Refine.antt =====
-- The rules by which an operation is shown to write only as `Evolves` permits. `Quiet` operations
-- write no record; a proof about one that writes starts from the directory `d` that it began with.
pub mod Names
pub mod Parts
pub mod Changes
pub mod Stops
pub mod Runs
pub mod Launches
pub mod Mints
pub mod Messages
use tx_ide_rs.Prelude.{
  ℕ, ◌≡◌, refl, sym, ap, ◌∙◌, ◌⊎◌, inl, inr, Bool, true, false, not, List, [], ◌∷◌, Option, none,
  some, arith, Text, if◌then◌else◌, Bool-cases,
}
use tx_ide_rs.Agent.{Agent, AgentId, EngineKind, is_ended}
use tx_ide_rs.Result.{Res, ok, err, StoreError, CoreError}
use tx_ide_rs.Store.{Dir, load, put}
use tx_ide_rs.Engine.{LlmEngine}
use tx_ide_rs.Engine.Registry.{get_engine}
use tx_ide_rs.Events.{Event, EventType}
use tx_ide_rs.Core.World.{
  TxCore, World, M, WriteOutcome, written, unencodable, not_written, not_synced, bind_result, pure,
  fail, ◌>>=◌, ◌>>◌, guard, ask, attempt, effect, from_store, from_result, from_option, emit, save,
  write_agent, get_agent, all_agents, event, is_live, find_live, live_or_not_running,
  hold_create_lock, hold_agent_lock, engine_of,
}
use tx_ide_rs.Core.Evolve.{Step, Evolves, same, more}

pub Evolves-same : {may : Bool} {d e f : Dir} → Evolves may d e → f ≡ e → Evolves may d f
Evolves-same h p = rw p h

pub Evolves-trans : {may : Bool} {d e f : Dir} → Evolves may d e → Evolves may e f → Evolves may d f
Evolves-trans h (same p) = Evolves-same h p
Evolves-trans h (more k st) = more (Evolves-trans h k) st

module _ {T : Type 0} where
  abbrev pub Quiet : {A : Type 0} → M T A → Type 0
  Quiet m = (w : World T) → (m w).1.dir ≡ w.dir

  -- Started on the directory `d`, the operation leaves one that `d` may become.
  abbrev pub From : {A : Type 0} → Bool → Dir → M T A → Type 0
  From may d m = (w : World T) → w.dir ≡ d → Evolves may d (m w).1.dir

  bind_result-Quiet :
      {A B : Type 0} (r : Res CoreError A × World T) (f : A → M T B)
      → ((a : A) → Quiet (f a))
      → (bind_result r f).1.dir ≡ r.1.dir
  bind_result-Quiet (ok a, w) f h = h a w
  bind_result-Quiet (err e, w) f h = refl

  pub bind-Quiet :
      {A B : Type 0} (m : M T A) (f : A → M T B)
      → Quiet m
      → ((a : A) → Quiet (f a))
      → Quiet (m >>= f)
  unfolding ◌>>=◌
  bind-Quiet m f h k w = bind_result-Quiet (m w) f k ∙ h w

  pub if-Quiet :
      {A : Type 0} (b : Bool) (m k : M T A) → Quiet m → Quiet k → Quiet (if b then m else k)
  if-Quiet true m k h h' = h
  if-Quiet false m k h h' = h'

  pub guard-Quiet : (b : Bool) (e : CoreError) → Quiet (guard b e)
  guard-Quiet true e w = refl
  guard-Quiet false e w = refl

  pub from_option-Quiet : {A : Type 0} (e : CoreError) (o : Option A) → Quiet (from_option e o)
  from_option-Quiet e none w = refl
  from_option-Quiet e (some a) w = refl

  pub Quiet-From : {may : Bool} {A : Type 0} (d : Dir) (m : M T A) → Quiet m → From may d m
  Quiet-From d m q w e = same (q w ∙ e)

  pub bind_result-From :
      {may : Bool} {A B : Type 0} (d : Dir) (r : Res CoreError A × World T) (f : A → M T B)
      → r.1.dir ≡ d
      → ((a : A) → r.0 ≡ ok a → From may d (f a))
      → Evolves may d (bind_result r f).1.dir
  bind_result-From d (ok a, w) f e k = k a refl w e
  bind_result-From d (err x, w) f e k = same e

  -- After a quiet step the operation still stands on `d`.
  pub bind-From :
      {may : Bool} {A B : Type 0} (d : Dir) (m : M T A) (f : A → M T B)
      → Quiet m
      → ((a : A) → From may d (f a))
      → From may d (m >>= f)
  unfolding ◌>>=◌
  bind-From d m f q k w e = bind_result-From d (m w) f (q w ∙ e) (λ a _. k a)

  -- The same, where the result tells something of `d`.
  pub bind-From_result :
      {may : Bool} {A B : Type 0} (d : Dir) (m : M T A) (f : A → M T B)
      → Quiet m
      → ((a : A) (w : World T) → w.dir ≡ d → (m w).0 ≡ ok a → From may d (f a))
      → From may d (m >>= f)
  unfolding ◌>>=◌
  bind-From_result d m f q k w e = bind_result-From d (m w) f (q w ∙ e) (λ a h. k a w e h)

  pub if-From :
      {may : Bool} {A : Type 0} (d : Dir) (b : Bool) (m k : M T A)
      → (b ≡ true → From may d m)
      → (b ≡ false → From may d k)
      → From may d (if b then m else k)
  if-From d true m k h h' = h refl
  if-From d false m k h h' = h' refl

  pub bind_result-after :
      {may : Bool} {A B : Type 0} (d : Dir) (r : Res CoreError A × World T) (f : A → M T B)
      → Evolves may d r.1.dir
      → ((a : A) → Quiet (f a))
      → Evolves may d (bind_result r f).1.dir
  bind_result-after d (ok a, w) f h k = Evolves-same h (k a w)
  bind_result-after d (err x, w) f h k = h

  -- What follows a write is quiet.
  pub bind-From_after :
      {may : Bool} {A B : Type 0} (d : Dir) (m : M T A) (f : A → M T B)
      → From may d m
      → ((a : A) → Quiet (f a))
      → From may d (m >>= f)
  unfolding ◌>>=◌
  bind-From_after d m f h k w e = bind_result-after d (m w) f (h w e) k

  -- Past a guard its condition holds.
  pub guard-From :
      {may : Bool} {B : Type 0} (d : Dir) (b : Bool) (e : CoreError) (f : Unit {0} → M T B)
      → (b ≡ true → From may d (f tt))
      → From may d (guard b e >>= f)
  unfolding ◌>>=◌
  guard-From d true e f k = k refl
  guard-From d false e f k = λ w p. same p

  bind_result-then :
      {may : Bool} {A B : Type 0} (d : Dir) (r : Res CoreError A × World T) (f : A → M T B)
      → Evolves may d r.1.dir
      → ((a : A) (e : Dir) → From may e (f a))
      → Evolves may d (bind_result r f).1.dir
  bind_result-then d (ok a, w) f h k = Evolves-trans h (k a w.dir w refl)
  bind_result-then d (err x, w) f h k = h

  -- Two operations that write as permitted, one after the other.
  pub bind-From_then :
      {may : Bool} {A B : Type 0} (d : Dir) (m : M T A) (f : A → M T B)
      → From may d m
      → ((a : A) (e : Dir) → From may e (f a))
      → From may d (m >>= f)
  unfolding ◌>>=◌
  bind-From_then d m f h k w e = bind_result-then d (m w) f (h w e) k

  bind_result-ok :
      {A B : Type 0} (r : Res CoreError A × World T) (f : A → M T B) (b : B)
      → (bind_result r f).0 ≡ ok b
      → (a : A) × (r.0 ≡ ok a) × ((f a r.1).0 ≡ ok b)
  bind_result-ok (ok a, w) f b h = (a, refl, h)
  bind_result-ok (err e, w) f b h = cc

  -- What succeeded in two parts succeeded in each.
  pub bind-ok :
      {A B : Type 0} (m : M T A) (f : A → M T B) (w : World T) (b : B)
      → ((m >>= f) w).0 ≡ ok b
      → (a : A) × ((m w).0 ≡ ok a) × ((f a (m w).1).0 ≡ ok b)
  unfolding ◌>>=◌
  bind-ok m f w b h = bind_result-ok (m w) f b h
