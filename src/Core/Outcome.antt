-- ===== src/Core/Outcome.antt =====
-- The rules by which it is shown what an operation that succeeds has done. A proof starts from the
-- directory `d` that the operation began with.
pub mod Saved
pub mod Edits
pub mod Stopped
pub mod Refreshed
pub mod Launched
pub mod Created
pub mod Moved
pub mod Hooked
pub mod Interrupted
pub mod Respawned
use mathlib.Core.Path.{subst}
use tx_ide_rs.Prelude.{if◌then◌else◌, ◌≡◌, refl, sym, ◌∙◌, Bool, true, false, Option, none, some}
use tx_ide_rs.Agent.{Agent, AgentId}
use tx_ide_rs.Result.{Res, ok, err, CoreError}
use tx_ide_rs.Store.{Dir, load}
use tx_ide_rs.Core.World.{World, M, TxCore, bind_result, pure, fail, guard, ◌>>=◌, get_agent}
use tx_ide_rs.Core.Refine.{Quiet, bind-ok}
use tx_ide_rs.Core.Refine.Parts.{get_agent-Quiet, get_agent-ok}

module _ {T : Type 0} where
  -- Started on `d`, what the operation returns when it succeeds, with the directory it leaves.
  unfoldable pub Gives : {A : Type 0} → Dir → M T A → (A → Dir → Type 0) → Type 0
  Gives d m P = (w : World T) → w.dir ≡ d → (a : _) → (m w).0 ≡ ok a → P a (m w).1.dir

  unfoldable pub Returns : {A : Type 0} → M T A → (A → Type 0) → Type 0
  Returns m R = (w : World T) (a : _) → (m w).0 ≡ ok a → R a

module _ (T : Type 0) where
  pub pure-Gives :
      {A : Type 0} (d : Dir) (a : A) (P : A → Dir → Type 0) → P a d → Gives {T = T} d (pure a) P
  unfolding Gives
  pure-Gives d a P p w e b h =
      let same : a ≡ b = cc in subst (λ x. P x w.dir) same (subst (P a) (sym e) p)

  pub fail-Gives :
      {A : Type 0} (d : Dir) (e : CoreError) (P : A → Dir → Type 0) → Gives {T = T} d (fail e) P
  unfolding Gives
  fail-Gives d e P w at b h = cc

  pub pure-Returns : {A : Type 0} (a : A) (R : A → Type 0) → R a → Returns {T = T} (pure a) R
  unfolding Returns
  pure-Returns a R r w b h = let same : a ≡ b = cc in subst R same r

module _ {T : Type 0} where
  pub bind-Returns :
      {A B : Type 0} (m : M T A) (f : A → M T B) (R : B → Type 0)
      → ((a : A) → Returns (f a) R)
      → Returns (m >>= f) R
  unfolding Returns
  bind-Returns m f R k w b h = let (a, got, rest) = bind-ok m f w b h in k a (m w).1 b rest

  bind_result-Gives :
      {A B : Type 0} (d : Dir) (r : Res CoreError A × World T) (f : A → M T B)
      (P : B → Dir → Type 0)
      → r.1.dir ≡ d
      → ((a : A) → r.0 ≡ ok a → Gives d (f a) P)
      → (b : B) → (bind_result r f).0 ≡ ok b
      → P b (bind_result r f).1.dir
  unfolding Gives
  bind_result-Gives d (ok a, w) f P e k b h = k a refl w e b h
  bind_result-Gives d (err x, w) f P e k b h = cc

  pub bind-Gives :
      {A B : Type 0} (d : Dir) (m : M T A) (f : A → M T B) (P : B → Dir → Type 0)
      → Quiet m
      → ((a : A) → Gives d (f a) P)
      → Gives d (m >>= f) P
  unfolding ◌>>=◌ Gives
  bind-Gives d m f P q k w e b h = bind_result-Gives d (m w) f P (q w ∙ e) (λ a _. k a) b h

  pub bind-Gives_result :
      {A B : Type 0} (d : Dir) (m : M T A) (f : A → M T B) (P : B → Dir → Type 0)
      → Quiet m
      → ((a : A) (w : World T) → w.dir ≡ d → (m w).0 ≡ ok a → Gives d (f a) P)
      → Gives d (m >>= f) P
  unfolding ◌>>=◌ Gives
  bind-Gives_result d m f P q k w e b h = bind_result-Gives d (m w) f P (q w ∙ e) (λ a. k a w e) b h

  pub guard-Gives :
      {B : Type 0} (d : Dir) (t : Bool) (e : CoreError) (f : Unit {0} → M T B)
      (P : B → Dir → Type 0)
      → (t ≡ true → Gives d (f tt) P)
      → Gives d (guard t e >>= f) P
  unfolding ◌>>=◌ Gives
  guard-Gives d true e f P k = k refl
  guard-Gives d false e f P k = λ w at b h. cc

  pub if-Gives :
      {A : Type 0} (d : Dir) (t : Bool) (m k : M T A) (P : A → Dir → Type 0)
      → (t ≡ true → Gives d m P)
      → (t ≡ false → Gives d k P)
      → Gives d (if t then m else k) P
  unfolding Gives
  if-Gives d true m k P h h' = h refl
  if-Gives d false m k P h h' = h' refl

  bind_result-after :
      {A B : Type 0} (r : Res CoreError A × World T) (f : A → M T B) (P : A → Dir → Type 0)
      (Q : B → Dir → Type 0)
      → ((a : A) → r.0 ≡ ok a → P a r.1.dir)
      → ((a : A) → Quiet (f a))
      → ((a : A) → Returns (f a) (λ b. (e : Dir) → P a e → Q b e))
      → (b : B) → (bind_result r f).0 ≡ ok b
      → Q b (bind_result r f).1.dir
  unfolding Returns
  bind_result-after (ok a, w) f P Q p q k b h =
      subst (Q b) (sym (q a w)) (k a w b h w.dir (p a refl))
  bind_result-after (err x, w) f P Q p q k b h = cc

  -- What follows a write leaves the directory, and its result is told by that of the write.
  pub bind-Gives_after :
      {A B : Type 0} (d : Dir) (m : M T A) (f : A → M T B) (P : A → Dir → Type 0)
      (Q : B → Dir → Type 0)
      → Gives d m P
      → ((a : A) → Quiet (f a))
      → ((a : A) → Returns (f a) (λ b. (e : Dir) → P a e → Q b e))
      → Gives d (m >>= f) Q
  unfolding ◌>>=◌ Gives Returns
  bind-Gives_after d m f P Q p q k w e b h = bind_result-after (m w) f P Q (p w e) q k b h

  pub get_agent-Gives :
      {B : Type 0} (core : TxCore T) (d : Dir) (id : AgentId) (f : Agent → M T B)
      (P : B → Dir → Type 0)
      → ((session : Agent) → load id d ≡ ok (some session) → Gives d (f session) P)
      → Gives d (get_agent core id >>= f) P
  unfolding Gives
  get_agent-Gives core d id f P k =
      bind-Gives_result d (get_agent core id) f P (get_agent-Quiet core id) λ session w e h.
        k session (subst (λ x. load id x ≡ ok (some session)) e (get_agent-ok core id session w h))

  pub weaken-Gives :
      {A : Type 0} (d : Dir) (m : M T A) (P Q : A → Dir → Type 0)
      → ((a : A) (e : Dir) → P a e → Q a e)
      → Gives d m P
      → Gives d m Q
  unfolding Gives
  weaken-Gives d m P Q k p w e a h = k a (m w).1.dir (p w e a h)
