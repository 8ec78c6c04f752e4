-- ===== src/Core/Run/Minted.antt =====
-- The id that `MintsNew` speaks of is the one that a create or a fork returns.
use tx_ide_rs.Prelude.{◌≡◌, refl, sym, ap, ◌∙◌, Option, none, some, Text}
use tx_ide_rs.Agent.{Agent, AgentId}
use tx_ide_rs.Result.{Res, ok, err, CoreError}
use tx_ide_rs.Engine.{LlmEngine, ResolvedProfile}
use tx_ide_rs.Core.World.{TxCore, World, M, bind_result, ◌>>=◌, ask, effect}
use tx_ide_rs.Core.Launch.{
  CreateOptions, ForkOptions, source_options, after_error, on_error, launch_locked, launch_in,
  create_locked, create_agent, fork_agent,
}
use tx_ide_rs.Core.Outcome.{Returns, pure-Returns, bind-Returns}
use tx_ide_rs.Core.Refine.Mints.{minting_in, minting, fork_minting}

module _ {T : Type 0} where
  -- Where `m` succeeds, `g` gives the id in what it returns.
  Gets : {A : Type 0} → M T A → M T AgentId → (A → AgentId) → Type 0
  Gets m g id_of = (w : World T) (a : _) → (m w).0 ≡ ok a → (g w).0 ≡ ok (id_of a)

  bind_result-Gets :
      {A B : Type 0} (r : Res CoreError A × World T) (f : A → M T B) (g : A → M T AgentId)
      (id_of : B → AgentId)
      → ((a : A) → Gets (f a) (g a) id_of)
      → (b : B) → (bind_result r f).0 ≡ ok b
      → (bind_result r g).0 ≡ ok (id_of b)
  unfolding Gets
  bind_result-Gets (ok a, w) f g id_of k b h = k a w b h
  bind_result-Gets (err e, w) f g id_of k b h = cc

  bind-Gets :
      {A B : Type 0} (m : M T A) (f : A → M T B) (g : A → M T AgentId) (id_of : B → AgentId)
      → ((a : A) → Gets (f a) (g a) id_of)
      → Gets (m >>= f) (m >>= g) id_of
  unfolding ◌>>=◌ Gets
  bind-Gets m f g id_of k w b h = bind_result-Gets (m w) f g id_of k b h

  bind_result-after :
      {A B : Type 0} (r : Res CoreError A × World T) (f : A → M T B) (x : Res CoreError AgentId)
      (id_of : A → AgentId) (id_in : B → AgentId)
      → ((a : A) → r.0 ≡ ok a → x ≡ ok (id_of a))
      → ((a : A) → Returns (f a) (λ b. id_in b ≡ id_of a))
      → (b : B) → (bind_result r f).0 ≡ ok b
      → x ≡ ok (id_in b)
  unfolding Returns
  bind_result-after (ok a, w) f x id_of id_in got k b h = got a refl ∙ ap ok (sym (k a w b h))
  bind_result-after (err e, w) f x id_of id_in got k b h = cc

  bind-Gets_after :
      {A B : Type 0} (m : M T A) (f : A → M T B) (g : M T AgentId) (id_of : A → AgentId)
      (id_in : B → AgentId)
      → Gets m g id_of
      → ((a : A) → Returns (f a) (λ b. id_in b ≡ id_of a))
      → Gets (m >>= f) g id_in
  unfolding ◌>>=◌ Gets
  bind-Gets_after m f g id_of id_in got k w b h =
      bind_result-after (m w) f (g w).0 id_of id_in (got w) k b h

  mint-Gets :
      {B : Type 0} (m : M T AgentId) (f : AgentId → M T B) (id_in : B → AgentId)
      → ((id : AgentId) → Returns (f id) (λ b. id_in b ≡ id))
      → Gets (m >>= f) m id_in
  unfolding Gets
  mint-Gets m f id_in k = bind-Gets_after m f m (λ id. id) id_in (λ w a h. h) k

  after_error-ok :
      {A : Type 0} (cleanup : M T (Unit {0})) (r : Res CoreError A × World T) (a : A)
      → (after_error cleanup r).0 ≡ ok a
      → r.0 ≡ ok a
  unfolding after_error
  after_error-ok cleanup (ok b, w) a h = h
  after_error-ok cleanup (err e, w) a h = cc

  on_error-Gets :
      {A : Type 0} (cleanup : M T (Unit {0})) (m : M T A) (g : M T AgentId) (id_of : A → AgentId)
      → Gets m g id_of
      → Gets (on_error cleanup m) g id_of
  unfolding on_error Gets
  on_error-Gets cleanup m g id_of k w a h = k w a (after_error-ok cleanup (m w) a h)

module _ {T : Type 0} (core : TxCore T) where
  open core use {outside}

  launch_locked-Gets :
      (opts : CreateOptions) (name cwd : Text) (adapter : LlmEngine T) (resolved : ResolvedProfile)
      (fork_of : Option Agent)
      → Gets
          (launch_locked core opts name cwd adapter resolved fork_of)
          (ask outside.mint)
          (λ r. r.0)
  unfolding launch_locked
  launch_locked-Gets opts name cwd adapter resolved fork_of = mint-Gets (ask outside.mint) _ _ λ id.
      bind-Returns _ _ _ λ created_at. bind-Returns _ _ _ λ data_.
        bind-Returns _ _ _
          λ run. bind-Returns _ _ _ λ e. bind-Returns _ _ _ λ more. pure-Returns T _ _ refl

  launch_in-Gets :
      (opts : CreateOptions) (name worktree : Text) (adapter : LlmEngine T)
      (resolved : ResolvedProfile) (fork_of : Option Agent)
      → Gets
          (launch_in core opts name worktree adapter resolved fork_of)
          (minting_in core name worktree)
          (λ r. r.0)
  unfolding launch_in minting_in
  launch_in-Gets opts name worktree adapter resolved fork_of =
      bind-Gets _ _ _ _
        λ _. bind-Gets _ _ _ _ λ cwd. launch_locked-Gets opts name cwd adapter resolved fork_of

  create_locked-Gets :
      (opts : CreateOptions) (fork_of : Option Agent)
      → Gets (create_locked core opts fork_of) (minting core opts) (λ r. r.0)
  unfolding create_locked minting
  create_locked-Gets opts fork_of = bind-Gets _ _ _ _ λ _. bind-Gets _ _ _ _ λ _.
      bind-Gets _ _ _ _ λ there_is. bind-Gets _ _ _ _ λ _. bind-Gets _ _ _ _ λ cwd.
        bind-Gets _ _ _ _ λ adapter. bind-Gets _ _ _ _ λ _. bind-Gets _ _ _ _ λ resolved.
          bind-Gets _ _ _ _ λ _. bind-Gets _ _ _ _ λ taken. bind-Gets _ _ _ _ λ name.
            bind-Gets _ _ _ _ λ worktree.
              on_error-Gets (effect (outside.remove_worktree worktree)) _
                (minting_in core name worktree) _
                (launch_in-Gets opts name worktree adapter resolved fork_of)

  -- A create that returns an id returns the one that `minting` gives.
  create_agent-minted :
      (opts : CreateOptions) (w : World T) (id : AgentId)
      → (create_agent core opts w).0 ≡ ok id
      → (minting core opts w).0 ≡ ok id
  unfolding create_agent Gets
  create_agent-minted opts =
      bind-Gets_after (create_locked core opts none) _ (minting core opts) (λ r. r.0) (λ id. id)
        (create_locked-Gets opts none) (λ made. bind-Returns _ _ _ λ _. pure-Returns T _ _ refl)

  -- A fork that returns an id returns the one that `fork_minting` gives.
  fork_agent-minted :
      (id : AgentId) (options : ForkOptions) (w : World T) (child : AgentId)
      → (fork_agent core id options w).0 ≡ ok child
      → (fork_minting core id options w).0 ≡ ok child
  unfolding fork_agent fork_minting Gets
  fork_agent-minted id options =
      bind-Gets _ _ _ (λ i. i)
        λ _.
          bind-Gets _ _ _ (λ i. i)
            λ _.
              bind-Gets _ _ _ (λ i. i)
                λ source.
                  bind-Gets_after (create_locked core (source_options source options) (some source))
                    _ (minting core (source_options source options)) (λ r. r.0) (λ i. i)
                    (create_locked-Gets (source_options source options) (some source))
                    (λ made. bind-Returns _ _ _ λ _. pure-Returns T _ _ refl)
