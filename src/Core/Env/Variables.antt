-- ===== src/Core/Env/Variables.antt =====
-- The variables that the MCP servers of a profile name (`start_locked` of tx-core/src/core.rs).
use tx_ide_rs.Prelude.{
  ◌≡◌, refl, sym, ap, ◌∙◌, ◌⊎◌, inl, inr, true, false, List, [], ◌∷◌, ◌++◌, Option, none, some,
  arith, Text, text_eq, text_eq_iff, text_eq_refl, if◌then◌else◌, Bool-cases, Option-cases, All,
}
use tx_ide_rs.Result.{Res, ok, err, CoreError}
use tx_ide_rs.Core.Env.{
  Env, env_get, has_key, found_secret, add_secret, and_then, add_variables, add_secrets,
}
use tx_ide_rs.Core.Env.Secrets.{over}

env_get-append :
    (k i v : Text) (env : Env)
    → env_get k (env ++ (i, v) ∷ []) ≡ over (env_get k env) (if text_eq i k then some v else none)
unfolding env_get
env_get-append k i v [] = refl
env_get-append k i v ((j, x) ∷ env) = elim (Bool-cases (text_eq j k)) [
  | inl same ↦ rw same
  | inr other ↦ rw other (env_get-append k i v env)
]

-- The environment gives the key a value.
abbrev pub Given : Env → Text → Type 0
Given env k = (v : Text) × (env_get k env ≡ some v)

has_key-Given : (k : Text) (env : Env) → has_key k env ≡ true → Given env k
unfolding has_key env_get
has_key-Given k [] h = cc
has_key-Given k ((j, x) ∷ env) h = elim (Bool-cases (text_eq j k)) [
  | inl same ↦ (x, rw same)
  | inr other ↦ rw other (has_key-Given k env (rw other at h))
]

no_key : (k : Text) (env : Env) → has_key k env ≡ false → env_get k env ≡ none
unfolding has_key env_get
no_key k [] h = refl
no_key k ((j, x) ∷ env) h = elim (Bool-cases (text_eq j k)) [
  | inl same ↦ absurd (ground arith)
  | inr other ↦ rw other (no_key k env (rw other at h))
]

module _ (caller : Env) where
  -- Every value is kept, and a new one is the caller's.
  abbrev pub Extends : Env → Env → Type 0
  Extends env env' =
      (k : Text)
      → (env_get k env' ≡ env_get k env)
        ⊎ ((env_get k env ≡ none) × (env_get k env' ≡ env_get k caller))

  Extends-trans : (a b c : Env) → Extends a b → Extends b c → Extends a c
  Extends-trans a b c h h' k = join (h k) (h' k)
    where
      join :
          (env_get k b ≡ env_get k a) ⊎ ((env_get k a ≡ none) × (env_get k b ≡ env_get k caller))
          → (env_get k c ≡ env_get k b) ⊎ ((env_get k b ≡ none) × (env_get k c ≡ env_get k caller))
          → (env_get k c ≡ env_get k a) ⊎ ((env_get k a ≡ none) × (env_get k c ≡ env_get k caller))
      join (inl p) (inl q) = inl (q ∙ p)
      join (inl p) (inr q) = inr (sym p ∙ q.0, q.1)
      join (inr p) (inl q) = inr (p.0, q ∙ p.1)
      join (inr p) (inr q) = inr (p.0, q.1)

  Extends-Given : (a b : Env) (k : Text) → Extends a b → Given a k → Given b k
  Extends-Given a b k h (v, g) = kept (h k)
    where
      kept :
          (env_get k b ≡ env_get k a) ⊎ ((env_get k a ≡ none) × (env_get k b ≡ env_get k caller))
          → Given b k
      kept (inl p) = (v, p ∙ g)
      kept (inr p) = let clash : none ≡ some v = sym p.0 ∙ g in absurd (ground arith)

  -- A missing variable, appended with the caller's value.
  appended :
      (variable value : Text) (env : Env)
      → env_get variable caller ≡ some value
      → env_get variable env ≡ none
      → Extends env (env ++ (variable, value) ∷ []) × Given (env ++ (variable, value) ∷ []) variable
  appended variable value env from_caller missing = (
    λ k. by_key k (Option-cases (env_get k env)) (Bool-cases (text_eq variable k)),
    (value, env_get-append variable variable value env ∙ rw (missing, text_eq_refl variable)),
  )
    where
      by_key :
          (k : Text)
          → (env_get k env ≡ none) ⊎ ((v : Text) × (env_get k env ≡ some v))
          → (text_eq variable k ≡ true) ⊎ (text_eq variable k ≡ false)
          → (env_get k (env ++ (variable, value) ∷ []) ≡ env_get k env)
            ⊎ ((env_get k env ≡ none)
                × (env_get k (env ++ (variable, value) ∷ []) ≡ env_get k caller))
      by_key k (inr (v, e)) t = inl (env_get-append k variable value env ∙ rw e)
      by_key k (inl e) (inl t) = inr (
        e,
        env_get-append k variable value env
            ∙ rw (e, t)
                (sym from_caller ∙ ap (λ i. env_get i caller) ((text_eq_iff variable k).0 t)),
      )
      by_key k (inl e) (inr t) = inl (env_get-append k variable value env ∙ rw (e, t))

  add_secret-Extends :
      (server variable : Text) (env env' : Env)
      → add_secret caller server variable env ≡ ok env'
      → Extends env env' × Given env' variable
  unfolding add_secret found_secret
  add_secret-Extends server variable env env' h = elim (Bool-cases (has_key variable env)) [
    | inl there ↦ let same : ok env ≡ ok env' = rw there at h in unchanged there (cc)
    | inr missing ↦ looked_up (env_get variable caller) refl missing (rw missing at h)
  ]
    where
      unchanged : has_key variable env ≡ true → env ≡ env' → Extends env env' × Given env' variable
      unchanged there e = rw (← e) ((λ k. inl refl), has_key-Given variable env there)

      looked_up :
          (o : Option Text)
          → env_get variable caller ≡ o
          → has_key variable env ≡ false
          → found_secret server variable env o ≡ ok env'
          → Extends env env' × Given env' variable
      looked_up none e m g = cc
      looked_up (some value) e m g =
          let grown : env ++ (variable, value) ∷ [] ≡ env' = cc in
          rw (← grown) (appended variable value env e (no_key variable env m))

  and_then-ok :
      (r : Res CoreError Env) (f : Env → Res CoreError Env) (env' : Env)
      → and_then r f ≡ ok env'
      → (env : Env) × (r ≡ ok env) × (f env ≡ ok env')
  unfolding and_then
  and_then-ok (ok env) f env' h = (env, refl, h)
  and_then-ok (err e) f env' h = cc

  add_variables-Extends :
      (server : Text) (variables : List Text) (env env' : Env)
      → add_variables caller server variables env ≡ ok env'
      → Extends env env' × All (Given env') variables
  unfolding add_variables
  add_variables-Extends server [] env env' h =
      let same : env ≡ env' = cc in rw (← same) ((λ k. inl refl), tt)
  add_variables-Extends server (variable ∷ variables) env env' h =
      let (mid, first, rest) =
        and_then-ok (add_secret caller server variable env) (add_variables caller server variables)
          env' h in
      let (grown, there_is) = add_secret-Extends server variable env mid first in
      let (grown', there_are) = add_variables-Extends server variables mid env' rest in
      (
        Extends-trans env mid env' grown grown',
        (Extends-Given mid env' variable grown' there_is, there_are),
      )

  All-Given :
      (a b : Env) (variables : List Text)
      → Extends a b
      → All (Given a) variables
      → All (Given b) variables
  All-Given a b [] h g = tt
  All-Given a b (v ∷ vs) h g = (Extends-Given a b v h g.0, All-Given a b vs h g.1)

  -- When the variables of the servers are added, every variable that a server names has a value; a
  -- value that was there is kept, and a new one is the caller's.
  add_secrets-Extends :
      (servers : List (Text × List Text)) (env env' : Env)
      → add_secrets caller servers env ≡ ok env'
      → Extends env env' × All (λ s. All (Given env') s.1) servers
  unfolding add_secrets add_variables
  add_secrets-Extends [] env env' h =
      let same : env ≡ env' = cc in rw (← same) ((λ k. inl refl), tt)
  add_secrets-Extends ((server, variables) ∷ servers) env env' h =
      let (mid, first, rest) =
        and_then-ok (add_variables caller server variables env) (add_secrets caller servers) env'
          h in
      let (grown, there_are) = add_variables-Extends server variables env mid first in
      let (grown', later) = add_secrets-Extends servers mid env' rest in
      (
        Extends-trans env mid env' grown grown',
        (All-Given mid env' variables grown' there_are, later),
      )
