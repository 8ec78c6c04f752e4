-- ===== src/Core/Env/Secrets.antt =====
-- What a launch finds in its environment (`merge_env` and the variables of the MCP servers of
-- tx-core/src/core.rs).
use tx_ide_rs.Prelude.{
  ◌≡◌, refl, ◌∙◌, Bool, true, false, [], ◌∷◌, Option, none, some, arith, Text, text_eq, text_eq_iff,
  if◌then◌else◌,
}
use tx_ide_rs.Core.Env.{Env, env_get, set_env, merge_env}

env_get-set_env :
    (key value k : Text) (env : Env)
    → env_get k (set_env key value env) ≡ (if text_eq key k then some value else env_get k env)
unfolding env_get set_env
env_get-set_env key value k [] = refl
env_get-set_env key value k ((i, v) ∷ env) =
    ground (
      arith,
      text_eq_iff key k,
      text_eq_iff i key,
      text_eq_iff i k,
      env_get-set_env key value k env,
    )

-- The last value that a layer gives to a key.
pub last_value : Text → Env → Option Text
last_value k [] = none
last_value k ((i, v) ∷ layer) =
    let rest = last_value k layer in
    elim rest [ some w ↦ some w | none ↦ if text_eq i k then some v else none ]

abbrev pub over : Option Text → Option Text → Option Text
over (some v) below = some v
over none below = below

-- After a merge a key has the last value that the layer gives it, else the value it had.
env_get-merge_env :
    (k : Text) (env layer : Env)
    → env_get k (merge_env env layer) ≡ over (last_value k layer) (env_get k env)
unfolding merge_env last_value
env_get-merge_env k env [] = refl
env_get-merge_env k env ((key, value) ∷ layer) =
    env_get-merge_env k (set_env key value env) layer
    ∙ below (last_value k layer) (env_get-set_env key value k env)
  where
    below :
        (o : Option Text)
        → env_get k (set_env key value env) ≡ (if text_eq key k then some value else env_get k env)
        → over o (env_get k (set_env key value env))
          ≡ over
              (elim o [ some w ↦ some w | none ↦ if text_eq key k then some value else none ])
              (env_get k env)
    below (some w) h = refl
    below none h = h ∙ tested (text_eq key k)
      where
        tested :
            (t : Bool)
            → (if t then some value else env_get k env)
              ≡ over (if t then some value else none) (env_get k env)
        tested true = refl
        tested false = refl
