-- ===== src/Env.antt =====
-- Environment variables: src/ape_env.c.
use prg_buildsh.Prelude.{List, [], ◌∷◌, Text, text, ℕ, ◌==◌}
use prg_buildsh.Machine.{
  string, Lua, Call, Apr, M, when, ◌>>=◌, ◌>>◌, call, push, read_block, or_empty, check_string,
  minus_one, count, ape_status,
}
use prg_buildsh.Pool.{ape_opt_pool}

module _ (L : Lua) (E : Apr) where
  unfoldable pub ape_env_get : M E.World ℕ
  ape_env_get = do
    name ← check_string L 1
    pool ← ape_opt_pool L E 2
    h ← read_block pool
    (rv, value) ← call E (Call.env_get name h)
    when (rv == 0) (push (string (or_empty value)))
    ape_status E (count 1) rv

  unfoldable pub ape_env_set : M E.World ℕ
  ape_env_set = do
    name ← check_string L 1
    value ← check_string L 2
    pool ← ape_opt_pool L E 3
    h ← read_block pool
    rv ← call E (Call.env_set name value h)
    ape_status E minus_one rv

  unfoldable pub ape_env_delete : M E.World ℕ
  ape_env_delete = do
    name ← check_string L 1
    pool ← ape_opt_pool L E 2
    h ← read_block pool
    rv ← call E (Call.env_delete name h)
    ape_status E minus_one rv

  unfoldable pub ape_env_functions : List (Text × M E.World ℕ)
  ape_env_functions =
      (text "env_get", ape_env_get)
      ∷ (text "env_set", ape_env_set)
      ∷ (text "env_delete", ape_env_delete)
      ∷ []
