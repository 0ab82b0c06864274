-- ===== src/Pool.antt =====
-- Memory pools: src/ape_pool.c.
pub mod Life
use prg_buildsh.Prelude.{ℕ, List, [], ◌∷◌, ◌==◌, if◌then◌else◌, Text, text}
use prg_buildsh.Machine.{
  userdata, apr_pool, Lua, Call, Status, Apr, failed, M, pure, raise, gets, ◌>>=◌, ◌>>◌, call,
  value_at, is_none_or_nil, push, read_block, write_block, store_block, check_udata,
}

module _ (L : Lua) (E : Apr) where
  -- The block of the pool at argument i, or of the pool in the registry, which is cleared first.
  unfoldable pub ape_opt_pool : ℕ → M E.World ℕ
  ape_opt_pool i = do
    v ← gets (value_at i)
    if is_none_or_nil v
        then (do
          pool ← call E Call.registry_pool
          h ← read_block pool
          call E (Call.pool_clear h)
          pure pool)
        else check_udata L apr_pool i

  -- `ape_assert( L, rv, "APR memory pool" )`
  abbrev pub assert_pool : Status → M E.World (Unit {0})
  assert_pool rv = if rv == 0 then pure tt else raise (failed (text "APR memory pool") rv)

  unfoldable pub ape_pool_child : M E.World ℕ
  ape_pool_child = do
    parent ← check_udata L apr_pool 1
    pool ← call E (Call.newobject_ref apr_pool)
    write_block pool 0
    push (userdata pool)
    h ← read_block parent
    (rv, p) ← call E (Call.pool_create h)
    store_block pool p
    assert_pool rv
    pure 1

  unfoldable pub ape_pool_gc : M E.World ℕ
  ape_pool_gc = do
    pool ← check_udata L apr_pool 1
    h ← read_block pool
    if h == 0 then pure 0 else (do call E (Call.pool_destroy h); pure 0)

  -- A pool without a parent; its allocator, if it has one of its own, keeps little free memory.
  unfoldable pub ape_pool_create : M E.World ℕ
  ape_pool_create = do
    pool ← call E (Call.newobject apr_pool)
    write_block pool 0
    push (userdata pool)
    (rv, p) ← call E (Call.pool_create 0)
    store_block pool p
    assert_pool rv
    h ← read_block pool
    allocator ← call E (Call.allocator_get h)
    if allocator == 0 then pure 1 else (do call E (Call.max_free_set allocator 32); pure 1)

  unfoldable pub ape_pool_metamethods : List (Text × M E.World ℕ)
  ape_pool_metamethods = (text "__gc", ape_pool_gc) ∷ []

  unfoldable pub ape_pool_methods : List (Text × M E.World ℕ)
  ape_pool_methods = (text "child", ape_pool_child) ∷ []

  unfoldable pub ape_pool_functions : List (Text × M E.World ℕ)
  ape_pool_functions = (text "pool_create", ape_pool_create) ∷ []
