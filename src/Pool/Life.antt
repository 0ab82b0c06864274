-- ===== src/Pool/Life.antt =====
-- The life of a memory pool, from its creation to the garbage collector: src/ape_pool.c.
use mathlib.Core.Path.{subst}
use prg_buildsh.Prelude.{false, ℕ, ◌≡◌, Option, some, [], ◌∷◌, ◌==◌, if◌then◌else◌, arith}
use prg_buildsh.Machine.{
  value_at, Value, userdata, apr_pool, Lua, Call, Status, Apr, ok, State, invoke, pointer_of,
}
use prg_buildsh.Pool.{ape_pool_create, ape_pool_child, ape_pool_gc}

module _ (L : Lua) (E : Apr) where
  -- The object at q is collected: the pool h is destroyed, unless it is NULL.
  abbrev pub Collected : ℕ → ℕ → State E.World → Type 0
  Collected q h u =
      let (r, v) = invoke (ape_pool_gc L E) (userdata q ∷ []) u in
      (r ≡ ok 0) × (v.trace ≡ (if h == 0 then u.trace else Call.pool_destroy h ∷ u.trace))

  gc-Collected :
      (q : ℕ) (u : State E.World)
      → L.udata_of apr_pool (userdata q) ≡ some q
      → Collected q (u.block q) u
  unfolding ape_pool_gc
  gc-Collected q u known = (ground arith, ground arith)

  module _ (s : State E.World) where
    -- The new object, and what APR stores in it.
    abbrev pub new_pool : ℕ
    new_pool = (E.run (Call.newobject apr_pool) s.world).0

    abbrev pub created : Status × Option ℕ
    created = (E.run (Call.pool_create 0) (E.run (Call.newobject apr_pool) s.world).1).0

    create-block : (ape_pool_create L E s).1.block new_pool ≡ pointer_of created.1
    unfolding ape_pool_create
    create-block = ground arith

    -- The object that `pool_create` makes, whether it returns it or raises an error, can be collected:
    -- the pool that APR has created is destroyed, once, and nothing is destroyed if there is none.
    pub pool_gc-pool_create :
        L.udata_of apr_pool (userdata new_pool) ≡ some new_pool
        → Collected new_pool (pointer_of created.1) (ape_pool_create L E s).1
    pool_gc-pool_create known =
        subst (λ h. Collected new_pool h (ape_pool_create L E s).1) create-block
          (gc-Collected new_pool (ape_pool_create L E s).1 known)

  module _ (s : State E.World) {v : Value} {p : ℕ} (given : value_at 1 s ≡ some v)
      (parent : L.udata_of apr_pool v ≡ some p) where
    -- The new object, and what APR stores in it.
    abbrev pub child_pool : ℕ
    child_pool = (E.run (Call.newobject_ref apr_pool) s.world).0

    abbrev pub child_created : Status × Option ℕ
    child_created =
        (E.run (Call.pool_create (s.block p)) (E.run (Call.newobject_ref apr_pool) s.world).1).0

    child-block :
        (child_pool == p) ≡ false
        → (ape_pool_child L E s).1.block child_pool ≡ pointer_of child_created.1
    unfolding ape_pool_child
    child-block apart = ground arith

    -- `child` asks APR for a pool below the one of its argument, and the object that it makes,
    -- whether it returns it or raises an error, can be collected: the pool that APR has created is
    -- destroyed, once, and nothing is destroyed if there is none. The new object does not lie at
    -- the place of the old one.
    pub pool_gc-pool_child :
        (child_pool == p) ≡ false
        → L.udata_of apr_pool (userdata child_pool) ≡ some child_pool
        → Collected child_pool (pointer_of child_created.1) (ape_pool_child L E s).1
    pool_gc-pool_child apart known =
        subst (λ h. Collected child_pool h (ape_pool_child L E s).1) (child-block apart)
          (gc-Collected child_pool (ape_pool_child L E s).1 known)
