-- ===== src/User.antt =====
-- Users and groups: src/ape_user.c, as it is compiled where `APR_HAS_USER` is defined.
use prg_buildsh.Prelude.{ℕ, List, [], ◌∷◌, ◌==◌, Text, text}
use prg_buildsh.Machine.{
  boolean, string, userdata, Kind, apr_pool, apr_uid, apr_gid, Lua, Call, Apr, M, pure, when, ◌>>=◌,
  ◌>>◌, call, push, read_block, write_block, store_block, or_empty, check_string, check_udata,
  count, ape_status,
}
use prg_buildsh.Pool.{ape_opt_pool}

module _ (E : Apr) where
  unfoldable pub ape_uid_userdata : ℕ → M E.World (Unit {0})
  ape_uid_userdata uid = do
    p ← call E (Call.newobject_ref apr_uid)
    push (userdata p)
    write_block p uid

  unfoldable pub ape_gid_userdata : ℕ → M E.World (Unit {0})
  ape_gid_userdata gid = do
    p ← call E (Call.newobject_ref apr_gid)
    push (userdata p)
    write_block p gid

module _ (L : Lua) (E : Apr) where
  abbrev check_id : Kind → ℕ → M E.World ℕ
  check_id k i = do read_block (← check_udata L k i)

  abbrev opt_pool : ℕ → M E.World ℕ
  opt_pool i = do read_block (← ape_opt_pool L E i)

  -- `moon_newobject_ref` with no initialiser
  abbrev new_id : Kind → M E.World ℕ
  new_id k = do p ← call E (Call.newobject_ref k); push (userdata p); pure p

  unfoldable pub ape_uid_eq : M E.World ℕ
  ape_uid_eq = do
    a ← check_id apr_uid 1
    b ← check_id apr_uid 2
    rv ← call E (Call.uid_compare a b)
    push (boolean (rv == 0))
    pure 1

  unfoldable pub ape_uid_name_get : M E.World ℕ
  ape_uid_name_get = do
    p ← check_udata L apr_uid 1
    pool ← ape_opt_pool L E 2
    uid ← read_block p
    h ← read_block pool
    (rv, name) ← call E (Call.uid_name_get uid h)
    when (rv == 0) (push (string (or_empty name)))
    ape_status E (count 1) rv

  unfoldable pub ape_uid_homepath_get : M E.World ℕ
  ape_uid_homepath_get = do
    name ← check_string L 1
    pool ← opt_pool 2
    (rv, path) ← call E (Call.uid_homepath_get name pool)
    when (rv == 0) (push (string (or_empty path)))
    ape_status E (count 1) rv

  unfoldable pub ape_gid_eq : M E.World ℕ
  ape_gid_eq = do
    a ← check_id apr_gid 1
    b ← check_id apr_gid 2
    rv ← call E (Call.gid_compare a b)
    push (boolean (rv == 0))
    pure 1

  unfoldable pub ape_gid_name_get : M E.World ℕ
  ape_gid_name_get = do
    p ← check_udata L apr_gid 1
    pool ← ape_opt_pool L E 2
    gid ← read_block p
    h ← read_block pool
    (rv, name) ← call E (Call.gid_name_get gid h)
    when (rv == 0) (push (string (or_empty name)))
    ape_status E (count 1) rv

  unfoldable pub ape_uid_current : M E.World ℕ
  ape_uid_current = do
    pool ← check_udata L apr_pool 1
    uid ← new_id apr_uid
    gid ← new_id apr_gid
    h ← read_block pool
    (rv, u, g) ← call E (Call.uid_current h)
    store_block uid u
    store_block gid g
    ape_status E (count 2) rv

  unfoldable pub ape_uid_get : M E.World ℕ
  ape_uid_get = do
    name ← check_string L 1
    pool ← check_udata L apr_pool 2
    uid ← new_id apr_uid
    gid ← new_id apr_gid
    h ← read_block pool
    (rv, u, g) ← call E (Call.uid_get name h)
    store_block uid u
    store_block gid g
    ape_status E (count 2) rv

  unfoldable pub ape_gid_get : M E.World ℕ
  ape_gid_get = do
    name ← check_string L 1
    pool ← check_udata L apr_pool 2
    gid ← new_id apr_gid
    h ← read_block pool
    (rv, g) ← call E (Call.gid_get name h)
    store_block gid g
    ape_status E (count 1) rv

  unfoldable pub ape_user_functions : List (Text × M E.World ℕ)
  ape_user_functions =
      (text "uid_current", ape_uid_current)
      ∷ (text "uid_name_get", ape_uid_name_get)
      ∷ (text "uid_get", ape_uid_get)
      ∷ (text "uid_homepath_get", ape_uid_homepath_get)
      ∷ (text "gid_name_get", ape_gid_name_get)
      ∷ (text "gid_get", ape_gid_get)
      ∷ []

  unfoldable pub ape_uid_metamethods : List (Text × M E.World ℕ)
  ape_uid_metamethods = (text "__eq", ape_uid_eq) ∷ []

  unfoldable pub ape_uid_methods : List (Text × M E.World ℕ)
  ape_uid_methods = (text "name", ape_uid_name_get) ∷ []

  unfoldable pub ape_gid_metamethods : List (Text × M E.World ℕ)
  ape_gid_metamethods = (text "__eq", ape_gid_eq) ∷ []

  unfoldable pub ape_gid_methods : List (Text × M E.World ℕ)
  ape_gid_methods = (text "name", ape_gid_name_get) ∷ []
