-- ===== src/File/Dirs.antt =====
-- Information about files, and directory handles: src/ape_file.c.
use prg_buildsh.Prelude.{ℕ, Bool, ◌||◌, List, [], ◌∷◌, ◌==◌, if◌then◌else◌, text}
use prg_buildsh.Machine.{
  nil, table, apr_pool, apr_file, apr_dir, Key, Lua, Call, Status, Apr, M, pure, gets, when, ◌>>=◌,
  ◌>>◌, call, push, settop, replace_arg, read_block, write_block, set_table, check_string,
  check_udata, check_table, minus_one, count, ape_status,
}
use prg_buildsh.File.Handles.{unless_null}
use prg_buildsh.File.Info.{table2want, finfo2table}

module _ (L : Lua) (E : Apr) where
  -- `rv == APR_SUCCESS || APR_STATUS_IS_INCOMPLETE( rv )`
  abbrev pub is_usable : Status → Bool
  is_usable rv = (rv == 0) || E.is_incomplete rv

  unfoldable pub ape_file_info_get : M E.World ℕ
  ape_file_info_get = do
    p ← check_udata L apr_file 1
    wanted ← table2want L E 2
    t ← check_table L 2
    settop 2
    h ← read_block p
    rv ← unless_null E h (do
      (rv, info) ← call E (Call.file_info_get wanted h)
      if is_usable rv
          then (do
            pool ← call E (Call.getuvfield p (text "pool"))
            push pool
            finfo2table E t wanted info
            pure 0)
          else pure rv)
    settop 2
    ape_status E (count 1) rv

  unfoldable pub ape_stat : M E.World ℕ
  ape_stat = do
    name ← check_string L 1
    wanted ← table2want L E 2
    t ← check_table L 2
    pool ← check_udata L apr_pool 3
    h ← read_block pool
    (rv, info) ← call E (Call.stat name wanted h)
    rv ←
        (if is_usable rv then (do finfo2table E t wanted info; push (table t); pure 0) else pure rv)
    ape_status E (count 1) rv

  -- The entries of the user value are set to nil one after the other.
  unfoldable clear_table : List Key → ℕ → M E.World (Unit {0})
  clear_table [] t = pure tt
  clear_table (k ∷ ks) t = do set_table t k nil; clear_table ks t

  unfoldable pub ape_dir_close : M E.World ℕ
  unfolding clear_table
  ape_dir_close = do
    p ← check_udata L apr_dir 1
    h ← read_block p
    rv ← unless_null E h (do
      rv ← call E (Call.dir_close h)
      when (rv == 0) (do
        write_block p 0
        t ← call E (Call.getuservalue p)
        keys ← gets (λ s. L.next_keys (s.tables t))
        clear_table keys t)
      pure rv)
    ape_status E minus_one rv

  -- At the end of the directory the result is nil.
  unfoldable pub ape_dir_read : M E.World ℕ
  ape_dir_read = do
    p ← check_udata L apr_dir 1
    wanted ← table2want L E 2
    t ← check_table L 2
    settop 2
    h ← read_block p
    rv ← unless_null E h (do
      (rv, info) ← call E (Call.dir_read wanted h)
      if is_usable rv
          then (do
            pool ← call E (Call.getuvfield p (text "pool"))
            push pool
            finfo2table E t wanted info
            pure 0)
          else if E.is_enoent rv
          then (do replace_arg 2 nil; pure 0)
          else pure rv)
    settop 2
    ape_status E (count 1) rv

  unfoldable pub ape_dir_rewind : M E.World ℕ
  ape_dir_rewind = do
    p ← check_udata L apr_dir 1
    h ← read_block p
    rv ← unless_null E h (call E (Call.dir_rewind h))
    ape_status E minus_one rv

  unfoldable pub ape_dir_gc : M E.World ℕ
  ape_dir_gc = do
    p ← check_udata L apr_dir 1
    h ← read_block p
    if h == 0 then pure 0 else (do call E (Call.dir_close h); pure 0)
