-- ===== src/File/Paths.antt =====
-- Files by name: the functions of src/ape_file.c on paths.
use prg_buildsh.Prelude.{ℕ, ◌==◌}
use prg_buildsh.Machine.{
  string, apr_time, fattrs, fperms, Lua, Call, Apr, M, when, ◌>>=◌, ◌>>◌, call, push, read_block,
  or_empty, check_string, check_udata, flag_get, minus_one, count, ape_status,
}
use prg_buildsh.Pool.{ape_opt_pool}

module _ (L : Lua) (E : Apr) where
  -- `*ape_opt_pool( L, i )`
  abbrev pub opt_pool : ℕ → M E.World ℕ
  opt_pool i = do pool ← ape_opt_pool L E i; read_block pool

  unfoldable pub ape_file_remove : M E.World ℕ
  ape_file_remove = do
    path ← check_string L 1
    pool ← opt_pool 2
    rv ← call E (Call.file_remove path pool)
    ape_status E minus_one rv

  unfoldable pub ape_file_rename : M E.World ℕ
  ape_file_rename = do
    fpath ← check_string L 1
    tpath ← check_string L 2
    pool ← opt_pool 3
    rv ← call E (Call.file_rename fpath tpath pool)
    ape_status E minus_one rv

  unfoldable pub ape_file_link : M E.World ℕ
  ape_file_link = do
    fpath ← check_string L 1
    tpath ← check_string L 2
    rv ← call E (Call.file_link fpath tpath)
    ape_status E minus_one rv

  unfoldable pub ape_file_copy : M E.World ℕ
  ape_file_copy = do
    fpath ← check_string L 1
    tpath ← check_string L 2
    perms ← flag_get L fperms 3
    pool ← opt_pool 4
    rv ← call E (Call.file_copy fpath tpath perms pool)
    ape_status E minus_one rv

  unfoldable pub ape_file_append : M E.World ℕ
  ape_file_append = do
    fpath ← check_string L 1
    tpath ← check_string L 2
    perms ← flag_get L fperms 3
    pool ← opt_pool 4
    rv ← call E (Call.file_append fpath tpath perms pool)
    ape_status E minus_one rv

  unfoldable pub ape_file_namedpipe_create : M E.World ℕ
  ape_file_namedpipe_create = do
    name ← check_string L 1
    perms ← flag_get L fperms 2
    pool ← opt_pool 3
    rv ← call E (Call.namedpipe_create name perms pool)
    ape_status E minus_one rv

  unfoldable pub ape_file_perms_set : M E.World ℕ
  ape_file_perms_set = do
    path ← check_string L 1
    perms ← flag_get L fperms 2
    rv ← call E (Call.file_perms_set path perms)
    ape_status E minus_one rv

  unfoldable pub ape_file_attrs_set : M E.World ℕ
  ape_file_attrs_set = do
    path ← check_string L 1
    attr ← flag_get L fattrs 2
    amask ← flag_get L fattrs 3
    pool ← opt_pool 4
    rv ← call E (Call.file_attrs_set path attr amask pool)
    ape_status E minus_one rv

  unfoldable pub ape_file_mtime_set : M E.World ℕ
  ape_file_mtime_set = do
    path ← check_string L 1
    t ← check_udata L apr_time 2
    pool ← opt_pool 3
    time ← read_block t
    rv ← call E (Call.file_mtime_set path time pool)
    ape_status E minus_one rv

  unfoldable pub ape_dir_make : M E.World ℕ
  ape_dir_make = do
    path ← check_string L 1
    perms ← flag_get L fperms 2
    pool ← opt_pool 3
    rv ← call E (Call.dir_make path perms pool)
    ape_status E minus_one rv

  unfoldable pub ape_dir_make_recursive : M E.World ℕ
  ape_dir_make_recursive = do
    path ← check_string L 1
    perms ← flag_get L fperms 2
    pool ← opt_pool 3
    rv ← call E (Call.dir_make_recursive path perms pool)
    ape_status E minus_one rv

  unfoldable pub ape_dir_remove : M E.World ℕ
  ape_dir_remove = do
    path ← check_string L 1
    pool ← opt_pool 2
    rv ← call E (Call.dir_remove path pool)
    ape_status E minus_one rv

  unfoldable pub ape_temp_dir_get : M E.World ℕ
  ape_temp_dir_get = do
    pool ← opt_pool 1
    (rv, s) ← call E (Call.temp_dir_get pool)
    when (rv == 0) (push (string (or_empty s)))
    ape_status E (count 1) rv
