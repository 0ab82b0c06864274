-- ===== src/File/ClosedDirs.antt =====
-- Methods of a directory handle that has been closed: src/ape_file.c behind `if( *dir != NULL )`.
use prg_buildsh.Prelude.{ℕ, ◌≡◌, some, arith}
use prg_buildsh.Machine.{Value, apr_dir, Lua, Apr, State, value_at, Refuses, Each, ape_status}
use prg_buildsh.File.Info.{table2want-cases}
use prg_buildsh.File.Dirs.{ape_dir_close, ape_dir_read, ape_dir_rewind}
use prg_buildsh.File.Names.{ape_dir_methods}

module _ (L : Lua) (E : Apr) (s : State E.World) {v : Value} {p : ℕ} (given : value_at 1 s ≡ some v)
    (dir : L.udata_of apr_dir v ≡ some p) (closed : s.block p ≡ 0) where
  dir_close-closed : Refuses E E.ebadf s (ape_dir_close L E s)
  unfolding ape_dir_close ape_status
  dir_close-closed = ground (arith, E.ebadf_ne)

  dir_read-closed : Refuses E E.ebadf s (ape_dir_read L E s)
  unfolding ape_dir_read ape_status
  dir_read-closed = ground (arith, E.ebadf_ne, table2want-cases L E 2 s)

  dir_rewind-closed : Refuses E E.ebadf s (ape_dir_rewind L E s)
  unfolding ape_dir_rewind ape_status
  dir_rewind-closed = ground (arith, E.ebadf_ne)

  -- Every method of a closed directory handle refuses: it raises an argument error or returns nil,
  -- a message and APR_EBADF; it calls neither APR nor moon, and memory, tables and the outside world
  -- stay as they were.
  pub closed_dirs_refuse : Each (λ f. Refuses E E.ebadf s (f s)) (ape_dir_methods L E)
  unfolding ape_dir_methods
  closed_dirs_refuse = (dir_close-closed, (dir_read-closed, (dir_rewind-closed, tt)))
