-- ===== src/File/Closed.antt =====
-- Methods of a file handle that has been closed: src/ape_file.c behind `if( *file != NULL )`.
use prg_buildsh.Prelude.{ℕ, ◌≡◌, none, some, List, [], ◌∷◌, arith, Text, text}
use prg_buildsh.Machine.{
  Value, userdata, apr_file, Lua, Apr, bad_argument, raised, State, value_at, Refuses, Each, named,
  except, ape_status,
}
use prg_buildsh.File.Handles.{
  ape_file_close, ape_file_eof, ape_file_read, ape_file_write, ape_file_puts, ape_file_flush,
  ape_file_sync, ape_file_datasync, ape_file_seek, ape_file_pipe_timeout_get,
  ape_file_pipe_timeout_set, ape_file_lock, ape_file_unlock, ape_file_name_get, ape_file_flags_get,
  ape_file_trunc, ape_file_inherit_set, ape_file_inherit_unset,
}
use prg_buildsh.File.Paths.{ape_file_perms_set, ape_file_attrs_set, ape_file_mtime_set}
use prg_buildsh.File.Info.{table2want-cases}
use prg_buildsh.File.Dirs.{ape_file_info_get}
use prg_buildsh.File.Names.{ape_file_methods}

-- The methods that take a path where the others take the handle.
abbrev pub path_methods : List Text
path_methods = text "perms_set" ∷ text "attrs_set" ∷ text "mtime_set" ∷ []

module _ (L : Lua) (E : Apr) (s : State E.World) {v : Value} {p : ℕ} (given : value_at 1 s ≡ some v)
    (file : L.udata_of apr_file v ≡ some p) (closed : s.block p ≡ 0) where
  close-closed : Refuses E E.ebadf s (ape_file_close L E s)
  unfolding ape_file_close ape_status
  close-closed = ground (arith, E.ebadf_ne)

  eof-closed : Refuses E E.ebadf s (ape_file_eof L E s)
  unfolding ape_file_eof ape_status
  eof-closed = ground (arith, E.ebadf_ne)

  read-closed : Refuses E E.ebadf s (ape_file_read L E s)
  unfolding ape_file_read ape_status
  read-closed = ground (arith, E.ebadf_ne)

  write-closed : Refuses E E.ebadf s (ape_file_write L E s)
  unfolding ape_file_write ape_status
  write-closed = ground (arith, E.ebadf_ne)

  puts-closed : Refuses E E.ebadf s (ape_file_puts L E s)
  unfolding ape_file_puts ape_status
  puts-closed = ground (arith, E.ebadf_ne)

  flush-closed : Refuses E E.ebadf s (ape_file_flush L E s)
  unfolding ape_file_flush ape_status
  flush-closed = ground (arith, E.ebadf_ne)

  sync-closed : Refuses E E.ebadf s (ape_file_sync L E s)
  unfolding ape_file_sync ape_status
  sync-closed = ground (arith, E.ebadf_ne)

  datasync-closed : Refuses E E.ebadf s (ape_file_datasync L E s)
  unfolding ape_file_datasync ape_status
  datasync-closed = ground (arith, E.ebadf_ne)

  seek-closed : Refuses E E.ebadf s (ape_file_seek L E s)
  unfolding ape_file_seek ape_status
  seek-closed = ground (arith, E.ebadf_ne)

  pipe_timeout_get-closed : Refuses E E.ebadf s (ape_file_pipe_timeout_get L E s)
  unfolding ape_file_pipe_timeout_get ape_status
  pipe_timeout_get-closed = ground (arith, E.ebadf_ne)

  pipe_timeout_set-closed : Refuses E E.ebadf s (ape_file_pipe_timeout_set L E s)
  unfolding ape_file_pipe_timeout_set ape_status
  pipe_timeout_set-closed = ground (arith, E.ebadf_ne)

  lock-closed : Refuses E E.ebadf s (ape_file_lock L E s)
  unfolding ape_file_lock ape_status
  lock-closed = ground (arith, E.ebadf_ne)

  unlock-closed : Refuses E E.ebadf s (ape_file_unlock L E s)
  unfolding ape_file_unlock ape_status
  unlock-closed = ground (arith, E.ebadf_ne)

  name_get-closed : Refuses E E.ebadf s (ape_file_name_get L E s)
  unfolding ape_file_name_get ape_status
  name_get-closed = ground (arith, E.ebadf_ne)

  flags_get-closed : Refuses E E.ebadf s (ape_file_flags_get L E s)
  unfolding ape_file_flags_get ape_status
  flags_get-closed = ground (arith, E.ebadf_ne)

  info_get-closed : Refuses E E.ebadf s (ape_file_info_get L E s)
  unfolding ape_file_info_get ape_status
  info_get-closed = ground (arith, E.ebadf_ne, table2want-cases L E 2 s)

  trunc-closed : Refuses E E.ebadf s (ape_file_trunc L E s)
  unfolding ape_file_trunc ape_status
  trunc-closed = ground (arith, E.ebadf_ne)

  inherit_set-closed : Refuses E E.ebadf s (ape_file_inherit_set L E s)
  unfolding ape_file_inherit_set ape_status
  inherit_set-closed = ground (arith, E.ebadf_ne)

  inherit_unset-closed : Refuses E E.ebadf s (ape_file_inherit_unset L E s)
  unfolding ape_file_inherit_unset ape_status
  inherit_unset-closed = ground (arith, E.ebadf_ne)

  -- Every method of a closed file handle but `dup` and the three that take a path refuses: it raises
  -- an argument error or returns nil, a message and APR_EBADF; it calls neither APR nor moon, and
  -- memory, tables and the outside world stay as they were.
  pub closed_methods_refuse :
      Each
        (λ f. Refuses E E.ebadf s (f s))
        (except (text "dup" ∷ path_methods) (ape_file_methods L E))
  unfolding ape_file_methods
  closed_methods_refuse = (
    close-closed,
    (
      eof-closed,
      (
        read-closed,
        (
          write-closed,
          (
            puts-closed,
            (
              flush-closed,
              (
                sync-closed,
                (
                  datasync-closed,
                  (
                    seek-closed,
                    (
                      pipe_timeout_get-closed,
                      (
                        pipe_timeout_set-closed,
                        (
                          lock-closed,
                          (
                            unlock-closed,
                            (
                              name_get-closed,
                              (
                                flags_get-closed,
                                (
                                  info_get-closed,
                                  (trunc-closed, (inherit_set-closed, (inherit_unset-closed, tt))),
                                ),
                              ),
                            ),
                          ),
                        ),
                      ),
                    ),
                  ),
                ),
              ),
            ),
          ),
        ),
      ),
    ),
  )

module _ (L : Lua) (E : Apr) (s : State E.World) {p : ℕ} where
  -- The methods `perms_set`, `attrs_set` and `mtime_set` of a file handle always raise an argument
  -- error and do nothing else, where a userdata has no string: they look for a path at index 1,
  -- where the method call puts the handle.
  pub path_methods_raise :
      (handle : value_at 1 s ≡ some (userdata p)) (no_string : L.string_of (userdata p) ≡ none)
      → Each (λ f. f s ≡ (raised (bad_argument 1), s)) (named path_methods (ape_file_methods L E))
  unfolding ape_file_methods ape_file_perms_set ape_file_attrs_set ape_file_mtime_set
  path_methods_raise handle no_string = (ground arith, (ground arith, (ground arith, tt)))
