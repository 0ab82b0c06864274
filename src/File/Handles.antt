-- ===== src/File/Handles.antt =====
-- Open files: the functions of src/ape_file.c on an `apr_file_t`.
use prg_buildsh.Prelude.{
  ℕ, true, false, List, [], ◌∷◌, ltb, ◌==◌, if◌then◌else◌, length, Text, text, pos,
}
use prg_buildsh.Machine.{
  boolean, number, string, userdata, apr_file, oflags, flock, Lua, Call, SeekWhere, Status, Apr, M,
  pure, when, ◌>>=◌, ◌>>◌, call, push, read_block, write_block, or_empty, check_bytes, check_string,
  check_number, opt_number, check_udata, flag_get, check_option, minus_one, count, ape_status,
}

-- `rv = APR_EBADF; if( h != NULL ) rv = …;`
module _ (E : Apr) where
  abbrev pub unless_null : ℕ → M E.World Status → M E.World Status
  unless_null h k = if h == 0 then pure E.ebadf else k

module _ (L : Lua) (E : Apr) where
  unfoldable pub ape_file_close : M E.World ℕ
  ape_file_close = do
    p ← check_udata L apr_file 1
    h ← read_block p
    rv ←
        unless_null E h
          (do rv ← call E (Call.file_close h); when (rv == 0) (write_block p 0); pure rv)
    ape_status E minus_one rv

  -- The finalizer: the status of the close is dropped, and so is the pointer.
  unfoldable pub ape_file_gc : M E.World ℕ
  ape_file_gc = do
    p ← check_udata L apr_file 1
    h ← read_block p
    if h == 0 then pure 0 else (do call E (Call.file_close h); pure 0)

  unfoldable pub ape_file_eof : M E.World ℕ
  ape_file_eof = do
    p ← check_udata L apr_file 1
    h ← read_block p
    if h == 0 then ape_status E (count 0) E.ebadf else (do
      rv ← call E (Call.file_eof h)
      if rv == 0
          then (do push (boolean false); pure 1)
          else if E.is_eof rv
          then (do push (boolean true); pure 1)
          else ape_status E (count 0) rv)

  -- `buf` has 1024 bytes; a longer read goes to a block that stays on the stack.
  unfoldable pub ape_file_read : M E.World ℕ
  ape_file_read = do
    p ← check_udata L apr_file 1
    n ← check_number L 2
    h ← read_block p
    let size = L.size_of n
    rv ← unless_null E h (do
      when (ltb 1024 size) (do a ← call E (Call.newuserdata size); push (userdata a))
      (rv, bytes) ← call E (Call.file_read h size)
      when (rv == 0) (push (string bytes))
      pure rv)
    ape_status E (count 1) rv

  unfoldable pub ape_file_write : M E.World ℕ
  ape_file_write = do
    p ← check_udata L apr_file 1
    s ← check_bytes L 2
    n ← opt_number L 3 (pos (length s))
    h ← read_block p
    let size = L.size_of n
    rv ← unless_null E h (do
      (rv, written) ← call E (Call.file_write h s (if ltb (length s) size then length s else size))
      when (rv == 0) (push (number (pos written)))
      pure rv)
    ape_status E (count 1) rv

  unfoldable pub ape_file_puts : M E.World ℕ
  ape_file_puts = do
    p ← check_udata L apr_file 1
    s ← check_string L 2
    h ← read_block p
    rv ← unless_null E h (call E (Call.file_puts s h))
    ape_status E minus_one rv

  unfoldable pub ape_file_flush : M E.World ℕ
  ape_file_flush = do
    p ← check_udata L apr_file 1
    h ← read_block p
    rv ← unless_null E h (call E (Call.file_flush h))
    ape_status E minus_one rv

  unfoldable pub ape_file_sync : M E.World ℕ
  ape_file_sync = do
    p ← check_udata L apr_file 1
    h ← read_block p
    rv ← unless_null E h (call E (Call.file_sync h))
    ape_status E minus_one rv

  unfoldable pub ape_file_datasync : M E.World ℕ
  ape_file_datasync = do
    p ← check_udata L apr_file 1
    h ← read_block p
    rv ← unless_null E h (call E (Call.file_datasync h))
    ape_status E minus_one rv

  abbrev seek_flags : List (Text × SeekWhere)
  seek_flags =
      (text "set", SeekWhere.seek_set)
      ∷ (text "cur", SeekWhere.seek_cur)
      ∷ (text "end", SeekWhere.seek_end)
      ∷ []

  -- The offset is pushed whether or not the seek succeeded.
  unfoldable pub ape_file_seek : M E.World ℕ
  ape_file_seek = do
    p ← check_udata L apr_file 1
    from ← check_option L 2 seek_flags
    off ← check_number L 3
    h ← read_block p
    rv ←
        unless_null E h
          (do (rv, off') ← call E (Call.file_seek h from off); push (number off'); pure rv)
    ape_status E (count 1) rv

  unfoldable pub ape_file_pipe_timeout_get : M E.World ℕ
  ape_file_pipe_timeout_get = do
    p ← check_udata L apr_file 1
    h ← read_block p
    rv ←
        unless_null E h
          (do (rv, t) ← call E (Call.pipe_timeout_get h); when (rv == 0) (push (number t)); pure rv)
    ape_status E (count 1) rv

  unfoldable pub ape_file_pipe_timeout_set : M E.World ℕ
  ape_file_pipe_timeout_set = do
    p ← check_udata L apr_file 1
    t ← check_number L 2
    h ← read_block p
    rv ← unless_null E h (call E (Call.pipe_timeout_set h t))
    ape_status E minus_one rv

  unfoldable pub ape_file_lock : M E.World ℕ
  ape_file_lock = do
    p ← check_udata L apr_file 1
    flag ← flag_get L flock 2
    h ← read_block p
    rv ← unless_null E h (call E (Call.file_lock h flag))
    ape_status E minus_one rv

  unfoldable pub ape_file_unlock : M E.World ℕ
  ape_file_unlock = do
    p ← check_udata L apr_file 1
    h ← read_block p
    rv ← unless_null E h (call E (Call.file_unlock h))
    ape_status E minus_one rv

  unfoldable pub ape_file_name_get : M E.World ℕ
  ape_file_name_get = do
    p ← check_udata L apr_file 1
    h ← read_block p
    rv ← unless_null E h (do
      (rv, name) ← call E (Call.file_name_get h)
      when (rv == 0) (push (string (or_empty name)))
      pure rv)
    ape_status E (count 1) rv

  unfoldable pub ape_file_flags_get : M E.World ℕ
  ape_file_flags_get = do
    p ← check_udata L apr_file 1
    h ← read_block p
    if h == 0 then ape_status E (count 0) E.ebadf else (do
      flags ← call E (Call.file_flags_get h)
      v ← call E (Call.flag_new oflags flags)
      push v
      pure 1)

  unfoldable pub ape_file_trunc : M E.World ℕ
  ape_file_trunc = do
    p ← check_udata L apr_file 1
    off ← check_number L 2
    h ← read_block p
    rv ← unless_null E h (call E (Call.file_trunc h off))
    ape_status E minus_one rv

  unfoldable pub ape_file_inherit_set : M E.World ℕ
  ape_file_inherit_set = do
    p ← check_udata L apr_file 1
    h ← read_block p
    rv ← unless_null E h (call E (Call.file_inherit_set h))
    ape_status E minus_one rv

  unfoldable pub ape_file_inherit_unset : M E.World ℕ
  ape_file_inherit_unset = do
    p ← check_udata L apr_file 1
    h ← read_block p
    rv ← unless_null E h (call E (Call.file_inherit_unset h))
    ape_status E minus_one rv
