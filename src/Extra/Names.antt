-- ===== src/Extra/Names.antt =====
-- `basename` and `dirname`: src/ape_extra.c.
use prg_buildsh.Prelude.{
  ℕ, zero, suc, ◌+◌, ◌-◌, Bool, ◌&&◌, ◌||◌, Option, none, some, leb, ◌==◌, if◌then◌else◌, length,
  take, drop, Text, text_eq,
}
use prg_buildsh.Machine.{
  string, Lua, Call, PathFlags, Status, Apr, M, pure, gets, when, ◌>>=◌, ◌>>◌, call, push,
  read_block, or_empty, check_bytes, check_string, count, ape_status,
}
use prg_buildsh.Pool.{ape_opt_pool}
use prg_buildsh.Extra.Dirsep.{find_dirsep}

-- `len >= slen && strncmp( suffix, bn+len-slen, slen ) == 0`: the name holds no zero byte, so the
-- slen bytes are the same.
unfoldable pub has_suffix : Text → Text → Bool
has_suffix bn suffix =
    leb (length suffix) (length bn) && text_eq suffix (drop (length bn - length suffix) bn)

module _ (L : Lua) (E : Apr) where
  -- The loop over the suffixes at index i and above, which checks each one when it is reached.
  unfoldable pub strip_suffixes : Text → ℕ → ℕ → M E.World Text
  unfolding has_suffix
  strip_suffixes bn i zero = pure bn
  strip_suffixes bn i (suc left) =
      let rest = strip_suffixes bn (i + 1) left in
      do
        suffix ← check_bytes L i
        if has_suffix bn suffix then pure (take (length bn - length suffix) bn) else rest

  unfoldable pub ape_extra_basename : M E.World ℕ
  ape_extra_basename = do
    path ← check_string L 1
    top ← gets (λ s. length s.args)
    name ← strip_suffixes (E.name_get path) 2 (top - 1)
    push (string name)
    pure 1

  -- `rv == APR_SUCCESS || APR_STATUS_IS_EINCOMPLETE( rv ) || APR_STATUS_IS_ERELATIVE( rv )`
  abbrev pub has_root : Status → Bool
  has_root rv = (rv == 0) || (E.is_eincomplete rv || E.is_erelative rv)

  -- `if( APR_STATUS_IS_ERELATIVE( rv ) ) root = NULL;`
  abbrev pub root_of : Status → Option Text → Option Text
  root_of rv root = if E.is_erelative rv then none else root

  -- The path relative to the root, which `apr_filepath_root` leaves alone on some failures.
  abbrev pub rest_of : Text → Option Text → Text
  rest_of path none = path
  rest_of path (some rest) = rest

  unfoldable pub ape_extra_dirname : ℕ → M E.World ℕ
  ape_extra_dirname dirsep = do
    path ← check_string L 1
    pool ← ape_opt_pool L E 2
    h ← read_block pool
    (rv, root, moved) ← call E (Call.filepath_root path PathFlags.native h)
    let rest = rest_of path moved
    let dir = take (find_dirsep dirsep rest).0 rest
    rv ←
        (if has_root rv
          then elim (root_of rv root) [
            | none ↦ (do push (string dir); pure 0)
            | some r ↦ (do
              reldir ← call E (Call.pstrdup h dir)
              elim reldir [
                | none ↦ pure E.enomem
                | some rd ↦ (do
                  (rv, newpath) ← call E (Call.filepath_merge r rd PathFlags.native h)
                  when (rv == 0) (push (string (or_empty newpath)))
                  pure rv)
              ])
          ]
          else pure rv)
    ape_status E (count 1) rv
