-- ===== src/File/Open.antt =====
-- File handles that come into being: the functions of src/ape_file.c that open or duplicate.
use prg_buildsh.Prelude.{ℕ, none, some, List, [], ◌∷◌, ◌==◌, Text, text}
use prg_buildsh.Machine.{
  Value, nil, string, userdata, Kind, apr_pool, apr_file, apr_dir, oflags, fperms, Lua, Call,
  PipeBlock, Standard, Apr, M, pure, arg_or_raise, gets, when, ◌>>=◌, ◌>>◌, call, value_at, push,
  read_block, write_block, store_block, check_string, check_udata, flag_get, check_option, count,
  ape_status,
}
use prg_buildsh.File.Handles.{unless_null}

module _ (L : Lua) (E : Apr) where
  -- `moon_newobject_ref` with the initialiser `ape_file_init` or `ape_dir_init`, which stores NULL.
  abbrev new_object : Kind → M E.World ℕ
  new_object k = do p ← call E (Call.newobject_ref k); write_block p 0; push (userdata p); pure p

  -- The pool stays reachable through the field "pool" of the user value.
  abbrev keep_pool : ℕ → Value → M E.World (Unit {0})
  keep_pool p pool = call E (Call.setuvfield p (text "pool") pool)

  abbrev new_handle : Kind → Value → M E.World ℕ
  new_handle k pool = do p ← new_object k; keep_pool p pool; pure p

  -- The value at a checked index.
  abbrev arg_value : ℕ → M E.World Value
  arg_value i = gets (λ s. elim (value_at i s) [ some v ↦ v | none ↦ nil ])

  unfoldable pub ape_file_open : M E.World ℕ
  ape_file_open = do
    name ← check_string L 1
    flags ← flag_get L oflags 2
    perms ← flag_get L fperms 3
    pool ← check_udata L apr_pool 4
    file ← new_handle apr_file (← arg_value 4)
    h ← read_block pool
    (rv, f) ← call E (Call.file_open name flags perms h)
    store_block file f
    ape_status E (count 1) rv

  abbrev open_std : Standard → M E.World ℕ
  open_std std = do
    pool ← check_udata L apr_pool 1
    file ← new_handle apr_file (← arg_value 1)
    h ← read_block pool
    (rv, f) ← call E (Call.file_open_std std h)
    store_block file f
    ape_status E (count 1) rv

  unfoldable pub ape_file_open_stderr : M E.World ℕ
  ape_file_open_stderr = open_std Standard.stderr

  unfoldable pub ape_file_open_stdout : M E.World ℕ
  ape_file_open_stdout = open_std Standard.stdout

  unfoldable pub ape_file_open_stdin : M E.World ℕ
  ape_file_open_stdin = open_std Standard.stdin

  abbrev open_flags_std : Standard → M E.World ℕ
  open_flags_std std = do
    flags ← flag_get L oflags 1
    pool ← check_udata L apr_pool 2
    file ← new_handle apr_file (← arg_value 2)
    h ← read_block pool
    (rv, f) ← call E (Call.file_open_flags_std std flags h)
    store_block file f
    ape_status E (count 1) rv

  unfoldable pub ape_file_open_flags_stderr : M E.World ℕ
  ape_file_open_flags_stderr = open_flags_std Standard.stderr

  unfoldable pub ape_file_open_flags_stdout : M E.World ℕ
  ape_file_open_flags_stdout = open_flags_std Standard.stdout

  unfoldable pub ape_file_open_flags_stdin : M E.World ℕ
  ape_file_open_flags_stdin = open_flags_std Standard.stdin

  unfoldable pub ape_file_dup : M E.World ℕ
  ape_file_dup = do
    oldf ← check_udata L apr_file 1
    pool ← check_udata L apr_pool 2
    newf ← new_handle apr_file (← arg_value 2)
    h ← read_block oldf
    rv ← unless_null E h (do
      ph ← read_block pool
      (rv, f) ← call E (Call.file_dup h ph)
      store_block newf f
      pure rv)
    ape_status E (count 1) rv

  -- The value pushed on success is the first argument, the file that was redirected.
  unfoldable pub ape_file_dup2 : M E.World ℕ
  ape_file_dup2 = do
    newf ← check_udata L apr_file 1
    oldf ← check_udata L apr_file 2
    hn ← read_block newf
    ho ← read_block oldf
    rv ← unless_null E hn (
        unless_null E ho (do
          pool ← call E (Call.file_pool_get hn)
          rv ← call E (Call.file_dup2 hn ho pool)
          v ← arg_value 1
          when (rv == 0) (push v)
          pure rv))
    ape_status E (count 1) rv

  unfoldable pub ape_file_pipe_create : M E.World ℕ
  ape_file_pipe_create = do
    pool ← check_udata L apr_pool 1
    inf ← new_object apr_file
    outf ← new_object apr_file
    v ← arg_value 1
    keep_pool inf v
    keep_pool outf v
    h ← read_block pool
    (rv, f, g) ← call E (Call.file_pipe_create h)
    store_block inf f
    store_block outf g
    ape_status E (count 2) rv

  abbrev block_flags : List (Text × PipeBlock)
  block_flags =
      (text "full", PipeBlock.full_block)
      ∷ (text "read", PipeBlock.reader_block)
      ∷ (text "write", PipeBlock.writer_block)
      ∷ (text "none", PipeBlock.full_nonblock)
      ∷ []

  unfoldable pub ape_file_pipe_create_ex : M E.World ℕ
  ape_file_pipe_create_ex = do
    bl ← check_option L 1 block_flags
    pool ← check_udata L apr_pool 2
    inf ← new_object apr_file
    outf ← new_object apr_file
    v ← arg_value 2
    keep_pool inf v
    keep_pool outf v
    h ← read_block pool
    (rv, f, g) ← call E (Call.file_pipe_create_ex bl h)
    store_block inf f
    store_block outf g
    ape_status E (count 2) rv

  -- The template is copied first: APR writes the name of the new file over the copy.
  unfoldable pub ape_file_mktemp : M E.World ℕ
  ape_file_mktemp = do
    templ ← check_string L 1
    flags ← flag_get L oflags 2
    pool ← check_udata L apr_pool 3
    h ← read_block pool
    templcopy ← call E (Call.pstrdup h templ)
    file ← new_handle apr_file (← arg_value 3)
    rv ← elim templcopy [
      | none ↦ pure E.enomem
      | some t ↦ (do
        (rv, f, name) ← call E (Call.file_mktemp t flags h)
        store_block file f
        when (rv == 0) (push (string name))
        pure rv)
    ]
    ape_status E (count 2) rv

  -- `v` is the value at the index, which the caller has read.
  unfoldable pub ape_file_userdata : ℕ → ℕ → Value → M E.World ℕ
  ape_file_userdata f i v = do
    arg_or_raise i (L.udata_of apr_pool v)
    p ← new_handle apr_file v
    write_block p f
    pure p

  unfoldable pub ape_dir_open : M E.World ℕ
  ape_dir_open = do
    name ← check_string L 1
    pool ← check_udata L apr_pool 2
    dir ← new_handle apr_dir (← arg_value 2)
    h ← read_block pool
    (rv, d) ← call E (Call.dir_open name h)
    store_block dir d
    ape_status E (count 1) rv
