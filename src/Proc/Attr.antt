-- ===== src/Proc/Attr.antt =====
-- Process attributes: src/ape_proc.c.
use prg_buildsh.Prelude.{
  ℕ, Bool, not, ◌&&◌, Option, none, some, List, [], ◌∷◌, ◌==◌, if◌then◌else◌, Text, text,
}
use prg_buildsh.Machine.{
  nil, userdata, apr_pool, apr_file, Lua, Call, CommandType, PipeMode, Status, Apr, M, pure, gets,
  ◌>>=◌, ◌>>◌, call, value_at, is_none_or_nil, to_boolean, push, read_block, store_block,
  check_string, check_udata, check_option, minus_one, count, ape_status,
}
use prg_buildsh.Machine.{apr_procattr}

-- The options of `procattr_io_set`, each with the flag at its place.
abbrev pub io_flags : List (Text × PipeMode)
io_flags =
    (text "file", PipeMode.no_pipe)
    ∷ (text "closed", PipeMode.no_file)
    ∷ (text "child", PipeMode.child_block)
    ∷ (text "parent", PipeMode.parent_block)
    ∷ (text "full", PipeMode.full_block)
    ∷ (text "none", PipeMode.full_nonblock)
    ∷ []

abbrev pub command_types : List (Text × CommandType)
command_types =
    (text "shellcmd", CommandType.shellcmd)
    ∷ (text "shellcmd/env", CommandType.shellcmd_env)
    ∷ (text "program", CommandType.program)
    ∷ (text "program/env", CommandType.program_env)
    ∷ (text "program/path", CommandType.program_path)
    ∷ []

module _ (L : Lua) (E : Apr) where
  unfoldable pub ape_procattr_io_set : M E.World ℕ
  ape_procattr_io_set = do
    pa ← check_udata L apr_procattr 1
    in_flag ← check_option L 2 io_flags
    out_flag ← check_option L 3 io_flags
    err_flag ← check_option L 4 io_flags
    h ← read_block pa
    rv ← call E (Call.procattr_io_set h in_flag out_flag err_flag)
    ape_status E minus_one rv

  -- The three setters of a child's streams, which differ in the call only: both files must be open.
  abbrev child_set : (ℕ → ℕ → ℕ → M E.World Status) → M E.World ℕ
  child_set set_files = do
    pa ← check_udata L apr_procattr 1
    child ← check_udata L apr_file 2
    parent ← check_udata L apr_file 3
    c ← read_block child
    p ← read_block parent
    h ← read_block pa
    rv ← (if not (c == 0) && not (p == 0) then set_files h c p else pure E.ebadf)
    ape_status E minus_one rv

  unfoldable pub ape_procattr_child_in_set : M E.World ℕ
  ape_procattr_child_in_set = child_set (λ h c p. call E (Call.procattr_child_in_set h c p))

  unfoldable pub ape_procattr_child_out_set : M E.World ℕ
  ape_procattr_child_out_set = child_set (λ h c p. call E (Call.procattr_child_out_set h c p))

  unfoldable pub ape_procattr_child_err_set : M E.World ℕ
  ape_procattr_child_err_set = child_set (λ h c p. call E (Call.procattr_child_err_set h c p))

  unfoldable pub ape_procattr_dir_set : M E.World ℕ
  ape_procattr_dir_set = do
    pa ← check_udata L apr_procattr 1
    dir ← check_string L 2
    h ← read_block pa
    rv ← call E (Call.procattr_dir_set h dir)
    ape_status E minus_one rv

  unfoldable pub ape_procattr_cmdtype_set : M E.World ℕ
  ape_procattr_cmdtype_set = do
    pa ← check_udata L apr_procattr 1
    ct ← check_option L 2 command_types
    h ← read_block pa
    rv ← call E (Call.procattr_cmdtype_set h ct)
    ape_status E minus_one rv

  unfoldable pub ape_procattr_detach_set : M E.World ℕ
  ape_procattr_detach_set = do
    pa ← check_udata L apr_procattr 1
    detach ← gets (λ s. to_boolean (value_at 2 s))
    h ← read_block pa
    rv ← call E (Call.procattr_detach_set h detach)
    ape_status E minus_one rv

  unfoldable pub ape_procattr_error_check_set : M E.World ℕ
  ape_procattr_error_check_set = do
    pa ← check_udata L apr_procattr 1
    flag ← gets (λ s. to_boolean (value_at 2 s))
    h ← read_block pa
    rv ← call E (Call.procattr_error_check_set h flag)
    ape_status E minus_one rv

  unfoldable pub ape_procattr_addrspace_set : M E.World ℕ
  ape_procattr_addrspace_set = do
    pa ← check_udata L apr_procattr 1
    addrspace ← gets (λ s. to_boolean (value_at 2 s))
    h ← read_block pa
    rv ← call E (Call.procattr_addrspace_set h addrspace)
    ape_status E minus_one rv

  -- `APR_PROCATTR_USER_SET_REQUIRES_PASSWORD` decides whether the password may be left out.
  abbrev password : Bool → M E.World (Option Text)
  password required = do
    v ← gets (value_at 3)
    if not required && is_none_or_nil v
        then pure none
        else (do pw ← check_string L 3; pure (some pw))

  unfoldable pub ape_procattr_user_set : Bool → M E.World ℕ
  ape_procattr_user_set required = do
    pa ← check_udata L apr_procattr 1
    user ← check_string L 2
    pw ← password required
    h ← read_block pa
    rv ← call E (Call.procattr_user_set h user pw)
    ape_status E minus_one rv

  unfoldable pub ape_procattr_group_set : M E.World ℕ
  ape_procattr_group_set = do
    pa ← check_udata L apr_procattr 1
    group ← check_string L 2
    h ← read_block pa
    rv ← call E (Call.procattr_group_set h group)
    ape_status E minus_one rv

  -- `moon_newobject_ref` with no initialiser: the block holds 0 before the call stores something.
  unfoldable pub ape_procattr_create : M E.World ℕ
  ape_procattr_create = do
    pool ← check_udata L apr_pool 1
    pa ← call E (Call.newobject_ref apr_procattr)
    push (userdata pa)
    v ← gets (λ s. elim (value_at 1 s) [ some v ↦ v | none ↦ nil ])
    call E (Call.setuvfield pa (text "pool") v)
    h ← read_block pool
    (rv, attr) ← call E (Call.procattr_create h)
    store_block pa attr
    ape_status E (count 1) rv
