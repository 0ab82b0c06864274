-- ===== src/Proc/Create.antt =====
-- New processes and their streams: src/ape_proc.c.
use prg_buildsh.Prelude.{ℕ, Option, none, some, List, ◌==◌, if◌then◌else◌, drop, Text, text}
use prg_buildsh.Machine.{
  Value, table, userdata, apr_pool, Lua, Call, Status, Apr, M, pure, gets, modify, when, ◌>>=◌,
  ◌>>◌, call, value_at, is_none_or_nil, push, settop, read_block, write_block, pointer_of,
  check_string, check_udata, check_table, count, ape_status,
}
use prg_buildsh.Machine.{apr_proc, apr_procattr}
use prg_buildsh.Pool.{ape_opt_pool}
use prg_buildsh.FilePath.{set_array}
use prg_buildsh.File.Open.{ape_file_userdata}
use prg_buildsh.Proc.Vectors.{ape_table2argv, ape_table2env}

module _ (L : Lua) (E : Apr) where
  -- `argv` ends with NULL, and holds no NULL before.
  unfoldable pub ape_tokenize_to_argv : M E.World ℕ
  ape_tokenize_to_argv = do
    s ← check_string L 1
    pool ← ape_opt_pool L E 2
    h ← read_block pool
    (rv, argv) ← call E (Call.tokenize_to_argv s h)
    when (rv == 0) (do t ← call E Call.newtable; push (table t); set_array t 1 argv)
    ape_status E (count 1) rv

  -- A field of the user value of the process, on the stack.
  abbrev stream_get : Text → M E.World ℕ
  stream_get name = do
    p ← check_udata L apr_proc 1
    settop 1
    v ← call E (Call.getuvfield p name)
    push v
    pure 1

  unfoldable pub ape_proc_in_get : M E.World ℕ
  ape_proc_in_get = stream_get (text "in")

  unfoldable pub ape_proc_out_get : M E.World ℕ
  ape_proc_out_get = stream_get (text "out")

  unfoldable pub ape_proc_err_get : M E.World ℕ
  ape_proc_err_get = stream_get (text "err")

  -- The environment: none asked for, or the one of a table, which may fail to be built.
  unfoldable pub environment : Option ℕ → ℕ → M E.World (Option (Option (List Text)))
  environment none h = pure (some none)
  environment (some t) h = do
    env ← ape_table2env L E t h
    pure (elim env [ none ↦ none | some e ↦ some (some e) ])

  -- A new file object for a stream of the process, under a name in its user value. `v` is the value
  -- at index 5, the pool.
  unfoldable pub keep_stream : ℕ → Text → Value → Option ℕ → M E.World (Unit {0})
  unfolding ape_file_userdata
  keep_stream proc name v none = pure tt
  keep_stream proc name v (some f) = do
    file ← ape_file_userdata L E f 5 v
    modify (λ s. record s { pushed = drop 1 s.pushed })
    call E (Call.setuvfield proc name (userdata file))

  -- The new process object is on top of the stack when the process has been created.
  unfoldable pub start_process :
      Text → List Text → Option (List Text) → ℕ → ℕ → Value → M E.World Status
  unfolding keep_stream
  start_process cmd argv env pa h v = do
    proc ← call E (Call.newobject_ref apr_proc)
    push (userdata proc)
    attr ← read_block pa
    (rv, pid, in_file, out_file, err_file) ← call E (Call.proc_create cmd argv env attr h)
    write_block proc pid
    when (rv == 0) (do
      keep_stream proc (text "in") v in_file
      keep_stream proc (text "out") v out_file
      keep_stream proc (text "err") v err_file)
    pure rv

  -- The pool comes from the user value of the attributes, where `ape_procattr_create` has put it.
  unfoldable pub ape_proc_create : M E.World ℕ
  unfolding start_process environment ape_table2argv
  ape_proc_create = do
    cmd ← check_string L 1
    t2 ← check_table L 2
    v3 ← gets (value_at 3)
    t3 ← (if is_none_or_nil v3 then pure none else (do t ← check_table L 3; pure (some t)))
    pa ← check_udata L apr_procattr 4
    settop 4
    v ← call E (Call.getuvfield pa (text "pool"))
    push v
    h ← read_block (pointer_of (L.udata_of apr_pool v))
    argv ← ape_table2argv L E t2 h
    rv ← elim argv [
      | none ↦ pure E.enomem
      | some a ↦ (do
        env ← environment t3 h
        elim env [ none ↦ pure E.enomem | some e ↦ start_process cmd a e pa h v ])
    ]
    ape_status E (count 1) rv
