-- ===== src/Extra/Collect.antt =====
-- `run_collect`: src/ape_extra.c. The loop of reads runs on fuel.
use prg_buildsh.Prelude.{
  ℕ, zero, suc, ◌+◌, true, false, not, Option, none, some, List, [], ◌++◌, reverse, ◌==◌,
  if◌then◌else◌, get_elem?, Text,
}
use prg_buildsh.Machine.{
  pointer_of, nil, string, Lua, Call, PipeMode, Status, Apr, out_of_fuel, M, pure, raise, gets,
  ◌>>=◌, ◌>>◌, call, value_at, is_none_or_nil, push, read_block, check_string, check_table,
  check_option, count, ape_status,
}
use prg_buildsh.Pool.{ape_opt_pool}
use prg_buildsh.Proc.Vectors.{ape_table2argv}
use prg_buildsh.Proc.Attr.{command_types}
use prg_buildsh.Proc.Wait.{push_end}
use prg_buildsh.Proc.Create.{environment}

module _ (L : Lua) (E : Apr) (buffer_size : ℕ) where
  -- LUAL_BUFFERSIZE is a constant of luaconf.h. What a read delivers is added whatever its status;
  -- the status that ends the loop comes with the output.
  unfoldable pub read_all : ℕ → ℕ → Text → M E.World (Status × Text)
  read_all zero out buf = raise out_of_fuel
  read_all (suc fuel) out buf = do
    (rv, s) ← call E (Call.file_read out buffer_size)
    let more = read_all fuel out (buf ++ s)
    if rv == 0 then more else pure (rv, buf ++ s)

  -- `int v = ape_status( L, 0, rv ); lua_pushvalue( L, -4 ); return v + 1;` with the output on top
  -- of the stack before.
  unfoldable pub status_with_output : Text → Status → M E.World ℕ
  status_with_output output rv = do
    v ← ape_status E (count 0) rv
    below ← gets (λ s. get_elem? (s.pushed ++ reverse s.args) 3)
    push (elim below [ some x ↦ x | none ↦ nil ])
    pure (v + 1)

  -- What follows the reads: rv is the status of the last one.
  unfoldable pub end_output : ℕ → ℕ → Status → Text → M E.World ℕ
  unfolding status_with_output
  end_output proc out rv output = do
    push (string output)
    call E (Call.file_close out)
    if not (E.is_eof rv)
        then (do call E (Call.proc_wait proc false); status_with_output output rv)
        else (do
          (rv, exitstatus, exited) ← call E (Call.proc_wait proc true)
          if not (E.is_child_done rv)
              then status_with_output output rv
              else (do push_end L E exitstatus exited; push (string output); pure 4))

  unfoldable pub collect_output : ℕ → ℕ → ℕ → M E.World ℕ
  unfolding read_all end_output
  collect_output fuel proc out = do
    (rv, output) ← read_all fuel out []
    end_output proc out rv output

  -- From `apr_proc_create` on. A process without the pipe for its output is an error.
  unfoldable run_program : ℕ → Text → List Text → Option (List Text) → ℕ → ℕ → M E.World ℕ
  unfolding collect_output
  run_program fuel cmd argv env attr h = do
    (rv, proc, _, out, _) ← call E (Call.proc_create cmd argv env attr h)
    if not (rv == 0) then ape_status E (count 0) rv else elim out [
      | none ↦ ape_status E (count 0) E.egeneral
      | some o ↦ collect_output fuel proc o
    ]

  unfoldable pub ape_extra_run_collect : ℕ → M E.World ℕ
  unfolding run_program environment ape_table2argv
  ape_extra_run_collect fuel = do
    ct ← check_option L 1 command_types
    cmd ← check_string L 2
    t3 ← check_table L 3
    v4 ← gets (value_at 4)
    t4 ← (if is_none_or_nil v4 then pure none else (do t ← check_table L 4; pure (some t)))
    pool ← ape_opt_pool L E 5
    h ← read_block pool
    (rv, pa) ← call E (Call.procattr_create h)
    let attr = pointer_of pa
    if not (rv == 0) then ape_status E (count 0) rv else (do
      rv ← call E (Call.procattr_cmdtype_set attr ct)
      if not (rv == 0) then ape_status E (count 0) rv else (do
        rv ←
            call E (Call.procattr_io_set attr PipeMode.no_pipe PipeMode.full_block PipeMode.no_pipe)
        if not (rv == 0) then ape_status E (count 0) rv else (do
          argv ← ape_table2argv L E t3 h
          elim argv [
            | none ↦ ape_status E (count 0) E.enomem
            | some a ↦ (do
              env ← environment L E t4 h
              elim env [
                | none ↦ ape_status E (count 0) E.enomem
                | some e ↦ run_program fuel cmd a e attr h
              ])
          ])))
