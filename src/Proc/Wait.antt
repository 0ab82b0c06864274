-- ===== src/Proc/Wait.antt =====
-- Waiting for processes, and what else is done with them: src/ape_proc.c.
use prg_buildsh.Prelude.{
  ℕ, zero, suc, ◌+◌, Bool, true, false, ◌&&◌, Option, none, some, List, [], ◌∷◌, ◌==◌,
  if◌then◌else◌, Text, text, ℤ, pos, negsuc,
}
use prg_buildsh.Machine.{
  Value, nil, boolean, number, string, apr_pool, index, Table, Lua, Call, Apr, out_of_fuel, M, pure,
  raise, gets, ◌>>=◌, ◌>>◌, call, value_at, is_none_or_nil, to_boolean, push, read_block,
  check_number, check_udata, check_table, check_option, minus_one, count, ape_status,
}
use prg_buildsh.Machine.{apr_proc, KillCondition}
use prg_buildsh.Pool.{ape_opt_pool}

-- `wait_names` with `wait_flags`: whether to wait.
abbrev pub wait_flags : List (Text × Bool)
wait_flags = (text "wait", true) ∷ (text "nowait", false) ∷ []

abbrev pub is_zero : ℤ → Bool
is_zero (pos n) = n == 0
is_zero (negsuc n) = false

abbrev pub kill_conditions : List (Text × KillCondition)
kill_conditions =
    (text "never", KillCondition.kill_never)
    ∷ (text "always", KillCondition.kill_always)
    ∷ (text "timeout", KillCondition.kill_after_timeout)
    ∷ (text "wait", KillCondition.just_wait)
    ∷ (text "once", KillCondition.kill_only_once)
    ∷ []

module _ (L : Lua) where
  -- The loop over the elements i and above of the table, `left` of them: the first process object
  -- with the process ID. Other values are passed over.
  unfoldable pub find_proc : (ℕ → ℕ) → Table → ℕ → ℕ → ℕ → Option Value
  find_proc block tab pid i zero = none
  find_proc block tab pid i (suc left) =
      let rest = find_proc block tab pid (i + 1) left in
      elim (L.udata_of apr_proc (tab (index i))) [
        | none ↦ rest
        | some p ↦ if block p == pid then some (tab (index i)) else rest
      ]

module _ (L : Lua) (E : Apr) where
  -- `luaL_checkoption( L, i, "wait", wait_names )`
  abbrev pub wait_option : ℕ → M E.World Bool
  wait_option i s =
      if is_none_or_nil (value_at i s) then pure true s else check_option L i wait_flags s

  -- How a process has ended: the three values that are pushed. `exited` is `APR_PROC_CHECK_EXIT`.
  abbrev pub push_end : ℤ → Bool → M E.World (Unit {0})
  push_end exitcode exited = do
    push (boolean (exited && is_zero exitcode))
    push (string (if exited then text "exit" else text "signal"))
    push (number exitcode)

  unfoldable pub ape_proc_wait : M E.World ℕ
  ape_proc_wait = do
    proc ← check_udata L apr_proc 1
    f ← wait_option 2
    pid ← read_block proc
    (rv, exitcode, exited) ← call E (Call.proc_wait pid f)
    if rv == E.child_done
        then (do push_end exitcode exited; pure 3)
        else if rv == E.child_notdone
        then (do push nil; pure 1)
        else ape_status E (count 0) rv

  -- A process that is not in the table is passed over, and the next one awaited.
  unfoldable pub wait_loop : ℕ → ℕ → Bool → ℕ → M E.World ℕ
  wait_loop zero t f pool = raise out_of_fuel
  wait_loop (suc fuel) t f pool =
      let again = wait_loop fuel t f pool in
      do
        (rv, pid, exitcode, exited) ← call E (Call.proc_wait_all_procs f pool)
        if rv == E.child_done
            then (do
              found ← gets (λ s. find_proc L s.block (s.tables t) pid 1 (L.rawlen (s.tables t)))
              elim found [ some p ↦ (do push p; push_end exitcode exited; pure 4) | none ↦ again ])
            else if rv == E.child_notdone
            then (do push nil; pure 1)
            else ape_status E (count 0) rv

  unfoldable pub ape_proc_wait_all_procs : ℕ → M E.World ℕ
  ape_proc_wait_all_procs fuel = do
    t ← check_table L 1
    f ← wait_option 2
    pool ← ape_opt_pool L E 3
    h ← read_block pool
    wait_loop fuel t f h

  -- It detaches the process that runs, whatever its first argument is.
  unfoldable pub ape_proc_detach : M E.World ℕ
  ape_proc_detach = do
    daemonize ← gets (λ s. to_boolean (value_at 1 s))
    rv ← call E (Call.proc_detach daemonize)
    ape_status E minus_one rv

  unfoldable pub ape_proc_kill : M E.World ℕ
  ape_proc_kill = do
    proc ← check_udata L apr_proc 1
    sig ← check_number L 2
    pid ← read_block proc
    rv ← call E (Call.proc_kill pid sig)
    ape_status E minus_one rv

  unfoldable pub ape_pool_note_subprocess : M E.World ℕ
  ape_pool_note_subprocess = do
    pool ← check_udata L apr_pool 1
    proc ← check_udata L apr_proc 2
    f ← check_option L 3 kill_conditions
    h ← read_block pool
    pid ← read_block proc
    call E (Call.note_subprocess h pid f)
    push (boolean true)
    pure 1
