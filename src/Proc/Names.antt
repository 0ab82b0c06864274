-- ===== src/Proc/Names.antt =====
-- The methods and functions of src/ape_proc.c. The options are whether a password is required, and
-- the rounds given to `proc_wait_all_procs`.
use prg_buildsh.Prelude.{ℕ, Bool, List, [], ◌∷◌, Text, text}
use prg_buildsh.Machine.{Lua, Apr, M}
use prg_buildsh.Proc.Attr.{
  ape_procattr_io_set, ape_procattr_child_in_set, ape_procattr_child_out_set,
  ape_procattr_child_err_set, ape_procattr_dir_set, ape_procattr_cmdtype_set,
  ape_procattr_detach_set, ape_procattr_error_check_set, ape_procattr_addrspace_set,
  ape_procattr_user_set, ape_procattr_group_set, ape_procattr_create,
}
use prg_buildsh.Proc.Wait.{
  ape_proc_wait, ape_proc_wait_all_procs, ape_proc_detach, ape_proc_kill, ape_pool_note_subprocess,
}
use prg_buildsh.Proc.Create.{
  ape_tokenize_to_argv, ape_proc_in_get, ape_proc_out_get, ape_proc_err_get, ape_proc_create,
}

module _ (L : Lua) (E : Apr) where
  unfoldable pub ape_procattr_methods : Bool → List (Text × M E.World ℕ)
  ape_procattr_methods required =
      (text "io_set", ape_procattr_io_set L E)
      ∷ (text "child_in_set", ape_procattr_child_in_set L E)
      ∷ (text "child_out_set", ape_procattr_child_out_set L E)
      ∷ (text "child_err_set", ape_procattr_child_err_set L E)
      ∷ (text "dir_set", ape_procattr_dir_set L E)
      ∷ (text "cmdtype_set", ape_procattr_cmdtype_set L E)
      ∷ (text "detach_set", ape_procattr_detach_set L E)
      ∷ (text "error_check_set", ape_procattr_error_check_set L E)
      ∷ (text "addrspace_set", ape_procattr_addrspace_set L E)
      ∷ (text "user_set", ape_procattr_user_set L E required)
      ∷ (text "group_set", ape_procattr_group_set L E)
      ∷ []

  unfoldable pub ape_proc_methods : List (Text × M E.World ℕ)
  ape_proc_methods =
      (text "inp", ape_proc_in_get L E)
      ∷ (text "out", ape_proc_out_get L E)
      ∷ (text "err", ape_proc_err_get L E)
      ∷ (text "wait", ape_proc_wait L E)
      ∷ (text "detach", ape_proc_detach L E)
      ∷ (text "kill", ape_proc_kill L E)
      ∷ []

  unfoldable pub ape_proc_functions : Bool → ℕ → List (Text × M E.World ℕ)
  ape_proc_functions required fuel =
      (text "procattr_create", ape_procattr_create L E)
      ∷ (text "procattr_io_set", ape_procattr_io_set L E)
      ∷ (text "procattr_child_in_set", ape_procattr_child_in_set L E)
      ∷ (text "procattr_child_out_set", ape_procattr_child_out_set L E)
      ∷ (text "procattr_child_err_set", ape_procattr_child_err_set L E)
      ∷ (text "procattr_dir_set", ape_procattr_dir_set L E)
      ∷ (text "procattr_cmdtype_set", ape_procattr_cmdtype_set L E)
      ∷ (text "procattr_detach_set", ape_procattr_detach_set L E)
      ∷ (text "procattr_error_check_set", ape_procattr_error_check_set L E)
      ∷ (text "procattr_addrspace_set", ape_procattr_addrspace_set L E)
      ∷ (text "procattr_user_set", ape_procattr_user_set L E required)
      ∷ (text "procattr_group_set", ape_procattr_group_set L E)
      ∷ (text "proc_create", ape_proc_create L E)
      ∷ (text "proc_wait", ape_proc_wait L E)
      ∷ (text "proc_wait_all_procs", ape_proc_wait_all_procs L E fuel)
      ∷ (text "proc_detach", ape_proc_detach L E)
      ∷ (text "proc_kill", ape_proc_kill L E)
      ∷ (text "pool_note_subprocess", ape_pool_note_subprocess L E)
      ∷ (text "tokenize_to_argv", ape_tokenize_to_argv L E)
      ∷ []
