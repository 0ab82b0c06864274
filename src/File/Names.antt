-- ===== src/File/Names.antt =====
-- The functions of `ape_file_setup` in src/ape_file.c under the names by which Lua calls them: the
-- methods of file and directory handles, and the functions of the module.
use prg_buildsh.Prelude.{ℕ, List, [], ◌∷◌, ◌++◌, Text, text}
use prg_buildsh.Machine.{Lua, Apr, M}
use prg_buildsh.File.Dirs.{ape_dir_close, ape_dir_read, ape_dir_rewind, ape_file_info_get, ape_stat}
use prg_buildsh.File.Handles.{
  ape_file_close, ape_file_datasync, ape_file_eof, ape_file_flags_get, ape_file_flush,
  ape_file_inherit_set, ape_file_inherit_unset, ape_file_lock, ape_file_name_get,
  ape_file_pipe_timeout_get, ape_file_pipe_timeout_set, ape_file_puts, ape_file_read, ape_file_seek,
  ape_file_sync, ape_file_trunc, ape_file_unlock, ape_file_write,
}
use prg_buildsh.File.Open.{
  ape_dir_open, ape_file_dup, ape_file_dup2, ape_file_mktemp, ape_file_open,
  ape_file_open_flags_stderr, ape_file_open_flags_stdin, ape_file_open_flags_stdout,
  ape_file_open_stderr, ape_file_open_stdin, ape_file_open_stdout, ape_file_pipe_create,
  ape_file_pipe_create_ex,
}
use prg_buildsh.File.Paths.{
  ape_dir_make, ape_dir_make_recursive, ape_dir_remove, ape_file_append, ape_file_attrs_set,
  ape_file_copy, ape_file_link, ape_file_mtime_set, ape_file_namedpipe_create, ape_file_perms_set,
  ape_file_remove, ape_file_rename, ape_temp_dir_get,
}

module _ (L : Lua) (E : Apr) where
  unfoldable pub ape_file_methods : List (Text × M E.World ℕ)
  ape_file_methods =
      (text "close", ape_file_close L E)
      ∷ (text "eof", ape_file_eof L E)
      ∷ (text "read", ape_file_read L E)
      ∷ (text "write", ape_file_write L E)
      ∷ (text "puts", ape_file_puts L E)
      ∷ (text "flush", ape_file_flush L E)
      ∷ (text "sync", ape_file_sync L E)
      ∷ (text "datasync", ape_file_datasync L E)
      ∷ (text "dup", ape_file_dup L E)
      ∷ (text "seek", ape_file_seek L E)
      ∷ (text "timeout", ape_file_pipe_timeout_get L E)
      ∷ (text "timeout_set", ape_file_pipe_timeout_set L E)
      ∷ (text "lock", ape_file_lock L E)
      ∷ (text "unlock", ape_file_unlock L E)
      ∷ (text "name", ape_file_name_get L E)
      ∷ (text "flags", ape_file_flags_get L E)
      ∷ (text "perms_set", ape_file_perms_set L E)
      ∷ (text "attrs_set", ape_file_attrs_set L E)
      ∷ (text "mtime_set", ape_file_mtime_set L E)
      ∷ (text "info", ape_file_info_get L E)
      ∷ (text "trunc", ape_file_trunc L E)
      ∷ (text "inherit_set", ape_file_inherit_set L E)
      ∷ (text "inherit_unset", ape_file_inherit_unset L E)
      ∷ []

  unfoldable pub ape_dir_methods : List (Text × M E.World ℕ)
  ape_dir_methods =
      (text "close", ape_dir_close L E)
      ∷ (text "read", ape_dir_read L E)
      ∷ (text "rewind", ape_dir_rewind L E)
      ∷ []

  unfoldable pub ape_file_functions_from_open : List (Text × M E.World ℕ)
  ape_file_functions_from_open =
      (text "file_open", ape_file_open L E)
      ∷ (text "file_close", ape_file_close L E)
      ∷ (text "file_remove", ape_file_remove L E)
      ∷ (text "file_rename", ape_file_rename L E)
      ∷ (text "file_link", ape_file_link L E)
      ∷ (text "file_copy", ape_file_copy L E)
      ∷ (text "file_append", ape_file_append L E)
      ∷ (text "file_eof", ape_file_eof L E)
      ∷ (text "file_open_stderr", ape_file_open_stderr L E)
      ∷ (text "file_open_stdout", ape_file_open_stdout L E)
      ∷ (text "file_open_stdin", ape_file_open_stdin L E)
      ∷ (text "file_open_flags_stderr", ape_file_open_flags_stderr L E)
      ∷ (text "file_open_flags_stdout", ape_file_open_flags_stdout L E)
      ∷ (text "file_open_flags_stdin", ape_file_open_flags_stdin L E)
      ∷ (text "file_read", ape_file_read L E)
      ∷ (text "file_write", ape_file_write L E)
      ∷ (text "file_puts", ape_file_puts L E)
      ∷ (text "file_flush", ape_file_flush L E)
      ∷ (text "file_sync", ape_file_sync L E)
      ∷ (text "file_datasync", ape_file_datasync L E)
      ∷ (text "file_dup", ape_file_dup L E)
      ∷ []

  unfoldable pub ape_file_functions_from_pipes : List (Text × M E.World ℕ)
  ape_file_functions_from_pipes =
      (text "file_dup2", ape_file_dup2 L E)
      ∷ (text "file_seek", ape_file_seek L E)
      ∷ (text "file_pipe_create", ape_file_pipe_create L E)
      ∷ (text "file_pipe_create_ex", ape_file_pipe_create_ex L E)
      ∷ (text "file_namedpipe_create", ape_file_namedpipe_create L E)
      ∷ (text "file_pipe_timeout_get", ape_file_pipe_timeout_get L E)
      ∷ (text "file_pipe_timeout_set", ape_file_pipe_timeout_set L E)
      ∷ (text "file_lock", ape_file_lock L E)
      ∷ (text "file_unlock", ape_file_unlock L E)
      ∷ (text "file_name_get", ape_file_name_get L E)
      ∷ (text "file_flags_get", ape_file_flags_get L E)
      ∷ (text "file_perms_set", ape_file_perms_set L E)
      ∷ (text "file_attrs_set", ape_file_attrs_set L E)
      ∷ (text "file_mtime_set", ape_file_mtime_set L E)
      ∷ (text "file_info_get", ape_file_info_get L E)
      ∷ (text "file_trunc", ape_file_trunc L E)
      ∷ (text "file_inherit_set", ape_file_inherit_set L E)
      ∷ (text "file_inherit_unset", ape_file_inherit_unset L E)
      ∷ (text "file_mktemp", ape_file_mktemp L E)
      ∷ (text "dir_make", ape_dir_make L E)
      ∷ (text "dir_make_recursive", ape_dir_make_recursive L E)
      ∷ (text "dir_remove", ape_dir_remove L E)
      ∷ (text "temp_dir_get", ape_temp_dir_get L E)
      ∷ (text "stat", ape_stat L E)
      ∷ (text "dir_open", ape_dir_open L E)
      ∷ (text "dir_close", ape_dir_close L E)
      ∷ (text "dir_read", ape_dir_read L E)
      ∷ (text "dir_rewind", ape_dir_rewind L E)
      ∷ []

  unfoldable pub ape_file_functions : List (Text × M E.World ℕ)
  unfolding ape_file_functions_from_open ape_file_functions_from_pipes
  ape_file_functions = ape_file_functions_from_open ++ ape_file_functions_from_pipes
