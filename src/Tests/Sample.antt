-- ===== src/Tests/Sample.antt =====
use prg_buildsh.Prelude.{
  ℕ, suc, ◌-◌, refl, true, false, Option, none, some, List, [], ◌∷◌, ltb, ◌==◌, if◌then◌else◌,
  length, take, Text, text, text_eq, ℤ, pos, negsuc,
}
use prg_buildsh.Machine.{
  Value, nil, number, string, userdata, Kind, Finfo, FileType, Lua, Call, Encoding, Answer, Apr,
  State,
}

abbrev pub plain : Finfo
plain = record {
  valid = λ _. true;
  mtime = 1;
  ctime = 1;
  atime = 1;
  size = pos 4;
  csize = pos 4;
  nlink = pos 1;
  filetype = FileType.reg;
  user = 7;
  group = 7;
  protection = 420;
  name = some (text "b");
}

-- Words are encoded as bytes of the same number; a full buffer is a success, with input left.
-- The world counts the reads and the closed files; the third read finds the end of the file, the
-- fourth one the end of the directory.
abbrev pub answer : (c : Call) → ℕ → Answer c × ℕ
answer (Call.newobject _) w = (100, w)
answer (Call.newobject_ref _) w = (100, w)
answer (Call.newuserdata _) w = (100, w)
answer Call.newtable w = (100, w)
answer (Call.setuvfield _ _ _) w = (tt, w)
answer (Call.getuvfield _ _) w = (nil, w)
answer (Call.getuservalue _) w = (100, w)
answer (Call.flag_new _ _) w = (nil, w)
answer Call.registry_pool w = (100, w)
answer (Call.set_registry_pool _) w = (tt, w)
answer Call.finalizer w = (300, w)
answer (Call.defobject _ _ _) w = (tt, w)
answer (Call.flag_def _) w = (tt, w)
answer Call.initialize w = (0, w)
answer Call.terminate w = (tt, w)
answer (Call.pool_create _) w = ((0, some 200), w)
answer (Call.pool_clear _) w = (tt, w)
answer (Call.pool_destroy _) w = (tt, w)
answer (Call.allocator_get _) w = (100, w)
answer (Call.max_free_set _ _) w = (tt, w)
answer (Call.pstrdup _ _) w = (some (text "x"), w)
answer (Call.file_close _) w = (0, suc w)
answer (Call.file_eof _) w = (0, w)
answer (Call.file_flush _) w = (0, w)
answer (Call.file_sync _) w = (0, w)
answer (Call.file_datasync _) w = (0, w)
answer (Call.file_unlock _) w = (0, w)
answer (Call.file_name_get _) w = ((0, some (text "x")), w)
answer (Call.file_flags_get _) w = (100, w)
answer (Call.file_inherit_set _) w = (0, w)
answer (Call.file_inherit_unset _) w = (0, w)
answer (Call.file_pool_get _) w = (100, w)
answer (Call.pipe_timeout_get _) w = ((0, pos 5), w)
answer (Call.file_read _ _) w = (if ltb w 2 then (0, text "ab") else (70014, []), suc w)
answer (Call.file_write _ bytes n) w = ((0, n), w)
answer (Call.file_puts _ _) w = (0, w)
answer (Call.file_seek _ _ _) w = ((0, pos 5), w)
answer (Call.pipe_timeout_set _ _) w = (0, w)
answer (Call.file_trunc _ _) w = (0, w)
answer (Call.file_lock _ _) w = (0, w)
answer (Call.file_info_get _ _) w = ((0, plain), w)
answer (Call.file_open _ _ _ _) w = ((0, some 200), w)
answer (Call.file_open_std _ _) w = ((0, some 200), w)
answer (Call.file_open_flags_std _ _ _) w = ((0, some 200), w)
answer (Call.file_dup _ _) w = ((0, some 200), w)
answer (Call.file_dup2 _ _ _) w = (0, w)
answer (Call.file_pipe_create _) w = ((0, some 200, some 200), w)
answer (Call.file_pipe_create_ex _ _) w = ((0, some 200, some 200), w)
answer (Call.file_mktemp _ _ _) w = ((0, some 200, text "x"), w)
answer (Call.file_remove _ _) w = (0, w)
answer (Call.file_rename _ _ _) w = (0, w)
answer (Call.file_link _ _) w = (0, w)
answer (Call.file_copy _ _ _ _) w = (0, w)
answer (Call.file_append _ _ _ _) w = (0, w)
answer (Call.namedpipe_create _ _ _) w = (0, w)
answer (Call.dir_make _ _ _) w = (0, w)
answer (Call.dir_make_recursive _ _ _) w = (0, w)
answer (Call.file_perms_set _ _) w = (0, w)
answer (Call.file_attrs_set _ _ _ _) w = (0, w)
answer (Call.file_mtime_set _ _ _) w = (0, w)
answer (Call.stat path _ _) w = (if text_eq path (text "b") then (0, plain) else (2, plain), w)
answer (Call.dir_remove _ _) w = (0, w)
answer (Call.temp_dir_get _) w = ((0, some (text "x")), w)
answer (Call.dir_open _ _) w = ((0, some 200), w)
answer (Call.dir_close _) w = (0, w)
answer (Call.dir_rewind _) w = (0, w)
answer (Call.dir_read _ _) w = ((if ltb w 3 then 0 else 2, plain), suc w)
answer (Call.env_get _ _) w = ((0, some (text "x")), w)
answer (Call.env_set _ _ _) w = (0, w)
answer (Call.env_delete _ _) w = (0, w)
answer (Call.fnmatch _ _ _) w = (0, w)
answer (Call.fnmatch_test _) w = (true, w)
answer (Call.match_glob _ _) w = ((0, none), w)
answer (Call.filepath_root _ _ _) w = ((0, some (text "x"), some (text "x")), w)
answer (Call.filepath_merge _ _ _ _) w = ((0, some (text "x")), w)
answer (Call.filepath_list_split _ _) w = ((0, none), w)
answer (Call.array_make _ _) w = (true, w)
answer (Call.array_push _) w = (true, w)
answer (Call.pstrcat _ s) w = (some s, w)
answer (Call.filepath_list_merge _ _) w = ((0, some (text "x")), w)
answer (Call.filepath_get _ _) w = ((0, some (text "x")), w)
answer (Call.filepath_set _ _) w = (0, w)
answer (Call.filepath_encoding _) w = ((0, Encoding.utf8), w)
answer (Call.os_locale_encoding _) w = (some (text "x"), w)
answer (Call.conv_utf8_to_ucs2 s n) w = ((0, length s - n, take n s), w)
answer (Call.conv_ucs2_to_utf8 words n) w = ((0, length words - n, take n words), w)
answer Call.time_now w = (100, w)
answer (Call.ctime _) w = ((0, text "x"), w)
answer (Call.rfc822_date _) w = ((0, text "x"), w)
answer (Call.sleep _) w = (tt, w)
answer (Call.uid_compare _ _) w = (0, w)
answer (Call.gid_compare _ _) w = (0, w)
answer (Call.uid_name_get _ _) w = ((0, some (text "x")), w)
answer (Call.gid_name_get _ _) w = ((0, some (text "x")), w)
answer (Call.uid_homepath_get _ _) w = ((0, some (text "x")), w)
answer (Call.uid_get _ _) w = ((0, some 200, some 200), w)
answer (Call.gid_get _ _) w = ((0, some 200), w)
answer (Call.uid_current _) w = ((0, some 200, some 200), w)
answer (Call.sha256_new _) w = (100, w)
answer (Call.hash_init _) w = (tt, w)
answer (Call.hash_finish _) w = (text "x", w)
answer (Call.hash_add _ _) w = (tt, w)
answer (Call.mmap_create _ _ _) w = ((0, 100, text "x"), w)
answer (Call.mmap_delete _) w = (0, w)
answer (Call.procattr_create _) w = ((0, some 200), w)
answer (Call.procattr_cmdtype_set _ _) w = (0, w)
answer (Call.procattr_io_set _ _ _ _) w = (0, w)
answer (Call.procattr_child_in_set _ _ _) w = (0, w)
answer (Call.procattr_child_out_set _ _ _) w = (0, w)
answer (Call.procattr_child_err_set _ _ _) w = (0, w)
answer (Call.procattr_dir_set _ _) w = (0, w)
answer (Call.procattr_group_set _ _) w = (0, w)
answer (Call.procattr_detach_set _ _) w = (0, w)
answer (Call.procattr_error_check_set _ _) w = (0, w)
answer (Call.procattr_addrspace_set _ _) w = (0, w)
answer (Call.procattr_user_set _ _ _) w = (0, w)
answer (Call.tokenize_to_argv _ _) w = ((0, text "x" ∷ []), w)
answer (Call.proc_create _ _ _ _ _) w = ((0, 100, some 200, some 200, some 200), w)
answer (Call.proc_wait _ _) w = ((70005, pos 5, true), w)
answer (Call.proc_wait_all_procs _ _) w = ((70005, if ltb w 2 then w else 9, pos 3, true), suc w)
answer (Call.proc_detach _) w = (0, w)
answer (Call.proc_kill _ _) w = (0, w)
answer (Call.note_subprocess _ _ _) w = (tt, w)

abbrev sample_string_of : Value → Option Text
sample_string_of (string s) = some s
sample_string_of _ = none

abbrev sample_number_of : Value → Option ℤ
sample_number_of (number n) = some n
sample_number_of _ = none

abbrev sample_udata_of : Kind → Value → Option ℕ
sample_udata_of _ (userdata p) = some p
sample_udata_of _ _ = none

abbrev sample_size_of : ℤ → ℕ
sample_size_of (pos n) = n
sample_size_of (negsuc n) = 0

abbrev pub sample_lua : Lua
sample_lua = record {
  string_of = sample_string_of;
  number_of = sample_number_of;
  udata_of = sample_udata_of;
  flag_of = λ k v. some 1;
  size_of = sample_size_of;
  rawlen = λ t. 0;
  next_keys = λ t. [];
  next = λ t k. some none;
  to_number = λ n. n;
  to_number_exact = λ n h. refl;
  name_of = λ v. none;
  string_of-string = λ s. refl;
  string_of-nil = refl;
}

abbrev pub sample_apr : Apr
sample_apr = record {
  World = ℕ;
  run = answer;
  strerror = λ rv. text "error";
  constant = λ name. length name;
  ebadf = 9;
  enomem = 12;
  egeneral = 20014;
  enoent = 2;
  einval = 22;
  is_enoent = λ rv. rv == 2;
  is_eof = λ rv. rv == 70014;
  is_incomplete = λ rv. rv == 70008;
  is_eincomplete = λ rv. rv == 20022;
  is_erelative = λ rv. rv == 20020;
  is_child_done = λ rv. rv == 70005;
  child_done = 70005;
  child_notdone = 70006;
  may_read = λ p. true;
  may_execute = λ p. false;
  mmap_candidate = λ n. false;
  name_get = λ path. path;
  time_make = λ a b. 0;
  time_format = λ n. text "t";
  toupper = λ c. if ltb 96 c then c - 32 else c;
  is_child_done_iff = λ rv. refl;
  child_notdone_ne = refl;
  ebadf_ne = refl;
  enomem_ne = refl;
  egeneral_ne = refl;
  enoent_ne = refl;
  einval_ne = refl;
  is_enoent-enoent = refl;
  is_enoent-egeneral = refl;
  is_enoent-success = refl;
}

-- The block at 4 holds the file 30, the block at 6 the pool 8, the block at 5 nothing.
abbrev blocks : ℕ → ℕ
blocks p = if p == 4 then 30 else if p == 6 then 8 else 0

abbrev pub start : List Value → State ℕ
start args = record {
  args = args;
  pushed = [];
  block = blocks;
  tables = λ p k. nil;
  world = 0;
  trace = [];
}
