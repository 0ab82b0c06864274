-- ===== src/Machine/Calls.antt =====
-- The calls that the bindings make of APR and of the moon library, with what each one gives back.
-- Their code is not in the repository: `Apr.run` answers them, and its state is the outside world.
-- A pointer is a number, and NULL is 0. A status comes first where the call returns one; then what
-- it stores through its out parameters, `none` where it leaves such a parameter alone.
use prg_buildsh.Prelude.{ℕ, Bool, true, false, Option, Text, ℤ, ◌≡◌, ◌==◌, List}
use prg_buildsh.Machine.Values.{Value, Kind, FlagKind, Mask, Finfo}

pub data SeekWhere : Type 0 where
  seek_set seek_cur seek_end : SeekWhere

pub data PipeBlock : Type 0 where
  full_block reader_block writer_block full_nonblock : PipeBlock

pub data Standard : Type 0 where
  stdin stdout stderr : Standard

-- The flags of the path functions: those that a script gives, or a constant of the C code.
pub data PathFlags : Type 0 where
  given : ℕ → PathFlags
  native truename_native : PathFlags

pub data Encoding : Type 0 where
  unknown locale utf8 : Encoding

pub data CommandType : Type 0 where
  shellcmd shellcmd_env program program_env program_path : CommandType

pub data PipeMode : Type 0 where
  no_pipe no_file child_block parent_block full_block full_nonblock : PipeMode

pub data KillCondition : Type 0 where
  kill_never kill_always kill_after_timeout just_wait kill_only_once : KillCondition

-- The second argument of `moon_setuvfield` and `moon_getuvfield` is a field of the user value.
pub data Call : Type 0 where
  -- moon
  newobject newobject_ref : Kind → Call
  newuserdata : ℕ → Call
  newtable : Call
  setuvfield : ℕ → Text → Value → Call
  getuvfield : ℕ → Text → Call
  getuservalue : ℕ → Call
  flag_new : FlagKind → ℕ → Call
  registry_pool : Call
  set_registry_pool : Value → Call
  finalizer : Call
  -- `moon_defobject`: the names of metamethods and of methods; and `moon_flag_def_*`
  defobject : Kind → List Text → List Text → Call
  flag_def : FlagKind → Call
  -- the library
  initialize : Call
  terminate : Call
  -- pools and strings
  pool_create : ℕ → Call
  pool_clear pool_destroy : ℕ → Call
  allocator_get : ℕ → Call
  max_free_set : ℕ → ℕ → Call
  pstrdup : ℕ → Text → Call
  -- open files
  file_close file_eof file_flush file_sync file_datasync file_unlock file_name_get : ℕ → Call
  file_flags_get file_inherit_set file_inherit_unset file_pool_get pipe_timeout_get : ℕ → Call
  file_read : ℕ → ℕ → Call
  -- the text that the pointer leads to, and the number of bytes to write of it
  file_write : ℕ → Text → ℕ → Call
  file_puts : Text → ℕ → Call
  file_seek : ℕ → SeekWhere → ℤ → Call
  pipe_timeout_set : ℕ → ℤ → Call
  file_trunc : ℕ → ℤ → Call
  file_lock : ℕ → ℕ → Call
  file_info_get : Mask → ℕ → Call
  -- files by name
  file_open : Text → ℕ → ℕ → ℕ → Call
  file_open_std : Standard → ℕ → Call
  file_open_flags_std : Standard → ℕ → ℕ → Call
  file_dup : ℕ → ℕ → Call
  file_dup2 : ℕ → ℕ → ℕ → Call
  file_pipe_create : ℕ → Call
  file_pipe_create_ex : PipeBlock → ℕ → Call
  file_mktemp : Text → ℕ → ℕ → Call
  file_remove : Text → ℕ → Call
  file_rename : Text → Text → ℕ → Call
  file_link : Text → Text → Call
  file_copy file_append : Text → Text → ℕ → ℕ → Call
  namedpipe_create dir_make dir_make_recursive : Text → ℕ → ℕ → Call
  file_perms_set : Text → ℕ → Call
  file_attrs_set : Text → ℕ → ℕ → ℕ → Call
  file_mtime_set : Text → ℕ → ℕ → Call
  stat : Text → Mask → ℕ → Call
  -- directories
  dir_remove : Text → ℕ → Call
  temp_dir_get : ℕ → Call
  dir_open : Text → ℕ → Call
  dir_close dir_rewind : ℕ → Call
  dir_read : Mask → ℕ → Call
  -- the environment, path names and patterns
  env_get : Text → ℕ → Call
  env_set : Text → Text → ℕ → Call
  env_delete : Text → ℕ → Call
  fnmatch : Text → Text → ℕ → Call
  fnmatch_test : Text → Call
  match_glob : Text → ℕ → Call
  filepath_root : Text → PathFlags → ℕ → Call
  filepath_merge : Text → Text → PathFlags → ℕ → Call
  filepath_list_split : Text → ℕ → Call
  array_make : ℕ → ℕ → Call
  array_push : ℕ → Call
  pstrcat : ℕ → Text → Call
  filepath_list_merge : List Text → ℕ → Call
  filepath_get : PathFlags → ℕ → Call
  filepath_set : Text → ℕ → Call
  filepath_encoding os_locale_encoding : ℕ → Call
  -- the conversions between UTF-8 and 16-bit words, with the room for the result
  conv_utf8_to_ucs2 : Text → ℕ → Call
  conv_ucs2_to_utf8 : List ℕ → ℕ → Call
  -- time
  time_now : Call
  ctime rfc822_date sleep : ℕ → Call
  -- users and groups
  uid_compare gid_compare : ℕ → ℕ → Call
  uid_name_get gid_name_get : ℕ → ℕ → Call
  uid_homepath_get uid_get gid_get : Text → ℕ → Call
  uid_current : ℕ → Call
  -- hashes
  sha256_new hash_init hash_finish : ℕ → Call
  hash_add : ℕ → Text → Call
  mmap_create : ℕ → ℕ → ℕ → Call
  mmap_delete : ℕ → Call
  -- processes
  procattr_create : ℕ → Call
  procattr_cmdtype_set : ℕ → CommandType → Call
  procattr_io_set : ℕ → PipeMode → PipeMode → PipeMode → Call
  procattr_child_in_set procattr_child_out_set procattr_child_err_set : ℕ → ℕ → ℕ → Call
  procattr_dir_set procattr_group_set : ℕ → Text → Call
  procattr_detach_set procattr_error_check_set procattr_addrspace_set : ℕ → Bool → Call
  procattr_user_set : ℕ → Text → Option Text → Call
  tokenize_to_argv : Text → ℕ → Call
  proc_create : Text → List Text → Option (List Text) → ℕ → ℕ → Call
  -- the flag says whether to wait for the end of the process
  proc_wait : ℕ → Bool → Call
  proc_wait_all_procs : Bool → ℕ → Call
  proc_detach : Bool → Call
  proc_kill : ℕ → ℤ → Call
  note_subprocess : ℕ → ℕ → KillCondition → Call

abbrev pub Status : Type 0
Status = ℕ

abbrev pub Answer : Call → Type 0
Answer (Call.newobject _) = ℕ
Answer (Call.newobject_ref _) = ℕ
Answer (Call.newuserdata _) = ℕ
Answer Call.newtable = ℕ
Answer (Call.setuvfield _ _ _) = Unit
Answer (Call.getuvfield _ _) = Value
Answer (Call.getuservalue _) = ℕ
Answer (Call.flag_new _ _) = Value
Answer Call.registry_pool = ℕ
Answer (Call.pool_create _) = Status × Option ℕ
Answer (Call.pool_clear _) = Unit
Answer (Call.pool_destroy _) = Unit
Answer (Call.allocator_get _) = ℕ
Answer (Call.max_free_set _ _) = Unit
Answer (Call.pstrdup _ _) = Option Text
Answer (Call.file_flags_get _) = ℕ
Answer (Call.file_pool_get _) = ℕ
Answer (Call.file_name_get _) = Status × Option Text
Answer (Call.pipe_timeout_get _) = Status × ℤ
Answer (Call.file_read _ _) = Status × Text
Answer (Call.file_write _ _ _) = Status × ℕ
Answer (Call.file_seek _ _ _) = Status × ℤ
Answer (Call.file_info_get _ _) = Status × Finfo
Answer (Call.file_open _ _ _ _) = Status × Option ℕ
Answer (Call.file_open_std _ _) = Status × Option ℕ
Answer (Call.file_open_flags_std _ _ _) = Status × Option ℕ
Answer (Call.file_dup _ _) = Status × Option ℕ
Answer (Call.file_pipe_create _) = Status × Option ℕ × Option ℕ
Answer (Call.file_pipe_create_ex _ _) = Status × Option ℕ × Option ℕ
Answer (Call.file_mktemp _ _ _) = Status × Option ℕ × Text
Answer (Call.stat _ _ _) = Status × Finfo
Answer (Call.temp_dir_get _) = Status × Option Text
Answer (Call.dir_open _ _) = Status × Option ℕ
Answer (Call.dir_read _ _) = Status × Finfo
Answer (Call.env_get _ _) = Status × Option Text
Answer (Call.fnmatch_test _) = Bool
Answer (Call.match_glob _ _) = Status × Option (List Text)
Answer (Call.filepath_root _ _ _) = Status × Option Text × Option Text
Answer (Call.filepath_merge _ _ _ _) = Status × Option Text
Answer (Call.filepath_list_split _ _) = Status × Option (List Text)
Answer (Call.array_make _ _) = Bool
Answer (Call.array_push _) = Bool
Answer (Call.pstrcat _ _) = Option Text
Answer (Call.filepath_list_merge _ _) = Status × Option Text
Answer (Call.filepath_get _ _) = Status × Option Text
Answer (Call.filepath_encoding _) = Status × Encoding
Answer (Call.os_locale_encoding _) = Option Text
-- how much of the input is left, and what has been written
Answer (Call.conv_utf8_to_ucs2 _ _) = Status × ℕ × List ℕ
Answer (Call.conv_ucs2_to_utf8 _ _) = Status × ℕ × Text
Answer Call.time_now = ℕ
Answer (Call.ctime _) = Status × Text
Answer (Call.rfc822_date _) = Status × Text
Answer (Call.sleep _) = Unit
Answer (Call.uid_name_get _ _) = Status × Option Text
Answer (Call.gid_name_get _ _) = Status × Option Text
Answer (Call.uid_homepath_get _ _) = Status × Option Text
Answer (Call.uid_get _ _) = Status × Option ℕ × Option ℕ
Answer (Call.gid_get _ _) = Status × Option ℕ
Answer (Call.uid_current _) = Status × Option ℕ × Option ℕ
Answer (Call.sha256_new _) = ℕ
Answer (Call.hash_init _) = Unit
Answer (Call.hash_finish _) = Text
Answer (Call.hash_add _ _) = Unit
Answer (Call.mmap_create _ _ _) = Status × ℕ × Text
Answer (Call.procattr_create _) = Status × Option ℕ
Answer (Call.proc_create _ _ _ _ _) = Status × ℕ × Option ℕ × Option ℕ × Option ℕ
Answer (Call.proc_wait _ _) = Status × ℤ × Bool
Answer (Call.proc_wait_all_procs _ _) = Status × ℕ × ℤ × Bool
Answer (Call.note_subprocess _ _ _) = Unit
Answer (Call.tokenize_to_argv _ _) = Status × List Text
Answer (Call.set_registry_pool _) = Unit
Answer Call.finalizer = ℕ
Answer (Call.defobject _ _ _) = Unit
Answer (Call.flag_def _) = Unit
Answer Call.terminate = Unit
Answer _ = Status

pub record Apr : Type 1 where
  pub World : Type 0
  pub run : (c : Call) → World → Answer c × World
  -- `apr_strerror`
  pub strerror : Status → Text
  -- the constant `APR_…` of a name
  pub constant : Text → ℕ
  -- `APR_SUCCESS` is 0; the error codes differ between platforms
  pub ebadf : Status
  pub enomem : Status
  pub egeneral : Status
  pub enoent : Status
  pub einval : Status
  pub is_enoent : Status → Bool
  pub is_eof : Status → Bool
  pub is_incomplete : Status → Bool
  pub is_eincomplete : Status → Bool
  pub is_erelative : Status → Bool
  pub is_child_done : Status → Bool
  pub child_done : Status
  pub child_notdone : Status
  -- the bits `APR_FPROT_UREAD` and `APR_FPROT_UEXECUTE` of a protection
  pub may_read : ℕ → Bool
  pub may_execute : ℕ → Bool
  -- `APR_MMAP_CANDIDATE` on a size
  pub mmap_candidate : ℤ → Bool
  -- `apr_filepath_name_get`, `apr_time_make` and the `sprintf` of a time
  pub name_get : Text → Text
  pub time_make : ℤ → ℤ → ℕ
  pub time_format : ℕ → Text
  -- `towupper` of the C library
  pub toupper : ℕ → ℕ
  pub is_child_done_iff : (rv : Status) → is_child_done rv ≡ (rv == child_done)
  pub child_notdone_ne : (child_notdone == child_done) ≡ false
  pub ebadf_ne : (ebadf == 0) ≡ false
  pub enomem_ne : (enomem == 0) ≡ false
  pub egeneral_ne : (egeneral == 0) ≡ false
  pub enoent_ne : (enoent == 0) ≡ false
  pub einval_ne : (einval == 0) ≡ false
  pub is_enoent-enoent : is_enoent enoent ≡ true
  pub is_enoent-egeneral : is_enoent egeneral ≡ false
  pub is_enoent-success : is_enoent 0 ≡ false
