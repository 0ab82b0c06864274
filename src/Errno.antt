-- ===== src/Errno.antt =====
-- Tests of status codes: src/ape_errno.c. A test is compiled and registered where APR defines its
-- macro `APR_STATUS_IS_…`; which macros there are, and what they say, is a parameter.
pub mod Laws
use prg_buildsh.Prelude.{
  ℕ, zero, suc, ◌+◌, ◌-◌, ◌*◌, ◌/◌, ◌%◌, ◌^◌, ◌≤◌, ◌<◌, ◌≡◌, refl, sym, ap, ◌∙◌, ◌≢◌, ◌↔◌, ◌⊎◌, inl,
  inr, Bool, true, false, not, ◌&&◌, ◌||◌, Option, none, some, List, [], ◌∷◌, ◌++◌, map, reverse,
  append_assoc, append-nil, arith, ltb, leb, ◌==◌, if◌then◌else◌, ==_iff, Bool-cases, Option-cases,
  length, get_elem?, take, drop, Text, text, text_eq, c_string, ℤ, pos, negsuc,
}
use prg_buildsh.Machine.{
  Value, nil, boolean, number, string, table, userdata, Kind, apr_pool, apr_file, apr_dir, apr_uid,
  apr_gid, apr_time, FlagKind, fattrs, oflags, fperms, flock, Field, Mask, Finfo, FileType, Key,
  field, index, Table, Lua, Call, SeekWhere, PipeBlock, Standard, PathFlags, Encoding, CommandType,
  PipeMode, Status, Answer, Apr, bad_argument, failed, Result, ok, raised, State, M, pure, raise,
  gets, arg_or_raise, modify, when, ◌>>=◌, ◌>>◌, call, value_at, is_none_or_nil, to_boolean,
  results, push, settop, replace_arg, read_block, write_block, store_block, rawset, key_eq,
  set_table, set_field, or_empty, check_bytes, check_string, check_number, opt_number, check_udata,
  flag_get, check_table, option_of, check_option, Untouched, failure, Refuses, Each, is_listed,
  named, except, invoke, Count, minus_one, count, ape_status,
}

-- `defined e` says that the macro exists, `status_is e` is the macro.
pub record Macros : Type 0 where
  pub defined : Text → Bool
  pub status_is : Text → ℤ → Bool

abbrev pub apr_error_tests : List Text
apr_error_tests =
    text "ENOSTAT"
    ∷ text "ENOPOOL"
    ∷ text "EBADDATE"
    ∷ text "EINVALSOCK"
    ∷ text "ENOPROC"
    ∷ text "ENOTIME"
    ∷ text "ENODIR"
    ∷ text "ENOLOCK"
    ∷ text "ENOPOLL"
    ∷ text "ENOSOCKET"
    ∷ text "ENOTHREAD"
    ∷ text "ENOTHDKEY"
    ∷ text "EGENERAL"
    ∷ text "ENOSHMAVAIL"
    ∷ text "EBADIP"
    ∷ text "EBADMASK"
    ∷ text "EDSOOPEN"
    ∷ text "EABSOLUTE"
    ∷ text "ERELATIVE"
    ∷ text "EINCOMPLETE"
    ∷ []

abbrev pub apr_status_tests : List Text
apr_status_tests =
    text "EABOVEROOT"
    ∷ text "EBADPATH"
    ∷ text "EPATHWILD"
    ∷ text "ESYMNOTFOUND"
    ∷ text "EPROC_UNKNOWN"
    ∷ text "ENOTENOUGHENTROPY"
    ∷ text "INCHILD"
    ∷ text "INPARENT"
    ∷ text "DETACH"
    ∷ text "NOTDETACH"
    ∷ text "CHILD_DONE"
    ∷ text "CHILD_NOTDONE"
    ∷ text "TIMEUP"
    ∷ text "INCOMPLETE"
    ∷ text "BADCH"
    ∷ text "BADARG"
    ∷ text "EOF"
    ∷ text "NOTFOUND"
    ∷ text "ANONYMOUS"
    ∷ text "FILEBASED"
    ∷ text "KEYBASED"
    ∷ []

abbrev pub os_error_tests : List Text
os_error_tests =
    text "EINIT"
    ∷ text "ENOTIMPL"
    ∷ text "EMISMATCH"
    ∷ text "EBUSY"
    ∷ text "EACCES"
    ∷ text "EEXIST"
    ∷ text "ENAMETOOLONG"
    ∷ text "ENOENT"
    ∷ text "ENOTDIR"
    ∷ text "ENOSPC"
    ∷ text "ENOMEM"
    ∷ text "EMFILE"
    ∷ text "ENFILE"
    ∷ text "EBADF"
    ∷ text "EINVAL"
    ∷ text "ESPIPE"
    ∷ text "EAGAIN"
    ∷ text "EINTR"
    ∷ text "ENOTSOCK"
    ∷ text "ECONNREFUSED"
    ∷ []

abbrev pub network_error_tests : List Text
network_error_tests =
    text "EINPROGRESS"
    ∷ text "ECONNABORTED"
    ∷ text "ECONNRESET"
    ∷ text "ETIMEDOUT"
    ∷ text "EHOSTUNREACH"
    ∷ text "ENETUNREACH"
    ∷ text "EFTYPE"
    ∷ text "EPIPE"
    ∷ text "EXDEV"
    ∷ text "EAFNOSUPPORT"
    ∷ []

-- The tests that `ape_errno_setup` registers, in its order.
abbrev pub registered_tests : List Text
registered_tests =
    text "ENOSTAT"
    ∷ text "ENOPOOL"
    ∷ text "EBADDATE"
    ∷ text "EINVALSOCK"
    ∷ text "ENOPROC"
    ∷ text "ENOTIME"
    ∷ text "ENODIR"
    ∷ text "ENOLOCK"
    ∷ text "ENOPOLL"
    ∷ text "ENOSOCKET"
    ∷ text "ENOTHREAD"
    ∷ text "ENOTHDKEY"
    ∷ text "EGENERAL"
    ∷ text "ENOSHMAVAIL"
    ∷ text "EBADIP"
    ∷ text "EBADMASK"
    ∷ text "EDSOOPEN"
    ∷ text "EABSOLUTE"
    ∷ text "ERELATIVE"
    ∷ text "EINCOMPLETE"
    ∷ text "EABOVEROOT"
    ∷ text "EBADPATH"
    ∷ text "EPATHWILD"
    ∷ text "ESYMNOTFOUND"
    ∷ text "EPROC_UNKNOWN"
    ∷ text "ENOTENOUGHENTROPY"
    ∷ text "INCHILD"
    ∷ text "INPARENT"
    ∷ text "DETACH"
    ∷ text "NOTDETACH"
    ∷ text "CHILD_DONE"
    ∷ text "CHILD_NOTDONE"
    ∷ text "TIMEUP"
    ∷ text "INCOMPLETE"
    ∷ text "BADCH"
    ∷ text "BADARG"
    ∷ text "EOF"
    ∷ text "NOTFOUND"
    ∷ text "ANONYMOUS"
    ∷ text "FILEBASED"
    ∷ text "KEYBASED"
    ∷ text "EINIT"
    ∷ text "ENOTIMPL"
    ∷ text "EMISMATCH"
    ∷ text "EBUSY"
    ∷ text "EACCES"
    ∷ text "EEXIST"
    ∷ text "ENAMETOOLONG"
    ∷ text "ENOENT"
    ∷ text "ENOTDIR"
    ∷ text "ENOSPC"
    ∷ text "ENOMEM"
    ∷ text "EMFILE"
    ∷ text "ENFILE"
    ∷ text "EBADF"
    ∷ text "EINVAL"
    ∷ text "ESPIPE"
    ∷ text "EAGAIN"
    ∷ text "EINTR"
    ∷ text "ENOTSOCK"
    ∷ text "ECONNREFUSED"
    ∷ text "EINPROGRESS"
    ∷ text "ECONNABORTED"
    ∷ text "ECONNRESET"
    ∷ text "ETIMEDOUT"
    ∷ text "EHOSTUNREACH"
    ∷ text "ENETUNREACH"
    ∷ text "EFTYPE"
    ∷ text "EPIPE"
    ∷ text "EXDEV"
    ∷ text "EAFNOSUPPORT"
    ∷ []

module _ (L : Lua) (X : Macros) {W : Type 0} where
  -- `DEF( e )`: the value of the macro is the number of results that are handed to Lua.
  unfoldable pub ape_status_is : Text → M W ℕ
  ape_status_is e = do status ← check_number L 1; pure (if X.status_is e status then 1 else 0)

  -- `REG( e )`, empty where the macro does not exist
  unfoldable pub register : List Text → List (Text × M W ℕ)
  register [] = []
  register (e ∷ es) =
      let rest = register es in
      if X.defined e then (text "is_" ++ e, ape_status_is e) ∷ rest else rest

  unfoldable pub ape_errno_functions : List (Text × M W ℕ)
  unfolding register
  ape_errno_functions = register registered_tests
