-- ===== src/Ape.antt =====
-- The module: src/ape.c.
pub mod Entries
pub mod Setup
pub mod Names
pub mod Finalizer
use prg_buildsh.Prelude.{
  ℕ, zero, suc, ◌+◌, ◌-◌, ◌*◌, ◌/◌, ◌%◌, ◌^◌, ◌≤◌, ◌<◌, ◌≡◌, refl, sym, ap, ◌∙◌, ◌≢◌, ◌↔◌, ◌⊎◌, inl,
  inr, Bool, true, false, not, ◌&&◌, ◌||◌, Option, none, some, List, [], ◌∷◌, ◌++◌, map, reverse,
  append_assoc, append-nil, arith, ltb, leb, ◌==◌, if◌then◌else◌, ==_iff, Bool-cases, Option-cases,
  length, get_elem?, take, drop, length-append, drop-append, take-append-drop, text_eq_refl,
  eq_of_text_eq, text_eq_sym, Text, text, text_eq, c_string, ℤ, pos, negsuc,
}
use prg_buildsh.Machine.{
  Value, nil, boolean, number, string, table, userdata, Kind, apr_pool, apr_file, apr_dir, apr_uid,
  apr_gid, apr_time, FlagKind, fattrs, oflags, fperms, flock, Field, Mask, Finfo, FileType, Key,
  field, index, Table, Lua, Call, SeekWhere, PipeBlock, Standard, PathFlags, Encoding, CommandType,
  PipeMode, Status, Answer, Apr, bad_argument, failed, out_of_fuel, Result, ok, raised, State, M,
  pure, raise, gets, arg_or_raise, modify, when, ◌>>=◌, ◌>>◌, call, value_at, is_none_or_nil,
  to_boolean, results, push, settop, replace_arg, read_block, write_block, store_block, rawset,
  key_eq, set_table, set_field, or_empty, pointer_of, check_bytes, check_string, check_number,
  opt_number, check_udata, flag_get, check_table, option_of, check_option, Untouched, failure,
  Refuses, Each, is_listed, named, except, invoke, Count, minus_one, count, ape_status,
}
use prg_buildsh.Errno.{Macros}
use prg_buildsh.Ape.Entries.{register}
use prg_buildsh.Ape.Setup.{
  Options, Fcntl, ape_pool_setup, ape_errno_setup, ape_env_setup, ape_fnmatch_setup,
  ape_fpath_setup, ape_file_setup, ape_user_setup, ape_time_setup, ape_proc_setup, ape_random_setup,
  ape_extra_setup,
}

-- The branches of `ape_platform`, of which the compiler takes one.
pub data Platform : Type 0 where
  windows beos macosx os2 unix : Platform

unfoldable pub platform_name : Platform → Text
platform_name windows = text "WINDOWS"
platform_name beos = text "BEOS"
platform_name macosx = text "MACOSX"
platform_name os2 = text "OS2"
platform_name unix = text "UNIX"

module _ (L : Lua) (E : Apr) where
  -- A value that is no userdata, or one whose metatable has no name, has no type name.
  unfoldable pub ape_type : M E.World ℕ
  ape_type = do
    v ← gets (value_at 1)
    elim v [
      | some (userdata p) ↦ elim (L.name_of (userdata p)) [
        | none ↦ pure 0
        | some name ↦ (do push name; pure 1)
      ]
      | _ ↦ pure 0
    ]

  unfoldable pub ape_platform : Platform → M E.World ℕ
  unfolding platform_name
  ape_platform p = do push (string (platform_name p)); pure 1

  unfoldable pub base_functions : Platform → List (Text × M E.World ℕ)
  base_functions p = (text "type", ape_type) ∷ (text "platform", ape_platform p) ∷ []

  -- The finalizer of the flag at p.
  unfoldable pub terminate_apr : ℕ → M E.World ℕ
  terminate_apr p = do
    flag ← read_block p
    if flag == 0 then pure 0 else (do call E Call.terminate; pure 0)

  -- The calls that set the module up, one after the other.
  unfoldable pub run_all : List (M E.World (Unit {0})) → M E.World (Unit {0})
  run_all [] = pure tt
  run_all (m ∷ ms) = do m; run_all ms

  abbrev pub setups :
      (M E.World ℕ → Text) → ℕ → Platform → Options → Fcntl → Macros → List (M E.World (Unit {0}))
  setups code t p o c X =
      ape_pool_setup L E code t
      ∷ ape_errno_setup L E code t X
      ∷ ape_env_setup L E code t
      ∷ ape_fnmatch_setup L E code t
      ∷ ape_fpath_setup L E code t
      ∷ ape_file_setup L E code t
      ∷ ape_user_setup L E code t
      ∷ ape_time_setup L E code t
      ∷ ape_proc_setup L E code t o
      ∷ ape_random_setup L E code t
      ∷ ape_extra_setup L E code t o c
      ∷ register E code t (base_functions p)
      ∷ []

  -- The flag that the finalizer reads is set when APR has been initialized.
  unfoldable pub luaopen_ape :
      (M E.World ℕ → Text) → Platform → Options → Fcntl → Macros → M E.World ℕ
  luaopen_ape code p o c X = do
    flag ← call E Call.finalizer
    write_block flag 0
    push (userdata flag)
    rv ← call E Call.initialize
    if not (rv == 0) then raise (failed (text "APR initialization") rv) else (do
      write_block flag 1
      modify (λ s. record s { pushed = drop 1 s.pushed })
      t ← call E Call.newtable
      push (table t)
      run_all (setups code t p o c X)
      pure 1)
