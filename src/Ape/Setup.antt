-- ===== src/Ape/Setup.antt =====
-- The functions `ape_*_setup`, each of which adds its part to the module table at t.
use prg_buildsh.Prelude.{ℕ, Bool, if◌then◌else◌, List, [], ◌∷◌, take, drop, Text, text, ℤ}
use prg_buildsh.Machine.{
  nil, table, Kind, apr_pool, apr_file, apr_dir, apr_uid, apr_gid, apr_time, fattrs, oflags, fperms,
  flock, field, Lua, Call, Apr, M, gets, modify, ◌>>=◌, ◌>>◌, call, set_table,
}
use prg_buildsh.Machine.{fnmflags, fpflags, apr_procattr, apr_proc}
use prg_buildsh.Pool.{ape_pool_create, ape_pool_metamethods, ape_pool_methods, ape_pool_functions}
use prg_buildsh.Errno.{Macros, ape_errno_functions}
use prg_buildsh.Env.{ape_env_functions}
use prg_buildsh.Fnmatch.{ape_fnmatch_functions}
use prg_buildsh.FilePath.{ape_fpath_functions}
use prg_buildsh.File.Names.{ape_file_methods, ape_dir_methods, ape_file_functions}
use prg_buildsh.User.{
  ape_uid_metamethods, ape_uid_methods, ape_gid_metamethods, ape_gid_methods, ape_user_functions,
}
use prg_buildsh.Time.{ape_time_metamethods, ape_time_methods, ape_time_functions}
use prg_buildsh.Proc.Names.{ape_procattr_methods, ape_proc_methods, ape_proc_functions}
use prg_buildsh.Random.{ape_cryptohash_methods, ape_random_functions}
use prg_buildsh.Extra.Registered.{ape_extra_functions, wide_functions}
use prg_buildsh.Ape.Entries.{
  file_flags, fpath_flags, fnmatch_flags, names_of, register, set_flag, define_flags, set_numbers,
}

-- What the build decides, and the rounds given to loops.
pub record Options : Type 0 where
  pub dirsep : ℕ
  pub buffer_size : ℕ
  pub password_required : Bool
  pub rounds : ℕ
  -- Windows, with the names of files in Unicode
  pub unicode_fs : Bool

-- The numbers of fcntl.h under their names, where the C library defines them.
pub record Fcntl : Type 0 where
  pub numbers : List (Text × ℤ)

module _ (L : Lua) (E : Apr) (code : M E.World ℕ → Text) (t : ℕ) where
  -- The default pool goes to the registry.
  unfoldable pub keep_default_pool : M E.World (Unit {0})
  unfolding ape_pool_create
  keep_default_pool = do
    ape_pool_create L E
    pool ← gets (λ s. elim s.pushed [ [] ↦ nil | v ∷ _ ↦ v ])
    call E (Call.set_registry_pool pool)
    modify (λ s. record s { pushed = drop 1 s.pushed })

  unfoldable pub ape_pool_setup : M E.World (Unit {0})
  unfolding keep_default_pool register ape_pool_metamethods ape_pool_methods ape_pool_functions
  ape_pool_setup = do
    call E (
        Call.defobject apr_pool (names_of (ape_pool_metamethods L E))
          (names_of (ape_pool_methods L E)))
    keep_default_pool
    register E code t (ape_pool_functions L E)

  unfoldable pub ape_errno_setup : Macros → M E.World (Unit {0})
  unfolding register ape_errno_functions
  ape_errno_setup X = register E code t (ape_errno_functions L X {W = E.World})

  unfoldable pub ape_env_setup : M E.World (Unit {0})
  unfolding register ape_env_functions
  ape_env_setup = register E code t (ape_env_functions L E)

  unfoldable pub ape_fnmatch_setup : M E.World (Unit {0})
  unfolding register define_flags ape_fnmatch_functions
  ape_fnmatch_setup = do
    call E (Call.flag_def fnmflags)
    define_flags E t fnmatch_flags
    register E code t (ape_fnmatch_functions L E)

  unfoldable pub ape_fpath_setup : M E.World (Unit {0})
  unfolding register define_flags set_flag ape_fpath_functions
  ape_fpath_setup = do
    call E (Call.flag_def fpflags)
    set_flag E t fpflags 0 (text "FILEPATH_NULL")
    define_flags E t fpath_flags
    register E code t (ape_fpath_functions L E)

  unfoldable pub ape_file_setup : M E.World (Unit {0})
  unfolding register define_flags set_flag ape_file_methods ape_dir_methods ape_file_functions
  ape_file_setup = do
    call E (Call.defobject apr_file (text "__gc" ∷ []) (names_of (ape_file_methods L E)))
    call E (Call.defobject apr_dir (text "__gc" ∷ []) (names_of (ape_dir_methods L E)))
    call E (Call.flag_def fattrs)
    call E (Call.flag_def oflags)
    call E (Call.flag_def fperms)
    call E (Call.flag_def flock)
    define_flags E t (take 3 file_flags)
    set_flag E t oflags 0 (text "FOPEN_NULL")
    define_flags E t (drop 3 file_flags)
    register E code t (ape_file_functions L E)

  unfoldable pub ape_user_setup : M E.World (Unit {0})
  unfolding register ape_uid_metamethods ape_uid_methods ape_gid_metamethods ape_gid_methods
      ape_user_functions
  ape_user_setup = do
    call E (
        Call.defobject apr_uid (names_of (ape_uid_metamethods L E))
          (names_of (ape_uid_methods L E)))
    call E (
        Call.defobject apr_gid (names_of (ape_gid_metamethods L E))
          (names_of (ape_gid_methods L E)))
    register E code t (ape_user_functions L E)

  unfoldable pub ape_time_setup : M E.World (Unit {0})
  unfolding register ape_time_metamethods ape_time_methods ape_time_functions
  ape_time_setup = do
    call E (
        Call.defobject apr_time (names_of (ape_time_metamethods L E))
          (names_of (ape_time_methods L E)))
    register E code t (ape_time_functions L E)

  unfoldable pub ape_proc_setup : Options → M E.World (Unit {0})
  unfolding register ape_procattr_methods ape_proc_methods ape_proc_functions
  ape_proc_setup o = do
    call E
        (Call.defobject apr_procattr [] (names_of (ape_procattr_methods L E o.password_required)))
    call E (Call.defobject apr_proc [] (names_of (ape_proc_methods L E)))
    register E code t (ape_proc_functions L E o.password_required o.rounds)

  unfoldable pub ape_random_setup : M E.World (Unit {0})
  unfolding register ape_cryptohash_methods ape_random_functions
  ape_random_setup = do
    call E (Call.defobject Kind.apr_crypto_hash [] (names_of (ape_cryptohash_methods L E)))
    register E code t (ape_random_functions L E)

  -- The table "hacks" holds numbers of the C library, and these functions.
  unfoldable pub set_hacks : Fcntl → List (Text × M E.World ℕ) → M E.World (Unit {0})
  unfolding register
  set_hacks c functions = do
    hacks ← call E Call.newtable
    set_numbers E hacks c.numbers
    register E code hacks functions
    set_table t (field (text "hacks")) (table hacks)

  unfoldable pub ape_extra_setup : Options → Fcntl → M E.World (Unit {0})
  unfolding register set_hacks ape_extra_functions wide_functions
  ape_extra_setup o c = do
    register E code t (
        ape_extra_functions L E o.dirsep o.buffer_size (E.constant (text "FOPEN_READ"))
          (E.constant (text "FPROT_OS_DEFAULT")) o.rounds)
    set_hacks c (if o.unicode_fs then wide_functions L E o.buffer_size o.rounds else [])
