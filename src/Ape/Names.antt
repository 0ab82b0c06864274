-- ===== src/Ape/Names.antt =====
-- The names in the module table: src/ape.c and the functions `ape_*_setup`.
use prg_buildsh.Prelude.{◌≡◌, refl, true, List, [], ◌∷◌, ◌++◌, Text, text}
use prg_buildsh.Machine.{Lua, Apr}
use prg_buildsh.Pool.{ape_pool_functions}
use prg_buildsh.Errno.{registered_tests}
use prg_buildsh.Env.{ape_env_functions}
use prg_buildsh.Fnmatch.{ape_fnmatch_functions}
use prg_buildsh.FilePath.{ape_fpath_functions}
use prg_buildsh.File.Names.{ape_file_functions}
use prg_buildsh.User.{ape_user_functions}
use prg_buildsh.Time.{ape_time_functions}
use prg_buildsh.Proc.Names.{ape_proc_functions}
use prg_buildsh.Random.{ape_random_functions}
use prg_buildsh.Extra.Registered.{ape_extra_functions}
use prg_buildsh.Errno.Laws.{distinct}
use prg_buildsh.Ape.Entries.{file_flags, fpath_flags, fnmatch_flags, names_of, flag_names}
use prg_buildsh.Ape.Setup.{Options}
use prg_buildsh.Ape.{Platform, base_functions}

abbrev prefixed : List Text → List Text
prefixed [] = []
prefixed (e ∷ es) = (text "is_" ++ e) ∷ prefixed es

-- Every name under which `luaopen_ape` puts something into the module table, where APR defines all
-- status macros.
abbrev pub module_names : (L : Lua) (E : Apr) → Platform → Options → List Text
unfolding ape_pool_functions ape_env_functions ape_fnmatch_functions ape_fpath_functions
    ape_file_functions ape_user_functions ape_time_functions ape_proc_functions ape_random_functions
    ape_extra_functions base_functions
module_names L E p o =
    names_of (ape_pool_functions L E)
    ++ prefixed registered_tests
    ++ names_of (ape_env_functions L E)
    ++ flag_names fnmatch_flags
    ++ names_of (ape_fnmatch_functions L E)
    ++ (text "FILEPATH_NULL" ∷ flag_names fpath_flags)
    ++ names_of (ape_fpath_functions L E)
    ++ (text "FOPEN_NULL" ∷ flag_names file_flags)
    ++ names_of (ape_file_functions L E)
    ++ names_of (ape_user_functions L E)
    ++ names_of (ape_time_functions L E)
    ++ names_of (ape_proc_functions L E o.password_required o.rounds)
    ++ names_of (ape_random_functions L E)
    ++ names_of (
        ape_extra_functions L E o.dirsep o.buffer_size (E.constant (text "FOPEN_READ"))
          (E.constant (text "FPROT_OS_DEFAULT")) o.rounds)
    ++ (text "hacks" ∷ names_of (base_functions L E p))

-- No two entries of the module table have the same name, so none is lost.
pub module_names-distinct :
    (L : Lua) (E : Apr) (p : Platform) (o : Options) → distinct (module_names L E p o) ≡ true
unfolding module_names
module_names-distinct L E p o = refl
