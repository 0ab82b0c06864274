-- ===== src/Extra/Registered.antt =====
-- The functions that `ape_extra_setup` of src/ape_extra.c registers. Parameters are LUA_DIRSEP, the
-- size of a buffer of Lua, two constants of APR, and the rounds given to the loops.
use prg_buildsh.Prelude.{ℕ, List, [], ◌∷◌, Text, text}
use prg_buildsh.Machine.{Lua, Apr, M}
use prg_buildsh.Extra.Search.{ape_extra_find_file, ape_extra_find_exec}
use prg_buildsh.Extra.Collect.{ape_extra_run_collect}
use prg_buildsh.Extra.Names.{ape_extra_basename, ape_extra_dirname}
use prg_buildsh.Extra.Glob.{ape_extra_path_glob}
use prg_buildsh.Extra.HashFile.{ape_extra_hash_file}
use prg_buildsh.Extra.Wide.{ape_extra_ucs2_to_utf8, ape_extra_wupper}

module _ (L : Lua) (E : Apr) (dirsep buffer_size fopen_read os_default fuel : ℕ) where
  unfoldable pub ape_extra_functions : List (Text × M E.World ℕ)
  ape_extra_functions =
      (text "find_file", ape_extra_find_file L E)
      ∷ (text "find_exec", ape_extra_find_exec L E dirsep)
      ∷ (text "run_collect", ape_extra_run_collect L E buffer_size fuel)
      ∷ (text "basename", ape_extra_basename L E)
      ∷ (text "dirname", ape_extra_dirname L E dirsep)
      ∷ (text "path_glob", ape_extra_path_glob L E fuel dirsep)
      ∷ (text "hash_file", ape_extra_hash_file L E fopen_read os_default fuel)
      ∷ []

module _ (L : Lua) (E : Apr) (buffer_size fuel : ℕ) where
  -- What the table "hacks" gets on Windows.
  unfoldable pub wide_functions : List (Text × M E.World ℕ)
  wide_functions =
      (text "ucs2_to_utf8", ape_extra_ucs2_to_utf8 L E buffer_size fuel)
      ∷ (text "wupper", ape_extra_wupper E buffer_size L fuel)
      ∷ []
