-- ===== src/Fnmatch.antt =====
-- File name patterns: src/ape_fnmatch.c.
use prg_buildsh.Prelude.{List, [], ◌∷◌, Text, text, ℕ, ◌==◌}
use prg_buildsh.Machine.{
  boolean, Lua, Call, Apr, M, pure, when, ◌>>=◌, ◌>>◌, call, push, read_block, check_string,
  flag_get, count, ape_status,
}
use prg_buildsh.Machine.{fnmflags}
use prg_buildsh.Pool.{ape_opt_pool}
use prg_buildsh.FilePath.{push_array}

module _ (L : Lua) (E : Apr) where
  unfoldable pub ape_fnmatch : M E.World ℕ
  ape_fnmatch = do
    pattern ← check_string L 1
    name ← check_string L 2
    flags ← flag_get L fnmflags 3
    rv ← call E (Call.fnmatch pattern name flags)
    push (boolean (rv == 0))
    pure 1

  unfoldable pub ape_fnmatch_test : M E.World ℕ
  ape_fnmatch_test = do
    pattern ← check_string L 1
    b ← call E (Call.fnmatch_test pattern)
    push (boolean b)
    pure 1

  unfoldable pub ape_match_glob : M E.World ℕ
  ape_match_glob = do
    pattern ← check_string L 1
    pool ← ape_opt_pool L E 2
    h ← read_block pool
    (rv, array) ← call E (Call.match_glob pattern h)
    when (rv == 0) (push_array L E array)
    ape_status E (count 1) rv

  unfoldable pub ape_fnmatch_functions : List (Text × M E.World ℕ)
  ape_fnmatch_functions =
      (text "fnmatch", ape_fnmatch)
      ∷ (text "fnmatch_test", ape_fnmatch_test)
      ∷ (text "match_glob", ape_match_glob)
      ∷ []
