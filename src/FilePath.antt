-- ===== src/FilePath.antt =====
-- File paths: src/ape_fpath.c.
pub mod Lists
use prg_buildsh.Prelude.{
  ℕ, ◌+◌, not, ◌||◌, Option, none, some, List, [], ◌∷◌, ◌==◌, if◌then◌else◌, Text, text,
}
use prg_buildsh.Machine.{
  nil, string, table, index, Lua, Call, PathFlags, Encoding, Apr, M, pure, gets, when, ◌>>=◌, ◌>>◌,
  call, push, read_block, set_table, or_empty, check_string, flag_get, check_table, minus_one,
  count, ape_status,
}
use prg_buildsh.Machine.{fpflags}
use prg_buildsh.Pool.{ape_opt_pool}
use prg_buildsh.Proc.Vectors.{table_strings}

-- `lua_rawseti( L, -2, i+1 )` for each string of an array, from the key i on.
abbrev pub set_array : {W : Type 0} → ℕ → ℕ → List Text → M W (Unit {0})
set_array t i [] = pure tt
set_array t i (s ∷ ss) = do set_table t (index i) (string s); set_array t (i + 1) ss

abbrev elements : Option (List Text) → List Text
elements none = []
elements (some ss) = ss

module _ (L : Lua) (E : Apr) where
  abbrev opt_pool : ℕ → M E.World ℕ
  opt_pool i = do read_block (← ape_opt_pool L E i)

  -- A new table with the strings of an array.
  abbrev pub push_array : Option (List Text) → M E.World (Unit {0})
  push_array array = do t ← call E Call.newtable; push (table t); set_array t 1 (elements array)

  unfoldable pub ape_filepath_root : M E.World ℕ
  ape_filepath_root = do
    fpath ← check_string L 1
    flags ← flag_get L fpflags 2
    pool ← opt_pool 3
    (rv, rpath, rest) ← call E (Call.filepath_root fpath (PathFlags.given flags) pool)
    if (rv == 0) || E.is_eincomplete rv
        then (do
          push (string (or_empty rpath))
          push (string (elim rest [ none ↦ fpath | some r ↦ r ]))
          ape_status E (count 2) 0)
        else ape_status E (count 2) rv

  unfoldable pub ape_filepath_merge : M E.World ℕ
  ape_filepath_merge = do
    rpath ← check_string L 1
    apath ← check_string L 2
    flags ← flag_get L fpflags 3
    pool ← opt_pool 4
    (rv, newpath) ← call E (Call.filepath_merge rpath apath (PathFlags.given flags) pool)
    when (rv == 0) (push (string (or_empty newpath)))
    ape_status E (count 1) rv

  unfoldable pub ape_filepath_list_split : M E.World ℕ
  ape_filepath_list_split = do
    s ← check_string L 1
    pool ← opt_pool 2
    (rv, array) ← call E (Call.filepath_list_split s pool)
    when (rv == 0) (push_array array)
    ape_status E (count 1) rv

  unfoldable pub ape_filepath_list_merge : M E.World ℕ
  unfolding table_strings
  ape_filepath_list_merge = do
    t ← check_table L 1
    pool ← opt_pool 2
    tab ← gets (λ s. s.tables t)
    made ← call E (Call.array_make pool (L.rawlen tab))
    if not made then ape_status E (count 1) E.enomem else (do
      (rv, fp) ← call E (Call.filepath_list_merge (table_strings L tab 1 (L.rawlen tab)) pool)
      when (rv == 0) (push (string (or_empty fp)))
      ape_status E (count 1) rv)

  unfoldable pub ape_filepath_get : M E.World ℕ
  ape_filepath_get = do
    flags ← flag_get L fpflags 1
    pool ← opt_pool 2
    (rv, res) ← call E (Call.filepath_get (PathFlags.given flags) pool)
    when (rv == 0) (push (string (or_empty res)))
    ape_status E (count 1) rv

  unfoldable pub ape_filepath_set : M E.World ℕ
  ape_filepath_set = do
    path ← check_string L 1
    pool ← opt_pool 2
    rv ← call E (Call.filepath_set path pool)
    ape_status E minus_one rv

  unfoldable pub ape_filepath_encoding : M E.World ℕ
  ape_filepath_encoding = do
    pool ← opt_pool 1
    (rv, enc) ← call E (Call.filepath_encoding pool)
    when (rv == 0) (elim enc [
      | Encoding.utf8 ↦ push (string (text "UTF-8"))
      | Encoding.locale ↦ (do
        l ← call E (Call.os_locale_encoding pool)
        push (elim l [ none ↦ nil | some s ↦ string s ]))
      | Encoding.unknown ↦ push (string (text "unknown"))
    ])
    ape_status E (count 1) rv

  unfoldable pub ape_filepath_name_get : M E.World ℕ
  ape_filepath_name_get = do path ← check_string L 1; push (string (E.name_get path)); pure 1

  unfoldable pub ape_fpath_functions : List (Text × M E.World ℕ)
  ape_fpath_functions =
      (text "filepath_root", ape_filepath_root)
      ∷ (text "filepath_merge", ape_filepath_merge)
      ∷ (text "filepath_list_split", ape_filepath_list_split)
      ∷ (text "filepath_list_merge", ape_filepath_list_merge)
      ∷ (text "filepath_get", ape_filepath_get)
      ∷ (text "filepath_set", ape_filepath_set)
      ∷ (text "filepath_encoding", ape_filepath_encoding)
      ∷ (text "filepath_name_get", ape_filepath_name_get)
      ∷ []
