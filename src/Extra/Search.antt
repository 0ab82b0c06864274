-- ===== src/Extra/Search.antt =====
-- `find_file` and `find_exec`: src/ape_extra.c.
use prg_buildsh.Prelude.{
  ℕ, zero, suc, ◌+◌, ◌-◌, Bool, true, false, not, ◌&&◌, ◌||◌, Option, none, some, List, [], ◌∷◌,
  ◌==◌, if◌then◌else◌, length, Text, text,
}
use prg_buildsh.Machine.{
  Value, nil, string, apr_pool, Mask, FileType, Lua, Call, PathFlags, Status, Apr, M, pure, gets,
  ◌>>=◌, ◌>>◌, call, value_at, push, read_block, check_string, check_udata, count, ape_status,
}
use prg_buildsh.Machine.{type, uprot, reg}
use prg_buildsh.Pool.{ape_opt_pool}

abbrev pub is_regular : FileType → Bool
is_regular reg = true
is_regular _ = false

-- `APR_FINFO_UPROT | APR_FINFO_TYPE`
abbrev pub search_mask : Mask
search_mask type = true
search_mask uprot = true
search_mask _ = false

-- `strchr( name, c ) != NULL`
abbrev has_byte : ℕ → Text → Bool
has_byte c [] = false
has_byte c (b ∷ s) = (b == c) || has_byte c s

module _ (E : Apr) where
  unfoldable pub check_read : Text → ℕ → M E.World Status
  check_read path pool = do
    (rv, info) ← call E (Call.stat path search_mask pool)
    if not (rv == 0)
        then pure rv
        else if not (info.valid uprot) || not (info.valid type)
        then pure E.egeneral
        else if is_regular info.filetype && E.may_read info.protection
        then (do push (string path); pure 0)
        else pure E.enoent

  unfoldable pub check_exec : Text → Text → ℕ → M E.World Status
  check_exec name path pool = do
    (rv, info) ← call E (Call.stat path search_mask pool)
    if not (rv == 0)
        then pure rv
        else if not (info.valid uprot) || not (info.valid type)
        then pure E.egeneral
        else if is_regular info.filetype && E.may_execute info.protection
        then (do push (string name); push (string path); pure 0)
        else pure E.enoent

  -- The directories of the search path, in order.
  unfoldable pub check_path : Text → List Text → ℕ → M E.World Status
  check_path name [] pool = pure E.enoent
  check_path name (dir ∷ dirs) pool =
      let rest = check_path name dirs pool in
      do
        (rv, npath) ← call E (Call.filepath_merge dir name PathFlags.truename_native pool)
        if not (rv == 0) then pure rv else elim npath [
          | none ↦ pure E.egeneral
          | some path ↦ (do
            rv ← check_exec name path pool
            if E.is_enoent rv then rest else pure rv)
        ]

module _ (L : Lua) (E : Apr) where
  abbrev is_string : Option Value → Bool
  is_string none = false
  is_string (some v) = elim (L.string_of v) [ none ↦ false | some _ ↦ true ]

  -- The pool that may stand behind the names, and the number of names.
  unfoldable pub trailing_pool : M E.World (ℕ × ℕ)
  trailing_pool = do
    n ← gets (λ s. length s.args)
    last ← gets (value_at n)
    if (n == 0) || is_string last
        then (do pool ← ape_opt_pool L E (n + 1); pure (pool, n))
        else (do pool ← check_udata L apr_pool n; pure (pool, n - 1))

  unfoldable pub find_file_loop : ℕ → ℕ → ℕ → M E.World ℕ
  find_file_loop pool i zero = do push nil; pure 1
  find_file_loop pool i (suc left) =
      let rest = find_file_loop pool (i + 1) left in
      do
        name ← check_string L i
        rv ← check_read E name pool
        if E.is_enoent rv then rest else ape_status E (count 1) rv

  unfoldable pub ape_extra_find_file : M E.World ℕ
  ape_extra_find_file = do (pool, n) ← trailing_pool; h ← read_block pool; find_file_loop h 1 n

  -- A name with a directory separator is not searched for along the path.
  unfoldable pub has_separator : ℕ → Text → Bool
  has_separator dirsep name = has_byte b'/' name || (not (dirsep == b'/') && has_byte dirsep name)

  unfoldable pub find_exec_loop : ℕ → List Text → ℕ → ℕ → ℕ → M E.World ℕ
  find_exec_loop dirsep dirs pool i zero = do push nil; pure 1
  find_exec_loop dirsep dirs pool i (suc left) =
      let rest = find_exec_loop dirsep dirs pool (i + 1) left in
      do
        name ← check_string L i
        rv ←
            (if has_separator dirsep name
              then check_exec E name name pool
              else check_path E name dirs pool)
        if E.is_enoent rv then rest else ape_status E (count 2) rv

  -- n names are searched for, with the pool at h.
  unfoldable pub find_exec_names : ℕ → ℕ → ℕ → M E.World ℕ
  unfolding find_exec_loop
  find_exec_names dirsep h n = do
    (rv, pathenv) ← call E (Call.env_get (text "PATH") h)
    if not (rv == 0) then ape_status E (count 0) rv else elim pathenv [
      | none ↦ ape_status E (count 0) E.egeneral
      | some env ↦ (do
        (rv, array) ← call E (Call.filepath_list_split env h)
        if not (rv == 0) then ape_status E (count 0) rv else elim array [
          | none ↦ ape_status E (count 0) E.egeneral
          | some dirs ↦ find_exec_loop dirsep dirs h 1 n
        ])
    ]

  unfoldable pub ape_extra_find_exec : ℕ → M E.World ℕ
  unfolding find_exec_names
  ape_extra_find_exec dirsep = do
    (pool, n) ← trailing_pool
    h ← read_block pool
    find_exec_names dirsep h n
